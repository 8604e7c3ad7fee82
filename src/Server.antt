-- ===== src/Server.antt =====
-- piqo-server: admission of runs, tool permissions, the event store and the framing of streams.
pub mod Admission
pub mod ToolPermissions
pub mod Sse
pub mod Truncation
pub mod Storage
pub mod PermissionRules
pub mod Supervisor
