-- ===== src/Core.antt =====
-- piqo-core: the domain types of sessions, permissions and replayable event logs.
pub mod Json
pub mod Phases
pub mod Orchestration
pub mod Context
pub mod Permissions
pub mod Errors
pub mod Event
pub mod EventLog
pub mod SessionState
pub mod Projection
