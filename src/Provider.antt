-- ===== src/Provider.antt =====
-- The crate `piqo-provider`: the request bodies that are sent to a provider.
pub mod Bodies
