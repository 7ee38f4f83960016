-- ===== src/Nwp.antt =====
-- nps_sdk/nwp: nodes and their clients.
pub mod ContextStore
