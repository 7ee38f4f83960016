-- ===== src/Ncp.antt =====
-- nps_sdk/ncp: the admission of native connections and their failover.
pub mod Failover
