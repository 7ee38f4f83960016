-- ===== src/Ndp.antt =====
-- nps_sdk/ndp: announcements, and finding nodes by them.
pub mod Cluster
pub mod Registry
