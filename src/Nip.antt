-- ===== src/Nip.antt =====
-- nps_sdk/nip: enrollment of agents at the CA, the policy of live revocation, the node's verifier.
pub mod Tokens
pub mod Pending
pub mod Revocation
pub mod Verifier
