-- ===== src/Nop.antt =====
-- nps_sdk/nop: orchestration.
pub mod Aggregator
pub mod Callback
pub mod Condition
pub mod Dag
pub mod Delegation
pub mod InputMapper
pub mod Json
pub mod Models
pub mod Orchestrator
pub mod Store
