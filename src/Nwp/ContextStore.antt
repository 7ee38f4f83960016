-- ===== src/Nwp/ContextStore.antt =====
-- nps_sdk/nwp/context_store.py: the in-memory store of LLM contexts with its reservations.
mod Examples
pub mod State
pub mod Guards
pub mod Operations
pub mod Lifecycle
pub mod Invariant
pub mod Reserving
pub mod Committing
pub mod Ending
pub mod Limits
pub mod Safety
