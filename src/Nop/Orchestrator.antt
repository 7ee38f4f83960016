-- ===== src/Nop/Orchestrator.antt =====
-- nps_sdk/nop/orchestrator.py, NopOrchestrator: what it decides about one task. `Plan` has the tests
-- on a node's dependencies, `Loop` the loop that runs the graph (`_run_dag`), `Node` the retries and
-- the stream of one node, `Saga` the compensation.
pub mod Plan
pub mod Search
pub mod Loop
pub mod Invariant
pub mod Launch
pub mod Reached
pub mod Once
pub mod Progress
pub mod Saga
pub mod Precedence
pub mod Compensation
pub mod Counts
pub mod Outcome
pub mod Abort
pub mod Node
pub mod Admission
pub mod Task
pub mod Notify
pub mod Records
pub mod Stream
pub mod Attempts
mod Examples
mod TaskExamples
mod NodeExamples
pub mod Idle
pub mod Complete
