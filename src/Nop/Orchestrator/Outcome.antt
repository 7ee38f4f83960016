-- ===== src/Nop/Orchestrator/Outcome.antt =====
-- nps_sdk/nop/orchestrator.py, `_run_dag`: the task's result once the loop is over.
use nps_sdk_python.Prelude.{
  ℕ, String, Bool, Option, none, some, List, [], any, string_eq, if◌then◌else◌,
}
use nps_sdk_python.Prelude.Dict
use nps_sdk_python.Prelude.Dict.{Dict, holds, get-put, keys_where}
use nps_sdk_python.Nop.Models.{
  DagNode, TaskDag, TaskState, completed, failed, is_failure, runs_on_failure, runs_on_success,
}
use nps_sdk_python.Nop.Json.{Json}
use nps_sdk_python.Nop.Aggregator.{aggregate_end_nodes}
use nps_sdk_python.Nop.Orchestrator.Plan.{States}
use nps_sdk_python.Nop.Orchestrator.Loop.{
  RunState, NodeOutcome, Event, ended, aborted, dependency_failed, ids, all_nodes, end_nodes,
  run_loop,
}
use nps_sdk_python.Nop.Orchestrator.Saga.{
  Saga, SagaCompensationResult, run_saga_compensation, compensation_failure_error_code,
}

-- NopTaskResult, without the message
pub record TaskResult {ℓ} (V : Type ℓ) : Type ℓ where
  pub final_state : TaskState
  pub aggregated_result : Option V
  pub error_code : Option String
  pub node_results : Dict String V
  pub compensation : Option SagaCompensationResult

-- what of a TaskFrame `_run_dag` reads, the order the validator found, and the option
pub record Task : Type 0 where
  pub dag : TaskDag
  pub topo_order : List String
  pub compensation_policy : Option String
  pub default_aggregate_strategy : String

abbrev pub some_end_failed : TaskDag → States → Bool
some_end_failed dag states = any (λ e. holds is_failure (Dict.get states e.id)) (end_nodes dag)

module _ {ℓ} {V : Type ℓ} where
  -- NopTaskResult.success and NopTaskResult.failure
  abbrev pub success : V → Dict String V → Option SagaCompensationResult → TaskResult V
  success aggregated results compensation = record {
    final_state = completed;
    aggregated_result = some aggregated;
    error_code = none;
    node_results = results;
    compensation = compensation;
  }

  abbrev pub failure : String → Option SagaCompensationResult → TaskResult V
  failure error_code compensation = record {
    final_state = failed;
    aggregated_result = none;
    error_code = some error_code;
    node_results = [];
    compensation = compensation;
  }

  abbrev pub saga_of : (DagNode → NodeOutcome V) → Task → RunState V → Saga
  saga_of undo task s =
      run_saga_compensation undo task.compensation_policy (all_nodes task.dag) task.topo_order
        s.states

  abbrev pub compensation_of :
      (DagNode → NodeOutcome V) → Task → Bool → RunState V → Option SagaCompensationResult
  compensation_of undo task runs s = if runs then some (saga_of undo task s).result else none

  -- the states that the compensation gives the task
  abbrev pub states_of : (DagNode → NodeOutcome V) → Task → Bool → RunState V → List TaskState
  states_of undo task runs s = if runs then (saga_of undo task s).states else []

  abbrev pub fail_states : (DagNode → NodeOutcome V) → Task → RunState V → List TaskState
  fail_states undo task s = states_of undo task (runs_on_failure task.compensation_policy) s

  -- the two `return NopTaskResult.failure(...)`
  abbrev pub fail_task : (DagNode → NodeOutcome V) → Task → RunState V → TaskResult V
  fail_task undo task s =
      let compensation = compensation_of undo task (runs_on_failure task.compensation_policy) s in
      failure
        (elim (compensation_failure_error_code task.compensation_policy compensation) [
          | none ↦ dependency_failed
          | some code ↦ code
        ])
        compensation

  -- what stands behind the loop
  abbrev pub finish :
      {N : Type ℓ}
      → Json N V
      → (ℕ → String)
      → (DagNode → NodeOutcome V)
      → Task
      → RunState V
      → TaskResult V
  finish json result_key undo task s =
      if some_end_failed task.dag s.states
      then fail_task undo task s
      else success
          (aggregate_end_nodes json result_key (ids (end_nodes task.dag)) s.results
            task.default_aggregate_strategy)
          s.results (compensation_of undo task (runs_on_success task.compensation_policy) s)

  abbrev pub finish_states : (DagNode → NodeOutcome V) → Task → RunState V → List TaskState
  finish_states undo task s =
      if some_end_failed task.dag s.states
      then fail_states undo task s
      else states_of undo task (runs_on_success task.compensation_policy) s

  -- _run_dag over a schedule; none for a CancelledError, or while the loop waits
  unfoldable pub run_dag :
      {N : Type ℓ}
      → Json N V
      → (ℕ → String)
      → (DagNode → NodeOutcome V)
      → ℕ
      → Task
      → List (Event V)
      → Option (TaskResult V)
  run_dag json result_key undo max task events = elim (run_loop max task.dag events) [
    | ended s ↦ some (finish json result_key undo task s)
    | aborted id s ↦ some (fail_task undo task s)
    | _ ↦ none
  ]
