-- ===== src/Nop/Orchestrator/Task.antt =====
-- nps_sdk/nop/orchestrator.py: `execute` behind its guards (Admission) and `_run_task`, over the store
-- in memory. The calls of the store are kept, those of the loop, of the worker tasks and of
-- `cancel` in the order of the schedule, with one id for the subtasks of a node.
use nps_sdk_python.Prelude.{
  ℕ, String, Bool, true, false, not, Option, none, some, List, [], ◌∷◌, string_eq, Result, ok, err,
  if◌then◌else◌,
}
use nps_sdk_python.Prelude.Dict
use nps_sdk_python.Prelude.Dict.{Dict}
use nps_sdk_python.Nop.Models.{
  DagNode, TaskState, is_empty, pending, preflight, running, failed, cancelled,
}
use nps_sdk_python.Nop.Json.{Json}
use nps_sdk_python.Nop.Callback.{Urls}
use nps_sdk_python.Nop.Store.{Tasks, TaskRecord, StoreError, save, update_state, update_subtask}
use nps_sdk_python.Nop.Orchestrator.Loop.{
  NodeOutcome, Event, StoreCall, fail_dependency, dependency_failed, Run, waiting, ended, aborted,
  raised_cancelled, no_such_task, run_loop,
}
use nps_sdk_python.Nop.Orchestrator.Outcome.{
  Task, TaskResult, failure, finish, fail_task, finish_states, fail_states,
}
use nps_sdk_python.Nop.Orchestrator.Admission.{
  TaskFrame, PreflightResult, Refusal, agent_actions, probes_pass, admit,
}

-- how `execute` ends: it returns, it raises CancelledError, or it is still under way
pub data Execution {ℓ} (V : Type ℓ) : Type ℓ where
  refused : Refusal → Execution V
  returned : TaskResult V → Execution V
  raised : Execution V
  store_error : Execution V  -- the ValueError of `save`
  under_way : Execution V

-- where wait_for gives up: never, or at an `await` of the preflight, of the loop, of
-- _wait_and_abort_in_flight or of the compensation
pub data Deadline : Type 0 where
  in_time in_preflight in_loop in_abort in_compensation : Deadline

-- whether the time runs out while the preflight is gathered
abbrev pub is_late_probe : Deadline → Bool
is_late_probe in_preflight = true
is_late_probe deadline = false

-- whether _wait_and_abort_in_flight ends in time: it waits for the tasks in flight
abbrev pub ends_waiting : Deadline → List DagNode → Bool
ends_waiting in_abort in_flight = is_empty in_flight
ends_waiting deadline in_flight = true

module _ {ℓ} {V : Type ℓ} where
  abbrev pub write_call : String → (String → String) → StoreCall V → Tasks V → Tasks V
  write_call id subtask_id (StoreCall.update_state state) tasks = update_state id state tasks
  write_call id subtask_id (StoreCall.update_subtask node u) tasks =
      update_subtask id node (subtask_id node) u.state u.result u.error_code u.attempt tasks
  write_call id subtask_id (fail_dependency node) tasks =
      update_subtask id node (subtask_id node) failed none (some dependency_failed) 1 tasks

  abbrev pub write_calls : String → (String → String) → List (StoreCall V) → Tasks V → Tasks V
  write_calls id subtask_id [] tasks = tasks
  write_calls id subtask_id (call ∷ calls) tasks =
      write_calls id subtask_id calls (write_call id subtask_id call tasks)

  -- the states that the compensation gives the task
  abbrev pub write_states : String → List TaskState → Tasks V → Tasks V
  write_states id [] tasks = tasks
  write_states id (state ∷ states) tasks = write_states id states (update_state id state tasks)

  -- what stands behind `await asyncio.wait_for(...)` when it returns a result
  abbrev pub settle_task : String → TaskResult V → Tasks V → Tasks V × Execution V
  settle_task id r tasks = (update_state id r.final_state tasks, returned r)

  -- `except asyncio.TimeoutError`
  abbrev pub time_out : String → Tasks V → Tasks V × Execution V
  time_out id tasks = (update_state id failed tasks, returned (failure "NOP-TASK-TIMEOUT" none))

  -- the compensation, which the time may run out in while it sends, and then the result
  abbrev pub close_task :
      Deadline → String → List TaskState → TaskResult V → Tasks V → Tasks V × Execution V
  close_task in_compensation id [] r tasks = settle_task id r tasks
  close_task in_compensation id (state ∷ states) r tasks =
      time_out id (write_states id (state ∷ states) tasks)
  close_task deadline id states r tasks = settle_task id r (write_states id states tasks)

module _ {ℓ} {N V : Type ℓ} (json : Json N V) (result_key : ℕ → String)
    (undo : DagNode → NodeOutcome V) where
  -- `execute` behind the loop of _run_dag, by where the loop stands. `late` are the calls of the store
  -- that the tasks in flight, or `cancel`, make while `_run_task` waits behind the loop.
  abbrev pub after_loop :
      (String → String)
      → Deadline
      → List (StoreCall V)
      → TaskFrame
      → Task
      → Run V
      → Tasks V
      → Tasks V × Execution V
  after_loop subtask_id deadline late frame task (ended s) tasks =
      close_task deadline frame.task_id (finish_states undo task s)
        (finish json result_key undo task s)
        (write_calls frame.task_id subtask_id late
          (write_calls frame.task_id subtask_id s.calls tasks))
  after_loop subtask_id deadline late frame task (aborted id s) tasks =
      let waited =
        write_calls frame.task_id subtask_id late
          (write_calls frame.task_id subtask_id s.calls tasks) in
      if ends_waiting deadline s.in_flight
      then close_task deadline frame.task_id (fail_states undo task s) (fail_task undo task s)
          waited
      else time_out frame.task_id waited
  after_loop subtask_id deadline late frame task (raised_cancelled s) tasks =
      (write_calls frame.task_id subtask_id s.calls tasks, raised)
  after_loop subtask_id deadline late frame task no_such_task tasks = (tasks, under_way)
  after_loop subtask_id in_loop late frame task (waiting s) tasks =
      time_out frame.task_id (write_calls frame.task_id subtask_id s.calls tasks)
  after_loop subtask_id deadline late frame task (waiting s) tasks =
      (write_calls frame.task_id subtask_id s.calls tasks, under_way)

module _ {ℓ} {N V : Type ℓ} (json : Json N V) (result_key : ℕ → String)
    (undo : DagNode → NodeOutcome V) (probe : String → String → Option PreflightResult)
    (max_concurrent_nodes : ℕ) where
  -- _run_task
  abbrev pub run_task :
      (String → String)
      → Deadline
      → List (StoreCall V)
      → TaskFrame
      → Task
      → List (Event V)
      → Tasks V
      → Tasks V × Execution V
  run_task subtask_id deadline late frame task events tasks =
      let run : Tasks V → Tasks V × Execution V = λ started.
        after_loop json result_key undo subtask_id deadline late frame task
          (run_loop max_concurrent_nodes task.dag events)
          (update_state frame.task_id running started) in
      if not frame.preflight_requested
      then run tasks
      else let probed = update_state frame.task_id preflight tasks in
        if is_late_probe deadline
        then time_out frame.task_id probed
        else if probes_pass probe (agent_actions task.dag.nodes [])
        then run probed
        else settle_task frame.task_id (failure "NOP-RESOURCE-INSUFFICIENT" none)
            (update_state frame.task_id failed probed)

  -- `execute` behind the guards: the record is saved and the task run
  abbrev pub run_saved :
      (String → String)
      → Deadline
      → List (StoreCall V)
      → TaskFrame
      → Task
      → List (Event V)
      → Tasks V
      → Result StoreError (Tasks V)
      → Tasks V × Execution V
  run_saved subtask_id deadline late frame task events tasks (err e) = (tasks, store_error)
  run_saved subtask_id deadline late frame task events tasks (ok stored) =
      run_task subtask_id deadline late frame task events stored

  abbrev pub new_record : TaskRecord V
  new_record = record { state = pending; subtasks = [] }

  abbrev pub execute_admitted :
      (String → String)
      → Deadline
      → List (StoreCall V)
      → String
      → TaskFrame
      → List (Event V)
      → Tasks V
      → Result Refusal (List String)
      → Tasks V × Execution V
  execute_admitted subtask_id deadline late strategy frame events tasks (err r) = (tasks, refused r)
  execute_admitted subtask_id deadline late strategy frame events tasks (ok order) =
      run_saved subtask_id deadline late frame
        (record {
          dag = frame.dag;
          topo_order = order;
          compensation_policy = frame.compensation_policy;
          default_aggregate_strategy = strategy;
        })
        events tasks (save frame.task_id new_record tasks)

  -- execute
  unfoldable pub execute :
      {B : Type 0}
      → Urls B
      → (List String → List String)
      → (String → String)
      → Deadline
      → List (StoreCall V)
      → String
      → TaskFrame
      → List (Event V)
      → Tasks V
      → Tasks V × Execution V
  execute urls iterate subtask_id deadline late strategy frame events tasks =
      execute_admitted subtask_id deadline late strategy frame events tasks
        (admit urls iterate frame tasks)

-- cancel, which also sets the task's cancel_event: the event `cancels` of its loop
abbrev cancel {ℓ} : {V : Type ℓ} → String → Tasks V → Tasks V
cancel id tasks = update_state id cancelled tasks

-- get_status
abbrev get_status {ℓ} : {V : Type ℓ} → String → Tasks V → Option (TaskRecord V)
get_status id tasks = Dict.get tasks id
