-- ===== src/Nop/Orchestrator/Records.antt =====
-- nps_sdk/nop/orchestrator.py, `execute`: what the store says of a task that was executed.
use nps_sdk_python.Nop.Orchestrator.Admission.{
  TaskFrame, PreflightResult, Refusal, admit, probes_pass, agent_actions,
}
use nps_sdk_python.Prelude.{
  ℕ, ◌≡◌, inl, inr, refl, String, false, not, Option, none, some, List, [], ◌∷◌, eqb, eqb_refl,
  string_eq, Result, ok, err, Option-cases, if_intro,
}
use nps_sdk_python.Prelude.Dict
use nps_sdk_python.Prelude.Dict.{Dict, option_map, get-put}
use nps_sdk_python.Nop.Models.{DagNode, TaskState, failed, running, preflight}
use nps_sdk_python.Nop.Json.{Json}
use nps_sdk_python.Nop.Callback.{Urls}
use nps_sdk_python.Nop.Store.{Tasks, TaskRecord, save, update_state, change, get-change}
use nps_sdk_python.Nop.Orchestrator.Loop.{
  NodeOutcome, Event, StoreCall, fail_dependency, Run, waiting, ended, aborted, raised_cancelled,
  no_such_task, run_loop,
}
use nps_sdk_python.Nop.Orchestrator.Outcome.{Task, TaskResult, failure, finish, fail_task}
use nps_sdk_python.Nop.Orchestrator.Task.{
  Execution, refused, returned, raised, store_error, under_way, Deadline, in_time, in_preflight,
  in_loop, in_abort, in_compensation, is_late_probe, ends_waiting, write_call, write_calls,
  write_states, settle_task, time_out, close_task, after_loop, run_task, run_saved, new_record,
  execute_admitted, execute,
}

module _ {ℓ} {V : Type ℓ} (id : String) (before : Tasks V) where
  -- The task is stored, and the records of the others are as before.
  record IsStored (tasks : Tasks V) : Type ℓ where
    stored : (r : TaskRecord V) × (Dict.get tasks id ≡ some r)
    others : (k : String) → eqb id k ≡ false → Dict.get tasks k ≡ Dict.get before k

  -- What `execute` leaves: nothing of a task that it refused, else the task's record, with the state
  -- of the result, if there is one.
  abbrev pub Agrees : Tasks V × Execution V → Type ℓ
  Agrees (tasks, refused r) = tasks ≡ before
  Agrees (tasks, store_error) = tasks ≡ before
  Agrees (tasks, returned r) =
      (option_map (λ record_. record_.state) (Dict.get tasks id) ≡ some r.final_state)
      × ((k : String) → eqb id k ≡ false → Dict.get tasks k ≡ Dict.get before k)
  Agrees (tasks, raised) = (k : String) → eqb id k ≡ false → Dict.get tasks k ≡ Dict.get before k
  Agrees (tasks, under_way) = (k : String) → eqb id k ≡ false → Dict.get tasks k ≡ Dict.get before k

  change-IsStored :
      (f : TaskRecord V → TaskRecord V) (tasks : Tasks V)
      → IsStored tasks
      → IsStored (change f id tasks)
  change-IsStored f tasks i = record {
    stored = (f i.stored.0, rw (get-change f id id tasks, eqb_refl id, i.stored.1) refl);
    others = λ k other. rw (get-change f id k tasks, other) (i.others k other);
  }

  write_call-IsStored :
      (subtask_id : String → String) (call : StoreCall V) (tasks : Tasks V)
      → IsStored tasks
      → IsStored (write_call id subtask_id call tasks)
  write_call-IsStored subtask_id (StoreCall.update_state state) tasks i = change-IsStored _ tasks i
  write_call-IsStored subtask_id (StoreCall.update_subtask node u) tasks i =
      change-IsStored _ tasks i
  write_call-IsStored subtask_id (fail_dependency node) tasks i = change-IsStored _ tasks i

  write_calls-IsStored :
      (subtask_id : String → String) (calls : List (StoreCall V)) (tasks : Tasks V)
      → IsStored tasks
      → IsStored (write_calls id subtask_id calls tasks)
  write_calls-IsStored subtask_id [] tasks i = i
  write_calls-IsStored subtask_id (call ∷ calls) tasks i =
      write_calls-IsStored subtask_id calls (write_call id subtask_id call tasks)
        (write_call-IsStored subtask_id call tasks i)

  write_states-IsStored :
      (states : List TaskState) (tasks : Tasks V)
      → IsStored tasks
      → IsStored (write_states id states tasks)
  write_states-IsStored [] tasks i = i
  write_states-IsStored (state ∷ states) tasks i =
      write_states-IsStored states (update_state id state tasks)
        (change-IsStored (λ r. record r { state = state }) tasks i)

  settle_task-Agrees :
      (r : TaskResult V) (tasks : Tasks V) → IsStored tasks → Agrees (settle_task id r tasks)
  settle_task-Agrees r tasks i =
      let next : IsStored (update_state id r.final_state tasks) =
        change-IsStored (λ old. record old { state = r.final_state }) tasks i in
      (
        rw
            (
              get-change (λ old. record old { state = r.final_state }) id id tasks,
              eqb_refl id,
              i.stored.1,
            )
            refl,
        next.others,
      )

  time_out-Agrees : (tasks : Tasks V) → IsStored tasks → Agrees (time_out id tasks)
  time_out-Agrees tasks i = settle_task-Agrees (failure "NOP-TASK-TIMEOUT" none) tasks i

  close_task-Agrees :
      (deadline : Deadline) (states : List TaskState) (r : TaskResult V) (tasks : Tasks V)
      → IsStored tasks
      → Agrees (close_task deadline id states r tasks)
  close_task-Agrees in_compensation [] r tasks i = settle_task-Agrees r tasks i
  close_task-Agrees in_compensation (state ∷ states) r tasks i =
      time_out-Agrees _ (write_states-IsStored (state ∷ states) tasks i)
  close_task-Agrees in_time states r tasks i =
      settle_task-Agrees r _ (write_states-IsStored states tasks i)
  close_task-Agrees in_preflight states r tasks i =
      settle_task-Agrees r _ (write_states-IsStored states tasks i)
  close_task-Agrees in_loop states r tasks i =
      settle_task-Agrees r _ (write_states-IsStored states tasks i)
  close_task-Agrees in_abort states r tasks i =
      settle_task-Agrees r _ (write_states-IsStored states tasks i)

  save-IsStored : (r : TaskRecord V) → IsStored (Dict.put before id r)
  save-IsStored r = record {
    stored = (r, rw (get-put before id id r, eqb_refl id) refl);
    others = λ k other. rw (get-put before id k r, other) refl;
  }

module _ {ℓ} {N V : Type ℓ} (json : Json N V) (result_key : ℕ → String)
    (undo : DagNode → NodeOutcome V) where
  after_loop-Agrees :
      (subtask_id : String → String) (deadline : Deadline) (late : List (StoreCall V))
      (frame : TaskFrame) (task : Task) (loop : Run V) (before tasks : Tasks V)
      → IsStored frame.task_id before tasks
      → Agrees frame.task_id before
          (after_loop json result_key undo subtask_id deadline late frame task loop tasks)
  after_loop-Agrees subtask_id deadline late frame task (ended s) before tasks i =
      close_task-Agrees frame.task_id before deadline _ (finish json result_key undo task s) _ (
        write_calls-IsStored frame.task_id before subtask_id late _
          (write_calls-IsStored frame.task_id before subtask_id s.calls tasks i))
  after_loop-Agrees subtask_id deadline late frame task (aborted n s) before tasks i =
      let waited =
        write_calls-IsStored frame.task_id before subtask_id late _
          (write_calls-IsStored frame.task_id before subtask_id s.calls tasks i) in
      if_intro {A = Tasks V × Execution V} (Agrees frame.task_id before)
        (ends_waiting deadline s.in_flight)
        (λ over. close_task-Agrees frame.task_id before deadline _ (fail_task undo task s) _ waited)
        (λ late. time_out-Agrees frame.task_id before _ waited)
  after_loop-Agrees subtask_id deadline late frame task (raised_cancelled s) before tasks i =
      (write_calls-IsStored frame.task_id before subtask_id s.calls tasks i).others
  after_loop-Agrees subtask_id deadline late frame task no_such_task before tasks i = i.others
  after_loop-Agrees subtask_id in_loop late frame task (waiting s) before tasks i =
      time_out-Agrees frame.task_id before _
        (write_calls-IsStored frame.task_id before subtask_id s.calls tasks i)
  after_loop-Agrees subtask_id in_time late frame task (waiting s) before tasks i =
      (write_calls-IsStored frame.task_id before subtask_id s.calls tasks i).others
  after_loop-Agrees subtask_id in_preflight late frame task (waiting s) before tasks i =
      (write_calls-IsStored frame.task_id before subtask_id s.calls tasks i).others
  after_loop-Agrees subtask_id in_abort late frame task (waiting s) before tasks i =
      (write_calls-IsStored frame.task_id before subtask_id s.calls tasks i).others
  after_loop-Agrees subtask_id in_compensation late frame task (waiting s) before tasks i =
      (write_calls-IsStored frame.task_id before subtask_id s.calls tasks i).others

module _ {ℓ} {N V : Type ℓ} (json : Json N V) (result_key : ℕ → String)
    (undo : DagNode → NodeOutcome V) (probe : String → String → Option PreflightResult)
    (max : ℕ) where
  run_task-Agrees :
      (subtask_id : String → String) (deadline : Deadline) (late : List (StoreCall V))
      (frame : TaskFrame) (task : Task) (events : List (Event V)) (before tasks : Tasks V)
      → IsStored frame.task_id before tasks
      → Agrees frame.task_id before
          (run_task json result_key undo probe max subtask_id deadline late frame task events tasks)
  run_task-Agrees subtask_id deadline late frame task events before tasks i =
      let P : Tasks V × Execution V → Type ℓ = Agrees frame.task_id before in
      let set : (state : TaskState) (ts : Tasks V)
          → IsStored frame.task_id before ts
          → IsStored frame.task_id before (update_state frame.task_id state ts) =
        λ state ts. change-IsStored frame.task_id before (λ r. record r { state = state }) ts in
      let run : (ts : Tasks V)
          → IsStored frame.task_id before ts
          → P (
              after_loop json result_key undo subtask_id deadline late frame task
                (run_loop max task.dag events) (update_state frame.task_id running ts)) =
        λ ts j.
          after_loop-Agrees json result_key undo subtask_id deadline late frame task
            (run_loop max task.dag events) before (update_state frame.task_id running ts)
            (set running ts j) in
      let probed : Tasks V = update_state frame.task_id preflight tasks in
      if_intro P (not frame.preflight_requested) (λ plain. run tasks i)
        (λ asked.
          if_intro P (is_late_probe deadline)
            (λ over. time_out-Agrees frame.task_id before probed (set preflight tasks i))
            (λ ready.
              if_intro P (probes_pass probe (agent_actions task.dag.nodes []))
                (λ passes. run probed (set preflight tasks i))
                (λ fails.
                  settle_task-Agrees frame.task_id before (failure "NOP-RESOURCE-INSUFFICIENT" none)
                    (update_state frame.task_id failed probed)
                    (set failed probed (set preflight tasks i)))))

  run_saved-Agrees :
      (subtask_id : String → String) (deadline : Deadline) (late : List (StoreCall V))
      (frame : TaskFrame) (task : Task) (events : List (Event V)) (tasks : Tasks V)
      → Agrees frame.task_id tasks (
          run_saved json result_key undo probe max subtask_id deadline late frame task events tasks
            (save frame.task_id (new_record json result_key undo probe max) tasks))
  run_saved-Agrees subtask_id deadline late frame task events tasks =
      elim (Option-cases (Dict.get tasks frame.task_id)) [
        | inl absent ↦
            rw (save, absent)
              (run_task-Agrees subtask_id deadline late frame task events tasks
                (Dict.put tasks frame.task_id (new_record json result_key undo probe max))
                (save-IsStored frame.task_id tasks (new_record json result_key undo probe max)))
        | inr (r, there) ↦ rw (save, there) refl
      ]

  execute_admitted-Agrees :
      (subtask_id : String → String) (deadline : Deadline) (late : List (StoreCall V))
      (strategy : String) (frame : TaskFrame) (events : List (Event V)) (tasks : Tasks V)
      (admitted : Result Refusal (List String))
      → Agrees frame.task_id tasks (
          execute_admitted json result_key undo probe max subtask_id deadline late strategy frame
            events tasks admitted)
  execute_admitted-Agrees subtask_id deadline late strategy frame events tasks (err r) = refl
  execute_admitted-Agrees subtask_id deadline late strategy frame events tasks (ok order) =
      run_saved-Agrees subtask_id deadline late frame _ events tasks

  -- Whatever the loop, the worker tasks, the compensation and `cancel` write, and wherever the time
  -- runs out: executing a task never changes the record of another one. A task that is refused leaves
  -- the store as it was; for one that returns a result, the store has the final state of that result.
  pub execute-Agrees :
      {B : Type 0} (urls : Urls B) (iterate : List String → List String)
      (subtask_id : String → String) (deadline : Deadline) (late : List (StoreCall V))
      (strategy : String) (frame : TaskFrame) (events : List (Event V)) (tasks : Tasks V)
      → Agrees frame.task_id tasks (
          execute json result_key undo probe max urls iterate subtask_id deadline late strategy
            frame events tasks)
  unfolding execute
  execute-Agrees urls iterate subtask_id deadline late strategy frame events tasks =
      execute_admitted-Agrees subtask_id deadline late strategy frame events tasks
        (admit urls iterate frame tasks)
