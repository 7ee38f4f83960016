-- ===== src/Nop/Orchestrator/Loop.antt =====
-- nps_sdk/nop/orchestrator.py, `_run_dag`: the loop. What happens while it waits is an event, in any
-- order: a node in flight writes its subtask or gives its outcome, or the task is cancelled. A dict of nodes is the list of its values, a dict of running tasks the list of their nodes.
use nps_sdk_python.Prelude.{
  ℕ, String, Bool, true, false, not, ◌&&◌, Option, none, some, List, [], ◌∷◌, ◌++◌, map, ltb, leb,
  length, select, any, mem, eqb, string_eq, if◌then◌else◌,
}
use nps_sdk_python.Prelude.Dict
use nps_sdk_python.Prelude.Dict.{Dict, keys}
use nps_sdk_python.Nop.Models.{
  DagNode, TaskDag, TaskState, is_failure, is_completed, is_empty, failed, cancelled,
}
use nps_sdk_python.Nop.Orchestrator.Plan.{
  States, required, successes, are_deps_done, can_end_node_still_succeed, can_reach_end_node,
}

abbrev pub dependency_failed : String
dependency_failed = "NOP-SYNC-DEPENDENCY-FAILED"

-- _NodeOutcome, without the message
pub record NodeOutcome {ℓ} (V : Type ℓ) : Type ℓ where
  pub state : TaskState
  pub result : Option V  -- none is Python's None
  pub error_code : Option String

-- the arguments of update_subtask, without the ids and the message
pub record Update {ℓ} (V : Type ℓ) : Type ℓ where
  pub state : TaskState
  pub result : Option V
  pub error_code : Option String
  pub attempt : ℕ

-- the calls of INopTaskStore for the task: update_state, update_subtask by a worker task, and
-- update_subtask of the loop for a node whose dependencies have failed
pub data StoreCall {ℓ} (V : Type ℓ) : Type ℓ where
  update_state : TaskState → StoreCall V
  update_subtask : String → Update V → StoreCall V
  fail_dependency : String → StoreCall V

-- node_states, node_results, in_flight, cancel_event, and the calls of the store so far
pub record RunState {ℓ} (V : Type ℓ) : Type ℓ where
  pub states : States
  pub results : Dict String V
  pub in_flight : List DagNode
  pub is_cancelled : Bool
  pub calls : List (StoreCall V)

-- `outcome = finished_task.result()`, the CancelledError it may raise, a call of update_subtask by a
-- worker task, or a call of `cancel`
pub data Event {ℓ} (V : Type ℓ) : Type ℓ where
  completes : String → NodeOutcome V → Event V
  raises : String → Event V
  writes : String → Update V → Event V
  cancels : Event V

-- where the loop stands
pub data Run {ℓ} (V : Type ℓ) : Type ℓ where
  waiting : RunState V → Run V  -- in asyncio.wait
  ended : RunState V → Run V  -- behind the loop
  aborted : String → RunState V → Run V  -- must_abort, with finished_node_id
  raised_cancelled : RunState V → Run V
  no_such_task : Run V  -- the event is of no task in flight: not an event of the loop

abbrev pub ids : List DagNode → List String
ids = map (λ n. n.id)

abbrev pub index_nodes : List DagNode → Dict String DagNode → Dict String DagNode
index_nodes [] d = d
index_nodes (n ∷ ns) d = index_nodes ns (Dict.put d n.id n)

-- all_nodes.values()
unfoldable pub all_nodes : TaskDag → List DagNode
all_nodes dag = map (λ entry. entry.1) (index_nodes dag.nodes [])

-- the nodes of end_node_ids
unfoldable pub end_nodes : TaskDag → List DagNode
end_nodes dag = select (λ n. not (any (λ e. eqb e.source n.id) dag.edges)) (all_nodes dag)

-- the body of the K-of-N loop
abbrev pub is_hopeless : DagNode → States → Bool
is_hopeless n states = not (is_empty n.input_from) && ltb (successes states n) (required n)

-- the loop that launches
unfoldable pub launch : ℕ → List DagNode → List DagNode → List DagNode
launch max [] in_flight = in_flight
launch max (n ∷ ns) in_flight =
    if leb max (length in_flight) then in_flight else launch max ns (in_flight ++ n ∷ [])

unfoldable pub must_abort : TaskDag → String → States → Bool
must_abort dag id states =
    any (λ e. can_reach_end_node e.id id dag.edges && not (can_end_node_still_succeed e states))
      (end_nodes dag)

-- the nodes that the K-of-N pass has failed
abbrev pub dependency_failures {ℓ} : {V : Type ℓ} → List (StoreCall V) → List String
dependency_failures [] = []
dependency_failures (fail_dependency id ∷ calls) = id ∷ dependency_failures calls
dependency_failures (update_state state ∷ calls) = dependency_failures calls
dependency_failures (update_subtask id u ∷ calls) = dependency_failures calls

module _ {ℓ} {V : Type ℓ} where
  abbrev pub start : RunState V
  start = record { states = []; results = []; in_flight = []; is_cancelled = false; calls = [] }

  -- ready_nodes
  abbrev pub ready : List DagNode → RunState V → List DagNode
  ready nodes s =
      select
        (λ n.
          not (mem n.id (keys s.states))
          && not (mem n.id (ids s.in_flight))
          && are_deps_done n s.states)
        nodes

  abbrev pub fail_node : DagNode → RunState V → RunState V
  fail_node n s = record s {
    states = Dict.put s.states n.id failed;
    calls = s.calls ++ fail_dependency n.id ∷ [];
  }

  unfoldable pub fail_impossible : List DagNode → RunState V → List DagNode × RunState V
  fail_impossible [] s = ([], s)
  fail_impossible (n ∷ ns) s = elim (is_hopeless n s.states) [
    | true ↦ fail_impossible ns (fail_node n s)
    | false ↦ let rest = fail_impossible ns s in (n ∷ rest.0, rest.1)
  ]

  abbrev pub prepare : ℕ → List DagNode → RunState V → RunState V
  prepare max nodes s =
      let kept = fail_impossible (ready nodes s) s in
      record kept.1 { in_flight = launch max kept.0 kept.1.in_flight }

  -- from `while` to asyncio.wait
  unfoldable pub top : ℕ → List DagNode → RunState V → Run V
  top max nodes s =
      if leb (length nodes) (length (keys s.states))
      then ended s
      else if s.is_cancelled
      then raised_cancelled s
      else let next = prepare max nodes s in
        if is_empty next.in_flight then ended next else waiting next

  -- what an outcome changes
  abbrev pub store_result : String → NodeOutcome V → Dict String V → Dict String V
  store_result id o results =
      if is_completed o.state
      then (elim o.result [ none ↦ results | some v ↦ Dict.put results id v ])
      else results

  unfoldable pub settle : String → NodeOutcome V → RunState V → RunState V
  settle id o s = record s {
    in_flight = select (λ n. not (eqb n.id id)) s.in_flight;
    states = Dict.put s.states id o.state;
    results = store_result id o s.results;
  }

  -- from asyncio.wait to the next one
  unfoldable pub handle : ℕ → TaskDag → Event V → RunState V → Run V
  handle max dag cancels s =
      waiting (record s { is_cancelled = true; calls = s.calls ++ update_state cancelled ∷ [] })
  handle max dag (writes id u) s =
      if mem id (ids s.in_flight)
      then waiting (record s { calls = s.calls ++ update_subtask id u ∷ [] })
      else no_such_task
  handle max dag (raises id) s =
      if mem id (ids s.in_flight) then raised_cancelled s else no_such_task
  handle max dag (completes id o) s =
      let next = settle id o s in
      if not (mem id (ids s.in_flight))
      then no_such_task
      else if is_failure o.state && must_abort dag id next.states
      then aborted id next
      else top max (all_nodes dag) next

  unfoldable pub run : ℕ → TaskDag → List (Event V) → Run V → Run V
  run max dag [] r = r
  run max dag (e ∷ events) (waiting s) = run max dag events (handle max dag e s)
  run max dag (e ∷ events) r = r

  -- the loop of _run_dag, over a schedule of events
  unfoldable pub run_loop : ℕ → TaskDag → List (Event V) → Run V
  run_loop max dag events = run max dag events (top max (all_nodes dag) start)
