-- ===== src/Nop/Orchestrator/Examples.antt =====
-- Runs of nop/orchestrator.py.
use nps_sdk_python.Prelude.{
  ℕ, ◌<◌, ◌+◌, ◌≡◌, ◌≢◌, ◌↔◌, ◌⊎◌, if◌then◌else◌, refl, String, true, false, none, some, List, [],
  ◌∷◌, mem, string_eq, arith, In, here, length,
}
use nps_sdk_python.Prelude.Dict
use nps_sdk_python.Nop.Models.{DagNode, TaskDag, new_node, completed, failed}
use nps_sdk_python.Nop.Json.{Json, View, is_string, is_object}
use nps_sdk_python.Nop.Dag.{
  validate, collect_ids, add_edges, add_edge, modify, empty_graph, check_inputs, check_upstreams,
  check_conditions, condition_too_long, sort_nodes, kahn, visit,
}
use nps_sdk_python.Nop.Dag.Order.{IsTopological}
use nps_sdk_python.Nop.Dag.Validate.{IsIteration, node_ids, validate-IsTopological}
use nps_sdk_python.Nop.Orchestrator.Saga.{completed_nodes, run_saga_compensation}
use nps_sdk_python.Nop.Orchestrator.Precedence.{precedes}
use nps_sdk_python.Nop.Orchestrator.Compensation.{saga-order, saga_sent}
use nps_sdk_python.Nop.Orchestrator.Plan.{
  States, required, failures, are_deps_done, can_end_node_still_succeed, search, can_reach_end_node,
}
use nps_sdk_python.Nop.Orchestrator.Outcome.{Task, success, run_dag}
use nps_sdk_python.Prelude.{there, subst, eqb→eq, eqb}
use nps_sdk_python.Nop.Orchestrator.Complete.{IsRanked, IsTerminal, run_loop_complete}
use nps_sdk_python.Prelude.{ok}
use nps_sdk_python.Nop.Orchestrator.Abort.{run_loop-abort}
use nps_sdk_python.Nop.Aggregator.{aggregate, merge_from}
use nps_sdk_python.Nop.Orchestrator.Search.{Reaches, can_reach_end_node_iff}
use nps_sdk_python.Nop.Orchestrator.Loop.{
  RunState, NodeOutcome, Event, completes, cancels, waiting, start, ids, all_nodes, end_nodes,
  fail_impossible, launch, top, settle, must_abort, handle, run, run_loop,
}
use nps_sdk_python.Nop.Orchestrator.Reached.{IsSoundRun}
use nps_sdk_python.Nop.Orchestrator.Once.{finished, HasRunOnce, run_loop-once}
use nps_sdk_python.Nop.Orchestrator.Progress.{run_loop_ends}

-- a → b → c
abbrev pub chain : TaskDag
chain = record {
  nodes =
      new_node "a" "run" "agent"
      ∷ record (new_node "b" "run" "agent") { input_from = "a" ∷ [] }
      ∷ record (new_node "c" "run" "agent") { input_from = "b" ∷ [] }
      ∷ [];
  edges = record { source = "a"; target = "b" } ∷ record { source = "b"; target = "c" } ∷ [];
}

abbrev succeeds : String → Event String
succeeds id = completes id (record { state = completed; result = some id; error_code = none })

abbrev fails : String → Event String
fails id = completes id (record { state = failed; result = none; error_code = some "X" })

pub kinds_differ :
    (v : String) (d : Dict.Dict String String)
    → ◌≢◌ {A = View String String} (is_string v) (is_object d)
kinds_differ v d h = cc

abbrev pub json : Json String String
json = record {
  view = is_string;
  object = λ d. "{}";
  array = λ vs. "[]";
  null = "null";
  keys_once = λ v d h. absurd (kinds_differ v d h);
}

abbrev chain_task : Task
chain_task = record {
  dag = chain;
  topo_order = "a" ∷ "b" ∷ "c" ∷ [];
  compensation_policy = some "best_effort";
  default_aggregate_strategy = "merge";
}

abbrev pub undone : DagNode → NodeOutcome String
undone n = record { state = completed; result = none; error_code = none }

-- Node "a" fails, "b" is failed for its dependency, "c" is never run: the task is COMPLETED.
chain_lost_test :
    run_dag json (λ i. "_result") undone 16 chain_task (fails "a" ∷ [])
    ≡ some (success "{}" [] none)
unfolding run_dag run_loop run top handle settle must_abort all_nodes end_nodes fail_impossible
    launch are_deps_done can_end_node_still_succeed can_reach_end_node search aggregate merge_from
    Dict.get Dict.put Dict.keys
chain_lost_test = refl

run_loop-once_example :
    IsSoundRun 2 (all_nodes chain) (run_loop 2 chain (succeeds "a" ∷ cancels ∷ []))
    × HasRunOnce
        (finished 2 chain (succeeds "a" ∷ cancels ∷ []) (top 2 (all_nodes chain) start) [])
        (run_loop 2 chain (succeeds "a" ∷ cancels ∷ []))
run_loop-once_example = run_loop-once 2 chain (succeeds "a" ∷ cancels ∷ [])

-- "a" has given its outcome, and "b" is in flight.
once_test :
    finished 2 chain (succeeds "a" ∷ cancels ∷ []) (top 2 (all_nodes chain) start) [] ≡ "a" ∷ []
unfolding top handle settle all_nodes fail_impossible launch are_deps_done Dict.get Dict.put
    Dict.keys
once_test = refl

run_loop_ends_example :
    run_loop 2 chain (succeeds "a" ∷ succeeds "b" ∷ fails "c" ∷ []) ≢ waiting start
unfolding all_nodes Dict.put
run_loop_ends_example =
    run_loop_ends 2 chain (succeeds "a" ∷ succeeds "b" ∷ fails "c" ∷ []) start (omega arith)

can_reach_end_node_iff_example :
    (can_reach_end_node "c" "a" chain.edges ≡ true) ↔ Reaches chain.edges "c" "a"
can_reach_end_node_iff_example = can_reach_end_node_iff chain.edges "c" "a"

abbrev pair : TaskDag
pair = record {
  nodes =
      record (new_node "a" "run" "agent") { compensate_action = some "undo-a" }
      ∷ record (new_node "b" "run" "agent") {
        input_from = "a" ∷ [];
        compensate_action = some "undo-b";
      }
      ∷ [];
  edges = record { source = "a"; target = "b" } ∷ [];
}

abbrev pair_failed : RunState String
pair_failed = record {
  states = ("a", failed) ∷ [];
  results = [];
  in_flight = [];
  is_cancelled = false;
  calls = [];
}

run_loop-abort_example :
    (Dict.get pair_failed.states "a" ≡ some failed)
    × (e : DagNode) × In e (end_nodes pair)
    × Reaches pair.edges e.id "a"
    × ((e.input_from ≡ []) ⊎ (length e.input_from < required e + failures pair_failed.states e))
unfolding run_loop run top handle settle must_abort all_nodes end_nodes fail_impossible launch
    are_deps_done can_end_node_still_succeed can_reach_end_node search Dict.get Dict.put Dict.keys
run_loop-abort_example = run_loop-abort 16 pair (fails "a" ∷ []) "a" pair_failed refl

abbrev pub as_given : List String → List String
as_given names = names

as_given-IsIteration : IsIteration as_given
as_given-IsIteration = record { same = λ names v. refl; once = λ names n. n }

pair-IsTopological : IsTopological (node_ids pair) pair.edges ("a" ∷ "b" ∷ [])
unfolding validate collect_ids add_edges add_edge modify empty_graph check_inputs check_upstreams
    check_conditions condition_too_long sort_nodes kahn visit Dict.get Dict.put Dict.any_value
    Dict.keys_where
pair-IsTopological = validate-IsTopological as_given as_given-IsIteration pair ("a" ∷ "b" ∷ []) refl

abbrev both_done : States
both_done = ("a", completed) ∷ ("b", completed) ∷ []

saga-order_example :
    precedes "b" "a"
      (ids (run_saga_compensation undone none (all_nodes pair) ("a" ∷ "b" ∷ []) both_done).sent)
    ≡ true
unfolding run_saga_compensation completed_nodes all_nodes Dict.get Dict.put
saga-order_example =
    saga-order undone none pair (node_ids pair) ("a" ∷ "b" ∷ []) (all_nodes pair) both_done
      (record { source = "a"; target = "b" }) pair-IsTopological here refl refl

saga_sent_example :
    mem "b"
      (ids (run_saga_compensation undone none (all_nodes pair) ("a" ∷ "b" ∷ []) both_done).sent)
    ≡ true
unfolding all_nodes Dict.get Dict.put
saga_sent_example = saga_sent undone none (all_nodes pair) ("a" ∷ "b" ∷ []) both_done "b" refl

abbrev pair_done : RunState String
pair_done = record {
  states = ("a", completed) ∷ ("b", completed) ∷ [];
  results = ("a", "a") ∷ ("b", "b") ∷ [];
  in_flight = [];
  is_cancelled = false;
  calls = [];
}

abbrev pair_rank : String → ℕ
pair_rank k = if eqb k "a" then 0 else 1

pair-IsRanked : IsRanked (all_nodes pair) pair_rank
unfolding all_nodes Dict.put
pair-IsRanked n here d m = absurd (ground (arith, m))
pair-IsRanked n (there here) d m =
    let e : "a" ≡ d = eqb→eq "a" d (ground (arith, m)) in
    subst (λ k. (pair_rank k < 1) × (mem k ("a" ∷ "b" ∷ []) ≡ true)) e (omega arith, refl)
pair-IsRanked n (there (there i)) d m = elim i [ ]

both_done-IsTerminal : IsTerminal both_done
unfolding Dict.get
both_done-IsTerminal k v h = ground (arith, h)

run_loop_complete_example : mem "b" (Dict.keys pair_done.states) ≡ true
unfolding run_loop run top handle settle must_abort all_nodes end_nodes fail_impossible launch
    are_deps_done can_end_node_still_succeed can_reach_end_node search Dict.get Dict.put Dict.keys
run_loop_complete_example =
    run_loop_complete 16 pair (succeeds "a" ∷ succeeds "b" ∷ []) pair_done pair_rank (omega arith)
      pair-IsRanked refl both_done-IsTerminal refl "b" refl

-- a and b wait for each other's results; the edges alone have no cycle
abbrev waiting_pair : TaskDag
waiting_pair = record {
  nodes =
      record (new_node "a" "run" "agent") { input_from = "b" ∷ [] }
      ∷ record (new_node "b" "run" "agent") { input_from = "a" ∷ [] }
      ∷ [];
  edges = record { source = "a"; target = "b" } ∷ [];
}

-- The validator accepts the graph, no node is ever ready, and the task is COMPLETED at once.
never_ready_test :
    (validate as_given waiting_pair ≡ ok ("a" ∷ "b" ∷ []))
    × (run_dag json (λ i. "_result") undone 16 (record chain_task { dag = waiting_pair }) []
        ≡ some (success "{}" [] none))
unfolding run_dag run_loop run top handle settle must_abort all_nodes end_nodes fail_impossible
    launch are_deps_done can_end_node_still_succeed can_reach_end_node search aggregate merge_from
    Dict.get Dict.put Dict.keys validate collect_ids add_edges add_edge modify empty_graph
    check_inputs check_upstreams check_conditions condition_too_long sort_nodes kahn visit
    Dict.any_value Dict.keys_where
never_ready_test = (refl, refl)
