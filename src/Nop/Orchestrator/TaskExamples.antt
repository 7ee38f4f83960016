-- ===== src/Nop/Orchestrator/TaskExamples.antt =====
-- Tasks executed by nop/orchestrator.py, with what their worker tasks write.
use nps_sdk_python.Nop.Orchestrator.Admission.{TaskFrame, PreflightResult, admit}
use nps_sdk_python.Prelude.{◌≡◌, refl, String, true, false, none, some, List, [], ◌∷◌, string_eq}
use nps_sdk_python.Prelude.Dict
use nps_sdk_python.Nop.Models.{completed, failed}
use nps_sdk_python.Nop.Dag.{
  validate, collect_ids, add_edges, add_edge, modify, empty_graph, check_inputs, check_upstreams,
  check_conditions, condition_too_long, sort_nodes, kahn, visit,
}
use nps_sdk_python.Nop.Orchestrator.Plan.{
  are_deps_done, can_end_node_still_succeed, search, can_reach_end_node,
}
use nps_sdk_python.Prelude.{Option}
use nps_sdk_python.Nop.Callback.{Urls, validate_callback_url}
use nps_sdk_python.Nop.Orchestrator.Task.{execute}
use nps_sdk_python.Nop.Orchestrator.Records.{Agrees, execute-Agrees}
use nps_sdk_python.Nop.Aggregator.{aggregate, merge_from}
use nps_sdk_python.Nop.Orchestrator.Loop.{
  RunState, NodeOutcome, Event, completes, cancels, waiting, start, ids, all_nodes, end_nodes,
  fail_impossible, launch, top, settle, must_abort, handle, run_loop,
}
use nps_sdk_python.Prelude.{◌++◌}
use nps_sdk_python.Nop.Store.{Tasks, SubtaskRecord}
use nps_sdk_python.Nop.Orchestrator.Loop
use nps_sdk_python.Nop.Orchestrator.Task.{Deadline, in_time, in_loop, Execution}
use nps_sdk_python.Nop.Orchestrator.Node.{
  node_events, execute_node_with_retry, retry, should_retry, complete_with, absent,
}
use nps_sdk_python.Nop.Orchestrator.Examples.{chain, json, undone, as_given}

abbrev no_urls : Urls String
no_urls = record {
  scheme = λ url. "https";
  netloc = λ url. url;
  hostname = λ url. some url;
  lower = λ s. s;
  strip_brackets = λ s. s;
  ip_address = λ s. none;
  ipv4_mapped = λ ip. none;
  is_private = λ ip. false;
  is_loopback = λ ip. false;
  is_link_local = λ ip. false;
  is_unspecified = λ ip. false;
}

abbrev chain_frame : TaskFrame
chain_frame = record {
  task_id = "t1";
  dag = chain;
  delegate_depth = 0;
  callback_url = some "https://example";
  preflight_requested = true;
  compensation_policy = none;
}

abbrev probe : String → String → Option PreflightResult
probe agent action = some (record { agent_nid = agent; available = true })

-- A node that completes at its first attempt, as its worker task is seen by the loop.
abbrev works : String → List (Event String)
works id =
    node_events id (
      execute_node_with_retry none 0 (λ attempt. false) (λ attempt. complete_with (some id)) absent)

abbrev three : List (Event String)
three = works "a" ++ works "b" ++ works "c"

abbrev run : Deadline → TaskFrame → List (Event String) → Tasks String × Execution String
run deadline frame events =
    execute json (λ i. "_result") undone probe 16 no_urls as_given (λ node. node) deadline []
      "merge" frame events []

execute-Agrees_example : Agrees {V = String} "t1" [] (run in_time chain_frame three)
execute-Agrees_example =
    execute-Agrees json (λ i. "_result") undone probe 16 no_urls as_given (λ node. node) in_time []
      "merge" chain_frame three []

abbrev done : String → SubtaskRecord String
done id = record {
  subtask_id = id;
  state = completed;
  result = some id;
  error_code = none;
  attempt_count = 1;
}

-- The worker tasks write their subtasks, and `execute` the state of the task.
execute_test :
    (run in_time chain_frame three).0
    ≡ (
      "t1",
      record {
        state = completed;
        subtasks = ("a", done "a") ∷ ("b", done "b") ∷ ("c", done "c") ∷ [];
      },
    )
      ∷ []
unfolding execute admit validate_callback_url validate collect_ids add_edges add_edge modify
    empty_graph check_inputs check_upstreams check_conditions condition_too_long sort_nodes kahn
    visit Dict.any_value Dict.keys_where run_loop Loop.run top handle settle must_abort all_nodes
    end_nodes fail_impossible launch are_deps_done can_end_node_still_succeed can_reach_end_node
    search aggregate merge_from execute_node_with_retry retry should_retry Dict.get Dict.put
    Dict.keys
execute_test = refl

-- The time runs out while "b" is in flight.
timeout_test :
    (run in_loop chain_frame (works "a")).0
    ≡ ("t1", record { state = failed; subtasks = ("a", done "a") ∷ [] }) ∷ []
unfolding execute admit validate_callback_url validate collect_ids add_edges add_edge modify
    empty_graph check_inputs check_upstreams check_conditions condition_too_long sort_nodes kahn
    visit Dict.any_value Dict.keys_where run_loop Loop.run top handle settle must_abort all_nodes
    end_nodes fail_impossible launch are_deps_done can_end_node_still_succeed can_reach_end_node
    search aggregate merge_from execute_node_with_retry retry should_retry Dict.get Dict.put
    Dict.keys
timeout_test = refl
