-- ===== src/Nop/Orchestrator/NodeExamples.antt =====
-- Streams and retries of nop/orchestrator.py.
use nps_sdk_python.Prelude.{
  ℕ, ◌≡◌, ◌↔◌, ltb, if◌then◌else◌, refl, String, Bool, true, false, none, some, List, [], ◌∷◌,
  string_eq,
}
use nps_sdk_python.Nop.Models.{running}
use nps_sdk_python.Nop.Orchestrator.Loop.{NodeOutcome}
use nps_sdk_python.Nop.Orchestrator.Node.{
  AlignStreamFrame, consume_stream, complete_with, fail_with, absent, consume, mark, mark_completed,
  retry, should_retry, execute_node_with_retry,
}
use nps_sdk_python.Nop.Orchestrator.Stream.{Delivers, consume_stream-completed}
use nps_sdk_python.Nop.Orchestrator.Attempts.{DecidedBy, execute_node_with_retry-decided}

abbrev frame_at : ℕ → Bool → AlignStreamFrame String
frame_at seq is_final = record {
  seq = seq;
  sender_nid = "agent";
  is_final = is_final;
  payload = some "done";
  error = none;
}

abbrev stream : List (AlignStreamFrame String)
stream = frame_at 0 false ∷ frame_at 1 false ∷ frame_at 2 true ∷ []

consume_stream-completed_example :
    (consume_stream true "agent" stream ≡ complete_with (some "done"))
    ↔ Delivers true "agent" 0 stream (some "done")
consume_stream-completed_example = consume_stream-completed true "agent" stream (some "done")

consume_test : consume_stream true "agent" stream ≡ complete_with (some "done")
unfolding consume
consume_test = refl

abbrev never : ℕ → Bool
never attempt = false

abbrev on_the_third : ℕ → NodeOutcome String
on_the_third attempt = if ltb attempt 3 then fail_with "X" else complete_with (some "done")

execute_node_with_retry-decided_example :
    (k : ℕ) × DecidedBy none 2 never on_the_third
      (λ attempt. refl)
      1
      k
      (execute_node_with_retry none 2 never on_the_third absent)
execute_node_with_retry-decided_example =
    execute_node_with_retry-decided none 2 never on_the_third (λ attempt. refl) absent refl

retry_test : execute_node_with_retry none 2 never on_the_third absent ≡ record {
  outcome = some (complete_with (some "done"));
  updates =
      mark running none 1
      ∷ mark running none 2
      ∷ mark running none 3
      ∷ mark_completed (some "done") 3
      ∷ [];
  delays = 1000 ∷ 1000 ∷ [];
}
unfolding execute_node_with_retry retry should_retry
retry_test = refl
