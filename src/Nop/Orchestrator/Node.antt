-- ===== src/Nop/Orchestrator/Node.antt =====
-- nps_sdk/nop/orchestrator.py: `_consume_stream`, `_should_retry` and `_execute_node_with_retry`. What
-- the worker sends is a list of frames; what one attempt gives, when cancel_event is set, and what
-- the condition evaluates to are parameters of the retries.
use nps_sdk_python.Prelude.{
  ℕ, zero, suc, ◌+◌, String, Bool, true, false, not, ◌&&◌, Option, none, some, List, [], ◌∷◌, ◌++◌,
  map, ltb, ◌==◌, mem, eqb, string_eq, if◌then◌else◌,
}
use nps_sdk_python.Nop.Models.{
  RetryPolicy, compute_delay_ms, TaskState, completed, failed, skipped, running, is_completed,
  is_empty,
}
use nps_sdk_python.Nop.Orchestrator.Loop.{NodeOutcome, Update, Event, completes, raises, writes}

-- AlignStreamFrame; a sequence number below 0 can only be a gap
pub record AlignStreamFrame {ℓ} (V : Type ℓ) : Type ℓ where
  pub seq : ℕ
  pub sender_nid : String
  pub is_final : Bool
  pub payload : Option V  -- data
  pub error : Option String  -- its code

-- the sequence-gap check
abbrev pub has_gap : ℕ → ℕ → Bool
has_gap last_seq seq = not (seq == last_seq) && not (seq == 0) && not (seq == last_seq + 1)

module _ {ℓ} {V : Type ℓ} where
  abbrev pub fail_with : String → NodeOutcome V
  fail_with code = record { state = failed; result = none; error_code = some code }

  abbrev pub complete_with : Option V → NodeOutcome V
  complete_with payload = record { state = completed; result = payload; error_code = none }

  -- what is done with the final frame
  abbrev pub close_stream : AlignStreamFrame V → NodeOutcome V
  close_stream f = elim f.error [ none ↦ complete_with f.payload | some code ↦ fail_with code ]

  -- the loop of _consume_stream and what stands behind it; `validate` is opts.validate_sender_nid
  unfoldable pub consume : Bool → String → ℕ → List (AlignStreamFrame V) → NodeOutcome V
  consume validate agent last_seq [] = fail_with "NOP-DELEGATE-TIMEOUT"
  consume validate agent last_seq (f ∷ frames) =
      let rest = consume validate agent f.seq frames in
      if has_gap last_seq f.seq
      then fail_with "NOP-STREAM-SEQ-GAP"
      else if validate && not (eqb f.sender_nid agent)
      then fail_with "NOP-STREAM-NID-MISMATCH"
      else if f.is_final
      then close_stream f
      else rest

  -- _consume_stream
  abbrev pub consume_stream : Bool → String → List (AlignStreamFrame V) → NodeOutcome V
  consume_stream validate agent frames = consume validate agent 0 frames

-- _should_retry
unfoldable pub should_retry : Option RetryPolicy → Option String → ℕ → ℕ → Bool
should_retry policy error_code attempt max_retries =
    if ltb max_retries attempt then false else elim policy [
      | none ↦ true
      | some p ↦
          if is_empty p.retry_on
          then true
          else elim error_code [ none ↦ true | some code ↦ mem code p.retry_on ]
    ]

-- what `node.condition` evaluates to, where there is one
pub data Condition : Type 0 where
  absent : Condition
  evaluates : Bool → Condition
  condition_error : Condition

-- what the worker task does: its outcome (none for a CancelledError), its calls of the store, and
-- the milliseconds it sleeps between attempts
pub record Retried {ℓ} (V : Type ℓ) : Type ℓ where
  pub outcome : Option (NodeOutcome V)
  pub updates : List (Update V)
  pub delays : List ℕ

-- update_subtask without a result
abbrev pub mark {ℓ} : {V : Type ℓ} → TaskState → Option String → ℕ → Update V
mark state error_code attempt = record {
  state = state;
  result = none;
  error_code = error_code;
  attempt = attempt;
}

abbrev pub mark_completed {ℓ} : {V : Type ℓ} → Option V → ℕ → Update V
mark_completed result attempt = record {
  state = completed;
  result = result;
  error_code = none;
  attempt = attempt;
}

module _ {ℓ} {V : Type ℓ} (policy : Option RetryPolicy) (max_retries : ℕ) (is_cancelled : ℕ → Bool)
    (execute_once : ℕ → NodeOutcome V) where
  abbrev pub delay_ms : ℕ → ℕ
  delay_ms attempt = elim policy [ none ↦ 1000 | some p ↦ compute_delay_ms p attempt ]

  -- the loop over the attempts, `left` of them, and what stands behind it
  unfoldable pub retry : ℕ → ℕ → Retried V
  retry zero attempt = record {
    outcome = some (fail_with "NOP-DELEGATE-TIMEOUT");
    updates = mark failed (some "NOP-DELEGATE-TIMEOUT") 1 ∷ [];
    delays = [];
  }
  retry (suc left) attempt =
      let o = execute_once attempt in
      let rest = retry left (suc attempt) in
      if is_cancelled attempt
      then record { outcome = none; updates = []; delays = [] }
      else if is_completed o.state
      then record {
        outcome = some o;
        updates = mark running none attempt ∷ mark_completed o.result attempt ∷ [];
        delays = [];
      }
      else if not (should_retry policy o.error_code attempt max_retries)
      then record {
        outcome = some o;
        updates = mark running none attempt ∷ mark failed o.error_code attempt ∷ [];
        delays = [];
      }
      else record {
        outcome = rest.outcome;
        updates = mark running none attempt ∷ rest.updates;
        delays = delay_ms attempt ∷ rest.delays;
      }

  -- _execute_node_with_retry
  unfoldable pub execute_node_with_retry : Condition → Retried V
  execute_node_with_retry condition =
      if is_cancelled 1
      then record { outcome = none; updates = []; delays = [] }
      else elim condition [
        | absent ↦ retry (max_retries + 1) 1
        | evaluates true ↦ retry (max_retries + 1) 1
        | evaluates false ↦ record {
          outcome = some (record { state = skipped; result = none; error_code = none });
          updates = mark skipped none 1 ∷ [];
          delays = [];
        }
        | condition_error ↦ record {
          outcome = some (fail_with "NOP-CONDITION-EVAL-ERROR");
          updates = mark failed (some "NOP-CONDITION-EVAL-ERROR") 1 ∷ [];
          delays = [];
        }
      ]

-- _execute_node_with_retry for any max_retries: none is a negative one, with no attempt in its range
abbrev pub run_node {ℓ} :
    {V : Type ℓ}
    → Option RetryPolicy
    → Option ℕ
    → (ℕ → Bool)
    → (ℕ → NodeOutcome V)
    → Condition
    → Retried V
run_node policy none is_cancelled execute_once condition =
    retry policy 0 is_cancelled execute_once 0 1
run_node policy (some max_retries) is_cancelled execute_once condition =
    execute_node_with_retry policy max_retries is_cancelled execute_once condition

-- The worker task of a node, as events of the loop.
abbrev pub node_events {ℓ} : {V : Type ℓ} → String → Retried V → List (Event V)
node_events id r =
    map (writes id) r.updates
    ++ (elim r.outcome [ none ↦ raises id ∷ [] | some o ↦ completes id o ∷ [] ])
