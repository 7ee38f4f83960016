-- ===== src/Nop/Orchestrator/Attempts.antt =====
-- nps_sdk/nop/orchestrator.py, `_execute_node_with_retry`: which attempt decides a node.
use nps_sdk_python.Prelude.{
  ℕ, zero, suc, ◌+◌, ◌≤◌, ◌<◌, ◌≡◌, ◌⊎◌, refl, sym, subst, String, Bool, true, false, Option, some,
  inl, inr, [], arith, ltb, ◌==◌, ==_iff, length, string_eq, Bool-cases,
}
use nps_sdk_python.Nop.Models.{RetryPolicy, is_completed}
use nps_sdk_python.Nop.Orchestrator.Loop.{NodeOutcome}
use nps_sdk_python.Nop.Orchestrator.Node.{
  should_retry, Condition, absent, evaluates, condition_error, Retried, retry,
  execute_node_with_retry,
}

-- The condition does not keep the node from running.
abbrev pub lets_run : Condition → Bool
lets_run absent = true
lets_run (evaluates b) = b
lets_run condition_error = false

plus_one : (n : ℕ) → n + 1 ≡ suc n
plus_one n = omega arith

module _ {ℓ} {V : Type ℓ} (policy : Option RetryPolicy) (max_retries : ℕ) (is_cancelled : ℕ → Bool)
    (execute_once : ℕ → NodeOutcome V)
    (uncancelled : (attempt : ℕ) → is_cancelled attempt ≡ false) where
  -- The attempt that is retried: it has not completed, and `_should_retry` allows another.
  abbrev IsRetried : ℕ → Type 0
  IsRetried j =
      (is_completed (execute_once j).state ≡ false)
      × (should_retry policy (execute_once j).error_code j max_retries ≡ true)

  -- The attempt `k` decides.
  pub record DecidedBy (attempt k : ℕ) (r : Retried V) : Type ℓ where
    pub first : attempt ≤ k
    pub bounded : k ≤ max_retries + 1
    pub outcome_at : r.outcome ≡ some (execute_once k)
    pub retried : (j : ℕ) → attempt ≤ j → j < k → IsRetried j
    pub stopped :
        (is_completed (execute_once k).state ≡ true)
        ⊎ (should_retry policy (execute_once k).error_code k max_retries ≡ false)
    pub sleeps : length r.delays + attempt ≡ k

  last_attempt :
      (attempt : ℕ)
      → max_retries < attempt
      → (error_code : Option String) → should_retry policy error_code attempt max_retries ≡ false
  unfolding should_retry
  last_attempt attempt late error_code =
      let over : ltb max_retries attempt ≡ true = ground (arith, late) in rw over refl

  decided_now :
      (attempt : ℕ) (r : Retried V)
      → attempt ≤ max_retries + 1
      → r.outcome ≡ some (execute_once attempt)
      → r.delays ≡ []
      → (is_completed (execute_once attempt).state ≡ true)
        ⊎ (should_retry policy (execute_once attempt).error_code attempt max_retries ≡ false)
      → DecidedBy attempt attempt r
  decided_now attempt r bound out none_slept stop = record {
    first = omega arith;
    bounded = bound;
    outcome_at = out;
    retried = λ j low high. absurd (omega (arith, low, high));
    stopped = stop;
    sleeps = rw none_slept (omega arith);
  }

  retried_once :
      (left attempt k : ℕ)
      → IsRetried attempt
      → DecidedBy
          (suc attempt)
          k
          (retry policy max_retries is_cancelled execute_once left (suc attempt))
      → DecidedBy attempt k (retry policy max_retries is_cancelled execute_once (suc left) attempt)
  unfolding retry
  retried_once left attempt k again d =
      rw (retry, uncancelled attempt, again.0, again.1)
        (record {
          first = omega (arith, d.first);
          bounded = d.bounded;
          outcome_at = d.outcome_at;
          retried = λ j low high. elim (Bool-cases (j == attempt)) [
            | inl same ↦ subst IsRetried (sym ((==_iff j attempt).0 same)) again
            | inr other ↦ d.retried j (ground (arith, low, other)) high
          ];
          stopped = d.stopped;
          sleeps = omega (arith, d.sleeps);
        })

  runs_lem :
      (condition : Condition)
      → lets_run condition ≡ true
      → execute_node_with_retry policy max_retries is_cancelled execute_once condition
        ≡ retry policy max_retries is_cancelled execute_once (suc max_retries) 1
  unfolding execute_node_with_retry
  runs_lem absent h = rw (uncancelled 1, plus_one max_retries) refl
  runs_lem (evaluates true) h = rw (uncancelled 1, plus_one max_retries) refl
  runs_lem (evaluates false) h = cc
  runs_lem condition_error h = cc

  -- The attempt that is not retried.
  retry_stopped :
      (left attempt : ℕ)
      → attempt ≤ max_retries + 1
      → (is_completed (execute_once attempt).state ≡ true)
        ⊎ (should_retry policy (execute_once attempt).error_code attempt max_retries ≡ false)
      → DecidedBy attempt attempt
          (retry policy max_retries is_cancelled execute_once (suc left) attempt)
  unfolding retry
  retry_stopped left attempt bound stop =
      elim (Bool-cases (is_completed (execute_once attempt).state)) [
        | inl done ↦
            rw (retry, uncancelled attempt, done) (decided_now attempt _ bound refl refl (inl done))
        | inr undone ↦
            let enough : should_retry policy (execute_once attempt).error_code attempt max_retries
                ≡ false =
              ground (arith, stop, undone) in
            rw (retry, uncancelled attempt, undone, enough)
              (decided_now attempt _ bound refl refl (inr enough))
      ]

  retry_lem :
      (left attempt : ℕ)
      → suc left + attempt ≡ max_retries + 2
      → (k : ℕ) × DecidedBy attempt k
          (retry policy max_retries is_cancelled execute_once (suc left) attempt)
  retry_lem zero attempt total = (
    attempt,
    retry_stopped 0 attempt (omega (arith, total))
        (inr (last_attempt attempt (omega (arith, total)) (execute_once attempt).error_code)),
  )
  retry_lem (suc left) attempt total =
      elim (Bool-cases (is_completed (execute_once attempt).state)) [
        | inl done ↦ (attempt, retry_stopped (suc left) attempt (omega (arith, total)) (inl done))
        | inr undone ↦
            elim (Bool-cases
              (should_retry policy (execute_once attempt).error_code attempt max_retries)) [
                | inr enough ↦
                    (attempt, retry_stopped (suc left) attempt (omega (arith, total)) (inr enough))
                | inl again ↦
                    let (k, d) = retry_lem left (suc attempt) (omega (arith, total)) in
                    (k, retried_once (suc left) attempt k (undone, again) d)
              ]
      ]

  -- On an uncancelled task whose condition lets the node run, the outcome is that of some attempt
  -- `k` from 1 to max_retries + 1: those before it have failed in a way that is retried, one delay
  -- after each, and `k` has completed or may not be retried.
  pub execute_node_with_retry-decided :
      (condition : Condition)
      → lets_run condition ≡ true
      → (k : ℕ) × DecidedBy 1 k
          (execute_node_with_retry policy max_retries is_cancelled execute_once condition)
  unfolding execute_node_with_retry
  execute_node_with_retry-decided condition runs =
      let (k, d) = retry_lem max_retries 1 (omega arith) in
      (k, subst (DecidedBy 1 k) (sym (runs_lem condition runs)) d)
