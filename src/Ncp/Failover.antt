-- ===== src/Ncp/Failover.antt =====
-- nps_sdk/ncp/failover.py: NcpFailoverConnector. The injected resolver and connect step are the
-- parameters `resolve` and `connect`: what they do at the attempt of a given number.
mod Examples
use nps_sdk_python.Prelude.{
  ℕ, zero, suc, ◌+◌, ◌-◌, ◌≤◌, ◌<◌, ◌≡◌, ◌⊎◌, inl, inr, refl, ap, subst, ◌∙◌, String, Bool, true,
  false, ◌||◌, Option, none, some, List, [], ◌∷◌, Result, ok, err, ltb, if◌then◌else◌, eqb,
  string_eq, arith, Bool-cases, Result-cases,
}

-- What a raised exception shows: whether it is an OSError, and its `protocol_error_code`.
pub record Failure : Type 0 where
  pub os_error : Bool
  pub protocol_error_code : Option String

abbrev nid_mismatch : String
nid_mismatch = "NCP-NID-MISMATCH"

-- is_failover_shaped
pub is_failover_shaped : Failure → Bool
is_failover_shaped e =
    e.os_error || elim e.protocol_error_code [ none ↦ false | some c ↦ eqb c nid_mismatch ]

-- How `connect` ends: a session, an exception of one of the injected steps, or the constructor's
-- ValueError.
pub data Outcome {ℓ} (S : Type ℓ) : Type ℓ where
  session : S → Outcome S
  raised : Failure → Outcome S
  value_error : Outcome S
  assertion_error : Outcome S

module _ {S Endpoint : Type 0} (resolve : ℕ → Result Failure Endpoint)
    (connect : ℕ → Endpoint → Result Failure S) where
  -- The loop of `connect`: `left` attempts are left, the next has the number `n`; with the outcome,
  -- the number of attempts that were begun.
  attempts : ℕ → ℕ → Option Failure → Outcome S × ℕ
  attempts zero n none = (assertion_error, n)
  attempts zero n (some last) = (raised last, n)
  attempts (suc left) n last = elim (resolve n) [
    | err e ↦ (raised e, suc n)
    | ok endpoint ↦ elim (connect n endpoint) [
      | ok s ↦ (session s, suc n)
      | err e ↦ if is_failover_shaped e then attempts left (suc n) (some e) else (raised e, suc n)
    ]
  ]

  -- NcpFailoverConnector(resolve_active, connect, max_attempts).connect()
  pub connect_active : ℕ → Outcome S × ℕ
  connect_active max_attempts =
      if ltb max_attempts 1 then (value_error, 0) else attempts max_attempts 0 none

  -- The attempt `n` reaches an endpoint that fails as a lost anchor does.
  abbrev Lost : ℕ → Failure → Type 0
  Lost n e =
      (p : Endpoint) × (resolve n ≡ ok p) × (connect n p ≡ err e) × (is_failover_shaped e ≡ true)

  -- The attempt `n` ends the loop.
  pub data Final (n : ℕ) : Outcome S → Type 0 where
    unresolved : {e : Failure} → resolve n ≡ err e → Final n (raised e)
    connected : {p : Endpoint} {s : S} → resolve n ≡ ok p → connect n p ≡ ok s → Final n (session s)
    refused :
        {p : Endpoint} {e : Failure}
        → resolve n ≡ ok p
        → connect n p ≡ err e
        → is_failover_shaped e ≡ false
        → Final n (raised e)

  attempts-Final :
      (left n : ℕ) (last : Option Failure) (o : Outcome S)
      → Final n o
      → attempts (suc left) n last ≡ (o, suc n)
  unfolding attempts
  attempts-Final left n last _ (unresolved r) = rw (attempts, r) refl
  attempts-Final left n last _ (connected r c) = rw (attempts, r, c) refl
  attempts-Final left n last _ (refused r c f) = rw (attempts, r, c, f) refl

  attempts-Lost :
      (left n : ℕ) (last : Option Failure) (e : Failure)
      → Lost n e
      → attempts (suc left) n last ≡ attempts left (suc n) (some e)
  unfolding attempts
  attempts-Lost left n last e (p, r, c, f) = rw (attempts, r, c, f) refl

  attempts-succeed :
      (k left n m : ℕ) (last : Option Failure) (fails : ℕ → Failure) (o : Outcome S)
      → k < left
      → m ≡ n + k
      → ((i : ℕ) → n ≤ i → i < m → Lost i (fails i))
      → Final m o
      → attempts left n last ≡ (o, suc m)
  attempts-succeed k zero n m last fails o lt e lost final = ground (arith, lt)
  attempts-succeed zero (suc left) n m last fails o lt e lost final =
      subst (λ j. attempts (suc left) j last ≡ (o, suc m)) (omega arith)
        (attempts-Final left m last o final)
  attempts-succeed (suc k) (suc left) n m last fails o lt e lost final =
      attempts-Lost left n last (fails n) (lost n (omega arith) (omega arith))
      ∙ attempts-succeed k left (suc n) m (some (fails n)) fails o (omega arith) (omega arith)
          (λ i a b. lost i (omega arith) b) final

  attempts-exhaust :
      (k n m : ℕ) (last : Option Failure) (fails : ℕ → Failure)
      → m ≡ n + k
      → ((i : ℕ) → n ≤ i → i ≤ m → Lost i (fails i))
      → attempts (suc k) n last ≡ (raised (fails m), suc m)
  unfolding attempts
  attempts-exhaust zero n m last fails e lost =
      attempts-Lost zero n last (fails n) (lost n (omega arith) (omega arith))
      ∙ ap (λ j. (raised (fails j), suc j)) (omega arith)
  attempts-exhaust (suc k) n m last fails e lost =
      attempts-Lost (suc k) n last (fails n) (lost n (omega arith) (omega arith))
      ∙ attempts-exhaust k (suc n) m (some (fails n)) fails (omega arith)
          (λ i a b. lost i (omega arith) b)

  -- The first `k` attempts lose their anchor and the next one ends the loop, within the bound: then
  -- that attempt's outcome is the connector's, and no attempt follows it.
  pub connect-Final :
      (k max_attempts : ℕ) (fails : ℕ → Failure) (o : Outcome S)
      → k < max_attempts
      → ((i : ℕ) → i < k → Lost i (fails i))
      → Final k o
      → connect_active max_attempts ≡ (o, suc k)
  unfolding connect_active
  connect-Final k max_attempts fails o lt lost final = ground (
    arith,
    attempts-succeed k max_attempts 0 k none fails o lt (omega arith) (λ i a b. lost i b) final,
  )

  -- If every attempt within the bound loses its anchor, then the failure of the last one is raised,
  -- behind exactly `max_attempts` attempts.
  pub connect_exhausted :
      (k : ℕ) (fails : ℕ → Failure)
      → ((i : ℕ) → i ≤ k → Lost i (fails i))
      → connect_active (suc k) ≡ (raised (fails k), suc k)
  unfolding connect_active
  connect_exhausted k fails lost =
      ground (arith, attempts-exhaust k 0 k none fails (omega arith) (λ i a b. lost i b))
