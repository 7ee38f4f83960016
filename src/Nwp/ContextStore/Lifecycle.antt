-- ===== src/Nwp/ContextStore/Lifecycle.antt =====
-- nps_sdk/nwp/context_store.py: release, status, snapshot and the explicit sweep.
use nps_sdk_python.Prelude.{
  ℕ, ◌+◌, String, Bool, false, not, ◌&&◌, ◌||◌, Option, none, some, List, Result, ok, err, ◌>>=◌,
  ◌>>◌, reject_if, ◌==◌, if◌then◌else◌, eqb, string_eq,
}
use nps_sdk_python.Prelude.Dict
use nps_sdk_python.Nwp.ContextStore.State.{
  release, ContextState, busy, released, failed, Owner, Entry, Receipt, Outcome, is_busy, is_failed,
  is_completed, is_released, Options, Store, owner_key, owner_key_eq, complete_action,
  release_action, seconds, is_none, sweep, swept,
}
use nps_sdk_python.Nwp.ContextStore.Guards.{
  Host, StoreError, idempotency_conflict, version_conflict, params_invalid, not_found,
  validate_context_id, ensure_supported, require_entry, ensure_owner, require_mutable, is_reserved,
}
use nps_sdk_python.Nwp.ContextStore.Operations.{Exec}

-- LlmContextStatusDto
pub record Status : Type 0 where
  pub state : ContextState
  pub context_id : Option String
  pub version : Option ℕ
  pub expires_at : Option ℕ
  pub request_id : Option String
  pub error_code : Option String

pub record Snapshot (Message Binding : Type 0) : Type 0 where
  pub context_id : String
  pub version : ℕ
  pub state : ContextState
  pub transcript : List Message
  pub binding : Binding
  pub expires_at : Option ℕ

-- the truth value of an optional text
abbrev truthy : Option String → Bool
truthy none = false
truthy (some text) = not (eqb text "")

abbrev busy_status : String → Status
busy_status request_id = record {
  state = busy;
  context_id = none;
  version = none;
  expires_at = none;
  request_id = some request_id;
  error_code = none;
}

abbrev failed_status : String → Option String → Status
failed_status request_id error_code = record {
  state = failed;
  context_id = none;
  version = none;
  expires_at = none;
  request_id = some request_id;
  error_code = error_code;
}

abbrev receipt_status : Receipt → Status
receipt_status r = record {
  state = r.state;
  context_id = some r.context_id;
  version = some r.version;
  expires_at = r.expires_at;
  request_id = none;
  error_code = none;
}

-- the receipt of an earlier release with the same key, context and version
abbrev pub replayed : String → ℕ → Outcome → Option Receipt
replayed id base (is_released r id' base') = if eqb id' id && base' == base then some r else none
replayed id base _ = none

unfoldable pub released_receipt : String → ℕ → Receipt
released_receipt id version = record {
  context_id = id;
  version = version;
  operation = release;
  state = released;
  expires_at = none;
  parent_context_id = none;
  parent_version = none;
}

module _ {Message Binding : Type 0} where
  -- the guards of `release` after the search for an earlier outcome
  unfoldable pub release_guard :
      Store Message Binding → Owner → String → ℕ → Result StoreError (Entry Message Binding)
  release_guard s owner id base = do
    e ← require_mutable s owner id
    reject_if (is_reserved e.reservation_id || not (e.version == base)) (version_conflict e.version)
    ok e

  -- the last part of `status`, for a context id
  entry_request : Store Message Binding → Option String → Option String
  entry_request s none = none
  entry_request s (some r) = if eqb r "" then none else elim (Dict.get s.reservations r) [
    | none ↦ none
    | some active ↦ some active.request.request_id
  ]

  unfoldable context_status : Owner → String → Store Message Binding → Result StoreError Status
  unfolding entry_request
  context_status owner id s = do
    validate_context_id id
    e ← require_entry s id
    ensure_owner e owner
    ok (record {
      state = if truthy e.reservation_id then busy else e.state;
      context_id = some e.context_id;
      version = some e.version;
      expires_at = e.expires_at;
      request_id = entry_request s e.reservation_id;
      error_code = none;
    })

module _ {Message Binding : Type 0} (opts : Options) where
  -- the entry of a released context, whose tombstone lasts until the option's time has passed
  unfoldable pub bury : ℕ → Entry Message Binding → Entry Message Binding
  bury now e = record e {
    version = e.version + 1;
    state = released;
    expires_at = none;
    tombstone_until = some (now + seconds opts.tombstone_seconds);
  }

  unfoldable pub enter_release :
      (ℕ → ℕ)
      → Owner
      → String
      → ℕ
      → String
      → Entry Message Binding
      → Store Message Binding
      → Store Message Binding
  enter_release clock owner id base key e s = record s {
    contexts = Dict.put s.contexts id (bury (clock 1) e);
    idempotency = Dict.put s.idempotency (owner_key owner release_action key) (record {
      outcome = is_released (released_receipt id (e.version + 1)) id base;
      retain_until = clock 2 + opts.idempotency_ttl;
    });
  }

  unfoldable pub release_fresh :
      (ℕ → ℕ) → Owner → String → ℕ → String → Exec Message Binding Receipt
  release_fresh clock owner id base key s = elim (release_guard s owner id base) [
    | err x ↦ (err x, s)
    | ok e ↦ (ok (released_receipt id (e.version + 1)), enter_release clock owner id base key e s)
  ]

  unfoldable pub release_checked :
      (ℕ → ℕ) → Owner → String → ℕ → String → Exec Message Binding Receipt
  release_checked clock owner id base key s =
      elim (Dict.get s.idempotency (owner_key owner release_action key)) [
        | none ↦ release_fresh clock owner id base key s
        | some prior ↦ elim (replayed id base prior.outcome) [
          | some r ↦ (ok r, s)
          | none ↦ (err idempotency_conflict, s)
        ]
      ]

  unfoldable pub release_context :
      Host Message Binding → (ℕ → ℕ) → Owner → String → ℕ → String → Exec Message Binding Receipt
  release_context host clock owner id base key s =
      let s₁ = sweep opts (clock 0) s in
      elim (ensure_supported opts release
        >> validate_context_id id
        >> reject_if (host.is_blank key) params_invalid) [
          | err x ↦ (err x, s₁)
          | ok _ ↦ release_checked clock owner id base key s₁
        ]

  -- `_status_from_receipt`, which enters `status` again where the context is there
  receipt_report : (ℕ → ℕ) → Owner → Receipt → Exec Message Binding Status
  receipt_report clock owner r s =
      if is_none (Dict.get s.contexts r.context_id)
      then (ok (receipt_status r), s)
      else (let s₂ = sweep opts (clock 1) s in (context_status owner r.context_id s₂, s₂))

  outcome_report : (ℕ → ℕ) → Owner → Outcome → Exec Message Binding Status
  unfolding receipt_report
  outcome_report clock owner (is_busy request_id _) s = (ok (busy_status request_id), s)
  outcome_report clock owner (is_failed request_id code) s = (ok (failed_status request_id code), s)
  outcome_report clock owner (is_completed _ r) s = receipt_report clock owner r s
  outcome_report clock owner (is_released r _ _) s = receipt_report clock owner r s

  report : (ℕ → ℕ) → Owner → Option String → Option String → Exec Message Binding Status
  unfolding outcome_report
  report clock owner none none s = (err params_invalid, s)
  report clock owner (some id) none s = (context_status owner id s, s)
  report clock owner none (some key) s =
      elim (Dict.get s.idempotency (owner_key owner complete_action key)) [
        | none ↦ (err not_found, s)
        | some item ↦ outcome_report clock owner item.outcome s
      ]
  report clock owner (some id) (some key) s = (err params_invalid, s)

  unfoldable status : (ℕ → ℕ) → Owner → Option String → Option String → Exec Message Binding Status
  unfolding report
  status clock owner id key s = report clock owner id key (sweep opts (clock 0) s)

  unfoldable snapshot : (ℕ → ℕ) → Owner → String → Exec Message Binding (Snapshot Message Binding)
  snapshot clock owner id s =
      let s₁ = sweep opts (clock 0) s in
      (
        do
          e ← require_mutable s₁ owner id
          ok (record {
            context_id = e.context_id;
            version = e.version;
            state = e.state;
            transcript = e.transcript;
            binding = e.binding;
            expires_at = e.expires_at;
          }),
        s₁,
      )

  unfoldable sweep_expired : (ℕ → ℕ) → Exec Message Binding ℕ
  sweep_expired clock s = (ok (swept opts (clock 0) s), sweep opts (clock 0) s)
