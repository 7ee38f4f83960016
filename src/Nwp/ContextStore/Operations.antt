-- ===== src/Nwp/ContextStore/Operations.antt =====
-- nps_sdk/nwp/context_store.py: the operations of InMemoryLlmContextStore. An operation returns its
-- result or the error that it raises, and the store; what the first sweep did stays after an error.
-- `clock k` is the k-th reading of the clock in the call. The caller holds a reservation by
-- reference; the model passes its id, so `_require_reservation` is a lookup.
use nps_sdk_python.Prelude.{
  ℕ, zero, suc, ◌+◌, String, Bool, true, false, Option, none, some, [], ◌∷◌, ◌++◌, Result, ok, err,
  ◌>>=◌, ◌>>◌, if◌then◌else◌, eqb, string_eq,
}
use nps_sdk_python.Prelude.Dict
use nps_sdk_python.Prelude.Dict.{Dict, option_map}
use nps_sdk_python.Nwp.ContextStore.State.{
  Operation, reset, active, Request, Reservation, Entry, Receipt, is_busy, is_failed, is_completed,
  Options, Store, owner_key, owner_key_eq, complete_action, seconds, is_none, sweep,
}
use nps_sdk_python.Nwp.ContextStore.Guards.{
  Host, StoreError, unavailable, validate_context_id, require_entry, plan, allocates, or_empty,
}

abbrev pub is_reset : Operation → Bool
is_reset reset = true
is_reset _ = false

abbrev ttl_or_zero : Option ℕ → ℕ
ttl_or_zero none = 0
ttl_or_zero (some n) = n

abbrev pub Exec : Type 0 → Type 0 → Type 0 → Type 0
Exec Message Binding A = Store Message Binding → Result StoreError A × Store Message Binding

abbrev pub expiry : ℕ → Option ℕ → Option ℕ
expiry now ttl = option_map (λ n. now + seconds n) ttl

-- `entry is not None and entry.reservation_id == reservation._reservation_id`
abbrev pub holds_lock : String → Option String → Bool
holds_lock id none = false
holds_lock id (some r) = eqb r id

module _ {Message Binding : Type 0} where
  -- what `reserve` writes for a new reservation
  unfoldable pub lock_base :
      Reservation Message Binding
      → Dict String (Entry Message Binding)
      → Dict String (Entry Message Binding)
  lock_base r contexts =
      if allocates r.request.operation
      then contexts
      else elim (Dict.get contexts (or_empty r.request.context_id)) [
        | none ↦ contexts
        | some e ↦
            Dict.put contexts (or_empty r.request.context_id)
              (record e { reservation_id = some r.reservation_id })
      ]

  -- `_next_context_id`; `ids k` is the k-th text of the factory
  unfoldable pub next_context_id :
      ℕ → ℕ → (ℕ → String) → Dict String (Entry Message Binding) → Result StoreError String
  next_context_id zero k ids contexts = err unavailable
  next_context_id (suc tries) k ids contexts =
      let rest = next_context_id tries (k + 1) ids contexts in
      do
        validate_context_id (ids k)
        if is_none (Dict.get contexts (ids k)) then ok (ids k) else rest

  -- the entry that a committed CREATE or FORK stores
  unfoldable pub new_entry :
      ℕ → String → Reservation Message Binding → Message → Entry Message Binding
  new_entry now id r assistant = record {
    context_id = id;
    owner = r.request.owner;
    version = 1;
    state = active;
    binding = r.request.binding;
    binding_fingerprint = r.binding_fingerprint;
    transcript = r.base_transcript ++ (r.request.messages ++ assistant ∷ []);
    ttl_seconds = ttl_or_zero r.effective_ttl_seconds;
    expires_at = expiry now r.effective_ttl_seconds;
    tombstone_until = none;
    reservation_id = none;
  }

  -- the entry after a committed APPEND or RESET
  unfoldable pub next_entry :
      ℕ → Entry Message Binding → Reservation Message Binding → Message → Entry Message Binding
  next_entry now e r assistant = record e {
    version = e.version + 1;
    state = active;
    reservation_id = none;
    expires_at = expiry now r.effective_ttl_seconds;
    ttl_seconds = ttl_or_zero r.effective_ttl_seconds;
    binding = if is_reset r.request.operation then r.request.binding else e.binding;
    binding_fingerprint =
        if is_reset r.request.operation then r.binding_fingerprint else e.binding_fingerprint;
    transcript =
        if is_reset r.request.operation
        then r.request.messages ++ assistant ∷ []
        else e.transcript ++ (r.request.messages ++ assistant ∷ []);
  }

  -- the entry that `commit` stores, under its id
  unfoldable pub commit_entry :
      ℕ
      → (ℕ → String)
      → Reservation Message Binding
      → Message
      → Store Message Binding
      → Result StoreError (Entry Message Binding)
  commit_entry now ids r assistant s =
      if allocates r.request.operation
      then (do id ← next_context_id 8 0 ids s.contexts; ok (new_entry now id r assistant))
      else (do
        e ← require_entry s (or_empty r.request.context_id)
        ok (next_entry now e r assistant))

  unfoldable pub receipt_for : Reservation Message Binding → Entry Message Binding → Receipt
  receipt_for r e = record {
    context_id = e.context_id;
    version = e.version;
    operation = r.request.operation;
    state = active;
    expires_at = e.expires_at;
    parent_context_id = r.parent_context_id;
    parent_version = r.parent_version;
  }

  -- An entry is stored under its own id for a new context, and stays where it was found else.
  unfoldable pub commit_key : Reservation Message Binding → Entry Message Binding → String
  commit_key r e =
      if allocates r.request.operation then e.context_id else or_empty r.request.context_id

  -- `_clear_reservation`
  unfoldable pub unlock :
      Reservation Message Binding
      → Dict String (Entry Message Binding)
      → Dict String (Entry Message Binding)
  unlock r contexts = elim (Dict.get contexts (or_empty r.request.context_id)) [
    | none ↦ contexts
    | some e ↦
        if holds_lock r.reservation_id e.reservation_id
        then Dict.put contexts (or_empty r.request.context_id) (record e { reservation_id = none })
        else contexts
  ]

module _ {Message Binding : Type 0} (opts : Options) where
  unfoldable pub enter :
      ℕ → Reservation Message Binding → Store Message Binding → Store Message Binding
  enter now r s = record {
    contexts = lock_base r s.contexts;
    reservations = Dict.put s.reservations r.reservation_id r;
    idempotency =
        Dict.put s.idempotency (owner_key r.request.owner complete_action r.request.idempotency_key)
          (record {
            outcome = is_busy r.request.request_id r.reservation_id;
            retain_until = now + opts.idempotency_ttl;
          });
  }

  unfoldable pub reserve :
      Host Message Binding
      → (ℕ → ℕ)
      → String
      → Request Message Binding
      → Exec Message Binding (Reservation Message Binding)
  reserve host clock fresh request s =
      let s₁ = sweep opts (clock 0) s in
      elim (plan opts host fresh (clock 1) s₁ request) [
        | err e ↦ (err e, s₁)
        | ok r ↦ (ok r, enter (clock 2) r s₁)
      ]

  unfoldable pub settle :
      ℕ
      → Reservation Message Binding
      → Entry Message Binding
      → Store Message Binding
      → Store Message Binding
  settle now r e s = record {
    contexts = Dict.put s.contexts (commit_key r e) e;
    idempotency =
        Dict.put s.idempotency (owner_key r.request.owner complete_action r.request.idempotency_key)
          (record {
            outcome = is_completed (some r.request.request_id) (receipt_for r e);
            retain_until = now + opts.idempotency_ttl;
          });
    reservations = Dict.remove s.reservations r.reservation_id;
  }

  unfoldable pub commit : (ℕ → ℕ) → (ℕ → String) → String → Message → Exec Message Binding Receipt
  commit clock ids reservation_id assistant s = elim (Dict.get s.reservations reservation_id) [
    | none ↦ (err unavailable, s)
    | some r ↦ elim (commit_entry (clock 0) ids r assistant s) [
      | err e ↦ (err e, s)
      | ok e ↦ (ok (receipt_for r e), settle (clock 1) r e s)
    ]
  ]

  unfoldable pub drop :
      ℕ
      → Reservation Message Binding
      → Option String
      → Store Message Binding
      → Store Message Binding
  drop now r error_code s = record {
    contexts = unlock r s.contexts;
    reservations = Dict.remove s.reservations r.reservation_id;
    idempotency =
        Dict.put s.idempotency (owner_key r.request.owner complete_action r.request.idempotency_key)
          (record {
            outcome = is_failed r.request.request_id error_code;
            retain_until = now + opts.idempotency_ttl;
          });
  }

  unfoldable pub abort : (ℕ → ℕ) → String → Option String → Exec Message Binding (Unit {0})
  abort clock reservation_id error_code s = elim (Dict.get s.reservations reservation_id) [
    | none ↦ (err unavailable, s)
    | some r ↦ (ok tt, sweep opts (clock 1) (drop (clock 0) r error_code s))
  ]
