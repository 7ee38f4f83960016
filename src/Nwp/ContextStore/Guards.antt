-- ===== src/Nwp/ContextStore/Guards.antt =====
-- nps_sdk/nwp/context_store.py: the tests that an operation makes before it changes anything, as
-- functions of the swept store.
use nps_sdk_python.Prelude.{
  ℕ, ◌+◌, ◌-◌, ◌/◌, String, Bool, true, false, not, ◌&&◌, ◌||◌, Option, none, some, List, [],
  Result, ok, err, ◌>>=◌, ◌>>◌, reject_if, leb, ◌==◌, if◌then◌else◌, eqb, string_eq, any, all,
  length, codes, is_digit, is_letter, min, max,
}
use nps_sdk_python.Prelude.Dict
use nps_sdk_python.Prelude.Dict.{Dict}
use nps_sdk_python.Nwp.ContextStore.State.{
  Operation, create, append, fork, release, expired, released, Owner, Request, Reservation, Entry,
  Options, Store, owner_key, owner_key_eq, complete_action, owner_eqb, is_active, is_none,
}

-- The error codes that the store raises; `unavailable` is the RuntimeError of a reservation that is
-- not active and of a context id factory that repeats itself.
pub data StoreError : Type 0 where
  idempotency_conflict : StoreError
  version_conflict : ℕ → StoreError
  binding_mismatch params_invalid limit_exceeded operation_unsupported forbidden : StoreError
  context_expired : ℕ → StoreError
  not_found unavailable : StoreError

-- What the store takes from elsewhere: the test `message.role.lower() == "system"`, the SHA-256
-- fingerprint of a binding, and `not text.strip()`.
pub record Host (Message Binding : Type 0) : Type 0 where
  pub is_system : Message → Bool
  pub fingerprint : Binding → String
  pub is_blank : String → Bool

abbrev is_id_char : ℕ → Bool
is_id_char c = is_letter c || is_digit c || c == b'_' || c == b'-'

-- `_CONTEXT_ID.fullmatch`: `^[A-Za-z0-9_-]{22,128}$`
unfoldable pub is_context_id : String → Bool
is_context_id text =
    let chars = codes text in
    leb 22 (length chars) && leb (length chars) 128 && all is_id_char chars

-- `_validate_context_id`
abbrev pub validate_context_id : String → Result StoreError (Unit {0})
validate_context_id text = reject_if (not (is_context_id text)) params_invalid

abbrev pub is_create : Operation → Bool
is_create create = true
is_create _ = false

abbrev pub is_fork : Operation → Bool
is_fork fork = true
is_fork _ = false

abbrev is_release : Operation → Bool
is_release release = true
is_release _ = false

-- `operation in (CREATE, FORK)`
abbrev pub allocates : Operation → Bool
allocates op = is_create op || is_fork op

-- `operation in (APPEND, FORK)`
abbrev keeps_binding : Operation → Bool
keeps_binding append = true
keeps_binding fork = true
keeps_binding _ = false

abbrev is_empty {ℓ} : {A : Type ℓ} → List A → Bool
is_empty [] = true
is_empty _ = false

abbrev is_zero_ttl : Option ℕ → Bool
is_zero_ttl none = false
is_zero_ttl (some n) = n == 0

-- `context_id or ""`
abbrev pub or_empty : Option String → String
or_empty none = ""
or_empty (some text) = text

-- `reservation_id is not None`
abbrev pub is_reserved : Option String → Bool
is_reserved r = not (is_none r)

-- `entry.version != base_version`
abbrev pub is_version : ℕ → Option ℕ → Bool
is_version version none = false
is_version version (some base) = version == base

-- `_ensure_supported`
abbrev pub ensure_supported : Options → Operation → Result StoreError (Unit {0})
ensure_supported opts op = reject_if (not (opts.supported_operations op)) operation_unsupported

-- `_clamp_ttl`
abbrev clamp_ttl : Options → ℕ → ℕ
clamp_ttl opts n = min n opts.max_ttl_seconds

-- `request.ttl_seconds or self._options.default_ttl_seconds`
abbrev ttl_or_default : Options → Option ℕ → ℕ
ttl_or_default opts none = opts.default_ttl_seconds
ttl_or_default opts (some n) = if n == 0 then opts.default_ttl_seconds else n

-- The time left to a forked context, rounded up to a second, and at least one. The source rounds
-- in floating point.
abbrev time_left : ℕ → Option ℕ → Option ℕ
time_left now none = none
time_left now (some at) = some (max 1 ((at - now + 999999) / 1000000))

-- `entry.ttl_seconds or None`
abbrev own_ttl : ℕ → Option ℕ
own_ttl n = if n == 0 then none else some n

module _ {Message Binding : Type 0} where
  unfoldable pub validate_target : Request Message Binding → Result StoreError (Unit {0})
  validate_target request =
      if is_create request.operation
      then reject_if (not (is_none request.context_id) || not (is_none request.base_version))
          params_invalid
      else (do
        reject_if (is_none request.context_id || is_none request.base_version) params_invalid
        validate_context_id (or_empty request.context_id))

  -- `_validate_request`
  unfoldable pub validate_request :
      Host Message Binding → Request Message Binding → Result StoreError (Unit {0})
  unfolding validate_target
  validate_request host request = do
    reject_if (is_release request.operation) params_invalid
    reject_if (host.is_blank request.idempotency_key) params_invalid
    reject_if (is_zero_ttl request.ttl_seconds) params_invalid
    validate_target request
    reject_if (not (is_fork request.operation) && is_empty request.messages) params_invalid
    reject_if (keeps_binding request.operation && any host.is_system request.messages)
        binding_mismatch

  -- `_require_entry`
  abbrev pub require_entry :
      Store Message Binding → String → Result StoreError (Entry Message Binding)
  require_entry s id = elim (Dict.get s.contexts id) [ none ↦ err not_found | some e ↦ ok e ]

  -- `_ensure_owner`
  abbrev pub ensure_owner : Entry Message Binding → Owner → Result StoreError (Unit {0})
  ensure_owner e owner = reject_if (not (owner_eqb e.owner owner)) forbidden

  abbrev ensure_live : Entry Message Binding → Result StoreError (Entry Message Binding)
  ensure_live e = elim e.state [
    | expired ↦ err (context_expired e.version)
    | released ↦ err not_found
    | _ ↦ ok e
  ]

  -- `_require_mutable`
  unfoldable pub require_mutable :
      Store Message Binding → Owner → String → Result StoreError (Entry Message Binding)
  require_mutable s owner id = do e ← require_entry s id; ensure_owner e owner; ensure_live e

  -- what `_ensure_allocation_available` counts
  abbrev pub is_live_of : Owner → Entry Message Binding → Bool
  is_live_of owner e = owner_eqb e.owner owner && is_active e.state

  abbrev pub is_pending_of : Owner → Reservation Message Binding → Bool
  is_pending_of owner r = owner_eqb r.request.owner owner && allocates r.request.operation

  abbrev pub allocated : Store Message Binding → Owner → ℕ
  allocated s owner =
      Dict.count_values (is_live_of owner) s.contexts
      + Dict.count_values (is_pending_of owner) s.reservations

  -- `_ensure_allocation_available`
  abbrev ensure_allocation : Options → Store Message Binding → Owner → Result StoreError (Unit {0})
  ensure_allocation opts s owner =
      reject_if (leb opts.max_contexts_per_principal (allocated s owner)) limit_exceeded

  -- `_effective_ttl`
  unfoldable pub effective_ttl :
      Options → ℕ → Request Message Binding → Entry Message Binding → Option ℕ
  effective_ttl opts now request e = elim request.ttl_seconds [
    | some n ↦ some (clamp_ttl opts n)
    | none ↦ if is_fork request.operation then time_left now e.expires_at else own_ttl e.ttl_seconds
  ]

  -- the branch of `reserve` for CREATE, up to the new reservation
  unfoldable pub plan_create :
      Options
      → Host Message Binding
      → String
      → Store Message Binding
      → Request Message Binding
      → Result StoreError (Reservation Message Binding)
  plan_create opts host fresh s request = do
    ensure_allocation opts s request.owner
    ok (record {
      reservation_id = fresh;
      request = request;
      binding_fingerprint = host.fingerprint request.binding;
      base_transcript = [];
      effective_ttl_seconds = some (clamp_ttl opts (ttl_or_default opts request.ttl_seconds));
      parent_context_id = none;
      parent_version = none;
    })

  -- the other branch, for an entry that may be mutated
  unfoldable pub plan_on :
      Options
      → Host Message Binding
      → String
      → ℕ
      → Store Message Binding
      → Request Message Binding
      → Entry Message Binding
      → Result StoreError (Reservation Message Binding)
  unfolding effective_ttl
  plan_on opts host fresh now s request e = do
    reject_if (is_reserved e.reservation_id || not (is_version e.version request.base_version))
        (version_conflict e.version)
    reject_if
        (keeps_binding request.operation
          && not (eqb e.binding_fingerprint (host.fingerprint request.binding)))
        binding_mismatch
    if is_fork request.operation then ensure_allocation opts s request.owner else ok tt
    ok (record {
      reservation_id = fresh;
      request = request;
      binding_fingerprint = host.fingerprint request.binding;
      base_transcript = e.transcript;
      effective_ttl_seconds = effective_ttl opts now request e;
      parent_context_id = if is_fork request.operation then some e.context_id else none;
      parent_version = if is_fork request.operation then some e.version else none;
    })

  -- `reserve` on the swept store, up to the new reservation; `fresh` is `uuid4().hex`
  unfoldable pub plan :
      Options
      → Host Message Binding
      → String
      → ℕ
      → Store Message Binding
      → Request Message Binding
      → Result StoreError (Reservation Message Binding)
  plan opts host fresh now s request = do
    validate_request host request
    ensure_supported opts request.operation
    reject_if
        (not (
          is_none (
            Dict.get s.idempotency
              (owner_key request.owner complete_action request.idempotency_key))))
        idempotency_conflict
    if is_create request.operation then plan_create opts host fresh s request else (do
      e ← require_mutable s request.owner (or_empty request.context_id)
      plan_on opts host fresh now s request e)
