-- ===== src/Nwp/ContextStore/State.antt =====
-- nps_sdk/nwp/context_store.py: the data of the store, and `_sweep`.
-- The types of messages and of bindings are parameters. Times are in microseconds; a clock is the
-- sequence of the readings that one call makes. The state is what `_lock` guards, so an operation
-- is one step.
use nps_sdk_python.Prelude.{
  ℕ, ◌+◌, ◌*◌, String, ◌≡◌, Bool, true, false, not, ◌&&◌, Option, none, some, List, leb,
  if◌then◌else◌, Eq, eqb, string_eq, arith,
}
use nps_sdk_python.Prelude.Dict
use nps_sdk_python.Prelude.Dict.{Dict}

-- llm.py
pub data Operation : Type 0 where
  create append fork reset release : Operation

pub data ContextState : Type 0 where
  busy active released expired failed : ContextState

pub record Owner : Type 0 where
  pub nid : String
  pub security_scope : String

pub record Request (Message Binding : Type 0) : Type 0 where
  pub operation : Operation
  pub owner : Owner
  pub binding : Binding
  pub messages : List Message
  pub idempotency_key : String
  pub request_id : String
  pub context_id : Option String
  pub base_version : Option ℕ
  pub ttl_seconds : Option ℕ  -- a negative number is refused as 0 is

pub record Reservation (Message Binding : Type 0) : Type 0 where
  pub reservation_id : String
  pub request : Request Message Binding
  pub binding_fingerprint : String
  pub base_transcript : List Message
  pub effective_ttl_seconds : Option ℕ
  pub parent_context_id : Option String
  pub parent_version : Option ℕ

pub record Entry (Message Binding : Type 0) : Type 0 where
  pub context_id : String
  pub owner : Owner
  pub version : ℕ
  pub state : ContextState
  pub binding : Binding
  pub binding_fingerprint : String
  pub transcript : List Message
  pub ttl_seconds : ℕ
  pub expires_at : Option ℕ
  pub tombstone_until : Option ℕ
  pub reservation_id : Option String

pub record Receipt : Type 0 where
  pub context_id : String
  pub version : ℕ
  pub operation : Operation
  pub state : ContextState
  pub expires_at : Option ℕ
  pub parent_context_id : Option String
  pub parent_version : Option ℕ

-- the states of an `_IdempotencyEntry`, each with the fields that it sets
pub data Outcome : Type 0 where
  is_busy : String → String → Outcome  -- request_id, reservation_id
  is_failed : String → Option String → Outcome  -- request_id, error_code
  is_completed : Option String → Receipt → Outcome  -- request_id
  is_released : Receipt → String → ℕ → Outcome  -- context_id, base_version

pub record IdempotencyEntry : Type 0 where
  pub outcome : Outcome
  pub retain_until : ℕ

pub data Action : Type 0 where
  complete_action release_action : Action

-- `_owner_key`
pub record OwnerKey : Type 0 where
  pub nid : String
  pub security_scope : String
  pub action : Action
  pub key : String

abbrev action_eqb : Action → Action → Bool
action_eqb complete_action complete_action = true
action_eqb release_action release_action = true
action_eqb _ _ = false

abbrev pub owner_key : Owner → Action → String → OwnerKey
owner_key owner action key = record {
  nid = owner.nid;
  security_scope = owner.security_scope;
  action = action;
  key = key;
}

abbrev key_eqb : OwnerKey → OwnerKey → Bool
key_eqb a b =
    eqb a.nid b.nid
    && eqb a.security_scope b.security_scope
    && action_eqb a.action b.action
    && eqb a.key b.key

pub key_eqb_iff : (a b : OwnerKey) → (key_eqb a b ≡ true → a ≡ b) × (a ≡ b → key_eqb a b ≡ true)
key_eqb_iff a b = ground (
  arith,
  string_eq.beq_iff a.nid b.nid,
  string_eq.beq_iff a.security_scope b.security_scope,
  string_eq.beq_iff a.key b.key,
)

instance abbrev pub owner_key_eq : Eq OwnerKey
owner_key_eq = record { beq = key_eqb; beq_iff = key_eqb_iff }

-- `entry.owner == owner`
abbrev pub owner_eqb : Owner → Owner → Bool
owner_eqb a b = eqb a.nid b.nid && eqb a.security_scope b.security_scope

pub record Store (Message Binding : Type 0) : Type 0 where
  pub contexts : Dict String (Entry Message Binding)
  pub idempotency : Dict OwnerKey IdempotencyEntry
  pub reservations : Dict String (Reservation Message Binding)

pub record Options : Type 0 where
  pub max_contexts_per_principal : ℕ
  pub default_ttl_seconds : ℕ
  pub max_ttl_seconds : ℕ
  pub tombstone_seconds : ℕ
  pub idempotency_ttl : ℕ
  pub supported_operations : Operation → Bool

-- datetime.timedelta(seconds=n)
abbrev pub seconds : ℕ → ℕ
seconds n = n * 1000000

abbrev pub is_active : ContextState → Bool
is_active active = true
is_active _ = false

abbrev pub is_gone : ContextState → Bool
is_gone expired = true
is_gone released = true
is_gone _ = false

abbrev pub is_none {ℓ} : {A : Type ℓ} → Option A → Bool
is_none none = true
is_none (some a) = false

-- `at is not None and at <= now`
abbrev is_due : ℕ → Option ℕ → Bool
is_due now none = false
is_due now (some at) = leb at now

abbrev is_busy_outcome : Outcome → Bool
is_busy_outcome (is_busy r i) = true
is_busy_outcome _ = false

abbrev is_old : ℕ → IdempotencyEntry → Bool
is_old now item = not (is_busy_outcome item.outcome) && leb item.retain_until now

module _ {Message Binding : Type 0} where
  -- the test and the body of the first loop of `_sweep`
  abbrev pub expires_now : ℕ → Entry Message Binding → Bool
  expires_now now e = is_active e.state && is_none e.reservation_id && is_due now e.expires_at

  abbrev pub expire : Options → ℕ → Entry Message Binding → Entry Message Binding
  expire opts now e =
      if expires_now now e
      then record e {
        state = expired;
        expires_at = none;
        tombstone_until = some (now + seconds opts.tombstone_seconds);
      }
      else e

  -- a context whose tombstone is over
  abbrev pub is_buried : ℕ → Entry Message Binding → Bool
  is_buried now e = is_gone e.state && is_due now e.tombstone_until

  -- `_sweep`; its count of changes is `swept`
  unfoldable pub sweep : Options → ℕ → Store Message Binding → Store Message Binding
  sweep opts now s = record s {
    contexts =
        Dict.filter_values (λ e. not (is_buried now e))
          (Dict.map_values (expire opts now) s.contexts);
    idempotency = Dict.filter_values (λ i. not (is_old now i)) s.idempotency;
  }

  unfoldable pub swept : Options → ℕ → Store Message Binding → ℕ
  swept opts now s =
      Dict.count_values (expires_now now) s.contexts
      + Dict.count_values (is_buried now) (Dict.map_values (expire opts now) s.contexts)
      + Dict.count_values (is_old now) s.idempotency

pub owner_eqb→eq : (a b : Owner) → owner_eqb a b ≡ true → a ≡ b
owner_eqb→eq a b h =
    ground
      (arith, string_eq.beq_iff a.nid b.nid, string_eq.beq_iff a.security_scope b.security_scope)
