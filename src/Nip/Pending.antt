-- ===== src/Nip/Pending.antt =====
-- nps_sdk/nip/ca/ra.py, InMemoryPendingStore and PendingQueuePolicy: the operators' approval queue.
-- Times are in microseconds, `now` is the reading of `_utcnow`, the random id of a request is an
-- argument. The store's lock makes each of its calls one step; `check` makes two of them.
mod Examples
use nps_sdk_python.Prelude.{
  ℕ, ◌+◌, ◌-◌, ◌≤◌, ◌<◌, ◌≡◌, ◌⊎◌, inl, inr, refl, String, Bool, true, false, not, ◌&&◌, Option,
  none, some, List, [], ◌∷◌, Result, ok, err, ltb, leb, if◌then◌else◌, eqb, string_eq, arith,
  Option-cases,
}
use nps_sdk_python.Prelude.Dict
use nps_sdk_python.Prelude.Dict.{Dict}

pub data PendingStatus : Type 0 where
  pending : PendingStatus
  approved : PendingStatus
  rejected : PendingStatus

abbrev is_pending : PendingStatus → Bool
is_pending pending = true
is_pending approved = false
is_pending rejected = false

-- What the caller asks for: the parts of a PendingRegistration that the store passes through.
pub record Request : Type 0 where
  pub entity_type : String
  pub identifier : String
  pub pub_key : String
  pub capabilities : List String
  pub scope_json : String
  pub metadata_json : Option String

pub record PendingRegistration : Type 0 where
  pub id : String
  pub request : Request
  pub requested_at : ℕ
  pub status : PendingStatus
  pub reject_reason : Option String

abbrev pub Records : Type 0
Records = Dict String PendingRegistration

abbrev pub waits : PendingRegistration → Bool
waits r = is_pending r.status

-- pending_count
abbrev pub pending_count : Records → ℕ
pending_count records = Dict.count_values waits records

-- `r.requested_at < now - max_age`, for a record that is not pending
pub aged : ℕ → ℕ → PendingRegistration → Bool
aged now max_age r = not (waits r) && ltb (r.requested_at + max_age) now

-- _sweep_locked
unfoldable pub sweep : ℕ → ℕ → Records → Records
sweep now max_age records = Dict.filter_values (λ r. not (aged now max_age r)) records

-- enqueue
enqueue : ℕ → ℕ → PendingRegistration → Records → Records
enqueue now max_age r records = Dict.put (sweep now max_age records) r.id r

-- approve and reject: the decision on a record, if it waits for one
pub decide : PendingStatus → (Option String → Option String) → String → Records → Records × Bool
decide status reason id records = elim (Dict.get records id) [
  | none ↦ (records, false)
  | some r ↦
      if waits r
      then (
        Dict.put records id (record r { status = status; reject_reason = reason r.reject_reason }),
        true,
      )
      else (records, false)
]

-- approve
abbrev approve : String → Records → Records × Bool
approve id records = decide approved (λ old. old) id records

-- reject
abbrev pub reject : String → String → Records → Records × Bool
reject id reason records = decide rejected (λ _. some reason) id records

-- How PendingQueuePolicy.check ends: always by an exception.
pub data Refusal : Type 0 where
  queue_full : Refusal
  queued : String → Refusal

-- PendingQueuePolicy.check, when no other call comes between its two steps
pub check : ℕ → ℕ → ℕ → String → Request → Records → Records × Refusal
check now max_age max_size pid request records =
    if leb max_size (pending_count records) then (records, queue_full) else (
      enqueue now max_age
          (record {
            id = pid;
            request = request;
            requested_at = now;
            status = pending;
            reject_reason = none;
          })
          records,
      queued pid,
    )

-- a record as a decision leaves it
abbrev pub decided :
    PendingStatus → (Option String → Option String) → PendingRegistration → PendingRegistration
decided status reason r = record r { status = status; reject_reason = reason r.reject_reason }

-- A decision is made once: it succeeds exactly on a record that waits, gives it the status and the
-- reason, leaves every other record, and no second decision on it succeeds.
pub decide_once :
    (status later : PendingStatus) (f g : Option String → Option String) (id other : String)
    (records : Records)
    → is_pending status ≡ false
    → ((decide status f id records).1 ≡ Dict.holds waits (Dict.get records id))
      × (Dict.get (decide status f id records).0 other ≡ (
          if eqb id other && Dict.holds waits (Dict.get records id)
          then Dict.option_map (decided status f) (Dict.get records id)
          else Dict.get records other))
      × ((decide later g id (decide status f id records).0).1 ≡ false)
unfolding decide
decide_once status later f g id other records final = elim (Option-cases (Dict.get records id)) [
  | inl e ↦ ground (arith, e)
  | inr (r, e) ↦ ground (
    arith,
    e,
    Dict.get-put records id other (decided status f r),
    Dict.get-put records id id (decided status f r),
    string_eq.beq_iff id id,
  )
]

pending-filter :
    (now max_age : ℕ) (d : Records)
    → pending_count (Dict.filter_values (λ r. not (aged now max_age r)) d) ≡ pending_count d
unfolding aged Dict.count_values Dict.filter_values
pending-filter now max_age [] = refl
pending-filter now max_age ((k, r) ∷ d) = ground (arith, pending-filter now max_age d)

-- A sweep leaves the number of records that wait for a decision, however old they are.
sweep_keeps :
    (now max_age : ℕ) (records : Records)
    → pending_count (sweep now max_age records) ≡ pending_count records
unfolding sweep
sweep_keeps now max_age records = pending-filter now max_age records

-- A check that no other call interrupts keeps the queue within its bound.
pub check-bounded :
    (now max_age max_size : ℕ) (pid : String) (request : Request) (records : Records)
    → pending_count records ≤ max_size
    → pending_count (check now max_age max_size pid request records).0 ≤ max_size
unfolding check enqueue
check-bounded now max_age max_size pid request records within = ground (
  arith,
  sweep_keeps now max_age records,
  Dict.count-put waits (sweep now max_age records) pid (record {
    id = pid;
    request = request;
    requested_at = now;
    status = pending;
    reject_reason = none;
  }),
)
