-- ===== src/Core/Cache.antt =====
-- nps_sdk/core/cache.py: AnchorFrameCache. Times are the readings of time.monotonic, which `set` takes
-- twice; the canonical id of a schema (JSON, then SHA-256) is the parameter `compute_anchor_id`, and
-- `has_digest` is the test for the prefix "sha256:".
mod Examples
use nps_sdk_python.Prelude.{
  ℕ, ◌+◌, ◌<◌, ◌↔◌, sym, subst, ap, String, Bool, false, not, ◌&&◌, Option, none, some, List, [],
  ◌∷◌, Result, ok, err, ltb, leb, length, eqb, string_eq, if◌then◌else◌,
}
use nps_sdk_python.Prelude.Dict
use nps_sdk_python.Prelude.Dict.{Dict, filter_values}

pub record AnchorFrame {ℓ} (S : Type ℓ) : Type ℓ where
  pub anchor_id : String
  pub schema : S
  pub ttl : ℕ

pub record Entry {ℓ} (S : Type ℓ) : Type ℓ where
  pub frame : AnchorFrame S
  pub expires_at : ℕ

-- NpsAnchorPoisonError, NpsAnchorNotFoundError
pub data AnchorError : Type 0 where
  anchor_poison anchor_not_found : String → AnchorError

module _ {ℓ} {S : Type ℓ} (compute_anchor_id : S → String) (has_digest : String → Bool) where
  abbrev pub canonical_id : AnchorFrame S → String
  canonical_id f = if has_digest f.anchor_id then f.anchor_id else compute_anchor_id f.schema

  -- _schemas_equal
  abbrev pub schemas_equal : S → S → Bool
  schemas_equal a b = eqb (compute_anchor_id a) (compute_anchor_id b)

  -- the test for another schema under the id, at the first reading of the clock
  abbrev pub is_poisoned : ℕ → AnchorFrame S → Option (Entry S) → Bool
  is_poisoned now f none = false
  is_poisoned now f (some e) = ltb now e.expires_at && not (schemas_equal e.frame.schema f.schema)

  -- set
  unfoldable pub set :
      ℕ
      → ℕ
      → AnchorFrame S
      → Dict String (Entry S)
      → Result AnchorError (Dict String (Entry S) × String)
  set now later f store =
      if is_poisoned now f (Dict.get store (canonical_id f))
      then err (anchor_poison (canonical_id f))
      else ok (
        Dict.put store (canonical_id f) (record { frame = f; expires_at = later + f.ttl }),
        canonical_id f,
      )

  -- get
  unfoldable pub get :
      ℕ → String → Dict String (Entry S) → Dict String (Entry S) × Option (AnchorFrame S)
  get now id store = elim (Dict.get store id) [
    | none ↦ (store, none)
    | some e ↦ if ltb e.expires_at now then (Dict.remove store id, none) else (store, some e.frame)
  ]

  -- get_required
  abbrev pub get_required :
      ℕ
      → String
      → Dict String (Entry S)
      → Result AnchorError (Dict String (Entry S) × AnchorFrame S)
  get_required now id store = elim (get now id store).1 [
    | none ↦ err (anchor_not_found id)
    | some f ↦ ok ((get now id store).0, f)
  ]

  -- invalidate
  abbrev invalidate : String → Dict String (Entry S) → Dict String (Entry S)
  invalidate id store = Dict.remove store id

  -- _evict_expired, and __len__
  abbrev evict_expired : ℕ → Dict String (Entry S) → Dict String (Entry S)
  evict_expired now store = filter_values (λ e. not (ltb e.expires_at now)) store

  abbrev size : ℕ → Dict String (Entry S) → Dict String (Entry S) × ℕ
  size now store = (evict_expired now store, length (evict_expired now store))

  served : ℕ → Option (Entry S) → Option (AnchorFrame S)
  served at none = none
  served at (some e) = if ltb e.expires_at at then none else some e.frame
