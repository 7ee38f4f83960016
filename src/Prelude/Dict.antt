-- ===== src/Prelude/Dict.antt =====
-- Python's `dict`: an association list in insertion order. Assigning to a key that is there keeps
-- its position; the first entry of a key is the one that counts.
use nps_sdk_python.Prelude.Tests.{Eq, eqb, if◌then◌else◌}
use Prim.Native.Nat.{ℕ, ◌+◌, ◌≤◌}
use mathlib.Core.Path.{◌≡◌, refl, ap}
use mathlib.Core.Bool.{Bool, true, false, ◌||◌}
use nps_sdk_python.Prelude.Sets.{mem, Nodup}
use mathlib.Core.Option.{Option, none, some}
use mathlib.Core.List.{List, [], ◌∷◌}
use native.Mathlib.Omega.{arith}

abbrev pub Dict {ℓ κ} : Type ℓ → Type κ → Type (ℓ ⊔ κ)
Dict K V = List (K × V)

module _ {ℓ κ} {K : Type ℓ} {V : Type κ} ⦃e : Eq K⦄ where
  unfoldable pub get : Dict K V → K → Option V
  get [] k = none
  get ((j, v) ∷ d) k = if eqb j k then some v else get d k

  unfoldable pub put : Dict K V → K → V → Dict K V
  put [] k v = (k, v) ∷ []
  put ((j, w) ∷ d) k v = if eqb j k then (j, v) ∷ d else (j, w) ∷ put d k v

  unfoldable pub remove : Dict K V → K → Dict K V
  remove [] k = []
  remove ((j, w) ∷ d) k = let rest = remove d k in if eqb j k then rest else (j, w) ∷ rest

  pub get-put :
      (d : Dict K V) (k j : K) (v : V) → get (put d k v) j ≡ (if eqb k j then some v else get d j)
  unfolding get put
  get-put [] k j v = refl
  get-put ((i, w) ∷ d) k j v =
      ground (arith, e.beq_iff k j, e.beq_iff i k, e.beq_iff i j, get-put d k j v)

  pub get-remove :
      (d : Dict K V) (k j : K) → get (remove d k) j ≡ (if eqb k j then none else get d j)
  unfolding get remove
  get-remove [] k j = ground arith
  get-remove ((i, w) ∷ d) k j =
      ground (arith, e.beq_iff k j, e.beq_iff i k, e.beq_iff i j, get-remove d k j)

pub ruleset dict_laws = (get-put, get-remove)

module _ {ℓ κ} {K : Type ℓ} {V : Type κ} where
  -- d.items(), filtered by the value, as keys
  unfoldable pub keys_where : (V → Bool) → Dict K V → List K
  keys_where p [] = []
  keys_where p ((k, v) ∷ d) = let rest = keys_where p d in if p v then k ∷ rest else rest

  unfoldable pub keys : Dict K V → List K
  keys [] = []
  keys ((k, v) ∷ d) = k ∷ keys d

  -- any(p(v) for v in d.values())
  unfoldable pub any_value : (V → Bool) → Dict K V → Bool
  any_value p [] = false
  any_value p ((k, v) ∷ d) = p v || any_value p d

abbrev pub holds {ℓ} : {V : Type ℓ} → (V → Bool) → Option V → Bool
holds p none = false
holds p (some v) = p v

module _ {ℓ κ} {K : Type ℓ} {V : Type κ} ⦃e : Eq K⦄ where
  pub keys-put : (d : Dict K V) (k : K) (v w : V) → get d k ≡ some w → keys (put d k v) ≡ keys d
  unfolding get put keys
  keys-put [] k v w h = cc
  keys-put ((j, u) ∷ d) k v w h = ground (arith, keys-put d k v w)

  pub mem-keys : (d : Dict K V) (k : K) → get d k ≡ none → mem k (keys d) ≡ false
  unfolding get keys
  mem-keys [] k h = refl
  mem-keys ((j, u) ∷ d) k h = ground (arith, mem-keys d k)

  mem-keys_where_absent :
      (p : V → Bool) (d : Dict K V) (k : K)
      → mem k (keys d) ≡ false
      → mem k (keys_where p d) ≡ false
  unfolding keys keys_where
  mem-keys_where_absent p [] k h = refl
  mem-keys_where_absent p ((j, u) ∷ d) k h = ground (arith, mem-keys_where_absent p d k)

  -- A key is listed exactly if its value passes the test.
  pub mem-keys_where :
      (p : V → Bool) (d : Dict K V) (k : K)
      → Nodup (keys d)
      → mem k (keys_where p d) ≡ holds p (get d k)
  unfolding keys keys_where get
  mem-keys_where p [] k n = refl
  mem-keys_where p ((j, u) ∷ d) k n =
      ground (arith, mem-keys_where p d k, e.beq_iff j k, mem-keys_where_absent p d k)

  pub Nodup-keys_where : (p : V → Bool) (d : Dict K V) → Nodup (keys d) → Nodup (keys_where p d)
  unfolding keys keys_where
  Nodup-keys_where p [] n = tt
  Nodup-keys_where p ((j, u) ∷ d) n =
      ground (arith, Nodup-keys_where p d, mem-keys_where_absent p d j)

  -- Some value passes the test if the value of a key does.
  any_value_of_get :
      (p : V → Bool) (d : Dict K V) (k : K) → holds p (get d k) ≡ true → any_value p d ≡ true
  unfolding any_value get
  any_value_of_get p [] k h = cc
  any_value_of_get p ((j, u) ∷ d) k h = ground (arith, any_value_of_get p d k)

module _ {ℓ κ} {K : Type ℓ} {V : Type κ} where
  -- a loop over the values that changes each in place
  unfoldable pub map_values : (V → V) → Dict K V → Dict K V
  map_values f [] = []
  map_values f ((k, v) ∷ d) = (k, f v) ∷ map_values f d

  -- the entries whose value passes the test; the others are deleted
  unfoldable pub filter_values : (V → Bool) → Dict K V → Dict K V
  filter_values p [] = []
  filter_values p ((k, v) ∷ d) = let rest = filter_values p d in if p v then (k, v) ∷ rest else rest

  -- sum(p(v) for v in d.values())
  unfoldable pub count_values : (V → Bool) → Dict K V → ℕ
  count_values p [] = 0
  count_values p ((k, v) ∷ d) = (if p v then 1 else 0) + count_values p d

  pub keys-map_values : (f : V → V) (d : Dict K V) → keys (map_values f d) ≡ keys d
  unfolding keys map_values
  keys-map_values f [] = refl
  keys-map_values f ((k, v) ∷ d) = ap (λ r. k ∷ r) (keys-map_values f d)

  pub count-map_values_le :
      (p : V → Bool) (f : V → V) (d : Dict K V)
      → ((v : V) → p (f v) ≡ true → p v ≡ true)
      → count_values p (map_values f d) ≤ count_values p d
  unfolding count_values map_values
  count-map_values_le p f [] h = omega arith
  count-map_values_le p f ((k, v) ∷ d) h = ground (arith, h v, count-map_values_le p f d h)

  pub count-filter_values_le :
      (p q : V → Bool) (d : Dict K V) → count_values p (filter_values q d) ≤ count_values p d
  unfolding count_values filter_values
  count-filter_values_le p q [] = omega arith
  count-filter_values_le p q ((k, v) ∷ d) = ground (arith, count-filter_values_le p q d)

abbrev pub option_map {ℓ κ} : {A : Type ℓ} {B : Type κ} → (A → B) → Option A → Option B
option_map f none = none
option_map f (some a) = some (f a)

abbrev pub option_filter {ℓ} : {A : Type ℓ} → (A → Bool) → Option A → Option A
option_filter p none = none
option_filter p (some a) = if p a then some a else none

module _ {ℓ κ} {K : Type ℓ} {V : Type κ} ⦃e : Eq K⦄ where
  pub get-map_values :
      (f : V → V) (d : Dict K V) (k : K) → get (map_values f d) k ≡ option_map f (get d k)
  unfolding get map_values
  get-map_values f [] k = refl
  get-map_values f ((j, v) ∷ d) k = ground (arith, get-map_values f d k)

  pub get-absent : (d : Dict K V) (k : K) → mem k (keys d) ≡ false → get d k ≡ none
  unfolding get keys
  get-absent [] k h = refl
  get-absent ((j, v) ∷ d) k h = ground (arith, get-absent d k)

  mem-keys-filter :
      (p : V → Bool) (d : Dict K V) (k : K)
      → mem k (keys d) ≡ false
      → mem k (keys (filter_values p d)) ≡ false
  unfolding keys filter_values
  mem-keys-filter p [] k h = refl
  mem-keys-filter p ((j, v) ∷ d) k h = ground (arith, mem-keys-filter p d k)

  pub get-filter_values :
      (p : V → Bool) (d : Dict K V) (k : K)
      → Nodup (keys d)
      → get (filter_values p d) k ≡ option_filter p (get d k)
  unfolding get keys filter_values
  get-filter_values p [] k n = refl
  get-filter_values p ((j, v) ∷ d) k n = ground (
    arith,
    get-filter_values p d k,
    e.beq_iff j k,
    get-absent (filter_values p d) k,
    mem-keys-filter p d k,
  )

  pub Nodup-filter_values :
      (p : V → Bool) (d : Dict K V) → Nodup (keys d) → Nodup (keys (filter_values p d))
  unfolding keys filter_values
  Nodup-filter_values p [] n = tt
  Nodup-filter_values p ((j, v) ∷ d) n =
      ground (arith, Nodup-filter_values p d, mem-keys-filter p d j)

  pub mem-keys-put :
      (d : Dict K V) (k j : K) (v : V) → mem j (keys (put d k v)) ≡ (mem j (keys d) || eqb k j)
  unfolding keys put
  mem-keys-put [] k j v = ground arith
  mem-keys-put ((i, w) ∷ d) k j v =
      ground (arith, mem-keys-put d k j v, e.beq_iff i k, e.beq_iff i j, e.beq_iff k j)

  pub Nodup-put : (d : Dict K V) (k : K) (v : V) → Nodup (keys d) → Nodup (keys (put d k v))
  unfolding keys put
  Nodup-put [] k v n = ground arith
  Nodup-put ((i, w) ∷ d) k v n =
      ground (arith, Nodup-put d k v, mem-keys-put d k i v, e.beq_iff i k, e.beq_iff k i)

  mem-keys-remove :
      (d : Dict K V) (k j : K) → mem j (keys d) ≡ false → mem j (keys (remove d k)) ≡ false
  unfolding keys remove
  mem-keys-remove [] k j h = refl
  mem-keys-remove ((i, w) ∷ d) k j h = ground (arith, mem-keys-remove d k j)

  Nodup-remove : (d : Dict K V) (k : K) → Nodup (keys d) → Nodup (keys (remove d k))
  unfolding keys remove
  Nodup-remove [] k n = tt
  Nodup-remove ((i, w) ∷ d) k n = ground (arith, Nodup-remove d k, mem-keys-remove d k i)

  -- Writing a key replaces what its old value counted.
  pub count-put :
      (p : V → Bool) (d : Dict K V) (k : K) (v : V)
      → count_values p (put d k v) + (if holds p (get d k) then 1 else 0)
        ≡ count_values p d + (if p v then 1 else 0)
  unfolding count_values put get
  count-put p [] k v = ground arith
  count-put p ((i, w) ∷ d) k v = ground (arith, count-put p d k v)

  pub count-remove_le :
      (p : V → Bool) (d : Dict K V) (k : K)
      → count_values p (remove d k) + (if holds p (get d k) then 1 else 0) ≤ count_values p d
  unfolding count_values remove get
  count-remove_le p [] k = ground arith
  count-remove_le p ((i, w) ∷ d) k = ground (arith, count-remove_le p d k)
