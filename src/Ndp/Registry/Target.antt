-- ===== src/Ndp/Registry/Target.antt =====
-- nps_sdk/ndp/registry.py, nwp_target_matches_nid: whether an NID covers a target address. Texts are
-- lists of code points.
use nps_sdk_python.Prelude.{
  ℕ, zero, suc, ◌≡◌, ◌≢◌, ◌⊎◌, refl, Bool, true, false, ◌&&◌, Option, none, some, List, [], ◌∷◌,
  ◌++◌, map, ◌==◌, if◌then◌else◌, codes, arith,
}

-- `text.split(sep, 1)`: what stands before the first separator, and what stands behind it
unfoldable pub cut : ℕ → List ℕ → List ℕ × Option (List ℕ)
cut sep [] = ([], none)
cut sep (c ∷ text) =
    let (before, after) = cut sep text in if c == sep then ([], some text) else (c ∷ before, after)

-- `text.split(sep, n)`
unfoldable pub split : ℕ → ℕ → List ℕ → List (List ℕ)
unfolding cut
split zero sep text = text ∷ []
split (suc n) sep text = elim (cut sep text).1 [
  | none ↦ (cut sep text).0 ∷ []
  | some rest ↦ (cut sep text).0 ∷ split n sep rest
]

abbrev same_text : List ℕ → List ℕ → Bool
same_text [] [] = true
same_text (a ∷ as') (b ∷ bs) = a == b && same_text as' bs
same_text _ _ = false

-- `text.startswith(prefix)`: what is left, if it does
unfoldable pub strip_prefix : List ℕ → List ℕ → Option (List ℕ)
strip_prefix [] text = some text
strip_prefix (p ∷ prefix) [] = none
strip_prefix (p ∷ prefix) (c ∷ text) =
    let rest = strip_prefix prefix text in if p == c then rest else none

-- `segment.replace(":", "/")`
abbrev pub slashes : List ℕ → List ℕ
slashes segment = map (λ c. if c == b':' then b'/' else c) segment

-- `path == prefix or path.startswith(prefix + "/")`
unfoldable pub covers : List ℕ → List ℕ → Bool
covers prefix path = elim (strip_prefix prefix path) [
  | none ↦ false
  | some [] ↦ true
  | some (c ∷ rest) ↦ c == b'/'
]

-- behind the scheme: authority and path
unfoldable pub target_covered : List ℕ → List ℕ → List ℕ → Bool
unfolding cut covers
target_covered authority prefix rest =
    let path : List ℕ = elim (cut b'/' rest).1 [ none ↦ [] | some path ↦ path ] in
    same_text (cut b'/' rest).0 authority && covers prefix path

unfoldable pub match_parts : List (List ℕ) → List ℕ → Bool
unfolding strip_prefix target_covered
match_parts (urn ∷ nps ∷ kind ∷ authority ∷ segment ∷ []) target =
    let covered : Bool = elim (strip_prefix (codes "nwp://") target) [
      | none ↦ false
      | some rest ↦ target_covered authority (slashes segment) rest
    ] in
    same_text urn (codes "urn") && same_text nps (codes "nps") && covered
match_parts _ target = false

-- nwp_target_matches_nid
unfoldable pub target_matches_nid : List ℕ → List ℕ → Bool
unfolding split match_parts
target_matches_nid nid target = match_parts (split 4 b':' nid) target

abbrev pub Absent : ℕ → List ℕ → Type 0
Absent sep [] = Unit
Absent sep (c ∷ text) = (c ≢ sep) × Absent sep text

cut-Absent : (sep : ℕ) (a : List ℕ) → Absent sep a → cut sep a ≡ (a, none)
unfolding cut
cut-Absent sep [] h = refl
cut-Absent sep (c ∷ a) h = ground (arith, cut-Absent sep a)

-- `path` is `prefix`, or continues it behind a slash
abbrev pub Continues : List ℕ → List ℕ → Type 0
Continues prefix path = (path ≡ prefix) ⊎ ((rest : List ℕ) × (path ≡ prefix ++ b'/' ∷ rest))

continued : List ℕ → Bool
continued [] = true
continued (c ∷ rest) = c == b'/'

-- `urn:nps:{kind}:{authority}:{segment}`
abbrev pub nid_text : List ℕ → List ℕ → List ℕ → List ℕ
nid_text kind authority segment =
    codes "urn" ++ b':' ∷ (codes "nps" ++ b':' ∷ (kind ++ b':' ∷ (authority ++ b':' ∷ segment)))

-- `nwp://{host}/{path}`
abbrev pub target_text : List ℕ → List ℕ → List ℕ
target_text host path = codes "nwp://" ++ (host ++ b'/' ∷ path)
