-- ===== src/Nip/Verifier/Paths.antt =====
-- nps_sdk/nip/verifier.py, nwp_path_matches: the scope patterns of a certificate. Texts are lists of
-- code points; `str.lower` is the parameter `lower`, since it may change a text's length.
use nps_sdk_python.Prelude.{
  ℕ, zero, suc, ◌≡◌, refl, Bool, true, false, not, ◌&&◌, Option, none, some, List, [], ◌∷◌, ◌++◌,
  map, ◌==◌, if◌then◌else◌, Result, ok, err, length, codes, arith,
}

pub data PathError : Type 0 where
  index_error : PathError

pub same : List ℕ → List ℕ → Bool
same [] [] = true
same (a ∷ as') (b ∷ bs) = a == b && same as' bs
same _ _ = false

-- `text.startswith(prefix)`
starts_with : List ℕ → List ℕ → Bool
starts_with [] text = true
starts_with (p ∷ prefix) [] = false
starts_with (p ∷ prefix) (c ∷ text) = p == c && starts_with prefix text

-- `text[n]`
char_at : ℕ → List ℕ → Option ℕ
char_at n [] = none
char_at zero (c ∷ text) = some c
char_at (suc n) (c ∷ text) = char_at n text

-- `pattern[:-2]`, if the pattern ends in "/*"
wildcard_prefix : List ℕ → Option (List ℕ)
wildcard_prefix [] = none
wildcard_prefix (a ∷ rest) =
    let shorter : Option (List ℕ) = elim (wildcard_prefix rest) [
      | none ↦ none
      | some p ↦ some (a ∷ p)
    ] in
    if same (a ∷ rest) (codes "/*") then some [] else shorter

module _ (lower : List ℕ → List ℕ) where
  under : List ℕ → List ℕ → Result PathError Bool
  unfolding char_at starts_with
  under prefix path =
      if not (starts_with (lower prefix) (lower path))
      then ok false
      else if length path == length prefix
      then ok true
      else elim (char_at (length prefix) path) [ none ↦ err index_error | some c ↦ ok (c == b'/') ]

  -- nwp_path_matches
  pub path_matches : List ℕ → List ℕ → Result PathError Bool
  unfolding under wildcard_prefix same
  path_matches pattern path =
      if same pattern (codes "*") then ok true else elim (wildcard_prefix pattern) [
        | some prefix ↦ under prefix path
        | none ↦ ok (same (lower pattern) (lower path))
      ]

-- the path below a prefix, up to the case that `fold` forgets: the prefix, or what follows a slash
module _ (fold : ℕ → ℕ) where
  pub below : List ℕ → List ℕ → Bool
  below [] [] = true
  below [] (c ∷ path) = c == b'/'
  below (p ∷ prefix) [] = false
  below (p ∷ prefix) (c ∷ path) = fold p == fold c && below prefix path

  under-fold :
      (prefix path : List ℕ)
      → (if not (starts_with (map fold prefix) (map fold path))
          then ok false
          else if length path == length prefix
          then ok true
          else elim (char_at (length prefix) path) as (λ _. Result PathError Bool) [
            | none ↦ err index_error
            | some c ↦ ok (c == b'/')
          ])
        ≡ ok (below prefix path)
  unfolding starts_with char_at below
  under-fold [] [] = ground arith
  under-fold [] (c ∷ path) = ground arith
  under-fold (p ∷ prefix) [] = ground arith
  under-fold (p ∷ prefix) (c ∷ path) = ground (arith, under-fold prefix path)

same-nil : (prefix : List ℕ) → same (prefix ++ codes "/*") [] ≡ false
unfolding same
same-nil [] = refl
same-nil (a ∷ prefix) = refl

same-star : (prefix : List ℕ) → same (prefix ++ codes "/*") (codes "*") ≡ false
unfolding same
same-star [] = ground arith
same-star (a ∷ prefix) = ground (arith, same-nil prefix)

wildcard_prefix-append : (prefix : List ℕ) → wildcard_prefix (prefix ++ codes "/*") ≡ some prefix
unfolding wildcard_prefix same
wildcard_prefix-append [] = ground arith
wildcard_prefix-append (a ∷ []) = ground arith
wildcard_prefix-append (a ∷ b ∷ prefix) =
    ground (arith, same-nil prefix, wildcard_prefix-append (b ∷ prefix))

under-below :
    (lower : List ℕ → List ℕ) (fold : ℕ → ℕ) (prefix path : List ℕ)
    → lower prefix ≡ map fold prefix
    → lower path ≡ map fold path
    → under lower prefix path ≡ ok (below fold prefix path)
unfolding under
under-below lower fold prefix path lp lq = rw (under, lp, lq) (under-fold fold prefix path)

-- On a prefix and a path that `str.lower` lowers character by character, the pattern of the prefix
-- and "/*" matches exactly the paths below the prefix, the case aside, and no index is out of range.
pub path_matches-below :
    (lower : List ℕ → List ℕ) (fold : ℕ → ℕ) (prefix path : List ℕ)
    → lower prefix ≡ map fold prefix
    → lower path ≡ map fold path
    → path_matches lower (prefix ++ codes "/*") path ≡ ok (below fold prefix path)
unfolding path_matches
path_matches-below lower fold prefix path lp lq =
    rw (path_matches, same-star prefix, wildcard_prefix-append prefix)
      (under-below lower fold prefix path lp lq)
