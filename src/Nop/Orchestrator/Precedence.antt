-- ===== src/Nop/Orchestrator/Precedence.antt =====
-- The order of the entries of a list of ids, in its reverse and in its sublists.
use nps_sdk_python.Prelude.{
  ◌≡◌, refl, ap, String, Bool, true, false, ◌&&◌, ◌||◌, List, [], ◌∷◌, ◌++◌, map, arith, mem,
  mem-append, mem-middle, Nodup, Nodup-snoc, eqb, eqb→eq, string_eq, inl, inr, Bool-cases, select,
}
use nps_sdk_python.Nop.Orchestrator.Saga.{reverse}

-- `x` occurs, and `y` behind it.
abbrev pub precedes : String → String → List String → Bool
precedes x y [] = false
precedes x y (z ∷ zs) = (eqb z x && mem y zs) || precedes x y zs

-- A list with some entries left out.
pub data Sublist {A : Type 0} : List A → List A → Type 0 where
  stop : Sublist [] []
  keep : {x : A} {xs ys : List A} → Sublist xs ys → Sublist (x ∷ xs) (x ∷ ys)
  skip : {y : A} {xs ys : List A} → Sublist xs ys → Sublist xs (y ∷ ys)

pub Sublist-trans : {A : Type 0} {xs ys zs : List A} → Sublist xs ys → Sublist ys zs → Sublist xs zs
Sublist-trans s stop = s
Sublist-trans s (skip t) = skip (Sublist-trans s t)
Sublist-trans (keep s) (keep t) = keep (Sublist-trans s t)
Sublist-trans (skip s) (keep t) = skip (Sublist-trans s t)

pub select-Sublist : {A : Type 0} (p : A → Bool) (xs : List A) → Sublist (select p xs) xs
select-Sublist p [] = stop
select-Sublist p (x ∷ xs) = elim (Bool-cases (p x)) [
  | inl t ↦ rw t (keep (select-Sublist p xs))
  | inr f ↦ rw f (skip (select-Sublist p xs))
]

pub Sublist-map :
    {A B : Type 0} (f : A → B) {xs ys : List A} → Sublist xs ys → Sublist (map f xs) (map f ys)
Sublist-map f stop = stop
Sublist-map f (keep s) = keep (Sublist-map f s)
Sublist-map f (skip s) = skip (Sublist-map f s)

pub mem-Sublist :
    {xs ys : List String} (k : String) → Sublist xs ys → mem k xs ≡ true → mem k ys ≡ true
mem-Sublist k stop m = m
mem-Sublist k (keep s) m = ground (arith, m, mem-Sublist k s)
mem-Sublist k (skip s) m = ground (arith, mem-Sublist k s m)

precedes-mem :
    (x y : String) (xs : List String)
    → precedes x y xs ≡ true
    → (mem x xs ≡ true) × (mem y xs ≡ true)
precedes-mem x y [] h = cc
precedes-mem x y (z ∷ zs) h = ground (arith, h, precedes-mem x y zs)

-- A sublist keeps the order of what it keeps.
pub precedes-Sublist :
    {xs ys : List String} (x y : String)
    → Sublist xs ys
    → Nodup ys
    → mem x xs ≡ true
    → mem y xs ≡ true
    → precedes x y ys ≡ true
    → precedes x y xs ≡ true
precedes-Sublist x y stop n mx my p = p
precedes-Sublist x y (keep {x = z} {ys = ys} s) n mx my p =
    ground (
      arith,
      mx,
      my,
      p,
      n.0,
      precedes-Sublist x y s n.1,
      precedes-mem x y ys,
      eqb→eq z x,
      eqb→eq z y,
    )
precedes-Sublist x y (skip {y = z} {ys = ys} s) n mx my p =
    ground (arith, p, n.0, precedes-Sublist x y s n.1 mx my, mem-Sublist x s mx, eqb→eq z x)

pub mem-reverse : (k : String) (xs : List String) → mem k (reverse xs) ≡ mem k xs
mem-reverse k [] = refl
mem-reverse k (x ∷ xs) = ground (arith, mem-append k (reverse xs) (x ∷ []), mem-reverse k xs)

pub Nodup-reverse : (xs : List String) → Nodup xs → Nodup (reverse xs)
Nodup-reverse [] n = tt
Nodup-reverse (x ∷ xs) n =
    Nodup-snoc (reverse xs) x (Nodup-reverse xs n.1) (rw (mem-reverse x xs) n.0)

precedes-snoc :
    (x y z : String) (xs : List String)
    → precedes x y (xs ++ z ∷ []) ≡ (precedes x y xs || (mem x xs && eqb z y))
precedes-snoc x y z [] = ground arith
precedes-snoc x y z (w ∷ xs) = ground (arith, precedes-snoc x y z xs, mem-append y xs (z ∷ []))

pub precedes-reverse :
    (x y : String) (xs : List String) → precedes x y xs ≡ true → precedes y x (reverse xs) ≡ true
precedes-reverse x y [] h = h
precedes-reverse x y (z ∷ xs) h =
    ground (arith, h, precedes-snoc y x z (reverse xs), precedes-reverse x y xs, mem-reverse y xs)

pub split_at :
    (k : String) (xs : List String)
    → mem k xs ≡ true
    → (before after : List String) × (xs ≡ before ++ k ∷ after)
split_at k [] m = cc
split_at k (x ∷ xs) m = elim (Bool-cases (eqb x k)) [
  | inl same ↦ ([], xs, ap (λ j. j ∷ xs) (eqb→eq x k same))
  | inr other ↦
      let (before, after, e) = split_at k xs (ground (arith, m, other)) in
      (x ∷ before, after, ap (λ r. x ∷ r) e)
]

pub precedes_middle :
    (x y : String) (before after : List String)
    → mem x before ≡ true
    → precedes x y (before ++ y ∷ after) ≡ true
precedes_middle x y [] after m = cc
precedes_middle x y (z ∷ before) after m =
    ground (arith, m, precedes_middle x y before after, mem-middle before y after)
