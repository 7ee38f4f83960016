-- ===== src/Prelude/Sets.antt =====
-- Membership tests and lists without repetition, over any type with an equality test.
use Prim.Native.Nat.{ℕ, suc, ◌+◌, ◌≤◌}
use mathlib.Core.Path.{◌≡◌, refl}
use mathlib.Core.Logic.{inl, inr}
use mathlib.Core.Bool.{Bool, true, false, ◌||◌}
use mathlib.Core.List.{List, [], ◌∷◌, ◌++◌}
use native.Mathlib.Omega.{arith}
use nps_sdk_python.Prelude.Tests.{Eq, eqb, eqb_refl, if◌then◌else◌, Bool-cases}
use nps_sdk_python.Prelude.Lists.{length}

module _ {ℓ} {A : Type ℓ} ⦃e : Eq A⦄ where
  -- `a in xs`
  abbrev pub mem : A → List A → Bool
  mem a [] = false
  mem a (x ∷ xs) = eqb x a || mem a xs

  abbrev pub Nodup : List A → Type 0
  Nodup [] = Unit
  Nodup (x ∷ xs) = (mem x xs ≡ false) × Nodup xs

  abbrev pub count : A → List A → ℕ
  count a [] = 0
  count a (x ∷ xs) = (if eqb x a then 1 else 0) + count a xs

  -- `xs` without the first `a`
  abbrev erase : A → List A → List A
  erase a [] = []
  erase a (x ∷ xs) = if eqb x a then xs else x ∷ erase a xs

  pub mem-append : (a : A) (xs ys : List A) → mem a (xs ++ ys) ≡ (mem a xs || mem a ys)
  mem-append a [] ys = refl
  mem-append a (x ∷ xs) ys = ground (arith, mem-append a xs ys)

  pub Nodup-snoc : (xs : List A) (a : A) → Nodup xs → mem a xs ≡ false → Nodup (xs ++ a ∷ [])
  Nodup-snoc [] a h m = ground arith
  Nodup-snoc (x ∷ xs) a h m =
      ground (arith, mem-append x xs (a ∷ []), e.beq_iff x a, e.beq_iff a x, Nodup-snoc xs a)

  mem-erase_ne : (a b : A) (xs : List A) → eqb a b ≡ false → mem b (erase a xs) ≡ mem b xs
  mem-erase_ne a b [] h = refl
  mem-erase_ne a b (x ∷ xs) h =
      ground (arith, mem-erase_ne a b xs, e.beq_iff x a, e.beq_iff x b, e.beq_iff a b)

  length-erase : (a : A) (xs : List A) → mem a xs ≡ true → suc (length (erase a xs)) ≡ length xs
  length-erase a [] h = ground arith
  length-erase a (x ∷ xs) h = ground (arith, length-erase a xs)

  -- Pigeonhole: a list without repetition is no longer than one that holds all its elements.
  pub length-le_of_Nodup :
      (xs ys : List A)
      → Nodup xs
      → ((a : A) → mem a xs ≡ true → mem a ys ≡ true)
      → length xs ≤ length ys
  length-le_of_Nodup [] ys n h = omega arith
  length-le_of_Nodup (x ∷ xs) ys n h =
      let rest : length xs ≤ length (erase x ys) =
        length-le_of_Nodup xs (erase x ys) n.1
          (λ a m. ground (arith, h a, mem-erase_ne x a ys, e.beq_iff x a, n.0)) in
      omega (arith, rest, length-erase x ys (h x (rw (eqb_refl x) refl)))

  -- A list without repetition that is as long as one that holds all its elements has them all.
  pub mem_of_full :
      (xs ys : List A)
      → Nodup xs
      → ((a : A) → mem a xs ≡ true → mem a ys ≡ true)
      → length ys ≤ length xs
      → (a : A) → mem a ys ≡ true
      → mem a xs ≡ true
  mem_of_full xs ys n h full a m = elim (Bool-cases (mem a xs)) [
    | inl there ↦ there
    | inr absent ↦ absurd (
        omega (
          arith,
          length-le_of_Nodup (a ∷ xs) ys (absent, n) (λ b p. ground (arith, h b, e.beq_iff a b)),
        ))
  ]

  pub mem-middle : (xs : List A) (a : A) (ys : List A) → mem a (xs ++ a ∷ ys) ≡ true
  mem-middle [] a ys = rw (eqb_refl a) refl
  mem-middle (x ∷ xs) a ys = ground (arith, mem-middle xs a ys)

  pub Nodup-middle : (xs : List A) (a : A) (ys : List A) → Nodup (xs ++ a ∷ ys) → mem a xs ≡ false
  Nodup-middle [] a ys n = refl
  Nodup-middle (x ∷ xs) a ys n =
      ground (
        arith,
        Nodup-middle xs a ys n.1,
        n.0,
        mem-append x xs (a ∷ ys),
        e.beq_iff x a,
        e.beq_iff a x,
      )
