-- ===== src/Nop/Condition/Following.antt =====
-- nps_sdk/nop/condition.py: what may follow a tree of the grammar, and results chained behind it.
use nps_sdk_python.Prelude.{
  ℕ, ◌+◌, ◌≤◌, ◌≡◌, refl, Bool, true, List, [], ◌∷◌, length, Result, ok, err, ◌>>=◌, arith,
}
use nps_sdk_python.Nop.Condition.Tokens.{ConditionError, Token, right_paren}
use nps_sdk_python.Nop.Condition.Parser.{Parsed}
use nps_sdk_python.Nop.Condition.Grammar.{
  Kind, k_or_tail, k_and, k_and_tail, k_not, k_atom, Syntax, or_of, or_end, or_then, and_of,
  and_end, and_then, negated, plain, group, constant, truth_of, compared, print, stops,
}

-- The least number of tokens of a tree.
abbrev pub consumes : Kind → ℕ
consumes k_or_tail = 0
consumes k_and_tail = 0
consumes _ = 1

pub length-print :
    {k : Kind} (t : Syntax k) (rest : List Token) → consumes k + length rest ≤ length (print t rest)
unfolding print
length-print (or_of a t) rest = omega (arith, length-print a (print t rest), length-print t rest)
length-print or_end rest = omega arith
length-print (or_then a t) rest = omega (arith, length-print a (print t rest), length-print t rest)
length-print (and_of a t) rest = omega (arith, length-print a (print t rest), length-print t rest)
length-print and_end rest = omega arith
length-print (and_then a t) rest = omega (arith, length-print a (print t rest), length-print t rest)
length-print (negated a) rest = omega (arith, length-print a rest)
length-print (plain a) rest = length-print a rest
length-print (group a) rest = omega (arith, length-print a (right_paren ∷ rest))
length-print (constant b) rest = omega arith
length-print (truth_of l) rest = omega arith
length-print (compared l op r) rest = omega arith

stops_and : (rest : List Token) → stops k_or_tail rest ≡ true → stops k_and rest ≡ true
stops_and [] h = cc
stops_and (t ∷ rest) h = ground (arith, h)

stops_not : (rest : List Token) → stops k_and_tail rest ≡ true → stops k_not rest ≡ true
stops_not [] h = cc
stops_not (t ∷ rest) h = ground (arith, h)

pub bind-ok : (m : Result ConditionError Bool) → (m >>= λ b. ok b) ≡ m
bind-ok (ok b) = refl
bind-ok (err e) = refl

-- A parse that gives `m`, and what is done behind it.
pub chain :
    (r : Parsed) (m : Result ConditionError Bool) (rest end : List Token)
    (k : Bool × List Token → Parsed) (h : Bool → Result ConditionError Bool)
    → r ≡ (m >>= λ b. ok (b, rest))
    → ((b : Bool) → k (b, rest) ≡ (h b >>= λ c. ok (c, end)))
    → (r >>= k) ≡ ((m >>= h) >>= λ c. ok (c, end))
chain r (ok b) rest end k h e f = rw e (f b)
chain r (err x) rest end k h e f = rw e refl

pub stops_tail : (rest : List Token) → stops k_and rest ≡ true → stops k_and_tail rest ≡ true
stops_tail [] h = cc
stops_tail (t ∷ rest) h = ground (arith, h)

pub stops_atom : (rest : List Token) → stops k_not rest ≡ true → stops k_atom rest ≡ true
stops_atom [] h = cc
stops_atom (t ∷ rest) h = ground (arith, h)

abbrev pub with_rest {ℓ} : {A : Type ℓ} → List Token → A → Result ConditionError (A × List Token)
with_rest rest a = ok (a, rest)

pub drop_rest :
    (m : Result ConditionError Bool) (rest : List Token)
    → ((m >>= with_rest rest) >>= λ p. ok p.0) ≡ m
drop_rest (ok b) rest = refl
drop_rest (err e) rest = refl

pub bind_pair {ℓ} :
    {A : Type ℓ} (m : Result ConditionError A) (rest : List Token) (k : A → List Token → Parsed)
    → ((m >>= with_rest rest) >>= λ p. k p.0 p.1) ≡ (m >>= λ v. k v rest)
bind_pair (ok v) rest k = refl
bind_pair (err e) rest k = refl

pub compared_lem {ℓ} :
    {A : Type ℓ} (lhs rhs : Result ConditionError A) (rest : List Token) (test : A → A → Bool)
    → (lhs >>= λ v. (rhs >>= with_rest rest) >>= λ p. with_rest p.1 (test v p.0))
      ≡ ((lhs >>= λ v. rhs >>= λ w. ok (test v w)) >>= with_rest rest)
compared_lem (ok v) (ok w) rest test = refl
compared_lem (ok v) (err e) rest test = refl
compared_lem (err e) rhs rest test = refl

pub truth_of_lem {ℓ} :
    {A : Type ℓ} (m : Result ConditionError A) (rest : List Token) (k : A → List Token → Parsed)
    (test : A → Bool)
    → ((v : A) → k v rest ≡ ok (test v, rest))
    → (m >>= λ v. k v rest) ≡ ((m >>= λ v. ok (test v)) >>= with_rest rest)
truth_of_lem (ok v) rest k test h = h v
truth_of_lem (err e) rest k test h = refl

pub stops-or_tail :
    (t : Syntax k_or_tail) (rest : List Token)
    → stops k_or_tail rest ≡ true
    → stops k_and (print t rest) ≡ true
unfolding print
stops-or_tail or_end rest h = stops_and rest h
stops-or_tail (or_then a t) rest h = refl

pub stops-and_tail :
    (t : Syntax k_and_tail) (rest : List Token)
    → stops k_and_tail rest ≡ true
    → stops k_not (print t rest) ≡ true
unfolding print
stops-and_tail and_end rest h = stops_not rest h
stops-and_tail (and_then a t) rest h = refl
