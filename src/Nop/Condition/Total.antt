-- ===== src/Nop/Condition/Total.antt =====
-- nps_sdk/nop/condition.py: evaluation ends. Each method of the parser consumes tokens, and each
-- round of the tokenizer characters.
use nps_sdk_python.Prelude.{
  ℕ, zero, suc, ◌+◌, ◌-◌, ◌*◌, ◌≤◌, ◌≢◌, ap, String, Bool, not, ◌&&◌, ◌||◌, Option, none, some,
  List, [], ◌∷◌, length, Result, ok, err, ◌>>=◌, arith,
}
use nps_sdk_python.Prelude.Dict.{Dict}
use nps_sdk_python.Nop.Json.{Json, View, is_number}
use nps_sdk_python.Nop.InputMapper.{MappingError, resolve}
use nps_sdk_python.Nop.Condition.Tokens.{
  ConditionError, out_of_fuel, failure, Token, dollar_path, number, t_true, t_false, t_and, t_or,
  t_not, left_paren, right_paren, comparison_op,
}
use nps_sdk_python.Nop.Condition.Values.{Floats, compare_values, floated, value_of}
use nps_sdk_python.Nop.Condition.Following.{with_rest}
use nps_sdk_python.Nop.Condition.Parser.{
  Rule, Parsed, or_expr, and_expr, not_expr, comparison, or_more, and_more, parse, parse_value,
  compare_rest, close_paren, fuel_for, run_parser,
}

-- A result that is not for want of fuel, and leaves no more than `most` tokens.
abbrev IsGood {ℓ} : {A : Type ℓ} → ℕ → Result ConditionError (A × List Token) → Type 0
IsGood most (ok (a, rest)) = length rest ≤ most
IsGood most (err e) = e ≢ out_of_fuel

IsGood-bind {ℓ κ} :
    {A : Type ℓ} {B : Type κ} (most later : ℕ) (r : Result ConditionError (A × List Token))
    (k : A × List Token → Result ConditionError (B × List Token))
    → IsGood most r
    → ((a : A) (rest : List Token) → length rest ≤ most → IsGood later (k (a, rest)))
    → IsGood later (r >>= k)
IsGood-bind most later (ok (a, rest)) k h f = f a rest h
IsGood-bind most later (err e) k h f = h

abbrev rank : Rule → ℕ
rank or_expr = 5
rank and_expr = 4
rank not_expr = 3
rank comparison = 2
rank (or_more b) = 1
rank (and_more b) = 1

-- The most tokens that a rule leaves of `n`.
abbrev leaves : Rule → ℕ → ℕ
leaves (or_more b) n = n
leaves (and_more b) n = n
leaves _ n = n - 1

weaken {ℓ} :
    {A : Type ℓ} (most more : ℕ) (r : Result ConditionError (A × List Token))
    → most ≤ more
    → IsGood most r
    → IsGood more r
weaken most more (ok (a, rest)) h g = omega (arith, h, g)
weaken most more (err e) h g = g

value-IsGood {ℓ} :
    {A : Type ℓ} (r : Result ConditionError A) (ts : List Token)
    → r ≢ err out_of_fuel
    → IsGood (suc (length ts) - 1) (r >>= with_rest ts)
value-IsGood (ok v) ts h = omega arith
value-IsGood (err e) ts h = λ same. h (ap err same)

dropped_total : (r : Parsed) (most : ℕ) → IsGood most r → (r >>= λ p. ok p.0) ≢ err out_of_fuel
dropped_total (ok (b, rest)) most g h = cc
dropped_total (err e) most g h = ground (arith, h, g)

path_total {ℓ κ} :
    {V : Type ℓ} {A : Type κ} (r : Result MappingError V) (f : V → Result ConditionError A)
    → ((v : V) → f v ≢ err out_of_fuel)
    → ◌≢◌ {A = Result ConditionError A}
        (elim r [ ok v ↦ f v | err e ↦ err failure ])
        (err out_of_fuel)
path_total (ok v) f total h = total v h
path_total (err e) f total h = cc

number_total {ℓ} :
    {N V : Type ℓ} (r : Option N)
    → ◌≢◌ {A = Result ConditionError (View N V)}
        (elim r [ none ↦ err failure | some n ↦ ok (is_number n) ])
        (err out_of_fuel)
number_total none h = cc
number_total (some n) h = cc

module _ {ℓ} {N V : Type ℓ} (json : Json N V) (floats : Floats N V) (context : Dict String V) where
  floated-total : (v : View N V) → floated json floats v ≢ err out_of_fuel
  floated-total (is_number n) = number_total (floats.to_float n)
  floated-total v = λ h. cc

  value_of-total : (t : Token) → value_of json floats context t ≢ err out_of_fuel
  unfolding value_of
  value_of-total (dollar_path s) =
      path_total (resolve json s context) (λ v. floated json floats (json.view v))
        (λ v. floated-total (json.view v))
  value_of-total (number s) = number_total (floats.parse_float s)
  value_of-total t = λ h. cc

  parse_value-IsGood :
      (ts : List Token) → IsGood (length ts - 1) (parse_value json floats context ts)
  unfolding parse_value
  parse_value-IsGood [] = λ h. cc
  parse_value-IsGood (t ∷ ts) = value-IsGood (value_of json floats context t) ts (value_of-total t)

  compare_rest-IsGood :
      (lhs : View N V) (ts : List Token)
      → IsGood (length ts) (compare_rest json floats context lhs ts)
  unfolding compare_rest
  compare_rest-IsGood lhs [] = λ h. cc
  compare_rest-IsGood lhs (comparison_op op ∷ ts) =
      IsGood-bind (length ts - 1) (suc (length ts)) (parse_value json floats context ts)
        (λ p. ok (compare_values json floats lhs op p.0, p.1)) (parse_value-IsGood ts)
        (λ a rest h. omega (arith, h))
  compare_rest-IsGood lhs (t ∷ ts) = omega arith

  close_paren-IsGood :
      (b : Bool) (ts : List Token) → IsGood (length ts) (close_paren json floats context b ts)
  unfolding close_paren
  close_paren-IsGood b [] = λ h. cc
  close_paren-IsGood b (right_paren ∷ ts) = omega arith
  close_paren-IsGood b (t ∷ ts) = λ h. cc

  compared-IsGood :
      (t : Token) (ts : List Token)
      → IsGood (length ts) (
          parse_value json floats context (t ∷ ts) >>= λ p.
          compare_rest json floats context p.0 p.1)
  compared-IsGood t ts =
      IsGood-bind (length ts) (length ts) (parse_value json floats context (t ∷ ts))
        (λ p. compare_rest json floats context p.0 p.1)
        (weaken (suc (length ts) - 1) (length ts) (parse_value json floats context (t ∷ ts))
          (omega arith) (parse_value-IsGood (t ∷ ts)))
        (λ v rest h.
          weaken (length rest) (length ts) (compare_rest json floats context v rest) h
            (compare_rest-IsGood v rest))

  parse-IsGood :
      (fuel : ℕ) (rule : Rule) (ts : List Token)
      → 6 * length ts + rank rule ≤ fuel
      → IsGood (leaves rule (length ts)) (parse json floats context fuel rule ts)
  unfolding parse
  parse-IsGood zero rule ts f = absurd (ground (arith, f))
  parse-IsGood (suc fuel) or_expr ts f =
      IsGood-bind (length ts - 1) (length ts - 1) (parse json floats context fuel and_expr ts)
        (λ p. parse json floats context fuel (or_more p.0) p.1)
        (parse-IsGood fuel and_expr ts (omega (arith, f)))
        (λ b rest h.
          weaken (length rest) (length ts - 1) (parse json floats context fuel (or_more b) rest) h
            (parse-IsGood fuel (or_more b) rest (omega (arith, f, h))))
  parse-IsGood (suc fuel) (or_more left) [] f = λ h. cc
  parse-IsGood (suc fuel) (or_more left) (t_or ∷ ts) f =
      IsGood-bind (length ts - 1) (suc (length ts)) (parse json floats context fuel and_expr ts)
        (λ p. parse json floats context fuel (or_more (left || p.0)) p.1)
        (parse-IsGood fuel and_expr ts (omega (arith, f)))
        (λ b rest h.
          weaken (length rest) (suc (length ts))
            (parse json floats context fuel (or_more (left || b)) rest) (omega (arith, h))
            (parse-IsGood fuel (or_more (left || b)) rest (omega (arith, f, h))))
  parse-IsGood (suc fuel) (or_more left) (t ∷ ts) f = omega arith
  parse-IsGood (suc fuel) and_expr ts f =
      IsGood-bind (length ts - 1) (length ts - 1) (parse json floats context fuel not_expr ts)
        (λ p. parse json floats context fuel (and_more p.0) p.1)
        (parse-IsGood fuel not_expr ts (omega (arith, f)))
        (λ b rest h.
          weaken (length rest) (length ts - 1) (parse json floats context fuel (and_more b) rest) h
            (parse-IsGood fuel (and_more b) rest (omega (arith, f, h))))
  parse-IsGood (suc fuel) (and_more left) [] f = λ h. cc
  parse-IsGood (suc fuel) (and_more left) (t_and ∷ ts) f =
      IsGood-bind (length ts - 1) (suc (length ts)) (parse json floats context fuel not_expr ts)
        (λ p. parse json floats context fuel (and_more (left && p.0)) p.1)
        (parse-IsGood fuel not_expr ts (omega (arith, f)))
        (λ b rest h.
          weaken (length rest) (suc (length ts))
            (parse json floats context fuel (and_more (left && b)) rest) (omega (arith, h))
            (parse-IsGood fuel (and_more (left && b)) rest (omega (arith, f, h))))
  parse-IsGood (suc fuel) (and_more left) (t ∷ ts) f = omega arith
  parse-IsGood (suc fuel) not_expr (t_not ∷ ts) f =
      IsGood-bind (length ts - 1) (suc (length ts) - 1) (parse json floats context fuel not_expr ts)
        (λ p. ok (not p.0, p.1)) (parse-IsGood fuel not_expr ts (omega (arith, f)))
        (λ b rest h. omega (arith, h))
  parse-IsGood (suc fuel) not_expr ts f = parse-IsGood fuel comparison ts (omega (arith, f))
  parse-IsGood (suc fuel) comparison [] f = λ h. cc
  parse-IsGood (suc fuel) comparison (left_paren ∷ ts) f =
      IsGood-bind (length ts - 1) (suc (length ts) - 1) (parse json floats context fuel or_expr ts)
        (λ p. close_paren json floats context p.0 p.1)
        (parse-IsGood fuel or_expr ts (omega (arith, f)))
        (λ b rest h.
          weaken (length rest) (suc (length ts) - 1) (close_paren json floats context b rest)
            (omega (arith, h)) (close_paren-IsGood b rest))
  parse-IsGood (suc fuel) comparison (t_true ∷ ts) f = omega arith
  parse-IsGood (suc fuel) comparison (t_false ∷ ts) f = omega arith
  parse-IsGood (suc fuel) comparison (t ∷ ts) f =
      weaken (length ts) (suc (length ts) - 1)
        (parse json floats context (suc fuel) comparison (t ∷ ts)) (omega arith)
        (compared-IsGood t ts)

  pub run_parser_total : (ts : List Token) → run_parser json floats context ts ≢ err out_of_fuel
  unfolding run_parser
  run_parser_total ts =
      dropped_total (parse json floats context (fuel_for ts) or_expr ts) (length ts - 1)
        (parse-IsGood (fuel_for ts) or_expr ts (omega arith))
