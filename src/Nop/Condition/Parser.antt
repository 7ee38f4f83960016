-- ===== src/Nop/Condition/Parser.antt =====
-- nps_sdk/nop/condition.py: `_Parser`, which evaluates while it parses, and `evaluate`.
use Prim.Native.Char.{code}
use nps_sdk_python.Prelude.{
  ℕ, zero, suc, ◌+◌, ◌*◌, String, Bool, true, false, not, ◌&&◌, ◌||◌, List, [], ◌∷◌, length, Result,
  ok, err, ◌>>=◌, is_blank, is_space, if◌then◌else◌,
}
use nps_sdk_python.Prelude.Dict.{Dict}
use nps_sdk_python.Nop.Json.{Json, View}
use nps_sdk_python.Nop.Condition.Tokens.{
  ConditionError, expected_paren, failure, out_of_fuel, Token, t_true, t_false, t_and, t_or, t_not,
  left_paren, right_paren, comparison_op, CharClass, tokenize,
}
use nps_sdk_python.Nop.Condition.Values.{Floats, as_truthy, compare_values, value_of}

-- The methods of the parser, and the two loops; a loop carries `left`.
pub data Rule : Type 0 where
  or_expr and_expr not_expr comparison : Rule
  or_more and_more : Bool → Rule

-- what a method returns, and the tokens from _pos on
abbrev pub Parsed : Type 0
Parsed = Result ConditionError (Bool × List Token)

-- enough for every method at every position
abbrev pub fuel_for : List Token → ℕ
fuel_for ts = 6 * length ts + 5

module _ {ℓ} {N V : Type ℓ} (json : Json N V) (floats : Floats N V) (context : Dict String V) where
  -- _parse_value; behind the last token is an IndexError
  unfoldable pub parse_value : List Token → Result ConditionError (View N V × List Token)
  parse_value [] = err failure
  parse_value (t ∷ ts) = value_of json floats context t >>= λ v. ok (v, ts)

  -- what follows the first value of a comparison
  unfoldable pub compare_rest : View N V → List Token → Parsed
  compare_rest lhs [] = err failure
  compare_rest lhs (comparison_op op ∷ ts) = do
    (rhs, ts) ← parse_value ts
    ok (compare_values json floats lhs op rhs, ts)
  compare_rest lhs (t ∷ ts) = ok (as_truthy json floats lhs, t ∷ ts)

  -- the closing parenthesis
  unfoldable pub close_paren : Bool → List Token → Parsed
  close_paren inner [] = err failure
  close_paren inner (right_paren ∷ ts) = ok (inner, ts)
  close_paren inner (t ∷ ts) = err expected_paren

  -- parse_or_expr, _parse_and_expr, _parse_not_expr, _parse_comparison
  unfoldable pub parse : ℕ → Rule → List Token → Parsed
  parse zero rule ts = err out_of_fuel
  parse (suc fuel) or_expr ts = do (left, ts) ← parse fuel and_expr ts; parse fuel (or_more left) ts
  parse (suc fuel) (or_more left) [] = err failure
  parse (suc fuel) (or_more left) (t_or ∷ ts) = do
    (right, ts) ← parse fuel and_expr ts
    parse fuel (or_more (left || right)) ts
  parse (suc fuel) (or_more left) (t ∷ ts) = ok (left, t ∷ ts)
  parse (suc fuel) and_expr ts = do
    (left, ts) ← parse fuel not_expr ts
    parse fuel (and_more left) ts
  parse (suc fuel) (and_more left) [] = err failure
  parse (suc fuel) (and_more left) (t_and ∷ ts) = do
    (right, ts) ← parse fuel not_expr ts
    parse fuel (and_more (left && right)) ts
  parse (suc fuel) (and_more left) (t ∷ ts) = ok (left, t ∷ ts)
  parse (suc fuel) not_expr (t_not ∷ ts) = do (b, ts) ← parse fuel not_expr ts; ok (not b, ts)
  parse (suc fuel) not_expr ts = parse fuel comparison ts
  parse (suc fuel) comparison [] = err failure
  parse (suc fuel) comparison (left_paren ∷ ts) = do
    (inner, ts) ← parse fuel or_expr ts
    close_paren inner ts
  parse (suc fuel) comparison (t_true ∷ ts) = ok (true, ts)
  parse (suc fuel) comparison (t_false ∷ ts) = ok (false, ts)
  parse (suc fuel) comparison (t ∷ ts) = do (lhs, ts) ← parse_value (t ∷ ts); compare_rest lhs ts

  -- parse_or_expr on the tokens; what is left of them is not looked at
  unfoldable pub run_parser : List Token → Result ConditionError Bool
  run_parser ts = do (b, rest) ← parse (fuel_for ts) or_expr ts; ok b

-- str.strip
abbrev pub left_strip : String → String
left_strip String.[] = String.[]
left_strip (String.◌∷◌ c s) =
    let rest = left_strip s in if is_space (code c) then rest else String.◌∷◌ c s

abbrev pub right_strip : String → String
right_strip String.[] = String.[]
right_strip (String.◌∷◌ c s) =
    let rest = right_strip s in if is_blank (String.◌∷◌ c s) then String.[] else String.◌∷◌ c rest

-- evaluate
unfoldable pub evaluate {ℓ} :
    {N V : Type ℓ}
    → Json N V
    → Floats N V
    → CharClass
    → String
    → Dict String V
    → Result ConditionError Bool
evaluate json floats chars condition context = if is_blank condition then ok true else do
  ts ← tokenize chars (right_strip (left_strip condition))
  run_parser json floats context ts
