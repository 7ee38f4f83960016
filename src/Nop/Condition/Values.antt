-- ===== src/Nop/Condition/Values.antt =====
-- nps_sdk/nop/condition.py: the values of a condition, `_as_truthy`, `_eq` and `_compare`. Python's
-- floats, and its `==` between two lists or two dicts, are the parameter `floats`.
use Prim.Native.Char.{code}
use nps_sdk_python.Prelude.{
  String, Bool, true, false, not, Option, none, some, ltb, ◌==◌, eqb, string_eq, Result, ok, err,
  if◌then◌else◌,
}
use nps_sdk_python.Prelude.Dict.{Dict}
use nps_sdk_python.Nop.Json.{
  Json, View, is_null, is_bool, is_number, is_string, is_array, is_object,
}
use nps_sdk_python.Nop.InputMapper.{resolve, is_text}
use nps_sdk_python.Nop.Condition.Tokens.{
  ConditionError, failure, expected_value, Comparison, gt, gte, lt, lte, eq, neq, Token,
  dollar_path, number, text, t_true, t_false, t_null,
}

pub record Floats {ℓ} (N V : Type ℓ) : Type ℓ where
  pub parse_float : String → Option N  -- float(raw), none for a ValueError
  pub to_float : N → Option N  -- float(n), none for an OverflowError
  pub of_bool : Bool → N
  pub less : N → N → Bool
  pub at_most : N → N → Bool
  pub same : N → N → Bool
  pub is_zero : N → Bool
  pub deep_same : View N V → View N V → Bool

-- `a < b` of two texts, by code points
abbrev pub text_less : String → String → Bool
text_less a String.[] = false
text_less String.[] (String.◌∷◌ d b) = true
text_less (String.◌∷◌ c a) (String.◌∷◌ d b) =
    let rest = text_less a b in
    if ltb (code c) (code d) then true else if code c == code d then rest else false

module _ {ℓ} {N V : Type ℓ} (json : Json N V) (floats : Floats N V) where
  -- _as_truthy
  abbrev pub as_truthy : View N V → Bool
  as_truthy is_null = false
  as_truthy (is_bool b) = b
  as_truthy (is_number n) = not (floats.is_zero n)
  as_truthy (is_string s) = is_text s
  as_truthy (is_array vs) = true
  as_truthy (is_object d) = true

  abbrev pub same_bool : Bool → Bool → Bool
  same_bool true b = b
  same_bool false b = not b

  -- _eq, and Python's `==` behind it, for which a bool is the number 0 or 1
  abbrev pub is_equal : View N V → View N V → Bool
  is_equal is_null is_null = true
  is_equal (is_bool a) (is_bool b) = same_bool a b
  is_equal (is_bool a) (is_number n) = floats.same (floats.of_bool a) n
  is_equal (is_number n) (is_bool b) = floats.same n (floats.of_bool b)
  is_equal (is_number m) (is_number n) = floats.same m n
  is_equal (is_string a) (is_string b) = eqb a b
  is_equal (is_array vs) (is_array ws) = floats.deep_same (is_array vs) (is_array ws)
  is_equal (is_object d) (is_object e) = floats.deep_same (is_object d) (is_object e)
  is_equal _ _ = false

  -- _compare, for the four orders
  abbrev pub is_ordered : Comparison → View N V → View N V → Bool
  is_ordered gt (is_number m) (is_number n) = floats.less n m
  is_ordered gte (is_number m) (is_number n) = floats.at_most n m
  is_ordered lt (is_number m) (is_number n) = floats.less m n
  is_ordered lte (is_number m) (is_number n) = floats.at_most m n
  is_ordered gt (is_string a) (is_string b) = text_less b a
  is_ordered gte (is_string a) (is_string b) = not (text_less a b)
  is_ordered lt (is_string a) (is_string b) = text_less a b
  is_ordered lte (is_string a) (is_string b) = not (text_less b a)
  is_ordered _ _ _ = false

  -- _compare
  abbrev pub compare_values : View N V → Comparison → View N V → Bool
  compare_values lhs eq rhs = is_equal lhs rhs
  compare_values lhs neq rhs = not (is_equal lhs rhs)
  compare_values lhs op rhs = is_ordered op lhs rhs

  -- _resolve_path, on what `resolve` returns
  abbrev pub floated : View N V → Result ConditionError (View N V)
  floated (is_number n) = elim (floats.to_float n) [
    | none ↦ err failure
    | some x ↦ ok (is_number x)
  ]
  floated v = ok v

  -- _parse_value, on the token it has consumed
  unfoldable pub value_of : Dict String V → Token → Result ConditionError (View N V)
  value_of context (dollar_path raw) = elim (resolve json raw context) [
    | ok v ↦ floated (json.view v)
    | err e ↦ err failure
  ]
  value_of context (number raw) = elim (floats.parse_float raw) [
    | none ↦ err failure
    | some n ↦ ok (is_number n)
  ]
  value_of context (text s) = ok (is_string s)
  value_of context t_true = ok (is_bool true)
  value_of context t_false = ok (is_bool false)
  value_of context t_null = ok is_null
  value_of context _ = err expected_value
