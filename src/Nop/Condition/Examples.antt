-- ===== src/Nop/Condition/Examples.antt =====
-- Conditions of nop/condition.py, over ASCII letters and with natural numbers for floats.
use nps_sdk_python.Prelude.{
  ℕ, ◌≡◌, ◌≢◌, refl, String, true, false, ◌||◌, none, some, [], ◌∷◌, ltb, leb, ◌==◌, eqb, string_eq,
  ok, err, is_digit, is_letter, if◌then◌else◌,
}
use nps_sdk_python.Prelude.Dict
use nps_sdk_python.Prelude.Dict.{Dict}
use nps_sdk_python.Nop.Json.{Json, View, is_string, is_object}
use nps_sdk_python.Nop.InputMapper.{resolve, resolve_parts}
use nps_sdk_python.Nop.Condition.Tokens.{
  out_of_fuel, CharClass, lex_one, tokenize_from, tokenize, t_true, eof, eq,
}
use nps_sdk_python.Nop.Condition.Values.{Floats, value_of}
use nps_sdk_python.Nop.Condition.Parser.{
  parse, parse_value, compare_rest, close_paren, run_parser, evaluate,
}
use nps_sdk_python.Nop.Condition.Grammar.{
  Syntax, k_or, or_of, or_end, or_then, and_of, and_end, negated, plain, constant, compared, a_path,
  a_text, a_literal, print, meaning,
}
use nps_sdk_python.Nop.Condition.Meaning.{run_parser-print}
use nps_sdk_python.Nop.Condition.Lexing.{evaluate_total}

kinds_differ :
    (v : String) (d : Dict String String) → ◌≢◌ {A = View ℕ String} (is_string v) (is_object d)
kinds_differ v d h = cc

abbrev texts : Json ℕ String
texts = record {
  view = is_string;
  object = λ d. "{}";
  array = λ vs. "[]";
  null = "null";
  keys_once = λ v d h. absurd (kinds_differ v d h);
}

abbrev small : Floats ℕ String
small = record {
  parse_float = λ raw. if eqb raw "1" then some 1 else none;
  to_float = λ n. some n;
  of_bool = λ b. if b then 1 else 0;
  less = ltb;
  at_most = leb;
  same = λ a b. a == b;
  is_zero = λ n. n == 0;
  deep_same = λ v w. false;
}

letter_alnum : (c : ℕ) → is_letter c ≡ true → (is_letter c || is_digit c) ≡ true
letter_alnum c h = rw h refl

abbrev ascii : CharClass
ascii = record {
  is_alnum = λ c. is_letter c || is_digit c;
  is_digit = is_digit;
  is_alpha = is_letter;
  alpha-alnum = letter_alnum;
}

abbrev context : Dict String String
context = ("a", "first") ∷ []

-- !true || $.a == "first"
abbrev tree : Syntax k_or
tree = or_of (and_of (negated (plain (constant true))) and_end) (
    or_then (and_of (plain (compared (a_path "$.a") eq (a_literal (a_text "first")))) and_end)
      or_end)

run_parser-print_example :
    run_parser texts small context (print tree (t_true ∷ eof ∷ []))
    ≡ meaning texts small context tree true
run_parser-print_example = run_parser-print texts small context tree (t_true ∷ eof ∷ []) refl

evaluate_total_example :
    evaluate texts small ascii "!true || $.a == \"first\"" context ≢ err out_of_fuel
evaluate_total_example = evaluate_total texts small ascii "!true || $.a == \"first\"" context

evaluate_test : evaluate texts small ascii "!true || $.a == \"first\"" context ≡ ok true
unfolding evaluate tokenize tokenize_from lex_one run_parser parse parse_value compare_rest
    close_paren value_of resolve resolve_parts Dict.get
evaluate_test = refl

-- What stands behind a complete condition is not looked at.
trailing_test : evaluate texts small ascii "true == false )" context ≡ ok true
unfolding evaluate tokenize tokenize_from lex_one run_parser parse parse_value compare_rest
    close_paren value_of resolve resolve_parts Dict.get
trailing_test = refl

-- A bool is equal to a number.
bool_number_test : evaluate texts small ascii "1 == true" context ≡ ok true
unfolding evaluate tokenize tokenize_from lex_one run_parser parse parse_value compare_rest
    close_paren value_of resolve resolve_parts Dict.get
bool_number_test = refl
