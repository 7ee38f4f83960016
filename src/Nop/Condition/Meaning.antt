-- ===== src/Nop/Condition/Meaning.antt =====
-- nps_sdk/nop/condition.py: the parser gives each tree of the grammar its meaning.
use nps_sdk_python.Prelude.{
  ℕ, zero, suc, ◌+◌, ◌*◌, ◌≤◌, ◌≡◌, ◌∙◌, refl, String, Bool, true, false, not, ◌&&◌, ◌||◌, List, [],
  ◌∷◌, length, ok, ◌>>=◌, arith,
}
use nps_sdk_python.Prelude.Dict.{Dict}
use nps_sdk_python.Nop.Json.{Json, View}
use nps_sdk_python.Nop.Condition.Tokens.{
  Comparison, Token, dollar_path, number, text, t_null, right_paren, comparison_op,
}
use nps_sdk_python.Nop.Condition.Values.{Floats, as_truthy, compare_values, value_of}
use nps_sdk_python.Nop.Condition.Parser.{
  or_expr, and_expr, not_expr, comparison, or_more, and_more, parse, parse_value, compare_rest,
  close_paren, fuel_for, run_parser,
}
use nps_sdk_python.Nop.Condition.Grammar.{
  Literal, Operand, Kind, k_or, k_or_tail, k_and, k_and_tail, k_not, k_atom, Syntax, or_of, or_end,
  or_then, and_of, and_end, and_then, negated, plain, group, constant, truth_of, compared,
  literal_token, operand_token, print, stops, rule_of, rank, meaning, a_path, a_number, a_text,
  a_null,
}
use nps_sdk_python.Nop.Condition.Following.{
  length-print, bind-ok, chain, stops_tail, stops_atom, drop_rest, bind_pair, compared_lem,
  truth_of_lem, stops-or_tail, stops-and_tail,
}

module _ {ℓ} {N V : Type ℓ} (json : Json N V) (floats : Floats N V) (context : Dict String V) where
  or_more_stops :
      (fuel : ℕ) (left : Bool) (rest : List Token)
      → stops k_or_tail rest ≡ true
      → parse json floats context (suc fuel) (or_more left) rest ≡ ok (left, rest)
  unfolding parse
  or_more_stops fuel left [] h = cc
  or_more_stops fuel left (t ∷ rest) h = ground (arith, h)

  and_more_stops :
      (fuel : ℕ) (left : Bool) (rest : List Token)
      → stops k_and_tail rest ≡ true
      → parse json floats context (suc fuel) (and_more left) rest ≡ ok (left, rest)
  unfolding parse
  and_more_stops fuel left [] h = cc
  and_more_stops fuel left (t ∷ rest) h = ground (arith, h)

  compare_stops :
      (lhs : View N V) (rest : List Token)
      → stops k_atom rest ≡ true
      → compare_rest json floats context lhs rest ≡ ok (as_truthy json floats lhs, rest)
  unfolding compare_rest
  compare_stops lhs [] h = cc
  compare_stops lhs (t ∷ rest) h = ground (arith, h)

  -- the first token of an atom is not a negation
  not_expr-print :
      (fuel : ℕ) (a : Syntax k_atom) (rest : List Token)
      → parse json floats context (suc fuel) not_expr (print a rest)
        ≡ parse json floats context fuel comparison (print a rest)
  unfolding parse print
  not_expr-print fuel (group a) rest = refl
  not_expr-print fuel (constant true) rest = refl
  not_expr-print fuel (constant false) rest = refl
  not_expr-print fuel (truth_of (a_path s)) rest = refl
  not_expr-print fuel (truth_of (a_number s)) rest = refl
  not_expr-print fuel (truth_of (a_text s)) rest = refl
  not_expr-print fuel (truth_of a_null) rest = refl
  not_expr-print fuel (compared (a_path s) op r) rest = refl
  not_expr-print fuel (compared (a_number s) op r) rest = refl
  not_expr-print fuel (compared (a_text s) op r) rest = refl
  not_expr-print fuel (compared a_null op r) rest = refl

  -- a literal begins a comparison
  comparison-literal :
      (fuel : ℕ) (l : Literal) (rest : List Token)
      → parse json floats context (suc fuel) comparison (literal_token l ∷ rest) ≡ (
          value_of json floats context (literal_token l) >>= λ v.
          compare_rest json floats context v rest)
  unfolding parse parse_value
  comparison-literal fuel (a_path s) rest =
      bind_pair (value_of json floats context (dollar_path s)) rest
        (compare_rest json floats context)
  comparison-literal fuel (a_number s) rest =
      bind_pair (value_of json floats context (number s)) rest (compare_rest json floats context)
  comparison-literal fuel (a_text s) rest =
      bind_pair (value_of json floats context (text s)) rest (compare_rest json floats context)
  comparison-literal fuel a_null rest =
      bind_pair (value_of json floats context t_null) rest (compare_rest json floats context)

  atom_lem :
      (fuel : ℕ) (l : Literal) (op : Comparison) (r : Operand) (rest : List Token)
      → parse json floats context (suc fuel) comparison (print (compared l op r) rest)
        ≡ (meaning json floats context (compared l op r) true >>= λ b. ok (b, rest))
  unfolding print meaning compare_rest parse_value
  atom_lem fuel l op r rest =
      rw (comparison-literal fuel l (comparison_op op ∷ operand_token r ∷ rest)) (
        compared_lem (value_of json floats context (literal_token l))
          (value_of json floats context (operand_token r)) rest
          (λ lhs rhs. compare_values json floats lhs op rhs))

  truth_lem :
      (fuel : ℕ) (l : Literal) (rest : List Token)
      → stops k_atom rest ≡ true
      → parse json floats context (suc fuel) comparison (print (truth_of l) rest)
        ≡ (meaning json floats context (truth_of l) true >>= λ b. ok (b, rest))
  unfolding print meaning
  truth_lem fuel l rest h = rw (comparison-literal fuel l rest) (
      truth_of_lem (value_of json floats context (literal_token l)) rest
        (compare_rest json floats context) (as_truthy json floats) (λ v. compare_stops v rest h))

  pub parse-print :
      {k : Kind} (t : Syntax k) (fuel : ℕ) (left : Bool) (rest : List Token)
      → stops k rest ≡ true
      → 6 * length (print t rest) + rank k ≤ fuel
      → parse json floats context fuel (rule_of k left) (print t rest)
        ≡ (meaning json floats context t left >>= λ b. ok (b, rest))
  unfolding parse print meaning close_paren
  parse-print {k = k_or} t zero left rest s f = absurd (omega (arith, f))
  parse-print {k = k_or_tail} t zero left rest s f = absurd (omega (arith, f))
  parse-print {k = k_and} t zero left rest s f = absurd (omega (arith, f))
  parse-print {k = k_and_tail} t zero left rest s f = absurd (omega (arith, f))
  parse-print {k = k_not} t zero left rest s f = absurd (omega (arith, f))
  parse-print {k = k_atom} t zero left rest s f = absurd (omega (arith, f))
  parse-print (or_of a t) (suc fuel) left rest s f =
      chain (parse json floats context fuel and_expr (print a (print t rest)))
        (meaning json floats context a true) (print t rest) rest
        (λ p. parse json floats context fuel (or_more p.0) p.1) (meaning json floats context t)
        (parse-print a fuel true (print t rest) (stops-or_tail t rest s) (omega (arith, f)))
        (λ b. parse-print t fuel b rest s (omega (arith, f, length-print a (print t rest))))
  parse-print or_end (suc fuel) left rest s f = or_more_stops fuel left rest s
  parse-print (or_then a t) (suc fuel) left rest s f =
      chain (parse json floats context fuel and_expr (print a (print t rest)))
        (meaning json floats context a true) (print t rest) rest
        (λ p. parse json floats context fuel (or_more (left || p.0)) p.1)
        (λ b. meaning json floats context t (left || b))
        (parse-print a fuel true (print t rest) (stops-or_tail t rest s) (omega (arith, f)))
        (λ b.
          parse-print t fuel (left || b) rest s (omega (arith, f, length-print a (print t rest))))
  parse-print (and_of a t) (suc fuel) left rest s f =
      chain (parse json floats context fuel not_expr (print a (print t rest)))
        (meaning json floats context a true) (print t rest) rest
        (λ p. parse json floats context fuel (and_more p.0) p.1) (meaning json floats context t)
        (parse-print a fuel true (print t rest) (stops-and_tail t rest (stops_tail rest s))
          (omega (arith, f)))
        (λ b.
          parse-print t fuel b rest (stops_tail rest s)
            (omega (arith, f, length-print a (print t rest))))
  parse-print and_end (suc fuel) left rest s f = and_more_stops fuel left rest s
  parse-print (and_then a t) (suc fuel) left rest s f =
      chain (parse json floats context fuel not_expr (print a (print t rest)))
        (meaning json floats context a true) (print t rest) rest
        (λ p. parse json floats context fuel (and_more (left && p.0)) p.1)
        (λ b. meaning json floats context t (left && b))
        (parse-print a fuel true (print t rest) (stops-and_tail t rest s) (omega (arith, f)))
        (λ b.
          parse-print t fuel (left && b) rest s (omega (arith, f, length-print a (print t rest))))
  parse-print (negated a) (suc fuel) left rest s f =
      chain (parse json floats context fuel not_expr (print a rest))
        (meaning json floats context a true) rest rest (λ p. ok (not p.0, p.1)) (λ b. ok (not b))
        (parse-print a fuel true rest s (omega (arith, f))) (λ b. refl)
  parse-print (plain a) (suc fuel) left rest s f =
      not_expr-print fuel a rest
      ∙ parse-print a fuel true rest (stops_atom rest s) (omega (arith, f))
  parse-print (group a) (suc fuel) left rest s f =
      let inner =
        chain (parse json floats context fuel or_expr (print a (right_paren ∷ rest)))
          (meaning json floats context a true) (right_paren ∷ rest) rest
          (λ p. close_paren json floats context p.0 p.1) (λ b. ok b)
          (parse-print a fuel true (right_paren ∷ rest) refl (omega (arith, f))) (λ b. refl) in
      rw (bind-ok (meaning json floats context a true)) at inner
  parse-print (constant true) (suc fuel) left rest s f = refl
  parse-print (constant false) (suc fuel) left rest s f = refl
  parse-print (truth_of l) (suc fuel) left rest s f = truth_lem fuel l rest s
  parse-print (compared l op r) (suc fuel) left rest s f = atom_lem fuel l op r rest

  -- A tree of the grammar in which no comparison has true or false on its left evaluates to its
  -- meaning, whatever stands behind it: the parser looks at the next token only, to see that it is no
  -- operator.
  pub run_parser-print :
      (e : Syntax k_or) (rest : List Token)
      → stops k_or rest ≡ true
      → run_parser json floats context (print e rest) ≡ meaning json floats context e true
  unfolding run_parser
  run_parser-print e rest s =
      rw (parse-print e (fuel_for (print e rest)) true rest s (omega arith))
        (drop_rest (meaning json floats context e true) rest)
