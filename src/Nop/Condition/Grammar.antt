-- ===== src/Nop/Condition/Grammar.antt =====
-- nps_sdk/nop/condition.py: the grammar of the comments above the parser's methods, as syntax trees
-- with what they mean, and the proof that the parser gives each tree its meaning.
use nps_sdk_python.Prelude.{
  ℕ, String, Bool, true, false, not, ◌&&◌, ◌||◌, List, [], ◌∷◌, Result, ok, ◌>>=◌,
}
use nps_sdk_python.Prelude.Dict.{Dict}
use nps_sdk_python.Nop.Json.{Json}
use nps_sdk_python.Nop.Condition.Tokens.{
  ConditionError, Comparison, Token, dollar_path, number, text, t_true, t_false, t_null, t_and,
  t_or, t_not, left_paren, right_paren, comparison_op,
}
use nps_sdk_python.Nop.Condition.Values.{Floats, as_truthy, compare_values, value_of}
use nps_sdk_python.Nop.Condition.Parser.{
  Rule, or_expr, and_expr, not_expr, comparison, or_more, and_more,
}

-- The first value of a comparison, and any value. The comments allow true and false as the first value
-- too, but the parser takes them as a whole comparison.
pub data Literal : Type 0 where
  a_path a_number a_text : String → Literal
  a_null : Literal

pub data Operand : Type 0 where
  a_literal : Literal → Operand
  a_bool : Bool → Operand

-- or_expr := and_expr ('||' and_expr)*, and so on; a tail is the starred part.
pub data Kind : Type 0 where
  k_or k_or_tail k_and k_and_tail k_not k_atom : Kind

pub data Syntax : Kind → Type 0 where
  or_of : Syntax k_and → Syntax k_or_tail → Syntax k_or
  or_end : Syntax k_or_tail
  or_then : Syntax k_and → Syntax k_or_tail → Syntax k_or_tail
  and_of : Syntax k_not → Syntax k_and_tail → Syntax k_and
  and_end : Syntax k_and_tail
  and_then : Syntax k_not → Syntax k_and_tail → Syntax k_and_tail
  negated : Syntax k_not → Syntax k_not
  plain : Syntax k_atom → Syntax k_not
  group : Syntax k_or → Syntax k_atom
  constant : Bool → Syntax k_atom
  truth_of : Literal → Syntax k_atom
  compared : Literal → Comparison → Operand → Syntax k_atom

abbrev pub literal_token : Literal → Token
literal_token (a_path s) = dollar_path s
literal_token (a_number s) = number s
literal_token (a_text s) = text s
literal_token a_null = t_null

abbrev pub bool_token : Bool → Token
bool_token true = t_true
bool_token false = t_false

abbrev pub operand_token : Operand → Token
operand_token (a_literal l) = literal_token l
operand_token (a_bool b) = bool_token b

-- The tokens of a tree, before `rest`.
unfoldable pub print : {k : Kind} → Syntax k → List Token → List Token
print (or_of a t) rest = print a (print t rest)
print or_end rest = rest
print (or_then a t) rest = t_or ∷ print a (print t rest)
print (and_of a t) rest = print a (print t rest)
print and_end rest = rest
print (and_then a t) rest = t_and ∷ print a (print t rest)
print (negated a) rest = t_not ∷ print a rest
print (plain a) rest = print a rest
print (group a) rest = left_paren ∷ print a (right_paren ∷ rest)
print (constant b) rest = bool_token b ∷ rest
print (truth_of l) rest = literal_token l ∷ rest
print (compared l op r) rest = literal_token l ∷ comparison_op op ∷ operand_token r ∷ rest

-- What may follow a tree: not an operator that would continue it.
abbrev pub stops : Kind → List Token → Bool
stops k [] = false
stops k (comparison_op op ∷ ts) = false
stops k_and (t_and ∷ ts) = false
stops k_and_tail (t_and ∷ ts) = false
stops k_or (t_and ∷ ts) = false
stops k_or_tail (t_and ∷ ts) = false
stops k_or (t_or ∷ ts) = false
stops k_or_tail (t_or ∷ ts) = false
stops k (t ∷ ts) = true

abbrev pub rule_of : Kind → Bool → Rule
rule_of k_or left = or_expr
rule_of k_or_tail left = or_more left
rule_of k_and left = and_expr
rule_of k_and_tail left = and_more left
rule_of k_not left = not_expr
rule_of k_atom left = comparison

-- What the rule may need beyond six rounds for each token.
abbrev pub rank : Kind → ℕ
rank k_or = 5
rank k_or_tail = 1
rank k_and = 4
rank k_and_tail = 1
rank k_not = 3
rank k_atom = 2

module _ {ℓ} {N V : Type ℓ} (json : Json N V) (floats : Floats N V) (context : Dict String V) where
  -- The value of a tree; of a tail, behind the value on its left. Both sides are evaluated.
  unfoldable pub meaning : {k : Kind} → Syntax k → Bool → Result ConditionError Bool
  meaning (or_of a t) left = meaning a true >>= λ b. meaning t b
  meaning or_end left = ok left
  meaning (or_then a t) left = meaning a true >>= λ b. meaning t (left || b)
  meaning (and_of a t) left = meaning a true >>= λ b. meaning t b
  meaning and_end left = ok left
  meaning (and_then a t) left = meaning a true >>= λ b. meaning t (left && b)
  meaning (negated a) left = meaning a true >>= λ b. ok (not b)
  meaning (plain a) left = meaning a true
  meaning (group a) left = meaning a true
  meaning (constant b) left = ok b
  meaning (truth_of l) left =
      value_of json floats context (literal_token l) >>= λ v. ok (as_truthy json floats v)
  meaning (compared l op r) left = do
    lhs ← value_of json floats context (literal_token l)
    rhs ← value_of json floats context (operand_token r)
    ok (compare_values json floats lhs op rhs)
