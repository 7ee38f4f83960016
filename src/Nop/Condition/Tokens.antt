-- ===== src/Nop/Condition/Tokens.antt =====
-- nps_sdk/nop/condition.py: `_Tok`, `_Token` and `_tokenize`. What Python calls a letter or a digit is
-- the parameter `chars`.
use Prim.Native.Char.{Char, code}
use nps_sdk_python.Prelude.{
  ℕ, zero, suc, ◌≡◌, String, Bool, true, false, not, ◌&&◌, ◌||◌, Option, none, some, List, [], ◌∷◌,
  ◌==◌, eqb, string_eq, Result, ok, err, ◌>>=◌, is_space, if◌then◌else◌,
}

-- NopConditionError, by what raises it; `failure` is any other exception, which `evaluate` wraps
pub data ConditionError : Type 0 where
  unknown_token unexpected_character expected_paren expected_value failure : ConditionError
  out_of_fuel : ConditionError  -- the bound of the model on the recursion

-- _COMPARISON_OPS
pub data Comparison : Type 0 where
  gt gte lt lte eq neq : Comparison

pub data Token : Type 0 where
  dollar_path number text : String → Token
  t_true t_false t_null t_and t_or t_not left_paren right_paren eof : Token
  comparison_op : Comparison → Token

-- str.isalnum, str.isdigit and str.isalpha of one character
pub record CharClass : Type 0 where
  pub is_alnum : ℕ → Bool
  pub is_digit : ℕ → Bool
  pub is_alpha : ℕ → Bool
  pub alpha-alnum : (c : ℕ) → is_alpha c ≡ true → is_alnum c ≡ true

-- the longest start of characters that pass the test, and the rest
abbrev pub span : (ℕ → Bool) → String → String × String
span p String.[] = (String.[], String.[])
span p (String.◌∷◌ c s) =
    let rest = span p s in
    if p (code c) then (String.◌∷◌ c rest.0, rest.1) else (String.[], String.◌∷◌ c s)

abbrev pub head_is : (ℕ → Bool) → String → Bool
head_is p String.[] = false
head_is p (String.◌∷◌ c s) = p (code c)

abbrev pub rest_of : String → String
rest_of String.[] = String.[]
rest_of (String.◌∷◌ c s) = s

-- two_map, on the first character and a test of the second
abbrev pub two_op : ℕ → (ℕ → Bool) → Option Token
two_op c next =
    if (c == b'>') && next b'='
    then some (comparison_op gte)
    else if (c == b'<') && next b'='
    then some (comparison_op lte)
    else if (c == b'=') && next b'='
    then some (comparison_op eq)
    else if (c == b'!') && next b'='
    then some (comparison_op neq)
    else if (c == b'&') && next b'&'
    then some t_and
    else if (c == b'|') && next b'|'
    then some t_or
    else none

-- one_map
abbrev pub one_op : ℕ → Option Token
one_op c =
    if c == b'>'
    then some (comparison_op gt)
    else if c == b'<'
    then some (comparison_op lt)
    else if c == b'!'
    then some t_not
    else if c == b'('
    then some left_paren
    else if c == b')'
    then some right_paren
    else none

abbrev pub keyword : String → Result ConditionError Token
keyword kw =
    if eqb kw "true"
    then ok t_true
    else if eqb kw "false"
    then ok t_false
    else if eqb kw "null"
    then ok t_null
    else err unknown_token

-- a token, if there is one, and the text behind it
abbrev pub Lexed : Type 0
Lexed = Result ConditionError (Option Token × String)

module _ (chars : CharClass) where
  abbrev pub path_char : ℕ → Bool
  path_char c = chars.is_alnum c || (c == b'_') || (c == b'.') || (c == b'$')

  abbrev pub number_char : ℕ → Bool
  number_char c = chars.is_digit c || (c == b'.')

  -- one-character operators and keywords
  abbrev pub lex_last : Char → String → Lexed
  lex_last c s = elim (one_op (code c)) [
    | some t ↦ ok (some t, s)
    | none ↦
        if chars.is_alpha (code c)
        then (do
          t ← keyword (span chars.is_alnum (String.◌∷◌ c s)).0
          ok (some t, (span chars.is_alnum (String.◌∷◌ c s)).1))
        else err unexpected_character
  ]

  -- one round of the loop, at a character and what follows
  unfoldable pub lex_one : Char → String → Lexed
  lex_one c s =
      if is_space (code c)
      then ok (none, s)
      else if (code c == b'$') && head_is (λ d. d == b'.') s
      then ok (
        some (dollar_path (span path_char (String.◌∷◌ c s)).0),
        (span path_char (String.◌∷◌ c s)).1,
      )
      else if code c == b'"'
      then ok
          (some (text (span (λ d. not (d == b'"')) s).0), rest_of (span (λ d. not (d == b'"')) s).1)
      else if chars.is_digit (code c) || ((code c == b'-') && head_is chars.is_digit s)
      then ok (some (number (String.◌∷◌ c (span number_char s).0)), (span number_char s).1)
      else elim (two_op (code c) (λ d. head_is (λ e. e == d) s)) [
        | some t ↦ ok (some t, rest_of s)
        | none ↦ lex_last c s
      ]

  abbrev pub add_token : Option Token → List Token → List Token
  add_token none ts = ts
  add_token (some t) ts = t ∷ ts

  -- _tokenize
  unfoldable pub tokenize_from : ℕ → String → Result ConditionError (List Token)
  tokenize_from zero s = err out_of_fuel
  tokenize_from (suc fuel) String.[] = ok (eof ∷ [])
  tokenize_from (suc fuel) (String.◌∷◌ c s) = do
    (t, rest) ← lex_one c s
    ts ← tokenize_from fuel rest
    ok (add_token t ts)

abbrev pub size : String → ℕ
size String.[] = 0
size (String.◌∷◌ c s) = suc (size s)

unfoldable pub tokenize : CharClass → String → Result ConditionError (List Token)
tokenize chars s = tokenize_from chars (suc (size s)) s
