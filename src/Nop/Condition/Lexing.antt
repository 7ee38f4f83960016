-- ===== src/Nop/Condition/Lexing.antt =====
-- nps_sdk/nop/condition.py: each round of the tokenizer consumes characters, so it ends, and with it
-- the evaluation of a condition.
use Prim.Native.Char.{Char, code}
use nps_sdk_python.Prelude.{
  ℕ, zero, suc, ◌≤◌, ◌<◌, ◌≡◌, ◌≢◌, String, Bool, true, not, ◌&&◌, ◌||◌, Option, none, some, List,
  Result, ok, err, ◌>>=◌, arith, if_intro, is_space, is_blank, ◌==◌, eqb, string_eq,
}
use nps_sdk_python.Prelude.Dict.{Dict}
use nps_sdk_python.Nop.Json.{Json}
use nps_sdk_python.Nop.Condition.Tokens.{
  ConditionError, out_of_fuel, Token, CharClass, path_char, number_char, span, size, head_is,
  rest_of, two_op, one_op, keyword, Lexed, add_token, lex_last, lex_one, tokenize_from, tokenize,
}
use nps_sdk_python.Nop.Condition.Values.{Floats}
use nps_sdk_python.Nop.Condition.Parser.{run_parser, left_strip, right_strip, evaluate}
use nps_sdk_python.Nop.Condition.Total.{run_parser_total}

-- No more than `most` characters are left.
abbrev IsShort : ℕ → Lexed → Type 0
IsShort most (ok (t, rest)) = size rest ≤ most
IsShort most (err e) = e ≢ out_of_fuel

size-span_le : (p : ℕ → Bool) (s : String) → size (span p s).1 ≤ size s
size-span_le p String.[] = omega arith
size-span_le p (String.◌∷◌ c s) = ground (arith, size-span_le p s)

size-span_cons :
    (p : ℕ → Bool) (c : Char) (s : String)
    → p (code c) ≡ true
    → size (span p (String.◌∷◌ c s)).1 ≤ size s
size-span_cons p c s h = rw h (size-span_le p s)

size-rest_of_le : (s : String) → size (rest_of s) ≤ size s
size-rest_of_le String.[] = omega arith
size-rest_of_le (String.◌∷◌ c s) = omega arith

keyword-IsShort :
    (kw rest : String) (most : ℕ)
    → size rest ≤ most
    → IsShort most (keyword kw >>= λ t. ok (some t, rest))
keyword-IsShort kw rest most h =
    let P : Result ConditionError Token → Type 0 =
      λ r. IsShort most (r >>= λ t. ok (some t, rest)) in
    if_intro P (eqb kw "true") (λ a. h)
      (λ a.
        if_intro P (eqb kw "false") (λ b. h)
          (λ b. if_intro P (eqb kw "null") (λ c. h) (λ c. λ e. cc)))

optional_IsShort :
    (o : Option Token) (rest : String) (other : Lexed) (most : ℕ)
    → size rest ≤ most
    → IsShort most other
    → IsShort most (elim o [ none ↦ other | some t ↦ ok (some t, rest) ])
optional_IsShort none rest other most h g = g
optional_IsShort (some t) rest other most h g = h

parsed_total :
    (r : Result ConditionError (List Token)) (k : List Token → Result ConditionError Bool)
    → r ≢ err out_of_fuel
    → ((ts : List Token) → k ts ≢ err out_of_fuel)
    → (r >>= k) ≢ err out_of_fuel
parsed_total (ok ts) k h f = f ts
parsed_total (err e) k h f = λ same. ground (arith, h, same)

module _ (chars : CharClass) where
  lex_last-IsShort : (c : Char) (s : String) → IsShort (size s) (lex_last chars c s)
  lex_last-IsShort c s = optional_IsShort (one_op (code c)) s _ (size s) (omega arith) (
      if_intro (IsShort (size s)) (chars.is_alpha (code c))
        (λ alpha.
          keyword-IsShort (span chars.is_alnum (String.◌∷◌ c s)).0
            (span chars.is_alnum (String.◌∷◌ c s)).1 (size s)
            (size-span_cons chars.is_alnum c s (chars.alpha-alnum (code c) alpha)))
        (λ other e. cc))

  lex_one-IsShort : (c : Char) (s : String) → IsShort (size s) (lex_one chars c s)
  unfolding lex_one
  lex_one-IsShort c s =
      let P : Lexed → Type 0 = IsShort (size s) in
      if_intro P (is_space (code c)) (λ h. omega arith)
        (λ a.
          if_intro P ((code c == b'$') && head_is (λ d. d == b'.') s)
            (λ h. size-span_cons (path_char chars) c s (ground (arith, h)))
            (λ b.
              if_intro P (code c == b'"')
                (λ h. omega (
                  arith,
                  size-rest_of_le (span (λ d. not (d == b'"')) s).1,
                  size-span_le (λ d. not (d == b'"')) s,
                ))
                (λ d.
                  if_intro P
                    (chars.is_digit (code c) || ((code c == b'-') && head_is chars.is_digit s))
                    (λ h. size-span_le (number_char chars) s)
                    (λ e.
                      optional_IsShort (two_op (code c) (λ d. head_is (λ e. e == d) s)) (rest_of s)
                        (lex_last chars c s) (size s) (size-rest_of_le s) (lex_last-IsShort c s)))))

  added_total :
      (r : Result ConditionError (List Token)) (t : Option Token)
      → r ≢ err out_of_fuel
      → (r >>= λ ts. ok (add_token chars t ts)) ≢ err out_of_fuel
  added_total (ok ts) t h = λ e. cc
  added_total (err e) t h = λ same. ground (arith, h, same)

  lexed_total :
      (r : Lexed) (most : ℕ) (k : String → Result ConditionError (List Token))
      → IsShort most r
      → ((rest : String) → size rest ≤ most → k rest ≢ err out_of_fuel)
      → (r >>= λ p. k p.1 >>= λ ts. ok (add_token chars p.0 ts)) ≢ err out_of_fuel
  lexed_total (ok (t, rest)) most k h f = added_total (k rest) t (f rest h)
  lexed_total (err e) most k h f = λ same. ground (arith, h, same)

  tokenize_from_total :
      (fuel : ℕ) (s : String) → size s < fuel → tokenize_from chars fuel s ≢ err out_of_fuel
  unfolding tokenize_from
  tokenize_from_total zero s f = absurd (omega (arith, f))
  tokenize_from_total (suc fuel) String.[] f = λ h. cc
  tokenize_from_total (suc fuel) (String.◌∷◌ c s) f =
      lexed_total (lex_one chars c s) (size s) (tokenize_from chars fuel) (lex_one-IsShort c s)
        (λ rest h. tokenize_from_total fuel rest (omega (arith, f, h)))

-- The evaluation of a condition never runs out of the model's fuel: the code ends on every text.
pub evaluate_total {ℓ} :
    {N V : Type ℓ} (json : Json N V) (floats : Floats N V) (chars : CharClass) (condition : String)
    (context : Dict String V)
    → evaluate json floats chars condition context ≢ err out_of_fuel
unfolding evaluate tokenize
evaluate_total json floats chars condition context =
    if_intro (λ r. r ≢ err out_of_fuel) (is_blank condition) (λ h e. cc)
      (λ h.
        parsed_total
          (tokenize_from chars (suc (size (right_strip (left_strip condition))))
            (right_strip (left_strip condition)))
          (run_parser json floats context)
          (tokenize_from_total chars _ (right_strip (left_strip condition)) (omega arith))
          (run_parser_total json floats context))
