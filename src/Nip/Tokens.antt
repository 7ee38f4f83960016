-- ===== src/Nip/Tokens.antt =====
-- nps_sdk/nip/ca/ra.py, InMemoryBootstrapTokenStore: single-use enrollment tokens. `now` is the
-- reading of `_utcnow`, `clock` its readings in one call; the random raw token and id of `create` are its arguments; SHA-256 is the
-- parameter `sha256`. A lock makes each call one step.
mod Examples
use nps_sdk_python.Prelude.{
  suc, ℕ, ◌+◌, ◌≤◌, ◌≡◌, ◌⊎◌, inl, inr, refl, String, Bool, true, false, not, ◌&&◌, ◌||◌, Option,
  none, some, List, [], ◌∷◌, ◌++◌, ltb, ◌==◌, if◌then◌else◌, eqb, eqb_refl, string_eq, arith,
}

-- _Entry
pub record Entry : Type 0 where
  pub id : String
  pub hash : String
  pub label : Option String
  pub created_at : ℕ
  pub expires_at : ℕ
  pub consumed : Bool
  pub revoked : Bool

module _ (sha256 : String → String) where
  -- create
  pub create : ℕ → String → String → Option String → ℕ → List Entry → List Entry
  create now raw token_id label expires_at tokens =
      tokens
      ++ record {
        id = token_id;
        hash = sha256 raw;
        label = label;
        created_at = now;
        expires_at = expires_at;
        consumed = false;
        revoked = false;
      }
        ∷ []

-- the three tests of the loop, each a `continue`
pub accepts : ℕ → String → Entry → Bool
accepts now h e = not (e.consumed || e.revoked) && not (ltb e.expires_at now) && eqb h e.hash

-- the loop, from the entry at `i` on; `clock i` is the time that is read at that entry
pub consume_hash : (ℕ → ℕ) → String → ℕ → List Entry → List Entry × Bool
consume_hash clock h i [] = ([], false)
consume_hash clock h i (e ∷ tokens) =
    let (rest, found) = consume_hash clock h (suc i) tokens in
    if accepts (clock i) h e
    then (record e { consumed = true } ∷ tokens, true)
    else (e ∷ rest, found)

module _ (sha256 : String → String) where
  -- validate_and_consume
  abbrev pub validate_and_consume : (ℕ → ℕ) → String → List Entry → List Entry × Bool
  validate_and_consume clock token tokens = consume_hash clock (sha256 token) 0 tokens

-- revoke
pub revoke : String → List Entry → List Entry × Bool
revoke token_id [] = ([], false)
revoke token_id (e ∷ tokens) =
    let (rest, done) = revoke token_id tokens in
    if not (eqb e.id token_id)
    then (e ∷ rest, done)
    else if e.consumed || e.revoked
    then (e ∷ tokens, false)
    else (record e { revoked = true } ∷ tokens, true)

-- The calls on a store, in the order in which its lock serves them.
pub data Call : Type 0 where
  create_call : ℕ → String → String → Option String → ℕ → Call
  consume_call : (ℕ → ℕ) → String → Call
  revoke_call : String → Call

module _ (sha256 : String → String) where
  pub run : List Call → List Entry → List Entry
  run [] tokens = tokens
  run (create_call now raw i label t ∷ calls) tokens =
      run calls (create sha256 now raw i label t tokens)
  run (consume_call clock token ∷ calls) tokens =
      run calls (validate_and_consume sha256 clock token tokens).0
  run (revoke_call i ∷ calls) tokens = run calls (revoke i tokens).0

  -- how often a token of the hash `h` is accepted in a run, and how often one is created
  pub accepted : String → List Call → List Entry → ℕ
  accepted h [] tokens = 0
  accepted h (create_call now raw i label t ∷ calls) tokens =
      accepted h calls (create sha256 now raw i label t tokens)
  accepted h (consume_call clock token ∷ calls) tokens =
      (if eqb (sha256 token) h && (validate_and_consume sha256 clock token tokens).1 then 1 else 0)
      + accepted h calls (validate_and_consume sha256 clock token tokens).0
  accepted h (revoke_call i ∷ calls) tokens = accepted h calls (revoke i tokens).0

  pub created : String → List Call → ℕ
  created h [] = 0
  created h (create_call now raw i label t ∷ calls) =
      (if eqb (sha256 raw) h then 1 else 0) + created h calls
  created h (consume_call clock token ∷ calls) = created h calls
  created h (revoke_call i ∷ calls) = created h calls

-- the tokens of a hash that are neither consumed nor revoked
pub usable : String → List Entry → ℕ
usable h [] = 0
usable h (e ∷ tokens) =
    (if not (e.consumed || e.revoked) && eqb e.hash h then 1 else 0) + usable h tokens

usable-create :
    (sha256 : String → String) (h : String) (now : ℕ) (raw i : String) (label : Option String)
    (t : ℕ) (tokens : List Entry)
    → usable h (create sha256 now raw i label t tokens)
      ≡ usable h tokens + (if eqb (sha256 raw) h then 1 else 0)
unfolding usable create
usable-create sha256 h now raw i label t [] = ground arith
usable-create sha256 h now raw i label t (e ∷ tokens) =
    ground (arith, usable-create sha256 h now raw i label t tokens)

usable-consume_hash :
    (h : String) (clock : ℕ → ℕ) (g : String) (i : ℕ) (tokens : List Entry)
    → usable h (consume_hash clock g i tokens).0
        + (if eqb g h && (consume_hash clock g i tokens).1 then 1 else 0)
      ≤ usable h tokens
unfolding usable consume_hash accepts
usable-consume_hash h clock g i [] = ground arith
usable-consume_hash h clock g i (e ∷ tokens) = ground (
  arith,
  usable-consume_hash h clock g (suc i) tokens,
  string_eq.beq_iff g h,
  string_eq.beq_iff g e.hash,
  string_eq.beq_iff e.hash h,
)

usable-revoke :
    (h i : String) (tokens : List Entry) → usable h (revoke i tokens).0 ≤ usable h tokens
unfolding usable revoke
usable-revoke h i [] = ground arith
usable-revoke h i (e ∷ tokens) = ground (arith, usable-revoke h i tokens)

-- In any sequence of calls, the tokens of a hash are accepted at most as often as such tokens were
-- usable at the start or are created: each created token is accepted once at most.
pub accepted-created :
    (sha256 : String → String) (h : String) (calls : List Call) (tokens : List Entry)
    → accepted sha256 h calls tokens + usable h (run sha256 calls tokens)
      ≤ usable h tokens + created sha256 h calls
unfolding accepted run created
accepted-created sha256 h [] tokens = omega arith
accepted-created sha256 h (create_call now raw i label t ∷ calls) tokens = omega (
  arith,
  accepted-created sha256 h calls (create sha256 now raw i label t tokens),
  usable-create sha256 h now raw i label t tokens,
)
accepted-created sha256 h (consume_call clock token ∷ calls) tokens = omega (
  arith,
  accepted-created sha256 h calls (validate_and_consume sha256 clock token tokens).0,
  usable-consume_hash h clock (sha256 token) 0 tokens,
)
accepted-created sha256 h (revoke_call i ∷ calls) tokens =
    omega (arith, accepted-created sha256 h calls (revoke i tokens).0, usable-revoke h i tokens)

-- whether the loop, from the entry at `i` on, meets an entry that it accepts
pub any_accepts : (ℕ → ℕ) → String → ℕ → List Entry → Bool
any_accepts clock h i [] = false
any_accepts clock h i (e ∷ tokens) = accepts (clock i) h e || any_accepts clock h (suc i) tokens

-- A token is accepted exactly if some entry has its hash, is neither consumed nor revoked and is not
-- past its expiry at the time that is read there; when it is not accepted, the store stays as it is.
pub consume_hash-accepts :
    (clock : ℕ → ℕ) (h : String) (i : ℕ) (tokens : List Entry)
    → ((consume_hash clock h i tokens).1 ≡ any_accepts clock h i tokens)
      × ((consume_hash clock h i tokens).1 ≡ false → (consume_hash clock h i tokens).0 ≡ tokens)
unfolding consume_hash any_accepts
consume_hash-accepts clock h i [] = (refl, λ _. refl)
consume_hash-accepts clock h i (e ∷ tokens) =
    ground (arith, consume_hash-accepts clock h (suc i) tokens)
