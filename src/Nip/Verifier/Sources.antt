-- ===== src/Nip/Verifier/Sources.antt =====
-- nps_sdk/nip/verifier.py: what the revocation sources of the verifier come to.
use nps_sdk_python.Prelude.{
  ◌≡◌, inl, inr, refl, ap, ◌∙◌, Bool, true, false, not, ◌&&◌, ◌||◌, Option, none, some, List, [],
  ◌∷◌, ◌++◌, Result, ok, err, ◌>>=◌, reject_if, Bool-cases, Option-cases, ltb, leb, if◌then◌else◌,
  eqb, string_eq, any, arith,
}
use nps_sdk_python.Nip.Revocation.{
  Mode, if_configured, required, Source, local_crl, callback, ca_store, ocsp, Report, good, revoked,
  unavailable, Decision, observe, complete,
}
use nps_sdk_python.Nip.Verifier.{
  VerifyResult, IdentFrame, CallbackReply, callback_raised, callback_returned, StoreReply,
  store_raised, store_returned, OcspBody, not_json, not_object, object, OcspReply, http_error,
  response, Options, Exit, returned, escaped, observed, ocsp_check, local_stage, callback_after,
  store_after, callback_stage, store_stage, ocsp_stage, check_revocation, revocation_result,
}

-- what each source says, if it is configured: `none` if it is not
abbrev all_clear : Option Bool → Bool
all_clear none = true
all_clear (some b) = b

abbrev is_configured : Option Bool → Bool
is_configured none = false
is_configured (some b) = true

local_says : Options → IdentFrame → Option Bool
local_says o frame = elim o.local_revoked_serials [
  | none ↦ none
  | some serials ↦ some (not (any (eqb frame.serial) serials))
]

abbrev clears_callback : CallbackReply → Bool
clears_callback callback_raised = false
clears_callback (callback_returned none) = true
clears_callback (callback_returned (some r)) = r.valid

callback_says : Options → IdentFrame → Option Bool
callback_says o frame = elim o.revocation_check [
  | none ↦ none
  | some check ↦ some (clears_callback (check frame))
]

abbrev clears_store : StoreReply → Bool
clears_store store_raised = false
clears_store (store_returned none) = true
clears_store (store_returned (some is_revoked)) = not is_revoked

store_says : Options → IdentFrame → Option Bool
store_says o frame = elim o.revocation_store [
  | none ↦ none
  | some get ↦ some (clears_store (get frame.serial))
]

abbrev clears_body : Bool → OcspBody → Bool
clears_body fail_open not_json = fail_open
clears_body fail_open not_object = false
clears_body fail_open (object valid code) = valid

abbrev clears_ocsp : Bool → OcspReply → Bool
clears_ocsp fail_open http_error = fail_open
clears_ocsp fail_open (response status body) =
    leb 200 status && ltb status 300 && clears_body fail_open body

ocsp_says : Options → IdentFrame → Option Bool
ocsp_says o frame = elim o.ocsp_source [
  | none ↦ none
  | some get ↦ some (clears_ocsp o.ocsp_fail_open (get frame.nid))
]

abbrev needs_source : Mode → Bool
needs_source if_configured = false
needs_source required = true

abbrev pub is_ok {ℓ κ} : {E : Type ℓ} {A : Type κ} → Result E A → Bool
is_ok (ok a) = true
is_ok (err e) = false

ocsp_check-valid :
    (fail_open : Bool) (r : OcspReply) → (ocsp_check fail_open r).valid ≡ clears_ocsp fail_open r
unfolding ocsp_check
ocsp_check-valid fail_open http_error = ground arith
ocsp_check-valid fail_open (response status not_json) = ground arith
ocsp_check-valid fail_open (response status not_object) = ground arith
ocsp_check-valid fail_open (response status (object valid code)) = ground arith

abbrev is_nil {ℓ} : {A : Type ℓ} → List A → Bool
is_nil [] = true
is_nil (x ∷ xs) = false

-- A result that is returned early is not valid.
abbrev pub Honest {ℓ} : {A : Type ℓ} → Result Exit A → Type 0
Honest (ok a) = Unit
Honest (err (returned r)) = r.valid ≡ false
Honest (err (escaped e)) = Unit

pub Honest->>= {ℓ κ} :
    {A : Type ℓ} {B : Type κ} (m : Result Exit A) (k : A → Result Exit B)
    → Honest m
    → ((a : A) → Honest (k a))
    → Honest (m >>= k)
Honest->>= (ok a) k hm hk = hk a
Honest->>= (err (returned r)) k hm hk = hm
Honest->>= (err (escaped e)) k hm hk = tt

pub is_ok->>= {ℓ κ} :
    {A : Type ℓ} {B : Type κ} (m : Result Exit A) (k : A → Result Exit B) (b : Bool)
    → ((a : A) → m ≡ ok a → is_ok (k a) ≡ b)
    → is_ok (m >>= k) ≡ (is_ok m && b)
is_ok->>= (ok a) k b h = h a refl
is_ok->>= (err e) k b h = refl

-- What a stage does: it goes on exactly if its source clears the frame, with the source on the list
-- if there is one.
abbrev Stage : Option Bool → List Source → Result Exit (List Source) → Type 0
Stage says consulted m =
    (is_ok m ≡ all_clear says)
    × Honest m
    × ((ds : List Source) → m ≡ ok ds → is_nil ds ≡ (is_nil consulted && not (is_configured says)))

is_nil-snoc : (cs : List Source) (s : Source) → is_nil (cs ++ s ∷ []) ≡ false
is_nil-snoc [] s = refl
is_nil-snoc (c ∷ cs) s = refl

Stage-absent : (cs : List Source) → Stage none cs (ok cs)
Stage-absent cs = ground arith

Stage-good :
    (fail_open : Bool) (s : Source) (cs : List Source)
    → Stage (some true) cs (observed fail_open s good cs)
unfolding observed observe
Stage-good fail_open s cs = (refl, tt, λ ds h. ground (arith, is_nil-snoc cs s))

Stage-bad :
    (fail_open : Bool) (s : Source) (report : Report) (cs : List Source) (d : Decision)
    → observe fail_open s report ≡ some d
    → d.valid ≡ false
    → Stage (some false) cs (observed fail_open s report cs)
unfolding observed
Stage-bad fail_open s report cs d h bad = rw (observed, h, bad) (ground arith)

Stage-judged :
    (fail_open bad : Bool) (s : Source) (cs : List Source)
    → Stage (some (not bad)) cs (observed fail_open s (if bad then revoked else good) cs)
unfolding observe
Stage-judged fail_open true s cs = Stage-bad fail_open s revoked cs _ refl refl
Stage-judged fail_open false s cs = Stage-good fail_open s cs

local-Stage :
    (o : Options) (frame : IdentFrame) (cs : List Source)
    → Stage (local_says o frame) cs (local_stage o frame cs)
unfolding local_says local_stage
local-Stage o frame cs = elim (Option-cases o.local_revoked_serials) [
  | inl e ↦ rw (local_says, local_stage, e) (Stage-absent cs)
  | inr (serials, e) ↦
      rw (local_says, local_stage, e)
        (Stage-judged o.ocsp_fail_open (any (eqb frame.serial) serials) local_crl cs)
]

callback_reply-Stage :
    (fail_open : Bool) (reply : CallbackReply) (cs : List Source)
    → Stage (some (clears_callback reply)) cs (callback_after fail_open reply cs)
unfolding callback_after observe
callback_reply-Stage fail_open callback_raised cs =
    Stage-bad fail_open callback unavailable cs _ refl refl
callback_reply-Stage fail_open (callback_returned none) cs = Stage-good fail_open callback cs
callback_reply-Stage fail_open (callback_returned (some r)) cs = elim (Bool-cases r.valid) [
  | inl e ↦ rw (callback_after, e) (Stage-good fail_open callback cs)
  | inr e ↦ rw (callback_after, e) (refl, refl, λ ds h. cc h)
]

callback-Stage :
    (o : Options) (frame : IdentFrame) (cs : List Source)
    → Stage (callback_says o frame) cs (callback_stage o frame cs)
unfolding callback_says callback_stage
callback-Stage o frame cs = elim (Option-cases o.revocation_check) [
  | inl e ↦ rw (callback_says, callback_stage, e) (Stage-absent cs)
  | inr (check, e) ↦
      rw (callback_says, callback_stage, e) (callback_reply-Stage o.ocsp_fail_open (check frame) cs)
]

store_reply-Stage :
    (fail_open : Bool) (reply : StoreReply) (cs : List Source)
    → Stage (some (clears_store reply)) cs (store_after fail_open reply cs)
unfolding store_after observe
store_reply-Stage fail_open store_raised cs =
    Stage-bad fail_open ca_store unavailable cs _ refl refl
store_reply-Stage fail_open (store_returned none) cs = Stage-good fail_open ca_store cs
store_reply-Stage fail_open (store_returned (some bad)) cs = Stage-judged fail_open bad ca_store cs

store-Stage :
    (o : Options) (frame : IdentFrame) (cs : List Source)
    → Stage (store_says o frame) cs (store_stage o frame cs)
unfolding store_says store_stage
store-Stage o frame cs = elim (Option-cases o.revocation_store) [
  | inl e ↦ rw (store_says, store_stage, e) (Stage-absent cs)
  | inr (get, e) ↦
      rw (store_says, store_stage, e) (store_reply-Stage o.ocsp_fail_open (get frame.serial) cs)
]

ocsp_result-Stage :
    (fail_open : Bool) (r : VerifyResult) (b : Bool) (cs : List Source)
    → r.valid ≡ b
    → Stage (some b) cs (if not r.valid then err (returned r) else observed fail_open ocsp good cs)
ocsp_result-Stage fail_open r true cs e = rw e (Stage-good fail_open ocsp cs)
ocsp_result-Stage fail_open r false cs e = rw e (refl, refl, λ ds h. cc h)

ocsp-Stage :
    (o : Options) (frame : IdentFrame) (cs : List Source)
    → Stage (ocsp_says o frame) cs (ocsp_stage o frame cs)
unfolding ocsp_says ocsp_stage
ocsp-Stage o frame cs = elim (Option-cases o.ocsp_source) [
  | inl e ↦ rw (ocsp_says, ocsp_stage, e) (Stage-absent cs)
  | inr (get, e) ↦
      rw (ocsp_says, ocsp_stage, e)
        (ocsp_result-Stage o.ocsp_fail_open (ocsp_check o.ocsp_fail_open (get frame.nid))
          (clears_ocsp o.ocsp_fail_open (get frame.nid)) cs
          (ocsp_check-valid o.ocsp_fail_open (get frame.nid)))
]

Stage->>= :
    (says : Option Bool) (cs : List Source) (m : Result Exit (List Source))
    (k : List Source → Result Exit (Unit {0})) (b : Bool)
    → Stage says cs m
    → ((ds : List Source) → is_nil ds ≡ (is_nil cs && not (is_configured says)) → is_ok (k ds) ≡ b)
    → is_ok (m >>= k) ≡ (all_clear says && b)
Stage->>= says cs m k b (clear, honest, nil) h =
    is_ok->>= m k b (λ ds e. h ds (nil ds e)) ∙ ap (λ c. c && b) clear

-- some source is configured
abbrev any_configured : Options → IdentFrame → Bool
any_configured o frame =
    is_configured (local_says o frame)
    || (is_configured (callback_says o frame)
        || (is_configured (store_says o frame) || is_configured (ocsp_says o frame)))

-- Every source that is configured clears the frame, and there is one, if one is required.
pub revocation_clear : Options → IdentFrame → Bool
revocation_clear o frame =
    all_clear (local_says o frame)
    && (all_clear (callback_says o frame)
        && (all_clear (store_says o frame)
            && (all_clear (ocsp_says o frame)
                && not (needs_source o.revocation_mode && not (any_configured o frame)))))

completed : Mode → List Source → Result Exit (Unit {0})
completed mode d =
    let r = revocation_result (complete mode d) in reject_if (not r.valid) (returned r)

completed_lem :
    (mode : Mode) (d : List Source)
    → (is_ok (completed mode d) ≡ not (needs_source mode && is_nil d)) × Honest (completed mode d)
unfolding completed complete
completed_lem if_configured [] = ground arith
completed_lem if_configured (s ∷ d) = ground arith
completed_lem required [] = ground arith
completed_lem required (s ∷ d) = ground arith

module _ (o : Options) (frame : IdentFrame) where
  pub check_revocation-Honest : Honest (check_revocation o frame)
  unfolding check_revocation completed
  check_revocation-Honest = Honest->>= (local_stage o frame []) _ (local-Stage o frame []).1 (λ a.
      Honest->>= (callback_stage o frame a) _ (callback-Stage o frame a).1 (λ b.
        Honest->>= (store_stage o frame b) _ (store-Stage o frame b).1 (λ c.
          Honest->>= (ocsp_stage o frame c) _ (ocsp-Stage o frame c).1
            (λ d. (completed_lem o.revocation_mode d).1))))

  pub check_revocation_clear : is_ok (check_revocation o frame) ≡ revocation_clear o frame
  unfolding check_revocation completed revocation_clear
  check_revocation_clear =
      let last = not (needs_source o.revocation_mode && not (any_configured o frame)) in
      let fourth = all_clear (ocsp_says o frame) && last in
      let third = all_clear (store_says o frame) && fourth in
      Stage->>= (local_says o frame) [] (local_stage o frame []) _
        (all_clear (callback_says o frame) && third) (local-Stage o frame [])
        (λ a ea.
          Stage->>= (callback_says o frame) a (callback_stage o frame a) _ third
            (callback-Stage o frame a)
            (λ b eb.
              Stage->>= (store_says o frame) b (store_stage o frame b) _ fourth
                (store-Stage o frame b)
                (λ c ec.
                  Stage->>= (ocsp_says o frame) c (ocsp_stage o frame c) _ last
                    (ocsp-Stage o frame c)
                    (λ d ed.
                      (completed_lem o.revocation_mode d).0 ∙ ground (arith, ea, eb, ec, ed)))))
