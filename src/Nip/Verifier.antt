-- ===== src/Nip/Verifier.antt =====
-- nps_sdk/nip/verifier.py: NipIdentVerifier, the six steps that accept or reject an IdentFrame at a
-- node. Parameters stand for the signature check, the X.509 chain and its phase-3 rules, the reading
-- of timestamps and `str.lower`; the injected revocation sources are functions of the options. Of a
-- result the message is left out.
mod Examples
pub mod Paths
pub mod Sources
pub mod Decisions
use nps_sdk_python.Prelude.{
  ℕ, ◌≡◌, refl, String, Bool, true, false, not, ◌&&◌, ◌||◌, Option, none, some, List, [], ◌∷◌, ◌++◌,
  Result, ok, err, ◌>>=◌, ◌>>◌, reject_if, ltb, leb, ◌==◌, if◌then◌else◌, eqb, string_eq, any, all,
  codes, arith,
}
use nps_sdk_python.Prelude.Dict
use nps_sdk_python.Prelude.Dict.{Dict}
use nps_sdk_python.Nip.Revocation.{
  Mode, Source, local_crl, callback, ca_store, ocsp, Report, good, revoked, unavailable, ErrorCode,
  cert_revoked, ocsp_unavailable, Decision, observe, complete,
}
use Paths.{PathError, path_matches}

-- NipIdentVerifyResult
pub record VerifyResult : Type 0 where
  pub valid : Bool
  step_failed : ℕ
  pub error_code : Option String

abbrev pub passed : VerifyResult
passed = record { valid = true; step_failed = 0; error_code = none }

abbrev pub fail : ℕ → String → VerifyResult
fail step code = record { valid = false; step_failed = step; error_code = some code }

-- What the verifier reads of an IdentFrame: `nodes` is the list under scope["nodes"], if the scope is
-- a mapping that has a list there, with `none` for an element that is no text.
pub record IdentFrame : Type 0 where
  pub nid : String
  pub issued_by : String
  pub expires_at : String
  pub serial : String
  pub unsigned : String  -- unsigned_dict(), serialised
  pub signature : String
  pub assurance_level : Option String
  pub cert_chain : List String  -- [] where it is None
  pub cert_format : Option String
  pub capabilities : List String
  pub nodes : Option (List (Option String))

-- NipVerifyContext, with the clock read
pub record Context : Type 0 where
  pub now : ℕ
  pub required_capabilities : List String
  pub target_node_path : Option String

-- An injected callback raises, or returns a result or None.
pub data CallbackReply : Type 0 where
  callback_raised : CallbackReply
  callback_returned : Option VerifyResult → CallbackReply

-- The store raises, or returns a record or None; of the record, whether `revoked_at` is set.
pub data StoreReply : Type 0 where
  store_raised : StoreReply
  store_returned : Option Bool → StoreReply

-- The body of a response: no JSON, JSON that is no object, or an object with its `valid` and its
-- `error_code` ("" if there is none).
pub data OcspBody : Type 0 where
  not_json : OcspBody
  not_object : OcspBody
  object : Bool → String → OcspBody

-- What the GET comes to: an httpx.HTTPError, or a response with its status.
pub data OcspReply : Type 0 where
  http_error : OcspReply
  response : ℕ → OcspBody → OcspReply

-- NipVerifierOptions
pub record Options : Type 0 where
  pub trusted_issuers : Dict String String
  pub trusted_x509_roots : List String
  pub local_revoked_serials : Option (List String)
  pub revocation_check : Option (IdentFrame → CallbackReply)
  pub revocation_store : Option (String → StoreReply)
  pub ocsp_source : Option (String → OcspReply)
  pub ocsp_fail_open : Bool
  pub revocation_mode : Mode
  pub phase3_enforcement : Bool

-- How a step ends the call early: a result is returned, or an exception escapes.
pub data Exit : Type 0 where
  returned : VerifyResult → Exit
  escaped : PathError → Exit

-- error_codes.py
abbrev code_text : ErrorCode → String
code_text cert_revoked = "NIP-CERT-REVOKED"
code_text ocsp_unavailable = "NIP-OCSP-UNAVAILABLE"

abbrev code_of : Option ErrorCode → String
code_of none = code_text ocsp_unavailable
code_of (some e) = code_text e

-- _revocation_result
abbrev pub revocation_result : Decision → VerifyResult
revocation_result d = if d.valid then passed else fail 4 (code_of d.error_code)

-- `result = evaluation.observe(...)`, and the return of what it decides
pub observed : Bool → Source → Report → List Source → Result Exit (List Source)
observed fail_open source report consulted = elim (observe fail_open source report) [
  | none ↦ ok (consulted ++ source ∷ [])
  | some d ↦ err (returned (revocation_result d))
]

-- _ocsp_check, on what the GET comes to
pub ocsp_check : Bool → OcspReply → VerifyResult
ocsp_check fail_open http_error = if fail_open then passed else fail 4 (code_text ocsp_unavailable)
ocsp_check fail_open (response status body) =
    if ltb status 200 || leb 300 status then fail 4 (code_text ocsp_unavailable) else elim body [
      | not_json ↦ if fail_open then passed else fail 4 (code_text ocsp_unavailable)
      | not_object ↦ fail 4 (code_text cert_revoked)
      | object valid code ↦
          if valid
          then passed
          else if eqb code ""
          then fail 4 (code_text cert_revoked)
          else fail 4 code
    ]

-- the four sources of _check_revocation, in their order
pub local_stage : Options → IdentFrame → List Source → Result Exit (List Source)
local_stage o frame consulted = elim o.local_revoked_serials [
  | none ↦ ok consulted
  | some serials ↦
      observed o.ocsp_fail_open local_crl (if any (eqb frame.serial) serials then revoked else good)
        consulted
]

pub callback_after : Bool → CallbackReply → List Source → Result Exit (List Source)
callback_after fail_open callback_raised consulted =
    observed fail_open callback unavailable consulted
callback_after fail_open (callback_returned none) consulted =
    observed fail_open callback good consulted
callback_after fail_open (callback_returned (some r)) consulted =
    if not r.valid then err (returned r) else observed fail_open callback good consulted

pub callback_stage : Options → IdentFrame → List Source → Result Exit (List Source)
callback_stage o frame consulted = elim o.revocation_check [
  | none ↦ ok consulted
  | some check ↦ callback_after o.ocsp_fail_open (check frame) consulted
]

pub store_after : Bool → StoreReply → List Source → Result Exit (List Source)
store_after fail_open store_raised consulted = observed fail_open ca_store unavailable consulted
store_after fail_open (store_returned none) consulted = observed fail_open ca_store good consulted
store_after fail_open (store_returned (some is_revoked)) consulted =
    observed fail_open ca_store (if is_revoked then revoked else good) consulted

pub store_stage : Options → IdentFrame → List Source → Result Exit (List Source)
store_stage o frame consulted = elim o.revocation_store [
  | none ↦ ok consulted
  | some get_by_serial ↦ store_after o.ocsp_fail_open (get_by_serial frame.serial) consulted
]

pub ocsp_stage : Options → IdentFrame → List Source → Result Exit (List Source)
ocsp_stage o frame consulted = elim o.ocsp_source [
  | none ↦ ok consulted
  | some get ↦
      if not (ocsp_check o.ocsp_fail_open (get frame.nid)).valid
      then err (returned (ocsp_check o.ocsp_fail_open (get frame.nid)))
      else observed o.ocsp_fail_open ocsp good consulted
]

-- _check_revocation, and the return of a result that is not valid
pub check_revocation : Options → IdentFrame → Result Exit (Unit {0})
check_revocation o frame = do
  a ← local_stage o frame []
  b ← callback_stage o frame a
  c ← store_stage o frame b
  d ← ocsp_stage o frame c
  let r = revocation_result (complete o.revocation_mode d)
  reject_if (not r.valid) (returned r)

-- step 5
pub check_capabilities : Context → IdentFrame → Result Exit (Unit {0})
check_capabilities context frame =
    reject_if (not (all (λ c. any (eqb c) frame.capabilities) context.required_capabilities))
      (returned (fail 5 "NIP-CERT-CAPABILITY-MISSING"))

module _ (lower : List ℕ → List ℕ) where
  -- the loop of _check_scope
  pub scope_loop : List (Option String) → String → Result Exit (Unit {0})
  scope_loop [] path = err (returned (fail 6 "NIP-CERT-SCOPE-VIOLATION"))
  scope_loop (none ∷ nodes) path = scope_loop nodes path
  scope_loop (some pattern ∷ nodes) path =
      let later = scope_loop nodes path in
      elim (path_matches lower (codes pattern) (codes path)) [
        | err e ↦ err (escaped e)
        | ok found ↦ if found then ok tt else later
      ]

  -- step 6
  pub check_scope : Context → IdentFrame → Result Exit (Unit {0})
  check_scope context frame = elim context.target_node_path [
    | none ↦ ok tt
    | some path ↦ elim frame.nodes [
      | none ↦ err (returned (fail 6 "NIP-CERT-SCOPE-VIOLATION"))
      | some nodes ↦ scope_loop nodes path
    ]
  ]

-- What the other modules decide: NipIdentity.verify_signature on a public key, the frame's unsigned
-- fields and its signature; NipX509Verifier.verify on the roots, the chain, the NID and the assurance
-- level (the error code of a failure, "" if it has none, or the leaf); NipPhase3Enforcer.enforce on
-- the frame, the leaf and the time; _parse_timestamp; and `str.lower` on code points.
pub record Checks : Type 0 where
  pub verify_signature : String → String → String → Bool
  pub verify_chain :
      List String → List String → String → Option String → Result String (Option String)
  pub enforce : IdentFrame → String → ℕ → VerifyResult
  pub parse_timestamp : String → Option ℕ
  pub lower : List ℕ → List ℕ

abbrev pub finish : Result Exit (Unit {0}) → Result PathError VerifyResult
finish (ok _) = ok passed
finish (err (returned r)) = ok r
finish (err (escaped e)) = err e

abbrev pub has_roots : List String → Bool
has_roots [] = false
has_roots (r ∷ roots) = true

-- `frame.cert_format == cert_format.V2_X509`
pub is_v2_frame : IdentFrame → Bool
is_v2_frame frame = elim frame.cert_format [ none ↦ false | some f ↦ eqb f "v2-x509" ]

module _ (checks : Checks) (o : Options) where
  -- step 1
  pub check_expiry : Context → IdentFrame → Result Exit (Unit {0})
  check_expiry context frame = elim (checks.parse_timestamp frame.expires_at) [
    | none ↦ err (returned (fail 1 "NIP-CERT-EXPIRED"))
    | some t ↦ reject_if (leb t context.now) (returned (fail 1 "NIP-CERT-EXPIRED"))
  ]

  -- steps 2 and 3
  pub check_issuer : IdentFrame → Result Exit (Unit {0})
  check_issuer frame = elim (Dict.get o.trusted_issuers frame.issued_by) [
    | none ↦ err (returned (fail 2 "NIP-CERT-UNTRUSTED-ISSUER"))
    | some key ↦
        reject_if (not (checks.verify_signature key frame.unsigned frame.signature))
          (returned (fail 3 "NIP-CERT-SIGNATURE-INVALID"))
  ]

  -- phase 3, on the leaf that the chain's check returned
  pub check_phase3 : Context → IdentFrame → Option String → Result Exit (Unit {0})
  check_phase3 context frame none = err (returned (fail 3 "NIP-CERT-FORMAT-INVALID"))
  check_phase3 context frame (some leaf) =
      reject_if (not (checks.enforce frame leaf context.now).valid)
        (returned (checks.enforce frame leaf context.now))

  -- step 3b
  pub check_chain : Context → IdentFrame → Result Exit (Unit {0})
  check_chain context frame =
      if has_roots o.trusted_x509_roots && is_v2_frame frame
      then elim (checks.verify_chain o.trusted_x509_roots frame.cert_chain frame.nid
          frame.assurance_level) [
            | err code ↦
                err (returned (fail 3 (if eqb code "" then "NIP-CERT-FORMAT-INVALID" else code)))
            | ok leaf ↦ if o.phase3_enforcement then check_phase3 context frame leaf else ok tt
          ]
      else ok tt

  pub steps : Context → IdentFrame → Result Exit (Unit {0})
  steps context frame =
      check_expiry context frame
      >> (check_issuer frame
          >> (check_chain context frame
              >> (check_revocation o frame
                  >> (check_capabilities context frame >> check_scope checks.lower context frame))))

  -- NipIdentVerifier.verify
  pub verify : Context → IdentFrame → Result PathError VerifyResult
  unfolding steps
  verify context frame = finish (steps context frame)
