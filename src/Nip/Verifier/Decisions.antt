-- ===== src/Nip/Verifier/Decisions.antt =====
-- nps_sdk/nip/verifier.py: which frames the verifier accepts.
use nps_sdk_python.Prelude.{
  ℕ, ◌≡◌, inl, inr, refl, ap, ◌∙◌, String, Bool, true, false, not, ◌&&◌, ◌||◌, Option, none, some,
  List, [], ◌∷◌, Result, ok, err, ◌>>◌, reject_if, Result-cases, Option-cases, ltb, if◌then◌else◌,
  eqb, string_eq, any, all, codes, arith,
}
use nps_sdk_python.Prelude.Dict
use nps_sdk_python.Nip.Verifier.Paths.{PathError, path_matches}
use nps_sdk_python.Nip.Verifier.{
  VerifyResult, IdentFrame, Context, Options, Exit, returned, escaped, check_capabilities,
  scope_loop, check_scope, Checks, check_expiry, check_issuer, has_roots, steps, is_v2_frame,
  check_phase3, check_chain, verify, finish,
}
use nps_sdk_python.Nip.Verifier.Sources.{
  is_ok, Honest, Honest->>=, is_ok->>=, revocation_clear, check_revocation_clear,
  check_revocation-Honest,
}

-- Some pattern covers the path, and the patterns before it do not fail.
abbrev pub covered : (List ℕ → List ℕ) → List (Option String) → String → Bool
covered lower [] path = false
covered lower (none ∷ nodes) path = covered lower nodes path
covered lower (some p ∷ nodes) path = elim (path_matches lower (codes p) (codes path)) [
  | err e ↦ false
  | ok found ↦ found || covered lower nodes path
]

scope_loop_lem :
    (lower : List ℕ → List ℕ) (nodes : List (Option String)) (path : String)
    → (is_ok (scope_loop lower nodes path) ≡ covered lower nodes path)
      × Honest (scope_loop lower nodes path)
unfolding scope_loop
scope_loop_lem lower [] path = (refl, refl)
scope_loop_lem lower (none ∷ nodes) path = scope_loop_lem lower nodes path
scope_loop_lem lower (some p ∷ nodes) path =
    elim (Result-cases (path_matches lower (codes p) (codes path))) [
      | inr (e, h) ↦ rw (scope_loop, covered, h) (refl, tt)
      | inl (true, h) ↦ rw (scope_loop, covered, h) (refl, tt)
      | inl (false, h) ↦ rw (scope_loop, covered, h) (scope_loop_lem lower nodes path)
    ]

-- the path asked for, if one is, is in the certificate's scope
pub in_scope : (List ℕ → List ℕ) → Context → IdentFrame → Bool
in_scope lower context frame = elim context.target_node_path [
  | none ↦ true
  | some path ↦ elim frame.nodes [ none ↦ false | some nodes ↦ covered lower nodes path ]
]

check_scope_lem :
    (lower : List ℕ → List ℕ) (context : Context) (frame : IdentFrame)
    → (is_ok (check_scope lower context frame) ≡ in_scope lower context frame)
      × Honest (check_scope lower context frame)
unfolding check_scope in_scope
check_scope_lem lower context frame = elim (Option-cases context.target_node_path) [
  | inl e ↦ rw (check_scope, in_scope, e) (refl, tt)
  | inr (path, e) ↦ elim (Option-cases frame.nodes) [
    | inl n ↦ rw (check_scope, in_scope, e, n) (refl, refl)
    | inr (nodes, n) ↦ rw (check_scope, in_scope, e, n) (scope_loop_lem lower nodes path)
  ]
]

-- A frame is accepted.
abbrev pub accepted : Result PathError VerifyResult → Bool
accepted (ok r) = r.valid
accepted (err e) = false

finish-accepted :
    (m : Result Exit (Unit {0})) {b : Bool} → (is_ok m ≡ b) × Honest m → accepted (finish m) ≡ b
finish-accepted (ok _) (e, h) = e
finish-accepted (err (returned r)) (e, h) = h ∙ e
finish-accepted (err (escaped x)) (e, h) = e

both :
    (m k : Result Exit (Unit {0})) {b c : Bool}
    → (is_ok m ≡ b) × Honest m
    → (is_ok k ≡ c) × Honest k
    → (is_ok (m >> k) ≡ (b && c)) × Honest (m >> k)
both m k {c = c} (e, h) (f, g) =
    (is_ok->>= m (λ _. k) c (λ _ _. f) ∙ ap (λ x. x && c) e, Honest->>= m (λ _. k) h (λ _. g))

rejected_lem :
    (b : Bool) (r : VerifyResult)
    → r.valid ≡ false
    → (is_ok (reject_if (not b) (returned r)) ≡ b) × Honest (reject_if (not b) (returned r))
rejected_lem true r e = (refl, tt)
rejected_lem false r e = (refl, e)

returned_lem :
    (r : VerifyResult)
    → (is_ok (reject_if (not r.valid) (returned r)) ≡ r.valid)
      × Honest (reject_if (not r.valid) (returned r))
returned_lem r = go r.valid refl
  where
    go :
        (b : Bool)
        → r.valid ≡ b
        → (is_ok (reject_if (not r.valid) (returned r)) ≡ r.valid)
          × Honest (reject_if (not r.valid) (returned r))
    go true e = rw e (refl, tt)
    go false e = rw e (refl, refl)

module _ (checks : Checks) (o : Options) (context : Context) (frame : IdentFrame) where
  -- the certificate is not past its expiry
  pub unexpired : Bool
  unexpired = elim (checks.parse_timestamp frame.expires_at) [
    | none ↦ false
    | some t ↦ ltb context.now t
  ]

  -- its issuer is trusted, and signed it
  pub signed : Bool
  signed = elim (Dict.get o.trusted_issuers frame.issued_by) [
    | none ↦ false
    | some key ↦ checks.verify_signature key frame.unsigned frame.signature
  ]

  abbrev leaf_passes : Option String → Bool
  leaf_passes none = false
  leaf_passes (some leaf) = (checks.enforce frame leaf context.now).valid

  abbrev chain_passes : Result String (Option String) → Bool
  chain_passes (err code) = false
  chain_passes (ok leaf) = if o.phase3_enforcement then leaf_passes leaf else true

  -- where X.509 applies, the chain is valid, and so is its leaf where phase 3 is enforced
  abbrev pub chained : Bool
  chained =
      if has_roots o.trusted_x509_roots && is_v2_frame frame
      then chain_passes (
          checks.verify_chain o.trusted_x509_roots frame.cert_chain frame.nid frame.assurance_level)
      else true

  -- it has every capability that is required
  abbrev pub capable : Bool
  capable = all (λ c. any (eqb c) frame.capabilities) context.required_capabilities

  expiry_lem :
      (is_ok (check_expiry checks o context frame) ≡ unexpired)
      × Honest (check_expiry checks o context frame)
  unfolding check_expiry unexpired
  expiry_lem = elim (Option-cases (checks.parse_timestamp frame.expires_at)) [
    | inl e ↦ rw (check_expiry, unexpired, e) (refl, refl)
    | inr (t, e) ↦ rw (check_expiry, unexpired, e) (ground arith)
  ]

  issuer_lem : (is_ok (check_issuer checks o frame) ≡ signed) × Honest (check_issuer checks o frame)
  unfolding check_issuer signed
  issuer_lem = elim (Option-cases (Dict.get o.trusted_issuers frame.issued_by)) [
    | inl e ↦ rw (check_issuer, signed, e) (refl, refl)
    | inr (key, e) ↦
        rw (check_issuer, signed, e)
          (rejected_lem (checks.verify_signature key frame.unsigned frame.signature) _ refl)
  ]

  phase3_lem :
      (leaf : Option String)
      → (is_ok (check_phase3 checks o context frame leaf) ≡ leaf_passes leaf)
        × Honest (check_phase3 checks o context frame leaf)
  unfolding check_phase3
  phase3_lem none = (refl, refl)
  phase3_lem (some leaf) = returned_lem (checks.enforce frame leaf context.now)

  chain_lem :
      (is_ok (check_chain checks o context frame) ≡ chained)
      × Honest (check_chain checks o context frame)
  unfolding check_chain
  chain_lem =
      elim (Result-cases (
        checks.verify_chain o.trusted_x509_roots frame.cert_chain frame.nid
          frame.assurance_level)) [
            | inl (leaf, e) ↦ ground (arith, e, phase3_lem leaf)
            | inr (code, e) ↦ ground (arith, e)
          ]

  capabilities_lem :
      (is_ok (check_capabilities context frame) ≡ capable)
      × Honest (check_capabilities context frame)
  unfolding check_capabilities
  capabilities_lem = rejected_lem capable _ refl

  -- The verifier accepts a frame exactly if the certificate is not past its expiry, its issuer is
  -- trusted and signed it, its X.509 chain is valid where X.509 applies, no configured source reports
  -- it revoked or fails closed, it has every capability required and its scope covers the path.
  pub verify-accepts : accepted (verify checks o context frame) ≡ (
      unexpired
      && (signed
          && (chained
              && (revocation_clear o frame && (capable && in_scope checks.lower context frame)))))
  unfolding steps verify
  verify-accepts = finish-accepted (steps checks o context frame) (
      both _ _ expiry_lem (
        both _ _ issuer_lem (
          both _ _ chain_lem (
            both _ _ (check_revocation_clear o frame, check_revocation-Honest o frame)
              (both _ _ capabilities_lem (check_scope_lem checks.lower context frame))))))
