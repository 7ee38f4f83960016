-- ===== src/Nip/Verifier/Examples.antt =====
-- A v1 frame presented to the verifier of nip/verifier.py, with a local list of revoked serials.
use nps_sdk_python.Prelude.{
  eqb, string_eq, ℕ, ◌≡◌, refl, false, ◌&&◌, none, some, ok, err, List, [], ◌∷◌, ◌++◌, map, codes,
}
use nps_sdk_python.Nip.Revocation.{required}
use nps_sdk_python.Nip.Verifier.{
  passed, IdentFrame, Context, Options, Checks, check_revocation, verify,
}
use nps_sdk_python.Nip.Verifier.Paths.{path_matches, below, path_matches-below}
use nps_sdk_python.Nip.Verifier.Sources.{revocation_clear, check_revocation_clear, is_ok}
use nps_sdk_python.Nip.Verifier.Decisions.{
  accepted, unexpired, signed, chained, capable, in_scope, verify-accepts,
}

abbrev frame : IdentFrame
frame = record {
  nid = "urn:nps:agent:h:a";
  issued_by = "urn:nps:ca:h:ca";
  expires_at = "2027";
  serial = "0x02";
  unsigned = "";
  signature = "signed";
  assurance_level = none;
  cert_chain = [];
  cert_format = none;
  capabilities = "nwp:query" ∷ [];
  nodes = some (some "nwp://h/*" ∷ []);
}

abbrev context : Context
context = record {
  now = 5;
  required_capabilities = "nwp:query" ∷ [];
  target_node_path = some "nwp://h/p";
}

abbrev options : Options
options = record {
  trusted_issuers = ("urn:nps:ca:h:ca", "key") ∷ [];
  trusted_x509_roots = [];
  local_revoked_serials = some ("0x01" ∷ []);
  revocation_check = none;
  revocation_store = none;
  ocsp_source = none;
  ocsp_fail_open = false;
  revocation_mode = required;
  phase3_enforcement = false;
}

abbrev checks : Checks
checks = record {
  verify_signature = λ key text signature. eqb signature "signed";
  verify_chain = λ roots chain nid level. err "";
  enforce = λ f leaf now. passed;
  parse_timestamp = λ text. some 9;
  lower = λ text. text;
}

verify-accepts_example : accepted (verify checks options context frame) ≡ (
    unexpired checks options context frame
    && (signed checks options context frame
        && (chained checks options context frame
            && (revocation_clear options frame
                && (capable checks options context frame
                    && in_scope (λ text. text) context frame)))))
verify-accepts_example = verify-accepts checks options context frame

check_revocation_clear_example :
    is_ok (check_revocation options frame) ≡ revocation_clear options frame
check_revocation_clear_example = check_revocation_clear options frame

abbrev prefix : List ℕ
prefix = codes "nwp://h"

path_matches-below_example :
    path_matches (map (λ c. c)) (prefix ++ codes "/*") (codes "nwp://h/p")
    ≡ ok (below (λ c. c) prefix (codes "nwp://h/p"))
path_matches-below_example =
    path_matches-below (map (λ c. c)) (λ c. c) prefix (codes "nwp://h/p") refl refl
