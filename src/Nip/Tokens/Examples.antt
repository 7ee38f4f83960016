-- ===== src/Nip/Tokens/Examples.antt =====
-- A bootstrap token of nip/ca/ra.py that is created once and presented twice.
use nps_sdk_python.Prelude.{◌≤◌, ◌+◌, String, none, List, [], ◌∷◌, false}
use nps_sdk_python.Nip.Tokens.{
  Entry, Call, create_call, consume_call, accepted, run, usable, created, accepted-created,
}

abbrev as_hash : String → String
as_hash raw = raw

abbrev calls : List Call
calls =
    create_call 0 "nps-bootstrap-1" "id" none 100
    ∷ consume_call (λ i. 1) "nps-bootstrap-1"
    ∷ consume_call (λ i. 2) "nps-bootstrap-1"
    ∷ []

accepted-created_example :
    accepted as_hash "nps-bootstrap-1" calls [] + usable "nps-bootstrap-1" (run as_hash calls [])
    ≤ usable "nps-bootstrap-1" [] + created as_hash "nps-bootstrap-1" calls
accepted-created_example = accepted-created as_hash "nps-bootstrap-1" calls []

abbrev one_token : List Entry
one_token =
    record {
      id = "id";
      hash = "nps-bootstrap-1";
      label = none;
      created_at = 0;
      expires_at = 100;
      consumed = false;
      revoked = false;
    }
    ∷ []
