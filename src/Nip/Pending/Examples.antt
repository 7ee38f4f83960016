-- ===== src/Nip/Pending/Examples.antt =====
-- A registration queued, approved and asked about again (nip/ca/ra.py).
use nps_sdk_python.Prelude.{
  ◌≡◌, ◌≤◌, ◌&&◌, refl, String, none, some, [], ◌∷◌, false, eqb, string_eq, if◌then◌else◌, arith,
}
use nps_sdk_python.Prelude.Dict
use nps_sdk_python.Nip.Pending.{
  Records, Request, pending, approved, rejected, waits, pending_count, decide, decided, check,
  decide_once, check-bounded,
}

abbrev request : Request
request = record {
  entity_type = "agent";
  identifier = "a";
  pub_key = "k";
  capabilities = [];
  scope_json = "";
  metadata_json = none;
}

abbrev queue : Records
queue =
    (
      "p",
      record {
        id = "p";
        request = request;
        requested_at = 1;
        status = pending;
        reject_reason = none;
      },
    )
    ∷ []

decide_once_example :
    ((decide approved (λ old. old) "p" queue).1 ≡ Dict.holds waits (Dict.get queue "p"))
    × (Dict.get (decide approved (λ old. old) "p" queue).0 "p" ≡ (
        if eqb {A = String} "p" "p" && Dict.holds waits (Dict.get queue "p")
        then Dict.option_map (decided approved (λ old. old)) (Dict.get queue "p")
        else Dict.get queue "p"))
    × ((decide rejected (λ _. some "late") "p" (decide approved (λ old. old) "p" queue).0).1
        ≡ false)
decide_once_example =
    decide_once approved rejected (λ old. old) (λ _. some "late") "p" "p" queue refl

check-bounded_example : pending_count (check 5 100 2 "q" request queue).0 ≤ 2
unfolding Dict.count_values
check-bounded_example = check-bounded 5 100 2 "q" request queue (omega arith)
