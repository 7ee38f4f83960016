-- ===== src/Nwp/ContextStore/Examples.antt =====
-- A context created, reserved for APPEND and committed (nwp/context_store.py).
use nps_sdk_python.Prelude.{
  ℕ, ◌+◌, ◌≡◌, ◌≤◌, refl, String, true, false, none, some, ok, [], ◌∷◌, string_eq,
}
use nps_sdk_python.Prelude.Dict
use nps_sdk_python.Nwp.ContextStore.State.{
  create, append, Owner, Request, Reservation, Entry, Receipt, Options, Store, sweep,
}
use nps_sdk_python.Nwp.ContextStore.Guards.{
  Host, plan, plan_create, plan_on, validate_request, require_mutable, effective_ttl,
  validate_target, is_context_id, allocated,
}
use nps_sdk_python.Nwp.ContextStore.Operations.{
  reserve, commit, enter, settle, lock_base, commit_entry, next_context_id, new_entry, commit_key,
}
use nps_sdk_python.Nwp.ContextStore.Invariant.{IsConsistent}
use nps_sdk_python.Nwp.ContextStore.Safety.{
  empty_store, Reachable, start, after_reserve, after_commit, Reachable-IsConsistent,
  Reachable-IsWithin, reservation_exclusive, commit_total,
}

abbrev options : Options
options = record {
  max_contexts_per_principal = 2;
  default_ttl_seconds = 60;
  max_ttl_seconds = 3600;
  tombstone_seconds = 60;
  idempotency_ttl = 1000000;
  supported_operations = λ _. true;
}

abbrev host : Host String String
host = record { is_system = λ _. false; fingerprint = λ b. b; is_blank = λ _. false }

abbrev caller : Owner
caller = record { nid = "urn:a"; security_scope = "s" }

abbrev context_name : String
context_name = "ctx-0123456789-0123456789"

abbrev creation : Request String String
creation = record {
  operation = create;
  owner = caller;
  binding = "b";
  messages = "hello" ∷ [];
  idempotency_key = "k1";
  request_id = "r1";
  context_id = none;
  base_version = none;
  ttl_seconds = none;
}

abbrev addition : Request String String
addition = record {
  operation = append;
  owner = caller;
  binding = "b";
  messages = "more" ∷ [];
  idempotency_key = "k2";
  request_id = "r2";
  context_id = some context_name;
  base_version = some 1;
  ttl_seconds = none;
}

abbrev clock : ℕ → ℕ
clock n = n

abbrev created : Store String String
created = (reserve options host clock "res1" creation empty_store).1

abbrev committed : Store String String
committed = (commit options clock (λ _. context_name) "res1" "hi" created).1

abbrev reserved : Store String String
reserved = (reserve options host clock "res2" addition committed).1

abbrev ids : ℕ → String
ids _ = context_name

reserved-Reachable : Reachable options host reserved
unfolding reserve commit sweep plan plan_create plan_on validate_request require_mutable
    effective_ttl is_context_id enter settle lock_base commit_entry next_context_id new_entry
    commit_key validate_target Dict.get Dict.put Dict.remove Dict.count_values Dict.filter_values
    Dict.map_values
reserved-Reachable =
    after_reserve clock "res2" addition refl
      (after_commit clock ids "res1" "hi" (after_reserve clock "res1" creation refl start))

Reachable-IsConsistent_example : IsConsistent reserved
Reachable-IsConsistent_example = Reachable-IsConsistent reserved-Reachable

Reachable-IsWithin_example : allocated reserved caller ≤ 2
Reachable-IsWithin_example = Reachable-IsWithin reserved-Reachable caller

abbrev addition_reserved : Reservation String String
addition_reserved = record {
  reservation_id = "res2";
  request = addition;
  binding_fingerprint = "b";
  base_transcript = "hello" ∷ "hi" ∷ [];
  effective_ttl_seconds = some 60;
  parent_context_id = none;
  parent_version = none;
}

reservation_exclusive_example : ◌≡◌ {A = String} "res2" "res2"
unfolding reserve commit sweep plan plan_create plan_on validate_request require_mutable
    effective_ttl is_context_id enter settle lock_base commit_entry next_context_id new_entry
    commit_key validate_target Dict.get Dict.put Dict.remove Dict.count_values Dict.filter_values
    Dict.map_values
reservation_exclusive_example =
    reservation_exclusive "res2" "res2" addition_reserved addition_reserved reserved-Reachable refl
      refl refl refl refl

commit_total_example :
    (receipt : Receipt) × (e : Entry String String) × ((commit options clock ids "res2" "done"
        reserved).0
      ≡ ok receipt)
    × (receipt.version ≡ 1 + 1)
    × (Dict.get (commit options clock ids "res2" "done" reserved).1.contexts context_name ≡ some e)
    × (e.version ≡ 1 + 1)
    × (e.reservation_id ≡ none)
    × (e.transcript ≡ "hello" ∷ "hi" ∷ "more" ∷ "done" ∷ [])
unfolding reserve commit sweep plan plan_create plan_on validate_request require_mutable
    effective_ttl is_context_id enter settle lock_base commit_entry next_context_id new_entry
    commit_key validate_target Dict.get Dict.put Dict.remove Dict.count_values Dict.filter_values
    Dict.map_values
commit_total_example =
    commit_total options clock ids "res2" "done" reserved addition_reserved 1
      (Reachable-IsConsistent reserved-Reachable) refl refl refl
