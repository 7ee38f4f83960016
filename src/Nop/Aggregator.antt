-- ===== src/Nop/Aggregator.antt =====
-- nps_sdk/nop/aggregator.py: the result of a task, from those of its end nodes. The text of a list
-- index in an f-string is the parameter `result_key`.
mod Examples
use nps_sdk_python.Prelude.{
  ℕ, zero, suc, ◌≡◌, ◌≢◌, refl, sym, String, Bool, true, false, Option, none, some, List, [], ◌∷◌,
  map, arith, ltb, length, take, mem, Nodup, eqb, eqb→eq, eqb_refl, string_eq, if◌then◌else◌,
  Bool-cases, inl, inr,
}
use nps_sdk_python.Prelude.Dict
use nps_sdk_python.Prelude.Dict.{Dict, keys, get-put, get-absent}
use nps_sdk_python.Nop.Json.{
  Json, View, is_null, is_bool, is_number, is_string, is_array, is_object,
}

-- for k, v in result.items(): merged[k] = v
unfoldable pub update {ℓ} : {V : Type ℓ} → Dict String V → Dict String V → Dict String V
update merged [] = merged
update merged ((k, v) ∷ entries) = update (Dict.put merged k v) entries

abbrev pub or_else {ℓ} : {A : Type ℓ} → Option A → Option A → Option A
or_else none o = o
or_else (some a) o = some a

get-update {ℓ} :
    {V : Type ℓ} (merged entries : Dict String V) (k : String)
    → Nodup (keys entries)
    → Dict.get (update merged entries) k ≡ or_else (Dict.get entries k) (Dict.get merged k)
unfolding update keys Dict.get
get-update merged [] k n = refl
get-update merged ((j, v) ∷ entries) k n = ground (
  arith,
  get-update (Dict.put merged j v) entries k n.1,
  get-put merged j k v,
  n.0,
  eqb→eq j k,
  get-absent entries k,
)

untouched {ℓ} :
    {V : Type ℓ} (d : Dict String V) (j k : String) (v : V)
    → j ≢ k
    → Dict.get (Dict.put d j v) k ≡ Dict.get d k
untouched d j k v fresh = ground (arith, get-put d j k v, fresh, eqb→eq j k)

or_else-or_else {ℓ} :
    {A : Type ℓ} (a b c : Option A) → or_else a (or_else b c) ≡ or_else (or_else a b) c
or_else-or_else none b c = refl
or_else-or_else (some a) b c = refl

or_else-none {ℓ} : {A : Type ℓ} (a : Option A) → or_else a none ≡ a
or_else-none none = refl
or_else-none (some a) = refl

module _ {ℓ} {N V : Type ℓ} (json : Json N V) (result_key : ℕ → String) where
  -- what a result adds, by whether it is an object
  abbrev pub add_result : ℕ → Dict String V → V → View N V → Dict String V
  add_result i merged r (is_object d) = update merged d
  add_result i merged r _ = Dict.put merged (result_key i) r

  -- merge, from the index `i` on
  unfoldable pub merge_from : ℕ → Dict String V → List V → Dict String V
  merge_from i merged [] = merged
  merge_from i merged (r ∷ results) =
      merge_from (suc i) (add_result i merged r (json.view r)) results

  abbrev pub merge : List V → Dict String V
  merge results = merge_from 0 [] results

  -- aggregate
  unfoldable pub aggregate : String → List V → ℕ → V
  aggregate strategy [] min_required = json.object []
  aggregate strategy (r ∷ results) min_required =
      if eqb strategy "first"
      then r
      else if eqb strategy "all"
      then json.array (r ∷ results)
      else if eqb strategy "fastest_k"
      then json.array
          (take (if ltb 0 min_required then min_required else length (r ∷ results)) (r ∷ results))
      else json.object (merge (r ∷ results))

  -- [all_results[nid] for nid in end_node_ids if nid in all_results]
  abbrev pub end_results : List String → Dict String V → List V
  end_results [] all_results = []
  end_results (id ∷ end_ids) all_results = elim (Dict.get all_results id) [
    | none ↦ end_results end_ids all_results
    | some v ↦ v ∷ end_results end_ids all_results
  ]

  abbrev pub aggregate_end_nodes : List String → Dict String V → String → V
  aggregate_end_nodes end_ids all_results strategy =
      aggregate strategy (end_results end_ids all_results) 0

  -- the field `k` of a result that is an object
  abbrev pub field : String → View N V → Option V
  field k (is_object d) = Dict.get d k
  field k _ = none

  -- The field `k` of the last result that has one.
  pub latest : String → List V → Option V
  latest k [] = none
  latest k (r ∷ results) = or_else (latest k results) (field k (json.view r))

  get-add_result :
      (i : ℕ) (merged : Dict String V) (r : V) (view : View N V) (k : String)
      → result_key i ≢ k
      → ((d : Dict String V) → view ≡ is_object d → Nodup (keys d))
      → Dict.get (add_result i merged r view) k ≡ or_else (field k view) (Dict.get merged k)
  get-add_result i merged r (is_object d) k fresh once = get-update merged d k (once d refl)
  get-add_result i merged r is_null k fresh once = untouched merged (result_key i) k r fresh
  get-add_result i merged r (is_bool b) k fresh once = untouched merged (result_key i) k r fresh
  get-add_result i merged r (is_number n) k fresh once = untouched merged (result_key i) k r fresh
  get-add_result i merged r (is_string s) k fresh once = untouched merged (result_key i) k r fresh
  get-add_result i merged r (is_array vs) k fresh once = untouched merged (result_key i) k r fresh

  get-merge_from :
      (i : ℕ) (merged : Dict String V) (results : List V) (k : String)
      → ((j : ℕ) → result_key j ≢ k)
      → Dict.get (merge_from i merged results) k ≡ or_else (latest k results) (Dict.get merged k)
  unfolding merge_from latest
  get-merge_from i merged [] k fresh = refl
  get-merge_from i merged (r ∷ results) k fresh =
      rw
        (
          get-merge_from (suc i) (add_result i merged r (json.view r)) results k fresh,
          get-add_result i merged r (json.view r) k (fresh i) (json.keys_once r),
        )
        (or_else-or_else (latest k results) (field k (json.view r)) (Dict.get merged k))

  -- Last write wins: under a key that names no result without fields, the merged object has the
  -- field of the last result that has one.
  pub get-merge :
      (results : List V) (k : String)
      → ((j : ℕ) → result_key j ≢ k)
      → Dict.get (merge results) k ≡ latest k results
  unfolding Dict.get
  get-merge results k fresh =
      rw (get-merge_from 0 [] results k fresh) (or_else-none (latest k results))
