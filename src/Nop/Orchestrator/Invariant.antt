-- ===== src/Nop/Orchestrator/Invariant.antt =====
-- nps_sdk/nop/orchestrator.py, `_run_dag`: what holds of the loop's state in any order of events.
use nps_sdk_python.Prelude.{
  ℕ, suc, ◌≤◌, ◌≡◌, refl, ap, sym, String, Bool, true, false, not, ◌&&◌, inl, inr, List, [], ◌∷◌,
  map, arith, length, select, mem, Nodup, eqb, eqb→eq, string_eq, Bool-cases, All,
}
use nps_sdk_python.Prelude.Dict
use nps_sdk_python.Prelude.Dict.{Dict, keys, mem-keys, mem-keys-put, get-absent, Nodup-put}
use nps_sdk_python.Nop.Models.{DagNode, TaskDag, failed}
use nps_sdk_python.Nop.Orchestrator.Plan.{are_deps_done, IsEnabled, IsEnabled-put}
use nps_sdk_python.Nop.Orchestrator.Loop.{RunState, ids, index_nodes, all_nodes, fail_node, ready}

-- The ids of the nodes are different: they are the keys of a dict.
IsIndex : Dict String DagNode → Type 0
IsIndex d = All (λ entry. entry.1.id ≡ entry.0) d

put-IsIndex :
    (n : DagNode) (d : Dict String DagNode)
    → All (λ entry. entry.1.id ≡ entry.0) d
    → All (λ entry. entry.1.id ≡ entry.0) (Dict.put d n.id n)
unfolding Dict.put
put-IsIndex n [] h = (refl, tt)
put-IsIndex n ((k, m) ∷ d) h = elim (Bool-cases (eqb k n.id)) [
  | inl same ↦ rw same (sym (eqb→eq k n.id same), h.1)
  | inr other ↦ rw other (h.0, put-IsIndex n d h.1)
]

index_nodes-IsIndex :
    (ns : List DagNode) (d : Dict String DagNode)
    → IsIndex d
    → Nodup (keys d)
    → IsIndex (index_nodes ns d) × Nodup (keys (index_nodes ns d))
unfolding IsIndex
index_nodes-IsIndex [] d h once = (h, once)
index_nodes-IsIndex (n ∷ ns) d h once =
    index_nodes-IsIndex ns (Dict.put d n.id n) (put-IsIndex n d h) (Nodup-put d n.id n once)

ids-values : (d : Dict String DagNode) → IsIndex d → ids (map (λ entry. entry.1) d) ≡ keys d
unfolding IsIndex keys
ids-values [] h = refl
ids-values ((k, n) ∷ d) h = rw (h.0, ids-values d h.1) refl

pub Nodup-ids : (dag : TaskDag) → Nodup (ids (all_nodes dag))
unfolding all_nodes keys IsIndex
Nodup-ids dag =
    let (index, once) = index_nodes-IsIndex dag.nodes [] tt tt in
    rw (ids-values (index_nodes dag.nodes []) index) once

pub length-ids : (ns : List DagNode) → length (ids ns) ≡ length ns
length-ids [] = refl
length-ids (n ∷ ns) = ap suc (length-ids ns)

pub mem-ids-select :
    (p : DagNode → Bool) (q : String → Bool) (ns : List DagNode) (k : String)
    → ((n : DagNode) → p n ≡ true → q n.id ≡ true)
    → mem k (ids (select p ns)) ≡ true
    → (q k ≡ true) × (mem k (ids ns) ≡ true)
mem-ids-select p q [] k h m = absurd (ground (arith, m))
mem-ids-select p q (n ∷ ns) k h m = ground (arith, m, h n, mem-ids-select p q ns k h, eqb→eq n.id k)

pub Nodup-ids-select :
    (p : DagNode → Bool) (ns : List DagNode) → Nodup (ids ns) → Nodup (ids (select p ns))
Nodup-ids-select p [] h = tt
Nodup-ids-select p (n ∷ ns) h = ground (
  arith,
  Nodup-ids-select p ns h.1,
  h.0,
  mem-ids-select p (λ k. true) ns n.id (λ m h. refl),
  Bool-cases (mem n.id (ids (select p ns))),
)

pub length-select_le : {A : Type 0} (p : A → Bool) (xs : List A) → length (select p xs) ≤ length xs
length-select_le p [] = omega arith
length-select_le p (x ∷ xs) = ground (arith, length-select_le p xs)

pub All-select :
    {A : Type 0} (P : A → Type 0) (p : A → Bool) (xs : List A) → All P xs → All P (select p xs)
All-select P p [] h = tt
All-select P p (x ∷ xs) h = elim (Bool-cases (p x)) [
  | inl t ↦ rw t (h.0, All-select P p xs h.1)
  | inr f ↦ rw f (All-select P p xs h.1)
]

pub All-weaken :
    {A : Type 0} (P Q : A → Type 0) (xs : List A) → ((x : A) → P x → Q x) → All P xs → All Q xs
All-weaken P Q [] f h = tt
All-weaken P Q (x ∷ xs) f h = (f x h.0, All-weaken P Q xs f h.1)

-- A node has a state, is in flight, or is neither; what is in flight has its K dependencies.
pub record IsSound {ℓ} {V : Type ℓ} (max : ℕ) (nodes : List DagNode) (s : RunState V) : Type 0 where
  pub states_once : Nodup (keys s.states)
  pub flight_once : Nodup (ids s.in_flight)
  pub apart : (k : String) → mem k (ids s.in_flight) ≡ true → mem k (keys s.states) ≡ false
  pub states_known : (k : String) → mem k (keys s.states) ≡ true → mem k (ids nodes) ≡ true
  pub flight_known : (k : String) → mem k (ids s.in_flight) ≡ true → mem k (ids nodes) ≡ true
  pub few : length s.in_flight ≤ max
  pub enabled : All (IsEnabled s.states) s.in_flight

-- Nodes that may still be launched.
pub record IsFresh {ℓ} {V : Type ℓ} (nodes : List DagNode) (s : RunState V) (ns : List DagNode)
    : Type 0 where
  pub once : Nodup (ids ns)
  pub stateless : (k : String) → mem k (ids ns) ≡ true → mem k (keys s.states) ≡ false
  pub landed : (k : String) → mem k (ids ns) ≡ true → mem k (ids s.in_flight) ≡ false
  pub known : (k : String) → mem k (ids ns) ≡ true → mem k (ids nodes) ≡ true

module _ {ℓ} {V : Type ℓ} (nodes : List DagNode) where
  pub ready-IsFresh : Nodup (ids nodes) → (s : RunState V) → IsFresh nodes s (ready nodes s)
  ready-IsFresh distinct s =
      let test : DagNode → Bool = λ n.
        not (mem n.id (keys s.states))
        && not (mem n.id (ids s.in_flight))
        && are_deps_done n s.states in
      record {
        once = Nodup-ids-select test nodes distinct;
        stateless = λ k m. ground (
          arith,
          mem-ids-select test (λ k. not (mem k (keys s.states))) nodes k (λ n h. ground (arith, h))
              m,
        );
        landed = λ k m. ground (
          arith,
          mem-ids-select test (λ k. not (mem k (ids s.in_flight))) nodes k
              (λ n h. ground (arith, h)) m,
        );
        known = λ k m. (mem-ids-select test (λ k. true) nodes k (λ n h. refl) m).1;
      }

  -- Failing a node that has no state and is not in flight.
  pub fail_node-IsSound :
      (max : ℕ) (n : DagNode) (s : RunState V)
      → mem n.id (keys s.states) ≡ false
      → mem n.id (ids s.in_flight) ≡ false
      → mem n.id (ids nodes) ≡ true
      → IsSound max nodes s
      → IsSound max nodes (fail_node n s)
  fail_node-IsSound max n s new landed known i = record {
    states_once = Nodup-put s.states n.id failed i.states_once;
    flight_once = i.flight_once;
    apart = λ k m.
        ground (arith, m, landed, i.apart k m, mem-keys-put s.states n.id k failed, eqb→eq n.id k);
    states_known = λ k m.
        ground
          (arith, m, known, i.states_known k, mem-keys-put s.states n.id k failed, eqb→eq n.id k);
    flight_known = i.flight_known;
    few = i.few;
    enabled =
        All-weaken (IsEnabled s.states) (IsEnabled (Dict.put s.states n.id failed)) s.in_flight
          (λ m. IsEnabled-put s.states n.id failed m (get-absent s.states n.id new)) i.enabled;
  }

  pub fail_node-IsFresh :
      (n : DagNode) (ns : List DagNode) (s : RunState V)
      → IsFresh nodes s (n ∷ ns)
      → IsFresh nodes (fail_node n s) ns
  fail_node-IsFresh n ns s f = record {
    once = f.once.1;
    stateless = λ k m.
        ground
          (arith, m, f.once.0, f.stateless k, mem-keys-put s.states n.id k failed, eqb→eq n.id k);
    landed = λ k m. f.landed k (ground (arith, m));
    known = λ k m. f.known k (ground (arith, m));
  }

  pub tail-IsFresh :
      (n : DagNode) (ns : List DagNode) (s : RunState V)
      → IsFresh nodes s (n ∷ ns)
      → IsFresh nodes s ns
  tail-IsFresh n ns s f = record {
    once = f.once.1;
    stateless = λ k m. f.stateless k (ground (arith, m));
    landed = λ k m. f.landed k (ground (arith, m));
    known = λ k m. f.known k (ground (arith, m));
  }
