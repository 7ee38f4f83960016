-- ===== src/Nop/Orchestrator/Compensation.antt =====
-- nps_sdk/nop/orchestrator.py, `_run_saga_compensation`: what is compensated, in which order.
use nps_sdk_python.Prelude.{
  ◌≡◌, refl, inl, inr, String, true, false, not, ◌&&◌, Option, some, List, [], ◌∷◌, ◌++◌, map,
  arith, select, first, mem, eqb, eqb→eq, string_eq, Bool-cases, Option-cases, if_intro, In, here,
  there, All,
}
use nps_sdk_python.Prelude.Dict
use nps_sdk_python.Prelude.Dict.{holds}
use nps_sdk_python.Nop.Models.{DagNode, DagEdge, TaskDag, is_completed, is_strict, is_empty}
use nps_sdk_python.Nop.Dag.Order.{IsTopological}
use nps_sdk_python.Nop.Orchestrator.Plan.{States}
use nps_sdk_python.Nop.Orchestrator.Loop.{NodeOutcome, ids}
use nps_sdk_python.Nop.Orchestrator.Saga.{
  Saga, reverse, has_action, completed_nodes, replace_node, compensate, run_saga_compensation,
}
use nps_sdk_python.Nop.Orchestrator.Precedence.{
  precedes, Sublist, stop, keep, skip, Sublist-trans, Sublist-map, select-Sublist, precedes-Sublist,
  Nodup-reverse, precedes-reverse, split_at, precedes_middle, mem-reverse, mem-Sublist,
}

All-at {ℓ κ} : {A : Type ℓ} (P : A → Type κ) (a : A) (xs : List A) → In a xs → All P xs → P a
All-at P a xs here h = h.0
All-at P a (x ∷ xs) (there i) h = All-at P a xs i h.1

first-id :
    (nodes : List DagNode) (id : String) (n : DagNode)
    → first (λ n. eqb n.id id) nodes ≡ some n
    → n.id ≡ id
first-id [] id n h = cc
first-id (m ∷ nodes) id n h = ground (arith, h, first-id nodes id n, eqb→eq m.id id)

completed-Sublist :
    (nodes : List DagNode) (states : States) (order : List String)
    → Sublist (ids (completed_nodes nodes states order)) order
unfolding completed_nodes
completed-Sublist nodes states [] = stop
completed-Sublist nodes states (id ∷ order) =
    let rest : Sublist (ids (completed_nodes nodes states order)) order =
      completed-Sublist nodes states order in
    elim (Option-cases (first (λ n. eqb n.id id) nodes)) [
      | inl absent ↦ rw (completed_nodes, absent) (skip rest)
      | inr (n, found) ↦ elim (Bool-cases (holds is_completed (Dict.get states id))) [
        | inl over ↦ rw (completed_nodes, found, over, first-id nodes id n found) (keep rest)
        | inr other ↦ rw (completed_nodes, found, other) (skip rest)
      ]
    ]

replace-id : (n : DagNode) → (replace_node n).id ≡ n.id
replace-id n = elim (Option-cases n.compensate_action) [
  | inl none_given ↦ rw none_given refl
  | inr (action, given) ↦ rw given refl
]

nothing-Sublist : {A : Type 0} (xs : List A) → Sublist [] xs
nothing-Sublist [] = stop
nothing-Sublist (x ∷ xs) = skip (nothing-Sublist xs)

topological-precedes :
    (names : List String) (edges : List DagEdge) (order : List String) (edge : DagEdge)
    → IsTopological names edges order
    → In edge edges
    → mem edge.target order ≡ true
    → precedes edge.source edge.target order ≡ true
topological-precedes names edges order edge t i m =
    let (before, after, e) = split_at edge.target order m in
    rw e (
      precedes_middle edge.source edge.target before after (
        All-at
          (λ edge.
            (before after : List String)
            → order ≡ before ++ edge.target ∷ after
            → mem edge.source before ≡ true)
          edge edges i t.forward before after e))

ids-replace : (ns : List DagNode) → ids (map replace_node ns) ≡ ids ns
ids-replace [] = refl
ids-replace (n ∷ ns) = rw (replace-id n, ids-replace ns) refl

mem-completed :
    (nodes : List DagNode) (states : States) (order : List String) (k : String)
    → mem k (ids (select has_action (completed_nodes nodes states order))) ≡ (
        mem k order
        && (holds is_completed (Dict.get states k)
            && holds has_action (first (λ n. eqb n.id k) nodes)))
unfolding completed_nodes
mem-completed nodes states [] k = refl
mem-completed nodes states (id ∷ order) k =
    let rest = mem-completed nodes states order k in
    elim (Option-cases (first (λ n. eqb n.id id) nodes)) [
      | inl absent ↦ rw (completed_nodes, absent) (ground (arith, rest, absent, eqb→eq id k))
      | inr (n, found) ↦
          let same : n.id ≡ id = first-id nodes id n found in
          elim (Bool-cases (holds is_completed (Dict.get states id))) [
            | inl over ↦
                rw (completed_nodes, found, over)
                  (ground (arith, rest, same, found, over, eqb→eq id k))
            | inr other ↦
                rw (completed_nodes, found, other) (ground (arith, rest, found, other, eqb→eq id k))
          ]
    ]

module _ {ℓ} {V : Type ℓ} (undo : DagNode → NodeOutcome V) where
  pub compensate-sent : (ns : List DagNode) → (compensate undo ns).sent ≡ map replace_node ns
  compensate-sent [] = refl
  compensate-sent (n ∷ ns) = refl

  saga-Sublist :
      (policy : Option String) (nodes : List DagNode) (topo_order : List String) (states : States)
      → Sublist
          (ids (run_saga_compensation undo policy nodes topo_order states).sent)
          (reverse topo_order)
  unfolding run_saga_compensation
  saga-Sublist policy nodes topo_order states =
      let done : List DagNode = completed_nodes nodes states (reverse topo_order) in
      if_intro {A = Saga} (λ saga. Sublist (ids saga.sent) (reverse topo_order))
        (is_strict policy && not (is_empty (select (λ n. not (has_action n)) done)))
        (λ refused. nothing-Sublist (reverse topo_order))
        (λ allowed.
          rw (compensate-sent (select has_action done), ids-replace (select has_action done))
            (Sublist-trans (Sublist-map (λ n. n.id) (select-Sublist has_action done))
              (completed-Sublist nodes states (reverse topo_order))))

  -- The compensation goes against the edges: where both ends of an edge are compensated, the target
  -- is compensated before the source.
  pub saga-order :
      (policy : Option String) (dag : TaskDag) (names : List String) (topo_order : List String)
      (nodes : List DagNode) (states : States) (edge : DagEdge)
      → IsTopological names dag.edges topo_order
      → In edge dag.edges
      → let sent = ids (run_saga_compensation undo policy nodes topo_order states).sent in
        mem edge.source sent ≡ true
        → mem edge.target sent ≡ true
        → precedes edge.target edge.source sent ≡ true
  saga-order policy dag names topo_order nodes states edge t i ms mt =
      let s : Sublist (ids (run_saga_compensation undo policy nodes topo_order states).sent)
          (reverse topo_order) =
        saga-Sublist policy nodes topo_order states in
      precedes-Sublist edge.target edge.source s (Nodup-reverse topo_order t.once) mt ms (
        precedes-reverse edge.source edge.target topo_order (
          topological-precedes names dag.edges topo_order edge t i
            (rw (mem-reverse edge.target topo_order) at (mem-Sublist edge.target s mt))))

  -- Unless the policy is strict, what is compensated is exactly the COMPLETED nodes of the order
  -- that have a compensating action.
  pub saga_sent :
      (policy : Option String) (nodes : List DagNode) (topo_order : List String) (states : States)
      (k : String)
      → is_strict policy ≡ false
      → mem k (ids (run_saga_compensation undo policy nodes topo_order states).sent) ≡ (
          mem k topo_order
          && (holds is_completed (Dict.get states k)
              && holds has_action (first (λ n. eqb n.id k) nodes)))
  unfolding run_saga_compensation
  saga_sent policy nodes topo_order states k lenient =
      let done : List DagNode = completed_nodes nodes states (reverse topo_order) in
      rw
        (
          lenient,
          compensate-sent (select has_action done),
          ids-replace (select has_action done),
          mem-completed nodes states (reverse topo_order) k,
          mem-reverse k topo_order,
        )
        refl
