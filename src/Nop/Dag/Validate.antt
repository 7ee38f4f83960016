-- ===== src/Nop/Dag/Validate.antt =====
-- The guarantees of DagValidator.validate as a whole (nop/validation.py).
use nps_sdk_python.Prelude.{
  ℕ, String, ◌≡◌, ◌≢◌, refl, ◌∙◌, Bool, true, false, not, ◌⊎◌, List, [], ◌∷◌, ◌++◌, map, Result, ok,
  err, ◌>>=◌, reject_if, ltb, ◌==◌, if◌then◌else◌, length, mem, Nodup, Nodup-snoc, string_eq, arith,
  All, Bool-cases, inl, inr,
}
use mathlib.Core.List.{append_assoc, append-nil}
use nps_sdk_python.Prelude.Dict
use nps_sdk_python.Nop.Dag.{
  DagNode, DagEdge, TaskDag, DagError, Graph, dag_invalid, dag_too_large, condition_eval_error,
  dag_cycle, key_error, out_of_fuel, collect_ids, add_edges, check_inputs, check_upstreams,
  check_conditions, empty_graph, sort_nodes, validate, max_dag_nodes, is_empty,
}
use nps_sdk_python.Nop.Dag.Build.{
  IsKnown, IsBuilt, empty_graph-IsBuilt, add_edge-IsBuilt, add_edges-IsBuilt, add_edges-IsKnown,
}
use nps_sdk_python.Nop.Dag.Kahn.{IsSorted}
use nps_sdk_python.Nop.Dag.Order.{
  IsTopological, IsRank, sort_nodes_lem, full-IsTopological, ranked_full,
}

-- What the program may rely on where it iterates over a set: every element comes, and comes once.
pub record IsIteration (iterate : List String → List String) : Type 0 where
  pub same : (ids : List String) (v : String) → mem v (iterate ids) ≡ mem v ids
  pub once : (ids : List String) → Nodup ids → Nodup (iterate ids)

abbrev pub node_ids : TaskDag → List String
node_ids dag = map (λ n. n.id) dag.nodes

-- The errors that the checks before the sort report.
abbrev is_static : DagError → Bool
is_static (dag_invalid r) = true
is_static (dag_too_large n) = true
is_static (condition_eval_error n) = true
is_static _ = false

abbrev OnlyStatic : {A : Type 0} → Result DagError A → Type 0
OnlyStatic r = (e : DagError) → r ≡ err e → is_static e ≡ true

-- Either a check has failed, or the sort is reached with the graph of the edges.
abbrev Reaches : TaskDag → Result DagError (List String) → Type 0
Reaches dag r =
    ((e : DagError) × (r ≡ err e) × (is_static e ≡ true))
    ⊎ ((g : Graph) × IsBuilt (node_ids dag) dag.edges g
        × All (IsKnown (node_ids dag)) dag.edges
        × Nodup (node_ids dag)
        × (r ≡ sort_nodes (node_ids dag) g))

stage :
    {A : Type 0} (dag : TaskDag) (m : Result DagError A) (f : A → Result DagError (List String))
    → OnlyStatic m
    → ((a : A) → m ≡ ok a → Reaches dag (f a))
    → Reaches dag (m >>= f)
stage dag (ok a) f h k = k a refl
stage dag (err e) f h k = inl (e, refl, h e refl)

reject_if-OnlyStatic :
    (bad : Bool) (e : DagError) → is_static e ≡ true → OnlyStatic (reject_if bad e)
reject_if-OnlyStatic true e s x h = cc
reject_if-OnlyStatic false e s x h = cc

bind-OnlyStatic :
    {A B : Type 0} (m : Result DagError A) (f : A → Result DagError B)
    → OnlyStatic m
    → ((a : A) → OnlyStatic (f a))
    → OnlyStatic (m >>= f)
bind-OnlyStatic (ok a) f h k = k a
bind-OnlyStatic (err x) f h k = λ e q. h e (cc)

collect_ids-OnlyStatic : (ns : List DagNode) (seen : List String) → OnlyStatic (collect_ids ns seen)
unfolding collect_ids
collect_ids-OnlyStatic [] seen e h = cc
collect_ids-OnlyStatic (n ∷ ns) seen e h =
    ground (arith, collect_ids-OnlyStatic ns (seen ++ n.id ∷ []) e)

-- The ids that are returned are those of the nodes, and none of them comes twice.
collect_ids_lem :
    (ns : List DagNode) (seen ids : List String)
    → Nodup seen
    → collect_ids ns seen ≡ ok ids
    → (ids ≡ seen ++ map (λ n. n.id) ns) × Nodup ids
unfolding collect_ids
collect_ids_lem [] seen ids n h = ground (arith, append-nil seen, n)
collect_ids_lem (node ∷ ns) seen ids n h = elim (Bool-cases (mem node.id seen)) [
  | inl twice ↦ absurd (ground arith)
  | inr new ↦
      let (same, once) =
        collect_ids_lem ns (seen ++ node.id ∷ []) ids (Nodup-snoc seen node.id n new)
          (ground arith) in
      (same ∙ append_assoc seen (node.id ∷ []) (map (λ n. n.id) ns), once)
]

check_upstreams-OnlyStatic :
    (ids : List String) (node : String) (ups : List String)
    → OnlyStatic (check_upstreams ids node ups)
unfolding check_upstreams
check_upstreams-OnlyStatic ids node [] e h = cc
check_upstreams-OnlyStatic ids node (u ∷ ups) e h =
    ground (arith, check_upstreams-OnlyStatic ids node ups e)

check_inputs-OnlyStatic : (ids : List String) (ns : List DagNode) → OnlyStatic (check_inputs ids ns)
unfolding check_inputs
check_inputs-OnlyStatic ids [] = λ e h. cc
check_inputs-OnlyStatic ids (n ∷ ns) =
    bind-OnlyStatic (check_upstreams ids n.id n.input_from) (λ _. check_inputs ids ns)
      (check_upstreams-OnlyStatic ids n.id n.input_from) (λ _. check_inputs-OnlyStatic ids ns)

check_conditions-OnlyStatic : (ns : List DagNode) → OnlyStatic (check_conditions ns)
unfolding check_conditions
check_conditions-OnlyStatic [] e h = cc
check_conditions-OnlyStatic (n ∷ ns) e h = ground (arith, check_conditions-OnlyStatic ns e)

add_edges-OnlyStatic :
    (ids : List String) (done edges : List DagEdge) (g : Graph)
    → IsBuilt ids done g
    → OnlyStatic (add_edges ids edges g)
unfolding add_edges
add_edges-OnlyStatic ids done [] g b e h = cc
add_edges-OnlyStatic ids done (edge ∷ edges) g b e h = elim (Bool-cases (mem edge.source ids)) [
  | inr unknown ↦ ground arith
  | inl source ↦ elim (Bool-cases (mem edge.target ids)) [
    | inr unknown ↦ ground arith
    | inl target ↦
        let (g₁, step, b₁) = add_edge-IsBuilt ids done edge g b (source, target) in
        add_edges-OnlyStatic ids (done ++ edge ∷ []) edges g₁ b₁ e (ground arith)
  ]
]

module _ (iterate : List String → List String) (law : IsIteration iterate) where
  start-IsBuilt : (ids : List String) → Nodup ids → IsBuilt ids [] (empty_graph (iterate ids))
  start-IsBuilt ids n =
      let b = empty_graph-IsBuilt (iterate ids) (law.once ids n) in
      record {
        adjacency_at = λ u. ground (arith, b.adjacency_at u, law.same ids u);
        in_degree_at = λ v. ground (arith, b.in_degree_at v, law.same ids v);
        adjacency_keys = b.adjacency_keys;
        in_degree_keys = b.in_degree_keys;
      }

  after_edges :
      (dag : TaskDag) (ids : List String) (g : Graph)
      → ids ≡ node_ids dag
      → Nodup ids
      → add_edges ids dag.edges (empty_graph (iterate ids)) ≡ ok g
      → IsBuilt (node_ids dag) dag.edges g
        × All (IsKnown (node_ids dag)) dag.edges
        × Nodup (node_ids dag)
  after_edges dag ids g same n run =
      let known = add_edges-IsKnown ids dag.edges (empty_graph (iterate ids)) g run in
      let (g', run', built) =
        add_edges-IsBuilt ids [] dag.edges (empty_graph (iterate ids)) (start-IsBuilt ids n)
          known in
      let same_graph : g' ≡ g = cc in
      (rw (← same) (rw same_graph at built), rw same at known, rw same at n)

  validate-Reaches : (dag : TaskDag) → Reaches dag (validate iterate dag)
  unfolding validate
  validate-Reaches dag = stage dag _ _ (reject_if-OnlyStatic (length dag.nodes == 0) _ refl) λ _ _.
      stage dag _ _ (reject_if-OnlyStatic (ltb max_dag_nodes (length dag.nodes)) _ refl) λ _ _.
        stage dag _ _ (collect_ids-OnlyStatic dag.nodes []) λ ids collected.
          let (same, once) = collect_ids_lem dag.nodes [] ids tt collected in
          stage dag _ _ (add_edges-OnlyStatic ids [] dag.edges _ (start-IsBuilt ids once))
            λ g built. stage dag _ _ (check_inputs-OnlyStatic ids dag.nodes) λ _ _.
              stage dag _ _
                (reject_if-OnlyStatic (not (Dict.any_value (λ d. d == 0) g.in_degree)) _ refl)
                λ _ _.
                  stage dag _ _
                    (reject_if-OnlyStatic (not (Dict.any_value is_empty g.adjacency)) _ refl)
                    λ _ _. stage dag _ _ (check_conditions-OnlyStatic dag.nodes) λ _ _.
                      let (b, k, n) = after_edges dag ids g same once built in
                      inr (g, b, k, n, rw same refl)

  -- The graph that the checks let through, and the list that the loop makes of it.
  validate-sorts :
      (dag : TaskDag)
      → ((e : DagError) × (validate iterate dag ≡ err e) × (is_static e ≡ true))
        ⊎ ((order : List String) × IsSorted (node_ids dag) dag.edges order
            × All (IsKnown (node_ids dag)) dag.edges
            × Nodup (node_ids dag)
            × (validate iterate dag
                ≡ (if length order == length (node_ids dag) then ok order else err dag_cycle)))
  validate-sorts dag = elim (validate-Reaches dag) [
    | inl failed ↦ inl failed
    | inr (g, built, known, once, same) ↦
        let (order, sorted, run) = sort_nodes_lem (node_ids dag) dag.edges g built known in
        inr (order, sorted, known, once, same ∙ run)
  ]

  -- A list of nodes that `validate` returns is a topological order of the graph: it lists exactly
  -- the nodes, each once, and the source of every edge stands before its target.
  pub validate-IsTopological :
      (dag : TaskDag) (order : List String)
      → validate iterate dag ≡ ok order
      → IsTopological (node_ids dag) dag.edges order
  validate-IsTopological dag order h = elim (validate-sorts dag) [
    | inl (e, failed, _) ↦ absurd (ground arith)
    | inr (found, sorted, known, once, run) ↦
        let full : length found ≡ length (node_ids dag) = ground arith in
        let same : found ≡ order = ground arith in
        rw same at (full-IsTopological (node_ids dag) dag.edges found sorted full)
  ]

  -- `validate` reports a cycle only if there is one: no numbering of the nodes then grows along
  -- every edge.
  pub validate-cycle :
      (dag : TaskDag) (rank : String → ℕ)
      → validate iterate dag ≡ err dag_cycle
      → ¬ IsRank dag.edges rank
  validate-cycle dag rank h ranked = elim (validate-sorts dag) [
    | inl (e, failed, static) ↦ ground (arith)
    | inr (found, sorted, known, once, run) ↦
        let full = ranked_full (node_ids dag) dag.edges found sorted rank known once ranked in
        ground arith
  ]

  -- `validate` raises no KeyError, and the queue runs empty within one round for each node.
  pub validate_total :
      (dag : TaskDag)
      → (validate iterate dag ≢ err key_error) × (validate iterate dag ≢ err out_of_fuel)
  validate_total dag = elim (validate-sorts dag) [
    | inl (e, failed, static) ↦ (λ h. ground arith, λ h. ground arith)
    | inr (found, sorted, known, once, run) ↦ (λ h. ground arith, λ h. ground arith)
  ]
