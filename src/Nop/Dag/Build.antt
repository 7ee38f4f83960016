-- ===== src/Nop/Dag/Build.antt =====
-- What the loop over the edges builds (nop/validation.py, DagValidator.validate): the adjacency
-- lists and the in-degrees, described by the edges alone.
use mathlib.Core.List.{append_assoc, append-nil}
use nps_sdk_python.Prelude.{
  ℕ, ◌+◌, String, ◌≡◌, refl, ap, true, false, not, none, some, List, [], ◌∷◌, ◌++◌, map, ok,
  bind-eq-ok, reject_if-eq-ok, if◌then◌else◌, mem, mem-append, Nodup, count, string_eq, eqb, arith,
  All,
}
use nps_sdk_python.Prelude.Dict
use nps_sdk_python.Prelude.Dict.{Dict, get-put, keys-put}
use nps_sdk_python.Nop.Dag.{
  DagEdge, Graph, modify, empty_graph, add_edge, add_edges, dag_invalid, unknown_source,
  unknown_target,
}

-- The targets of the edges that leave a node, in order.
abbrev pub targets : String → List DagEdge → List String
targets u [] = []
targets u (edge ∷ edges) =
    let rest = targets u edges in if eqb edge.source u then edge.target ∷ rest else rest

-- How many edges arrive at a node from a source that is not among `done`.
abbrev pub pending : List String → String → List DagEdge → ℕ
pending done v [] = 0
pending done v (edge ∷ edges) =
    (if mem edge.source done then 0 else if eqb edge.target v then 1 else 0) + pending done v edges

-- Both ends of an edge are nodes.
abbrev pub IsKnown : List String → DagEdge → Type 0
IsKnown ids edge = (mem edge.source ids ≡ true) × (mem edge.target ids ≡ true)

pub record IsBuilt (ids : List String) (edges : List DagEdge) (g : Graph) : Type 0 where
  pub adjacency_at :
      (u : String) → Dict.get g.adjacency u ≡ (if mem u ids then some (targets u edges) else none)
  pub in_degree_at :
      (v : String)
      → Dict.get g.in_degree v ≡ (if mem v ids then some (pending [] v edges) else none)
  pub adjacency_keys : Nodup (Dict.keys g.adjacency)
  pub in_degree_keys : Nodup (Dict.keys g.in_degree)

targets-snoc :
    (u : String) (edges : List DagEdge) (e : DagEdge)
    → targets u (edges ++ e ∷ [])
      ≡ (if eqb e.source u then targets u edges ++ e.target ∷ [] else targets u edges)
targets-snoc u [] e = ground arith
targets-snoc u (x ∷ edges) e = ground (arith, targets-snoc u edges e)

pending-append :
    (done : List String) (v : String) (xs ys : List DagEdge)
    → pending done v (xs ++ ys) ≡ pending done v xs + pending done v ys
pending-append done v [] ys = omega arith
pending-append done v (x ∷ xs) ys = omega (arith, pending-append done v xs ys)

-- Once `cur` is done, the edges that leave it are no longer pending.
pub pending-snoc :
    (done : List String) (cur v : String) (edges : List DagEdge)
    → mem cur done ≡ false
    → pending done v edges ≡ pending (done ++ cur ∷ []) v edges + count v (targets cur edges)
pending-snoc done cur v [] h = omega arith
pending-snoc done cur v (e ∷ edges) h = ground (
  arith,
  pending-snoc done cur v edges,
  mem-append e.source done (cur ∷ []),
  string_eq.beq_iff cur e.source,
  string_eq.beq_iff e.source cur,
)

get-const {ℓ} :
    {V : Type ℓ} (ids : List String) (c : V) (u : String)
    → Dict.get (map (λ k. (k, c)) ids) u ≡ (if mem u ids then some c else none)
unfolding Dict.get
get-const [] c u = refl
get-const (x ∷ ids) c u = ground (arith, get-const ids c u)

keys-const {ℓ} : {V : Type ℓ} (ids : List String) (c : V) → Dict.keys (map (λ k. (k, c)) ids) ≡ ids
unfolding Dict.keys
keys-const [] c = refl
keys-const (x ∷ ids) c = ap (λ r. x ∷ r) (keys-const ids c)

pub empty_graph-IsBuilt : (ids : List String) → Nodup ids → IsBuilt ids [] (empty_graph ids)
unfolding empty_graph
empty_graph-IsBuilt ids n = record {
  adjacency_at = λ u. get-const ids [] u;
  in_degree_at = λ v. get-const ids 0 v;
  adjacency_keys = rw (keys-const {V = List String} ids []) n;
  in_degree_keys = rw (keys-const {V = ℕ} ids 0) n;
}

modify_total {ℓ} :
    {V : Type ℓ} (d : Dict String V) (k : String) (f : V → V) (v : V)
    → Dict.get d k ≡ some v
    → modify d k f ≡ ok (Dict.put d k (f v))
unfolding modify
modify_total d k f v h = rw (h, modify) refl

module _ (ids : List String) where
  -- One round of the loop, on an edge between nodes: it does not fail, and the graph holds the edge.
  pub add_edge-IsBuilt :
      (edges : List DagEdge) (edge : DagEdge) (g : Graph)
      → IsBuilt ids edges g
      → IsKnown ids edge
      → (g' : Graph) × (add_edge g edge ≡ ok g') × IsBuilt ids (edges ++ edge ∷ []) g'
  unfolding add_edge
  add_edge-IsBuilt edges edge g b k =
      let adj = targets edge.source edges in
      let deg = pending [] edge.target edges in
      let at_source : Dict.get g.adjacency edge.source ≡ some adj =
        rw (b.adjacency_at edge.source, k.0) refl in
      let at_target : Dict.get g.in_degree edge.target ≡ some deg =
        rw (b.in_degree_at edge.target, k.1) refl in
      (
        record {
          adjacency = Dict.put g.adjacency edge.source (adj ++ edge.target ∷ []);
          in_degree = Dict.put g.in_degree edge.target (deg + 1);
        },
        rw (modify_total _ _ _ _ at_source, modify_total _ _ _ _ at_target) refl,
        record {
          adjacency_at = λ u. ground (
            arith,
            get-put g.adjacency edge.source u (adj ++ edge.target ∷ []),
            b.adjacency_at u,
            targets-snoc u edges edge,
            string_eq.beq_iff edge.source u,
            k.0,
          );
          in_degree_at = λ v. ground (
            arith,
            get-put g.in_degree edge.target v (deg + 1),
            b.in_degree_at v,
            pending-append [] v edges (edge ∷ []),
            string_eq.beq_iff edge.target v,
            k.1,
          );
          adjacency_keys =
              rw (keys-put g.adjacency edge.source (adj ++ edge.target ∷ []) adj at_source)
                b.adjacency_keys;
          in_degree_keys =
              rw (keys-put g.in_degree edge.target (deg + 1) deg at_target) b.in_degree_keys;
        },
      )

  -- The whole loop over edges between nodes.
  pub add_edges-IsBuilt :
      (done edges : List DagEdge) (g : Graph)
      → IsBuilt ids done g
      → All (IsKnown ids) edges
      → (g' : Graph) × (add_edges ids edges g ≡ ok g') × IsBuilt ids (done ++ edges) g'
  unfolding add_edges
  add_edges-IsBuilt done [] g b k = (g, refl, rw append-nil b)
  add_edges-IsBuilt done (edge ∷ edges) g b k =
      let (g₁, step, b₁) = add_edge-IsBuilt done edge g b k.0 in
      let (g₂, rest, b₂) = add_edges-IsBuilt (done ++ edge ∷ []) edges g₁ b₁ k.1 in
      (g₂, rw (k.0.0, k.0.1, step) rest, rw append_assoc at b₂)

  -- The loop only returns if every edge is between nodes.
  pub add_edges-IsKnown :
      (edges : List DagEdge) (g g' : Graph)
      → add_edges ids edges g ≡ ok g'
      → All (IsKnown ids) edges
  unfolding add_edges
  add_edges-IsKnown [] g g' h = tt
  add_edges-IsKnown (edge ∷ edges) g g' h =
      let (source, h₁) =
        reject_if-eq-ok (not (mem edge.source ids)) (dag_invalid (unknown_source edge.source)) _
          h in
      let (target, h₂) =
        reject_if-eq-ok (not (mem edge.target ids)) (dag_invalid (unknown_target edge.target)) _
          h₁ in
      let (g₁, step, h₃) = bind-eq-ok (add_edge g edge) (add_edges ids edges) h₂ in
      ((ground arith, ground arith), add_edges-IsKnown edges g₁ g' h₃)
