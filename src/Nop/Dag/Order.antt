-- ===== src/Nop/Dag/Order.antt =====
-- What `sort_nodes` returns, said of the edges alone (nop/validation.py, DagValidator.validate): a
-- topological order if there is one, and the cycle error only if there is none.
use nps_sdk_python.Prelude.{
  ℕ, zero, suc, ◌<◌, String, ◌≡◌, refl, true, none, some, List, [], ◌∷◌, ◌++◌, map, ok, err, ◌==◌,
  if◌then◌else◌, length, mem, length-le_of_Nodup, mem_of_full, Nodup, string_eq, arith, All,
}
use mathlib.Core.List.{append_assoc, append-nil}
use nps_sdk_python.Prelude.Dict
use nps_sdk_python.Prelude.Dict.{Dict, holds, mem-keys_where, Nodup-keys_where}
use nps_sdk_python.Nop.Dag.{DagEdge, Graph, pos, to_count, sort_nodes, dag_cycle}
use nps_sdk_python.Nop.Dag.Build.{pending, IsKnown, IsBuilt}
use nps_sdk_python.Nop.Dag.Kahn.{IsCounted, IsSorted, OrderedFrom, kahn_total}

-- `order` lists the nodes, each once, and the source of every edge stands before its target.
pub record IsTopological (ids : List String) (edges : List DagEdge) (order : List String)
    : Type 0 where
  pub lists : (v : String) → mem v order ≡ mem v ids
  pub once : Nodup order
  pub forward :
      All
        (λ edge.
          (before after : List String)
          → order ≡ before ++ edge.target ∷ after
          → mem edge.source before ≡ true)
        edges

-- A number for each node that grows along every edge: there is one exactly if no cycle is there.
abbrev pub IsRank : List DagEdge → (String → ℕ) → Type 0
IsRank edges rank = All (λ edge. rank edge.source < rank edge.target) edges

get-counts :
    (d : Dict String ℕ) (v : String)
    → Dict.get (map to_count d) v ≡ elim (Dict.get d v) [ none ↦ none | some n ↦ some (pos n) ]
unfolding Dict.get
get-counts [] v = refl
get-counts ((k, n) ∷ d) v = ground (arith, get-counts d v)

start-IsCounted :
    (ids : List String) (edges : List DagEdge) (g : Graph)
    → IsBuilt ids edges g
    → IsCounted ids
        (λ v. pending [] v edges)
        []
        (map to_count g.in_degree)
        (Dict.keys_where (λ d. d == 0) g.in_degree)
start-IsCounted ids edges g b = record {
  remaining_at = λ v. ground (arith, get-counts g.in_degree v, b.in_degree_at v);
  queued_iff = λ v.
      ground (arith, mem-keys_where (λ d. d == 0) g.in_degree v b.in_degree_keys, b.in_degree_at v);
  once = Nodup-keys_where (λ d. d == 0) g.in_degree b.in_degree_keys;
}

-- The loop ends within its fuel and without a KeyError; what is left to test is the length.
pub sort_nodes_lem :
    (ids : List String) (edges : List DagEdge) (g : Graph)
    → IsBuilt ids edges g
    → All (IsKnown ids) edges
    → (order : List String) × IsSorted ids edges order
      × (sort_nodes ids g ≡ (if length order == length ids then ok order else err dag_cycle))
unfolding sort_nodes
sort_nodes_lem ids edges g b known =
    let (order, run, sorted) =
      kahn_total ids edges g.adjacency known b.adjacency_at (length ids) (map to_count g.in_degree)
        (Dict.keys_where (λ d. d == 0) g.in_degree) [] (start-IsCounted ids edges g b) tt
        (omega arith) in
    (order, sorted, rw run refl)

OrderedFrom-at :
    (edges : List DagEdge) (done before : List String) (v : String) (after : List String)
    → OrderedFrom edges done (before ++ v ∷ after)
    → pending (done ++ before) v edges ≡ 0
OrderedFrom-at edges done [] v after o = rw append-nil o.0
OrderedFrom-at edges done (u ∷ before) v after o =
    let h : pending ((done ++ u ∷ []) ++ before) v edges ≡ 0 =
      OrderedFrom-at edges (done ++ u ∷ []) before v after o.1 in
    rw append_assoc at h

-- No edge to `v` is pending exactly if every source of one is done.
sources-done :
    (edges : List DagEdge) (done : List String) (v : String)
    → pending done v edges ≡ 0
    → All (λ edge. edge.target ≡ v → mem edge.source done ≡ true) edges
sources-done [] done v z = tt
sources-done (e ∷ edges) done v z =
    ((λ t. ground (arith, string_eq.beq_iff e.target v)), sources-done edges done v (omega arith))

pending-zero :
    (edges : List DagEdge) (done : List String) (v : String)
    → All (λ edge. edge.target ≡ v → mem edge.source done ≡ true) edges
    → pending done v edges ≡ 0
pending-zero [] done v a = refl
pending-zero (e ∷ edges) done v a =
    ground (arith, pending-zero edges done v a.1, a.0, string_eq.beq_iff e.target v)

All-map {ℓ κ μ} :
    {A : Type ℓ} (P : A → Type κ) (Q : A → Type μ) (xs : List A)
    → ((x : A) → P x → Q x)
    → All P xs
    → All Q xs
All-map P Q [] f a = tt
All-map P Q (x ∷ xs) f a = (f x a.0, All-map P Q xs f a.1)

abbrev Forward : List String → DagEdge → Type 0
Forward order edge =
    (before after : List String)
    → order ≡ before ++ edge.target ∷ after
    → mem edge.source before ≡ true

module _ (ids : List String) (edges : List DagEdge) (order : List String)
    (s : IsSorted ids edges order) where
  edges_in_order :
      (some_edges : List DagEdge)
      → ((v : String) (before after : List String)
          → order ≡ before ++ v ∷ after
          → All (λ edge. edge.target ≡ v → mem edge.source before ≡ true) some_edges)
      → All (Forward order) some_edges
  edges_in_order [] h = tt
  edges_in_order (e ∷ rest) h = (
    λ before after split. (h e.target before after split).0 refl,
    edges_in_order rest (λ v before after split. (h v before after split).1),
  )

  -- Where every node was listed, the list is a topological order.
  pub full-IsTopological : length order ≡ length ids → IsTopological ids edges order
  full-IsTopological full = record {
    lists = λ v. ground (
      arith,
      s.ready v,
      mem_of_full order ids s.once (λ a p. ground (arith, s.ready a)) (omega arith) v,
    );
    once = s.once;
    forward = edges_in_order edges (λ v before after split.
        sources-done edges before v
          (OrderedFrom-at edges [] before v after (rw split at s.ordered)));
  }

  ranked_sources :
      (rank : String → ℕ) (v : String) (n : ℕ)
      → rank v < suc n
      → ((u : String) → rank u < n → mem u ids ≡ true → mem u order ≡ true)
      → (some_edges : List DagEdge) → All (IsKnown ids) some_edges
      → IsRank some_edges rank
      → All (λ edge. edge.target ≡ v → mem edge.source order ≡ true) some_edges
  ranked_sources rank v n h ih [] known r = tt
  ranked_sources rank v n h ih (e ∷ rest) known r = (
    λ t. let below : rank e.target < suc n = rw t h in ih e.source (omega (arith, r.0)) known.0.0,
    ranked_sources rank v n h ih rest known.1 r.1,
  )

  -- Where a rank exists, every node was listed.
  ranked_below :
      (rank : String → ℕ) (known : All (IsKnown ids) edges)
      → IsRank edges rank
      → (n : ℕ) (v : String) → rank v < n
      → mem v ids ≡ true
      → mem v order ≡ true
  ranked_below rank known r zero v h m = elim h [ ]
  ranked_below rank known r (suc n) v h m =
      let none_pending : pending order v edges ≡ 0 =
        pending-zero edges order v
          (ranked_sources rank v n h (λ u. ranked_below rank known r n u) edges known r) in
      ground (arith, s.ready v)

  pub ranked_full :
      (rank : String → ℕ)
      → All (IsKnown ids) edges
      → Nodup ids
      → IsRank edges rank
      → length order ≡ length ids
  ranked_full rank known n r = omega (
    arith,
    length-le_of_Nodup order ids s.once (λ a p. ground (arith, s.ready a)),
    length-le_of_Nodup ids order n (λ a. ranked_below rank known r (suc (rank a)) a (omega arith)),
  )
