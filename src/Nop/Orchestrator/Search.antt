-- ===== src/Nop/Orchestrator/Search.antt =====
-- nps_sdk/nop/orchestrator.py, `_can_reach_end_node`: the breadth-first search finds the end node
-- exactly if a path of edges leads there.
use nps_sdk_python.Prelude.{
  ℕ, zero, suc, ◌+◌, ◌≤◌, ◌≡◌, refl, sym, ◌↔◌, inl, inr, String, true, false, ◌||◌, List, [], ◌∷◌,
  ◌++◌, arith, length, length-append, mem, mem-append, eqb, eqb_refl, eqb→eq, string_eq, Bool-cases,
  if◌then◌else◌,
}
use nps_sdk_python.Nop.Models.{DagEdge}
use nps_sdk_python.Nop.Orchestrator.Plan.{targets, search, can_reach_end_node}

-- A path of edges.
pub data Reaches (edges : List DagEdge) (goal : String) : String → Type 0 where
  arrived : Reaches edges goal goal
  step :
      {v w : String} → mem w (targets edges v) ≡ true → Reaches edges goal w → Reaches edges goal v

-- What the search has found comes from the queue.
search_sound :
    (fuel : ℕ) (edges : List DagEdge) (goal : String) (visited queue : List String)
    → search fuel edges goal visited queue ≡ true
    → (v : String) × (mem v queue ≡ true) × Reaches edges goal v
unfolding search
search_sound zero edges goal visited queue h = cc
search_sound (suc fuel) edges goal visited [] h = cc
search_sound (suc fuel) edges goal visited (cur ∷ queue) h = elim (Bool-cases (eqb cur goal)) [
  | inl same ↦ (cur, rw (eqb_refl cur) refl, rw (eqb→eq cur goal same) arrived)
  | inr other ↦ elim (Bool-cases (mem cur visited)) [
    | inl seen ↦
        let (v, m, r) =
          search_sound fuel edges goal visited queue (rw (search, other, seen) at h) in
        (v, ground arith, r)
    | inr unseen ↦
        let (v, m, r) =
          search_sound fuel edges goal (cur ∷ visited) (queue ++ targets edges cur)
            (rw (search, other, unseen) at h) in
        elim (Bool-cases (mem v queue)) [
          | inl there ↦ (v, ground arith, r)
          | inr absent ↦ (
            cur,
            rw (eqb_refl cur) refl,
            step (ground (arith, mem-append v queue (targets edges cur))) r,
          )
        ]
  ]
]

-- The edges whose source is still to be visited.
abbrev unvisited : List String → List DagEdge → ℕ
unvisited visited [] = 0
unvisited visited (e ∷ edges) = (if mem e.source visited then 0 else 1) + unvisited visited edges

-- Visiting a node moves its edges into the queue.
unvisited-visit :
    (edges : List DagEdge) (visited : List String) (cur : String)
    → mem cur visited ≡ false
    → unvisited (cur ∷ visited) edges + length (targets edges cur) ≡ unvisited visited edges
unvisited-visit [] visited cur h = omega arith
unvisited-visit (e ∷ edges) visited cur h = ground (
  arith,
  unvisited-visit edges visited cur h,
  eqb→eq e.source cur,
  string_eq.beq_iff cur e.source,
)

unvisited_nil : (edges : List DagEdge) → unvisited [] edges ≡ length edges
unvisited_nil [] = refl
unvisited_nil (e ∷ edges) = omega (arith, unvisited_nil edges)

-- The edges out of `visited` lead into `visited` or `queue`.
abbrev IsClosed : List DagEdge → List String → List String → Type 0
IsClosed edges visited queue =
    (v w : String)
    → mem v visited ≡ true
    → mem w (targets edges v) ≡ true
    → (mem w visited || mem w queue) ≡ true

-- A set that the edges do not leave, that holds the queue and not the goal.
record IsBarrier (edges : List DagEdge) (goal : String) (visited queue barrier : List String)
    : Type 0 where
  closed : IsClosed edges barrier []
  apart : mem goal barrier ≡ false
  holds_visited : (v : String) → mem v visited ≡ true → mem v barrier ≡ true
  holds_queue : (v : String) → mem v queue ≡ true → mem v barrier ≡ true

-- A search that fails within its fuel has found a barrier.
search_failed :
    (fuel : ℕ) (edges : List DagEdge) (goal : String) (visited queue : List String)
    → length queue + unvisited visited edges ≤ fuel
    → IsClosed edges visited queue
    → mem goal visited ≡ false
    → search fuel edges goal visited queue ≡ false
    → (barrier : List String) × IsBarrier edges goal visited queue barrier
unfolding search
search_failed zero edges goal visited [] enough closed apart h = (
  visited,
  record {
    closed = closed;
    apart = apart;
    holds_visited = λ v m. m;
    holds_queue = λ v m. absurd (ground (arith, m));
  },
)
search_failed zero edges goal visited (cur ∷ queue) enough closed apart h =
    absurd (omega (arith, enough))
search_failed (suc fuel) edges goal visited [] enough closed apart h = (
  visited,
  record {
    closed = closed;
    apart = apart;
    holds_visited = λ v m. m;
    holds_queue = λ v m. absurd (ground (arith, m));
  },
)
search_failed (suc fuel) edges goal visited (cur ∷ queue) enough closed apart h =
    elim (Bool-cases (eqb cur goal)) [
      | inl same ↦ absurd (ground (arith, (rw (search, same) at h)))
      | inr other ↦ elim (Bool-cases (mem cur visited)) [
        | inl seen ↦
            let (barrier, b) =
              search_failed fuel edges goal visited queue (omega (arith, enough))
                (λ v w m t. ground (arith, closed v w m t, eqb→eq cur w)) apart
                (rw (search, other, seen) at h) in
            (
              barrier,
              record {
                closed = b.closed;
                apart = b.apart;
                holds_visited = b.holds_visited;
                holds_queue =
                    λ v m. ground (arith, m, b.holds_queue v, b.holds_visited v, eqb→eq cur v);
              },
            )
        | inr unseen ↦
            let (barrier, b) =
              search_failed fuel edges goal (cur ∷ visited) (queue ++ targets edges cur)
                (omega (
                  arith,
                  enough,
                  unvisited-visit edges visited cur unseen,
                  length-append queue (targets edges cur),
                ))
                (λ v w m t. ground (
                  arith,
                  m,
                  t,
                  closed v w,
                  eqb→eq cur v,
                  eqb→eq cur w,
                  mem-append w queue (targets edges cur),
                ))
                (ground (arith, apart, other)) (rw (search, other, unseen) at h) in
            (
              barrier,
              record {
                closed = b.closed;
                apart = b.apart;
                holds_visited = λ v m. b.holds_visited v (ground (arith, m));
                holds_queue = λ v m. ground (
                  arith,
                  m,
                  b.holds_queue v,
                  b.holds_visited v,
                  mem-append v queue (targets edges cur),
                );
              },
            )
      ]
    ]

-- No path crosses a barrier.
barrier-blocks :
    (edges : List DagEdge) (goal : String) (barrier : List String)
    → IsClosed edges barrier []
    → mem goal barrier ≡ false
    → {v : String} → Reaches edges goal v
    → mem v barrier ≡ false
barrier-blocks edges goal barrier closed apart arrived = apart
barrier-blocks edges goal barrier closed apart (step {v} {w} e r) =
    ground (arith, closed v w, e, barrier-blocks edges goal barrier closed apart r)

-- The search answers true exactly if a path of edges leads from the failed node to the end node.
pub can_reach_end_node_iff :
    (edges : List DagEdge) (goal start : String)
    → (can_reach_end_node goal start edges ≡ true) ↔ Reaches edges goal start
unfolding can_reach_end_node
can_reach_end_node_iff edges goal start = (
  (λ h.
      let (v, m, r) = search_sound (suc (length edges)) edges goal [] (start ∷ []) h in
      elim (Bool-cases (eqb start v)) [
        | inl same ↦ rw (sym (eqb→eq start v same)) at r
        | inr other ↦ absurd (ground (arith, m))
      ]),
  λ r. elim (Bool-cases (can_reach_end_node goal start edges)) [
    | inl found ↦ found
    | inr lost ↦
        let (barrier, b) =
          search_failed (suc (length edges)) edges goal [] (start ∷ [])
            (omega (arith, unvisited_nil edges)) (λ v w m t. absurd (ground (arith, m))) refl
            lost in
        absurd (
          ground (
            arith,
            barrier-blocks edges goal barrier b.closed b.apart r,
            b.holds_queue start (rw (eqb_refl start) refl),
          ))
  ],
)
