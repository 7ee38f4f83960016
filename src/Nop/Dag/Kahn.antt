-- ===== src/Nop/Dag/Kahn.antt =====
-- The loop of Kahn's algorithm (nop/validation.py, DagValidator.validate): the counts that it keeps
-- are those of the edges still pending, and it ends within one round for each node.
use mathlib.Core.List.{append_assoc, append-nil}
use nps_sdk_python.Prelude.{
  ℕ, zero, suc, ◌+◌, ◌≤◌, String, ◌≡◌, refl, true, false, ◌&&◌, none, some, List, [], ◌∷◌, ◌++◌, ok,
  ◌==◌, if◌then◌else◌, length, length-append, mem, mem-append, length-le_of_Nodup, Nodup-snoc,
  Nodup, count, mem-middle, Nodup-middle, string_eq, eqb_refl, arith, All,
}
use nps_sdk_python.Prelude.Dict
use nps_sdk_python.Prelude.Dict.{Dict, get-put}
use nps_sdk_python.Nop.Dag.{DagEdge, Count, pos, visit, kahn}
use nps_sdk_python.Nop.Dag.Build.{targets, pending, pending-snoc, IsKnown}

-- Of each node, `remaining` counts `base` and the visits that are left, and a node has been queued
-- exactly if that count is 0.
pub record IsCounted (ids : List String) (base : String → ℕ) (left : List String)
    (remaining : Dict String Count) (queued : List String) : Type 0 where
  pub remaining_at :
      (v : String)
      → Dict.get remaining v ≡ (if mem v ids then some (pos (base v + count v left)) else none)
  pub queued_iff : (v : String) → mem v queued ≡ (mem v ids && (base v + count v left == 0))
  pub once : Nodup queued

abbrev with_ready : List String → String → ℕ → List String
with_ready queue t n = if n == 0 then queue ++ t ∷ [] else queue

module _ (ids : List String) (base : String → ℕ) where
  visit_step :
      (t : String) (left : List String) (remaining : Dict String Count) (queued : List String)
      → IsCounted ids base (t ∷ left) remaining queued
      → mem t ids ≡ true
      → IsCounted ids base left
          (Dict.put remaining t (pos (base t + count t left)))
          (with_ready queued t (base t + count t left))
  visit_step t left remaining queued c known = record {
    remaining_at = λ v. ground (
      arith,
      get-put remaining t v (pos (base t + count t left)),
      c.remaining_at v,
      string_eq.beq_iff t v,
      known,
    );
    queued_iff = λ v.
        ground (arith, c.queued_iff v, string_eq.beq_iff t v, mem-append v queued (t ∷ []), known);
    once = ground (arith, Nodup-snoc queued t c.once, c.queued_iff t, c.once, eqb_refl t);
  }

  visit_total :
      (left : List String) (remaining : Dict String Count) (queue sorted : List String)
      → All (λ t. mem t ids ≡ true) left
      → IsCounted ids base left remaining (sorted ++ queue)
      → (remaining' : Dict String Count) × (queue' : List String) × (visit left remaining queue
          ≡ ok (remaining', queue'))
        × IsCounted ids base [] remaining' (sorted ++ queue')
  unfolding visit
  visit_total [] remaining queue sorted k c = (remaining, queue, refl, c)
  visit_total (t ∷ left) remaining queue sorted k c =
      let n : ℕ = base t + count t left in
      let moved : with_ready (sorted ++ queue) t n ≡ sorted ++ with_ready queue t n =
        ground (arith, append_assoc sorted queue (t ∷ [])) in
      let found : Dict.get remaining t ≡ some (pos (suc n)) =
        ground (arith, c.remaining_at t, eqb_refl t, k.0) in
      let c' = visit_step t left remaining (sorted ++ queue) c k.0 in
      let (remaining', queue', run, c'') =
        visit_total left (Dict.put remaining t (pos n)) (with_ready queue t n) sorted k.1
          (rw moved at c') in
      (remaining', queue', rw (found, visit) run, c'')

-- Every node of `order` comes when no edge that arrives there is pending, `done` being listed first.
abbrev pub OrderedFrom : List DagEdge → List String → List String → Type 0
OrderedFrom edges done [] = Unit
OrderedFrom edges done (v ∷ order) =
    (pending done v edges ≡ 0) × OrderedFrom edges (done ++ v ∷ []) order

OrderedFrom-snoc :
    (edges : List DagEdge) (done order : List String) (v : String)
    → OrderedFrom edges done order
    → pending (done ++ order) v edges ≡ 0
    → OrderedFrom edges done (order ++ v ∷ [])
OrderedFrom-snoc edges done [] v o z = (rw append-nil at z, tt)
OrderedFrom-snoc edges done (u ∷ order) v o z =
    (o.0, OrderedFrom-snoc edges (done ++ u ∷ []) order v o.1 (rw append_assoc z))

targets-known :
    (ids : List String) (u : String) (edges : List DagEdge)
    → All (IsKnown ids) edges
    → All (λ t. mem t ids ≡ true) (targets u edges)
targets-known ids u [] k = tt
targets-known ids u (e ∷ edges) k = ground (arith, targets-known ids u edges k.1, k.0)

-- What the loop returns: every node that no pending edge holds back, once, in order.
pub record IsSorted (ids : List String) (edges : List DagEdge) (order : List String) : Type 0 where
  pub ordered : OrderedFrom edges [] order
  pub once : Nodup order
  pub ready : (v : String) → mem v order ≡ (mem v ids && (pending order v edges == 0))

module _ (ids : List String) (edges : List DagEdge) (adjacency : Dict String (List String))
    (known : All (IsKnown ids) edges)
    (adjacency_at : (u : String)
      → Dict.get adjacency u ≡ (if mem u ids then some (targets u edges) else none)) where
  -- A node is taken off the queue: its own edges become the visits that are left.
  pop_IsCounted :
      (remaining : Dict String Count) (cur : String) (queue sorted : List String)
      → IsCounted ids (λ v. pending sorted v edges) [] remaining (sorted ++ cur ∷ queue)
      → mem cur sorted ≡ false
      → IsCounted ids
          (λ v. pending (sorted ++ cur ∷ []) v edges)
          (targets cur edges)
          remaining
          ((sorted ++ cur ∷ []) ++ queue)
  pop_IsCounted remaining cur queue sorted c new = record {
    remaining_at = λ v. ground (arith, c.remaining_at v, pending-snoc sorted cur v edges new);
    queued_iff =
        λ v. rw append_assoc (ground (arith, c.queued_iff v, pending-snoc sorted cur v edges new));
    once = rw append_assoc c.once;
  }

  pub kahn_total :
      (fuel : ℕ) (remaining : Dict String Count) (queue sorted : List String)
      → IsCounted ids (λ v. pending sorted v edges) [] remaining (sorted ++ queue)
      → OrderedFrom edges [] sorted
      → length ids ≤ fuel + length sorted
      → (order : List String) × (kahn fuel adjacency remaining queue sorted ≡ ok order)
        × IsSorted ids edges order
  unfolding kahn
  kahn_total fuel remaining [] sorted c o enough =
      let c' : IsCounted ids (λ v. pending sorted v edges) [] remaining sorted =
        rw append-nil at c in
      (
        sorted,
        refl,
        record { ordered = o; once = c'.once; ready = λ v. ground (arith, c'.queued_iff v) },
      )
  kahn_total zero remaining (cur ∷ queue) sorted c o enough =
      let all_known : (v : String) → mem v (sorted ++ cur ∷ queue) ≡ true → mem v ids ≡ true =
        λ v m. ground (arith, c.queued_iff v) in
      absurd (
        omega (
          arith,
          length-le_of_Nodup (sorted ++ cur ∷ queue) ids c.once all_known,
          length-append {0} sorted (cur ∷ queue),
        ))
  kahn_total (suc fuel) remaining (cur ∷ queue) sorted c o enough =
      let here = mem-middle sorted cur queue in
      let new = Nodup-middle sorted cur queue c.once in
      let node : mem cur ids ≡ true = ground (arith, c.queued_iff cur) in
      let free : pending sorted cur edges ≡ 0 = ground (arith, c.queued_iff cur) in
      let found : Dict.get adjacency cur ≡ some (targets cur edges) =
        rw (adjacency_at cur, node) refl in
      let (remaining', queue', visited, c') =
        visit_total ids (λ v. pending (sorted ++ cur ∷ []) v edges) (targets cur edges) remaining
          queue (sorted ++ cur ∷ []) (targets-known ids cur edges known)
          (pop_IsCounted remaining cur queue sorted c new) in
      let counted : IsCounted ids (λ v. pending (sorted ++ cur ∷ []) v edges) [] remaining'
          ((sorted ++ cur ∷ []) ++ queue') =
        c' in
      let (order, run, done) =
        kahn_total fuel remaining' queue' (sorted ++ cur ∷ []) counted
          (OrderedFrom-snoc edges [] sorted cur o free)
          (omega (arith, enough, length-append {0} sorted (cur ∷ []))) in
      (order, rw (found, visited, kahn) run, done)
