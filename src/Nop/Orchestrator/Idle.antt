-- ===== src/Nop/Orchestrator/Idle.antt =====
-- nps_sdk/nop/orchestrator.py, `_run_dag`: how the loop ends, and what a round that launches nothing
-- has found.
use nps_sdk_python.Prelude.{
  ℕ, ◌+◌, ◌≤◌, ◌≡◌, ◌⊎◌, inl, inr, refl, ap, subst, String, Bool, true, false, not, ◌&&◌, ◌||◌,
  List, [], ◌∷◌, ◌++◌, arith, leb, length, select, mem, eqb, eqb_refl, eqb→eq, string_eq,
  Bool-cases, if_intro, In, here, there,
}
use nps_sdk_python.Prelude.Dict
use nps_sdk_python.Prelude.Dict.{Dict, keys, holds, mem-keys}
use nps_sdk_python.Nop.Models.{DagNode, TaskDag, is_success, is_failure, is_empty}
use nps_sdk_python.Nop.Orchestrator.Plan.{States, count_deps, are_deps_done}
use nps_sdk_python.Nop.Orchestrator.Loop.{
  RunState, Event, completes, raises, writes, cancels, Run, waiting, ended, aborted,
  raised_cancelled, no_such_task, StoreCall, update_state, update_subtask, fail_dependency,
  dependency_failures, ids, all_nodes, is_hopeless, fail_node, fail_impossible, launch, ready,
  prepare, top, settle, must_abort, handle, run,
}

-- How a loop ends: every node has a state, or a round has left nothing in flight.
abbrev pub EndsBy {ℓ} : {V : Type ℓ} → ℕ → List DagNode → Run V → Type ℓ
EndsBy {V = V} max nodes (ended s) =
    (length nodes ≤ length (keys s.states))
    ⊎ ((s0 : RunState V) × (s ≡ prepare max nodes s0) × (is_empty s.in_flight ≡ true))
EndsBy max nodes _ = Unit

count-over :
    (states : States) (deps : List String)
    → ((d : String)
        → mem d deps ≡ true
        → (holds is_success (Dict.get states d) || holds is_failure (Dict.get states d)) ≡ true)
    → length deps ≤ count_deps is_success states deps + count_deps is_failure states deps
count-over states [] h = omega arith
count-over states (d ∷ deps) h =
    ground
      (arith, count-over states deps (λ e m. h e (ground (arith, m))), h d (rw (eqb_refl d) refl))

pub over-are_deps_done :
    (n : DagNode) (states : States)
    → ((d : String)
        → mem d n.input_from ≡ true
        → (holds is_success (Dict.get states d) || holds is_failure (Dict.get states d)) ≡ true)
    → are_deps_done n states ≡ true
unfolding are_deps_done
over-are_deps_done n states h = ground (arith, count-over states n.input_from h)

pub In-select :
    {A : Type 0} (p : A → Bool) (x : A) (xs : List A) → In x xs → select p xs ≡ [] → p x ≡ false
In-select p x xs here e = ground (arith, e)
In-select p x (y ∷ xs) (there i) e = ground (arith, e, In-select p x xs i)

pub node_of :
    (nodes : List DagNode) (k : String)
    → mem k (ids nodes) ≡ true
    → (n : DagNode) × In n nodes × (n.id ≡ k)
node_of [] k h = cc
node_of (n ∷ nodes) k h = elim (Bool-cases (eqb n.id k)) [
  | inl same ↦ (n, here, eqb→eq n.id k same)
  | inr other ↦ let (m, i, e) = node_of nodes k (ground (arith, h, other)) in (m, there i, e)
]

snoc_some : (xs : List DagNode) (x : DagNode) → is_empty (xs ++ x ∷ []) ≡ false
snoc_some [] x = refl
snoc_some (y ∷ xs) x = refl

snoc_none {ℓ} :
    {V : Type ℓ} (calls : List (StoreCall V)) (id : String)
    → dependency_failures (calls ++ fail_dependency id ∷ []) ≡ []
    → ⊥
snoc_none [] id h = cc
snoc_none (fail_dependency k ∷ calls) id h = cc
snoc_none (update_state state ∷ calls) id h = snoc_none calls id h
snoc_none (update_subtask k u ∷ calls) id h = snoc_none calls id h

full_some : (xs : List DagNode) → is_empty xs ≡ true → 1 ≤ length xs → ⊥
full_some [] e h = omega (arith, h)
full_some (x ∷ xs) e h = cc

module _ (max : ℕ) where
  launch_some :
      (ns in_flight : List DagNode)
      → is_empty in_flight ≡ false
      → is_empty (launch max ns in_flight) ≡ false
  unfolding launch
  launch_some [] in_flight h = h
  launch_some (n ∷ ns) in_flight h = elim (Bool-cases (leb max (length in_flight))) [
    | inl full ↦ rw (launch, full) h
    | inr room ↦ rw (launch, room) (launch_some ns (in_flight ++ n ∷ []) (snoc_some in_flight n))
  ]

  pub launch_none :
      (ns in_flight : List DagNode)
      → 1 ≤ max
      → is_empty (launch max ns in_flight) ≡ true
      → (ns ≡ []) × (in_flight ≡ [])
  unfolding launch
  launch_none [] [] one h = (refl, refl)
  launch_none [] (m ∷ ms) one h = cc
  launch_none (n ∷ ns) in_flight one h = elim (Bool-cases (leb max (length in_flight))) [
    | inl full ↦ absurd (full_some in_flight (rw (launch, full) at h) (ground (arith, full, one)))
    | inr room ↦ absurd (
        ground (
          arith,
          (rw (launch, room) at h),
          launch_some ns (in_flight ++ n ∷ []) (snoc_some in_flight n),
        ))
  ]

module _ {ℓ} {V : Type ℓ} (max : ℕ) where
  calls-fail_impossible :
      (ns : List DagNode) (s : RunState V)
      → dependency_failures (fail_impossible ns s).1.calls ≡ []
      → (dependency_failures s.calls ≡ []) × (fail_impossible ns s ≡ (ns, s))
  unfolding fail_impossible
  calls-fail_impossible [] s h = (h, refl)
  calls-fail_impossible (n ∷ ns) s h = elim (Bool-cases (is_hopeless n s.states)) [
    | inl hopeless ↦
        let (none_made, e) =
          calls-fail_impossible ns (fail_node n s) (rw (fail_impossible, hopeless) at h) in
        absurd (snoc_none s.calls n.id none_made)
    | inr able ↦
        let (none_made, e) = calls-fail_impossible ns s (rw (fail_impossible, able) at h) in
        (none_made, rw (fail_impossible, able) (ap (λ r. (n ∷ r.0, r.1)) e))
  ]

  -- A round that fails no node and leaves none in flight has found none that is ready.
  pub prepare_idle :
      (nodes : List DagNode) (s : RunState V)
      → 1 ≤ max
      → dependency_failures (prepare max nodes s).calls ≡ []
      → is_empty (prepare max nodes s).in_flight ≡ true
      → (ready nodes s ≡ []) × (s.in_flight ≡ []) × ((prepare max nodes s).states ≡ s.states)
  prepare_idle nodes s one silent idle =
      let (none_made, e) = calls-fail_impossible (ready nodes s) s silent in
      let (no_ready, none_left) =
        launch_none max (ready nodes s) s.in_flight one
          (subst (λ r. is_empty (launch max r.0 r.1.in_flight) ≡ true) e idle) in
      (no_ready, none_left, ap (λ r. r.1.states) e)

  pub top-EndsBy : (nodes : List DagNode) (s : RunState V) → EndsBy max nodes (top max nodes s)
  unfolding top
  top-EndsBy nodes s =
      let P : Run V → Type ℓ = EndsBy max nodes in
      if_intro P (leb (length nodes) (length (keys s.states))) (λ over. inl (ground (arith, over)))
        (λ more.
          if_intro P s.is_cancelled (λ stop. tt)
            (λ go.
              if_intro P (is_empty (prepare max nodes s).in_flight) (λ idle. inr (s, refl, idle))
                (λ busy. tt)))

  handle-EndsBy :
      (dag : TaskDag) (e : Event V) (s : RunState V)
      → EndsBy max (all_nodes dag) (handle max dag e s)
  unfolding handle
  handle-EndsBy dag cancels s = tt
  handle-EndsBy dag (writes id u) s =
      if_intro (EndsBy max (all_nodes dag)) (mem id (ids s.in_flight)) (λ here. tt) (λ stray. tt)
  handle-EndsBy dag (raises id) s =
      if_intro (EndsBy max (all_nodes dag)) (mem id (ids s.in_flight)) (λ here. tt) (λ stray. tt)
  handle-EndsBy dag (completes id o) s =
      let P : Run V → Type ℓ = EndsBy max (all_nodes dag) in
      if_intro P (not (mem id (ids s.in_flight))) (λ stray. tt)
        (λ here.
          if_intro P (is_failure o.state && must_abort dag id (settle id o s).states) (λ dead. tt)
            (λ alive. top-EndsBy (all_nodes dag) (settle id o s)))

  pub run-EndsBy :
      (dag : TaskDag) (events : List (Event V)) (r : Run V)
      → EndsBy max (all_nodes dag) r
      → EndsBy max (all_nodes dag) (run max dag events r)
  unfolding run
  run-EndsBy dag [] r h = h
  run-EndsBy dag (e ∷ events) (waiting s) h =
      run-EndsBy dag events (handle max dag e s) (handle-EndsBy dag e s)
  run-EndsBy dag (e ∷ events) (ended s) h = h
  run-EndsBy dag (e ∷ events) (aborted id s) h = h
  run-EndsBy dag (e ∷ events) (raised_cancelled s) h = h
  run-EndsBy dag (e ∷ events) no_such_task h = h
