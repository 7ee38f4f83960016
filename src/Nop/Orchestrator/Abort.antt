-- ===== src/Nop/Orchestrator/Abort.antt =====
-- nps_sdk/nop/orchestrator.py, `_run_dag`: why a task is aborted.
use nps_sdk_python.Prelude.{
  ℕ, ◌+◌, ◌-◌, ◌<◌, ◌≡◌, ◌⊎◌, refl, subst, String, Bool, true, false, not, ◌&&◌, some, inl, inr,
  List, [], ◌∷◌, arith, leb, length, any, mem, eqb_refl, string_eq, Bool-cases, if◌then◌else◌,
  if_intro, In, here, there,
}
use nps_sdk_python.Prelude.Dict
use nps_sdk_python.Prelude.Dict.{Dict, holds, get-put, keys_where}
use nps_sdk_python.Nop.Models.{DagNode, TaskDag, TaskState, failed, is_failure, is_empty}
use nps_sdk_python.Nop.Orchestrator.Plan.{
  States, required, failures, can_end_node_still_succeed, can_reach_end_node,
}
use nps_sdk_python.Nop.Orchestrator.Search.{Reaches, can_reach_end_node_iff}
use nps_sdk_python.Nop.Orchestrator.Loop.{
  RunState, Event, completes, raises, writes, cancels, Run, waiting, ended, aborted,
  raised_cancelled, no_such_task, ids, all_nodes, end_nodes, prepare, start, top, settle,
  must_abort, handle, run, run_loop,
}

-- Why a task was aborted: the node has failed, and for some end node behind it the failed ones among
-- its direct dependencies leave fewer than its K.
abbrev HasCause {ℓ} : {V : Type ℓ} → TaskDag → Run V → Type 0
HasCause dag (aborted id s) =
    (Dict.get s.states id ≡ some failed)
    × (e : DagNode) × In e (end_nodes dag)
    × Reaches dag.edges e.id id
    × ((e.input_from ≡ []) ⊎ (length e.input_from < required e + failures s.states e))
HasCause dag _ = Unit

any-In :
    {A : Type 0} (p : A → Bool) (xs : List A) → any p xs ≡ true → (x : A) × In x xs × (p x ≡ true)
any-In p [] h = cc
any-In p (x ∷ xs) h = elim (Bool-cases (p x)) [
  | inl found ↦ (x, here, found)
  | inr other ↦ let (y, i, t) = any-In p xs (ground (arith, h, other)) in (y, there i, t)
]

lost_end :
    (e : DagNode) (states : States)
    → can_end_node_still_succeed e states ≡ false
    → (e.input_from ≡ []) ⊎ (length e.input_from < required e + failures states e)
unfolding can_end_node_still_succeed
lost_end e states h =
    elim e.input_from
        as (λ deps.
          (if is_empty deps then false else leb (required e) (length deps - failures states e))
            ≡ false
          → (deps ≡ []) ⊎ (length deps < required e + failures states e)) [
            | [] ↦ λ h. inl refl
            | d ∷ deps ↦ λ h. inr (ground (arith, h))
          ]
      h

is_failure-eq : (s : TaskState) → is_failure s ≡ true → s ≡ failed
is_failure-eq s h = ground (arith, h)

must_abort-cause :
    (dag : TaskDag) (id : String) (states : States)
    → must_abort dag id states ≡ true
    → (e : DagNode) × In e (end_nodes dag)
      × Reaches dag.edges e.id id
      × ((e.input_from ≡ []) ⊎ (length e.input_from < required e + failures states e))
unfolding must_abort
must_abort-cause dag id states h =
    let (e, i, t) =
      any-In
        (λ e. can_reach_end_node e.id id dag.edges && not (can_end_node_still_succeed e states))
        (end_nodes dag) h in
    (
      e,
      i,
      (can_reach_end_node_iff dag.edges e.id id).0 (ground (arith, t)),
      lost_end e states (ground (arith, t)),
    )

module _ {ℓ} {V : Type ℓ} (max : ℕ) (dag : TaskDag) where
  top-HasCause : (nodes : List DagNode) (s : RunState V) → HasCause dag (top max nodes s)
  unfolding top
  top-HasCause nodes s =
      let P : Run V → Type 0 = HasCause dag in
      if_intro P (leb (length nodes) (length (Dict.keys s.states))) (λ over. tt)
        (λ more.
          if_intro P s.is_cancelled (λ stop. tt)
            (λ go. if_intro P (is_empty (prepare max nodes s).in_flight) (λ idle. tt) (λ busy. tt)))

  handle-HasCause : (e : Event V) (s : RunState V) → HasCause dag (handle max dag e s)
  unfolding handle settle
  handle-HasCause cancels s = tt
  handle-HasCause (writes id u) s =
      if_intro (HasCause dag) (mem id (ids s.in_flight)) (λ here. tt) (λ stray. tt)
  handle-HasCause (raises id) s =
      if_intro (HasCause dag) (mem id (ids s.in_flight)) (λ here. tt) (λ stray. tt)
  handle-HasCause (completes id o) s =
      let P : Run V → Type 0 = HasCause dag in
      if_intro P (not (mem id (ids s.in_flight))) (λ stray. tt)
        (λ here.
          if_intro P (is_failure o.state && must_abort dag id (settle id o s).states)
            (λ dead.
              let (e, i, path, lost) =
                must_abort-cause dag id (settle id o s).states (ground (arith, dead)) in
              (
                ground (
                  arith,
                  get-put s.states id id o.state,
                  eqb_refl id,
                  dead,
                  is_failure-eq o.state,
                ),
                e,
                i,
                path,
                lost,
              ))
            (λ alive. top-HasCause (all_nodes dag) (settle id o s)))

  run-HasCause :
      (events : List (Event V)) (r : Run V) → HasCause dag r → HasCause dag (run max dag events r)
  unfolding run
  run-HasCause [] r h = h
  run-HasCause (e ∷ events) (waiting s) h =
      run-HasCause events (handle max dag e s) (handle-HasCause e s)
  run-HasCause (e ∷ events) (ended s) h = h
  run-HasCause (e ∷ events) (aborted id s) h = h
  run-HasCause (e ∷ events) (raised_cancelled s) h = h
  run-HasCause (e ∷ events) no_such_task h = h

  -- A task is aborted only for a cause: the node that ended has failed, a path of edges leads from it
  -- to an end node, and that node has no dependencies or so many failed ones that the rest is fewer
  -- than its K.
  pub run_loop-abort :
      (events : List (Event V)) (id : String) (s : RunState V)
      → run_loop max dag events ≡ aborted id s
      → (Dict.get s.states id ≡ some failed)
        × (e : DagNode) × In e (end_nodes dag)
        × Reaches dag.edges e.id id
        × ((e.input_from ≡ []) ⊎ (length e.input_from < required e + failures s.states e))
  unfolding run_loop
  run_loop-abort events id s h =
      subst (HasCause dag) h
        (run-HasCause events (top max (all_nodes dag) start) (top-HasCause (all_nodes dag) start))
