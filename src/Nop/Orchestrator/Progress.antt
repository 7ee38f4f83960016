-- ===== src/Nop/Orchestrator/Progress.antt =====
-- nps_sdk/nop/orchestrator.py, `_run_dag`: the loop ends. Every outcome gives a node its state, and
-- no node gets two.
use nps_sdk_python.Prelude.{
  ℕ, suc, ◌+◌, ◌≤◌, ◌<◌, ◌≡◌, ◌≢◌, refl, subst, String, true, false, not, ◌&&◌, inl, inr, List, [],
  ◌∷◌, arith, leb, length, mem, length-le_of_Nodup, eqb_refl, eqb→eq, string_eq, Bool-cases,
  if_intro,
}
use nps_sdk_python.Prelude.Dict
use nps_sdk_python.Prelude.Dict.{Dict, keys}
use nps_sdk_python.Nop.Models.{DagNode, TaskDag, TaskState, is_failure, is_empty}
use nps_sdk_python.Nop.Orchestrator.Plan.{States}
use nps_sdk_python.Nop.Orchestrator.Loop.{
  RunState, Event, completes, raises, writes, cancels, Run, waiting, ended, aborted,
  raised_cancelled, no_such_task, ids, all_nodes, start, is_hopeless, fail_node, fail_impossible,
  ready, prepare, top, settle, must_abort, handle, run, run_loop,
}
use nps_sdk_python.Nop.Orchestrator.Invariant.{IsSound, length-ids, Nodup-ids}
use nps_sdk_python.Nop.Orchestrator.Reached.{
  IsSoundRun, top-IsSoundRun, handle-IsSoundRun, start-IsSound, run_loop-IsSoundRun,
}

-- The outcomes in a schedule.
abbrev pub outcomes {ℓ} : {V : Type ℓ} → List (Event V) → ℕ
outcomes [] = 0
outcomes (completes id o ∷ events) = suc (outcomes events)
outcomes (raises id ∷ events) = outcomes events
outcomes (writes id u ∷ events) = outcomes events
outcomes (cancels ∷ events) = outcomes events

-- A bound from below on the states of a loop that still waits.
abbrev HasAtLeast {ℓ} : {V : Type ℓ} → ℕ → Run V → Type 0
HasAtLeast bound (waiting s) = bound ≤ length (keys s.states)
HasAtLeast bound _ = Unit

length-keys-put_le :
    (d : States) (k : String) (v : TaskState) → length (keys d) ≤ length (keys (Dict.put d k v))
unfolding keys Dict.put
length-keys-put_le [] k v = omega arith
length-keys-put_le ((j, w) ∷ d) k v = ground (arith, length-keys-put_le d k v)

length-keys-put :
    (d : States) (k : String) (v : TaskState)
    → mem k (keys d) ≡ false
    → length (keys (Dict.put d k v)) ≡ suc (length (keys d))
unfolding keys Dict.put
length-keys-put [] k v h = refl
length-keys-put ((j, w) ∷ d) k v h = ground (arith, length-keys-put d k v)

-- The bound that a schedule raises.
credit {ℓ} : {V : Type ℓ} → Event V → ℕ → ℕ
credit (completes id o) bound = suc bound
credit (raises id) bound = bound
credit (writes id u) bound = bound
credit cancels bound = bound

tally {ℓ} : {V : Type ℓ} → List (Event V) → ℕ → ℕ
tally [] bound = bound
tally (e ∷ events) bound = tally events (credit e bound)

outcomes-tally {ℓ} :
    {V : Type ℓ} (events : List (Event V)) (bound : ℕ)
    → tally events bound ≡ outcomes events + bound
unfolding tally credit
outcomes-tally [] bound = omega arith
outcomes-tally (completes id o ∷ events) bound = omega (arith, outcomes-tally events (suc bound))
outcomes-tally (raises id ∷ events) bound = outcomes-tally events bound
outcomes-tally (writes id u ∷ events) bound = outcomes-tally events bound
outcomes-tally (cancels ∷ events) bound = outcomes-tally events bound

some_id : (ns : List DagNode) → is_empty ns ≡ false → (k : String) × (mem k (ids ns) ≡ true)
some_id [] h = cc
some_id (n ∷ ns) h = (n.id, rw (eqb_refl n.id) refl)

module _ {ℓ} {V : Type ℓ} (max : ℕ) where
  length-fail_impossible :
      (ns : List DagNode) (s : RunState V)
      → length (keys s.states) ≤ length (keys (fail_impossible ns s).1.states)
  unfolding fail_impossible
  length-fail_impossible [] s = omega arith
  length-fail_impossible (n ∷ ns) s = elim (Bool-cases (is_hopeless n s.states)) [
    | inl hopeless ↦
        rw (fail_impossible, hopeless)
          (omega (
            arith,
            length-fail_impossible ns (fail_node n s),
            length-keys-put_le s.states n.id TaskState.failed,
          ))
    | inr able ↦ rw (fail_impossible, able) (length-fail_impossible ns s)
  ]

  top-HasAtLeast :
      (nodes : List DagNode) (bound : ℕ) (s : RunState V)
      → bound ≤ length (keys s.states)
      → HasAtLeast bound (top max nodes s)
  unfolding top
  top-HasAtLeast nodes bound s h =
      let P : Run V → Type 0 = HasAtLeast bound in
      if_intro P (leb (length nodes) (length (keys s.states))) (λ over. tt)
        (λ more.
          if_intro P s.is_cancelled (λ stop. tt)
            (λ go.
              if_intro P (is_empty (prepare max nodes s).in_flight) (λ idle. tt)
                (λ busy. omega (arith, h, length-fail_impossible (ready nodes s) s))))

  handle-HasAtLeast :
      (dag : TaskDag) (e : Event V) (bound : ℕ) (s : RunState V)
      → IsSoundRun max (all_nodes dag) (waiting s)
      → bound ≤ length (keys s.states)
      → HasAtLeast (credit e bound) (handle max dag e s)
  unfolding handle settle credit
  handle-HasAtLeast dag cancels bound s i h = h
  handle-HasAtLeast dag (writes id u) bound s i h =
      if_intro (HasAtLeast bound) (mem id (ids s.in_flight)) (λ here. h) (λ stray. tt)
  handle-HasAtLeast dag (raises id) bound s i h =
      if_intro (HasAtLeast bound) (mem id (ids s.in_flight)) (λ here. tt) (λ stray. tt)
  handle-HasAtLeast dag (completes id o) bound s i h =
      let P : Run V → Type 0 = HasAtLeast (suc bound) in
      if_intro P (not (mem id (ids s.in_flight))) (λ stray. tt)
        (λ here.
          if_intro P (is_failure o.state && must_abort dag id (settle id o s).states) (λ dead. tt)
            (λ alive. top-HasAtLeast (all_nodes dag) (suc bound) (settle id o s) (
              omega (
                arith,
                h,
                length-keys-put s.states id o.state (i.0.apart id (ground (arith, here))),
              ))))

  run-HasAtLeast :
      (dag : TaskDag) (events : List (Event V)) (bound : ℕ) (r : Run V)
      → IsSoundRun max (all_nodes dag) r
      → HasAtLeast bound r
      → HasAtLeast (tally events bound) (run max dag events r)
  unfolding run tally
  run-HasAtLeast dag [] bound r i h = h
  run-HasAtLeast dag (e ∷ events) bound (waiting s) i h =
      run-HasAtLeast dag events (credit e bound) (handle max dag e s)
        (handle-IsSoundRun max dag e s i) (handle-HasAtLeast dag e bound s i h)
  run-HasAtLeast dag (e ∷ events) bound (ended s) i h = tt
  run-HasAtLeast dag (e ∷ events) bound (aborted id s) i h = tt
  run-HasAtLeast dag (e ∷ events) bound (raised_cancelled s) i h = tt
  run-HasAtLeast dag (e ∷ events) bound no_such_task i h = tt

  -- A sound state with a node in flight has fewer states than there are nodes.
  sound_busy :
      (nodes : List DagNode) (s : RunState V)
      → IsSound max nodes s
      → is_empty s.in_flight ≡ false
      → length (keys s.states) < length nodes
  sound_busy nodes s i busy =
      let (k, m) = some_id s.in_flight busy in
      omega (
        arith,
        length-le_of_Nodup (k ∷ keys s.states) (ids nodes) (i.apart k m, i.states_once)
            (λ j h. ground (arith, h, i.flight_known k m, i.states_known j, eqb→eq k j)),
        length-ids nodes,
      )

  -- The loop ends: after as many outcomes as the graph has nodes it does not wait any more.
  pub run_loop_ends :
      (dag : TaskDag) (events : List (Event V)) (s : RunState V)
      → length (all_nodes dag) ≤ outcomes events
      → run_loop max dag events ≢ waiting s
  unfolding run_loop
  run_loop_ends dag events s enough h =
      let nodes : List DagNode = all_nodes dag in
      let begun : Run V = top max nodes start in
      let states : HasAtLeast (tally events 0) (run max dag events begun) =
        run-HasAtLeast dag events 0 begun
          (top-IsSoundRun max nodes (Nodup-ids dag) start (start-IsSound max nodes))
          (top-HasAtLeast nodes 0 start (omega arith)) in
      let sound : IsSoundRun max nodes (waiting s) =
        subst (IsSoundRun max nodes) h (run_loop-IsSoundRun max dag events) in
      omega (
        arith,
        enough,
        outcomes-tally events 0,
        subst (HasAtLeast (tally events 0)) h states,
        sound_busy nodes s sound.0 sound.1,
      )
