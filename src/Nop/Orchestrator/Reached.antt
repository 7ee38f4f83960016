-- ===== src/Nop/Orchestrator/Reached.antt =====
-- nps_sdk/nop/orchestrator.py, `_run_dag`: every state that a schedule of events reaches is sound.
use nps_sdk_python.Prelude.{
  ℕ, ◌≡◌, refl, String, Bool, true, false, not, ◌&&◌, List, [], ◌∷◌, arith, leb, length, select,
  mem, Nodup, eqb, eqb→eq, string_eq, if_intro,
}
use nps_sdk_python.Prelude.Dict
use nps_sdk_python.Prelude.Dict.{Dict, keys, mem-keys-put, get-absent, Nodup-put}
use nps_sdk_python.Nop.Models.{DagNode, TaskDag, is_failure, is_empty}
use nps_sdk_python.Nop.Orchestrator.Plan.{IsEnabled, IsEnabled-put}
use nps_sdk_python.Nop.Orchestrator.Loop.{
  RunState, NodeOutcome, StoreCall, Event, completes, raises, writes, cancels, Run, waiting, ended,
  aborted, raised_cancelled, no_such_task, ids, all_nodes, start, prepare, top, settle, must_abort,
  handle, run, run_loop,
}
use nps_sdk_python.Nop.Orchestrator.Invariant.{
  IsSound, Nodup-ids, Nodup-ids-select, mem-ids-select, length-select_le, All-select, All-weaken,
}
use nps_sdk_python.Nop.Orchestrator.Launch.{prepare-IsSound}

-- The state is sound, and the loop waits only while a node is in flight.
abbrev pub IsSoundRun {ℓ} : {V : Type ℓ} → ℕ → List DagNode → Run V → Type 0
IsSoundRun max nodes (waiting s) = IsSound max nodes s × (is_empty s.in_flight ≡ false)
IsSoundRun max nodes (ended s) = IsSound max nodes s
IsSoundRun max nodes (aborted id s) = IsSound max nodes s
IsSoundRun max nodes (raised_cancelled s) = IsSound max nodes s
IsSoundRun max nodes no_such_task = Unit

module _ {ℓ} {V : Type ℓ} (max : ℕ) where
  pub start-IsSound : (nodes : List DagNode) → IsSound max nodes (start {V = V})
  unfolding keys
  start-IsSound nodes = record {
    states_once = tt;
    flight_once = tt;
    apart = λ k m. refl;
    states_known = λ k m. absurd (ground (arith, m));
    flight_known = λ k m. absurd (ground (arith, m));
    few = omega arith;
    enabled = tt;
  }

  -- An outcome of a node in flight.
  settle-IsSound :
      (nodes : List DagNode) (id : String) (o : NodeOutcome V) (s : RunState V)
      → mem id (ids s.in_flight) ≡ true
      → IsSound max nodes s
      → IsSound max nodes (settle id o s)
  unfolding settle
  settle-IsSound nodes id o s here i =
      let test : DagNode → Bool = λ n. not (eqb n.id id) in
      let absent : mem id (keys s.states) ≡ false = i.apart id here in
      let left : (k : String)
          → mem k (ids (select test s.in_flight)) ≡ true
          → (not (eqb k id) ≡ true) × (mem k (ids s.in_flight) ≡ true) =
        λ k m. mem-ids-select test (λ k. not (eqb k id)) s.in_flight k (λ n h. h) m in
      record {
        states_once = Nodup-put s.states id o.state i.states_once;
        flight_once = Nodup-ids-select test s.in_flight i.flight_once;
        apart = λ k m. ground (
          arith,
          left k m,
          i.apart k,
          mem-keys-put s.states id k o.state,
          string_eq.beq_iff id k,
          string_eq.beq_iff k id,
        );
        states_known = λ k m. ground (
          arith,
          m,
          here,
          i.states_known k,
          i.flight_known id,
          mem-keys-put s.states id k o.state,
          eqb→eq id k,
        );
        flight_known = λ k m. i.flight_known k (left k m).1;
        few = omega (arith, i.few, length-select_le test s.in_flight);
        enabled = All-select (IsEnabled (Dict.put s.states id o.state)) test s.in_flight (
            All-weaken (IsEnabled s.states) (IsEnabled (Dict.put s.states id o.state)) s.in_flight
              (λ n. IsEnabled-put s.states id o.state n (get-absent s.states id absent)) i.enabled);
      }

  pub top-IsSoundRun :
      (nodes : List DagNode)
      → Nodup (ids nodes)
      → (s : RunState V) → IsSound max nodes s
      → IsSoundRun max nodes (top max nodes s)
  unfolding top
  top-IsSoundRun nodes distinct s i =
      let next : IsSound max nodes (prepare max nodes s) = prepare-IsSound max nodes distinct s i in
      if_intro (IsSoundRun max nodes) (leb (length nodes) (length (keys s.states))) (λ over. i)
        (λ more.
          if_intro (IsSoundRun max nodes) s.is_cancelled (λ stop. i)
            (λ go.
              if_intro (IsSoundRun max nodes) (is_empty (prepare max nodes s).in_flight)
                (λ idle. next) (λ busy. (next, busy))))

  -- Neither the store's calls nor the cancellation are part of soundness.
  calls-IsSoundRun :
      (nodes : List DagNode) (b : Bool) (calls : List (StoreCall V)) (s : RunState V)
      → IsSoundRun max nodes (waiting s)
      → IsSoundRun max nodes (waiting (record s { is_cancelled = b; calls = calls }))
  calls-IsSoundRun nodes b calls s i = (
    record {
      states_once = i.0.states_once;
      flight_once = i.0.flight_once;
      apart = i.0.apart;
      states_known = i.0.states_known;
      flight_known = i.0.flight_known;
      few = i.0.few;
      enabled = i.0.enabled;
    },
    i.1,
  )

  pub handle-IsSoundRun :
      (dag : TaskDag) (e : Event V) (s : RunState V)
      → IsSoundRun max (all_nodes dag) (waiting s)
      → IsSoundRun max (all_nodes dag) (handle max dag e s)
  unfolding handle
  handle-IsSoundRun dag cancels s i = calls-IsSoundRun (all_nodes dag) true _ s i
  handle-IsSoundRun dag (writes id u) s i =
      if_intro (IsSoundRun max (all_nodes dag)) (mem id (ids s.in_flight))
        (λ here. calls-IsSoundRun (all_nodes dag) s.is_cancelled _ s i) (λ stray. tt)
  handle-IsSoundRun dag (raises id) s i =
      if_intro (IsSoundRun max (all_nodes dag)) (mem id (ids s.in_flight)) (λ here. i.0)
        (λ stray. tt)
  handle-IsSoundRun dag (completes id o) s i =
      let next : mem id (ids s.in_flight) ≡ true → IsSound max (all_nodes dag) (settle id o s) =
        λ here. settle-IsSound (all_nodes dag) id o s here i.0 in
      let P : Run V → Type 0 = IsSoundRun max (all_nodes dag) in
      if_intro P (not (mem id (ids s.in_flight))) (λ stray. tt)
        (λ here.
          if_intro P (is_failure o.state && must_abort dag id (settle id o s).states)
            (λ dead. next (ground (arith, here)))
            (λ alive.
              top-IsSoundRun (all_nodes dag) (Nodup-ids dag) (settle id o s)
                (next (ground (arith, here)))))

  run-IsSoundRun :
      (dag : TaskDag) (events : List (Event V)) (r : Run V)
      → IsSoundRun max (all_nodes dag) r
      → IsSoundRun max (all_nodes dag) (run max dag events r)
  unfolding run
  run-IsSoundRun dag [] r i = i
  run-IsSoundRun dag (e ∷ events) (waiting s) i =
      run-IsSoundRun dag events (handle max dag e s) (handle-IsSoundRun dag e s i)
  run-IsSoundRun dag (e ∷ events) (ended s) i = i
  run-IsSoundRun dag (e ∷ events) (aborted id s) i = i
  run-IsSoundRun dag (e ∷ events) (raised_cancelled s) i = i
  run-IsSoundRun dag (e ∷ events) no_such_task i = i

  pub run_loop-IsSoundRun :
      (dag : TaskDag) (events : List (Event V))
      → IsSoundRun max (all_nodes dag) (run_loop max dag events)
  unfolding run_loop
  run_loop-IsSoundRun dag events =
      run-IsSoundRun dag events (top max (all_nodes dag) start)
        (top-IsSoundRun (all_nodes dag) (Nodup-ids dag) start (start-IsSound (all_nodes dag)))
