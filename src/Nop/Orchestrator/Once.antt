-- ===== src/Nop/Orchestrator/Once.antt =====
-- nps_sdk/nop/orchestrator.py, `_run_dag`: no node is run twice. A node that was run has given its
-- outcome or is still in flight, so the runs of a loop are the outcomes it has taken and what is in
-- flight.
use nps_sdk_python.Prelude.{
  ℕ, ◌≡◌, String, true, false, not, ◌&&◌, inl, inr, List, [], ◌∷◌, ◌++◌, arith, leb, length, mem,
  mem-append, Nodup, eqb_refl, string_eq, Bool-cases, if_intro,
}
use nps_sdk_python.Prelude.Dict.{keys, mem-keys-put}
use nps_sdk_python.Nop.Models.{DagNode, TaskDag, is_failure, is_empty, failed}
use nps_sdk_python.Nop.Orchestrator.Loop.{
  RunState, Event, completes, raises, writes, cancels, Run, waiting, ended, aborted,
  raised_cancelled, no_such_task, ids, all_nodes, start, is_hopeless, fail_node, fail_impossible,
  ready, prepare, top, settle, must_abort, handle, run, run_loop,
}
use nps_sdk_python.Nop.Orchestrator.Invariant.{IsSound, Nodup-ids}
use nps_sdk_python.Nop.Orchestrator.Reached.{
  IsSoundRun, start-IsSound, top-IsSoundRun, handle-IsSoundRun, run_loop-IsSoundRun,
}

-- The nodes that have given an outcome once an event is handled.
abbrev pub taken {ℓ} : {V : Type ℓ} → Event V → List String → List String
taken (completes id o) done = id ∷ done
taken (raises id) done = done
taken (writes id u) done = done
taken cancels done = done

-- The nodes whose outcome the loop takes on a schedule, the latest first, before `done`.
abbrev pub finished {ℓ} :
    {V : Type ℓ} → ℕ → TaskDag → List (Event V) → Run V → List String → List String
finished max dag [] r done = done
finished max dag (e ∷ events) (waiting s) done =
    finished max dag events (handle max dag e s) (taken e done)
finished max dag (e ∷ events) r done = done

-- No node is twice among those that have given an outcome and those in flight.
abbrev pub HasRunOnce {ℓ} : {V : Type ℓ} → List String → Run V → Type 0
HasRunOnce done (waiting s) = Nodup (done ++ ids s.in_flight)
HasRunOnce done (ended s) = Nodup (done ++ ids s.in_flight)
HasRunOnce done (aborted id s) = Nodup (done ++ ids s.in_flight)
HasRunOnce done (raised_cancelled s) = Nodup (done ++ ids s.in_flight)
HasRunOnce done no_such_task = Unit

-- What has given an outcome is recorded among the states, and has done so once.
abbrev IsRecorded {ℓ} : {V : Type ℓ} → List String → RunState V → Type 0
IsRecorded done s = Nodup done × ((k : String) → mem k done ≡ true → mem k (keys s.states) ≡ true)

abbrev IsRecordedRun {ℓ} : {V : Type ℓ} → List String → Run V → Type 0
IsRecordedRun done (waiting s) = IsRecorded done s
IsRecordedRun done (ended s) = IsRecorded done s
IsRecordedRun done (aborted id s) = IsRecorded done s
IsRecordedRun done (raised_cancelled s) = IsRecorded done s
IsRecordedRun done no_such_task = Unit

Nodup-append :
    (xs ys : List String)
    → Nodup xs
    → Nodup ys
    → ((k : String) → mem k ys ≡ true → mem k xs ≡ false)
    → Nodup (xs ++ ys)
Nodup-append [] ys hx hy apart = hy
Nodup-append (x ∷ xs) ys hx hy apart = (
  elim (Bool-cases (mem x (xs ++ ys))) [
    | inr new ↦ new
    | inl old ↦ absurd (ground (arith, old, mem-append x xs ys, hx.0, apart x, eqb_refl x))
  ],
  Nodup-append xs ys hx.1 hy (λ k m. ground (arith, apart k m)),
)

module _ {ℓ} {V : Type ℓ} (max : ℕ) where
  -- The pass that fails nodes forgets no state.
  keys-fail_impossible :
      (ns : List DagNode) (s : RunState V) (k : String)
      → mem k (keys s.states) ≡ true
      → mem k (keys (fail_impossible ns s).1.states) ≡ true
  unfolding fail_impossible
  keys-fail_impossible [] s k h = h
  keys-fail_impossible (n ∷ ns) s k h = elim (Bool-cases (is_hopeless n s.states)) [
    | inl hopeless ↦
        rw (fail_impossible, hopeless)
          (keys-fail_impossible ns (fail_node n s) k
            (ground (arith, h, mem-keys-put s.states n.id k failed)))
    | inr able ↦ rw (fail_impossible, able) (keys-fail_impossible ns s k h)
  ]

  top-IsRecordedRun :
      (nodes : List DagNode) (done : List String) (s : RunState V)
      → IsRecorded done s
      → IsRecordedRun done (top max nodes s)
  unfolding top
  top-IsRecordedRun nodes done s i =
      let P : Run V → Type 0 = IsRecordedRun done in
      let next : IsRecorded done (prepare max nodes s) =
        (i.0, λ k m. keys-fail_impossible (ready nodes s) s k (i.1 k m)) in
      if_intro P (leb (length nodes) (length (keys s.states))) (λ over. i)
        (λ more.
          if_intro P s.is_cancelled (λ stop. i)
            (λ go.
              if_intro P (is_empty (prepare max nodes s).in_flight) (λ idle. next) (λ busy. next)))

  handle-IsRecordedRun :
      (dag : TaskDag) (done : List String) (e : Event V) (s : RunState V)
      → IsSoundRun max (all_nodes dag) (waiting s)
      → IsRecorded done s
      → IsRecordedRun (taken e done) (handle max dag e s)
  unfolding handle settle
  handle-IsRecordedRun dag done cancels s i r = r
  handle-IsRecordedRun dag done (writes id u) s i r =
      if_intro (IsRecordedRun done) (mem id (ids s.in_flight)) (λ here. r) (λ stray. tt)
  handle-IsRecordedRun dag done (raises id) s i r =
      if_intro (IsRecordedRun done) (mem id (ids s.in_flight)) (λ here. r) (λ stray. tt)
  handle-IsRecordedRun dag done (completes id o) s i r =
      let P : Run V → Type 0 = IsRecordedRun (id ∷ done) in
      let next : mem id (ids s.in_flight) ≡ true → IsRecorded (id ∷ done) (settle id o s) = λ here.
        (
          (ground (arith, here, i.0.apart id, r.1 id), r.0),
          λ k m. ground (arith, m, r.1 k, mem-keys-put s.states id k o.state),
        ) in
      if_intro P (not (mem id (ids s.in_flight))) (λ stray. tt)
        (λ here.
          if_intro P (is_failure o.state && must_abort dag id (settle id o s).states)
            (λ dead. next (ground (arith, here)))
            (λ alive.
              top-IsRecordedRun (all_nodes dag) (id ∷ done) (settle id o s)
                (next (ground (arith, here)))))

  run-IsRecordedRun :
      (dag : TaskDag) (events : List (Event V)) (done : List String) (r : Run V)
      → IsSoundRun max (all_nodes dag) r
      → IsRecordedRun done r
      → IsRecordedRun (finished max dag events r done) (run max dag events r)
  unfolding run
  run-IsRecordedRun dag [] done r i h = h
  run-IsRecordedRun dag (e ∷ events) done (waiting s) i h =
      run-IsRecordedRun dag events (taken e done) (handle max dag e s)
        (handle-IsSoundRun max dag e s i) (handle-IsRecordedRun dag done e s i h)
  run-IsRecordedRun dag (e ∷ events) done (ended s) i h = h
  run-IsRecordedRun dag (e ∷ events) done (aborted id s) i h = h
  run-IsRecordedRun dag (e ∷ events) done (raised_cancelled s) i h = h
  run-IsRecordedRun dag (e ∷ events) done no_such_task i h = h

  once_lem :
      (nodes : List DagNode) (done : List String) (s : RunState V)
      → IsSound max nodes s
      → IsRecorded done s
      → Nodup (done ++ ids s.in_flight)
  once_lem nodes done s i r =
      Nodup-append done (ids s.in_flight) r.0 i.flight_once
        (λ k m. ground (arith, i.apart k m, r.1 k))

  HasRunOnce_lem :
      (nodes : List DagNode) (done : List String) (r : Run V)
      → IsSoundRun max nodes r
      → IsRecordedRun done r
      → HasRunOnce done r
  HasRunOnce_lem nodes done (waiting s) i h = once_lem nodes done s i.0 h
  HasRunOnce_lem nodes done (ended s) i h = once_lem nodes done s i h
  HasRunOnce_lem nodes done (aborted id s) i h = once_lem nodes done s i h
  HasRunOnce_lem nodes done (raised_cancelled s) i h = once_lem nodes done s i h
  HasRunOnce_lem nodes done no_such_task i h = tt

  -- In whatever order the nodes end, fail, or the task is cancelled: no node is run twice (none is
  -- twice among the outcomes that the loop has taken and the nodes in flight), no node with a state is
  -- in flight, at most `max` are in flight, those have the dependencies that their K-of-N rule asks
  -- for, and the loop waits only while some node is in flight.
  pub run_loop-once :
      (dag : TaskDag) (events : List (Event V))
      → IsSoundRun max (all_nodes dag) (run_loop max dag events)
        × HasRunOnce
            (finished max dag events (top max (all_nodes dag) start) [])
            (run_loop max dag events)
  unfolding run_loop
  run_loop-once dag events =
      let begun : Run V = top max (all_nodes dag) start in
      let sound : IsSoundRun max (all_nodes dag) begun =
        top-IsSoundRun max (all_nodes dag) (Nodup-ids dag) start
          (start-IsSound max (all_nodes dag)) in
      (
        run_loop-IsSoundRun max dag events,
        HasRunOnce_lem (all_nodes dag) (finished max dag events begun []) (run max dag events begun)
            (run_loop-IsSoundRun max dag events)
            (run-IsRecordedRun dag events [] begun sound
              (top-IsRecordedRun (all_nodes dag) [] start (tt, λ k m. absurd (ground (arith, m))))),
      )
