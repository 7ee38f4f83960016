-- ===== src/Nop/Orchestrator/Complete.antt =====
-- nps_sdk/nop/orchestrator.py, `_run_dag`: a loop that ends without having failed a node for its
-- dependencies has run every node.
use nps_sdk_python.Prelude.{
  ℕ, zero, suc, ◌≤◌, ◌<◌, ◌≡◌, inl, inr, refl, sym, ap, ◌∙◌, subst, String, true, false, not, ◌&&◌,
  ◌||◌, some, List, [], arith, mem, string_eq, Bool-cases, Option-cases, In, mem_of_full,
}
use nps_sdk_python.Prelude.Dict
use nps_sdk_python.Prelude.Dict.{Dict, keys, holds, mem-keys}
use nps_sdk_python.Nop.Models.{DagNode, TaskDag, TaskState, is_success, is_failure, is_empty}
use nps_sdk_python.Nop.Orchestrator.Plan.{States, are_deps_done}
use nps_sdk_python.Nop.Orchestrator.Loop.{
  RunState, Event, ended, dependency_failures, ids, all_nodes, ready, start, top, run_loop,
}
use nps_sdk_python.Nop.Orchestrator.Invariant.{IsSound, length-ids}
use nps_sdk_python.Nop.Orchestrator.Reached.{IsSoundRun, run_loop-IsSoundRun}
use nps_sdk_python.Nop.Orchestrator.Idle.{
  EndsBy, over-are_deps_done, In-select, node_of, prepare_idle, top-EndsBy, run-EndsBy,
}

-- `rank` grows from every dependency of a node to the node, and the dependencies are nodes.
abbrev pub IsRanked : List DagNode → (String → ℕ) → Type 0
IsRanked nodes rank =
    (n : DagNode)
    → In n nodes
    → (d : String) → mem d n.input_from ≡ true
    → (rank d < rank n.id) × (mem d (ids nodes) ≡ true)

-- Every state is COMPLETED, SKIPPED or FAILED.
abbrev pub IsTerminal : States → Type 0
IsTerminal states =
    (k : String) (v : TaskState)
    → Dict.get states k ≡ some v
    → (is_success v || is_failure v) ≡ true

terminal-over :
    (states : States) (d : String)
    → IsTerminal states
    → mem d (keys states) ≡ true
    → (holds is_success (Dict.get states d) || holds is_failure (Dict.get states d)) ≡ true
terminal-over states d terminal m = elim (Option-cases (Dict.get states d)) [
  | inl absent ↦ absurd (ground (arith, mem-keys states d absent, m))
  | inr (v, found) ↦ rw found (terminal d v found)
]

module _ {ℓ} {V : Type ℓ} (nodes : List DagNode) (s : RunState V) where
  -- Where nothing is ready or in flight, every node has a state: one without would depend on another.
  idle_over :
      (rank : String → ℕ)
      → IsRanked nodes rank
      → IsTerminal s.states
      → ready nodes s ≡ []
      → s.in_flight ≡ []
      → (bound : ℕ) (n : DagNode) → In n nodes
      → rank n.id < bound
      → mem n.id (keys s.states) ≡ true
  idle_over rank ranked terminal no_ready idle zero n i low = absurd (omega (arith, low))
  idle_over rank ranked terminal no_ready idle (suc bound) n i low =
      elim (Bool-cases (mem n.id (keys s.states))) [
        | inl found ↦ found
        | inr absent ↦
            let over : are_deps_done n s.states ≡ true = over-are_deps_done n s.states (λ d m.
              let (lower, known) = ranked n i d m in
              let (node, j, e) = node_of nodes d known in
              terminal-over s.states d terminal (
                subst (λ k. mem k (keys s.states) ≡ true) e
                  (idle_over rank ranked terminal no_ready idle bound node j
                    (subst (λ k. rank k < bound) (sym e) (omega (arith, lower, low)))))) in
            let away : mem n.id (ids s.in_flight) ≡ false = rw idle refl in
            absurd (
              ground (
                arith,
                absent,
                over,
                away,
                In-select
                    (λ m.
                      not (mem m.id (keys s.states))
                      && not (mem m.id (ids s.in_flight))
                      && are_deps_done m s.states)
                    n nodes i no_ready,
              ))
      ]

-- A loop over a graph whose dependencies have no cycle, which may run at least one node at once and
-- in which every outcome is COMPLETED, SKIPPED or FAILED, does not leave a node out: if it ends, and
-- has failed no node for its dependencies, then every node has a state.
pub run_loop_complete {ℓ} :
    {V : Type ℓ} (max : ℕ) (dag : TaskDag) (events : List (Event V)) (s : RunState V)
    (rank : String → ℕ)
    → 1 ≤ max
    → IsRanked (all_nodes dag) rank
    → run_loop max dag events ≡ ended s
    → IsTerminal s.states
    → dependency_failures s.calls ≡ []
    → (k : String) → mem k (ids (all_nodes dag)) ≡ true
    → mem k (keys s.states) ≡ true
unfolding run_loop
run_loop_complete max dag events s rank one ranked h terminal silent k m =
    let nodes : List DagNode = all_nodes dag in
    let sound : IsSound max nodes s =
      subst (IsSoundRun max nodes) h (run_loop-IsSoundRun max dag events) in
    elim (subst (EndsBy max nodes) h
      (run-EndsBy max dag events (top max nodes start) (top-EndsBy max nodes start))) [
        | inl full ↦
            mem_of_full (keys s.states) (ids nodes) sound.states_once sound.states_known
              (omega (arith, full, length-ids nodes)) k m
        | inr (s0, e, idle) ↦
            let (no_ready, none_left, same) =
              prepare_idle max nodes s0 one (subst (λ r. dependency_failures r.calls ≡ []) e silent)
                (subst (λ r. is_empty r.in_flight ≡ true) e idle) in
            let states : s.states ≡ s0.states = ap (λ r. r.states) e ∙ same in
            let (n, i, name) = node_of nodes k m in
            subst (λ j. mem j (keys s.states) ≡ true) name
              (rw states (
                idle_over nodes s0 rank ranked (subst IsTerminal states terminal) no_ready none_left
                  (suc (rank n.id)) n i (omega arith)))
      ]
