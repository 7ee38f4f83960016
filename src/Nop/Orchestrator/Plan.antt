-- ===== src/Nop/Orchestrator/Plan.antt =====
-- nps_sdk/nop/orchestrator.py: `_are_deps_done`, `_can_end_node_still_succeed` and
-- `_can_reach_end_node`. The states of the nodes that are over are a dict from the node's id.
use nps_sdk_python.Prelude.{
  ℕ, zero, suc, ◌+◌, ◌-◌, ◌≤◌, ◌≡◌, ◌⊎◌, inl, inr, String, Bool, true, false, none, List, [], ◌∷◌,
  ◌++◌, map, arith, ltb, leb, length, select, mem, eqb, eqb→eq, string_eq, if◌then◌else◌,
}
use nps_sdk_python.Prelude.Dict
use nps_sdk_python.Prelude.Dict.{Dict, keys, holds}
use nps_sdk_python.Nop.Models.{DagNode, DagEdge, TaskState, is_success, is_failure, is_empty}

abbrev pub States : Type 0
States = Dict String TaskState

-- sum(1 for d in input_from if states.get(d) in ...)
abbrev pub count_deps : (TaskState → Bool) → States → List String → ℕ
count_deps p states [] = 0
count_deps p states (d ∷ deps) =
    (if holds p (Dict.get states d) then 1 else 0) + count_deps p states deps

-- k
abbrev pub required : DagNode → ℕ
required n = if ltb 0 n.min_required then n.min_required else length n.input_from

abbrev pub successes : States → DagNode → ℕ
successes states n = count_deps is_success states n.input_from

abbrev pub failures : States → DagNode → ℕ
failures states n = count_deps is_failure states n.input_from

-- _are_deps_done
unfoldable pub are_deps_done : DagNode → States → Bool
are_deps_done n states =
    if is_empty n.input_from
    then true
    else if leb (required n) (successes states n)
    then true
    else ltb (length n.input_from - failures states n) (required n)

-- _can_end_node_still_succeed, on the node that the id names
unfoldable pub can_end_node_still_succeed : DagNode → States → Bool
can_end_node_still_succeed n states =
    if is_empty n.input_from
    then false
    else leb (required n) (length n.input_from - failures states n)

-- adj.get(cur, [])
abbrev pub targets : List DagEdge → String → List String
targets edges cur = map (λ e. e.target) (select (λ e. eqb e.source cur) edges)

-- the loop `while queue` of _can_reach_end_node
unfoldable pub search : ℕ → List DagEdge → String → List String → List String → Bool
search zero edges goal visited queue = false
search (suc fuel) edges goal visited [] = false
search (suc fuel) edges goal visited (cur ∷ queue) =
    if eqb cur goal then true else elim (mem cur visited) [
      | true ↦ search fuel edges goal visited queue
      | false ↦ search fuel edges goal (cur ∷ visited) (queue ++ targets edges cur)
    ]

-- _can_reach_end_node: a node's edges enter the queue once, so there are at most 1 + |edges| rounds
unfoldable pub can_reach_end_node : String → String → List DagEdge → Bool
can_reach_end_node goal start edges = search (suc (length edges)) edges goal [] (start ∷ [])

-- The K-of-N rule: enough of the node's dependencies have succeeded.
abbrev pub IsEnabled : States → DagNode → Type 0
IsEnabled states n = (n.input_from ≡ []) ⊎ (required n ≤ successes states n)

-- A new key can only add to a count.
pub count-put_le :
    (p : TaskState → Bool) (states : States) (k : String) (s : TaskState) (deps : List String)
    → Dict.get states k ≡ none
    → count_deps p states deps ≤ count_deps p (Dict.put states k s) deps
count-put_le p states k s [] h = omega arith
count-put_le p states k s (d ∷ deps) h =
    ground (arith, count-put_le p states k s deps h, Dict.get-put states k d s, eqb→eq k d)

pub IsEnabled-put :
    (states : States) (k : String) (s : TaskState) (n : DagNode)
    → Dict.get states k ≡ none
    → IsEnabled states n
    → IsEnabled (Dict.put states k s) n
IsEnabled-put states k s n absent (inl none_needed) = inl none_needed
IsEnabled-put states k s n absent (inr enough) =
    inr (omega (arith, enough, count-put_le is_success states k s n.input_from absent))
