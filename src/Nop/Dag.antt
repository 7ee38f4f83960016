-- ===== src/Nop/Dag.antt =====
-- nps_sdk/nop/validation.py, DagValidator: the static checks of a task graph, then Kahn's algorithm.
-- `validate` returns the topological order, or the error code with what the message names.
-- A Python set of texts has no order that the program fixes: the order in which `node_ids` is
-- iterated is the parameter `iterate`.
mod Examples
pub mod Build
pub mod Kahn
pub mod Order
pub mod Validate
use Prim.Native.String.{count as len}
use nps_sdk_python.Prelude.{
  ℕ, zero, suc, ◌+◌, String, Bool, true, false, not, Option, none, some, List, [], ◌∷◌, ◌++◌, map,
  Result, ok, err, ◌>>=◌, ◌>>◌, reject_if, ltb, ◌==◌, if◌then◌else◌, length, mem, string_eq,
}
use nps_sdk_python.Prelude.Dict
use nps_sdk_python.Prelude.Dict.{Dict}
pub use nps_sdk_python.Nop.Models.{DagNode, DagEdge, TaskDag, is_empty}

-- constants.py
abbrev pub max_dag_nodes : ℕ
max_dag_nodes = 32

abbrev max_condition_length : ℕ
max_condition_length = 512

-- the messages of NOP_TASK_DAG_INVALID
pub data Reason : Type 0 where
  no_nodes : Reason
  duplicate unknown_source unknown_target : String → Reason
  unknown_upstream : String → String → Reason
  no_start no_end : Reason

pub data DagError : Type 0 where
  dag_invalid : Reason → DagError
  dag_too_large : ℕ → DagError
  condition_eval_error : String → DagError
  dag_cycle : DagError
  key_error : DagError  -- a KeyError of Python, which `validate` does not catch
  out_of_fuel : DagError  -- the bound of the model on the rounds of `while queue`

-- a signed count: `remaining` is decremented
pub data Count : Type 0 where
  pos : ℕ → Count
  negsuc : ℕ → Count

abbrev pub decrement : Count → Count
decrement (pos zero) = negsuc 0
decrement (pos (suc n)) = pos n
decrement (negsuc n) = negsuc (suc n)

abbrev pub is_zero : Count → Bool
is_zero (pos n) = n == 0
is_zero (negsuc n) = false

-- `node_ids`, and the search for a duplicate
unfoldable pub collect_ids : List DagNode → List String → Result DagError (List String)
collect_ids [] seen = ok seen
collect_ids (n ∷ ns) seen =
    let rest = collect_ids ns (seen ++ n.id ∷ []) in
    if mem n.id seen then err (dag_invalid (duplicate n.id)) else rest

-- d[k] = f(d[k])
unfoldable pub modify {ℓ} :
    {V : Type ℓ} → Dict String V → String → (V → V) → Result DagError (Dict String V)
modify d k f = elim (Dict.get d k) [ none ↦ err key_error | some v ↦ ok (Dict.put d k (f v)) ]

pub record Graph : Type 0 where
  pub adjacency : Dict String (List String)
  pub in_degree : Dict String ℕ

unfoldable pub empty_graph : List String → Graph
empty_graph ids = record { adjacency = map (λ k. (k, [])) ids; in_degree = map (λ k. (k, 0)) ids }

unfoldable pub add_edge : Graph → DagEdge → Result DagError Graph
add_edge g edge = do
  adjacency ← modify g.adjacency edge.source (λ targets. targets ++ edge.target ∷ [])
  in_degree ← modify g.in_degree edge.target (λ d. d + 1)
  ok (record { adjacency = adjacency; in_degree = in_degree })

-- the loop over `dag.edges`
unfoldable pub add_edges : List String → List DagEdge → Graph → Result DagError Graph
add_edges ids [] g = ok g
add_edges ids (edge ∷ edges) g = do
  reject_if (not (mem edge.source ids)) (dag_invalid (unknown_source edge.source))
  reject_if (not (mem edge.target ids)) (dag_invalid (unknown_target edge.target))
  g' ← add_edge g edge
  add_edges ids edges g'

unfoldable pub check_upstreams : List String → String → List String → Result DagError (Unit {0})
check_upstreams ids node [] = ok tt
check_upstreams ids node (upstream ∷ rest) = do
  reject_if (not (mem upstream ids)) (dag_invalid (unknown_upstream node upstream))
  check_upstreams ids node rest

unfoldable pub check_inputs : List String → List DagNode → Result DagError (Unit {0})
check_inputs ids [] = ok tt
check_inputs ids (n ∷ ns) = do check_upstreams ids n.id n.input_from; check_inputs ids ns

unfoldable pub condition_too_long : Option String → Bool
condition_too_long none = false
condition_too_long (some c) = ltb max_condition_length (len c)

unfoldable pub check_conditions : List DagNode → Result DagError (Unit {0})
check_conditions [] = ok tt
check_conditions (n ∷ ns) = do
  reject_if (condition_too_long n.condition) (condition_eval_error n.id)
  check_conditions ns

-- `for neighbor in adjacency[cur]`, with the queue
unfoldable pub visit :
    List String
    → Dict String Count
    → List String
    → Result DagError (Dict String Count × List String)
visit [] remaining queue = ok (remaining, queue)
visit (neighbor ∷ rest) remaining queue = elim (Dict.get remaining neighbor) [
  | none ↦ err key_error
  | some d ↦
      visit rest (Dict.put remaining neighbor (decrement d))
        (if is_zero (decrement d) then queue ++ neighbor ∷ [] else queue)
]

-- `while queue`
unfoldable pub kahn :
    ℕ
    → Dict String (List String)
    → Dict String Count
    → List String
    → List String
    → Result DagError (List String)
kahn fuel adjacency remaining [] sorted_order = ok sorted_order
kahn zero adjacency remaining (cur ∷ queue) sorted_order = err out_of_fuel
kahn (suc fuel) adjacency remaining (cur ∷ queue) sorted_order = elim (Dict.get adjacency cur) [
  | none ↦ err key_error
  | some targets ↦ elim (visit targets remaining queue) [
    | err e ↦ err e
    | ok (remaining', queue') ↦ kahn fuel adjacency remaining' queue' (sorted_order ++ cur ∷ [])
  ]
]

abbrev pub to_count : String × ℕ → String × Count
to_count (k, d) = (k, pos d)

-- the last part of `validate`; a round takes a node off the queue, and no node is queued twice, so
-- as many rounds as there are nodes are enough
unfoldable pub sort_nodes : List String → Graph → Result DagError (List String)
sort_nodes ids g = do
  sorted_order ←
      kahn (length ids) g.adjacency (map to_count g.in_degree)
        (Dict.keys_where (λ d. d == 0) g.in_degree) []
  if length sorted_order == length ids then ok sorted_order else err dag_cycle

-- DagValidator.validate
unfoldable pub validate : (List String → List String) → TaskDag → Result DagError (List String)
validate iterate dag = do
  reject_if (length dag.nodes == 0) (dag_invalid no_nodes)
  reject_if (ltb max_dag_nodes (length dag.nodes)) (dag_too_large (length dag.nodes))
  node_ids ← collect_ids dag.nodes []
  g ← add_edges node_ids dag.edges (empty_graph (iterate node_ids))
  check_inputs node_ids dag.nodes
  reject_if (not (Dict.any_value (λ d. d == 0) g.in_degree)) (dag_invalid no_start)
  reject_if (not (Dict.any_value is_empty g.adjacency)) (dag_invalid no_end)
  check_conditions dag.nodes
  sort_nodes node_ids g
