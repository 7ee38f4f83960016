-- ===== src/Nop/Orchestrator/Saga.antt =====
-- nps_sdk/nop/orchestrator.py, `_run_saga_compensation` and `_compensation_failure_error_code`. The
-- outcome of a compensating call is the worker's: the parameter `undo`, of the node that is sent.
use nps_sdk_python.Prelude.{
  ℕ, String, Bool, false, not, ◌&&◌, Option, none, some, List, [], ◌∷◌, ◌++◌, map, ◌==◌, length,
  select, first, eqb, string_eq, is_blank, if◌then◌else◌,
}
use nps_sdk_python.Prelude.Dict
use nps_sdk_python.Prelude.Dict.{holds}
use nps_sdk_python.Nop.Models.{DagNode, TaskState, is_completed, is_strict, is_empty, compensating}
use nps_sdk_python.Nop.Orchestrator.Plan.{States}
use nps_sdk_python.Nop.Orchestrator.Loop.{NodeOutcome, ids}

-- results.py
pub record SagaCompensationResult : Type 0 where
  pub attempted : ℕ
  pub succeeded : ℕ
  pub failed : ℕ
  pub failed_node_ids : List String

-- what the compensation does: its result, the nodes that are sent, in order, and the states that it
-- gives the task (update_state)
pub record Saga : Type 0 where
  pub result : SagaCompensationResult
  pub sent : List DagNode
  pub states : List TaskState

abbrev pub reverse {ℓ} : {A : Type ℓ} → List A → List A
reverse [] = []
reverse (x ∷ xs) = reverse xs ++ x ∷ []

-- (compensate_action or "").strip()
abbrev pub has_action : DagNode → Bool
has_action n = elim n.compensate_action [ none ↦ false | some action ↦ not (is_blank action) ]

-- `completed`, with the node that all_nodes has under the id
unfoldable pub completed_nodes : List DagNode → States → List String → List DagNode
completed_nodes nodes states [] = []
completed_nodes nodes states (id ∷ order) = elim (first (λ n. eqb n.id id) nodes) [
  | none ↦ completed_nodes nodes states order
  | some n ↦
      if holds is_completed (Dict.get states id)
      then n ∷ completed_nodes nodes states order
      else completed_nodes nodes states order
]

-- _replace_node
abbrev pub replace_node : DagNode → DagNode
replace_node n = elim n.compensate_action [ none ↦ n | some action ↦ record n { action = action } ]

module _ {ℓ} {V : Type ℓ} (undo : DagNode → NodeOutcome V) where
  -- failed_ids of the loop over to_compensate
  abbrev pub failed_ids : List DagNode → List String
  failed_ids nodes = ids (select (λ n. not (is_completed (undo (replace_node n)).state)) nodes)

  abbrev pub succeeded_nodes : List DagNode → List DagNode
  succeeded_nodes nodes = select (λ n. is_completed (undo (replace_node n)).state) nodes

  abbrev pub compensate : List DagNode → Saga
  compensate [] = record {
    result = record { attempted = 0; succeeded = 0; failed = 0; failed_node_ids = [] };
    sent = [];
    states = [];
  }
  compensate (n ∷ ns) = record {
    result = record {
      attempted = length (n ∷ ns);
      succeeded = length (succeeded_nodes (n ∷ ns));
      failed = length (failed_ids (n ∷ ns));
      failed_node_ids = failed_ids (n ∷ ns);
    };
    sent = map replace_node (n ∷ ns);
    states = compensating ∷ [];
  }

  abbrev refuse : List DagNode → Saga
  refuse missing = record {
    result = record {
      attempted = 0;
      succeeded = 0;
      failed = length missing;
      failed_node_ids = ids missing;
    };
    sent = [];
    states = [];
  }

  -- _run_saga_compensation
  unfoldable pub run_saga_compensation : Option String → List DagNode → List String → States → Saga
  run_saga_compensation policy nodes topo_order states =
      let completed = completed_nodes nodes states (reverse topo_order) in
      let missing = select (λ n. not (has_action n)) completed in
      if is_strict policy && not (is_empty missing)
      then refuse missing
      else compensate (select has_action completed)

-- _compensation_failure_error_code
unfoldable pub compensation_failure_error_code :
    Option String → Option SagaCompensationResult → Option String
compensation_failure_error_code policy none = none
compensation_failure_error_code policy (some c) =
    if not (is_strict policy)
    then none
    else if c.failed == 0
    then none
    else some
        (if c.attempted == 0 then "NOP-COMPENSATION-NOT-SUPPORTED" else "NOP-COMPENSATION-FAILED")
