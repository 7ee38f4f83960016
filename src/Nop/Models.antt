-- ===== src/Nop/Models.antt =====
-- nps_sdk/nop/models.py: the task graph that the validator and the orchestrator read, the states of
-- a task, the compensation policies and the delays between retries. The two mappings of a node
-- (input_mapping, compensate_params_mapping) and its timeout are read by `_execute_node_once` only,
-- which is not modelled, so the record leaves them out.
use nps_sdk_python.Prelude.{
  ℕ, ◌*◌, ◌-◌, ◌^◌, min, String, Bool, true, false, ◌||◌, Option, none, some, List, [], ◌∷◌, eqb,
  string_eq, if◌then◌else◌,
}

pub data TaskState : Type 0 where
  pending preflight running waiting_sync completed failed cancelled skipped compensating
        compensated :
      TaskState

-- `state in (TaskState.COMPLETED, TaskState.SKIPPED)`, `state == TaskState.FAILED` and
-- `state == TaskState.COMPLETED`
abbrev pub is_success : TaskState → Bool
is_success completed = true
is_success skipped = true
is_success _ = false

abbrev pub is_failure : TaskState → Bool
is_failure failed = true
is_failure _ = false

abbrev pub is_completed : TaskState → Bool
is_completed completed = true
is_completed _ = false

-- CompensationPolicy
abbrev pub runs_on_failure : Option String → Bool
runs_on_failure none = false
runs_on_failure (some policy) =
    eqb policy "best_effort"
    || eqb policy "strict"
    || eqb policy "on_failure"
    || eqb policy "always"

abbrev pub runs_on_success : Option String → Bool
runs_on_success none = false
runs_on_success (some policy) = eqb policy "always"

abbrev pub is_strict : Option String → Bool
is_strict none = false
is_strict (some policy) = eqb policy "strict"

pub record RetryPolicy : Type 0 where
  pub max_retries : ℕ
  pub backoff : String
  pub initial_delay_ms : ℕ
  pub max_delay_ms : ℕ
  pub retry_on : List String

-- RetryPolicy.compute_delay_ms, for an attempt that is at least 1
abbrev pub compute_delay_ms : RetryPolicy → ℕ → ℕ
compute_delay_ms p attempt =
    let delay : ℕ =
      if eqb p.backoff "fixed"
      then p.initial_delay_ms
      else if eqb p.backoff "linear"
      then p.initial_delay_ms * attempt
      else p.initial_delay_ms * 2 ^ (attempt - 1) in
    min delay p.max_delay_ms

pub record DagNode : Type 0 where
  pub id : String
  pub action : String
  pub agent : String
  pub input_from : List String
  pub retry_policy : Option RetryPolicy
  pub condition : Option String
  pub min_required : ℕ  -- a negative number counts as 0: the code only asks whether it is above 0
  pub compensate_action : Option String

pub record DagEdge : Type 0 where
  pub source : String  -- from_
  pub target : String  -- to

pub record TaskDag : Type 0 where
  pub nodes : List DagNode
  pub edges : List DagEdge

-- a node with the default values of the dataclass
abbrev pub new_node : String → String → String → DagNode
new_node id action agent = record {
  id = id;
  action = action;
  agent = agent;
  input_from = [];
  retry_policy = none;
  condition = none;
  min_required = 0;
  compensate_action = none;
}

-- `if not xs`
abbrev pub is_empty {ℓ} : {A : Type ℓ} → List A → Bool
is_empty [] = true
is_empty (x ∷ xs) = false
