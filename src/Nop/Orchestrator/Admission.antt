-- ===== src/Nop/Orchestrator/Admission.antt =====
-- nps_sdk/nop/orchestrator.py: the guards of `execute` before a task is stored, and `_run_preflight`.
use nps_sdk_python.Prelude.{
  ℕ, String, Bool, true, false, Option, none, some, List, [], ◌∷◌, leb, eqb, string_eq, Result, ok,
  err, if◌then◌else◌,
}
use nps_sdk_python.Prelude.Dict
use nps_sdk_python.Prelude.Dict.{Dict}
use nps_sdk_python.Nop.Models.{DagNode, TaskDag}
use nps_sdk_python.Nop.Dag.{DagError, validate}
use nps_sdk_python.Nop.Callback.{Urls, CallbackError, validate_callback_url}
use nps_sdk_python.Nop.Store.{Tasks}

-- what of a TaskFrame `execute` reads
pub record TaskFrame : Type 0 where
  pub task_id : String
  pub dag : TaskDag
  pub delegate_depth : ℕ
  pub callback_url : Option String
  pub preflight_requested : Bool
  pub compensation_policy : Option String

-- NopConstants.MAX_DELEGATE_CHAIN_DEPTH
abbrev pub max_delegate_chain_depth : ℕ
max_delegate_chain_depth = 3

-- why a task is refused before it is stored
pub data Refusal : Type 0 where
  chain_too_deep already_known : Refusal
  bad_callback : CallbackError → Refusal
  bad_graph : DagError → Refusal

-- PreflightResult; none is a probe that raises
pub record PreflightResult : Type 0 where
  pub agent_nid : String
  pub available : Bool

-- agent_actions: one action for each agent
abbrev pub agent_actions : List DagNode → Dict String String → Dict String String
agent_actions [] seen = seen
agent_actions (n ∷ ns) seen = elim (Dict.get seen n.agent) [
  | none ↦ agent_actions ns (Dict.put seen n.agent n.action)
  | some action ↦ agent_actions ns seen
]

-- _run_preflight: whether it passes. The probes are gathered, so any that raises fails it.
abbrev pub probes_pass : (String → String → Option PreflightResult) → Dict String String → Bool
probes_pass probe [] = true
probes_pass probe ((agent, action) ∷ agents) = elim (probe agent action) [
  | none ↦ false
  | some r ↦ if r.available then probes_pass probe agents else false
]

-- `if task.callback_url:` and the validator
abbrev pub callback_error : {B : Type 0} → Urls B → Option String → Option CallbackError
callback_error urls none = none
callback_error urls (some url) = if eqb url "" then none else validate_callback_url urls (some url)

-- the guards before anything is stored; the topological order
unfoldable pub admit {ℓ} :
    {V : Type ℓ} {B : Type 0}
    → Urls B
    → (List String → List String)
    → TaskFrame
    → Tasks V
    → Result Refusal (List String)
admit urls iterate task tasks =
    if leb max_delegate_chain_depth task.delegate_depth
    then err chain_too_deep
    else elim (callback_error urls task.callback_url) [
      | some e ↦ err (bad_callback e)
      | none ↦ elim (validate iterate task.dag) [
        | err e ↦ err (bad_graph e)
        | ok order ↦ elim (Dict.get tasks task.task_id) [
          | some r ↦ err already_known
          | none ↦ ok order
        ]
      ]
    ]
