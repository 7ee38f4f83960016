-- ===== src/Nop/Orchestrator/Counts.antt =====
-- nps_sdk/nop/orchestrator.py, `_run_saga_compensation`: when it is refused, and the counts of its
-- result.
use nps_sdk_python.Prelude.{
  ◌+◌, ◌≡◌, ◌≢◌, ◌⊎◌, String, true, false, Option, List, [], map, length, string_eq, In, All,
}
use nps_sdk_python.Nop.Models.{DagNode, is_strict}
use nps_sdk_python.Nop.Orchestrator.Saga.{Saga, has_action, replace_node}

-- What a compensation of the COMPLETED nodes `done` reports: it was carried out, or it was refused.
abbrev pub HasCounts : Option String → List DagNode → Saga → Type 0
HasCounts policy done saga =
    ((saga.result.attempted ≡ saga.result.succeeded + saga.result.failed)
      × (saga.result.attempted ≡ length saga.sent)
      × (is_strict policy ≡ true
          → All (λ n. has_action n ≡ true) done × (saga.sent ≡ map replace_node done)))
    ⊎ ((is_strict policy ≡ true)
        × ((n : DagNode) × In n done × (has_action n ≡ false))
        × (saga.sent ≡ [])
        × (saga.result.attempted ≡ 0)
        × (saga.result.succeeded ≡ 0)
        × (saga.result.failed ≡ length saga.result.failed_node_ids)
        × (saga.result.failed ≢ 0))
