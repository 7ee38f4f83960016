-- ===== src/Nop/Dag/Examples.antt =====
-- Task graphs of nop/validation.py: a diamond, and a cycle behind a start node.
use nps_sdk_python.Prelude.{◌≢◌, refl, String, none, some, err, List, [], ◌∷◌}
use nps_sdk_python.Prelude.Dict
use nps_sdk_python.Nop.Models.{new_node}
use nps_sdk_python.Nop.Dag.{
  TaskDag, validate, key_error, out_of_fuel, collect_ids, add_edges, add_edge, modify, empty_graph,
  check_inputs, check_upstreams, check_conditions, condition_too_long, sort_nodes, kahn, visit,
}
use nps_sdk_python.Nop.Dag.Order.{IsTopological, IsRank}
use nps_sdk_python.Nop.Dag.Validate.{
  IsIteration, node_ids, validate-IsTopological, validate-cycle, validate_total,
}

abbrev as_given : List String → List String
as_given ids = ids

as_given-IsIteration : IsIteration as_given
as_given-IsIteration = record { same = λ ids v. refl; once = λ ids n. n }

abbrev diamond : TaskDag
diamond = record {
  nodes =
      record (new_node "d" "run" "agent") { input_from = "b" ∷ "c" ∷ []; condition = none }
      ∷ record (new_node "a" "run" "agent") { input_from = []; condition = none }
      ∷ record (new_node "b" "run" "agent") { input_from = "a" ∷ []; condition = some "true" }
      ∷ record (new_node "c" "run" "agent") { input_from = []; condition = none }
      ∷ [];
  edges =
      record { source = "a"; target = "b" }
      ∷ record { source = "a"; target = "c" }
      ∷ record { source = "b"; target = "d" }
      ∷ record { source = "c"; target = "d" }
      ∷ [];
}

abbrev looped : TaskDag
looped = record {
  nodes =
      record (new_node "s" "run" "agent") { input_from = []; condition = none }
      ∷ record (new_node "x" "run" "agent") { input_from = []; condition = none }
      ∷ record (new_node "y" "run" "agent") { input_from = []; condition = none }
      ∷ record (new_node "e" "run" "agent") { input_from = []; condition = none }
      ∷ [];
  edges =
      record { source = "s"; target = "x" }
      ∷ record { source = "x"; target = "y" }
      ∷ record { source = "y"; target = "x" }
      ∷ record { source = "y"; target = "e" }
      ∷ [];
}

validate-IsTopological_example :
    IsTopological (node_ids diamond) diamond.edges ("a" ∷ "b" ∷ "c" ∷ "d" ∷ [])
unfolding validate collect_ids add_edges add_edge modify empty_graph check_inputs check_upstreams
    check_conditions condition_too_long sort_nodes kahn visit Dict.get Dict.put Dict.any_value
    Dict.keys_where
validate-IsTopological_example =
    validate-IsTopological as_given as_given-IsIteration diamond ("a" ∷ "b" ∷ "c" ∷ "d" ∷ []) refl

validate-cycle_example : ¬ IsRank looped.edges (λ _. 5)
unfolding validate collect_ids add_edges add_edge modify empty_graph check_inputs check_upstreams
    check_conditions condition_too_long sort_nodes kahn visit Dict.get Dict.put Dict.any_value
    Dict.keys_where
validate-cycle_example = validate-cycle as_given as_given-IsIteration looped (λ _. 5) refl

validate_total_example :
    (validate as_given looped ≢ err key_error) × (validate as_given looped ≢ err out_of_fuel)
validate_total_example = validate_total as_given as_given-IsIteration looped
