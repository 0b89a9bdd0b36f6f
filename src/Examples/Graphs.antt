-- ===== src/Examples/Graphs.antt =====
-- Two workflows: a fork that joins again, and a cycle.
use task_orchestrator_engine.Prelude.{
  ◌≡◌, ◌↔◌, ◌⊎◌, refl, true, false, none, some, List, [], ◌∷◌, any_of, inl, inr, sym, ◌∙◌, arith,
}
use task_orchestrator_engine.Types.{Ident, TaskDefinition, Edge}
use task_orchestrator_engine.Dag.Graph.{HasCycle}
use Prim.Native.Nat.{compare}
use task_orchestrator_engine.Dag.Serializer.{task_before, edge_before, serialize, deserialize}
use task_orchestrator_engine.Dag.Serializer.Canonical.{IsChain, IsComparison, serialize-deserialize}
use task_orchestrator_engine.Dag.Sort.{TopologicalSortResult, topological_sort}
use task_orchestrator_engine.Dag.Sort.Correct.{IsOrder, topological_sort-decides}
use task_orchestrator_engine.Dag.Validator.{DagValidationResult, validate_dag}
use task_orchestrator_engine.Dag.Validator.Descent.{AllValid}
use task_orchestrator_engine.Dag.Validator.Verdict.{is_unreachable, validate_dag-decides}

abbrev task : Ident → TaskDefinition
task id = record {
  id = id;
  workflow_id = 1;
  name = "task";
  type = "delay";
  config = "{}";
  timeout_ms = 0;
  retry_policy = none;
}

abbrev edge : Ident → Ident → Edge
edge from to = record {
  id = 9;
  workflow_id = 1;
  source_task_id = from;
  target_task_id = to;
  condition_expr = none;
}

abbrev tasks : List TaskDefinition
tasks = task 1 ∷ task 2 ∷ task 3 ∷ task 4 ∷ []

abbrev diamond : List Edge
diamond = edge 1 2 ∷ edge 1 3 ∷ edge 2 4 ∷ edge 3 4 ∷ []

abbrev ring : List Edge
ring = edge 2 3 ∷ edge 3 2 ∷ edge 3 4 ∷ []

diamond_order :
    topological_sort tasks diamond
    ≡ some (record { valid = true; order = 1 ∷ 3 ∷ 2 ∷ 4 ∷ []; cycle_nodes = none })
unfolding topological_sort
diamond_order = refl

topological_sort-decides_example :
    (r : TopologicalSortResult) × (topological_sort tasks diamond ≡ some r)
    × (((r.valid ≡ true) × IsOrder tasks diamond r.order × (¬ HasCycle tasks diamond))
        ⊎ ((r.valid ≡ false) × (r.order ≡ []) × HasCycle tasks diamond))
topological_sort-decides_example = topological_sort-decides tasks diamond

validate_dag-decides_example :
    (r : DagValidationResult) × (validate_dag tasks ring ≡ some r)
    × ((r.valid ≡ true) ↔ (AllValid tasks ring × (¬ HasCycle tasks ring)))
    × (any_of (is_unreachable tasks ring) r.errors ≡ false)
validate_dag-decides_example = validate_dag-decides tasks ring

-- The sort of the first workflow is valid, so it has no cycle.
diamond_acyclic : ¬ HasCycle tasks diamond
diamond_acyclic =
    let (r, e, answer) = topological_sort-decides tasks diamond in
    let same = sym e ∙ diamond_order in
    elim answer [ inl (_, _, acyclic) ↦ acyclic | inr (bad, _, _) ↦ ground arith ]

compare-IsComparison : IsComparison compare
compare-IsComparison = record { equal = λ a b h. ground arith; greater = λ a b h. ground arith }

serialize-deserialize_example :
    IsChain (task_before compare) (deserialize (serialize compare tasks ring)).0
    × IsChain (edge_before compare) (deserialize (serialize compare tasks ring)).1
    × (serialize compare
          (deserialize (serialize compare tasks ring)).0
          (deserialize (serialize compare tasks ring)).1
        ≡ serialize compare tasks ring)
serialize-deserialize_example = serialize-deserialize compare compare-IsComparison tasks ring
