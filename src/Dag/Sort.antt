-- ===== src/Dag/Sort.antt =====
-- packages/shared/src/dag/topological-sorter.ts. The fuel of the search is the number of tasks.
pub mod Order
pub mod Correct
use task_orchestrator_engine.Prelude.{
  ℕ, Bool, true, false, Option, none, some, List, [], ◌∷◌, ◌++◌, reverse, length,
}
use task_orchestrator_engine.Types.{Ident, TaskDefinition, Edge}
use task_orchestrator_engine.Dag.Graph.{build_adjacency_list}
use task_orchestrator_engine.Dag.Search.{white, Trail, Outcome, dfs, start, fresh_path}

pub record TopologicalSortResult : Type 0 where
  pub valid : Bool
  pub order : List Ident
  pub cycle_nodes : Option (List (Option Ident))

-- `postOrder.push(nodeId)`
abbrev pub push_finished : Ident → List Ident → List Ident
push_finished node order = order ++ node ∷ []

-- The loop over the tasks, and the result behind it. A call that returns `true` ends it.
unfoldable pub sort_from :
    (Ident → Trail → Outcome) → List TaskDefinition → Trail → Option TopologicalSortResult
sort_from visit [] s =
    some (record { valid = true; order = reverse s.post_order; cycle_nodes = none })
sort_from visit (t ∷ ts) s =
    let rest = sort_from visit ts in
    elim (s.color t.id) [
      | some white ↦ elim (visit t.id (fresh_path s)) [
        | some (true, s') ↦
            some (record { valid = false; order = []; cycle_nodes = some s'.cycle_nodes })
        | some (false, s') ↦ rest s'
        | none ↦ none
      ]
      | _ ↦ rest s
    ]

unfoldable pub topological_sort : List TaskDefinition → List Edge → Option TopologicalSortResult
unfolding sort_from dfs start build_adjacency_list
topological_sort tasks edges =
    sort_from (dfs (build_adjacency_list tasks edges) push_finished (length tasks)) tasks
      (start tasks)
