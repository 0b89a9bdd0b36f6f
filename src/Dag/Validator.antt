-- ===== src/Dag/Validator.antt =====
-- packages/shared/src/dag/dag-validator.ts. The two searches take fuel; `Validator.Cycles` and
-- `Validator.Reachability` show that it never runs out.
pub mod Cycles
pub mod Bfs
pub mod Reachability
pub mod Descent
pub mod Verdict
use task_orchestrator_engine.Prelude.{
  ℕ, zero, suc, ◌+◌, Bool, true, false, not, ◌&&◌, ◌||◌, Option, none, some, List, [], ◌∷◌, ◌++◌,
  map, length, keep, elem, put, ◌==◌, if◌then◌else◌,
}
use task_orchestrator_engine.Types.{Ident, TaskDefinition, Edge}
use task_orchestrator_engine.Dag.Graph.{task_ids, is_task, targets, build_adjacency_list}
use task_orchestrator_engine.Dag.Search.{white, Trail, Outcome, dfs, start, fresh_path}

-- The closure of `detectCycles` has no `postOrder`.
abbrev pub no_order : Ident → List Ident → List Ident
no_order node order = order

-- The loop over the tasks, which ignores what `dfs` returns.
unfoldable pub detect_from :
    (Ident → Trail → Outcome) → List TaskDefinition → Trail → Option (List (Option Ident))
detect_from visit [] s = some s.cycle_nodes
detect_from visit (t ∷ ts) s =
    let rest = detect_from visit ts in
    elim (s.color t.id) [
      | some white ↦ elim (visit t.id (fresh_path s)) [ some (_, s') ↦ rest s' | none ↦ none ]
      | _ ↦ rest s
    ]

unfoldable pub detect_cycles : List TaskDefinition → List Edge → Option (List (Option Ident))
unfolding detect_from dfs start build_adjacency_list
detect_cycles tasks edges =
    detect_from (dfs (build_adjacency_list tasks edges) no_order (length tasks)) tasks (start tasks)

-- `taskIds.has(e.sourceTaskId) && taskIds.has(e.targetTaskId)`
abbrev pub is_valid_edge : List TaskDefinition → Edge → Bool
is_valid_edge tasks e = is_task tasks e.source_task_id && is_task tasks e.target_task_id

unfoldable pub validate_edge_references : List TaskDefinition → List Edge → List (Ident × Ident)
validate_edge_references tasks [] = []
validate_edge_references tasks (e ∷ es) =
    if is_valid_edge tasks e
    then validate_edge_references tasks es
    else (e.source_task_id, e.target_task_id) ∷ validate_edge_references tasks es

-- `incomingCount`: 0 for each task, and one more for each edge into a task.
abbrev pub Counts : Type 0
Counts = Ident → Option ℕ

unfoldable pub zero_counts : List TaskDefinition → Counts → Counts
zero_counts [] c = c
zero_counts (t ∷ ts) c = zero_counts ts (put c t.id (some 0))

abbrev pub bump : Option ℕ → Option ℕ
bump none = none
bump (some n) = some (n + 1)

unfoldable pub count_incoming : List Edge → Counts → Counts
count_incoming [] c = c
count_incoming (e ∷ es) c = count_incoming es (put c e.target_task_id (bump (c e.target_task_id)))

abbrev pub is_zero : Option ℕ → Bool
is_zero (some n) = n == 0
is_zero none = false

unfoldable pub incoming_count : List TaskDefinition → List Edge → Counts
unfolding zero_counts count_incoming
incoming_count tasks edges = count_incoming edges (zero_counts tasks (λ _. none))

-- The ids of the tasks with no incoming edge.
unfoldable pub root_ids : List TaskDefinition → Counts → List Ident
root_ids [] c = []
root_ids (t ∷ ts) c = if is_zero (c t.id) then t.id ∷ root_ids ts c else root_ids ts c

-- The breadth-first loop: `visited` is in the order of insertion; `none` if the fuel ran out.
unfoldable pub bfs : ℕ → List Edge → List Ident → List Ident → Option (List Ident)
bfs zero edges queue visited = none
bfs (suc fuel) edges [] visited = some visited
bfs (suc fuel) edges (current ∷ queue) visited =
    let skip = bfs fuel edges queue visited in
    let visited' = visited ++ current ∷ [] in
    let new = keep (λ n. not (elem n visited')) (targets edges current) in
    let go = bfs fuel edges (queue ++ new) visited' in if elem current visited then skip else go

abbrev pub unvisited : List Ident → List TaskDefinition → List Ident
unvisited visited tasks = keep (λ id. not (elem id visited)) (task_ids tasks)

-- Every round takes one id from the queue, and an edge puts one there once.
abbrev pub bfs_fuel : List TaskDefinition → List Edge → ℕ
bfs_fuel tasks edges = suc (length tasks + length edges)

unfoldable pub check_reachability : List TaskDefinition → List Edge → Option (List Ident)
unfolding incoming_count root_ids bfs
check_reachability tasks edges =
    elim (bfs (bfs_fuel tasks edges) edges (root_ids tasks (incoming_count tasks edges)) []) [
      | none ↦ none
      | some visited ↦ some (unvisited visited tasks)
    ]

-- An error with its `edges` or `nodes`; the message follows from their number.
pub data DagValidationError : Type 0 where
  invalid_edge_reference : List (Ident × Ident) → DagValidationError
  cycle_detected : List (Option Ident) → DagValidationError
  unreachable_nodes : List Ident → DagValidationError

pub record DagValidationResult : Type 0 where
  pub valid : Bool
  pub errors : List DagValidationError

abbrev pub edge_errors : List (Ident × Ident) → List DagValidationError
edge_errors [] = []
edge_errors (e ∷ es) = invalid_edge_reference (e ∷ es) ∷ []

abbrev pub node_errors : List Ident → List DagValidationError
node_errors [] = []
node_errors (n ∷ ns) = unreachable_nodes (n ∷ ns) ∷ []

-- The second and third check: reachability is only looked at without a cycle.
unfoldable pub structure_errors :
    List TaskDefinition
    → List Edge
    → Option (List (Option Ident))
    → Option (List DagValidationError)
unfolding check_reachability
structure_errors tasks edges none = none
structure_errors tasks edges (some (n ∷ ns)) = some (cycle_detected (n ∷ ns) ∷ [])
structure_errors tasks edges (some []) = elim (check_reachability tasks edges) [
  | none ↦ none
  | some nodes ↦ some (node_errors nodes)
]

abbrev pub no_errors : List DagValidationError → Bool
no_errors [] = true
no_errors (_ ∷ _) = false

unfoldable pub validate_dag : List TaskDefinition → List Edge → Option DagValidationResult
unfolding validate_edge_references detect_cycles structure_errors
validate_dag tasks edges =
    let valid_edges = keep (is_valid_edge tasks) edges in
    elim (structure_errors tasks valid_edges (detect_cycles tasks valid_edges)) [
      | none ↦ none
      | some more ↦
          let errors = edge_errors (validate_edge_references tasks edges) ++ more in
          some (record { valid = no_errors errors; errors = errors })
    ]
