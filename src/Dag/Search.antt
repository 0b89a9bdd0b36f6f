-- ===== src/Dag/Search.antt =====
-- The depth-first search that `detectCycles` (dag-validator.ts) and `topologicalSort`
-- (topological-sorter.ts) share. The two closures `dfs` have the same text, except that the second
-- pushes the finished node to `postOrder`: that line is the parameter `finish`.
pub mod Total
pub mod Colors
pub mod Invariant
pub mod Rule
use task_orchestrator_engine.Prelude.{
  ℕ, zero, suc, ◌≡◌, refl, Bool, true, false, Option, none, some, List, [], ◌∷◌, ◌++◌, ◌||◌, map,
  arith, elem, put, ◌==◌, if◌then◌else◌,
}
use task_orchestrator_engine.Types.{Ident, TaskDefinition, Edge}
use task_orchestrator_engine.Dag.Graph.{Adjacency, neighbors_of}

pub data Color : Type 0 where
  white gray black : Color

-- The variables that the closure captures: `color`, `path`, `cycleNodes` and `postOrder`. A member
-- `none` of `cycleNodes` is the value `undefined`, which `path[-1]` yields.
pub record Trail : Type 0 where
  pub color : Ident → Option Color
  pub path : List Ident
  pub cycle_nodes : List (Option Ident)
  pub post_order : List Ident

abbrev pub same : Option Ident → Option Ident → Bool
same none none = true
same (some a) (some b) = a == b
same _ _ = false

abbrev pub has_node : Option Ident → List (Option Ident) → Bool
has_node a [] = false
has_node a (x ∷ xs) = same a x || has_node a xs

-- `cycleNodes.add(node)`
unfoldable pub add_node : Option Ident → List (Option Ident) → List (Option Ident)
add_node a set = if has_node a set then set else set ++ a ∷ []

unfoldable pub add_nodes : List (Option Ident) → List (Option Ident) → List (Option Ident)
unfolding add_node
add_nodes [] set = set
add_nodes (a ∷ rest) set = add_nodes rest (add_node a set)

-- `path.slice(path.indexOf(node))`, or `none` where `indexOf` is -1.
unfoldable pub path_from : Ident → List Ident → Option (List Ident)
path_from node [] = none
path_from node (x ∷ xs) = if x == node then some (x ∷ xs) else path_from node xs

-- The loop `for (let i = cycleStart; i < path.length; i++)`: from -1 it reads `path[-1]` first.
unfoldable pub cycle_part : Option (List Ident) → List Ident → List (Option Ident)
cycle_part (some part) path = map some part
cycle_part none path = none ∷ map some path

-- A gray neighbor closes a cycle.
unfoldable pub record_cycle : Ident → Trail → Trail
unfolding add_nodes path_from cycle_part
record_cycle neighbor s = record s {
  cycle_nodes =
      add_node (some neighbor)
        (add_nodes (cycle_part (path_from neighbor s.path) s.path) s.cycle_nodes);
}

-- `path.pop()`
unfoldable pub drop_last : List Ident → List Ident
drop_last [] = []
drop_last (x ∷ []) = []
drop_last (x ∷ y ∷ rest) = x ∷ drop_last (y ∷ rest)

unfoldable pub enter : Ident → Trail → Trail
enter node s = record s { color = put s.color node (some gray); path = s.path ++ node ∷ [] }

-- The outcome of a call: what it returned and the variables after it; `none` if the fuel ran out.
abbrev pub Outcome : Type 0
Outcome = Option (Bool × Trail)

-- The loop over the neighbors; `visit` is the recursive call.
unfoldable pub scan : (Ident → Trail → Outcome) → List Ident → Trail → Outcome
unfolding record_cycle
scan visit [] s = some (false, s)
scan visit (n ∷ ns) s =
    let rest = scan visit ns in
    elim (s.color n) [
      | some gray ↦ some (true, record_cycle n s)
      | some white ↦ elim (visit n s) [
        | some (false, s') ↦ rest s'
        | some (true, s') ↦ some (true, s')
        | none ↦ none
      ]
      | _ ↦ rest s
    ]

module _ (adjacency : Adjacency) (finish : Ident → List Ident → List Ident) where
  unfoldable pub leave : Ident → Trail → Trail
  unfolding drop_last
  leave node s = record s {
    color = put s.color node (some black);
    path = drop_last s.path;
    post_order = finish node s.post_order;
  }

  unfoldable pub close : Ident → Outcome → Outcome
  unfolding leave
  close node (some (false, s)) = some (false, leave node s)
  close node (some (true, s)) = some (true, s)
  close node none = none

  unfoldable pub dfs : ℕ → Ident → Trail → Outcome
  unfolding scan enter close
  dfs zero node s = none
  dfs (suc fuel) node s =
      close node (scan (dfs fuel) (neighbors_of (adjacency node)) (enter node s))

-- `color.set(task.id, WHITE)` for every task.
unfoldable pub all_white : List TaskDefinition → (Ident → Option Color) → Ident → Option Color
all_white [] color = color
all_white (t ∷ ts) color = all_white ts (put color t.id (some white))

unfoldable pub start : List TaskDefinition → Trail
unfolding all_white
start tasks = record {
  color = all_white tasks (λ _. none);
  path = [];
  cycle_nodes = [];
  post_order = [];
}

-- Each call from outside gets a new array: `dfs(task.id, [])`.
abbrev pub fresh_path : Trail → Trail
fresh_path s = record s { path = [] }
