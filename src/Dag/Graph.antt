-- ===== src/Dag/Graph.antt =====
-- `buildAdjacencyList` of dag-validator.ts, and what an arc and a walk of the graph are.
use task_orchestrator_engine.Prelude.{
  ◌≡◌, refl, sym, ap, ◌∙◌, inl, inr, ==_iff, Option-cases, Bool, true, false, Option, none, some,
  List, [], ◌∷◌, ◌++◌, map, arith, elem, put, ◌==◌, if◌then◌else◌,
}
use mathlib.Core.List.{append-nil, append_assoc}
use task_orchestrator_engine.Types.{Ident, TaskDefinition, Edge}

abbrev pub task_ids : List TaskDefinition → List Ident
task_ids tasks = map (λ t. t.id) tasks

-- `taskIds.has(id)`
abbrev pub is_task : List TaskDefinition → Ident → Bool
is_task tasks id = elem id (task_ids tasks)

-- A `Map<string, string[]>`.
abbrev pub Adjacency : Type 0
Adjacency = Ident → Option (List Ident)

-- The loop over the tasks.
unfoldable pub set_tasks : List TaskDefinition → Adjacency → Adjacency
set_tasks [] m = m
set_tasks (t ∷ ts) m = set_tasks ts (put m t.id (some []))

-- `neighbors.push(edge.targetTaskId)`, if the source has neighbors.
unfoldable pub push_target : Edge → Option (List Ident) → Adjacency → Adjacency
push_target e none m = m
push_target e (some neighbors) m =
    put m e.source_task_id (some (neighbors ++ e.target_task_id ∷ []))

-- The loop over the edges.
unfoldable pub push_edges : List Edge → Adjacency → Adjacency
unfolding push_target
push_edges [] m = m
push_edges (e ∷ es) m = push_edges es (push_target e (m e.source_task_id) m)

unfoldable pub build_adjacency_list : List TaskDefinition → List Edge → Adjacency
unfolding set_tasks push_edges
build_adjacency_list tasks edges = push_edges edges (set_tasks tasks (λ _. none))

-- `adjacency.get(nodeId) || []`
abbrev pub neighbors_of : Option (List Ident) → List Ident
neighbors_of none = []
neighbors_of (some ns) = ns

-- The targets of the edges out of a node, in the order of the edges.
abbrev pub targets : List Edge → Ident → List Ident
targets [] u = []
targets (e ∷ es) u = if e.source_task_id == u then e.target_task_id ∷ targets es u else targets es u

-- An edge between two tasks. Edges that name no task are no arcs: the searches pass over them.
pub record Arc (tasks : List TaskDefinition) (edges : List Edge) (u v : Ident) : Type 0 where
  pub from_task : is_task tasks u ≡ true
  pub to_task : is_task tasks v ≡ true
  pub listed : elem v (targets edges u) ≡ true

-- A walk along one arc or more.
pub data Walk (tasks : List TaskDefinition) (edges : List Edge) (u : Ident) : Ident → Type 0 where
  one : {v : Ident} → Arc tasks edges u v → Walk tasks edges u v
  more : {v w : Ident} → Walk tasks edges u v → Arc tasks edges v w → Walk tasks edges u w

-- Some task lies on a cycle.
abbrev pub HasCycle : List TaskDefinition → List Edge → Type 0
HasCycle tasks edges = (u : Ident) × Walk tasks edges u u

set_tasks_lem :
    (ts : List TaskDefinition) (m : Adjacency) (u : Ident)
    → set_tasks ts m u ≡ (if is_task ts u then some [] else m u)
unfolding set_tasks
set_tasks_lem [] m u = refl
set_tasks_lem (t ∷ ts) m u = ground (arith, set_tasks_lem ts (put m t.id (some [])) u)

abbrev with_more : Option (List Ident) → List Ident → Option (List Ident)
with_more none ts = none
with_more (some ns) ts = some (ns ++ ts)

with_more-nil : (o : Option (List Ident)) → with_more o [] ≡ o
with_more-nil none = refl
with_more-nil (some ns) = rw append-nil

same_key : (m : Adjacency) (a b : Ident) → (a == b) ≡ true → m a ≡ m b
same_key m a b h = ap m ((==_iff a b).0 h)

with_more-append :
    (o : Option (List Ident)) (xs ys : List Ident)
    → with_more (with_more o xs) ys ≡ with_more o (xs ++ ys)
with_more-append none xs ys = refl
with_more-append (some ns) xs ys = ap some (append_assoc ns xs ys)

push_target_lem :
    (e : Edge) (m : Adjacency) (u : Ident)
    → push_target e (m e.source_task_id) m u
      ≡ with_more (m u) (if e.source_task_id == u then e.target_task_id ∷ [] else [])
unfolding push_target
push_target_lem e m u = elim (Option-cases (m e.source_task_id)) [
  | inl absent ↦ ground (arith, same_key m e.source_task_id u, with_more-nil (m u))
  | inr (ns, found) ↦ ground (arith, same_key m e.source_task_id u, with_more-nil (m u))
]

targets_split :
    (b : Bool) (v : Ident) (rest : List Ident)
    → (if b then v ∷ [] else []) ++ rest ≡ (if b then v ∷ rest else rest)
targets_split true v rest = refl
targets_split false v rest = refl

push_edges_lem :
    (es : List Edge) (m : Adjacency) (u : Ident)
    → push_edges es m u ≡ with_more (m u) (targets es u)
unfolding push_edges
push_edges_lem [] m u = sym (with_more-nil (m u))
push_edges_lem (e ∷ es) m u =
    push_edges_lem es (push_target e (m e.source_task_id) m) u
    ∙ ap (λ o. with_more o (targets es u)) (push_target_lem e m u)
    ∙ with_more-append (m u) _ (targets es u)
    ∙ ap (with_more (m u)) (targets_split (e.source_task_id == u) e.target_task_id (targets es u))

with_more-if :
    (b : Bool) (ts : List Ident)
    → with_more (if b then some [] else none) ts ≡ (if b then some ts else none)
with_more-if true ts = refl
with_more-if false ts = refl

-- The list of a task holds the targets of its edges in their order; other nodes have no list.
pub build_adjacency_list_lem :
    (tasks : List TaskDefinition) (edges : List Edge) (u : Ident)
    → build_adjacency_list tasks edges u
      ≡ (if is_task tasks u then some (targets edges u) else none)
unfolding build_adjacency_list
build_adjacency_list_lem tasks edges u =
    push_edges_lem edges (set_tasks tasks (λ _. none)) u
    ∙ ap (λ o. with_more o (targets edges u)) (set_tasks_lem tasks (λ _. none) u)
    ∙ with_more-if (is_task tasks u) (targets edges u)
