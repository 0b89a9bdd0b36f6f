-- ===== src/Dag/Serializer.antt =====
-- packages/shared/src/dag/dag-serializer.ts. `localeCompare` is an argument; `sort` is the stable
-- sort that JavaScript has.
pub mod Canonical
use Prim.Native.String.{String}
use Prim.Native.Nat.{Ordering}
use task_orchestrator_engine.Prelude.{
  Bool, true, false, Option, none, List, [], ◌∷◌, map, ℕ, if◌then◌else◌,
}
use task_orchestrator_engine.Types.{Ident, TaskDefinition, Edge}

pub record SerializedTask : Type 0 where
  pub id : Ident
  pub name : String
  pub type : String

pub record SerializedEdge : Type 0 where
  pub source_task_id : Ident
  pub target_task_id : Ident
  pub condition_expr : Option String

pub record SerializedDag : Type 0 where
  pub tasks : List SerializedTask
  pub edges : List SerializedEdge

-- The stable sort by a test whether one entry may stand before another.
unfoldable pub insert_by {ℓ} : {A : Type ℓ} → (A → A → Bool) → A → List A → List A
insert_by before x [] = x ∷ []
insert_by before x (y ∷ ys) = if before x y then x ∷ y ∷ ys else y ∷ insert_by before x ys

unfoldable pub sort_by {ℓ} : {A : Type ℓ} → (A → A → Bool) → List A → List A
unfolding insert_by
sort_by before [] = []
sort_by before (x ∷ xs) = insert_by before x (sort_by before xs)

abbrev pub not_after : Ordering → Bool
not_after Ordering.lt = true
not_after Ordering.eq = true
not_after Ordering.gt = false

-- The first comparison decides, the second where it says nothing.
abbrev pub first_of : Ordering → Ordering → Ordering
first_of Ordering.lt o = Ordering.lt
first_of Ordering.gt o = Ordering.gt
first_of Ordering.eq o = o

abbrev pub serialized_task : TaskDefinition → SerializedTask
serialized_task t = record { id = t.id; name = t.name; type = t.type }

abbrev pub serialized_edge : Edge → SerializedEdge
serialized_edge e = record {
  source_task_id = e.source_task_id;
  target_task_id = e.target_task_id;
  condition_expr = e.condition_expr;
}

module _ (locale_compare : Ident → Ident → Ordering) where
  abbrev pub task_before : TaskDefinition → TaskDefinition → Bool
  task_before a b = not_after (locale_compare a.id b.id)

  abbrev pub edge_before : Edge → Edge → Bool
  edge_before a b = not_after (
      first_of (locale_compare a.source_task_id b.source_task_id)
        (locale_compare a.target_task_id b.target_task_id))

  unfoldable pub serialize : List TaskDefinition → List Edge → SerializedDag
  unfolding sort_by
  serialize tasks edges = record {
    tasks = map serialized_task (sort_by task_before tasks);
    edges = map serialized_edge (sort_by edge_before edges);
  }

-- The empty string stands for the missing ids.
abbrev pub restored_task : SerializedTask → TaskDefinition
restored_task t = record {
  id = t.id;
  workflow_id = 0;
  name = t.name;
  type = t.type;
  config = "{}";
  timeout_ms = 300000;
  retry_policy = none;
}

abbrev pub restored_edge : SerializedEdge → Edge
restored_edge e = record {
  id = 0;
  workflow_id = 0;
  source_task_id = e.source_task_id;
  target_task_id = e.target_task_id;
  condition_expr = e.condition_expr;
}

unfoldable pub deserialize : SerializedDag → List TaskDefinition × List Edge
deserialize s = (map restored_task s.tasks, map restored_edge s.edges)
