-- ===== src/Scheduler/Tables.antt =====
-- The tables of packages/shared/src/db/migrations/001_workflows.sql and 002_executions.sql, as lists of
-- rows in the order in which they were inserted. The database draws ids from a counter; of the
-- constraints, the keys, the references among these tables and the limits of the columns that take a
-- name, a type or a timeout are kept. A text that exceeds its column by spaces alone, which the
-- database would cut, counts as too long.
use Prim.Native.String.{String}
use task_orchestrator_engine.Prelude.{ℕ, Bool, false, ◌||◌, Option, List, [], ◌∷◌, ◌==◌}
use task_orchestrator_engine.Types.{
  Ident, Instant, TaskDefinition, Edge, TriggerConfig, Execution, TaskState,
}

pub record WorkflowRow : Type 0 where
  pub id : Ident
  pub name : String
  pub description : Option String
  pub trigger_config : TriggerConfig
  pub created_at : Instant
  pub updated_at : Instant

pub record Database : Type 0 where
  pub workflows : List WorkflowRow
  pub task_definitions : List TaskDefinition
  pub edges : List Edge
  pub executions : List Execution
  pub task_states : List TaskState
  pub next_id : ℕ

-- Whether a row of a table has an id.
abbrev pub has_workflow : Ident → List WorkflowRow → Bool
has_workflow id [] = false
has_workflow id (row ∷ rows) = row.id == id || has_workflow id rows

abbrev pub has_task : Ident → List TaskDefinition → Bool
has_task id [] = false
has_task id (row ∷ rows) = row.id == id || has_task id rows

-- A statement that the database refuses.
pub data DbError : Type 0 where
  foreign_key unique_key check_violation value_too_long : DbError
