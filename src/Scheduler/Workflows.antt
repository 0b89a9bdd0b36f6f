-- ===== src/Scheduler/Workflows.antt =====
-- services/scheduler-api/src/repositories/workflow-repository.ts. A transaction gives its value and the
-- tables after it, or the error after which it is rolled back, so that the tables stay as they were.
pub mod Inserted
pub mod Stored
use Prim.Native.String.{String}
use Prim.Native.String
use task_orchestrator_engine.Prelude.{
  ℕ, suc, ◌+◌, ◌*◌, ◌-◌, min, Bool, true, false, not, ◌&&◌, ◌||◌, Option, none, some, List, [], ◌∷◌,
  ◌++◌, map, keep, any_of, every, length, leb, ◌==◌, if◌then◌else◌, Result, ok, err, ◌>>=◌,
}
use task_orchestrator_engine.Types.{
  Ident, Instant, TaskDefinition, Edge, TriggerConfig, Workflow, Execution, ExecutionStatus,
  ExecutionStatus.pending, ExecutionStatus.running, TaskState,
}
use task_orchestrator_engine.Scheduler.Tables.{
  WorkflowRow, Database, has_workflow, has_task, DbError, foreign_key, unique_key, value_too_long,
}
use task_orchestrator_engine.Scheduler.TaskStates.{text_or_null}

-- `Omit<Workflow, 'id' | 'createdAt' | 'updatedAt'>`
pub record WorkflowInput : Type 0 where
  pub name : String
  pub description : Option String
  pub task_definitions : List TaskDefinition
  pub edges : List Edge
  pub trigger_config : TriggerConfig

-- `VARCHAR(255)`, for the name of a workflow or of a task
abbrev pub name_fits : String → Bool
name_fits name = leb (String.count name) 255

-- `name VARCHAR(255)`, `type VARCHAR(50)` and `timeout_ms INTEGER`
abbrev pub task_fits : TaskDefinition → Bool
task_fits task =
    name_fits task.name && (leb (String.count task.type) 50 && leb task.timeout_ms 2147483647)

-- Whether the columns can hold the values of a workflow and of its tasks.
unfoldable pub fits : WorkflowInput → Bool
fits w = name_fits w.name && every task_fits w.task_definitions

-- `INSERT INTO task_definitions`, whose id the database draws.
abbrev pub drawn_task : Ident → ℕ → TaskDefinition → TaskDefinition
drawn_task workflow id task = record task { id = id; workflow_id = workflow }

unfoldable pub drawn_tasks : Ident → ℕ → List TaskDefinition → List TaskDefinition
drawn_tasks workflow id [] = []
drawn_tasks workflow id (task ∷ tasks) =
    drawn_task workflow id task ∷ drawn_tasks workflow (suc id) tasks

unfoldable pub insert_tasks :
    Ident → List TaskDefinition → Database → List TaskDefinition × Database
unfolding drawn_tasks
insert_tasks workflow tasks db =
    let rows = drawn_tasks workflow db.next_id tasks in
    (
      rows,
      record db {
        task_definitions = db.task_definitions ++ rows;
        next_id = db.next_id + length tasks;
      },
    )

abbrev pub same_edge : Ident → Edge → Edge → Bool
same_edge workflow edge row =
    row.workflow_id == workflow
    && (row.source_task_id == edge.source_task_id && row.target_task_id == edge.target_task_id)

abbrev pub drawn_edge : Ident → ℕ → Edge → Edge
drawn_edge workflow id edge = record edge {
  id = id;
  workflow_id = workflow;
  condition_expr = text_or_null edge.condition_expr;
}

-- `INSERT INTO edges`: both tasks must be rows, and no row may have the same three ids.
unfoldable pub insert_edge : Ident → Edge → Database → Result DbError (Edge × Database)
insert_edge workflow edge db =
    if not (
      has_task edge.source_task_id db.task_definitions
      && has_task edge.target_task_id db.task_definitions)
    then err foreign_key
    else if any_of (λ row. same_edge workflow edge row) db.edges
    then err unique_key
    else ok (
      drawn_edge workflow db.next_id edge,
      record db {
        edges = db.edges ++ drawn_edge workflow db.next_id edge ∷ [];
        next_id = suc db.next_id;
      },
    )

unfoldable pub insert_edges : Ident → List Edge → Database → Result DbError (List Edge × Database)
unfolding insert_edge
insert_edges workflow [] db = ok ([], db)
insert_edges workflow (edge ∷ edges) db = do
  (row, db1) ← insert_edge workflow edge db
  (rows, db2) ← insert_edges workflow edges db1
  ok (row ∷ rows, db2)

abbrev pub inserted_row : WorkflowInput → Instant → ℕ → WorkflowRow
inserted_row w now id = record {
  id = id;
  name = w.name;
  description = text_or_null w.description;
  trigger_config = w.trigger_config;
  created_at = now;
  updated_at = now;
}

abbrev pub insert_workflow : WorkflowInput → Instant → Database → Database
insert_workflow w now db = record db {
  workflows = db.workflows ++ inserted_row w now db.next_id ∷ [];
  next_id = suc db.next_id;
}

abbrev pub assembled : WorkflowRow → List TaskDefinition → List Edge → Workflow
assembled row tasks edges = record {
  id = row.id;
  name = row.name;
  description = text_or_null row.description;
  task_definitions = tasks;
  edges = edges;
  trigger_config = row.trigger_config;
  created_at = row.created_at;
  updated_at = row.updated_at;
}

unfoldable pub create : WorkflowInput → Instant → Database → Result DbError (Workflow × Database)
unfolding insert_tasks insert_edges fits
create w now db = if not (fits w) then err value_too_long else (do
  let row = inserted_row w now db.next_id
  let (tasks, db1) = insert_tasks row.id w.task_definitions (insert_workflow w now db)
  (edges, db2) ← insert_edges row.id w.edges db1
  ok (assembled row tasks edges, db2))

abbrev pub tasks_of : Ident → Database → List TaskDefinition
tasks_of id db = keep (λ t. t.workflow_id == id) db.task_definitions

-- `conditionExpr: r.condition_expr || undefined`
abbrev pub read_edge : Edge → Edge
read_edge row = record row { condition_expr = text_or_null row.condition_expr }

abbrev pub edges_of : Ident → Database → List Edge
edges_of id db = map read_edge (keep (λ e. e.workflow_id == id) db.edges)

abbrev pub find_workflow : Ident → List WorkflowRow → Option WorkflowRow
find_workflow id [] = none
find_workflow id (row ∷ rows) = if row.id == id then some row else find_workflow id rows

abbrev pub read_workflow : Database → WorkflowRow → Workflow
read_workflow db row = assembled row (tasks_of row.id db) (edges_of row.id db)

abbrev pub read_found : Database → Option WorkflowRow → Option Workflow
read_found db none = none
read_found db (some row) = some (read_workflow db row)

unfoldable pub find_by_id : Ident → Database → Option Workflow
find_by_id id db = read_found db (find_workflow id db.workflows)

-- `status IN ('pending', 'running')`
abbrev pub is_active : ExecutionStatus → Bool
is_active pending = true
is_active running = true
is_active _ = false

unfoldable pub has_active_executions : Ident → Database → Bool
has_active_executions id db = any_of (λ e. e.workflow_id == id && is_active e.status) db.executions

abbrev pub updated_workflow : WorkflowInput → Instant → WorkflowRow → WorkflowRow
updated_workflow w now row = record row {
  name = w.name;
  description = text_or_null w.description;
  trigger_config = w.trigger_config;
  updated_at = now;
}

abbrev pub update_workflows :
    (WorkflowRow → WorkflowRow) → Ident → List WorkflowRow → List WorkflowRow
update_workflows change id rows = map (λ row. if row.id == id then change row else row) rows

-- Whether a task state refers to a task of the workflow: such a task cannot be deleted.
abbrev pub tasks_referenced : Ident → Database → Bool
tasks_referenced id db = any_of (λ s. has_task s.task_definition_id (tasks_of id db)) db.task_states

-- An edge of the workflow, or one that is deleted along with a task of it.
abbrev pub edge_goes : Ident → Database → Edge → Bool
edge_goes id db edge =
    edge.workflow_id == id
    || (has_task edge.source_task_id (tasks_of id db)
        || has_task edge.target_task_id (tasks_of id db))

unfoldable pub delete_graph : Ident → Database → Result DbError Database
delete_graph id db =
    if tasks_referenced id db
    then err foreign_key
    else ok (record db {
      task_definitions = keep (λ t. not (t.workflow_id == id)) db.task_definitions;
      edges = keep (λ e. not (edge_goes id db e)) db.edges;
    })

abbrev pub update_found :
    WorkflowInput
    → Instant
    → Database
    → Option WorkflowRow
    → Result DbError (Option Workflow × Database)
update_found w now db none = ok (none, db)
update_found w now db (some row) = if not (name_fits w.name) then err value_too_long else (do
  db1 ←
      delete_graph row.id
        (record db { workflows = update_workflows (updated_workflow w now) row.id db.workflows })
  if not (every task_fits w.task_definitions) then err value_too_long else (do
    let (tasks, db2) = insert_tasks row.id w.task_definitions db1
    (edges, db3) ← insert_edges row.id w.edges db2
    ok (some (assembled (updated_workflow w now row) tasks edges), db3)))

unfoldable pub update :
    Ident → WorkflowInput → Instant → Database → Result DbError (Option Workflow × Database)
unfolding delete_graph insert_tasks insert_edges
update id w now db = update_found w now db (find_workflow id db.workflows)

-- `DELETE FROM workflows`: its tasks and edges go with it, its executions do not.
unfoldable pub delete : Ident → Database → Result DbError (Bool × Database)
unfolding delete_graph
delete id db =
    if not (has_workflow id db.workflows)
    then ok (false, db)
    else if any_of (λ e. e.workflow_id == id) db.executions
    then err foreign_key
    else (do
      db1 ← delete_graph id db
      ok (true, record db1 { workflows = keep (λ row. not (row.id == id)) db1.workflows }))
