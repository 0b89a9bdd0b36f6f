-- ===== src/Scheduler/Controller.antt =====
-- services/scheduler-api/src/controllers/workflow-controller.ts and middleware/error-handler.ts, over the
-- tables. A handler gives what `res` or `next` gets, and the tables after it.
pub mod Handled
pub mod Deleted
use Prim.Native.String.{String}
use task_orchestrator_engine.Prelude.{
  ℕ, suc, Bool, true, false, Option, none, some, List, [], ◌∷◌, map, Result, ok, err, if◌then◌else◌,
}
use task_orchestrator_engine.Types.{Ident, Instant, TaskDefinition, Edge, Workflow}
use task_orchestrator_engine.Dag.Validator.{DagValidationError, DagValidationResult, validate_dag}
use task_orchestrator_engine.Scheduler.Tables.{Database, DbError}
use task_orchestrator_engine.Scheduler.Workflows.{
  WorkflowInput, create, find_by_id, update, delete, has_active_executions,
}
use task_orchestrator_engine.Scheduler.Json.{JsonValue}
use task_orchestrator_engine.Scheduler.Bodies.{
  BodyError, type_error, TaskData, EdgeData, WorkflowData, Casts, validate_workflow_body,
}

-- What `createError` carries, and the other errors that reach the error handler.
pub data Failure : Type 0 where
  validation_error : BodyError → Failure
  thrown : Failure
  dag_validation_error : List DagValidationError → Failure
  endless : Failure
  not_found : Ident → Failure
  conflict : Failure
  refused_by_database : DbError → Failure

pub data Response : Type 0 where
  created : Workflow → Response
  sent : Workflow → Response
  no_content : Response
  failed : Failure → Response

-- The status, which `errorHandler` gives for a failure.
abbrev pub failure_status : Failure → ℕ
failure_status (validation_error _) = 400
failure_status thrown = 500
failure_status (dag_validation_error _) = 400
failure_status endless = 500
failure_status (not_found _) = 404
failure_status conflict = 409
failure_status (refused_by_database _) = 500

abbrev pub status : Response → ℕ
status (created _) = 201
status (sent _) = 200
status no_content = 204
status (failed f) = failure_status f

-- The graph that is validated: tasks with their names as temporary ids.
abbrev pub temp_task : Ident → TaskData → TaskDefinition
temp_task workflow t = record {
  id = t.temp_id;
  workflow_id = workflow;
  name = t.name;
  type = t.type;
  config = t.config;
  timeout_ms = t.timeout_ms;
  retry_policy = t.retry_policy;
}

abbrev pub body_failure : BodyError → Failure
body_failure type_error = thrown
body_failure e = validation_error e

abbrev pub dag_failure : Option DagValidationResult → Option Failure
dag_failure none = some endless
dag_failure (some r) = if r.valid then none else some (dag_validation_error r.errors)

abbrev pub input_or_failure : WorkflowInput → Option Failure → Result Failure WorkflowInput
input_or_failure w none = ok w
input_or_failure w (some f) = err f

abbrev pub after_create : Database → Result DbError (Workflow × Database) → Response × Database
after_create db (ok (flow, db')) = (created flow, db')
after_create db (err e) = (failed (refused_by_database e), db)

abbrev pub create_checked : Instant → Database → Result Failure WorkflowInput → Response × Database
create_checked now db (err f) = (failed f, db)
create_checked now db (ok w) = after_create db (create w now db)

abbrev pub after_update :
    Ident → Database → Result DbError (Option Workflow × Database) → Response × Database
after_update id db (ok (some flow, db')) = (sent flow, db')
after_update id db (ok (none, db')) = (failed (not_found id), db')
after_update id db (err e) = (failed (refused_by_database e), db)

abbrev pub update_checked :
    Ident → Instant → Database → Result Failure WorkflowInput → Response × Database
update_checked id now db (err f) = (failed f, db)
update_checked id now db (ok w) = after_update id db (update id w now db)

module _ (edge_id : ℕ → Ident) where
  -- The ids `edge-0`, `edge-1` and so on.
  abbrev pub temp_edges : Ident → ℕ → List EdgeData → List Edge
  temp_edges workflow i [] = []
  temp_edges workflow i (e ∷ es) =
      record {
        id = edge_id i;
        workflow_id = workflow;
        source_task_id = e.source_task_id;
        target_task_id = e.target_task_id;
        condition_expr = e.condition_expr;
      }
      ∷ temp_edges workflow (suc i) es

  abbrev pub workflow_input : Ident → WorkflowData → WorkflowInput
  workflow_input workflow data' = record {
    name = data'.name;
    description = data'.description;
    task_definitions = map (temp_task workflow) data'.task_definitions;
    edges = temp_edges workflow 0 data'.edges;
    trigger_config = data'.trigger_config;
  }

module _ (casts : Casts) (edge_id : ℕ → Ident) where
  -- What `createWorkflow` and `updateWorkflow` do before their call of the repository.
  unfoldable pub validated_input : Ident → JsonValue → Result Failure WorkflowInput
  unfolding validate_workflow_body validate_dag
  validated_input workflow body = elim (validate_workflow_body casts body) [
    | err e ↦ err (body_failure e)
    | ok d ↦
        let w = workflow_input edge_id workflow d in
        input_or_failure w (dag_failure (validate_dag w.task_definitions w.edges))
  ]

  -- `temp` is the text "temp".
  unfoldable pub create_workflow : Ident → JsonValue → Instant → Database → Response × Database
  unfolding validated_input
  create_workflow temp body now db = create_checked now db (validated_input temp body)

  unfoldable pub update_workflow : Ident → JsonValue → Instant → Database → Response × Database
  unfolding validated_input
  update_workflow id body now db = update_checked id now db (validated_input id body)

abbrev pub workflow_or_not_found : Ident → Option Workflow → Response
workflow_or_not_found id none = failed (not_found id)
workflow_or_not_found id (some flow) = sent flow

unfoldable pub get_workflow : Ident → Database → Response
get_workflow id db = workflow_or_not_found id (find_by_id id db)

abbrev pub after_delete : Ident → Database → Result DbError (Bool × Database) → Response × Database
after_delete id db (ok (true, db')) = (no_content, db')
after_delete id db (ok (false, db')) = (failed (not_found id), db')
after_delete id db (err e) = (failed (refused_by_database e), db)

unfoldable pub delete_workflow : Ident → Database → Response × Database
delete_workflow id db =
    if has_active_executions id db then (failed conflict, db) else after_delete id db (delete id db)
