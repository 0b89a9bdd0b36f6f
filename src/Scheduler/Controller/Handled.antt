-- ===== src/Scheduler/Controller/Handled.antt =====
-- The whole of `createWorkflow` and of `updateWorkflow` of
-- services/scheduler-api/src/controllers/workflow-controller.ts.
use task_orchestrator_engine.Prelude.{
  ◌≡◌, ◌≢◌, ◌<◌, refl, ap, ◌∙◌, inl, inr, ◌⊎◌, ◌↔◌, if◌then◌else◌, ℕ, true, false, Option, some,
  List, [], ◌∷◌, length, Bool-cases, Result, ok, err, Ends, done, threw,
}
use task_orchestrator_engine.Types.{Ident, Instant, Edge, Workflow}
use task_orchestrator_engine.Dag.Graph.{HasCycle}
use task_orchestrator_engine.Dag.Validator.{DagValidationError, DagValidationResult}
use task_orchestrator_engine.Dag.Validator.Descent.{AllValid}
use task_orchestrator_engine.Dag.Validator.Verdict.{validate_dag-decides}
use task_orchestrator_engine.Scheduler.Tables.{
  Database, DbError, foreign_key, value_too_long, has_task,
}
use task_orchestrator_engine.Scheduler.Workflows.{WorkflowInput, fits}
use task_orchestrator_engine.Scheduler.Workflows.Stored.{IsFresh, created, create-foreign_key}
use task_orchestrator_engine.Scheduler.Json.{JsonValue}
use task_orchestrator_engine.Scheduler.Bodies.{
  BodyError, WorkflowData, Casts, validate_workflow_body,
}
use task_orchestrator_engine.Scheduler.Bodies.Accepted.{is_acceptable, validate_workflow_body-Says}
use task_orchestrator_engine.Scheduler.Controller.{
  Response, sent, failed, body_failure, Failure, dag_validation_error, refused_by_database,
  workflow_input, validated_input, input_or_failure, dag_failure, create_checked, after_create,
  create_workflow, get_workflow,
}

-- The edges join tasks of the workflow, and there is no cycle.
abbrev pub IsDag : WorkflowInput → Type 0
IsDag w = AllValid w.task_definitions w.edges × (¬ HasCycle w.task_definitions w.edges)

module _ (casts : Casts) (edge_id : ℕ → Ident) where
  -- What the checks before the repository's call find.
  pub data IsChecked (workflow : Ident) (body : JsonValue)
      : Result Failure WorkflowInput → Type 0 where
    malformed :
        (e : BodyError)
        → is_acceptable body ≡ false
        → IsChecked workflow body (err (body_failure e))
    no_dag :
        {d : WorkflowData} {errors : List DagValidationError}
        → is_acceptable body ≡ true
        → validate_workflow_body casts body ≡ ok d
        → ¬ IsDag (workflow_input edge_id workflow d)
        → IsChecked workflow body (err (dag_validation_error errors))
    checked :
        (d : WorkflowData)
        → is_acceptable body ≡ true
        → validate_workflow_body casts body ≡ ok d
        → IsDag (workflow_input edge_id workflow d)
        → IsChecked workflow body (ok (workflow_input edge_id workflow d))

  pub validated_input-IsChecked :
      (workflow : Ident) (body : JsonValue)
      → IsChecked workflow body (validated_input casts edge_id workflow body)
  unfolding validated_input
  validated_input-IsChecked workflow body = over (validate_workflow_body-Says casts body) refl
    where
      decided :
          (d : WorkflowData) (o : Option DagValidationResult) (r : DagValidationResult)
          → is_acceptable body ≡ true
          → validate_workflow_body casts body ≡ ok d
          → o ≡ some r
          → ((r.valid ≡ true) ↔ IsDag (workflow_input edge_id workflow d))
          → IsChecked workflow body
              (input_or_failure (workflow_input edge_id workflow d) (dag_failure o))
      decided d o r good e found (sound, complete) = elim (Bool-cases r.valid) [
        | inl valid ↦ rw (found, valid) (checked d good e (sound valid))
        | inr bad ↦ rw (found, bad) (no_dag good e (λ dag. cc (complete dag)))
      ]

      over :
          {r : Result BodyError WorkflowData}
          → Ends (λ _. is_acceptable body ≡ true) (λ _. is_acceptable body ≡ false) r
          → validate_workflow_body casts body ≡ r
          → IsChecked workflow body (validated_input casts edge_id workflow body)
      over (threw {e = reason} bad) e = rw (e, validated_input) (malformed reason bad)
      over (done {a = d} good) e =
          let w = workflow_input edge_id workflow d in
          let (r, found, exact, _) = validate_dag-decides w.task_definitions w.edges in
          rw (e, validated_input) (decided d _ r good e found exact)

  -- How a request to create a workflow is answered, and what the tables are then.
  pub data IsHandled (temp : Ident) (body : JsonValue) (db : Database)
      : Response × Database → Type 0 where
    rejected :
        (e : BodyError)
        → is_acceptable body ≡ false
        → IsHandled temp body db (failed (body_failure e), db)
    not_a_dag :
        {d : WorkflowData} {errors : List DagValidationError}
        → is_acceptable body ≡ true
        → validate_workflow_body casts body ≡ ok d
        → ¬ IsDag (workflow_input edge_id temp d)
        → IsHandled temp body db (failed (dag_validation_error errors), db)
    not_stored :
        (d : WorkflowData) {e : DbError}
        → is_acceptable body ≡ true
        → validate_workflow_body casts body ≡ ok d
        → IsDag (workflow_input edge_id temp d)
        → ((workflow_input edge_id temp d).edges ≢ [])
          ⊎ (fits (workflow_input edge_id temp d) ≡ false)
        → IsHandled temp body db (failed (refused_by_database e), db)
    stored :
        (d : WorkflowData) {flow : Workflow} {db' : Database}
        → is_acceptable body ≡ true
        → validate_workflow_body casts body ≡ ok d
        → IsDag (workflow_input edge_id temp d)
        → fits (workflow_input edge_id temp d) ≡ true
        → flow.name ≡ d.name
        → length flow.task_definitions ≡ length (workflow_input edge_id temp d).task_definitions
        → get_workflow flow.id db' ≡ sent flow
        → IsFresh db'
        → IsHandled temp body db (Response.created flow, db')

  -- A body that passes the checks and whose first edge starts at a temporary id that was drawn before
  -- and is not the id of a task's row is answered 500, and nothing is stored: the edges of a body name
  -- its tasks, and the database knows only the ids that it draws.
  pub create_workflow-foreign_key :
      (temp : Ident) (body : JsonValue) (now : Instant) (db : Database) (w : WorkflowInput)
      (edge : Edge) (edges : List Edge)
      → validated_input casts edge_id temp body ≡ ok w
      → w.edges ≡ edge ∷ edges
      → edge.source_task_id < db.next_id
      → has_task edge.source_task_id db.task_definitions ≡ false
      → create_workflow casts edge_id temp body now db
        ≡ (failed (refused_by_database (if fits w then foreign_key else value_too_long)), db)
  unfolding create_workflow
  create_workflow-foreign_key temp body now db w edge edges passed e l h =
      ap (create_checked now db) passed
      ∙ ap (after_create db) (create-foreign_key w now db edge edges e l h)
