-- ===== src/Scheduler/Controller/Deleted.antt =====
-- `deleteWorkflow` of services/scheduler-api/src/controllers/workflow-controller.ts.
use task_orchestrator_engine.Prelude.{
  ◌≡◌, refl, ap, inl, inr, Bool, true, false, not, ◌&&◌, ◌||◌, none, List, [], ◌∷◌, map, arith,
  keep, any_of, ◌==◌, Bool-cases,
}
use task_orchestrator_engine.Types.{Ident, TaskDefinition, Edge, Execution}
use task_orchestrator_engine.Scheduler.Tables.{WorkflowRow, Database, foreign_key, has_workflow}
use task_orchestrator_engine.Scheduler.Workflows.{
  has_active_executions, is_active, tasks_of, edges_of, edge_goes, read_edge, find_workflow,
  read_found, find_by_id, tasks_referenced, delete_graph, delete,
}
use task_orchestrator_engine.Scheduler.Controller.{
  Response, no_content, failed, conflict, not_found, refused_by_database, workflow_or_not_found,
  get_workflow, after_delete, delete_workflow,
}

abbrev pub has_execution : Ident → Database → Bool
has_execution id db = any_of (λ e. e.workflow_id == id) db.executions

-- How the request is answered; `other` is another workflow's id.
pub data IsDeleted (id other : Ident) (db : Database) : Response × Database → Type 0 where
  active : has_active_executions id db ≡ true → IsDeleted id other db (failed conflict, db)
  unknown :
      has_active_executions id db ≡ false
      → has_workflow id db.workflows ≡ false
      → IsDeleted id other db (failed (not_found id), db)
  executed :
      has_active_executions id db ≡ false
      → has_workflow id db.workflows ≡ true
      → (has_execution id db || tasks_referenced id db) ≡ true
      → IsDeleted id other db (failed (refused_by_database foreign_key), db)
  gone :
      {db' : Database}
      → has_workflow id db.workflows ≡ true
      → (has_execution id db || tasks_referenced id db) ≡ false
      → get_workflow id db' ≡ failed (not_found id)
      → tasks_of id db' ≡ []
      → edges_of id db' ≡ []
      → find_workflow other db'.workflows ≡ find_workflow other db.workflows
      → tasks_of other db' ≡ tasks_of other db
      → db'.executions ≡ db.executions
      → db'.task_states ≡ db.task_states
      → IsDeleted id other db (no_content, db')

not_found_after :
    (id : Ident) (rows : List WorkflowRow)
    → find_workflow id (keep (λ row. not (row.id == id)) rows) ≡ none
not_found_after id [] = refl
not_found_after id (row ∷ rows) = ground (arith, not_found_after id rows)

others_found :
    (id other : Ident) (rows : List WorkflowRow)
    → (other == id) ≡ false
    → find_workflow other (keep (λ row. not (row.id == id)) rows) ≡ find_workflow other rows
others_found id other [] h = refl
others_found id other (row ∷ rows) h = ground (arith, others_found id other rows h)

no_tasks_after :
    (id : Ident) (tasks : List TaskDefinition)
    → keep (λ t. t.workflow_id == id) (keep (λ t. not (t.workflow_id == id)) tasks) ≡ []
no_tasks_after id [] = refl
no_tasks_after id (t ∷ ts) = ground (arith, no_tasks_after id ts)

others_tasks :
    (id other : Ident) (tasks : List TaskDefinition)
    → (other == id) ≡ false
    → keep (λ t. t.workflow_id == other) (keep (λ t. not (t.workflow_id == id)) tasks)
      ≡ keep (λ t. t.workflow_id == other) tasks
others_tasks id other [] h = refl
others_tasks id other (t ∷ ts) h = ground (arith, others_tasks id other ts h)

no_edges_after :
    (id : Ident) (goes : Edge → Bool) (edges : List Edge)
    → keep (λ e. e.workflow_id == id) (keep (λ e. not (e.workflow_id == id || goes e)) edges) ≡ []
no_edges_after id goes [] = refl
no_edges_after id goes (e ∷ es) = ground (arith, no_edges_after id goes es)

active-has_execution :
    (id : Ident) (es : List Execution)
    → any_of (λ e. e.workflow_id == id) es ≡ false
    → any_of (λ e. e.workflow_id == id && is_active e.status) es ≡ false
active-has_execution id [] h = refl
active-has_execution id (e ∷ es) h = ground (arith, active-has_execution id es)

module _ (id other : Ident) (db : Database) (h : (other == id) ≡ false) where
  -- The tables without the workflow, its tasks and the edges that go with them.
  abbrev without : Database
  without = record db {
    workflows = keep (λ row. not (row.id == id)) db.workflows;
    task_definitions = keep (λ t. not (t.workflow_id == id)) db.task_definitions;
    edges = keep (λ e. not (edge_goes id db e)) db.edges;
  }

  deleted :
      has_active_executions id db ≡ false
      → IsDeleted id other db (after_delete id db (delete id db))
  unfolding delete delete_graph get_workflow find_by_id
  deleted quiet = elim (Bool-cases (has_workflow id db.workflows)) [
    | inr absent ↦ rw absent (unknown quiet absent)
    | inl present ↦ elim (Bool-cases (has_execution id db)) [
      | inl ran ↦ rw (present, ran) (executed quiet present (rw ran refl))
      | inr never ↦ elim (Bool-cases (tasks_referenced id db)) [
        | inl used ↦ rw (present, never, used) (executed quiet present (rw (never, used) refl))
        | inr free ↦
            rw (present, never, free)
              (gone present (rw (never, free) refl)
                (ap (λ o. workflow_or_not_found id (read_found without o))
                  (not_found_after id db.workflows))
                (no_tasks_after id db.task_definitions)
                (ap (map read_edge) (no_edges_after id _ db.edges))
                (others_found id other db.workflows h) (others_tasks id other db.task_definitions h)
                refl refl)
      ]
    ]
  ]

  -- A workflow with an active execution is answered 409, an unknown one 404, and one of which an
  -- execution or a task's state is left 500, all without a change. Any other is gone, with its tasks and
  -- edges, while another workflow's row and tasks, the executions and the task states stay.
  pub delete_workflow-IsDeleted : IsDeleted id other db (delete_workflow id db)
  unfolding delete_workflow
  delete_workflow-IsDeleted = elim (Bool-cases (has_active_executions id db)) [
    | inl busy ↦ rw busy (active busy)
    | inr quiet ↦ rw quiet (deleted quiet)
  ]
