-- ===== src/Scheduler/Workflows/Stored.antt =====
-- What `create` stores is what `findById` reads.
use task_orchestrator_engine.Prelude.{
  sym, subst, ℕ, suc, ◌<◌, ◌≡◌, ◌≢◌, refl, ap, ◌∙◌, inl, inr, ◌⊎◌, Bool, Bool-cases, if◌then◌else◌,
  true, false, some, List, [], ◌∷◌, ◌++◌, map, keep, every, length, ltb, ◌==◌, arith, Result, ok,
  err, ◌>>=◌, ==_refl,
}
use task_orchestrator_engine.Types.{Instant, TaskDefinition, Edge, Workflow}
use task_orchestrator_engine.Scheduler.Tables.{
  WorkflowRow, Database, has_task, DbError, foreign_key, value_too_long,
}
use task_orchestrator_engine.Scheduler.Workflows.{
  WorkflowInput, fits, drawn_task, drawn_tasks, insert_tasks, insert_edges, inserted_row,
  insert_workflow, assembled, create, tasks_of, read_edge, edges_of, find_workflow, read_found,
  find_by_id,
}
use task_orchestrator_engine.Scheduler.Workflows.Inserted.{
  Added, IsStored, refused, stored, insert_edges-IsStored,
}

-- No row has an id that is still to be drawn.
pub record IsFresh (db : Database) : Type 0 where
  pub workflows_fresh : every (λ row. ltb row.id db.next_id) db.workflows ≡ true
  pub tasks_fresh : every (λ t. ltb t.workflow_id db.next_id) db.task_definitions ≡ true
  pub edges_fresh : every (λ e. ltb e.workflow_id db.next_id) db.edges ≡ true

keep-append {ℓ} :
    {A : Type ℓ} (test : A → Bool) (xs ys : List A)
    → keep test (xs ++ ys) ≡ keep test xs ++ keep test ys
keep-append test [] ys = refl
keep-append test (x ∷ xs) ys = ground (arith, keep-append test xs ys)

no_old_tasks :
    (id : ℕ) (ts : List TaskDefinition)
    → every (λ t. ltb t.workflow_id id) ts ≡ true
    → keep (λ t. t.workflow_id == id) ts ≡ []
no_old_tasks id [] h = refl
no_old_tasks id (t ∷ ts) h = ground (arith, no_old_tasks id ts)

no_old_edges :
    (id : ℕ) (es : List Edge)
    → every (λ e. ltb e.workflow_id id) es ≡ true
    → keep (λ e. e.workflow_id == id) es ≡ []
no_old_edges id [] h = refl
no_old_edges id (e ∷ es) h = ground (arith, no_old_edges id es)

find_workflow-append :
    (row : WorkflowRow) (rows : List WorkflowRow)
    → every (λ r. ltb r.id row.id) rows ≡ true
    → find_workflow row.id (rows ++ row ∷ []) ≡ some row
find_workflow-append row [] h = rw (==_refl row.id) refl
find_workflow-append row (r ∷ rows) h = ground (arith, find_workflow-append row rows)

keep-drawn_tasks :
    (w id : ℕ) (ts : List TaskDefinition)
    → keep (λ t. t.workflow_id == w) (drawn_tasks w id ts) ≡ drawn_tasks w id ts
unfolding drawn_tasks
keep-drawn_tasks w id [] = refl
keep-drawn_tasks w id (t ∷ ts) =
    rw (==_refl w) (ap (λ l. drawn_task w id t ∷ l) (keep-drawn_tasks w (suc id) ts))

workflows_stay_fresh :
    (row : WorkflowRow) (n : ℕ) (rows : List WorkflowRow)
    → row.id < n
    → every (λ r. ltb r.id row.id) rows ≡ true
    → every (λ r. ltb r.id n) (rows ++ row ∷ []) ≡ true
workflows_stay_fresh row n [] l h = ground arith
workflows_stay_fresh row n (r ∷ rows) l h = ground (arith, workflows_stay_fresh row n rows l)

tasks_stay_fresh :
    (w id n : ℕ) (old new : List TaskDefinition)
    → w < n
    → every (λ t. ltb t.workflow_id w) old ≡ true
    → every (λ t. ltb t.workflow_id n) (old ++ drawn_tasks w id new) ≡ true
unfolding drawn_tasks
tasks_stay_fresh w id n [] [] l h = refl
tasks_stay_fresh w id n [] (t ∷ new) l h =
    ground (arith, tasks_stay_fresh w (suc id) n [] new l refl)
tasks_stay_fresh w id n (t ∷ old) new l h = ground (arith, tasks_stay_fresh w id n old new l)

edges_stay_fresh :
    (w n : ℕ) (old new : List Edge)
    → w < n
    → every (λ e. ltb e.workflow_id w) old ≡ true
    → every (λ e. e.workflow_id == w) new ≡ true
    → every (λ e. ltb e.workflow_id n) (old ++ new) ≡ true
edges_stay_fresh w n [] [] l h k = refl
edges_stay_fresh w n [] (e ∷ new) l h k = ground (arith, edges_stay_fresh w n [] new l refl)
edges_stay_fresh w n (e ∷ old) new l h k = ground (arith, edges_stay_fresh w n old new l)

-- What a creation gives: an error, if there are edges or a value is too large for its column, or, if
-- all fit, a workflow that is read back as it was returned.
pub data IsCreated (w : WorkflowInput) : Result DbError (Workflow × Database) → Type 0 where
  not_created : {e : DbError} → (w.edges ≢ []) ⊎ (fits w ≡ false) → IsCreated w (err e)
  created :
      {flow : Workflow} {db : Database}
      → fits w ≡ true
      → flow.name ≡ w.name
      → length flow.task_definitions ≡ length w.task_definitions
      → find_by_id flow.id db ≡ some flow
      → IsFresh db
      → IsCreated w (ok (flow, db))

length-drawn_tasks :
    (w id : ℕ) (ts : List TaskDefinition) → length (drawn_tasks w id ts) ≡ length ts
unfolding drawn_tasks
length-drawn_tasks w id [] = refl
length-drawn_tasks w id (t ∷ ts) = ap suc (length-drawn_tasks w (suc id) ts)

module _ (w : WorkflowInput) (now : Instant) (db : Database) (fresh : IsFresh db) where
  abbrev new_row : WorkflowRow
  new_row = inserted_row w now db.next_id

  abbrev with_tasks : Database
  with_tasks = (insert_tasks db.next_id w.task_definitions (insert_workflow w now db)).1

  own_tasks :
      (db' : Database)
      → db'.task_definitions ≡ with_tasks.task_definitions
      → tasks_of db.next_id db' ≡ drawn_tasks db.next_id (suc db.next_id) w.task_definitions
  unfolding insert_tasks
  own_tasks db' e =
      ap (keep (λ t. t.workflow_id == db.next_id)) e
      ∙ keep-append (λ t. t.workflow_id == db.next_id) db.task_definitions
          (drawn_tasks db.next_id (suc db.next_id) w.task_definitions)
      ∙ λ i.
          no_old_tasks db.next_id db.task_definitions fresh.tasks_fresh i
          ++ keep-drawn_tasks db.next_id (suc db.next_id) w.task_definitions i

  own_edges :
      (db' : Database) (rows : List Edge)
      → Added db.next_id with_tasks rows db'
      → edges_of db.next_id db' ≡ rows
  unfolding insert_tasks
  own_edges db' rows a =
      ap (λ l. map read_edge (keep (λ e. e.workflow_id == db.next_id) l)) a.edges_lem
      ∙ ap (map read_edge) (
          keep-append (λ e. e.workflow_id == db.next_id) db.edges rows ∙ λ i.
          no_old_edges db.next_id db.edges fresh.edges_fresh i ++ a.own i)
      ∙ a.read

  own_row :
      (db' : Database)
      → db'.workflows ≡ with_tasks.workflows
      → find_workflow db.next_id db'.workflows ≡ some new_row
  unfolding insert_tasks
  own_row db' e =
      ap (find_workflow db.next_id) e
      ∙ find_workflow-append new_row db.workflows fresh.workflows_fresh

  read_back :
      (db' : Database) (rows : List Edge)
      → Added db.next_id with_tasks rows db'
      → find_by_id db.next_id db'
        ≡ some (assembled new_row (drawn_tasks db.next_id (suc db.next_id) w.task_definitions) rows)
  unfolding find_by_id
  read_back db' rows a = ap (read_found db') (own_row db' a.workflows_lem) ∙ λ i.
      some (assembled new_row (own_tasks db' a.tasks_lem i) (own_edges db' rows a i))

  stays-IsFresh :
      (db' : Database) (rows : List Edge) → Added db.next_id with_tasks rows db' → IsFresh db'
  unfolding insert_tasks
  stays-IsFresh db' rows a = record {
    workflows_fresh =
        subst (λ (l : List WorkflowRow). every (λ row. ltb row.id db'.next_id) l ≡ true)
          (sym a.workflows_lem)
          (workflows_stay_fresh new_row db'.next_id db.workflows (omega (arith, a.later))
            fresh.workflows_fresh);
    tasks_fresh =
        subst (λ (l : List TaskDefinition). every (λ t. ltb t.workflow_id db'.next_id) l ≡ true)
          (sym a.tasks_lem)
          (tasks_stay_fresh db.next_id (suc db.next_id) db'.next_id db.task_definitions
            w.task_definitions (omega (arith, a.later)) fresh.tasks_fresh);
    edges_fresh =
        subst (λ (l : List Edge). every (λ e. ltb e.workflow_id db'.next_id) l ≡ true)
          (sym a.edges_lem)
          (edges_stay_fresh db.next_id db'.next_id db.edges rows (omega (arith, a.later))
            fresh.edges_fresh a.owned);
  }

  edges_refused : {e : DbError} → insert_edges db.next_id w.edges with_tasks ≡ err e → w.edges ≢ []
  unfolding insert_edges
  edges_refused h n = let accepted = ap (λ l. insert_edges db.next_id l with_tasks) n in cc

  -- In tables that use no id still to be drawn, a workflow that is created has the name and as many
  -- tasks as was asked and is read by its id as it was returned, and still no id to be drawn is used;
  -- a workflow without edges whose values fit their columns is created, one with a value that does not
  -- fit is not, and else the creation may be an error of the database.
  pub create-IsCreated : IsCreated w (create w now db)
  unfolding create insert_tasks
  create-IsCreated = elim (Bool-cases (fits w)) [
    | inr large ↦ rw large (not_created (inr large))
    | inl good ↦ rw good (over good (insert_edges-IsStored db.next_id w.edges with_tasks) refl)
  ]
    where
      over :
          {r : Result DbError (List Edge × Database)}
          → fits w ≡ true
          → IsStored db.next_id with_tasks r
          → insert_edges db.next_id w.edges with_tasks ≡ r
          → IsCreated w (
              r >>= λ (s : List Edge × Database). ok (
                assembled new_row
                    (insert_tasks db.next_id w.task_definitions (insert_workflow w now db)).0
                    s.0,
                s.1,
              ))
      over good refused e = not_created (inl (edges_refused e))
      over good (stored {rows} {db'} a) e =
          created good refl (length-drawn_tasks db.next_id (suc db.next_id) w.task_definitions)
            (read_back db' rows a) (stays-IsFresh db' rows a)

module _ (w : WorkflowInput) (now : Instant) (db : Database) where
  not_drawn :
      (id workflow from : ℕ) (old new : List TaskDefinition)
      → id < from
      → has_task id old ≡ false
      → has_task id (old ++ drawn_tasks workflow from new) ≡ false
  unfolding drawn_tasks
  not_drawn id workflow from [] [] l h = refl
  not_drawn id workflow from [] (t ∷ new) l h =
      ground (arith, not_drawn id workflow (suc from) [] new)
  not_drawn id workflow from (t ∷ old) new l h = ground (arith, not_drawn id workflow from old new)

  -- A creation whose first edge starts at an id that was drawn before it and is not the id of a task's
  -- row is refused: an edge can name none of the tasks that are created with it, unless it guesses
  -- their ids.
  pub create-foreign_key :
      (edge : Edge) (edges : List Edge)
      → w.edges ≡ edge ∷ edges
      → edge.source_task_id < db.next_id
      → has_task edge.source_task_id db.task_definitions ≡ false
      → create w now db ≡ err (if fits w then foreign_key else value_too_long)
  unfolding create insert_tasks insert_edges
  create-foreign_key edge edges e l h =
      let unknown =
        not_drawn edge.source_task_id db.next_id (suc db.next_id) db.task_definitions
          w.task_definitions (omega arith) h in
      elim (Bool-cases (fits w)) [
        | inr large ↦ rw large refl
        | inl good ↦ rw (good, e, unknown) refl
      ]
