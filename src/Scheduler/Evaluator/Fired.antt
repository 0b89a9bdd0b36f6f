-- ===== src/Scheduler/Evaluator/Fired.antt =====
-- What services/scheduler-api/src/services/schedule-evaluator.ts does with a due schedule, and how many
-- executions an evaluation starts.
use mathlib.Core.List.{append_assoc, append-nil}
use mathlib.Core.Option.{some-injective}
use task_orchestrator_engine.Prelude.{
  ◌≡◌, ◌<◌, refl, sym, ap, ◌∙◌, subst, inl, inr, ℕ, suc, Bool, true, false, not, ◌&&◌, ◌||◌, Option,
  none, some, List, [], ◌∷◌, ◌++◌, map, keep, every, ltb, ◌==◌, arith, if◌then◌else◌, Bool-cases,
}
use task_orchestrator_engine.Types.{
  Ident, Instant, TaskDefinition, Execution, ExecutionStatus, TaskState,
}
use task_orchestrator_engine.Redis.Server.{Server}
use task_orchestrator_engine.Redis.TaskQueue.{enqueue}
use task_orchestrator_engine.Redis.TaskQueue.Flow.{waiting, waiting-enqueue}
use task_orchestrator_engine.Cron.Text.{Text}
use task_orchestrator_engine.Cron.Search.{Zone}
use task_orchestrator_engine.Scheduler.Tables.{Database, has_workflow}
use task_orchestrator_engine.Scheduler.Workflows.{tasks_of}
use task_orchestrator_engine.Scheduler.Executions.{drawn_states}
use task_orchestrator_engine.Scheduler.Executions.Started.{HasFreshIds}
use task_orchestrator_engine.Scheduler.Schedules.{
  Schedule, due_at, change_row, next_cron_run, passes_checks, interval_in_range, is_given,
}
use task_orchestrator_engine.Scheduler.Schedules.Created.{next_cron_run-later}
use task_orchestrator_engine.Scheduler.Evaluator.{
  scheduled_execution, insert_execution, insert_state, mark_running, State, start_tasks,
  after_interval, next_of, reschedule, fire_schedule,
}

abbrev pub running_execution : Ident → Instant → ℕ → Execution
running_execution workflow now id = record (scheduled_execution workflow now id) {
  status = ExecutionStatus.running;
}

marked :
    (new : Execution) (es : List Execution)
    → every (λ e. ltb e.id new.id) es ≡ true
    → map
        (λ e. if e.id == new.id then record e { status = ExecutionStatus.running } else e)
        (es ++ new ∷ [])
      ≡ es ++ record new { status = ExecutionStatus.running } ∷ []
marked new [] h = ground arith
marked new (e ∷ es) h = ground (arith, marked new es)

module _ (redis : Server) where
  open redis use {Store}

  -- What the tasks of an execution add.
  pub record Begun (execution : Ident) (tasks : List TaskDefinition) (db : Database) (s : Store)
      (db' : Database) (s' : Store) : Type 0 where
    pub executions_lem : db'.executions ≡ db.executions
    pub workflows_lem : db'.workflows ≡ db.workflows
    pub states_lem : db'.task_states ≡ db.task_states ++ drawn_states execution db.next_id tasks
    pub queue_lem :
        waiting redis s'
        ≡ waiting redis s ++ map (λ t. t.id) (drawn_states execution db.next_id tasks)

  pub start_tasks-Begun :
      (execution : Ident) (tasks : List TaskDefinition) (db : Database) (s : Store)
      → Begun execution tasks db s
          (start_tasks redis execution tasks db s).0
          (start_tasks redis execution tasks db s).1
  unfolding start_tasks drawn_states
  start_tasks-Begun execution [] db s = record {
    executions_lem = refl;
    workflows_lem = refl;
    states_lem = sym (append-nil db.task_states);
    queue_lem = sym (append-nil (waiting redis s));
  }
  start_tasks-Begun execution (t ∷ ts) db s =
      let later =
        start_tasks-Begun execution ts (insert_state execution t db) (enqueue redis db.next_id s) in
      record {
        executions_lem = later.executions_lem;
        workflows_lem = later.workflows_lem;
        states_lem = later.states_lem ∙ append_assoc db.task_states _ _;
        queue_lem =
            later.queue_lem
            ∙ ap
                (λ l.
                  l ++ map (λ (u : TaskState). u.id) (drawn_states execution (suc db.next_id) ts))
                (waiting-enqueue redis db.next_id s)
            ∙ append_assoc (waiting redis s) (db.next_id ∷ []) _;
      }

  -- What a due schedule starts: a running execution with a pending row for every task of the workflow,
  -- all of them in the queue behind the waiting ones.
  pub record HasStarted (workflow : Ident) (now : Instant) (w w' : State redis) : Type 0 where
    pub execution_added :
        w'.tables.db.executions
        ≡ w.tables.db.executions ++ running_execution workflow now w.tables.db.next_id ∷ []
    pub states_added :
        w'.tables.db.task_states
        ≡ w.tables.db.task_states
          ++ drawn_states w.tables.db.next_id
              (suc w.tables.db.next_id)
              (tasks_of workflow w.tables.db)
    pub all_queued :
        waiting redis w'.store
        ≡ waiting redis w.store
          ++ map
              (λ t. t.id)
              (drawn_states w.tables.db.next_id
                (suc w.tables.db.next_id)
                (tasks_of workflow w.tables.db))

abbrev ranged : Option ℕ → Bool
ranged i = interval_in_range i && is_given i

interval_of :
    (s : Schedule) → passes_checks s ≡ true → s.cron_expr ≡ none → ranged s.interval_ms ≡ true
interval_of s h e = rw e at h

interval_later : (i : Option ℕ) (now : Instant) → ranged i ≡ true → now < after_interval i now
interval_later none now h = cc
interval_later (some n) now h = ground arith

-- No row of a schedule is due.
abbrev pub is_settled : Ident → Instant → List Schedule → Bool
is_settled id now rows = every (λ r. not (r.id == id) || not (due_at now r)) rows

abbrev pub other_rows : Ident → List Schedule → List Schedule
other_rows id rows = keep (λ r. not (r.id == id)) rows

settled :
    (id : Ident) (now next : Instant) (rows : List Schedule)
    → now < next
    → is_settled id now
        (change_row (λ r. record r { next_run_at = some next; last_run_at = some now }) id rows)
      ≡ true
settled id now next [] l = refl
settled id now next (r ∷ rows) l = ground (arith, settled id now next rows l)

others_kept :
    (id : Ident) (now next : Instant) (rows : List Schedule)
    → other_rows id
        (change_row (λ r. record r { next_run_at = some next; last_run_at = some now }) id rows)
      ≡ other_rows id rows
others_kept id now next [] = refl
others_kept id now next (r ∷ rows) = ground (arith, others_kept id now next rows)

module _ (redis : Server) (unusual : Text → Option ℕ) (zone_of : Text → Option Zone) where
  open redis use {Store}

  -- How a schedule that is due is processed.
  pub data IsFired (s : Schedule) (now : Instant) (w : State redis) : State redis → Type 0 where
    refused : has_workflow s.workflow_id w.tables.db.workflows ≡ false → IsFired s now w w
    fired :
        {w' : State redis}
        → HasStarted redis s.workflow_id now w w'
        → is_settled s.id now w'.tables.schedules ≡ true
        → other_rows s.id w'.tables.schedules ≡ other_rows s.id w.tables.schedules
        → IsFired s now w w'
    not_rescheduled :
        {w' : State redis} {expr : Text}
        → HasStarted redis s.workflow_id now w w'
        → s.cron_expr ≡ some expr
        → next_cron_run unusual zone_of expr s.timezone now ≡ none
        → w'.tables.schedules ≡ w.tables.schedules
        → IsFired s now w w'

  module _ (s : Schedule) (now : Instant) (w : State redis) where
    -- The state after the tasks are started, with the rows of the schedules.
    abbrev after : List Schedule → State redis
    after rows =
        let db1 = insert_execution s.workflow_id now w.tables.db in
        let (db2, store) =
          start_tasks redis w.tables.db.next_id (tasks_of s.workflow_id db1) db1 w.store in
        record {
          tables = record { db = mark_running w.tables.db.next_id db2; schedules = rows };
          store = store;
        }

    started :
        (rows : List Schedule)
        → HasFreshIds w.tables.db
        → HasStarted redis s.workflow_id now w (after rows)
    unfolding mark_running insert_execution
    started rows fresh =
        let db1 = insert_execution s.workflow_id now w.tables.db in
        let begun =
          start_tasks-Begun redis w.tables.db.next_id (tasks_of s.workflow_id db1) db1 w.store in
        record {
          execution_added =
              ap (map _) begun.executions_lem
              ∙ marked (scheduled_execution s.workflow_id now w.tables.db.next_id)
                  w.tables.db.executions fresh.executions_fresh;
          states_added = begun.states_lem;
          all_queued = begun.queue_lem;
        }

    next_later :
        (expr : Option Text) (next : Instant)
        → passes_checks s ≡ true
        → s.cron_expr ≡ expr
        → next_of redis unusual zone_of s expr now ≡ some next
        → now < next
    next_later (some expr) next passed e n =
        next_cron_run-later unusual zone_of expr s.timezone now next n
    next_later none next passed e n =
        subst (λ k. now < k) (some-injective _ next n)
          (interval_later s.interval_ms now (interval_of s passed e))

    outcome :
        HasFreshIds w.tables.db
        → passes_checks s ≡ true
        → (expr : Option Text) → s.cron_expr ≡ expr
        → (next : Option Instant) → next_of redis unusual zone_of s expr now ≡ next
        → IsFired s now w (after (reschedule s now next w.tables.schedules))
    outcome fresh passed expr e (some next) n =
        fired (started _ fresh)
          (settled s.id now next w.tables.schedules (next_later expr next passed e n))
          (others_kept s.id now next w.tables.schedules)
    outcome fresh passed (some expr) e none n = not_rescheduled (started _ fresh) e n refl
    outcome fresh passed none e none n = cc

    -- Without the row of its workflow a due schedule does nothing. Else it starts one running execution
    -- with a pending row for every task of the workflow, and queues all of them, in their order. If a
    -- next run is found, no row of the schedule is due any longer and the others are as before; if not,
    -- the schedule is as before.
    pub fire_schedule-IsFired :
        HasFreshIds w.tables.db
        → passes_checks s ≡ true
        → IsFired s now w (fire_schedule redis unusual zone_of s now w)
    unfolding fire_schedule
    fire_schedule-IsFired fresh passed =
        elim (Bool-cases (has_workflow s.workflow_id w.tables.db.workflows)) [
          | inr absent ↦ rw (absent, fire_schedule) (refused absent)
          | inl present ↦
              rw (present, fire_schedule)
                (outcome fresh passed s.cron_expr refl
                  (next_of redis unusual zone_of s s.cron_expr now) refl)
        ]
