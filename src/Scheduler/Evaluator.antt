-- ===== src/Scheduler/Evaluator.antt =====
-- services/scheduler-api/src/services/schedule-evaluator.ts, over the tables and the task queue. The
-- timer and the readings of the clock are the environment's. Schedules that are due at the same time
-- come in the order of their rows.
pub mod Fired
pub mod Evaluated
use task_orchestrator_engine.Prelude.{
  ℕ, zero, suc, ◌+◌, Bool, true, false, not, ◌&&◌, Option, none, some, List, [], ◌∷◌, ◌++◌, map,
  keep, leb, ◌==◌, if◌then◌else◌,
}
use task_orchestrator_engine.Types.{
  Ident, Instant, TaskDefinition, Execution, ExecutionStatus, TaskState,
}
use task_orchestrator_engine.Redis.Server.{Server}
use task_orchestrator_engine.Redis.TaskQueue.{enqueue}
use task_orchestrator_engine.Cron.Text.{Text}
use task_orchestrator_engine.Cron.Search.{Zone}
use task_orchestrator_engine.Scheduler.Tables.{Database, has_workflow}
use task_orchestrator_engine.Scheduler.Workflows.{tasks_of}
use task_orchestrator_engine.Scheduler.Executions.{new_execution, new_state}
use task_orchestrator_engine.Scheduler.Schedules.{
  Schedule, Schedules, due_at, change_row, next_cron_run,
}

-- `ORDER BY next_run_at ASC`, of rows that have one.
abbrev pub run_time : Schedule → Instant
run_time s = elim s.next_run_at [ none ↦ 0 | some t ↦ t ]

abbrev pub insert_by_time : Schedule → List Schedule → List Schedule
insert_by_time s [] = s ∷ []
insert_by_time s (r ∷ rs) =
    if leb (run_time s) (run_time r) then s ∷ r ∷ rs else r ∷ insert_by_time s rs

abbrev pub by_time : List Schedule → List Schedule
by_time [] = []
by_time (s ∷ ss) = insert_by_time s (by_time ss)

-- `LIMIT`
abbrev pub first_rows : ℕ → List Schedule → List Schedule
first_rows zero rows = []
first_rows (suc n) [] = []
first_rows (suc n) (r ∷ rs) = r ∷ first_rows n rs

unfoldable pub due_schedules : Instant → List Schedule → List Schedule
due_schedules now rows = first_rows 50 (by_time (keep (due_at now) rows))

-- `INSERT INTO executions (workflow_id, status, started_at)`
abbrev pub scheduled_execution : Ident → Instant → ℕ → Execution
scheduled_execution workflow now id = record (new_execution workflow none now id) {
  started_at = some now;
}

unfoldable pub insert_execution : Ident → Instant → Database → Database
insert_execution workflow now db = record db {
  executions = db.executions ++ scheduled_execution workflow now db.next_id ∷ [];
  next_id = suc db.next_id;
}

abbrev pub insert_state : Ident → TaskDefinition → Database → Database
insert_state execution task db = record db {
  task_states = db.task_states ++ new_state execution db.next_id task ∷ [];
  next_id = suc db.next_id;
}

-- `UPDATE executions SET status = 'running'`
unfoldable pub mark_running : Ident → Database → Database
mark_running id db = record db {
  executions =
      map (λ e. if e.id == id then record e { status = ExecutionStatus.running } else e)
        db.executions;
}

module _ (redis : Server) where
  open redis use {Store}

  pub record State : Type 0 where
    pub tables : Schedules
    pub store : Store

  -- The loop over the workflow's tasks: a row, then an entry in the queue.
  unfoldable pub start_tasks : Ident → List TaskDefinition → Database → Store → Database × Store
  unfolding enqueue
  start_tasks execution [] db s = (db, s)
  start_tasks execution (task ∷ tasks) db s =
      start_tasks execution tasks (insert_state execution task db) (enqueue redis db.next_id s)

abbrev pub drop : Ident → List Ident → List Ident
drop a [] = []
drop a (x ∷ xs) = if x == a then drop a xs else x ∷ drop a xs

abbrev pub after_interval : Option ℕ → Instant → Instant
after_interval none now = now
after_interval (some n) now = now + n

abbrev pub reschedule : Schedule → Instant → Option Instant → List Schedule → List Schedule
reschedule s now none rows = rows
reschedule s now (some next) rows =
    change_row (λ r. record r { next_run_at = some next; last_run_at = some now }) s.id rows

module _ (redis : Server) (unusual : Text → Option ℕ) (zone_of : Text → Option Zone) where
  open redis use {Store}

  -- The next run of a schedule, or nothing where `getNextRunTime` throws.
  abbrev pub next_of : Schedule → Option Text → Instant → Option Instant
  next_of s none now = some (after_interval s.interval_ms now)
  next_of s (some expr) now = next_cron_run unusual zone_of expr s.timezone now

  -- The body of the loop. The insertion of an execution is refused without the workflow's row; an
  -- error is logged, and what was done before it stays.
  unfoldable pub fire_schedule : Schedule → Instant → State redis → State redis
  unfolding insert_execution start_tasks mark_running
  fire_schedule s now w =
      let db = w.tables.db in
      let execution = db.next_id in
      let db1 = insert_execution s.workflow_id now db in
      let (db2, store) = start_tasks redis execution (tasks_of s.workflow_id db1) db1 w.store in
      if not (has_workflow s.workflow_id db.workflows) then w else record {
        tables = record {
          db = mark_running execution db2;
          schedules = reschedule s now (next_of s s.cron_expr now) w.tables.schedules;
        };
        store = store;
      }

  unfoldable pub fire_all : List Schedule → (Ident → Instant) → State redis → State redis
  unfolding fire_schedule
  fire_all [] clock w = w
  fire_all (s ∷ ss) clock w = fire_all ss clock (fire_schedule s (clock s.id) w)

  -- `evaluate`: `now` is the clock at the query, `clock` its reading as a schedule is processed.
  unfoldable pub evaluate : Instant → (Ident → Instant) → State redis → State redis
  unfolding due_schedules fire_all
  evaluate now clock w = fire_all (due_schedules now w.tables.schedules) clock w

-- The handle that the evaluator keeps, and the intervals that run.
pub record Timers : Type 0 where
  pub interval_handle : Option Ident
  pub intervals : List Ident

-- `setInterval` gives the handle of a new interval.
unfoldable pub start : Ident → Timers → Timers
start handle t = record { interval_handle = some handle; intervals = handle ∷ t.intervals }

abbrev pub cleared : Timers → Option Ident → Timers
cleared t none = t
cleared t (some handle) = record { interval_handle = none; intervals = drop handle t.intervals }

-- `stop` clears only the interval whose handle is kept.
unfoldable pub stop : Timers → Timers
stop t = cleared t t.interval_handle
