-- ===== src/Scheduler/Evaluator/Evaluated.antt =====
-- How many executions an evaluation of
-- services/scheduler-api/src/services/schedule-evaluator.ts starts.
use task_orchestrator_engine.Prelude.{
  ◌≡◌, refl, ap, ◌∙◌, inl, inr, ℕ, zero, suc, ◌+◌, min, Bool, true, ◌&&◌, Option, List, [], ◌∷◌,
  keep, every, length, length-map, length-append, ◌==◌, arith, if◌then◌else◌, Bool-cases,
}
use task_orchestrator_engine.Types.{Ident, Instant, Execution, ExecutionStatus}
use task_orchestrator_engine.Redis.Server.{Server}
use task_orchestrator_engine.Cron.Text.{Text}
use task_orchestrator_engine.Cron.Search.{Zone}
use task_orchestrator_engine.Scheduler.Tables.{WorkflowRow, has_workflow}
use task_orchestrator_engine.Scheduler.Workflows.{tasks_of}
use task_orchestrator_engine.Scheduler.Schedules.{Schedule, due_at}
use task_orchestrator_engine.Scheduler.Evaluator.{
  by_time, insert_by_time, first_rows, due_schedules, insert_execution, mark_running, State,
  fire_schedule, fire_all, evaluate,
}
use task_orchestrator_engine.Scheduler.Evaluator.Fired.{start_tasks-Begun}

-- The schedules of a list whose workflow has a row.
abbrev pub with_workflow : List WorkflowRow → List Schedule → List Schedule
with_workflow rows ss = keep (λ s. has_workflow s.workflow_id rows) ss

every-insert_by_time :
    (test : Schedule → Bool) (s : Schedule) (rows : List Schedule)
    → every test (insert_by_time s rows) ≡ (test s && every test rows)
every-insert_by_time test s [] = refl
every-insert_by_time test s (r ∷ rows) = ground (arith, every-insert_by_time test s rows)

length-insert_by_time :
    (s : Schedule) (rows : List Schedule) → length (insert_by_time s rows) ≡ suc (length rows)
length-insert_by_time s [] = refl
length-insert_by_time s (r ∷ rows) = ground (arith, length-insert_by_time s rows)

every-by_time :
    (test : Schedule → Bool) (rows : List Schedule) → every test (by_time (keep test rows)) ≡ true
every-by_time test [] = refl
every-by_time test (r ∷ rows) =
    ground (arith, every-by_time test rows, every-insert_by_time test r (by_time (keep test rows)))

length-by_time : (rows : List Schedule) → length (by_time rows) ≡ length rows
length-by_time [] = refl
length-by_time (r ∷ rows) =
    omega (arith, length-by_time rows, length-insert_by_time r (by_time rows))

length-first_rows :
    (n : ℕ) (rows : List Schedule) → length (first_rows n rows) ≡ min n (length rows)
length-first_rows zero rows = omega arith
length-first_rows (suc n) [] = omega arith
length-first_rows (suc n) (r ∷ rows) = omega (arith, length-first_rows n rows)

every-first_rows :
    (test : Schedule → Bool) (n : ℕ) (rows : List Schedule)
    → every test rows ≡ true
    → every test (first_rows n rows) ≡ true
every-first_rows test zero rows h = refl
every-first_rows test (suc n) [] h = refl
every-first_rows test (suc n) (r ∷ rows) h = ground (arith, every-first_rows test n rows)

module _ (redis : Server) (unusual : Text → Option ℕ) (zone_of : Text → Option Zone) where
  -- The rows of the workflows and the number of executions after a schedule.
  record StartsOne (s : Schedule) (w w' : State redis) : Type 0 where
    workflows_kept : w'.tables.db.workflows ≡ w.tables.db.workflows
    executions_grown :
        length w'.tables.db.executions
        ≡ (if has_workflow s.workflow_id w.tables.db.workflows then 1 else 0)
          + length w.tables.db.executions

  fire_schedule-StartsOne :
      (s : Schedule) (now : Instant) (w : State redis)
      → StartsOne s w (fire_schedule redis unusual zone_of s now w)
  unfolding fire_schedule mark_running insert_execution
  fire_schedule-StartsOne s now w =
      elim (Bool-cases (has_workflow s.workflow_id w.tables.db.workflows)) [
        | inr absent ↦
            rw (absent, fire_schedule)
              (record { workflows_kept = refl; executions_grown = rw absent (omega arith) })
        | inl present ↦
            let db1 = insert_execution s.workflow_id now w.tables.db in
            let begun =
              start_tasks-Begun redis w.tables.db.next_id (tasks_of s.workflow_id db1) db1
                w.store in
            rw (present, fire_schedule)
              (record {
                workflows_kept = begun.workflows_lem;
                executions_grown = rw present (
                    omega (
                      arith,
                      length-map
                          (λ (e : Execution).
                            if e.id == w.tables.db.next_id
                            then record e { status = ExecutionStatus.running }
                            else e)
                          _,
                      ap length begun.executions_lem,
                      length-append w.tables.db.executions _,
                    ));
              })
      ]

  fire_all-count :
      (ss : List Schedule) (clock : Ident → Instant) (w : State redis)
      → length (fire_all redis unusual zone_of ss clock w).tables.db.executions
        ≡ length (with_workflow w.tables.db.workflows ss) + length w.tables.db.executions
  unfolding fire_all
  fire_all-count [] clock w = omega arith
  fire_all-count (s ∷ ss) clock w =
      let fired = fire_schedule-StartsOne s (clock s.id) w in
      ground (
        arith,
        fire_all-count ss clock (fire_schedule redis unusual zone_of s (clock s.id) w),
        ap (λ rows. length (with_workflow rows ss)) fired.workflows_kept,
        fired.executions_grown,
      )

  -- An evaluation takes schedules that are due, all of them or fifty, and starts one execution for each
  -- whose workflow has a row.
  pub evaluate-count :
      (now : Instant) (clock : Ident → Instant) (w : State redis)
      → let due = due_schedules now w.tables.schedules in
        (every (due_at now) due ≡ true)
        × (length due ≡ min 50 (length (keep (due_at now) w.tables.schedules)))
        × (length (evaluate redis unusual zone_of now clock w).tables.db.executions
            ≡ length (with_workflow w.tables.db.workflows due) + length w.tables.db.executions)
  unfolding evaluate due_schedules
  evaluate-count now clock w =
      let rows = w.tables.schedules in
      (
        every-first_rows (due_at now) 50 _ (every-by_time (due_at now) rows),
        length-first_rows 50 _ ∙ ap (min 50) (length-by_time (keep (due_at now) rows)),
        fire_all-count (due_schedules now rows) clock w,
      )
