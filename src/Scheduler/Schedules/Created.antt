-- ===== src/Scheduler/Schedules/Created.antt =====
-- The creation of a schedule by services/scheduler-api/src/controllers/schedule-controller.ts.
use task_orchestrator_engine.Prelude.{
  ◌≡◌, ◌<◌, subst, ℕ, true, false, Option, none, some, every, ltb, leb, length, ◌&&◌, Bool, Result,
  ok, err, ◌>>=◌,
}
use task_orchestrator_engine.Types.{Instant}
use mathlib.Core.Option.{some-injective}
use task_orchestrator_engine.Cron.Text.{Text}
use task_orchestrator_engine.Cron.Field.{CronError, CronFields, parse_cron_expression}
use task_orchestrator_engine.Cron.Search.{Zone, Outcome, next_run, get_next_run_time}
use task_orchestrator_engine.Cron.Search.Later.{IsLater, later, missing, spent, next_run-IsLater}
use task_orchestrator_engine.Scheduler.Tables.{check_violation, value_too_long}
use task_orchestrator_engine.Scheduler.Workflows.{find_by_id}
use task_orchestrator_engine.Scheduler.Schedules.{
  Schedule, Schedules, ScheduleBody, ScheduleAnswer, stored, no_workflow, bad_cron, bad_interval,
  no_next_run, refused, expr_or_null, interval_in_range, is_given, schedule_row, find_schedule,
  expr_fits, found_run, run_in_zone, next_cron_run, parses, new_schedule, zone_or_utc,
}

-- The next run of an expression lies after the reading of the clock.
found_run-later :
    (now ms : Instant) {o : Outcome} → IsLater now o → found_run (ok o) ≡ some ms → now < ms
found_run-later now ms (later {ms = t} l) e = subst (λ k. now < k) (some-injective t ms e) l
found_run-later now ms missing e = cc
found_run-later now ms spent e = cc

module _ (unusual : Text → Option ℕ) (zone_of : Text → Option Zone) where
  pub next_cron_run-later :
      (expr timezone : Text) (now ms : Instant)
      → next_cron_run unusual zone_of expr timezone now ≡ some ms
      → now < ms
  unfolding next_cron_run get_next_run_time
  next_cron_run-later expr timezone now ms e = in_zone (zone_of timezone) e
    where
      parsed :
          (zone : Zone) (r : Result CronError CronFields)
          → found_run (r >>= λ fields. ok (next_run fields zone now)) ≡ some ms
          → now < ms
      parsed zone (ok fields) e = found_run-later now ms (next_run-IsLater fields zone now) e
      parsed zone (err c) e = cc

      in_zone : (z : Option Zone) → run_in_zone unusual zone_of expr now z ≡ some ms → now < ms
      in_zone none e = cc
      in_zone (some zone) e = parsed zone (parse_cron_expression unusual expr) e

  -- The workflow exists, and the expression parses if one is given.
  abbrev pub IsKnown : ScheduleBody → Schedules → Type 0
  IsKnown body t =
      (is_given (find_by_id body.workflow_id t.db) ≡ true)
      × (parses unusual zone_of (expr_or_null body.cron_expr) ≡ true)

  -- Whether the columns can hold the expression and the time zone.
  abbrev pub is_short : ScheduleBody → Bool
  is_short body =
      expr_fits (expr_or_null body.cron_expr) && leb (length (zone_or_utc body.timezone)) 50

  -- How a request for a schedule is answered, and the tables then.
  pub data IsScheduled (body : ScheduleBody) (now : Instant) (t : Schedules)
      : ScheduleAnswer × Schedules → Type 0 where
    unknown : find_by_id body.workflow_id t.db ≡ none → IsScheduled body now t (no_workflow, t)
    no_cron :
        is_given (find_by_id body.workflow_id t.db) ≡ true
        → parses unusual zone_of (expr_or_null body.cron_expr) ≡ false
        → IsScheduled body now t (bad_cron, t)
    out_of_range :
        IsKnown body t
        → interval_in_range body.interval_ms ≡ false
        → IsScheduled body now t (bad_interval, t)
    never_runs :
        {expr : Text}
        → IsKnown body t
        → interval_in_range body.interval_ms ≡ true
        → expr_or_null body.cron_expr ≡ some expr
        → next_cron_run unusual zone_of expr (zone_or_utc body.timezone) now ≡ none
        → IsScheduled body now t (no_next_run, t)
    too_long :
        IsKnown body t
        → interval_in_range body.interval_ms ≡ true
        → is_short body ≡ false
        → IsScheduled body now t (refused value_too_long, t)
    neither :
        IsKnown body t
        → is_short body ≡ true
        → expr_or_null body.cron_expr ≡ none
        → body.interval_ms ≡ none
        → IsScheduled body now t (refused check_violation, t)
    scheduled :
        {s : Schedule} {t' : Schedules} {ms : Instant}
        → IsKnown body t
        → interval_in_range body.interval_ms ≡ true
        → is_short body ≡ true
        → s.active ≡ true
        → s.workflow_id ≡ body.workflow_id
        → s.next_run_at ≡ some ms
        → now < ms
        → find_schedule s.id t' ≡ some s
        → IsScheduled body now t (stored s, t')

  module _ (body : ScheduleBody) (now : Instant) (t : Schedules)
      (fresh : every (λ s. ltb s.id t.db.next_id) t.schedules ≡ true) where
    abbrev row : Option Instant → Schedule
    row next = schedule_row (new_schedule body next) t.db.next_id now
