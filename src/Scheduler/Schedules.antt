-- ===== src/Scheduler/Schedules.antt =====
-- services/scheduler-api/src/repositories/schedule-repository.ts and
-- controllers/schedule-controller.ts, over the table `schedules` of 003_schedules.sql. The body of a
-- request has the types that the code expects, and a time zone that the host does not know has no
-- function.
pub mod Created
use task_orchestrator_engine.Prelude.{
  ℕ, suc, ◌+◌, ◌*◌, ◌-◌, min, max, Bool, true, false, not, ◌&&◌, ◌||◌, Option, none, some, List, [],
  ◌∷◌, ◌++◌, map, keep, any_of, length, ltb, leb, ◌==◌, if◌then◌else◌, Result, ok, err, ◌>>=◌,
}
use task_orchestrator_engine.Types.{Ident, Instant}
use task_orchestrator_engine.Cron.Text.{Text, parse_int}
use task_orchestrator_engine.Cron.Field.{CronError, parse_cron_expression}
use task_orchestrator_engine.Cron.Search.{
  Zone, Outcome, run_at, no_run, out_of_fuel, get_next_run_time,
}
use task_orchestrator_engine.Scheduler.Tables.{
  Database, DbError, foreign_key, check_violation, value_too_long, has_workflow,
}
use task_orchestrator_engine.Scheduler.Workflows.{find_by_id}

pub record Schedule : Type 0 where
  pub id : Ident
  pub workflow_id : Ident
  pub cron_expr : Option Text
  pub interval_ms : Option ℕ
  pub timezone : Text
  pub active : Bool
  pub last_run_at : Option Instant
  pub next_run_at : Option Instant
  pub created_at : Instant

-- `text || null`
abbrev pub expr_or_null : Option Text → Option Text
expr_or_null (some []) = none
expr_or_null other = other

-- `interval || null`
abbrev pub interval_or_null : Option ℕ → Option ℕ
interval_or_null none = none
interval_or_null (some n) = if n == 0 then none else some n

-- The two CHECKs of the table.
abbrev pub interval_in_range : Option ℕ → Bool
interval_in_range none = true
interval_in_range (some n) = leb 1000 n && leb n 86400000

abbrev pub is_given {ℓ} : {A : Type ℓ} → Option A → Bool
is_given none = false
is_given (some _) = true

abbrev pub passes_checks : Schedule → Bool
passes_checks s =
    interval_in_range s.interval_ms && (is_given s.cron_expr || is_given s.interval_ms)

-- `cron_expr VARCHAR(100)`
abbrev pub expr_fits : Option Text → Bool
expr_fits none = true
expr_fits (some expr) = leb (length expr) 100

-- That, and `timezone VARCHAR(50)`.
unfoldable pub schedule_fits : Schedule → Bool
schedule_fits s = expr_fits s.cron_expr && leb (length s.timezone) 50

abbrev pub schedule_row : Schedule → Ident → Instant → Schedule
schedule_row s id now = record s {
  id = id;
  cron_expr = expr_or_null s.cron_expr;
  interval_ms = interval_or_null s.interval_ms;
  created_at = now;
}

-- `mapRow`
abbrev pub map_row : Schedule → Schedule
map_row row = record row {
  cron_expr = expr_or_null row.cron_expr;
  interval_ms = interval_or_null row.interval_ms;
}

-- The table, and the other tables.
pub record Schedules : Type 0 where
  pub db : Database
  pub schedules : List Schedule

-- `ScheduleRepository.create`; the id and the time of creation of its argument are not read.
unfoldable pub store_schedule :
    Schedule → Instant → Schedules → Result DbError (Schedule × Schedules)
unfolding schedule_fits
store_schedule s now t =
    let row = schedule_row s t.db.next_id now in
    if not (schedule_fits row)
    then err value_too_long
    else if not (has_workflow row.workflow_id t.db.workflows)
    then err foreign_key
    else if not (passes_checks row)
    then err check_violation
    else ok (
      map_row row,
      record {
        db = record t.db { next_id = suc t.db.next_id };
        schedules = t.schedules ++ row ∷ [];
      },
    )

abbrev pub row_of : Ident → List Schedule → Option Schedule
row_of id [] = none
row_of id (row ∷ rows) = if row.id == id then some (map_row row) else row_of id rows

unfoldable pub find_schedule : Ident → Schedules → Option Schedule
find_schedule id t = row_of id t.schedules

abbrev pub reached : Option Instant → Instant → Bool
reached none now = false
reached (some t) now = leb t now

-- `active = TRUE AND next_run_at <= $1`
abbrev pub due_at : Instant → Schedule → Bool
due_at now s = s.active && reached s.next_run_at now

unfoldable pub find_active : Schedules → List Schedule
find_active t = map map_row (keep (λ s. s.active) t.schedules)

unfoldable pub find_due : Instant → Schedules → List Schedule
find_due now t = map map_row (keep (due_at now) t.schedules)

abbrev pub change_row : (Schedule → Schedule) → Ident → List Schedule → List Schedule
change_row change id rows = map (λ s. if s.id == id then change s else s) rows

abbrev pub has_row : Ident → List Schedule → Bool
has_row id rows = any_of (λ s. s.id == id) rows

unfoldable pub update_next_run : Ident → Instant → Instant → Schedules → Bool × Schedules
update_next_run id next last t = (
  has_row id t.schedules,
  record t {
    schedules =
        change_row (λ s. record s { next_run_at = some next; last_run_at = some last }) id
          t.schedules;
  },
)

unfoldable pub set_active : Ident → Bool → Schedules → Bool × Schedules
set_active id active t = (
  has_row id t.schedules,
  record t { schedules = change_row (λ s. record s { active = active }) id t.schedules },
)

-- The answers of the controller: its 422s by their field, and errors that reach `next`.
pub data ScheduleAnswer : Type 0 where
  stored : Schedule → ScheduleAnswer
  toggled : ScheduleAnswer
  no_workflow : ScheduleAnswer
  bad_cron : ScheduleAnswer
  bad_interval : ScheduleAnswer
  no_schedule : ScheduleAnswer
  no_next_run : ScheduleAnswer
  refused : DbError → ScheduleAnswer

abbrev pub answer_status : ScheduleAnswer → ℕ
answer_status (stored _) = 201
answer_status toggled = 200
answer_status no_workflow = 422
answer_status bad_cron = 422
answer_status bad_interval = 422
answer_status no_schedule = 404
answer_status no_next_run = 500
answer_status (refused _) = 500

-- The body of a request.
pub record ScheduleBody : Type 0 where
  pub workflow_id : Ident
  pub cron_expr : Option Text
  pub interval_ms : Option ℕ
  pub timezone : Option Text

-- `timezone || 'UTC'`, with the text `UTC`.
abbrev pub zone_or_utc : Option Text → Text
zone_or_utc none = 85 ∷ 84 ∷ 67 ∷ []
zone_or_utc (some []) = 85 ∷ 84 ∷ 67 ∷ []
zone_or_utc (some z) = z

-- A search that finds nothing throws.
abbrev pub found_run : Result CronError Outcome → Option Instant
found_run (ok (run_at ms)) = some ms
found_run (ok no_run) = none
found_run (ok out_of_fuel) = none
found_run (err _) = none

abbrev pub run_or_error : Option Instant → Option (Option Instant)
run_or_error none = none
run_or_error (some ms) = some (some ms)

abbrev pub new_schedule : ScheduleBody → Option Instant → Schedule
new_schedule body next = record {
  id = 0;
  workflow_id = body.workflow_id;
  cron_expr = body.cron_expr;
  interval_ms = body.interval_ms;
  timezone = zone_or_utc body.timezone;
  active = true;
  last_run_at = none;
  next_run_at = next;
  created_at = 0;
}

abbrev pub after_insert :
    Schedules → Result DbError (Schedule × Schedules) → ScheduleAnswer × Schedules
after_insert t (ok (s, t')) = (stored s, t')
after_insert t (err e) = (refused e, t)

unfoldable pub insert_schedule :
    ScheduleBody → Instant → Schedules → Option (Option Instant) → ScheduleAnswer × Schedules
unfolding store_schedule
insert_schedule body now t none = (no_next_run, t)
insert_schedule body now t (some next) =
    after_insert t (store_schedule (new_schedule body next) now t)

module _ (unusual : Text → Option ℕ) (zone_of : Text → Option Zone) where
  abbrev pub run_in_zone : Text → Instant → Option Zone → Option Instant
  run_in_zone expr now none = none
  run_in_zone expr now (some zone) = found_run (get_next_run_time unusual expr zone now)

  -- `getNextRunTime(cronExpr, Date.now(), timezone)`, or nothing where it throws.
  unfoldable pub next_cron_run : Text → Text → Instant → Option Instant
  next_cron_run expr timezone now = run_in_zone expr now (zone_of timezone)

  abbrev pub parses : Option Text → Bool
  parses none = true
  parses (some expr) = elim (parse_cron_expression unusual expr) [ ok _ ↦ true | err _ ↦ false ]

  -- `nextRunAt`; nothing where the search throws.
  abbrev pub first_run : Option Text → Option ℕ → Text → Instant → Option (Option Instant)
  first_run (some expr) interval timezone now = run_or_error (next_cron_run expr timezone now)
  first_run none (some n) timezone now = some (some (now + n))
  first_run none none timezone now = some none

  -- `ScheduleController.create`. An empty expression counts as none.
  unfoldable pub create_schedule : ScheduleBody → Instant → Schedules → ScheduleAnswer × Schedules
  unfolding insert_schedule
  create_schedule body now t =
      let expr = expr_or_null body.cron_expr in
      if not (is_given (find_by_id body.workflow_id t.db))
      then (no_workflow, t)
      else if not (parses expr)
      then (bad_cron, t)
      else if not (interval_in_range body.interval_ms)
      then (bad_interval, t)
      else insert_schedule body now t
          (first_run expr (interval_or_null body.interval_ms) (zone_or_utc body.timezone) now)

-- `ScheduleController.toggle`, which answers the flag of the repository.
unfoldable pub toggle : Ident → Bool → Schedules → ScheduleAnswer × Schedules
unfolding set_active
toggle id active t =
    let (found, t') = set_active id active t in if found then (toggled, t') else (no_schedule, t')
