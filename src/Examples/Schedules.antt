-- ===== src/Examples/Schedules.antt =====
-- Cron expressions: fields, runs in UTC and in a zone five hours behind it.
use task_orchestrator_engine.Prelude.{
  ℕ, ◌≡◌, ◌≢◌, ◌%◌, ◌-◌, refl, [], ◌∷◌, Option, none, ok, Ends, arith,
}
use task_orchestrator_engine.Cron.Text.{Text, split, includes, parse_int}
use task_orchestrator_engine.Cron.Field.{
  CronFields, minute_spec, add_range, parse_field, parse_cron_expression,
}
use task_orchestrator_engine.Cron.Field.Outcome.{
  Parsed, ValidFields, IsReported, parse_field-Parsed,
}
use task_orchestrator_engine.Cron.Field.Parts.{IsRefusal}
use task_orchestrator_engine.Cron.Calendar.{Moment, days_in_month, minute_number, moment_at}
use task_orchestrator_engine.Cron.Calendar.Numbering.{IsMoment}
use task_orchestrator_engine.Cron.Search.{
  utc, Outcome, run_at, get_next_run_time, build_timestamp, get_date_parts, search,
}
use task_orchestrator_engine.Cron.Search.Order.{code}
use task_orchestrator_engine.Cron.Search.Utc.{IsLeastRun, get_next_run_time-decides}
use task_orchestrator_engine.Cron.Search.Verdict.{IsFirstRun, search-IsFirstRun}
use task_orchestrator_engine.Cron.Search.Zones.{
  behind, get_date_parts-build_timestamp, build_timestamp-across_months,
}

abbrev no_number : Text → Option ℕ
no_number t = none

-- `*/15,7`
abbrev quarters : Text
quarters = b'*' ∷ b'/' ∷ b'1' ∷ b'5' ∷ b',' ∷ b'7' ∷ []

quarters_lem : parse_field minute_spec no_number quarters ≡ ok (0 ∷ 7 ∷ 15 ∷ 30 ∷ 45 ∷ [])
unfolding parse_field split includes parse_int add_range
quarters_lem = refl

parse_field-Parsed_example :
    Ends
      (Parsed minute_spec no_number (split b',' quarters))
      (IsRefusal minute_spec)
      (parse_field minute_spec no_number quarters)
parse_field-Parsed_example = parse_field-Parsed minute_spec (omega arith) no_number quarters

-- `0 2 1 3-9 *`
abbrev monthly : Text
monthly = b'0' ∷ b' ' ∷ b'2' ∷ b' ' ∷ b'1' ∷ b' ' ∷ b'3' ∷ b'-' ∷ b'9' ∷ b' ' ∷ b'*' ∷ []

-- From 15 February 2024 to 1 March 2024, 02:00.
monthly_lem : get_next_run_time no_number monthly utc 1708000000000 ≡ ok (run_at 1709258400000)
unfolding get_next_run_time split includes parse_int add_range
monthly_lem = refl

get_next_run_time-decides_example :
    Ends
      (λ (o : Outcome).
        (f : CronFields) × (parse_cron_expression no_number monthly ≡ ok f)
        × ValidFields f
        × IsLeastRun f 1708000000000 o)
      IsReported
      (get_next_run_time no_number monthly utc 1708000000000)
get_next_run_time-decides_example = get_next_run_time-decides no_number monthly 1708000000000

abbrev noon : Moment
noon = record { year = 2024; month = 3; day = 15; hour = 12; minute = 30 }

abbrev first_night : Moment
first_night = record { year = 2024; month = 3; day = 1; hour = 2; minute = 0 }

noon-IsMoment : IsMoment noon
unfolding days_in_month
noon-IsMoment = omega arith

first_night-IsMoment : IsMoment first_night
unfolding days_in_month
first_night-IsMoment = omega arith

-- `30 12 15 3 *`
abbrev fields : CronFields
fields = record {
  minutes = 30 ∷ [];
  hours = 12 ∷ [];
  days_of_month = 15 ∷ [];
  months = 3 ∷ [];
  days_of_week = 0 ∷ 1 ∷ 2 ∷ 3 ∷ 4 ∷ 5 ∷ 6 ∷ [];
}

fields-ValidFields : ValidFields fields
fields-ValidFields = record {
  minutes_lem = ground arith;
  hours_lem = ground arith;
  days_of_month_lem = ground arith;
  months_lem = ground arith;
  days_of_week_lem = ground arith;
}

search-IsFirstRun_example :
    IsFirstRun fields
      (behind 300)
      1710000000000
      2028
      first_night
      (search fields (behind 300) 1710000000000 2028 3172001 first_night)
unfolding code
search-IsFirstRun_example =
    search-IsFirstRun fields (behind 300) 1710000000000 2028 fields-ValidFields 3172001 first_night
      (omega arith) (omega arith) (omega arith)

get_date_parts-build_timestamp_example :
    IsMoment (get_date_parts utc 1710505861234)
    × (build_timestamp utc (get_date_parts utc 1710505861234)
        ≡ 1710505861234 - 1710505861234 % 60000)
    × (get_date_parts utc (build_timestamp utc noon) ≡ noon)
get_date_parts-build_timestamp_example =
    get_date_parts-build_timestamp 1710505861234 noon noon-IsMoment

build_timestamp-across_months_example :
    get_date_parts (behind 300) (build_timestamp (behind 300) first_night) ≢ first_night
unfolding minute_number moment_at
build_timestamp-across_months_example =
    build_timestamp-across_months first_night first_night-IsMoment 300 (omega arith) (omega arith)
      refl refl
