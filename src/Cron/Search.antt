-- ===== src/Cron/Search.antt =====
-- `findNextOrEqual` and the loop of `getNextRunTime`. A round of the loop either continues from a
-- later moment or has a moment to build a timestamp of; times are in milliseconds since 1970.
pub mod Order
mod Rounds
pub mod Stages
pub mod Verdict
pub mod Later
pub mod Utc
pub mod Zones
use task_orchestrator_engine.Prelude.{
  ℕ, zero, suc, ◌+◌, ◌-◌, ◌*◌, ◌/◌, ◌%◌, Bool, true, false, ◌&&◌, Option, none, some, List, [], ◌∷◌,
  elem, keep, ltb, leb, ◌==◌, if◌then◌else◌, Result, ok, err, ◌>>=◌,
}
use task_orchestrator_engine.Cron.Text.{Text}
use task_orchestrator_engine.Cron.Field.{CronFields, CronError, parse_cron_expression}
use task_orchestrator_engine.Cron.Calendar.{
  Moment, days_in_month, get_day_of_week, minute_number, moment_at,
}

unfoldable pub find_next_or_equal : List ℕ → ℕ → Option ℕ
find_next_or_equal [] current = none
find_next_or_equal (v ∷ vs) current =
    let further = find_next_or_equal vs current in if leb current v then some v else further

pub data Round : Type 0 where
  again : Moment → Round
  candidate : Moment → Round

-- `fields.months[0]`
abbrev pub first_of : List ℕ → ℕ
first_of [] = 0
first_of (v ∷ vs) = v

abbrev pub month_start : ℕ → ℕ → Moment
month_start y m = record { year = y; month = m; day = 1; hour = 0; minute = 0 }

abbrev pub next_month : Moment → Moment
next_month t =
    if ltb 12 (t.month + 1) then month_start (t.year + 1) 1 else month_start t.year (t.month + 1)

abbrev pub day_start : Moment → ℕ → Moment
day_start t d = record { year = t.year; month = t.month; day = d; hour = 0; minute = 0 }

unfoldable pub next_day : Moment → Moment
next_day t =
    if ltb (days_in_month t.year t.month) (t.day + 1) then next_month t else day_start t (t.day + 1)

abbrev pub at_hour : Moment → ℕ → ℕ → Moment
at_hour t h i = record { year = t.year; month = t.month; day = t.day; hour = h; minute = i }

abbrev pub to_month : Moment → ℕ → Moment
to_month t m = if ltb t.month m then month_start t.year m else t

abbrev pub to_day : Moment → ℕ → Moment
to_day t d = if ltb t.day d then day_start t d else t

abbrev pub to_hour : Moment → ℕ → Moment
to_hour t h = if ltb t.hour h then at_hour t h 0 else t

-- `minute++`, into the next hour behind 59.
abbrev pub next_minute : Moment → Moment
next_minute t =
    if ltb 59 (t.minute + 1) then at_hour t (t.hour + 1) 0 else at_hour t t.hour (t.minute + 1)

module _ (fields : CronFields) where
  abbrev pub minute_stage : Moment → Option ℕ → Round
  minute_stage t none = again (at_hour t (t.hour + 1) 0)
  minute_stage t (some i) = candidate (at_hour t t.hour i)

  abbrev pub from_hour : Moment → Round
  from_hour t = minute_stage t (find_next_or_equal fields.minutes t.minute)

  abbrev pub hour_stage : Moment → Option ℕ → Round
  hour_stage t none = again (next_day t)
  hour_stage t (some h) = from_hour (to_hour t h)

  abbrev pub weekday_stage : Moment → Bool → Round
  weekday_stage t false = again (next_day t)
  weekday_stage t true = hour_stage t (find_next_or_equal fields.hours t.hour)

  abbrev pub from_day : Moment → Round
  from_day t = weekday_stage t (elem (get_day_of_week t.year t.month t.day) fields.days_of_week)

  abbrev pub day_stage : Moment → Option ℕ → Round
  day_stage t none = again (next_month t)
  day_stage t (some d) = from_day (to_day t d)

  abbrev pub days_stage : Moment → List ℕ → Round
  days_stage t [] = again (next_month t)
  days_stage t (d ∷ ds) = day_stage t (find_next_or_equal (d ∷ ds) t.day)

  abbrev pub from_month : Moment → Round
  from_month t =
      days_stage t (keep (λ d. leb d (days_in_month t.year t.month)) fields.days_of_month)

  abbrev pub month_stage : Moment → Option ℕ → Round
  month_stage t none = again (month_start (t.year + 1) (first_of fields.months))
  month_stage t (some m) = from_month (to_month t m)

  unfoldable pub round : Moment → Round
  unfolding find_next_or_equal get_day_of_week next_day
  round t = month_stage t (find_next_or_equal fields.months t.month)

-- UTC, or a zone by the function that `Intl.DateTimeFormat` gives, of times from 1970 on.
pub data Zone : Type 0 where
  utc : Zone
  local : (ℕ → Moment) → Zone

abbrev pub get_date_parts : Zone → ℕ → Moment
get_date_parts utc ms = moment_at (ms / 60000)
get_date_parts (local parts) ms = parts ms

abbrev pub same_moment : Moment → Moment → Bool
same_moment t u =
    t.year == u.year
    && (t.month == u.month && (t.day == u.day && (t.hour == u.hour && t.minute == u.minute)))

-- The first of some times that has the wanted parts, or the default.
abbrev pub first_verified : (ℕ → Moment) → Moment → List ℕ → ℕ → ℕ
first_verified parts t [] default = default
first_verified parts t (ms ∷ rest) default =
    if same_moment (parts ms) t then ms else first_verified parts t rest default

abbrev pub local_minutes : Moment → ℕ
local_minutes t = t.year * 525960 + t.month * 43800 + t.day * 1440 + t.hour * 60 + t.minute

-- The times to try: the guess moved by the difference, then moved by up to two hours.
abbrev pub candidates : ℕ → List ℕ
candidates ms = ms ∷ (ms + 3600000) ∷ (ms - 3600000) ∷ (ms + 7200000) ∷ (ms - 7200000) ∷ []

unfoldable pub build_timestamp : Zone → Moment → ℕ
unfolding minute_number
build_timestamp utc t = minute_number t * 60000
build_timestamp (local parts) t =
    let guess = minute_number t * 60000 in
    let result = guess + local_minutes t * 60000 - local_minutes (parts guess) * 60000 in
    first_verified parts t (candidates result) result

pub data Outcome : Type 0 where
  run_at : ℕ → Outcome
  no_run : Outcome
  out_of_fuel : Outcome

module _ (fields : CronFields) (zone : Zone) (reference max_year : ℕ) where
  unfoldable pub search : ℕ → Moment → Outcome
  unfolding round build_timestamp
  search zero t = out_of_fuel
  search (suc fuel) t = elim (ltb max_year t.year) [
    | true ↦ no_run
    | false ↦ elim (round fields t) [
      | again u ↦ search fuel u
      | candidate u ↦ elim (ltb reference (build_timestamp zone u)) [
        | true ↦ run_at (build_timestamp zone u)
        | false ↦ search fuel (next_minute u)
      ]
    ]
  ]

-- The reference and a minute, rounded down to the minute.
abbrev pub start_ms : ℕ → ℕ
start_ms reference = reference + 60000 - (reference + 60000) % 60000

-- Five years of moments, by the numbering of `Moment`s with room for 13 months of 32 days of 25 hours
-- of 61 minutes.
abbrev pub search_fuel : ℕ
search_fuel = 3172001

unfoldable pub next_run : CronFields → Zone → ℕ → Outcome
unfolding search moment_at
next_run fields zone reference =
    search fields zone reference ((get_date_parts zone (start_ms reference)).year + 4) search_fuel
      (get_date_parts zone (start_ms reference))

-- `getNextRunTime`
unfoldable pub get_next_run_time : (Text → Option ℕ) → Text → Zone → ℕ → Result CronError Outcome
unfolding parse_cron_expression next_run
get_next_run_time unusual expr zone reference = do
  fields ← parse_cron_expression unusual expr
  ok (next_run fields zone reference)
