-- ===== src/Cron/Search/Utc.antt =====
-- `getNextRunTime` in UTC: the next run is the least one.
use task_orchestrator_engine.Prelude.{
  ℕ, ◌+◌, ◌*◌, ◌/◌, ◌≤◌, ◌<◌, ◌≡◌, inl, inr, refl, suc, sym, subst, ◌∙◌, Option, Result, ok, err,
  ◌>>=◌, Ends, done, threw, arith,
}
use task_orchestrator_engine.Cron.Text.{Text}
use task_orchestrator_engine.Cron.Field.{CronFields, CronError, parse_cron_expression}
use task_orchestrator_engine.Cron.Field.Outcome.{
  ValidFields, IsReported, parse_cron_expression-ValidFields,
}
use task_orchestrator_engine.Cron.Calendar.{Moment, minute_number, moment_at}
use task_orchestrator_engine.Cron.Calendar.Order.{
  NotAfter, NotAfter-or_Before, Before-minute_number, NotAfter-minute_number, moment_at-IsMinute,
}
use task_orchestrator_engine.Cron.Calendar.Numbering.{IsMoment, month_length}
use task_orchestrator_engine.Cron.Search.{
  utc, build_timestamp, Outcome, run_at, no_run, out_of_fuel, search, search_fuel, start_ms,
  next_run, get_next_run_time,
}
use task_orchestrator_engine.Cron.Search.Order.{code, IsInRange}
use task_orchestrator_engine.Cron.Search.Rounds.{IsRun, IsRun-IsInRange}
use task_orchestrator_engine.Cron.Search.Verdict.{IsFirstRun, search-IsFirstRun}

-- The milliseconds of a moment.
abbrev pub time_of : Moment → ℕ
time_of t = minute_number t * 60000

-- The first time after the reference that the fields name; or they name none up to the end of the
-- fourth year behind the year of the minute after the reference.
abbrev pub IsLeastRun : CronFields → ℕ → Outcome → Type 0
IsLeastRun f reference (run_at ms) =
    (u : Moment) × IsRun f u
    × (1970 ≤ u.year)
    × (ms ≡ time_of u)
    × (reference < ms)
    × ((w : Moment) → IsRun f w → 1970 ≤ w.year → reference < time_of w → ms ≤ time_of w)
IsLeastRun f reference no_run =
    (w : Moment)
    → IsRun f w
    → 1970 ≤ w.year
    → reference < time_of w
    → (moment_at (reference / 60000 + 1)).year + 4 < w.year
IsLeastRun f reference out_of_fuel = ⊥

module _ (f : CronFields) (valid : ValidFields f) (reference : ℕ) where
  abbrev start : Moment
  start = moment_at (start_ms reference / 60000)

  run-IsMoment : (w : Moment) → IsRun f w → 1970 ≤ w.year → IsMoment w
  run-IsMoment w r h =
      let range = IsRun-IsInRange f valid w r in
      ((h, range.0.0, range.0.1, range.0.2, r.day_exists), range.1, range.0.5)

  start_minute : minute_number start ≡ reference / 60000 + 1
  start_minute = let minute = (moment_at-IsMinute (start_ms reference / 60000)).1 in omega arith

  after_start : (w : Moment) → IsRun f w → 1970 ≤ w.year → reference < time_of w → NotAfter start w
  after_start w r h l = elim (NotAfter-or_Before start w) [
    | inl n ↦ n
    | inr b ↦
        let less =
          Before-minute_number w start (run-IsMoment w r h)
            (moment_at-IsMinute (start_ms reference / 60000)).0 b in
        elim (absurd_le less) [ ]
  ]
    where
      absurd_le : minute_number w < minute_number start → ⊥
      absurd_le less = omega (arith, start_minute)

  start-IsInRange : IsInRange start
  start-IsInRange =
      let m = (moment_at-IsMinute (start_ms reference / 60000)).0 in
      (
        m.0.1,
        m.0.2,
        m.0.3,
        omega (arith, m.0.4, month_length start.year start.month),
        omega arith,
        omega arith,
      )

  same_timestamp : (w : Moment) → build_timestamp utc w ≡ time_of w
  unfolding build_timestamp
  same_timestamp w = refl

  minute_after : start_ms reference / 60000 ≡ reference / 60000 + 1
  minute_after = omega arith

  start_year : (u : Moment) → IsInRange u → code start ≤ code u → 1970 ≤ u.year
  unfolding code
  start_year u b h =
      let m = (moment_at-IsMinute (start_ms reference / 60000)).0 in
      let range = start-IsInRange in omega arith

  enough : suc (start.year + 4) * 634400 < code start + search_fuel
  unfolding code
  enough = omega arith

  first_is_least :
      (o : Outcome) → IsFirstRun f utc reference (start.year + 4) start o → IsLeastRun f reference o
  first_is_least (run_at ms) (u, run, range, later, same, after, least) =
      let year = start_year u range later in
      (
        u,
        run,
        year,
        same ∙ same_timestamp u,
        after,
        λ w r y l.
            let order = NotAfter-minute_number u w (run-IsMoment u run year) (run-IsMoment w r y) (
              least w r (subst (λ (n : ℕ). reference < n) (sym (same_timestamp w)) l)
                (after_start w r y l)) in
            omega (arith, same, same_timestamp u),
      )
  first_is_least no_run h = λ w r y l.
      let late =
        h w r (subst (λ (n : ℕ). reference < n) (sym (same_timestamp w)) l) (after_start w r y l) in
      subst (λ (k : ℕ). (moment_at k).year + 4 < w.year) minute_after late
  first_is_least out_of_fuel h = h

  -- Whatever the reference, the search in UTC over valid fields ends with the least timestamp after
  -- the reference that the fields name, or the fields name none after the reference up to the end of
  -- the fourth year behind the year of the minute after the reference.
  pub next_run-IsLeastRun : IsLeastRun f reference (next_run f utc reference)
  unfolding next_run
  next_run-IsLeastRun = first_is_least (search f utc reference (start.year + 4) search_fuel start) (
      search-IsFirstRun f utc reference (start.year + 4) valid search_fuel start start-IsInRange
        (omega arith) enough)

module _ (unusual : Text → Option ℕ) where
  -- Whatever the text and the reference, `getNextRunTime` in UTC throws an error of the parser, or
  -- the expression parses to valid fields and the search ends with the least timestamp after the
  -- reference that they name, or with none up to the end of the fourth year behind the year of the
  -- minute after the reference.
  pub get_next_run_time-decides :
      (expr : Text) (reference : ℕ)
      → Ends
          (λ (o : Outcome).
            (f : CronFields) × (parse_cron_expression unusual expr ≡ ok f)
            × ValidFields f
            × IsLeastRun f reference o)
          IsReported
          (get_next_run_time unusual expr utc reference)
  unfolding get_next_run_time
  get_next_run_time-decides expr reference =
      over (parse_cron_expression unusual expr) refl
        (parse_cron_expression-ValidFields unusual expr)
    where
      over :
          (r : Result CronError CronFields)
          → parse_cron_expression unusual expr ≡ r
          → Ends ValidFields IsReported r
          → Ends
              (λ (o : Outcome).
                (f : CronFields) × (parse_cron_expression unusual expr ≡ ok f)
                × ValidFields f
                × IsLeastRun f reference o)
              IsReported
              (r >>= λ fields. ok (next_run fields utc reference))
      over (ok f) e (done v) = done (f, e, v, next_run-IsLeastRun f v reference)
      over (err c) e (threw q) = threw q
