-- ===== src/Cron/Search/Stages.antt =====
-- One round of the loop, stage by stage.
use task_orchestrator_engine.Prelude.{
  ℕ, ◌≤◌, ◌<◌, ◌≡◌, refl, Bool, true, false, Option, none, some, List, [], ◌∷◌, elem, keep, leb,
  arith, length, elem-keep, ap, sym, subst,
}
use task_orchestrator_engine.Cron.Field.{CronFields}
use task_orchestrator_engine.Cron.Field.Outcome.{ValidFields}
use task_orchestrator_engine.Cron.Calendar.{Moment, days_in_month, get_day_of_week}
use task_orchestrator_engine.Cron.Calendar.Numbering.{month_length}
use task_orchestrator_engine.Cron.Search.{
  find_next_or_equal, first_of, to_month, to_day, to_hour, from_hour, hour_stage, weekday_stage,
  from_day, day_stage, days_stage, from_month, month_stage, round,
}
use task_orchestrator_engine.Cron.Search.Order.{
  code, IsInRange, IsNext, first_least, find_next_or_equal-IsNext, keep-IsSorted,
}
use task_orchestrator_engine.Cron.Search.Rounds.{
  IsRun, Advance, after_move, IsRun-IsInRange, minute_stage-Advance, next_month-Advance,
  next_day-Advance, to_hour-Moves, to_day-Moves, to_month-Moves,
}

first_named : (vs : List ℕ) → 0 < length vs → elem (first_of vs) vs ≡ true
first_named [] h = ground arith
first_named (v ∷ vs) h = ground arith

module _ (f : CronFields) (valid : ValidFields f) where
  from_hour-Advance :
      (t : Moment)
      → IsInRange t
      → t.hour ≤ 23
      → elem t.month f.months ≡ true
      → elem t.day f.days_of_month ≡ true
      → t.day ≤ days_in_month t.year t.month
      → elem (get_day_of_week t.year t.month t.day) f.days_of_week ≡ true
      → elem t.hour f.hours ≡ true
      → Advance f t (from_hour f t)
  from_hour-Advance t b h p q r s e =
      minute_stage-Advance f valid t (find_next_or_equal f.minutes t.minute) b h p q r s e
        (find_next_or_equal-IsNext f.minutes t.minute valid.minutes_lem.0)

  hour_stage-Advance :
      (t : Moment) (o : Option ℕ)
      → IsInRange t
      → elem t.month f.months ≡ true
      → elem t.day f.days_of_month ≡ true
      → t.day ≤ days_in_month t.year t.month
      → days_in_month t.year t.month ≤ 31
      → elem (get_day_of_week t.year t.month t.day) f.days_of_week ≡ true
      → IsNext f.hours t.hour o
      → Advance f t (hour_stage f t o)
  hour_stage-Advance t none b p q r m s n =
      next_day-Advance f valid t b r m
        (λ w i l c d e. let named = n w.hour i.hour_named in ground arith)
  hour_stage-Advance t (some h) b p q r m s n =
      let u = to_hour-Moves f valid t h b n in
      let hour = valid.hours_lem.2 h n.0 in
      after_move f t (to_hour t h) (from_hour f (to_hour t h)) u (
        from_hour-Advance (to_hour t h) u.0 (ground arith) (ground arith) (ground arith)
          (ground arith) (ground arith) (ground arith))

  weekday_stage-Advance :
      (t : Moment) (b : Bool)
      → IsInRange t
      → elem t.month f.months ≡ true
      → elem t.day f.days_of_month ≡ true
      → t.day ≤ days_in_month t.year t.month
      → days_in_month t.year t.month ≤ 31
      → elem (get_day_of_week t.year t.month t.day) f.days_of_week ≡ b
      → Advance f t (weekday_stage f t b)
  weekday_stage-Advance t false b p q r m s =
      next_day-Advance f valid t b r m (λ w i l c d e. let named = i.weekday_named in ground arith)
  weekday_stage-Advance t true b p q r m s =
      hour_stage-Advance t (find_next_or_equal f.hours t.hour) b p q r m s
        (find_next_or_equal-IsNext f.hours t.hour valid.hours_lem.0)

  from_day-Advance :
      (t : Moment)
      → IsInRange t
      → elem t.month f.months ≡ true
      → elem t.day f.days_of_month ≡ true
      → t.day ≤ days_in_month t.year t.month
      → Advance f t (from_day f t)
  from_day-Advance t b p q r =
      weekday_stage-Advance t (elem (get_day_of_week t.year t.month t.day) f.days_of_week) b p q r
        (month_length t.year t.month) refl

  -- The days of the month that exist in it.
  abbrev days_here : Moment → List ℕ
  days_here t = keep (λ d. leb d (days_in_month t.year t.month)) f.days_of_month

  run_day_here :
      (t w : Moment)
      → IsRun f w
      → w.year ≡ t.year
      → w.month ≡ t.month
      → elem w.day (days_here t) ≡ true
  run_day_here t w i p q =
      let exists = i.day_exists in
      let named = i.day_named in
      ground (arith, elem-keep (λ d. leb d (days_in_month t.year t.month)) w.day f.days_of_month)

  day_stage-Advance :
      (t : Moment) (o : Option ℕ)
      → IsInRange t
      → elem t.month f.months ≡ true
      → IsNext (days_here t) t.day o
      → Advance f t (day_stage f t o)
  day_stage-Advance t none b p n =
      next_month-Advance f valid t b
        (λ w i l c d. let here = n w.day (run_day_here t w i c d) in ground arith)
  day_stage-Advance t (some d) b p n =
      let kept = elem-keep (λ d. leb d (days_in_month t.year t.month)) d f.days_of_month in
      let length = month_length t.year t.month in
      let u =
        to_day-Moves f valid t d b (ground arith) n.1
          (λ w i c e. n.2 w.day (run_day_here t w i c e)) in
      after_move f t (to_day t d) (from_day f (to_day t d)) u
        (from_day-Advance (to_day t d) u.0 (ground arith) (ground arith) (ground arith))

  days_stage-Advance :
      (t : Moment) (ds : List ℕ)
      → IsInRange t
      → elem t.month f.months ≡ true
      → ds ≡ days_here t
      → Advance f t (days_stage f t ds)
  days_stage-Advance t [] b p e = next_month-Advance f valid t b (λ w i l c d.
      let here = run_day_here t w i c d in let same = ap (elem w.day) e in ground arith)
  days_stage-Advance t (d ∷ ds) b p e =
      day_stage-Advance t (find_next_or_equal (d ∷ ds) t.day) b p (
        subst (λ (l : List ℕ). IsNext (days_here t) t.day (find_next_or_equal l t.day)) (sym e)
          (find_next_or_equal-IsNext (days_here t) t.day
            (keep-IsSorted _ f.days_of_month valid.days_of_month_lem.0)))

  month_stage-Advance :
      (t : Moment) (o : Option ℕ)
      → IsInRange t
      → IsNext f.months t.month o
      → Advance f t (month_stage f t o)
  unfolding code
  month_stage-Advance t none b n =
      let first = first_named f.months valid.months_lem.1 in
      let month = valid.months_lem.2 (first_of f.months) first in
      (
        ground arith,
        ground arith,
        λ w i l. ground (
          arith,
          n w.month i.month_named,
          first_least f.months w.month valid.months_lem.0 i.month_named,
          IsRun-IsInRange f valid w i,
        ),
      )
  month_stage-Advance t (some m) b n =
      let u = to_month-Moves f valid t m b n in
      after_move f t (to_month t m) (from_month f (to_month t m)) u
        (days_stage-Advance (to_month t m) (days_here (to_month t m)) u.0 (ground arith) refl)

  pub round-Advance : (t : Moment) → IsInRange t → Advance f t (round f t)
  unfolding round
  round-Advance t b =
      month_stage-Advance t (find_next_or_equal f.months t.month) b
        (find_next_or_equal-IsNext f.months t.month valid.months_lem.0)
