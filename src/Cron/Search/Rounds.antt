-- ===== src/Cron/Search/Rounds.antt =====
-- One round of the loop: what it continues from is later and skips no moment that the fields name,
-- and what it proposes is the first such moment.
use task_orchestrator_engine.Prelude.{
  ℕ, ◌+◌, ◌≤◌, ◌<◌, ◌≡◌, inl, inr, true, Option, none, some, elem, ltb, arith, Bool-cases,
}
use task_orchestrator_engine.Cron.Field.{CronFields}
use task_orchestrator_engine.Cron.Field.Outcome.{ValidFields}
use task_orchestrator_engine.Cron.Calendar.{Moment, days_in_month, get_day_of_week}
use task_orchestrator_engine.Cron.Calendar.Order.{NotAfter}
use task_orchestrator_engine.Cron.Search.{
  Round, again, candidate, next_month, next_day, to_month, to_day, to_hour, minute_stage,
}
use task_orchestrator_engine.Cron.Search.Order.{code, IsInRange, IsNext}

-- The moments that the fields name: a day of its month, on one of the days of the week.
pub record IsRun (f : CronFields) (t : Moment) : Type 0 where
  pub month_named : elem t.month f.months ≡ true
  pub day_named : elem t.day f.days_of_month ≡ true
  pub day_exists : t.day ≤ days_in_month t.year t.month
  pub weekday_named : elem (get_day_of_week t.year t.month t.day) f.days_of_week ≡ true
  pub hour_named : elem t.hour f.hours ≡ true
  pub minute_named : elem t.minute f.minutes ≡ true

module _ (f : CronFields) where
  -- From `t` to `u` no moment that the fields name is passed.
  abbrev pub SkipsNone : Moment → Moment → Type 0
  SkipsNone t u = (w : Moment) → IsRun f w → NotAfter t w → NotAfter u w

  abbrev pub Advance : Moment → Round → Type 0
  Advance t (again u) = IsInRange u × (code t < code u) × SkipsNone t u
  Advance t (candidate u) = IsRun f u × IsInRange u × (code t ≤ code u) × SkipsNone t u

  abbrev pub Moves : Moment → Moment → Type 0
  Moves t u = IsInRange u × (code t ≤ code u) × SkipsNone t u

  pub after_move : (t u : Moment) (r : Round) → Moves t u → Advance u r → Advance t r
  after_move t u (again v) m a = (a.0, omega (arith, m.1, a.1), λ w r n. a.2 w r (m.2 w r n))
  after_move t u (candidate v) m a =
      (a.0, a.1, omega (arith, m.1, a.2), λ w r n. a.3 w r (m.2 w r n))

  module _ (valid : ValidFields f) where
    pub IsRun-IsInRange : (w : Moment) → IsRun f w → IsInRange w × (w.hour ≤ 23)
    IsRun-IsInRange w r =
        let month = valid.months_lem.2 w.month r.month_named in
        let day = valid.days_of_month_lem.2 w.day r.day_named in
        let hour = valid.hours_lem.2 w.hour r.hour_named in
        let minute = valid.minutes_lem.2 w.minute r.minute_named in ground arith

    pub minute_stage-Advance :
        (t : Moment) (o : Option ℕ)
        → IsInRange t
        → t.hour ≤ 23
        → elem t.month f.months ≡ true
        → elem t.day f.days_of_month ≡ true
        → t.day ≤ days_in_month t.year t.month
        → elem (get_day_of_week t.year t.month t.day) f.days_of_week ≡ true
        → elem t.hour f.hours ≡ true
        → IsNext f.minutes t.minute o
        → Advance t (minute_stage f t o)
    unfolding code
    minute_stage-Advance t none h b p q r s e n = (
      ground arith,
      omega arith,
      λ w i l. ground (arith, n w.minute, i.minute_named, IsRun-IsInRange w i),
    )
    minute_stage-Advance t (some k) h b p q r s e n =
        let minute = valid.minutes_lem.2 k n.0 in
        (
          record {
            month_named = p;
            day_named = q;
            day_exists = r;
            weekday_named = s;
            hour_named = e;
            minute_named = n.0;
          },
          ground arith,
          omega (arith, n.1),
          λ w i l. ground (arith, n.2 w.minute, i.minute_named),
        )

    pub next_month-Advance :
        (t : Moment)
        → IsInRange t
        → ((w : Moment) → IsRun f w → NotAfter t w → w.year ≡ t.year → w.month ≡ t.month → ⊥)
        → Advance t (again (next_month t))
    unfolding code
    next_month-Advance t b none_left =
        (ground arith, ground arith, λ w i l. ground (arith, none_left w i l, IsRun-IsInRange w i))

    pub next_day-Advance :
        (t : Moment)
        → IsInRange t
        → t.day ≤ days_in_month t.year t.month
        → days_in_month t.year t.month ≤ 31
        → ((w : Moment)
            → IsRun f w
            → NotAfter t w
            → w.year ≡ t.year
            → w.month ≡ t.month
            → w.day ≡ t.day
            → ⊥)
        → Advance t (again (next_day t))
    unfolding code next_day
    next_day-Advance t b e m none_left =
        elim (Bool-cases (ltb (days_in_month t.year t.month) (t.day + 1))) [
          | inl h ↦
              rw h
                (next_month-Advance t b (λ w i l p q. none_left w i l p q (last_day w i l p q h)))
          | inr h ↦ rw h (
            ground arith,
            ground arith,
            λ w i l. ground (arith, none_left w i l, IsRun-IsInRange w i),
          )
        ]
      where
        last_day :
            (w : Moment)
            → IsRun f w
            → NotAfter t w
            → w.year ≡ t.year
            → w.month ≡ t.month
            → ltb (days_in_month t.year t.month) (t.day + 1) ≡ true
            → w.day ≡ t.day
        last_day w i l p q h = let exists = i.day_exists in ground arith

    pub to_hour-Moves :
        (t : Moment) (h : ℕ) → IsInRange t → IsNext f.hours t.hour (some h) → Moves t (to_hour t h)
    unfolding code
    to_hour-Moves t h b n =
        let hour = valid.hours_lem.2 h n.0 in
        (ground arith, ground arith, λ w i l. ground (arith, n.2 w.hour, i.hour_named))

    pub to_day-Moves :
        (t : Moment) (d : ℕ)
        → IsInRange t
        → d ≤ 31
        → t.day ≤ d
        → ((w : Moment)
            → IsRun f w
            → w.year ≡ t.year
            → w.month ≡ t.month
            → t.day ≤ w.day
            → d ≤ w.day)
        → Moves t (to_day t d)
    unfolding code
    to_day-Moves t d b h l n = (ground arith, ground arith, λ w i k. ground (arith, n w i))

    pub to_month-Moves :
        (t : Moment) (m : ℕ)
        → IsInRange t
        → IsNext f.months t.month (some m)
        → Moves t (to_month t m)
    unfolding code
    to_month-Moves t m b n =
        let month = valid.months_lem.2 m n.0 in
        (
          ground arith,
          ground arith,
          λ w i l. ground (arith, n.2 w.month, i.month_named, IsRun-IsInRange w i),
        )
