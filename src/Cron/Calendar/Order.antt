-- ===== src/Cron/Calendar/Order.antt =====
-- The order of moments field by field, the order of their numbers, and the moment of a number.
use task_orchestrator_engine.Prelude.{
  ℕ, zero, suc, ◌+◌, ◌-◌, ◌*◌, ◌/◌, ◌≤◌, ◌<◌, ◌≡◌, ◌⊎◌, inl, inr, refl, ltb, arith, Bool-cases, ap,
  sym, subst,
}
use task_orchestrator_engine.Cron.Calendar.{
  Moment, days_in_year, days_in_month, days_to_year, days_to_month, day_number, minute_number,
  find_year, find_month, moment_of, moment_in_year, moment_at,
}
use task_orchestrator_engine.Cron.Calendar.Numbering.{
  year_cons, IsDate, IsMoment, month_step, year_step, twelve_months, later_year, later_month,
  later_day,
}

-- `t` is not after `u`, field by field.
abbrev pub NotAfter : Moment → Moment → Type 0
NotAfter t u =
    (t.year < u.year)
    ⊎ ((t.year ≡ u.year)
        × ((t.month < u.month)
            ⊎ ((t.month ≡ u.month)
                × ((t.day < u.day)
                    ⊎ ((t.day ≡ u.day)
                        × ((t.hour < u.hour) ⊎ ((t.hour ≡ u.hour) × (t.minute ≤ u.minute))))))))

abbrev pub Before : Moment → Moment → Type 0
Before t u =
    (t.year < u.year)
    ⊎ ((t.year ≡ u.year)
        × ((t.month < u.month)
            ⊎ ((t.month ≡ u.month)
                × ((t.day < u.day)
                    ⊎ ((t.day ≡ u.day)
                        × ((t.hour < u.hour) ⊎ ((t.hour ≡ u.hour) × (t.minute < u.minute))))))))

pub NotAfter-or_Before : (t u : Moment) → NotAfter t u ⊎ Before u t
NotAfter-or_Before t u = ground arith

moment_path :
    (t u : Moment)
    → t.year ≡ u.year
    → t.month ≡ u.month
    → t.day ≡ u.day
    → t.hour ≡ u.hour
    → t.minute ≡ u.minute
    → t ≡ u
moment_path t u a b c d e =
    λ i. record { year = a i; month = b i; day = c i; hour = d i; minute = e i }

day_cases :
    (t u : Moment)
    → IsMoment t
    → IsMoment u
    → Before t u
    → (day_number t.year t.month t.day < day_number u.year u.month u.day)
      ⊎ ((day_number t.year t.month t.day ≡ day_number u.year u.month u.day)
          × (t.hour * 60 + t.minute < u.hour * 60 + u.minute))
day_cases t u h k (inl y) = inl (later_year t.year t.month t.day u.year u.month u.day h.0 k.0 y)
day_cases t u h k (inr (e, inl m)) =
    let date = subst (λ (y : ℕ). IsDate y u.month u.day) (sym e) k.0 in
    let l = later_month t.year t.month t.day u.month u.day h.0 date m in inl (ground arith)
day_cases t u h k (inr (e, inr (f, inl d))) =
    let l = later_day t.year t.month t.day u.day h.0.3 d in inl (ground arith)
day_cases t u h k (inr (e, inr (f, inr (g, o)))) = inr (ground arith, ground arith)

pub Before-minute_number :
    (t u : Moment) → IsMoment t → IsMoment u → Before t u → minute_number t < minute_number u
unfolding minute_number
Before-minute_number t u h k b = elim (day_cases t u h k b) [
  | inl l ↦ omega arith
  | inr (e, l) ↦ omega arith
]

pub NotAfter-cases : (t u : Moment) → NotAfter t u → (t ≡ u) ⊎ Before t u
NotAfter-cases t u (inl y) = inr (inl y)
NotAfter-cases t u (inr (a, inl m)) = inr (inr (a, inl m))
NotAfter-cases t u (inr (a, inr (b, inl d))) = inr (inr (a, inr (b, inl d)))
NotAfter-cases t u (inr (a, inr (b, inr (c, inl h)))) = inr (inr (a, inr (b, inr (c, inl h))))
NotAfter-cases t u (inr (a, inr (b, inr (c, inr (d, i))))) =
    elim (Bool-cases (ltb t.minute u.minute)) [
      | inl l ↦ inr (inr (a, inr (b, inr (c, inr (d, ground arith)))))
      | inr l ↦ inl (moment_path t u a b c d (ground arith))
    ]

pub NotAfter-minute_number :
    (t u : Moment) → IsMoment t → IsMoment u → NotAfter t u → minute_number t ≤ minute_number u
NotAfter-minute_number t u h k b = elim (NotAfter-cases t u b) [
  | inl e ↦ let same = ap minute_number e in omega arith
  | inr l ↦ let less = Before-minute_number t u h k l in omega arith
]

abbrev IsYearOf : ℕ → ℕ → ℕ × ℕ → Type 0
IsYearOf n d p = (days_to_year p.0 + p.1 ≡ days_to_year n + d) × (p.1 < days_in_year (1970 + p.0))

find_year-IsYearOf : (fuel n d : ℕ) → d < 365 * suc fuel → IsYearOf n d (find_year fuel n d)
unfolding find_year
find_year-IsYearOf zero n d h = let long = year_cons (1970 + n) in (refl, omega arith)
find_year-IsYearOf (suc fuel) n d h = elim (Bool-cases (ltb d (days_in_year (1970 + n)))) [
  | inl l ↦ rw l (refl, ground arith)
  | inr l ↦
      let long = year_cons (1970 + n) in
      let step = year_step n in
      let rest = find_year-IsYearOf fuel (suc n) (d - days_in_year (1970 + n)) (ground arith) in
      rw l (ground arith, rest.1)
]

abbrev IsMonthOf : ℕ → ℕ → ℕ → ℕ × ℕ → Type 0
IsMonthOf y m d p =
    (days_to_month y (p.0 - 1) + (p.1 - 1) ≡ days_to_month y m + d)
    × (1 ≤ p.0)
    × (p.0 ≤ 12)
    × (1 ≤ p.1)
    × (p.1 ≤ days_in_month y p.0)

month_found :
    (y m d : ℕ) → suc m ≤ 12 → d < days_in_month y (suc m) → IsMonthOf y m d (suc m, d + 1)
month_found y m d h l =
    let pred : suc m - 1 ≡ m = omega arith in
    (rw pred (omega arith), omega arith, h, omega arith, omega arith)

find_month-IsMonthOf :
    (fuel y m d : ℕ)
    → m + fuel ≡ 11
    → days_to_month y m + d < days_in_year y
    → IsMonthOf y m d (find_month fuel y m d)
unfolding find_month
find_month-IsMonthOf zero y m d h l =
    let last : m ≡ 11 = omega arith in
    month_found y m d (omega arith) (
      subst (λ (n : ℕ). d < days_in_month y (suc n)) (sym last)
        (omega (
          arith,
          twelve_months y,
          month_step y 11,
          subst (λ (n : ℕ). days_to_month y n + d < days_in_year y) last l,
        )))
find_month-IsMonthOf (suc fuel) y m d h l = elim (Bool-cases (ltb d (days_in_month y (suc m)))) [
  | inl k ↦ rw k (month_found y m d (omega arith) (ground arith))
  | inr k ↦
      let step = month_step y m in
      let rest =
        find_month-IsMonthOf fuel y (suc m) (d - days_in_month y (suc m)) (omega arith)
          (ground arith) in
      rw k (ground arith, rest.1, rest.2, rest.3, rest.4)
]

no_years : days_to_year 0 ≡ 0
unfolding days_to_year
no_years = refl

no_months : (y : ℕ) → days_to_month y 0 ≡ 0
unfolding days_to_month
no_months y = refl

-- A moment that is the `k`-th minute.
abbrev pub IsMinute : ℕ → Moment → Type 0
IsMinute k t = IsMoment t × (minute_number t ≡ k)

module _ (k : ℕ) where
  in_month :
      (n d : ℕ) (q : ℕ × ℕ)
      → IsYearOf 0 (k / 1440) (n, d)
      → IsMonthOf (1970 + n) 0 d q
      → IsMinute k (moment_of (1970 + n) k q)
  unfolding minute_number day_number
  in_month n d q h m =
      let years : 1970 + n - 1970 ≡ n = omega arith in
      (
        ((omega arith, m.1, m.2, m.3, m.4), omega arith, omega arith),
        rw years (omega (arith, h.0, m.0, no_years, no_months (1970 + n))),
      )

  in_year : (p : ℕ × ℕ) → IsYearOf 0 (k / 1440) p → IsMinute k (moment_in_year k p)
  in_year (n, d) h =
      in_month n d (find_month 11 (1970 + n) 0 d) h
        (find_month-IsMonthOf 11 (1970 + n) 0 d (omega arith) (omega (arith, no_months (1970 + n))))

  pub moment_at-IsMinute : IsMinute k (moment_at k)
  unfolding moment_at
  moment_at-IsMinute =
      in_year (find_year (k / 1440) 0 (k / 1440))
        (find_year-IsYearOf (k / 1440) 0 (k / 1440) (omega arith))
