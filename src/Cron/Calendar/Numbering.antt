-- ===== src/Cron/Calendar/Numbering.antt =====
-- The numbering of days and minutes: it grows with the date, and `moment_at` undoes it.
use task_orchestrator_engine.Prelude.{
  ℕ, zero, suc, ◌+◌, ◌-◌, ◌≤◌, ◌<◌, ◌≡◌, inl, inr, refl, ltb, arith, Bool-cases, ap,
}
use task_orchestrator_engine.Cron.Calendar.{
  Moment, days_in_year, days_in_month, days_to_year, days_to_month, day_number,
}

pub month_cons : (y m : ℕ) → 28 ≤ days_in_month y m
unfolding days_in_month
month_cons y m = ground arith

pub month_length : (y m : ℕ) → days_in_month y m ≤ 31
unfolding days_in_month
month_length y m = ground arith

pub year_cons : (y : ℕ) → 365 ≤ days_in_year y
unfolding days_in_year
year_cons y = ground arith

pub twelve_months : (y : ℕ) → days_to_month y 12 ≡ days_in_year y
unfolding days_to_month days_in_month days_in_year
twelve_months y = ground arith

pub month_step : (y m : ℕ) → days_to_month y (suc m) ≡ days_to_month y m + days_in_month y (suc m)
unfolding days_to_month days_in_month
month_step y m = refl

pub year_step : (n : ℕ) → days_to_year (suc n) ≡ days_to_year n + days_in_year (1970 + n)
unfolding days_to_year days_in_year
year_step n = refl

months_le : (y m n : ℕ) → m ≤ n → days_to_month y m ≤ days_to_month y n
months_le y m zero h = let same : m ≡ 0 = omega arith in rw same (omega arith)
months_le y m (suc n) h = elim (Bool-cases (ltb m (suc n))) [
  | inl l ↦ ground (arith, months_le y m n, month_step y n)
  | inr l ↦ let same : m ≡ suc n = ground arith in rw same (omega arith)
]

years_le : (m n : ℕ) → m ≤ n → days_to_year m ≤ days_to_year n
years_le m zero h = let same : m ≡ 0 = omega arith in rw same (omega arith)
years_le m (suc n) h = elim (Bool-cases (ltb m (suc n))) [
  | inl l ↦ ground (arith, years_le m n, year_step n)
  | inr l ↦ let same : m ≡ suc n = ground arith in rw same (omega arith)
]

-- A date from 1970 on, and a moment of it.
abbrev pub IsDate : ℕ → ℕ → ℕ → Type 0
IsDate y m d = (1970 ≤ y) × (1 ≤ m) × (m ≤ 12) × (1 ≤ d) × (d ≤ days_in_month y m)

abbrev pub IsMoment : Moment → Type 0
IsMoment t = IsDate t.year t.month t.day × (t.hour ≤ 23) × (t.minute ≤ 59)

days_before :
    (y m d n : ℕ)
    → 1 ≤ m
    → d ≤ days_in_month y m
    → m ≤ n
    → days_to_month y (m - 1) + d ≤ days_to_month y n
days_before y zero d n h e l = omega arith
days_before y (suc m) d n h e l =
    let pred : suc m - 1 ≡ m = omega arith in
    rw pred (omega (arith, months_le y (suc m) n l, month_step y m))

day_in_year : (y m d : ℕ) → IsDate y m d → day_number y m d < days_to_year (suc (y - 1970))
unfolding day_number
day_in_year y m d h =
    let same : 1970 + (y - 1970) ≡ y = omega arith in
    omega (
      arith,
      days_before y m d 12 h.1 h.4 h.2,
      twelve_months y,
      year_step (y - 1970),
      ap days_in_year same,
    )

year_start : (y m d : ℕ) → days_to_year (y - 1970) ≤ day_number y m d
unfolding day_number
year_start y m d = omega arith

pub later_year :
    (y m d y' m' d' : ℕ)
    → IsDate y m d
    → IsDate y' m' d'
    → y < y'
    → day_number y m d < day_number y' m' d'
later_year y m d y' m' d' h k l =
    let start = years_le (suc (y - 1970)) (y' - 1970) (omega arith) in
    omega (arith, day_in_year y m d h, year_start y' m' d')

pub later_month :
    (y m d m' d' : ℕ)
    → IsDate y m d
    → IsDate y m' d'
    → m < m'
    → day_number y m d < day_number y m' d'
unfolding day_number
later_month y m d m' d' h k l = omega (arith, days_before y m d (m' - 1) h.1 h.4 (omega arith))

pub later_day : (y m d d' : ℕ) → 1 ≤ d → d < d' → day_number y m d < day_number y m d'
unfolding day_number
later_day y m d d' h l = omega arith
