-- ===== src/Cron/Calendar.antt =====
-- `Date` in UTC from 1970 on: the length of a month, the day of the week, and the numbering of days
-- and of minutes. `daysInMonth` and `getDayOfWeek` use it, as do the time zone functions for `UTC`.
pub mod Numbering
pub mod Order
use task_orchestrator_engine.Prelude.{
  ℕ, zero, suc, ◌+◌, ◌-◌, ◌*◌, ◌/◌, ◌%◌, Bool, true, false, not, ◌&&◌, ◌||◌, ltb, leb, ◌==◌,
  if◌then◌else◌,
}

-- A minute of the calendar, months and days counted from 1.
pub record Moment : Type 0 where
  pub year : ℕ
  pub month : ℕ
  pub day : ℕ
  pub hour : ℕ
  pub minute : ℕ

abbrev pub is_leap : ℕ → Bool
is_leap y = y % 4 == 0 && (not (y % 100 == 0) || y % 400 == 0)

unfoldable pub days_in_year : ℕ → ℕ
days_in_year y = if is_leap y then 366 else 365

-- `new Date(year, month, 0).getDate()`, for a month from 1 to 12.
unfoldable pub days_in_month : ℕ → ℕ → ℕ
days_in_month y m =
    if m == 2
    then (if is_leap y then 29 else 28)
    else if m == 4 || (m == 6 || (m == 9 || m == 11))
    then 30
    else 31

-- The days from 1970 to the first day of `1970 + n`.
unfoldable pub days_to_year : ℕ → ℕ
unfolding days_in_year
days_to_year zero = 0
days_to_year (suc n) = days_to_year n + days_in_year (1970 + n)

-- The days of a year before the month after its `n`-th.
unfoldable pub days_to_month : ℕ → ℕ → ℕ
unfolding days_in_month
days_to_month y zero = 0
days_to_month y (suc n) = days_to_month y n + days_in_month y (suc n)

-- The days since the first of January 1970.
unfoldable pub day_number : ℕ → ℕ → ℕ → ℕ
unfolding days_to_year days_to_month
day_number y m d = days_to_year (y - 1970) + days_to_month y (m - 1) + (d - 1)

-- `new Date(year, month - 1, day).getDay()`: the epoch was a Thursday.
unfoldable pub get_day_of_week : ℕ → ℕ → ℕ → ℕ
unfolding day_number
get_day_of_week y m d = (4 + day_number y m d) % 7

-- `Date.UTC`, in minutes.
unfoldable pub minute_number : Moment → ℕ
unfolding day_number
minute_number t = (day_number t.year t.month t.day * 24 + t.hour) * 60 + t.minute

-- The years since 1970 and the day of that year, `n` years having passed.
unfoldable pub find_year : ℕ → ℕ → ℕ → ℕ × ℕ
unfolding days_in_year
find_year zero n d = (n, d)
find_year (suc fuel) n d =
    let next = find_year fuel (suc n) (d - days_in_year (1970 + n)) in
    if ltb d (days_in_year (1970 + n)) then (n, d) else next

-- The month and the day of the month of a day of the year, `m` months having passed.
unfoldable pub find_month : ℕ → ℕ → ℕ → ℕ → ℕ × ℕ
unfolding days_in_month
find_month zero y m d = (suc m, d + 1)
find_month (suc fuel) y m d =
    let next = find_month fuel y (suc m) (d - days_in_month y (suc m)) in
    if ltb d (days_in_month y (suc m)) then (suc m, d + 1) else next

abbrev pub moment_of : ℕ → ℕ → ℕ × ℕ → Moment
moment_of n rest (m, d) = record {
  year = n;
  month = m;
  day = d;
  hour = (rest / 60) % 24;
  minute = rest % 60;
}

abbrev pub moment_in_year : ℕ → ℕ × ℕ → Moment
moment_in_year k (n, d) = moment_of (1970 + n) k (find_month 11 (1970 + n) 0 d)

-- `getUTCFullYear` and the like, of a number of minutes.
unfoldable pub moment_at : ℕ → Moment
unfolding find_year find_month
moment_at k = moment_in_year k (find_year (k / 1440) 0 (k / 1440))
