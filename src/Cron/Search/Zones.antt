-- ===== src/Cron/Search/Zones.antt =====
-- `getDatePartsInTimezone` and `buildTimestampInTimezone`: in UTC they undo each other; in a zone at a
-- fixed distance behind UTC the second is right inside a month and wrong at its first hours.
use task_orchestrator_engine.Prelude.{
  ℕ, suc, ◌+◌, ◌-◌, ◌*◌, ◌/◌, ◌%◌, ◌≤◌, ◌<◌, ◌≡◌, ◌≢◌, inl, inr, refl, ap, sym, ◌∙◌, true, arith,
  Bool-cases, List, [], ◌∷◌,
}
use task_orchestrator_engine.Cron.Calendar.{
  Moment, day_number, days_to_year, days_to_month, minute_number, moment_at, days_in_month,
}
use task_orchestrator_engine.Cron.Calendar.Numbering.{
  IsMoment, month_step, month_cons, month_length,
}
use task_orchestrator_engine.Cron.Calendar.Order.{
  NotAfter-or_Before, NotAfter-cases, Before-minute_number, moment_at-IsMinute, IsMinute,
}
use task_orchestrator_engine.Cron.Search.{
  Zone, utc, local, build_timestamp, get_date_parts, same_moment, local_minutes, candidates,
  first_verified,
}

moment_at-minute_number : (t : Moment) → IsMoment t → moment_at (minute_number t) ≡ t
moment_at-minute_number t h =
    compare_moments (moment_at (minute_number t)) (moment_at-IsMinute (minute_number t))
  where
    compare_moments : (u : Moment) → IsMinute (minute_number t) u → u ≡ t
    compare_moments u (m, e) = elim (NotAfter-or_Before u t) [
      | inl n ↦ elim (NotAfter-cases u t n) [
        | inl p ↦ p
        | inr b ↦ elim (not_less (Before-minute_number u t m h b) e) [ ]
      ]
      | inr b ↦ elim (not_less (Before-minute_number t u h m b) (sym e)) [ ]
    ]
      where
        not_less : {a b : ℕ} → a < b → a ≡ b → ⊥
        not_less l s = omega arith

-- In UTC the parts of a time are a moment of the calendar, its timestamp is the time rounded down to
-- the minute, and the parts of the timestamp of a moment of the calendar are the moment.
pub get_date_parts-build_timestamp :
    (ms : ℕ) (t : Moment)
    → IsMoment t
    → IsMoment (get_date_parts utc ms)
      × (build_timestamp utc (get_date_parts utc ms) ≡ ms - ms % 60000)
      × (get_date_parts utc (build_timestamp utc t) ≡ t)
unfolding build_timestamp
get_date_parts-build_timestamp ms t h =
    let minute = moment_at-IsMinute (ms / 60000) in
    (minute.0, omega (arith, minute.1), ap moment_at minutes ∙ moment_at-minute_number t h)
  where
    minutes : minute_number t * 60000 / 60000 ≡ minute_number t
    minutes = omega arith

-- A zone that is `lag` minutes behind UTC.
abbrev pub behind : ℕ → Zone
behind lag = local (λ ms. moment_at (ms / 60000 - lag))

same_moment_refl : (t : Moment) → same_moment t t ≡ true
same_moment_refl t = ground arith

minute_number_lem :
    (u : Moment)
    → minute_number u
      ≡ ((days_to_year (u.year - 1970) + days_to_month u.year (u.month - 1) + (u.day - 1)) * 24
            + u.hour)
          * 60
        + u.minute
unfolding minute_number day_number days_to_year days_to_month
minute_number_lem u = refl

-- How far the parts of two moments are apart by the code's own measure.
module _ (t s : Moment) (lag : ℕ) (h : IsMoment t) (k : IsMoment s)
    (apart : minute_number t ≡ minute_number s + lag) (a : s.year ≡ t.year) where
  years_agree : days_to_year (s.year - 1970) ≡ days_to_year (t.year - 1970)
  years_agree = ap (λ (y : ℕ). days_to_year (y - 1970)) a

  months_agree : days_to_month s.year (s.month - 1) ≡ days_to_month t.year (s.month - 1)
  months_agree = ap (λ (y : ℕ). days_to_month y (s.month - 1)) a

  lag_inside : s.month ≡ t.month → local_minutes t ≡ local_minutes s + lag
  lag_inside b =
      let same = ap (λ (m : ℕ). days_to_month t.year (m - 1)) b in
      omega (arith, years_agree, months_agree, minute_number_lem t, minute_number_lem s)

  months_next :
      suc s.month ≡ t.month
      → days_to_month t.year (t.month - 1)
        ≡ days_to_month t.year (s.month - 1) + days_in_month t.year s.month
  months_next b =
      let first : suc (s.month - 1) ≡ s.month = omega arith in
      let second : t.month - 1 ≡ s.month = omega arith in
      ap (days_to_month t.year) (second ∙ sym first)
      ∙ month_step t.year (s.month - 1)
      ∙ ap (λ (m : ℕ). days_to_month t.year (s.month - 1) + days_in_month t.year m) first

  lag_across :
      suc s.month ≡ t.month
      → local_minutes t + 1440 * days_in_month t.year s.month ≡ local_minutes s + lag + 43800
  lag_across b =
      omega
        (arith, years_agree, months_agree, months_next b, minute_number_lem t, minute_number_lem s)

  late_enough : suc s.month ≡ t.month → 40320 ≤ minute_number t
  late_enough b = omega (arith, months_next b, minute_number_lem t, month_cons t.year s.month)

-- A property of the default and of every time to try holds of the one that is taken.
abbrev All {ℓ} : (ℕ → Type ℓ) → List ℕ → Type ℓ
All P [] = Unit
All P (x ∷ xs) = P x × All P xs

first_verified_lem {ℓ} :
    (P : ℕ → Type ℓ) (parts : ℕ → Moment) (t : Moment) (times : List ℕ) (default : ℕ)
    → P default
    → All P times
    → P (first_verified parts t times default)
first_verified_lem P parts t [] default p a = p
first_verified_lem P parts t (ms ∷ rest) default p a =
    elim (Bool-cases (same_moment (parts ms) t)) [
      | inl e ↦ rw e a.0
      | inr e ↦ rw e (first_verified_lem P parts t rest default p a.1)
    ]

module _ (t : Moment) (h : IsMoment t) (lag : ℕ) where
  -- What the clock of the zone shows at the UTC time with the wanted parts.
  abbrev pub shown : Moment
  shown = moment_at (minute_number t - lag)

  guessed : moment_at (minute_number t * 60000 / 60000 - lag) ≡ shown
  guessed =
      let minutes : minute_number t * 60000 / 60000 ≡ minute_number t = omega arith in
      ap (λ (k : ℕ). moment_at (k - lag)) minutes

  -- The time that is tried first.
  abbrev first_try : ℕ
  first_try =
      minute_number t * 60000
      + local_minutes t * 60000
      - local_minutes (moment_at (minute_number t * 60000 / 60000 - lag)) * 60000

  first_try_lem : first_try ≡ (minute_number t + local_minutes t - local_minutes shown) * 60000
  first_try_lem = let minutes = ap local_minutes guessed in omega arith

  reached : (c : ℕ) → c ≡ (minute_number t + lag) * 60000 → moment_at (c / 60000 - lag) ≡ t
  reached c e =
      let minutes : c / 60000 - lag ≡ minute_number t = omega arith in
      ap moment_at minutes ∙ moment_at-minute_number t h

  missed : (c : ℕ) → c / 60000 - lag ≢ minute_number t → moment_at (c / 60000 - lag) ≢ t
  missed c n e = n (sym (moment_at-IsMinute (c / 60000 - lag)).1 ∙ ap minute_number e)

  taken :
      (ms : ℕ)
      → moment_at (ms / 60000 - lag) ≡ t
      → first_verified (λ c. moment_at (c / 60000 - lag)) t (candidates ms) ms ≡ ms
  taken ms e = rw (ap (λ (u : Moment). same_moment u t) e ∙ same_moment_refl t) refl

  -- The minutes that are tried when the clock shows the month before, none of which is the right one.
  All-missed :
      (d ms : ℕ)
      → 28 ≤ d
      → d ≤ 31
      → lag ≤ 720
      → 40320 ≤ minute_number t
      → ms + d * 86400000 ≡ (minute_number t + lag + 43800) * 60000
      → All (λ c. moment_at (c / 60000 - lag) ≢ t) (candidates ms)
  All-missed d ms p q m n e = (
    missed ms (λ x. omega arith),
    (
      missed (ms + 3600000) (λ x. omega arith),
      (
        missed (ms - 3600000) (λ x. omega arith),
        (missed (ms + 7200000) (λ x. omega arith), (missed (ms - 7200000) (λ x. omega arith), _)),
      ),
    ),
  )

  -- In a zone at a fixed distance behind UTC, where the clock of the zone is in the same month at the
  -- UTC time with the wanted parts, the timestamp is the time at which the zone's clock shows them.
  pub build_timestamp-inside_month :
      lag ≤ minute_number t
      → shown.year ≡ t.year
      → shown.month ≡ t.month
      → (build_timestamp (behind lag) t ≡ (minute_number t + lag) * 60000)
        × (get_date_parts (behind lag) (build_timestamp (behind lag) t) ≡ t)
  unfolding build_timestamp
  build_timestamp-inside_month l a b = (built, reached (build_timestamp (behind lag) t) built)
    where
      built : build_timestamp (behind lag) t ≡ (minute_number t + lag) * 60000
      built =
          let s = moment_at-IsMinute (minute_number t - lag) in
          let distance = lag_inside t shown lag h s.0 (omega (arith, s.1)) a b in
          let first : first_try ≡ (minute_number t + lag) * 60000 =
            omega (arith, first_try_lem, distance) in
          taken first_try (reached first_try first) ∙ first

  -- In a zone at a fixed distance of at most twelve hours behind UTC, where the clock of the zone is
  -- still in the month before at the UTC time with the wanted parts, in the same year, the zone's
  -- clock does not show them at the timestamp.
  pub build_timestamp-across_months :
      lag ≤ minute_number t
      → lag ≤ 720
      → shown.year ≡ t.year
      → suc shown.month ≡ t.month
      → get_date_parts (behind lag) (build_timestamp (behind lag) t) ≢ t
  unfolding build_timestamp
  build_timestamp-across_months l m a b =
      let s = moment_at-IsMinute (minute_number t - lag) in
      let apart : minute_number t ≡ minute_number shown + lag = omega (arith, s.1) in
      let distance = lag_across t shown lag h s.0 apart a b in
      let missed_all =
        All-missed (days_in_month t.year shown.month) first_try (month_cons t.year shown.month)
          (month_length t.year shown.month) m (late_enough t shown lag h s.0 apart a b)
          (omega (arith, first_try_lem, distance)) in
      first_verified_lem (λ c. moment_at (c / 60000 - lag) ≢ t) (λ c. moment_at (c / 60000 - lag)) t
        (candidates first_try) first_try missed_all.0 missed_all
