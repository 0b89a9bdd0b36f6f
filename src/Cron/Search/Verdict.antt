-- ===== src/Cron/Search/Verdict.antt =====
-- What the loop of `getNextRunTime` returns, in any time zone.
use task_orchestrator_engine.Prelude.{
  ℕ, zero, suc, ◌+◌, ◌*◌, ◌≤◌, ◌<◌, ◌≡◌, inl, inr, refl, ap, Bool, true, false, ltb, arith,
}
use task_orchestrator_engine.Cron.Field.{CronFields}
use task_orchestrator_engine.Cron.Field.Outcome.{ValidFields}
use task_orchestrator_engine.Cron.Calendar.{Moment}
use task_orchestrator_engine.Cron.Calendar.Order.{NotAfter, Before, NotAfter-cases}
use task_orchestrator_engine.Cron.Search.{
  Round, again, candidate, round, next_minute, Zone, build_timestamp, Outcome, run_at, no_run,
  out_of_fuel, search,
}
use task_orchestrator_engine.Cron.Search.Stages.{round-Advance}
use task_orchestrator_engine.Cron.Search.Order.{code, IsInRange}
use task_orchestrator_engine.Cron.Search.Rounds.{IsRun, Advance, IsRun-IsInRange}

-- A time after the reference that a named moment from `start` on stands for, such that no earlier named
-- moment from `start` on stands for one; or no named moment from `start` to the end of the last year
-- stands for one.
abbrev pub IsFirstRun : CronFields → Zone → ℕ → ℕ → Moment → Outcome → Type 0
IsFirstRun f zone reference max_year start (run_at ms) =
    (u : Moment) × IsRun f u
    × IsInRange u
    × (code start ≤ code u)
    × (ms ≡ build_timestamp zone u)
    × (reference < ms)
    × ((w : Moment)
        → IsRun f w
        → reference < build_timestamp zone w
        → NotAfter start w
        → NotAfter u w)
IsFirstRun f zone reference max_year start no_run =
    (w : Moment)
    → IsRun f w
    → reference < build_timestamp zone w
    → NotAfter start w
    → max_year < w.year
IsFirstRun f zone reference max_year start out_of_fuel = ⊥

module _ (f : CronFields) (zone : Zone) (reference max_year : ℕ) where
  abbrev Passes : Moment → Moment → Type 0
  Passes t u =
      (w : Moment) → IsRun f w → reference < build_timestamp zone w → NotAfter t w → NotAfter u w

  earlier :
      (t u : Moment) (o : Outcome)
      → Passes t u
      → code t ≤ code u
      → IsFirstRun f zone reference max_year u o
      → IsFirstRun f zone reference max_year t o
  earlier t u (run_at ms) p c h =
      (h.0, h.1, h.2, omega (arith, c, h.3), h.4, h.5, λ w r l n. h.6 w r l (p w r l n))
  earlier t u no_run p c h = λ w r l n. h w r l (p w r l n)
  earlier t u out_of_fuel p c h = elim h [ ]

  next_minute-NotAfter : (u w : Moment) → w.minute ≤ 59 → Before u w → NotAfter (next_minute u) w
  next_minute-NotAfter u w h b = ground arith

  next_minute-Passes :
      (u : Moment) → ValidFields f → build_timestamp zone u ≤ reference → Passes u (next_minute u)
  next_minute-Passes u v h w r l n = elim (NotAfter-cases u w n) [
    | inl e ↦ let same = ap (build_timestamp zone) e in ground arith
    | inr b ↦ next_minute-NotAfter u w (IsRun-IsInRange f v w r).0.5 b
  ]

  next_minute-later :
      (u : Moment)
      → IsInRange u
      → u.hour ≤ 23
      → IsInRange (next_minute u) × (code u < code (next_minute u))
  unfolding code
  next_minute-later u b h = ground arith

  -- The search from `u` on, with the fuel that is left, is as it should be.
  abbrev Continues : ℕ → Moment → Type 0
  Continues fuel t =
      (u : Moment)
      → IsInRange u
      → code t < code u
      → IsFirstRun f zone reference max_year u (search f zone reference max_year fuel u)

  module _ (valid : ValidFields f) where
    proposed :
        (fuel : ℕ) (t u : Moment) (b : Bool)
        → Continues fuel t
        → Advance f t (candidate u)
        → ltb reference (build_timestamp zone u) ≡ b
        → IsFirstRun f zone reference max_year t (elim b [
          | true ↦ run_at (build_timestamp zone u)
          | false ↦ search f zone reference max_year fuel (next_minute u)
        ])
    proposed fuel t u true c a h = (u, a.0, a.1, a.2, refl, ground arith, λ w r l n. a.3 w r n)
    proposed fuel t u false c a h =
        let later = next_minute-later u a.1 (IsRun-IsInRange f valid u a.0).1 in
        earlier t (next_minute u) (search f zone reference max_year fuel (next_minute u))
          (λ w r l n. next_minute-Passes u valid (ground arith) w r l (a.3 w r n))
          (omega (arith, a.2, later.1)) (c (next_minute u) later.0 (omega (arith, a.2, later.1)))

    rounded :
        (fuel : ℕ) (t : Moment) (r : Round)
        → Continues fuel t
        → Advance f t r
        → IsFirstRun f zone reference max_year t (elim r [
          | again u ↦ search f zone reference max_year fuel u
          | candidate u ↦ elim (ltb reference (build_timestamp zone u)) [
            | true ↦ run_at (build_timestamp zone u)
            | false ↦ search f zone reference max_year fuel (next_minute u)
          ]
        ])
    rounded fuel t (again u) c a =
        earlier t u (search f zone reference max_year fuel u) (λ w r l n. a.2 w r n)
          (omega (arith, a.1)) (c u a.0 a.1)
    rounded fuel t (candidate u) c a =
        proposed fuel t u (ltb reference (build_timestamp zone u)) c a refl

    code_below : (t : Moment) → IsInRange t → t.year ≤ max_year → code t < suc max_year * 634400
    unfolding code
    code_below t b h = omega arith

    bounded :
        (t : Moment) (b : Bool) (o : Outcome)
        → ltb max_year t.year ≡ b
        → (b ≡ false → IsFirstRun f zone reference max_year t o)
        → IsFirstRun f zone reference max_year t (elim b [ true ↦ no_run | false ↦ o ])
    bounded t true o h p = λ w r k n. ground arith
    bounded t false o h p = p refl

    -- The loop from a moment `t` in range, on enough fuel, returns the timestamp of the first moment
    -- from `t` on that the fields name and whose timestamp is after the reference, or it finds no run
    -- and every such moment lies in a year after the last: it never runs out of fuel, whatever the
    -- time zone.
    pub search-IsFirstRun :
        (fuel : ℕ) (t : Moment)
        → IsInRange t
        → 0 < fuel
        → suc max_year * 634400 < code t + fuel
        → IsFirstRun f zone reference max_year t (search f zone reference max_year fuel t)
    unfolding search
    search-IsFirstRun zero t b p h = omega arith
    search-IsFirstRun (suc fuel) t b p h = bounded t (ltb max_year t.year) _ refl (λ l.
        rounded fuel t (round f t)
          (λ u c m. search-IsFirstRun fuel u c (ground (arith, code_below t b)) (omega arith))
          (round-Advance f valid t b))
