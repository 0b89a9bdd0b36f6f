-- ===== src/Cron/Search/Later.antt =====
-- The last check of `getNextRunTime` of packages/shared/src/scheduling/cron-evaluator.ts.
use task_orchestrator_engine.Prelude.{
  ℕ, zero, suc, ◌+◌, ◌<◌, inl, inr, true, false, ltb, ltb→lt, Bool-cases,
}
use task_orchestrator_engine.Cron.Field.{CronFields}
use task_orchestrator_engine.Cron.Calendar.{Moment}
use task_orchestrator_engine.Cron.Search.{
  Round, again, candidate, round, next_minute, Zone, build_timestamp, get_date_parts, start_ms,
  search_fuel, Outcome, run_at, no_run, out_of_fuel, search, next_run,
}

-- A run that is found lies after the reference.
pub data IsLater (reference : ℕ) : Outcome → Type 0 where
  later : {ms : ℕ} → reference < ms → IsLater reference (run_at ms)
  missing : IsLater reference no_run
  spent : IsLater reference out_of_fuel

module _ (f : CronFields) (zone : Zone) (reference max_year : ℕ) where
  checked :
      (ms fuel : ℕ) (u : Moment)
      → IsLater reference (search f zone reference max_year fuel u)
      → IsLater reference (elim (ltb reference ms) [
        | true ↦ run_at ms
        | false ↦ search f zone reference max_year fuel u
      ])
  checked ms fuel u h = elim (Bool-cases (ltb reference ms)) [
    | inl l ↦ rw l (later (ltb→lt reference ms l))
    | inr n ↦ rw n h
  ]

  found-IsLater :
      (fuel : ℕ)
      → ((u : Moment) → IsLater reference (search f zone reference max_year fuel u))
      → (r : Round)
      → IsLater reference (elim r [
        | again u ↦ search f zone reference max_year fuel u
        | candidate u ↦ elim (ltb reference (build_timestamp zone u)) [
          | true ↦ run_at (build_timestamp zone u)
          | false ↦ search f zone reference max_year fuel (next_minute u)
        ]
      ])
  found-IsLater fuel h (again u) = h u
  found-IsLater fuel h (candidate u) =
      checked (build_timestamp zone u) fuel (next_minute u) (h (next_minute u))

  search-IsLater :
      (fuel : ℕ) (t : Moment) → IsLater reference (search f zone reference max_year fuel t)
  unfolding search
  search-IsLater zero t = spent
  search-IsLater (suc fuel) t = elim (Bool-cases (ltb max_year t.year)) [
    | inl h ↦ rw (h, search) missing
    | inr h ↦ rw (h, search) (found-IsLater fuel (λ u. search-IsLater fuel u) (round f t))
  ]

pub next_run-IsLater :
    (f : CronFields) (zone : Zone) (reference : ℕ) → IsLater reference (next_run f zone reference)
unfolding next_run
next_run-IsLater f zone reference =
    search-IsLater f zone reference ((get_date_parts zone (start_ms reference)).year + 4)
      search_fuel _
