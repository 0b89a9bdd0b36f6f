-- ===== src/Retry.antt =====
-- packages/shared/src/retry/retry-engine.ts: which retry policies are accepted, and how long the
-- engine waits. `Retry.Policy` has the theorems on validation, `Retry.Delay` those on the delays.
pub mod Policy
pub mod Delay
use Prim.Native.String.{String}
use task_orchestrator_engine.Prelude.{
  ℕ, ◌+◌, ◌-◌, ◌*◌, ◌^◌, min, Bool, true, false, not, ◌||◌, ◌&&◌, Option, none, some, List, [], ◌∷◌,
  ◌++◌, ltb, leb, ◌==◌, if◌then◌else◌,
}
use task_orchestrator_engine.Types.{Strategy, fixed, exponential, linear, RetryPolicy}

abbrev pub max_delay_ms : ℕ
max_delay_ms = 300000

abbrev pub min_base_delay : ℕ
min_base_delay = 100

abbrev pub max_base_delay : ℕ
max_base_delay = 300000

abbrev pub min_max_attempts : ℕ
min_max_attempts = 1

abbrev pub max_max_attempts : ℕ
max_max_attempts = 10

-- A value of the request's JSON where the type says `number`. `finite n f` lies in [n, n + 1), and
-- is n exactly if `f` is false; `below_zero` is any finite negative number.
pub data Value : Type 0 where
  not_number nan infinity minus_infinity below_zero : Value
  finite : (floor : ℕ) (fraction : Bool) → Value

-- A policy as it arrives: `strategy` is `none` where the value is not one of the three names.
pub record RawPolicy : Type 0 where
  pub strategy : Option Strategy
  pub max_attempts : Value
  pub base_delay : Value

pub data Field : Type 0 where
  strategy_field max_attempts_field base_delay_field : Field

-- The test of `maxAttempts`: a number, an integer, not below the least, not above the greatest.
unfoldable pub bad_max_attempts : Value → Bool
bad_max_attempts (finite n fraction) =
    fraction || (ltb n min_max_attempts || ltb max_max_attempts n)
bad_max_attempts _ = true

-- The test of `baseDelay`. A number with a fraction is above the greatest if its floor is it.
unfoldable pub bad_base_delay : Value → Bool
bad_base_delay (finite n fraction) =
    ltb n min_base_delay || (ltb max_base_delay n || (n == max_base_delay && fraction))
bad_base_delay _ = true

unfoldable pub bad_strategy : Option Strategy → Bool
bad_strategy none = true
bad_strategy (some _) = false

abbrev report : Bool → Field → List Field
report bad field = if bad then field ∷ [] else []

-- `validateRetryPolicy`; an error is named by its field, the message and the value follow from it.
unfoldable pub validate_retry_policy : RawPolicy → List Field
unfolding bad_strategy bad_max_attempts bad_base_delay
validate_retry_policy policy =
    report (bad_strategy policy.strategy) strategy_field
    ++ (report (bad_max_attempts policy.max_attempts) max_attempts_field
        ++ report (bad_base_delay policy.base_delay) base_delay_field)

delay_by : Strategy → ℕ → ℕ → ℕ
delay_by fixed base attempt = base
delay_by exponential base attempt = min (base * 2 ^ (attempt - 1)) max_delay_ms
delay_by linear base attempt = min (base * attempt) max_delay_ms

-- `calculateRetryDelay`, for the attempts that its comment admits: they count from 1.
unfoldable pub calculate_retry_delay : RetryPolicy → ℕ → ℕ
unfolding delay_by
calculate_retry_delay policy attempt = delay_by policy.strategy policy.base_delay attempt

unfoldable pub should_retry : RetryPolicy → ℕ → Bool
should_retry policy current_attempt = ltb current_attempt policy.max_attempts
