-- ===== src/Retry/Delay.antt =====
-- The delays of `calculateRetryDelay`, and the attempts that `shouldRetry` grants.
use native.Mathlib.Nat.{pow-suc}
use task_orchestrator_engine.Prelude.{ℕ, zero, suc, ◌-◌, ◌*◌, ◌^◌, ◌≤◌, arith}
use task_orchestrator_engine.Types.{Strategy, fixed, exponential, linear, RetryPolicy}
use task_orchestrator_engine.Retry.{calculate_retry_delay, max_delay_ms, delay_by}

pow_pos : (n : ℕ) → 1 ≤ 2 ^ n
pow_pos zero = omega arith
pow_pos (suc n) = rw pow-suc (omega (arith, pow_pos n))

mul-le : (base k : ℕ) → 1 ≤ k → base ≤ base * k
mul-le base k h = grind arith

-- A policy that validation lets through waits at least its base delay and at most five minutes.
pub delay_bounds :
    (policy : RetryPolicy) (attempt : ℕ)
    → policy.base_delay ≤ max_delay_ms
    → 1 ≤ attempt
    → (policy.base_delay ≤ calculate_retry_delay policy attempt)
      × (calculate_retry_delay policy attempt ≤ max_delay_ms)
unfolding calculate_retry_delay
delay_bounds policy attempt cap first = go policy.strategy
  where
    open policy use {base_delay}

    go :
        (s : Strategy)
        → (base_delay ≤ delay_by s base_delay attempt)
          × (delay_by s base_delay attempt ≤ max_delay_ms)
    go fixed = omega arith
    go exponential = omega (arith, mul-le base_delay (2 ^ (attempt - 1)) (pow_pos (attempt - 1)))
    go linear = omega (arith, mul-le base_delay attempt first)
