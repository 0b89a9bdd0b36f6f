-- ===== src/Retry/Policy.antt =====
-- `validateRetryPolicy` accepts exactly the policies of its comment.
use task_orchestrator_engine.Prelude.{
  ℕ, ◌≤◌, ◌<◌, ◌≡◌, refl, ◌↔◌, ◌⊎◌, Bool, false, Option, none, some, [], arith,
}
use task_orchestrator_engine.Types.{Strategy}
use task_orchestrator_engine.Retry.{
  Value, finite, RawPolicy, bad_strategy, bad_max_attempts, bad_base_delay, validate_retry_policy,
}

-- What the comment on `validateRetryPolicy` asks of a policy.
pub record IsAllowed (raw : RawPolicy) : Type 0 where
  pub strategy : Strategy
  pub attempts : ℕ
  pub delay : ℕ
  pub fraction : Bool
  pub strategy_known : raw.strategy ≡ some strategy
  pub attempts_whole : raw.max_attempts ≡ finite attempts false
  pub attempts_least : 1 ≤ attempts
  pub attempts_most : attempts ≤ 10
  pub delay_finite : raw.base_delay ≡ finite delay fraction
  pub delay_least : 100 ≤ delay
  pub delay_most : (delay < 300000) ⊎ ((delay ≡ 300000) × (fraction ≡ false))

good_strategy : (o : Option Strategy) → bad_strategy o ≡ false → (s : Strategy) × (o ≡ some s)
unfolding bad_strategy
good_strategy none h = cc
good_strategy (some s) h = (s, refl)

good_max_attempts :
    (v : Value) → bad_max_attempts v ≡ false → (n : ℕ) × (v ≡ finite n false) × (1 ≤ n) × (n ≤ 10)
unfolding bad_max_attempts
good_max_attempts (finite n fraction) h = (n, ground arith, ground arith, ground arith)
good_max_attempts _ h = cc

good_base_delay :
    (v : Value)
    → bad_base_delay v ≡ false
    → (n : ℕ) × (fraction : Bool) × (v ≡ finite n fraction)
      × (100 ≤ n)
      × ((n < 300000) ⊎ ((n ≡ 300000) × (fraction ≡ false)))
unfolding bad_base_delay
good_base_delay (finite n fraction) h = (n, fraction, refl, ground arith, ground arith)
good_base_delay _ h = cc

all_good :
    (raw : RawPolicy)
    → validate_retry_policy raw ≡ []
    → (bad_strategy raw.strategy ≡ false)
      × (bad_max_attempts raw.max_attempts ≡ false)
      × (bad_base_delay raw.base_delay ≡ false)
unfolding validate_retry_policy
all_good raw h = ground arith

none_bad : (raw : RawPolicy) → IsAllowed raw → validate_retry_policy raw ≡ []
unfolding validate_retry_policy
none_bad raw a = ground arith

-- The list of errors is empty exactly for a policy with a known strategy, a whole number of
-- attempts from 1 to 10 and a finite base delay from 100 to 300000, be it whole or not.
pub validate-IsAllowed : (raw : RawPolicy) → (validate_retry_policy raw ≡ []) ↔ IsAllowed raw
validate-IsAllowed raw = (
  λ h.
      let (s, m, d) = all_good raw h in
      let (strategy, known) = good_strategy raw.strategy s in
      let (n, whole, least, most) = good_max_attempts raw.max_attempts m in
      let (delay, fraction, exact, low, high) = good_base_delay raw.base_delay d in
      record {
        strategy = strategy;
        attempts = n;
        delay = delay;
        fraction = fraction;
        strategy_known = known;
        attempts_whole = whole;
        attempts_least = least;
        attempts_most = most;
        delay_finite = exact;
        delay_least = low;
        delay_most = high;
      },
  none_bad raw,
)
