-- ===== src/Examples/Rules.antt =====
-- Inputs of the state machine and of the retry policy.
use task_orchestrator_engine.Prelude.{◌≤◌, ◌≡◌, ◌↔◌, refl, true, false, some, [], ◌∷◌, arith}
use task_orchestrator_engine.Types.{
  RetryPolicy, Strategy, TaskStatus.pending, TaskStatus.running, TaskStatus.completed,
  TaskStatus.skipped,
}
use task_orchestrator_engine.StateMachine.{
  transition, is_terminal_state, already_terminal, invalid_transition,
}
use task_orchestrator_engine.StateMachine.Transitions.{
  audited, refused, ◌⟶◌, IsEnd, Accepted, Life, done, then, transition-decides, Accepted-Life,
}
use task_orchestrator_engine.Retry.{
  RawPolicy, Value.finite, max_delay_ms, validate_retry_policy, calculate_retry_delay,
}
use task_orchestrator_engine.Retry.Policy.{IsAllowed, validate-IsAllowed}
use task_orchestrator_engine.Retry.Delay.{delay_bounds}

transition-decides_example :
    ((transition pending running 7 1000 ≡ audited pending running 7 1000) ↔ (pending ⟶ running))
    × ((transition pending running 7 1000 ≡ refused pending running 7 1000 already_terminal)
        ↔ IsEnd pending)
    × ((transition pending running 7 1000 ≡ refused pending running 7 1000 invalid_transition)
        ↔ ((¬ (pending ⟶ running)) × (¬ IsEnd pending)))
transition-decides_example = transition-decides pending running 7 1000

-- A skipped task is not in an end state, and nothing may follow.
skipped_stays : is_terminal_state skipped ≡ false
unfolding is_terminal_state
skipped_stays = refl

two_steps : Accepted 7 pending (running ∷ completed ∷ [])
unfolding transition
two_steps = then 1000 refl (then 2000 refl done)

Accepted-Life_example :
    Accepted 7 pending (running ∷ completed ∷ []) ↔ Life (running ∷ completed ∷ [])
Accepted-Life_example = Accepted-Life 7 (running ∷ completed ∷ [])

abbrev raw : RawPolicy
raw = record {
  strategy = some Strategy.exponential;
  max_attempts = finite 3 false;
  base_delay = finite 1000 true;
}

validate-IsAllowed_example : (validate_retry_policy raw ≡ []) ↔ IsAllowed raw
validate-IsAllowed_example = validate-IsAllowed raw

abbrev policy : RetryPolicy
policy = record { strategy = Strategy.exponential; max_attempts = 3; base_delay = 1000 }

fourth_delay : calculate_retry_delay policy 4 ≡ 8000
unfolding calculate_retry_delay
fourth_delay = refl

delay_bounds_example :
    (policy.base_delay ≤ calculate_retry_delay policy 4)
    × (calculate_retry_delay policy 4 ≤ max_delay_ms)
delay_bounds_example = delay_bounds policy 4 (omega arith) (omega arith)
