-- ===== src/Executor/RetryHandler.antt =====
-- retry-handler.ts. The clock's readings and the timer's callbacks during the wait are arguments.
pub mod Tables
pub mod Outcome
use Prim.Native.String.{String}
use Prim.Native.String
use task_orchestrator_engine.Prelude.{
  ℕ, zero, suc, ◌+◌, Bool, true, false, Option, none, some, List, [], ◌∷◌, ◌++◌, ltb, if◌then◌else◌,
}
use task_orchestrator_engine.Types.{
  Ident, Instant, RetryPolicy, TaskDefinition, TaskState, TaskStatus, TaskStatus.pending,
  TaskStatus.running, TaskStatus.failed,
}
use task_orchestrator_engine.StateMachine.{transition, succeeded}
use task_orchestrator_engine.Retry.{calculate_retry_delay, should_retry}
use task_orchestrator_engine.Redis.Server.{Server}
use task_orchestrator_engine.Redis.TaskQueue.{enqueue}
use task_orchestrator_engine.Redis.LockManager.{renew, default_ttl_ms}
use task_orchestrator_engine.Executor.World.{
  ClaimedTask, TaskClaimer, DeadLetter, World, update_rows, or_else,
}
use task_orchestrator_engine.Executor.Claimer.{
  release_current_task, clear_current_task, renewal_tick, is_current_task_aborted,
}

-- One turn of the waiting loop: the time since its start before and after the sleep, and how often
-- the renewal timer fired in between.
pub record Turn : Type 0 where
  pub elapsed_before : ℕ
  pub elapsed_after : ℕ
  pub renewals : ℕ

-- `error || 'Unknown error'`
abbrev pub error_text : Option String → String
error_text none = "Unknown error"
error_text (some String.[]) = "Unknown error"
error_text (some (String.◌∷◌ c s)) = String.◌∷◌ c s

-- `updateTaskState`: the error is written only if there is one.
abbrev pub failed_row : Instant → Option String → TaskState → TaskState
failed_row now error row = record row {
  status = failed;
  completed_at = some now;
  error = or_else error row.error;
}

abbrev pub count_row : ℕ → TaskState → TaskState
count_row attempts row = record row { attempt_count = attempts }

-- `SET status = 'pending', error = $2`; a missing error is written as NULL.
abbrev pub pending_row : Option String → TaskState → TaskState
pending_row error row = record row { status = pending; error = error }

-- `VALUES ($1, $2, $3, $4)`
abbrev pub dead_letter : TaskState → Option String → ℕ → DeadLetter
dead_letter state error attempts = record {
  task_state_id = state.id;
  execution_id = state.execution_id;
  error = error_text error;
  attempts = attempts;
}

module _ (redis : Server) (executor_id : Ident) (lock_ttl_ms : ℕ) where
  unfoldable pub update_table : (TaskState → TaskState) → Ident → World redis → World redis
  update_table change id w = record w { task_states = update_rows change id w.task_states }

  unfoldable pub transition_to_failed :
      TaskState → Option String → Instant → World redis → World redis
  unfolding update_table transition
  transition_to_failed state error now w =
      if succeeded (transition running failed state.id now)
      then update_table (failed_row now error) state.id w
      else w

  unfoldable pub insert_into_dlq : TaskState → Option String → ℕ → World redis → World redis
  insert_into_dlq state error attempts w = record w {
    dead_letters = w.dead_letters ++ dead_letter state error attempts ∷ [];
  }

  unfoldable pub fire : ℕ → World redis → World redis
  fire zero w = w
  fire (suc n) w = fire n (renewal_tick redis executor_id lock_ttl_ms w)

  abbrev put_store : redis.Store → World redis → World redis
  put_store s w = record w { store = s }

  -- The loop of `waitWithLockRenewal`; it is over when the readings are.
  unfoldable pub wait_with_lock_renewal : Ident → ℕ → List Turn → World redis → World redis
  unfolding fire
  wait_with_lock_renewal id delay_ms [] w = w
  wait_with_lock_renewal id delay_ms (t ∷ ts) w =
      let slept = fire t.renewals w in
      let (held, s) = renew redis id executor_id default_ttl_ms slept.store in
      let again = wait_with_lock_renewal id delay_ms ts (put_store s slept) in
      let go_on = wait_with_lock_renewal id delay_ms ts slept in
      if ltb t.elapsed_before delay_ms
      then if is_current_task_aborted w
        then w
        else if ltb t.elapsed_after delay_ms
        then if held then again else put_store s slept
        else go_on
      else w

  abbrev release_task : World redis → World redis
  release_task = release_current_task redis executor_id lock_ttl_ms

  -- Behind the wait: an aborted task is dropped, any other goes back to the queue.
  unfoldable pub after_wait : TaskState → Option String → World redis → World redis
  unfolding update_table
  after_wait state error w =
      if is_current_task_aborted w
      then clear_current_task redis executor_id lock_ttl_ms w
      else let w' = release_task (update_table (pending_row error) state.id w) in
        put_store (enqueue redis state.id w'.store) w'

  unfoldable pub give_up : TaskState → Option String → Instant → World redis → World redis
  unfolding transition_to_failed
  give_up state error now w = release_task (transition_to_failed state error now w)

  unfoldable pub retry_or_fail :
      RetryPolicy → TaskState → Option String → Instant → List Turn → World redis → World redis
  unfolding update_table wait_with_lock_renewal after_wait give_up insert_into_dlq
  retry_or_fail policy state error now turns w =
      let attempt = state.attempt_count + 1 in
      let w' = update_table (count_row attempt) state.id w in
      if should_retry policy attempt
      then after_wait state error
          (wait_with_lock_renewal state.id (calculate_retry_delay policy attempt) turns w')
      else give_up state error now (insert_into_dlq state error attempt w')

  unfoldable pub handle_by :
      Option RetryPolicy
      → TaskState
      → Option String
      → Instant
      → List Turn
      → World redis
      → World redis
  unfolding retry_or_fail
  handle_by none state error now turns w = give_up state error now w
  handle_by (some policy) state error now turns w = retry_or_fail policy state error now turns w

  unfoldable pub handle_failure :
      TaskState → TaskDefinition → Option String → Instant → List Turn → World redis → World redis
  unfolding handle_by
  handle_failure state definition error now turns w =
      handle_by definition.retry_policy state error now turns w
