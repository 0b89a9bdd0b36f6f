-- ===== src/Executor/Runner.antt =====
-- task-runner.ts: one run of a claimed task. `Run` holds what the environment decides: the clock's
-- readings, when the task settles, and how often the renewal timer fires.
pub mod Branches
pub mod Ending
use Prim.Native.String.{String}
use task_orchestrator_engine.Prelude.{
  ℕ, zero, suc, Bool, true, false, Option, none, some, List, ltb, if◌then◌else◌,
}
use task_orchestrator_engine.Types.{
  Ident, Instant, Json, TaskDefinition, TaskState, TaskStatus, TaskStatus.pending,
  TaskStatus.running, TaskStatus.completed, TaskStatus.failed, TaskStatus.timed_out,
}
use task_orchestrator_engine.StateMachine.{
  TransitionResult, TransitionResult.success, TransitionResult.failure, transition, succeeded,
}
use task_orchestrator_engine.Redis.Server.{Server}
use task_orchestrator_engine.Executor.World.{World, or_else}
use task_orchestrator_engine.Executor.Claimer.{
  release_current_task, clear_current_task, is_current_task_aborted,
}
use task_orchestrator_engine.Executor.RetryHandler.{Turn, update_table, fire, handle_failure}
use task_orchestrator_engine.Executor.Tasks.{Host, TaskResult, TaskResult.erred, execute_task}
use task_orchestrator_engine.Executor.Tasks

pub record Run : Type 0 where
  pub started : Instant
  pub ended : Instant
  -- How long the task takes; `none` if it never settles.
  pub duration : Option ℕ
  -- The timer's callbacks up to the first look at the abort flag, and during the task.
  pub renewals_before : ℕ
  pub renewals_during : ℕ
  pub turns : List Turn

abbrev pub default_timeout_ms : ℕ
default_timeout_ms = 300000

-- `taskDefinition.timeoutMs || DEFAULT_TIMEOUT_MS`
abbrev pub timeout_or_default : ℕ → ℕ
timeout_or_default zero = default_timeout_ms
timeout_or_default (suc n) = suc n

-- The instants that `updateTaskState` writes with a status.
abbrev pub starts : TaskStatus → Bool
starts running = true
starts _ = false

abbrev pub ends : TaskStatus → Bool
ends completed = true
ends failed = true
ends timed_out = true
ends _ = false

abbrev pub written_row : TaskStatus → Instant → Option Json → Option String → TaskState → TaskState
written_row status now output error row = record row {
  status = status;
  started_at = if starts status then some now else row.started_at;
  completed_at = if ends status then some now else row.completed_at;
  output = or_else output row.output;
  error = or_else error row.error;
}

-- What a task settles with: `run` turns what it throws into an error.
abbrev pub caught : Option String → TaskResult → TaskResult
caught none result = result
caught (some error) result = erred error

unfoldable pub attempt : Host → TaskDefinition → Instant → TaskResult
unfolding execute_task
attempt host definition now = caught (host.rejection definition) (execute_task host definition now)

-- `executeWithTimeout`: the timeout's timer is set first and wins a tie.
pub data Settled : Type 0 where
  settled : TaskResult → Settled
  timeout_error : Settled

unfoldable pub race : Option ℕ → ℕ → TaskResult → Settled
race none timeout_ms result = timeout_error
race (some duration) timeout_ms result =
    if ltb duration timeout_ms then settled result else timeout_error

unfoldable pub execute_with_timeout : Host → TaskDefinition → ℕ → Run → Settled
unfolding race attempt
execute_with_timeout host definition timeout_ms r =
    race r.duration timeout_ms (attempt host definition r.started)

module _ (redis : Server) (executor_id : Ident) (lock_ttl_ms : ℕ) (host : Host) where
  abbrev update_task_state :
      Ident → TaskStatus → Instant → Option Json → Option String → World redis → World redis
  update_task_state id status now output error w =
      update_table redis executor_id lock_ttl_ms (written_row status now output error) id w

  abbrev release_task : World redis → World redis
  release_task = release_current_task redis executor_id lock_ttl_ms

  unfoldable pub handle_timeout : TaskState → Instant → World redis → World redis
  unfolding transition update_table
  handle_timeout state now w = release_task (
      if succeeded (transition running timed_out state.id now)
      then update_task_state state.id timed_out now none (some "Task timed out") w
      else w)

  unfoldable pub handle_success : TaskState → Json → Instant → World redis → World redis
  unfolding transition update_table
  handle_success state output now w = release_task (
      if succeeded (transition running completed state.id now)
      then update_task_state state.id completed now (some output) none w
      else w)

  unfoldable pub finish : TaskState → TaskDefinition → Run → TaskResult → World redis → World redis
  unfolding handle_success
  finish state definition r (TaskResult.succeeded output) w =
      handle_success state (host.printed output) r.ended w
  finish state definition r (erred error) w =
      handle_failure redis executor_id lock_ttl_ms state definition (some error) r.ended r.turns w

  -- Behind the execution: a timeout is handled before the abort flag is looked at.
  unfoldable pub after_execution :
      TaskState → TaskDefinition → Run → Settled → World redis → World redis
  unfolding handle_timeout finish
  after_execution state definition r timeout_error w = handle_timeout state r.ended w
  after_execution state definition r (settled result) w =
      if is_current_task_aborted w
      then clear_current_task redis executor_id lock_ttl_ms w
      else finish state definition r result w

  unfoldable pub run_started : TaskState → TaskDefinition → Run → World redis → World redis
  unfolding update_table fire execute_with_timeout after_execution
  run_started state definition r w =
      let w' =
        fire redis executor_id lock_ttl_ms r.renewals_before
          (update_task_state state.id running r.started none none w) in
      if is_current_task_aborted w'
      then clear_current_task redis executor_id lock_ttl_ms w'
      else after_execution state definition r
          (execute_with_timeout host definition (timeout_or_default definition.timeout_ms) r)
          (fire redis executor_id lock_ttl_ms r.renewals_during w')

  unfoldable pub run_after_transition :
      TransitionResult → TaskState → TaskDefinition → Run → World redis → World redis
  unfolding run_started
  run_after_transition (failure _) state definition r w = release_task w
  run_after_transition (success _) state definition r w = run_started state definition r w

  unfoldable pub run : TaskState → TaskDefinition → Run → World redis → World redis
  unfolding run_after_transition transition
  run state definition r w =
      run_after_transition (transition state.status running state.id r.started) state definition r w
