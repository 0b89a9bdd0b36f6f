-- ===== src/StateMachine.antt =====
-- packages/shared/src/state-machine/state-machine.ts: the life cycle of a task.
-- `new Date()` is the argument `now`; the two message texts are the two reasons of a refusal.
pub mod Transitions
use task_orchestrator_engine.Prelude.{Bool, true, false, if◌then◌else◌}
use task_orchestrator_engine.Types.{
  Ident, Instant, TaskStatus, TaskStatus.pending, TaskStatus.running, TaskStatus.completed,
  TaskStatus.failed, TaskStatus.cancelled, TaskStatus.timed_out, TaskStatus.skipped,
}

pub record TransitionAuditEntry : Type 0 where
  pub task_id : Ident
  pub previous_state : TaskStatus
  pub new_state : TaskStatus
  pub timestamp : Instant

pub data Reason : Type 0 where
  already_terminal invalid_transition : Reason

pub record TransitionError : Type 0 where
  pub message : Reason
  pub current_state : TaskStatus
  pub attempted_state : TaskStatus
  pub task_id : Ident

pub data TransitionResult : Type 0 where
  success : TransitionAuditEntry → TransitionResult
  failure : TransitionError → TransitionResult

-- `TERMINAL_STATES.has(state)`
unfoldable pub is_terminal_state : TaskStatus → Bool
is_terminal_state completed = true
is_terminal_state failed = true
is_terminal_state cancelled = true
is_terminal_state timed_out = true
is_terminal_state _ = false

-- `VALID_TRANSITIONS.get(current)?.has(target)`
unfoldable pub valid_transition : TaskStatus → TaskStatus → Bool
valid_transition pending running = true
valid_transition pending cancelled = true
valid_transition running completed = true
valid_transition running failed = true
valid_transition running cancelled = true
valid_transition running timed_out = true
valid_transition _ _ = false

unfoldable pub transition : TaskStatus → TaskStatus → Ident → Instant → TransitionResult
unfolding is_terminal_state valid_transition
transition current target task now =
    if is_terminal_state current
    then failure (record {
      message = already_terminal;
      current_state = current;
      attempted_state = target;
      task_id = task;
    })
    else if valid_transition current target
    then success
        (record { task_id = task; previous_state = current; new_state = target; timestamp = now })
    else failure (record {
      message = invalid_transition;
      current_state = current;
      attempted_state = target;
      task_id = task;
    })

abbrev pub succeeded : TransitionResult → Bool
succeeded (success _) = true
succeeded (failure _) = false
