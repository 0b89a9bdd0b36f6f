-- ===== src/Scheduler/Completion.antt =====
-- execution-manager.ts: `checkExecutionCompletion`, on the rows of the tables `task_states` and
-- `executions`. The subscriptions to the event bus are not kept.
pub mod Final
use task_orchestrator_engine.Prelude.{
  ℕ, Bool, true, false, Option, none, some, List, [], ◌∷◌, keep, map, ◌&&◌, ◌==◌, if◌then◌else◌,
}
use task_orchestrator_engine.Types.{
  Ident, Instant, Execution, ExecutionStatus, ExecutionStatus.pending, ExecutionStatus.running,
  ExecutionStatus.completed, ExecutionStatus.failed, ExecutionStatus.cancelled, TaskState,
  TaskStatus,
}
use task_orchestrator_engine.Types
use task_orchestrator_engine.StateMachine.{is_terminal_state}

abbrev pub is_failed : TaskStatus → Bool
is_failed TaskStatus.failed = true
is_failed _ = false

-- `SELECT status FROM task_states WHERE execution_id = $1`.
unfoldable pub statuses_of : Ident → List TaskState → List TaskStatus
statuses_of id [] = []
statuses_of id (t ∷ ts) =
    let rest = statuses_of id ts in if t.execution_id == id then t.status ∷ rest else rest

unfoldable pub all_terminal : List TaskStatus → Bool
unfolding is_terminal_state
all_terminal [] = true
all_terminal (s ∷ ss) = is_terminal_state s && all_terminal ss

unfoldable pub final_status : List TaskStatus → ExecutionStatus
final_status [] = completed
final_status (s ∷ ss) = if is_failed s then failed else final_status ss

abbrev pub in_progress : ExecutionStatus → Bool
in_progress running = true
in_progress _ = false

-- `UPDATE executions … WHERE id = $2 AND status = 'running'`.
unfoldable pub finish_execution :
    ExecutionStatus → Instant → Ident → List Execution → List Execution
finish_execution status now id [] = []
finish_execution status now id (e ∷ es) =
    (if e.id == id && in_progress e.status
      then record e { status = status; completed_at = some now }
      else e)
    ∷ finish_execution status now id es

unfoldable pub complete_by : List TaskStatus → Instant → Ident → List Execution → List Execution
unfolding all_terminal final_status finish_execution
complete_by [] now id executions = executions
complete_by (s ∷ ss) now id executions =
    if all_terminal (s ∷ ss)
    then finish_execution (final_status (s ∷ ss)) now id executions
    else executions

unfoldable pub check_execution_completion :
    Instant → Ident → List TaskState → List Execution → List Execution
unfolding statuses_of complete_by
check_execution_completion now id tasks executions =
    complete_by (statuses_of id tasks) now id executions
