-- ===== src/Scheduler/Executions.antt =====
-- services/scheduler-api/src/repositories/execution-repository.ts, `createBatch` of
-- task-state-repository.ts, and controllers/execution-controller.ts: the start and the cancellation of
-- an execution, over the tables and the task queue. A statement that the database refuses leaves the
-- handler by `next(error)`, as a failure, with what was done before it.
pub mod Started
pub mod Cancelled
pub mod Alive
use task_orchestrator_engine.Prelude.{
  ℕ, suc, ◌+◌, Bool, true, false, not, ◌&&◌, ◌||◌, Option, none, some, List, [], ◌∷◌, ◌++◌, map,
  keep, any_of, elem, ◌==◌, if◌then◌else◌,
}
use task_orchestrator_engine.Types.{
  Ident, Instant, Json, TaskDefinition, Edge, Workflow, Execution, ExecutionStatus, TaskState,
  TaskStatus,
}
use task_orchestrator_engine.Types
use task_orchestrator_engine.Redis.Server.{Server}
use task_orchestrator_engine.Redis.TaskQueue.{enqueue}
use task_orchestrator_engine.Scheduler.Tables.{Database}
use task_orchestrator_engine.Scheduler.Workflows
use task_orchestrator_engine.Scheduler.TaskStates.{find_by_execution_id, update_status}

abbrev pub new_execution : Ident → Option Json → Instant → ℕ → Execution
new_execution workflow input now id = record {
  id = id;
  workflow_id = workflow;
  status = ExecutionStatus.pending;
  input = input;
  started_at = none;
  completed_at = none;
  created_at = now;
}

-- `ExecutionRepository.create`
abbrev pub create_execution : Ident → Option Json → Instant → Database → Execution × Database
create_execution workflow input now db = (
  new_execution workflow input now db.next_id,
  record db {
    executions = db.executions ++ new_execution workflow input now db.next_id ∷ [];
    next_id = suc db.next_id;
  },
)

abbrev pub new_state : Ident → ℕ → TaskDefinition → TaskState
new_state execution id task = record {
  id = id;
  execution_id = execution;
  task_definition_id = task.id;
  status = TaskStatus.pending;
  attempt_count = 0;
  output = none;
  error = none;
  started_at = none;
  completed_at = none;
}

unfoldable pub drawn_states : Ident → ℕ → List TaskDefinition → List TaskState
drawn_states execution id [] = []
drawn_states execution id (task ∷ tasks) =
    new_state execution id task ∷ drawn_states execution (suc id) tasks

abbrev pub count_tasks : List TaskDefinition → ℕ
count_tasks [] = 0
count_tasks (t ∷ ts) = suc (count_tasks ts)

-- `createBatch`, of tasks that have rows.
unfoldable pub create_batch : Ident → List TaskDefinition → Database → List TaskState × Database
unfolding drawn_states
create_batch execution tasks db = (
  drawn_states execution db.next_id tasks,
  record db {
    task_states = db.task_states ++ drawn_states execution db.next_id tasks;
    next_id = db.next_id + count_tasks tasks;
  },
)

abbrev pub set_status : ExecutionStatus → Instant → Execution → Execution
set_status ExecutionStatus.running now e = record e {
  status = ExecutionStatus.running;
  started_at = some now;
}
set_status ExecutionStatus.completed now e = record e {
  status = ExecutionStatus.completed;
  completed_at = some now;
}
set_status ExecutionStatus.failed now e = record e {
  status = ExecutionStatus.failed;
  completed_at = some now;
}
set_status ExecutionStatus.cancelled now e = record e {
  status = ExecutionStatus.cancelled;
  completed_at = some now;
}
set_status ExecutionStatus.pending now e = record e { status = ExecutionStatus.pending }

-- `ExecutionRepository.updateStatus`
unfoldable pub update_execution : Ident → ExecutionStatus → Instant → Database → Bool × Database
update_execution id status now db = (
  any_of (λ e. e.id == id) db.executions,
  record db {
    executions = map (λ e. if e.id == id then set_status status now e else e) db.executions;
  },
)

unfoldable pub find_execution : Ident → List Execution → Option Execution
find_execution id [] = none
find_execution id (e ∷ es) = if e.id == id then some e else find_execution id es

pub data Answer : Type 0 where
  accepted : Ident → Answer
  cancelled : Ident → Answer
  workflow_not_found : Ident → Answer
  execution_not_found : Ident → Answer
  already_ended : ExecutionStatus → Answer

abbrev pub status_code : Answer → ℕ
status_code (accepted id) = 202
status_code (cancelled id) = 200
status_code (workflow_not_found id) = 404
status_code (execution_not_found id) = 404
status_code (already_ended status) = 409

abbrev pub is_ended : ExecutionStatus → Bool
is_ended ExecutionStatus.completed = true
is_ended ExecutionStatus.failed = true
is_ended ExecutionStatus.cancelled = true
is_ended _ = false

abbrev pub is_pending : TaskStatus → Bool
is_pending TaskStatus.pending = true
is_pending _ = false

abbrev pub target_ids : Workflow → List Ident
target_ids w = map (λ e. e.target_task_id) w.edges

-- The tasks without an incoming edge.
abbrev pub root_tasks : Workflow → List TaskState → List TaskState
root_tasks w states = keep (λ s. not (elem s.task_definition_id (target_ids w))) states

-- The loop of `updateStatus(ts.id, 'cancelled')` over the pending tasks.
unfoldable pub cancel_states : List TaskState → Instant → List TaskState → List TaskState
unfolding update_status
cancel_states [] now rows = rows
cancel_states (s ∷ ss) now rows =
    let done =
      cancel_states ss now (update_status s.id TaskStatus.cancelled none none now rows).1 in
    let kept = cancel_states ss now rows in if is_pending s.status then done else kept

module _ (redis : Server) where
  open redis use {Store}

  unfoldable pub enqueue_all : List TaskState → Store → Store
  unfolding enqueue
  enqueue_all [] s = s
  enqueue_all (t ∷ ts) s = enqueue_all ts (enqueue redis t.id s)

  abbrev pub execute_found :
      Ident → Option Json → Instant → Option Workflow → Database → Store → Answer × Database × Store
  execute_found id input now none db s = (workflow_not_found id, db, s)
  execute_found id input now (some workflow) db s =
      let (execution, db1) = create_execution id input now db in
      let (states, db2) = create_batch execution.id workflow.task_definitions db1 in
      let s1 = enqueue_all (root_tasks workflow states) s in
      let (found, db3) = update_execution execution.id ExecutionStatus.running now db2 in
      (accepted execution.id, db3, s1)

  -- `ExecutionController.execute`
  unfoldable pub execute :
      Ident → Option Json → Instant → Database → Store → Answer × Database × Store
  unfolding Workflows.find_by_id create_batch update_execution enqueue_all
  execute id input now db s = execute_found id input now (Workflows.find_by_id id db) db s

abbrev pub cancel_found : Ident → Instant → Option Execution → Database → Answer × Database
cancel_found id now none db = (execution_not_found id, db)
cancel_found id now (some execution) db =
    if is_ended execution.status
    then (already_ended execution.status, db)
    else (let (found, db1) = update_execution id ExecutionStatus.cancelled now db in
        (
          cancelled id,
          record db1 {
            task_states =
                cancel_states (find_by_execution_id id db1.task_states) now db1.task_states;
          },
        ))

-- `ExecutionController.cancel`
unfoldable pub cancel : Ident → Instant → Database → Answer × Database
unfolding find_execution update_execution find_by_execution_id cancel_states
cancel id now db = cancel_found id now (find_execution id db.executions) db
