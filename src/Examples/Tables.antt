-- ===== src/Examples/Tables.antt =====
-- Tables with one workflow of two tasks: its creation, the start and the cancellation of an execution.
use mathlib.Core.List.{Permᴰ}
use task_orchestrator_engine.Prelude.{
  IsOrdered, true, ◌*◌, ◌≤◌, min, length, map, ℕ, ◌≡◌, refl, none, some, [], ◌∷◌,
}
use task_orchestrator_engine.Types.{
  Workflow, TaskDefinition, Edge, TriggerConfig, TriggerType, ExecutionStatus, TaskState,
  TaskStatus,
}
use task_orchestrator_engine.Scheduler.Tables.{Database, WorkflowRow}
use task_orchestrator_engine.Scheduler.Workflows.{find_by_id, read_workflow}
use task_orchestrator_engine.Cron.Text.{parse_int, leading_number, skip_spaces}
use task_orchestrator_engine.Scheduler.Pages.{
  read_page, read_page_size, take_first, newest_first, find_all_workflows, pages, pages-take_first,
}
use task_orchestrator_engine.Scheduler.Executions.{execute, cancel}
use task_orchestrator_engine.Scheduler.Executions.Started.{
  HasFreshIds, IsStarted, execute-IsStarted,
}
use task_orchestrator_engine.Scheduler.Executions.Cancelled.{
  HasUniqueIds, IsCancelled, cancel-IsCancelled,
}
use task_orchestrator_engine.Scheduler.Executions.Alive.{HasGrown, execute-HasGrown}
use task_orchestrator_engine.Dag.Graph.{build_adjacency_list}
use task_orchestrator_engine.Dag.Search.{dfs}
use task_orchestrator_engine.Dag.Validator.{validate_dag}
use task_orchestrator_engine.Redis.TaskQueue.Flow.{waiting}
use task_orchestrator_engine.Examples.Memory.{Memory, in_memory}

abbrev manually : TriggerConfig
manually = record { type = TriggerType.manual; schedule_id = none; event_pattern = none }

abbrev task : ℕ → ℕ → TaskDefinition
task id workflow = record {
  id = id;
  workflow_id = workflow;
  name = "step";
  type = "delay";
  config = "{}";
  timeout_ms = 1000;
  retry_policy = none;
}

abbrev edge : ℕ → ℕ → ℕ → Edge
edge id source target = record {
  id = id;
  workflow_id = 0;
  source_task_id = source;
  target_task_id = target;
  condition_expr = none;
}

abbrev pending_state : ℕ → ℕ → TaskState
pending_state id definition = record {
  id = id;
  execution_id = 6;
  task_definition_id = definition;
  status = TaskStatus.pending;
  attempt_count = 0;
  output = none;
  error = none;
  started_at = none;
  completed_at = none;
}

abbrev stored : Database
stored = record {
  workflows =
      record {
        id = 1;
        name = "nightly";
        description = none;
        trigger_config = manually;
        created_at = 5;
        updated_at = 5;
      }
      ∷ [];
  task_definitions = task 2 1 ∷ task 3 1 ∷ [];
  edges =
      record {
        id = 4;
        workflow_id = 1;
        source_task_id = 2;
        target_task_id = 3;
        condition_expr = none;
      }
      ∷ [];
  executions =
      record {
        id = 6;
        workflow_id = 1;
        status = ExecutionStatus.running;
        input = none;
        started_at = some 7;
        completed_at = none;
        created_at = 7;
      }
      ∷ [];
  task_states =
      record (pending_state 7 2) { status = TaskStatus.completed } ∷ pending_state 8 3 ∷ [];
  next_id = 10;
}

stored-HasFreshIds : HasFreshIds stored
stored-HasFreshIds = record { executions_fresh = refl; states_fresh = refl }

abbrev no_tasks_waiting : Memory
no_tasks_waiting = record { queue = []; processing = []; owner = λ x. none }

queued_lem : (execute in_memory 1 none 30 stored no_tasks_waiting).2.queue ≡ 11 ∷ []
unfolding execute
queued_lem = refl

execute-IsStarted_example :
    IsStarted in_memory 1 30 stored no_tasks_waiting
      (execute in_memory 1 none 30 stored no_tasks_waiting)
execute-IsStarted_example =
    execute-IsStarted in_memory 1 none 30 stored no_tasks_waiting stored-HasFreshIds

stored-HasUniqueIds : HasUniqueIds stored.task_states
stored-HasUniqueIds = (refl, (refl, _))

cancel-IsCancelled_example : IsCancelled 6 40 stored (cancel 6 40 stored)
cancel-IsCancelled_example = cancel-IsCancelled 6 40 stored stored-HasUniqueIds

abbrev nightly : Workflow
nightly = record {
  id = 1;
  name = "nightly";
  description = none;
  task_definitions = stored.task_definitions;
  edges = stored.edges;
  trigger_config = manually;
  created_at = 5;
  updated_at = 5;
}

nightly-found : find_by_id 1 stored ≡ some nightly
unfolding find_by_id
nightly-found = refl

nightly-validate_dag :
    validate_dag nightly.task_definitions nightly.edges
    ≡ some (record { valid = true; errors = [] })
unfolding validate_dag build_adjacency_list dfs
nightly-validate_dag = refl

execute-HasGrown_example :
    HasGrown
      (waiting in_memory no_tasks_waiting)
      (waiting in_memory (execute in_memory 1 none 30 stored no_tasks_waiting).2)
execute-HasGrown_example =
    execute-HasGrown in_memory 1 none 30 stored no_tasks_waiting nightly (task 2 1) (task 3 1 ∷ [])
      (record { valid = true; errors = [] }) stored-HasFreshIds nightly-found refl
      nightly-validate_dag refl

pages-take_first_example :
    IsOrdered
      (λ (r s : WorkflowRow). s.created_at ≤ r.created_at)
      (newest_first (λ row. row.created_at) stored.workflows)
    × Permᴰ (newest_first (λ row. row.created_at) stored.workflows) stored.workflows
    × (pages 20 2 stored
        ≡ map
            (read_workflow stored)
            (take_first (2 * min 20 100) (newest_first (λ row. row.created_at) stored.workflows)))
    × (length (find_all_workflows 2 20 stored).0 ≤ 100)
pages-take_first_example = pages-take_first 20 stored 2

reads_a_negative_page : read_page (some (45 ∷ 50 ∷ [])) ≡ 1
unfolding leading_number skip_spaces
reads_a_negative_page = refl

clamps_the_page_size : read_page_size 20 (some (53 ∷ 48 ∷ 48 ∷ [])) ≡ 100
unfolding parse_int
clamps_the_page_size = refl
