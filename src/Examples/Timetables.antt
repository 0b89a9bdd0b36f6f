-- ===== src/Examples/Timetables.antt =====
-- Schedules over the tables, and their evaluation.
use task_orchestrator_engine.Prelude.{
  ◌≡◌, ℕ, refl, true, none, some, [], ◌∷◌, ◌+◌, min, length, every, keep,
}
use task_orchestrator_engine.Types.{TaskDefinition, TriggerType}
use task_orchestrator_engine.Cron.Search.{utc}
use task_orchestrator_engine.Scheduler.Tables.{Database}
use task_orchestrator_engine.Scheduler.Workflows.{find_by_id}
use task_orchestrator_engine.Scheduler.Schedules.{
  Schedule, Schedules, ScheduleBody, store_schedule, create_schedule, answer_status, due_at,
}
use task_orchestrator_engine.Scheduler.Evaluator.{State, due_schedules, fire_schedule, evaluate}
use task_orchestrator_engine.Scheduler.Evaluator.Fired.{IsFired, fire_schedule-IsFired}
use task_orchestrator_engine.Scheduler.Evaluator.Evaluated.{with_workflow, evaluate-count}
use task_orchestrator_engine.Examples.Memory.{in_memory}

abbrev step : ℕ → TaskDefinition
step id = record {
  id = id;
  workflow_id = 1;
  name = "step";
  type = "delay";
  config = "{}";
  timeout_ms = 1000;
  retry_policy = none;
}

abbrev one_workflow : Database
one_workflow = record {
  workflows =
      record {
        id = 1;
        name = "nightly";
        description = none;
        trigger_config = record {
          type = TriggerType.schedule;
          schedule_id = none;
          event_pattern = none;
        };
        created_at = 5;
        updated_at = 5;
      }
      ∷ [];
  task_definitions = step 2 ∷ step 3 ∷ [];
  edges = [];
  executions = [];
  task_states = [];
  next_id = 10;
}

-- Every two seconds, due at 4000.
abbrev often : Schedule
often = record {
  id = 4;
  workflow_id = 1;
  cron_expr = none;
  interval_ms = some 2000;
  timezone = 85 ∷ 84 ∷ 67 ∷ [];
  active = true;
  last_run_at = none;
  next_run_at = some 4000;
  created_at = 5;
}

abbrev one_schedule : Schedules
one_schedule = record { db = one_workflow; schedules = often ∷ [] }

abbrev every_minute : ScheduleBody
every_minute = record {
  workflow_id = 1;
  cron_expr = none;
  interval_ms = some 60000;
  timezone = none;
}

is_stored :
    answer_status (create_schedule (λ t. none) (λ t. some utc) every_minute 7000 one_schedule).0
    ≡ 201
unfolding create_schedule store_schedule find_by_id
is_stored = refl

abbrev before : State in_memory
before = record {
  tables = one_schedule;
  store = record { queue = 9 ∷ []; processing = []; owner = λ x. none };
}

fire_schedule-IsFired_example :
    IsFired in_memory
      (λ t. none)
      (λ t. some utc)
      often
      4500
      before
      (fire_schedule in_memory (λ t. none) (λ t. some utc) often 4500 before)
fire_schedule-IsFired_example =
    fire_schedule-IsFired in_memory (λ t. none) (λ t. some utc) often 4500 before
      (record { executions_fresh = refl; states_fresh = refl }) refl

queue_lem :
    (fire_schedule in_memory (λ t. none) (λ t. some utc) often 4500 before).store.queue
    ≡ 12 ∷ 11 ∷ 9 ∷ []
unfolding fire_schedule
queue_lem = refl

evaluate-count_example :
    let due = due_schedules 4500 one_schedule.schedules in
    (every (due_at 4500) due ≡ true)
    × (length due ≡ min 50 (length (keep (due_at 4500) one_schedule.schedules)))
    × (length
          (evaluate in_memory
            (λ t. none)
            (λ t. some utc)
            4500
            (λ s. 4600)
            before).tables.db.executions
        ≡ length (with_workflow one_workflow.workflows due) + length one_workflow.executions)
evaluate-count_example =
    evaluate-count in_memory (λ t. none) (λ t. some utc) 4500 (λ s. 4600) before
