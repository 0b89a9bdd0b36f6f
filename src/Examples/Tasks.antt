-- ===== src/Examples/Tasks.antt =====
-- An executor that claims a task, runs it and handles its failure.
use task_orchestrator_engine.Prelude.{◌≡◌, refl, true, false, none, some, List, [], ◌∷◌}
use task_orchestrator_engine.Types.{
  Ident, Strategy.fixed, TaskDefinition, TaskState, TaskStatus.pending,
}
use task_orchestrator_engine.Redis.TaskQueue.{claim}
use task_orchestrator_engine.Redis.LockManager.{acquire}
use task_orchestrator_engine.Redis.TaskQueue.Flow.{total}
use task_orchestrator_engine.Executor.World.{World}
use task_orchestrator_engine.Executor.Claimer.{claimed, poll}
use task_orchestrator_engine.Executor.Claimer.Cycle.{IsClaimed, poll-total, poll-IsClaimed}
use task_orchestrator_engine.Executor.RetryHandler.{Turn}
use task_orchestrator_engine.Executor.RetryHandler.Outcome.{Ending}
use task_orchestrator_engine.Executor.Tasks.{
  Host, FetchReply.fetch_failed, ExecReply.exited, Evaluated.thrown,
}
use task_orchestrator_engine.Executor.Runner.{Run}
use task_orchestrator_engine.Examples.Memory.{in_memory}

abbrev row : Ident → TaskState
row id = record {
  id = id;
  execution_id = 5;
  task_definition_id = 1;
  status = pending;
  attempt_count = 0;
  output = none;
  error = none;
  started_at = none;
  completed_at = none;
}

-- Two tasks wait, and the executor has none.
abbrev world : World in_memory
world = record {
  store = record { queue = 12 ∷ 11 ∷ []; processing = []; owner = λ _. none };
  task_states = row 11 ∷ row 12 ∷ [];
  dead_letters = [];
  claimer = record { is_running = true; current_task = none };
}

claims_11 : (poll in_memory 1 30000 world).0 ≡ claimed 11
unfolding poll claim acquire
claims_11 = refl

poll-total_example :
    total in_memory 12 (poll in_memory 1 30000 world).1.store ≡ total in_memory 12 world.store
poll-total_example = poll-total in_memory 1 30000 world 12

poll-IsClaimed_example : IsClaimed in_memory 1 30000 11 world (poll in_memory 1 30000 world).1
poll-IsClaimed_example = poll-IsClaimed in_memory 1 30000 world 11 claims_11

abbrev definition : TaskDefinition
definition = record {
  id = 1;
  workflow_id = 1;
  name = "build";
  type = "script";
  config = "{\"command\": \"make\"}";
  timeout_ms = 0;
  retry_policy = some (record { strategy = fixed; max_attempts = 3; base_delay = 100 });
}

abbrev turns : List Turn
turns = record { elapsed_before = 0; elapsed_after = 100; renewals = 0 } ∷ []

abbrev claimed_world : World in_memory
claimed_world = record world {
  store = record { queue = 12 ∷ []; processing = 11 ∷ []; owner = λ _. some 1 };
  claimer = record {
    is_running = true;
    current_task = some (record { task_state_id = 11; aborted = false; renewing = true });
  };
}

-- The commands of this host print nothing and end well; it has no network.
abbrev host : Host
host = record {
  url_of = λ _. "http://localhost";
  method_of = λ _. "";
  body_of = λ _. none;
  command_of = λ _. "make";
  delay_of = λ _. 0;
  fetch = λ _ _ _ _. fetch_failed "no network";
  exec = λ _. exited "" "";
  evaluate = λ _. thrown "no context";
  parse_json = λ _. none;
  trim = λ text. text;
  number_text = λ _. "500";
  printed = λ _. "{}";
  rejection = λ _. none;
  headers_of = λ _. "{}";
}

abbrev in_time : Run
in_time = record {
  started = 800;
  ended = 900;
  duration = some 100;
  renewals_before = 0;
  renewals_during = 1;
  turns = turns;
}
