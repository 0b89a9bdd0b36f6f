-- ===== src/Examples/Flow.antt =====
-- A finished task, a finished execution, and an execution over its limit.
use Prim.Native.String.{String}
use task_orchestrator_engine.Prelude.{
  ◌≤◌, ◌≡◌, ◌≢◌, ◌⊎◌, refl, Bool, true, false, Option, none, some, List, [], ◌∷◌, ◌++◌, map, every,
  any_of, arith, if◌then◌else◌, elem, inl, inr,
}
use task_orchestrator_engine.Types.{
  Ident, Json, Edge, Execution, ExecutionStatus, ExecutionStatus.completed, ExecutionStatus.failed,
  SlaConfig, TaskState, TaskStatus,
}
use task_orchestrator_engine.Redis.TaskQueue.Flow.{waiting}
use task_orchestrator_engine.Executor.FanOut.{mark_skipped, evaluate_downstream, all_unmet}
use task_orchestrator_engine.Executor.FanOut.Skips.{Skips}
use task_orchestrator_engine.Executor.FanOut.Fuel.{mark_skipped-fuel}
use task_orchestrator_engine.Executor.FanOut.Incoming.{first, no_condition, was_completed, this_one}
use task_orchestrator_engine.Executor.FanOut.Woken.{evaluate_downstream-wakes}
use task_orchestrator_engine.Executor.FanOut.Ready.{
  IsReady, evaluate_downstream-IsReady, evaluate_downstream-Skips,
}
use task_orchestrator_engine.Scheduler.Completion.{check_execution_completion}
use task_orchestrator_engine.Scheduler.Completion.Final.{
  own, ended, has_failed, close_running, check_execution_completion-decides,
}
use task_orchestrator_engine.Monitor.Sla.{critical, check}
use task_orchestrator_engine.Monitor.Sla.Once.{Reading, alerts_of, checks, fresh, checks-alerts_of}
use task_orchestrator_engine.Monitor.Health.{Hashes, send}
use task_orchestrator_engine.Examples.Memory.{Memory, in_memory}

abbrev state : Ident → Ident → TaskStatus → TaskState
state id def status = record {
  id = id;
  execution_id = 5;
  task_definition_id = def;
  status = status;
  attempt_count = 0;
  output = some "{}";
  error = none;
  started_at = none;
  completed_at = none;
}

abbrev edge : Ident → Ident → Option String → Edge
edge from to condition = record {
  id = 9;
  workflow_id = 1;
  source_task_id = from;
  target_task_id = to;
  condition_expr = condition;
}

-- Task 1 is completed; 2 follows without a condition, 3 under one, and 4 follows 3.
abbrev states : List TaskState
states =
    state 11 1 TaskStatus.completed
    ∷ state 12 2 TaskStatus.pending
    ∷ state 13 3 TaskStatus.pending
    ∷ state 14 4 TaskStatus.pending
    ∷ []

abbrev edges : List Edge
edges = edge 1 2 none ∷ edge 1 3 (some "false") ∷ edge 3 4 none ∷ []

abbrev never : String → Json → Option Bool
never expression output = some false

abbrev empty : Memory
empty = record { queue = []; processing = []; owner = λ _. none }

only_2_is_ready : (evaluate_downstream never in_memory 1 edges states empty).0 ≡ 12 ∷ []
unfolding evaluate_downstream
only_2_is_ready = refl

evaluate_downstream-IsReady_example :
    IsReady never 1 edges states (evaluate_downstream never in_memory 1 edges states empty).1 12
unfolding evaluate_downstream
evaluate_downstream-IsReady_example =
    evaluate_downstream-IsReady never 1 edges states in_memory empty 12 refl

evaluate_downstream-wakes_example :
    elem 12 (evaluate_downstream never in_memory 1 edges states empty).0 ≡ true
unfolding evaluate_downstream all_unmet
evaluate_downstream-wakes_example =
    evaluate_downstream-wakes never 1 edges states in_memory empty (edge 1 2 none)
      (state 12 2 TaskStatus.pending) first no_condition
      (inr (was_completed refl), (inl refl, (inl refl, _))) (this_one refl refl refl) refl refl

evaluate_downstream-Skips_example :
    let (ready, after, s') = evaluate_downstream never in_memory 1 edges states empty in
    Skips states after × (waiting in_memory s' ≡ waiting in_memory empty ++ ready)
evaluate_downstream-Skips_example = evaluate_downstream-Skips never 1 edges states in_memory empty

mark_skipped-fuel_example : mark_skipped 9 edges 3 states ≡ mark_skipped 4 edges 3 states
mark_skipped-fuel_example = mark_skipped-fuel 4 9 edges 3 states (omega arith) (omega arith)

abbrev over : List TaskState
over = state 11 1 TaskStatus.completed ∷ state 12 2 TaskStatus.failed ∷ []

abbrev stuck : List TaskState
stuck = state 11 1 TaskStatus.completed ∷ state 12 2 TaskStatus.skipped ∷ []

abbrev execution : Execution
execution = record {
  id = 5;
  workflow_id = 1;
  status = ExecutionStatus.running;
  input = none;
  started_at = some 1000;
  completed_at = none;
  created_at = 900;
}

check_execution_completion-decides_example :
    ((check_execution_completion 2000 5 over (execution ∷ []) ≡ execution ∷ [])
      × ((own 5 over ≡ []) ⊎ (every ended (own 5 over) ≡ false)))
    ⊎ ((own 5 over ≢ [])
        × (every ended (own 5 over) ≡ true)
        × (check_execution_completion 2000 5 over (execution ∷ [])
            ≡ map
                (close_running
                  (if any_of has_failed (own 5 over) then failed else completed)
                  2000
                  5)
                (execution ∷ [])))
check_execution_completion-decides_example =
    check_execution_completion-decides 2000 5 over (execution ∷ [])

abbrev limit : SlaConfig
limit = record { id = 3; workflow_id = 1; max_duration_ms = 500; warning_threshold_pct = 80 }

abbrev readings : List Reading
readings =
    record { now = 1450; configs = limit ∷ []; executions = execution ∷ [] }
    ∷ record { now = 1600; configs = limit ∷ []; executions = execution ∷ [] }
    ∷ record { now = 1700; configs = limit ∷ []; executions = execution ∷ [] }
    ∷ []

one_critical : alerts_of 5 critical (checks readings fresh).alerts ≡ 1
unfolding checks check
one_critical = refl

checks-alerts_of_example : alerts_of 5 critical (checks readings fresh).alerts ≤ 1
unfolding check
checks-alerts_of_example = checks-alerts_of 5 critical readings refl

-- Executor 1 is alive, executor 2 is late, and executor 3 has no hash.
abbrev hashes : Hashes
hashes = send 100000 1 2 4 (send 5000 2 0 4 (λ _. none))
