-- ===== src/Examples/Bodies.antt =====
-- Requests to the controller of workflows.
use Prim.Native.String
use task_orchestrator_engine.Prelude.{◌≡◌, refl, ℕ, true, false, none, [], ◌∷◌, arith}
use task_orchestrator_engine.Types.{TriggerType, Edge}
use task_orchestrator_engine.Scheduler.Tables.{Database, foreign_key}
use task_orchestrator_engine.Scheduler.Workflows.{create, fits}
use task_orchestrator_engine.Scheduler.Json.{
  JsonValue, text, array, object, nothing, item, end, field,
}
use task_orchestrator_engine.Scheduler.Bodies.{Casts}
use task_orchestrator_engine.Scheduler.Bodies.Accepted.{is_acceptable}
use task_orchestrator_engine.Scheduler.Controller.{
  status, validated_input, create_workflow, delete_workflow, failed, refused_by_database,
}
use task_orchestrator_engine.Scheduler.Controller.Handled.{create_workflow-foreign_key}
use task_orchestrator_engine.Scheduler.Controller.Deleted.{IsDeleted, delete_workflow-IsDeleted}
use task_orchestrator_engine.Dag.Graph.{build_adjacency_list}
use task_orchestrator_engine.Dag.Search.{dfs}

-- Texts read as their lengths.
abbrev length_of : JsonValue → ℕ
length_of (text s) = String.count s
length_of _ = 0

abbrev by_length : Casts
by_length = record {
  ident = length_of;
  optional_text = λ v. none;
  json = λ v. "{}";
  policy = λ v. none;
  trigger = λ v. record { type = TriggerType.manual; schedule_id = none; event_pattern = none };
}

abbrev task_named : JsonValue → JsonValue
task_named name = object (field "name" name (field "type" (text "delay") end))

abbrev body_with : JsonValue → JsonValue
body_with edges = object (
    field "name" (text "daily") (
      field "taskDefinitions"
        (array (item (task_named (text "a")) (item (task_named (text "bb")) nothing)))
        (field "edges" edges
          (field "triggerConfig" (object (field "type" (text "manual") end)) end))))

abbrev no_edge : JsonValue
no_edge = body_with (array nothing)

abbrev one_edge : JsonValue
one_edge = body_with (
    array (
      item (object (field "sourceTaskId" (text "a") (field "targetTaskId" (text "bb") end)))
        nothing))

abbrev empty_tables : Database
empty_tables = record {
  workflows = [];
  task_definitions = [];
  edges = [];
  executions = [];
  task_states = [];
  next_id = 10;
}

accepts_no_edge : is_acceptable no_edge ≡ true
accepts_no_edge = refl

refuses_blank_name :
    is_acceptable (object (field "name" (text "  ") (field "edges" (array nothing) end))) ≡ false
refuses_blank_name = refl

is_created : status (create_workflow by_length (λ i. i) 4 no_edge 20 empty_tables).0 ≡ 201
unfolding create_workflow create
is_created = refl

abbrev edge_by_name : Edge
edge_by_name = record {
  id = 0;
  workflow_id = 4;
  source_task_id = 1;
  target_task_id = 2;
  condition_expr = none;
}

create_workflow-foreign_key_example :
    create_workflow by_length (λ i. i) 4 one_edge 20 empty_tables
    ≡ (failed (refused_by_database foreign_key), empty_tables)
unfolding validated_input build_adjacency_list dfs fits
create_workflow-foreign_key_example =
    create_workflow-foreign_key by_length (λ i. i) 4 one_edge 20 empty_tables _ edge_by_name [] refl
      refl (omega arith) refl

-- Workflow 1 was never executed; 9 is another one.
abbrev unused : Database
unused = record empty_tables {
  workflows =
      record {
        id = 1;
        name = "nightly";
        description = none;
        trigger_config = record {
          type = TriggerType.manual;
          schedule_id = none;
          event_pattern = none;
        };
        created_at = 5;
        updated_at = 5;
      }
      ∷ [];
}

delete_workflow-IsDeleted_example : IsDeleted 1 9 unused (delete_workflow 1 unused)
delete_workflow-IsDeleted_example = delete_workflow-IsDeleted 1 9 unused refl
