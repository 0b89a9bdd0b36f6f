-- ===== src/Scheduler/Bodies.antt =====
-- `validateWorkflowBody` of services/scheduler-api/src/controllers/workflow-controller.ts. Where the
-- code casts a value that it has not tested, the reading at the type of the cast is an argument.
pub mod Accepted
use Prim.Native.String.{String}
use task_orchestrator_engine.Prelude.{
  ℕ, ◌+◌, Bool, true, false, not, ◌&&◌, ◌||◌, Option, none, some, List, [], ◌∷◌, map, ◌==◌,
  same_text, if◌then◌else◌, Result, ok, err, ◌>>=◌,
}
use task_orchestrator_engine.Types.{Ident, Json, RetryPolicy, TriggerConfig}
use task_orchestrator_engine.Scheduler.Json.{
  JsonValue, undefined, null, text, number, array, object, Items, property, is_truthy, is_object,
  is_text, is_blank, is_undefined, is_positive, values,
}

-- How a value that is not tested reads at the type to which it is cast. A name of a task is the
-- task's temporary id, so that texts read as identifiers too.
pub record Casts : Type 0 where
  pub ident : JsonValue → Ident
  pub optional_text : JsonValue → Option String
  pub json : JsonValue → Json
  pub policy : JsonValue → Option RetryPolicy
  pub trigger : JsonValue → TriggerConfig

pub record TaskData : Type 0 where
  pub name : String
  pub type : String
  pub config : Json
  pub timeout_ms : ℕ
  pub retry_policy : Option RetryPolicy
  pub temp_id : Ident

pub record EdgeData : Type 0 where
  pub source_task_id : Ident
  pub target_task_id : Ident
  pub condition_expr : Option String

pub record WorkflowData : Type 0 where
  pub name : String
  pub description : Option String
  pub task_definitions : List TaskData
  pub edges : List EdgeData
  pub trigger_config : TriggerConfig

-- The reasons of a refusal, and the `TypeError` for an edge that is `null`.
pub data BodyError : Type 0 where
  not_an_object : BodyError
  no_name : BodyError
  no_tasks : BodyError
  task_not_an_object : BodyError
  task_without_name : BodyError
  task_without_type : BodyError
  bad_timeout : BodyError
  no_edges : BodyError
  no_trigger : BodyError
  bad_trigger_type : BodyError
  type_error : BodyError

abbrev pub is_named : JsonValue → Bool
is_named v = is_truthy v && is_text v

-- The error of one element of `taskDefinitions`, and the first error of all.
abbrev pub task_error : JsonValue → Option BodyError
task_error task =
    if not (is_truthy task && is_object task)
    then some task_not_an_object
    else if not (is_named (property "name" task))
    then some task_without_name
    else if not (is_named (property "type" task))
    then some task_without_type
    else if not
        (is_undefined (property "timeoutMs" task) || is_positive (property "timeoutMs" task))
    then some bad_timeout
    else none

abbrev pub or_error : Option BodyError → Option BodyError → Option BodyError
or_error (some e) later = some e
or_error none later = later

abbrev pub first_error : List JsonValue → Option BodyError
first_error [] = none
first_error (task ∷ tasks) = or_error (task_error task) (first_error tasks)

-- `Array.isArray(value)`, with its elements.
abbrev pub elements : JsonValue → Option (List JsonValue)
elements (array items) = some (values items)
elements _ = none

-- `value as string`, of a value that has been tested.
abbrev pub as_text : JsonValue → String
as_text (text s) = s
as_text _ = ""

-- `(value as number) || 300000`
abbrev pub read_timeout : JsonValue → ℕ
read_timeout (number negative n) = if n == 0 then 300000 else n
read_timeout _ = 300000

abbrev pub is_trigger_type : JsonValue → Bool
is_trigger_type (text s) =
    same_text s "manual"
    || (same_text s "schedule" || (same_text s "webhook" || same_text s "event"))
is_trigger_type _ = false

module _ (casts : Casts) where
  open casts use {ident, optional_text, json, policy, trigger}

  -- `config || {}`
  abbrev pub config_or_empty : JsonValue → Json
  config_or_empty v = if is_truthy v then json v else "{}"

  abbrev pub task_data : JsonValue → TaskData
  task_data t = record {
    name = as_text (property "name" t);
    type = as_text (property "type" t);
    config = config_or_empty (property "config" t);
    timeout_ms = read_timeout (property "timeoutMs" t);
    retry_policy = policy (property "retryPolicy" t);
    temp_id = ident (property "name" t);
  }

  abbrev pub edge_fields : JsonValue → EdgeData
  edge_fields e = record {
    source_task_id = ident (property "sourceTaskId" e);
    target_task_id = ident (property "targetTaskId" e);
    condition_expr = optional_text (property "conditionExpr" e);
  }

  -- A property of `null` or `undefined` cannot be read.
  abbrev pub edge_data : JsonValue → Result BodyError EdgeData
  edge_data undefined = err type_error
  edge_data null = err type_error
  edge_data e = ok (edge_fields e)

  unfoldable pub edges_data : List JsonValue → Result BodyError (List EdgeData)
  edges_data [] = ok []
  edges_data (e ∷ es) = do first ← edge_data e; rest ← edges_data es; ok (first ∷ rest)

  -- The checks behind those of the tasks.
  unfoldable pub check_rest :
      JsonValue → List JsonValue → Option (List JsonValue) → Result BodyError WorkflowData
  unfolding edges_data
  check_rest body tasks none = err no_edges
  check_rest body tasks (some edges) =
      let config = property "triggerConfig" body in
      if not (is_truthy config && is_object config)
      then err no_trigger
      else if not (is_trigger_type (property "type" config))
      then err bad_trigger_type
      else (do
        es ← edges_data edges
        ok (record {
          name = as_text (property "name" body);
          description = optional_text (property "description" body);
          task_definitions = map task_data tasks;
          edges = es;
          trigger_config = trigger config;
        }))

  unfoldable pub check_definitions :
      JsonValue → List JsonValue → Option BodyError → Result BodyError WorkflowData
  unfolding check_rest
  check_definitions body tasks (some e) = err e
  check_definitions body tasks none = check_rest body tasks (elements (property "edges" body))

  unfoldable pub check_array : JsonValue → Option (List JsonValue) → Result BodyError WorkflowData
  unfolding check_definitions
  check_array body none = err no_tasks
  check_array body (some []) = err no_tasks
  check_array body (some (t ∷ ts)) = check_definitions body (t ∷ ts) (first_error (t ∷ ts))

  unfoldable pub validate_workflow_body : JsonValue → Result BodyError WorkflowData
  unfolding check_array
  validate_workflow_body body =
      if not (is_truthy body && is_object body)
      then err not_an_object
      else if not (is_named (property "name" body)) || is_blank (property "name" body)
      then err no_name
      else check_array body (elements (property "taskDefinitions" body))
