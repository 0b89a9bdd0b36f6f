-- ===== src/Executor/Tasks.antt =====
-- task-runner.ts, lines 110 to 217: what the five types of tasks do. The host is not code of the
-- repository: the fields that it reads from a JSON object, `fetch`, `exec`, the evaluation of an
-- expression, `trim`, JSON's printer and parser are arguments.
use Prim.Native.String.{String}
use Prim.Native.String
use task_orchestrator_engine.Prelude.{
  ℕ, zero, suc, Bool, true, false, Option, none, some, if◌then◌else◌, same_text,
}
use task_orchestrator_engine.Types.{Instant, Json, TaskDefinition}

-- The answer of `fetch`, or the text of what it threw.
pub data FetchReply : Type 0 where
  responded : (ok : Bool) → (status : ℕ) → (body : String) → FetchReply
  fetch_failed : (error : String) → FetchReply

-- What the callback of `exec` is called with.
pub data ExecReply : Type 0 where
  exited : (stdout stderr : String) → ExecReply
  exec_failed : (message stderr : String) → ExecReply

pub data Evaluated : Type 0 where
  value : Json → Evaluated
  thrown : (error : String) → Evaluated

-- The outputs of the tasks, as objects; `printed` is their JSON.
pub data Output : Type 0 where
  http_output : (status_code : ℕ) → (body : Json) → Output
  script_output : (stdout stderr : String) → Output
  delay_output : (delay_ms : ℕ) → Output
  approval_output : (approved : Bool) → (approved_at : Instant) → Output
  conditional_output : (result : Json) → Output

pub record Host : Type 0 where
  pub url_of : Json → String
  pub method_of : Json → String
  pub headers_of : Json → Json
  pub body_of : Json → Option String
  pub command_of : Json → String
  pub delay_of : Json → ℕ
  pub fetch : String → String → Json → Option String → FetchReply
  pub exec : String → ExecReply
  pub evaluate : Json → Evaluated
  pub parse_json : String → Option Json
  pub trim : String → String
  pub number_text : ℕ → String
  pub printed : Output → Json
  -- What a task throws outside a `try`, as a script or a delay whose config is null does.
  pub rejection : TaskDefinition → Option String

-- `TaskResult`: with an output or with an error.
pub data TaskResult : Type 0 where
  succeeded : Output → TaskResult
  erred : (error : String) → TaskResult

-- `a || b` on texts.
abbrev pub or_text : String → String → String
or_text String.[] other = other
or_text (String.◌∷◌ c s) other = String.◌∷◌ c s

infixr 60 ◌<>◌
abbrev ◌<>◌ : String → String → String
a <> b = String.◌++◌ a b

module _ (host : Host) where
  abbrev parsed_body : Option Json → String → Json
  parsed_body none body = body
  parsed_body (some json) body = json

  unfoldable pub fetched : FetchReply → TaskResult
  fetched (responded true status body) =
      succeeded (http_output status (parsed_body (host.parse_json body) body))
  fetched (responded false status body) = erred ("HTTP " <> host.number_text status <> ": " <> body)
  fetched (fetch_failed error) = erred ("HTTP request failed: " <> error)

  -- The body is sent unless there is none or the method is `GET`.
  abbrev sent_body : String → Option String → Option String
  sent_body method none = none
  sent_body method (some body) = if same_text method "GET" then none else some body

  unfoldable pub execute_http : Json → TaskResult
  unfolding fetched
  execute_http config =
      let method = or_text (host.method_of config) "GET" in
      fetched (
        host.fetch (host.url_of config) method (host.headers_of config)
          (sent_body method (host.body_of config)))

  unfoldable pub exec_result : ExecReply → TaskResult
  exec_result (exited stdout stderr) =
      succeeded (script_output (host.trim stdout) (host.trim stderr))
  exec_result (exec_failed message stderr) = erred ("Script failed: " <> or_text stderr message)

  unfoldable pub run_script : String → TaskResult
  unfolding exec_result
  run_script String.[] = erred "No command specified for script task"
  run_script (String.◌∷◌ c s) = exec_result (host.exec (String.◌∷◌ c s))

  unfoldable pub execute_script : Json → TaskResult
  unfolding run_script
  execute_script config = run_script (host.command_of config)

  abbrev or_default : ℕ → ℕ → ℕ
  or_default zero d = d
  or_default (suc n) d = suc n

  unfoldable pub execute_delay : Json → TaskResult
  execute_delay config = succeeded (delay_output (or_default (host.delay_of config) 1000))

  unfoldable pub execute_approval : Instant → TaskResult
  execute_approval now = succeeded (approval_output true now)

  unfoldable pub evaluated : Evaluated → TaskResult
  evaluated (value result) = succeeded (conditional_output result)
  evaluated (thrown error) = erred ("Conditional evaluation failed: " <> error)

  unfoldable pub execute_conditional : Json → TaskResult
  unfolding evaluated
  execute_conditional config = evaluated (host.evaluate config)

  unfoldable pub execute_task : TaskDefinition → Instant → TaskResult
  unfolding execute_http execute_script execute_delay execute_approval execute_conditional
  execute_task definition now =
      if same_text definition.type "http"
      then execute_http definition.config
      else if same_text definition.type "script"
      then execute_script definition.config
      else if same_text definition.type "delay"
      then execute_delay definition.config
      else if same_text definition.type "approval"
      then execute_approval now
      else if same_text definition.type "conditional"
      then execute_conditional definition.config
      else erred ("Unknown task type: " <> definition.type)
