-- ===== src/Types.antt =====
-- packages/shared/src/types.ts: the records and enumerations that the services share.
-- Identifiers are strings that the code only compares; numbers stand for them, 0 for the empty
-- string. Instants are milliseconds of the Unix epoch. Objects of JSON are kept as their text.
use Prim.Native.String.{String}
use task_orchestrator_engine.Prelude.{ℕ, Bool, Option, List}

abbrev pub Ident : Type 0
Ident = ℕ

abbrev pub Instant : Type 0
Instant = ℕ

abbrev pub Json : Type 0
Json = String

pub data Strategy : Type 0 where
  fixed exponential linear : Strategy

pub record RetryPolicy : Type 0 where
  pub strategy : Strategy
  pub max_attempts : ℕ
  pub base_delay : ℕ

pub record TaskDefinition : Type 0 where
  pub id : Ident
  pub workflow_id : Ident
  pub name : String
  pub type : String
  pub config : Json
  pub timeout_ms : ℕ
  pub retry_policy : Option RetryPolicy

pub record Edge : Type 0 where
  pub id : Ident
  pub workflow_id : Ident
  pub source_task_id : Ident
  pub target_task_id : Ident
  pub condition_expr : Option String

pub data ExecutionStatus : Type 0 where
  pending running completed failed cancelled : ExecutionStatus

pub record Execution : Type 0 where
  pub id : Ident
  pub workflow_id : Ident
  pub status : ExecutionStatus
  pub input : Option Json
  pub started_at : Option Instant
  pub completed_at : Option Instant
  pub created_at : Instant

pub data TaskStatus : Type 0 where
  pending running completed failed cancelled timed_out skipped : TaskStatus

pub record TaskState : Type 0 where
  pub id : Ident
  pub execution_id : Ident
  pub task_definition_id : Ident
  pub status : TaskStatus
  pub attempt_count : ℕ
  pub output : Option Json
  pub error : Option String
  pub started_at : Option Instant
  pub completed_at : Option Instant

pub data TriggerType : Type 0 where
  manual schedule webhook event : TriggerType

pub record TriggerConfig : Type 0 where
  pub type : TriggerType
  pub schedule_id : Option Ident
  pub event_pattern : Option String

pub record Workflow : Type 0 where
  pub id : Ident
  pub name : String
  pub description : Option String
  pub task_definitions : List TaskDefinition
  pub edges : List Edge
  pub trigger_config : TriggerConfig
  pub created_at : Instant
  pub updated_at : Instant

pub record SlaConfig : Type 0 where
  pub id : Ident
  pub workflow_id : Ident
  pub max_duration_ms : ℕ
  pub warning_threshold_pct : ℕ

pub record ExecutorHeartbeat : Type 0 where
  pub executor_id : Ident
  pub timestamp : Instant
  pub current_task_count : ℕ
  pub max_capacity : ℕ

pub record WebhookRegistration : Type 0 where
  pub id : Ident
  pub workflow_id : Ident
  pub secret : Option (List ℕ)
  pub active : Bool
  pub created_at : Instant
