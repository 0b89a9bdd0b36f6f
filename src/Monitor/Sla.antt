-- ===== src/Monitor/Sla.antt =====
-- sla-checker.ts, with the alerts that alert-manager.ts stores; an alert's message follows from
-- its other fields. The thresholds are compared without the subtraction and the division.
pub mod Once
use task_orchestrator_engine.Prelude.{
  ℕ, zero, suc, ◌+◌, ◌-◌, ◌*◌, Bool, true, false, not, ◌&&◌, Option, none, some, List, [], ◌∷◌,
  ◌++◌, map, keep, elem, leb, ◌==◌, if◌then◌else◌, put,
}
use task_orchestrator_engine.Types.{
  Ident, Instant, SlaConfig, Execution, ExecutionStatus, ExecutionStatus.running,
}
use task_orchestrator_engine.Types

pub data Severity : Type 0 where
  warning critical : Severity

pub record Alert : Type 0 where
  pub execution_id : Ident
  pub workflow_id : Ident
  pub severity : Severity
  pub elapsed_ms : ℕ
  pub sla_limit_ms : ℕ

-- The set of the severities that an execution was alerted with.
pub record Alerted : Type 0 where
  pub has_warning : Bool
  pub has_critical : Bool

-- The checker's map, and the alerts created so far, oldest first.
pub record SlaChecker : Type 0 where
  pub alerted_executions : Ident → Option Alerted
  pub alerts : List Alert

abbrev pub alerted_set : Option Alerted → Alerted
alerted_set none = record { has_warning = false; has_critical = false }
alerted_set (some a) = a

-- `alertedSet.add`
abbrev pub add : Severity → Alerted → Alerted
add warning set = record set { has_warning = true }
add critical set = record set { has_critical = true }

-- `slaByWorkflow.get`: the last configuration of a workflow.
unfoldable pub sla_of : Ident → List SlaConfig → Option SlaConfig
sla_of workflow [] = none
sla_of workflow (c ∷ cs) = elim (sla_of workflow cs) [
  | some later ↦ some later
  | none ↦ if c.workflow_id == workflow then some c else none
]

-- A row of the query.
pub record Running : Type 0 where
  pub id : Ident
  pub workflow_id : Ident
  pub started_at : Instant

abbrev pub is_running : ExecutionStatus → Bool
is_running running = true
is_running _ = false

abbrev pub running_row : Execution → Option Instant → List Running
running_row e none = []
running_row e (some started) =
    record { id = e.id; workflow_id = e.workflow_id; started_at = started } ∷ []

-- The query: the running executions that have started, of the workflows with a configuration.
unfoldable pub running_executions : List SlaConfig → List Execution → List Running
running_executions configs [] = []
running_executions configs (e ∷ es) =
    (if is_running e.status && elem e.workflow_id (map (λ c. c.workflow_id) configs)
      then running_row e e.started_at
      else [])
    ++ running_executions configs es

abbrev pub alert_of : Running → SlaConfig → Severity → Instant → Alert
alert_of row sla severity now = record {
  execution_id = row.id;
  workflow_id = row.workflow_id;
  severity = severity;
  elapsed_ms = now - row.started_at;
  sla_limit_ms = sla.max_duration_ms;
}

-- An alert is created, and its severity enters the execution's set.
abbrev pub raise : Alert → Alerted → SlaChecker → SlaChecker
raise alert set s = record {
  alerted_executions = put s.alerted_executions alert.execution_id (some (add alert.severity set));
  alerts = s.alerts ++ alert ∷ [];
}

abbrev pub is_over : Running → SlaConfig → Instant → Bool
is_over row sla now = leb (row.started_at + sla.max_duration_ms) now

abbrev pub is_near : Running → SlaConfig → Instant → Bool
is_near row sla now =
    leb (100 * row.started_at + sla.max_duration_ms * sla.warning_threshold_pct) (100 * now)

unfoldable pub check_sla : Instant → Running → SlaConfig → SlaChecker → SlaChecker
check_sla now row sla s =
    let set = alerted_set (s.alerted_executions row.id) in
    if is_over row sla now && not set.has_critical
    then raise (alert_of row sla critical now) set s
    else if is_near row sla now && not set.has_warning
    then raise (alert_of row sla warning now) set s
    else s

unfoldable pub check_row : Instant → Running → Option SlaConfig → SlaChecker → SlaChecker
unfolding check_sla
check_row now row none s = s
check_row now row (some sla) s = check_sla now row sla s

unfoldable pub check_rows : Instant → List SlaConfig → List Running → SlaChecker → SlaChecker
unfolding check_row sla_of
check_rows now configs [] s = s
check_rows now configs (r ∷ rs) s =
    check_rows now configs rs (check_row now r (sla_of r.workflow_id configs) s)

abbrev pub cleaned : List Ident → (Ident → Option Alerted) → Ident → Option Alerted
cleaned active m x = if elem x active then m x else none

unfoldable pub cleanup_completed_executions : List Ident → SlaChecker → SlaChecker
cleanup_completed_executions active s = record s {
  alerted_executions = cleaned active s.alerted_executions;
}

-- One run of the timer's callback.
unfoldable pub check : Instant → List SlaConfig → List Execution → SlaChecker → SlaChecker
unfolding running_executions check_rows cleanup_completed_executions
check now [] executions s = s
check now (c ∷ cs) executions s =
    let rows = running_executions (c ∷ cs) executions in
    cleanup_completed_executions (map (λ r. r.id) rows) (check_rows now (c ∷ cs) rows s)

unfoldable pub stop : SlaChecker → SlaChecker
stop s = record s { alerted_executions = λ _. none }
