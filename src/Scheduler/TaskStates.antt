-- ===== src/Scheduler/TaskStates.antt =====
-- services/scheduler-api/src/repositories/task-state-repository.ts: `findByExecutionId` and
-- `updateStatus`, row by row on the table `task_states`.
use Prim.Native.String.{String}
use mathlib.Core.Option
use task_orchestrator_engine.Prelude.{
  ◌+◌, ◌≡◌, refl, ◌∙◌, ap, Bool, true, false, ◌||◌, Option, none, some, List, [], ◌∷◌, keep, ◌==◌,
  arith,
}
use task_orchestrator_engine.Types.{
  Ident, Instant, Json, TaskState, TaskStatus, TaskStatus.pending, TaskStatus.running,
  TaskStatus.completed, TaskStatus.failed, TaskStatus.cancelled, TaskStatus.timed_out,
  TaskStatus.skipped,
}
use task_orchestrator_engine.Executor.World.{update_rows, find_row}
use task_orchestrator_engine.Executor.RetryHandler.Tables.{
  find_row-update_rows, others, others_kept,
}

-- `error || null`
abbrev pub text_or_null : Option String → Option String
text_or_null none = none
text_or_null (some String.[]) = none
text_or_null (some (String.◌∷◌ c s)) = some (String.◌∷◌ c s)

-- The columns that `updateStatus` sets for a status; a missing output or error is written as NULL.
unfoldable pub updated_row :
    TaskStatus → Instant → Option Json → Option String → TaskState → TaskState
updated_row running now output error row = record row {
  status = running;
  started_at = some now;
  attempt_count = row.attempt_count + 1;
}
updated_row completed now output error row = record row {
  status = completed;
  output = output;
  completed_at = some now;
}
updated_row failed now output error row = record row {
  status = failed;
  error = text_or_null error;
  completed_at = some now;
}
updated_row timed_out now output error row = record row {
  status = timed_out;
  error = text_or_null error;
  completed_at = some now;
}
updated_row status now output error row = record row { status = status }

-- `result.rowCount > 0`
unfoldable pub any_row : Ident → List TaskState → Bool
any_row id [] = false
any_row id (row ∷ rows) = row.id == id || any_row id rows

unfoldable pub update_status :
    Ident
    → TaskStatus
    → Option Json
    → Option String
    → Instant
    → List TaskState
    → Bool × List TaskState
unfolding updated_row any_row
update_status id status output error now rows =
    (any_row id rows, update_rows (updated_row status now output error) id rows)

unfoldable pub find_by_execution_id : Ident → List TaskState → List TaskState
find_by_execution_id id rows = keep (λ row. row.execution_id == id) rows

abbrev pub is_found : Option TaskState → Bool
is_found none = false
is_found (some _) = true

any_row_lem : (id : Ident) (rows : List TaskState) → any_row id rows ≡ is_found (find_row id rows)
unfolding any_row
any_row_lem id [] = refl
any_row_lem id (row ∷ rows) = ground (arith, any_row_lem id rows)

updated_row-id :
    (status : TaskStatus) (now : Instant) (output : Option Json) (error : Option String)
    (row : TaskState)
    → (updated_row status now output error row).id ≡ row.id
unfolding updated_row
updated_row-id pending now output error row = refl
updated_row-id running now output error row = refl
updated_row-id completed now output error row = refl
updated_row-id failed now output error row = refl
updated_row-id cancelled now output error row = refl
updated_row-id timed_out now output error row = refl
updated_row-id skipped now output error row = refl

updated_row-status :
    (status : TaskStatus) (now : Instant) (output : Option Json) (error : Option String)
    (row : TaskState)
    → (updated_row status now output error row).status ≡ status
unfolding updated_row
updated_row-status pending now output error row = refl
updated_row-status running now output error row = refl
updated_row-status completed now output error row = refl
updated_row-status failed now output error row = refl
updated_row-status cancelled now output error row = refl
updated_row-status timed_out now output error row = refl
updated_row-status skipped now output error row = refl

-- An update of a task's status answers whether there is such a row. The row has the new status,
-- whatever its status was, and every other row is as it was.
pub update_status-decides :
    (id : Ident) (status : TaskStatus) (output : Option Json) (error : Option String)
    (now : Instant) (rows : List TaskState)
    → let (found, after) = update_status id status output error now rows in
      (found ≡ is_found (find_row id rows))
      × (Option.map (λ row. row.status) (find_row id after)
          ≡ Option.map (λ _. status) (find_row id rows))
      × (others id after ≡ others id rows)
unfolding update_status
update_status-decides id status output error now rows =
    let change = updated_row status now output error in
    let keeps = updated_row-id status now output error in
    (
      any_row_lem id rows,
      ap (Option.map (λ row. row.status)) (find_row-update_rows change id rows keeps)
          ∙ go (find_row id rows),
      others_kept change id rows (update_rows change id rows) keeps refl,
    )
  where
    go :
        (o : Option TaskState)
        → Option.map (λ row. row.status) (Option.map (updated_row status now output error) o)
          ≡ Option.map (λ _. status) o
    go none = refl
    go (some row) = ap some (updated_row-status status now output error row)
