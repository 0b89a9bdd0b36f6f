-- ===== src/Executor/World.antt =====
-- What an executor reads and writes: the Redis store, the tables `task_states` and
-- `dead_letter_queue`, and the claimer's variables. The SQL statements are translated row by row.
use Prim.Native.String.{String}
use task_orchestrator_engine.Prelude.{
  ℕ, Bool, Option, none, some, List, [], ◌∷◌, ◌==◌, if◌then◌else◌,
}
use task_orchestrator_engine.Types.{Ident, TaskState}
use task_orchestrator_engine.Redis.Server.{Server}

-- `ClaimedTask`; of the handle of the renewal timer, whether the timer still runs.
pub record ClaimedTask : Type 0 where
  pub task_state_id : Ident
  pub aborted : Bool
  pub renewing : Bool

-- The fields of `TaskClaimer` that change.
pub record TaskClaimer : Type 0 where
  pub is_running : Bool
  pub current_task : Option ClaimedTask

-- A row of `dead_letter_queue`.
pub record DeadLetter : Type 0 where
  pub task_state_id : Ident
  pub execution_id : Ident
  pub error : String
  pub attempts : ℕ

pub record World (redis : Server) : Type 0 where
  pub store : redis.Store
  pub task_states : List TaskState
  pub dead_letters : List DeadLetter
  pub claimer : TaskClaimer

-- `UPDATE task_states SET … WHERE id = $1`.
abbrev pub update_rows : (TaskState → TaskState) → Ident → List TaskState → List TaskState
update_rows change id [] = []
update_rows change id (row ∷ rows) =
    (if row.id == id then change row else row) ∷ update_rows change id rows

-- The row with an id, if there is one.
abbrev pub find_row : Ident → List TaskState → Option TaskState
find_row id [] = none
find_row id (row ∷ rows) = if row.id == id then some row else find_row id rows

abbrev pub or_else {ℓ} : {A : Type ℓ} → Option A → Option A → Option A
or_else (some a) old = some a
or_else none old = old
