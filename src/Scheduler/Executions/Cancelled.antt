-- ===== src/Scheduler/Executions/Cancelled.antt =====
-- What the cancellation of an execution writes to the tables.
use task_orchestrator_engine.Prelude.{
  ℕ, ◌≡◌, refl, ap, ◌∙◌, inl, inr, Bool, true, false, ◌&&◌, ◌||◌, Option, none, some, List, [], ◌∷◌,
  map, keep, any_of, ◌==◌, arith, Bool-cases, if◌then◌else◌,
}
use task_orchestrator_engine.Types.{
  Ident, Instant, Execution, ExecutionStatus, TaskState, TaskStatus,
}
use task_orchestrator_engine.Scheduler.Tables.{Database}
use task_orchestrator_engine.Scheduler.TaskStates.{find_by_execution_id, update_status, updated_row}
use task_orchestrator_engine.Scheduler.Executions.{
  update_execution, set_status, find_execution, Answer, cancelled, execution_not_found,
  already_ended, is_ended, is_pending, cancel_states, cancel_found, cancel,
}

-- No two rows have one id.
abbrev pub HasUniqueIds : List TaskState → Type 0
HasUniqueIds [] = Unit
HasUniqueIds (r ∷ rs) = (any_of (λ s. s.id == r.id) rs ≡ false) × HasUniqueIds rs

abbrev pub cancelled_row : TaskState → TaskState
cancelled_row r = record r { status = TaskStatus.cancelled }

abbrev cancel_if : Bool → TaskState → TaskState
cancel_if b r = if b then cancelled_row r else r

-- A pending row with the id stands in a list.
abbrev named : List TaskState → Ident → Bool
named ss id = any_of (λ s. is_pending s.status && s.id == id) ss

one_update :
    (id : Ident) (now : Instant) (rows : List TaskState)
    → (update_status id TaskStatus.cancelled none none now rows).1
      ≡ map (λ r. cancel_if (r.id == id) r) rows
unfolding update_status updated_row
one_update id now [] = refl
one_update id now (r ∷ rows) = ap (λ l. cancel_if (r.id == id) r ∷ l) (one_update id now rows)

==_sym : (a b : ℕ) → (a == b) ≡ (b == a)
==_sym a b = ground arith

cancel_twice : (b : Bool) (r : TaskState) → cancel_if b (cancel_if true r) ≡ cancel_if true r
cancel_twice true r = refl
cancel_twice false r = refl

-- A row that one update may have cancelled, after the updates for the other rows.
cancel_both : (b c : Bool) (r : TaskState) → cancel_if b (cancel_if c r) ≡ cancel_if (c || b) r
cancel_both b true r = cancel_twice b r
cancel_both b false r = refl

id_kept : (b : Bool) (r : TaskState) → (cancel_if b r).id ≡ r.id
id_kept true r = refl
id_kept false r = refl

named_again :
    (s r : TaskState) (ss : List TaskState)
    → is_pending s.status ≡ true
    → cancel_if (named ss (cancel_if (r.id == s.id) r).id) (cancel_if (r.id == s.id) r)
      ≡ cancel_if (named (s ∷ ss) r.id) r
named_again s r ss h =
    (λ i. cancel_if (named ss (id_kept (r.id == s.id) r i)) (cancel_if (r.id == s.id) r))
    ∙ cancel_both (named ss r.id) (r.id == s.id) r
    ∙ (λ i. cancel_if (same i || named ss r.id) r)
  where
    same : (r.id == s.id) ≡ (is_pending s.status && s.id == r.id)
    same = rw h (==_sym r.id s.id)

map_again :
    (s : TaskState) (ss rows : List TaskState)
    → is_pending s.status ≡ true
    → map (λ r. cancel_if (named ss r.id) r) (map (λ r. cancel_if (r.id == s.id) r) rows)
      ≡ map (λ r. cancel_if (named (s ∷ ss) r.id) r) rows
map_again s ss [] h = refl
map_again s ss (r ∷ rows) h = λ i. named_again s r ss h i ∷ map_again s ss rows h i

none_named : (rows : List TaskState) → rows ≡ map (λ r. cancel_if false r) rows
none_named [] = refl
none_named (r ∷ rows) = ap (λ l. r ∷ l) (none_named rows)

not_pending_again :
    (s r : TaskState) (ss : List TaskState)
    → is_pending s.status ≡ false
    → cancel_if (named ss r.id) r ≡ cancel_if (named (s ∷ ss) r.id) r
not_pending_again s r ss h = rw h refl

map_not_pending :
    (s : TaskState) (ss rows : List TaskState)
    → is_pending s.status ≡ false
    → map (λ r. cancel_if (named ss r.id) r) rows
      ≡ map (λ r. cancel_if (named (s ∷ ss) r.id) r) rows
map_not_pending s ss [] h = refl
map_not_pending s ss (r ∷ rows) h =
    λ i. not_pending_again s r ss h i ∷ map_not_pending s ss rows h i

cancel_states_lem :
    (ss : List TaskState) (now : Instant) (rows : List TaskState)
    → cancel_states ss now rows ≡ map (λ r. cancel_if (named ss r.id) r) rows
unfolding cancel_states
cancel_states_lem [] now rows = none_named rows
cancel_states_lem (s ∷ ss) now rows = elim (Bool-cases (is_pending s.status)) [
  | inl h ↦ picked _ true h (
      cancel_states_lem ss now (update_status s.id TaskStatus.cancelled none none now rows).1
      ∙ ap (map (λ r. cancel_if (named ss r.id) r)) (one_update s.id now rows)
      ∙ map_again s ss rows h)
  | inr h ↦ picked _ false h (cancel_states_lem ss now rows ∙ map_not_pending s ss rows h)
]
  where
    picked :
        (goal_rows : List TaskState) (b : Bool)
        → is_pending s.status ≡ b
        → (if b
            then cancel_states ss now (update_status s.id TaskStatus.cancelled none none now rows).1
            else cancel_states ss now rows)
          ≡ goal_rows
        → (if is_pending s.status
            then cancel_states ss now (update_status s.id TaskStatus.cancelled none none now rows).1
            else cancel_states ss now rows)
          ≡ goal_rows
    picked goal_rows b h p = rw h p

-- Which ids are named, row by row.
abbrev Agrees : (Ident → Bool) → (TaskState → Bool) → List TaskState → Type 0
Agrees f g [] = Unit
Agrees f g (r ∷ rs) = (f r.id ≡ g r) × Agrees f g rs

agreed :
    (f : Ident → Bool) (g : TaskState → Bool) (rows : List TaskState)
    → Agrees f g rows
    → map (λ r. cancel_if (f r.id) r) rows ≡ map (λ r. cancel_if (g r) r) rows
agreed f g [] a = refl
agreed f g (r ∷ rs) a = λ i. cancel_if (a.0 i) r ∷ agreed f g rs a.1 i

-- A pending task of the execution.
abbrev pub is_due : Ident → TaskState → Bool
is_due id r = r.execution_id == id && is_pending r.status

elsewhere :
    (id : Ident) (r : TaskState) (rs sub : List TaskState)
    → any_of (λ s. s.id == r.id) sub ≡ false
    → Agrees (named (keep (λ s. s.execution_id == id) rs)) (is_due id) sub
    → Agrees (named (keep (λ s. s.execution_id == id) (r ∷ rs))) (is_due id) sub
elsewhere id r rs [] h a = a
elsewhere id r rs (t ∷ sub) h a = (ground (arith, a.0), elsewhere id r rs sub (ground arith) a.1)

not_named :
    (id i : Ident) (rs : List TaskState)
    → any_of (λ s. s.id == i) rs ≡ false
    → named (keep (λ s. s.execution_id == id) rs) i ≡ false
not_named id i [] h = refl
not_named id i (r ∷ rs) h = ground (arith, not_named id i rs)

named_once :
    (id : Ident) (rows : List TaskState)
    → HasUniqueIds rows
    → Agrees (named (keep (λ s. s.execution_id == id) rows)) (is_due id) rows
named_once id [] u = _
named_once id (r ∷ rs) u =
    (ground (arith, not_named id r.id rs u.0), elsewhere id r rs rs u.0 (named_once id rs u.1))

-- The execution's row after a cancellation.
abbrev pub ended_row : Ident → Instant → Execution → Execution
ended_row id now e = if e.id == id then set_status ExecutionStatus.cancelled now e else e

-- What a cancellation does: nothing for an unknown execution or one that has ended.
pub data IsCancelled (id : Ident) (now : Instant) (db : Database) : Answer × Database → Type 0 where
  unknown :
      find_execution id db.executions ≡ none → IsCancelled id now db (execution_not_found id, db)
  ended :
      (e : Execution)
      → find_execution id db.executions ≡ some e
      → is_ended e.status ≡ true
      → IsCancelled id now db (already_ended e.status, db)
  stopped :
      {db' : Database} (e : Execution)
      → find_execution id db.executions ≡ some e
      → is_ended e.status ≡ false
      → db'.executions ≡ map (ended_row id now) db.executions
      → db'.task_states ≡ map (λ r. if is_due id r then cancelled_row r else r) db.task_states
      → IsCancelled id now db (cancelled id, db')

module _ (id : Ident) (now : Instant) (db : Database) (unique : HasUniqueIds db.task_states) where
  states_lem :
      cancel_states (find_by_execution_id id db.task_states) now db.task_states
      ≡ map (λ r. if is_due id r then cancelled_row r else r) db.task_states
  unfolding find_by_execution_id
  states_lem =
      cancel_states_lem (keep (λ s. s.execution_id == id) db.task_states) now db.task_states
      ∙ agreed (named (keep (λ s. s.execution_id == id) db.task_states)) (is_due id) db.task_states
          (named_once id db.task_states unique)

  found-IsCancelled :
      (o : Option Execution)
      → find_execution id db.executions ≡ o
      → IsCancelled id now db (cancel_found id now o db)
  unfolding update_execution
  found-IsCancelled none e = unknown e
  found-IsCancelled (some x) e = elim (Bool-cases (is_ended x.status)) [
    | inl h ↦ rw h (ended x e h)
    | inr h ↦ rw h (stopped x e h refl states_lem)
  ]

  -- Where no two task states have one id, a cancellation of an unknown execution or of one that has
  -- ended changes nothing; of another one it sets the execution's row to cancelled, and every pending
  -- task of it, and no other row.
  pub cancel-IsCancelled : IsCancelled id now db (cancel id now db)
  unfolding cancel
  cancel-IsCancelled = found-IsCancelled (find_execution id db.executions) refl
