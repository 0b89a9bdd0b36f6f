-- ===== src/Executor/Runner/Branches.antt =====
-- The branches of a run: the row, the dead letters, the queue and the claimer behind each.
use Prim.Native.String.{String}
use task_orchestrator_engine.Prelude.{
  ℕ, ◌+◌, ◌<◌, ◌≡◌, refl, ap, ◌∙◌, ◌⊎◌, inl, inr, ◌≢◌, Option, none, some, true, false, List, [],
  ◌∷◌, ◌++◌, arith, ltb, Bool-cases,
}
use task_orchestrator_engine.Types.{
  Ident, Instant, TaskDefinition, TaskState, TaskStatus, TaskStatus.pending, TaskStatus.running,
  TaskStatus.completed, TaskStatus.failed, TaskStatus.cancelled, TaskStatus.timed_out,
  TaskStatus.skipped,
}
use task_orchestrator_engine.StateMachine.{
  transition, TransitionAuditEntry, TransitionError, TransitionResult.success,
  TransitionResult.failure,
}
use task_orchestrator_engine.Redis.Server.{Server}
use task_orchestrator_engine.Redis.TaskQueue.Flow.{waiting}
use task_orchestrator_engine.Executor.World.{World, update_rows, find_row}
use task_orchestrator_engine.Executor.Claimer.{
  release_current_task, clear_current_task, is_current_task_aborted,
}
use task_orchestrator_engine.Executor.RetryHandler.{
  Turn, dead_letter, update_table, fire, handle_failure,
}
use task_orchestrator_engine.Executor.RetryHandler.Tables.{
  row_updated, others, others_kept, release_current_task-Same, release_current_task-frees,
  fire-Same,
}
use task_orchestrator_engine.Executor.RetryHandler.Outcome.{
  Ending, not_retried, exhausted, queued_again, dropped, handle_failure-decides,
}
use task_orchestrator_engine.Executor.Tasks.{Host, Output, TaskResult, TaskResult.erred}
use task_orchestrator_engine.Executor.Runner.{
  attempt, Run, settled, timeout_error, race, written_row, timeout_or_default, handle_timeout,
  handle_success, finish, run,
}

-- Whether the task settles before its time is over.
abbrev pub InTime : Option ℕ → ℕ → Type 0
InTime none timeout_ms = ⊥
InTime (some duration) timeout_ms = duration < timeout_ms

pub race-decides :
    (duration : Option ℕ) (timeout_ms : ℕ) (result : TaskResult)
    → ((race duration timeout_ms result ≡ settled result) × InTime duration timeout_ms)
      ⊎ ((race duration timeout_ms result ≡ timeout_error) × ¬ InTime duration timeout_ms)
unfolding race
race-decides none timeout_ms result = inr (refl, λ h. h)
race-decides (some d) timeout_ms result = elim (Bool-cases (ltb d timeout_ms)) [
  | inl h ↦ inl (rw h refl, ground (arith, h))
  | inr h ↦ inr (rw h refl, λ lt. ground (arith, h, lt))
]

-- Only a pending task may start.
pub transition-pending :
    (s : TaskStatus) (id : Ident) (now : Instant)
    → ((s ≡ pending)
        × ((entry : TransitionAuditEntry) × (transition s running id now ≡ success entry)))
      ⊎ ((s ≢ pending)
          × ((error : TransitionError) × (transition s running id now ≡ failure error)))
unfolding transition
transition-pending pending id now = inl (refl, (_, refl))
transition-pending running id now = inr ((λ e. cc), (_, refl))
transition-pending completed id now = inr ((λ e. cc), (_, refl))
transition-pending failed id now = inr ((λ e. cc), (_, refl))
transition-pending cancelled id now = inr ((λ e. cc), (_, refl))
transition-pending timed_out id now = inr ((λ e. cc), (_, refl))
transition-pending skipped id now = inr ((λ e. cc), (_, refl))

module _ (redis : Server) (executor_id : Ident) (lock_ttl_ms : ℕ) (host : Host) where
  -- The row once the task runs.
  abbrev pub running_row : Run → TaskState → TaskState
  running_row r row = written_row running r.started none none row

  -- The worlds in which the abort flag is looked at: before the execution and behind it.
  abbrev pub first_look : TaskState → Run → World redis → World redis
  first_look state r w =
      fire redis executor_id lock_ttl_ms r.renewals_before
        (update_table redis executor_id lock_ttl_ms (running_row r) state.id w)

  abbrev pub second_look : TaskState → Run → World redis → World redis
  second_look state r w =
      fire redis executor_id lock_ttl_ms r.renewals_during (first_look state r w)

  -- The flag is up at the first look, or behind an execution in time at the second.
  abbrev pub SeesAbort : TaskState → TaskDefinition → Run → World redis → Type 0
  SeesAbort state definition r w =
      (is_current_task_aborted (first_look state r w) ≡ true)
      ⊎ (InTime r.duration (timeout_or_default definition.timeout_ms)
          × (is_current_task_aborted (second_look state r w) ≡ true))

  -- The flag is down at both looks.
  abbrev pub SeesNone : TaskState → Run → World redis → Type 0
  SeesNone state r w =
      (is_current_task_aborted (first_look state r w) ≡ false)
      × (is_current_task_aborted (second_look state r w) ≡ false)

  -- The ends of `run` for a task with a row.
  pub data RunEnding (state : TaskState) (definition : TaskDefinition) (r : Run) (row : TaskState)
      (w v : World redis) : Type 0 where
    refused :
        state.status ≢ pending
        → find_row state.id v.task_states ≡ some row
        → v.dead_letters ≡ w.dead_letters
        → waiting redis v.store ≡ waiting redis w.store
        → RunEnding state definition r row w v
    aborted :
        state.status ≡ pending
        → SeesAbort state definition r w
        → find_row state.id v.task_states ≡ some (running_row r row)
        → v.dead_letters ≡ w.dead_letters
        → waiting redis v.store ≡ waiting redis w.store
        → RunEnding state definition r row w v
    out_of_time :
        state.status ≡ pending
        → is_current_task_aborted (first_look state r w) ≡ false
        → ¬ InTime r.duration (timeout_or_default definition.timeout_ms)
        → find_row state.id v.task_states
          ≡ some (written_row timed_out r.ended none (some "Task timed out") (running_row r row))
        → v.dead_letters ≡ w.dead_letters
        → waiting redis v.store ≡ waiting redis w.store
        → RunEnding state definition r row w v
    done :
        (output : Output)
        → state.status ≡ pending
        → SeesNone state r w
        → InTime r.duration (timeout_or_default definition.timeout_ms)
        → attempt host definition r.started ≡ TaskResult.succeeded output
        → find_row state.id v.task_states
          ≡ some
              (written_row completed r.ended (some (host.printed output)) none (running_row r row))
        → v.dead_letters ≡ w.dead_letters
        → waiting redis v.store ≡ waiting redis w.store
        → RunEnding state definition r row w v
    unsuccessful :
        (error : String)
        → state.status ≡ pending
        → SeesNone state r w
        → InTime r.duration (timeout_or_default definition.timeout_ms)
        → attempt host definition r.started ≡ erred error
        → Ending redis executor_id lock_ttl_ms state definition
            (some error)
            r.ended
            r.turns
            (second_look state r w)
            (running_row r row)
            w
            v
        → RunEnding state definition r row w v

  -- What every end has in common: the claimer is free, and the other rows are as they were.
  abbrev pub Free : TaskState → World redis → World redis → Type 0
  Free state w v =
      (v.claimer.current_task ≡ none)
      × (others state.id v.task_states ≡ others state.id w.task_states)

  -- A change of one row, and a release of the task.
  changed_and_released :
      (change : TaskState → TaskState) (state : TaskState) (w : World redis) (row : TaskState)
      → ((row : TaskState) → (change row).id ≡ row.id)
      → find_row state.id w.task_states ≡ some row
      → let v =
          release_current_task redis executor_id lock_ttl_ms
            (update_table redis executor_id lock_ttl_ms change state.id w) in
        Free state w v
        × (find_row state.id v.task_states ≡ some (change row))
        × (v.dead_letters ≡ w.dead_letters)
        × (waiting redis v.store ≡ waiting redis w.store)
  unfolding update_table
  changed_and_released change state w row keeps h =
      let w' = update_table redis executor_id lock_ttl_ms change state.id w in
      let same = release_current_task-Same redis executor_id lock_ttl_ms w' in
      (
        (
          release_current_task-frees redis executor_id lock_ttl_ms w',
          others_kept change state.id w.task_states _ keeps same.rows,
        ),
        row_updated change state.id w.task_states _ row keeps same.rows h,
        same.dead,
        same.queue,
      )

  -- An end is judged by the dead letters and the queue before the run.
  Ending-before :
      (state : TaskState) (definition : TaskDefinition) (error : Option String) (now : Instant)
      (turns : List Turn) (start : World redis) (row : TaskState) (u w v : World redis)
      → u.dead_letters ≡ w.dead_letters
      → waiting redis u.store ≡ waiting redis w.store
      → Ending redis executor_id lock_ttl_ms state definition error now turns start row u v
      → Ending redis executor_id lock_ttl_ms state definition error now turns start row w v
  Ending-before state definition error now turns start row u w v d q (not_retried p r dead queue) =
      not_retried p r (dead ∙ d) (queue ∙ q)
  Ending-before state definition error now turns start row u w v d q
        (exhausted policy p le r dead queue) =
      exhausted policy p le r
        (dead ∙ ap (λ l. l ++ dead_letter state error (state.attempt_count + 1) ∷ []) d) (queue ∙ q)
  Ending-before state definition error now turns start row u w v d q
        (queued_again policy p lt f r dead queue) =
      queued_again policy p lt f r (dead ∙ d) (queue ∙ ap (λ l. l ++ state.id ∷ []) q)
  Ending-before state definition error now turns start row u w v d q
        (dropped policy p lt f r dead queue) =
      dropped policy p lt f r (dead ∙ d) (queue ∙ q)

  -- The tables and the queue of `u` are those of `w` with the row of the running task.
  pub record Running (state : TaskState) (r : Run) (w u : World redis) : Type 0 where
    pub rows : u.task_states ≡ update_rows (running_row r) state.id w.task_states
    pub dead : u.dead_letters ≡ w.dead_letters
    pub queue : waiting redis u.store ≡ waiting redis w.store

  pub Running-fire :
      (state : TaskState) (r : Run) (n : ℕ) (w u : World redis)
      → Running state r w u
      → Running state r w (fire redis executor_id lock_ttl_ms n u)
  Running-fire state r n w u run =
      let same = fire-Same redis executor_id lock_ttl_ms n u in
      record {
        rows = same.rows ∙ run.rows;
        dead = same.dead ∙ run.dead;
        queue = same.queue ∙ run.queue;
      }

  Running-row :
      (state : TaskState) (r : Run) (w u : World redis) (row : TaskState)
      → find_row state.id w.task_states ≡ some row
      → Running state r w u
      → find_row state.id u.task_states ≡ some (running_row r row)
  Running-row state r w u row h run =
      row_updated (running_row r) state.id w.task_states u.task_states row (λ _. refl) run.rows h

  Running-others :
      (state : TaskState) (r : Run) (w u v : World redis)
      → Running state r w u
      → Free state u v
      → Free state w v
  Running-others state r w u v run (free, kept) = (
    free,
    kept ∙ others_kept (running_row r) state.id w.task_states u.task_states (λ _. refl) run.rows,
  )

  -- The abort flag is set: the claimer drops the task.
  pub aborted-Ending :
      (state : TaskState) (definition : TaskDefinition) (r : Run) (w u : World redis)
      (row : TaskState)
      → state.status ≡ pending
      → find_row state.id w.task_states ≡ some row
      → SeesAbort state definition r w
      → Running state r w u
      → let v = clear_current_task redis executor_id lock_ttl_ms u in
        Free state w v × RunEnding state definition r row w v
  unfolding clear_current_task
  aborted-Ending state definition r w u row p h seen run = (
    (refl, others_kept (running_row r) state.id w.task_states u.task_states (λ _. refl) run.rows),
    aborted p seen (Running-row state r w u row h run) run.dead run.queue,
  )

  pub timeout-Ending :
      (state : TaskState) (definition : TaskDefinition) (r : Run) (w u : World redis)
      (row : TaskState)
      → state.status ≡ pending
      → find_row state.id w.task_states ≡ some row
      → is_current_task_aborted (first_look state r w) ≡ false
      → Running state r w u
      → ¬ InTime r.duration (timeout_or_default definition.timeout_ms)
      → let v = handle_timeout redis executor_id lock_ttl_ms host state r.ended u in
        Free state w v × RunEnding state definition r row w v
  unfolding handle_timeout transition update_table
  timeout-Ending state definition r w u row p h unseen run late =
      let (free, row', dead, queue) =
        changed_and_released (written_row timed_out r.ended none (some "Task timed out")) state u
          (running_row r row) (λ _. refl) (Running-row state r w u row h run) in
      (
        Running-others state r w u
            (handle_timeout redis executor_id lock_ttl_ms host state r.ended u) run free,
        out_of_time p unseen late row' (dead ∙ run.dead) (queue ∙ run.queue),
      )

  pub finish-Ending :
      (state : TaskState) (definition : TaskDefinition) (r : Run) (result : TaskResult)
      (w : World redis) (row : TaskState)
      → state.status ≡ pending
      → find_row state.id w.task_states ≡ some row
      → SeesNone state r w
      → Running state r w (second_look state r w)
      → InTime r.duration (timeout_or_default definition.timeout_ms)
      → attempt host definition r.started ≡ result
      → let u = second_look state r w in
        let v = finish redis executor_id lock_ttl_ms host state definition r result u in
        Free state w v × RunEnding state definition r row w v
  unfolding finish handle_success transition update_table
  finish-Ending state definition r (TaskResult.succeeded output) w row p h unseen run soon e =
      let u = second_look state r w in
      let (free, row', dead, queue) =
        changed_and_released (written_row completed r.ended (some (host.printed output)) none) state
          u (running_row r row) (λ _. refl) (Running-row state r w u row h run) in
      (
        Running-others state r w u
            (handle_success redis executor_id lock_ttl_ms host state (host.printed output) r.ended
              u)
            run free,
        done output p unseen soon e row' (dead ∙ run.dead) (queue ∙ run.queue),
      )
  finish-Ending state definition r (erred error) w row p h unseen run soon e =
      let u = second_look state r w in
      let (free, kept, end) =
        handle_failure-decides redis executor_id lock_ttl_ms state definition (some error) r.ended
          r.turns u (running_row r row) (Running-row state r w u row h run) in
      (
        Running-others state r w u
            (handle_failure redis executor_id lock_ttl_ms state definition (some error) r.ended
              r.turns u)
            run (free, kept),
        unsuccessful error p unseen soon e (
            Ending-before state definition (some error) r.ended r.turns u (running_row r row) u w
              (handle_failure redis executor_id lock_ttl_ms state definition (some error) r.ended
                r.turns u)
              run.dead run.queue end),
      )
