-- ===== src/Executor/RetryHandler/Outcome.antt =====
-- What becomes of a task that failed: the row, the dead letters, the queue and the claimer.
use Prim.Native.String.{String}
use task_orchestrator_engine.Prelude.{
  ℕ, ◌+◌, ◌≤◌, ◌<◌, ◌≡◌, refl, ap, ◌∙◌, ◌⊎◌, inl, inr, true, false, Option, none, some, List, [],
  ◌∷◌, ◌++◌, arith, ltb, Bool-cases,
}
use task_orchestrator_engine.Types.{Ident, Instant, RetryPolicy, TaskDefinition, TaskState}
use task_orchestrator_engine.StateMachine.{transition}
use task_orchestrator_engine.Retry.{calculate_retry_delay, should_retry}
use task_orchestrator_engine.Redis.Server.{Server}
use task_orchestrator_engine.Redis.TaskQueue.Flow.{waiting, waiting-enqueue}
use task_orchestrator_engine.Executor.World.{World, update_rows, find_row}
use task_orchestrator_engine.Executor.Claimer.{
  release_current_task, clear_current_task, is_current_task_aborted,
}
use task_orchestrator_engine.Executor.RetryHandler.{
  Turn, dead_letter, failed_row, count_row, pending_row, update_table, transition_to_failed,
  insert_into_dlq, wait_with_lock_renewal, after_wait, give_up, retry_or_fail, handle_by,
  handle_failure,
}
use task_orchestrator_engine.Executor.RetryHandler.Tables.{
  row_updated, others, others_kept, release_current_task-Same, release_current_task-frees,
  wait-Same,
}

module _ (redis : Server) (executor_id : Ident) (lock_ttl_ms : ℕ) where
  -- A failure without a retry: the row says so, and the claimer is free.
  give_up_lem :
      (state : TaskState) (error : Option String) (now : Instant) (w : World redis)
      → let v = give_up redis executor_id lock_ttl_ms state error now w in
        (v.claimer.current_task ≡ none)
        × (v.task_states ≡ update_rows (failed_row now error) state.id w.task_states)
        × (v.dead_letters ≡ w.dead_letters)
        × (waiting redis v.store ≡ waiting redis w.store)
  unfolding give_up transition_to_failed update_table transition
  give_up_lem state error now w =
      let w' = record w {
        task_states = update_rows (failed_row now error) state.id w.task_states;
      } in
      let same = release_current_task-Same redis executor_id lock_ttl_ms w' in
      (
        release_current_task-frees redis executor_id lock_ttl_ms w',
        same.rows,
        same.dead,
        same.queue,
      )

  -- A retry: the task waits again, behind all others, unless the lock was lost.
  after_wait_lem :
      (state : TaskState) (error : Option String) (w : World redis)
      → let v = after_wait redis executor_id lock_ttl_ms state error w in
        (v.claimer.current_task ≡ none)
        × (v.dead_letters ≡ w.dead_letters)
        × (((v.task_states ≡ update_rows (pending_row error) state.id w.task_states)
              × (waiting redis v.store ≡ waiting redis w.store ++ state.id ∷ [])
              × (is_current_task_aborted w ≡ false))
            ⊎ ((is_current_task_aborted w ≡ true)
                × (v.task_states ≡ w.task_states)
                × (waiting redis v.store ≡ waiting redis w.store)))
  unfolding after_wait update_table clear_current_task
  after_wait_lem state error w =
      let w' = record w { task_states = update_rows (pending_row error) state.id w.task_states } in
      let same = release_current_task-Same redis executor_id lock_ttl_ms w' in
      let end = release_current_task redis executor_id lock_ttl_ms w' in
      elim (Bool-cases (is_current_task_aborted w)) [
        | inl h ↦ rw h (refl, refl, inr (refl, refl, refl))
        | inr h ↦ rw h (
          release_current_task-frees redis executor_id lock_ttl_ms w',
          same.dead,
          inl (
            same.rows,
            waiting-enqueue redis state.id end.store ∙ ap (λ l. l ++ state.id ∷ []) same.queue,
            refl,
          ),
        )
      ]

  -- The world behind the wait for a retry, in which the abort flag is looked at.
  abbrev pub behind_wait : RetryPolicy → TaskState → List Turn → World redis → World redis
  behind_wait policy state turns w =
      wait_with_lock_renewal redis executor_id lock_ttl_ms state.id
        (calculate_retry_delay policy (state.attempt_count + 1)) turns
        (update_table redis executor_id lock_ttl_ms (count_row (state.attempt_count + 1)) state.id
          w)

  -- The ends of `handleFailure` from the world `start`: what the row became, and what else changed
  -- since `w`.
  pub data Ending (state : TaskState) (definition : TaskDefinition) (error : Option String)
      (now : Instant) (turns : List Turn) (start : World redis) (row : TaskState)
      (w v : World redis) : Type 0 where
    not_retried :
        definition.retry_policy ≡ none
        → find_row state.id v.task_states ≡ some (failed_row now error row)
        → v.dead_letters ≡ w.dead_letters
        → waiting redis v.store ≡ waiting redis w.store
        → Ending state definition error now turns start row w v
    exhausted :
        (policy : RetryPolicy)
        → definition.retry_policy ≡ some policy
        → policy.max_attempts ≤ state.attempt_count + 1
        → find_row state.id v.task_states
          ≡ some (failed_row now error (count_row (state.attempt_count + 1) row))
        → v.dead_letters ≡ w.dead_letters ++ dead_letter state error (state.attempt_count + 1) ∷ []
        → waiting redis v.store ≡ waiting redis w.store
        → Ending state definition error now turns start row w v
    queued_again :
        (policy : RetryPolicy)
        → definition.retry_policy ≡ some policy
        → state.attempt_count + 1 < policy.max_attempts
        → is_current_task_aborted (behind_wait policy state turns start) ≡ false
        → find_row state.id v.task_states
          ≡ some (pending_row error (count_row (state.attempt_count + 1) row))
        → v.dead_letters ≡ w.dead_letters
        → waiting redis v.store ≡ waiting redis w.store ++ state.id ∷ []
        → Ending state definition error now turns start row w v
    dropped :
        (policy : RetryPolicy)
        → definition.retry_policy ≡ some policy
        → state.attempt_count + 1 < policy.max_attempts
        → is_current_task_aborted (behind_wait policy state turns start) ≡ true
        → find_row state.id v.task_states ≡ some (count_row (state.attempt_count + 1) row)
        → v.dead_letters ≡ w.dead_letters
        → waiting redis v.store ≡ waiting redis w.store
        → Ending state definition error now turns start row w v

  retry_or_fail_lem :
      (policy : RetryPolicy) (state : TaskState) (definition : TaskDefinition)
      (error : Option String) (now : Instant) (turns : List Turn) (w : World redis)
      (row : TaskState)
      → find_row state.id w.task_states ≡ some row
      → definition.retry_policy ≡ some policy
      → let v = retry_or_fail redis executor_id lock_ttl_ms policy state error now turns w in
        (v.claimer.current_task ≡ none)
        × (others state.id v.task_states ≡ others state.id w.task_states)
        × Ending state definition error now turns w row w v
  unfolding retry_or_fail update_table insert_into_dlq should_retry
  retry_or_fail_lem policy state definition error now turns w row h p =
      let attempt = state.attempt_count + 1 in
      let counted = update_rows (count_row attempt) state.id w.task_states in
      let w' = record w { task_states = counted } in
      let delay_ms = calculate_retry_delay policy attempt in
      let waited =
        wait_with_lock_renewal redis executor_id lock_ttl_ms state.id delay_ms turns w' in
      let same = wait-Same redis executor_id lock_ttl_ms state.id delay_ms turns w' in
      let row' =
        row_updated (count_row attempt) state.id w.task_states counted row (λ _. refl) refl h in
      let kept = others_kept (count_row attempt) state.id w.task_states counted (λ _. refl) refl in
      elim (Bool-cases (ltb attempt policy.max_attempts)) [
        | inl more ↦
            let (free, dead, ends) = after_wait_lem state error waited in
            rw more (elim ends [
              | inl (rows, queue, kept_on) ↦ (
                free,
                (others_kept (pending_row error) state.id counted _ (λ _. refl)
                      (rows ∙ ap (update_rows (pending_row error) state.id) same.rows)
                    ∙ kept),
                queued_again policy p (grind arith) kept_on
                    (row_updated (pending_row error) state.id counted _ (count_row attempt row)
                      (λ _. refl) (rows ∙ ap (update_rows (pending_row error) state.id) same.rows)
                      row')
                    (dead ∙ same.dead) (queue ∙ ap (λ l. l ++ state.id ∷ []) same.queue),
              )
              | inr (lost, rows, queue) ↦ (
                free,
                (ap (others state.id) (rows ∙ same.rows) ∙ kept),
                dropped policy p (grind arith) lost
                    (ap (find_row state.id) (rows ∙ same.rows) ∙ row') (dead ∙ same.dead)
                    (queue ∙ same.queue),
              )
            ])
        | inr done ↦
            let (free, rows, dead, queue) =
              give_up_lem state error now
                (insert_into_dlq redis executor_id lock_ttl_ms state error attempt w') in
            rw done (
              free,
              (others_kept (failed_row now error) state.id counted _ (λ _. refl) rows ∙ kept),
              exhausted policy p (grind arith)
                  (row_updated (failed_row now error) state.id counted _ (count_row attempt row)
                    (λ _. refl) rows row')
                  dead queue,
            )
      ]

  handle_by_lem :
      (policy : Option RetryPolicy) (state : TaskState) (definition : TaskDefinition)
      (error : Option String) (now : Instant) (turns : List Turn) (w : World redis)
      (row : TaskState)
      → find_row state.id w.task_states ≡ some row
      → definition.retry_policy ≡ policy
      → let v = handle_by redis executor_id lock_ttl_ms policy state error now turns w in
        (v.claimer.current_task ≡ none)
        × (others state.id v.task_states ≡ others state.id w.task_states)
        × Ending state definition error now turns w row w v
  unfolding handle_by
  handle_by_lem none state definition error now turns w row h e =
      let (free, rows, dead, queue) = give_up_lem state error now w in
      (
        free,
        (others_kept (failed_row now error) state.id w.task_states _ (λ _. refl) rows),
        not_retried e
            (row_updated (failed_row now error) state.id w.task_states _ row (λ _. refl) rows h)
            dead queue,
      )
  handle_by_lem (some policy) state definition error now turns w row h e =
      retry_or_fail_lem policy state definition error now turns w row h e

  pub handle_failure-decides :
      (state : TaskState) (definition : TaskDefinition) (error : Option String) (now : Instant)
      (turns : List Turn) (w : World redis) (row : TaskState)
      → find_row state.id w.task_states ≡ some row
      → let v = handle_failure redis executor_id lock_ttl_ms state definition error now turns w in
        (v.claimer.current_task ≡ none)
        × (others state.id v.task_states ≡ others state.id w.task_states)
        × Ending state definition error now turns w row w v
  unfolding handle_failure
  handle_failure-decides state definition error now turns w row h =
      handle_by_lem definition.retry_policy state definition error now turns w row h refl
