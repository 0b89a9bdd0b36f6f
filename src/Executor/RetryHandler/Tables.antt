-- ===== src/Executor/RetryHandler/Tables.antt =====
-- The tables and the waiting tasks, which neither a renewal nor a release changes.
use mathlib.Core.Option
use task_orchestrator_engine.Prelude.{
  ℕ, zero, suc, ◌≡◌, refl, ap, ◌∙◌, inl, inr, Bool, true, false, Option, none, some, List, [], ◌∷◌,
  reverse, arith, keep, not, ◌==◌, Bool-cases,
}
use task_orchestrator_engine.Types.{Ident, TaskState}
use task_orchestrator_engine.Redis.Server.{Server, task_queue, task_processing}
use task_orchestrator_engine.Redis.TaskQueue.{remove_from_processing}
use task_orchestrator_engine.Redis.TaskQueue.Flow.{waiting}
use task_orchestrator_engine.Redis.LockManager.{renew, release, default_ttl_ms}
use task_orchestrator_engine.Executor.World.{ClaimedTask, World, update_rows, find_row}
use task_orchestrator_engine.Executor.Claimer.{
  release_claimed, release_current_task, renewed, renew_claimed, renewal_tick,
}
use task_orchestrator_engine.Executor.RetryHandler.{Turn, fire, wait_with_lock_renewal}

pub find_row-update_rows :
    (change : TaskState → TaskState) (id : Ident) (rows : List TaskState)
    → ((row : TaskState) → (change row).id ≡ row.id)
    → find_row id (update_rows change id rows) ≡ Option.map change (find_row id rows)
find_row-update_rows change id [] keeps = refl
find_row-update_rows change id (row ∷ rows) keeps =
    ground (arith, keeps row, find_row-update_rows change id rows keeps)

-- The rows with another id.
abbrev pub others : Ident → List TaskState → List TaskState
others id rows = keep (λ row. not (row.id == id)) rows

others-update_rows :
    (change : TaskState → TaskState) (id : Ident) (rows : List TaskState)
    → ((row : TaskState) → (change row).id ≡ row.id)
    → others id (update_rows change id rows) ≡ others id rows
others-update_rows change id [] keeps = refl
others-update_rows change id (row ∷ rows) keeps =
    ground (arith, keeps row, others-update_rows change id rows keeps)

-- One update of the table, seen at the updated row and at another one.
pub row_updated :
    (change : TaskState → TaskState) (id : Ident) (rows rows' : List TaskState) (row : TaskState)
    → ((row : TaskState) → (change row).id ≡ row.id)
    → rows' ≡ update_rows change id rows
    → find_row id rows ≡ some row
    → find_row id rows' ≡ some (change row)
row_updated change id rows rows' row keeps e h =
    ap (find_row id) e ∙ find_row-update_rows change id rows keeps ∙ ap (Option.map change) h

pub others_kept :
    (change : TaskState → TaskState) (id : Ident) (rows rows' : List TaskState)
    → ((row : TaskState) → (change row).id ≡ row.id)
    → rows' ≡ update_rows change id rows
    → others id rows' ≡ others id rows
others_kept change id rows rows' keeps e =
    ap (others id) e ∙ others-update_rows change id rows keeps

module _ (redis : Server) (executor_id : Ident) (lock_ttl_ms : ℕ) where
  open redis use {Store, entries, entries-lrem, entries-del, entries-pexpire}

  -- Two worlds have the same tables and the same tasks wait in them.
  pub record Same (v w : World redis) : Type 0 where
    pub rows : v.task_states ≡ w.task_states
    pub dead : v.dead_letters ≡ w.dead_letters
    pub queue : waiting redis v.store ≡ waiting redis w.store

  pub Same-trans : (u v w : World redis) → Same u v → Same v w → Same u w
  Same-trans u v w p q = record {
    rows = p.rows ∙ q.rows;
    dead = p.dead ∙ q.dead;
    queue = p.queue ∙ q.queue;
  }

  renew_queue :
      (task executor ttl_ms : ℕ) (s : Store)
      → entries (renew redis task executor ttl_ms s).1 task_queue ≡ entries s task_queue
  unfolding renew
  renew_queue task executor ttl_ms s = grind (arith, entries-pexpire task ttl_ms s task_queue)

  release_queue :
      (task executor : ℕ) (s : Store)
      → entries (release redis task executor s).1 task_queue ≡ entries s task_queue
  unfolding release
  release_queue task executor s = grind (arith, entries-del task s task_queue)

  remove_queue :
      (id : ℕ) (s : Store)
      → entries (remove_from_processing redis id s) task_queue ≡ entries s task_queue
  unfolding remove_from_processing
  remove_queue id s = entries-lrem task_processing task_queue id s

  release_claimed-Same :
      (c : Option ClaimedTask) (w : World redis)
      → Same (release_claimed redis executor_id lock_ttl_ms c w) w
  unfolding release_claimed
  release_claimed-Same none w = record { rows = refl; dead = refl; queue = refl }
  release_claimed-Same (some c) w = record {
    rows = refl;
    dead = refl;
    queue = ap reverse (
        remove_queue c.task_state_id (release redis c.task_state_id executor_id w.store).1
        ∙ release_queue c.task_state_id executor_id w.store);
  }

  pub release_current_task-Same :
      (w : World redis) → Same (release_current_task redis executor_id lock_ttl_ms w) w
  unfolding release_current_task
  release_current_task-Same w = release_claimed-Same w.claimer.current_task w

  pub release_claimed-frees :
      (c : Option ClaimedTask) (w : World redis)
      → w.claimer.current_task ≡ c
      → (release_claimed redis executor_id lock_ttl_ms c w).claimer.current_task ≡ none
  unfolding release_claimed
  release_claimed-frees none w h = h
  release_claimed-frees (some c) w h = refl

  pub release_current_task-frees :
      (w : World redis)
      → (release_current_task redis executor_id lock_ttl_ms w).claimer.current_task ≡ none
  unfolding release_current_task
  release_current_task-frees w = release_claimed-frees w.claimer.current_task w refl

  renewed-Same :
      (c : ClaimedTask) (b : Bool) (s : Store) (w : World redis)
      → entries s task_queue ≡ entries w.store task_queue
      → Same (renewed redis executor_id lock_ttl_ms c (b, s) w) w
  unfolding renewed
  renewed-Same c true s w h = record { rows = refl; dead = refl; queue = ap reverse h }
  renewed-Same c false s w h = record { rows = refl; dead = refl; queue = ap reverse h }

  renew_claimed-Same :
      (c : Option ClaimedTask) (w : World redis)
      → Same (renew_claimed redis executor_id lock_ttl_ms c w) w
  unfolding renew_claimed
  renew_claimed-Same none w = record { rows = refl; dead = refl; queue = refl }
  renew_claimed-Same (some c) w =
      let reply = renew redis c.task_state_id executor_id lock_ttl_ms w.store in
      let by_reply =
        renewed-Same c reply.0 reply.1 w
          (renew_queue c.task_state_id executor_id lock_ttl_ms w.store) in
      elim (Bool-cases c.renewing) [
        | inl h ↦ rw h by_reply
        | inr h ↦ rw h (record { rows = refl; dead = refl; queue = refl })
      ]

  pub fire-Same : (n : ℕ) (w : World redis) → Same (fire redis executor_id lock_ttl_ms n w) w
  unfolding fire renewal_tick
  fire-Same zero w = record { rows = refl; dead = refl; queue = refl }
  fire-Same (suc n) w =
      let w' = renewal_tick redis executor_id lock_ttl_ms w in
      Same-trans (fire redis executor_id lock_ttl_ms n w') w' w (fire-Same n w')
        (renew_claimed-Same w.claimer.current_task w)

  pub wait-Same :
      (id : Ident) (delay_ms : ℕ) (turns : List Turn) (w : World redis)
      → Same (wait_with_lock_renewal redis executor_id lock_ttl_ms id delay_ms turns w) w
  unfolding wait_with_lock_renewal
  wait-Same id delay_ms [] w = record { rows = refl; dead = refl; queue = refl }
  wait-Same id delay_ms (t ∷ ts) w =
      let slept = fire redis executor_id lock_ttl_ms t.renewals w in
      let s = (renew redis id executor_id default_ttl_ms slept.store).1 in
      let f = fire-Same t.renewals w in
      let g = wait-Same id delay_ms ts slept in
      let h = wait-Same id delay_ms ts (record slept { store = s }) in
      let r = ap reverse (renew_queue id executor_id default_ttl_ms slept.store) in
      record {
        rows = ground (arith, f.rows, g.rows, h.rows);
        dead = ground (arith, f.dead, g.dead, h.dead);
        queue = ground (arith, f.queue, g.queue, h.queue, r);
      }
