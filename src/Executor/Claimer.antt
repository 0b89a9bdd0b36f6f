-- ===== src/Executor/Claimer.antt =====
-- task-claimer.ts. A timer's callback and the task's callback are the environment's: `on_claimed` is
-- an argument, and a renewal is an operation of its own, which the timer may call at any time.
pub mod Cycle
use task_orchestrator_engine.Prelude.{
  ℕ, zero, suc, Bool, true, false, Option, none, some, if◌then◌else◌,
}
use task_orchestrator_engine.Types.{Ident}
use task_orchestrator_engine.Redis.Server.{Server}
use task_orchestrator_engine.Redis.TaskQueue.{claim, requeue, remove_from_processing}
use task_orchestrator_engine.Redis.LockManager.{acquire, renew, release}
use task_orchestrator_engine.Executor.World.{ClaimedTask, TaskClaimer, World}

-- What one round of the polling loop did.
pub data Round : Type 0 where
  busy idle requeued : Round
  claimed : (task_state_id : Ident) → Round

module _ (redis : Server) (executor_id : Ident) (lock_ttl_ms : ℕ) where
  abbrev set_current : Option ClaimedTask → World redis → World redis
  set_current c w = record w {
    claimer = record { is_running = w.claimer.is_running; current_task = c };
  }

  abbrev with_store : redis.Store → World redis → World redis
  with_store s w = record w { store = s }

  -- The lock is acquired: the task becomes the current one.
  unfoldable pub after_acquire : Ident → Bool × redis.Store → World redis → Round × World redis
  after_acquire id (false, s) w = (requeued, with_store (requeue redis id s) w)
  after_acquire id (true, s) w = (
    claimed id,
    set_current (some (record { task_state_id = id; aborted = false; renewing = true }))
        (with_store s w),
  )

  unfoldable pub after_claim : Option Ident × redis.Store → World redis → Round × World redis
  unfolding after_acquire
  after_claim (none, s) w = (idle, with_store s w)
  after_claim (some id, s) w = after_acquire id (acquire redis id executor_id lock_ttl_ms s) w

  -- The body of the polling loop up to the callback.
  unfoldable pub poll_free : Option ClaimedTask → World redis → Round × World redis
  unfolding after_claim
  poll_free (some _) w = (busy, w)
  poll_free none w = after_claim (claim redis w.store) w

  unfoldable pub poll : World redis → Round × World redis
  unfolding poll_free
  poll w = poll_free w.claimer.current_task w

  -- With the callback, which may change the world and may throw; an exception is logged.
  unfoldable pub run_callback :
      (Ident → World redis → World redis) → Round × World redis → World redis
  run_callback on_claimed (claimed id, w) = on_claimed id w
  run_callback on_claimed (_, w) = w

  unfoldable pub poll_round : (Ident → World redis → World redis) → World redis → World redis
  unfolding run_callback poll
  poll_round on_claimed w = run_callback on_claimed (poll w)

  -- The loop of `start`, for as many rounds as it is watched.
  unfoldable pub loop : (Ident → World redis → World redis) → ℕ → World redis → World redis
  unfolding poll_round
  loop on_claimed zero w = w
  loop on_claimed (suc rounds) w =
      let rest = loop on_claimed rounds (poll_round on_claimed w) in
      if w.claimer.is_running then rest else w

  unfoldable pub start : (Ident → World redis → World redis) → ℕ → World redis → World redis
  unfolding loop
  start on_claimed rounds w =
      loop on_claimed rounds
        (record w { claimer = record { is_running = true; current_task = w.claimer.current_task } })

  unfoldable pub release_claimed : Option ClaimedTask → World redis → World redis
  release_claimed none w = w
  release_claimed (some c) w = set_current none (
      with_store
        (remove_from_processing redis c.task_state_id
          (release redis c.task_state_id executor_id w.store).1)
        w)

  unfoldable pub release_current_task : World redis → World redis
  unfolding release_claimed
  release_current_task w = release_claimed w.claimer.current_task w

  unfoldable pub release_lock : Ident → World redis → World redis
  release_lock id w = with_store (release redis id executor_id w.store).1 w

  -- The timer's callback: a renewal that fails aborts the task.
  unfoldable pub renewed : ClaimedTask → Bool × redis.Store → World redis → World redis
  renewed c (true, s) w = with_store s w
  renewed c (false, s) w =
      set_current (some (record c { aborted = true; renewing = false })) (with_store s w)

  unfoldable pub renew_claimed : Option ClaimedTask → World redis → World redis
  unfolding renewed
  renew_claimed none w = w
  renew_claimed (some c) w =
      if c.renewing
      then renewed c (renew redis c.task_state_id executor_id lock_ttl_ms w.store) w
      else w

  unfoldable pub renewal_tick : World redis → World redis
  unfolding renew_claimed
  renewal_tick w = renew_claimed w.claimer.current_task w

  unfoldable pub clear_current_task : World redis → World redis
  clear_current_task w = set_current none w

  abbrev no_timer : Option ClaimedTask → Option ClaimedTask
  no_timer none = none
  no_timer (some c) = some (record c { renewing = false })

  unfoldable pub stop : World redis → World redis
  stop w = record w {
    claimer = record { is_running = false; current_task = no_timer w.claimer.current_task };
  }

abbrev pub aborted_of : Option ClaimedTask → Bool
aborted_of none = false
aborted_of (some c) = c.aborted

-- `this.currentTask?.aborted ?? false`
unfoldable pub is_current_task_aborted : {redis : Server} → World redis → Bool
is_current_task_aborted w = aborted_of w.claimer.current_task

abbrev pub id_of : Option ClaimedTask → Option Ident
id_of none = none
id_of (some c) = some c.task_state_id

unfoldable pub get_current_task_id : {redis : Server} → World redis → Option Ident
get_current_task_id w = id_of w.claimer.current_task

abbrev pub is_some {ℓ} : {A : Type ℓ} → Option A → Bool
is_some none = false
is_some (some _) = true

unfoldable pub has_active_task : {redis : Server} → World redis → Bool
has_active_task w = is_some w.claimer.current_task
