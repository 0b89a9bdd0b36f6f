-- ===== src/Scheduler/Orphans.antt =====
-- services/scheduler-api/src/services/orphan-detector.ts. What the database answers to the query and to
-- each update is the environment's: the query's columns are not those of 002_executions.sql.
use task_orchestrator_engine.Prelude.{
  ◌≡◌, refl, sym, ap, ◌∙◌, inl, inr, Bool, true, false, not, Option, none, some, List, [], ◌∷◌,
  ◌++◌, reverse, ==_refl, if◌then◌else◌, Bool-cases, Option-cases,
}
use mathlib.Core.List.{append_assoc, append-nil}
use task_orchestrator_engine.Types.{Ident}
use task_orchestrator_engine.Redis.Server.{Server, task_queue, is_none}
use task_orchestrator_engine.Redis.TaskQueue.{enqueue}
use task_orchestrator_engine.Redis.TaskQueue.Flow.{waiting, waiting-enqueue}
use task_orchestrator_engine.Redis.LockManager.{acquire, release, default_ttl_ms}

-- An orphan of the result, and whether its update succeeds.
pub record Orphan : Type 0 where
  pub id : Ident
  pub updated : Bool

module _ (redis : Server) (lock_name executor_id : Ident) where
  open redis use {
    Store, holder, entries, reply-set_nx, holder-set_nx, entries-set_nx, holder-lpush, holder-del,
    entries-del,
  }

  -- A failure of one orphan is logged.
  unfoldable pub enqueue_orphans : List Orphan → Store → Store
  unfolding enqueue
  enqueue_orphans [] s = s
  enqueue_orphans (o ∷ os) s = enqueue_orphans os (if o.updated then enqueue redis o.id s else s)

  -- The `try`, and whether it throws; then `finally`.
  abbrev pub recover : Option (List Orphan) → Store → Bool × Store
  recover none s = (false, s)
  recover (some os) s = (true, enqueue_orphans os s)

  -- What follows the acquisition; the lock is released also if the query fails.
  unfoldable pub recover_locked : Option (List Orphan) → Store → Bool × Store
  unfolding enqueue_orphans release
  recover_locked found s =
      let (fine, s') = recover found s in (fine, (release redis lock_name executor_id s').1)

  abbrev pub after_lock : Option (List Orphan) → Bool × Store → Bool × Store
  after_lock found (true, s) = recover_locked found s
  after_lock found (false, s) = (true, s)

  -- `detect`: whether it ends without an error.
  unfoldable pub detect : Option (List Orphan) → Store → Bool × Store
  unfolding acquire recover_locked
  detect found s = after_lock found (acquire redis lock_name executor_id default_ttl_ms s)

  abbrev pub updated_ids : List Orphan → List Ident
  updated_ids [] = []
  updated_ids (o ∷ os) = if o.updated then o.id ∷ updated_ids os else updated_ids os

  abbrev pub ids_of : Option (List Orphan) → List Ident
  ids_of none = []
  ids_of (some os) = updated_ids os

  waiting-enqueue_orphans :
      (os : List Orphan) (s : Store)
      → waiting redis (enqueue_orphans os s) ≡ waiting redis s ++ updated_ids os
  unfolding enqueue_orphans
  waiting-enqueue_orphans [] s = sym (append-nil (waiting redis s))
  waiting-enqueue_orphans (o ∷ os) s = elim (Bool-cases o.updated) [
    | inl u ↦
        rw (u, enqueue_orphans)
          (waiting-enqueue_orphans os (enqueue redis o.id s)
            ∙ ap (λ l. l ++ updated_ids os) (waiting-enqueue redis o.id s)
            ∙ append_assoc (waiting redis s) (o.id ∷ []) (updated_ids os))
    | inr n ↦ rw (n, enqueue_orphans) (waiting-enqueue_orphans os s)
  ]

  holder-enqueue_orphans :
      (os : List Orphan) (s : Store) (x : Ident) → holder (enqueue_orphans os s) x ≡ holder s x
  unfolding enqueue_orphans enqueue
  holder-enqueue_orphans [] s x = refl
  holder-enqueue_orphans (o ∷ os) s x = elim (Bool-cases o.updated) [
    | inl u ↦
        rw (u, enqueue_orphans)
          (holder-enqueue_orphans os (enqueue redis o.id s) x ∙ holder-lpush task_queue o.id s x)
    | inr n ↦ rw (n, enqueue_orphans) (holder-enqueue_orphans os s x)
  ]

  waiting-recover :
      (found : Option (List Orphan)) (s : Store)
      → waiting redis (recover found s).1 ≡ waiting redis s ++ ids_of found
  waiting-recover none s = sym (append-nil (waiting redis s))
  waiting-recover (some os) s = waiting-enqueue_orphans os s

  holder-recover :
      (found : Option (List Orphan)) (s : Store)
      → holder (recover found s).1 lock_name ≡ holder s lock_name
  holder-recover none s = refl
  holder-recover (some os) s = holder-enqueue_orphans os s lock_name

  -- What a detection does to the lock and to the queue.
  record Detected (free : Bool) (found : Option (List Orphan)) (s : Store) (r : Bool × Store)
      : Type 0 where
    lock_kept : holder r.1 lock_name ≡ holder s lock_name
    queued : waiting redis r.1 ≡ waiting redis s ++ (if free then ids_of found else [])
    ended : r.0 ≡ (if free then not (is_none found) else true)

  fine-recover :
      (found : Option (List Orphan)) (s : Store) → (recover found s).0 ≡ not (is_none found)
  fine-recover none s = refl
  fine-recover (some os) s = refl

  -- A lock that the detector owns is free behind the `finally`.
  released :
      (s : Store)
      → holder s lock_name ≡ some executor_id
      → let s' = (release redis lock_name executor_id s).1 in
        (holder s' lock_name ≡ none) × (waiting redis s' ≡ waiting redis s)
  unfolding release
  released s h =
      rw (h, release, ==_refl executor_id)
        (
          holder-del lock_name s lock_name ∙ rw (==_refl lock_name) refl,
          ap reverse (entries-del lock_name s task_queue),
        )

  held_lock :
      (found : Option (List Orphan)) (s : Store)
      → holder s lock_name ≡ none
      → Detected true found s
          (recover_locked found (acquire redis lock_name executor_id default_ttl_ms s).1)
  unfolding recover_locked acquire
  held_lock found s h =
      let s1 = (redis.set_nx lock_name executor_id default_ttl_ms s).1 in
      let mine =
        holder-set_nx lock_name executor_id lock_name default_ttl_ms s
        ∙ rw (==_refl lock_name, h) refl in
      let (free, same) = released (recover found s1).1 (holder-recover found s1 ∙ mine) in
      record {
        lock_kept = free ∙ sym h;
        queued =
            same
            ∙ waiting-recover found s1
            ∙ ap (λ l. reverse l ++ ids_of found)
                (entries-set_nx lock_name executor_id default_ttl_ms s task_queue);
        ended = fine-recover found s1;
      }

  refused_lock :
      (found : Option (List Orphan)) (s : Store) (owner : Ident)
      → holder s lock_name ≡ some owner
      → Detected false found s (true, (acquire redis lock_name executor_id default_ttl_ms s).1)
  unfolding acquire
  refused_lock found s owner h = record {
    lock_kept =
        holder-set_nx lock_name executor_id lock_name default_ttl_ms s
        ∙ rw (==_refl lock_name, h) refl;
    queued =
        ap reverse (entries-set_nx lock_name executor_id default_ttl_ms s task_queue)
        ∙ sym (append-nil (waiting redis s));
    ended = refl;
  }

  acquired :
      (found : Option (List Orphan)) (r : Bool × Store) (b : Bool)
      → r.0 ≡ b
      → after_lock found r ≡ (if b then recover_locked found r.1 else (true, r.1))
  acquired found (true, s) true h = refl
  acquired found (true, s) false h = cc
  acquired found (false, s) true h = cc
  acquired found (false, s) false h = refl

  -- A detection while another owner has the lock does nothing. Any other puts the orphans whose rows it
  -- could update behind the waiting tasks and, also if the query fails, leaves the lock free.
  pub detect-decides :
      (found : Option (List Orphan)) (s : Store)
      → let (fine, s') = detect found s in
        let free = is_none (holder s lock_name) in
        (holder s' lock_name ≡ holder s lock_name)
        × (waiting redis s' ≡ waiting redis s ++ (if free then ids_of found else []))
        × (fine ≡ (if free then not (is_none found) else true))
  unfolding detect acquire
  detect-decides found s =
      let r = acquire redis lock_name executor_id default_ttl_ms s in
      let locked = reply-set_nx lock_name executor_id default_ttl_ms s in
      let d =
        elim (Option-cases (holder s lock_name))
          as (λ _. Detected (is_none (holder s lock_name)) found s (after_lock found r)) [
            | inl h ↦ rw (h, acquired found r true (locked ∙ ap is_none h)) (held_lock found s h)
            | inr (owner, h) ↦
                rw (h, acquired found r false (locked ∙ ap is_none h))
                  (refused_lock found s owner h)
          ] in
      (d.lock_kept, d.queued, d.ended)
