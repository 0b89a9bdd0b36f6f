-- ===== src/Executor/Claimer/Cycle.antt =====
-- One round of the polling loop, and the ends that a claimed task can have.
use task_orchestrator_engine.Prelude.{
  ℕ, ◌<◌, ◌≡◌, refl, sym, subst, ap, ◌∙◌, inl, inr, Bool, true, false, Option, none, some, ◌∷◌,
  arith, reverse, ==_refl,
}
use task_orchestrator_engine.Types.{Ident}
use task_orchestrator_engine.Redis.Server.{
  Server, ListKey, task_queue, task_processing, is_none, remove_one,
}
use task_orchestrator_engine.Redis.TaskQueue.{claim, remove_from_processing}
use task_orchestrator_engine.Redis.TaskQueue.Flow.{
  count, waiting, claimed as processing, total, claim-total, claim-oldest, requeue-total,
}
use task_orchestrator_engine.Redis.LockManager.{acquire, release}
use task_orchestrator_engine.Executor.World.{ClaimedTask, World}
use task_orchestrator_engine.Executor.Claimer.{
  claimed, after_acquire, after_claim, poll_free, poll, release_claimed, release_current_task,
}

none_of : (o : Option Ident) → is_none o ≡ true → o ≡ none
none_of none h = refl
none_of (some x) h = cc

module _ (redis : Server) (executor_id : Ident) (lock_ttl_ms : ℕ) where
  open redis use {
    Store, entries, holder, set_nx, del, lrem, entries-set_nx, reply-set_nx, holder-set_nx,
    entries-del, holder-del, entries-lrem, holder-lrem,
  }

  entries-acquire :
      (id : Ident) (s : Store) (k : ListKey)
      → entries (acquire redis id executor_id lock_ttl_ms s).1 k ≡ entries s k
  unfolding acquire
  entries-acquire id s k = entries-set_nx id executor_id lock_ttl_ms s k

  total-acquire :
      (a id : Ident) (s : Store)
      → total redis a (acquire redis id executor_id lock_ttl_ms s).1 ≡ total redis a s
  total-acquire a id s = omega (
    arith,
    ap (count a) (entries-acquire id s task_queue),
    ap (count a) (entries-acquire id s task_processing),
  )

  -- A refused task is put back, an acquired one stays where the claim moved it.
  after_acquire-total :
      (a id : Ident) (b : Bool) (s : Store) (w : World redis)
      → 0 < count id (processing redis s)
      → total redis a (after_acquire redis executor_id lock_ttl_ms id (b, s) w).1.store
        ≡ total redis a s
  unfolding after_acquire
  after_acquire-total a id true s w h = refl
  after_acquire-total a id false s w h = (requeue-total redis id s h).1 a

  claimed_counts :
      (s : Store) (id : Ident)
      → (claim redis s).0 ≡ some id
      → 0 < count id (processing redis (claim redis s).1)
  claimed_counts s id e = elim (claim-oldest redis s) [
    | inl (empty, _, _, _) ↦ cc
    | inr (id', now, _, after) ↦ ground (arith, ap (count id) after, ==_refl id)
  ]

  after_claim-total :
      (a : Ident) (r : Option Ident × Store) (w : World redis)
      → ((id : Ident) → r.0 ≡ some id → 0 < count id (processing redis r.1))
      → total redis a (after_claim redis executor_id lock_ttl_ms r w).1.store ≡ total redis a r.1
  unfolding after_claim
  after_claim-total a (none, s) w h = refl
  after_claim-total a (some id, s) w h =
      let (b, t) = acquire redis id executor_id lock_ttl_ms s in
      let kept = ap (count id) (entries-acquire id s task_processing) in
      after_acquire-total a id b t w (omega (arith, kept, h id refl)) ∙ total-acquire a id s

  -- No round loses a task or enters one twice, whether it is busy, finds no task, puts one back
  -- or claims one: over the two lists every task is counted as often as before.
  pub poll-total :
      (w : World redis) (a : Ident)
      → total redis a (poll redis executor_id lock_ttl_ms w).1.store ≡ total redis a w.store
  unfolding poll
  poll-total w a = go w.claimer.current_task
    where
      go :
          (c : Option ClaimedTask)
          → total redis a (poll_free redis executor_id lock_ttl_ms c w).1.store
            ≡ total redis a w.store
      go (some c) = refl
      go none =
          after_claim-total a (claim redis w.store) w (claimed_counts w.store)
          ∙ claim-total redis a w.store

  -- What holds after a round that claimed a task.
  pub record IsClaimed (id : Ident) (before after : World redis) : Type 0 where
    pub was_free : before.claimer.current_task ≡ none
    pub is_current :
        after.claimer.current_task
        ≡ some (record { task_state_id = id; aborted = false; renewing = true })
    pub lock_free : holder before.store id ≡ none
    pub owned : holder after.store id ≡ some executor_id
    pub oldest : waiting redis before.store ≡ id ∷ waiting redis after.store
    pub moved : processing redis after.store ≡ id ∷ processing redis before.store
    pub rows_kept : after.task_states ≡ before.task_states

  acquired_claim :
      (id id' : Ident) (b : Bool) (s s' : Store) (w : World redis)
      → (after_acquire redis executor_id lock_ttl_ms id (b, s') w).0 ≡ claimed id'
      → (b ≡ true) × (id ≡ id')
  unfolding after_acquire
  acquired_claim id id' true s s' w h = ground arith
  acquired_claim id id' false s s' w h = cc

  claim_lem :
      (id : Ident) (b : Bool) (s t : Store) (w : World redis)
      → w.claimer.current_task ≡ none
      → b ≡ true
      → holder w.store id ≡ none
      → holder t id ≡ some executor_id
      → waiting redis w.store ≡ id ∷ waiting redis t
      → processing redis t ≡ id ∷ processing redis w.store
      → IsClaimed id w (after_acquire redis executor_id lock_ttl_ms id (b, t) w).1
  unfolding after_acquire
  claim_lem id true s t w free e lock own old moved = record {
    was_free = free;
    is_current = refl;
    lock_free = lock;
    owned = own;
    oldest = old;
    moved = moved;
    rows_kept = refl;
  }
  claim_lem id false s t w free e lock own old moved = cc

  holder-claim : (s : Store) (x : Ident) → holder (claim redis s).1 x ≡ holder s x
  unfolding claim
  holder-claim s x = redis.holder-brpoplpush s x

  claim_moved :
      (s : Store) (x : Ident)
      → (claim redis s).0 ≡ some x
      → (waiting redis s ≡ x ∷ waiting redis (claim redis s).1)
        × (processing redis (claim redis s).1 ≡ x ∷ processing redis s)
  claim_moved s x e = elim (claim-oldest redis s) [
    | inl (empty, _, _, _) ↦ cc
    | inr (id, now, before, after) ↦
        let same : id ≡ x = ground arith in
        (
          before ∙ ap (λ z. z ∷ waiting redis (claim redis s).1) same,
          after ∙ ap (λ z. z ∷ processing redis s) same,
        )
  ]

  from_claim :
      (id : Ident) (o : Option Ident) (s : Store) (w : World redis)
      → w.claimer.current_task ≡ none
      → (claim redis w.store).0 ≡ o
      → (claim redis w.store).1 ≡ s
      → (after_claim redis executor_id lock_ttl_ms (o, s) w).0 ≡ claimed id
      → IsClaimed id w (after_claim redis executor_id lock_ttl_ms (o, s) w).1
  unfolding after_claim acquire
  from_claim id none s w free r e h = cc
  from_claim id (some x) s w free r e h =
      let (b, t) = acquire redis x executor_id lock_ttl_ms s in
      let (ok, same) = acquired_claim x id b s t w h in
      let free_s : holder s x ≡ none =
        none_of (holder s x) (sym (reply-set_nx x executor_id lock_ttl_ms s) ∙ ok) in
      let free_w = sym (holder-claim w.store x) ∙ ap (λ z. holder z x) e ∙ free_s in
      let own : holder t x ≡ some executor_id =
        ground (arith, holder-set_nx x executor_id x lock_ttl_ms s, ==_refl x) in
      let (old, moved) = claim_moved w.store x r in
      let queue : waiting redis t ≡ waiting redis (claim redis w.store).1 = ap reverse (
        entries-set_nx x executor_id lock_ttl_ms s task_queue
        ∙ ap (λ z. entries z task_queue) (sym e)) in
      let list : processing redis t ≡ processing redis (claim redis w.store).1 =
        entries-set_nx x executor_id lock_ttl_ms s task_processing
        ∙ ap (λ z. entries z task_processing) (sym e) in
      subst (λ y. IsClaimed y w (after_acquire redis executor_id lock_ttl_ms x (b, t) w).1) same
        (claim_lem x b s t w free ok free_w own (old ∙ ap (λ l. x ∷ l) (sym queue)) (list ∙ moved))

  -- A round that claims a task takes the one that has waited longest, and only if the executor had
  -- no task and nobody held the task's lock; the executor now owns the lock, the task is its
  -- current task and stands first among the claimed ones, and no row of the table has changed.
  pub poll-IsClaimed :
      (w : World redis) (id : Ident)
      → (poll redis executor_id lock_ttl_ms w).0 ≡ claimed id
      → IsClaimed id w (poll redis executor_id lock_ttl_ms w).1
  unfolding poll
  poll-IsClaimed w id = go w.claimer.current_task refl
    where
      go :
          (c : Option ClaimedTask)
          → w.claimer.current_task ≡ c
          → (poll_free redis executor_id lock_ttl_ms c w).0 ≡ claimed id
          → IsClaimed id w (poll_free redis executor_id lock_ttl_ms c w).1
      go (some c) e h = cc
      go none e h = from_claim id (claim redis w.store).0 (claim redis w.store).1 w e refl refl h

  release_owned :
      (id : Ident) (s : Store)
      → holder s id ≡ some executor_id
      → (release redis id executor_id s).1 ≡ (del id s).1
  unfolding release
  release_owned id s own = ground (arith, ==_refl executor_id)

  -- The store after the release of a task whose lock is owned.
  abbrev ended : Ident → Store → Store
  ended id s = lrem task_processing id (del id s).1

  ended_lem :
      (id : Ident) (s : Store)
      → (holder (ended id s) id ≡ none)
        × (entries (ended id s) task_processing ≡ remove_one id (entries s task_processing))
        × (entries (ended id s) task_queue ≡ entries s task_queue)
  ended_lem id s = (
    ground (arith, holder-lrem task_processing id (del id s).1 id, holder-del id s id, ==_refl id),
    entries-lrem task_processing task_processing id (del id s).1
        ∙ ap (remove_one id) (entries-del id s task_processing),
    entries-lrem task_processing task_queue id (del id s).1 ∙ entries-del id s task_queue,
  )

  release_current :
      (id : Ident) (w : World redis)
      → w.claimer.current_task
        ≡ some (record { task_state_id = id; aborted = false; renewing = true })
      → holder w.store id ≡ some executor_id
      → ((release_current_task redis executor_id lock_ttl_ms w).claimer.current_task ≡ none)
        × ((release_current_task redis executor_id lock_ttl_ms w).store ≡ ended id w.store)
  unfolding release_current_task release_claimed remove_from_processing
  release_current id w now own = (
    rw (now, release_current_task, release_claimed),
    rw (now, release_current_task, release_claimed)
        (ap (lrem task_processing id) (release_owned id w.store own)),
  )

  -- After a claim and a release, with the lock owned up to then, the executor is free, nobody holds
  -- the lock, the claimed tasks are those from before the claim, and the waiting ones those from
  -- before without the first.
  pub poll-release :
      (w : World redis) (id : Ident)
      → (poll redis executor_id lock_ttl_ms w).0 ≡ claimed id
      → let end =
          release_current_task redis executor_id lock_ttl_ms
            (poll redis executor_id lock_ttl_ms w).1 in
        (end.claimer.current_task ≡ none)
        × (holder end.store id ≡ none)
        × (processing redis end.store ≡ processing redis w.store)
        × (waiting redis w.store ≡ id ∷ waiting redis end.store)
  poll-release w id h =
      let w' = (poll redis executor_id lock_ttl_ms w).1 in
      let c = poll-IsClaimed w id h in
      let (free, store) = release_current id w' c.is_current c.owned in
      let (no_holder, list, queue) = ended_lem id w'.store in
      let first = ap (remove_one id) c.moved in
      (
        free,
        ap (λ s. holder s id) store ∙ no_holder,
        ap (λ s. entries s task_processing) store ∙ list ∙ first ∙ rw (==_refl id),
        c.oldest ∙ ap (λ l. id ∷ reverse l) (sym (ap (λ s. entries s task_queue) store ∙ queue)),
      )
