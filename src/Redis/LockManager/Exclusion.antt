-- ===== src/Redis/LockManager/Exclusion.antt =====
-- A lock has one owner, whatever the executors do and in whatever order.
use task_orchestrator_engine.Prelude.{
  ℕ, ◌≡◌, ap, Bool, true, false, not, ◌&&◌, some, List, [], ◌∷◌, arith, every, ◌==◌, ==_iff,
  ==_refl,
}
use task_orchestrator_engine.Types.{Ident}
use task_orchestrator_engine.Redis.Server.{Server}
use task_orchestrator_engine.Redis.LockManager.{acquire, renew, release}

-- What the executors and the clock may do to the locks.
pub data Call : Type 0 where
  acquires renews : (task executor : Ident) (ttl_ms : ℕ) → Call
  releases : (task executor : Ident) → Call
  expires : (task : Ident) → Call

-- The calls that may end the lock of `executor` on `task`: its own release, and the end of the
-- time to live.
abbrev pub ends_lock : Ident → Ident → Call → Bool
ends_lock task executor (releases t e) = task == t && executor == e
ends_lock task executor (expires t) = task == t
ends_lock task executor _ = false

module _ (redis : Server) where
  open redis use {
    Store, holder, set_nx, pexpire, del, reply-set_nx, holder-set_nx, reply-pexpire, holder-pexpire,
    reply-del, holder-del,
  }

  -- A key that runs out is gone, as after `DEL`.
  unfoldable pub perform : Call → Store → Bool × Store
  unfolding acquire renew release
  perform (acquires task executor ttl_ms) s = acquire redis task executor ttl_ms s
  perform (renews task executor ttl_ms) s = renew redis task executor ttl_ms s
  perform (releases task executor) s = release redis task executor s
  perform (expires task) s = (true, (del task s).1)

  unfoldable pub perform_all : List Call → Store → Store
  unfolding perform
  perform_all [] s = s
  perform_all (c ∷ cs) s = perform_all cs (perform c s).1

  module _ (task executor : Ident) where
    same_holder : (s : Store) (t : Ident) → (task == t) ≡ true → holder s task ≡ holder s t
    same_holder s t h = ap (holder s) ((==_iff task t).0 h)

    perform_keeps :
        (c : Call) (s : Store)
        → ends_lock task executor c ≡ false
        → holder s task ≡ some executor
        → holder (perform c s).1 task ≡ some executor
    unfolding perform
    perform_keeps (acquires t e ttl) s h own = ground (arith, holder-set_nx t e task ttl s)
    perform_keeps (renews t e ttl) s h own = ground (arith, holder-pexpire t ttl s task)
    perform_keeps (releases t e) s h own = ground (arith, holder-del t s task, same_holder s t)
    perform_keeps (expires t) s h own = ground (arith, holder-del t s task)

    perform_all_keeps :
        (cs : List Call) (s : Store)
        → every (λ c. not (ends_lock task executor c)) cs ≡ true
        → holder s task ≡ some executor
        → holder (perform_all cs s) task ≡ some executor
    unfolding perform_all
    perform_all_keeps [] s h own = own
    perform_all_keeps (c ∷ cs) s h own =
        perform_all_keeps cs (perform c s).1 (ground arith) (perform_keeps c s (ground arith) own)

    acquired :
        (ttl_ms : ℕ) (s : Store)
        → (acquire redis task executor ttl_ms s).0 ≡ true
        → holder (acquire redis task executor ttl_ms s).1 task ≡ some executor
    unfolding acquire
    acquired ttl_ms s h = ground (
      arith,
      reply-set_nx task executor ttl_ms s,
      holder-set_nx task executor task ttl_ms s,
      ==_refl task,
    )

    -- Once an executor has acquired a lock, and as long as it neither releases the lock nor lets it
    -- run out, it stays the owner over every sequence of calls of all executors; any acquisition
    -- of the lock is refused, and a renewal or a release succeeds exactly for the owner.
    pub acquire-exclusive :
        (ttl_ms : ℕ) (s : Store) (cs : List Call)
        → (acquire redis task executor ttl_ms s).0 ≡ true
        → every (λ c. not (ends_lock task executor c)) cs ≡ true
        → let after = perform_all cs (acquire redis task executor ttl_ms s).1 in
          (holder after task ≡ some executor)
          × ((e : Ident) (ttl : ℕ) → (acquire redis task e ttl after).0 ≡ false)
          × ((e : Ident) (ttl : ℕ)
              → ((renew redis task e ttl after).0 ≡ (executor == e))
                × ((release redis task e after).0 ≡ (executor == e)))
    unfolding acquire renew release
    acquire-exclusive ttl_ms s cs h quiet =
        let after = perform_all cs (acquire redis task executor ttl_ms s).1 in
        let own = perform_all_keeps cs _ quiet (acquired ttl_ms s h) in
        (
          own,
          λ e ttl. ground (arith, reply-set_nx task e ttl after),
          λ e ttl. (
            ground (arith, own, reply-pexpire task ttl after),
            ground (arith, own, reply-del task after),
          ),
        )
