-- ===== src/Redis/TaskQueue/Refines.antt =====
-- packages/shared/src/redis/task-queue.ts implements its contract.
use mathlib.Core.Path.{ap₂}
use mathlib.Core.List.{reverse-append}
use task_orchestrator_engine.Prelude.{
  ◌≡◌, refl, sym, ap, ◌∙◌, inl, inr, List, [], ◌∷◌, ◌++◌, reverse, arith, length, length-append,
}
use task_orchestrator_engine.Types.{Ident}
use task_orchestrator_engine.Redis.Server.{Server, task_queue, task_processing}
use task_orchestrator_engine.Redis.TaskQueue.{
  enqueue, enqueue_batch, claim, requeue, remove_from_processing, get_processing_list,
  get_queue_depth,
}
use task_orchestrator_engine.Redis.TaskQueue.Flow.{
  waiting, claimed, waiting-enqueue, waiting-enqueue_batch, claim-oldest,
}
use task_orchestrator_engine.Redis.TaskQueue.Fifo.{
  Fifo, Call, enqueues, enqueues_batch, claims, requeues, removes_from_processing,
  gets_processing_list, gets_queue_depth, Replied, nothing, task, tasks, depth, claim_first,
  respond, outputs,
}

length-reverse : (xs : List Ident) → length (reverse xs) ≡ length xs
length-reverse [] = refl
length-reverse (x ∷ xs) =
    rw (reverse-append (x ∷ []) xs)
      (omega (arith, length-append (reverse xs) (x ∷ []), length-reverse xs))

module _ (redis : Server) where
  open redis use {Store, entries, entries-lpush, entries-lrem}

  abbrev pub fifo : Store → Fifo
  fifo s = record { waiting = waiting redis s; claimed = claimed redis s }

  -- The call on the server: its reply and the store after it.
  abbrev pub perform : Call → Store → Replied × Store
  perform (enqueues id) s = (nothing, enqueue redis id s)
  perform (enqueues_batch ids) s = (nothing, enqueue_batch redis ids s)
  perform claims s = (task (claim redis s).0, (claim redis s).1)
  perform (requeues id) s = (nothing, requeue redis id s)
  perform (removes_from_processing id) s = (nothing, remove_from_processing redis id s)
  perform gets_processing_list s = (tasks (get_processing_list redis s), s)
  perform gets_queue_depth s = (depth (get_queue_depth redis s), s)

  unfoldable pub perform_calls : List Call → Store → List Replied
  perform_calls [] s = []
  perform_calls (c ∷ cs) s = (perform c s).0 ∷ perform_calls cs (perform c s).1

  fifo_lem :
      {s : Store} {ws cs : List Ident}
      → waiting redis s ≡ ws
      → claimed redis s ≡ cs
      → fifo s ≡ record { waiting = ws; claimed = cs }
  fifo_lem h k = ap₂ (λ ws cs. record { waiting = ws; claimed = cs }) h k

  claim_lem :
      (s : Store)
      → (task (claim redis s).0, fifo (claim redis s).1)
        ≡ claim_first (waiting redis s) (claimed redis s)
  claim_lem s = elim (claim-oldest redis s) [
    | inl (reply, before, after, kept) ↦
        rw before (ap₂ (λ r q. (r, q)) (ap task reply) (fifo_lem after kept))
    | inr (id, reply, before, after) ↦
        rw before (ap₂ (λ r q. (r, q)) (ap task reply) (fifo_lem refl after))
  ]

  claimed-enqueue : (id : Ident) (s : Store) → claimed redis (enqueue redis id s) ≡ claimed redis s
  unfolding enqueue
  claimed-enqueue id s = entries-lpush task_queue task_processing id s

  respond-perform :
      (c : Call) (s : Store) → ((perform c s).0, fifo (perform c s).1) ≡ respond c (fifo s)
  unfolding remove_from_processing get_processing_list get_queue_depth requeue enqueue
  respond-perform (enqueues id) s =
      ap (λ q. (nothing, q)) (fifo_lem (waiting-enqueue redis id s) (claimed-enqueue id s))
  respond-perform (enqueues_batch ids) s =
      let (later, kept) = waiting-enqueue_batch redis ids s in
      ap (λ q. (nothing, q)) (fifo_lem later kept)
  respond-perform claims s = claim_lem s
  respond-perform (requeues id) s =
      let t = redis.lrem task_processing id s in
      let kept = ap reverse (entries-lrem task_processing task_queue id s) in
      let removed = entries-lrem task_processing task_processing id s in
      ap (λ q. (nothing, q))
        (fifo_lem (waiting-enqueue redis id t ∙ ap (λ l. l ++ id ∷ []) kept)
          (claimed-enqueue id t ∙ removed))
  respond-perform (removes_from_processing id) s =
      ap (λ q. (nothing, q))
        (fifo_lem (ap reverse (entries-lrem task_processing task_queue id s))
          (entries-lrem task_processing task_processing id s))
  respond-perform gets_processing_list s = refl
  respond-perform gets_queue_depth s =
      ap (λ n. (depth n, fifo s)) (sym (length-reverse (entries s task_queue)))

  -- No sequence of calls of the task queue tells the server from the first-in first-out queue and
  -- the claimed tasks that its lists hold: every call gets the same reply.
  pub run_refines : (cs : List Call) (s : Store) → perform_calls cs s ≡ outputs cs (fifo s)
  unfolding perform_calls outputs
  run_refines [] s = refl
  run_refines (c ∷ cs) s =
      ap₂ ◌∷◌ (ap (λ r. r.0) (respond-perform c s))
        (run_refines cs (perform c s).1 ∙ ap (λ r. outputs cs r.1) (respond-perform c s))
