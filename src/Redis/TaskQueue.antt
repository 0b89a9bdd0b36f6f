-- ===== src/Redis/TaskQueue.antt =====
-- packages/shared/src/redis/task-queue.ts.
pub mod Flow
pub mod Fifo
pub mod Refines
use task_orchestrator_engine.Prelude.{ℕ, List, [], ◌∷◌, Option, length}
use task_orchestrator_engine.Types.{Ident}
use task_orchestrator_engine.Redis.Server.{Server, ListKey, task_queue, task_processing}

module _ (redis : Server) where
  open redis use {Store, entries, lpush, brpoplpush, lrem}

  unfoldable pub enqueue : Ident → Store → Store
  enqueue id s = lpush task_queue id s

  -- The pipeline sends one `LPUSH` for each id, in order.
  unfoldable pub enqueue_batch : List Ident → Store → Store
  enqueue_batch [] s = s
  enqueue_batch (id ∷ ids) s = enqueue_batch ids (lpush task_queue id s)

  unfoldable pub claim : Store → Option Ident × Store
  claim s = brpoplpush s

  unfoldable pub requeue : Ident → Store → Store
  requeue id s = lpush task_queue id (lrem task_processing id s)

  unfoldable pub remove_from_processing : Ident → Store → Store
  remove_from_processing id s = lrem task_processing id s

  unfoldable pub get_processing_list : Store → List Ident
  get_processing_list s = entries s task_processing

  unfoldable pub get_queue_depth : Store → ℕ
  get_queue_depth s = length (entries s task_queue)
