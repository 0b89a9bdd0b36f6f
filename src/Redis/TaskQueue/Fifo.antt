-- ===== src/Redis/TaskQueue/Fifo.antt =====
-- The contract of packages/shared/src/redis/task-queue.ts: a first-in first-out queue and the tasks
-- that are claimed from it, the last claimed first.
use task_orchestrator_engine.Prelude.{ℕ, Option, none, some, List, [], ◌∷◌, ◌++◌, length}
use task_orchestrator_engine.Types.{Ident}
use task_orchestrator_engine.Redis.Server.{remove_one}

pub record Fifo : Type 0 where
  pub waiting : List Ident
  pub claimed : List Ident

-- A call of the class `TaskQueue`.
pub data Call : Type 0 where
  enqueues : Ident → Call
  enqueues_batch : List Ident → Call
  claims : Call
  requeues : Ident → Call
  removes_from_processing : Ident → Call
  gets_processing_list : Call
  gets_queue_depth : Call

-- What its caller gets.
pub data Replied : Type 0 where
  nothing : Replied
  task : Option Ident → Replied
  tasks : List Ident → Replied
  depth : ℕ → Replied

abbrev pub claim_first : List Ident → List Ident → Replied × Fifo
claim_first [] old = (task none, record { waiting = []; claimed = old })
claim_first (id ∷ ids) old = (task (some id), record { waiting = ids; claimed = id ∷ old })

abbrev pub respond : Call → Fifo → Replied × Fifo
respond (enqueues id) q = (nothing, record q { waiting = q.waiting ++ id ∷ [] })
respond (enqueues_batch ids) q = (nothing, record q { waiting = q.waiting ++ ids })
respond claims q = claim_first q.waiting q.claimed
respond (requeues id) q =
    (nothing, record { waiting = q.waiting ++ id ∷ []; claimed = remove_one id q.claimed })
respond (removes_from_processing id) q = (nothing, record q { claimed = remove_one id q.claimed })
respond gets_processing_list q = (tasks q.claimed, q)
respond gets_queue_depth q = (depth (length q.waiting), q)

unfoldable pub outputs : List Call → Fifo → List Replied
outputs [] q = []
outputs (c ∷ cs) q = (respond c q).0 ∷ outputs cs (respond c q).1
