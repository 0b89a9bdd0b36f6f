-- ===== src/Examples/Stores.antt =====
-- The queue and the locks on the server in memory.
use task_orchestrator_engine.Prelude.{ℕ, ◌≡◌, refl, false, none, some, List, [], ◌∷◌, ◌==◌}
use task_orchestrator_engine.Types.{Ident}
use task_orchestrator_engine.Redis.TaskQueue.{claim}
use task_orchestrator_engine.Redis.TaskQueue.Fifo.{
  Call, enqueues_batch, claims, requeues, removes_from_processing, gets_processing_list,
  gets_queue_depth, nothing, task, tasks, depth, outputs,
}
use task_orchestrator_engine.Redis.TaskQueue.Refines.{fifo, perform_calls, run_refines}
use task_orchestrator_engine.Redis.LockManager.{acquire, renew, release}
use task_orchestrator_engine.Redis.LockManager.Exclusion.{
  Call as LockCall, acquires, renews, releases, perform_all, acquire-exclusive,
}
use task_orchestrator_engine.Examples.Memory.{Memory, in_memory}

-- Task 11 waits longest; 14 is claimed; nobody holds a lock.
abbrev pub some_tasks : Memory
some_tasks = record { queue = 13 ∷ 12 ∷ 11 ∷ []; processing = 14 ∷ []; owner = λ _. none }

claims_the_oldest : (claim in_memory some_tasks).0 ≡ some 11
unfolding claim
claims_the_oldest = refl

abbrev some_calls : List Call
some_calls =
    enqueues_batch (15 ∷ 16 ∷ [])
    ∷ claims
    ∷ requeues 11
    ∷ removes_from_processing 14
    ∷ gets_queue_depth
    ∷ gets_processing_list
    ∷ []

run_refines_example :
    perform_calls in_memory some_calls some_tasks ≡ outputs some_calls (fifo in_memory some_tasks)
run_refines_example = run_refines in_memory some_calls some_tasks

outputs_lem :
    outputs some_calls (fifo in_memory some_tasks)
    ≡ nothing ∷ task (some 11) ∷ nothing ∷ nothing ∷ depth 5 ∷ tasks [] ∷ []
unfolding outputs
outputs_lem = refl

abbrev others_calls : List LockCall
others_calls = acquires 11 2 500 ∷ renews 11 1 500 ∷ releases 11 2 ∷ []

acquire-exclusive_example :
    let after = perform_all in_memory others_calls (acquire in_memory 11 1 30000 some_tasks).1 in
    (in_memory.holder after 11 ≡ some 1)
    × ((e : Ident) (ttl : ℕ) → (acquire in_memory 11 e ttl after).0 ≡ false)
    × ((e : Ident) (ttl : ℕ)
        → ((renew in_memory 11 e ttl after).0 ≡ (1 == e))
          × ((release in_memory 11 e after).0 ≡ (1 == e)))
unfolding acquire
acquire-exclusive_example = acquire-exclusive in_memory 11 1 30000 some_tasks others_calls refl refl
