-- ===== src/Examples/Upkeep.antt =====
-- Migrations, the detection of orphans and the emitter of heartbeats.
use mathlib.Core.List.{Permᴰ}
use task_orchestrator_engine.Prelude.{
  IsOrdered, keep, ◌≡◌, refl, ℕ, suc, true, false, not, Option, none, some, List, [], ◌∷◌, ◌++◌, ok,
  if◌then◌else◌,
}
use task_orchestrator_engine.Cron.Text.{Text}
use task_orchestrator_engine.Migrations.{
  Migrated, discover_migration_files, is_sql_file, run_migrations,
}
use task_orchestrator_engine.Migrations.Applied.{
  Before, pending, IsRun, run_migrations-IsRun, run_migrations-again,
}
use task_orchestrator_engine.Redis.Server.{is_none}
use task_orchestrator_engine.Redis.TaskQueue.Flow.{waiting}
use task_orchestrator_engine.Scheduler.Orphans.{Orphan, detect, ids_of, detect-decides}
use task_orchestrator_engine.Executor.Heartbeats.{
  HostState, HostStep, fires_timeout, resumes, fires_interval, start_emitter, stop_emitter,
  host_steps, host_step, send_heartbeat, stop_emitter-silent,
}
use task_orchestrator_engine.Examples.Memory.{Memory, in_memory}

-- `2.sql`, `1.sql`, and a file that is no migration.
abbrev directory : List Text
directory =
    (50 ∷ 46 ∷ 115 ∷ 113 ∷ 108 ∷ [])
    ∷ (49 ∷ 46 ∷ 115 ∷ 113 ∷ 108 ∷ [])
    ∷ (49 ∷ 46 ∷ 116 ∷ 115 ∷ [])
    ∷ []

finds_in_order :
    discover_migration_files directory
    ≡ (49 ∷ 46 ∷ 115 ∷ 113 ∷ 108 ∷ []) ∷ (50 ∷ 46 ∷ 115 ∷ 113 ∷ 108 ∷ []) ∷ []
unfolding discover_migration_files
finds_in_order = refl

-- The database is the number of migrations that it has seen.
abbrev counting : Text → ℕ → Option ℕ
counting sql n = some (suc n)

abbrev empty : Migrated ℕ counting
empty = record { database = 0; names = [] }

abbrev full : Migrated ℕ counting
full = record {
  database = 2;
  names = (49 ∷ 46 ∷ 115 ∷ 113 ∷ 108 ∷ []) ∷ (50 ∷ 46 ∷ 115 ∷ 113 ∷ 108 ∷ []) ∷ [];
}

run_migrations-IsRun_example :
    Permᴰ (discover_migration_files directory) (keep is_sql_file directory)
    × IsOrdered Before (pending [] (discover_migration_files directory))
    × IsRun ℕ counting []
        (pending [] (discover_migration_files directory))
        empty
        (run_migrations ℕ counting directory empty)
run_migrations-IsRun_example = run_migrations-IsRun ℕ counting directory empty

run_migrations-again_example : run_migrations ℕ counting directory full ≡ (ok [], full)
unfolding run_migrations
run_migrations-again_example = run_migrations-again ℕ counting directory empty full full.names refl

-- Task 11 waits and nobody has a lock; the row of 12 could be updated, the one of 13 not.
abbrev one_waiting : Memory
one_waiting = record { queue = 11 ∷ []; processing = []; owner = λ _. none }

abbrev orphans : Option (List Orphan)
orphans = some (record { id = 12; updated = true } ∷ record { id = 13; updated = false } ∷ [])

detect-decides_example :
    let (fine, s') = detect in_memory 7 8 orphans one_waiting in
    let free = is_none (in_memory.holder one_waiting 7) in
    (in_memory.holder s' 7 ≡ in_memory.holder one_waiting 7)
    × (waiting in_memory s'
        ≡ waiting in_memory one_waiting ++ (if free then ids_of in_memory 7 8 orphans else []))
    × (fine ≡ (if free then not (is_none orphans) else true))
detect-decides_example = detect-decides in_memory 7 8 orphans one_waiting

abbrev idle : HostState
idle = record {
  emitter = record {
    interval = none;
    initial_timeout = none;
    running = false;
    current_task_count = 0;
    executor_id = 1;
    max_capacity = 1;
  };
  timeouts = [];
  intervals = [];
  waiting_callbacks = 0;
  next_handle = 3;
  hashes = λ x. none;
}

abbrev late_callback : List HostStep
late_callback = resumes ∷ fires_interval 9000 true ∷ []

-- The emitter while its first heartbeat is under way.
abbrev busy : HostState
busy = host_steps (fires_timeout 3 5000 true ∷ []) (start_emitter idle)

stop_emitter-silent_example : (host_steps late_callback (stop_emitter busy)).hashes ≡ busy.hashes
stop_emitter-silent_example = stop_emitter-silent late_callback busy

-- The callback goes on behind the stop and sets interval 4; the next start sets another one, and only
-- that is stopped.
abbrev restarted : HostState
restarted =
    host_steps (fires_timeout 5 40000 true ∷ resumes ∷ [])
      (start_emitter (host_steps late_callback (stop_emitter busy)))

interval_leaks : (stop_emitter restarted).intervals ≡ 4 ∷ []
unfolding stop_emitter start_emitter host_step send_heartbeat
interval_leaks = refl
