-- ===== src/Monitor/Health.antt =====
-- executor-health-tracker.ts, over heartbeat-store.ts of packages/shared/src/redis/. Redis is an
-- argument: `hgetall` answers the hash of an executor as the code reads it, `none` if there is
-- none, and `pages` are the keys of the replies of `SCAN` up to the cursor 0. The utilization is
-- kept in hundredths of a percent.
pub mod Fresh
use task_orchestrator_engine.Prelude.{
  ℕ, zero, suc, ◌+◌, ◌-◌, ◌*◌, ◌/◌, Bool, true, false, Option, none, some, List, [], ◌∷◌, ◌++◌, map,
  keep, length, leb, ltb, put, if◌then◌else◌,
}
use task_orchestrator_engine.Types.{Ident, Instant, ExecutorHeartbeat}

abbrev pub Hashes : Type 0
Hashes = Ident → Option ExecutorHeartbeat

-- `HeartbeatStore.send`; that the key runs out after 90 seconds is a step of the environment.
unfoldable pub send : Instant → Ident → ℕ → ℕ → Hashes → Hashes
send now executor_id task_count max_capacity hashes = put hashes executor_id (
    some (record {
      executor_id = executor_id;
      timestamp = now;
      current_task_count = task_count;
      max_capacity = max_capacity;
    }))

-- `HeartbeatStore.get`
unfoldable pub get : Ident → Hashes → Option ExecutorHeartbeat
get executor_id hashes = hashes executor_id

abbrev pub push_found : Option ExecutorHeartbeat → List ExecutorHeartbeat → List ExecutorHeartbeat
push_found none rest = rest
push_found (some heartbeat) rest = heartbeat ∷ rest

unfoldable pub read_keys : List Ident → Hashes → List ExecutorHeartbeat
read_keys [] hashes = []
read_keys (k ∷ ks) hashes = push_found (hashes k) (read_keys ks hashes)

-- `HeartbeatStore.getAll`
unfoldable pub get_all : List (List Ident) → Hashes → List ExecutorHeartbeat
unfolding read_keys
get_all [] hashes = []
get_all (page ∷ pages) hashes = read_keys page hashes ++ get_all pages hashes

abbrev pub within : Instant → ℕ → Option ExecutorHeartbeat → Bool
within now threshold_ms none = false
within now threshold_ms (some heartbeat) = leb now (heartbeat.timestamp + threshold_ms)

-- `HeartbeatStore.isHealthy`
unfoldable pub is_healthy : Instant → Ident → ℕ → Hashes → Bool
unfolding get
is_healthy now executor_id threshold_ms hashes = within now threshold_ms (get executor_id hashes)

abbrev pub healthy_threshold_ms : ℕ
healthy_threshold_ms = 90000

pub record ExecutorHealthStatus : Type 0 where
  pub executor_id : Ident
  pub healthy : Bool
  pub last_heartbeat : Instant
  pub current_task_count : ℕ
  pub max_capacity : ℕ
  pub utilization : ℕ
  pub stale_since_ms : Option ℕ

-- `Math.round((count / capacity) * 100 * 100)`, 0 without a capacity.
unfoldable pub utilization_of : ℕ → ℕ → ℕ
utilization_of count zero = 0
utilization_of count (suc capacity) = (count * 20000 + suc capacity) / (2 * suc capacity)

unfoldable pub health_of : Instant → ExecutorHeartbeat → ExecutorHealthStatus
unfolding utilization_of
health_of now heartbeat =
    let healthy = leb now (heartbeat.timestamp + healthy_threshold_ms) in
    record {
      executor_id = heartbeat.executor_id;
      healthy = healthy;
      last_heartbeat = heartbeat.timestamp;
      current_task_count = heartbeat.current_task_count;
      max_capacity = heartbeat.max_capacity;
      utilization = utilization_of heartbeat.current_task_count heartbeat.max_capacity;
      stale_since_ms = if healthy then none else some (now - heartbeat.timestamp);
    }

-- `refreshHealth`: the new snapshot.
unfoldable pub refresh_health : Instant → List (List Ident) → Hashes → List ExecutorHealthStatus
unfolding get_all health_of
refresh_health now pages hashes = map (health_of now) (get_all pages hashes)

-- `getAllExecutorHealth`: an empty snapshot is refreshed first.
unfoldable pub get_all_executor_health :
    Instant → List (List Ident) → Hashes → List ExecutorHealthStatus → List ExecutorHealthStatus
unfolding refresh_health
get_all_executor_health now pages hashes [] = refresh_health now pages hashes
get_all_executor_health now pages hashes (s ∷ ss) = s ∷ ss

unfoldable pub is_executor_healthy : Instant → Ident → Hashes → Bool
unfolding is_healthy
is_executor_healthy now executor_id hashes = is_healthy now executor_id healthy_threshold_ms hashes

unfoldable pub get_healthy_executor_count :
    Instant → List (List Ident) → Hashes → List ExecutorHealthStatus → ℕ
unfolding get_all_executor_health
get_healthy_executor_count now pages hashes snapshot =
    length (keep (λ s. s.healthy) (get_all_executor_health now pages hashes snapshot))
