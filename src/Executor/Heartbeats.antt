-- ===== src/Executor/Heartbeats.antt =====
-- services/executor-service/src/services/heartbeat-emitter.ts. The host's timers are part of the state:
-- when one fires is a step of the environment, and so is the end of the first heartbeat, behind which
-- the callback of the initial timeout goes on.
use task_orchestrator_engine.Prelude.{
  ℕ, zero, suc, ◌≡◌, refl, sym, subst, ◌∙◌, Bool, true, false, Option, none, some, List, [], ◌∷◌,
  ◌==◌, if◌then◌else◌,
}
use task_orchestrator_engine.Types.{Ident, Instant}
use task_orchestrator_engine.Monitor.Health.{Hashes, send}

pub record HeartbeatEmitter : Type 0 where
  pub interval : Option Ident
  pub initial_timeout : Option Ident
  pub running : Bool
  pub current_task_count : ℕ
  pub executor_id : Ident
  pub max_capacity : ℕ

-- The emitter, the host's timers, the callbacks that wait for the first heartbeat, and the hashes.
pub record HostState : Type 0 where
  pub emitter : HeartbeatEmitter
  pub timeouts : List Ident
  pub intervals : List Ident
  pub waiting_callbacks : ℕ
  pub next_handle : Ident
  pub hashes : Hashes

abbrev pub without_timer : Option Ident → List Ident → List Ident
without_timer none ts = ts
without_timer (some h) [] = []
without_timer (some h) (t ∷ ts) =
    let rest = without_timer (some h) ts in if t == h then rest else t ∷ rest

unfoldable pub start_emitter : HostState → HostState
start_emitter w = if w.emitter.running then w else record w {
  emitter = record w.emitter { running = true; initial_timeout = some w.next_handle };
  timeouts = w.next_handle ∷ w.timeouts;
  next_handle = suc w.next_handle;
}

unfoldable pub stop_emitter : HostState → HostState
stop_emitter w = record w {
  emitter = record w.emitter { running = false; initial_timeout = none; interval = none };
  timeouts = without_timer w.emitter.initial_timeout w.timeouts;
  intervals = without_timer w.emitter.interval w.intervals;
}

unfoldable pub set_task_count : ℕ → HostState → HostState
set_task_count count w = record w { emitter = record w.emitter { current_task_count = count } }

abbrev pub heard : Instant → HostState → HostState
heard now w = record w {
  hashes =
      send now w.emitter.executor_id w.emitter.current_task_count w.emitter.max_capacity w.hashes;
}

-- An error of the store is logged: whether the heartbeat arrives is the environment's.
unfoldable pub send_heartbeat : Instant → Bool → HostState → HostState
send_heartbeat now arrives w = if w.emitter.running then (if arrives then heard now w else w) else w

-- What the host does: the timeout fires and its callback sends a heartbeat, the callback goes on and
-- sets the interval, an interval fires.
pub data HostStep : Type 0 where
  fires_timeout : Ident → Instant → Bool → HostStep
  resumes : HostStep
  fires_interval : Instant → Bool → HostStep
  counts : ℕ → HostStep

abbrev pub resume_callback : ℕ → HostState → HostState
resume_callback zero w = w
resume_callback (suc n) w = record w {
  emitter = record w.emitter { interval = some w.next_handle };
  intervals = w.next_handle ∷ w.intervals;
  waiting_callbacks = n;
  next_handle = suc w.next_handle;
}

abbrev pub begun_callback : Ident → HostState → HostState
begun_callback handle w = record w {
  timeouts = without_timer (some handle) w.timeouts;
  waiting_callbacks = suc w.waiting_callbacks;
}

unfoldable pub host_step : HostStep → HostState → HostState
unfolding send_heartbeat set_task_count
host_step (fires_timeout handle now arrives) w =
    send_heartbeat now arrives (begun_callback handle w)
host_step resumes w = resume_callback w.waiting_callbacks w
host_step (fires_interval now arrives) w = send_heartbeat now arrives w
host_step (counts n) w = set_task_count n w

abbrev pub host_steps : List HostStep → HostState → HostState
host_steps [] w = w
host_steps (s ∷ ss) w = host_steps ss (host_step s w)

-- Stopped, with the hashes of another state.
record IsSilent (w w' : HostState) : Type 0 where
  stopped : w'.emitter.running ≡ false
  hashes_kept : w'.hashes ≡ w.hashes

resume_callback-IsSilent :
    (n : ℕ) (w : HostState) → w.emitter.running ≡ false → IsSilent w (resume_callback n w)
resume_callback-IsSilent zero w h = record { stopped = h; hashes_kept = refl }
resume_callback-IsSilent (suc n) w h = record { stopped = h; hashes_kept = refl }

send_heartbeat-IsSilent :
    (now : Instant) (arrives : Bool) (w : HostState)
    → w.emitter.running ≡ false
    → IsSilent w (send_heartbeat now arrives w)
unfolding send_heartbeat
send_heartbeat-IsSilent now arrives w h =
    subst (λ (b : Bool). IsSilent w (if b then (if arrives then heard now w else w) else w)) (sym h)
      (record { stopped = h; hashes_kept = refl })

host_step-IsSilent :
    (s : HostStep) (w : HostState) → w.emitter.running ≡ false → IsSilent w (host_step s w)
unfolding host_step set_task_count
host_step-IsSilent (fires_timeout handle now arrives) w h =
    let sent = send_heartbeat-IsSilent now arrives (begun_callback handle w) h in
    record { stopped = sent.stopped; hashes_kept = sent.hashes_kept }
host_step-IsSilent resumes w h = resume_callback-IsSilent w.waiting_callbacks w h
host_step-IsSilent (fires_interval now arrives) w h = send_heartbeat-IsSilent now arrives w h
host_step-IsSilent (counts n) w h = record { stopped = h; hashes_kept = refl }

host_steps-hashes :
    (ss : List HostStep) (w : HostState)
    → w.emitter.running ≡ false
    → (host_steps ss w).hashes ≡ w.hashes
host_steps-hashes [] w h = refl
host_steps-hashes (s ∷ ss) w h =
    let one = host_step-IsSilent s w h in
    host_steps-hashes ss (host_step s w) one.stopped ∙ one.hashes_kept

-- Behind a stop no heartbeat is sent, whatever timers fire and callbacks go on, and in whatever order,
-- until the emitter is started again.
pub stop_emitter-silent :
    (ss : List HostStep) (w : HostState) → (host_steps ss (stop_emitter w)).hashes ≡ w.hashes
unfolding stop_emitter
stop_emitter-silent ss w = host_steps-hashes ss (stop_emitter w) refl
