-- ===== src/Server/Health.antt =====
-- server/src/routes/health.rs, server/src/app_state.rs and server/src/main.rs: what the routes for
-- health answer, and where the state that they read stands.
pub mod Reported
use pg_vectorize.Base.{
  ℕ, zero, suc, ◌-◌, ◌/◌, Bool, true, false, List, [], ◌∷◌, ◌++◌, Option, none, some, Bytes, codes,
  ltb, length, get_elem?, if◌then◌else◌,
}
use pg_vectorize.Base.Exec.{VectorizeError}
use pg_vectorize.Worker.Health.{
  WorkerStatus, starting, healthy, error, dead, WorkerHealth, WorkerHealthMonitor, seconds,
  default_health,
}
use pg_vectorize.Worker.Supervisor.{Polled, start_vectorize_worker_with_monitoring}

-- The fields of the answer that depend on more than the record's fields, with the HTTP status.
pub record HealthResponse : Type 0 where
  pub code : ℕ
  pub status : Bytes
  pub worker : WorkerHealth

-- The match of `health_check`; `as_secs` rounds down.
unfoldable pub counts_as_healthy : ℕ → WorkerHealth → Bool
counts_as_healthy now health = elim health.status [
  | healthy ↦ true
  | starting ↦ ltb ((now - health.last_heartbeat) / seconds 1) 120
  | error e ↦ false
  | dead ↦ false
]

unfoldable pub health_check : ℕ → WorkerHealth → HealthResponse
unfolding counts_as_healthy
health_check now health = record {
  code = if counts_as_healthy now health then 200 else 503;
  status = if counts_as_healthy now health then codes "healthy" else codes "unhealthy";
  worker = health;
}

unfoldable pub liveness_check : Bytes
liveness_check = codes "alive"

unfoldable pub is_status_healthy : WorkerStatus → Bool
is_status_healthy healthy = true
is_status_healthy _ = false

unfoldable pub readiness_check : WorkerHealth → HealthResponse
unfolding is_status_healthy
readiness_check health = record {
  code = if is_status_healthy health.status then 200 else 503;
  status = if is_status_healthy health.status then codes "ready" else codes "not_ready";
  worker = health;
}

-- The records that stand behind an `Arc<RwLock<WorkerHealth>>`; an `Arc` is the place of its record,
-- and a clone of it is the same place.
abbrev pub Heap : Type 0
Heap = List WorkerHealth

-- `Arc::new`: the place of the new record, and the heap with it.
unfoldable pub arc_new : WorkerHealth → Heap → ℕ × Heap
arc_new health heap = (length heap, heap ++ health ∷ [])

-- A write through an `Arc`.
unfoldable pub write : ℕ → WorkerHealth → Heap → Heap
write i health [] = []
write zero health (h ∷ heap) = health ∷ heap
write (suc i) health (h ∷ heap) = h ∷ write i health heap

-- The part of `AppState` that has to do with the worker.
pub record AppState : Type 0 where
  pub worker_health : ℕ

-- The end of `AppState::new`, at the time `now`.
unfoldable pub new_app_state : ℕ → Heap → AppState × Heap
unfolding arc_new
new_app_state now heap =
    let (place, behind) =
      arc_new
        (record {
          status = starting;
          last_heartbeat = now;
          jobs_processed = 0;
          uptime = 0;
          restart_count = 0;
          last_error = none;
        })
        heap in
    (record { worker_health = place }, behind)

-- A `WorkerHealthMonitor`, with the place of its record.
pub record SharedMonitor : Type 0 where
  pub health : ℕ
  pub start_time : ℕ

-- `WorkerHealthMonitor::new`.
unfoldable pub new_shared_monitor : ℕ → Heap → SharedMonitor × Heap
unfolding arc_new default_health
new_shared_monitor now heap =
    let (place, behind) = arc_new (default_health now) heap in
    (record { health = place; start_time = now }, behind)

-- What code does with a monitor, on the heap: it reads and writes the record behind the monitor.
unfoldable pub through : SharedMonitor → (WorkerHealthMonitor → WorkerHealthMonitor) → Heap → Heap
unfolding write
through monitor body heap = elim (get_elem? heap monitor.health) [
  | none ↦ heap
  | some h ↦
      write monitor.health (body (record { health = h; start_time = monitor.start_time })).health
        heap
]

-- A route reads the record behind the `Arc` of its state.
unfoldable pub read_health : AppState → Heap → Option WorkerHealth
read_health app_state heap = get_elem? heap app_state.worker_health

-- `main` as far as it concerns the worker's health: the state of the server, the monitor, and the
-- worker, which is given the monitor and has run some rounds.
module _ (debug_error : VectorizeError → Bytes) where
  unfoldable pub run_process :
      (now later begun started : ℕ) → List ((ℕ × ℕ) × Polled) → Heap → AppState × Heap
  unfolding new_app_state new_shared_monitor through start_vectorize_worker_with_monitoring
  run_process now later begun started rounds heap =
      let (app_state, with_state) = new_app_state now heap in
      let (monitor, with_monitor) = new_shared_monitor later with_state in
      (
        app_state,
        through monitor (start_vectorize_worker_with_monitoring debug_error begun started rounds)
            with_monitor,
      )
