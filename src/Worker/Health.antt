-- ===== src/Worker/Health.antt =====
-- worker/src/health.rs: what a worker records of itself. A time is a number of nanoseconds, and
-- `elapsed().unwrap_or_default()` is 0 where the clock went back. The lock is left out: each method
-- holds it for its whole body.
use pg_vectorize.Base.{ℕ, ◌+◌, ◌-◌, ◌*◌, ◌%◌, ◌^◌, Bool, false, Option, none, some, Bytes, ltb}

pub data WorkerStatus : Type 0 where
  starting healthy : WorkerStatus
  error : Bytes → WorkerStatus
  dead : WorkerStatus

pub record WorkerHealth : Type 0 where
  pub status : WorkerStatus
  pub last_heartbeat : ℕ
  -- a u64
  pub jobs_processed : ℕ
  pub last_error : Option Bytes
  pub uptime : ℕ
  -- a u32
  pub restart_count : ℕ

pub record WorkerHealthMonitor : Type 0 where
  pub health : WorkerHealth
  pub start_time : ℕ

abbrev pub seconds : ℕ → ℕ
seconds n = n * 1000000000

-- `WorkerHealth::default` at the time `now`.
unfoldable pub default_health : ℕ → WorkerHealth
default_health now = record {
  status = starting;
  last_heartbeat = now;
  jobs_processed = 0;
  last_error = none;
  uptime = 0;
  restart_count = 0;
}

unfoldable pub new_monitor : ℕ → WorkerHealthMonitor
unfolding default_health
new_monitor now = record { health = default_health now; start_time = now }

-- The two assignments at the end of each method.
unfoldable pub touched : ℕ → WorkerHealthMonitor → WorkerHealth → WorkerHealthMonitor
touched now m h = record m {
  health = record h { last_heartbeat = now; uptime = now - m.start_time };
}

unfoldable pub heartbeat : ℕ → WorkerHealthMonitor → WorkerHealthMonitor
unfolding touched
heartbeat now m = touched now m m.health

unfoldable pub set_status : ℕ → WorkerStatus → WorkerHealthMonitor → WorkerHealthMonitor
unfolding touched
set_status now status m = touched now m (record m.health { status = status })

unfoldable pub job_processed : ℕ → WorkerHealthMonitor → WorkerHealthMonitor
unfolding touched
job_processed now m =
    touched now m (record m.health { jobs_processed = (m.health.jobs_processed + 1) % 2 ^ 64 })

unfoldable pub set_error : ℕ → Bytes → WorkerHealthMonitor → WorkerHealthMonitor
unfolding touched
set_error now message m =
    touched now m (record m.health { status = error message; last_error = some message })

unfoldable pub increment_restart : ℕ → WorkerHealthMonitor → WorkerHealthMonitor
unfolding touched
increment_restart now m =
    touched now m
      (record m.health { restart_count = (m.health.restart_count + 1) % 2 ^ 32; status = starting })

-- The match of `is_healthy`.
unfoldable pub is_fresh : WorkerStatus → ℕ → Bool
is_fresh healthy since = ltb since (seconds 60)
is_fresh starting since = ltb since (seconds 120)
is_fresh (error message) since = false
is_fresh dead since = false

unfoldable pub is_healthy : ℕ → WorkerHealthMonitor → Bool
unfolding is_fresh
is_healthy now m = is_fresh m.health.status (now - m.health.last_heartbeat)
