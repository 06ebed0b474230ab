-- ===== src/Worker/Supervisor/Reports.antt =====
-- What a worker reports while it runs.
use pg_vectorize.Base.{
  ℕ, ◌+◌, ◌%◌, ◌^◌, ◌<◌, ◌≡◌, refl, ◌∙◌, arith, false, List, [], ◌∷◌, ◌++◌, none, some, Bytes,
  codes,
}
use pg_vectorize.Base.Result.{okay, error}
use pg_vectorize.Base.Exec.{VectorizeError}
use pg_vectorize.Worker.Health.{
  WorkerStatus, WorkerHealth, WorkerHealthMonitor, error as failing, healthy, heartbeat, set_status,
  touched, job_processed, set_error, is_fresh, is_healthy,
}
use pg_vectorize.Worker.Supervisor.{
  Polled, after_poll, worker_round, worker_rounds, start_vectorize_worker_inner,
  start_vectorize_worker_with_monitoring,
}

abbrev pub Round : Type 0
Round = (ℕ × ℕ) × Polled

-- The monitor holds the status of an error.
abbrev pub HasFailed : WorkerHealthMonitor → Type 0
HasFailed m = (e : Bytes) × (m.health.status ≡ failing e)

module _ (debug_error : VectorizeError → Bytes) where
  worker_round-HasFailed :
      (begun polled : ℕ) (outcome : Polled) (m : WorkerHealthMonitor)
      → HasFailed m
      → HasFailed (worker_round debug_error begun polled outcome m)
  unfolding worker_round after_poll heartbeat job_processed set_error touched
  worker_round-HasFailed begun polled (okay (some done)) m h = h
  worker_round-HasFailed begun polled (okay none) m h = h
  worker_round-HasFailed begun polled (error e) m h = (_, refl)

  worker_rounds-HasFailed :
      (rounds : List Round) (m : WorkerHealthMonitor)
      → HasFailed m
      → HasFailed (worker_rounds debug_error rounds m)
  unfolding worker_rounds
  worker_rounds-HasFailed [] m h = h
  worker_rounds-HasFailed (((begun, polled), outcome) ∷ rounds) m h =
      worker_rounds-HasFailed rounds _ (worker_round-HasFailed begun polled outcome m h)

  after_error-HasFailed :
      (before after : List Round) (begun polled : ℕ) (e : VectorizeError) (m : WorkerHealthMonitor)
      → HasFailed (worker_rounds debug_error (before ++ ((begun, polled), error e) ∷ after) m)
  unfolding worker_rounds worker_round after_poll set_error touched
  after_error-HasFailed [] after begun polled e m = worker_rounds-HasFailed after _ (_, refl)
  after_error-HasFailed (((b, p), outcome) ∷ before) after begun polled e m =
      after_error-HasFailed before after begun polled e _

  not_healthy : (now : ℕ) (m : WorkerHealthMonitor) → HasFailed m → is_healthy now m ≡ false
  unfolding is_healthy is_fresh
  not_healthy now m (e, h) = rw h

  -- Once a poll of the loop has failed, the worker counts as unhealthy at every later time, whatever
  -- the rounds behind it do.
  pub worker_rounds-never_healthy_again :
      (before after : List Round) (begun polled now : ℕ) (e : VectorizeError)
      (m : WorkerHealthMonitor)
      → is_healthy now (worker_rounds debug_error (before ++ ((begun, polled), error e) ∷ after) m)
        ≡ false
  worker_rounds-never_healthy_again before after begun polled now e m =
      not_healthy now _ (after_error-HasFailed before after begun polled e m)

-- The number of rounds that processed a job.
abbrev pub processed : List Round → ℕ
processed [] = 0
processed ((times, okay (some done)) ∷ rounds) = 1 + processed rounds
processed ((times, okay none) ∷ rounds) = processed rounds
processed ((times, error e) ∷ rounds) = processed rounds

module _ (debug_error : VectorizeError → Bytes) where
  -- The error of the last round that failed; `otherwise` if none did.
  abbrev pub last_failure : WorkerStatus → List Round → WorkerStatus
  last_failure otherwise [] = otherwise
  last_failure otherwise ((times, okay r) ∷ rounds) = last_failure otherwise rounds
  last_failure otherwise ((times, error e) ∷ rounds) =
      last_failure (failing (codes "Error processing job: " ++ debug_error e)) rounds

  -- The record behind some rounds, from the one before them.
  abbrev pub Reports : List Round → WorkerHealth → WorkerHealth → Type 0
  Reports rounds before behind =
      (behind.status ≡ last_failure before.status rounds)
      × (behind.jobs_processed ≡ (before.jobs_processed + processed rounds) % 2 ^ 64)
      × (behind.restart_count ≡ before.restart_count)

  worker_rounds-Reports :
      (rounds : List Round) (m : WorkerHealthMonitor)
      → m.health.jobs_processed < 2 ^ 64
      → Reports rounds m.health (worker_rounds debug_error rounds m).health
  unfolding worker_rounds worker_round after_poll heartbeat job_processed set_error touched
  worker_rounds-Reports [] m small = (refl, omega arith, refl)
  worker_rounds-Reports (((begun, polled), okay (some done)) ∷ rounds) m small =
      let (s, n, r) =
        worker_rounds-Reports rounds (worker_round debug_error begun polled (okay (some done)) m)
          (omega arith) in
      (s, n ∙ omega arith, r)
  worker_rounds-Reports (((begun, polled), okay none) ∷ rounds) m small =
      worker_rounds-Reports rounds (worker_round debug_error begun polled (okay none) m) small
  worker_rounds-Reports (((begun, polled), error e) ∷ rounds) m small =
      worker_rounds-Reports rounds (worker_round debug_error begun polled (error e) m) small

  -- After any number of rounds of the worker, its status is the error of the last poll that failed,
  -- whatever the rounds behind it did, and healthy if no poll has failed; it has counted one job for
  -- each poll that processed one, modulo 2^64, and no restart.
  pub start_vectorize_worker_with_monitoring-Reports :
      (begun started : ℕ) (rounds : List Round) (m : WorkerHealthMonitor)
      → m.health.jobs_processed < 2 ^ 64
      → ((start_vectorize_worker_with_monitoring debug_error begun started rounds m).health.status
          ≡ last_failure healthy rounds)
        × ((start_vectorize_worker_with_monitoring debug_error begun started rounds
              m).health.jobs_processed
            ≡ (m.health.jobs_processed + processed rounds) % 2 ^ 64)
        × ((start_vectorize_worker_with_monitoring debug_error begun started rounds
              m).health.restart_count
            ≡ m.health.restart_count)
  unfolding start_vectorize_worker_with_monitoring start_vectorize_worker_inner set_status touched
  start_vectorize_worker_with_monitoring-Reports begun started rounds m small =
      worker_rounds-Reports rounds _ small
