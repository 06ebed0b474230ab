-- ===== src/Worker/Supervisor.antt =====
-- worker/src/lib.rs: the loop of a worker. Each call of the health monitor is given the time at which
-- it is made; log lines are left out. The restarts are not modelled: the loop of a worker holds no
-- `break`, no `return` and no `?`, so that the code for its end is never reached.
pub mod Reports
use pg_vectorize.Base.{ℕ, List, [], ◌∷◌, ◌++◌, Option, none, some, Bytes, codes}
use pg_vectorize.Base.Result.{Result, okay, error}
use pg_vectorize.Base.Exec.{VectorizeError}
use pg_vectorize.Worker.Health.{
  WorkerHealthMonitor, starting, healthy, heartbeat, set_status, job_processed, set_error,
}

-- What `poll_job` returned in one round of the loop; a panic ends the task.
abbrev pub Polled : Type 0
Polled = Result VectorizeError (Option (Unit {0}))

-- `debug_error` is the text of `{e:?}`.
module _ (debug_error : VectorizeError → Bytes) where
  -- One round of the loop of `start_vectorize_worker_inner`: the monitor behind it, and whether it
  -- sleeps for the poll interval.
  unfoldable pub after_poll : ℕ → Polled → WorkerHealthMonitor → WorkerHealthMonitor
  unfolding job_processed set_error
  after_poll now (okay (some done)) m = job_processed now m
  after_poll now (okay none) m = m
  after_poll now (error e) m = set_error now (codes "Error processing job: " ++ debug_error e) m

  unfoldable pub worker_round : ℕ → ℕ → Polled → WorkerHealthMonitor → WorkerHealthMonitor
  unfolding heartbeat after_poll
  worker_round begun polled outcome m = after_poll polled outcome (heartbeat begun m)

  -- The loop on the rounds so far. It holds no `break` and no `return`.
  unfoldable pub worker_rounds : List ((ℕ × ℕ) × Polled) → WorkerHealthMonitor → WorkerHealthMonitor
  unfolding worker_round
  worker_rounds [] m = m
  worker_rounds (((begun, polled), outcome) ∷ rounds) m =
      worker_rounds rounds (worker_round begun polled outcome m)

  -- `start_vectorize_worker_inner` up to the end of some rounds.
  unfoldable pub start_vectorize_worker_inner :
      ℕ → List ((ℕ × ℕ) × Polled) → WorkerHealthMonitor → WorkerHealthMonitor
  unfolding set_status worker_rounds
  start_vectorize_worker_inner now rounds m = worker_rounds rounds (set_status now healthy m)

  -- `start_vectorize_worker_with_monitoring` up to the end of some rounds: the first turn of its loop,
  -- which `start_vectorize_worker_inner` never leaves, so that the code behind that call is not
  -- reached.
  unfoldable pub start_vectorize_worker_with_monitoring :
      (begun started : ℕ) → List ((ℕ × ℕ) × Polled) → WorkerHealthMonitor → WorkerHealthMonitor
  unfolding set_status start_vectorize_worker_inner
  start_vectorize_worker_with_monitoring begun started rounds m =
      start_vectorize_worker_inner started rounds (set_status begun starting m)
