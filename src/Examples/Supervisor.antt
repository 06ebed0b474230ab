-- ===== src/Examples/Supervisor.antt =====
-- A worker that fails, and the process that reports its health.
use pg_vectorize.Base.{
  ◌-◌, ltb, if◌then◌else◌, ◌≡◌, false, arith, List, [], ◌∷◌, ◌++◌, some, Bytes, codes,
}
use pg_vectorize.Base.Result.{okay, error}
use pg_vectorize.Base.Exec.{VectorizeError, internal_error}
use pg_vectorize.Worker.Health.{WorkerHealth, error as failing, seconds, new_monitor, is_healthy}
use pg_vectorize.Worker.Supervisor.{worker_rounds, start_vectorize_worker_with_monitoring}
use pg_vectorize.Worker.Supervisor.Reports.{
  Round, worker_rounds-never_healthy_again, start_vectorize_worker_with_monitoring-Reports,
}
use pg_vectorize.Server.Health.{read_health, health_check, readiness_check, run_process}
use pg_vectorize.Server.Health.Reported.{run_process-never_ready}

abbrev debug_error : VectorizeError → Bytes
debug_error e = codes "InternalError"

-- One poll fails, and the next two take a message each.
worker_rounds-never_healthy_again_example :
    is_healthy 4 (
      worker_rounds debug_error
        ([]
          ++ ((1, 1), error (internal_error (codes "down")))
            ∷ ((2, 2), okay (some tt))
            ∷ ((3, 3), okay (some tt))
            ∷ [])
        (new_monitor 0))
    ≡ false
worker_rounds-never_healthy_again_example =
    worker_rounds-never_healthy_again debug_error []
      (((2, 2), okay (some tt)) ∷ ((3, 3), okay (some tt)) ∷ []) 1 1 4
      (internal_error (codes "down")) (new_monitor 0)

-- Two jobs are processed, and one poll in between fails.
abbrev three_rounds : List Round
three_rounds =
    ((2, 3), okay (some tt))
    ∷ ((4, 5), error (internal_error (codes "down")))
    ∷ ((6, 7), okay (some tt))
    ∷ []

start_vectorize_worker_with_monitoring-Reports_example :
    ((start_vectorize_worker_with_monitoring debug_error 0 1 three_rounds
        (new_monitor 0)).health.status
      ≡ failing (codes "Error processing job: InternalError"))
    × ((start_vectorize_worker_with_monitoring debug_error 0 1 three_rounds
          (new_monitor 0)).health.jobs_processed
        ≡ 2)
    × ((start_vectorize_worker_with_monitoring debug_error 0 1 three_rounds
          (new_monitor 0)).health.restart_count
        ≡ 0)
unfolding new_monitor
start_vectorize_worker_with_monitoring-Reports_example =
    start_vectorize_worker_with_monitoring-Reports debug_error 0 1 three_rounds (new_monitor 0)
      (omega arith)

run_process-never_ready_example :
    (h : WorkerHealth) × (read_health
        (run_process debug_error 0 1 2 3 three_rounds []).0
        (run_process debug_error 0 1 2 3 three_rounds []).1
      ≡ some h)
    × ((readiness_check h).code ≡ 503)
    × ((health_check (seconds 200) h).code
        ≡ (if ltb (seconds 200 - 0) (seconds 120) then 200 else 503))
run_process-never_ready_example =
    run_process-never_ready debug_error 0 1 2 3 (seconds 200) three_rounds []
