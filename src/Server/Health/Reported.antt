-- ===== src/Server/Health/Reported.antt =====
-- What the running process reports.
use pg_vectorize.Base.{
  ℕ, zero, suc, ◌-◌, ◌/◌, ◌<◌, ◌≡◌, ◌≢◌, refl, ap, ◌∙◌, arith, if◌then◌else◌, List, [], ◌∷◌, ◌++◌,
  Option, none, some, Bytes, ltb, length, length-append, get_elem?, get_elem?-append_lt,
}
use pg_vectorize.Base.Exec.{VectorizeError}
use pg_vectorize.Worker.Health.{
  starting, WorkerHealth, WorkerHealthMonitor, seconds, default_health,
}
use pg_vectorize.Worker.Supervisor.{Polled, start_vectorize_worker_with_monitoring}
use pg_vectorize.Server.Health.{
  counts_as_healthy, health_check, readiness_check, Heap, arc_new, write, SharedMonitor, through,
  new_app_state, new_shared_monitor, read_health, run_process,
}

get-write_other :
    (i j : ℕ) (h : WorkerHealth) (heap : Heap)
    → i ≢ j
    → get_elem? (write i h heap) j ≡ get_elem? heap j
unfolding write
get-write_other i j h [] ne = refl
get-write_other zero zero h (x ∷ heap) ne = absurd (ne refl)
get-write_other zero (suc j) h (x ∷ heap) ne = refl
get-write_other (suc i) zero h (x ∷ heap) ne = refl
get-write_other (suc i) (suc j) h (x ∷ heap) ne = get-write_other i j h heap (λ e. ne (ap suc e))

get-through_other :
    (monitor : SharedMonitor) (body : WorkerHealthMonitor → WorkerHealthMonitor) (j : ℕ)
    (heap : Heap)
    → monitor.health ≢ j
    → get_elem? (through monitor body heap) j ≡ get_elem? heap j
unfolding through
get-through_other monitor body j heap ne = go (get_elem? heap monitor.health)
  where
    go :
        (r : Option WorkerHealth)
        → get_elem?
            (elim r as (λ _. Heap) [
              | none ↦ heap
              | some h ↦
                  write monitor.health
                    (body (record { health = h; start_time = monitor.start_time })).health
                    heap
            ])
            j
          ≡ get_elem? heap j
    go none = refl
    go (some h) = get-write_other monitor.health j _ heap ne

get-append_last :
    (heap : Heap) (h : WorkerHealth) → get_elem? (heap ++ h ∷ []) (length heap) ≡ some h
get-append_last [] h = refl
get-append_last (x ∷ heap) h = get-append_last heap h

module _ (debug_error : VectorizeError → Bytes) where
  -- Whatever the worker of the process does, in any number of rounds, the routes read the record that
  -- the state of the server was made with: the process never reports that it is ready, and it reports
  -- that it is healthy for exactly the first two minutes behind its start.
  pub run_process-never_ready :
      (start later begun started now : ℕ) (rounds : List ((ℕ × ℕ) × Polled)) (heap : Heap)
      → (h : WorkerHealth) × (read_health
            (run_process debug_error start later begun started rounds heap).0
            (run_process debug_error start later begun started rounds heap).1
          ≡ some h)
        × ((readiness_check h).code ≡ 503)
        × ((health_check now h).code ≡ (if ltb (now - start) (seconds 120) then 200 else 503))
  unfolding run_process new_app_state new_shared_monitor arc_new read_health readiness_check
      health_check counts_as_healthy
  run_process-never_ready start later begun started now rounds heap = (
    fresh,
    get-through_other (record { health = length (heap ++ fresh ∷ []); start_time = later })
          (start_vectorize_worker_with_monitoring debug_error begun started rounds) (length heap)
          ((heap ++ fresh ∷ []) ++ default_health later ∷ []) apart
        ∙ (get_elem?-append_lt (heap ++ fresh ∷ []) (default_health later ∷ []) (length heap) within
            ∙ get-append_last heap fresh),
    refl,
    ap (λ b. if b then 200 else 503) rounded,
  )
    where
      fresh : WorkerHealth
      fresh = record {
        status = starting;
        last_heartbeat = start;
        jobs_processed = 0;
        uptime = 0;
        restart_count = 0;
        last_error = none;
      }

      within : length heap < length (heap ++ fresh ∷ [])
      within = omega (arith, length-append heap (fresh ∷ []))

      apart : length (heap ++ fresh ∷ []) ≢ length heap
      apart e = absurd (omega (arith, length-append heap (fresh ∷ []), e))

      rounded : ltb ((now - start) / seconds 1) 120 ≡ ltb (now - start) (seconds 120)
      rounded = ground arith
