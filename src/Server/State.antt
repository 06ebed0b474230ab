-- ===== src/Server/State.antt =====
-- server/src/app_state.rs: the start of the server, behind the connections to the database. The listener
-- runs on its own, and its first step waits for a second.
pub mod Loaded
use pg_vectorize.Base.{ℕ, List, ◌++◌, none, Bytes, codes}
use pg_vectorize.Base.Map.{Map}
use pg_vectorize.Base.Exec.{Exec, ok, err, panicked, VectorizeError, internal_error}
use pg_vectorize.Base.Session.{Request, Session, done, then_run, caught}
use pg_vectorize.Types.{VectorizeJob}
use pg_vectorize.Jobs.Rows.{Env}
use pg_vectorize.Jobs.Init.{init_project}
use pg_vectorize.Jobs.Environment.{Config}
use pg_vectorize.Server.Cache.{load_initial_job_cache, setup_job_change_notifications}
use pg_vectorize.Worker.Health.{WorkerHealth, starting}

pub record AppState : Type 0 where
  pub config : Config
  pub job_cache : Map VectorizeJob
  pub worker_health : WorkerHealth

-- `map_err` with a label in front of the error's text.
unfoldable pub labelled :
    {A : Type 0}
    → (display : VectorizeError → Bytes) → Bytes
    → List Request × Exec A
    → List Request × Exec A
labelled display label (sent, ok a) = (sent, ok a)
labelled display label (sent, err e) = (sent, err (internal_error (label ++ display e)))
labelled display label (sent, panicked) = (sent, panicked)

unfoldable pub labelled_session :
    {A : Type 0} → (display : VectorizeError → Bytes) → Bytes → Session A → Session A
unfolding labelled
labelled_session display label m oracle sent = labelled display label (m oracle sent)

-- The state at the time `now`, with the record of a worker's health that the routes read.
unfoldable pub started : Config → (now : ℕ) → Map VectorizeJob → AppState
started config now job_cache = record {
  config = config;
  job_cache = job_cache;
  worker_health = record {
    status = starting;
    last_heartbeat = now;
    jobs_processed = 0;
    uptime = 0;
    restart_count = 0;
    last_error = none;
  };
}

-- `install_sql` of the queue's library, and the text of an error.
module _ (env : Env) (install_sql : Session (Unit {0})) (display : VectorizeError → Bytes) where
  -- The set-up of the trigger, of which an error is only logged.
  unfoldable pub with_cache : Config → (now : ℕ) → Map VectorizeJob → Session AppState
  unfolding then_run caught setup_job_change_notifications done started
  with_cache config now job_cache =
      then_run (caught setup_job_change_notifications)
        λ set_up. done (ok (started config now job_cache))

  -- `AppState::new`.
  unfoldable pub new_state : Config → (now : ℕ) → Session AppState
  unfolding then_run labelled_session init_project load_initial_job_cache with_cache
  new_state config now =
      then_run
        (labelled_session display (codes "Failed to initialize project: ")
          (init_project env install_sql))
        λ _.
          then_run
            (labelled_session display (codes "Failed to load initial job cache: ")
              (load_initial_job_cache env))
            (with_cache config now)
