-- ===== src/Proxy/Cache.antt =====
-- proxy/src/cache.rs: the proxy's jobs and how they follow the changes in the database. The set-up of
-- the trigger and the pauses between two connections are, line by line, those of the server's cache.
pub mod Agrees
use pg_vectorize.Base.{List, [], ◌∷◌, Bytes, codes}
use pg_vectorize.Base.Map.{Map, insert}
use pg_vectorize.Base.Result.{Result, okay, error}
use pg_vectorize.Base.Exec.{Exec, ok, err, panicked, VectorizeError}
use pg_vectorize.Base.Session.{Value, Request, run, Session, done, then_run, send, caught}
use pg_vectorize.Types.{VectorizeJob}
use pg_vectorize.Jobs.Rows.{Env, job_from_row}
use pg_vectorize.Proxy.MessageParser.{ProxyConfig}

unfoldable pub all_jobs_request : Request
all_jobs_request =
    run
      (codes
        "SELECT job_name, src_table, src_schema, src_columns, primary_key, update_time_col, model FROM vectorize.job")
      []

-- The pairs of a name, which is taken out of the job, and the job, in the order of the jobs.
unfoldable pub keyed_jobs : List VectorizeJob → Map VectorizeJob
keyed_jobs [] = []
keyed_jobs (item ∷ all_jobs) = (item.job_name, record item { job_name = [] }) ∷ keyed_jobs all_jobs

-- `collect` into the hash map: each pair is inserted.
unfoldable pub collected : List (Bytes × VectorizeJob) → Map VectorizeJob → Map VectorizeJob
unfolding insert
collected [] jobmap = jobmap
collected ((key, item) ∷ pairs) jobmap = collected pairs (insert key item jobmap)

-- The write to the map of jobs behind a refresh, or none with the error.
unfoldable pub write_jobmap :
    ProxyConfig
    → Result VectorizeError (Map VectorizeJob)
    → Session (ProxyConfig × Result VectorizeError (Unit {0}))
unfolding done
write_jobmap config (okay jobmap) = done (ok (record config { jobmap = jobmap }, okay tt))
write_jobmap config (error e) = done (ok (config, error e))

-- An error of a refresh is only logged.
unfoldable pub next_config : ProxyConfig × Result VectorizeError (Unit {0}) → Session ProxyConfig
unfolding done
next_config (config, r) = done (ok config)

module _ (env : Env) where
  -- `query_as` reads each row; the first error is returned.
  unfoldable pub read_jobs : List (List Value) → Exec (List VectorizeJob)
  unfolding job_from_row
  read_jobs [] = ok []
  read_jobs (row ∷ rows) =
      let more = read_jobs rows in
      elim (job_from_row env row) [
        | ok item ↦ elim more [
          | ok all_jobs ↦ ok (item ∷ all_jobs)
          | err e ↦ err e
          | panicked ↦ panicked
        ]
        | err e ↦ err e
        | panicked ↦ panicked
      ]

  -- The jobs of `refresh_job_cache`, up to its write.
  unfoldable pub fetch_jobmap : Session (Map VectorizeJob)
  unfolding then_run send done all_jobs_request read_jobs keyed_jobs collected
  fetch_jobmap = then_run (send all_jobs_request) λ rows.
      then_run (done (read_jobs rows)) λ all_jobs. done (ok (collected (keyed_jobs all_jobs) []))

  -- `load_initial_job_cache`, which has the lines of the beginning of `refresh_job_cache`.
  unfoldable load_initial_job_cache : Session (Map VectorizeJob)
  unfolding fetch_jobmap
  load_initial_job_cache = fetch_jobmap

  unfoldable pub refresh_job_cache :
      ProxyConfig → Session (ProxyConfig × Result VectorizeError (Unit {0}))
  unfolding then_run caught fetch_jobmap write_jobmap
  refresh_job_cache config = then_run (caught fetch_jobmap) (write_jobmap config)

  -- The loop of `try_listen_for_changes` on the notifications that are received before the connection
  -- fails with `closed`.
  unfoldable pub listen_for_changes :
      List Bytes
      → (closed : VectorizeError) → ProxyConfig
      → Session (ProxyConfig × Result VectorizeError (Unit {0}))
  unfolding then_run refresh_job_cache done next_config
  listen_for_changes [] closed config = done (ok (config, error closed))
  listen_for_changes (payload ∷ notifications) closed config =
      then_run (then_run (refresh_job_cache config) next_config)
        (listen_for_changes notifications closed)
