-- ===== src/Server/Cache.antt =====
-- server/src/cache.rs: the cache of jobs and how it follows the changes in the database.
pub mod Refresh
use pg_vectorize.Base.{
  ℕ, ◌*◌, Bool, true, false, List, [], ◌∷◌, ◌++◌, Option, none, some, Bytes, codes, concat, min,
}
use pg_vectorize.Base.Map.{Map, insert}
use pg_vectorize.Base.Result.{Result, okay, error}
use pg_vectorize.Base.Exec.{Exec, ok, err, panicked, VectorizeError}
use pg_vectorize.Base.Session.{
  Value, Request, run, begin, commit, Session, done, then_run, send, send_all, caught,
}
use pg_vectorize.Types.{VectorizeJob}
use pg_vectorize.Jobs.Rows.{Env, job_from_row}

unfoldable pub create_notify_function : Bytes
create_notify_function = concat (
    codes "\n        CREATE OR REPLACE FUNCTION vectorize.notify_job_change()\n"
    ∷ codes "        RETURNS TRIGGER AS $$\n        BEGIN\n"
    ∷ codes "            IF TG_OP = 'DELETE' THEN\n"
    ∷ codes "                PERFORM pg_notify('vectorize_job_changes', \n"
    ∷ codes "                    json_build_object(\n"
    ∷ codes "                        'operation', TG_OP,\n"
    ∷ codes "                        'job_name', OLD.job_name\n                    )::text\n"
    ∷ codes "                );\n                RETURN OLD;\n            ELSE\n"
    ∷ codes "                PERFORM pg_notify('vectorize_job_changes', \n"
    ∷ codes "                    json_build_object(\n"
    ∷ codes "                        'operation', TG_OP,\n"
    ∷ codes "                        'job_name', NEW.job_name\n                    )::text\n"
    ∷ codes "                );\n                RETURN NEW;\n            END IF;\n        END;\n"
    ∷ codes "        $$ LANGUAGE plpgsql;\n    "
    ∷ [])

unfoldable pub create_trigger : Bytes
create_trigger = concat (
    codes "\n        CREATE TRIGGER job_change_trigger\n"
    ∷ codes "            AFTER INSERT OR UPDATE OR DELETE ON vectorize.job\n"
    ∷ codes "            FOR EACH ROW EXECUTE FUNCTION vectorize.notify_job_change();\n    "
    ∷ [])

-- In one transaction: the old trigger is dropped, then the function and the trigger are made.
unfoldable pub setup_job_change_notifications : Session (Unit {0})
unfolding send_all create_notify_function create_trigger
setup_job_change_notifications = send_all (
    begin
    ∷ run (codes "DROP TRIGGER IF EXISTS job_change_trigger ON vectorize.job;") []
    ∷ run create_notify_function []
    ∷ run create_trigger []
    ∷ commit
    ∷ [])

abbrev pub select_jobs : Request
select_jobs =
    run
      (codes
        "SELECT job_name, src_table, src_schema, src_columns, primary_key, update_time_col, model FROM vectorize.job")
      []

-- `std::mem::take(&mut item.job_name)`: what stays in the job.
unfoldable pub taken : VectorizeJob → VectorizeJob
taken item = record item { job_name = [] }

-- The pairs are collected in their order: a later one replaces an earlier one of the same name.
unfoldable pub collect_jobs : Map VectorizeJob → List VectorizeJob → Map VectorizeJob
unfolding insert taken
collect_jobs jobmap [] = jobmap
collect_jobs jobmap (item ∷ jobs) = collect_jobs (insert item.job_name (taken item) jobmap) jobs

-- The cache behind a refresh: the new map, or the old one with the error.
unfoldable pub replaced :
    Map VectorizeJob
    → Result VectorizeError (Map VectorizeJob)
    → Session (Map VectorizeJob × Result VectorizeError (Unit {0}))
unfolding done
replaced cache (okay jobmap) = done (ok (jobmap, okay tt))
replaced cache (error e) = done (ok (cache, error e))

unfoldable pub next_notification :
    Map VectorizeJob × Result VectorizeError (Unit {0}) → Session (Map VectorizeJob)
unfolding done
next_notification (cache, r) = done (ok cache)

module _ (env : Env) where
  -- The rows of `fetch_all` as jobs.
  unfoldable pub jobs_of_rows : List (List Value) → Exec (List VectorizeJob)
  unfolding job_from_row
  jobs_of_rows [] = ok []
  jobs_of_rows (row ∷ rows) =
      let rest = jobs_of_rows rows in
      elim (job_from_row env row) [
        | ok job ↦ elim rest [ ok jobs ↦ ok (job ∷ jobs) | err e ↦ err e | panicked ↦ panicked ]
        | err e ↦ err e
        | panicked ↦ panicked
      ]

  unfoldable pub load_initial_job_cache : Session (Map VectorizeJob)
  unfolding then_run send done jobs_of_rows collect_jobs
  load_initial_job_cache =
      then_run (send select_jobs)
        λ rows. then_run (done (jobs_of_rows rows)) λ jobs. done (ok (collect_jobs [] jobs))

  unfoldable pub refresh_job_cache :
      Map VectorizeJob → Session (Map VectorizeJob × Result VectorizeError (Unit {0}))
  unfolding then_run caught load_initial_job_cache replaced
  refresh_job_cache cache = then_run (caught load_initial_job_cache) (replaced cache)

  -- The loop of `try_listen_for_changes` on the notifications that are received before the connection
  -- fails with `closed`: each refreshes the cache, whatever its payload holds, and an error of the
  -- refresh is only logged. The loop ends with the error of the connection.
  unfoldable pub listen_for_changes :
      List Bytes
      → (closed : VectorizeError) → Map VectorizeJob
      → Session (Map VectorizeJob × Result VectorizeError (Unit {0}))
  unfolding then_run refresh_job_cache done next_notification
  listen_for_changes [] closed cache = done (ok (cache, error closed))
  listen_for_changes (payload ∷ notifications) closed cache =
      then_run (then_run (refresh_job_cache cache) next_notification)
        (listen_for_changes notifications closed)

abbrev pub max_retry_delay : ℕ
max_retry_delay = 60

-- The loop of `start_cache_sync_listener` over the outcomes of `try_listen_for_changes`, of which
-- `true` is `Ok`: the pauses in seconds.
unfoldable pub listener_pauses : ℕ → List Bool → List ℕ
listener_pauses retry_delay [] = []
listener_pauses retry_delay (true ∷ outcomes) = listener_pauses 1 outcomes
listener_pauses retry_delay (false ∷ outcomes) =
    retry_delay ∷ listener_pauses (min (retry_delay * 2) max_retry_delay) outcomes

unfoldable pub start_cache_sync_listener : List Bool → List ℕ
unfolding listener_pauses
start_cache_sync_listener = listener_pauses 1
