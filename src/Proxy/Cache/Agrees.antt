-- ===== src/Proxy/Cache/Agrees.antt =====
-- proxy/src/cache.rs and server/src/cache.rs: the two caches of jobs.
use pg_vectorize.Base.{◌≡◌, refl, ap, ◌∙◌, List, [], ◌∷◌, Bytes}
use pg_vectorize.Base.Map.{Map}
use pg_vectorize.Base.Result.{Result, okay, error}
use pg_vectorize.Base.Exec.{Exec, ok, err, panicked, VectorizeError}
use pg_vectorize.Base.Session.{Request, Oracle, Value, after, kept, caught, then_run, send, done}
use pg_vectorize.Types.{VectorizeJob}
use pg_vectorize.Jobs.Rows.{Env, job_from_row}
use pg_vectorize.Server.Cache
use pg_vectorize.Proxy.MessageParser.{ProxyConfig}
use pg_vectorize.Proxy.Cache.{
  write_jobmap, next_config, all_jobs_request, keyed_jobs, collected, read_jobs, fetch_jobmap,
  refresh_job_cache, listen_for_changes,
}

-- What the server's listener returns, with its map in the state of the proxy.
abbrev pub with_jobmap :
    ProxyConfig
    → List Request × Exec (Map VectorizeJob × Result VectorizeError (Unit {0}))
    → List Request × Exec (ProxyConfig × Result VectorizeError (Unit {0}))
with_jobmap config (sent, ok (jobmap, r)) = (sent, ok (record config { jobmap = jobmap }, r))
with_jobmap config (sent, err e) = (sent, err e)
with_jobmap config (sent, panicked) = (sent, panicked)

with_jobmap_twice :
    (config : ProxyConfig) (jobmap : Map VectorizeJob)
    (r : List Request × Exec (Map VectorizeJob × Result VectorizeError (Unit {0})))
    → with_jobmap (record config { jobmap = jobmap }) r ≡ with_jobmap config r
with_jobmap_twice config jobmap (sent, ok (m, r)) = refl
with_jobmap_twice config jobmap (sent, err e) = refl
with_jobmap_twice config jobmap (sent, panicked) = refl

-- Keying all jobs and then collecting the pairs, and inserting job by job.
collected-collect_jobs :
    (jobs : List VectorizeJob) (jobmap : Map VectorizeJob)
    → collected (keyed_jobs jobs) jobmap ≡ Cache.collect_jobs jobmap jobs
unfolding collected keyed_jobs Cache.collect_jobs Cache.taken
collected-collect_jobs [] jobmap = refl
collected-collect_jobs (item ∷ jobs) jobmap = collected-collect_jobs jobs _

module _ (env : Env) (oracle : Oracle) where
  read_jobs-jobs_of_rows :
      (rows : List (List Value)) → read_jobs env rows ≡ Cache.jobs_of_rows env rows
  unfolding read_jobs Cache.jobs_of_rows
  read_jobs-jobs_of_rows [] = refl
  read_jobs-jobs_of_rows (row ∷ rows) =
      ap
        (λ (more : Exec (List VectorizeJob)).
          elim (job_from_row env row) as (λ _. Exec (List VectorizeJob)) [
            | ok item ↦ elim more [
              | ok all_jobs ↦ ok (item ∷ all_jobs)
              | err e ↦ err e
              | panicked ↦ panicked
            ]
            | err e ↦ err e
            | panicked ↦ panicked
          ])
        (read_jobs-jobs_of_rows rows)

  -- Both send the same query and make the same map of its answer.
  fetch_jobmap-server :
      (sent : List Request)
      → fetch_jobmap env oracle sent ≡ Cache.load_initial_job_cache env oracle sent
  unfolding fetch_jobmap Cache.load_initial_job_cache then_run done all_jobs_request after
  fetch_jobmap-server sent = answered (send Cache.select_jobs oracle sent)
    where
      decoded :
          (s : List Request) (r : Exec (List VectorizeJob))
          → after (λ jobs. done (ok (collected (keyed_jobs jobs) []))) oracle (s, r)
            ≡ after (λ jobs. done (ok (Cache.collect_jobs [] jobs))) oracle (s, r)
      decoded s (ok jobs) = ap (λ m. (s, ok m)) (collected-collect_jobs jobs [])
      decoded s (err e) = refl
      decoded s panicked = refl

      answered :
          (r : List Request × Exec (List (List Value)))
          → after
              (λ rows.
                then_run
                  (done (read_jobs env rows))
                  λ jobs. done (ok (collected (keyed_jobs jobs) [])))
              oracle
              r
            ≡ after
                (λ rows.
                  then_run
                    (done (Cache.jobs_of_rows env rows))
                    λ jobs. done (ok (Cache.collect_jobs [] jobs)))
                oracle
                r
      answered (s, ok rows) =
          ap (λ jobs. after (λ jobs. done (ok (collected (keyed_jobs jobs) []))) oracle (s, jobs))
            (read_jobs-jobs_of_rows rows)
          ∙ decoded s (Cache.jobs_of_rows env rows)
      answered (s, err e) = refl
      answered (s, panicked) = refl

  -- Behind a refresh whose outcome is `r`.
  refreshed :
      (notifications : List Bytes) (closed : VectorizeError) (config : ProxyConfig)
      → ((c : ProxyConfig) (sent : List Request)
          → listen_for_changes env notifications closed c oracle sent
            ≡ with_jobmap c
                (Cache.listen_for_changes env notifications closed c.jobmap oracle sent))
      → (r : List Request × Exec (Result VectorizeError (Map VectorizeJob)))
      → after
          (listen_for_changes env notifications closed)
          oracle
          (after next_config oracle (after (write_jobmap config) oracle r))
        ≡ with_jobmap config (
            after (Cache.listen_for_changes env notifications closed) oracle (
              after Cache.next_notification oracle (after (Cache.replaced config.jobmap) oracle r)))
  unfolding after next_config write_jobmap Cache.next_notification Cache.replaced done
  refreshed notifications closed config further (sent, ok (okay jobmap)) =
      further (record config { jobmap = jobmap }) sent
      ∙ with_jobmap_twice config jobmap
          (Cache.listen_for_changes env notifications closed jobmap oracle sent)
  refreshed notifications closed config further (sent, ok (error e)) = further config sent
  refreshed notifications closed config further (sent, err e) = refl
  refreshed notifications closed config further (sent, panicked) = refl

  -- The proxy and the server follow the changes alike: on the same notifications and answers, the
  -- proxy's listener sends what the server's sends, ends with the same jobs and the same error of the
  -- connection, and leaves the prepared statements as they were.
  pub listen_for_changes-server :
      (notifications : List Bytes) (closed : VectorizeError) (config : ProxyConfig)
      (sent : List Request)
      → listen_for_changes env notifications closed config oracle sent
        ≡ with_jobmap config
            (Cache.listen_for_changes env notifications closed config.jobmap oracle sent)
  unfolding listen_for_changes Cache.listen_for_changes refresh_job_cache Cache.refresh_job_cache
      then_run done caught
  listen_for_changes-server [] closed config sent = refl
  listen_for_changes-server (payload ∷ notifications) closed config sent =
      refreshed notifications closed config (listen_for_changes-server notifications closed)
        (kept (fetch_jobmap env oracle sent))
      ∙ ap
          (λ r. with_jobmap config (
            after (Cache.listen_for_changes env notifications closed) oracle (
              after Cache.next_notification oracle
                (after (Cache.replaced config.jobmap) oracle (kept r)))))
          (fetch_jobmap-server sent)
