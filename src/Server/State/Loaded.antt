-- ===== src/Server/State/Loaded.antt =====
-- server/src/app_state.rs and server/src/cache.rs: which jobs the server holds when it starts.
use pg_vectorize.Base.{
  ◌≡◌, refl, ap, ◌∙◌, List, [], ◌∷◌, ◌++◌, Option, none, some, Bool, true, false, Bytes, codes,
  text_eq, if◌then◌else◌, ℕ,
}
use pg_vectorize.Base.Map.{Map, get, insert, get-insert}
use pg_vectorize.Base.Result.{Result, okay}
use pg_vectorize.Base.Exec.{ok, VectorizeError}
use pg_vectorize.Base.Session.{
  Value, Request, Oracle, Session, done, then_run, then_run-ok, send, send-okay, caught,
}
use pg_vectorize.Types.{VectorizeJob}
use pg_vectorize.Jobs.Rows.{Env}
use pg_vectorize.Jobs.Init.{init_project}
use pg_vectorize.Jobs.Environment.{Config}
use pg_vectorize.Server.Cache.{
  select_jobs, taken, collect_jobs, jobs_of_rows, load_initial_job_cache,
  setup_job_change_notifications,
}
use pg_vectorize.Server.State.{AppState, labelled, labelled_session, started, with_cache, new_state}

-- The last job of a name, as it is held.
abbrev pub last_job : Bytes → List VectorizeJob → Option VectorizeJob
last_job name [] = none
last_job name (job ∷ jobs) = elim (last_job name jobs) [
  | some held ↦ some held
  | none ↦ if text_eq job.job_name name then some (taken job) else none
]

abbrev or_held : Option VectorizeJob → Option VectorizeJob → Option VectorizeJob
or_held (some job) held = some job
or_held none held = held

behind_first :
    (last held : Option VectorizeJob) (b : Bool) (job : VectorizeJob)
    → or_held last (if b then some job else held)
      ≡ or_held (elim last [ some held ↦ some held | none ↦ if b then some job else none ]) held
behind_first (some j) held b job = refl
behind_first none held true job = refl
behind_first none held false job = refl

get-collect_jobs :
    (name : Bytes) (jobmap : Map VectorizeJob) (jobs : List VectorizeJob)
    → get name (collect_jobs jobmap jobs) ≡ or_held (last_job name jobs) (get name jobmap)
unfolding collect_jobs
get-collect_jobs name jobmap [] = refl
get-collect_jobs name jobmap (job ∷ jobs) =
    get-collect_jobs name (insert job.job_name (taken job) jobmap) jobs
    ∙ (ap (or_held (last_job name jobs)) (get-insert job.job_name name (taken job) jobmap)
        ∙ behind_first (last_job name jobs) (get name jobmap) (text_eq job.job_name name)
            (taken job))

or_held-none : (o : Option VectorizeJob) → or_held o none ≡ o
or_held-none none = refl
or_held-none (some job) = refl

module _ (env : Env) (install_sql : Session (Unit {0})) (display : VectorizeError → Bytes) where
  load-okay :
      (oracle : Oracle) (sent : List Request) (rows : List (List Value)) (jobs : List VectorizeJob)
      → oracle sent select_jobs ≡ okay rows
      → jobs_of_rows env rows ≡ ok jobs
      → load_initial_job_cache env oracle sent
        ≡ (sent ++ select_jobs ∷ [], ok (collect_jobs [] jobs))
  unfolding load_initial_job_cache done
  load-okay oracle sent rows jobs answered read =
      then_run-ok (send select_jobs)
        (λ rows. then_run (done (jobs_of_rows env rows)) λ jobs. done (ok (collect_jobs [] jobs)))
        oracle sent (send-okay select_jobs oracle sent answered)
      ∙ then_run-ok (done (jobs_of_rows env rows)) (λ jobs. done (ok (collect_jobs [] jobs))) oracle
          (sent ++ select_jobs ∷ []) {a = jobs} (ap (λ r. (sent ++ select_jobs ∷ [], r)) read)

  -- If the project can be set up and the jobs can be read, the server starts, whether the trigger can
  -- be made or not. It then holds, under each name, the last job of that name that was read, and
  -- under no other name a job.
  pub new_state-loads :
      (config : Config) (now : ℕ) (oracle : Oracle) (sent init end : List Request)
      (rows : List (List Value)) (jobs : List VectorizeJob)
      (set_up : Result VectorizeError (Unit {0}))
      → init_project env install_sql oracle sent ≡ (init, ok tt)
      → oracle init select_jobs ≡ okay rows
      → jobs_of_rows env rows ≡ ok jobs
      → caught setup_job_change_notifications oracle (init ++ select_jobs ∷ []) ≡ (end, ok set_up)
      → (state : AppState) × (new_state env install_sql display config now oracle sent
          ≡ (end, ok state))
        × ((name : Bytes) → get name state.job_cache ≡ last_job name jobs)
  unfolding new_state labelled_session labelled with_cache started done get
  new_state-loads config now oracle sent init end rows jobs set_up initialised answered read made =
      (
        started config now (collect_jobs [] jobs),
        then_run-ok
              (labelled_session display (codes "Failed to initialize project: ")
                (init_project env install_sql))
              (λ _. then_run loaded (with_cache env install_sql display config now)) oracle sent
              (ap (labelled display (codes "Failed to initialize project: ")) initialised)
            ∙ (then_run-ok loaded (with_cache env install_sql display config now) oracle init (
                  ap (labelled display (codes "Failed to load initial job cache: "))
                    (load-okay oracle init rows jobs answered read))
                ∙ then_run-ok (caught setup_job_change_notifications)
                    (λ set_up. done (ok (started config now (collect_jobs [] jobs)))) oracle
                    (init ++ select_jobs ∷ []) made),
        λ name. get-collect_jobs name [] jobs ∙ or_held-none (last_job name jobs),
      )
    where
      loaded : Session (Map VectorizeJob)
      loaded =
          labelled_session display (codes "Failed to load initial job cache: ")
            (load_initial_job_cache env)
