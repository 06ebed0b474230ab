-- ===== src/Examples/Start.antt =====
-- The start of the server.
use pg_vectorize.Base.{◌≡◌, refl, true, false, List, [], ◌∷◌, ◌++◌, none, Bytes, codes, text_eq}
use pg_vectorize.Base.Text.{split, join}
use pg_vectorize.Base.Int.{pos}
use pg_vectorize.Base.Map.{get}
use pg_vectorize.Base.Result.{okay, error}
use pg_vectorize.Base.Exec.{ok, sql_error, row_not_found}
use pg_vectorize.Base.Session.{Request, Oracle, boolean, begin, done, caught}
use pg_vectorize.Jobs.Init.{init_project}
use pg_vectorize.Jobs.Environment.{Config}
use pg_vectorize.Server.Cache.{select_jobs, jobs_of_rows, setup_job_change_notifications}
use pg_vectorize.Server.State.{AppState, new_state}
use pg_vectorize.Server.State.Loaded.{last_job, new_state-loads}
use pg_vectorize.Examples.Jobs.{env, job, job_row}

-- Both schemas are there, there is one job, and the trigger cannot be made.
abbrev starts : Oracle
starts [] r = okay ((boolean true ∷ []) ∷ [])
starts (_ ∷ []) r = okay []
starts (_ ∷ _ ∷ []) r = okay []
starts (_ ∷ _ ∷ _ ∷ []) r = okay ((boolean true ∷ []) ∷ [])
starts (_ ∷ _ ∷ _ ∷ _ ∷ []) r = okay (job_row ∷ [])
starts (_ ∷ _ ∷ _ ∷ _ ∷ _ ∷ sent) r = error row_not_found

abbrev initialised : List Request
initialised = (init_project env (done (ok tt)) starts []).0

abbrev variables : Config
variables = record {
  proxy_enabled = false;
  vectorize_proxy_port = 5433;
  database_url = codes "postgres://";
  queue_name = codes "vectorize_jobs";
  embedding_svc_url = codes "http://";
  openai_api_key = none;
  ollama_svc_url = codes "http://";
  embedding_request_timeout = pos 6;
  poll_interval = 2;
  poll_interval_error = 10;
  max_retries = pos 2;
  webserver_port = 8080;
  num_server_workers = 8;
  database_pool_max = 18;
  database_cache_pool_max = 2;
}

new_state-loads_example :
    (state : AppState) × (new_state env (done (ok tt)) (λ e. []) variables 0 starts []
      ≡ (initialised ++ select_jobs ∷ begin ∷ [], ok state))
    × ((name : Bytes) → get name state.job_cache ≡ last_job name (job ∷ []))
unfolding init_project jobs_of_rows split text_eq join caught setup_job_change_notifications
new_state-loads_example =
    new_state-loads env (done (ok tt)) (λ e. []) variables 0 starts [] initialised
      (initialised ++ select_jobs ∷ begin ∷ []) (job_row ∷ []) (job ∷ [])
      (error (sql_error row_not_found)) refl refl refl refl
