-- ===== src/Server/Search.antt =====
-- server/src/routes/search.rs: a search request.
pub mod Requests
use pg_vectorize.Base.{◌*◌, List, [], ◌∷◌, ◌++◌, Option, none, some, Bytes, codes, map}
use pg_vectorize.Base.Int.{ℤ, pos}
use pg_vectorize.Base.Map.{Map, get, insert}
use pg_vectorize.Base.Result.{Result, okay, error, and_then}
use pg_vectorize.Base.Exec.{Exec, ok, err, panicked, DbError, sql_error, ◌>>=◌}
use pg_vectorize.Base.Session.{
  Value, text, integer, boolean, float, floats, Request, run, Session, done, then_run, attempt,
  caught,
}
use pg_vectorize.Types.{VectorizeJob, ModelSource}
use pg_vectorize.Transformers.{Inputs, GenericEmbeddingRequest, prepare_generic_embedding_request}
use pg_vectorize.Query.Tables.{check_input}
use pg_vectorize.Query.Filters.{FilterValue, FilterValueType}
use pg_vectorize.Query.Search.{hybrid_search_query}
use pg_vectorize.Jobs.Rows.{Env, job_from_row}
use pg_vectorize.Worker.Executor.{Provider}
use pg_vectorize.Server.Errors.{
  ServerError, vectorize_error, not_found_error, database_error, internal_error, Handled, refused,
}

-- `filters` is a `BTreeMap`: its entries stand in the order of their keys.
pub record SearchRequest (Float : Type 0) : Type 0 where
  pub job_name : Bytes
  pub query : Bytes
  pub window_size : ℤ
  pub limit : ℤ
  pub rrf_k : Float
  pub semantic_wt : Float
  pub fts_wt : Float
  pub filters : Map (FilterValue Float)

unfoldable pub default_limit : ℤ
default_limit = pos 10

unfoldable pub default_window_size : ℤ
default_window_size = pos (5 * 10)

-- The check of the job's name and of each filter's key; the first that fails is the error.
unfoldable pub check_keys {ℓ} : {V : Type ℓ} → Map V → Result Bytes (Unit {0})
unfolding check_input
check_keys [] = okay tt
check_keys ((key, value) ∷ filters) =
    let rest = check_keys filters in and_then (check_input key) λ _. rest

unfoldable pub check_request : {Float : Type 0} → SearchRequest Float → Result Bytes (Unit {0})
unfolding check_input check_keys
check_request payload = and_then (check_input payload.job_name) λ _. check_keys payload.filters

-- `row.get("results")` of each row; a row of another column panics.
unfoldable pub json_results : List (List Value) → Exec (List Bytes)
json_results [] = ok []
json_results ((text document ∷ []) ∷ rows) = elim (json_results rows) [
  | ok documents ↦ ok (document ∷ documents)
  | err e ↦ err e
  | panicked ↦ panicked
]
json_results (row ∷ rows) = panicked

unfoldable pub answer_search :
    Map VectorizeJob → Result DbError (List (List Value)) → Session (Handled (List Bytes))
unfolding done json_results
answer_search cache (error e) = refused cache (database_error e)
answer_search cache (okay rows) = elim (json_results rows) [
  | ok documents ↦ done (ok (cache, okay documents))
  | err e ↦ done (err e)
  | panicked ↦ done panicked
]

unfoldable pub job_lookup : Bytes → Request
job_lookup job_name =
    run
      (codes
        "SELECT job_name, src_table, src_schema, src_columns, primary_key, update_time_col, model \n         FROM vectorize.job \n         WHERE job_name = $1")
      (text job_name ∷ [])

-- A number or a vector is bound as its bytes.
module _ {Float : Type 0} (encode : Float → Bytes) where
  unfoldable pub bind_value : FilterValueType Float → Value
  bind_value (FilterValueType.string s) = text s
  bind_value (FilterValueType.integer i) = integer i
  bind_value (FilterValueType.float x) = float (encode x)
  bind_value (FilterValueType.boolean b) = boolean b

  unfoldable pub search_values : SearchRequest Float → List Float → List Value
  unfolding bind_value
  search_values payload embedding =
      floats (map encode embedding)
      ∷ text payload.query
      ∷ map (λ (entry : Bytes × FilterValue Float). bind_value entry.1.value) payload.filters

unfoldable pub search_query :
    {Float : Type 0} → (Float → Bytes) → SearchRequest Float → VectorizeJob → Bytes
unfolding hybrid_search_query
search_query display_float payload job =
    hybrid_search_query display_float payload.job_name job.src_schema job.src_table job.primary_key
      (codes "*" ∷ []) payload.window_size payload.limit payload.rrf_k payload.semantic_wt
      payload.fts_wt payload.filters

module _ (env : Env) where
  -- `get_vectorize_job` of this file, on what the database answered.
  unfoldable pub job_of_answer :
      Bytes → Result DbError (List (List Value)) → Exec (Result ServerError VectorizeJob)
  unfolding job_from_row
  job_of_answer job_name (error e) = ok (error (database_error e))
  job_of_answer job_name (okay []) =
      ok (error (not_found_error (codes "Job not found: " ++ job_name)))
  job_of_answer job_name (okay (row ∷ rows)) = elim (job_from_row env row) [
    | ok job ↦ ok (okay job)
    | err (sql_error e) ↦ ok (error (database_error e))
    | err e ↦ ok (error (vectorize_error e))
    | panicked ↦ panicked
  ]

  unfoldable pub looked_up :
      Bytes → Result DbError (List (List Value)) → Session (Result ServerError VectorizeJob)
  unfolding done job_of_answer
  looked_up job_name answer = done (job_of_answer job_name answer)

  unfoldable pub get_vectorize_job : Bytes → Session (Result ServerError VectorizeJob)
  unfolding then_run attempt job_lookup looked_up
  get_vectorize_job job_name = then_run (attempt (job_lookup job_name)) (looked_up job_name)

-- A provider that is made and asked at once.
unfoldable pub embeddings_from :
    {Float : Type 0}
    → Provider Float
    → ModelSource
    → GenericEmbeddingRequest
    → Exec (List (List Float))
embeddings_from provider source request =
    provider.get_provider source >>= λ _. provider.generate_embedding source request

module _ {Float : Type 0} (env : Env) (provider : Provider Float)
    (display_float encode : Float → Bytes) where
  -- The query with the first embedding (`embeddings[0]` panics if there is none).
  unfoldable pub query_rows :
      SearchRequest Float
      → Map VectorizeJob
      → VectorizeJob
      → Exec (List (List Float))
      → Session (Handled (List Bytes))
  unfolding then_run attempt done search_query search_values answer_search
  query_rows payload cache job (err e) = refused cache (vectorize_error e)
  query_rows payload cache job panicked = done panicked
  query_rows payload cache job (ok []) = done panicked
  query_rows payload cache job (ok (embedding ∷ more)) =
      then_run
        (attempt
          (run (search_query display_float payload job) (search_values encode payload embedding)))
        (answer_search cache)

  unfoldable pub search_job :
      SearchRequest Float → Map VectorizeJob → VectorizeJob → Session (Handled (List Bytes))
  unfolding query_rows embeddings_from
  search_job payload cache job = query_rows payload cache job (
      embeddings_from provider job.model.source (
        prepare_generic_embedding_request job.model
          (record { record_id = []; inputs = payload.query; token_estimate = pos 0 } ∷ [])))

  -- A job that was looked up is written to the cache.
  unfoldable pub write_through :
      SearchRequest Float
      → Map VectorizeJob
      → Result ServerError VectorizeJob
      → Session (Handled (List Bytes))
  unfolding search_job done
  write_through payload cache (error e) = refused cache e
  write_through payload cache (okay job) =
      search_job payload (insert payload.job_name job cache) job

  unfoldable pub with_cached :
      SearchRequest Float → Map VectorizeJob → Option VectorizeJob → Session (Handled (List Bytes))
  unfolding then_run get_vectorize_job write_through search_job
  with_cached payload cache (some job) = search_job payload cache job
  with_cached payload cache none =
      then_run (get_vectorize_job env payload.job_name) (write_through payload cache)

  unfoldable pub search_internal :
      SearchRequest Float → Map VectorizeJob → Session (Handled (List Bytes))
  unfolding check_request with_cached done
  search_internal payload cache = elim (check_request payload) [
    | error e ↦ refused cache (internal_error e)
    | okay valid ↦ with_cached payload cache (get payload.job_name cache)
  ]
