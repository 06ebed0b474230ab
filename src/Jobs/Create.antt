-- ===== src/Jobs/Create.antt =====
-- `initialize_job` of core/src/init.rs: a job's record, its tables, its triggers and its first
-- messages. A transaction that is left before `commit` is rolled back by the library when the handle is
-- dropped; no request stands for that.
pub mod Order
use pg_vectorize.Base.{ℕ, ◌≡◌, refl, List, [], ◌∷◌, ◌++◌, some, Bytes, codes, map, concat}
use pg_vectorize.Base.Text.{join}
use pg_vectorize.Base.Numbers.{decimal}
use pg_vectorize.Base.Exec.{Exec, ok, err, panicked, ◌>>=◌}
use pg_vectorize.Base.Session.{
  Value, text, texts, Request, run, begin, commit, Session, done, then_run, send, send_all,
}
use pg_vectorize.Types.{VectorizeJob, Model, ModelSource, display_source, api_name}
use pg_vectorize.Query.Tables.{
  create_embedding_table, create_search_tokens_table, create_project_view, create_hnsw_cosine_index,
  create_fts_index_query,
}
use pg_vectorize.Query.Triggers.{
  create_trigger_handler, create_event_trigger, update_search_tokens_trigger_queries,
}
use pg_vectorize.Jobs.Rows.{Env, fetch_one, scalar_text, get_column_datatype, scan_job}

-- The upsert of the job's record.
abbrev insert_job : Bytes
insert_job = concat (
    codes
      "\n        INSERT INTO vectorize.job (job_name, src_schema, src_table, src_columns, primary_key, update_time_col, model)\n"
    ∷ codes
        "        VALUES ($1, $2, $3, $4, $5, $6, $7)\n        ON CONFLICT (job_name) DO UPDATE SET\n"
    ∷ codes
        "            src_schema = EXCLUDED.src_schema,\n            src_table = EXCLUDED.src_table,\n"
    ∷ codes
        "            src_columns = EXCLUDED.src_columns,\n            primary_key = EXCLUDED.primary_key,\n"
    ∷ codes
        "            update_time_col = EXCLUDED.update_time_col,\n            model = EXCLUDED.model\n        RETURNING id"
    ∷ [])

unfoldable pub insert_job_request : VectorizeJob → Request
insert_job_request job = run insert_job (
    text job.job_name
    ∷ text job.src_schema
    ∷ text job.src_table
    ∷ texts job.src_columns
    ∷ text job.primary_key
    ∷ text job.update_time_col
    ∷ text job.model.fullname
    ∷ [])

-- `sqlx::query(&q)` without a parameter.
abbrev pub statement_request : Bytes → Request
statement_request q = run q []

-- The first content of the table of search tokens.
unfoldable pub initial_update_query : VectorizeJob → Bytes
initial_update_query job =
    let search_cols =
      join (codes " || ' ' || ")
        (map (λ col. concat (codes "COALESCE(" ∷ col ∷ codes ", '')" ∷ [])) job.src_columns) in
    concat (
      codes "\n        INSERT INTO vectorize._search_tokens_"
      ∷ job.job_name
      ∷ codes " ("
      ∷ job.primary_key
      ∷ codes ", search_tokens)\n        SELECT \n            "
      ∷ job.primary_key
      ∷ codes ", \n            to_tsvector('english', "
      ∷ search_cols
      ∷ codes ")\n        FROM "
      ∷ job.src_schema
      ∷ codes "."
      ∷ job.src_table
      ∷ codes "\n        ON CONFLICT ("
      ∷ job.primary_key
      ∷ codes
          ") DO UPDATE SET\n            search_tokens = EXCLUDED.search_tokens,\n            updated_at = NOW();\n    "
      ∷ [])

-- `model_dim` stands for the provider behind `get_provider`: the dimension of a source's model.
module _ (env : Env) (model_dim : ModelSource → Bytes → Exec ℕ) where
  -- The statements of the transaction behind the record, in order.
  unfoldable pub create_statements : VectorizeJob → ℕ → Bytes → Exec (List Bytes)
  create_statements job dim pkey_dtype =
      let col_type = concat (codes "vector(" ∷ decimal dim ∷ codes ")" ∷ []) in
      create_fts_index_query env.tables job.job_name (codes "GIN") >>= λ fts_index_query. ok (
        create_embedding_table job.job_name job.primary_key pkey_dtype col_type job.src_schema
          job.src_table
        ∷ create_search_tokens_table job.job_name job.primary_key pkey_dtype job.src_schema
            job.src_table
        ∷ create_project_view job.job_name job.src_schema job.src_table job.primary_key
        ∷ create_hnsw_cosine_index job.job_name (codes "vectorize")
            (codes "_embeddings_" ++ job.job_name) (codes "embeddings")
        ∷ fts_index_query
        ∷ (update_search_tokens_trigger_queries job.job_name job.primary_key job.src_schema
              job.src_table job.src_columns
            ++ (create_trigger_handler job.job_name job.primary_key
                ∷ create_event_trigger env.tables job.job_name job.src_schema job.src_table
                    (codes "INSERT")
                ∷ create_event_trigger env.tables job.job_name job.src_schema job.src_table
                    (codes "UPDATE")
                ∷ [])))

  -- What follows the commit: the queue is filled, then the search tokens.
  unfoldable pub fill_job : VectorizeJob → Session (Unit {0})
  unfolding then_run scan_job send done initial_update_query
  fill_job job =
      then_run (scan_job env job)
        λ _. then_run (send (run (initial_update_query job) [])) λ _. done (ok tt)

  -- The transaction up to its commit. The id of the record, a UUID, is given by its text.
  unfoldable pub create_job : VectorizeJob → Session Bytes
  unfolding then_run send fetch_one scalar_text done get_column_datatype create_statements send_all
      insert_job_request
  create_job job = then_run (send begin) λ _. then_run (fetch_one (insert_job_request job)) λ row.
      then_run (done (scalar_text env row)) λ job_id.
        then_run (done (model_dim job.model.source (api_name job.model))) λ dim.
          then_run (get_column_datatype env job.src_schema job.src_table job.primary_key)
            λ pkey_dtype. then_run (done (create_statements job dim pkey_dtype)) λ statements.
              then_run (send_all (map statement_request statements))
                λ _. then_run (send commit) λ _. done (ok job_id)

  unfoldable pub initialize_job : VectorizeJob → Session Bytes
  unfolding then_run create_job fill_job done
  initialize_job job =
      then_run (create_job job) λ job_id. then_run (fill_job job) λ _. done (ok job_id)
