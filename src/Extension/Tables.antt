-- ===== src/Extension/Tables.antt =====
-- extension/src/init.rs: the queue, the schedule and the tables of a job.
use pg_vectorize.Base.{
  List, [], ◌∷◌, ◌++◌, Option, none, some, Bytes, codes, concat, text_eq, true, false,
  if◌then◌else◌, ℕ,
}
use pg_vectorize.Base.Numbers.{decimal}
use pg_vectorize.Base.Result.{Result, okay, error}
use pg_vectorize.Base.Exec.{
  Exec, ok, err, panicked, ◌>>=◌, DbError, row_not_found, sql_error, internal_error,
}
use pg_vectorize.Base.Session.{Value, boolean, Request, run, Session, done, then_run}
use pg_vectorize.Types.{IndexDist, pgv_hnsw_cosine, pgv_hnsw_ip, pgv_hnsw_l2, vsc_diskann_cosine}
use pg_vectorize.Types.Params.{TableMethod, JobParams}
use pg_vectorize.Query.Tables.{
  check_input, create_hnsw_cosine_index, create_hnsw_ip_index, create_hnsw_l2_index,
  create_embedding_table, drop_project_view, create_project_view, init_index_query,
}
use pg_vectorize.Jobs.Guc.{text_index_type}
use pg_vectorize.Extension.Settings.{Settings, get_guc}
use pg_vectorize.Extension.Spi.{spi, get_one}

abbrev pub vectorize_queue : Bytes
vectorize_queue = codes "vectorize_jobs"

unfoldable pub queue_created : Result DbError (List (List Value)) → Session (Unit {0})
unfolding done
queue_created (okay rows) = done (ok tt)
queue_created (error e) = done panicked

unfoldable pub with_queue : Option Value → Session (Unit {0})
unfolding done then_run spi queue_created
with_queue (some (boolean true)) = done (ok tt)
with_queue (some (boolean false)) =
    then_run (spi (run (codes "SELECT pgmq.create('vectorize_jobs');") [])) queue_created
with_queue none = done (err (internal_error (codes "error checking if queue exists")))
with_queue (some _) = done (err (sql_error row_not_found))

unfoldable pub init_pgmq : Session (Unit {0})
unfolding then_run get_one with_queue
init_pgmq =
    then_run
      (get_one (
        run (codes "SELECT EXISTS (SELECT 1 FROM pgmq.meta WHERE queue_name = 'vectorize_jobs');")
          []))
      with_queue

unfoldable pub schedule_request : (cron job_name : Bytes) → Request
schedule_request cron job_name =
    run
      (concat (
        codes "\n        SELECT cron.schedule(\n            '"
        ∷ job_name
        ∷ codes "',\n            '"
        ∷ cron
        ∷ codes "',\n            $$select vectorize.job_execute('"
        ∷ job_name
        ∷ codes "')$$\n        )\n        ;"
        ∷ []))
      []

unfoldable pub init_cron : (cron job_name : Bytes) → Session (Option Value)
unfolding done get_one schedule_request
init_cron cron job_name =
    if text_eq cron (codes "manual")
    then done (ok none)
    else get_one (schedule_request cron job_name)

unfoldable pub create_diskann_index : (job_name schema table embedding_col : Bytes) → Bytes
create_diskann_index job_name schema table embedding_col = concat (
    codes "CREATE INDEX IF NOT EXISTS "
    ∷ job_name
    ∷ codes "_diskann_idx ON "
    ∷ schema
    ∷ codes "."
    ∷ table
    ∷ codes "\n        USING diskann ("
    ∷ embedding_col
    ∷ codes ");\n        "
    ∷ [])

unfoldable pub append_embedding_column : (job_name schema table col_type : Bytes) → Bytes
append_embedding_column job_name schema table col_type = concat (
    codes
      "\n        DO $$\n        BEGIN\n           IF NOT EXISTS (\n                SELECT 1\n                FROM information_schema.columns\n                WHERE table_name = '"
    ∷ table
    ∷ codes "'\n                AND table_schema = '"
    ∷ schema
    ∷ codes "'\n                AND column_name = '"
    ∷ job_name
    ∷ codes "_embeddings'\n            )\n            THEN ALTER TABLE "
    ∷ schema
    ∷ codes "."
    ∷ table
    ∷ codes "\n            ADD COLUMN "
    ∷ job_name
    ∷ codes "_embeddings "
    ∷ col_type
    ∷ codes ",\n            ADD COLUMN "
    ∷ job_name
    ∷ codes
        "_updated_at TIMESTAMP WITH TIME ZONE;\n           END IF;\n        END\n        $$;\n        "
    ∷ [])

unfoldable pub index_statement :
    IndexDist → (job_name index_schema table_name embeddings_col : Bytes) → Bytes
unfolding create_hnsw_cosine_index create_diskann_index create_hnsw_ip_index create_hnsw_l2_index
index_statement pgv_hnsw_cosine = create_hnsw_cosine_index
index_statement vsc_diskann_cosine = create_diskann_index
index_statement pgv_hnsw_ip = create_hnsw_ip_index
index_statement pgv_hnsw_l2 = create_hnsw_l2_index

module _ (settings : Settings) (tables : Bytes → Bytes) where
  -- The index for the full-text search, if its kind is set.
  unfoldable pub text_index_statements : Bytes → JobParams → Exec (List Bytes)
  unfolding get_guc init_index_query
  text_index_statements job_name job_params = get_guc settings text_index_type >>= λ kind.
      elim kind [
        | some indx_type_guc ↦
            init_index_query tables job_name indx_type_guc job_params.schema job_params.relation
              job_params.columns
            >>= λ statement. ok (statement ∷ [])
        | none ↦ ok []
      ]

  unfoldable pub join_statements : Bytes → JobParams → IndexDist → Bytes → Exec (List Bytes)
  unfolding text_index_statements create_embedding_table index_statement drop_project_view
      create_project_view
  join_statements job_name job_params index_type col_type =
      text_index_statements job_name job_params >>= λ text_index. ok (
        create_embedding_table job_name job_params.primary_key job_params.pkey_type col_type
          job_params.schema job_params.relation
        ∷ index_statement index_type job_name (codes "vectorize") (codes "_embeddings_" ++ job_name)
            (codes "embeddings")
        ∷ drop_project_view job_name
        ∷ create_project_view job_name job_params.schema job_params.relation job_params.primary_key
        ∷ text_index)

  -- A job name that is refused panics (`expect`).
  unfoldable pub init_embedding_table_query :
      Bytes → JobParams → IndexDist → (model_dim : ℕ) → Exec (List Bytes)
  unfolding check_input decimal index_statement append_embedding_column join_statements
  init_embedding_table_query job_name job_params index_type model_dim =
      let col_type = concat (codes "vector(" ∷ decimal model_dim ∷ codes ")" ∷ []) in
      elim (check_input job_name) [
        | error e ↦ panicked
        | okay valid ↦ elim job_params.table_method [
          | TableMethod.append ↦ ok (
              append_embedding_column job_name job_params.schema job_params.relation col_type
              ∷ index_statement index_type job_name job_params.schema job_params.relation
                  (job_name ++ codes "_embeddings")
              ∷ [])
          | TableMethod.join ↦ join_statements job_name job_params index_type col_type
        ]
      ]
