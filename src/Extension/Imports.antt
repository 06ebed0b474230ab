-- ===== src/Extension/Imports.antt =====
-- extension/src/api.rs: `import_embeddings`, which fills the embeddings of a job from another table.
use pg_vectorize.Base.{[], ◌∷◌, ◌++◌, Option, none, some, Bytes, codes, concat, if◌then◌else◌}
use pg_vectorize.Base.Int.{ℤ, pos, wrap_i32}
use pg_vectorize.Base.Result.{Result, okay, error}
use pg_vectorize.Base.Exec.{Exec, ok, err, row_not_found, sql_error, serde_error}
use pg_vectorize.Base.Session.{Value, text, integer, Request, run, Session, done, then_run}
use pg_vectorize.Query.Search.{display_i32}
use pg_vectorize.Types.Params.{TableMethod, JobParams, VectorizeMeta}
use pg_vectorize.Extension.Spi.{spi_run, get_one, get_vectorize_meta_spi}
use pg_vectorize.Extension.Create.{is_realtime}

unfoldable pub import_query :
    (job_name primary_key src_table src_primary_key src_embeddings_col : Bytes) → Bytes
import_query job_name primary_key src_table src_primary_key src_embeddings_col = concat (
    codes "INSERT INTO vectorize._embeddings_"
    ∷ job_name
    ∷ codes " ("
    ∷ primary_key
    ∷ codes ", embeddings, updated_at)\n             SELECT src."
    ∷ src_primary_key
    ∷ codes ", src."
    ∷ src_embeddings_col
    ∷ codes ", NOW()\n             FROM "
    ∷ src_table
    ∷ codes " src\n             LEFT JOIN vectorize._embeddings_"
    ∷ job_name
    ∷ codes " tgt ON src."
    ∷ src_primary_key
    ∷ codes " = tgt."
    ∷ primary_key
    ∷ codes "\n             WHERE tgt."
    ∷ primary_key
    ∷ codes " IS NULL\n             ON CONFLICT ("
    ∷ primary_key
    ∷ codes ") DO UPDATE \n             SET embeddings = EXCLUDED.embeddings, updated_at = NOW()"
    ∷ [])

unfoldable pub append_query :
    (job_name : Bytes) → JobParams → (src_table src_primary_key src_embeddings_col : Bytes) → Bytes
append_query job_name job_params src_table src_primary_key src_embeddings_col = concat (
    codes "UPDATE "
    ∷ job_params.schema
    ∷ codes "."
    ∷ job_params.relation
    ∷ codes " t0 \n             SET "
    ∷ job_name
    ∷ codes "_embeddings = src."
    ∷ src_embeddings_col
    ∷ codes ",\n                 "
    ∷ job_name
    ∷ codes "_updated_at = NOW()\n             FROM "
    ∷ src_table
    ∷ codes " src\n             WHERE t0."
    ∷ job_params.primary_key
    ∷ codes " = src."
    ∷ src_primary_key
    ∷ [])

-- The statement that stores the embeddings, and the query that counts the rows behind it.
unfoldable pub import_requests :
    (job_name : Bytes)
    → JobParams
    → (src_table src_primary_key src_embeddings_col : Bytes) → Request × Request
unfolding import_query append_query
import_requests job_name job_params src_table src_primary_key src_embeddings_col =
    elim job_params.table_method [
      | TableMethod.join ↦ (
        run
            (import_query job_name job_params.primary_key src_table src_primary_key
              src_embeddings_col)
            [],
        run (codes "SELECT count(*) FROM vectorize._embeddings_" ++ job_name) [],
      )
      | TableMethod.append ↦ (
        run (append_query job_name job_params src_table src_primary_key src_embeddings_col) [],
        run
            (concat (
              codes "SELECT count(*) FROM "
              ∷ job_params.schema
              ∷ codes "."
              ∷ job_params.relation
              ∷ []))
            [],
      )
    ]

-- `unwrap_or(0) as i32`; a value that is no number is an error of the interface.
unfoldable pub count_of : Option Value → Exec ℤ
count_of none = ok (pos 0)
count_of (some (integer n)) = ok (wrap_i32 n)
count_of (some v) = err (sql_error row_not_found)

unfoldable pub delete_messages_request : (job_name : Bytes) → Request
delete_messages_request job_name =
    run (codes "DELETE FROM pgmq.q_vectorize_jobs WHERE message->>'job_name' = $1")
      (text job_name ∷ [])

-- The messages of a realtime job are deleted.
unfoldable pub clean_up : (job_name : Bytes) → JobParams → Session (Unit {0})
unfolding then_run spi_run delete_messages_request done
clean_up job_name job_params =
    if is_realtime job_params.schedule
    then then_run (spi_run (delete_messages_request job_name)) (λ rows. done (ok tt))
    else done (ok tt)

-- The Unicode tables, and the reading of a document as the parameters of a job.
module _ (tables : Bytes → Bytes) (parse_params : Bytes → Result Bytes JobParams) where
  unfoldable pub params_of_meta : VectorizeMeta → Exec JobParams
  params_of_meta meta = elim (parse_params meta.params) [
    | okay p ↦ ok p
    | error e ↦ err (serde_error e)
  ]

  -- From the parameters of the job on.
  unfoldable pub import_rows :
      (job_name src_table src_primary_key src_embeddings_col : Bytes) → JobParams → Session Bytes
  unfolding then_run spi_run import_requests get_one done count_of clean_up display_i32
  import_rows job_name src_table src_primary_key src_embeddings_col job_params =
      let requests =
        import_requests job_name job_params src_table src_primary_key src_embeddings_col in
      then_run (spi_run requests.0) λ rows. then_run (get_one requests.1) λ counted.
        then_run (done (count_of counted)) λ count. then_run (clean_up job_name job_params) λ _.
          done (
            ok (
              concat (
                codes "Successfully imported embeddings for "
                ∷ display_i32 count
                ∷ codes " row(s)"
                ∷ [])))

  unfoldable pub import_embeddings :
      (job_name src_table src_primary_key src_embeddings_col : Bytes) → Session Bytes
  unfolding then_run get_vectorize_meta_spi done params_of_meta import_rows
  import_embeddings job_name src_table src_primary_key src_embeddings_col =
      then_run (get_vectorize_meta_spi tables job_name) λ meta.
        then_run (done (params_of_meta meta))
          (import_rows job_name src_table src_primary_key src_embeddings_col)
