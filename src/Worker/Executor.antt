-- ===== src/Worker/Executor.antt =====
-- worker/src/executor.rs: one message of the queue.
pub mod Poll
use pg_vectorize.Base.{
  ℕ, ◌≡◌, Bool, List, [], ◌∷◌, ◌++◌, Option, none, some, Bytes, codes, map, concat, if◌then◌else◌,
}
use pg_vectorize.Base.Text.{join}
use pg_vectorize.Base.Int.{ℤ, pos, ltb_ℤ}
use pg_vectorize.Base.Result.{Result, okay, error}
use pg_vectorize.Base.Exec.{
  Exec, ok, err, panicked, DbError, row_not_found, sql_error, not_found, internal_error, pgmq_error,
}
use pg_vectorize.Base.Session.{
  Value, text, texts, integer, message, Request, run, read_queue, delete_from_queue, Session, done,
  then_run, attempt, send,
}
use pg_vectorize.Types.{VectorizeJob, JobMessage, ModelSource}
use pg_vectorize.Transformers.{
  Inputs, GenericEmbeddingRequest, prepare_generic_embedding_request, merge_input_output,
}
use pg_vectorize.Jobs.Rows.{Env, get_vectorize_job, get_column_datatype, inputs_of_rows}
use pg_vectorize.Worker.Ops.{upsert_embedding_table}

-- The fields of `pgmq::Message<JobMessage>` that are read, and of `Config`.
pub record Message : Type 0 where
  pub msg_id : ℤ
  pub read_ct : ℤ
  pub message : JobMessage

pub record Config : Type 0 where
  pub queue_name : Bytes
  pub max_retries : ℤ

-- `get_provider` makes the provider of a source, which fails where a key is missing, and
-- `generate_embedding` is what it answers; a vector is a list of `Float`.
pub record Provider (Float : Type 0) : Type 0 where
  pub get_provider : ModelSource → Exec (Unit {0})
  pub generate_embedding : ModelSource → GenericEmbeddingRequest → Exec (List (List Float))
  pub serialize : List Float → Bytes

unfoldable pub select_cols : List Bytes → Bytes
select_cols src_columns = join (codes " || ' ' || ") (
    map
      (λ col. concat (codes "'" ∷ col ∷ codes ": ' || COALESCE(" ∷ col ∷ codes ", '') || ' '" ∷ []))
      src_columns)

unfoldable pub job_records_query : VectorizeJob → Bytes → Bytes
unfolding select_cols
job_records_query job pk_type = concat (
    codes "\n    SELECT\n        "
    ∷ job.primary_key
    ∷ codes "::text as record_id,\n        "
    ∷ select_cols job.src_columns
    ∷ codes " as input_text\n    FROM "
    ∷ job.src_schema
    ∷ codes "."
    ∷ job.src_table
    ∷ codes "\n    WHERE "
    ∷ job.primary_key
    ∷ codes " = ANY ($1::"
    ∷ pk_type
    ∷ codes "[])"
    ∷ [])

-- What the queue's library read: no row, or the id of a message, its count of reads and its body.
unfoldable pub message_of_rows : Env → List (List Value) → Exec (Option Message)
message_of_rows env [] = ok none
message_of_rows env ((integer msg_id ∷ integer read_ct ∷ message job_name record_ids ∷ []) ∷ _) =
    ok (
      some (record {
        msg_id = msg_id;
        read_ct = read_ct;
        message = record { job_name = job_name; record_ids = record_ids };
      }))
message_of_rows env _ =
    err (internal_error (codes "failed reading message: " ++ env.display_db env.decode_error))

module _ {Float : Type 0} (env : Env) (provider : Provider Float) where
  -- The rows of the query as inputs; a row of other columns is an error.
  unfoldable pub records_of_rows : List (List Value) → Exec (List Inputs)
  unfolding inputs_of_rows
  records_of_rows rows = elim (inputs_of_rows env rows) [
    | ok inputs ↦ ok inputs
    | err e ↦ err e
    | panicked ↦ err (sql_error env.decode_error)
  ]

  -- The records of a message are read, embedded and stored.
  unfoldable pub embed_records : JobMessage → VectorizeJob → Session (Unit {0})
  unfolding then_run get_column_datatype send done records_of_rows job_records_query
      upsert_embedding_table
  embed_records msg job = then_run (done (provider.get_provider job.model.source)) λ _.
      then_run (get_column_datatype env job.src_schema job.src_table job.primary_key) λ pkey_type.
        then_run (send (run (job_records_query job pkey_type) (texts msg.record_ids ∷ []))) λ rows.
          then_run (done (records_of_rows rows)) λ inputs.
            then_run
              (done (
                provider.generate_embedding job.model.source
                  (prepare_generic_embedding_request job.model inputs)))
              λ embeddings.
                upsert_embedding_table provider.serialize env.display_db job.job_name
                  (merge_input_output inputs embeddings) (codes "vectorize") job.primary_key
                  pkey_type

  -- The match on the job: one that is gone is passed over.
  unfoldable pub with_job : JobMessage → List Request × Exec VectorizeJob → Session (Unit {0})
  unfolding embed_records
  with_job msg (read, ok job) oracle sent = embed_records msg job oracle read
  with_job msg (read, err (sql_error row_not_found)) oracle sent = (read, ok tt)
  with_job msg (read, err (not_found e)) oracle sent = (read, ok tt)
  with_job msg (read, err e) oracle sent = (read, err e)
  with_job msg (read, panicked) oracle sent = (read, panicked)

  unfoldable pub execute_job : JobMessage → Session (Unit {0})
  unfolding with_job get_vectorize_job
  execute_job msg oracle sent =
      with_job msg (get_vectorize_job env msg.job_name oracle sent) oracle sent

  -- The last step of `poll_job`; an error of the queue is returned as its text.
  unfoldable pub deleted : Result DbError (List (List Value)) → Session (Option (Unit {0}))
  unfolding done
  deleted (okay rows) = done (ok (some tt))
  deleted (error e) = done (err (pgmq_error (env.display_db e)))

  unfoldable pub delete_message : Config → Message → Unit {0} → Session (Option (Unit {0}))
  unfolding then_run attempt deleted
  delete_message config msg _ =
      then_run (attempt (delete_from_queue config.queue_name msg.msg_id)) deleted

  unfoldable pub process_message : Config → Option Message → Session (Option (Unit {0}))
  unfolding then_run execute_job delete_message done
  process_message config none = done (ok none)
  process_message config (some msg) =
      if ltb_ℤ config.max_retries msg.read_ct
      then delete_message config msg tt
      else then_run (execute_job msg.message) (delete_message config msg)

  -- The answer of the queue to `read`.
  unfoldable pub read_answer : Result DbError (List (List Value)) → Exec (Option Message)
  unfolding message_of_rows
  read_answer (okay rows) = message_of_rows env rows
  read_answer (error e) =
      err (internal_error (codes "failed reading message: " ++ env.display_db e))

  unfoldable pub poll_answer :
      Config → Result DbError (List (List Value)) → Session (Option (Unit {0}))
  unfolding then_run done read_answer process_message
  poll_answer config answer = then_run (done (read_answer answer)) (process_message config)

  unfoldable pub poll_job : Config → Session (Option (Unit {0}))
  unfolding then_run attempt poll_answer
  poll_job config = then_run (attempt (read_queue config.queue_name (pos 300))) (poll_answer config)
