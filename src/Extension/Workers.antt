-- ===== src/Extension/Workers.antt =====
-- extension/src/workers/mod.rs: the extension's own worker.
pub mod Deletes
use pg_vectorize.Base.{
  ℕ, List, [], ◌∷◌, ◌++◌, Bool, true, false, Option, none, some, Bytes, codes, concat,
  if◌then◌else◌,
}
use pg_vectorize.Base.Int.{ℤ, pos, ltb_ℤ}
use pg_vectorize.Base.Result.{Result, okay, error}
use pg_vectorize.Base.Exec.{
  Exec, ok, err, panicked, DbError, VectorizeError, row_not_found, db, database_error,
  internal_error, ◌>>=◌,
}
use pg_vectorize.Base.Session.{
  Value, text, texts, Request, run, read_queue, delete_from_queue, Session, done, then_run, attempt,
  send, caught,
}
use pg_vectorize.Types.{JobMessage}
use pg_vectorize.Types.Params.{TableMethod, JobParams, VectorizeMeta}
use pg_vectorize.Transformers.{
  Inputs, PairedEmbeddings, GenericEmbeddingRequest, prepare_generic_embedding_request,
  merge_input_output,
}
use pg_vectorize.Transformers.Providers
use pg_vectorize.Transformers.Providers.{EmbeddingProvider, get_provider}
use pg_vectorize.Jobs.Rows.{Env, inputs_of_rows}
use pg_vectorize.Jobs.Guc.{ModelGucConfig, get_guc_configs}
use pg_vectorize.Worker.Executor.{Message, message_of_rows}
use pg_vectorize.Worker.Ops.{upsert_embedding_table}
use pg_vectorize.Worker.Append.{update_embeddings}
use pg_vectorize.Extension.Executor.{collapse_to_csv, get_vectorize_meta}

-- The environment of the process; what a provider's service answers; a vector's text as JSON; the
-- reading of a document as the parameters of a job; and the text of an error.
pub record Libraries (Float : Type 0) : Type 0 where
  pub environment : Providers.Env
  pub generate_embedding : EmbeddingProvider → GenericEmbeddingRequest → Exec (List (List Float))
  pub serialize : List Float → Bytes
  pub parse_params : Bytes → Result Bytes JobParams
  pub display : VectorizeError → Bytes

unfoldable pub job_records_query : JobParams → (cols : Bytes) → Bytes
job_records_query job_params cols = concat (
    codes "\n    SELECT\n        "
    ∷ job_params.primary_key
    ∷ codes "::text as record_id,\n        "
    ∷ cols
    ∷ codes " as input_text\n    FROM "
    ∷ job_params.schema
    ∷ codes "."
    ∷ job_params.relation
    ∷ codes "\n    WHERE "
    ∷ job_params.primary_key
    ∷ codes " = ANY ($1::"
    ∷ job_params.pkey_type
    ∷ codes "[])"
    ∷ [])

module _ {Float : Type 0} (env : Env) (libraries : Libraries Float) where
  -- A key among the settings takes the place of the one of the job.
  unfoldable pub with_guc_key : ModelGucConfig → JobParams → JobParams
  with_guc_key guc_configs job_params = elim guc_configs.api_key [
    | some k ↦ record job_params { api_key = some k }
    | none ↦ job_params
  ]

  unfoldable pub records_of_rows : List (List Value) → Exec (List Inputs)
  unfolding inputs_of_rows
  records_of_rows rows = elim (inputs_of_rows env rows) [
    | ok inputs ↦ ok inputs
    | err e ↦ err e
    | panicked ↦ err (database_error (db env.decode_error))
  ]

  unfoldable pub store_embeddings :
      VectorizeMeta → JobParams → List (PairedEmbeddings Float) → Session (Unit {0})
  unfolding update_embeddings upsert_embedding_table
  store_embeddings job_meta job_params paired_embeddings = elim job_params.table_method [
    | TableMethod.append ↦
        update_embeddings libraries.serialize job_params.schema job_params.relation job_meta.name
          job_params.primary_key job_params.pkey_type paired_embeddings
    | TableMethod.join ↦
        upsert_embedding_table libraries.serialize env.display_db job_meta.name paired_embeddings
          (codes "vectorize") job_params.primary_key job_params.pkey_type
  ]

  -- From the records of the message on.
  unfoldable pub embed_records :
      JobMessage → VectorizeMeta → JobParams → EmbeddingProvider → Session (Unit {0})
  unfolding then_run done send collapse_to_csv job_records_query records_of_rows
      prepare_generic_embedding_request store_embeddings merge_input_output
  embed_records msg job_meta job_params provider =
      then_run (done (collapse_to_csv job_params.columns)) λ cols.
        then_run (send (run (job_records_query job_params cols) (texts msg.record_ids ∷ [])))
          λ rows. then_run (done (records_of_rows rows)) λ inputs.
            then_run
              (done (
                libraries.generate_embedding provider
                  (prepare_generic_embedding_request job_meta.transformer inputs)))
              λ embeddings.
                store_embeddings job_meta job_params (merge_input_output inputs embeddings)

  unfoldable pub params_of_meta : VectorizeMeta → Exec JobParams
  params_of_meta job_meta = elim (libraries.parse_params job_meta.params) [
    | okay p ↦ ok p
    | error e ↦ err (internal_error e)
  ]

  -- A provider that cannot be made is an error before the records are read.
  unfoldable pub with_provider :
      JobMessage → VectorizeMeta → ModelGucConfig → JobParams → Session (Unit {0})
  unfolding then_run done get_provider embed_records
  with_provider msg job_meta guc_configs job_params =
      then_run
        (done (
          get_provider libraries.environment job_meta.transformer.source job_params.api_key
            guc_configs.service_url guc_configs.virtual_key))
        λ provider. embed_records msg job_meta job_params provider

  unfoldable pub run_job : JobMessage → VectorizeMeta → Session (Unit {0})
  unfolding then_run done params_of_meta get_guc_configs with_guc_key with_provider
  run_job msg job_meta = then_run (done (params_of_meta job_meta)) λ job_params.
      then_run (get_guc_configs job_meta.transformer.source)
        λ guc_configs. with_provider msg job_meta guc_configs (with_guc_key guc_configs job_params)

  -- The match on the job: one that is gone is passed over.
  unfoldable pub with_meta : JobMessage → Result VectorizeError VectorizeMeta → Session (Unit {0})
  unfolding done run_job
  with_meta msg (okay job_meta) = run_job msg job_meta
  with_meta msg (error (database_error (db row_not_found))) = done (ok tt)
  with_meta msg (error e) =
      done (err (internal_error (codes "Failed to get job meta: " ++ libraries.display e)))

  unfoldable pub execute_job : JobMessage → Session (Unit {0})
  unfolding then_run caught get_vectorize_meta with_meta
  execute_job msg =
      then_run (caught (get_vectorize_meta env libraries.parse_params msg.job_name)) (with_meta msg)

  -- A failed job's message is deleted when it was read more than twice.
  unfoldable pub delete_it : Message → Result VectorizeError (Unit {0}) → Bool
  delete_it msg (okay _) = true
  delete_it msg (error e) = ltb_ℤ (pos 2) msg.read_ct

  -- The deletion, of which an error is only logged.
  unfoldable pub after_job :
      Bytes → Message → Result VectorizeError (Unit {0}) → Session (Option (Unit {0}))
  unfolding delete_it done then_run attempt
  after_job queue_name msg job_success =
      if delete_it msg job_success
      then then_run (attempt (delete_from_queue queue_name msg.msg_id))
          (λ answer. done (ok (some tt)))
      else done (ok (some tt))

  unfoldable pub message_of_answer : Result DbError (List (List Value)) → Exec (Option Message)
  unfolding message_of_rows
  message_of_answer (okay rows) = elim (message_of_rows env rows) [
    | ok msg ↦ ok msg
    | err e ↦ err (internal_error (codes "failed to read message"))
    | panicked ↦ panicked
  ]
  message_of_answer (error e) = err (internal_error (codes "failed to read message"))

  unfoldable pub process_message : Bytes → Option Message → Session (Option (Unit {0}))
  unfolding done then_run caught execute_job after_job
  process_message queue_name none = done (ok none)
  process_message queue_name (some msg) =
      then_run (caught (execute_job msg.message)) (after_job queue_name msg)

  unfoldable pub read_message :
      Bytes → Result DbError (List (List Value)) → Session (Option (Unit {0}))
  unfolding then_run done message_of_answer process_message
  read_message queue_name answer =
      then_run (done (message_of_answer answer)) (process_message queue_name)

  unfoldable pub run_worker : Bytes → Session (Option (Unit {0}))
  unfolding then_run attempt read_message
  run_worker queue_name =
      then_run (attempt (read_queue queue_name (pos 180))) (read_message queue_name)

-- The pause of `background_worker_main` behind a call of `run_worker`, in milliseconds.
unfoldable pub wait_duration : Exec (Option (Unit {0})) → Exec ℕ
wait_duration (ok none) = ok 2000
wait_duration (ok (some done)) = ok 10
wait_duration (err e) = ok 10000
wait_duration panicked = panicked
