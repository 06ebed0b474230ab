-- ===== src/Extension/Executor.antt =====
-- extension/src/executor.rs: how texts are cut into batches, and how a job's new rows are enqueued.
-- `error!` of the extension's framework unwinds, as a panic.
pub mod Batches
use pg_vectorize.Base.{
  ℕ, zero, suc, ◌+◌, ◌-◌, ◌*◌, ◌/◌, ◌||◌, ◌==◌, leb, min, List, [], ◌∷◌, ◌++◌, Option, none, some,
  Bytes, codes, concat, map, length, take, drop, if◌then◌else◌,
}
use pg_vectorize.Base.Int.{ℤ, i32_as_usize}
use pg_vectorize.Base.Text.{join}
use pg_vectorize.Base.Result.{Result, okay, error}
use pg_vectorize.Base.Exec.{
  Exec, ok, err, panicked, DbError, row_not_found, other_db_error, db, database_error, ◌>>=◌,
}
use pg_vectorize.Base.Session.{
  Value, text, integer, Request, run, send_to_queue, Session, done, then_run, attempt, send,
}
use pg_vectorize.Types.{model_of_string, index_of_string}
use pg_vectorize.Types.Params.{TableMethod, append, JobParams, VectorizeMeta}
use pg_vectorize.Transformers.{Inputs}
use pg_vectorize.Query.Tables.{check_input}
use pg_vectorize.Query.Batches.{create_batches}
use pg_vectorize.Query.Triggers.{new_rows_query_join}
use pg_vectorize.Jobs.Rows.{Env, fetch_one, inputs_of_rows}

-- `total_records.div_ceil(batch_size)`.
abbrev pub div_ceil : ℕ → ℕ → ℕ
div_ceil n d = (n + (d - 1)) / d

-- The rounds of the loop from `i` on, of which `count` are left.
unfoldable pub batches_loop {ℓ} : {A : Type ℓ} → (count i batch_size : ℕ) → List A → List (List A)
batches_loop zero i batch_size record_ids = []
batches_loop (suc count) i batch_size record_ids =
    let start = i * batch_size in
    let end = min (start + batch_size) (length record_ids) in
    take (end - start) (drop start record_ids) ∷ batches_loop count (i + 1) batch_size record_ids

unfoldable pub batch_texts {ℓ} : {A : Type ℓ} → List A → ℤ → List (List A)
unfolding i32_as_usize batches_loop
batch_texts record_ids batch_size_i32 =
    let batch_size = i32_as_usize batch_size_i32 in
    if batch_size == 0 || leb (length record_ids) batch_size
    then record_ids ∷ []
    else batches_loop (div_ceil (length record_ids) batch_size) 0 batch_size record_ids

-- Each column is checked, and one that is refused panics.
unfoldable pub checked_columns : List Bytes → Exec (List Bytes)
unfolding check_input
checked_columns [] = ok []
checked_columns (s ∷ strings) =
    let rest = checked_columns strings in
    elim (check_input s) [ okay valid ↦ rest >>= λ columns. ok (s ∷ columns) | error e ↦ panicked ]

unfoldable pub collapse_to_csv : List Bytes → Exec Bytes
unfolding checked_columns join
collapse_to_csv strings =
    checked_columns strings >>= λ columns. ok (join (codes "|| ', ' ||") columns)

unfoldable pub base_query : JobParams → Bytes → Bytes
base_query job_params cols = concat (
    codes "\n        SELECT \n        "
    ∷ job_params.primary_key
    ∷ codes "::text as record_id,\n        "
    ∷ cols
    ∷ codes " as input_text\n        FROM "
    ∷ job_params.schema
    ∷ codes "."
    ∷ job_params.relation
    ∷ codes "\n        "
    ∷ [])

unfoldable pub updated_where : (updated_at_col job_name : Bytes) → Bytes
updated_where updated_at_col job_name = concat (
    codes "\n            WHERE "
    ∷ updated_at_col
    ∷ codes " > COALESCE\n            (\n                "
    ∷ job_name
    ∷ codes
        "_updated_at::timestamp,\n                '0001-01-01 00:00:00'::timestamp\n            )"
    ∷ [])

unfoldable pub new_rows_query : Bytes → JobParams → Exec Bytes
unfolding collapse_to_csv base_query updated_where
new_rows_query job_name job_params = collapse_to_csv job_params.columns >>= λ cols.
    elim job_params.update_time_col [
      | some updated_at_col ↦ ok (
          concat (
            codes "\n            "
            ∷ base_query job_params cols
            ∷ codes "\n            "
            ∷ updated_where updated_at_col job_name
            ∷ codes "\n        "
            ∷ []))
      | none ↦ ok (base_query job_params cols)
    ]

-- The query of a job by the place of its embeddings.
unfoldable pub updates_query : Bytes → JobParams → Exec Bytes
unfolding new_rows_query new_rows_query_join
updates_query job_name job_params = elim job_params.table_method [
  | TableMethod.append ↦ new_rows_query job_name job_params
  | TableMethod.join ↦ ok (
      new_rows_query_join job_name job_params.columns job_params.schema job_params.relation
        job_params.primary_key job_params.update_time_col)
]

unfoldable pub select_meta : Bytes → Request
select_meta job_name =
    run
      (codes
        "\n        SELECT\n            job_id, name, index_dist_type, transformer, params\n        FROM vectorize.job\n        WHERE name = $1\n        ")
      (text job_name ∷ [])

-- The reading of a document as the parameters of a job, and the batch size of the server's settings.
module _ (env : Env) (parse_params : Bytes → Result Bytes JobParams) where
  -- A model or an index kind that is none panics, as in `From<String>`.
  unfoldable pub meta_of_row : List Value → Exec VectorizeMeta
  unfolding index_of_string model_of_string
  meta_of_row (integer job_id ∷ text name ∷ text index ∷ text transformer ∷ text params ∷ []) =
      index_of_string index >>= λ index_dist_type.
      model_of_string env.tables transformer >>= λ model. ok (record {
        job_id = job_id;
        name = name;
        index_dist_type = index_dist_type;
        transformer = model;
        params = params;
      })
  meta_of_row _ = err (database_error (db env.decode_error))

  unfoldable pub meta_of_answer : Result DbError (List (List Value)) → Exec VectorizeMeta
  unfolding meta_of_row
  meta_of_answer (okay (row ∷ rows)) = meta_of_row row
  meta_of_answer (okay []) = err (database_error (db row_not_found))
  meta_of_answer (error e) = err (database_error (db e))

  unfoldable pub read_meta : Result DbError (List (List Value)) → Session VectorizeMeta
  unfolding done meta_of_answer
  read_meta answer = done (meta_of_answer answer)

  unfoldable pub get_vectorize_meta : Bytes → Session VectorizeMeta
  unfolding then_run attempt select_meta read_meta
  get_vectorize_meta job_name = then_run (attempt (select_meta job_name)) read_meta

  unfoldable pub new_inputs : Result DbError (List (List Value)) → Exec (Option (List Inputs))
  unfolding inputs_of_rows
  new_inputs (okay []) = ok none
  new_inputs (okay (row ∷ rows)) = inputs_of_rows env (row ∷ rows) >>= λ inputs. ok (some inputs)
  new_inputs (error row_not_found) = ok none
  new_inputs (error (other_db_error e)) = err (database_error (db (other_db_error e)))

  unfoldable pub get_new_updates : Bytes → JobParams → Session (Option (List Inputs))
  unfolding then_run done attempt updates_query new_inputs
  get_new_updates job_name job_params =
      then_run (done (updates_query job_name job_params))
        λ query. then_run (attempt (run query [])) λ answer. done (new_inputs answer)

  -- `unwrap_or_else(|e| error!(...))`.
  unfoldable pub or_raise {ℓ} : {A : Type ℓ} → List Request × Exec A → List Request × Exec A
  or_raise (sent, ok a) = (sent, ok a)
  or_raise (sent, _) = (sent, panicked)

  unfoldable pub raising {ℓ} : {A : Type ℓ} → Session A → Session A
  unfolding or_raise
  raising m oracle sent = or_raise (m oracle sent)

  unfoldable pub params_of_meta : VectorizeMeta → Exec JobParams
  params_of_meta meta = elim (parse_params meta.params) [ okay p ↦ ok p | error e ↦ panicked ]

  unfoldable pub send_batches : Bytes → List (List Inputs) → Session (Unit {0})
  unfolding then_run raising send done
  send_batches job_name [] = done (ok tt)
  send_batches job_name (b ∷ batches) =
      then_run
        (raising (
          send (
            send_to_queue (codes "vectorize_jobs") job_name (map (λ (i : Inputs). i.record_id) b))))
        λ rows. send_batches job_name batches

  unfoldable pub send_updates : Bytes → ℤ → Option (List Inputs) → Session (Unit {0})
  unfolding send_batches create_batches done
  send_updates job_name max_batch_size (some rows) =
      send_batches job_name (create_batches rows max_batch_size)
  send_updates job_name max_batch_size none = done (ok tt)

  unfoldable pub job_execute : ℤ → Bytes → Session (Unit {0})
  unfolding then_run raising get_vectorize_meta done params_of_meta get_new_updates send_updates
  job_execute max_batch_size job_name = then_run (raising (get_vectorize_meta job_name)) λ meta.
      then_run (done (params_of_meta meta)) λ job_params.
        then_run (raising (get_new_updates job_name job_params))
          (send_updates job_name max_batch_size)
