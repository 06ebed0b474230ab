-- ===== src/Jobs/Rows.antt =====
-- What is read from the database: a job's record, the type of a column, the rows without a current
-- embedding (core/src/db.rs, `get_column_datatype` of core/src/init.rs and `get_new_updates` of
-- core/src/query.rs).
pub mod Scan
use pg_vectorize.Base.{
  ℕ, ◌≡◌, Bool, List, [], ◌∷◌, ◌++◌, Option, none, some, Bytes, codes, map, concat, is_empty,
  if◌then◌else◌,
}
use pg_vectorize.Base.Int.{ℤ, pos}
use pg_vectorize.Base.Result.{Result, okay, error}
use pg_vectorize.Base.Exec.{
  Exec, ok, err, panicked, DbError, row_not_found, other_db_error, VectorizeError, sql_error,
  not_found,
}
use pg_vectorize.Base.Session.{
  Value, text, texts, integer, message, Request, run, Oracle, Session, done, after, then_run,
  attempt, send, send_all,
}
use pg_vectorize.Types.{VectorizeJob, JobMessage, model_of_string}
use pg_vectorize.Transformers.{Inputs, trim}
use pg_vectorize.Query.Batches.{create_batches}
use pg_vectorize.Query.Triggers.{new_rows_query_join}

-- The code outside of this repository that reads rows: `count_tokens` is the tokenizer's count for a
-- text as an `i32`, `display_db` the text of an error, `decode_error` the error
-- for columns of another type, and `tables` the Unicode tables.
pub record Env : Type 0 where
  pub count_tokens : Bytes → ℤ
  pub display_db : DbError → Bytes
  pub decode_error : DbError
  pub tables : Bytes → Bytes

-- `fetch_one`: no row is the error `RowNotFound`.
unfoldable pub first_row : List (List Value) → Session (List Value)
unfolding done
first_row [] = done (err (sql_error row_not_found))
first_row (row ∷ _) = done (ok row)

unfoldable pub fetch_one : Request → Session (List Value)
unfolding then_run send first_row
fetch_one r = then_run (send r) first_row

module _ (env : Env) where
  -- `FromRow for VectorizeJob`, on the seven columns. The stored text of a model that is none panics.
  unfoldable pub job_from_row : List Value → Exec VectorizeJob
  unfolding model_of_string
  job_from_row
        (text job_name
          ∷ text src_table
          ∷ text src_schema
          ∷ texts src_columns
          ∷ text primary_key
          ∷ text update_time_col
          ∷ text model
          ∷ []) =
      elim (model_of_string env.tables model) [
        | ok m ↦ ok (record {
          job_name = job_name;
          src_table = src_table;
          src_schema = src_schema;
          src_columns = src_columns;
          primary_key = primary_key;
          update_time_col = update_time_col;
          model = m;
        })
        | err e ↦ err e
        | panicked ↦ panicked
      ]
  job_from_row _ = err (sql_error env.decode_error)

  -- `get_vectorize_job` of core/src/db.rs.
  unfoldable pub get_vectorize_job : Bytes → Session VectorizeJob
  unfolding then_run fetch_one done job_from_row
  get_vectorize_job job_name =
      then_run
        (fetch_one (
          run
            (codes
              "SELECT job_name, src_table, src_schema, src_columns, primary_key, update_time_col, model \n         FROM vectorize.job \n         WHERE job_name = $1")
            (text job_name ∷ [])))
        λ row. done (job_from_row row)

  -- The value of the only column, as a text.
  unfoldable pub scalar_text : List Value → Exec Bytes
  scalar_text (text v ∷ []) = ok v
  scalar_text _ = err (sql_error env.decode_error)

  -- The value of the only column, as an `i64`.
  unfoldable pub scalar_integer : List Value → Exec ℤ
  scalar_integer (integer n ∷ []) = ok n
  scalar_integer _ = err (sql_error env.decode_error)

  -- `map_err` behind the query for a data type: each error of the database is one and the same.
  unfoldable pub column_not_found :
      (schema table column : Bytes) → List Request × Exec Bytes → List Request × Exec Bytes
  column_not_found schema table column (sent, ok v) = (sent, ok v)
  column_not_found schema table column (sent, panicked) = (sent, panicked)
  column_not_found schema table column (sent, err (sql_error e)) = (
    sent,
    err (
        not_found (
          concat (
            codes "schema, table or column NOT FOUND for "
            ∷ schema
            ∷ codes "."
            ∷ table
            ∷ codes "."
            ∷ column
            ∷ codes ": "
            ∷ env.display_db e
            ∷ []))),
  )
  column_not_found schema table column (sent, err e) = (sent, err e)

  unfoldable pub select_column_datatype : (schema table column : Bytes) → Session Bytes
  unfolding then_run fetch_one done scalar_text
  select_column_datatype schema table column =
      then_run
        (fetch_one (
          run
            (codes
              "\n        SELECT data_type\n        FROM information_schema.columns\n        WHERE\n            table_schema = $1\n            AND table_name = $2\n            AND column_name = $3    \n        ")
            (text schema ∷ text table ∷ text column ∷ [])))
        λ row. done (scalar_text row)

  unfoldable pub get_column_datatype : (schema table column : Bytes) → Session Bytes
  unfolding select_column_datatype column_not_found
  get_column_datatype schema table column oracle sent =
      column_not_found schema table column (select_column_datatype schema table column oracle sent)

  -- The inputs of the rows that `get_new_updates` read; a row of other columns panics (`r.get`).
  unfoldable pub inputs_of_rows : List (List Value) → Exec (List Inputs)
  unfolding trim
  inputs_of_rows [] = ok []
  inputs_of_rows ((text record_id ∷ text ipt ∷ []) ∷ rows) = elim (inputs_of_rows rows) [
    | ok inputs ↦ ok (
        record { record_id = record_id; inputs = trim ipt; token_estimate = env.count_tokens ipt }
        ∷ inputs)
    | err e ↦ err e
    | panicked ↦ panicked
  ]
  inputs_of_rows (_ ∷ rows) = panicked

  unfoldable pub updates_of_answer :
      Result DbError (List (List Value)) → Exec (Option (List Inputs))
  unfolding inputs_of_rows
  updates_of_answer (okay []) = ok none
  updates_of_answer (okay (row ∷ rows)) = elim (inputs_of_rows (row ∷ rows)) [
    | ok inputs ↦ ok (some inputs)
    | err e ↦ err e
    | panicked ↦ panicked
  ]
  updates_of_answer (error row_not_found) = ok none
  updates_of_answer (error (other_db_error e)) = err (sql_error (other_db_error e))

  unfoldable pub read_updates : Result DbError (List (List Value)) → Session (Option (List Inputs))
  unfolding done updates_of_answer
  read_updates answer = done (updates_of_answer answer)

  unfoldable pub get_new_updates : Bytes → Session (Option (List Inputs))
  unfolding then_run attempt read_updates
  get_new_updates query = then_run (attempt (run query [])) read_updates

  -- The message for a batch, and the request that enqueues it.
  unfoldable pub message_of_batch : Bytes → List Inputs → JobMessage
  message_of_batch job_name b = record {
    job_name = job_name;
    record_ids = map (λ (i : Inputs). i.record_id) b;
  }

  unfoldable pub enqueue : JobMessage → Request
  enqueue msg =
      run (codes "SELECT * FROM pgmq.send(queue_name=>'vectorize_jobs', msg=>$1)")
        (message msg.job_name msg.record_ids ∷ [])

  -- The loop of `scan_job` over the batches; the id of the message is read as an `i64`.
  unfoldable pub enqueue_batches : Bytes → List (List Inputs) → Session (Unit {0})
  unfolding then_run fetch_one done enqueue message_of_batch scalar_integer
  enqueue_batches job_name [] = done (ok tt)
  enqueue_batches job_name (b ∷ batches) =
      then_run (fetch_one (enqueue (message_of_batch job_name b)))
        λ row. then_run (done (scalar_integer row)) λ _. enqueue_batches job_name batches

  abbrev pub update_query : VectorizeJob → Bytes
  update_query job =
      new_rows_query_join job.job_name job.src_columns job.src_schema job.src_table job.primary_key
        (some job.update_time_col)

  unfoldable pub enqueue_updates : Bytes → Option (List Inputs) → Session (Unit {0})
  unfolding done enqueue_batches create_batches
  enqueue_updates job_name (some rows) = enqueue_batches job_name (create_batches rows (pos 10000))
  enqueue_updates job_name none = done (ok tt)

  unfoldable pub scan_job : VectorizeJob → Session (Unit {0})
  unfolding then_run get_new_updates enqueue_updates
  scan_job job = then_run (get_new_updates (update_query job)) (enqueue_updates job.job_name)
