-- ===== src/Extension/Initial.antt =====
-- extension/src/job.rs: the messages for the rows that a table has when its job is created.
pub mod Messages
use pg_vectorize.Base.{List, [], ◌∷◌, Bytes, codes, map}
use pg_vectorize.Base.Int.{ℤ}
use pg_vectorize.Base.Result.{Result, okay, error}
use pg_vectorize.Base.Exec.{Exec, ok, panicked, ◌>>=◌, DbError}
use pg_vectorize.Base.Session.{Value, text, message, Request, run, Session, done, then_run}
use pg_vectorize.Types.Params.{TableMethod, JobParams}
use pg_vectorize.Transformers.{Inputs, trim}
use pg_vectorize.Query.Batches.{create_batches}
use pg_vectorize.Query.Triggers.{new_rows_query_join}
use pg_vectorize.Extension.Executor.{new_rows_query}
use pg_vectorize.Extension.Spi.{spi}

-- `rows_need_update_query`.
unfoldable pub rows_need_update_query : Bytes → JobParams → Exec Bytes
unfolding new_rows_query new_rows_query_join
rows_need_update_query job_name job_params = elim job_params.table_method [
  | TableMethod.append ↦ new_rows_query job_name job_params
  | TableMethod.join ↦ ok (
      new_rows_query_join job_name job_params.columns job_params.schema job_params.relation
        job_params.primary_key job_params.update_time_col)
]

-- `JobMessage` with the ids of a batch.
unfoldable pub send_request : Bytes → List Inputs → Request
send_request job_name b =
    run (codes "select pgmq.send($1, $2::jsonb);")
      (text (codes "vectorize_jobs") ∷ message job_name (map (λ (i : Inputs). i.record_id) b) ∷ [])

-- The result of a statement is dropped, an error included.
unfoldable pub send_initial : Bytes → List (List Inputs) → Session (Unit {0})
unfolding then_run spi send_request done
send_initial job_name [] = done (ok tt)
send_initial job_name (b ∷ batches) =
    then_run (spi (send_request job_name b)) λ ran. send_initial job_name batches

-- The number of tokens of a text, as an `i32`.
module _ (count_tokens : Bytes → ℤ) where
  -- A NULL panics (`expect`); a column that is no text ends the loop with the inputs so far.
  unfoldable pub initial_inputs : List (List Value) → Exec (List Inputs)
  unfolding trim
  initial_inputs [] = ok []
  initial_inputs ((text record_id ∷ text ipt ∷ []) ∷ rows) = initial_inputs rows >>= λ inputs. ok (
      record { record_id = record_id; inputs = trim ipt; token_estimate = count_tokens ipt }
      ∷ inputs)
  initial_inputs ((_ ∷ _ ∷ []) ∷ rows) = ok []
  initial_inputs (_ ∷ rows) = panicked

  -- An error of the query is dropped, so that no row is read.
  unfoldable pub inputs_of_answer : Result DbError (List (List Value)) → Exec (List Inputs)
  unfolding initial_inputs
  inputs_of_answer (okay rows) = initial_inputs rows
  inputs_of_answer (error e) = ok []

  -- From the answer on.
  unfoldable pub send_rows :
      (max_batch_size : ℤ) → Bytes → Result DbError (List (List Value)) → Session (Unit {0})
  unfolding then_run done inputs_of_answer send_initial create_batches
  send_rows max_batch_size job_name answer =
      then_run (done (inputs_of_answer answer))
        λ inputs. send_initial job_name (create_batches inputs max_batch_size)

  unfoldable pub initalize_table_job : (max_batch_size : ℤ) → Bytes → JobParams → Session (Unit {0})
  unfolding then_run done rows_need_update_query spi send_rows
  initalize_table_job max_batch_size job_name job_params =
      then_run (done (rows_need_update_query job_name job_params))
        λ query. then_run (spi (run query [])) (send_rows max_batch_size job_name)
