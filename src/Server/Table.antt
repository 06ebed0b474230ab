-- ===== src/Server/Table.antt =====
-- server/src/routes/table.rs: a job is created and deleted over HTTP.
pub mod Cached
use pg_vectorize.Base.{ℕ, ◌≡◌, List, [], ◌∷◌, ◌++◌, Bytes, codes, concat, text_eq, if◌then◌else◌}
use pg_vectorize.Base.Map.{Map, insert, remove}
use pg_vectorize.Base.Result.{Result, okay, error}
use pg_vectorize.Base.Exec.{Exec, ok, VectorizeError, not_found}
use pg_vectorize.Base.Session.{Value, Session, done, then_run, caught}
use pg_vectorize.Types.{VectorizeJob, ModelSource}
use pg_vectorize.Jobs.Rows.{Env, get_column_datatype}
use pg_vectorize.Jobs.Create.{initialize_job}
use pg_vectorize.Jobs.Remove.{cleanup_job}
use pg_vectorize.Server.Errors.{
  ServerError, vectorize_error, not_found_error, invalid_request, Handled, refused,
}

-- `map_err` of both handlers.
unfoldable pub server_error : VectorizeError → ServerError
server_error (not_found msg) = not_found_error msg
server_error e = vectorize_error e

unfoldable pub not_a_timestamp : VectorizeJob → ServerError
not_a_timestamp payload = invalid_request (
    concat (
      codes "Column "
      ∷ payload.update_time_col
      ∷ codes " in table "
      ∷ payload.src_schema
      ∷ codes "."
      ∷ payload.src_table
      ∷ codes " must be of type 'timestamp with time zone'"
      ∷ []))

pub record DeleteJobResponse : Type 0 where
  pub job_name : Bytes
  pub message : Bytes

-- What follows `initialize_job`; the answer is the job's id.
unfoldable pub job_created :
    VectorizeJob → Map VectorizeJob → Result VectorizeError Bytes → Session (Handled Bytes)
unfolding done
job_created payload cache (error e) = refused cache (vectorize_error e)
job_created payload cache (okay job_id) =
    done (ok (insert payload.job_name payload cache, okay job_id))

-- `model_dim` is the number of dimensions of a model.
module _ (env : Env) (model_dim : ModelSource → Bytes → Exec ℕ) where
  unfoldable pub column_checked :
      VectorizeJob → Map VectorizeJob → Result VectorizeError Bytes → Session (Handled Bytes)
  unfolding done then_run caught initialize_job server_error not_a_timestamp job_created
  column_checked payload cache (error e) = refused cache (server_error e)
  column_checked payload cache (okay datatype) =
      if text_eq datatype (codes "timestamp with time zone")
      then then_run (caught (initialize_job env model_dim payload)) (job_created payload cache)
      else refused cache (not_a_timestamp payload)

  unfoldable pub table : VectorizeJob → Map VectorizeJob → Session (Handled Bytes)
  unfolding then_run caught get_column_datatype column_checked
  table payload cache =
      then_run
        (caught
          (get_column_datatype env payload.src_schema payload.src_table payload.update_time_col))
        (column_checked payload cache)

unfoldable pub job_deleted :
    Bytes
    → Map VectorizeJob
    → Result VectorizeError (Unit {0})
    → Session (Handled DeleteJobResponse)
unfolding done server_error
job_deleted job_name cache (error e) = refused cache (server_error e)
job_deleted job_name cache (okay _) = done (
    ok (
      remove job_name cache,
      okay (record {
        job_name = job_name;
        message = concat (codes "Successfully deleted job '" ∷ job_name ∷ codes "'" ∷ []);
      }),
    ))

unfoldable pub delete_table : Env → Bytes → Map VectorizeJob → Session (Handled DeleteJobResponse)
unfolding then_run caught cleanup_job job_deleted
delete_table env job_name cache =
    then_run (caught (cleanup_job env job_name)) (job_deleted job_name cache)
