-- ===== src/Server/Errors.antt =====
-- server/src/errors.rs: the errors of a route and the answers that they become.
use pg_vectorize.Base.{ℕ, ◌++◌, Bytes, codes}
use pg_vectorize.Base.Result.{Result, error}
use pg_vectorize.Base.Exec.{ok, DbError, VectorizeError as CoreError}
use pg_vectorize.Base.Session.{Session, done}
use pg_vectorize.Base.Map.{Map}
use pg_vectorize.Types.{VectorizeJob}

pub data ServerError : Type 0 where
  vectorize_error : CoreError → ServerError
  not_found_error : Bytes → ServerError
  database_error : DbError → ServerError
  invalid_request : Bytes → ServerError
  reqwest : Bytes → ServerError
  serde_error : Bytes → ServerError
  internal_error : Bytes → ServerError
  pgmq_error : Bytes → ServerError

-- A handler's result with the cache of jobs behind it.
abbrev pub Handled {ℓ} : Type ℓ → Type ℓ
Handled A = Map VectorizeJob × Result ServerError A

abbrev pub refused {ℓ} : {A : Type ℓ} → Map VectorizeJob → ServerError → Session (Handled A)
refused cache e = done (ok (cache, error e))

-- The errors that the public sees.
pub data ErrorResponse : Type 0 where
  not_found conflict not_authorized bad_request internal_server_error : Bytes → ErrorResponse

-- `to_string` of the two errors whose text is shown.
unfoldable pub error_response : ServerError → ErrorResponse
error_response (invalid_request e) = bad_request (codes "InvalidRequest: " ++ e)
error_response (not_found_error e) = not_found (codes "DatabaseError: " ++ e)
error_response _ = internal_server_error (codes "Internal Server Error. Check server logs")

unfoldable pub status_code : ServerError → ℕ
status_code (invalid_request e) = 400
status_code (not_found_error e) = 404
status_code _ = 500
