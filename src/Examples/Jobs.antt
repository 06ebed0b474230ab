-- ===== src/Examples/Jobs.antt =====
-- A job over one table, and databases that answer.
use pg_vectorize.Base.{◌≡◌, refl, List, [], ◌∷◌, ◌++◌, Bytes, codes, map}
use pg_vectorize.Base.{text_eq}
use pg_vectorize.Base.Text.{split, join}
use pg_vectorize.Base.Int.{pos}
use pg_vectorize.Base.Result.{okay, error}
use pg_vectorize.Base.Exec.{ok, other_db_error}
use pg_vectorize.Base.Session.{
  Value, text, texts, integer, message, Request, run, begin, commit, Oracle,
}
use pg_vectorize.Types.{VectorizeJob, JobMessage, open_ai, new_model}
use pg_vectorize.Transformers.{Inputs, trim}
use pg_vectorize.Jobs.Rows.{Env, get_vectorize_job, inputs_of_rows, update_query, scan_job, enqueue}
use pg_vectorize.Jobs.Rows.Scan.{scan_job-enqueues, all_record_ids}
use pg_vectorize.Jobs.Create.{initialize_job}
use pg_vectorize.Jobs.Create.Order.{MessagesFollowCommit, initialize_job-MessagesFollowCommit}
use pg_vectorize.Jobs.Remove.{cleanup_job, cleanup_statements, delete_messages, cleanup_job-sends}

abbrev pub env : Env
env = record {
  count_tokens = λ s. pos 1;
  display_db = λ e. codes "database error";
  decode_error = other_db_error (codes "column type");
  tables = λ s. s;
}

abbrev pub job : VectorizeJob
job = record {
  job_name = codes "job";
  src_table = codes "products";
  src_schema = codes "public";
  src_columns = codes "name" ∷ [];
  primary_key = codes "id";
  update_time_col = codes "updated_at";
  model = record { source = open_ai; fullname = codes "openai/m"; name = codes "m" };
}

abbrev rows : List (List Value)
rows =
    (text (codes "1") ∷ text (codes "pen") ∷ []) ∷ (text (codes "2") ∷ text (codes "cup") ∷ []) ∷ []

abbrev input : Bytes → Bytes → Inputs
input record_id inputs = record { record_id = record_id; inputs = inputs; token_estimate = pos 1 }

-- Each query returns the two rows, and each message is accepted.
abbrev pub two_rows : Oracle
two_rows sent (run query []) = okay rows
two_rows sent (run query (message name ids ∷ [])) = okay ((integer (pos 1) ∷ []) ∷ [])
two_rows sent _ = okay ((text (codes "uuid") ∷ []) ∷ [])

scan_job-enqueues_example :
    (messages : List JobMessage) × (scan_job env job two_rows []
      ≡ (run (update_query env job) [] ∷ map (enqueue env) messages, ok tt))
    × (all_record_ids messages ≡ codes "1" ∷ codes "2" ∷ [])
unfolding inputs_of_rows enqueue trim
scan_job-enqueues_example =
    scan_job-enqueues env job two_rows [] (text (codes "1") ∷ text (codes "pen") ∷ [])
      ((text (codes "2") ∷ text (codes "cup") ∷ []) ∷ [])
      (input (codes "1") (codes "pen") ∷ input (codes "2") (codes "cup") ∷ []) refl refl
      (λ sent m. (pos 1, [], refl))

initialize_job-MessagesFollowCommit_example :
    MessagesFollowCommit two_rows (initialize_job env (λ source name. ok 384) job two_rows []).0
initialize_job-MessagesFollowCommit_example =
    initialize_job-MessagesFollowCommit env two_rows (λ source name. ok 384) job

abbrev pub job_row : List Value
job_row =
    text (codes "job")
    ∷ text (codes "products")
    ∷ text (codes "public")
    ∷ texts (codes "name" ∷ [])
    ∷ text (codes "id")
    ∷ text (codes "updated_at")
    ∷ text (codes "openai/m")
    ∷ []

-- The record is found; no other statement has a parameter, and each is refused.
abbrev refusing : Oracle
refusing sent (run query []) = error (other_db_error (codes "permission denied"))
refusing sent _ = okay (job_row ∷ [])

abbrev lookup : Bytes → Request
lookup name =
    run
      (codes
        "SELECT job_name, src_table, src_schema, src_columns, primary_key, update_time_col, model \n         FROM vectorize.job \n         WHERE job_name = $1")
      (text name ∷ [])

cleanup_job-sends_example : cleanup_job env (codes "job") refusing [] ≡ (
  lookup (codes "job")
      ∷ delete_messages (codes "job")
      ∷ begin
      ∷ (cleanup_statements env (codes "job") job ++ commit ∷ []),
  ok tt,
)
unfolding get_vectorize_job new_model split text_eq join
cleanup_job-sends_example =
    cleanup_job-sends env (codes "job") job refusing [] (lookup (codes "job") ∷ []) (job_row ∷ [])
      (job_row ∷ []) refl refl refl
