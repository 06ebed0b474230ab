-- ===== src/Examples/Worker.antt =====
-- A queue with one message, and a statement for two embeddings.
use pg_vectorize.Base.{ℕ, ◌+◌, ◌*◌, ◌≡◌, refl, List, [], ◌∷◌, ◌++◌, some, Bytes, codes, get_elem?}
use pg_vectorize.Base.Text.{join}
use pg_vectorize.Base.Int.{ℤ, pos}
use pg_vectorize.Base.Result.{Result, okay, error}
use pg_vectorize.Base.Exec.{ok, err, DbError, other_db_error, sql_error, model_not_found}
use pg_vectorize.Base.Session.{Value, text, integer, message, Request, run, read_queue, Oracle}
use pg_vectorize.Transformers.{PairedEmbeddings}
use pg_vectorize.Jobs.Rows.{Env}
use pg_vectorize.Worker.Ops.{build_upsert_query, insert_into, on_conflict, bound}
use pg_vectorize.Worker.Ops.Placeholders.{groups, build_upsert_query-placeholders}
use pg_vectorize.Worker.Executor.{Message, Config, Provider, message_of_rows, execute_job, poll_job}
use pg_vectorize.Worker.Executor.Poll.{poll_job-failed}

abbrev pub serialize : List ℕ → Bytes
serialize vector = codes "[]"

abbrev pairs : List (PairedEmbeddings ℕ)
pairs =
    record { primary_key = codes "10"; embeddings = 1 ∷ [] }
    ∷ record { primary_key = codes "11"; embeddings = 2 ∷ [] }
    ∷ []

abbrev upsert : Bytes × List (Bytes × Bytes)
upsert =
    build_upsert_query serialize (codes "job") pairs (codes "id") (codes "bigint")
      (codes "vectorize")

build_upsert_query-placeholders_example :
    (upsert.0
      ≡ (insert_into serialize (codes "job") (codes "id") (codes "vectorize")
          ++ join (codes ",") (groups serialize (codes "bigint") 0 pairs))
        ++ on_conflict serialize (codes "id"))
    × ((i : ℕ) (p : PairedEmbeddings ℕ)
        → get_elem? pairs i ≡ some p
        → (get_elem? (bound serialize upsert.1) (2 * i) ≡ some (text p.primary_key))
          × (get_elem? (bound serialize upsert.1) (2 * i + 1)
              ≡ some (text (serialize p.embeddings))))
build_upsert_query-placeholders_example =
    build_upsert_query-placeholders serialize (codes "job") (codes "id") (codes "bigint")
      (codes "vectorize") pairs

abbrev env : Env
env = record {
  count_tokens = λ s. pos 1;
  display_db = λ e. codes "database error";
  decode_error = other_db_error (codes "column type");
  tables = λ s. s;
}

abbrev provider : Provider ℕ
provider = record {
  get_provider = λ source. ok tt;
  generate_embedding = λ source request. err (model_not_found (codes "m"));
  serialize = serialize;
}

abbrev config : Config
config = record { queue_name = codes "vectorize_jobs"; max_retries = pos 2 }

abbrev pub queued : ℤ → List (List Value)
queued read_ct =
    (integer (pos 5) ∷ integer read_ct ∷ message (codes "job") (codes "10" ∷ []) ∷ []) ∷ []

abbrev pub msg : ℤ → Message
msg read_ct = record {
  msg_id = pos 5;
  read_ct = read_ct;
  message = record { job_name = codes "job"; record_ids = codes "10" ∷ [] };
}

-- The queue returns the message, and each statement gets the same answer.
abbrev answering : ℤ → Result DbError (List (List Value)) → Oracle
answering read_ct statement sent (read_queue name hidden) = okay (queued read_ct)
answering read_ct statement sent (run query values) = statement
answering read_ct statement sent _ = okay []

abbrev first_requests : List Request
first_requests = read_queue (codes "vectorize_jobs") (pos 300) ∷ []

abbrev lookup : Request
lookup =
    run
      (codes
        "SELECT job_name, src_table, src_schema, src_columns, primary_key, update_time_col, model \n         FROM vectorize.job \n         WHERE job_name = $1")
      (text (codes "job") ∷ [])

-- The database is down: the lookup of the job fails, and the message stays.
poll_job-failed_example :
    poll_job env provider config (answering (pos 1) (error (other_db_error (codes "down")))) []
    ≡ (first_requests ++ lookup ∷ [], err (sql_error (other_db_error (codes "down"))))
unfolding message_of_rows execute_job
poll_job-failed_example =
    poll_job-failed env provider config (msg (pos 1))
      (answering (pos 1) (error (other_db_error (codes "down")))) [] (queued (pos 1))
      (first_requests ++ lookup ∷ []) (sql_error (other_db_error (codes "down"))) refl refl refl
      refl
