-- ===== src/Worker/Executor/Poll.antt =====
-- What becomes of a message.
use pg_vectorize.Base.{◌≡◌, ap, ◌∙◌, true, false, List, [], ◌∷◌, ◌++◌, some}
use pg_vectorize.Base.Int.{pos, ltb_ℤ}
use pg_vectorize.Base.Result.{okay}
use pg_vectorize.Base.Exec.{ok, err, VectorizeError, row_not_found, sql_error}
use pg_vectorize.Base.Session.{
  Value, Request, read_queue, delete_from_queue, Oracle, done, then_run, attempt, then_run-ok,
  then_run-err,
}
use pg_vectorize.Jobs.Rows.{Env, get_vectorize_job}
use pg_vectorize.Worker.Executor.{
  Message, Config, Provider, message_of_rows, execute_job, with_job, delete_message, deleted,
  process_message, poll_answer, read_answer, poll_job,
}

-- The request with which a message is deleted.
abbrev pub deletes : Config → Message → Request
deletes config msg = delete_from_queue config.queue_name msg.msg_id

module _ {Float : Type 0} (env : Env) (provider : Provider Float) (config : Config) (msg : Message)
    (oracle : Oracle) (sent : List Request) where
  abbrev pub read_first : List Request
  read_first = sent ++ read_queue config.queue_name (pos 300) ∷ []

  -- `poll_job` once the message is read.
  poll_job-read :
      (rows : List (List Value))
      → oracle sent (read_queue config.queue_name (pos 300)) ≡ okay rows
      → message_of_rows env rows ≡ ok (some msg)
      → poll_job env provider config oracle sent
        ≡ process_message env provider config (some msg) oracle read_first
  unfolding poll_job poll_answer
  poll_job-read rows answered read =
      then_run-ok (attempt (read_queue config.queue_name (pos 300)))
        (poll_answer env provider config) oracle sent answer_kept
      ∙ then_run-ok (done (read_answer env provider (okay rows)))
          (process_message env provider config) oracle read_first message_read
    where
      answer_kept :
          attempt (read_queue config.queue_name (pos 300)) oracle sent
          ≡ (read_first, ok (okay rows))
      answer_kept = rw (attempt, answered)

      message_read :
          done (read_answer env provider (okay rows)) oracle read_first
          ≡ (read_first, ok (some msg))
      message_read = rw (done, read_answer, read)

  delete_message_lem :
      (before : List Request) (rows : List (List Value))
      → oracle before (deletes config msg) ≡ okay rows
      → delete_message env provider config msg tt oracle before
        ≡ (before ++ deletes config msg ∷ [], ok (some tt))
  unfolding delete_message
  delete_message_lem before rows e = rw (then_run, attempt, e, deleted, done)

  -- A message that was read more than `max_retries` times is deleted from the queue, and nothing else
  -- is sent once it was read.
  poll_job-exhausted :
      (rows removed : List (List Value))
      → oracle sent (read_queue config.queue_name (pos 300)) ≡ okay rows
      → message_of_rows env rows ≡ ok (some msg)
      → ltb_ℤ config.max_retries msg.read_ct ≡ true
      → oracle read_first (deletes config msg) ≡ okay removed
      → poll_job env provider config oracle sent
        ≡ (read_first ++ deletes config msg ∷ [], ok (some tt))
  unfolding process_message
  poll_job-exhausted rows removed answered read exhausted gone =
      poll_job-read rows answered read ∙ rw exhausted (delete_message_lem read_first removed gone)

  -- A message that still may be retried stays on the queue when its job fails: the error is returned,
  -- and the last request is the last one of `execute_job`.
  pub poll_job-failed :
      (rows : List (List Value)) (after_job : List Request) (e : VectorizeError)
      → oracle sent (read_queue config.queue_name (pos 300)) ≡ okay rows
      → message_of_rows env rows ≡ ok (some msg)
      → ltb_ℤ config.max_retries msg.read_ct ≡ false
      → execute_job env provider msg.message oracle read_first ≡ (after_job, err e)
      → poll_job env provider config oracle sent ≡ (after_job, err e)
  unfolding process_message
  poll_job-failed rows after_job e answered read retry failed =
      poll_job-read rows answered read
      ∙ rw retry (
          then_run-err (execute_job env provider msg.message)
            (delete_message env provider config msg) oracle read_first failed)

  -- A message that still may be retried is deleted when its job has no record any more, and nothing
  -- else is sent behind the query for the record.
  poll_job-job_gone :
      (rows removed : List (List Value)) (looked_up : List Request)
      → oracle sent (read_queue config.queue_name (pos 300)) ≡ okay rows
      → message_of_rows env rows ≡ ok (some msg)
      → ltb_ℤ config.max_retries msg.read_ct ≡ false
      → get_vectorize_job env msg.message.job_name oracle read_first
        ≡ (looked_up, err (sql_error row_not_found))
      → oracle looked_up (deletes config msg) ≡ okay removed
      → poll_job env provider config oracle sent
        ≡ (looked_up ++ deletes config msg ∷ [], ok (some tt))
  unfolding process_message execute_job with_job
  poll_job-job_gone rows removed looked_up answered read retry gone deleted_ok =
      poll_job-read rows answered read
      ∙ rw retry (
          then_run-ok (execute_job env provider msg.message)
            (delete_message env provider config msg) oracle read_first
            (ap (λ r. with_job env provider msg.message r oracle read_first) gone)
          ∙ delete_message_lem looked_up removed deleted_ok)
