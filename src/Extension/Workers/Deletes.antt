-- ===== src/Extension/Workers/Deletes.antt =====
-- What becomes of a message.
use pg_vectorize.Base.{
  ◌≡◌, refl, ap, sym, ◌∙◌, inl, inr, List, [], ◌∷◌, ◌++◌, append-nil, some, Bytes, Bool-cases,
  if◌then◌else◌,
}
use pg_vectorize.Base.Int.{pos, ltb_ℤ}
use pg_vectorize.Base.Result.{Result, okay, error}
use pg_vectorize.Base.Exec.{ok, VectorizeError}
use pg_vectorize.Base.Session.{
  Value, Request, read_queue, delete_from_queue, Oracle, done, attempt, caught, kept, then_run-ok,
}
use pg_vectorize.Jobs.Rows.{Env}
use pg_vectorize.Worker.Executor.{Message}
use pg_vectorize.Extension.Workers.{
  Libraries, execute_job, after_job, delete_it, message_of_answer, process_message, read_message,
  run_worker,
}

module _ {Float : Type 0} (env : Env) (libraries : Libraries Float) (queue_name : Bytes)
    (msg : Message) (oracle : Oracle) (sent : List Request) where
  abbrev pub first_read : List Request
  first_read = sent ++ read_queue queue_name (pos 180) ∷ []

  abbrev pub delete_request : Request
  delete_request = delete_from_queue queue_name msg.msg_id

  run_worker-read :
      (rows : List (List Value)) (after : List Request) (r : Result VectorizeError (Unit {0}))
      → oracle sent (read_queue queue_name (pos 180)) ≡ okay rows
      → message_of_answer env libraries (okay rows) ≡ ok (some msg)
      → kept (execute_job env libraries msg.message oracle first_read) ≡ (after, ok r)
      → run_worker env libraries queue_name oracle sent
        ≡ after_job env libraries queue_name msg r oracle after
  unfolding run_worker read_message process_message caught
  run_worker-read rows after r answered read outcome =
      then_run-ok (attempt (read_queue queue_name (pos 180)))
        (read_message env libraries queue_name) oracle sent answer_kept
      ∙ (then_run-ok (done (message_of_answer env libraries (okay rows)))
            (process_message env libraries queue_name) oracle first_read message_read
          ∙ then_run-ok (caught (execute_job env libraries msg.message))
              (after_job env libraries queue_name msg) oracle first_read outcome)
    where
      answer_kept :
          attempt (read_queue queue_name (pos 180)) oracle sent ≡ (first_read, ok (okay rows))
      answer_kept = rw (attempt, answered) refl

      message_read :
          done (message_of_answer env libraries (okay rows)) oracle first_read
          ≡ (first_read, ok (some msg))
      message_read = rw (done, read) refl

  -- What is sent behind a job with this outcome: a deletion, unless the job failed and the message was
  -- read twice at most.
  abbrev pub deletions : Result VectorizeError (Unit {0}) → List Request
  deletions (okay _) = delete_request ∷ []
  deletions (error e) = if ltb_ℤ (pos 2) msg.read_ct then delete_request ∷ [] else []

  -- Once a message was read and its job ended without a panic, the worker reports that it took a
  -- message, whatever the queue answers to the deletion. It deletes the message, as its last request,
  -- if the job succeeded or the message was read more than twice, and sends nothing behind the job
  -- otherwise.
  pub run_worker-deletes :
      (rows : List (List Value)) (after : List Request) (r : Result VectorizeError (Unit {0}))
      → oracle sent (read_queue queue_name (pos 180)) ≡ okay rows
      → message_of_answer env libraries (okay rows) ≡ ok (some msg)
      → caught (execute_job env libraries msg.message) oracle first_read ≡ (after, ok r)
      → run_worker env libraries queue_name oracle sent ≡ (after ++ deletions r, ok (some tt))
  unfolding after_job delete_it caught
  run_worker-deletes rows after (okay done) answered read outcome =
      run_worker-read rows after (okay done) answered read outcome
  run_worker-deletes rows after (error e) answered read outcome =
      run_worker-read rows after (error e) answered read outcome
      ∙ elim (Bool-cases (ltb_ℤ (pos 2) msg.read_ct)) [
        | inl often ↦ rw often refl
        | inr seldom ↦ rw seldom (ap (λ s. (s, ok (some tt))) (sym (append-nil after)))
      ]
