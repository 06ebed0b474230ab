-- ===== src/Jobs/Remove.antt =====
-- `cleanup_job` of core/src/init.rs: a job is removed from the database.
use pg_vectorize.Base.{◌≡◌, ap, ◌∙◌, List, [], ◌∷◌, ◌++◌, append_assoc, Bytes, codes, map, concat}
use pg_vectorize.Base.Result.{Result, okay}
use pg_vectorize.Base.Exec.{Exec, ok, err, DbError, row_not_found, sql_error, not_found}
use pg_vectorize.Base.Session.{
  Value, text, Request, run, begin, commit, Oracle, Session, done, then_run, attempt, attempt_all,
  attempt_all-sends, send, then_run-ok, then_run-err, send-okay,
}
use pg_vectorize.Types.{VectorizeJob}
use pg_vectorize.Query.Tables.{
  drop_project_view, drop_embeddings_table, drop_search_tokens_table, delete_job_record,
}
use pg_vectorize.Query.Triggers.{
  drop_event_trigger, drop_search_tokens_trigger, drop_trigger_handler,
}
use pg_vectorize.Jobs.Rows.{Env, get_vectorize_job}

abbrev pub delete_messages : Bytes → Request
delete_messages job_name =
    run (codes "DELETE FROM pgmq.q_vectorize_jobs WHERE message->>'job_name' = $1")
      (text job_name ∷ [])

-- `map_err` behind the query for the job.
unfoldable pub job_not_there :
    Bytes → List Request × Exec VectorizeJob → List Request × Exec VectorizeJob
job_not_there job_name (sent, err (sql_error row_not_found)) =
    (sent, err (not_found (concat (codes "Job '" ∷ job_name ∷ codes "' not found" ∷ []))))
job_not_there job_name (sent, r) = (sent, r)

module _ (env : Env) where
  unfoldable pub find_job : Bytes → Session VectorizeJob
  unfolding get_vectorize_job job_not_there
  find_job job_name oracle sent =
      job_not_there job_name (get_vectorize_job env job_name oracle sent)

  unfoldable pub cleanup_statements : Bytes → VectorizeJob → List Request
  cleanup_statements job_name job =
      map (λ statement. run statement [])
        (drop_event_trigger env.tables job_name job.src_schema job.src_table (codes "INSERT")
          ∷ drop_event_trigger env.tables job_name job.src_schema job.src_table (codes "UPDATE")
          ∷ drop_search_tokens_trigger job_name job.src_schema job.src_table
          ∷ drop_trigger_handler job_name
          ∷ drop_project_view job_name
          ∷ drop_embeddings_table job_name
          ∷ drop_search_tokens_table job_name
          ∷ delete_job_record job_name
          ∷ [])

  -- The transaction, in which a statement that fails is passed over.
  unfoldable pub commit_cleanup : Unit {0} → Session (Unit {0})
  unfolding then_run send done
  commit_cleanup _ = then_run (send commit) λ _. done (ok tt)

  unfoldable pub run_cleanup : Bytes → VectorizeJob → List (List Value) → Session (Unit {0})
  unfolding then_run attempt_all cleanup_statements commit_cleanup
  run_cleanup job_name job _ =
      then_run (attempt_all (cleanup_statements job_name job)) commit_cleanup

  unfoldable pub open_cleanup :
      Bytes → VectorizeJob → Result DbError (List (List Value)) → Session (Unit {0})
  unfolding then_run send run_cleanup
  open_cleanup job_name job _ = then_run (send begin) (run_cleanup job_name job)

  unfoldable pub remove_job : Bytes → VectorizeJob → Session (Unit {0})
  unfolding then_run attempt open_cleanup
  remove_job job_name job =
      then_run (attempt (delete_messages job_name)) (open_cleanup job_name job)

  unfoldable pub cleanup_job : Bytes → Session (Unit {0})
  unfolding then_run find_job remove_job
  cleanup_job job_name = then_run (find_job job_name) (remove_job job_name)

  -- Once the job's record was read and the transaction can be opened and committed, `cleanup_job`
  -- sends all of its statements and succeeds, whichever of them the database refuses.
  pub cleanup_job-sends :
      (job_name : Bytes) (job : VectorizeJob) (oracle : Oracle) (sent read : List Request)
      (opened committed : List (List Value))
      → get_vectorize_job env job_name oracle sent ≡ (read, ok job)
      → oracle (read ++ delete_messages job_name ∷ []) begin ≡ okay opened
      → oracle (read ++ (delete_messages job_name ∷ begin ∷ cleanup_statements job_name job)) commit
        ≡ okay committed
      → cleanup_job job_name oracle sent ≡ (
        read
            ++ (delete_messages job_name
                ∷ begin
                ∷ (cleanup_statements job_name job ++ commit ∷ [])),
        ok tt,
      )
  unfolding cleanup_job remove_job open_cleanup run_cleanup commit_cleanup attempt done
  cleanup_job-sends job_name job oracle sent read opened committed found open_ok commit_ok =
      let statements = cleanup_statements job_name job in
      let deleted = read ++ delete_messages job_name ∷ [] in
      let in_transaction =
        append_assoc deleted (begin ∷ []) statements
        ∙ append_assoc read (delete_messages job_name ∷ []) (begin ∷ statements) in
      then_run-ok (find_job job_name) (remove_job job_name) oracle sent
        (ap (job_not_there job_name) found)
      ∙ (then_run-ok (send begin) (run_cleanup job_name job) oracle deleted
            (send-okay begin oracle deleted open_ok)
          ∙ (then_run-ok (attempt_all statements) commit_cleanup oracle (deleted ++ begin ∷ []) (
                attempt_all-sends statements oracle (deleted ++ begin ∷ [])
                ∙ ap (λ s. (s, ok tt)) in_transaction)
              ∙ (then_run-ok (send commit) (λ _. done (ok tt)) oracle _
                    (send-okay commit oracle _ commit_ok)
                  ∙ ap (λ s. (s, ok tt))
                      (append_assoc read (delete_messages job_name ∷ begin ∷ statements)
                        (commit ∷ [])))))

  -- A job that has no record is reported as not found, and no request follows the query for the
  -- record.
  cleanup_job-missing :
      (job_name : Bytes) (oracle : Oracle) (sent read : List Request)
      → get_vectorize_job env job_name oracle sent ≡ (read, err (sql_error row_not_found))
      → cleanup_job job_name oracle sent
        ≡ (read, err (not_found (concat (codes "Job '" ∷ job_name ∷ codes "' not found" ∷ []))))
  unfolding cleanup_job find_job job_not_there
  cleanup_job-missing job_name oracle sent read missing =
      then_run-err (find_job job_name) (remove_job job_name) oracle sent
        (ap (job_not_there job_name) missing)
