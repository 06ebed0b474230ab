-- ===== src/Jobs/Rows/Scan.antt =====
-- What `scan_job` enqueues.
use pg_vectorize.Base.{
  ◌≡◌, refl, ap, sym, ◌∙◌, List, [], ◌∷◌, ◌++◌, append-nil, append_assoc, some, Bytes, map, concat,
}
use mathlib.Core.List.{map-append}
use pg_vectorize.Base.Int.{ℤ, pos}
use pg_vectorize.Base.Result.{okay}
use pg_vectorize.Base.Exec.{ok}
use pg_vectorize.Base.Session.{
  Value, integer, Request, run, Oracle, done, after, then_run, attempt, send, then_run-ok,
  send-okay,
}
use pg_vectorize.Types.{VectorizeJob, JobMessage}
use pg_vectorize.Transformers.{Inputs}
use pg_vectorize.Query.Batches.{create_batches}
use pg_vectorize.Query.Batches.Laws.{concat-create_batches}
use pg_vectorize.Jobs.Rows.{
  Env, first_row, enqueue_updates, read_updates, fetch_one, enqueue, message_of_batch,
  enqueue_batches, inputs_of_rows, get_new_updates, updates_of_answer, update_query, scan_job,
  scalar_integer,
}

-- The queue accepts each message and returns its id.
abbrev pub AcceptsMessages : Env → Oracle → Type 0
AcceptsMessages env oracle =
    (sent : List Request) (m : JobMessage)
    → (id : ℤ) × (rows : List (List Value)) × (oracle sent (enqueue env m)
        ≡ okay ((integer id ∷ []) ∷ rows))

-- The ids of all records of some messages.
abbrev pub all_record_ids : List JobMessage → List Bytes
all_record_ids messages = concat (map (λ (m : JobMessage). m.record_ids) messages)

fetch_one-okay :
    (r : Request) (oracle : Oracle) (sent : List Request) {row : List Value}
    {rows : List (List Value)}
    → oracle sent r ≡ okay (row ∷ rows)
    → fetch_one r oracle sent ≡ (sent ++ r ∷ [], ok row)
unfolding fetch_one first_row
fetch_one-okay r oracle sent e =
    then_run-ok (send r) first_row oracle sent (send-okay r oracle sent e)

module _ (env : Env) where
  enqueue_batches-sends :
      (job_name : Bytes) (batches : List (List Inputs)) (oracle : Oracle) (sent : List Request)
      → AcceptsMessages env oracle
      → enqueue_batches env job_name batches oracle sent
        ≡ (sent ++ map (λ b. enqueue env (message_of_batch env job_name b)) batches, ok tt)
  unfolding enqueue_batches scalar_integer then_run done after
  enqueue_batches-sends job_name [] oracle sent accepts =
      ap (λ s. (s, ok tt)) (sym (append-nil sent))
  enqueue_batches-sends job_name (b ∷ batches) oracle sent accepts =
      let r = enqueue env (message_of_batch env job_name b) in
      let (id, rows, e) = accepts sent (message_of_batch env job_name b) in
      then_run-ok (fetch_one r)
        (λ row. then_run (done (scalar_integer env row)) λ _. enqueue_batches env job_name batches)
        oracle sent (fetch_one-okay r oracle sent e)
      ∙ (enqueue_batches-sends job_name batches oracle (sent ++ r ∷ []) accepts
          ∙ ap (λ s. (s, ok tt)) (append_assoc sent (r ∷ []) _))

  record_ids_lem :
      (job_name : Bytes) (batches : List (List Inputs))
      → all_record_ids (map (message_of_batch env job_name) batches)
        ≡ map (λ (i : Inputs). i.record_id) (concat batches)
  unfolding message_of_batch
  record_ids_lem job_name [] = refl
  record_ids_lem job_name (b ∷ batches) =
      ap (λ r. map (λ (i : Inputs). i.record_id) b ++ r) (record_ids_lem job_name batches)
      ∙ sym (map-append (λ (i : Inputs). i.record_id) b (concat batches))

  -- If the query for new rows returns rows, which are read as `inputs`, and the queue accepts every
  -- message, `scan_job` succeeds: it sends the query and then some messages, one request each, and
  -- together the messages name each row once, in the order of the rows.
  pub scan_job-enqueues :
      (job : VectorizeJob) (oracle : Oracle) (sent : List Request) (row : List Value)
      (rows : List (List Value)) (inputs : List Inputs)
      → oracle sent (run (update_query env job) []) ≡ okay (row ∷ rows)
      → inputs_of_rows env (row ∷ rows) ≡ ok inputs
      → AcceptsMessages env oracle
      → (messages : List JobMessage) × (scan_job env job oracle sent
          ≡ (sent ++ (run (update_query env job) [] ∷ map (enqueue env) messages), ok tt))
        × (all_record_ids messages ≡ map (λ (i : Inputs). i.record_id) inputs)
  unfolding scan_job get_new_updates
  scan_job-enqueues job oracle sent row rows inputs answered read accepts =
      let batches = create_batches inputs (pos 10000) in
      let select = run (update_query env job) [] in
      (
        map (message_of_batch env job.job_name) batches,
        then_run-ok (get_new_updates env (update_query env job)) (enqueue_updates env job.job_name)
              oracle sent updated
            ∙ (enqueue_batches-sends job.job_name batches oracle (sent ++ select ∷ []) accepts
                ∙ ap (λ s. (s, ok tt))
                    (append_assoc sent (select ∷ []) _
                      ∙ ap (λ s. sent ++ (select ∷ s)) (sym (map-map batches)))),
        record_ids_lem job.job_name batches
            ∙ ap (map (λ (i : Inputs). i.record_id)) (concat-create_batches inputs (pos 10000)),
      )
    where
      map-map :
          (bs : List (List Inputs))
          → map (enqueue env) (map (message_of_batch env job.job_name) bs)
            ≡ map (λ b. enqueue env (message_of_batch env job.job_name b)) bs
      map-map [] = refl
      map-map (b ∷ bs) =
          ap (λ s. enqueue env (message_of_batch env job.job_name b) ∷ s) (map-map bs)

      updated :
          get_new_updates env (update_query env job) oracle sent
          ≡ (sent ++ run (update_query env job) [] ∷ [], ok (some inputs))
      updated =
          rw (get_new_updates, then_run, attempt, read_updates, answered, updates_of_answer, read)
