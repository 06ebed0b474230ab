-- ===== src/Jobs/Create/Order.antt =====
-- The order of what `initialize_job` sends: no message before the database has accepted the commit.
use pg_vectorize.Base.{
  ℕ, ◌≡◌, refl, ap, ◌∙◌, arith, Bool, true, false, not, List, [], ◌∷◌, ◌++◌, append_assoc, Bytes,
  all, map, Option, ◌⊎◌, inl, inr, none, some,
}
use pg_vectorize.Base.Result.{okay}
use pg_vectorize.Base.Exec.{Exec, ok, err, panicked, sql_error}
use pg_vectorize.Base.Session.{
  Value, message, Request, run, begin, commit, read_queue, delete_from_queue, send_to_queue, Oracle,
  Session, done, then_run, send, send_all,
}
use pg_vectorize.Base.Session.Hoare.{
  Outcome, Triple, then_run-Triple, send-Triple, done-Triple, attempt-Triple,
}
use pg_vectorize.Types.{VectorizeJob, ModelSource, api_name}
use pg_vectorize.Transformers.{Inputs}
use pg_vectorize.Jobs.Rows.{
  Env, first_row, fetch_one, scan_job, get_new_updates, read_updates, enqueue_updates,
  enqueue_batches, update_query, get_column_datatype, column_not_found, scalar_text, scalar_integer,
  updates_of_answer, select_column_datatype,
}
use pg_vectorize.Jobs.Create.{
  insert_job_request, statement_request, create_statements, create_job, fill_job, initialize_job,
  initial_update_query,
}

abbrev is_message : Value → Bool
is_message (message _ _) = true
is_message _ = false

-- A request that binds no message.
abbrev is_plain : Request → Bool
is_plain begin = true
is_plain commit = true
is_plain (read_queue q n) = true
is_plain (delete_from_queue q n) = true
is_plain (send_to_queue q n ids) = false
is_plain (run query values) = all (λ v. not (is_message v)) values

-- No message is bound or sent in a list of requests.
abbrev pub HasNoMessage : List Request → Type 0
HasNoMessage s = all is_plain s ≡ true

-- Before the first message there is a commit that the database accepted.
abbrev pub IsCommitted : Oracle → List Request → Type 0
IsCommitted oracle s =
    (before behind : List Request) × (rows : List (List Value)) × HasNoMessage before
    × (oracle before commit ≡ okay rows)
    × (s ≡ before ++ commit ∷ behind)

-- There is no message, or a commit that the database accepted stands before the first one.
abbrev pub MessagesFollowCommit : Oracle → List Request → Type 0
MessagesFollowCommit oracle s = HasNoMessage s ⊎ IsCommitted oracle s

HasNoMessage-append :
    (s : List Request) (r : Request)
    → is_plain r ≡ true
    → HasNoMessage s
    → HasNoMessage (s ++ r ∷ [])
HasNoMessage-append [] r e h = ground arith
HasNoMessage-append (q ∷ s) r e h = ground (arith, HasNoMessage-append s r e)

module _ (oracle : Oracle) where
  Committed : List Request → Type 0
  Committed s = IsCommitted oracle s

  Ordered : List Request → Type 0
  Ordered s = MessagesFollowCommit oracle s

  Committed-append : (s : List Request) (r : Request) → Committed s → Committed (s ++ r ∷ [])
  unfolding Committed
  Committed-append s r (before, behind, rows, plain, accepted, e) = (
    before,
    behind ++ r ∷ [],
    rows,
    plain,
    accepted,
    ap (λ t. t ++ r ∷ []) e ∙ append_assoc before (commit ∷ behind) (r ∷ []),
  )

  Plain-Ordered : (s : List Request) → HasNoMessage s → Ordered s
  unfolding Ordered
  Plain-Ordered s h = inl h

  Committed-Ordered : (s : List Request) → Committed s → Ordered s
  unfolding Ordered Committed
  Committed-Ordered s h = inr h

  Committed-next : (s : List Request) (r : Request) → Committed s → Ordered (s ++ r ∷ [])
  Committed-next s r h = Committed-Ordered (s ++ r ∷ []) (Committed-append s r h)

  send-Committed : (r : Request) → Triple oracle Committed Committed Ordered (send r)
  send-Committed r =
      send-Triple oracle Committed Committed Ordered r (λ s rows h e. Committed-append s r h)
        (λ s h. Committed-next s r h)

  send-Plain :
      (r : Request) → is_plain r ≡ true → Triple oracle HasNoMessage HasNoMessage Ordered (send r)
  send-Plain r e =
      send-Triple oracle HasNoMessage HasNoMessage Ordered r
        (λ s rows h answered. HasNoMessage-append s r e h)
        (λ s h. Plain-Ordered (s ++ r ∷ []) (HasNoMessage-append s r e h))

  done-Plain {ℓ} :
      {A : Type ℓ} (r : Exec A) → Triple oracle HasNoMessage HasNoMessage Ordered (done r)
  done-Plain r = done-Triple oracle HasNoMessage Ordered r Plain-Ordered

  done-Committed {ℓ} :
      {A : Type ℓ} (r : Exec A) → Triple oracle Committed Committed Ordered (done r)
  done-Committed r = done-Triple oracle Committed Ordered r Committed-Ordered

  first_row-Triple :
      (P : List Request → Type 0)
      → ((s : List Request) → P s → Ordered s)
      → (rows : List (List Value)) → Triple oracle P P Ordered (first_row rows)
  unfolding first_row
  first_row-Triple P h [] = done-Triple oracle P Ordered _ h
  first_row-Triple P h (row ∷ rows) = done-Triple oracle P Ordered _ h

  fetch_one-Plain :
      (r : Request)
      → is_plain r ≡ true
      → Triple oracle HasNoMessage HasNoMessage Ordered (fetch_one r)
  unfolding fetch_one
  fetch_one-Plain r e =
      then_run-Triple oracle HasNoMessage HasNoMessage HasNoMessage Ordered (send r) first_row
        (send-Plain r e) (first_row-Triple HasNoMessage Plain-Ordered)

  fetch_one-Committed : (r : Request) → Triple oracle Committed Committed Ordered (fetch_one r)
  unfolding fetch_one
  fetch_one-Committed r =
      then_run-Triple oracle Committed Committed Committed Ordered (send r) first_row
        (send-Committed r) (first_row-Triple Committed Committed-Ordered)

  -- The commit counts only if the database accepts it.
  send-commit : Triple oracle HasNoMessage Committed Ordered (send commit)
  unfolding Committed
  send-commit =
      send-Triple oracle HasNoMessage Committed Ordered commit
        (λ s rows h accepted. (s, [], rows, h, accepted, refl))
        (λ s h. Plain-Ordered (s ++ commit ∷ []) (HasNoMessage-append s commit refl h))

Outcome-any {ℓ} :
    {A : Type ℓ} (Q R : List Request → Type 0) → (r : List Request × Exec A) → Outcome Q R r → R r.0
Outcome-any Q R (s, ok a) (q, r) = r
Outcome-any Q R (s, err e) r = r
Outcome-any Q R (s, panicked) r = r

module _ (env : Env) (oracle : Oracle) where
  enqueue_batches-Triple :
      (job_name : Bytes) (batches : List (List Inputs))
      → Triple oracle
          (Committed oracle)
          (Committed oracle)
          (Ordered oracle)
          (enqueue_batches env job_name batches)
  unfolding enqueue_batches
  enqueue_batches-Triple job_name [] = done-Committed oracle (ok tt)
  enqueue_batches-Triple job_name (b ∷ batches) =
      then_run-Triple oracle (Committed oracle) (Committed oracle) (Committed oracle)
        (Ordered oracle) _ _ (fetch_one-Committed oracle _)
        λ row.
          then_run-Triple oracle (Committed oracle) (Committed oracle) (Committed oracle)
            (Ordered oracle) _ _ (done-Committed oracle (scalar_integer env row))
            λ _. enqueue_batches-Triple job_name batches

  enqueue_updates-Triple :
      (job_name : Bytes) (updates : Option (List Inputs))
      → Triple oracle
          (Committed oracle)
          (Committed oracle)
          (Ordered oracle)
          (enqueue_updates env job_name updates)
  unfolding enqueue_updates
  enqueue_updates-Triple job_name none = done-Committed oracle (ok tt)
  enqueue_updates-Triple job_name (some rows) = enqueue_batches-Triple job_name _

  get_new_updates-Triple :
      (query : Bytes)
      → Triple oracle
          (Committed oracle)
          (Committed oracle)
          (Ordered oracle)
          (get_new_updates env query)
  unfolding get_new_updates read_updates
  get_new_updates-Triple query =
      then_run-Triple oracle (Committed oracle) (Committed oracle) (Committed oracle)
        (Ordered oracle) _ _
        (attempt-Triple oracle (Committed oracle) (Committed oracle) (Ordered oracle) (run query [])
          λ s h. (
            Committed-append oracle s _ h,
            Committed-Ordered oracle _ (Committed-append oracle s _ h),
          ))
        λ answer. done-Committed oracle (updates_of_answer env answer)

  scan_job-Triple :
      (job : VectorizeJob)
      → Triple oracle (Committed oracle) (Committed oracle) (Ordered oracle) (scan_job env job)
  unfolding scan_job
  scan_job-Triple job =
      then_run-Triple oracle (Committed oracle) (Committed oracle) (Committed oracle)
        (Ordered oracle) _ _ (get_new_updates-Triple (update_query env job))
        (enqueue_updates-Triple job.job_name)

  column_not_found-Outcome :
      (schema table column : Bytes) (Q R : List Request → Type 0) (r : List Request × Exec Bytes)
      → Outcome Q R r
      → Outcome Q R (column_not_found env schema table column r)
  unfolding column_not_found
  column_not_found-Outcome schema table column Q R (sent, ok v) h = h
  column_not_found-Outcome schema table column Q R (sent, panicked) h = h
  column_not_found-Outcome schema table column Q R (sent, err (sql_error e)) h = h
  column_not_found-Outcome schema table column Q R (sent, err e) h = h

  select_column_datatype-Triple :
      (schema table column : Bytes)
      → Triple oracle HasNoMessage HasNoMessage
          (Ordered oracle)
          (select_column_datatype env schema table column)
  unfolding select_column_datatype
  select_column_datatype-Triple schema table column =
      then_run-Triple oracle HasNoMessage HasNoMessage HasNoMessage (Ordered oracle) _ _
        (fetch_one-Plain oracle _ refl) λ row. done-Plain oracle (scalar_text env row)

  get_column_datatype-Triple :
      (schema table column : Bytes)
      → Triple oracle HasNoMessage HasNoMessage
          (Ordered oracle)
          (get_column_datatype env schema table column)
  unfolding get_column_datatype Triple
  get_column_datatype-Triple schema table column sent h =
      column_not_found-Outcome schema table column HasNoMessage (Ordered oracle) _
        (select_column_datatype-Triple schema table column sent h)

  statements-Triple :
      (statements : List Bytes)
      → Triple oracle HasNoMessage HasNoMessage
          (Ordered oracle)
          (send_all (map statement_request statements))
  unfolding send_all
  statements-Triple [] = done-Plain oracle (ok tt)
  statements-Triple (q ∷ statements) =
      then_run-Triple oracle HasNoMessage HasNoMessage HasNoMessage (Ordered oracle) _ _
        (send-Plain oracle (run q []) refl) λ _. statements-Triple statements

  module _ (model_dim : ModelSource → Bytes → Exec ℕ) where
    -- A step of the transaction before its commit.
    then_run-Plain {ℓ κ} :
        {A : Type ℓ} {B : Type κ} (m : Session A) (f : A → Session B)
        → Triple oracle HasNoMessage HasNoMessage (Ordered oracle) m
        → ((a : A) → Triple oracle HasNoMessage (Committed oracle) (Ordered oracle) (f a))
        → Triple oracle HasNoMessage (Committed oracle) (Ordered oracle) (then_run m f)
    then_run-Plain m f =
        then_run-Triple oracle HasNoMessage HasNoMessage (Committed oracle) (Ordered oracle) m f

    create_job-Triple :
        (job : VectorizeJob)
        → Triple oracle HasNoMessage
            (Committed oracle)
            (Ordered oracle)
            (create_job env model_dim job)
    unfolding create_job insert_job_request
    create_job-Triple job = then_run-Plain _ _ (send-Plain oracle begin refl) λ _.
        then_run-Plain _ _ (fetch_one-Plain oracle (insert_job_request job) refl) λ row.
          then_run-Plain _ _ (done-Plain oracle (scalar_text env row)) λ job_id.
            then_run-Plain _ _ (done-Plain oracle (model_dim job.model.source (api_name job.model)))
              λ dim.
                then_run-Plain _ _
                  (get_column_datatype-Triple job.src_schema job.src_table job.primary_key)
                  λ dtype.
                    then_run-Plain _ _
                      (done-Plain oracle (create_statements env model_dim job dim dtype))
                      λ statements. then_run-Plain _ _ (statements-Triple statements) λ _.
                        then_run-Triple oracle HasNoMessage (Committed oracle) (Committed oracle)
                          (Ordered oracle) _ _ (send-commit oracle)
                          λ _. done-Committed oracle (ok job_id)

    fill_job-Triple :
        (job : VectorizeJob)
        → Triple oracle
            (Committed oracle)
            (Committed oracle)
            (Ordered oracle)
            (fill_job env model_dim job)
    unfolding fill_job
    fill_job-Triple job =
        then_run-Triple oracle (Committed oracle) (Committed oracle) (Committed oracle)
          (Ordered oracle) _ _ (scan_job-Triple job)
          λ _.
            then_run-Triple oracle (Committed oracle) (Committed oracle) (Committed oracle)
              (Ordered oracle) _ _ (send-Committed oracle (run (initial_update_query job) []))
              λ _. done-Committed oracle (ok tt)

    initialize_job-Triple :
        (job : VectorizeJob)
        → Triple oracle HasNoMessage
            (Committed oracle)
            (Ordered oracle)
            (initialize_job env model_dim job)
    unfolding initialize_job
    initialize_job-Triple job =
        then_run-Triple oracle HasNoMessage (Committed oracle) (Committed oracle) (Ordered oracle) _
          _ (create_job-Triple job)
          λ job_id.
            then_run-Triple oracle (Committed oracle) (Committed oracle) (Committed oracle)
              (Ordered oracle) _ _ (fill_job-Triple job) λ _. done-Committed oracle (ok job_id)

    -- Whatever the database, the provider and the queue answer, and wherever `initialize_job` stops:
    -- if it sends a message at all, then before its first message it has sent a commit that the
    -- database accepted.
    pub initialize_job-MessagesFollowCommit :
        (job : VectorizeJob)
        → MessagesFollowCommit oracle (initialize_job env model_dim job oracle []).0
    unfolding Triple Ordered
    initialize_job-MessagesFollowCommit job =
        Outcome-any (Committed oracle) (Ordered oracle) _ (initialize_job-Triple job [] refl)
