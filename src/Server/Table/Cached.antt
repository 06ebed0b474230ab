-- ===== src/Server/Table/Cached.antt =====
-- What the two handlers leave in the cache of jobs.
use mathlib.Core.Path.{subst}
use pg_vectorize.Base.{
  ℕ, ◌≡◌, refl, ap, ◌∙◌, true, false, Bool, List, none, some, Bytes, codes, text_eq, if◌then◌else◌,
}
use pg_vectorize.Base.Map.{Map, get, insert, get-insert, remove, get-remove}
use pg_vectorize.Base.Result.{Result, okay, error}
use pg_vectorize.Base.Exec.{Exec, ok, err, panicked, VectorizeError}
use pg_vectorize.Base.Session.{
  Request, Oracle, Session, then_run, caught, kept, then_run-ok, caught-then_run,
}
use pg_vectorize.Types.{VectorizeJob, ModelSource}
use pg_vectorize.Jobs.Rows.{Env, get_column_datatype}
use pg_vectorize.Jobs.Create.{initialize_job}
use pg_vectorize.Jobs.Remove.{cleanup_job}
use pg_vectorize.Server.Errors.{Handled, refused, status_code}
use pg_vectorize.Server.Table.{
  not_a_timestamp, job_created, column_checked, table, job_deleted, delete_table, DeleteJobResponse,
}

-- A handler either succeeds and leaves the cache `updated`, or refuses and leaves the cache as it
-- was; no error of the core leaves it as it is.
abbrev pub Leaves {ℓ} :
    {A : Type ℓ} → (cache updated : Map VectorizeJob) → List Request × Exec (Handled A) → Type 0
Leaves cache updated (sent, ok (behind, okay a)) = behind ≡ updated
Leaves cache updated (sent, ok (behind, error e)) = behind ≡ cache
Leaves cache updated (sent, err e) = ⊥
Leaves cache updated (sent, panicked) = Unit

module _ (env : Env) (model_dim : ModelSource → Bytes → Exec ℕ) where
  -- Whatever the database answers, the handler that creates a job puts it into the cache if it
  -- answers with the job's id, and leaves the cache as it was if it answers with an error.
  table-Leaves :
      (payload : VectorizeJob) (cache : Map VectorizeJob) (oracle : Oracle) (sent : List Request)
      → Leaves cache
          (insert payload.job_name payload cache)
          (table env model_dim payload cache oracle sent)
  unfolding table column_checked job_created
  table-Leaves payload cache oracle sent =
      caught-then_run (Leaves cache (insert payload.job_name payload cache))
        (get_column_datatype env payload.src_schema payload.src_table payload.update_time_col)
        (column_checked env model_dim payload cache) oracle sent checked (λ s. tt)
    where
      created :
          (s : List Request) (r : Result VectorizeError Bytes)
          → Leaves cache
              (insert payload.job_name payload cache)
              (job_created payload cache r oracle s)
      created s (okay id) = refl
      created s (error e) = refl

      by_type :
          (datatype : Bytes) (timestamp : Bool) (s : List Request)
          → Leaves cache (insert payload.job_name payload cache) (
              (if timestamp
                  then then_run
                      (caught (initialize_job env model_dim payload))
                      (job_created payload cache)
                  else refused cache (not_a_timestamp payload))
                oracle s)
      by_type datatype true s =
          caught-then_run (Leaves cache (insert payload.job_name payload cache))
            (initialize_job env model_dim payload) (job_created payload cache) oracle s created
            (λ s. tt)
      by_type datatype false s = refl

      checked :
          (s : List Request) (r : Result VectorizeError Bytes)
          → Leaves cache
              (insert payload.job_name payload cache)
              (column_checked env model_dim payload cache r oracle s)
      checked s (error e) = refl
      checked s (okay datatype) =
          by_type datatype (text_eq datatype (codes "timestamp with time zone")) s

  -- The same for the handler that deletes a job, which takes it out of the cache.
  pub delete_table-Leaves :
      (job_name : Bytes) (cache : Map VectorizeJob) (oracle : Oracle) (sent : List Request)
      → Leaves cache (remove job_name cache) (delete_table env job_name cache oracle sent)
  unfolding delete_table job_deleted
  delete_table-Leaves job_name cache oracle sent =
      caught-then_run (Leaves cache (remove job_name cache)) (cleanup_job env job_name)
        (job_deleted job_name cache) oracle sent deleted (λ s. tt)
    where
      deleted :
          (s : List Request) (r : Result VectorizeError (Unit {0}))
          → Leaves cache (remove job_name cache) (job_deleted job_name cache r oracle s)
      deleted s (okay done) = refl
      deleted s (error e) = refl

  -- A job that is created and then deleted, both with success, is gone from the cache, and every
  -- other name is as before.
  pub delete_table-table :
      (payload : VectorizeJob) (cache created deleted : Map VectorizeJob) (oracle : Oracle)
      (sent first second : List Request) (job_id : Bytes) (answer : DeleteJobResponse)
      → table env model_dim payload cache oracle sent ≡ (first, ok (created, okay job_id))
      → delete_table env payload.job_name created oracle first ≡ (second, ok (deleted, okay answer))
      → (name : Bytes)
      → get name deleted ≡ (if text_eq payload.job_name name then none else get name cache)
  delete_table-table payload cache created deleted oracle sent first second job_id answer made
        removed name =
      ap (get name) (
        subst (Leaves created (remove payload.job_name created)) removed
          (delete_table-Leaves payload.job_name created oracle first))
      ∙ (get-remove payload.job_name name created
          ∙ (ap (λ c. if text_eq payload.job_name name then none else get name c)
                (subst (Leaves cache (insert payload.job_name payload cache)) made
                  (table-Leaves payload cache oracle sent))
              ∙ (ap (λ v. if text_eq payload.job_name name then none else v)
                    (get-insert payload.job_name name payload cache)
                  ∙ absorbed (text_eq payload.job_name name))))
    where
      absorbed :
          (b : Bool)
          → (if b then none else (if b then some payload else get name cache))
            ≡ (if b then none else get name cache)
      absorbed true = refl
      absorbed false = refl

  -- A job whose update column has another type than `timestamp with time zone` is refused with the
  -- status 400: nothing is sent behind the query for the type, and the cache is left as it was.
  table-not_a_timestamp :
      (payload : VectorizeJob) (cache : Map VectorizeJob) (oracle : Oracle)
      (sent read : List Request) (datatype : Bytes)
      → get_column_datatype env payload.src_schema payload.src_table payload.update_time_col oracle
          sent
        ≡ (read, ok datatype)
      → text_eq datatype (codes "timestamp with time zone") ≡ false
      → (table env model_dim payload cache oracle sent
          ≡ (read, ok (cache, error (not_a_timestamp payload))))
        × (status_code (not_a_timestamp payload) ≡ 400)
  unfolding table column_checked not_a_timestamp status_code
  table-not_a_timestamp payload cache oracle sent read datatype found other = (
    then_run-ok (caught column) (column_checked env model_dim payload cache) oracle sent
          (ap kept found)
        ∙ rw other refl,
    refl,
  )
    where
      column : Session Bytes
      column = get_column_datatype env payload.src_schema payload.src_table payload.update_time_col
