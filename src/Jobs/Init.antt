-- ===== src/Jobs/Init.antt =====
-- core/src/init.rs: what is set up in the database before there are jobs.
use pg_vectorize.Base.{List, [], ◌∷◌, Bool, true, false, Bytes, codes}
use pg_vectorize.Base.Exec.{Exec, ok, err, sql_error}
use pg_vectorize.Base.Session.{
  Value, boolean, Request, run, Session, done, then_run, send_all, attempt_all,
}
use pg_vectorize.Query.Tables.{create_vectorize_table}
use pg_vectorize.Query.Triggers.{handle_table_update, create_batch_texts_fn}
use pg_vectorize.Jobs.Rows.{Env, fetch_one}

unfoldable pub schema_request : (query : Bytes) → Request
schema_request query = run query []

unfoldable pub critical_statements : List Request
unfolding create_vectorize_table handle_table_update create_batch_texts_fn
critical_statements =
    run (codes "CREATE SCHEMA IF NOT EXISTS vectorize;") []
    ∷ run create_vectorize_table []
    ∷ run handle_table_update []
    ∷ run create_batch_texts_fn []
    ∷ []

unfoldable pub failable_statements : List Request
failable_statements =
    run (codes "ALTER SYSTEM SET vectorize.batch_size = 10000;") []
    ∷ run (codes "SELECT pg_reload_conf();") []
    ∷ []

-- `install_sql` of the queue's library, which is a session of its own.
module _ (env : Env) (install_sql : Session (Unit {0})) where
  unfoldable pub exists_of_row : List Value → Exec Bool
  exists_of_row (boolean b ∷ []) = ok b
  exists_of_row _ = err (sql_error env.decode_error)

  unfoldable pub read_exists : List Value → Session Bool
  unfolding done exists_of_row
  read_exists row = done (exists_of_row row)

  unfoldable pub pgmq_schema_exists : Session Bool
  unfolding then_run fetch_one schema_request read_exists
  pgmq_schema_exists =
      then_run
        (fetch_one (
          schema_request (
            codes
              "SELECT EXISTS(SELECT 1 FROM information_schema.schemata WHERE schema_name = 'pgmq')")))
        read_exists

  unfoldable pub vectorize_schema_exists : Session Bool
  unfolding then_run fetch_one schema_request read_exists
  vectorize_schema_exists =
      then_run
        (fetch_one (
          schema_request (
            codes
              "SELECT EXISTS(SELECT 1 FROM information_schema.schemata WHERE schema_name = 'vectorize')")))
        read_exists

  unfoldable pub install_vectorize : Bool → Session (Unit {0})
  unfolding done then_run send_all attempt_all critical_statements failable_statements
  install_vectorize true = done (ok tt)
  install_vectorize false =
      then_run (send_all critical_statements) λ _. attempt_all failable_statements

  unfoldable pub init_vectorize : Session (Unit {0})
  unfolding then_run vectorize_schema_exists install_vectorize
  init_vectorize = then_run vectorize_schema_exists install_vectorize

  unfoldable pub install_pgmq : Bool → Session (Unit {0})
  unfolding done
  install_pgmq true = done (ok tt)
  install_pgmq false = install_sql

  unfoldable pub init_pgmq : Session (Unit {0})
  unfolding then_run pgmq_schema_exists install_pgmq
  init_pgmq = then_run pgmq_schema_exists install_pgmq

  unfoldable pub init_project : Session (Unit {0})
  unfolding then_run init_pgmq send_all init_vectorize
  init_project = then_run init_pgmq λ _.
      then_run
        (send_all (
          run (codes "CREATE EXTENSION IF NOT EXISTS vector;") []
          ∷ run (codes "SELECT pgmq.create('vectorize_jobs');") []
          ∷ []))
        λ _. init_vectorize
