-- ===== src/Extension/Api.antt =====
-- extension/src/api.rs: the functions of SQL that create a job.
use pg_vectorize.Base.{List, ◌++◌, Option, none, some, Bytes, codes, text_eq, if◌then◌else◌}
use pg_vectorize.Base.Result.{Result}
use pg_vectorize.Base.Exec.{ok}
use pg_vectorize.Base.Session.{Session, done, then_run}
use pg_vectorize.Types.{IndexDist}
use pg_vectorize.Types.Params.{TableMethod, JobParams}
use pg_vectorize.Extension.Spi.{spi_all, parsed_model}
use pg_vectorize.Extension.Tables.{init_cron}
use pg_vectorize.Extension.Create.{Platform, is_realtime, statements, trigger_statements}
use pg_vectorize.Extension.Create.Table.{init_table}
use pg_vectorize.Extension.Imports.{import_embeddings}

-- `update_time_col`: a realtime job has none.
abbrev pub update_time_col_of : (schedule update_col : Bytes) → Option Bytes
update_time_col_of schedule update_col = if is_realtime schedule then none else some update_col

module _ {Float : Type 0} (platform : Platform Float)
    (parse_params : Bytes → Result Bytes JobParams) where
  unfoldable pub table :
      (relation : Bytes) (columns : List Bytes) (job_name primary_key schema update_col : Bytes)
      → IndexDist
      → (transformer : Bytes) → TableMethod
      → (schedule : Bytes) → Session Bytes
  unfolding then_run done parsed_model init_table
  table relation columns job_name primary_key schema update_col index_dist_type transformer
        table_method schedule =
      then_run (done (parsed_model platform.tables transformer)) λ model.
        init_table platform job_name schema relation columns primary_key
          (update_time_col_of schedule update_col) index_dist_type model table_method schedule

  -- The triggers or the schedule behind the import.
  unfoldable pub start_imported :
      (schedule job_name schema relation primary_key : Bytes) → Session (Unit {0})
  unfolding then_run spi_all trigger_statements init_cron done
  start_imported schedule job_name schema relation primary_key =
      if is_realtime schedule
      then spi_all
          (statements (trigger_statements platform.tables job_name schema relation primary_key))
      else if text_eq schedule (codes "manual")
      then done (ok tt)
      else then_run (init_cron schedule job_name) (λ id. done (ok tt))

  unfoldable pub table_from :
      (relation : Bytes) (columns : List Bytes)
      (job_name primary_key src_table src_primary_key src_embeddings_col schema update_col : Bytes)
      → IndexDist
      → (transformer : Bytes) → TableMethod
      → (schedule : Bytes) → Session Bytes
  unfolding then_run done parsed_model init_table import_embeddings start_imported
  table_from relation columns job_name primary_key src_table src_primary_key src_embeddings_col
        schema update_col index_dist_type transformer table_method schedule =
      then_run (done (parsed_model platform.tables transformer)) λ model.
        then_run
          (init_table platform job_name schema relation columns primary_key
            (update_time_col_of schedule update_col) index_dist_type model table_method
            (codes "manual"))
          λ created.
            then_run
              (import_embeddings platform.tables parse_params job_name src_table src_primary_key
                src_embeddings_col)
              λ imported.
                then_run (start_imported schedule job_name schema relation primary_key) λ _. done (
                  ok (
                    codes "Successfully created table from existing embeddings with schedule: "
                    ++ schedule))
