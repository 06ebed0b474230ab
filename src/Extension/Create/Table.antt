-- ===== src/Extension/Create/Table.antt =====
-- extension/src/search.rs: `init_table`, by its steps.
use pg_vectorize.Base.{List, [], ◌++◌, Option, none, Bytes, codes, not, ◌&&◌, if◌then◌else◌, ℕ}
use pg_vectorize.Base.Exec.{ok, panicked}
use pg_vectorize.Base.Session.{Session, done, then_run}
use pg_vectorize.Types.{Model, IndexDist}
use pg_vectorize.Types.Params.{TableMethod, JobParams}
use pg_vectorize.Transformers.Providers.{get_provider}
use pg_vectorize.Jobs.Guc.{ModelGucConfig}
use pg_vectorize.Extension.Settings.{get_guc_configs}
use pg_vectorize.Extension.Spi.{spi, spi_all, get_column_datatype}
use pg_vectorize.Extension.Tables.{init_pgmq, init_cron, init_embedding_table_query}
use pg_vectorize.Extension.Initial.{initalize_table_job}
use pg_vectorize.Extension.Create.{
  is_realtime, is_join, inserted, job_insert, statements, raised_session, create_triggers,
  update_col_checked, provider_args, provider_dim, Platform,
}

module _ {Float : Type 0} (platform : Platform Float) where
  -- The tables, the triggers or the schedule, and the first messages; from the parameters on.
  unfoldable pub create_tables :
      Bytes → IndexDist → JobParams → (model_dim : ℕ) → Session (Unit {0})
  unfolding then_run done init_embedding_table_query raised_session spi_all
  create_tables job_name index_dist_type valid_params model_dim =
      then_run
        (done (
          init_embedding_table_query platform.settings platform.tables job_name valid_params
            index_dist_type model_dim))
        λ queries oracle sent. raised_session (spi_all (statements queries) oracle sent)

  unfoldable pub start_updates : Bytes → JobParams → Session (Unit {0})
  unfolding create_triggers then_run init_cron done
  start_updates job_name valid_params =
      if is_realtime valid_params.schedule
      then create_triggers platform.tables job_name valid_params.schema valid_params.relation
          valid_params.primary_key
      else then_run (init_cron valid_params.schedule job_name) λ id. done (ok tt)

  unfoldable pub write_job : Bytes → IndexDist → Model → JobParams → (model_dim : ℕ) → Session Bytes
  unfolding then_run spi job_insert inserted create_tables start_updates initalize_table_job done
  write_job job_name index_dist_type transformer valid_params model_dim =
      then_run
        (spi (job_insert platform.params_text job_name index_dist_type transformer valid_params))
        λ answer. then_run (inserted answer) λ _.
          then_run (create_tables job_name index_dist_type valid_params model_dim) λ _.
            then_run (start_updates job_name valid_params) λ _.
              then_run
                (initalize_table_job platform.count_tokens platform.settings.batch_size job_name
                  valid_params)
                λ _. done (ok (codes "Successfully created job: " ++ job_name))

  -- From the settings of the source on.
  unfoldable pub with_configs :
      Bytes → IndexDist → Model → JobParams → ModelGucConfig → Session Bytes
  unfolding then_run done provider_args get_provider provider_dim write_job
  with_configs job_name index_dist_type transformer params guc_configs =
      then_run (done (provider_args platform transformer guc_configs)) λ args.
        then_run
          (done (
            get_provider platform.environment transformer.source guc_configs.api_key
              guc_configs.service_url guc_configs.virtual_key))
          λ provider. then_run (done (provider_dim platform provider transformer)) λ model_dim.
            write_job job_name index_dist_type transformer
              (record params { api_key = guc_configs.api_key; args = args }) model_dim

  -- From the checks on; the parameters lack what is still to be read.
  unfoldable pub checked_init : Bytes → IndexDist → Model → JobParams → Session Bytes
  unfolding then_run update_col_checked get_column_datatype init_pgmq done get_guc_configs
      with_configs
  checked_init job_name index_dist_type transformer params =
      then_run (update_col_checked params.schema params.relation params.update_time_col) λ _.
        then_run (get_column_datatype params.schema params.relation params.primary_key) λ pkey_type.
          then_run init_pgmq λ _.
            then_run (done (get_guc_configs platform.settings transformer.source)) (
              with_configs job_name index_dist_type transformer
                (record params { pkey_type = pkey_type }))

  unfoldable pub init_table :
      (job_name schema table : Bytes) (columns : List Bytes) (primary_key : Bytes)
      (update_col : Option Bytes)
      → IndexDist
      → Model
      → TableMethod
      → (schedule : Bytes) → Session Bytes
  unfolding done checked_init
  init_table job_name schema table columns primary_key update_col index_dist_type transformer
        table_method schedule =
      if is_realtime schedule && not (is_join table_method)
      then done panicked
      else checked_init job_name index_dist_type transformer (record {
        schema = schema;
        relation = table;
        columns = columns;
        update_time_col = update_col;
        table_method = table_method;
        primary_key = primary_key;
        pkey_type = [];
        api_key = none;
        schedule = schedule;
        args = none;
      })
