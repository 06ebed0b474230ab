-- ===== src/Extension/Create.antt =====
-- extension/src/search.rs and extension/src/transformers/openai.rs: how the extension creates a job.
-- `error!` of the extension's framework unwinds, as a panic.
pub mod Table
use pg_vectorize.Base.{
  List, [], ◌∷◌, Option, none, some, Bytes, codes, concat, text_eq, true, false, Bool,
  if◌then◌else◌, ℕ,
}
use pg_vectorize.Base.Int.{ℤ}
use pg_vectorize.Base.Result.{Result, okay, error}
use pg_vectorize.Base.Exec.{Exec, ok, err, panicked, DbError, internal_error}
use pg_vectorize.Base.Session.{Value, text, Request, run, Session, done, then_run}
use pg_vectorize.Types.{
  Model, IndexDist, display_index, api_name, open_ai, sentence_transformers, cohere, ollama,
  portkey, voyage,
}
use pg_vectorize.Types.Params.{TableMethod, JobParams}
use pg_vectorize.Transformers.Http.{Client, no_body, handled}
use pg_vectorize.Transformers.Providers
use pg_vectorize.Transformers.Providers.{EmbeddingProvider, bearer}
use pg_vectorize.Transformers.Providers.Dimensions.{model_dim}
use pg_vectorize.Query.Tables.{init_job_query}
use pg_vectorize.Query.Triggers.{create_trigger_handler, create_event_trigger}
use pg_vectorize.Jobs.Guc.{ModelGucConfig, ollama_service_url}
use pg_vectorize.Extension.Settings.{Settings, get_guc}
use pg_vectorize.Extension.Spi.{spi_all, get_column_datatype}

-- The settings; the environment of the process; the HTTP library with the reading of a response as any
-- document; the Unicode tables; the number of tokens of a text; and the texts of two documents, the
-- parameters of a job and the arguments with a virtual key.
pub record Platform (Float : Type 0) : Type 1 where
  pub settings : Settings
  pub environment : Providers.Env
  pub client : Client Float
  pub document_json : client.Response → Result Bytes Bytes
  pub tables : Bytes → Bytes
  pub count_tokens : Bytes → ℤ
  pub params_text : JobParams → Bytes
  pub virtual_key_args : Bytes → Bytes

abbrev pub is_realtime : Bytes → Bool
is_realtime schedule = text_eq schedule (codes "realtime")

abbrev pub is_join : TableMethod → Bool
is_join TableMethod.append = false
is_join TableMethod.join = true

-- A failure that `error!` raises.
unfoldable pub raised {ℓ} : {A : Type ℓ} → Exec A → Exec A
raised (ok a) = ok a
raised _ = panicked

unfoldable pub inserted : Result DbError (List (List Value)) → Session (Unit {0})
unfolding done
inserted (okay rows) = done (ok tt)
inserted (error e) = done panicked

unfoldable pub job_insert :
    (params_text : JobParams → Bytes) → Bytes → IndexDist → Model → JobParams → Request
unfolding init_job_query display_index
job_insert params_text job_name index_dist_type transformer valid_params = run init_job_query (
    text job_name
    ∷ text (display_index index_dist_type)
    ∷ text transformer.fullname
    ∷ text (params_text valid_params)
    ∷ [])

abbrev pub statements : List Bytes → List Request
statements [] = []
statements (q ∷ queries) = run q [] ∷ statements queries

-- The triggers; an error ends the statements and is dropped.
unfoldable pub dropped : List Request × Exec (Unit {0}) → List Request × Exec (Unit {0})
dropped (sent, ok done) = (sent, ok tt)
dropped (sent, err e) = (sent, ok tt)
dropped (sent, panicked) = (sent, panicked)

unfoldable pub raised_session : List Request × Exec (Unit {0}) → List Request × Exec (Unit {0})
unfolding raised
raised_session (sent, r) = (sent, raised r)

unfoldable pub trigger_statements :
    (tables : Bytes → Bytes) (job_name schema table primary_key : Bytes) → List Bytes
unfolding create_trigger_handler create_event_trigger
trigger_statements tables job_name schema table primary_key =
    create_trigger_handler job_name primary_key
    ∷ create_event_trigger tables job_name schema table (codes "INSERT")
    ∷ create_event_trigger tables job_name schema table (codes "UPDATE")
    ∷ []

unfoldable pub create_triggers :
    (tables : Bytes → Bytes) (job_name schema table primary_key : Bytes) → Session (Unit {0})
unfolding dropped spi_all trigger_statements
create_triggers tables job_name schema table primary_key oracle sent =
    dropped (
      spi_all (statements (trigger_statements tables job_name schema table primary_key)) oracle
        sent)

-- The check of the update column, if there is one.
unfoldable pub timestamp_checked : (col datatype : Bytes) → Session (Unit {0})
unfolding done
timestamp_checked col datatype =
    if text_eq datatype (codes "timestamp with time zone")
    then done (ok tt)
    else done (
        err (
          internal_error (
            concat (
              codes "`update_col` must be of type `timestamp with time zone`. column: '"
              ∷ col
              ∷ codes "' is of type `"
              ∷ datatype
              ∷ codes "`"
              ∷ []))))

unfoldable pub update_col_checked : (schema table : Bytes) → Option Bytes → Session (Unit {0})
unfolding done then_run get_column_datatype timestamp_checked
update_col_checked schema table none = done (ok tt)
update_col_checked schema table (some col) =
    then_run (get_column_datatype schema table col) (timestamp_checked col)

module _ {Float : Type 0} (platform : Platform Float) where
  unfoldable pub validate_api_key : Bytes → Exec Bytes
  unfolding handled raised
  validate_api_key key = raised (
      handled platform.client platform.document_json (codes "models") (
        platform.client.answer [] (record {
          url = codes "https://api.openai.com/v1/models";
          headers = (codes "Content-Type", codes "application/json") ∷ bearer key ∷ [];
          body = no_body;
        })))

  -- A host that does not answer panics (`unwrap`), as does one that answers with another status.
  unfoldable pub check_model_host : Bytes → Exec (Unit {0})
  check_model_host url =
      elim (platform.client.answer [] (record { url = url; headers = []; body = no_body })) [
        | okay response ↦
            if text_eq (platform.client.status response) (codes "200 OK") then ok tt else panicked
        | error e ↦ panicked
      ]

  unfoldable pub host_checked : Exec (Option Bytes) → Exec (Unit {0})
  unfolding check_model_host
  host_checked (ok (some url)) = check_model_host url
  host_checked _ = panicked

  -- `optional_args`.
  unfoldable pub provider_args : Model → ModelGucConfig → Exec (Option Bytes)
  unfolding validate_api_key host_checked get_guc
  provider_args transformer guc_configs = elim transformer.source [
    | open_ai ↦ elim guc_configs.api_key [
      | none ↦ err (internal_error (codes "OpenAI key is required"))
      | some key ↦ elim (validate_api_key key) [
        | ok v ↦ ok none
        | err e ↦ err e
        | panicked ↦ panicked
      ]
    ]
    | ollama ↦ elim (host_checked (get_guc platform.settings ollama_service_url)) [
      | ok active ↦ ok none
      | err e ↦ err e
      | panicked ↦ panicked
    ]
    | portkey ↦ elim guc_configs.virtual_key [
      | none ↦ panicked
      | some key ↦ ok (some (platform.virtual_key_args key))
    ]
    | sentence_transformers ↦ ok none
    | cohere ↦ ok none
    | voyage ↦ ok none
  ]

  unfoldable pub provider_dim : EmbeddingProvider → Model → Exec ℕ
  unfolding raised model_dim api_name
  provider_dim provider transformer =
      raised (model_dim platform.client provider (api_name transformer) []).1
