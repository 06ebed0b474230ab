-- ===== src/Extension/Search/Sessions.antt =====
-- extension/src/search.rs and extension/src/transformers/mod.rs: the extension's searches.
use pg_vectorize.Base.{List, [], ◌∷◌, Option, none, some, Bytes, codes, map}
use pg_vectorize.Base.Int.{ℤ, pos, add_i32}
use pg_vectorize.Base.Result.{Result, okay, error}
use pg_vectorize.Base.Exec.{Exec, ok, err, panicked, ◌>>=◌, row_not_found, sql_error, serde_error}
use pg_vectorize.Base.Session.{Value, text, floats, run, Session, done, then_run}
use pg_vectorize.Base.Map.{Map}
use pg_vectorize.Types.{Model, pgv_hnsw_l2, pgv_hnsw_ip, pgv_hnsw_cosine, vsc_diskann_cosine}
use pg_vectorize.Types.Params.{JobParams, VectorizeMeta}
use pg_vectorize.Transformers.{GenericEmbeddingRequest, prepare_generic_embedding_request}
use pg_vectorize.Transformers.Providers
use pg_vectorize.Transformers.Providers.{EmbeddingProvider, get_provider}
use pg_vectorize.Extension.Hybrid
use pg_vectorize.Extension.Hybrid.{AllResults, fused_results}
use pg_vectorize.Extension.Settings.{Settings, get_guc_configs}
use pg_vectorize.Extension.Create.{raised}
use pg_vectorize.Extension.Spi.{spi_run, get_vectorize_meta_spi, parsed_model}
use pg_vectorize.Extension.Search.{cosine_query, full_text_query}

-- What the searches call: the settings, the environment, the Unicode tables, a provider's service, the
-- reading of a document as the parameters of a job and the text of a number. A column of a row is read
-- by its name as a document, as a text or as a number; a value is a document given by its text, and
-- one document is made by setting fields.
pub record Libraries (Float : Type 0) : Type 0 where
  pub settings : Settings
  pub environment : Providers.Env
  pub tables : Bytes → Bytes
  pub generate_embedding : EmbeddingProvider → GenericEmbeddingRequest → Exec (List (List Float))
  pub parse_params : Bytes → Result Bytes JobParams
  pub encode_float : Float → Bytes
  pub json_column : List Value → Bytes → Option Bytes
  pub text_column : List Value → Bytes → Option Bytes
  pub int_column : List Value → Bytes → Option ℤ
  pub text_document : Bytes → Bytes
  pub int_document : ℤ → Bytes
  pub set_field : Bytes → Bytes → Bytes → Bytes

-- `results` of each row: a NULL raises an error, and another type is an error of the interface.
unfoldable pub results_of_rows : List (List Value) → Exec (List Bytes)
results_of_rows [] = ok []
results_of_rows ((text r ∷ []) ∷ rows) = results_of_rows rows >>= λ results. ok (r ∷ results)
results_of_rows ([] ∷ rows) = panicked
results_of_rows (row ∷ rows) = err (sql_error row_not_found)

module _ {Float : Type 0} (libraries : Libraries Float) where
  -- A provider that cannot be made panics, and so does an error of its service.
  unfoldable pub transform : Bytes → Model → Option Bytes → Exec (List (List Float))
  unfolding get_guc_configs raised get_provider prepare_generic_embedding_request
  transform input transformer api_key =
      get_guc_configs libraries.settings transformer.source >>= λ guc_configs.
      let key : Option Bytes = elim api_key [ some k ↦ some k | none ↦ guc_configs.api_key ] in
      raised (
        get_provider libraries.environment transformer.source key guc_configs.service_url
          guc_configs.virtual_key)
      >>= λ provider. raised (
          libraries.generate_embedding provider (
            prepare_generic_embedding_request transformer
              (record { record_id = []; inputs = input; token_estimate = pos 0 } ∷ [])))

  -- A column is a document, a text or a number, whichever reads first, and null otherwise.
  unfoldable pub column_value : List Value → Bytes → Bytes
  column_value row col = elim (libraries.json_column row col) [
    | some v ↦ v
    | none ↦ elim (libraries.text_column row col) [
      | some v ↦ libraries.text_document v
      | none ↦ elim (libraries.int_column row col) [
        | some v ↦ libraries.int_document v
        | none ↦ codes "null"
      ]
    ]
  ]

  unfoldable pub row_result : List Value → Bytes → List Bytes → Bytes
  unfolding column_value
  row_result row result [] = result
  row_result row result (col ∷ return_columns) =
      row_result row (libraries.set_field result col (column_value row col)) return_columns

  unfoldable pub searched_params : VectorizeMeta → Exec JobParams
  searched_params meta = elim (libraries.parse_params meta.params) [
    | okay p ↦ ok p
    | error e ↦ err (serde_error e)
  ]

  unfoldable pub full_text_search : Bytes → Bytes → List Bytes → ℤ → Session (List Bytes)
  unfolding then_run get_vectorize_meta_spi done searched_params spi_run full_text_query row_result
  full_text_search job_name query return_columns num_results =
      then_run (get_vectorize_meta_spi libraries.tables job_name) λ project_meta.
        then_run (done (searched_params project_meta)) λ proj_params.
          then_run (spi_run (run (full_text_query proj_params query return_columns num_results) []))
            λ rows. done (ok (map (λ row. row_result row (codes "{}") return_columns) rows))

  -- From the embeddings on; `embeddings[0]` panics if there is none.
  unfoldable pub cosine_similarity_search :
      Bytes → JobParams → List Bytes → ℤ → List (List Float) → Option Bytes → Session (List Bytes)
  unfolding done then_run spi_run cosine_query results_of_rows
  cosine_similarity_search project job_params return_columns num_results [] where_clause =
      done panicked
  cosine_similarity_search project job_params return_columns num_results (embeddings ∷ others)
        where_clause =
      then_run
        (spi_run (
          run (cosine_query project job_params return_columns num_results where_clause)
            (floats (map libraries.encode_float embeddings) ∷ [])))
        λ rows. done (results_of_rows rows)

  unfoldable pub embedded_query :
      Bytes → Option Bytes → VectorizeMeta → JobParams → Exec (List (List Float))
  unfolding transform
  embedded_query query api_key project_meta proj_params =
      transform query project_meta.transformer
        (elim api_key [ some k ↦ some k | none ↦ proj_params.api_key ])

  -- Two kinds of indexes are not implemented, which is raised once the query was embedded.
  unfoldable pub search_index :
      Bytes
      → VectorizeMeta
      → JobParams
      → List Bytes
      → ℤ
      → Option Bytes
      → List (List Float)
      → Session (List Bytes)
  unfolding done cosine_similarity_search
  search_index job_name project_meta proj_params return_columns num_results where_clause
        embeddings =
      let cosine =
        cosine_similarity_search job_name proj_params return_columns num_results embeddings
          where_clause in
      elim project_meta.index_dist_type [
        | pgv_hnsw_l2 ↦ done panicked
        | pgv_hnsw_ip ↦ done panicked
        | pgv_hnsw_cosine ↦ cosine
        | vsc_diskann_cosine ↦ cosine
      ]

  unfoldable pub search :
      (job_name query : Bytes) (api_key : Option Bytes) (return_columns : List Bytes)
      (num_results : ℤ) (where_clause : Option Bytes)
      → Session (List Bytes)
  unfolding then_run get_vectorize_meta_spi done raised searched_params embedded_query search_index
  search job_name query api_key return_columns num_results where_clause =
      then_run (get_vectorize_meta_spi libraries.tables job_name) λ project_meta.
        then_run (done (raised (searched_params project_meta))) λ proj_params.
          then_run (done (embedded_query query api_key project_meta proj_params))
            (search_index job_name project_meta proj_params return_columns num_results where_clause)

  -- `into_values` is the order in which a hash map gives its values.
  unfoldable pub hybrid_search :
      {Score : Type 0} (scores : Hybrid.Libraries Score)
      (into_values : Map (AllResults Score) → List (AllResults Score)) (job_name query : Bytes)
      (api_key : Option Bytes) (return_columns : List Bytes) (num_results : ℤ)
      (where_clause : Option Bytes)
      → Session (List Bytes)
  unfolding then_run full_text_search search done fused_results add_i32
  hybrid_search scores into_values job_name query api_key return_columns num_results where_clause =
      let pool = add_i32 num_results num_results in
      then_run (full_text_search job_name query return_columns pool) λ full_text_results.
        then_run (search job_name query api_key return_columns pool where_clause)
          λ semantic_results. done (
            fused_results scores into_values libraries.settings.semantic_weight num_results
              full_text_results semantic_results)

  -- `remove(0)`.
  unfoldable pub first_embedding : List (List Float) → Exec (List Float)
  first_embedding [] = panicked
  first_embedding (embedding ∷ others) = ok embedding

  -- The two functions of SQL that embed a text.
  unfoldable pub encode : (input model : Bytes) (api_key : Option Bytes) → Exec (List Float)
  unfolding parsed_model transform first_embedding
  encode input model api_key =
      parsed_model libraries.tables model >>= λ m. transform input m api_key >>= first_embedding

  unfoldable pub transform_embeddings :
      (input model_name : Bytes) (api_key : Option Bytes) → Exec (List Float)
  unfolding parsed_model transform first_embedding
  transform_embeddings input model_name api_key = parsed_model libraries.tables model_name >>= λ m.
      transform input m api_key >>= first_embedding
