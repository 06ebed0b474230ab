-- ===== src/Extension/Settings.antt =====
-- extension/src/guc.rs, extension/src/transformers/generic.rs and core/src/transformers/generic.rs: the
-- extension's settings, whose placeholders `${NAME}` stand for variables of the environment.
use pg_vectorize.Base.{List, [], ◌∷◌, ◌++◌, Option, none, some, Bytes, codes}
use pg_vectorize.Base.Replace.{replace}
use pg_vectorize.Base.Int.{ℤ}
use pg_vectorize.Base.Result.{Result, okay, error}
use pg_vectorize.Base.Exec.{
  Exec, ok, err, panicked, ◌>>=◌, row_not_found, sql_error, internal_error,
}
use pg_vectorize.Base.Session.{Value, text, run, Session, done, then_run}
use pg_vectorize.Extension.Spi.{get_one}
use pg_vectorize.Types.{
  ModelSource, open_ai, sentence_transformers, cohere, ollama, portkey, voyage,
}
use pg_vectorize.Jobs.Guc.{
  VectorizeGuc, openai_service_url, openai_key, embedding_service_url, embedding_service_api_key,
  ollama_service_url, cohere_api_key, portkey_api_key, portkey_virtual_key, portkey_service_url,
  voyage_api_key, voyage_service_url, ModelGucConfig,
}

-- What each setting of type text holds, if it is set, and those that are numbers; the variables of the
-- environment; and the names in the matches of the pattern `\$\{([^}]+)\}` of the regex crate, each
-- once, in the order of the hash set that collects them.
pub record Settings : Type 0 where
  pub value : VectorizeGuc → Option Bytes
  pub batch_size : ℤ
  pub semantic_weight : ℤ
  pub var : Bytes → Option Bytes
  pub placeholder_names : Bytes → List Bytes

module _ (settings : Settings) where
  unfoldable pub find_placeholders : Bytes → Option (List Bytes)
  find_placeholders var = elim (settings.placeholder_names var) [
    | [] ↦ none
    | p ∷ placeholders ↦ some (p ∷ placeholders)
  ]

  abbrev pub placeholder : Bytes → Bytes
  placeholder p = codes "${" ++ (p ++ codes "}")

  -- The loop over the variables; one that is not set ends it with an error.
  unfoldable pub interpolate : Bytes → List Bytes → Result Bytes Bytes
  unfolding replace
  interpolate interpolated_str [] = okay interpolated_str
  interpolate interpolated_str (p ∷ env_vars) = elim (settings.var p) [
    | some env_val ↦ interpolate (replace (placeholder p) env_val interpolated_str) env_vars
    | none ↦ error (codes "failed to get env var: " ++ p)
  ]

  unfoldable pub env_interpolate_string : Bytes → Result Bytes Bytes
  unfolding find_placeholders interpolate
  env_interpolate_string input = elim (find_placeholders input) [
    | some phs ↦ interpolate input phs
    | none ↦ okay input
  ]

  -- `unwrap`: a variable that is not set panics.
  unfoldable pub get_guc : VectorizeGuc → Exec (Option Bytes)
  unfolding env_interpolate_string
  get_guc guc = elim (settings.value guc) [
    | some s ↦ elim (env_interpolate_string s) [
      | okay interpolated ↦ ok (some interpolated)
      | error e ↦ panicked
    ]
    | none ↦ ok none
  ]

  -- The fields in the order in which they are read; a setting that a source has not is left out.
  unfoldable pub optional_guc : Option VectorizeGuc → Exec (Option Bytes)
  unfolding get_guc
  optional_guc none = ok none
  optional_guc (some guc) = get_guc guc

  unfoldable pub read_configs : (key url virtual : Option VectorizeGuc) → Exec ModelGucConfig
  unfolding optional_guc
  read_configs key url virtual = optional_guc key >>= λ api_key. optional_guc url >>= λ service_url.
      optional_guc virtual >>= λ virtual_key.
      ok (record { api_key = api_key; service_url = service_url; virtual_key = virtual_key })

  unfoldable pub get_guc_configs : ModelSource → Exec ModelGucConfig
  unfolding read_configs
  get_guc_configs open_ai = read_configs (some openai_key) (some openai_service_url) none
  get_guc_configs sentence_transformers =
      read_configs (some embedding_service_api_key) (some embedding_service_url) none
  get_guc_configs cohere = read_configs (some cohere_api_key) none none
  get_guc_configs ollama = read_configs none (some ollama_service_url) none
  get_guc_configs portkey =
      read_configs (some portkey_api_key) (some portkey_service_url) (some portkey_virtual_key)
  get_guc_configs voyage = read_configs (some voyage_api_key) (some voyage_service_url) none

  -- The value of a setting by its name, which is a text or a NULL, with its placeholders filled in.
  unfoldable pub interpolated_setting : Option Value → Exec Bytes
  unfolding env_interpolate_string
  interpolated_setting (some (text g)) = elim (env_interpolate_string g) [
    | okay interpolated ↦ ok interpolated
    | error e ↦ err (internal_error e)
  ]
  interpolated_setting (some v) = err (sql_error row_not_found)
  interpolated_setting none = panicked

  unfoldable pub shown_setting : Option Value → Session Bytes
  unfolding done interpolated_setting
  shown_setting v = done (interpolated_setting v)

  unfoldable pub env_interpolate_guc : (guc_name : Bytes) → Session Bytes
  unfolding then_run get_one shown_setting
  env_interpolate_guc guc_name =
      then_run (get_one (run (codes "SELECT current_setting($1)") (text guc_name ∷ [])))
        shown_setting
