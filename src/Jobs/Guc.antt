-- ===== src/Jobs/Guc.antt =====
-- core/src/guc.rs: the settings of the database server for a source of models.
use pg_vectorize.Base.{List, [], ◌∷◌, ◌++◌, Option, none, some, Bytes, codes}
use pg_vectorize.Base.Result.{Result, okay}
use pg_vectorize.Base.Exec.{Exec, ok, panicked, DbError}
use pg_vectorize.Base.Session.{Value, text, run, Session, done, then_run, attempt}
use pg_vectorize.Types.{
  ModelSource, open_ai, sentence_transformers, cohere, ollama, portkey, voyage,
}

pub data VectorizeGuc : Type 0 where
  host database_name openai_service_url openai_key embedding_service_url embedding_service_api_key
        ollama_service_url cohere_api_key portkey_api_key portkey_virtual_key portkey_service_url
        voyage_api_key voyage_service_url text_index_type :
      VectorizeGuc

pub record ModelGucConfig : Type 0 where
  pub api_key : Option Bytes
  pub service_url : Option Bytes
  pub virtual_key : Option Bytes

unfoldable pub guc_name : VectorizeGuc → Bytes
guc_name host = codes "host"
guc_name database_name = codes "database_name"
guc_name openai_service_url = codes "openai_service_url"
guc_name openai_key = codes "openai_key"
guc_name embedding_service_url = codes "embedding_service_url"
guc_name embedding_service_api_key = codes "embedding_service_api_key"
guc_name ollama_service_url = codes "ollama_service_url"
guc_name cohere_api_key = codes "cohere_api_key"
guc_name portkey_api_key = codes "portkey_api_key"
guc_name portkey_virtual_key = codes "portkey_virtual_key"
guc_name portkey_service_url = codes "portkey_service_url"
guc_name voyage_api_key = codes "voyage_api_key"
guc_name voyage_service_url = codes "voyage_service_url"
guc_name text_index_type = codes "experimental_fts_index_type"

-- `fetch_one` and `expect`: anything but a row with one text panics.
unfoldable pub guc_of_answer : Result DbError (List (List Value)) → Exec (Option Bytes)
guc_of_answer (okay ((text v ∷ []) ∷ rows)) = ok (some v)
guc_of_answer _ = panicked

unfoldable pub shown : Result DbError (List (List Value)) → Session (Option Bytes)
unfolding done guc_of_answer
shown answer = done (guc_of_answer answer)

unfoldable pub get_guc : VectorizeGuc → Session (Option Bytes)
unfolding then_run attempt guc_name shown
get_guc guc = then_run (attempt (run (codes "SHOW vectorize." ++ guc_name guc) [])) shown

unfoldable pub optional_guc : Option VectorizeGuc → Session (Option Bytes)
unfolding done get_guc
optional_guc none = done (ok none)
optional_guc (some guc) = get_guc guc

-- The fields in the order in which they are read; a setting that a source has not is left out.
unfoldable pub read_configs : (key url virtual : Option VectorizeGuc) → Session ModelGucConfig
unfolding then_run get_guc done optional_guc
read_configs key url virtual = then_run (optional_guc key) λ api_key.
    then_run (optional_guc url) λ service_url. then_run (optional_guc virtual) λ virtual_key.
      done (ok (record { api_key = api_key; service_url = service_url; virtual_key = virtual_key }))

unfoldable pub get_guc_configs : ModelSource → Session ModelGucConfig
unfolding read_configs
get_guc_configs open_ai = read_configs (some openai_key) (some openai_service_url) none
get_guc_configs sentence_transformers =
    read_configs (some embedding_service_api_key) (some embedding_service_url) none
get_guc_configs cohere = read_configs (some cohere_api_key) none none
get_guc_configs ollama = read_configs none (some ollama_service_url) none
get_guc_configs portkey =
    read_configs (some portkey_api_key) (some portkey_service_url) (some portkey_virtual_key)
get_guc_configs voyage = read_configs (some voyage_api_key) (some voyage_service_url) none
