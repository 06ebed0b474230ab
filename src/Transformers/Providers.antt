-- ===== src/Transformers/Providers.antt =====
-- core/src/transformers/providers: the providers of embeddings and how one is chosen for a source.
pub mod Calls
pub mod Dimensions
pub mod Completions
pub mod Requests
use pg_vectorize.Base.{
  ℕ, ◌+◌, ◌∙◌, Bool, List, [], ◌∷◌, ◌++◌, Option, none, some, Bytes, codes, concat, map, length,
  ltb, text_eq, if◌then◌else◌,
}
use pg_vectorize.Base.Map.{Map, get}
use pg_vectorize.Base.Result.{Result, okay, error}
use pg_vectorize.Base.Exec.{
  Exec, ok, err, panicked, ◌>>=◌, env_error, ollama_error, model_not_found,
}
use pg_vectorize.Types.{
  ModelSource, open_ai, cohere, portkey, voyage, sentence_transformers, ollama,
}
use pg_vectorize.Transformers.{GenericEmbeddingRequest, split_vector}
use pg_vectorize.Transformers.Http.{
  Body, no_body, openai_body, HttpRequest, OpenAiEmbeddingResponse, Client, openai_embedding_body,
  cohere_embedding_body, voyage_embedding_body, handled, embeddings_of,
}

-- The structs of the providers; the one of Ollama is given by the address of its host.
pub data EmbeddingProvider : Type 0 where
  openai_provider cohere_provider voyage_provider : (url api_key : Bytes) → EmbeddingProvider
  portkey_provider : (url api_key virtual_key : Bytes) → EmbeddingProvider
  vector_serve_provider : (url : Bytes) → Option Bytes → EmbeddingProvider
  ollama_provider : (host port : Bytes) → EmbeddingProvider

abbrev pub openai_base_url : Bytes
openai_base_url = codes "https://api.openai.com/v1"

abbrev pub cohere_base_url : Bytes
cohere_base_url = codes "https://api.cohere.com/v1"

abbrev pub voyage_base_url : Bytes
voyage_base_url = codes "https://api.voyageai.com/v1"

abbrev pub portkey_base_url : Bytes
portkey_base_url = codes "https://api.portkey.ai/v1"

abbrev pub vector_serve_base_url : Bytes
vector_serve_base_url = codes "http://localhost:3000/v1"

abbrev pub ollama_base_url : Bytes
ollama_base_url = codes "http://localhost:3001"

-- The environment of the process, with the text of the error for a variable that is not there, and
-- the library's reading of a URL as `scheme://host` and port, each of which may be missing.
pub record Env : Type 0 where
  pub var : Bytes → Result Bytes Bytes
  pub parse_url : Bytes → Option (Option Bytes × Option Bytes)

abbrev pub or_else : Option Bytes → Bytes → Bytes
or_else (some v) default = v
or_else none default = default

module _ (env : Env) where
  -- The key that is given, or the variable, or the error for it.
  unfoldable pub required_key : Bytes → Option Bytes → Exec Bytes
  required_key variable (some key) = ok key
  required_key variable none = elim (env.var variable) [
    | okay key ↦ ok key
    | error e ↦ err (env_error e)
  ]

  -- `expect` on the variable.
  unfoldable pub expected_key : Bytes → Option Bytes → Exec Bytes
  expected_key variable (some key) = ok key
  expected_key variable none = elim (env.var variable) [ okay key ↦ ok key | error e ↦ panicked ]

  unfoldable pub new_openai : (url api_key : Option Bytes) → Exec EmbeddingProvider
  unfolding required_key
  new_openai url api_key = elim (required_key (codes "OPENAI_API_KEY") api_key) [
    | ok key ↦ ok (openai_provider (or_else url openai_base_url) key)
    | err e ↦ err e
    | panicked ↦ panicked
  ]

  unfoldable pub new_cohere : (url api_key : Option Bytes) → Exec EmbeddingProvider
  unfolding required_key
  new_cohere url api_key = elim (required_key (codes "CO_API_KEY") api_key) [
    | ok key ↦ ok (cohere_provider (or_else url cohere_base_url) key)
    | err e ↦ err e
    | panicked ↦ panicked
  ]

  unfoldable pub new_voyage : (url api_key : Option Bytes) → Exec EmbeddingProvider
  unfolding required_key
  new_voyage url api_key = elim (required_key (codes "VOYAGE_API_KEY") api_key) [
    | ok key ↦ ok (voyage_provider (or_else url voyage_base_url) key)
    | err e ↦ err e
    | panicked ↦ panicked
  ]

  unfoldable pub new_portkey : (url api_key virtual_key : Option Bytes) → Exec EmbeddingProvider
  unfolding expected_key
  new_portkey url api_key virtual_key = expected_key (codes "PORTKEY_API_KEY") api_key >>= λ key.
      expected_key (codes "PORTKEY_VIRTUAL_KEY") virtual_key >>= λ vkey.
      ok (portkey_provider (or_else url portkey_base_url) key vkey)

  unfoldable pub new_vector_serve : (url api_key : Option Bytes) → EmbeddingProvider
  new_vector_serve url api_key =
      vector_serve_provider
        (elim url [
          | some u ↦ u
          | none ↦ elim (env.var (codes "EMBEDDING_SVC_URL")) [
            | okay u ↦ u
            | error e ↦ vector_serve_base_url
          ]
        ])
        (elim api_key [
          | some k ↦ some k
          | none ↦ elim (env.var (codes "EMBEDDING_SVC_API_KEY")) [
            | okay k ↦ some k
            | error e ↦ none
          ]
        ])

  -- A URL without a host or a port panics, as one that is none.
  unfoldable pub new_ollama : Option Bytes → Exec EmbeddingProvider
  new_ollama url = elim (env.parse_url (or_else url ollama_base_url)) [
    | some (some host, some port) ↦ ok (ollama_provider host port)
    | _ ↦ panicked
  ]

  unfoldable pub get_provider :
      ModelSource → (api_key url virtual_key : Option Bytes) → Exec EmbeddingProvider
  unfolding new_openai new_cohere new_voyage new_portkey new_vector_serve new_ollama
  get_provider open_ai api_key url virtual_key = new_openai url api_key
  get_provider cohere api_key url virtual_key = new_cohere url api_key
  get_provider portkey api_key url virtual_key = new_portkey url api_key virtual_key
  get_provider voyage api_key url virtual_key = new_voyage url api_key
  get_provider sentence_transformers api_key url virtual_key = ok (new_vector_serve url api_key)
  get_provider ollama api_key url virtual_key = new_ollama url

abbrev pub json_headers : List (Bytes × Bytes)
json_headers =
    (codes "Accept", codes "application/json")
    ∷ (codes "Content-Type", codes "application/json")
    ∷ []

abbrev pub bearer : Bytes → Bytes × Bytes
bearer key = (codes "Authorization", codes "Bearer " ++ key)

abbrev pub optional_bearer : Option Bytes → List (Bytes × Bytes)
optional_bearer none = []
optional_bearer (some key) = bearer key ∷ []
