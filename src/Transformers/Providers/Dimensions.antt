-- ===== src/Transformers/Providers/Dimensions.antt =====
-- core/src/transformers/providers: the dimensions of the providers' models (`model_dim`).
use pg_vectorize.Base.{
  ℕ, List, [], ◌∷◌, ◌++◌, Option, none, some, Bytes, codes, concat, length, text_eq, if◌then◌else◌,
}
use pg_vectorize.Base.Map.{Map, get}
use pg_vectorize.Base.Exec.{Exec, ok, err, panicked, model_not_found}
use pg_vectorize.Transformers.{GenericEmbeddingRequest}
use pg_vectorize.Transformers.Http.{no_body, HttpRequest, Client, handled}
use pg_vectorize.Transformers.Providers.{
  EmbeddingProvider, openai_provider, cohere_provider, voyage_provider, portkey_provider,
  vector_serve_provider, ollama_provider, json_headers, optional_bearer,
}
use pg_vectorize.Transformers.Providers.Calls.{
  portkey_generate_embedding, voyage_generate_embedding, ollama_generate_embedding,
}

unfoldable pub openai_embedding_dim : Bytes → ℕ
openai_embedding_dim model_name =
    if text_eq model_name (codes "text-embedding-3-large")
    then 3072
    else if text_eq model_name (codes "text-embedding-3-small")
    then 1536
    else if text_eq model_name (codes "text-embedding-ada-002")
    then 1536
    else 1536

abbrev pub model_dimensions : Map ℕ
model_dimensions =
    (codes "embed-english-v3.0", 1024)
    ∷ (codes "embed-multilingual-v3.0", 1024)
    ∷ (codes "embed-english-light-v3.0", 384)
    ∷ (codes "embed-multilingual-light-v3.0", 384)
    ∷ (codes "embed-english-v2.0", 4096)
    ∷ (codes "embed-english-light-v2.0", 1024)
    ∷ (codes "embed-multilingual-v2.0", 768)
    ∷ []

-- `model_dim` of Cohere's provider.
unfoldable pub cohere_dim : Bytes → Exec ℕ
unfolding get
cohere_dim model_name = elim (get model_name model_dimensions) [
  | some dim ↦ ok dim
  | none ↦ err (model_not_found model_name)
]

module _ {Float : Type 0} (client : Client Float) where
  -- The first vector's length; `embeddings[0]` panics if there is none.
  unfoldable pub first_length :
      List HttpRequest × Exec (List (List Float)) → List HttpRequest × Exec ℕ
  first_length (sent, ok (v ∷ vs)) = (sent, ok (length v))
  first_length (sent, ok []) = (sent, panicked)
  first_length (sent, err e) = (sent, err e)
  first_length (sent, panicked) = (sent, panicked)

  -- The dimension is measured on a text.
  unfoldable pub measured_dim :
      (GenericEmbeddingRequest → List HttpRequest → List HttpRequest × Exec (List (List Float)))
      → Bytes
      → List HttpRequest
      → List HttpRequest × Exec ℕ
  unfolding first_length
  measured_dim generate model_name sent =
      first_length (generate (record { input = codes "hello world" ∷ []; model = model_name }) sent)

  unfoldable pub portkey_model_dim :
      (url api_key virtual_key model_name : Bytes) → List HttpRequest → List HttpRequest × Exec ℕ
  unfolding measured_dim portkey_generate_embedding
  portkey_model_dim url api_key virtual_key =
      measured_dim (portkey_generate_embedding client url api_key virtual_key)

  unfoldable pub voyage_model_dim :
      (url api_key model_name : Bytes) → List HttpRequest → List HttpRequest × Exec ℕ
  unfolding measured_dim voyage_generate_embedding
  voyage_model_dim url api_key = measured_dim (voyage_generate_embedding client url api_key)

  unfoldable pub ollama_model_dim :
      (host port model_name : Bytes) → List HttpRequest → List HttpRequest × Exec ℕ
  unfolding measured_dim ollama_generate_embedding
  ollama_model_dim host port = measured_dim (ollama_generate_embedding client host port)

  unfoldable pub vector_serve_model_dim :
      (url : Bytes) (api_key : Option Bytes) (model_name : Bytes)
      → List HttpRequest
      → List HttpRequest × Exec ℕ
  unfolding handled
  vector_serve_model_dim url api_key model_name sent =
      let request : HttpRequest = record {
        url = concat (url ∷ codes "/info/?model_name=" ∷ model_name ∷ []);
        headers = json_headers ++ optional_bearer api_key;
        body = no_body;
      } in
      (
        sent ++ request ∷ [],
        handled client client.model_info_json (codes "model_info") (client.answer sent request),
      )

  unfoldable pub model_dim :
      EmbeddingProvider → Bytes → List HttpRequest → List HttpRequest × Exec ℕ
  unfolding openai_embedding_dim cohere_dim portkey_model_dim voyage_model_dim ollama_model_dim
      vector_serve_model_dim
  model_dim (openai_provider url api_key) model_name sent =
      (sent, ok (openai_embedding_dim model_name))
  model_dim (cohere_provider url api_key) model_name sent = (sent, cohere_dim model_name)
  model_dim (vector_serve_provider url api_key) model_name sent =
      vector_serve_model_dim url api_key model_name sent
  model_dim (voyage_provider url api_key) model_name sent =
      voyage_model_dim url api_key model_name sent
  model_dim (portkey_provider url api_key virtual_key) model_name sent =
      portkey_model_dim url api_key virtual_key model_name sent
  model_dim (ollama_provider host port) model_name sent = ollama_model_dim host port model_name sent
