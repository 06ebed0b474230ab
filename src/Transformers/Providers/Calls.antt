-- ===== src/Transformers/Providers/Calls.antt =====
-- core/src/transformers/providers: what each provider sends for an embedding (`generate_embedding`).
use pg_vectorize.Base.{List, [], ◌∷◌, ◌++◌, Option, Bytes, codes, map, length, ltb, if◌then◌else◌}
use pg_vectorize.Base.Result.{Result, okay, error}
use pg_vectorize.Base.Exec.{Exec, ok, err, panicked, ollama_error}
use pg_vectorize.Transformers.{GenericEmbeddingRequest, split_vector}
use pg_vectorize.Transformers.Http.{
  Body, openai_body, HttpRequest, Client, openai_embedding_body, cohere_embedding_body,
  voyage_embedding_body, handled, embeddings_of,
}
use pg_vectorize.Transformers.Providers.{
  EmbeddingProvider, openai_provider, cohere_provider, voyage_provider, portkey_provider,
  vector_serve_provider, ollama_provider, json_headers, bearer, optional_bearer,
}

-- `todo_requests` of the three providers that speak the API of OpenAI: chunks of at most 2048 texts.
unfoldable pub todo_requests : GenericEmbeddingRequest → List Body
unfolding openai_embedding_body split_vector
todo_requests request =
    if ltb 2048 (length request.input)
    then map (λ chunk. openai_body request.model chunk) (split_vector request.input 2048)
    else openai_embedding_body request ∷ []

module _ {Float : Type 0} (client : Client Float) where
  -- The loop over `todo_requests`; the first error is returned.
  unfoldable pub post_all :
      (url : Bytes) (headers : List (Bytes × Bytes))
      → List Body
      → List (List Float)
      → List HttpRequest
      → List HttpRequest × Exec (List (List Float))
  unfolding handled embeddings_of
  post_all url headers [] all_embeddings sent = (sent, ok all_embeddings)
  post_all url headers (body ∷ bodies) all_embeddings sent =
      let request : HttpRequest = record { url = url; headers = headers; body = body } in
      elim (handled client client.openai_json (codes "embeddings") (client.answer sent request)) [
        | ok response ↦
            post_all url headers bodies (all_embeddings ++ embeddings_of client response)
              (sent ++ request ∷ [])
        | err e ↦ (sent ++ request ∷ [], err e)
        | panicked ↦ (sent ++ request ∷ [], panicked)
      ]

  -- One request, whose response is read as the embeddings.
  unfoldable pub post_one :
      (client.Response → Result Bytes (List (List Float)))
      → HttpRequest
      → List HttpRequest
      → List HttpRequest × Exec (List (List Float))
  unfolding handled
  post_one json request sent =
      (sent ++ request ∷ [], handled client json (codes "embeddings") (client.answer sent request))

  -- Ollama's library sends the request itself; its error is kept as a text.
  unfoldable pub ollama_result : {A : Type 0} → Result Bytes A → Exec A
  ollama_result (okay a) = ok a
  ollama_result (error e) = err (ollama_error e)

  unfoldable pub openai_generate_embedding :
      (url api_key : Bytes)
      → GenericEmbeddingRequest
      → List HttpRequest
      → List HttpRequest × Exec (List (List Float))
  unfolding post_all todo_requests
  openai_generate_embedding url api_key request sent =
      post_all (url ++ codes "/embeddings") (json_headers ++ bearer api_key ∷ [])
        (todo_requests request) [] sent

  unfoldable pub portkey_generate_embedding :
      (url api_key virtual_key : Bytes)
      → GenericEmbeddingRequest
      → List HttpRequest
      → List HttpRequest × Exec (List (List Float))
  unfolding post_all todo_requests
  portkey_generate_embedding url api_key virtual_key request sent =
      post_all (url ++ codes "/embeddings")
        (json_headers
          ++ (codes "x-portkey-virtual-key", virtual_key)
            ∷ (codes "x-portkey-api-key", api_key)
            ∷ [])
        (todo_requests request) [] sent

  unfoldable pub vector_serve_generate_embedding :
      (url : Bytes) (api_key : Option Bytes)
      → GenericEmbeddingRequest
      → List HttpRequest
      → List HttpRequest × Exec (List (List Float))
  unfolding post_all todo_requests
  vector_serve_generate_embedding url api_key request sent =
      post_all (url ++ codes "/embeddings") (json_headers ++ optional_bearer api_key)
        (todo_requests request) [] sent

  unfoldable pub cohere_generate_embedding :
      (url api_key : Bytes)
      → GenericEmbeddingRequest
      → List HttpRequest
      → List HttpRequest × Exec (List (List Float))
  unfolding post_one cohere_embedding_body
  cohere_generate_embedding url api_key request sent =
      post_one client.generic_json
        (record {
          url = url ++ codes "/embed";
          headers = json_headers ++ bearer api_key ∷ [];
          body = cohere_embedding_body request;
        })
        sent

  unfoldable pub voyage_generate_embedding :
      (url api_key : Bytes)
      → GenericEmbeddingRequest
      → List HttpRequest
      → List HttpRequest × Exec (List (List Float))
  unfolding post_one voyage_embedding_body
  voyage_generate_embedding url api_key request sent =
      post_one client.voyage_json
        (record {
          url = url ++ codes "/embeddings";
          headers = (codes "Content-Type", codes "application/json") ∷ bearer api_key ∷ [];
          body = voyage_embedding_body request;
        })
        sent

  unfoldable pub ollama_generate_embedding :
      (host port : Bytes)
      → GenericEmbeddingRequest
      → List HttpRequest
      → List HttpRequest × Exec (List (List Float))
  unfolding ollama_result
  ollama_generate_embedding host port request sent =
      (sent, ollama_result (client.ollama_embeddings host port request))

  -- The method of the trait, on each provider.
  unfoldable pub generate_embedding :
      EmbeddingProvider
      → GenericEmbeddingRequest
      → List HttpRequest
      → List HttpRequest × Exec (List (List Float))
  unfolding openai_generate_embedding portkey_generate_embedding vector_serve_generate_embedding
      cohere_generate_embedding voyage_generate_embedding ollama_generate_embedding
  generate_embedding (openai_provider url key) = openai_generate_embedding url key
  generate_embedding (portkey_provider url key vkey) = portkey_generate_embedding url key vkey
  generate_embedding (vector_serve_provider url key) = vector_serve_generate_embedding url key
  generate_embedding (cohere_provider url key) = cohere_generate_embedding url key
  generate_embedding (voyage_provider url key) = voyage_generate_embedding url key
  generate_embedding (ollama_provider host port) = ollama_generate_embedding host port
