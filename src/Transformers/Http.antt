-- ===== src/Transformers/Http.antt =====
-- core/src/transformers/http_handler.rs and the bodies that the providers send: the library for HTTP
-- and for JSON is the parameter `Client`.
use pg_vectorize.Base.{ℕ, Bool, List, [], ◌∷◌, Bytes, codes, concat, map, if◌then◌else◌}
use pg_vectorize.Base.Result.{Result, okay, error}
use pg_vectorize.Base.Exec.{Exec, ok, err, reqwest_error, internal_error}
use pg_vectorize.Transformers.{GenericEmbeddingRequest}

pub record ChatMessageRequest : Type 0 where
  pub role : Bytes
  pub content : Bytes

pub data Body : Type 0 where
  no_body : Body
  openai_body : (model : Bytes) → (input : List Bytes) → Body
  cohere_body : (model : Bytes) → (texts : List Bytes) → (input_type truncate : Bytes) → Body
  voyage_body : (input : List Bytes) → (model input_type : Bytes) → Body
  chat_body : (model : Bytes) → (messages : List ChatMessageRequest) → Body

-- `POST` if there is a body, `GET` if there is none; the timeout is left out.
pub record HttpRequest : Type 0 where
  pub url : Bytes
  pub headers : List (Bytes × Bytes)
  pub body : Body

-- `EmbeddingObject` and `OpenAiEmbeddingResponse`.
pub record EmbeddingObject (Float : Type 0) : Type 0 where
  pub index : ℕ
  pub embedding : List Float

pub record OpenAiEmbeddingResponse (Float : Type 0) : Type 0 where
  pub model : Bytes
  pub data_ : List (EmbeddingObject Float)

-- The endpoint, as any function of the requests so far and the next one, and the readings of a
-- response.
pub record Client (Float : Type 0) : Type 1 where
  pub Response : Type 0
  pub answer : List HttpRequest → HttpRequest → Result Bytes Response
  pub is_success : Response → Bool
  pub status : Response → Bytes
  pub text : Response → Result Bytes Bytes
  pub openai_json : Response → Result Bytes (OpenAiEmbeddingResponse Float)
  pub generic_json : Response → Result Bytes (List (List Float))
  -- `choices` of a chat's response, each given by the content of its message
  pub chat_json : Response → Result Bytes (List Bytes)
  pub voyage_json : Response → Result Bytes (List (List Float))
  -- calls of Ollama's library with the host's address and port
  pub ollama_embeddings : Bytes → Bytes → GenericEmbeddingRequest → Result Bytes (List (List Float))
  pub ollama_generate : (host port model prompt : Bytes) → Result Bytes Bytes
  pub model_info_json : Response → Result Bytes ℕ

unfoldable pub openai_embedding_body : GenericEmbeddingRequest → Body
openai_embedding_body request = openai_body request.model request.input

unfoldable pub cohere_embedding_body : GenericEmbeddingRequest → Body
cohere_embedding_body request =
    cohere_body request.model request.input (codes "search_document") (codes "END")

unfoldable pub voyage_embedding_body : GenericEmbeddingRequest → Body
voyage_embedding_body request = voyage_body request.input request.model (codes "document")

module _ {Float : Type 0} (client : Client Float) where
  -- `?` on a result of the library.
  abbrev pub or_reqwest_error : {A : Type 0} → Result Bytes A → Exec A
  or_reqwest_error (okay a) = ok a
  or_reqwest_error (error e) = err (reqwest_error e)

  -- The error for a response that is none of success, with its body if that can be read.
  unfoldable pub call_failed : {A : Type 0} → Bytes → client.Response → Exec A
  call_failed method resp = elim (client.text resp) [
    | error e ↦ err (reqwest_error e)
    | okay body ↦ err (
        internal_error (
          concat (
            codes "Failed to call method '"
            ∷ method
            ∷ codes "', received response with status code:"
            ∷ client.status resp
            ∷ codes " and body: "
            ∷ body
            ∷ [])))
  ]

  unfoldable pub handle_response :
      {A : Type 0} → (client.Response → Result Bytes A) → Bytes → client.Response → Exec A
  unfolding call_failed
  handle_response json method resp =
      if client.is_success resp then or_reqwest_error (json resp) else call_failed method resp

  -- What `send().await?` and `handle_response` make of an answer.
  unfoldable pub handled :
      {A : Type 0}
      → (client.Response → Result Bytes A)
      → Bytes
      → Result Bytes client.Response
      → Exec A
  unfolding handle_response
  handled json method (okay resp) = handle_response json method resp
  handled json method (error e) = err (reqwest_error e)

  -- `response.data.iter().map(|x| x.embedding.clone())`; the field `index` is not read.
  unfoldable pub embeddings_of : OpenAiEmbeddingResponse Float → List (List Float)
  embeddings_of response = map (λ (x : EmbeddingObject Float). x.embedding) response.data_
