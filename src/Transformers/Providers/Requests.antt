-- ===== src/Transformers/Providers/Requests.antt =====
-- The requests of the providers that speak the API of OpenAI, and their answers put together.
use pg_vectorize.Base.{
  ◌≤◌, ◌≡◌, refl, ap, sym, ◌∙◌, arith, Bool, true, false, List, [], ◌∷◌, ◌++◌, append-nil,
  append_assoc, Option, none, some, Bytes, codes, concat, map, map-append, length, ltb, All,
}
use pg_vectorize.Base.Exec.{ok}
use pg_vectorize.Transformers.{GenericEmbeddingRequest, split_vector}
use pg_vectorize.Transformers.Chunks.{split_vector_chunks}
use pg_vectorize.Transformers.Http.{
  Body, openai_body, HttpRequest, OpenAiEmbeddingResponse, Client, openai_embedding_body, handled,
  embeddings_of,
}
use pg_vectorize.Transformers.Providers.{
  EmbeddingProvider, openai_provider, portkey_provider, vector_serve_provider, json_headers, bearer,
  optional_bearer,
}
use pg_vectorize.Transformers.Providers.Calls.{todo_requests, post_all, generate_embedding}

-- The providers whose requests are cut, with their endpoint and their headers.
abbrev pub openai_api : EmbeddingProvider → Option (Bytes × List (Bytes × Bytes))
openai_api (openai_provider url key) =
    some (url ++ codes "/embeddings", json_headers ++ bearer key ∷ [])
openai_api (portkey_provider url key virtual_key) = some (
  url ++ codes "/embeddings",
  json_headers
      ++ (codes "x-portkey-virtual-key", virtual_key) ∷ (codes "x-portkey-api-key", key) ∷ [],
)
openai_api (vector_serve_provider url key) =
    some (url ++ codes "/embeddings", json_headers ++ optional_bearer key)
openai_api _ = none

fits :
    (chunks : List (List Bytes))
    → All (λ c. (1 ≤ length c) × (length c ≤ 2048)) chunks
    → All (λ c. length c ≤ 2048) chunks
fits [] h = tt
fits (c ∷ chunks) (h, hs) = (h.1, fits chunks hs)

-- The texts of the bodies are those of the request, in order, and none holds more than 2048.
todo_requests_chunks :
    (request : GenericEmbeddingRequest)
    → (chunks : List (List Bytes)) × (todo_requests request
        ≡ map (λ c. openai_body request.model c) chunks)
      × (concat chunks ≡ request.input)
      × All (λ c. length c ≤ 2048) chunks
unfolding todo_requests openai_embedding_body
todo_requests_chunks request = many (ltb 2048 (length request.input)) refl
  where
    many :
        (b : Bool)
        → ltb 2048 (length request.input) ≡ b
        → (chunks : List (List Bytes)) × (todo_requests request
            ≡ map (λ c. openai_body request.model c) chunks)
          × (concat chunks ≡ request.input)
          × All (λ c. length c ≤ 2048) chunks
    many true e =
        let (all_texts, sizes) = split_vector_chunks request.input 2048 (omega arith) in
        (split_vector request.input 2048, rw e refl, all_texts, fits _ sizes)
    many false e = (request.input ∷ [], rw e refl, append-nil request.input, (ground arith, tt))

module _ {Float : Type 0} (client : Client Float) (url : Bytes) (headers : List (Bytes × Bytes))
    (embed : Bytes → Bytes → List Float) where
  abbrev pub request_of : Body → HttpRequest
  request_of body = record { url = url; headers = headers; body = body }

  -- The endpoint answers each request with one embedding for each text, in order, that depends on the
  -- model and the text only.
  abbrev pub EmbedsEach : Type 0
  EmbedsEach =
      (sent : List HttpRequest) (model : Bytes) (input : List Bytes)
      → (response : OpenAiEmbeddingResponse Float) × (handled client client.openai_json
            (codes "embeddings") (client.answer sent (request_of (openai_body model input)))
          ≡ ok response)
        × (embeddings_of client response ≡ map (embed model) input)

  -- One round of the loop.
  post_all-round :
      (model : Bytes) (input : List Bytes) (bodies : List Body) (acc values : List (List Float))
      (sent : List HttpRequest) (response : OpenAiEmbeddingResponse Float)
      → handled client client.openai_json
          (codes "embeddings")
          (client.answer sent (request_of (openai_body model input)))
        ≡ ok response
      → embeddings_of client response ≡ values
      → post_all client url headers (openai_body model input ∷ bodies) acc sent
        ≡ post_all client url headers bodies
            (acc ++ values)
            (sent ++ request_of (openai_body model input) ∷ [])
  unfolding post_all
  post_all-round model input bodies acc values sent response answered embedded =
      rw (answered, post_all)
        (ap
          (λ v.
            post_all client url headers bodies (acc ++ v)
              (sent ++ request_of (openai_body model input) ∷ []))
          embedded)

  post_all-embeds :
      (model : Bytes) (chunks : List (List Bytes)) (acc : List (List Float))
      (sent : List HttpRequest)
      → EmbedsEach
      → post_all client url headers (map (λ c. openai_body model c) chunks) acc sent ≡ (
        sent ++ map request_of (map (λ c. openai_body model c) chunks),
        ok (acc ++ map (embed model) (concat chunks)),
      )
  unfolding post_all
  post_all-embeds model [] acc sent each =
      ap (λ s. (s, ok acc)) (sym (append-nil sent))
      ∙ ap (λ a. (sent ++ [], ok a)) (sym (append-nil acc))
  post_all-embeds model (c ∷ chunks) acc sent each =
      let (response, answered, embedded) = each sent model c in
      post_all-round model c (map (λ c. openai_body model c) chunks) acc (map (embed model) c) sent
        response answered embedded
      ∙ (post_all-embeds model chunks (acc ++ map (embed model) c)
            (sent ++ request_of (openai_body model c) ∷ []) each
          ∙ (ap (λ s. (s, ok ((acc ++ map (embed model) c) ++ map (embed model) (concat chunks))))
                (append_assoc sent _ _)
              ∙ ap
                  (λ a.
                    (sent ++ map request_of (map (λ c. openai_body model c) (c ∷ chunks)), ok a))
                  (append_assoc acc _ _
                    ∙ ap (λ v. acc ++ v) (sym (map-append (embed model) c (concat chunks))))))

  post_all-same :
      (endpoint : Bytes × List (Bytes × Bytes)) (bodies : List Body) (sent : List HttpRequest)
      → some endpoint ≡ some (url, headers)
      → post_all client endpoint.0 endpoint.1 bodies [] sent
        ≡ post_all client url headers bodies [] sent
  post_all-same endpoint bodies sent api =
      let same : endpoint ≡ (url, headers) = cc in
      ap (λ (e : Bytes × List (Bytes × Bytes)). post_all client e.0 e.1 bodies [] sent) same

  openai_api-post_all :
      (provider : EmbeddingProvider) (request : GenericEmbeddingRequest) (sent : List HttpRequest)
      → openai_api provider ≡ some (url, headers)
      → generate_embedding client provider request sent
        ≡ post_all client url headers (todo_requests request) [] sent
  unfolding generate_embedding
  openai_api-post_all (openai_provider u k) request sent api =
      post_all-same _ (todo_requests request) sent api
  openai_api-post_all (portkey_provider u k v) request sent api =
      post_all-same _ (todo_requests request) sent api
  openai_api-post_all (vector_serve_provider u k) request sent api =
      post_all-same _ (todo_requests request) sent api
  openai_api-post_all _ request sent api = cc

  -- A provider that speaks the API of OpenAI, at an endpoint that embeds each text on its own, returns
  -- the embeddings of all texts in order, however many there are: what one request for all of them
  -- would have brought. It sends a request for each chunk of the texts, and none holds more than 2048.
  pub generate_embedding-EmbedsEach :
      (provider : EmbeddingProvider) (request : GenericEmbeddingRequest) (sent : List HttpRequest)
      → openai_api provider ≡ some (url, headers)
      → EmbedsEach
      → (chunks : List (List Bytes)) × (generate_embedding client provider request sent ≡ (
        sent ++ map request_of (map (λ c. openai_body request.model c) chunks),
        ok (map (embed request.model) request.input),
      ))
        × (concat chunks ≡ request.input)
        × All (λ c. length c ≤ 2048) chunks
  generate_embedding-EmbedsEach provider request sent api each =
      let (chunks, cut, all_texts, sizes) = todo_requests_chunks request in
      (
        chunks,
        openai_api-post_all provider request sent api
            ∙ (ap (λ bodies. post_all client url headers bodies [] sent) cut
                ∙ (post_all-embeds request.model chunks [] sent each
                    ∙ ap
                        (λ texts. (
                          sent ++ map request_of (map (λ c. openai_body request.model c) chunks),
                          ok (map (embed request.model) texts),
                        ))
                        all_texts)),
        all_texts,
        sizes,
      )
