-- ===== src/Examples/Providers.antt =====
-- An endpoint that embeds each text as its length.
use pg_vectorize.Base.{
  ℕ, ◌≤◌, ◌≡◌, refl, ap, true, List, [], ◌∷◌, ◌++◌, Bytes, codes, concat, map, length, All,
}
use pg_vectorize.Base.Result.{okay, error}
use pg_vectorize.Base.Exec.{ok}
use pg_vectorize.Transformers.{GenericEmbeddingRequest}
use pg_vectorize.Transformers.Http.{
  Body, openai_body, Client, OpenAiEmbeddingResponse, handled, embeddings_of,
}
use pg_vectorize.Transformers.Providers.{EmbeddingProvider, openai_provider, json_headers, bearer}
use pg_vectorize.Transformers.Providers.Calls.{generate_embedding}
use pg_vectorize.Transformers.Providers.Requests.{request_of, generate_embedding-EmbedsEach}

abbrev embed : Bytes → Bytes → List ℕ
embed model text = length text ∷ []

abbrev response_to : Body → OpenAiEmbeddingResponse ℕ
response_to (openai_body model input) = record {
  model = model;
  data_ = map (λ text. record { index = 0; embedding = embed model text }) input;
}
response_to _ = record { model = []; data_ = [] }

abbrev client : Client ℕ
client = record {
  Response = OpenAiEmbeddingResponse ℕ;
  answer = λ sent request. okay (response_to request.body);
  is_success = λ response. true;
  status = λ response. codes "200 OK";
  text = λ response. okay [];
  openai_json = λ response. okay response;
  generic_json = λ response. error (codes "json");
  chat_json = λ response. error (codes "json");
  voyage_json = λ response. error (codes "json");
  ollama_embeddings = λ host port request. error (codes "offline");
  ollama_generate = λ host port model prompt. error (codes "offline");
  model_info_json = λ response. error (codes "json");
}

abbrev provider : EmbeddingProvider
provider = openai_provider (codes "http://x") (codes "k")

abbrev url : Bytes
url = codes "http://x/embeddings"

abbrev headers : List (Bytes × Bytes)
headers = json_headers ++ bearer (codes "k") ∷ []

abbrev request : GenericEmbeddingRequest
request = record { model = codes "m"; input = codes "pen" ∷ codes "table" ∷ [] }

map-map :
    (model : Bytes) (input : List Bytes)
    → embeddings_of client (response_to (openai_body model input)) ≡ map (embed model) input
unfolding embeddings_of
map-map model [] = refl
map-map model (t ∷ input) = ap (λ v. embed model t ∷ v) (map-map model input)

generate_embedding-EmbedsEach_example :
    (chunks : List (List Bytes)) × (generate_embedding client provider request [] ≡ (
      []
          ++ map
              (request_of client url headers embed)
              (map (λ c. openai_body request.model c) chunks),
      ok (map (embed request.model) request.input),
    ))
    × (concat chunks ≡ request.input)
    × All (λ c. length c ≤ 2048) chunks
unfolding handled
generate_embedding-EmbedsEach_example =
    generate_embedding-EmbedsEach client url headers embed provider request [] refl
      (λ sent model input. (response_to (openai_body model input), refl, map-map model input))
