-- ===== src/Transformers/Providers/Completions.antt =====
-- core/src/transformers/providers: the completion of a chat (`generate_response`).
use pg_vectorize.Base.{Bytes, List, [], ◌∷◌, ◌++◌, codes, map}
use pg_vectorize.Base.Text.{join}
use pg_vectorize.Base.Exec.{Exec, ok, err, panicked}
use pg_vectorize.Transformers.Http.{ChatMessageRequest, chat_body, HttpRequest, Client, handled}
use pg_vectorize.Transformers.Providers.{json_headers, bearer}
use pg_vectorize.Transformers.Providers.Calls.{ollama_result}

module _ {Float : Type 0} (client : Client Float) where
  -- `choices[0]` panics if there is none.
  unfoldable pub first_choice : Exec (List Bytes) → Exec Bytes
  first_choice (ok (content ∷ choices)) = ok content
  first_choice (ok []) = panicked
  first_choice (err e) = err e
  first_choice panicked = panicked

  unfoldable pub post_chat : HttpRequest → List HttpRequest → List HttpRequest × Exec Bytes
  unfolding first_choice handled
  post_chat request sent = (
    sent ++ request ∷ [],
    first_choice
        (handled client client.chat_json (codes "embeddings") (client.answer sent request)),
  )

  unfoldable pub openai_generate_response :
      (url api_key model_name : Bytes)
      → List ChatMessageRequest
      → List HttpRequest
      → List HttpRequest × Exec Bytes
  unfolding post_chat
  openai_generate_response url api_key model_name messages = post_chat (record {
    url = url ++ codes "/chat/completions";
    headers = json_headers ++ bearer api_key ∷ [];
    body = chat_body model_name messages;
  })

  unfoldable pub portkey_generate_response :
      (url api_key virtual_key model_name : Bytes)
      → List ChatMessageRequest
      → List HttpRequest
      → List HttpRequest × Exec Bytes
  unfolding post_chat
  portkey_generate_response url api_key virtual_key model_name messages = post_chat (record {
    url = url ++ codes "/chat/completions";
    headers =
        json_headers
        ++ (codes "x-portkey-virtual-key", virtual_key) ∷ (codes "x-portkey-api-key", api_key) ∷ [];
    body = chat_body model_name messages;
  })

  -- The messages become one prompt.
  unfoldable pub ollama_generate_response :
      (host port model_name : Bytes)
      → List ChatMessageRequest
      → List HttpRequest
      → List HttpRequest × Exec Bytes
  unfolding join ollama_result
  ollama_generate_response host port model_name prompt_text sent = (
    sent,
    ollama_result client (
        client.ollama_generate host port model_name
          (join (codes "\n\n") (map (λ (x : ChatMessageRequest). x.content) prompt_text))),
  )
