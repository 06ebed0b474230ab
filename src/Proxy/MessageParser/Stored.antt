-- ===== src/Proxy/MessageParser/Stored.antt =====
-- The statements that Parse messages store.
use pg_vectorize.Base.{
  ℕ, ◌+◌, ◌≡◌, refl, sym, ◌∙◌, Bool, true, false, ◌||◌, List, [], ◌∷◌, Option, some, Bytes, ltb,
  leb, length, any, if◌then◌else◌, inl, inr, Bool-cases, text_eq,
}
use pg_vectorize.Base.Exec.{Exec, ok, err, panicked, ◌>>=◌, Ensures, Ensures->>=}
use pg_vectorize.Base.Utf8.{from_utf8_lossy}
use pg_vectorize.Base.Map.{insert, get-insert}
use pg_vectorize.Proxy.Buffer.{slice, find_nul}
use pg_vectorize.Proxy.Protocol.{ParsedMessage, parse_message}
use pg_vectorize.Proxy.Embeddings.{
  World, EmbedCall, parse_embed_calls, rewrite_query_with_embeddings,
}
use pg_vectorize.Proxy.MessageParser.{
  ProxyConfig, PreparedStatement, seen, create_parse_message_with_rewritten_query, parse_with_calls,
  store_or_rewrite, parse_statement_name, parse_parsed, process_parse_message,
}
use pg_vectorize.Proxy.MessageParser.Bind.{IsPrepared, StoresPrepared}

module _ (w : World) where
  moved : (s t : PreparedStatement) → some s ≡ some t → IsPrepared w s → IsPrepared w t
  moved s t e prepared =
      let same_sql : s.sql ≡ t.sql = cc in
      let same_calls : s.embed_calls ≡ t.embed_calls = cc in
      (rw (← same_sql, ← same_calls) prepared.0, rw (← same_calls) prepared.1)

  picked :
      (b : Bool) (s t : PreparedStatement) (o : Option PreparedStatement)
      → (if b then some s else o) ≡ some t
      → IsPrepared w s
      → (o ≡ some t → IsPrepared w t)
      → IsPrepared w t
  picked true s t o e prepared kept = moved s t e prepared
  picked false s t o e prepared kept = kept e

  pub store_prepared :
      (name : Bytes) (s : PreparedStatement) (config : ProxyConfig)
      → IsPrepared w s
      → StoresPrepared w config
      → StoresPrepared w
          (record config { prepared_statements = insert name s config.prepared_statements })
  store_prepared name s config prepared stored j t found =
      let inserted = sym (get-insert name j s config.prepared_statements) ∙ found in
      picked (text_eq name j) s t _ inserted prepared (stored j t)

  abbrev Kept : {A : Type 0} → ProxyConfig × A → Type 0
  Kept (config, _) = StoresPrepared w config

  store_or_rewrite-StoresPrepared :
      (d : Bytes) (config : ProxyConfig) (query_start offset : ℕ) (sql : Bytes)
      (calls : List EmbedCall) (name : Bytes)
      → parse_embed_calls w sql ≡ ok calls
      → StoresPrepared w config
      → Ensures Kept (store_or_rewrite w d config query_start offset sql calls name)
  unfolding store_or_rewrite
  store_or_rewrite-StoresPrepared d config query_start offset sql calls name parsed stored =
      elim (Bool-cases (any (λ call. call.is_prepared) calls)) [
        | inl prepared ↦ rw prepared (store_prepared name _ config (parsed, prepared) stored)
        | inr direct ↦
            rw direct (rewritten-Kept (rewrite_query_with_embeddings w config.jobmap sql))
      ]
    where
      rewritten-Kept :
          (r : Exec Bytes)
          → Ensures Kept (elim r as (λ _. Exec (ProxyConfig × Option (Bytes × ParsedMessage))) [
            | ok text ↦
                (create_parse_message_with_rewritten_query d query_start offset text >>= λ message.
                ok (config, some (message, seen parse_message text true true)))
            | err e ↦ ok (config, some (d, seen parse_message sql false false))
            | panicked ↦ panicked
          ])
      rewritten-Kept (ok text) =
          Ensures->>= Kept (create_parse_message_with_rewritten_query d query_start offset text) _
            λ message _. stored
      rewritten-Kept (err e) = stored
      rewritten-Kept panicked = tt

  parse_with_calls-StoresPrepared :
      (d : Bytes) (config : ProxyConfig) (query_start offset : ℕ) (sql : Bytes)
      (calls : List EmbedCall)
      → parse_embed_calls w sql ≡ ok calls
      → StoresPrepared w config
      → Ensures Kept (parse_with_calls w d config query_start offset sql calls)
  unfolding parse_with_calls
  parse_with_calls-StoresPrepared d config query_start offset sql calls parsed stored =
      Ensures->>= Kept (parse_statement_name w d) _ λ name _.
        store_or_rewrite-StoresPrepared d config query_start offset sql calls name parsed stored

  with_calls :
      (d : Bytes) (config : ProxyConfig) (query_start offset : ℕ) (sql : Bytes)
      (r : Exec (List EmbedCall))
      → parse_embed_calls w sql ≡ r
      → StoresPrepared w config
      → Ensures Kept (parse_parsed w d config query_start offset sql r)
  unfolding parse_parsed
  with_calls d config query_start offset sql (ok []) parsed stored = stored
  with_calls d config query_start offset sql (ok (c ∷ cs)) parsed stored =
      parse_with_calls-StoresPrepared d config query_start offset sql (c ∷ cs) parsed stored
  with_calls d config query_start offset sql (err e) parsed stored = stored
  with_calls d config query_start offset sql panicked parsed stored = tt

  -- Each statement that a Parse message stores has calls with parameters, which are the calls of its
  -- query: if this holds of all stored statements, it holds after a further Parse message.
  pub process_parse_message-StoresPrepared :
      (d : Bytes) (config : ProxyConfig)
      → StoresPrepared w config
      → Ensures (λ (config', result). StoresPrepared w config') (process_parse_message w d config)
  unfolding process_parse_message
  process_parse_message-StoresPrepared d config stored =
      let query_start = find_nul d 5 + 1 in
      let offset = find_nul d query_start in
      elim (Bool-cases (ltb (length d) 6 || leb (length d) query_start || leb offset query_start)) [
        | inl short ↦ rw short stored
        | inr long ↦ rw long (
            Ensures->>= Kept (slice d query_start offset) _ λ bytes _.
              with_calls d config query_start offset (from_utf8_lossy bytes) _ refl stored)
      ]
