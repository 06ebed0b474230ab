-- ===== src/Proxy/MessageParser/Bind.antt =====
-- Bind messages for prepared statements whose query calls an embedding.
use pg_vectorize.Base.{
  ℕ, zero, suc, ◌+◌, ◌-◌, ◌≤◌, ◌<◌, ◌≡◌, refl, ap, ◌∙◌, arith, true, false, ◌||◌, List, [], ◌∷◌,
  Option, none, some, Bytes, ltb, leb, length, length-drop, take, drop, any, is_empty, inl, inr,
  Bool-cases,
}
use pg_vectorize.Base.Exec.{ok, panicked, Ensures, Ensures->>=}
use pg_vectorize.Base.Utf8.{from_utf8_lossy}
use pg_vectorize.Base.Map.{get}
use pg_vectorize.Proxy.Buffer.{slice, slice_from, slice-in, find_nul}
use pg_vectorize.Proxy.Embeddings.{World, EmbedCall, parse_embed_calls}
use pg_vectorize.Proxy.Embeddings.Prepared.{rewrite_query_with_embeddings-prepared}
use pg_vectorize.Proxy.MessageParser.{
  ProxyConfig, PreparedStatement, parse_bind_parameters, bind_parsed, bind_statement, bind_found,
  process_bind_message,
}

-- A statement that is worth storing: its calls are those of its query, and one has parameters.
abbrev pub IsPrepared : World → PreparedStatement → Type 0
IsPrepared w s =
    (parse_embed_calls w s.sql ≡ ok s.embed_calls)
    × (any (λ call. call.is_prepared) s.embed_calls ≡ true)

abbrev pub StoresPrepared : World → ProxyConfig → Type 0
StoresPrepared w config =
    (name : Bytes) (s : PreparedStatement)
    → get name config.prepared_statements ≡ some s
    → IsPrepared w s

test_false :
    (d : Bytes) (start : ℕ)
    → 6 ≤ length d
    → start < length d
    → find_nul d start ≡ length d
    → (ltb (length d) 6 || leb (length d) start || leb (find_nul d start) start) ≡ false
test_false d start long inside e = rw e (ground arith)

any-nonempty :
    (calls : List EmbedCall) → any (λ call. call.is_prepared) calls ≡ true → is_empty calls ≡ false
any-nonempty [] h = cc
any-nonempty (c ∷ cs) h = refl

take_all : (n : ℕ) (d : Bytes) → length d ≤ n → take n d ≡ d
take_all zero [] h = refl
take_all zero (c ∷ d) h = absurd (omega arith)
take_all (suc n) [] h = refl
take_all (suc n) (c ∷ d) h = ap (λ r. c ∷ r) (take_all n d (omega arith))

module _ (w : World) where
  bind_statement-none :
      (d : Bytes) (config : ProxyConfig) (offset : ℕ) (s : PreparedStatement)
      → get [] config.jobmap ≡ none
      → IsPrepared w s
      → Ensures (λ r. r ≡ none) (bind_statement w d config offset s)
  unfolding bind_statement
  bind_statement-none d config offset s absent (calls, prepared) =
      Ensures->>= (λ r. r ≡ none) (slice_from d offset) _
        λ rest _. Ensures->>= (λ r. r ≡ none) (parse_bind_parameters rest) _ λ parsed _. go parsed
    where
      go : (parsed : Option (List Bytes)) → Ensures (λ r. r ≡ none) (bind_parsed w config s parsed)
      go none = refl
      go (some parameters) = ground (
        arith,
        rewrite_query_with_embeddings-prepared w config.jobmap s.sql s.embed_calls calls prepared
            absent,
      )

  found-Ensures :
      (d : Bytes) (config : ProxyConfig) (offset : ℕ) (o : Option PreparedStatement)
      → get [] config.jobmap ≡ none
      → ((s : PreparedStatement) → o ≡ some s → IsPrepared w s)
      → Ensures (λ r. r ≡ none) (bind_found w d config offset o)
  unfolding bind_found
  found-Ensures d config offset none absent stored = refl
  found-Ensures d config offset (some s) absent stored =
      ground (arith, bind_statement-none d config offset s absent (stored s refl))

  -- A Bind message is never converted into a query: as long as no job is named by the empty text and
  -- the stored statements are those that Parse messages store, `process_bind_message`, if it does not
  -- panic, returns nothing, whatever parameters the message carries and whatever the service answers.
  pub process_bind_message-none :
      (d : Bytes) (config : ProxyConfig)
      → get [] config.jobmap ≡ none
      → StoresPrepared w config
      → Ensures (λ r. r ≡ none) (process_bind_message w d config)
  unfolding process_bind_message
  process_bind_message-none d config absent stored =
      elim (Bool-cases (
        ltb (length d) 6
        || leb (length d) (find_nul d 5 + 1)
        || leb (find_nul d (find_nul d 5 + 1)) (find_nul d 5 + 1))) [
          | inl short ↦ rw short refl
          | inr long ↦ rw long (
              Ensures->>= (λ r. r ≡ none)
                (slice d (find_nul d 5 + 1) (find_nul d (find_nul d 5 + 1))) _
                λ bytes _.
                  found-Ensures d config _ (get (from_utf8_lossy bytes) config.prepared_statements)
                    absent (stored (from_utf8_lossy bytes)))
        ]

  found-panicked :
      (d : Bytes) (config : ProxyConfig) (s : PreparedStatement)
      → any (λ call. call.is_prepared) s.embed_calls ≡ true
      → bind_found w d config (length d + 1) (some s) ≡ panicked
  unfolding bind_found bind_statement slice_from
  found-panicked d config s prepared = ground (arith, any-nonempty s.embed_calls prepared)

  -- A Bind message that names a stored statement with a prepared call, and that ends before the name's
  -- terminator, panics: the parameters are sliced from one byte behind the end of the message.
  pub process_bind_message-panicked :
      (d : Bytes) (config : ProxyConfig) (s : PreparedStatement)
      → 6 ≤ length d
      → find_nul d 5 + 1 < length d
      → find_nul d (find_nul d 5 + 1) ≡ length d
      → get (from_utf8_lossy (drop (find_nul d 5 + 1) d)) config.prepared_statements ≡ some s
      → any (λ call. call.is_prepared) s.embed_calls ≡ true
      → process_bind_message w d config ≡ panicked
  unfolding process_bind_message bind_found bind_statement slice slice_from
  process_bind_message-panicked d config s long inside unterminated stored prepared =
      let start = find_nul d 5 + 1 in
      let all_left =
        (slice-in d start (length d) (omega arith) (omega arith)
          ∙ ap ok
              (take_all (length d - start) (drop start d) (omega (arith, length-drop start d)))) in
      rw (test_false d start long inside unterminated, unterminated, all_left, stored)
        (found-panicked d config s prepared)
