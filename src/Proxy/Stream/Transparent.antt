-- ===== src/Proxy/Stream/Transparent.antt =====
-- The client's side of a connection, chunk by chunk.
use pg_vectorize.Base.{
  ℕ, zero, suc, ◌≤◌, ◌≡◌, ◌≢◌, refl, ap, arith, List, [], ◌∷◌, ◌++◌, Option, none, some, Bytes,
  length, drop, length-drop,
}
use mathlib.Core.Path.{subst}
use pg_vectorize.Base.Exec.{Exec, ok, Ensures, Ensures->>=}
use pg_vectorize.Proxy.Buffer.{slice_from}
use pg_vectorize.Proxy.Protocol.{MessageResult}
use pg_vectorize.Proxy.Embeddings.{World}
use pg_vectorize.Proxy.MessageParser.{ProxyConfig, try_parse_complete_message}
use pg_vectorize.Proxy.MessageParser.Passes.{Consumes, try_parse_complete_message-Consumes}
use pg_vectorize.Proxy.Stream.{Connection, next_round, messages_loop, enhanced_proxy}

slice_from-drop : (d : Bytes) (n : ℕ) {r : Bytes} → slice_from d n ≡ ok r → r ≡ drop n d
unfolding slice_from
slice_from-drop d n e = ground arith

-- A property of a whole result carries over to the value that the code returned.
returned {ℓ κ} : {A : Type ℓ} (P : A → Type κ) {m : Exec A} {a : A} → Ensures P m → m ≡ ok a → P a
returned P h e = subst (Ensures P) e h

module _ (w : World) where
  next_round-ne-none :
      (fuel : ℕ) (buffer written : Bytes) (r : ProxyConfig × MessageResult)
      → length buffer ≤ suc fuel
      → Consumes buffer r
      → ((c : ProxyConfig) (b o : Bytes)
          → length b ≤ fuel
          → Ensures (λ r. r ≢ none) (messages_loop w fuel c b o))
      → Ensures (λ r. r ≢ none) (next_round (messages_loop w fuel) buffer written r)
  unfolding next_round
  next_round-ne-none fuel buffer written (config, none) h k go_on = λ p. cc
  next_round-ne-none fuel buffer written (config, some ((message, parsed), n)) h (low, high, _)
        go_on =
      Ensures->>= (λ r. r ≢ none) (slice_from buffer n) _
        λ rest cut.
          go_on config rest (written ++ message)
            (omega (arith, ap length (slice_from-drop buffer n cut), length-drop n buffer))

  messages_loop-ne-none :
      (fuel : ℕ) (config : ProxyConfig) (buffer written : Bytes)
      → length buffer ≤ fuel
      → Ensures (λ r. r ≢ none) (messages_loop w fuel config buffer written)
  unfolding messages_loop
  messages_loop-ne-none fuel config [] written h = λ p. cc
  messages_loop-ne-none zero config (b ∷ buffer) written h = absurd (omega arith)
  messages_loop-ne-none (suc fuel) config (b ∷ buffer) written h =
      Ensures->>= (λ r. r ≢ none) (try_parse_complete_message w (b ∷ buffer) config) _
        λ r e.
          next_round-ne-none fuel (b ∷ buffer) written r h
            (returned (Consumes (b ∷ buffer))
              (try_parse_complete_message-Consumes w (b ∷ buffer) config) e)
            (messages_loop-ne-none fuel)

  -- The proxy's loop over the messages in its buffer ends on every input: each round takes at least
  -- one byte off the buffer, and the fuel, which is the length of the buffer, never runs out.
  pub enhanced_proxy-ne-none :
      (c : Connection) (chunks : List Bytes) → Ensures (λ r. r ≢ none) (enhanced_proxy w c chunks)
  unfolding enhanced_proxy
  enhanced_proxy-ne-none c [] = λ p. cc
  enhanced_proxy-ne-none c ([] ∷ chunks) = λ p. cc
  enhanced_proxy-ne-none c ((b ∷ bs) ∷ chunks) =
      let buffer = c.message_buffer ++ (b ∷ bs) in
      Ensures->>= (λ r. r ≢ none) (messages_loop w (length buffer) c.config buffer c.written) _
        λ r e.
          go r
            (returned (λ r. r ≢ none)
              (messages_loop-ne-none (length buffer) c.config buffer c.written le_self) e)
            (λ c'. enhanced_proxy-ne-none c' chunks)
    where
      le_self : length (c.message_buffer ++ (b ∷ bs)) ≤ length (c.message_buffer ++ (b ∷ bs))
      le_self = omega arith

      go :
          (r : Option Connection)
          → r ≢ none
          → ((c' : Connection) → Ensures (λ r. r ≢ none) (enhanced_proxy w c' chunks))
          → Ensures
              (λ r. r ≢ none)
              (elim r [ none ↦ ok none | some c' ↦ enhanced_proxy w c' chunks ])
      go none ne h = absurd (ne refl)
      go (some c') ne h = h c'

-- What is read before the end of a stream.
abbrev pub received : List Bytes → Bytes
received [] = []
received ([] ∷ chunks) = []
received ((b ∷ bs) ∷ chunks) = (b ∷ bs) ++ received chunks

-- The configuration is kept, and what was written and what is still in the buffer make up `all`.
abbrev pub Carries : ProxyConfig → Bytes → Option Connection → Type 0
Carries config all none = ⊥
Carries config all (some c) = (c.config ≡ config) × (c.written ++ c.message_buffer ≡ all)
