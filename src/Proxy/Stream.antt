-- ===== src/Proxy/Stream.antt =====
-- proxy/src/proxy.rs: the two directions of a connection. What a reader yields is the list of the
-- chunks read, of at most 8192 bytes each; an empty chunk is the end of the stream. The writer takes
-- every byte: the errors of sockets are left out, and so are log lines and byte counts.
pub mod Transparent
use pg_vectorize.Base.{
  ℕ, zero, suc, ◌+◌, ◌≡◌, Bool, List, [], ◌∷◌, ◌++◌, Option, none, some, Bytes, length,
}
use pg_vectorize.Base.Exec.{Exec, ok, ◌>>=◌}
use pg_vectorize.Proxy.Buffer.{slice_from}
use pg_vectorize.Proxy.Protocol.{MessageResult}
use pg_vectorize.Proxy.Embeddings.{World}
use pg_vectorize.Proxy.MessageParser.{ProxyConfig, try_parse_complete_message}

-- The state of a connection: the shared configuration, `message_buffer`, and all that was written.
pub record Connection : Type 0 where
  pub config : ProxyConfig
  pub message_buffer : Bytes
  pub written : Bytes

-- The body of the inner loop behind `try_parse_complete_message`; `go_on` is the loop's next round.
unfoldable pub next_round :
    (ProxyConfig → Bytes → Bytes → Exec (Option Connection))
    → Bytes
    → Bytes
    → ProxyConfig × MessageResult
    → Exec (Option Connection)
unfolding slice_from
next_round go_on buffer written (config, none) =
    ok (some (record { config = config; message_buffer = buffer; written = written }))
next_round go_on buffer written (config, some ((message, parsed), consumed_bytes)) = do
  rest ← slice_from buffer consumed_bytes
  go_on config rest (written ++ message)

module _ (w : World) where
  -- `while !message_buffer.is_empty()`: `none` means that the fuel ran out. Each round that goes on
  -- takes a byte off the buffer, so the length of the buffer is fuel enough.
  unfoldable pub messages_loop : ℕ → ProxyConfig → Bytes → Bytes → Exec (Option Connection)
  unfolding next_round
  messages_loop fuel config [] written =
      ok (some (record { config = config; message_buffer = []; written = written }))
  messages_loop zero config (b ∷ buffer) written = ok none
  messages_loop (suc fuel) config (b ∷ buffer) written = do
    result ← try_parse_complete_message w (b ∷ buffer) config
    next_round (messages_loop fuel) (b ∷ buffer) written result

  -- `enhanced_proxy_with_wire_protocol_support`, from a state of the connection on.
  unfoldable pub enhanced_proxy : Connection → List Bytes → Exec (Option Connection)
  unfolding messages_loop
  enhanced_proxy c [] = ok (some c)
  enhanced_proxy c ([] ∷ chunks) = ok (some c)
  enhanced_proxy c ((b ∷ bs) ∷ chunks) = do
    let buffer = c.message_buffer ++ (b ∷ bs)
    after ← messages_loop (length buffer) c.config buffer c.written
    elim after [ none ↦ ok none | some c' ↦ enhanced_proxy c' chunks ]

-- `standard_proxy`: every chunk is written as it came.
unfoldable pub standard_proxy : Bytes → List Bytes → Bytes
standard_proxy written [] = written
standard_proxy written ([] ∷ chunks) = written
standard_proxy written ((b ∷ bs) ∷ chunks) = standard_proxy (written ++ (b ∷ bs)) chunks
