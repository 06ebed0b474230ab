-- ===== src/Proxy/MessageParser.antt =====
-- proxy/src/message_parser.rs: one message of a client, from the bytes received so far to the bytes
-- that are forwarded. Log lines are left out.
pub mod Passes
pub mod Bind
pub mod Stored
pub mod Frames
use pg_vectorize.Base.{
  ℕ, zero, suc, ◌+◌, ◌-◌, ◌*◌, ◌≤◌, ◌<◌, ◌≡◌, refl, Bool, true, false, not, ◌&&◌, ◌||◌, List, [],
  ◌∷◌, ◌++◌, Option, none, some, Bytes, ltb, leb, ◌==◌, length, take, drop, any, is_empty,
  if◌then◌else◌,
}
use pg_vectorize.Base.Utf8.{from_utf8_lossy}
use pg_vectorize.Base.Exec.{Exec, ok, err, panicked, ◌>>=◌, if_ok}
use pg_vectorize.Base.Map.{Map, get, insert}
use pg_vectorize.Types.{VectorizeJob}
use pg_vectorize.Proxy.Buffer.{
  index, slice, slice_from, read_u16, read_u32, find_nul, position_nul, to_be_bytes4, as_u32,
}
use pg_vectorize.Proxy.Protocol.{
  ParsedMessage, MessageResult, query_message, parse_message, bind_message, execute_message,
  describe_message, close_message, sync_message, min_message_header_size, min_regular_message_size,
  is_startup_message,
}
use pg_vectorize.Proxy.Embeddings.{
  World, EmbedCall, parse_embed_calls, rewrite_query_with_embeddings, resolve_prepared_embed_calls,
}

-- `PreparedStatement` and the shared part of `ProxyConfig` (proxy/src/protocol.rs).
pub record PreparedStatement : Type 0 where
  pub statement_name : Bytes
  pub sql : Bytes
  pub embed_calls : List EmbedCall

pub record ProxyConfig : Type 0 where
  pub jobmap : Map VectorizeJob
  pub prepared_statements : Map PreparedStatement

unfoldable pub create_passthrough_message : ℕ → ParsedMessage
create_passthrough_message message_type = record {
  message_type = message_type;
  sql = none;
  has_embed_calls = false;
  rewritten = false;
}

unfoldable pub create_query_message : Bytes → Bytes
unfolding to_be_bytes4
create_query_message sql =
    query_message ∷ (to_be_bytes4 (as_u32 (4 + length sql + 1)) ++ (sql ++ 0 ∷ []))

-- `buffer[1..5].copy_from_slice(bytes)`, which panics on a buffer of less than five bytes.
unfoldable pub set_length : Bytes → Bytes → Exec Bytes
set_length buffer bytes =
    if leb 5 (length buffer) then ok (take 1 buffer ++ (bytes ++ drop 5 buffer)) else panicked

unfoldable pub create_parse_message_with_rewritten_query : Bytes → ℕ → ℕ → Bytes → Exec Bytes
unfolding slice slice_from set_length to_be_bytes4
create_parse_message_with_rewritten_query original query_start query_end rewritten_sql = do
  before ← slice original 0 query_start
  after ← slice_from original query_end
  let buffer = before ++ (rewritten_sql ++ after)
  set_length buffer (to_be_bytes4 (as_u32 (length buffer - 1)))

-- The loop of `parse_bind_parameters` over the parameters that are left.
unfoldable pub bind_parameters_loop : ℕ → Bytes → ℕ → List Bytes → Exec (Option (List Bytes))
unfolding read_u32 slice from_utf8_lossy
bind_parameters_loop zero d offset parameters = ok (some parameters)
bind_parameters_loop (suc left) d offset parameters =
    if ltb (length d) (offset + 4) then ok none else do
      param_length ← read_u32 d offset
      let from = offset + 4
      if param_length == 0xffff_ffff
          then bind_parameters_loop left d from (parameters ++ [] ∷ [])
          else if ltb (length d) (from + param_length)
          then ok none
          else do
            bytes ← slice d from (from + param_length)
            bind_parameters_loop left d (from + param_length)
                (parameters ++ from_utf8_lossy bytes ∷ [])

unfoldable pub parse_bind_parameters : Bytes → Exec (Option (List Bytes))
unfolding bind_parameters_loop read_u16
parse_bind_parameters d = if ltb (length d) 2 then ok none else do
  format_count ← read_u16 d 0
  let offset = 2 + format_count * 2
  if ltb (length d) (offset + 2)
      then ok none
      else do param_count ← read_u16 d offset; bind_parameters_loop param_count d (offset + 2) []

-- A message that was parsed, with the text of its query.
abbrev pub seen : ℕ → Bytes → Bool → Bool → ParsedMessage
seen message_type sql has_embed_calls rewritten = record {
  message_type = message_type;
  sql = some sql;
  has_embed_calls = has_embed_calls;
  rewritten = rewritten;
}

module _ (w : World) where
  -- The query behind its calls, rewritten: `none` if it holds no call or something failed.
  unfoldable pub rewritten_query : ProxyConfig → Bytes → Exec (Option Bytes)
  rewritten_query config sql = elim (parse_embed_calls w sql) [
    | ok embed_calls ↦
        if is_empty embed_calls
        then ok none
        else if_ok (rewrite_query_with_embeddings w config.jobmap sql) some none
    | err e ↦ ok none
    | panicked ↦ panicked
  ]

  unfoldable pub process_simple_query_message :
      Bytes → ProxyConfig → Exec (Option (Bytes × ParsedMessage))
  unfolding slice_from position_nul rewritten_query create_query_message
  process_simple_query_message d config = if ltb (length d) 6 then ok none else do
    query_bytes ← slice_from d 5
    elim (position_nul query_bytes) [
      | none ↦ ok none
      | some null_pos ↦ do
        let sql = from_utf8_lossy (take null_pos query_bytes)
        rewritten ← rewritten_query config sql
        elim rewritten [
          | some text ↦ ok (some (create_query_message text, seen query_message text true true))
          | none ↦ ok (some (d, seen query_message sql false false))
        ]
    ]

  -- The name of the statement that a Parse message creates.
  unfoldable pub parse_statement_name : Bytes → Exec Bytes
  unfolding slice_from slice position_nul
  parse_statement_name d = do
    name_bytes ← slice_from d 5
    elim (position_nul name_bytes) [
      | some null_pos ↦ do bytes ← slice d 5 (5 + null_pos); ok (from_utf8_lossy bytes)
      | none ↦ ok []
    ]

  -- A query with calls in a Parse message: one with parameters is stored, one without is rewritten.
  unfoldable pub store_or_rewrite :
      Bytes
      → ProxyConfig
      → ℕ
      → ℕ
      → Bytes
      → List EmbedCall
      → Bytes
      → Exec (ProxyConfig × Option (Bytes × ParsedMessage))
  unfolding create_parse_message_with_rewritten_query
  store_or_rewrite d config query_start offset sql embed_calls statement_name =
      if any (λ call. call.is_prepared) embed_calls
      then ok (
        record config {
          prepared_statements =
              insert statement_name
                (record { statement_name = statement_name; sql = sql; embed_calls = embed_calls })
                config.prepared_statements;
        },
        some (d, seen parse_message sql true false),
      )
      else elim (rewrite_query_with_embeddings w config.jobmap sql) [
        | ok text ↦ do
          message ← create_parse_message_with_rewritten_query d query_start offset text
          ok (config, some (message, seen parse_message text true true))
        | err e ↦ ok (config, some (d, seen parse_message sql false false))
        | panicked ↦ panicked
      ]

  unfoldable pub parse_with_calls :
      Bytes
      → ProxyConfig
      → ℕ
      → ℕ
      → Bytes
      → List EmbedCall
      → Exec (ProxyConfig × Option (Bytes × ParsedMessage))
  unfolding parse_statement_name store_or_rewrite
  parse_with_calls d config query_start offset sql embed_calls = do
    statement_name ← parse_statement_name d
    store_or_rewrite d config query_start offset sql embed_calls statement_name

  -- The end of `process_parse_message`, on what `parse_embed_calls` made of the query.
  unfoldable pub parse_parsed :
      Bytes
      → ProxyConfig
      → ℕ
      → ℕ
      → Bytes
      → Exec (List EmbedCall)
      → Exec (ProxyConfig × Option (Bytes × ParsedMessage))
  unfolding parse_with_calls
  parse_parsed d config query_start offset sql (ok embed_calls) =
      if is_empty embed_calls
      then ok (config, some (d, seen parse_message sql false false))
      else parse_with_calls d config query_start offset sql embed_calls
  parse_parsed d config query_start offset sql (err e) =
      ok (config, some (d, seen parse_message sql false false))
  parse_parsed d config query_start offset sql panicked = panicked

  unfoldable pub process_parse_message :
      Bytes → ProxyConfig → Exec (ProxyConfig × Option (Bytes × ParsedMessage))
  unfolding find_nul slice parse_parsed
  process_parse_message d config =
      let query_start = find_nul d 5 + 1 in
      let offset = find_nul d query_start in
      if ltb (length d) 6 || leb (length d) query_start || leb offset query_start
      then ok (config, none)
      else do
        bytes ← slice d query_start offset
        let sql = from_utf8_lossy bytes
        parse_parsed d config query_start offset sql (parse_embed_calls w sql)

  -- The end of `process_bind_message`, on the parameters that were parsed. The resolved calls are not
  -- used: the query of the statement is parsed again.
  unfoldable pub bind_parsed :
      ProxyConfig → PreparedStatement → Option (List Bytes) → Exec (Option (Bytes × ParsedMessage))
  unfolding create_query_message
  bind_parsed config statement none = ok none
  bind_parsed config statement (some parameters) =
      elim (resolve_prepared_embed_calls statement.embed_calls parameters) [
        | ok resolved_calls ↦
            if_ok (rewrite_query_with_embeddings w config.jobmap statement.sql)
              (λ text. some (create_query_message text, seen query_message text true true)) none
        | err e ↦ ok none
        | panicked ↦ panicked
      ]

  -- A Bind message for a stored statement with prepared calls; its parameters stand from `offset` on.
  unfoldable pub bind_statement :
      Bytes → ProxyConfig → ℕ → PreparedStatement → Exec (Option (Bytes × ParsedMessage))
  unfolding slice_from bind_parsed
  bind_statement d config offset statement = do
    rest ← slice_from d offset
    parsed ← parse_bind_parameters rest
    bind_parsed config statement parsed

  -- The statement that a Bind message names, if it is stored.
  unfoldable pub bind_found :
      Bytes → ProxyConfig → ℕ → Option PreparedStatement → Exec (Option (Bytes × ParsedMessage))
  unfolding bind_statement
  bind_found d config offset none = ok none
  bind_found d config offset (some statement) =
      if not (is_empty statement.embed_calls)
        && any (λ call. call.is_prepared) statement.embed_calls
      then bind_statement d config offset statement
      else ok none

  unfoldable pub process_bind_message : Bytes → ProxyConfig → Exec (Option (Bytes × ParsedMessage))
  unfolding find_nul slice bind_found
  process_bind_message d config =
      let name_start = find_nul d 5 + 1 in
      let name_end = find_nul d name_start in
      if ltb (length d) 6 || leb (length d) name_start || leb name_end name_start
      then ok none
      else do
        bytes ← slice d name_start name_end
        bind_found d config (name_end + 1) (get (from_utf8_lossy bytes) config.prepared_statements)

  unfoldable pub process_message_by_type :
      ℕ → Bytes → ProxyConfig → ℕ → Exec (ProxyConfig × MessageResult)
  unfolding create_passthrough_message process_simple_query_message process_parse_message
      process_bind_message
  process_message_by_type message_type d config size =
      if message_type == query_message
      then (do
        result ← process_simple_query_message d config
        elim result [
          | some (message, parsed) ↦ ok (config, some ((message, some parsed), size))
          | none ↦ ok (config, some ((d, none), size))
        ])
      else if message_type == parse_message
      then (do
        (config', result) ← process_parse_message d config
        elim result [
          | some (message, parsed) ↦ ok (config', some ((message, some parsed), size))
          | none ↦ ok (config', some ((d, none), size))
        ])
      else if message_type == bind_message
      then (do
        result ← process_bind_message d config
        elim result [
          | some (message, parsed) ↦ ok (config, some ((message, some parsed), size))
          | none ↦ ok (config, some ((d, some (create_passthrough_message message_type)), size))
        ])
      else if message_type == execute_message
          || message_type == describe_message
          || message_type == close_message
          || message_type == sync_message
      then ok (config, some ((d, some (create_passthrough_message message_type)), size))
      else ok (config, some ((d, none), size))

  -- The branch for a message that is no start-up message.
  unfoldable pub regular_message : Bytes → ProxyConfig → Exec (ProxyConfig × MessageResult)
  unfolding index read_u32 slice process_message_by_type
  regular_message d config =
      if ltb (length d) min_regular_message_size then ok (config, none) else do
        message_type ← index d 0
        message_length ← read_u32 d 1
        let size = 1 + message_length
        if ltb (length d) size then ok (config, none) else do
          message ← slice d 0 size
          process_message_by_type message_type message config size

  -- The two kinds of message, by what `is_startup_message` found.
  unfoldable pub startup_or_regular :
      Bytes → ProxyConfig → Option ℕ → Exec (ProxyConfig × MessageResult)
  unfolding slice regular_message
  startup_or_regular d config (some startup_length) =
      if ltb (length d) startup_length then ok (config, none) else do
        message ← slice d 0 startup_length
        ok (config, some ((message, none), startup_length))
  startup_or_regular d config none = regular_message d config

  unfoldable pub try_parse_complete_message :
      Bytes → ProxyConfig → Exec (ProxyConfig × MessageResult)
  unfolding is_startup_message startup_or_regular
  try_parse_complete_message d config =
      if ltb (length d) min_message_header_size
      then ok (config, none)
      else do startup ← is_startup_message d; startup_or_regular d config startup
