-- ===== src/Examples/Proxy.antt =====
-- Clients of the proxy: one without calls, one with a literal call, one with a prepared statement.
use pg_vectorize.Base.{
  ℕ, ◌<◌, ◌≡◌, ◌≢◌, refl, arith, Bool, true, false, any, ◌==◌, List, [], ◌∷◌, ◌++◌, some, none,
  Bytes, codes, text_eq, if◌then◌else◌,
}
use pg_vectorize.Base.Numbers.{parse_usize, decimal}
use pg_vectorize.Base.Text.{undouble_quotes, join}
use pg_vectorize.Base.Utf8.{from_utf8_lossy}
use pg_vectorize.Base.Map.{Map, get, insert, remove}
use pg_vectorize.Base.Exec.{ok, err, panicked, Ensures, job_not_found}
use pg_vectorize.Types.{VectorizeJob, open_ai}
use pg_vectorize.Proxy.Buffer.{find_nul}
use pg_vectorize.Proxy.Embeddings.{
  Regex, World, EmbedCall, parse_embed_calls, generate_embeddings, format_embeddings_as_vector,
  is_char_boundary, rewrite_query_with_embeddings,
}
use pg_vectorize.Proxy.Embeddings.Rewrite.{rewrite_query_with_embeddings_lem}
use pg_vectorize.Proxy.Embeddings.Prepared.{rewrite_query_with_embeddings-prepared}
use pg_vectorize.Proxy.MessageParser.{
  ProxyConfig, PreparedStatement, process_parse_message, process_bind_message,
  try_parse_complete_message,
}
use pg_vectorize.Proxy.MessageParser.Passes.{Consumes, try_parse_complete_message-Consumes}
use pg_vectorize.Proxy.MessageParser.Bind.{
  StoresPrepared, process_bind_message-none, process_bind_message-panicked,
}
use pg_vectorize.Proxy.MessageParser.Stored.{store_prepared, process_parse_message-StoresPrepared}
use pg_vectorize.Proxy.Stream.{Connection, enhanced_proxy}
use pg_vectorize.Proxy.Stream.Transparent.{enhanced_proxy-ne-none}

abbrev never : Regex
never = record { find_iter = λ s. []; captures = λ s. none }

-- One match, of the byte at position 7.
abbrev at_seven : Bytes → Bytes → Regex
at_seven first second = record {
  find_iter = λ s. (7, 8) ∷ [];
  captures = λ s. some (first, second);
}

abbrev world : Regex → Regex → World
world strings params = record {
  Float = ℕ;
  show_float = decimal;
  string_re = strings;
  param_re = params;
  generate = λ source request. ok ((1 ∷ 2 ∷ []) ∷ []);
}

abbrev plain_world : World
plain_world = world never never

abbrev literal_world : World
literal_world = world (at_seven (codes "hi") (codes "p")) never

abbrev prepared_world : World
prepared_world = world never (at_seven (codes "1") (codes "2"))

abbrev job : VectorizeJob
job = record {
  job_name = codes "p";
  src_table = codes "products";
  src_schema = codes "public";
  src_columns = [];
  primary_key = codes "id";
  update_time_col = codes "updated_at";
  model = record { source = open_ai; fullname = codes "openai/m"; name = codes "m" };
}

abbrev jobs : Map VectorizeJob
jobs = (codes "p", job) ∷ []

abbrev idle : ProxyConfig
idle = record { jobmap = jobs; prepared_statements = [] }

abbrev sql : Bytes
sql = codes "SELECT X"

-- A Query message for `sql`, in two chunks.
abbrev query_bytes : Bytes
query_bytes = b'Q' ∷ 0 ∷ 0 ∷ 0 ∷ 13 ∷ (sql ++ 0 ∷ [])

abbrev two_chunks : List Bytes
two_chunks = (b'Q' ∷ 0 ∷ 0 ∷ []) ∷ (0 ∷ 13 ∷ (sql ++ 0 ∷ [])) ∷ []

abbrev start : Connection
start = record { config = idle; message_buffer = []; written = [] }

-- A pattern that finds a call in each text with a hash sign.
is_marked : Bytes → Bool
is_marked s = any (λ c. c == b'#') s

abbrev marked : Regex
marked = record {
  find_iter = λ s. if is_marked s then (7, 8) ∷ [] else [];
  captures = λ s. some (codes "hi", codes "p");
}

-- An ASCII character that is no hash sign.
abbrev IsQuiet : ℕ → Type 0
IsQuiet c = (c < 128) × ((c == b'#') ≡ false)

enhanced_proxy-ne-none_example :
    Ensures (λ r. r ≢ none) (enhanced_proxy literal_world start two_chunks)
enhanced_proxy-ne-none_example = enhanced_proxy-ne-none literal_world start two_chunks

try_parse_complete_message-Consumes_example :
    Ensures (Consumes query_bytes) (try_parse_complete_message literal_world query_bytes idle)
try_parse_complete_message-Consumes_example =
    try_parse_complete_message-Consumes literal_world query_bytes idle

abbrev literal_call : EmbedCall
literal_call = record {
  query = codes "hi";
  project_name = codes "p";
  full_match = codes "X";
  start_pos = 7;
  end_pos = 8;
  is_prepared = false;
  query_param_index = none;
  project_param_index = none;
}

rewrite_query_with_embeddings_lem_example :
    rewrite_query_with_embeddings literal_world jobs sql ≡ ok (codes "SELECT '[1, 2]'::vector")
unfolding parse_embed_calls undouble_quotes is_char_boundary generate_embeddings get text_eq
    format_embeddings_as_vector join decimal
rewrite_query_with_embeddings_lem_example =
    rewrite_query_with_embeddings_lem literal_world jobs sql (literal_call ∷ []) ((1 ∷ 2 ∷ []) ∷ [])
      refl (omega arith, omega arith, refl, refl, omega arith) (refl, tt)

abbrev prepared_call : EmbedCall
prepared_call = record {
  query = [];
  project_name = [];
  full_match = codes "X";
  start_pos = 7;
  end_pos = 8;
  is_prepared = true;
  query_param_index = some 0;
  project_param_index = some 1;
}

rewrite_query_with_embeddings-prepared_example :
    rewrite_query_with_embeddings prepared_world jobs sql
    ≡ err (job_not_found (codes "Project '' not found in jobmap cache"))
unfolding parse_embed_calls get parse_usize text_eq
rewrite_query_with_embeddings-prepared_example =
    rewrite_query_with_embeddings-prepared prepared_world jobs sql (prepared_call ∷ []) refl refl
      refl

-- A Parse message for the statement `s`, and the proxy's state behind it.
abbrev parse_bytes : Bytes
parse_bytes = b'P' ∷ 0 ∷ 0 ∷ 0 ∷ 17 ∷ b's' ∷ 0 ∷ (sql ++ 0 ∷ 0 ∷ 0 ∷ [])

process_parse_message-StoresPrepared_example :
    Ensures
      (λ (config', result). StoresPrepared prepared_world config')
      (process_parse_message prepared_world parse_bytes idle)
unfolding get
process_parse_message-StoresPrepared_example =
    process_parse_message-StoresPrepared prepared_world parse_bytes idle (λ name s found. absurd cc)

abbrev statement : PreparedStatement
statement = record { statement_name = codes "s"; sql = sql; embed_calls = prepared_call ∷ [] }

abbrev storing : ProxyConfig
storing = record { jobmap = jobs; prepared_statements = (codes "s", statement) ∷ [] }

-- A Bind message for `s` that ends behind the name.
abbrev cut_bind : Bytes
cut_bind = b'B' ∷ 0 ∷ 0 ∷ 0 ∷ 6 ∷ 0 ∷ b's' ∷ []

process_bind_message-panicked_example :
    process_bind_message prepared_world cut_bind storing ≡ panicked
unfolding find_nul get from_utf8_lossy text_eq
process_bind_message-panicked_example =
    process_bind_message-panicked prepared_world cut_bind storing statement (omega arith)
      (omega arith) refl refl refl

-- A Bind message for `s` with the parameters `hi` and `p`.
abbrev bind_bytes : Bytes
bind_bytes =
    b'B' ∷ 0 ∷ 0 ∷ 0 ∷ 24 ∷ 0 ∷ b's' ∷ 0 ∷ 0 ∷ 0 ∷ 0 ∷ 2 ∷ 0 ∷ 0 ∷ 0 ∷ 2 ∷ b'h' ∷ b'i' ∷ 0 ∷ 0 ∷ 0
    ∷ 1 ∷ b'p' ∷ 0 ∷ 0 ∷ []

storing-StoresPrepared : StoresPrepared prepared_world storing
unfolding get insert remove parse_embed_calls parse_usize
storing-StoresPrepared =
    store_prepared prepared_world (codes "s") statement idle (refl, refl)
      (λ name s found. absurd cc)

process_bind_message-none_example :
    Ensures (λ r. r ≡ none) (process_bind_message prepared_world bind_bytes storing)
unfolding get text_eq
process_bind_message-none_example =
    process_bind_message-none prepared_world bind_bytes storing refl storing-StoresPrepared
