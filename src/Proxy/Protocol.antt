-- ===== src/Proxy/Protocol.antt =====
-- proxy/src/protocol.rs: the constants of the wire protocol and the test for start-up messages.
use pg_vectorize.Base.{
  ℕ, ◌≤◌, ◌≡◌, arith, Bool, ◌&&◌, ◌||◌, Option, none, some, Bytes, ltb, leb, tests, Bool-cases, inl,
  inr, ◌==◌, length, if◌then◌else◌,
}
use pg_vectorize.Base.Exec.{Exec, ok, ◌>>=◌}
use pg_vectorize.Proxy.Buffer.{read_u32, read_u32-in}

abbrev pub query_message : ℕ
query_message = b'Q'

abbrev pub parse_message : ℕ
parse_message = b'P'

abbrev pub bind_message : ℕ
bind_message = b'B'

abbrev pub execute_message : ℕ
execute_message = b'E'

abbrev pub describe_message : ℕ
describe_message = b'D'

abbrev pub close_message : ℕ
close_message = b'C'

abbrev pub sync_message : ℕ
sync_message = b'S'

abbrev pub protocol_version_3_0 : ℕ
protocol_version_3_0 = 196608

abbrev pub cancel_request_code : ℕ
cancel_request_code = 80877102

abbrev pub ssl_request_code : ℕ
ssl_request_code = 80877103

abbrev pub gssenc_request_code : ℕ
gssenc_request_code = 80877104

abbrev pub min_message_header_size : ℕ
min_message_header_size = 4

abbrev pub min_regular_message_size : ℕ
min_regular_message_size = 5

abbrev pub max_startup_message_size : ℕ
max_startup_message_size = 10000

abbrev pub min_startup_message_size : ℕ
min_startup_message_size = 8

pub record ParsedMessage : Type 0 where
  pub message_type : ℕ
  pub sql : Option Bytes
  pub has_embed_calls : Bool
  pub rewritten : Bool

-- `MessageResult`: the bytes to forward, what was parsed, and how many bytes were consumed.
abbrev pub MessageResult : Type 0
MessageResult = Option ((Bytes × Option ParsedMessage) × ℕ)

unfoldable pub is_known_protocol_version : ℕ → Bool
is_known_protocol_version version =
    version == protocol_version_3_0
    || version == cancel_request_code
    || version == ssl_request_code
    || version == gssenc_request_code

-- The inner test, on the length `n` that the message announces.
startup_version : Bytes → ℕ → Exec (Option ℕ)
unfolding is_known_protocol_version
startup_version d n = do
  potential_version ← read_u32 d 4
  ok (if is_known_protocol_version potential_version then some n else none)

unfoldable pub is_startup_message : Bytes → Exec (Option ℕ)
unfolding startup_version
is_startup_message d = if ltb (length d) min_startup_message_size then ok none else do
  n ← read_u32 d 0
  let in_range = leb min_startup_message_size n && leb n max_startup_message_size
  if in_range && leb min_startup_message_size (length d) then startup_version d n else ok none

-- `is_startup_message` never indexes out of bounds, and a length that it returns lies between 8 and
-- 10000.
pub is_startup_message_total :
    (d : Bytes)
    → (r : Option ℕ) × (is_startup_message d ≡ ok r)
      × ((n : ℕ) → r ≡ some n → (8 ≤ n) × (n ≤ 10000))
unfolding is_startup_message
is_startup_message_total d = elim (Bool-cases (ltb (length d) 8)) [
  | inl short ↦ (none, rw short, λ n e. cc)
  | inr long ↦
      let (n, read) = read_u32-in d 0 (omega tests) in
      let (v, version) = read_u32-in d 4 (omega tests) in
      (
        if (leb 8 n && leb n 10000) && is_known_protocol_version v then some n else none,
        rw (long, read, version) (ground arith),
        λ m e. ground arith,
      )
]
