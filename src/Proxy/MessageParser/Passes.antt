-- ===== src/Proxy/MessageParser/Passes.antt =====
-- What the proxy forwards of a message, and how much it consumes.
use pg_vectorize.Base.{
  ℕ, ◌+◌, ◌-◌, ◌≤◌, ◌≡◌, ◌⊎◌, refl, sym, ap, ◌∙◌, arith, true, Option, none, some, Bytes, ltb,
  length, take, inl, inr, Bool-cases,
}
use pg_vectorize.Base.Exec.{Exec, ok, err, panicked, Ensures, Ensures->>=}
use pg_vectorize.Proxy.Buffer.{index, slice, read_u32}
use pg_vectorize.Proxy.Protocol.{ParsedMessage, MessageResult, is_startup_message_total}
use pg_vectorize.Proxy.Embeddings.{World}
use pg_vectorize.Proxy.MessageParser.{
  ProxyConfig, process_simple_query_message, process_parse_message, process_bind_message,
  process_message_by_type, regular_message, startup_or_regular, try_parse_complete_message,
}

-- A message that is not marked as rewritten is forwarded as it came.
abbrev pub Forwards : Bytes → Option (Bytes × ParsedMessage) → Type 0
Forwards d none = Unit
Forwards d (some (message, parsed)) = (parsed.rewritten ≡ true) ⊎ (message ≡ d)

abbrev pub IsRewritten : Option ParsedMessage → Type 0
IsRewritten none = ⊥
IsRewritten (some parsed) = parsed.rewritten ≡ true

-- What is forwarded of a whole message: itself, unless it is marked as rewritten.
abbrev pub Passes : Bytes → ℕ → ProxyConfig × MessageResult → Type 0
Passes d size (config, none) = ⊥
Passes d size (config, some ((message, parsed), n)) =
    (IsRewritten parsed ⊎ (message ≡ d)) × (n ≡ size)

-- What is consumed of the bytes received: at least one and no more than there are. They are forwarded
-- as they came, unless the message is marked as rewritten.
abbrev pub Consumes : Bytes → ProxyConfig × MessageResult → Type 0
Consumes d (config, none) = Unit
Consumes d (config, some ((message, parsed), n)) =
    (1 ≤ n) × (n ≤ length d) × (IsRewritten parsed ⊎ (message ≡ take n d))

Passes-Consumes :
    (d m : Bytes) (size : ℕ) (x : Exec (ProxyConfig × MessageResult))
    → m ≡ take size d
    → 1 ≤ size
    → size ≤ length d
    → Ensures (Passes m size) x
    → Ensures (Consumes d) x
Passes-Consumes d m size (ok (config, none)) front h k e = tt
Passes-Consumes d m size (ok (config, some ((message, parsed), n))) front h k (same, size_is) = (
  omega arith,
  omega arith,
  elim same [ inl r ↦ inl r | inr q ↦ inr (q ∙ front ∙ ap (λ (i : ℕ). take i d) (sym size_is)) ],
)
Passes-Consumes d m size (err e) front h k e' = tt
Passes-Consumes d m size panicked front h k e = tt

minus_zero : (n : ℕ) → n - 0 ≡ n
minus_zero n = omega arith

pub slice-front :
    (d : Bytes) (n : ℕ) {m : Bytes} → slice d 0 n ≡ ok m → (m ≡ take n d) × (n ≤ length d)
unfolding slice
slice-front d n e = ground (arith, minus_zero n)

module _ (w : World) where
  process_simple_query_message-Forwards :
      (d : Bytes) (config : ProxyConfig)
      → Ensures (Forwards d) (process_simple_query_message w d config)
  unfolding process_simple_query_message
  process_simple_query_message-Forwards d config = ground arith

  process_parse_message-Forwards :
      (d : Bytes) (config : ProxyConfig)
      → Ensures (λ r. Forwards d r.1) (process_parse_message w d config)
  unfolding process_parse_message
  process_parse_message-Forwards d config = ground arith

  process_bind_message-Forwards :
      (d : Bytes) (config : ProxyConfig) → Ensures (Forwards d) (process_bind_message w d config)
  unfolding process_bind_message
  process_bind_message-Forwards d config = ground arith

  process_message_by_type-Passes :
      (t : ℕ) (d : Bytes) (config : ProxyConfig) (size : ℕ)
      → Ensures (Passes d size) (process_message_by_type w t d config size)
  unfolding process_message_by_type
  process_message_by_type-Passes t d config size = ground (
    arith,
    process_simple_query_message-Forwards d config,
    process_parse_message-Forwards d config,
    process_bind_message-Forwards d config,
  )

  regular_message-Consumes :
      (d : Bytes) (config : ProxyConfig) → Ensures (Consumes d) (regular_message w d config)
  unfolding regular_message
  regular_message-Consumes d config = elim (Bool-cases (ltb (length d) 5)) [
    | inl short ↦ rw short tt
    | inr long ↦ rw long (
        Ensures->>= (Consumes d) (index d 0) _ λ t _.
          Ensures->>= (Consumes d) (read_u32 d 1) _ λ n _.
            elim (Bool-cases (ltb (length d) (1 + n))) [
              | inl part ↦ rw part tt
              | inr whole ↦ rw whole (
                  Ensures->>= (Consumes d) (slice d 0 (1 + n)) _ λ m cut.
                    let (front, fits) = slice-front d (1 + n) cut in
                    Passes-Consumes d m (1 + n) (process_message_by_type w t m config (1 + n)) front
                      (omega arith) fits (process_message_by_type-Passes t m config (1 + n)))
            ])
  ]

  startup_or_regular-Consumes :
      (d : Bytes) (config : ProxyConfig) (r : Option ℕ)
      → ((n : ℕ) → r ≡ some n → (8 ≤ n) × (n ≤ 10000))
      → Ensures (Consumes d) (startup_or_regular w d config r)
  unfolding startup_or_regular
  startup_or_regular-Consumes d config none range = regular_message-Consumes d config
  startup_or_regular-Consumes d config (some n) range =
      let (low, _) = range n refl in
      elim (Bool-cases (ltb (length d) n)) [
        | inl part ↦ rw part tt
        | inr whole ↦ rw whole (
            Ensures->>= (Consumes d) (slice d 0 n) _
              λ m cut. let (front, fits) = slice-front d n cut in (omega arith, fits, inr front))
      ]

  -- Whatever the client sends, a message that is taken off the buffer is of at least one byte and
  -- lies within the buffer, and exactly its bytes are forwarded, unless it is marked as rewritten.
  pub try_parse_complete_message-Consumes :
      (d : Bytes) (config : ProxyConfig)
      → Ensures (Consumes d) (try_parse_complete_message w d config)
  unfolding try_parse_complete_message
  try_parse_complete_message-Consumes d config = elim (Bool-cases (ltb (length d) 4)) [
    | inl short ↦ rw short tt
    | inr long ↦
        let (r, started, range) = is_startup_message_total d in
        rw (long, started) (startup_or_regular-Consumes d config r range)
  ]
