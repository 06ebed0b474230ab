-- ===== src/Proxy/MessageParser/Frames.antt =====
-- Messages of a client that calls no embedding.
use pg_vectorize.Base.{
  ℕ, zero, suc, ◌+◌, ◌-◌, ◌≤◌, ◌≡◌, refl, ap, sym, ◌∙◌, arith, false, [], ◌∷◌, ◌++◌, Option, none,
  some, Bytes, ltb, min, length, take, drop, drop-drop, take-append, drop-append, inl, inr,
  Bool-cases, tests,
}
use mathlib.Core.Path.{subst}
use pg_vectorize.Base.Utf8.{from_utf8_lossy}
use pg_vectorize.Base.Exec.{ok, Returns}
use pg_vectorize.Base.Map.{get}
use pg_vectorize.Proxy.Buffer.{find_nul, index-in, read_u32-in, slice-in, find_nul_bounds}
use pg_vectorize.Proxy.Protocol.{ParsedMessage, MessageResult, is_startup_message_total}
use pg_vectorize.Proxy.Embeddings.{World, parse_embed_calls}
use pg_vectorize.Proxy.MessageParser.{
  ProxyConfig, rewritten_query, process_simple_query_message, process_parse_message,
  process_bind_message, process_message_by_type, regular_message, startup_or_regular,
  try_parse_complete_message,
}

-- A message that is forwarded as it came, with the configuration kept.
abbrev Plain : Bytes → ProxyConfig → Option (Bytes × ParsedMessage) → Type 0
Plain d config none = Unit
Plain d config (some (message, parsed)) = (parsed.rewritten ≡ false) × (message ≡ d)

front : (d : Bytes) (n : ℕ) → take (n - 0) (drop 0 d) ≡ take n d
front d n = ap (λ (i : ℕ). take i d) (omega arith)

take_nil : (n : ℕ) → take {A = ℕ} n [] ≡ []
take_nil zero = refl
take_nil (suc n) = refl

take-take : (m n : ℕ) (xs : Bytes) → take n (take m xs) ≡ take (min n m) xs
take-take m n [] = ap (take n) (take_nil m) ∙ (take_nil n ∙ sym (take_nil (min n m)))
take-take zero zero (x ∷ xs) = refl
take-take zero (suc n) (x ∷ xs) =
    let same : 0 ≡ min (suc n) 0 = omega arith in ap (λ (i : ℕ). take i (x ∷ xs)) same
take-take (suc m) zero (x ∷ xs) =
    let same : 0 ≡ min 0 (suc m) = omega arith in ap (λ (i : ℕ). take i (x ∷ xs)) same
take-take (suc m) (suc n) (x ∷ xs) =
    let same : suc (min n m) ≡ min (suc n) (suc m) = omega arith in
    ap (λ r. x ∷ r) (take-take m n xs) ∙ ap (λ (i : ℕ). take i (x ∷ xs)) same

drop-take : (m k : ℕ) (xs : Bytes) → drop k (take m xs) ≡ take (m - k) (drop k xs)
drop-take m zero xs = ap (λ (i : ℕ). take i xs) (omega arith)
drop-take m (suc k) [] = ap (drop (suc k)) (take_nil m) ∙ sym (take_nil (m - suc k))
drop-take zero (suc k) (x ∷ xs) =
    let none_left : 0 ≡ 0 - suc k = omega arith in ap (λ (i : ℕ). take i (drop k xs)) none_left
drop-take (suc m) (suc k) (x ∷ xs) =
    drop-take m k xs
    ∙ (let same : m - k ≡ suc m - suc k = omega arith in ap (λ (i : ℕ). take i (drop k xs)) same)

module _ (w : World) where
  -- No piece of the bytes is, read as a text, a query with a call.
  abbrev pub HasNoCalls : Bytes → Type 0
  HasNoCalls d = (k n : ℕ) → parse_embed_calls w (from_utf8_lossy (take n (drop k d))) ≡ ok []

  pub HasNoCalls-drop : (m : ℕ) (d : Bytes) → HasNoCalls d → HasNoCalls (drop m d)
  HasNoCalls-drop m d h k n =
      ap (λ p. parse_embed_calls w (from_utf8_lossy (take n p))) (drop-drop m k d) ∙ h (m + k) n

  pub HasNoCalls-take : (m : ℕ) (d : Bytes) → HasNoCalls d → HasNoCalls (take m d)
  HasNoCalls-take m d h k n =
      ap (λ p. parse_embed_calls w (from_utf8_lossy p))
        (ap (take n) (drop-take m k d) ∙ take-take (m - k) n (drop k d))
      ∙ h k (min n (m - k))

  pub HasNoCalls-front : (c d : Bytes) → HasNoCalls (c ++ d) → HasNoCalls c
  HasNoCalls-front c d h =
      subst HasNoCalls (take-append c d) (HasNoCalls-take (length c) (c ++ d) h)

  pub HasNoCalls-rest : (c d : Bytes) → HasNoCalls (c ++ d) → HasNoCalls d
  HasNoCalls-rest c d h = subst HasNoCalls (drop-append c d) (HasNoCalls-drop (length c) (c ++ d) h)

  process_simple_query_message-Plain :
      (d : Bytes) (config : ProxyConfig)
      → HasNoCalls d
      → Returns (Plain d config) (process_simple_query_message w d config)
  unfolding process_simple_query_message rewritten_query
  process_simple_query_message-Plain d config no_calls = grind (arith, no_calls 5)

  process_parse_message-Plain :
      (d : Bytes) (config : ProxyConfig)
      → HasNoCalls d
      → Returns (λ r. (r.0 ≡ config) × Plain d config r.1) (process_parse_message w d config)
  unfolding process_parse_message
  process_parse_message-Plain d config no_calls =
      grind (arith, no_calls, find_nul_bounds d 5, find_nul_bounds d (find_nul d 5 + 1))

  process_bind_message-none :
      (d : Bytes) (config : ProxyConfig)
      → config.prepared_statements ≡ []
      → Returns (λ r. r ≡ none) (process_bind_message w d config)
  unfolding process_bind_message get
  process_bind_message-none d config e =
      simp e (ground (arith, find_nul_bounds d 5, find_nul_bounds d (find_nul d 5 + 1)))

  -- The configuration is kept, and what is forwarded is what was consumed.
  abbrev pub Relays : Bytes → ProxyConfig → ProxyConfig × MessageResult → Type 0
  Relays d config (config', none) = config' ≡ config
  Relays d config (config', some ((message, parsed), n)) =
      (config' ≡ config) × (1 ≤ n) × (n ≤ length d) × (message ≡ take n d)

  process_message_by_type-Relays :
      (t : ℕ) (m : Bytes) (config : ProxyConfig) (size : ℕ) (d : Bytes)
      → config.prepared_statements ≡ []
      → HasNoCalls m
      → m ≡ take size d
      → 1 ≤ size
      → size ≤ length d
      → Returns (Relays d config) (process_message_by_type w t m config size)
  unfolding process_message_by_type
  process_message_by_type-Relays t m config size d e no_calls front h k = ground (
    arith,
    process_simple_query_message-Plain m config no_calls,
    process_parse_message-Plain m config no_calls,
    process_bind_message-none m config e,
  )

  module _ (d : Bytes) (config : ProxyConfig) (e : config.prepared_statements ≡ [])
      (no_calls : HasNoCalls d) where
    regular_message-Relays : Returns (Relays d config) (regular_message w d config)
    unfolding regular_message
    regular_message-Relays = elim (Bool-cases (ltb (length d) 5)) [
      | inl short ↦ rw short refl
      | inr long ↦
          let (t, typed) = index-in d 0 (omega tests) in
          let (n, sized) = read_u32-in d 1 (omega tests) in
          rw (long, typed, sized)
            (elim (Bool-cases (ltb (length d) (1 + n))) [
              | inl part ↦ rw part refl
              | inr whole ↦
                  let fits : 1 + n ≤ length d = omega tests in
                  rw (whole, slice-in d 0 (1 + n) (omega arith) fits)
                    (process_message_by_type-Relays t _ config (1 + n) d e
                      (subst HasNoCalls (sym (front d (1 + n)))
                        (HasNoCalls-take (1 + n) d no_calls))
                      (front d (1 + n)) (omega arith) fits)
            ])
    ]

    startup_or_regular-Relays :
        (r : Option ℕ)
        → ((n : ℕ) → r ≡ some n → (8 ≤ n) × (n ≤ 10000))
        → Returns (Relays d config) (startup_or_regular w d config r)
    unfolding startup_or_regular
    startup_or_regular-Relays none range = regular_message-Relays
    startup_or_regular-Relays (some n) range =
        let (low, _) = range n refl in
        elim (Bool-cases (ltb (length d) n)) [
          | inl part ↦ rw part refl
          | inr whole ↦
              let fits : n ≤ length d = omega tests in
              rw (whole, slice-in d 0 n (omega arith) fits) (refl, omega arith, fits, front d n)
        ]

    pub try_parse_complete_message-Relays :
        Returns (Relays d config) (try_parse_complete_message w d config)
    unfolding try_parse_complete_message
    try_parse_complete_message-Relays = elim (Bool-cases (ltb (length d) 4)) [
      | inl short ↦ rw short refl
      | inr long ↦
          let (r, started, range) = is_startup_message_total d in
          rw (long, started) (startup_or_regular-Relays r range)
    ]
