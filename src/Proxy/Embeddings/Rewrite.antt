-- ===== src/Proxy/Embeddings/Rewrite.antt =====
-- The rewriting of a query, against the substitution of all calls at once.
use pg_vectorize.Base.{
  ℕ, zero, suc, ◌-◌, ◌≤◌, ◌<◌, ◌≡◌, refl, sym, ap, ◌∙◌, arith, true, List, [], ◌∷◌, ◌++◌, some,
  Bytes, length, take, drop, get_elem?, take-append-drop, take-between, take-append_le, drop-append,
  length-take, get_elem?-append_lt, get_elem?-take, get_elem?-append_length, append_assoc,
  length-append,
}
use native.Mathlib.Decide.{dec_lt}
use mathlib.Core.List.{reverse, reverse-cons}
use pg_vectorize.Base.Exec.{ok, ◌>>=◌, >>=_cong, >>=_assoc}
use pg_vectorize.Base.Map.{Map}
use pg_vectorize.Types.{VectorizeJob}
use pg_vectorize.Proxy.Embeddings.{
  World, EmbedCall, generate_embeddings, format_embeddings_as_vector, is_char_boundary,
  replace_range, replace_calls, rewrite_query_with_embeddings, parse_embed_calls,
}

take-take : (s : Bytes) (p i : ℕ) → i ≤ p → take i (take p s) ≡ take i s
take-take s p zero h = refl
take-take s zero (suc i) h = absurd (omega arith)
take-take [] (suc p) (suc i) h = refl
take-take (c ∷ s) (suc p) (suc i) h = ap (◌∷◌ c) (take-take s p i (omega arith))

-- The calls lie in the text `s` from `p` on, one behind the other, between characters.
abbrev pub AreSpans : Bytes → ℕ → List EmbedCall → Type 0
AreSpans s p [] = p ≤ length s
AreSpans s p (c ∷ cs) =
    (p ≤ c.start_pos)
    × (c.start_pos ≤ c.end_pos)
    × (is_char_boundary s c.start_pos ≡ true)
    × (is_char_boundary s c.end_pos ≡ true)
    × AreSpans s c.end_pos cs

AreSpans-le : (s : Bytes) (p : ℕ) (cs : List EmbedCall) → AreSpans s p cs → p ≤ length s
AreSpans-le s p [] h = h
AreSpans-le s p (c ∷ cs) (a, b, _, _, h) = omega (arith, AreSpans-le s c.end_pos cs h)

module _ (w : World) where
  open w use {Float}

  -- The service answers `es` for the calls `cs`.
  abbrev pub Answers : Map VectorizeJob → List EmbedCall → List (List Float) → Type 0
  Answers jobmap [] [] = Unit
  Answers jobmap (c ∷ cs) (e ∷ es) =
      (generate_embeddings w jobmap c.query c.project_name ≡ ok e) × Answers jobmap cs es
  Answers jobmap _ _ = ⊥

  -- The text `s` from `p` on, with each call replaced by its embedding: what stands between the
  -- calls is kept.
  abbrev pub substitute : Bytes → ℕ → List EmbedCall → List (List Float) → Bytes
  substitute s p (c ∷ cs) (e ∷ es) =
      take (c.start_pos - p) (drop p s)
      ++ (format_embeddings_as_vector w e ++ substitute s c.end_pos cs es)
  substitute s p _ _ = drop p s

length-prefix : (s : Bytes) (p : ℕ) → p ≤ length s → length (take p s) ≡ p
length-prefix s p h = omega (arith, length-take p s)

elem_at : (s x : Bytes) (p : ℕ) → p ≤ length s → get_elem? (take p s ++ x) p ≡ get_elem? x 0
elem_at s x p h =
    ap (get_elem? (take p s ++ x)) (sym (length-prefix s p h))
    ∙ get_elem?-append_length (take p s) x

-- A character starts where `x` begins exactly if `x` begins with one.
boundary_at :
    (s x : Bytes) (p : ℕ) → p ≤ length s → is_char_boundary (take p s ++ x) p ≡ is_char_boundary x 0
unfolding is_char_boundary
boundary_at s [] p h =
    rw (elem_at s [] p h, is_char_boundary)
      (ground (arith, length-append (take p s) [], length-prefix s p h))
boundary_at s (b ∷ x) p h = rw (elem_at s (b ∷ x) p h, is_char_boundary)

elem_in : (s : Bytes) (i : ℕ) → i < length s → (b : ℕ) × (get_elem? s i ≡ some b)
elem_in [] i h = absurd (omega arith)
elem_in (b ∷ s) zero h = (b, refl)
elem_in (b ∷ s) (suc i) h = elem_in s i (omega arith)

boundary_before :
    (s x : Bytes) (p i : ℕ)
    → p ≤ length s
    → i < p
    → is_char_boundary (take p s ++ x) i ≡ is_char_boundary s i
unfolding is_char_boundary
boundary_before s x p i h k =
    let (b, at) = elem_in s i (omega arith) in
    rw (
      get_elem?-append_lt (take p s) x i (omega (arith, length-prefix s p h)),
      get_elem?-take p i s k,
      at,
      is_char_boundary,
    )

cut_prefix : (s x : Bytes) (p i : ℕ) → p ≤ length s → i ≤ p → take i (take p s ++ x) ≡ take i s
cut_prefix s x p i h k =
    take-append_le i (take p s) x (omega (arith, length-prefix s p h)) ∙ take-take s p i k

drop_prefix : (s x : Bytes) (p : ℕ) → p ≤ length s → drop p (take p s ++ x) ≡ x
drop_prefix s x p h =
    ap (λ (n : ℕ). drop n (take p s ++ x)) (sym (length-prefix s p h)) ∙ drop-append (take p s) x

-- Replacing the span in front of `x`, when the text has kept its front.
module _ (s x : Bytes) (start end : ℕ) (t : Bytes) (h : start ≤ end) (k : end ≤ length s)
    (l : is_char_boundary s start ≡ true) (m : is_char_boundary x 0 ≡ true) where
  start_boundary : is_char_boundary (take end s ++ x) start ≡ true
  start_boundary = elim (dec_lt start end) [
    | yes before ↦ boundary_before s x end start k before ∙ l
    | no same ↦
        let e : start ≡ end = omega arith in
        ap (is_char_boundary (take end s ++ x)) e ∙ boundary_at s x end k ∙ m
  ]

  replace_range-cut : replace_range (take end s ++ x) start end t ≡ ok (take start s ++ (t ++ x))
  unfolding replace_range
  replace_range-cut =
      rw
        (
          start_boundary,
          boundary_at s x end k,
          m,
          cut_prefix s x end start k h,
          drop_prefix s x end k,
        )
        (ground (arith, length-append (take end s) x, length-prefix s end k))

-- An embedding begins with a quote.
format-boundary :
    (w : World) (e : List (World.Float w)) (r : Bytes)
    → is_char_boundary (format_embeddings_as_vector w e ++ r) 0 ≡ true
unfolding is_char_boundary format_embeddings_as_vector
format-boundary w e r = refl

module _ (w : World) (jobmap : Map VectorizeJob) (s : Bytes) where
  open w use {Float}

  substitute-cons :
      (p : ℕ) (c : EmbedCall) (cs : List EmbedCall) (e : List Float) (es : List (List Float))
      → p ≤ c.start_pos
      → take p s ++ substitute w s p (c ∷ cs) (e ∷ es)
        ≡ take c.start_pos s ++ (format_embeddings_as_vector w e ++ substitute w s c.end_pos cs es)
  substitute-cons p c cs e es h =
      sym (append_assoc (take p s) _ _)
      ∙ ap (λ r. r ++ (format_embeddings_as_vector w e ++ substitute w s c.end_pos cs es))
          (take-between p c.start_pos s h)

  substitute-boundary :
      (p : ℕ) (cs : List EmbedCall) (es : List (List Float))
      → AreSpans s p cs
      → Answers w jobmap cs es
      → is_char_boundary s p ≡ true
      → is_char_boundary (substitute w s p cs es) 0 ≡ true
  substitute-boundary p [] [] h a b =
      sym (boundary_at s (drop p s) p h) ∙ ap (λ r. is_char_boundary r p) (take-append-drop p s) ∙ b
  substitute-boundary p [] (e ∷ es) h a b = elim a [ ]
  substitute-boundary p (c ∷ cs) [] h a b = elim a [ ]
  substitute-boundary p (c ∷ cs) (e ∷ es) (h, k, l, m, rest) a b =
      let fits : c.start_pos ≤ length s = omega (arith, AreSpans-le s c.end_pos cs rest) in
      let tail : Bytes = format_embeddings_as_vector w e ++ substitute w s c.end_pos cs es in
      let moved : is_char_boundary (substitute w s p (c ∷ cs) (e ∷ es)) 0
          ≡ is_char_boundary (take c.start_pos s ++ tail) p =
        sym (boundary_at s _ p (omega arith))
        ∙ ap (λ r. is_char_boundary r p) (substitute-cons p c cs e es h) in
      moved ∙ elim (dec_lt p c.start_pos) [
        | yes before ↦ boundary_before s tail c.start_pos p fits before ∙ b
        | no same ↦
            let e' : p ≡ c.start_pos = omega arith in
            ap (is_char_boundary (take c.start_pos s ++ tail)) e'
            ∙ boundary_at s tail c.start_pos fits
            ∙ format-boundary w e _
      ]

  replace_calls-append :
      (r : Bytes) (cs : List EmbedCall) (c : EmbedCall)
      → replace_calls w jobmap r (cs ++ c ∷ [])
        ≡ (replace_calls w jobmap r cs >>= λ q. replace_calls w jobmap q (c ∷ []))
  unfolding replace_calls
  replace_calls-append r [] c = refl
  replace_calls-append r (d ∷ cs) c =
      >>=_cong (generate_embeddings w jobmap d.query d.project_name) (λ e.
        >>=_cong (replace_range r d.start_pos d.end_pos (format_embeddings_as_vector w e))
          (λ q. replace_calls-append q cs c)
        ∙ sym (
            >>=_assoc (replace_range r d.start_pos d.end_pos (format_embeddings_as_vector w e)) _
              _))
      ∙ sym (>>=_assoc (generate_embeddings w jobmap d.query d.project_name) _ _)

  replace_calls_one :
      (x : Bytes) (c : EmbedCall) (e : List Float)
      → generate_embeddings w jobmap c.query c.project_name ≡ ok e
      → c.start_pos ≤ c.end_pos
      → c.end_pos ≤ length s
      → is_char_boundary s c.start_pos ≡ true
      → is_char_boundary x 0 ≡ true
      → replace_calls w jobmap (take c.end_pos s ++ x) (c ∷ [])
        ≡ ok (take c.start_pos s ++ (format_embeddings_as_vector w e ++ x))
  unfolding replace_calls
  replace_calls_one x c e g h k l m =
      rw (g, replace_range-cut s x c.start_pos c.end_pos (format_embeddings_as_vector w e) h k l m)

  -- The calls are replaced from the last to the first, so that the positions of those that remain
  -- stay right: the result is the text with all of them replaced at once.
  replace_calls-substitute :
      (p : ℕ) (cs : List EmbedCall) (es : List (List Float))
      → AreSpans s p cs
      → Answers w jobmap cs es
      → replace_calls w jobmap s (reverse cs) ≡ ok (take p s ++ substitute w s p cs es)
  replace_calls-substitute p [] [] h a = unfold replace_calls in ap ok (sym (take-append-drop p s))
  replace_calls-substitute p [] (e ∷ es) h a = elim a [ ]
  replace_calls-substitute p (c ∷ cs) [] h a = elim a [ ]
  replace_calls-substitute p (c ∷ cs) (e ∷ es) (h, k, l, m, rest) (g, a) =
      rw (reverse-cons, replace_calls-append, replace_calls-substitute c.end_pos cs es rest a)
        (replace_calls_one _ c e g k (AreSpans-le s c.end_pos cs rest) l
            (substitute-boundary c.end_pos cs es rest a m)
          ∙ ap ok (sym (substitute-cons p c cs e es h)))

-- A query whose calls lie one behind the other between characters, and for each of which the service
-- answers, is rewritten to the text with every call replaced by its embedding and all else kept; a
-- query with no call is returned as it is. The rewriting does not panic.
pub rewrite_query_with_embeddings_lem :
    (w : World) (jobmap : Map VectorizeJob) (sql : Bytes) (cs : List EmbedCall)
    (es : List (List (World.Float w)))
    → parse_embed_calls w sql ≡ ok cs
    → AreSpans sql 0 cs
    → Answers w jobmap cs es
    → rewrite_query_with_embeddings w jobmap sql ≡ ok (substitute w sql 0 cs es)
unfolding rewrite_query_with_embeddings
rewrite_query_with_embeddings_lem w jobmap sql [] es parsed h a =
    rw (parsed, rewrite_query_with_embeddings)
rewrite_query_with_embeddings_lem w jobmap sql (c ∷ cs) es parsed h a =
    rw (parsed, rewrite_query_with_embeddings)
      (replace_calls-substitute w jobmap sql 0 (c ∷ cs) es h a)
