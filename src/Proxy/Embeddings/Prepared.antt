-- ===== src/Proxy/Embeddings/Prepared.antt =====
-- The calls of prepared statements, `vectorize.embed($1, $2)`.
use pg_vectorize.Base.{
  ℕ, ◌≡◌, refl, sym, ap, ◌∙◌, arith, Bool, true, false, ◌||◌, List, [], ◌∷◌, ◌++◌, none, Bytes,
  codes, is_empty, any, All, append-nil, append_assoc,
}
use mathlib.Core.Path.{subst}
use mathlib.Core.Bool.{false≢true}
use mathlib.Core.List.{reverse, reverse-append}
use pg_vectorize.Base.Exec.{Exec, ok, err, >>=-eq-ok, ok-injective, job_not_found}
use pg_vectorize.Base.Map.{Map, get}
use pg_vectorize.Types.{VectorizeJob}
use pg_vectorize.Proxy.Embeddings.{
  World, EmbedCall, generate_embeddings, string_calls, param_calls, parse_embed_calls,
  replace_calls, rewrite_query_with_embeddings,
}

-- A call of a prepared statement has no text of its own.
abbrev pub IsBlank : EmbedCall → Type 0
IsBlank c = (c.is_prepared ≡ true) × (c.query ≡ []) × (c.project_name ≡ [])

-- What holds of every call of a result.
abbrev Yields : (EmbedCall → Type 0) → Exec (List EmbedCall) → Type 0
Yields P (ok cs) = All P cs
Yields P _ = Unit

-- A list that is not empty, by its last element.
unsnoc :
    (P : EmbedCall → Type 0) (c : EmbedCall) (cs : List EmbedCall)
    → All P (c ∷ cs)
    → (ds : List EmbedCall) × (d : EmbedCall) × (c ∷ cs ≡ ds ++ d ∷ []) × P d
unsnoc P c [] (h, _) = ([], c, refl, h)
unsnoc P c (d ∷ cs) (h, hs) =
    let (ds, e, split, k) = unsnoc P d cs hs in (c ∷ ds, e, ap (◌∷◌ c) split, k)

any-append :
    (p : EmbedCall → Bool) (xs ys : List EmbedCall) → any p (xs ++ ys) ≡ (any p xs || any p ys)
any-append p [] ys = refl
any-append p (x ∷ xs) ys = ground (arith, any-append p xs ys)

is_empty-append : (xs : List EmbedCall) (y : EmbedCall) → is_empty (xs ++ y ∷ []) ≡ false
is_empty-append [] y = refl
is_empty-append (x ∷ xs) y = refl

module _ (w : World) where
  param_calls-IsBlank : (sql : Bytes) (ms : List (ℕ × ℕ)) → Yields IsBlank (param_calls w sql ms)
  unfolding param_calls
  param_calls-IsBlank sql [] = tt
  param_calls-IsBlank sql ((a, b) ∷ ms) = ground (arith, param_calls-IsBlank sql ms)

  string_calls-any :
      (sql : Bytes) (ms : List (ℕ × ℕ)) → any (λ c. c.is_prepared) (string_calls w sql ms) ≡ false
  unfolding string_calls
  string_calls-any sql [] = refl
  string_calls-any sql ((a, b) ∷ ms) = ground (arith, string_calls-any sql ms)

  -- The calls of a query, with the prepared ones behind.
  parse_embed_calls-parts :
      (sql : Bytes) (cs : List EmbedCall)
      → parse_embed_calls w sql ≡ ok cs
      → any (λ c. c.is_prepared) cs ≡ true
      → (ds : List EmbedCall) × (c : EmbedCall) × (cs ≡ ds ++ c ∷ []) × IsBlank c
  unfolding parse_embed_calls
  parse_embed_calls-parts sql cs e h =
      let (ps, parsed_ps, made) =
        >>=-eq-ok (param_calls w sql ((World.param_re w).find_iter sql)) _ e in
      go ps
        (subst (Yields IsBlank) parsed_ps
          (param_calls-IsBlank sql ((World.param_re w).find_iter sql)))
        (ok-injective made)
    where
      strings : List EmbedCall
      strings = string_calls w sql ((World.string_re w).find_iter sql)

      go :
          (ps : List EmbedCall)
          → All IsBlank ps
          → strings ++ ps ≡ cs
          → (ds : List EmbedCall) × (c : EmbedCall) × (cs ≡ ds ++ c ∷ []) × IsBlank c
      go [] blank made = absurd (
          false≢true (
            sym (string_calls-any sql ((World.string_re w).find_iter sql))
            ∙ ap (any (λ c. c.is_prepared)) (sym (append-nil strings) ∙ made)
            ∙ h))
      go (p ∷ ps) blank made =
          let (ds, c, split, b) = unsnoc IsBlank p ps blank in
          (
            strings ++ ds,
            c,
            sym made ∙ ap (λ r. strings ++ r) split ∙ sym (append_assoc strings ds (c ∷ [])),
            b,
          )

  replace_calls-absent :
      (jobmap : Map VectorizeJob) (r : Bytes) (c : EmbedCall) (cs : List EmbedCall)
      → c.project_name ≡ []
      → get [] jobmap ≡ none
      → replace_calls w jobmap r (c ∷ cs)
        ≡ err (job_not_found (codes "Project '' not found in jobmap cache"))
  unfolding replace_calls generate_embeddings
  replace_calls-absent jobmap r c cs project absent =
      simp project (rw (absent, generate_embeddings))

  -- A query that holds a call of a prepared statement is never rewritten, whatever the service
  -- answers: unless a job is named by the empty text, the rewriting ends in the error that the
  -- project '' is not found.
  pub rewrite_query_with_embeddings-prepared :
      (jobmap : Map VectorizeJob) (sql : Bytes) (cs : List EmbedCall)
      → parse_embed_calls w sql ≡ ok cs
      → any (λ c. c.is_prepared) cs ≡ true
      → get [] jobmap ≡ none
      → rewrite_query_with_embeddings w jobmap sql
        ≡ err (job_not_found (codes "Project '' not found in jobmap cache"))
  unfolding rewrite_query_with_embeddings
  rewrite_query_with_embeddings-prepared jobmap sql cs e h absent =
      let (ds, c, split, (_, query, project)) = parse_embed_calls-parts sql cs e h in
      rw (e, rewrite_query_with_embeddings, split, is_empty-append, reverse-append)
        (replace_calls-absent jobmap sql c (reverse ds) project absent)
