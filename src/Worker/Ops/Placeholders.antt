-- ===== src/Worker/Ops/Placeholders.antt =====
-- The placeholders of the upsert statement and the values that are bound to them.
use pg_vectorize.Base.{
  ℕ, zero, suc, ◌+◌, ◌*◌, ◌≡◌, refl, ap, sym, ◌∙◌, arith, true, List, [], ◌∷◌, ◌++◌, append_assoc,
  append-nil, Bytes, codes, concat, map, get_elem?, some, ltb, if◌then◌else◌,
}
use pg_vectorize.Base.Numbers.{decimal}
use pg_vectorize.Base.Text.{join}
use pg_vectorize.Base.Session.{text}
use pg_vectorize.Transformers.{PairedEmbeddings}
use pg_vectorize.Worker.Ops.{
  value_group, upsert_loop, insert_into, on_conflict, build_upsert_query, bound,
}

module _ {Float : Type 0} (serialize : List Float → Bytes) where
  abbrev pub binding : PairedEmbeddings Float → Bytes × Bytes
  binding pair = (pair.primary_key, serialize pair.embeddings)

  -- The groups from `index` on, each behind a comma.
  abbrev more_groups : Bytes → ℕ → List (PairedEmbeddings Float) → Bytes
  more_groups pkey_type index [] = []
  more_groups pkey_type index (p ∷ ps) =
      codes "," ++ (value_group serialize pkey_type index ++ more_groups pkey_type (index + 1) ps)

  upsert_loop_bindings :
      (pkey_type : Bytes) (index : ℕ) (query : Bytes) (bindings : List (Bytes × Bytes))
      (ps : List (PairedEmbeddings Float))
      → (upsert_loop serialize pkey_type index query bindings ps).1 ≡ bindings ++ map binding ps
  unfolding upsert_loop
  upsert_loop_bindings pkey_type index query bindings [] = sym (append-nil bindings)
  upsert_loop_bindings pkey_type index query bindings (p ∷ ps) =
      upsert_loop_bindings pkey_type (index + 1) _ (bindings ++ binding p ∷ []) ps
      ∙ append_assoc bindings (binding p ∷ []) (map binding ps)

  upsert_loop_query :
      (pkey_type : Bytes) (index : ℕ) (query : Bytes) (bindings : List (Bytes × Bytes))
      (ps : List (PairedEmbeddings Float))
      → ltb 0 index ≡ true
      → (upsert_loop serialize pkey_type index query bindings ps).0
        ≡ query ++ more_groups pkey_type index ps
  unfolding upsert_loop
  upsert_loop_query pkey_type index query bindings [] h = sym (append-nil query)
  upsert_loop_query pkey_type index query bindings (p ∷ ps) h =
      ap
        (λ q.
          (upsert_loop serialize pkey_type (index + 1) (q ++ value_group serialize pkey_type index)
            (bindings ++ binding p ∷ []) ps).0)
        (later query h)
      ∙ (upsert_loop_query pkey_type (index + 1) _ _ ps (ground arith)
          ∙ (append_assoc (query ++ codes ",") (value_group serialize pkey_type index) _
              ∙ append_assoc query (codes ",") _))
    where
      later :
          (query : Bytes)
          → ltb 0 index ≡ true
          → (if ltb 0 index then query ++ codes "," else query) ≡ query ++ codes ","
      later query h = rw h

  -- The groups from `index` on: two numbered placeholders each.
  abbrev pub groups : Bytes → ℕ → List (PairedEmbeddings Float) → List Bytes
  groups pkey_type index [] = []
  groups pkey_type index (p ∷ ps) =
      concat (
        codes " ($"
        ∷ decimal (2 * index + 1)
        ∷ codes "::"
        ∷ pkey_type
        ∷ codes ", $"
        ∷ decimal (2 * index + 2)
        ∷ codes "::vector)"
        ∷ [])
      ∷ groups pkey_type (index + 1) ps

  join-groups :
      (pkey_type : Bytes) (index : ℕ) (g : Bytes) (ps : List (PairedEmbeddings Float))
      → join (codes ",") (g ∷ groups pkey_type index ps) ≡ g ++ more_groups pkey_type index ps
  unfolding join value_group
  join-groups pkey_type index g [] = sym (append-nil g)
  join-groups pkey_type index g (p ∷ ps) =
      ap (λ r. g ++ (codes "," ++ r))
        (join-groups pkey_type (index + 1) (value_group serialize pkey_type index) ps)

  values_query :
      (pkey_type start : Bytes) (ps : List (PairedEmbeddings Float))
      → (upsert_loop serialize pkey_type 0 start [] ps).0
        ≡ start ++ join (codes ",") (groups pkey_type 0 ps)
  unfolding upsert_loop join value_group
  values_query pkey_type start [] = sym (append-nil start)
  values_query pkey_type start (p ∷ ps) =
      upsert_loop_query pkey_type 1 _ _ ps refl
      ∙ (append_assoc start (value_group serialize pkey_type 0) _
          ∙ ap (λ r. start ++ r)
              (sym (join-groups pkey_type 1 (value_group serialize pkey_type 0) ps)))

  double-suc : (i : ℕ) → 2 * suc i ≡ suc (suc (2 * i))
  double-suc i = omega arith

  odd-suc : (i : ℕ) → 2 * suc i + 1 ≡ suc (suc (2 * i + 1))
  odd-suc i = omega arith

  bound-get :
      (ps : List (PairedEmbeddings Float)) (i : ℕ) (p : PairedEmbeddings Float)
      → get_elem? ps i ≡ some p
      → (get_elem? (bound serialize (map binding ps)) (2 * i) ≡ some (text p.primary_key))
        × (get_elem? (bound serialize (map binding ps)) (2 * i + 1)
            ≡ some (text (serialize p.embeddings)))
  unfolding bound
  bound-get [] i p e = cc
  bound-get (q ∷ ps) zero p e =
      let same : q ≡ p = cc in
      (
        ap (λ (r : PairedEmbeddings Float). some (text r.primary_key)) same,
        ap (λ (r : PairedEmbeddings Float). some (text (serialize r.embeddings))) same,
      )
  bound-get (q ∷ ps) (suc i) p e =
      let (key, vector) = bound-get ps i p e in
      (
        ap (get_elem? (bound serialize (map binding (q ∷ ps)))) (double-suc i) ∙ key,
        ap (get_elem? (bound serialize (map binding (q ∷ ps)))) (odd-suc i) ∙ vector,
      )

  -- The upsert statement holds one group of placeholders for each pair, with a comma between two, and
  -- the key and the serialized embedding of pair `i` are bound as the values `2 * i` and `2 * i + 1`,
  -- counted from 0, which its group of placeholders numbers from 1.
  pub build_upsert_query-placeholders :
      (project pkey pkey_type schema : Bytes) (ps : List (PairedEmbeddings Float))
      → ((build_upsert_query serialize project ps pkey pkey_type schema).0
          ≡ (insert_into serialize project pkey schema ++ join (codes ",") (groups pkey_type 0 ps))
            ++ on_conflict serialize pkey)
        × ((i : ℕ) (p : PairedEmbeddings Float)
            → get_elem? ps i ≡ some p
            → (get_elem?
                  (bound serialize
                    (build_upsert_query serialize project ps pkey pkey_type schema).1)
                  (2 * i)
                ≡ some (text p.primary_key))
              × (get_elem?
                    (bound serialize
                      (build_upsert_query serialize project ps pkey pkey_type schema).1)
                    (2 * i + 1)
                  ≡ some (text (serialize p.embeddings))))
  unfolding build_upsert_query
  build_upsert_query-placeholders project pkey pkey_type schema ps =
      let bindings =
        upsert_loop_bindings pkey_type 0 (insert_into serialize project pkey schema) [] ps in
      (
        ap (λ q. q ++ on_conflict serialize pkey)
            (values_query pkey_type (insert_into serialize project pkey schema) ps),
        λ i p e. rw bindings (bound-get ps i p e),
      )
