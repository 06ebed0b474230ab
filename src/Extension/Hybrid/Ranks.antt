-- ===== src/Extension/Hybrid/Ranks.antt =====
-- extension/src/search.rs: which results the hybrid search combines, and the ranks that they get.
use pg_vectorize.Base.{
  ℕ, ◌+◌, List, [], ◌∷◌, Option, none, some, ◌≡◌, refl, Bytes, text_eq, text_eq_iff, Bool, true,
  false, Bool-cases, inl, inr, ap, ◌∙◌,
}
use pg_vectorize.Base.Int.{ℤ, pos, wrap_i32}
use pg_vectorize.Base.Map.{Map, get, insert, get-insert}
use pg_vectorize.Extension.Hybrid.{
  Libraries, AllResults, zero_score, with_full_text, with_semantic, add_full_text, add_semantic,
  combined_results,
}

-- The position of the last occurrence of a document in a list that begins at the position `i`.
abbrev pub last_position : Bytes → ℕ → List Bytes → Option ℤ
last_position document i [] = none
last_position document i (d ∷ results) = elim (last_position document (i + 1) results) [
  | some rank ↦ some rank
  | none ↦ elim (text_eq d document) [ true ↦ some (wrap_i32 (pos i)) | false ↦ none ]
]

module _ {Float : Type 0} (libraries : Libraries Float) where
  -- What a loop makes of an entry whose last position is the first argument.
  abbrev marked_full_text : Option ℤ → Bytes → Option (AllResults Float) → Option (AllResults Float)
  marked_full_text none document entry = entry
  marked_full_text (some rank) document entry = some (with_full_text libraries document rank entry)

  abbrev marked_semantic : Option ℤ → Bytes → Option (AllResults Float) → Option (AllResults Float)
  marked_semantic none document entry = entry
  marked_semantic (some rank) document entry = some (with_semantic libraries document rank entry)

  -- The entry of a document with its two ranks, if it has one.
  abbrev pub entry_of : Bytes → (full_text semantic : Option ℤ) → Option (AllResults Float)
  entry_of document none none = none
  entry_of document (some f) s = some (record {
    data_of = document;
    full_text_rank = some f;
    semantic_rank = s;
    rrf_score = zero_score libraries;
  })
  entry_of document none (some s) = some (record {
    data_of = document;
    full_text_rank = none;
    semantic_rank = some s;
    rrf_score = zero_score libraries;
  })

  twice_full_text :
      (last : Option ℤ) (document : Bytes) (r : ℤ) (entry : Option (AllResults Float))
      → marked_full_text last document (some (with_full_text libraries document r entry))
        ≡ marked_full_text (elim last [ some rank ↦ some rank | none ↦ some r ]) document entry
  unfolding with_full_text
  twice_full_text none document r entry = refl
  twice_full_text (some rank) document r none = refl
  twice_full_text (some rank) document r (some entry) = refl

  twice_semantic :
      (last : Option ℤ) (document : Bytes) (r : ℤ) (entry : Option (AllResults Float))
      → marked_semantic last document (some (with_semantic libraries document r entry))
        ≡ marked_semantic (elim last [ some rank ↦ some rank | none ↦ some r ]) document entry
  unfolding with_semantic
  twice_semantic none document r entry = refl
  twice_semantic (some rank) document r none = refl
  twice_semantic (some rank) document r (some entry) = refl

  -- The last position, where the round at hand has the position `r` and concerns the document if `b`.
  abbrev from_here : Option ℤ → Bool → ℤ → Option ℤ
  from_here last b r = elim last [
    | some rank ↦ some rank
    | none ↦ elim b [ true ↦ some r | false ↦ none ]
  ]

  from_here-false : (last : Option ℤ) (r : ℤ) → last ≡ from_here last false r
  from_here-false (some rank) r = refl
  from_here-false none r = refl

  -- One round of a loop, where the rounds behind it give the last position `last`.
  round :
      (marked : Option ℤ → Bytes → Option (AllResults Float) → Option (AllResults Float))
      (with_rank : Bytes → ℤ → Option (AllResults Float) → AllResults Float) (last : Option ℤ)
      (d document : Bytes) (r : ℤ) (combined : Map (AllResults Float))
      → ((entry : Option (AllResults Float))
          → marked last document (some (with_rank document r entry))
            ≡ marked (from_here last true r) document entry)
      → marked last document (get document (insert d (with_rank d r (get d combined)) combined))
        ≡ marked (from_here last (text_eq d document) r) document (get document combined)
  round marked with_rank last d document r combined twice =
      ap (marked last document) (get-insert d document (with_rank d r (get d combined)) combined)
      ∙ elim (Bool-cases (text_eq d document)) [
        | inl e ↦ rw (e, (text_eq_iff d document).0 e) (twice (get document combined))
        | inr e ↦
            rw e (ap (λ p. marked p document (get document combined)) (from_here-false last r))
      ]

  get-add_full_text :
      (document : Bytes) (i : ℕ) (results : List Bytes) (combined : Map (AllResults Float))
      → get document (add_full_text libraries i results combined)
        ≡ marked_full_text (last_position document i results) document (get document combined)
  unfolding add_full_text
  get-add_full_text document i [] combined = refl
  get-add_full_text document i (d ∷ results) combined =
      get-add_full_text document (i + 1) results
        (insert d (with_full_text libraries d (wrap_i32 (pos i)) (get d combined)) combined)
      ∙ round marked_full_text (with_full_text libraries) (last_position document (i + 1) results) d
          document (wrap_i32 (pos i)) combined
          (twice_full_text (last_position document (i + 1) results) document (wrap_i32 (pos i)))

  get-add_semantic :
      (document : Bytes) (i : ℕ) (results : List Bytes) (combined : Map (AllResults Float))
      → get document (add_semantic libraries i results combined)
        ≡ marked_semantic (last_position document i results) document (get document combined)
  unfolding add_semantic
  get-add_semantic document i [] combined = refl
  get-add_semantic document i (d ∷ results) combined =
      get-add_semantic document (i + 1) results
        (insert d (with_semantic libraries d (wrap_i32 (pos i)) (get d combined)) combined)
      ∙ round marked_semantic (with_semantic libraries) (last_position document (i + 1) results) d
          document (wrap_i32 (pos i)) combined
          (twice_semantic (last_position document (i + 1) results) document (wrap_i32 (pos i)))

  marked-entry_of :
      (f s : Option ℤ) (document : Bytes)
      → marked_semantic s document (marked_full_text f document none) ≡ entry_of document f s
  unfolding with_full_text with_semantic
  marked-entry_of none none document = refl
  marked-entry_of none (some s) document = refl
  marked-entry_of (some f) none document = refl
  marked-entry_of (some f) (some s) document = refl

  -- A document has an entry exactly if it is in one of the two lists, and each of its ranks is its last
  -- position in that list, counted from 0, as an i32; a list that it is not in gives no rank.
  pub get-combined_results :
      (document : Bytes) (full_text_results semantic_results : List Bytes)
      → get document (combined_results libraries full_text_results semantic_results)
        ≡ entry_of document
            (last_position document 0 full_text_results)
            (last_position document 0 semantic_results)
  unfolding combined_results
  get-combined_results document full_text_results semantic_results =
      get-add_semantic document 0 semantic_results (add_full_text libraries 0 full_text_results [])
      ∙ (ap (marked_semantic (last_position document 0 semantic_results) document)
            (get-add_full_text document 0 full_text_results [])
          ∙ marked-entry_of (last_position document 0 full_text_results)
              (last_position document 0 semantic_results) document)
