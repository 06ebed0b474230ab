-- ===== src/Extension/Hybrid/Sorted.antt =====
-- extension/src/search.rs: the order of the results of the hybrid search.
use mathlib.Core.Ordering.{Ordering, lt, eq, gt, lt≢gt, eq≢gt}
use mathlib.Core.List.{Perm}
use mathlib.Core.List.Perm
use mathlib.Core.Option.{some-injective}
use pg_vectorize.Base.{
  List, [], ◌∷◌, All, Option, none, some, ◌≡◌, ◌≢◌, refl, Bytes, map, take, ap, ◌∙◌, sym,
}
use pg_vectorize.Base.Int.{ℤ, i32_as_usize}
use pg_vectorize.Base.Exec.{ok, ◌>>=◌}
use pg_vectorize.Base.Map.{Map}
use pg_vectorize.Extension.Hybrid.{
  Libraries, AllResults, scored, place, sort_by_score, with_scores, combined_results, fused_results,
}

module _ {Float : Type 0} (libraries : Libraries Float) where
  -- The score of `b` does not count as higher than the one of `a`.
  abbrev pub NotAbove : AllResults Float → AllResults Float → Type 0
  NotAbove b a = libraries.partial_cmp b.rrf_score a.rrf_score ≢ some gt

  abbrev pub Bounded : Option (AllResults Float) → AllResults Float → Type 0
  Bounded none a = Unit
  Bounded (some b) a = NotAbove a b

  -- No score is higher than the one before it, the first one's being that of the first argument.
  abbrev pub DescendsFrom : Option (AllResults Float) → List (AllResults Float) → Type 0
  DescendsFrom bound [] = Unit
  DescendsFrom bound (a ∷ results) = Bounded bound a × DescendsFrom (some a) results

  abbrev pub Descends : List (AllResults Float) → Type 0
  Descends = DescendsFrom none

  place-gt :
      (a b : AllResults Float) (results behind : List (AllResults Float))
      → libraries.partial_cmp b.rrf_score a.rrf_score ≡ some gt
      → place libraries a results ≡ ok behind
      → place libraries a (b ∷ results) ≡ ok (b ∷ behind)
  unfolding place
  place-gt a b results behind e placed = rw (e, place, placed)

  place-here :
      (a b : AllResults Float) (results : List (AllResults Float)) (o : Ordering)
      → libraries.partial_cmp b.rrf_score a.rrf_score ≡ some o
      → o ≢ gt
      → place libraries a (b ∷ results) ≡ ok (a ∷ b ∷ results)
  unfolding place
  place-here a b results lt e other = rw (e, place)
  place-here a b results eq e other = rw (e, place)
  place-here a b results gt e other = absurd (other refl)

  -- Two numbers can be compared, which a NaN cannot, and only one of two is the higher one.
  module _ (IsNumber : Float → Type 0)
      (comparable : (x y : Float)
        → IsNumber x
        → IsNumber y
        → (o : Ordering) × (libraries.partial_cmp x y ≡ some o))
      (asymmetric : (x y : Float)
        → libraries.partial_cmp x y ≡ some gt
        → libraries.partial_cmp y x ≢ some gt) where
    abbrev pub Numbered : List (AllResults Float) → Type 0
    Numbered = All λ r. IsNumber r.rrf_score

    abbrev Placed : Option (AllResults Float) → AllResults Float → List (AllResults Float) → Type 0
    Placed bound a results =
        (behind : List (AllResults Float)) × (place libraries a results ≡ ok behind)
        × Perm behind (a ∷ results)
        × DescendsFrom bound behind
        × Numbered behind

    place-Places :
        (bound : Option (AllResults Float)) (a : AllResults Float)
        (results : List (AllResults Float))
        → DescendsFrom bound results
        → Bounded bound a
        → IsNumber a.rrf_score
        → Numbered results
        → Placed bound a results
    unfolding place
    place-Places bound a [] sorted below number numbers =
        (a ∷ [], refl, Perm.refl _, (below, tt), (number, tt))
    place-Places bound a (b ∷ results) (first, sorted) below number (number_b, numbers) =
        compared (comparable b.rrf_score a.rrf_score number_b number)
          λ below_b. place-Places (some b) a results sorted below_b number numbers
      where
        here :
            (o : Ordering)
            → libraries.partial_cmp b.rrf_score a.rrf_score ≡ some o
            → o ≢ gt
            → Placed bound a (b ∷ results)
        here o e other = (
          a ∷ b ∷ results,
          place-here a b results o e other,
          Perm.refl _,
          (below, (λ above. other (some-injective _ _ (sym e ∙ above)), sorted)),
          (number, (number_b, numbers)),
        )

        compared :
            (o : Ordering) × (libraries.partial_cmp b.rrf_score a.rrf_score ≡ some o)
            → (NotAbove a b → Placed (some b) a results)
            → Placed bound a (b ∷ results)
        compared (lt, e) further = here lt e lt≢gt
        compared (eq, e) further = here eq e eq≢gt
        compared (gt, e) further =
            let (behind, placed, perm, descends, all_numbers) =
              further (asymmetric b.rrf_score a.rrf_score e) in
            (
              b ∷ behind,
              place-gt a b results behind e placed,
              Perm.trans (Perm.cons b perm) (Perm.swap a b results),
              (first, descends),
              (number_b, all_numbers),
            )

    -- The sort returns, with the same results and no score above the one before it.
    sort_by_score-Sorts :
        (results : List (AllResults Float))
        → Numbered results
        → (sorted : List (AllResults Float)) × (sort_by_score libraries results ≡ ok sorted)
          × Perm sorted results
          × Descends sorted
          × Numbered sorted
    unfolding sort_by_score
    sort_by_score-Sorts [] numbers = ([], refl, Perm.refl [], tt, tt)
    sort_by_score-Sorts (a ∷ results) (number, numbers) =
        let (sorted, e, perm, descends, sorted_numbers) = sort_by_score-Sorts results numbers in
        let (behind, placed, moved, below, all_numbers) =
          place-Places none a sorted descends tt number sorted_numbers in
        (
          behind,
          ap (λ m. m >>= place libraries a) e ∙ placed,
          Perm.trans moved (Perm.cons a perm),
          below,
          all_numbers,
        )

    -- If no score is NaN, the hybrid search returns the first ones of the combined results, each of
    -- them with its score, in an order in which no score is above the one before it.
    pub fused_results-Descends :
        (into_values : Map (AllResults Float) → List (AllResults Float))
        (semantic_weight num_results : ℤ) (full_text_results semantic_results : List Bytes)
        → Numbered (
            map
              (scored libraries semantic_weight)
              (into_values (combined_results libraries full_text_results semantic_results)))
        → (sorted : List (AllResults Float)) × (fused_results libraries into_values semantic_weight
              num_results full_text_results semantic_results
            ≡ ok (take (i32_as_usize num_results) (map (with_scores libraries) sorted)))
          × Perm sorted (
              map
                (scored libraries semantic_weight)
                (into_values (combined_results libraries full_text_results semantic_results)))
          × Descends sorted
    unfolding fused_results
    fused_results-Descends into_values semantic_weight num_results full_text_results
          semantic_results numbers =
        let (sorted, e, perm, descends, sorted_numbers) =
          sort_by_score-Sorts
            (map (scored libraries semantic_weight)
              (into_values (combined_results libraries full_text_results semantic_results)))
            numbers in
        (
          sorted,
          ap (λ m. m >>= λ s. ok (take (i32_as_usize num_results) (map (with_scores libraries) s)))
              e,
          perm,
          descends,
        )
