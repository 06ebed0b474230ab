-- ===== src/Examples/Ranks.antt =====
-- Results of two searches that are made one.
use mathlib.Core.Ordering.{Ordering, lt, eq, gt, lt≢gt, eq≢gt}
use mathlib.Core.List.{Perm}
use mathlib.Core.Option.{some-injective}
use pg_vectorize.Base.{
  if◌then◌else◌, ℕ, ◌+◌, ◌-◌, ◌*◌, ◌/◌, ◌≡◌, ◌≢◌, refl, some, none, List, [], ◌∷◌, ◌++◌, Bytes,
  codes, map, take, ltb, Bool-cases, inl, inr, text_eq,
}
use pg_vectorize.Base.Int.{pos, pos_part, wrap_i32, i32_as_usize}
use pg_vectorize.Base.Map.{Map, get, remove}
use pg_vectorize.Base.Exec.{ok}
use pg_vectorize.Extension.Hybrid.{
  Libraries, AllResults, combined_results, scored, with_scores, fused_results,
}
use pg_vectorize.Extension.Hybrid.Ranks.{get-combined_results}
use pg_vectorize.Extension.Hybrid.Sorted.{Descends, fused_results-Descends}

abbrev compare : ℕ → ℕ → Ordering
compare x y = if ltb x y then lt else if ltb y x then gt else eq

-- Numbers without a fraction, of which a quotient is taken in thousandths.
abbrev numbers : Libraries ℕ
numbers = record {
  of_i32 = pos_part;
  add = λ x y. x + y;
  subtract = λ x y. x - y;
  multiply = λ x y. x * y;
  divide = λ x y. 1000 * x / y;
  partial_cmp = λ x y. some (compare x y);
  set_rank = λ document field rank. document ++ field;
  set_score = λ document field score. document ++ field;
}

compare-asymmetric :
    (x y : ℕ) → numbers.partial_cmp x y ≡ some gt → numbers.partial_cmp y x ≢ some gt
compare-asymmetric x y above below = elim (Bool-cases (ltb x y)) [
  | inl e ↦ lt≢gt (some-injective lt gt (rw e at above))
  | inr e ↦ elim (Bool-cases (ltb y x)) [
    | inl f ↦ lt≢gt (some-injective lt gt (rw f at below))
    | inr f ↦ eq≢gt (some-injective eq gt (rw (e, f) at above))
  ]
]

abbrev found_by_text : List Bytes
found_by_text = codes "pen" ∷ codes "cup" ∷ codes "pen" ∷ []

abbrev found_by_meaning : List Bytes
found_by_meaning = codes "cup" ∷ codes "mug" ∷ []

get-combined_results_example :
    get (codes "pen") (combined_results numbers found_by_text found_by_meaning)
    ≡ some (record {
      data_of = codes "pen";
      full_text_rank = some (pos 2);
      semantic_rank = none;
      rrf_score = 0;
    })
unfolding wrap_i32 text_eq
get-combined_results_example =
    get-combined_results numbers (codes "pen") found_by_text found_by_meaning

abbrev values : Map (AllResults ℕ) → List (AllResults ℕ)
values entries = map (λ (e : Bytes × AllResults ℕ). e.1) entries

fused_results-Descends_example :
    (sorted : List (AllResults ℕ)) × (fused_results numbers values
        (pos 50)
        (pos 2)
        found_by_text
        found_by_meaning
      ≡ ok (take 2 (map (with_scores numbers) sorted)))
    × Perm sorted (
        map
          (scored numbers (pos 50))
          (values (combined_results numbers found_by_text found_by_meaning)))
    × Descends numbers sorted
unfolding i32_as_usize combined_results remove text_eq
fused_results-Descends_example =
    fused_results-Descends numbers (λ x. Unit) (λ x y p q. (compare x y, refl)) compare-asymmetric
      values (pos 50) (pos 2) found_by_text found_by_meaning ((tt, (tt, (tt, tt))))
