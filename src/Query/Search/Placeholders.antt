-- ===== src/Query/Search/Placeholders.antt =====
-- The conditions of the filters and the numbers of their placeholders.
use pg_vectorize.Base.{
  ℕ, true, zero, suc, ◌+◌, ◌%◌, ◌^◌, ◌≤◌, ◌<◌, ◌≡◌, refl, ap, sym, ◌∙◌, arith, List, [], ◌∷◌, ◌++◌,
  append-nil, append_assoc, Bytes, codes, concat, length, get_elem?, some, ltb,
}
use pg_vectorize.Base.Numbers.{decimal}
use pg_vectorize.Base.Map.{Map}
use pg_vectorize.Query.Filters.{FilterValue, to_sql}
use pg_vectorize.Query.Search.{display_i16, where_loop, where_filter_from}

display_i16-small : (n : ℕ) → n < 2 ^ 15 → display_i16 n ≡ decimal n
unfolding display_i16
display_i16-small n h = rw (low, test) refl
  where
    low : n % 2 ^ 16 ≡ n
    low = omega arith

    test : ltb n (2 ^ 15) ≡ true
    test = ground arith

module _ {Float : Type 0} where
  -- The condition of a filter with the placeholder `$n`.
  abbrev pub condition : Bytes → FilterValue Float → ℕ → Bytes
  condition column filter n = concat (
      codes " AND t0.\""
      ∷ column
      ∷ codes "\" "
      ∷ to_sql filter.operator
      ∷ codes " $"
      ∷ decimal n
      ∷ [])

  -- The conditions of the filters, whose placeholders are numbered from `n` on.
  abbrev pub conditions : ℕ → Map (FilterValue Float) → List Bytes
  conditions n [] = []
  conditions n ((column, filter) ∷ filters) = condition column filter n ∷ conditions (n + 1) filters

  pub length-conditions :
      (n : ℕ) (filters : Map (FilterValue Float)) → length (conditions n filters) ≡ length filters
  length-conditions n [] = refl
  length-conditions n ((c, f) ∷ filters) = ap suc (length-conditions (n + 1) filters)

  pub conditions-get :
      (n i : ℕ) (column : Bytes) (filter : FilterValue Float) (filters : Map (FilterValue Float))
      → get_elem? filters i ≡ some (column, filter)
      → get_elem? (conditions n filters) i ≡ some (condition column filter (n + i))
  conditions-get n i column filter [] e = cc
  conditions-get n zero column filter ((c, f) ∷ filters) e =
      let same : (c, f) ≡ (column, filter) = cc in
      ap (λ (entry : Bytes × FilterValue Float). some (condition entry.0 entry.1 n)) same
      ∙ ap (λ k. some (condition column filter k)) (omega arith)
  conditions-get n (suc i) column filter ((c, f) ∷ filters) e =
      conditions-get (n + 1) i column filter filters e
      ∙ ap (λ k. some (condition column filter k)) (omega arith)

  where_loop-conditions :
      (n : ℕ) (before : Bytes) (filters : Map (FilterValue Float))
      → n + length filters ≤ 2 ^ 15
      → where_loop n before filters ≡ before ++ concat (conditions n filters)
  unfolding where_loop
  where_loop-conditions n before [] h = sym (append-nil before)
  where_loop-conditions n before ((column, filter) ∷ filters) h =
      where_loop-conditions (n + 1) _ filters (omega arith)
      ∙ (append_assoc before _ (concat (conditions (n + 1) filters))
          ∙ rw (display_i16-small n (omega arith)) refl)

  pub where_filter_from-conditions :
      (n : ℕ) (filters : Map (FilterValue Float))
      → n + length filters ≤ 2 ^ 15
      → where_filter_from n filters ≡ codes "WHERE 1=1" ++ concat (conditions n filters)
  unfolding where_filter_from
  where_filter_from-conditions n filters h = where_loop-conditions n (codes "WHERE 1=1") filters h
