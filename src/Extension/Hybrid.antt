-- ===== src/Extension/Hybrid.antt =====
-- extension/src/search.rs: how the hybrid search makes one list of the results of a full-text search
-- and of a semantic search. A result is a document, given by its text.
pub mod Ranks
pub mod Sorted
use mathlib.Core.Ordering.{Ordering, gt}
use pg_vectorize.Base.{ℕ, ◌+◌, List, [], ◌∷◌, Option, none, some, Bytes, codes, map, take}
use pg_vectorize.Base.Int.{ℤ, pos, wrap_i32, i32_as_usize}
use pg_vectorize.Base.Exec.{Exec, ok, panicked, ◌>>=◌}
use pg_vectorize.Base.Map.{Map, get, insert}

-- `f32`, as far as it is used, and a document with a field set to a value's text.
pub record Libraries (Float : Type 0) : Type 0 where
  pub of_i32 : ℤ → Float
  pub add : Float → Float → Float
  pub subtract : Float → Float → Float
  pub multiply : Float → Float → Float
  pub divide : Float → Float → Float
  pub partial_cmp : Float → Float → Option Ordering
  pub set_rank : Bytes → Bytes → Option ℤ → Bytes
  pub set_score : Bytes → Bytes → Float → Bytes

pub record AllResults (Float : Type 0) : Type 0 where
  pub data_of : Bytes
  pub full_text_rank : Option ℤ
  pub semantic_rank : Option ℤ
  pub rrf_score : Float

module _ {Float : Type 0} (libraries : Libraries Float) where
  -- `rank` is 60 places down.
  unfoldable pub rrf_score : Option ℤ → Float
  rrf_score (some rank) =
      libraries.divide (libraries.of_i32 (pos 1))
        (libraries.add (libraries.of_i32 rank) (libraries.of_i32 (pos 60)))
  rrf_score none = libraries.of_i32 (pos 0)

  abbrev pub zero_score : Float
  zero_score = libraries.of_i32 (pos 0)

  -- `entry(document).and_modify(..).or_insert(..)` of the first loop and of the second.
  unfoldable pub with_full_text : Bytes → ℤ → Option (AllResults Float) → AllResults Float
  with_full_text document rank (some entry) = record entry { full_text_rank = some rank }
  with_full_text document rank none = record {
    data_of = document;
    full_text_rank = some rank;
    semantic_rank = none;
    rrf_score = zero_score;
  }

  unfoldable pub with_semantic : Bytes → ℤ → Option (AllResults Float) → AllResults Float
  with_semantic document rank (some entry) = record entry { semantic_rank = some rank }
  with_semantic document rank none = record {
    data_of = document;
    full_text_rank = none;
    semantic_rank = some rank;
    rrf_score = zero_score;
  }

  -- The two loops from the position `i` on.
  unfoldable pub add_full_text : ℕ → List Bytes → Map (AllResults Float) → Map (AllResults Float)
  unfolding with_full_text insert get
  add_full_text i [] combined = combined
  add_full_text i (document ∷ results) combined = add_full_text (i + 1) results (
      insert document (with_full_text document (wrap_i32 (pos i)) (get document combined)) combined)

  unfoldable pub add_semantic : ℕ → List Bytes → Map (AllResults Float) → Map (AllResults Float)
  unfolding with_semantic insert get
  add_semantic i [] combined = combined
  add_semantic i (document ∷ results) combined =
      add_semantic (i + 1) results (
        insert document (with_semantic document (wrap_i32 (pos i)) (get document combined))
          combined)

  unfoldable pub combined_results : (full_text semantic : List Bytes) → Map (AllResults Float)
  unfolding add_full_text add_semantic
  combined_results full_text_results semantic_results =
      add_semantic 0 semantic_results (add_full_text 0 full_text_results [])

  -- The loop that sets the scores; the weight is in per cent.
  unfoldable pub scored : ℤ → AllResults Float → AllResults Float
  unfolding rrf_score
  scored semantic_weight result =
      let share =
        libraries.divide (libraries.of_i32 semantic_weight) (libraries.of_i32 (pos 100)) in
      let ft_score =
        libraries.multiply (libraries.subtract (libraries.of_i32 (pos 1)) share)
          (rrf_score result.full_text_rank) in
      let s_score = libraries.multiply share (rrf_score result.semantic_rank) in
      record result { rrf_score = libraries.add ft_score s_score }

  -- `sort_by` is stable: an element goes in front of the first that has no higher score. A pair that
  -- cannot be compared panics (`unwrap`).
  unfoldable pub place : AllResults Float → List (AllResults Float) → Exec (List (AllResults Float))
  place a [] = ok (a ∷ [])
  place a (b ∷ results) =
      let behind = place a results in
      elim (libraries.partial_cmp b.rrf_score a.rrf_score) [
        | none ↦ panicked
        | some gt ↦ behind >>= λ sorted. ok (b ∷ sorted)
        | some _ ↦ ok (a ∷ b ∷ results)
      ]

  unfoldable pub sort_by_score : List (AllResults Float) → Exec (List (AllResults Float))
  unfolding place
  sort_by_score [] = ok []
  sort_by_score (a ∷ results) = sort_by_score results >>= place a

  unfoldable pub with_scores : AllResults Float → Bytes
  with_scores res =
      libraries.set_score
        (libraries.set_rank
          (libraries.set_rank res.data_of (codes "full_text_rank") res.full_text_rank)
          (codes "semantic_rank") res.semantic_rank)
        (codes "rrf_score") res.rrf_score

  -- From the two lists on. `into_values` gives the entries of the map in an order of its own.
  unfoldable pub fused_results :
      (into_values : Map (AllResults Float) → List (AllResults Float))
      → (semantic_weight num_results : ℤ) → (full_text semantic : List Bytes) → Exec (List Bytes)
  unfolding combined_results scored sort_by_score with_scores i32_as_usize
  fused_results into_values semantic_weight num_results full_text_results semantic_results =
      sort_by_score (
        map (scored semantic_weight)
          (into_values (combined_results full_text_results semantic_results)))
      >>= λ sorted. ok (take (i32_as_usize num_results) (map with_scores sorted))
