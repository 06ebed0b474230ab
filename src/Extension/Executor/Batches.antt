-- ===== src/Extension/Executor/Batches.antt =====
-- The batches of `batch_texts`.
use mathlib.Core.Path.{subst}
use native.Mathlib.Nat.{lt-div-mul-add, suc-mul, add-mul, zero-mul}
use pg_vectorize.Base.{
  ℕ, zero, suc, ◌+◌, ◌-◌, ◌*◌, ◌≤◌, ◌<◌, ◌≡◌, refl, ap, sym, ◌∙◌, arith, Bool, true, false, ◌||◌,
  ◌==◌, leb, min, List, [], ◌∷◌, ◌++◌, append-nil, concat, length, take, drop, All, drop-drop,
  take-append-drop, length-take, length-drop, if◌then◌else◌,
}
use pg_vectorize.Base.Int.{ℤ, i32_as_usize}
use pg_vectorize.Extension.Executor.{div_ceil, batches_loop, batch_texts}

div_ceil-covers : (m n : ℕ) → 0 < n → m ≤ div_ceil m n * n
div_ceil-covers m n h = omega (arith, lt-div-mul-add {a = m + (n - 1)} {b = n} h)

module _ {ℓ} {A : Type ℓ} where
  take-min : (n : ℕ) (xs : List A) → take (min n (length xs)) xs ≡ take n xs
  take-min zero xs = ap (λ k. take k xs) (zero-min (length xs))
    where
      zero-min : (m : ℕ) → min 0 m ≡ 0
      zero-min m = omega arith
  take-min (suc n) [] = ap (λ k. take k []) (min-zero (suc n))
    where
      min-zero : (m : ℕ) → min m 0 ≡ 0
      min-zero m = omega arith
  take-min (suc n) (x ∷ xs) =
      ap (λ k. take k (x ∷ xs)) (min-suc n (length xs)) ∙ ap (λ ys. x ∷ ys) (take-min n xs)
    where
      min-suc : (a b : ℕ) → min (suc a) (suc b) ≡ suc (min a b)
      min-suc a b = omega arith

  drop-all : (n : ℕ) (xs : List A) → length xs ≤ n → drop n xs ≡ []
  drop-all zero [] h = refl
  drop-all zero (x ∷ xs) h = grind arith
  drop-all (suc n) [] h = refl
  drop-all (suc n) (x ∷ xs) h = drop-all n xs (omega arith)

  -- What the rounds from `i` on take off the rest of the list, which they use up.
  concat-batches_loop :
      (count i n : ℕ) (ids : List A)
      → length ids ≤ i * n + count * n
      → concat (batches_loop count i n ids) ≡ drop (i * n) ids
  unfolding batches_loop
  concat-batches_loop zero i n ids h = sym (drop-all (i * n) ids (omega arith))
  concat-batches_loop (suc count) i n ids h =
      let rest =
        concat-batches_loop count (i + 1) n ids (omega (arith, add-mul i 1 n, suc-mul count n)) in
      ap (λ c. take (min (i * n + n) (length ids) - i * n) (drop (i * n) ids) ++ c)
        (rest ∙ (ap (λ k. drop k ids) next_start ∙ sym (drop-drop (i * n) n ids)))
      ∙ (ap (λ k. take k (drop (i * n) ids) ++ drop n (drop (i * n) ids)) cut
          ∙ (ap (λ t. t ++ drop n (drop (i * n) ids)) (take-min n (drop (i * n) ids))
              ∙ take-append-drop n (drop (i * n) ids)))
    where
      next_start : (i + 1) * n ≡ i * n + n
      next_start = omega (arith, add-mul i 1 n)

      cut : min (i * n + n) (length ids) - i * n ≡ min n (length (drop (i * n) ids))
      cut = omega (arith, length-drop (i * n) ids)

  batches_loop-short :
      (count i n : ℕ) (ids : List A) → All (λ b. length b ≤ n) (batches_loop count i n ids)
  unfolding batches_loop
  batches_loop-short zero i n ids = tt
  batches_loop-short (suc count) i n ids = (
    omega (arith, length-take (min (i * n + n) (length ids) - i * n) (drop (i * n) ids)),
    batches_loop-short count (i + 1) n ids,
  )

  -- The `if` of `batch_texts`, for a size as a `usize`.
  abbrev cut_at : ℕ → List A → List (List A)
  cut_at size record_ids =
      if size == 0 || leb (length record_ids) size
      then record_ids ∷ []
      else batches_loop (div_ceil (length record_ids) size) 0 size record_ids

  concat-cut_at : (size : ℕ) (record_ids : List A) → concat (cut_at size record_ids) ≡ record_ids
  concat-cut_at size record_ids = tested (size == 0 || leb (length record_ids) size) refl
    where
      tested :
          (b : Bool)
          → (size == 0 || leb (length record_ids) size) ≡ b
          → concat (cut_at size record_ids) ≡ record_ids
      tested true e = rw e (append-nil record_ids)
      tested false e = rw e (
          concat-batches_loop (div_ceil (length record_ids) size) 0 size record_ids
            (omega (arith, div_ceil-covers (length record_ids) size positive))
          ∙ ap (λ k. drop k record_ids) (zero-mul size))
        where
          positive : 0 < size
          positive = ground arith

  cut_at-short :
      (n : ℕ) (record_ids : List A) → All (λ b. length b ≤ suc n) (cut_at (suc n) record_ids)
  cut_at-short n record_ids = tested (suc n == 0 || leb (length record_ids) (suc n)) refl
    where
      tested :
          (b : Bool)
          → (suc n == 0 || leb (length record_ids) (suc n)) ≡ b
          → All (λ b. length b ≤ suc n) (cut_at (suc n) record_ids)
      tested true e = rw e (ground arith, tt)
      tested false e =
          rw e (batches_loop-short (div_ceil (length record_ids) (suc n)) 0 (suc n) record_ids)

  -- How many records a batch may hold: as many as there are for a size of zero, and else the size
  -- as a `usize`, which is huge for a negative one.
  abbrev pub batch_limit : ℤ → List A → ℕ
  batch_limit batch_size record_ids =
      if i32_as_usize batch_size == 0 then length record_ids else i32_as_usize batch_size

  -- The batches are the records in order, with each record in one batch, for every batch size, also
  -- for one that is zero or negative; and no batch holds more than its limit.
  pub batch_texts_lem :
      (record_ids : List A) (batch_size : ℤ)
      → (concat (batch_texts record_ids batch_size) ≡ record_ids)
        × All
            (λ b. length b ≤ batch_limit batch_size record_ids)
            (batch_texts record_ids batch_size)
  unfolding batch_texts
  batch_texts_lem record_ids batch_size =
      (concat-cut_at (i32_as_usize batch_size) record_ids, limited (i32_as_usize batch_size))
    where
      limited :
          (size : ℕ)
          → All
              (λ b. length b ≤ (if size == 0 then length record_ids else size))
              (cut_at size record_ids)
      limited zero = (omega arith, tt)
      limited (suc n) =
          subst
            (λ b.
              All (λ c. length c ≤ (if b then length record_ids else suc n))
                (cut_at (suc n) record_ids))
            (sym nonzero) (cut_at-short n record_ids)
        where
          nonzero : (suc n == 0) ≡ false
          nonzero = ground arith
