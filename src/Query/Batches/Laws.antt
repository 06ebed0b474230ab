-- ===== src/Query/Batches/Laws.antt =====
-- What `create_batches` keeps, how large its groups are, and which of them are empty.
use pg_vectorize.Base.{
  ℕ, ◌+◌, ◌≤◌, ◌<◌, ◌^◌, ◌≡◌, ◌≢◌, ◌⊎◌, inl, inr, refl, sym, ap, ◌∙◌, arith, true, false, List, [],
  ◌∷◌, ◌++◌, length, concat, All, All-append, concat-append, if◌then◌else◌, Bool-cases, ltb, tests,
  lt→ltb, le→ltb_false, append_assoc, append-nil,
}
use mathlib.Core.List.{concat-ne-nil}
use native.Mathlib.Decide.{dec_le}
use pg_vectorize.Base.Int.{ℤ, pos, pos_part, ltb_ℤ, add_i32, add_i32-pos}
use pg_vectorize.Transformers.{Inputs}
use pg_vectorize.Query.Batches.{create_batches_loop, create_batches}

concat_last :
    {A : Type 0} (gs : List (List A)) (g : List A) → concat (gs ++ g ∷ []) ≡ concat gs ++ g
concat_last gs g = concat-append gs (g ∷ []) ∙ ap (λ r. concat gs ++ r) (append-nil g)

concat-create_batches_loop :
    (b : ℤ) (groups : List (List Inputs)) (current : List Inputs) (count : ℤ) (xs : List Inputs)
    → concat (create_batches_loop b groups current count xs) ≡ concat groups ++ (current ++ xs)
unfolding create_batches_loop
concat-create_batches_loop b groups [] count [] = sym (append-nil (concat groups))
concat-create_batches_loop b groups (c ∷ cs) count [] =
    concat_last groups (c ∷ cs) ∙ ap (λ r. concat groups ++ r) (sym (append-nil (c ∷ cs)))
concat-create_batches_loop b groups current count (x ∷ xs) =
    elim (Bool-cases (ltb_ℤ b (add_i32 count x.token_estimate))) [
      | inl full ↦ rw full (
          concat-create_batches_loop b (groups ++ current ∷ []) (x ∷ []) _ xs
          ∙ rw (concat_last groups current) (append_assoc (concat groups) current (x ∷ xs)))
      | inr fits ↦ rw fits (
          concat-create_batches_loop b groups (current ++ x ∷ []) _ xs
          ∙ ap (λ r. concat groups ++ r) (append_assoc current (x ∷ []) xs))
    ]

-- Every input lands in exactly one batch and the order is kept, for all inputs, estimates and batch
-- sizes, negative ones and those that overflow an i32 included.
pub concat-create_batches : (xs : List Inputs) (b : ℤ) → concat (create_batches xs b) ≡ xs
unfolding create_batches
concat-create_batches xs b = concat-create_batches_loop b [] [] (pos 0) xs

-- The sum of the token estimates.
abbrev pub tokens : List Inputs → ℕ
tokens [] = 0
tokens (x ∷ xs) = pos_part x.token_estimate + tokens xs

-- Estimates that are no negative numbers.
abbrev pub Counts : List Inputs → Type 0
Counts = All (λ x. x.token_estimate ≡ pos (pos_part x.token_estimate))

tokens-append : (xs ys : List Inputs) → tokens (xs ++ ys) ≡ tokens xs + tokens ys
tokens-append [] ys = omega arith
tokens-append (x ∷ xs) ys = omega (arith, tokens-append xs ys)

-- A batch keeps to the limit, or is one input that exceeds it alone.
abbrev pub FitsBatch : ℕ → List Inputs → Type 0
FitsBatch limit g = (tokens g ≤ limit) ⊎ (length g ≡ 1)

-- One round on an input whose estimate is the number `t`, when no sum overflows.
module _ (limit : ℕ) (groups : List (List Inputs)) (current : List Inputs) (count t : ℕ)
    (x : Inputs) (xs : List Inputs) (e : x.token_estimate ≡ pos t)
    (small : count + t < 2 ^ 31) where
  sum_from : (c : ℕ) → c + t < 2 ^ 31 → add_i32 (pos c) x.token_estimate ≡ pos (c + t)
  sum_from c h = ap (add_i32 (pos c)) e ∙ add_i32-pos c t h

  create_batches_loop_full :
      limit < count + t
      → create_batches_loop (pos limit) groups current (pos count) (x ∷ xs)
        ≡ create_batches_loop (pos limit) (groups ++ current ∷ []) (x ∷ []) (pos (0 + t)) xs
  unfolding create_batches_loop
  create_batches_loop_full h =
      let full : ltb_ℤ (pos limit) (add_i32 (pos count) x.token_estimate) ≡ true =
        ap (ltb_ℤ (pos limit)) (sum_from count small)
        ∙ lt→ltb (limit + 0) (count + t + 0) (omega arith) in
      rw full (
        ap (λ c. create_batches_loop (pos limit) (groups ++ current ∷ []) (x ∷ []) c xs)
          (sum_from 0 (omega arith)))

  create_batches_loop_fits :
      count + t ≤ limit
      → create_batches_loop (pos limit) groups current (pos count) (x ∷ xs)
        ≡ create_batches_loop (pos limit) groups (current ++ x ∷ []) (pos (count + t)) xs
  unfolding create_batches_loop
  create_batches_loop_fits h =
      let fits : ltb_ℤ (pos limit) (add_i32 (pos count) x.token_estimate) ≡ false =
        ap (ltb_ℤ (pos limit)) (sum_from count small)
        ∙ le→ltb_false (limit + 0) (count + t + 0) (omega arith) in
      rw fits (
        ap (λ c. create_batches_loop (pos limit) groups (current ++ x ∷ []) c xs)
          (sum_from count small))

create_batches_loop-FitsBatch :
    (limit : ℕ) (groups : List (List Inputs)) (current : List Inputs) (count : ℕ) (xs : List Inputs)
    → Counts xs
    → count ≡ tokens current
    → tokens current + tokens xs < 2 ^ 31
    → All (FitsBatch limit) groups
    → FitsBatch limit current
    → All (FitsBatch limit) (create_batches_loop (pos limit) groups current (pos count) xs)
unfolding create_batches_loop
create_batches_loop-FitsBatch limit groups [] count [] c e small gs g = gs
create_batches_loop-FitsBatch limit groups (x ∷ xs) count [] c e small gs g =
    All-append (FitsBatch limit) groups ((x ∷ xs) ∷ []) gs (g, tt)
create_batches_loop-FitsBatch limit groups current count (x ∷ xs) (c, cs) e small gs g =
    let t : ℕ = pos_part x.token_estimate in
    elim (dec_le (count + t) limit) [
      | yes fits ↦
          rw (create_batches_loop_fits limit groups current count t x xs c (omega arith) fits) (
            create_batches_loop-FitsBatch limit groups (current ++ x ∷ []) (count + t) xs cs
              (omega (arith, tokens-append current (x ∷ [])))
              (omega (arith, tokens-append current (x ∷ []))) gs
              (inl (omega (arith, tokens-append current (x ∷ [])))))
      | no full ↦
          rw
            (create_batches_loop_full limit groups current count t x xs c (omega arith)
              (omega arith))
            (create_batches_loop-FitsBatch limit (groups ++ current ∷ []) (x ∷ []) (0 + t) xs cs
              (omega arith) (omega arith)
              (All-append (FitsBatch limit) groups (current ∷ []) gs (g, tt)) (inr refl))
    ]

-- With estimates that are not negative and sum up below 2^31, every batch stays within the batch
-- size, but for a batch of a single input whose estimate alone exceeds it.
pub create_batches-FitsBatch :
    (xs : List Inputs) (limit : ℕ)
    → Counts xs
    → tokens xs < 2 ^ 31
    → All (FitsBatch limit) (create_batches xs (pos limit))
unfolding create_batches
create_batches-FitsBatch xs limit c small =
    create_batches_loop-FitsBatch limit [] [] 0 xs c refl (omega arith) tt (inl (omega arith))

create_batches_loop-append :
    (b : ℤ) (groups : List (List Inputs)) (current : List Inputs) (count : ℤ) (xs : List Inputs)
    → current ≢ []
    → (gs : List (List Inputs)) × (create_batches_loop b groups current count xs ≡ groups ++ gs)
      × All (λ g. g ≢ []) gs
unfolding create_batches_loop
create_batches_loop-append b groups [] count [] ne = absurd (ne refl)
create_batches_loop-append b groups (c ∷ cs) count [] ne = ((c ∷ cs) ∷ [], refl, (ne, tt))
create_batches_loop-append b groups current count (x ∷ xs) ne =
    elim (Bool-cases (ltb_ℤ b (add_i32 count x.token_estimate))) [
      | inl full ↦
          let (gs, made, h) =
            create_batches_loop-append b (groups ++ current ∷ []) (x ∷ [])
              (add_i32 (pos 0) x.token_estimate) xs (λ p. cc) in
          (current ∷ gs, rw full (made ∙ append_assoc groups (current ∷ []) gs), (ne, h))
      | inr fits ↦
          let (gs, made, h) =
            create_batches_loop-append b groups (current ++ x ∷ []) (add_i32 count x.token_estimate)
              xs (concat-ne-nil x current) in
          (gs, rw fits made, h)
    ]

-- The batches of a list that is not empty, whose first input has the estimate `t`: all of them hold
-- an input, but when `t` exceeds the batch size an empty batch comes first, and only then. The other
-- estimates are arbitrary.
pub create_batches_empty :
    (x : Inputs) (xs : List Inputs) (t limit : ℕ)
    → x.token_estimate ≡ pos t
    → t < 2 ^ 31
    → (gs : List (List Inputs)) × (create_batches (x ∷ xs) (pos limit)
        ≡ (if ltb limit t then [] ∷ gs else gs))
      × All (λ g. g ≢ []) gs
unfolding create_batches
create_batches_empty x xs t limit e small = elim (Bool-cases (ltb limit t)) [
  | inl full ↦
      let (gs, made, h) =
        create_batches_loop-append (pos limit) ([] ∷ []) (x ∷ []) (pos (0 + t)) xs (λ p. cc) in
      (
        gs,
        rw full
            (create_batches_loop_full limit [] [] 0 t x xs e (omega arith) (omega (tests)) ∙ made),
        h,
      )
  | inr fits ↦
      let (gs, made, h) =
        create_batches_loop-append (pos limit) [] (x ∷ []) (pos (0 + t)) xs (λ p. cc) in
      (
        gs,
        rw fits
            (create_batches_loop_fits limit [] [] 0 t x xs e (omega arith) (omega (tests)) ∙ made),
        h,
      )
]
