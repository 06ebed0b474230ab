-- ===== src/Types/Models.antt =====
-- `Model::new` of core/src/types.rs: which texts it accepts, and the model that a stored name gives.
use pg_vectorize.Base.{
  ℕ, ◌+◌, ◌≤◌, ◌<◌, ◌≡◌, ◌≢◌, ◌⊎◌, refl, sym, ap, ◌∙◌, arith, List, [], ◌∷◌, ◌++◌, Bytes, codes,
  length, ◌==◌, if◌then◌else◌, text_eq, text_eq_iff, Bool-cases, inl, inr,
}
use native.Mathlib.Decide.{dec_le}
use mathlib.Core.Path.{subst}
use pg_vectorize.Base.Text.{split, split_from, join, join-split, to_lowercase}
use pg_vectorize.Base.Result.{Result, okay, error}
use pg_vectorize.Types.{
  Model, invalid_format, first_part, last_part, source_of_string, model_of_parts, new_model,
}

module _ (tables : Bytes → Bytes) where
  abbrev model_from : List Bytes → Model
  model_from parts = record {
    source = source_of_string (to_lowercase tables (first_part parts));
    fullname = join (codes "/") parts;
    name = last_part parts;
  }

  model_of_parts_lem : (parts : List Bytes) → model_of_parts tables parts ≡ okay (model_from parts)
  unfolding model_of_parts
  model_of_parts_lem parts = refl

one_part : (parts : List Bytes) → parts ≢ [] → length parts < 2 → parts ≡ first_part parts ∷ []
one_part [] ne h = absurd (ne refl)
one_part (p ∷ []) ne h = refl
one_part (p ∷ q ∷ ps) ne h = absurd (omega arith)

split_from-ne-nil : (sep : ℕ) (cur s : Bytes) → split_from sep cur s ≢ []
unfolding split_from
split_from-ne-nil sep cur [] = λ e. cc
split_from-ne-nil sep cur (c ∷ s) = ground (arith, split_from-ne-nil sep (cur ++ c ∷ []) s)

split-ne-nil : (sep : ℕ) (s : Bytes) → split sep s ≢ []
unfolding split
split-ne-nil sep s = split_from-ne-nil sep [] s

okay-injective {ℓ κ} :
    {E : Type κ} {A : Type ℓ} {a b : A} → ◌≡◌ {A = Result E A} (okay a) (okay b) → a ≡ b
okay-injective e = cc

-- A text with no slash is its own only part.
split_one : (s : Bytes) → length (split b'/' s) < 2 → split b'/' s ≡ s ∷ []
unfolding join
split_one s h =
    let one = one_part (split b'/' s) (split-ne-nil b'/' s) h in
    let whole : first_part (split b'/' s) ≡ s =
      sym (ap (join (codes "/")) one) ∙ join-split b'/' s in
    one ∙ ap (λ (p : Bytes). p ∷ []) whole

-- The number of slashes in a text.
abbrev pub slashes : Bytes → ℕ
slashes [] = 0
slashes (c ∷ s) = (if c == b'/' then 1 else 0) + slashes s

length-split_from : (cur s : Bytes) → length (split_from b'/' cur s) ≡ 1 + slashes s
unfolding split_from
length-split_from cur [] = omega arith
length-split_from cur (c ∷ s) =
    ground (arith, length-split_from [] s, length-split_from (cur ++ c ∷ []) s)

length-split : (s : Bytes) → length (split b'/' s) ≡ 1 + slashes s
unfolding split
length-split s = length-split_from [] s

-- The texts of the first releases, which name no source.
abbrev pub IsLegacy : Bytes → Type 0
IsLegacy s = (s ≡ codes "text-embedding-ada-002") ⊎ (s ≡ codes "all-MiniLM-L12-v2")

abbrev pub IsModelName : Bytes → Type 0
IsModelName s = ((1 ≤ slashes s) × (slashes s ≤ 2)) ⊎ IsLegacy s

legacy? : (s : Bytes) → IsLegacy s ⊎ (¬ IsLegacy s)
legacy? s = elim (Bool-cases (text_eq s (codes "text-embedding-ada-002"))) [
  | inl e ↦ inl (inl ((text_eq_iff s _).0 e))
  | inr e ↦ elim (Bool-cases (text_eq s (codes "all-MiniLM-L12-v2"))) [
    | inl f ↦ inl (inr ((text_eq_iff s _).0 f))
    | inr f ↦
        inr
          (λ l. elim l [ inl x ↦ cc ((text_eq_iff s _).1 x) | inr x ↦ cc ((text_eq_iff s _).1 x) ])
  ]
]

module _ (tables : Bytes → Bytes) where
  new_model-slashes :
      (s : Bytes)
      → 1 ≤ slashes s
      → slashes s ≤ 2
      → new_model tables s ≡ okay (model_from tables (split b'/' s))
  unfolding new_model
  new_model-slashes s h k = ground (arith, length-split s)

  new_model_none :
      (s : Bytes) → slashes s ≡ 0 → ¬ IsLegacy s → new_model tables s ≡ error (invalid_format s)
  unfolding new_model
  new_model_none s h ne = rw (split_one s (omega (arith, length-split s))) (
      ground (
        arith,
        text_eq_iff s (codes "text-embedding-ada-002"),
        text_eq_iff s (codes "all-MiniLM-L12-v2"),
      ))

  new_model_many : (s : Bytes) → 3 ≤ slashes s → new_model tables s ≡ error (invalid_format s)
  unfolding new_model
  new_model_many s h = ground (arith, length-split s)

  new_model_legacy :
      (s : Bytes)
      → IsLegacy s
      → (m : Model) × (new_model tables s ≡ okay m) × (new_model tables m.fullname ≡ okay m)
  unfolding new_model split text_eq join
  new_model_legacy s (inl e) = rw e (_, refl, refl)
  new_model_legacy s (inr e) = rw e (_, refl, refl)

  -- A text with one or two slashes is the full name of its own model.
  new_model-fullname_slashes :
      (s : Bytes) {m : Model}
      → 1 ≤ slashes s
      → slashes s ≤ 2
      → new_model tables s ≡ okay m
      → m.fullname ≡ s
  new_model-fullname_slashes s {m} h k e =
      let made : okay (model_from tables (split b'/' s)) ≡ okay m =
        sym (new_model-slashes s h k) ∙ e in
      ap (λ (n : Model). n.fullname) (sym (okay-injective made)) ∙ join-split b'/' s

  -- `Model::new` accepts exactly the texts with one or two slashes and the two legacy names. Every
  -- other text is refused as an invalid format, so that `InvalidSource` is never returned.
  pub new_model_cases :
      (s : Bytes)
      → (IsModelName s × ((m : Model) × (new_model tables s ≡ okay m)))
        ⊎ ((¬ IsModelName s) × (new_model tables s ≡ error (invalid_format s)))
  new_model_cases s = elim (dec_le (slashes s) 2) [
    | yes few ↦ elim (dec_le 1 (slashes s)) [
      | yes some_slash ↦ inl (
        inl (some_slash, few),
        (model_from tables (split b'/' s), new_model-slashes s some_slash few),
      )
      | no none ↦ elim (legacy? s) [
        | inl l ↦ let (m, made, _) = new_model_legacy s l in inl (inr l, (m, made))
        | inr n ↦
            inr
              (λ v. elim v [ inl (h, _) ↦ none h | inr l ↦ n l ], new_model_none s (omega arith) n)
      ]
    ]
    | no many ↦ elim (legacy? s) [
      | inl l ↦ let (m, made, _) = new_model_legacy s l in inl (inr l, (m, made))
      | inr n ↦
          inr (λ v. elim v [ inl (_, h) ↦ many h | inr l ↦ n l ], new_model_many s (omega arith))
    ]
  ]

  -- A model is restored from the full name under which it is stored: `Model::new` on the full name
  -- of a model that it made returns that model.
  pub new_model-fullname :
      (s : Bytes) {m : Model} → new_model tables s ≡ okay m → new_model tables m.fullname ≡ okay m
  new_model-fullname s {m} e = elim (new_model_cases s) [
    | inl (inl (h, k), _) ↦ ap (new_model tables) (new_model-fullname_slashes s h k e) ∙ e
    | inl (inr l, _) ↦
        let (n, made, again) = new_model_legacy s l in
        subst (λ k. new_model tables k.fullname ≡ okay k) (okay-injective (sym made ∙ e)) again
    | inr (_, refused) ↦ cc
  ]
