-- ===== src/Examples/Core.antt =====
-- Models, index kinds, batches and chunks.
use pg_vectorize.Base.{
  ℕ, ◌≡◌, ◌≢◌, ◌⊎◌, refl, true, arith, List, [], ◌∷◌, ◌++◌, Bytes, codes, All, concat,
  if◌then◌else◌, ltb,
}
use pg_vectorize.Base.{text_eq}
use pg_vectorize.Base.Text.{split, join}
use pg_vectorize.Base.Int.{pos}
use pg_vectorize.Base.Result.{okay, error}
use pg_vectorize.Types.{Model, open_ai, new_model, invalid_format}
use pg_vectorize.Types.Models.{IsModelName, new_model_cases, new_model-fullname}
use pg_vectorize.Transformers.{Inputs}
use mathlib.Core.Option.{some}
use pg_vectorize.Query.Filters.{equal, greater_than_or_equal, integer, visit_str}
use pg_vectorize.Query.Filters.Forms.{operator_name, has_no_dot, ReadsAs, visit_str_forms}
use pg_vectorize.Query.Batches.{create_batches}
use pg_vectorize.Query.Batches.Laws.{
  concat-create_batches, create_batches-FitsBatch, create_batches_empty, FitsBatch,
}

new_model_cases_example :
    (IsModelName (codes "openai/a/b")
      × ((m : Model) × (new_model (λ s. s) (codes "openai/a/b") ≡ okay m)))
    ⊎ ((¬ IsModelName (codes "openai/a/b"))
        × (new_model (λ s. s) (codes "openai/a/b") ≡ error (invalid_format (codes "openai/a/b"))))
new_model_cases_example = new_model_cases (λ s. s) (codes "openai/a/b")

abbrev pub ada : Model
ada = record {
  source = open_ai;
  fullname = codes "openai/text-embedding-ada-002";
  name = codes "text-embedding-ada-002";
}

new_model-fullname_example : new_model (λ s. s) (codes "openai/text-embedding-ada-002") ≡ okay ada
unfolding new_model split text_eq join
new_model-fullname_example =
    new_model-fullname (λ s. s) (codes "text-embedding-ada-002") {m = ada} refl

abbrev sized : Bytes → ℕ → Inputs
sized record_id n = record {
  record_id = record_id;
  inputs = codes "some text";
  token_estimate = pos n;
}

abbrev three : List Inputs
three = sized (codes "1") 7 ∷ sized (codes "2") 3 ∷ sized (codes "3") 2 ∷ []

concat-create_batches_example : concat (create_batches three (pos 5)) ≡ three
concat-create_batches_example = concat-create_batches three (pos 5)

create_batches-FitsBatch_example : All (FitsBatch 5) (create_batches three (pos 5))
create_batches-FitsBatch_example =
    create_batches-FitsBatch three 5 (refl, (refl, (refl, tt))) (omega arith)

create_batches_empty_example :
    (gs : List (List Inputs)) × (create_batches three (pos 5) ≡ (if ltb 5 7 then [] ∷ gs else gs))
    × All (λ g. g ≢ []) gs
create_batches_empty_example =
    create_batches_empty (sized (codes "1") 7) (sized (codes "2") 3 ∷ sized (codes "3") 2 ∷ []) 7 5
      refl (omega arith)

-- A comparison with an integer, where every text is read as the number that it writes.
visit_str_forms_example :
    ((v : Bytes) × (codes "gte.5" ≡ operator_name greater_than_or_equal ++ (b'.' ∷ v))
      × ReadsAs some v greater_than_or_equal (integer (pos 5)))
    ⊎ ((has_no_dot (codes "gte.5") ≡ true)
        × (greater_than_or_equal ≡ equal)
        × ReadsAs some (codes "gte.5") equal (integer (pos 5)))
unfolding visit_str text_eq
visit_str_forms_example =
    visit_str_forms some (codes "gte.5")
      (record { operator = greater_than_or_equal; value = integer (pos 5) }) refl
