-- ===== src/Query/Batches.antt =====
-- `create_batches` of core/src/query.rs: inputs grouped by their token estimates.
pub mod Laws
use pg_vectorize.Base.{ℕ, Bool, List, [], ◌∷◌, ◌++◌, is_empty, if◌then◌else◌}
use pg_vectorize.Base.Int.{ℤ, pos, ltb_ℤ, add_i32}
use pg_vectorize.Transformers.{Inputs}

-- The loop over `data` with its three variables, and what follows it.
unfoldable pub create_batches_loop :
    ℤ → List (List Inputs) → List Inputs → ℤ → List Inputs → List (List Inputs)
create_batches_loop batch_size groups current_group current_token_count [] =
    if is_empty current_group then groups else groups ++ current_group ∷ []
create_batches_loop batch_size groups current_group current_token_count (input ∷ rest) =
    let full = ltb_ℤ batch_size (add_i32 current_token_count input.token_estimate) in
    let groups' = if full then groups ++ current_group ∷ [] else groups in
    let group = if full then [] else current_group in
    let count = if full then pos 0 else current_token_count in
    create_batches_loop batch_size groups' (group ++ input ∷ [])
      (add_i32 count input.token_estimate) rest

unfoldable pub create_batches : List Inputs → ℤ → List (List Inputs)
unfolding create_batches_loop
create_batches data_in batch_size = create_batches_loop batch_size [] [] (pos 0) data_in
