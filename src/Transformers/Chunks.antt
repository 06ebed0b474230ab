-- ===== src/Transformers/Chunks.antt =====
-- Cutting a request into chunks, and pairing its answer with the inputs.
use pg_vectorize.Base.{
  ℕ, zero, suc, ◌≤◌, ◌<◌, ◌≡◌, refl, ap, ◌∙◌, arith, List, [], ◌∷◌, ◌++◌, map, Bytes, length, take,
  drop, concat, All, length-take, length-drop, take-append-drop,
}
use pg_vectorize.Transformers.{Inputs, merge_input_output, chunks, split_vector}

module _ {ℓ} {A : Type ℓ} where
  concat-chunks :
      (fuel size : ℕ) (xs : List A)
      → 0 < size
      → length xs ≤ fuel
      → concat (chunks fuel size xs) ≡ xs
  unfolding chunks
  concat-chunks zero size [] h k = refl
  concat-chunks zero size (x ∷ xs) h k = absurd (omega arith)
  concat-chunks (suc fuel) size [] h k = refl
  concat-chunks (suc fuel) size (x ∷ xs) h k =
      ap (λ (r : List A). take size (x ∷ xs) ++ r)
        (concat-chunks fuel size (drop size (x ∷ xs)) h (omega (arith, length-drop size (x ∷ xs))))
      ∙ take-append-drop size (x ∷ xs)

  abbrev FitsChunk : ℕ → List A → Type 0
  FitsChunk size c = (1 ≤ length c) × (length c ≤ size)

  chunks-FitsChunk :
      (fuel size : ℕ) (xs : List A) → 0 < size → All (FitsChunk size) (chunks fuel size xs)
  unfolding chunks
  chunks-FitsChunk zero size xs h = tt
  chunks-FitsChunk (suc fuel) size [] h = tt
  chunks-FitsChunk (suc fuel) size (x ∷ xs) h =
      (omega (arith, length-take size (x ∷ xs)), chunks-FitsChunk fuel size (drop size (x ∷ xs)) h)

-- `split_vector` loses, repeats and reorders nothing, and each chunk holds between one and
-- `chunk_size` texts, for every chunk size but 0.
pub split_vector_chunks :
    (vec : List Bytes) (chunk_size : ℕ)
    → 0 < chunk_size
    → (concat (split_vector vec chunk_size) ≡ vec)
      × All (λ c. (1 ≤ length c) × (length c ≤ chunk_size)) (split_vector vec chunk_size)
unfolding split_vector
split_vector_chunks vec chunk_size h = (
  concat-chunks (length vec) chunk_size vec h (omega arith),
  chunks-FitsChunk (length vec) chunk_size vec h,
)

module _ {Float : Type 0} where
  -- The keys that are written are those of the first inputs, in order, as many as there are both
  -- inputs and embeddings, and each stands with the embedding at its own position.
  merge_input_output_lem :
      (inputs : List Inputs) (values : List (List Float))
      → (map (λ p. p.primary_key) (merge_input_output inputs values)
          ≡ map (λ i. i.record_id) (take (length values) inputs))
        × (map (λ p. p.embeddings) (merge_input_output inputs values) ≡ take (length inputs) values)
  unfolding merge_input_output
  merge_input_output_lem [] [] = (refl, refl)
  merge_input_output_lem [] (v ∷ vs) = (refl, refl)
  merge_input_output_lem (i ∷ is) [] = (refl, refl)
  merge_input_output_lem (i ∷ is) (v ∷ vs) =
      let (keys, embs) = merge_input_output_lem is vs in
      (ap (◌∷◌ i.record_id) keys, ap (◌∷◌ v) embs)
