-- ===== src/Transformers.antt =====
-- core/src/transformers: the inputs of an embedding request and what is paired with its answer
-- (types.rs, http_handler.rs, providers/mod.rs, and `trim_inputs` of providers/openai.rs).
pub mod Chunks
pub mod Http
pub mod Providers
use pg_vectorize.Base.{
  ℕ, zero, suc, ◌+◌, ◌-◌, ◌*◌, ◌≤◌, ◌<◌, ◌≡◌, Bool, true, false, ◌&&◌, ◌||◌, List, [], ◌∷◌, ◌++◌,
  map, Bytes, codes, ltb, leb, ◌==◌, length, take, drop, is_empty, if◌then◌else◌,
}
use pg_vectorize.Base.Text.{join}
use pg_vectorize.Base.Int.{ℤ, i32_as_usize}
use pg_vectorize.Types.{Model, api_name}

pub record Inputs : Type 0 where
  -- the value to join the record
  pub record_id : Bytes
  -- the concatenation of the input columns
  pub inputs : Bytes
  -- the estimated token count, an i32
  pub token_estimate : ℤ

pub record PairedEmbeddings (Float : Type 0) : Type 0 where
  pub primary_key : Bytes
  pub embeddings : List Float

-- `merge_input_output`: `zip` stops at the end of the shorter list.
unfoldable pub merge_input_output :
    {Float : Type 0} → List Inputs → List (List Float) → List (PairedEmbeddings Float)
merge_input_output [] values = []
merge_input_output (i ∷ is) [] = []
merge_input_output (i ∷ is) (v ∷ vs) =
    record { primary_key = i.record_id; embeddings = v } ∷ merge_input_output is vs

pub record GenericEmbeddingRequest : Type 0 where
  pub input : List Bytes
  pub model : Bytes

abbrev pub max_token_len : ℕ
max_token_len = 8192

-- The length of the white space character at the front of a text, by the `White_Space` property of
-- Unicode over UTF-8; 0 if there is none.
unfoldable pub space_width : Bytes → ℕ
space_width [] = 0
space_width (a ∷ []) = if leb 9 a && leb a 13 || a == 32 then 1 else 0
space_width (a ∷ b ∷ []) =
    if leb 9 a && leb a 13 || a == 32
    then 1
    else if a == 0xc2 && (b == 0x85 || b == 0xa0)
    then 2
    else 0
space_width (a ∷ b ∷ c ∷ s) =
    if leb 9 a && leb a 13 || a == 32
    then 1
    else if a == 0xc2 && (b == 0x85 || b == 0xa0)
    then 2
    else if a == 0xe1 && b == 0x9a && c == 0x80
    then 3
    else if a == 0xe2
        && b == 0x80
        && (leb 0x80 c && leb c 0x8a || c == 0xa8 || c == 0xa9 || c == 0xaf)
    then 3
    else if a == 0xe2 && b == 0x81 && c == 0x9f
    then 3
    else if a == 0xe3 && b == 0x80 && c == 0x80
    then 3
    else 0

-- A word is closed when it is not empty.
abbrev pub close_word : Bytes → List Bytes → List Bytes
close_word [] ws = ws
close_word (c ∷ w) ws = (c ∷ w) ∷ ws

-- `skip` bytes of a white space character are still to be passed over; `cur` is the word so far.
unfoldable pub words_from : ℕ → Bytes → Bytes → List Bytes
unfolding space_width
words_from skip cur [] = close_word cur []
words_from (suc skip) cur (c ∷ s) = words_from skip cur s
words_from zero cur (c ∷ s) = elim (space_width (c ∷ s)) [
  | zero ↦ words_from 0 (cur ++ c ∷ []) s
  | suc skip ↦ close_word cur (words_from skip [] s)
]

-- `split_whitespace`.
unfoldable pub split_whitespace : Bytes → List Bytes
unfolding words_from
split_whitespace s = words_from 0 [] s

-- The closure of `trim_inputs`.
unfoldable pub trim_input : Inputs → Bytes
unfolding split_whitespace i32_as_usize
trim_input i =
    if ltb max_token_len (i32_as_usize i.token_estimate)
    then join (codes " ") (take max_token_len (split_whitespace i.inputs))
    else i.inputs

unfoldable pub trim_inputs : List Inputs → List Bytes
unfolding trim_input
trim_inputs inputs = map trim_input inputs

unfoldable pub prepare_generic_embedding_request : Model → List Inputs → GenericEmbeddingRequest
unfolding trim_inputs api_name
prepare_generic_embedding_request model inputs = record {
  input = trim_inputs inputs;
  model = api_name model;
}

-- `vec.chunks(size)`, with fuel for the number of chunks. The source calls it with size 2048 (a size
-- of 0 would panic).
unfoldable pub chunks {ℓ} : {A : Type ℓ} → ℕ → ℕ → List A → List (List A)
chunks zero size xs = []
chunks (suc fuel) size [] = []
chunks (suc fuel) size (x ∷ xs) = take size (x ∷ xs) ∷ chunks fuel size (drop size (x ∷ xs))

-- `split_vector`, of providers/mod.rs and of providers/vector_serve.rs. There are no more chunks
-- than elements.
unfoldable pub split_vector : List Bytes → ℕ → List (List Bytes)
unfolding chunks
split_vector vec chunk_size = chunks (length vec) chunk_size vec

-- `s.trim()`: white space is left out at the front and at the end. `skip` bytes belong to a white
-- space character that was seen.
unfoldable pub is_blank_from : ℕ → Bytes → Bool
unfolding space_width
is_blank_from skip [] = true
is_blank_from (suc skip) (c ∷ s) = is_blank_from skip s
is_blank_from zero (c ∷ s) =
    let rest = is_blank_from (space_width (c ∷ s) - 1) s in
    if space_width (c ∷ s) == 0 then false else rest

unfoldable pub trim_start_from : ℕ → Bytes → Bytes
unfolding space_width
trim_start_from skip [] = []
trim_start_from (suc skip) (c ∷ s) = trim_start_from skip s
trim_start_from zero (c ∷ s) =
    let rest = trim_start_from (space_width (c ∷ s) - 1) s in
    if space_width (c ∷ s) == 0 then c ∷ s else rest

unfoldable pub trim_end : Bytes → Bytes
unfolding is_blank_from
trim_end [] = []
trim_end (c ∷ s) = let rest = trim_end s in if is_blank_from 0 (c ∷ s) then [] else c ∷ rest

unfoldable pub trim : Bytes → Bytes
unfolding trim_start_from trim_end
trim s = trim_end (trim_start_from 0 s)
