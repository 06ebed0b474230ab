-- ===== src/Types.antt =====
-- core/src/types.rs: the models and where they are served, the jobs, and the forms in which these
-- are stored as text. `tables` stands for the Unicode tables behind `to_lowercase`.
pub mod Params
pub mod Names
pub mod Models
use pg_vectorize.Base.{
  ℕ, Bool, ◌&&◌, List, [], ◌∷◌, ◌++◌, Option, Bytes, codes, ltb, length, if◌then◌else◌, text_eq,
}
use pg_vectorize.Base.Text.{split, join, to_lowercase}
use pg_vectorize.Base.Exec.{Exec, ok, panicked}
use pg_vectorize.Base.Result.{Result, okay, error, and_then, map_err}

pub data ModelSource : Type 0 where
  open_ai sentence_transformers ollama cohere portkey voyage : ModelSource

-- `Display for ModelSource`.
unfoldable pub display_source : ModelSource → Bytes
display_source ollama = codes "ollama"
display_source open_ai = codes "openai"
display_source sentence_transformers = codes "sentence-transformers"
display_source cohere = codes "cohere"
display_source portkey = codes "portkey"
display_source voyage = codes "voyage"

-- `From<String> for ModelSource`: any other text names a private sentence-transformers model.
unfoldable pub source_of_string : Bytes → ModelSource
source_of_string s =
    if text_eq s (codes "ollama")
    then ollama
    else if text_eq s (codes "openai")
    then open_ai
    else if text_eq s (codes "sentence-transformers")
    then sentence_transformers
    else if text_eq s (codes "cohere")
    then cohere
    else if text_eq s (codes "portkey")
    then portkey
    else if text_eq s (codes "voyage")
    then voyage
    else sentence_transformers

-- `FromStr for ModelSource`: the same match, on the lower-case text, and never an error.
unfoldable pub parse_source : (Bytes → Bytes) → Bytes → Result Bytes ModelSource
unfolding source_of_string to_lowercase
parse_source tables s = okay (source_of_string (to_lowercase tables s))

pub record Model : Type 0 where
  pub source : ModelSource
  -- the model's namespace and name
  pub fullname : Bytes
  pub name : Bytes

pub data ModelError : Type 0 where
  invalid_source invalid_format : Bytes → ModelError

-- `parts[0]` and `parts.last()`; `split` returns at least one part.
abbrev pub first_part : List Bytes → Bytes
first_part [] = []
first_part (p ∷ ps) = p

abbrev pub last_part : List Bytes → Bytes
last_part [] = []
last_part (p ∷ []) = p
last_part (p ∷ q ∷ ps) = last_part (q ∷ ps)

-- The end of `Model::new`, on the parts with their source in front.
unfoldable pub model_of_parts : (Bytes → Bytes) → List Bytes → Result ModelError Model
unfolding parse_source
model_of_parts tables parts =
    and_then
      (map_err (λ _. invalid_source (first_part parts)) (parse_source tables (first_part parts)))
      λ source.
        okay (record { source = source; fullname = join (codes "/") parts; name = last_part parts })

-- `Model::new`.
unfoldable pub new_model : (Bytes → Bytes) → Bytes → Result ModelError Model
unfolding model_of_parts
new_model tables input =
    let parts = split b'/' input in
    let missing_source = ltb (length parts) 2 in
    if ltb 3 (length parts)
    then error (invalid_format input)
    else if missing_source && text_eq (first_part parts) (codes "text-embedding-ada-002")
    then model_of_parts tables (codes "openai" ∷ parts)
    else if missing_source && text_eq (first_part parts) (codes "all-MiniLM-L12-v2")
    then model_of_parts tables (codes "sentence-transformers" ∷ parts)
    else if missing_source
    then error (invalid_format input)
    else model_of_parts tables parts

-- `From<String> for Model`, which `string_to_model` and `Decode` call on stored text.
unfoldable pub model_of_string : (Bytes → Bytes) → Bytes → Exec Model
unfolding new_model
model_of_string tables input = elim (new_model tables input) [ okay m ↦ ok m | error e ↦ panicked ]

-- `Model::api_name`.
unfoldable pub api_name : Model → Bytes
api_name m = elim m.source [
  | sentence_transformers ↦ m.fullname
  | open_ai ↦ m.name
  | ollama ↦ m.name
  | cohere ↦ m.name
  | portkey ↦ m.name
  | voyage ↦ m.name
]

pub record VectorizeJob : Type 0 where
  pub job_name : Bytes
  pub src_table : Bytes
  pub src_schema : Bytes
  pub src_columns : List Bytes
  pub primary_key : Bytes
  pub update_time_col : Bytes
  pub model : Model

-- The messages on the queue.
pub record JobMessage : Type 0 where
  pub job_name : Bytes
  pub record_ids : List Bytes

pub data IndexDist : Type 0 where
  pgv_hnsw_l2 pgv_hnsw_ip pgv_hnsw_cosine vsc_diskann_cosine : IndexDist

-- `Display for IndexDist`.
unfoldable pub display_index : IndexDist → Bytes
display_index pgv_hnsw_l2 = codes "pgv_hnsw_l2"
display_index pgv_hnsw_ip = codes "pgv_hnsw_ip"
display_index pgv_hnsw_cosine = codes "pgv_hnsw_cosine"
display_index vsc_diskann_cosine = codes "vsc_diskann_cosine"

-- `FromStr for IndexDist`.
unfoldable pub parse_index : Bytes → Result Bytes IndexDist
parse_index s =
    if text_eq s (codes "pgv_hnsw_l2")
    then okay pgv_hnsw_l2
    else if text_eq s (codes "pgv_hnsw_ip")
    then okay pgv_hnsw_ip
    else if text_eq s (codes "pgv_hnsw_cosine")
    then okay pgv_hnsw_cosine
    else if text_eq s (codes "vsc_diskann_cosine")
    then okay vsc_diskann_cosine
    else error (codes "Invalid value for IndexDist: " ++ s)

-- `From<String> for IndexDist`.
unfoldable pub index_of_string : Bytes → Exec IndexDist
index_of_string s =
    if text_eq s (codes "pgv_hnsw_l2")
    then ok pgv_hnsw_l2
    else if text_eq s (codes "pgv_hnsw_ip")
    then ok pgv_hnsw_ip
    else if text_eq s (codes "pgv_hnsw_cosine")
    then ok pgv_hnsw_cosine
    else if text_eq s (codes "vsc_diskann_cosine")
    then ok vsc_diskann_cosine
    else panicked
