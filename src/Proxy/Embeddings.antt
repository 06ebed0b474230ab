-- ===== src/Proxy/Embeddings.antt =====
-- proxy/src/embeddings.rs: the calls of `vectorize.embed` in a query, and the query with their
-- embeddings in place.
pub mod Rewrite
pub mod Prepared
use pg_vectorize.Base.{
  ℕ, suc, ◌+◌, ◌-◌, ◌%◌, ◌^◌, ◌≤◌, ◌<◌, ◌≡◌, refl, Bool, true, false, not, ◌&&◌, ◌||◌, List, [],
  ◌∷◌, ◌++◌, map, Option, none, some, Bytes, codes, ltb, leb, ◌==◌, length, take, drop, get_elem?,
  is_empty, if◌then◌else◌,
}
use mathlib.Core.List.{reverse}
use pg_vectorize.Base.Text.{join, undouble_quotes}
use pg_vectorize.Base.Numbers.{parse_usize, decimal}
use pg_vectorize.Base.Exec.{
  Exec, ok, err, panicked, ◌>>=◌, VectorizeError, job_not_found, embedding_generation_failed,
  internal_error,
}
use pg_vectorize.Base.Int.{pos}
use pg_vectorize.Base.Map.{Map, get}
use pg_vectorize.Types.{ModelSource, Model, VectorizeJob}
use pg_vectorize.Transformers.{Inputs, GenericEmbeddingRequest, prepare_generic_embedding_request}

-- A compiled pattern with two groups, of the regex crate: where its matches lie in a text, and the
-- two groups of the first match.
pub record Regex : Type 0 where
  pub find_iter : Bytes → List (ℕ × ℕ)
  pub captures : Bytes → Option (Bytes × Bytes)

-- What the proxy calls and does not implement: floating-point numbers and their `Display`, the two
-- patterns of `parse_embed_calls`, and `get_provider(source, None, None, None)` with the provider's
-- `generate_embedding`, which asks a service.
pub record World : Type 1 where
  pub Float : Type 0
  pub show_float : Float → Bytes
  pub string_re : Regex
  pub param_re : Regex
  pub generate : ModelSource → GenericEmbeddingRequest → Exec (List (List Float))

pub record EmbedCall : Type 0 where
  pub query : Bytes
  pub project_name : Bytes
  pub full_match : Bytes
  pub start_pos : ℕ
  pub end_pos : ℕ
  pub is_prepared : Bool
  pub query_param_index : Option ℕ
  pub project_param_index : Option ℕ

-- `x - 1` on a usize, which wraps in a release build.
abbrev pub pred_usize : ℕ → ℕ
pred_usize n = (n + 2 ^ 64 - 1) % 2 ^ 64

-- `parse::<usize>()?`. The messages of the parse errors are not told apart.
abbrev pub parsed : Option ℕ → Exec ℕ
parsed (some n) = ok n
parsed none = err (internal_error (codes "invalid digit or number too large"))

module _ (w : World) where
  open w use {Float, show_float, string_re, param_re, generate}

  -- `JobMapEmbeddingProvider::generate_embeddings`.
  unfoldable pub generate_embeddings : Map VectorizeJob → Bytes → Bytes → Exec (List Float)
  unfolding prepare_generic_embedding_request
  generate_embeddings jobmap query project_name = elim (get project_name jobmap) [
    | none ↦
        err (
          job_not_found
            (codes "Project '" ++ (project_name ++ codes "' not found in jobmap cache")))
    | some job ↦ do
      let input : Inputs = record { record_id = []; inputs = query; token_estimate = pos 0 }
      response ←
          generate job.model.source (prepare_generic_embedding_request job.model (input ∷ []))
      elim response [
        | [] ↦ err (embedding_generation_failed (codes "No embeddings returned"))
        | embedding ∷ _ ↦ ok embedding
      ]
  ]

  -- The loop over the string literal calls. A match is the text from its start to its end.
  unfoldable pub string_calls : Bytes → List (ℕ × ℕ) → List EmbedCall
  string_calls sql [] = []
  string_calls sql ((start, end) ∷ more) =
      let full_match = take (end - start) (drop start sql) in
      let rest = string_calls sql more in
      elim (string_re.captures full_match) [
        | none ↦ rest
        | some (query, project_name) ↦
            record {
              query = undouble_quotes query;
              project_name = undouble_quotes project_name;
              full_match = full_match;
              start_pos = start;
              end_pos = end;
              is_prepared = false;
              query_param_index = none;
              project_param_index = none;
            }
            ∷ rest
      ]

  -- The call of a prepared statement, with 0-based indices. Its texts are left empty.
  abbrev pub prepared_call : Bytes → ℕ → ℕ → ℕ → ℕ → EmbedCall
  prepared_call full_match start end query_number project_number = record {
    query = [];
    project_name = [];
    full_match = full_match;
    start_pos = start;
    end_pos = end;
    is_prepared = true;
    query_param_index = some (pred_usize query_number);
    project_param_index = some (pred_usize project_number);
  }

  -- The loop over the calls of prepared statements.
  unfoldable pub param_calls : Bytes → List (ℕ × ℕ) → Exec (List EmbedCall)
  param_calls sql [] = ok []
  param_calls sql ((start, end) ∷ more) =
      let full_match = take (end - start) (drop start sql) in
      let rest = param_calls sql more in
      elim (param_re.captures full_match) [
        | none ↦ rest
        | some (first, second) ↦ do
          query_number ← parsed (parse_usize first)
          project_number ← parsed (parse_usize second)
          calls ← rest
          ok (prepared_call full_match start end query_number project_number ∷ calls)
      ]

  unfoldable pub parse_embed_calls : Bytes → Exec (List EmbedCall)
  unfolding string_calls param_calls
  parse_embed_calls sql = do
    prepared ← param_calls sql (param_re.find_iter sql)
    ok (string_calls sql (string_re.find_iter sql) ++ prepared)

  -- `format_embeddings_as_vector`.
  unfoldable pub format_embeddings_as_vector : List Float → Bytes
  format_embeddings_as_vector embeddings =
      codes "'[" ++ (join (codes ", ") (map show_float embeddings) ++ codes "]'::vector")

-- Whether a character of the text starts at `i`, or the text ends there.
unfoldable pub is_char_boundary : Bytes → ℕ → Bool
is_char_boundary s i = elim (get_elem? s i) [
  | none ↦ i == length s
  | some b ↦ not (leb 0x80 b && leb b 0xbf)
]

-- The text behind an error of `parse_embed_calls`, which are errors of `anyhow`.
abbrev pub parse_failure : VectorizeError → Bytes
parse_failure (internal_error message) = codes "Failed to parse embed calls: " ++ message
parse_failure _ = codes "Failed to parse embed calls: "

-- `String::replace_range(start..end, with)`.
unfoldable pub replace_range : Bytes → ℕ → ℕ → Bytes → Exec Bytes
unfolding is_char_boundary
replace_range s start end with_text =
    if (leb start end && leb end (length s)) && (is_char_boundary s start && is_char_boundary s end)
    then ok (take start s ++ (with_text ++ drop end s))
    else panicked

module _ (w : World) where
  -- The loop of `rewrite_query_with_embeddings`, over the calls in reverse order.
  unfoldable pub replace_calls : Map VectorizeJob → Bytes → List EmbedCall → Exec Bytes
  unfolding replace_range
  replace_calls jobmap rewritten [] = ok rewritten
  replace_calls jobmap rewritten (call ∷ calls) = do
    embeddings ← generate_embeddings w jobmap call.query call.project_name
    let embedding_str = format_embeddings_as_vector w embeddings
    replaced ← replace_range rewritten call.start_pos call.end_pos embedding_str
    replace_calls jobmap replaced calls

  unfoldable pub rewrite_query_with_embeddings : Map VectorizeJob → Bytes → Exec Bytes
  unfolding replace_calls
  rewrite_query_with_embeddings jobmap sql = elim (parse_embed_calls w sql) [
    | ok embed_calls ↦
        if is_empty embed_calls then ok sql else replace_calls jobmap sql (reverse embed_calls)
    | err e ↦ err (embedding_generation_failed (parse_failure e))
    | panicked ↦ panicked
  ]

abbrev pub out_of_bounds : ℕ → ℕ → ℕ → Bytes
out_of_bounds query_idx project_idx len =
    codes "Parameter index out of bounds: query_idx="
    ++ (decimal query_idx
        ++ (codes ", project_idx="
            ++ (decimal project_idx ++ (codes ", params_len=" ++ decimal len))))

-- One turn of the loop of `resolve_prepared_embed_calls`.
unfoldable pub resolve_call : List Bytes → EmbedCall → Exec EmbedCall
resolve_call parameters call =
    if not call.is_prepared then ok call else elim call.query_param_index [
      | none ↦ ok call
      | some query_idx ↦ elim call.project_param_index [
        | none ↦ ok call
        | some project_idx ↦
            if leb (length parameters) query_idx || leb (length parameters) project_idx
            then err (
                embedding_generation_failed
                  (out_of_bounds query_idx project_idx (length parameters)))
            else elim (get_elem? parameters query_idx) [
              | none ↦ panicked
              | some query ↦ elim (get_elem? parameters project_idx) [
                | none ↦ panicked
                | some project ↦ ok (record call { query = query; project_name = project })
              ]
            ]
      ]
    ]

unfoldable pub resolve_prepared_embed_calls : List EmbedCall → List Bytes → Exec (List EmbedCall)
unfolding resolve_call
resolve_prepared_embed_calls [] parameters = ok []
resolve_prepared_embed_calls (call ∷ calls) parameters = do
  resolved ← resolve_call parameters call
  rest ← resolve_prepared_embed_calls calls parameters
  ok (resolved ∷ rest)
