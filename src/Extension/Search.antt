-- ===== src/Extension/Search.antt =====
-- extension/src/search.rs: the queries of the extension's searches.
pub mod Sessions
use pg_vectorize.Base.{List, [], ◌∷◌, ◌++◌, Option, none, some, Bytes, codes, concat, map}
use pg_vectorize.Base.Int.{ℤ}
use pg_vectorize.Base.Text.{join}
use pg_vectorize.Base.Replace.{replace}
use pg_vectorize.Types.Params.{TableMethod, JobParams}
use pg_vectorize.Transformers.{split_whitespace}
use pg_vectorize.Query.Search.{display_i32}

unfoldable pub prepare_filter : (filter pkey : Bytes) → Bytes
unfolding replace
prepare_filter filter pkey = codes "AND " ++ replace pkey (codes "t0." ++ pkey) filter

unfoldable pub join_table_cosine_similarity :
    (project schema table join_key : Bytes) → List Bytes → ℤ → Option Bytes → Bytes
unfolding prepare_filter display_i32
join_table_cosine_similarity project schema table join_key return_columns num_results where_clause =
    let where_str : Bytes = elim where_clause [ some w ↦ prepare_filter w join_key | none ↦ [] ] in
    let inner_query = concat (
      codes "\n    SELECT\n        "
      ∷ join_key
      ∷ codes
          ",\n        1 - (embeddings <=> $1::vector) AS similarity_score\n    FROM vectorize._embeddings_"
      ∷ project
      ∷ codes "\n    ORDER BY similarity_score DESC\n    "
      ∷ []) in
    concat (
      codes "\n    SELECT to_jsonb(t) as results\n    FROM (\n        SELECT "
      ∷ join (codes ",") (map (λ s. codes "t0." ++ s) return_columns)
      ∷ codes ", t1.similarity_score\n        FROM\n            (\n                "
      ∷ inner_query
      ∷ codes "\n            ) t1\n        INNER JOIN "
      ∷ schema
      ∷ codes "."
      ∷ table
      ∷ codes " t0 on t0."
      ∷ join_key
      ∷ codes " = t1."
      ∷ join_key
      ∷ codes "\n        "
      ∷ where_str
      ∷ codes "\n    ) t\n    ORDER BY t.similarity_score DESC\n    LIMIT "
      ∷ display_i32 num_results
      ∷ codes ";\n    "
      ∷ [])

unfoldable pub single_table_cosine_similarity :
    (project schema table : Bytes) → List Bytes → ℤ → Option Bytes → Bytes
unfolding join display_i32
single_table_cosine_similarity project schema table return_columns num_results where_clause =
    let where_str : Bytes = elim where_clause [ some w ↦ codes "AND " ++ w | none ↦ [] ] in
    concat (
      codes "\n    SELECT to_jsonb(t) as results\n    FROM (\n        SELECT \n        1 - ("
      ∷ project
      ∷ codes "_embeddings <=> $1::vector) AS similarity_score,\n        "
      ∷ join (codes ", ") return_columns
      ∷ codes "\n    FROM "
      ∷ schema
      ∷ codes "."
      ∷ table
      ∷ codes "\n    WHERE "
      ∷ project
      ∷ codes "_updated_at is NOT NULL\n    "
      ∷ where_str
      ∷ codes "\n    ORDER BY similarity_score DESC\n    LIMIT "
      ∷ display_i32 num_results
      ∷ codes "\n    ) t\n    "
      ∷ [])

unfoldable pub cosine_query : Bytes → JobParams → List Bytes → ℤ → Option Bytes → Bytes
unfolding join_table_cosine_similarity single_table_cosine_similarity
cosine_query project job_params return_columns num_results where_clause =
    elim job_params.table_method [
      | TableMethod.append ↦
          single_table_cosine_similarity project job_params.schema job_params.relation
            return_columns num_results where_clause
      | TableMethod.join ↦
          join_table_cosine_similarity project job_params.schema job_params.relation
            job_params.primary_key return_columns num_results where_clause
    ]

unfoldable pub full_text_query :
    JobParams → (query : Bytes) → List Bytes → (num_results : ℤ) → Bytes
unfolding join replace split_whitespace display_i32
full_text_query proj_params query return_columns num_results =
    let search_columns =
      join (codes " || ' ' || ")
        (map (λ col. concat (codes "COALESCE(" ∷ col ∷ codes ", '')" ∷ [])) proj_params.columns) in
    concat (
      codes "SELECT "
      ∷ join (codes ", ") return_columns
      ∷ codes " FROM "
      ∷ proj_params.schema
      ∷ codes "."
      ∷ proj_params.relation
      ∷ codes "\n             WHERE to_tsvector('english', "
      ∷ search_columns
      ∷ codes ")\n             @@ to_tsquery('english', '"
      ∷ replace (codes "'") (codes "''") (join (codes " | ") (split_whitespace query))
      ∷ codes "')\n             LIMIT "
      ∷ display_i32 num_results
      ∷ codes ";"
      ∷ [])
