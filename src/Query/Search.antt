-- ===== src/Query/Search.antt =====
-- core/src/query.rs: the queries of a search, with the conditions of its filters.
pub mod Placeholders
use pg_vectorize.Base.{
  ℕ, zero, suc, ◌+◌, ◌-◌, ◌%◌, ◌^◌, List, [], ◌∷◌, ◌++◌, Bytes, codes, concat, map, ltb,
  if◌then◌else◌,
}
use pg_vectorize.Base.Int.{ℤ}
use pg_vectorize.Base.Text.{join}
use pg_vectorize.Base.Numbers.{decimal}
use pg_vectorize.Base.Map.{Map}
use pg_vectorize.Query.Filters.{FilterValue, to_sql}

-- `{n}` of an `i16` that holds the low 16 bits of `n`.
unfoldable pub display_i16 : ℕ → Bytes
unfolding decimal
display_i16 n =
    let low = n % 2 ^ 16 in if ltb low (2 ^ 15) then decimal low else b'-' ∷ decimal (2 ^ 16 - low)

-- `{n}` of an `i32`.
unfoldable pub display_i32 : ℤ → Bytes
unfolding decimal
display_i32 (ℤ.pos n) = decimal n
display_i32 (ℤ.negsuc n) = b'-' ∷ decimal (n + 1)

-- `BTreeMap<String, FilterValue>`: the entries in the order of their keys.
module _ {Float : Type 0} where
  -- The loop over the filters; the counter is an `i16` that wraps.
  unfoldable pub where_loop : ℕ → Bytes → Map (FilterValue Float) → Bytes
  unfolding to_sql display_i16
  where_loop bind_value_counter where_filter [] = where_filter
  where_loop bind_value_counter where_filter ((column, filter_value) ∷ filters) =
      where_loop (bind_value_counter + 1)
        (where_filter
          ++ concat (
              codes " AND t0.\""
              ∷ column
              ∷ codes "\" "
              ∷ to_sql filter_value.operator
              ∷ codes " $"
              ∷ display_i16 bind_value_counter
              ∷ []))
        filters

  -- The first value that a filter binds is `$first`.
  unfoldable pub where_filter_from : ℕ → Map (FilterValue Float) → Bytes
  unfolding where_loop
  where_filter_from first filters = where_loop first (codes "WHERE 1=1") filters

unfoldable pub return_cols : List Bytes → Bytes
unfolding join
return_cols return_columns = join (codes ",") (map (λ s. codes "t0." ++ s) return_columns)

unfoldable pub inner_similarity_query : (project join_key : Bytes) → Bytes
inner_similarity_query project join_key = concat (
    codes "\n    SELECT\n        "
    ∷ join_key
    ∷ codes ",\n        1 - (embeddings <=> $1::vector) AS similarity_score\n"
    ∷ codes "    FROM vectorize._embeddings_"
    ∷ project
    ∷ codes "\n    ORDER BY similarity_score DESC\n    "
    ∷ [])

unfoldable pub join_table_cosine_similarity :
    {Float : Type 0}
    → (project schema table join_key : Bytes) → List Bytes
    → ℤ
    → Map (FilterValue Float)
    → Bytes
unfolding return_cols where_filter_from inner_similarity_query display_i32
join_table_cosine_similarity project schema table join_key return_columns num_results filters =
    concat (
      codes "\n    SELECT to_jsonb(t) as results\n    FROM (\n        SELECT "
      ∷ return_cols return_columns
      ∷ codes ", t1.similarity_score\n        FROM\n            (\n                "
      ∷ inner_similarity_query project join_key
      ∷ codes "\n            ) t1\n        INNER JOIN "
      ∷ schema
      ∷ codes "."
      ∷ table
      ∷ codes " t0 on t0."
      ∷ join_key
      ∷ codes " = t1."
      ∷ join_key
      ∷ codes "\n        "
      ∷ where_filter_from 2 filters
      ∷ codes "\n    ) t\n    ORDER BY t.similarity_score DESC\n    LIMIT "
      ∷ display_i32 num_results
      ∷ codes ";\n    "
      ∷ [])

-- The query in front of the conditions of its filters, in pieces; `display_float` is the text of an
-- `f32`.
unfoldable pub hybrid_search_front :
    {Float : Type 0}
    → (display_float : Float → Bytes) → (job_name src_schema src_table join_key : Bytes)
    → List Bytes
    → (window_size : ℤ) → (rrf_k semantic_weight fts_weight : Float) → List Bytes
unfolding return_cols display_i32
hybrid_search_front display_float job_name src_schema src_table join_key return_columns window_size
      rrf_k semantic_weight fts_weight =
    codes "\n    SELECT to_jsonb(t) as results\n    FROM (\n        SELECT "
    ∷ return_cols return_columns
    ∷ codes ", t.rrf_score, t.semantic_rank, t.fts_rank, t.similarity_score\n        FROM (\n"
    ∷ codes "            SELECT\n                COALESCE(s."
    ∷ join_key
    ∷ codes ", f."
    ∷ join_key
    ∷ codes ") as "
    ∷ join_key
    ∷ codes ",\n                s.semantic_rank,\n                s.similarity_score,\n"
    ∷ codes "                f.fts_rank,\n                (\n                    COALESCE("
    ∷ display_float semantic_weight
    ∷ codes "::float / ("
    ∷ display_float rrf_k
    ∷ codes " + s.semantic_rank), 0) +\n                    COALESCE("
    ∷ display_float fts_weight
    ∷ codes "::float / ("
    ∷ display_float rrf_k
    ∷ codes " + f.fts_rank), 0)\n                ) as rrf_score\n            FROM (\n"
    ∷ codes "                SELECT\n                    "
    ∷ join_key
    ∷ codes ",\n                    distance,\n"
    ∷ codes "                    ROW_NUMBER() OVER (ORDER BY distance) as semantic_rank,\n"
    ∷ codes "                    1 - distance as similarity_score\n                FROM (\n"
    ∷ codes "                    SELECT\n                        "
    ∷ join_key
    ∷ codes ",\n                        embeddings <=> $1::vector as distance\n"
    ∷ codes "                    FROM vectorize._embeddings_"
    ∷ job_name
    ∷ codes "\n                ) sub\n                ORDER BY distance\n                LIMIT "
    ∷ display_i32 window_size
    ∷ codes "\n            ) s\n            FULL OUTER JOIN (\n                SELECT\n"
    ∷ codes "                    "
    ∷ join_key
    ∷ codes ",\n"
    ∷ codes
        "                    ROW_NUMBER() OVER (ORDER BY ts_rank_cd(search_tokens, query) DESC) as fts_rank\n"
    ∷ codes "                FROM vectorize._search_tokens_"
    ∷ job_name
    ∷ codes ",\n                     to_tsquery('english',\n                         NULLIF(\n"
    ∷ codes
        "                             replace(plainto_tsquery('english', $2)::text, ' & ', ' | '),\n"
    ∷ codes "                             ''\n                         )\n"
    ∷ codes "                     ) as query\n                WHERE search_tokens @@ query\n"
    ∷ codes "                ORDER BY ts_rank_cd(search_tokens, query) DESC\n                LIMIT "
    ∷ display_i32 window_size
    ∷ codes "\n            ) f ON s."
    ∷ join_key
    ∷ codes " = f."
    ∷ join_key
    ∷ codes "\n        ) t\n        INNER JOIN "
    ∷ src_schema
    ∷ codes "."
    ∷ src_table
    ∷ codes " t0 ON t0."
    ∷ join_key
    ∷ codes " = t."
    ∷ join_key
    ∷ codes "\n        "
    ∷ []

unfoldable pub hybrid_search_behind : (limit : ℤ) → List Bytes
unfolding display_i32
hybrid_search_behind limit =
    codes "\n        ORDER BY t.rrf_score DESC\n        LIMIT "
    ∷ display_i32 limit
    ∷ codes "\n    ) t"
    ∷ []

unfoldable pub hybrid_search_query :
    {Float : Type 0}
    → (display_float : Float → Bytes) → (job_name src_schema src_table join_key : Bytes)
    → List Bytes
    → (window_size limit : ℤ) → (rrf_k semantic_weight fts_weight : Float) → Map (FilterValue Float)
    → Bytes
unfolding hybrid_search_front where_filter_from hybrid_search_behind
hybrid_search_query display_float job_name src_schema src_table join_key return_columns window_size
      limit rrf_k semantic_weight fts_weight filters =
    concat (
      hybrid_search_front display_float job_name src_schema src_table join_key return_columns
        window_size rrf_k semantic_weight fts_weight
      ++ (where_filter_from 3 filters ∷ hybrid_search_behind limit))
