-- ===== src/Query/Tables.antt =====
-- core/src/query.rs: the statements on tables, views and indexes. An argument stands in the text
-- as it is.
use pg_vectorize.Base.{
  ℕ, Bool, ◌||◌, List, [], ◌∷◌, ◌++◌, Bytes, codes, concat, all, if◌then◌else◌, text_eq, leb, ◌==◌,
  ◌&&◌,
}
use pg_vectorize.Base.Text.{join, to_uppercase}
use pg_vectorize.Base.Exec.{Exec, ok, panicked}
use pg_vectorize.Base.Result.{Result, okay, error}

-- `check_input`: letters, digits and underscores only.
unfoldable pub is_identifier_byte : ℕ → Bool
is_identifier_byte c =
    (leb b'0' c && leb c b'9')
    || (leb b'A' c && leb c b'Z')
    || (leb b'a' c && leb c b'z')
    || c == b'_'

unfoldable pub check_input : Bytes → Result Bytes (Unit {0})
unfolding is_identifier_byte
check_input input =
    if all is_identifier_byte input then okay tt else error (codes "Invalid Input: " ++ input)

unfoldable pub create_vectorize_table : Bytes
create_vectorize_table = concat (
    codes "CREATE TABLE IF NOT EXISTS vectorize.job\n        (\n"
    ∷ codes "            id UUID DEFAULT gen_random_uuid() PRIMARY KEY,\n"
    ∷ codes "            job_name TEXT NOT NULL UNIQUE,\n            src_schema TEXT NOT NULL,\n"
    ∷ codes "            src_table TEXT NOT NULL,\n            src_columns TEXT[] NOT NULL,\n"
    ∷ codes "            primary_key TEXT NOT NULL,\n            update_time_col TEXT NOT NULL,\n"
    ∷ codes "            model TEXT NOT NULL,\n            params JSONB\n        );\n        "
    ∷ [])

unfoldable pub create_project_view : Bytes → Bytes → Bytes → Bytes → Bytes
create_project_view job_name schema relation pkey = concat (
    codes "CREATE OR REPLACE VIEW vectorize."
    ∷ job_name
    ∷ codes
        "_view as \n        SELECT t0.*, t1.embeddings, t1.updated_at as embeddings_updated_at\n"
    ∷ codes "        FROM "
    ∷ schema
    ∷ codes "."
    ∷ relation
    ∷ codes " t0\n        INNER JOIN vectorize._embeddings_"
    ∷ job_name
    ∷ codes " t1\n            ON t0."
    ∷ pkey
    ∷ codes " = t1."
    ∷ pkey
    ∷ codes ";\n        "
    ∷ [])

unfoldable pub create_search_tokens_table : Bytes → Bytes → Bytes → Bytes → Bytes → Bytes
create_search_tokens_table job_name join_key join_key_type src_schema src_table = concat (
    codes "CREATE TABLE IF NOT EXISTS vectorize._search_tokens_"
    ∷ job_name
    ∷ codes " (\n            "
    ∷ join_key
    ∷ codes " "
    ∷ join_key_type
    ∷ codes " UNIQUE NOT NULL,\n            search_tokens TSVECTOR NOT NULL,\n"
    ∷ codes "            updated_at TIMESTAMP WITH TIME ZONE DEFAULT NOW() NOT NULL,\n"
    ∷ codes "            FOREIGN KEY ("
    ∷ join_key
    ∷ codes ") REFERENCES "
    ∷ src_schema
    ∷ codes "."
    ∷ src_table
    ∷ codes " ("
    ∷ join_key
    ∷ codes ") ON DELETE CASCADE\n        );\n        "
    ∷ [])

unfoldable pub create_embedding_table : Bytes → Bytes → Bytes → Bytes → Bytes → Bytes → Bytes
create_embedding_table job_name join_key join_key_type col_type src_schema src_table = concat (
    codes "CREATE TABLE IF NOT EXISTS vectorize._embeddings_"
    ∷ job_name
    ∷ codes " (\n            "
    ∷ join_key
    ∷ codes " "
    ∷ join_key_type
    ∷ codes " UNIQUE NOT NULL,\n            embeddings "
    ∷ col_type
    ∷ codes " NOT NULL,\n            updated_at TIMESTAMP WITH TIME ZONE DEFAULT NOW() NOT NULL,\n"
    ∷ codes "            FOREIGN KEY ("
    ∷ join_key
    ∷ codes ") REFERENCES "
    ∷ src_schema
    ∷ codes "."
    ∷ src_table
    ∷ codes " ("
    ∷ join_key
    ∷ codes ") ON DELETE CASCADE\n        );\n        "
    ∷ [])

unfoldable pub create_hnsw_l2_index : Bytes → Bytes → Bytes → Bytes → Bytes
create_hnsw_l2_index job_name schema table embedding_col = concat (
    codes "CREATE INDEX IF NOT EXISTS "
    ∷ job_name
    ∷ codes "_hnsw_l2_idx ON "
    ∷ schema
    ∷ codes "."
    ∷ table
    ∷ codes "\n        USING hnsw ("
    ∷ embedding_col
    ∷ codes " vector_l2_ops);\n        "
    ∷ [])

unfoldable pub create_hnsw_ip_index : Bytes → Bytes → Bytes → Bytes → Bytes
create_hnsw_ip_index job_name schema table embedding_col = concat (
    codes "CREATE INDEX IF NOT EXISTS "
    ∷ job_name
    ∷ codes "_hnsw_ip_idx ON "
    ∷ schema
    ∷ codes "."
    ∷ table
    ∷ codes "\n        USING hnsw ("
    ∷ embedding_col
    ∷ codes " vector_ip_ops);\n        "
    ∷ [])

unfoldable pub create_hnsw_cosine_index : Bytes → Bytes → Bytes → Bytes → Bytes
create_hnsw_cosine_index job_name schema table embedding_col = concat (
    codes "CREATE INDEX IF NOT EXISTS "
    ∷ job_name
    ∷ codes "_hnsw_cos_idx ON "
    ∷ schema
    ∷ codes "."
    ∷ table
    ∷ codes "\n        USING hnsw ("
    ∷ embedding_col
    ∷ codes " vector_cosine_ops);\n        "
    ∷ [])

unfoldable pub init_job_query : Bytes
init_job_query = concat (
    codes "\n        INSERT INTO "
    ∷ codes "vectorize"
    ∷ codes ".job (name, index_dist_type, transformer, params)\n        VALUES ($1, $2, $3, $4)\n"
    ∷ codes "        ON CONFLICT (name) DO UPDATE SET\n"
    ∷ codes "            index_dist_type = EXCLUDED.index_dist_type,\n"
    ∷ codes "            params = job.params || EXCLUDED.params;\n        "
    ∷ [])

unfoldable pub drop_project_view : Bytes → Bytes
drop_project_view job_name =
    concat (codes "DROP VIEW IF EXISTS vectorize." ∷ job_name ∷ codes "_view;" ∷ [])

unfoldable pub drop_embeddings_table : Bytes → Bytes
drop_embeddings_table job_name =
    concat (codes "DROP TABLE IF EXISTS vectorize._embeddings_" ∷ job_name ∷ codes " CASCADE;" ∷ [])

unfoldable pub drop_search_tokens_table : Bytes → Bytes
drop_search_tokens_table job_name =
    concat
      (codes "DROP TABLE IF EXISTS vectorize._search_tokens_" ∷ job_name ∷ codes " CASCADE;" ∷ [])

unfoldable pub delete_job_record : Bytes → Bytes
delete_job_record job_name =
    concat (codes "DELETE FROM vectorize.job WHERE job_name = '" ∷ job_name ∷ codes "';" ∷ [])

-- `idx_type.to_uppercase()` is one of the two types of index, or the thread panics.
unfoldable pub is_fts_index_type : (Bytes → Bytes) → Bytes → Bool
unfolding to_uppercase
is_fts_index_type tables idx_type =
    text_eq (to_uppercase tables idx_type) (codes "GIN")
    || text_eq (to_uppercase tables idx_type) (codes "GIST")

unfoldable pub create_fts_index_query : (Bytes → Bytes) → Bytes → Bytes → Exec Bytes
unfolding check_input is_fts_index_type
create_fts_index_query tables job_name idx_type = elim (check_input job_name) [
  | error e ↦ panicked
  | okay valid ↦
      if is_fts_index_type tables idx_type
      then ok (
          concat (
            codes "CREATE INDEX IF NOT EXISTS "
            ∷ job_name
            ∷ codes "_"
            ∷ idx_type
            ∷ codes "_idx ON vectorize._search_tokens_"
            ∷ job_name
            ∷ codes "\n        USING "
            ∷ idx_type
            ∷ codes " (search_tokens);"
            ∷ []))
      else panicked
]

-- The part of `JobParams` that the query reads.
unfoldable pub init_index_query :
    (Bytes → Bytes) → Bytes → Bytes → (schema relation : Bytes) → List Bytes → Exec Bytes
unfolding check_input is_fts_index_type
init_index_query tables job_name idx_type schema table columns = elim (check_input job_name) [
  | error e ↦ panicked
  | okay valid ↦
      if is_fts_index_type tables idx_type
      then ok (
          concat (
            codes "\n        CREATE INDEX IF NOT EXISTS "
            ∷ job_name
            ∷ codes "_idx on "
            ∷ schema
            ∷ codes "."
            ∷ table
            ∷ codes " using "
            ∷ idx_type
            ∷ codes " (to_tsvector('english', "
            ∷ join (codes " || ' ' || ") columns
            ∷ codes "));\n        "
            ∷ []))
      else panicked
]
