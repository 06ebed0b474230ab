-- ===== src/Query/Triggers.antt =====
-- core/src/query.rs: the functions and triggers in the database, and the query for new rows.
use pg_vectorize.Base.{List, [], ◌∷◌, ◌++◌, Option, none, some, Bytes, codes, concat, map}
use pg_vectorize.Base.Text.{join, to_lowercase}

abbrev trigger_fn_prefix : Bytes
trigger_fn_prefix = codes "vectorize.handle_update_"

unfoldable pub generate_column_concat : List Bytes → Bytes → Bytes
generate_column_concat src_columns prefix = join (codes " || ' ' || ") (
    map (λ col. concat (codes "COALESCE(" ∷ prefix ∷ codes "." ∷ col ∷ codes ", '')" ∷ []))
      src_columns)

unfoldable pub handle_table_update : Bytes
handle_table_update = concat (
    codes "CREATE OR REPLACE FUNCTION vectorize._handle_table_update(\n    job_name text,\n"
    ∷ codes "    record_ids text[]\n) RETURNS void AS $$\nDECLARE\n    batch_size integer;\n"
    ∷ codes "    batch_result RECORD;\n    job_messages jsonb[] := '"
    ∷ codes "';\nBEGIN\n    -- create jobs of size batch_size\n    batch_size := coalesce(\n"
    ∷ codes "        current_setting('vectorize.batch_size', true)::integer,\n"
    ∷ codes "        1000 -- default batch size\n    );\n"
    ∷ codes
        "    FOR batch_result IN SELECT batch FROM vectorize.batch_texts(record_ids, batch_size) LOOP\n"
    ∷ codes "        -- only append non-null, non-empty batches\n"
    ∷ codes "        IF array_length(batch_result.batch, 1) > 0 THEN\n"
    ∷ codes "            job_messages := array_append(\n                job_messages,\n"
    ∷ codes "                jsonb_build_object(\n                    'job_name', job_name,\n"
    ∷ codes
        "                    'record_ids', batch_result.batch\n                )\n            );\n"
    ∷ codes "        END IF;\n    END LOOP;\n\n    PERFORM pgmq.send_batch(\n"
    ∷ codes "        queue_name=>'vectorize_jobs'::text,\n        msgs=>job_messages::jsonb[])\n"
    ∷ codes "    ;\n\nEND;\n$$ LANGUAGE plpgsql;"
    ∷ [])

unfoldable pub create_batch_texts_fn : Bytes
create_batch_texts_fn = concat (
    codes "CREATE OR REPLACE FUNCTION vectorize.batch_texts(\n    record_ids text[],\n"
    ∷ codes "    batch_size integer\n) RETURNS TABLE(batch text[]) AS $$\nDECLARE\n"
    ∷ codes "    total_records integer;\n    num_batches integer;\n    i integer;\n"
    ∷ codes "    start_idx integer;\n    end_idx integer;\nBEGIN\n"
    ∷ codes "    total_records := array_length(record_ids, 1);\n    \n    -- Handle edge cases\n"
    ∷ codes "    IF batch_size <= 0 OR total_records IS NULL OR total_records <= batch_size THEN\n"
    ∷ codes "        RETURN QUERY SELECT record_ids;\n        RETURN;\n    END IF;\n    \n"
    ∷ codes "    -- Calculate number of batches needed\n"
    ∷ codes "    num_batches := (total_records + batch_size - 1) / batch_size;\n    \n"
    ∷ codes "    -- Create batches\n    FOR i IN 0..(num_batches - 1) LOOP\n"
    ∷ codes "        start_idx := i * batch_size + 1; -- PostgreSQL arrays are 1-indexed\n"
    ∷ codes "        end_idx := LEAST(start_idx + batch_size - 1, total_records);\n        \n"
    ∷ codes "        RETURN QUERY SELECT record_ids[start_idx:end_idx];\n    END LOOP;\nEND;\n"
    ∷ codes "$$ LANGUAGE plpgsql;"
    ∷ [])

unfoldable pub create_trigger_handler : Bytes → Bytes → Bytes
create_trigger_handler job_name pkey = concat (
    codes "\nCREATE OR REPLACE FUNCTION "
    ∷ trigger_fn_prefix
    ∷ job_name
    ∷ codes
        "()\nRETURNS TRIGGER AS $$\nDECLARE\nBEGIN\n    PERFORM vectorize._handle_table_update(\n"
    ∷ codes "        '"
    ∷ job_name
    ∷ codes "'::text,\n       (SELECT array_agg("
    ∷ pkey
    ∷ codes
        "::text) FROM new_table)::TEXT[]\n    );\n    RETURN NULL;\nEND;\n$$ LANGUAGE plpgsql;    \n"
    ∷ [])

unfoldable pub drop_trigger_handler : Bytes → Bytes
drop_trigger_handler job_name =
    concat
      (codes "DROP FUNCTION IF EXISTS " ∷ trigger_fn_prefix ∷ job_name ∷ codes "() CASCADE;" ∷ [])

unfoldable pub create_event_trigger : (Bytes → Bytes) → Bytes → Bytes → Bytes → Bytes → Bytes
unfolding to_lowercase
create_event_trigger tables job_name schema table_name event = concat (
    codes "\nCREATE OR REPLACE TRIGGER vectorize_"
    ∷ (to_lowercase tables event)
    ∷ codes "_trigger_"
    ∷ job_name
    ∷ codes "\nAFTER "
    ∷ event
    ∷ codes " ON "
    ∷ schema
    ∷ codes "."
    ∷ table_name
    ∷ codes "\nREFERENCING NEW TABLE AS new_table\nFOR EACH STATEMENT\n"
    ∷ codes "EXECUTE FUNCTION vectorize.handle_update_"
    ∷ job_name
    ∷ codes "();"
    ∷ [])

unfoldable pub drop_event_trigger : (Bytes → Bytes) → Bytes → Bytes → Bytes → Bytes → Bytes
unfolding to_lowercase
drop_event_trigger tables job_name src_schema src_table event = concat (
    codes "DROP TRIGGER IF EXISTS vectorize_"
    ∷ (to_lowercase tables event)
    ∷ codes "_trigger_"
    ∷ job_name
    ∷ codes " ON "
    ∷ src_schema
    ∷ codes "."
    ∷ src_table
    ∷ codes ";"
    ∷ [])

unfoldable pub drop_search_tokens_trigger : Bytes → Bytes → Bytes → Bytes
drop_search_tokens_trigger job_name src_schema src_table = concat (
    codes "DROP TRIGGER IF EXISTS "
    ∷ job_name
    ∷ codes "_search_tokens_trigger ON "
    ∷ src_schema
    ∷ codes "."
    ∷ src_table
    ∷ codes ";"
    ∷ [])

unfoldable pub update_search_tokens_trigger_queries :
    Bytes → Bytes → Bytes → Bytes → List Bytes → List Bytes
unfolding generate_column_concat
update_search_tokens_trigger_queries job_name join_key src_schema src_table src_columns =
    let trigger_fn_name = codes "update_" ++ (job_name ++ codes "_search_tokens") in
    let new_cols = generate_column_concat src_columns (codes "NEW") in
    let old_cols = generate_column_concat src_columns (codes "OLD") in
    concat (
      codes "\nCREATE OR REPLACE FUNCTION "
      ∷ trigger_fn_name
      ∷ codes "()\nRETURNS TRIGGER AS $$\nBEGIN\n-- Handle INSERT and UPDATE operations\n"
      ∷ codes "IF TG_OP = 'INSERT' THEN\n    INSERT INTO vectorize._search_tokens_"
      ∷ job_name
      ∷ codes " ("
      ∷ join_key
      ∷ codes ", search_tokens)\n    VALUES (\n        NEW."
      ∷ join_key
      ∷ codes ",\n        to_tsvector('english', "
      ∷ new_cols
      ∷ codes ")\n    )\n    ON CONFLICT ("
      ∷ join_key
      ∷ codes ") DO UPDATE SET\n        search_tokens = to_tsvector('english', "
      ∷ new_cols
      ∷ codes "),\n        updated_at = CLOCK_TIMESTAMP()\n    ;\n    RETURN NEW;\nEND IF;\n\n"
      ∷ codes "IF TG_OP = 'UPDATE' THEN\n    IF "
      ∷ old_cols
      ∷ codes " IS DISTINCT FROM "
      ∷ new_cols
      ∷ codes " THEN\n        INSERT INTO vectorize._search_tokens_"
      ∷ job_name
      ∷ codes " ("
      ∷ join_key
      ∷ codes ", search_tokens)\n        VALUES (NEW."
      ∷ join_key
      ∷ codes ", to_tsvector('english', "
      ∷ new_cols
      ∷ codes "))\n        ON CONFLICT ("
      ∷ join_key
      ∷ codes ") DO UPDATE SET\n            search_tokens = to_tsvector('english', "
      ∷ new_cols
      ∷ codes
          "),\n            updated_at = CLOCK_TIMESTAMP();\n    END IF;\n    RETURN NEW;\nEND IF;\n\n"
      ∷ codes "RETURN NULL;\nEND;\n$$ LANGUAGE plpgsql;"
      ∷ [])
    ∷ concat (
        codes "\n        CREATE OR REPLACE TRIGGER "
        ∷ job_name
        ∷ codes "_search_tokens_trigger\n        AFTER INSERT OR UPDATE OR DELETE ON "
        ∷ src_schema
        ∷ codes "."
        ∷ src_table
        ∷ codes "\n        FOR EACH ROW\n        EXECUTE FUNCTION "
        ∷ trigger_fn_name
        ∷ codes "();"
        ∷ [])
    ∷ []

unfoldable pub new_rows_query_join :
    Bytes → List Bytes → Bytes → Bytes → Bytes → Option Bytes → Bytes
new_rows_query_join job_name columns schema table pkey update_time_col =
    let cols = join (codes ",") (map (λ s. codes "t0." ++ s) columns) in
    let base_query = concat (
      codes "\n    SELECT t0."
      ∷ pkey
      ∷ codes "::text as record_id, "
      ∷ cols
      ∷ codes " as input_text\n    FROM "
      ∷ schema
      ∷ codes "."
      ∷ table
      ∷ codes " t0\n    LEFT JOIN vectorize._embeddings_"
      ∷ job_name
      ∷ codes " t1 ON t0."
      ∷ pkey
      ∷ codes " = t1."
      ∷ pkey
      ∷ codes "\n    WHERE t1."
      ∷ pkey
      ∷ codes " IS NULL"
      ∷ []) in
    elim update_time_col [
      | none ↦ base_query
      | some updated_at_col ↦
          let where_clause = concat (
            codes "\n            OR t0."
            ∷ updated_at_col
            ∷ codes " > COALESCE\n            (\n                t1.updated_at::timestamp,\n"
            ∷ codes "                '0001-01-01 00:00:00'::timestamp\n            )"
            ∷ []) in
          concat (
            codes "\n            "
            ∷ base_query
            ∷ codes "\n            "
            ∷ where_clause
            ∷ codes "\n        "
            ∷ [])
    ]
