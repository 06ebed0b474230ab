-- ===== src/Worker/Append.antt =====
-- worker/src/ops.rs: embeddings that stand in a column of the source table (`update_embeddings`).
use pg_vectorize.Base.{
  ℕ, ◌+◌, ◌*◌, List, [], ◌∷◌, ◌++◌, Bytes, codes, concat, map, length, ltb, if◌then◌else◌,
}
use pg_vectorize.Base.Numbers.{decimal}
use pg_vectorize.Base.Session.{text, run, begin, commit, Session, send_all}
use pg_vectorize.Transformers.{PairedEmbeddings}
use pg_vectorize.Worker.Ops.{bound}

-- `serialize` is the text of a vector as JSON.
module _ {Float : Type 0} (serialize : List Float → Bytes) where
  unfoldable pub temp_table_query : (tmp_table pkey_type : Bytes) → Bytes
  temp_table_query tmp_table pkey_type = concat (
      codes "CREATE TEMP TABLE IF NOT EXISTS "
      ∷ tmp_table
      ∷ codes " (\n            pkey "
      ∷ pkey_type
      ∷ codes " PRIMARY KEY,\n            embeddings vector\n        ) ON COMMIT DROP;"
      ∷ [])

  -- The values part, from position `i` on.
  unfoldable pub insert_loop : Bytes → ℕ → Bytes → List (Bytes × Bytes) → Bytes
  unfolding decimal
  insert_loop pkey_type i insert_query [] = insert_query
  insert_loop pkey_type i insert_query (param ∷ params) =
      let separated = if ltb 0 i then insert_query ++ codes ", " else insert_query in
      insert_loop pkey_type (i + 1)
        (separated
          ++ concat (
              codes "($"
              ∷ decimal (i * 2 + 1)
              ∷ codes "::"
              ∷ pkey_type
              ∷ codes ", $"
              ∷ decimal (i * 2 + 2)
              ∷ codes "::vector)"
              ∷ []))
        params

  unfoldable pub bulk_update_query : (schema table project tmp_table pkey pkey_type : Bytes) → Bytes
  bulk_update_query schema table project tmp_table pkey pkey_type = concat (
      codes "UPDATE "
      ∷ schema
      ∷ codes "."
      ∷ table
      ∷ codes " SET\n            "
      ∷ project
      ∷ codes "_embeddings = temp.embeddings,\n            "
      ∷ project
      ∷ codes "_updated_at = (NOW())\n        FROM "
      ∷ tmp_table
      ∷ codes " temp\n        WHERE "
      ∷ schema
      ∷ codes "."
      ∷ table
      ∷ codes "."
      ∷ pkey
      ∷ codes "::"
      ∷ pkey_type
      ∷ codes " = temp.pkey::"
      ∷ pkey_type
      ∷ codes ";"
      ∷ [])

  abbrev pub params_of : List (PairedEmbeddings Float) → List (Bytes × Bytes)
  params_of =
      map (λ (embed : PairedEmbeddings Float). (embed.primary_key, serialize embed.embeddings))

  -- One transaction; `?` behind each request.
  unfoldable pub bulk_update_embeddings :
      (schema table project pkey pkey_type : Bytes)
      → List (PairedEmbeddings Float)
      → Session (Unit {0})
  unfolding send_all temp_table_query insert_loop bound bulk_update_query
  bulk_update_embeddings schema table project pkey pkey_type embeddings =
      let tmp_table = codes "temp_embeddings_" ++ project in
      send_all (
        begin
        ∷ run (temp_table_query tmp_table pkey_type) []
        ∷ run
            (insert_loop pkey_type 0
              (concat (codes "INSERT INTO " ∷ tmp_table ∷ codes " (pkey, embeddings) VALUES " ∷ []))
              (params_of embeddings))
            (bound serialize (params_of embeddings))
        ∷ run (bulk_update_query schema table project tmp_table pkey pkey_type) []
        ∷ commit
        ∷ [])

  unfoldable pub append_query : (schema table project pkey pkey_type : Bytes) → Bytes
  append_query schema table project pkey pkey_type = concat (
      codes "\n            UPDATE "
      ∷ schema
      ∷ codes "."
      ∷ table
      ∷ codes "\n            SET \n                "
      ∷ project
      ∷ codes "_embeddings = $1::vector,\n                "
      ∷ project
      ∷ codes "_updated_at = (NOW())\n            WHERE "
      ∷ pkey
      ∷ codes " = $2::"
      ∷ pkey_type
      ∷ codes "\n        "
      ∷ [])

  unfoldable pub update_append_table :
      (schema table project pkey pkey_type : Bytes)
      → List (PairedEmbeddings Float)
      → Session (Unit {0})
  unfolding send_all append_query
  update_append_table schema table project pkey pkey_type embeddings = send_all (
      map
        (λ (embed : PairedEmbeddings Float).
          run (append_query schema table project pkey pkey_type)
            (text (serialize embed.embeddings) ∷ text embed.primary_key ∷ []))
        embeddings)

  unfoldable pub update_embeddings :
      (schema table project pkey pkey_type : Bytes)
      → List (PairedEmbeddings Float)
      → Session (Unit {0})
  unfolding bulk_update_embeddings update_append_table
  update_embeddings schema table project pkey pkey_type embeddings =
      if ltb 10 (length embeddings)
      then bulk_update_embeddings schema table project pkey pkey_type embeddings
      else update_append_table schema table project pkey pkey_type embeddings
