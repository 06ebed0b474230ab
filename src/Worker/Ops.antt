-- ===== src/Worker/Ops.antt =====
-- worker/src/ops.rs: the statement that stores embeddings.
pub mod Placeholders
use pg_vectorize.Base.{
  ℕ, ◌+◌, ◌*◌, List, [], ◌∷◌, ◌++◌, Bytes, codes, map, concat, ltb, if◌then◌else◌,
}
use pg_vectorize.Base.Numbers.{decimal}
use pg_vectorize.Base.Result.{Result, okay, error}
use pg_vectorize.Base.Exec.{Exec, ok, err, internal_error, DbError}
use pg_vectorize.Base.Session.{Value, text, Request, run, Session, done, then_run, attempt}
use pg_vectorize.Transformers.{PairedEmbeddings}

-- `Float` and `serialize`, the JSON form of an embedding, belong to the serializer's library;
-- `display_db` is the text of a database error.
module _ {Float : Type 0} (serialize : List Float → Bytes) where
  -- One group of placeholders, `2 * index + 1` and `2 * index + 2`.
  unfoldable pub value_group : Bytes → ℕ → Bytes
  value_group pkey_type index = concat (
      codes " ($"
      ∷ decimal (2 * index + 1)
      ∷ codes "::"
      ∷ pkey_type
      ∷ codes ", $"
      ∷ decimal (2 * index + 2)
      ∷ codes "::vector)"
      ∷ [])

  -- The loop over the enumerated pairs, with its two variables.
  unfoldable pub upsert_loop :
      Bytes
      → ℕ
      → Bytes
      → List (Bytes × Bytes)
      → List (PairedEmbeddings Float)
      → Bytes × List (Bytes × Bytes)
  unfolding value_group
  upsert_loop pkey_type index query bindings [] = (query, bindings)
  upsert_loop pkey_type index query bindings (pair ∷ rest) =
      let separated = if ltb 0 index then query ++ codes "," else query in
      upsert_loop pkey_type (index + 1) (separated ++ value_group pkey_type index)
        (bindings ++ (pair.primary_key, serialize pair.embeddings) ∷ []) rest

  -- The two ends of the statement.
  unfoldable pub insert_into : Bytes → Bytes → Bytes → Bytes
  insert_into project pkey schema = concat (
      codes "\n        INSERT INTO "
      ∷ schema
      ∷ codes "._embeddings_"
      ∷ project
      ∷ codes " ("
      ∷ pkey
      ∷ codes ", embeddings) VALUES"
      ∷ [])

  unfoldable pub on_conflict : Bytes → Bytes
  on_conflict pkey = concat (
      codes " ON CONFLICT ("
      ∷ pkey
      ∷ codes ")\n        DO UPDATE SET embeddings = EXCLUDED.embeddings, updated_at = NOW();"
      ∷ [])

  unfoldable pub build_upsert_query :
      Bytes → List (PairedEmbeddings Float) → Bytes → Bytes → Bytes → Bytes × List (Bytes × Bytes)
  unfolding upsert_loop
  build_upsert_query project embeddings pkey pkey_type schema =
      let (query, bindings) =
        upsert_loop pkey_type 0 (insert_into project pkey schema) [] embeddings in
      (query ++ on_conflict pkey, bindings)

  -- The values in the order in which they are bound.
  unfoldable pub bound : List (Bytes × Bytes) → List Value
  bound [] = []
  bound ((record_id, embeddings) ∷ bindings) = text record_id ∷ text embeddings ∷ bound bindings

  unfoldable pub executed :
      (DbError → Bytes) → Result DbError (List (List Value)) → Session (Unit {0})
  unfolding done
  executed display_db (okay rows) = done (ok tt)
  executed display_db (error e) =
      done (err (internal_error (codes "failed to execute query: " ++ display_db e)))

  unfoldable pub upsert_embedding_table :
      (DbError → Bytes)
      → Bytes
      → List (PairedEmbeddings Float)
      → Bytes
      → Bytes
      → Bytes
      → Session (Unit {0})
  unfolding build_upsert_query bound then_run attempt executed
  upsert_embedding_table display_db project embeddings schema pkey pkey_type =
      let (query, bindings) = build_upsert_query project embeddings pkey pkey_type schema in
      then_run (attempt (run query (bound bindings))) (executed display_db)
