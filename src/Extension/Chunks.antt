-- ===== src/Extension/Chunks.antt =====
-- extension/src/api.rs: `chunk_table`, which cuts the texts of a table into chunks.
pub mod FirstRow
use pg_vectorize.Base.{ℕ, ◌+◌, List, [], ◌∷◌, ◌++◌, Option, none, some, Bytes, codes, concat}
use pg_vectorize.Base.Int.{ℤ, pos, negsuc, wrap_i32, i32_as_usize}
use pg_vectorize.Base.Result.{Result, okay, error}
use pg_vectorize.Base.Exec.{
  Exec, ok, err, panicked, ◌>>=◌, row_not_found, DbError, sql_error, internal_error,
}
use pg_vectorize.Base.Session.{Value, text, integer, Request, run, Session, done, then_run}
use pg_vectorize.Extension.Spi.{spi, spi_run, spi_all}

-- `Spi::get_two`: the first two columns of the first row; a NULL is no value, and is left out of its
-- row, so that a row of one column has a NULL and is not chunked.
unfoldable pub first_two : List (List Value) → Exec (Option (ℤ × Bytes))
first_two [] = err (sql_error row_not_found)
first_two ((integer id ∷ text document ∷ row) ∷ rows) = ok (some (id, document))
first_two ([] ∷ rows) = ok none
first_two ((v ∷ []) ∷ rows) = ok none
first_two _ = err (sql_error row_not_found)

unfoldable pub create_chunks_table : Bytes → Bytes
create_chunks_table output_table = concat (
    codes "CREATE TABLE IF NOT EXISTS "
    ∷ output_table
    ∷ codes " (id SERIAL PRIMARY KEY, original_id INT, chunk_index INT, chunk TEXT)"
    ∷ [])

unfoldable pub insert_chunk : (output_table : Bytes) → ℤ → ℕ → Bytes → Request
insert_chunk output_table original_id chunk_index chunk =
    run
      (concat (
        codes "INSERT INTO "
        ∷ output_table
        ∷ codes " (original_id, chunk_index, chunk) VALUES ($1, $2, $3)"
        ∷ []))
      (integer original_id ∷ integer (wrap_i32 (pos chunk_index)) ∷ text chunk ∷ [])

-- `chunked_rows` of one row, from the chunk `i` on, as the statements that insert them.
unfoldable pub insert_chunks : (output_table : Bytes) → ℤ → ℕ → List Bytes → List Request
unfolding insert_chunk
insert_chunks output_table id i [] = []
insert_chunks output_table id i (chunk ∷ chunks) =
    insert_chunk output_table id i chunk ∷ insert_chunks output_table id (i + 1) chunks

-- The text of the interface's error is left out.
unfoldable pub chunks_created : Bytes → Result DbError (List (List Value)) → Session (Unit {0})
unfolding done
chunks_created output_table (okay rows) = done (ok tt)
chunks_created output_table (error e) =
    done (err (internal_error (codes "Failed to create table " ++ output_table)))

unfoldable pub select_documents : (input_table column_name primary_key : Bytes) → Request
select_documents input_table column_name primary_key =
    run
      (concat (
        codes "SELECT "
        ∷ primary_key
        ∷ codes ", "
        ∷ column_name
        ∷ codes " FROM "
        ∷ input_table
        ∷ []))
      []

-- The text splitter of a library: the chunks of a text for a maximum of characters.
module _ (splitter : ℕ → Bytes → List Bytes) where
  unfoldable pub chunk_text : Bytes → (max_characters : ℤ) → List Bytes
  unfolding i32_as_usize
  chunk_text document max_characters = splitter (i32_as_usize max_characters) document

  -- A size that is negative panics, as a `usize` that is no `i64`.
  unfoldable pub chunk_inserts :
      (output_table : Bytes) → ℤ → Option (ℤ × Bytes) → Exec (List Request)
  unfolding insert_chunks chunk_text
  chunk_inserts output_table max_chunk_size none = ok []
  chunk_inserts output_table (negsuc n) (some (id, document)) = panicked
  chunk_inserts output_table (pos n) (some (id, document)) =
      ok (insert_chunks output_table id 0 (chunk_text document (pos n)))

  unfoldable pub write_chunks : (output_table : Bytes) → List Request → Session Bytes
  unfolding then_run spi create_chunks_table chunks_created spi_all done
  write_chunks output_table inserts =
      then_run (spi (run (create_chunks_table output_table) [])) λ answer.
        then_run (chunks_created output_table answer) λ _.
          then_run (spi_all inserts)
            λ _. done (ok (codes "Chunked data inserted into table: " ++ output_table))

  unfoldable pub chunk_table :
      (input_table column_name primary_key : Bytes) (max_chunk_size : ℤ) (output_table : Bytes)
      → Session Bytes
  unfolding then_run spi_run select_documents done first_two chunk_inserts write_chunks
  chunk_table input_table column_name primary_key max_chunk_size output_table =
      then_run (spi_run (select_documents input_table column_name primary_key)) λ rows.
        then_run (done (first_two rows >>= chunk_inserts output_table max_chunk_size))
          (write_chunks output_table)
