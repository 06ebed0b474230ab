-- ===== src/Extension/Chunks/FirstRow.antt =====
-- extension/src/api.rs: which rows `chunk_table` chunks.
use pg_vectorize.Base.{
  ℕ, zero, suc, ◌+◌, ◌^◌, ◌<◌, ◌≡◌, refl, ap, ◌∙◌, arith, List, [], ◌∷◌, ◌++◌, append_assoc,
  append-nil, Bytes, codes, some, length, get_elem?,
}
use pg_vectorize.Base.Int.{ℤ, pos, wrap_i32-pos}
use pg_vectorize.Base.Result.{okay}
use pg_vectorize.Base.Exec.{ok, ◌>>=◌}
use pg_vectorize.Base.Session.{
  Value, text, integer, Request, run, Oracle, Session, done, then_run, then_run-ok, Answers,
}
use pg_vectorize.Extension.Spi.{spi, spi_run, spi_all}
use pg_vectorize.Extension.Spi.Sends.{spi-okay, spi_run-okay, spi_all-sends}
use pg_vectorize.Extension.Chunks.{
  select_documents, create_chunks_table, chunks_created, insert_chunk, insert_chunks, first_two,
  chunk_text, chunk_inserts, write_chunks, chunk_table,
}

-- The database answers a request without an error.
abbrev pub IsAnswered : Oracle → List Request → Request → Type 0
IsAnswered oracle sent r = (rows : List (List Value)) × (oracle sent r ≡ okay rows)

-- The statement that stores the chunk at the position `i` of the text of the row `id`.
abbrev pub insertion : (output_table : Bytes) → ℤ → ℕ → Bytes → Request
insertion output_table id i chunk =
    run
      (codes "INSERT INTO "
        ++ (output_table ++ codes " (original_id, chunk_index, chunk) VALUES ($1, $2, $3)"))
      (integer id ∷ integer (pos i) ∷ text chunk ∷ [])

Answers-all :
    (oracle : Oracle) (sent requests : List Request)
    → ((s : List Request) (r : Request) → IsAnswered oracle s r)
    → Answers oracle sent requests
Answers-all oracle sent [] h = tt
Answers-all oracle sent (r ∷ requests) h =
    (h sent r, Answers-all oracle (sent ++ r ∷ []) requests h)

length-insert_chunks :
    (output_table : Bytes) (id : ℤ) (k : ℕ) (chunks : List Bytes)
    → length (insert_chunks output_table id k chunks) ≡ length chunks
unfolding insert_chunks
length-insert_chunks output_table id k [] = refl
length-insert_chunks output_table id k (c ∷ chunks) =
    ap suc (length-insert_chunks output_table id (k + 1) chunks)

-- The `i`-th statement from the position `k` on.
get-insert_chunks :
    (output_table : Bytes) (id : ℤ) (k i : ℕ) (chunk : Bytes) (chunks : List Bytes)
    → get_elem? chunks i ≡ some chunk
    → k + i < 2 ^ 31
    → get_elem? (insert_chunks output_table id k chunks) i
      ≡ some (insertion output_table id (k + i) chunk)
unfolding insert_chunks insert_chunk
get-insert_chunks output_table id k i chunk [] e small = cc
get-insert_chunks output_table id k zero chunk (c ∷ chunks) e small =
    let same : c ≡ chunk = cc in
    let here : k + 0 ≡ k = omega arith in
    rw (same, here, wrap_i32-pos k (omega arith), append-nil) refl
get-insert_chunks output_table id k (suc i) chunk (c ∷ chunks) e small =
    get-insert_chunks output_table id (k + 1) i chunk chunks e (omega arith)
    ∙ ap (λ n. some (insertion output_table id n chunk)) (omega arith)

module _ (splitter : ℕ → Bytes → List Bytes) where
  write_chunks-sends :
      (output_table : Bytes) (inserts : List Request) (created : List (List Value))
      (oracle : Oracle) (sent : List Request)
      → oracle sent (run (create_chunks_table output_table) []) ≡ okay created
      → Answers oracle (sent ++ run (create_chunks_table output_table) [] ∷ []) inserts
      → write_chunks splitter output_table inserts oracle sent ≡ (
        (sent ++ run (create_chunks_table output_table) [] ∷ []) ++ inserts,
        ok (codes "Chunked data inserted into table: " ++ output_table),
      )
  unfolding write_chunks chunks_created done
  write_chunks-sends output_table inserts created oracle sent made inserted =
      then_run-ok (spi (run (create_chunks_table output_table) []))
        (λ answer. then_run (chunks_created output_table answer) λ _. written inserts) oracle sent
        (spi-okay (run (create_chunks_table output_table) []) oracle sent made)
      ∙ then_run-ok (spi_all inserts) (λ _. reported) oracle
          (sent ++ run (create_chunks_table output_table) [] ∷ [])
          (spi_all-sends inserts oracle (sent ++ run (create_chunks_table output_table) [] ∷ [])
            inserted)
    where
      reported : Session Bytes
      reported = done (ok (codes "Chunked data inserted into table: " ++ output_table))

      written : List Request → Session Bytes
      written requests = then_run (spi_all requests) λ _. reported

  -- Of the rows of the table, only the first one is chunked, whatever rows follow: if the database
  -- answers, what is sent is the query, the creation of the table of chunks and then one insertion
  -- for each chunk of the first row's text, of which the one for the chunk `i` binds the row's id,
  -- `i`, counted from 0 and below the bound of an i32, and the chunk.
  pub chunk_table-first_row :
      (input_table column_name primary_key output_table document : Bytes) (max_chunk_size : ℕ)
      (id : ℤ) (rows : List (List Value)) (oracle : Oracle) (sent : List Request)
      → oracle sent (select_documents input_table column_name primary_key)
        ≡ okay ((integer id ∷ text document ∷ []) ∷ rows)
      → ((s : List Request) (r : Request) → IsAnswered oracle s r)
      → (i : ℕ) (chunk : Bytes) → get_elem? (splitter max_chunk_size document) i ≡ some chunk
      → i < 2 ^ 31
      → (inserts : List Request) × (chunk_table splitter input_table column_name primary_key
            (pos max_chunk_size)
            output_table
            oracle
            sent
          ≡ (
            sent
                ++ select_documents input_table column_name primary_key
                  ∷ run (create_chunks_table output_table) []
                  ∷ inserts,
            ok (codes "Chunked data inserted into table: " ++ output_table),
          ))
        × (length inserts ≡ length (splitter max_chunk_size document))
        × (get_elem? inserts i ≡ some (insertion output_table id i chunk))
  unfolding chunk_table first_two chunk_inserts chunk_text done
  chunk_table-first_row input_table column_name primary_key output_table document max_chunk_size id
        rows oracle sent selected answers i chunk e small =
      let query = select_documents input_table column_name primary_key in
      let create = run (create_chunks_table output_table) [] in
      let inserts = insert_chunks output_table id 0 (splitter max_chunk_size document) in
      let (created, made) = answers (sent ++ query ∷ []) create in
      (
        inserts,
        then_run-ok (spi_run query)
              (λ read.
                then_run
                  (done
                    (first_two read >>= chunk_inserts splitter output_table (pos max_chunk_size)))
                  (write_chunks splitter output_table))
              oracle sent (spi_run-okay query oracle sent selected)
            ∙ (write_chunks-sends output_table inserts created oracle (sent ++ query ∷ []) made
                  (Answers-all oracle ((sent ++ query ∷ []) ++ create ∷ []) inserts answers)
                ∙ ap (λ s. (s, ok (codes "Chunked data inserted into table: " ++ output_table)))
                    (append_assoc (sent ++ query ∷ []) (create ∷ []) inserts
                      ∙ append_assoc sent (query ∷ []) (create ∷ inserts))),
        length-insert_chunks output_table id 0 (splitter max_chunk_size document),
        get-insert_chunks output_table id 0 i chunk (splitter max_chunk_size document) e
              (omega arith)
            ∙ ap (λ n. some (insertion output_table id n chunk)) (omega arith),
      )
