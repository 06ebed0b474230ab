-- ===== src/Examples/Documents.antt =====
-- A table that is cut into chunks, embeddings that are imported, and the first messages of a job.
use pg_vectorize.Base.{
  if◌then◌else◌, ℕ, ◌≡◌, refl, none, List, [], ◌∷◌, Bytes, codes, take, drop, length, get_elem?,
  some, arith, text_eq,
}
use pg_vectorize.Base.Int.{pos}
use pg_vectorize.Base.Result.{Result, okay, error}
use pg_vectorize.Base.Exec.{ok, row_not_found}
use pg_vectorize.Base.Session.{text, integer, Request, run, Oracle}
use pg_vectorize.Types.Params.{TableMethod, JobParams}
use pg_vectorize.Transformers.{Inputs}
use pg_vectorize.Extension.Chunks.{select_documents, create_chunks_table, chunk_table}
use pg_vectorize.Extension.Chunks.FirstRow.{IsAnswered, insertion, chunk_table-first_row}

-- Every statement but the query for the texts is answered with no rows; the table has two texts.
abbrev two_texts : Oracle
two_texts [] r =
    okay
      ((integer (pos 7) ∷ text (codes "abc") ∷ []) ∷ (integer (pos 8) ∷ text (codes "d") ∷ []) ∷ [])
two_texts _ r = okay []

-- A splitter that cuts after the first byte.
abbrev splitter : ℕ → Bytes → List Bytes
splitter n document = take 1 document ∷ drop 1 document ∷ []

two_texts-answers : (sent : List Request) (r : Request) → IsAnswered two_texts sent r
two_texts-answers [] r = (_, refl)
two_texts-answers (q ∷ sent) r = (_, refl)

chunk_table-first_row_example :
    (inserts : List Request) × (chunk_table splitter
        (codes "t")
        (codes "c")
        (codes "id")
        (pos 2)
        (codes "o")
        two_texts
        []
      ≡ (
        select_documents (codes "t") (codes "c") (codes "id")
            ∷ run (create_chunks_table (codes "o")) []
            ∷ inserts,
        ok (codes "Chunked data inserted into table: o"),
      ))
    × (length inserts ≡ 2)
    × (get_elem? inserts 1 ≡ some (insertion (codes "o") (pos 7) 1 (codes "bc")))
chunk_table-first_row_example =
    chunk_table-first_row splitter (codes "t") (codes "c") (codes "id") (codes "o") (codes "abc") 2
      (pos 7) ((integer (pos 8) ∷ text (codes "d") ∷ []) ∷ []) two_texts [] refl two_texts-answers 1
      (codes "bc") refl (omega arith)

abbrev realtime_params : JobParams
realtime_params = record {
  schema = codes "public";
  relation = codes "products";
  columns = codes "name" ∷ [];
  update_time_col = none;
  table_method = TableMethod.join;
  primary_key = codes "id";
  pkey_type = codes "integer";
  api_key = none;
  schedule = codes "realtime";
  args = none;
}

abbrev manual_params : JobParams
manual_params = record realtime_params { schedule = codes "manual" }

abbrev parse_params : Bytes → Result Bytes JobParams
parse_params document =
    if text_eq document (codes "m") then okay manual_params else okay realtime_params

abbrev two_records : Oracle
two_records [] r = okay (
    (text (codes "1") ∷ text (codes "pen") ∷ [])
    ∷ (text (codes "2") ∷ text (codes "cup") ∷ [])
    ∷ [])
two_records _ r = error row_not_found

abbrev two_inputs : List Inputs
two_inputs =
    record { record_id = codes "1"; inputs = codes "pen"; token_estimate = pos 1 }
    ∷ record { record_id = codes "2"; inputs = codes "cup"; token_estimate = pos 1 }
    ∷ []
