-- ===== src/Extension/Spi.antt =====
-- extension/src/util.rs and extension/src/init.rs: statements that the extension runs in its own
-- session of the database (SPI). An error of the interface itself, as a missing row, is returned and is
-- written `row_not_found`; an error that the database raises unwinds, as a panic. A NULL is left out of
-- its row.
pub mod Sends
use pg_vectorize.Base.{List, [], ◌∷◌, ◌++◌, Option, none, some, Bytes, codes, concat}
use pg_vectorize.Base.Result.{Result, okay, error}
use pg_vectorize.Base.Exec.{
  Exec, ok, err, panicked, ◌>>=◌, DbError, row_not_found, other_db_error, VectorizeError, sql_error,
  internal_error,
}
use pg_vectorize.Base.Session.{Value, text, integer, Request, run, Session, done, then_run, caught}
use pg_vectorize.Types.{
  Model, ModelError, invalid_source, invalid_format, new_model, index_of_string,
}
use pg_vectorize.Types.Params.{VectorizeMeta}

unfoldable pub spi_answer :
    Result DbError (List (List Value)) → Exec (Result DbError (List (List Value)))
spi_answer (okay rows) = ok (okay rows)
spi_answer (error row_not_found) = ok (error row_not_found)
spi_answer (error (other_db_error e)) = panicked

-- A statement whose result is kept.
unfoldable pub spi : Request → Session (Result DbError (List (List Value)))
unfolding spi_answer
spi r oracle sent = (sent ++ r ∷ [], spi_answer (oracle sent r))

unfoldable pub or_sql_error : Result DbError (List (List Value)) → Session (List (List Value))
unfolding done
or_sql_error (okay rows) = done (ok rows)
or_sql_error (error e) = done (err (sql_error e))

-- A statement with `?`.
unfoldable pub spi_run : Request → Session (List (List Value))
unfolding then_run spi or_sql_error
spi_run r = then_run (spi r) or_sql_error

-- Statements in order, `?` behind each.
unfoldable pub spi_all : List Request → Session (Unit {0})
unfolding then_run spi_run done
spi_all [] = done (ok tt)
spi_all (r ∷ requests) = then_run (spi_run r) λ rows. spi_all requests

unfoldable pub first_value : List (List Value) → Session (Option Value)
unfolding done
first_value [] = done (err (sql_error row_not_found))
first_value ([] ∷ rows) = done (ok none)
first_value ((v ∷ row) ∷ rows) = done (ok (some v))

-- `Spi::get_one` with `?`.
unfoldable pub get_one : Request → Session (Option Value)
unfolding then_run spi_run first_value
get_one r = then_run (spi_run r) first_value

unfoldable pub datatype_of :
    (schema table column : Bytes) → Result VectorizeError (Option Value) → Exec Bytes
datatype_of schema table column (okay (some (text data_type))) = ok data_type
datatype_of schema table column (okay none) = err (
    internal_error (
      concat (
        codes "An unknown error occurred while fetching the data type for column `"
        ∷ schema
        ∷ codes "` in `"
        ∷ table
        ∷ codes "."
        ∷ column
        ∷ codes "`."
        ∷ [])))
datatype_of schema table column _ = err (
    internal_error (
      concat (
        codes "One of schema:`"
        ∷ schema
        ∷ codes "`, table:`"
        ∷ table
        ∷ codes "`, column:`"
        ∷ column
        ∷ codes "` does not exist."
        ∷ [])))

unfoldable pub typed_column :
    (schema table column : Bytes) → Result VectorizeError (Option Value) → Session Bytes
unfolding done datatype_of
typed_column schema table column answer = done (datatype_of schema table column answer)

unfoldable pub column_datatype_request : (schema table column : Bytes) → Request
column_datatype_request schema table column =
    run
      (codes
        "\n        SELECT data_type\n        FROM information_schema.columns\n        WHERE\n            table_schema = $1\n            AND table_name = $2\n            AND column_name = $3    \n        ")
      (text schema ∷ text table ∷ text column ∷ [])

unfoldable pub get_column_datatype : (schema table column : Bytes) → Session Bytes
unfolding then_run caught get_one column_datatype_request typed_column
get_column_datatype schema table column =
    then_run (caught (get_one (column_datatype_request schema table column)))
      (typed_column schema table column)

unfoldable pub display_model_error : ModelError → Bytes
display_model_error (invalid_source e) = codes "Invalid model source: " ++ e
display_model_error (invalid_format e) = codes "Invalid model format: " ++ e

-- `Model::new` with `?`; `tables` are the Unicode tables.
unfoldable pub parsed_model : (tables : Bytes → Bytes) → Bytes → Exec Model
unfolding new_model display_model_error
parsed_model tables input = elim (new_model tables input) [
  | okay m ↦ ok m
  | error e ↦ err (internal_error (display_model_error e))
]

unfoldable pub meta_request : Bytes → Request
meta_request job_name =
    run
      (codes
        "\n        SELECT \n            job_id,\n            name,\n            index_dist_type,\n            transformer,\n            params\n        FROM vectorize.job\n        WHERE name = $1\n    ")
      (text job_name ∷ [])

-- A column of another type and a NULL panic (`expect`); an unknown index kind panics behind the model.
unfoldable pub meta_of_rows :
    (tables : Bytes → Bytes) → Bytes → List (List Value) → Exec VectorizeMeta
unfolding parsed_model index_of_string
meta_of_rows tables job_name [] = err (
    internal_error (
      concat (
        codes "project '"
        ∷ job_name
        ∷ codes "' not yet initialized. Please initialize the project."
        ∷ [])))
meta_of_rows tables job_name
      ((integer job_id ∷ text name ∷ text index ∷ text transformer ∷ text params ∷ []) ∷ rows) =
    parsed_model tables transformer >>= λ transformer_model.
    index_of_string index >>= λ index_dist_type. ok (record {
      job_id = job_id;
      name = name;
      index_dist_type = index_dist_type;
      transformer = transformer_model;
      params = params;
    })
meta_of_rows tables job_name _ = panicked

unfoldable pub read_meta :
    (tables : Bytes → Bytes) → Bytes → List (List Value) → Session VectorizeMeta
unfolding done meta_of_rows
read_meta tables job_name rows = done (meta_of_rows tables job_name rows)

unfoldable pub get_vectorize_meta_spi : (tables : Bytes → Bytes) → Bytes → Session VectorizeMeta
unfolding then_run spi_run meta_request read_meta
get_vectorize_meta_spi tables job_name =
    then_run (spi_run (meta_request job_name)) (read_meta tables job_name)
