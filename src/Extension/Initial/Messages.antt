-- ===== src/Extension/Initial/Messages.antt =====
-- extension/src/job.rs: which messages are sent for the rows that a table has.
use pg_vectorize.Base.{◌≡◌, List}
use pg_vectorize.Base.Result.{Result}
use pg_vectorize.Base.Exec.{DbError, ok}
use pg_vectorize.Base.Session.{Value, Request, Oracle}
use pg_vectorize.Extension.Spi.{spi_answer}

-- No statement raises an error; the interface may still return one.
abbrev pub RaisesNothing : Oracle → Type 0
RaisesNothing oracle =
    (sent : List Request) (r : Request)
    → (answer : Result DbError (List (List Value))) × (spi_answer (oracle sent r) ≡ ok answer)
