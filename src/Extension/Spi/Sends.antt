-- ===== src/Extension/Spi/Sends.antt =====
-- Statements of the extension's session that the database answers.
use pg_vectorize.Base.{◌≡◌, ap, sym, ◌∙◌, List, [], ◌∷◌, ◌++◌, append-nil, append_assoc, some}
use pg_vectorize.Base.Result.{okay}
use pg_vectorize.Base.Exec.{ok}
use pg_vectorize.Base.Session.{Value, Request, Oracle, done, then_run-ok, Answers}
use pg_vectorize.Extension.Spi.{spi, or_sql_error, spi_run, spi_all, first_value, get_one}

pub spi-okay :
    (r : Request) (oracle : Oracle) (sent : List Request) {rows : List (List Value)}
    → oracle sent r ≡ okay rows
    → spi r oracle sent ≡ (sent ++ r ∷ [], ok (okay rows))
unfolding spi
spi-okay r oracle sent e = rw (e, spi)

pub spi_run-okay :
    (r : Request) (oracle : Oracle) (sent : List Request) {rows : List (List Value)}
    → oracle sent r ≡ okay rows
    → spi_run r oracle sent ≡ (sent ++ r ∷ [], ok rows)
unfolding spi_run or_sql_error done
spi_run-okay r oracle sent e =
    then_run-ok (spi r) or_sql_error oracle sent (spi-okay r oracle sent e)

pub get_one-okay :
    (r : Request) (oracle : Oracle) (sent : List Request) {v : Value} {row : List Value}
    {rows : List (List Value)}
    → oracle sent r ≡ okay ((v ∷ row) ∷ rows)
    → get_one r oracle sent ≡ (sent ++ r ∷ [], ok (some v))
unfolding get_one first_value done
get_one-okay r oracle sent e =
    then_run-ok (spi_run r) first_value oracle sent (spi_run-okay r oracle sent e)

pub spi_all-sends :
    (rs : List Request) (oracle : Oracle) (sent : List Request)
    → Answers oracle sent rs
    → spi_all rs oracle sent ≡ (sent ++ rs, ok tt)
unfolding spi_all
spi_all-sends [] oracle sent h = ap (λ s. (s, ok tt)) (sym (append-nil sent))
spi_all-sends (r ∷ rs) oracle sent ((rows, e), h) =
    then_run-ok (spi_run r) (λ _. spi_all rs) oracle sent (spi_run-okay r oracle sent e)
    ∙ (spi_all-sends rs oracle (sent ++ r ∷ []) h
        ∙ ap (λ s. (s, ok tt)) (append_assoc sent (r ∷ []) rs))
