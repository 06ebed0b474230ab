-- ===== src/Base/Session.antt =====
-- Code that talks to the database and to its queue: what it sends, in order, and its outcome.
-- What is answered is the parameter `Oracle`: any function of the requests so far and the next one.
pub mod Hoare
use pg_vectorize.Base.{
  ℕ, Bool, ◌≡◌, refl, ap, sym, ◌∙◌, List, [], ◌∷◌, ◌++◌, append-nil, append_assoc, Bytes,
}
use pg_vectorize.Base.Int.{ℤ}
use pg_vectorize.Base.Result.{Result, okay, error}
use pg_vectorize.Base.Exec.{Exec, ok, err, panicked, VectorizeError, DbError, sql_error}

-- What is bound to a parameter and what a column holds. A document is given by its texts: the name of
-- the job and the ids of the records of a message. Numbers with a fraction are given by the bytes
-- that they are sent as.
pub data Value : Type 0 where
  text : Bytes → Value
  texts : List Bytes → Value
  integer : ℤ → Value
  boolean : Bool → Value
  float : Bytes → Value
  floats : List Bytes → Value
  message : Bytes → List Bytes → Value

-- One statement with its parameters, on a connection or inside the open transaction, or a call of the
-- queue's library: to read one message and hide it for some seconds, to delete one, and to send
-- one with the name of a job and the ids of its records.
pub data Request : Type 0 where
  begin commit : Request
  read_queue : Bytes → ℤ → Request
  delete_from_queue : Bytes → ℤ → Request
  send_to_queue : Bytes → Bytes → List Bytes → Request
  run : Bytes → List Value → Request

abbrev pub Oracle : Type 0
Oracle = List Request → Request → Result DbError (List (List Value))

-- A session goes on from the requests that were sent before it.
abbrev pub Session {ℓ} : Type ℓ → Type ℓ
Session A = Oracle → List Request → List Request × Exec A

unfoldable pub done {ℓ} : {A : Type ℓ} → Exec A → Session A
done r oracle sent = (sent, r)

unfoldable pub after {ℓ κ} :
    {A : Type ℓ} {B : Type κ}
    → (A → Session B)
    → Oracle
    → List Request × Exec A
    → List Request × Exec B
after f oracle (sent, ok a) = f a oracle sent
after f oracle (sent, err e) = (sent, err e)
after f oracle (sent, panicked) = (sent, panicked)

unfoldable pub then_run {ℓ κ} : {A : Type ℓ} {B : Type κ} → Session A → (A → Session B) → Session B
unfolding after
then_run m f oracle sent = after f oracle (m oracle sent)

-- A request whose answer is kept, an error included.
unfoldable pub attempt : Request → Session (Result DbError (List (List Value)))
attempt r oracle sent = (sent ++ r ∷ [], ok (oracle sent r))

-- `.await?` on a request: an error of the database is returned.
unfoldable pub send : Request → Session (List (List Value))
send r oracle sent = elim (oracle sent r) [
  | okay rows ↦ (sent ++ r ∷ [], ok rows)
  | error e ↦ (sent ++ r ∷ [], err (sql_error e))
]

-- The result of code as a value, for `map_err` and for `match`.
unfoldable pub kept {ℓ} :
    {A : Type ℓ} → List Request × Exec A → List Request × Exec (Result VectorizeError A)
kept (sent, ok a) = (sent, ok (okay a))
kept (sent, err e) = (sent, ok (error e))
kept (sent, panicked) = (sent, panicked)

unfoldable pub caught {ℓ} : {A : Type ℓ} → Session A → Session (Result VectorizeError A)
unfolding kept
caught m oracle sent = kept (m oracle sent)

-- The requests of a list in order, `?` behind each.
unfoldable pub send_all : List Request → Session (Unit {0})
unfolding then_run send done
send_all [] = done (ok tt)
send_all (r ∷ rs) = then_run (send r) λ _. send_all rs

-- The requests of a list in order, whatever is answered.
unfoldable pub attempt_all : List Request → Session (Unit {0})
unfolding then_run attempt done
attempt_all [] = done (ok tt)
attempt_all (r ∷ rs) = then_run (attempt r) λ _. attempt_all rs

pub attempt_all-sends :
    (rs : List Request) (oracle : Oracle) (sent : List Request)
    → attempt_all rs oracle sent ≡ (sent ++ rs, ok tt)
unfolding attempt_all
attempt_all-sends [] oracle sent = ap (λ s. (s, ok tt)) (sym (append-nil sent))
attempt_all-sends (r ∷ rs) oracle sent =
    attempt_all-sends rs oracle (sent ++ r ∷ [])
    ∙ ap (λ s. (s, ok tt)) (append_assoc sent (r ∷ []) rs)

-- The database answers each request of a list, sent in order, without an error.
abbrev pub Answers : Oracle → List Request → List Request → Type 0
Answers oracle sent [] = Unit
Answers oracle sent (r ∷ rs) =
    ((rows : List (List Value)) × (oracle sent r ≡ okay rows)) × Answers oracle (sent ++ r ∷ []) rs

pub then_run-ok {ℓ κ} :
    {A : Type ℓ} {B : Type κ} (m : Session A) (f : A → Session B) (oracle : Oracle)
    (sent : List Request) {sent' : List Request} {a : A}
    → m oracle sent ≡ (sent', ok a)
    → then_run m f oracle sent ≡ f a oracle sent'
unfolding then_run after
then_run-ok m f oracle sent e = ap (after f oracle) e

pub then_run-err {ℓ κ} :
    {A : Type ℓ} {B : Type κ} (m : Session A) (f : A → Session B) (oracle : Oracle)
    (sent : List Request) {sent' : List Request} {e : VectorizeError}
    → m oracle sent ≡ (sent', err e)
    → then_run m f oracle sent ≡ (sent', err e)
unfolding then_run after
then_run-err m f oracle sent e = ap (after f oracle) e

pub send-okay :
    (r : Request) (oracle : Oracle) (sent : List Request) {rows : List (List Value)}
    → oracle sent r ≡ okay rows
    → send r oracle sent ≡ (sent ++ r ∷ [], ok rows)
unfolding send
send-okay r oracle sent e = rw (e, send)

pub send-error :
    (r : Request) (oracle : Oracle) (sent : List Request) {e : DbError}
    → oracle sent r ≡ error e
    → send r oracle sent ≡ (sent ++ r ∷ [], err (sql_error e))
unfolding send
send-error r oracle sent e = rw (e, send)

pub send_all-sends :
    (rs : List Request) (oracle : Oracle) (sent : List Request)
    → Answers oracle sent rs
    → send_all rs oracle sent ≡ (sent ++ rs, ok tt)
unfolding send_all
send_all-sends [] oracle sent h = ap (λ s. (s, ok tt)) (sym (append-nil sent))
send_all-sends (r ∷ rs) oracle sent ((rows, e), h) =
    then_run-ok (send r) (λ _. send_all rs) oracle sent (send-okay r oracle sent e)
    ∙ (send_all-sends rs oracle (sent ++ r ∷ []) h
        ∙ ap (λ s. (s, ok tt)) (append_assoc sent (r ∷ []) rs))

-- What holds behind a session whose errors are values: of each result, and of a panic.
pub caught-then_run {ℓ κ ν} :
    {A : Type ℓ} {B : Type κ} (P : List Request × Exec B → Type ν) (m : Session A)
    (f : Result VectorizeError A → Session B) (oracle : Oracle) (sent : List Request)
    → ((sent' : List Request) (r : Result VectorizeError A) → P (f r oracle sent'))
    → ((sent' : List Request) → P (sent', panicked))
    → P (then_run (caught m) f oracle sent)
unfolding then_run after caught kept
caught-then_run {A = A} P m f oracle sent each panics = go (m oracle sent)
  where
    go : (r : List Request × Exec A) → P (after f oracle (kept r))
    go (s, ok a) = each s (okay a)
    go (s, err e) = each s (error e)
    go (s, panicked) = panics s

-- What holds behind the first part of a session: of each value that it returns, of each error, and of
-- a panic.
pub then_run-each {ℓ κ ν} :
    {A : Type ℓ} {B : Type κ} (P : List Request × Exec B → Type ν) (m : Session A)
    (f : A → Session B) (oracle : Oracle) (sent : List Request)
    → ((sent' : List Request) (a : A) → P (f a oracle sent'))
    → ((sent' : List Request) (e : VectorizeError) → P (sent', err e))
    → ((sent' : List Request) → P (sent', panicked))
    → P (then_run m f oracle sent)
unfolding then_run after
then_run-each {A = A} P m f oracle sent each fails panics = go (m oracle sent)
  where
    go : (r : List Request × Exec A) → P (after f oracle r)
    go (s, ok a) = each s a
    go (s, err e) = fails s e
    go (s, panicked) = panics s
