-- ===== src/Base/Session/Hoare.antt =====
-- What holds of the requests that a session sends, at a database that answers in some way.
use pg_vectorize.Base.{◌≡◌, refl, List, [], ◌∷◌, ◌++◌}
use pg_vectorize.Base.Result.{Result, okay, error}
use pg_vectorize.Base.Exec.{Exec, ok, err, panicked, DbError, sql_error}
use pg_vectorize.Base.Session.{
  Value, Request, Oracle, Session, done, then_run, after, send, attempt,
}

-- `Q` of the requests so far if a value was returned, and `R` in any case.
abbrev pub Outcome {ℓ} :
    {A : Type ℓ}
    → (List Request → Type 0)
    → (List Request → Type 0)
    → List Request × Exec A
    → Type 0
Outcome Q R (sent, ok a) = Q sent × R sent
Outcome Q R (sent, err e) = R sent
Outcome Q R (sent, panicked) = R sent

-- From requests with `P`.
unfoldable pub Triple {ℓ} :
    {A : Type ℓ} → Oracle → (P Q R : List Request → Type 0) → Session A → Type 0
Triple oracle P Q R m = (sent : List Request) → P sent → Outcome Q R (m oracle sent)

module _ (oracle : Oracle) where
  pub then_run-Triple {ℓ κ} :
      {A : Type ℓ} {B : Type κ} (P Q S R : List Request → Type 0) (m : Session A)
      (f : A → Session B)
      → Triple oracle P Q R m
      → ((a : A) → Triple oracle Q S R (f a))
      → Triple oracle P S R (then_run m f)
  unfolding Triple then_run after
  then_run-Triple {A = A} P Q S R m f hm hf sent p = go (m oracle sent) (hm sent p)
    where
      go : (r : List Request × Exec A) → Outcome Q R r → Outcome S R (after f oracle r)
      go (s, ok a) (q, r) = hf a s q
      go (s, err e) r = r
      go (s, panicked) r = r

  -- A request that is answered, and one that is refused.
  pub send-Triple :
      (P Q R : List Request → Type 0) (r : Request)
      → ((sent : List Request) (rows : List (List Value))
          → P sent
          → oracle sent r ≡ okay rows
          → Q (sent ++ r ∷ []))
      → ((sent : List Request) → P sent → R (sent ++ r ∷ []))
      → Triple oracle P Q R (send r)
  unfolding Triple send
  send-Triple P Q R r hq hr sent p = go (oracle sent r) refl
    where
      go :
          (a : Result DbError (List (List Value)))
          → oracle sent r ≡ a
          → Outcome Q R (elim a as (λ _. List Request × Exec (List (List Value))) [
            | okay rows ↦ (sent ++ r ∷ [], ok rows)
            | error e ↦ (sent ++ r ∷ [], err (sql_error e))
          ])
      go (okay rows) e = (hq sent rows p e, hr sent p)
      go (error x) e = hr sent p

  pub done-Triple {ℓ} :
      {A : Type ℓ} (P R : List Request → Type 0) (r : Exec A)
      → ((sent : List Request) → P sent → R sent)
      → Triple oracle P P R (done r)
  unfolding Triple done
  done-Triple P R (ok a) h sent p = (p, h sent p)
  done-Triple P R (err e) h sent p = h sent p
  done-Triple P R panicked h sent p = h sent p

  pub attempt-Triple :
      (P Q R : List Request → Type 0) (r : Request)
      → ((sent : List Request) → P sent → Q (sent ++ r ∷ []) × R (sent ++ r ∷ []))
      → Triple oracle P Q R (attempt r)
  unfolding Triple attempt
  attempt-Triple P Q R r h sent p = h sent p
