-- ===== src/Base/Exec.antt =====
-- The outcome of fallible code: a value, an error that is returned, or a panic of the thread.
-- `VectorizeError` is core/src/errors.rs; an error of `anyhow` or of a library is carried as its
-- message, and an error of the database as `DbError`.
use pg_vectorize.Base.{◌≡◌, refl, Bytes}

pub data DbError : Type 0 where
  row_not_found : DbError
  other_db_error : Bytes → DbError

pub data DatabaseError : Type 0 where
  db : DbError → DatabaseError
  io : Bytes → DatabaseError
  serde : Bytes → DatabaseError

pub data VectorizeError : Type 0 where
  database_error : DatabaseError → VectorizeError
  sql_error : DbError → VectorizeError
  reqwest_error : Bytes → VectorizeError
  serde_error : Bytes → VectorizeError
  internal_error : Bytes → VectorizeError
  not_found : Bytes → VectorizeError
  model_not_found : Bytes → VectorizeError
  ollama_error : Bytes → VectorizeError
  env_error : Bytes → VectorizeError
  job_not_found : Bytes → VectorizeError
  embedding_generation_failed : Bytes → VectorizeError
  pgmq_error : Bytes → VectorizeError

pub data Exec {ℓ} (A : Type ℓ) : Type ℓ where
  ok : A → Exec A
  err : VectorizeError → Exec A
  panicked : Exec A

-- The rest of the code after `m`; an error returns at once and a panic unwinds.
infixl 5 ◌>>=◌
abbrev pub ◌>>=◌ {κ ν} : {S : Type κ} {T : Type ν} (m : Exec S) (rest : S → Exec T) → Exec T
panicked >>= rest = panicked
err failure >>= rest = err failure
ok result >>= rest = rest result

-- `if let Ok(v) = m { some(v) } else { none }`: an error is dropped, a panic is not.
abbrev pub if_ok {ℓ κ} : {A : Type ℓ} {B : Type κ} → Exec A → (A → B) → B → Exec B
if_ok (ok a) f b = ok (f a)
if_ok (err e) f b = ok b
if_ok panicked f b = panicked

-- Where code returned, its first part did.
pub >>=-eq-ok {κ ν} :
    {S : Type κ} {T : Type ν} (first : Exec S) (rest : S → Exec T) {result : T}
    → (first >>= rest) ≡ ok result
    → (middle : S) × (first ≡ ok middle) × (rest middle ≡ ok result)
>>=-eq-ok panicked rest returned = cc
>>=-eq-ok (err failure) rest returned = cc
>>=-eq-ok (ok middle) rest returned = (middle, refl, returned)

pub >>=_assoc {ℓ κ ν} :
    {A : Type ℓ} {B : Type κ} {C : Type ν} (m : Exec A) (f : A → Exec B) (g : B → Exec C)
    → ((m >>= f) >>= g) ≡ (m >>= λ a. f a >>= g)
>>=_assoc (ok a) f g = refl
>>=_assoc (err e) f g = refl
>>=_assoc panicked f g = refl

pub >>=_cong {ℓ κ} :
    {A : Type ℓ} {B : Type κ} (m : Exec A) {f g : A → Exec B}
    → ((a : A) → f a ≡ g a)
    → (m >>= f) ≡ (m >>= g)
>>=_cong (ok a) h = h a
>>=_cong (err e) h = refl
>>=_cong panicked h = refl

pub ok-injective {ℓ} : {A : Type ℓ} {a b : A} → ok a ≡ ok b → a ≡ b
ok-injective e = cc

-- A property of the value that code returns, if it returns one.
abbrev pub Ensures {ℓ κ} : {A : Type ℓ} → (A → Type κ) → Exec A → Type κ
Ensures P (ok a) = P a
Ensures P _ = Unit

pub Ensures->>= {ℓ κ ν} :
    {A : Type ℓ} {B : Type κ} (P : B → Type ν) (m : Exec A) (f : A → Exec B)
    → ((a : A) → m ≡ ok a → Ensures P (f a))
    → Ensures P (m >>= f)
Ensures->>= P (ok a) f h = h a refl
Ensures->>= P (err e) f h = tt
Ensures->>= P panicked f h = tt

-- A property of the value that code returns, which it does: no error and no panic.
abbrev pub Returns {ℓ} : {A : Type ℓ} → (A → Type 0) → Exec A → Type 0
Returns P (ok a) = P a
Returns P _ = ⊥

pub Returns->>= {ℓ κ} :
    {A : Type ℓ} {B : Type κ} (P : B → Type 0) {m : Exec A} {a : A} (f : A → Exec B)
    → m ≡ ok a
    → Returns P (f a)
    → Returns P (m >>= f)
Returns->>= P {m} f e h = rw e h

pub Returns-ok {ℓ} :
    {A : Type ℓ} (P : A → Type 0) (m : Exec A) → Returns P m → (a : A) × (m ≡ ok a) × P a
Returns-ok P (ok a) h = (a, refl, h)
Returns-ok P (err e) h = elim h [ ]
Returns-ok P panicked h = elim h [ ]
