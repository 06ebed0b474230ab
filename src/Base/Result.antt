-- ===== src/Base/Result.antt =====
-- `Result<A, E>` of code that does not panic.

pub data Result {ℓ κ} (E : Type κ) (A : Type ℓ) : Type (ℓ ⊔ κ) where
  okay : A → Result E A
  error : E → Result E A

module _ {ℓ κ ν} {E : Type κ} {A : Type ℓ} {B : Type ν} where
  -- `?` behind `map_err`.
  abbrev pub and_then : Result E A → (A → Result E B) → Result E B
  and_then (okay a) f = f a
  and_then (error e) f = error e

  abbrev pub map_err : (E → B) → Result E A → Result B A
  map_err f (okay a) = okay a
  map_err f (error e) = error (f e)
