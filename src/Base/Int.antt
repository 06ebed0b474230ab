-- ===== src/Base/Int.antt =====
-- Signed integers over the native numbers, and `i32` arithmetic that wraps, as a release build does.
use pg_vectorize.Base.{
  ℕ, suc, ◌+◌, ◌-◌, ◌%◌, ◌^◌, ◌≤◌, ◌<◌, ◌≡◌, Bool, arith, ltb, leb, if◌then◌else◌,
}

-- `negsuc n` is -(n + 1).
pub data ℤ : Type 0 where
  pos : ℕ → ℤ
  negsuc : ℕ → ℤ

abbrev pub pos_part : ℤ → ℕ
pos_part (pos n) = n
pos_part (negsuc n) = 0

abbrev pub neg_part : ℤ → ℕ
neg_part (pos n) = 0
neg_part (negsuc n) = suc n

-- a - b, as an integer.
abbrev pub sub_ℕ : ℕ → ℕ → ℤ
sub_ℕ a b = if leb b a then pos (a - b) else negsuc (b - a - 1)

abbrev pub ltb_ℤ : ℤ → ℤ → Bool
ltb_ℤ a b = ltb (pos_part a + neg_part b) (pos_part b + neg_part a)

infix 50 ◌≤ℤ◌
abbrev pub ◌≤ℤ◌ : ℤ → ℤ → Type 0
a ≤ℤ b = pos_part a + neg_part b ≤ pos_part b + neg_part a

-- The `i32` with the same low 32 bits: `x as i32`, and the result of wrapping arithmetic.
unfoldable pub wrap_i32 : ℤ → ℤ
wrap_i32 a =
    let low = (pos_part a + 2 ^ 32 - neg_part a % 2 ^ 32) % 2 ^ 32 in
    if ltb low (2 ^ 31) then pos low else negsuc (2 ^ 32 - low - 1)

unfoldable pub add_i32 : ℤ → ℤ → ℤ
unfolding wrap_i32
add_i32 a b = wrap_i32 (sub_ℕ (pos_part a + pos_part b) (neg_part a + neg_part b))

unfoldable pub sub_i32 : ℤ → ℤ → ℤ
unfolding wrap_i32
sub_i32 a b = wrap_i32 (sub_ℕ (pos_part a + neg_part b) (neg_part a + pos_part b))

-- `x as usize` of an `i32`: the sign is extended to 64 bits.
unfoldable pub i32_as_usize : ℤ → ℕ
i32_as_usize (pos n) = n
i32_as_usize (negsuc n) = 2 ^ 64 - 1 - n

-- A sum of numbers that stays below 2^31 does not wrap.
pub add_i32-pos : (a b : ℕ) → a + b < 2 ^ 31 → add_i32 (pos a) (pos b) ≡ pos (a + b)
unfolding add_i32
add_i32-pos a b h = ground arith

pub wrap_i32-pos : (n : ℕ) → n < 2 ^ 31 → wrap_i32 (pos n) ≡ pos n
unfolding wrap_i32
wrap_i32-pos n h = ground arith

pub sub_i32-pos : (a b : ℕ) → b ≤ a → a < 2 ^ 31 → sub_i32 (pos a) (pos b) ≡ pos (a - b)
unfolding sub_i32
sub_i32-pos a b h k = ground arith

pub not_ltb_ℤ : (n : ℕ) → ltb_ℤ (pos n) (pos 0) ≡ Bool.false
not_ltb_ℤ n = ground arith
