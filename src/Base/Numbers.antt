-- ===== src/Base/Numbers.antt =====
-- Numbers in texts: `to_string` and `parse` of the integer types, and wrapping conversions.
use pg_vectorize.Base.Tests.{ltb, leb, ◌==◌, if◌then◌else◌}
use pg_vectorize.Base.Text.{Bytes}
use Prim.Native.Nat.{ℕ, zero, suc, ◌+◌, ◌-◌, ◌*◌, ◌/◌, ◌%◌, ◌^◌}
use mathlib.Core.Bool.{Bool, ◌&&◌}
use mathlib.Core.List.{[], ◌∷◌}
use mathlib.Core.Option.{Option, none, some}

abbrev pub is_digit : ℕ → Bool
is_digit c = leb b'0' c && leb c b'9'

-- The decimal digits of `n`, before `rest`. A number below `2 ^ 64` has at most 20 digits, and the
-- fuel is more than any number has.
unfoldable pub digits_onto : ℕ → ℕ → Bytes → Bytes
digits_onto zero n rest = rest
digits_onto (suc fuel) n rest =
    let shorter = digits_onto fuel (n / 10) ((b'0' + n % 10) ∷ rest) in
    if ltb n 10 then (b'0' + n) ∷ rest else shorter

unfoldable pub decimal : ℕ → Bytes
unfolding digits_onto
decimal n = digits_onto (suc n) n []

-- The value of a run of digits, as `parse` accumulates it with checked arithmetic below `limit`.
unfoldable pub parse_digits : ℕ → ℕ → Bytes → Option ℕ
parse_digits limit acc [] = some acc
parse_digits limit acc (c ∷ s) =
    let next = acc * 10 + (c - b'0') in
    let more = parse_digits limit next s in if is_digit c && ltb next limit then more else none

-- `parse` refuses a text with no digit.
unfoldable pub parse_some_digits : ℕ → Bytes → Option ℕ
unfolding parse_digits
parse_some_digits limit [] = none
parse_some_digits limit (c ∷ s) = parse_digits limit 0 (c ∷ s)

-- `s.parse::<usize>()`, with 64 bits: a `+` may stand in front.
unfoldable pub parse_usize : Bytes → Option ℕ
unfolding parse_some_digits
parse_usize [] = none
parse_usize (c ∷ s) =
    if c == b'+' then parse_some_digits (2 ^ 64) s else parse_some_digits (2 ^ 64) (c ∷ s)
