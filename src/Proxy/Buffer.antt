-- ===== src/Proxy/Buffer.antt =====
-- Byte slices as the proxy indexes them. An index or a range out of bounds panics.
use pg_vectorize.Base.{
  ℕ, suc, ◌+◌, ◌-◌, ◌*◌, ◌/◌, ◌%◌, ◌^◌, ◌≤◌, ◌<◌, ◌≡◌, refl, arith, Bool, ◌&&◌, [], ◌∷◌, ◌++◌,
  Option, none, some, Bytes, leb, ◌==◌, length, take, drop, get_elem?, if◌then◌else◌, length-drop,
  All,
}
use pg_vectorize.Base.Exec.{Exec, ok, panicked, ◌>>=◌}

-- `data[i]`.
unfoldable pub index : Bytes → ℕ → Exec ℕ
index d i = elim (get_elem? d i) [ some b ↦ ok b | none ↦ panicked ]

-- `&data[a..b]`.
unfoldable pub slice : Bytes → ℕ → ℕ → Exec Bytes
slice d a b = if leb a b && leb b (length d) then ok (take (b - a) (drop a d)) else panicked

-- `&data[a..]`.
unfoldable pub slice_from : Bytes → ℕ → Exec Bytes
slice_from d a = if leb a (length d) then ok (drop a d) else panicked

-- `u16::from_be_bytes`, `u32::from_be_bytes` and `u32::to_be_bytes`.
unfoldable pub from_be_bytes2 : ℕ → ℕ → ℕ
from_be_bytes2 a b = a * 256 + b

unfoldable pub from_be_bytes4 : ℕ → ℕ → ℕ → ℕ → ℕ
from_be_bytes4 a b c d = a * 16777216 + b * 65536 + c * 256 + d

unfoldable pub to_be_bytes4 : ℕ → Bytes
to_be_bytes4 n = n / 16777216 % 256 ∷ n / 65536 % 256 ∷ n / 256 % 256 ∷ n % 256 ∷ []

-- `n as u32`.
abbrev pub as_u32 : ℕ → ℕ
as_u32 n = n % 2 ^ 32

-- `u16::from_be_bytes([data[i], data[i + 1]])` and the same for four bytes.
unfoldable pub read_u16 : Bytes → ℕ → Exec ℕ
unfolding index from_be_bytes2
read_u16 d i = do a ← index d i; b ← index d (i + 1); ok (from_be_bytes2 a b)

unfoldable pub read_u32 : Bytes → ℕ → Exec ℕ
unfolding index from_be_bytes4
read_u32 d i = do
  a ← index d i
  b ← index d (i + 1)
  c ← index d (i + 2)
  e ← index d (i + 3)
  ok (from_be_bytes4 a b c e)

-- `while offset < data.len() && data[offset] != 0 { offset += 1; }`, over what stands from `offset`
-- on.
unfoldable pub nul_from : Bytes → ℕ → ℕ
nul_from [] offset = offset
nul_from (c ∷ s) offset = let on = nul_from s (offset + 1) in if c == 0 then offset else on

unfoldable pub find_nul : Bytes → ℕ → ℕ
unfolding nul_from
find_nul d offset = nul_from (drop offset d) offset

-- `bytes.iter().position(|&b| b == 0)`.
unfoldable pub position_nul : Bytes → Option ℕ
position_nul [] = none
position_nul (c ∷ s) = elim (c == 0) [
  | Bool.true ↦ some 0
  | Bool.false ↦ elim (position_nul s) [ some n ↦ some (suc n) | none ↦ none ]
]

-- What is read inside the bounds.
abbrev pub AreBytes : Bytes → Type 0
AreBytes = All (λ c. c < 256)

pub index-in : (d : Bytes) (i : ℕ) → i < length d → (b : ℕ) × (index d i ≡ ok b)
unfolding index
index-in [] i h = absurd (omega arith)
index-in (c ∷ d) Prim.Native.Nat.zero h = (c, refl)
index-in (c ∷ d) (suc i) h = index-in d i (omega arith)

pub index-append : (p : Bytes) (c : ℕ) (s : Bytes) → index (p ++ (c ∷ s)) (length p) ≡ ok c
unfolding index
index-append [] c s = refl
index-append (x ∷ p) c s = index-append p c s

pub read_u32-in : (d : Bytes) (i : ℕ) → i + 4 ≤ length d → (v : ℕ) × (read_u32 d i ≡ ok v)
unfolding read_u32
read_u32-in d i h =
    let (a, ea) = index-in d i (omega arith) in
    let (b, eb) = index-in d (i + 1) (omega arith) in
    let (c, ec) = index-in d (i + 2) (omega arith) in
    let (e, ee) = index-in d (i + 3) (omega arith) in (from_be_bytes4 a b c e, rw (ea, eb, ec, ee))

pub read_u16-in : (d : Bytes) (i : ℕ) → i + 2 ≤ length d → (v : ℕ) × (read_u16 d i ≡ ok v)
unfolding read_u16
read_u16-in d i h =
    let (a, ea) = index-in d i (omega arith) in
    let (b, eb) = index-in d (i + 1) (omega arith) in (from_be_bytes2 a b, rw (ea, eb))

pub slice-in :
    (d : Bytes) (a b : ℕ) → a ≤ b → b ≤ length d → slice d a b ≡ ok (take (b - a) (drop a d))
unfolding slice
slice-in d a b h k = ground arith

pub slice_from-in : (d : Bytes) (a : ℕ) → a ≤ length d → slice_from d a ≡ ok (drop a d)
unfolding slice_from
slice_from-in d a h = ground arith

-- The big-endian form of a number below 2^32 reads back.
pub from_be_bytes4-to_be_bytes4 :
    (n : ℕ)
    → n < 2 ^ 32
    → from_be_bytes4 (n / 16777216 % 256) (n / 65536 % 256) (n / 256 % 256) (n % 256) ≡ n
unfolding from_be_bytes4
from_be_bytes4-to_be_bytes4 n h = omega arith

pub nul_from_bounds : (s : Bytes) (o : ℕ) → (o ≤ nul_from s o) × (nul_from s o ≤ o + length s)
unfolding nul_from
nul_from_bounds [] o = omega arith
nul_from_bounds (c ∷ s) o = ground (arith, nul_from_bounds s (o + 1))

pub find_nul_bounds :
    (d : Bytes) (o : ℕ) → o ≤ length d → (o ≤ find_nul d o) × (find_nul d o ≤ length d)
unfolding find_nul
find_nul_bounds d o h = omega (arith, nul_from_bounds (drop o d) o, length-drop o d)
