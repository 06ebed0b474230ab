-- ===== src/Base/Text.antt =====
-- Texts. A Rust `str` is the list of its UTF-8 bytes; a literal of the source, which is ASCII, is
-- written `codes "…"`. What the source uses of `str`: equality, `split`, `join`, `replace` of a
-- doubled quote and the ASCII part of `to_lowercase`. Numbers in texts are in Numbers.
use Prim.Native.Char.{code}
use Prim.Native.String.{String}
use pg_vectorize.Base.Tests.{ltb, leb, ◌==◌, if◌then◌else◌, ==_iff, Bool-cases}
use pg_vectorize.Base.Lists.{all}
use Prim.Native.Nat.{ℕ, ◌+◌, ◌-◌}
use mathlib.Core.Path.{◌≡◌, refl, sym, ◌∙◌}
use mathlib.Core.Logic.{◌↔◌, inl, inr}
use mathlib.Core.Bool.{Bool, true, false, ◌&&◌}
use mathlib.Core.List.{List, [], ◌∷◌, ◌++◌, map, append-nil, append_assoc}
use native.Mathlib.Omega.{arith}

abbrev pub Bytes : Type 0
Bytes = List ℕ

-- The code points of a literal: its bytes, if it is ASCII. `String` has its own `[]` and `∷`.
abbrev pub codes : String → Bytes
codes String.[] = []
codes (String.◌∷◌ c s) = code c ∷ codes s

-- `==` on texts.
unfoldable pub text_eq : Bytes → Bytes → Bool
text_eq [] [] = true
text_eq [] (y ∷ ys) = false
text_eq (x ∷ xs) [] = false
text_eq (x ∷ xs) (y ∷ ys) = x == y && text_eq xs ys

pub text_eq_iff : (a b : Bytes) → (text_eq a b ≡ true) ↔ (a ≡ b)
unfolding text_eq
text_eq_iff [] [] = ground arith
text_eq_iff [] (y ∷ b) = ground arith
text_eq_iff (x ∷ a) [] = ground arith
text_eq_iff (x ∷ a) (y ∷ b) = ground (arith, text_eq_iff a b)

pub text_eq_refl : (a : Bytes) → text_eq a a ≡ true
text_eq_refl a = (text_eq_iff a a).1 refl

-- `s.split(sep)` on one character: `cur` is the piece read so far.
unfoldable pub split_from : ℕ → Bytes → Bytes → List Bytes
split_from sep cur [] = cur ∷ []
split_from sep cur (c ∷ s) =
    let closed = cur ∷ split_from sep [] s in
    let longer = split_from sep (cur ++ c ∷ []) s in if c == sep then closed else longer

unfoldable pub split : ℕ → Bytes → List Bytes
unfolding split_from
split sep s = split_from sep [] s

-- `parts.join(sep)`.
unfoldable pub join : Bytes → List Bytes → Bytes
join sep [] = []
join sep (p ∷ []) = p
join sep (p ∷ q ∷ ps) = p ++ (sep ++ join sep (q ∷ ps))

pub join-cons_split :
    (sep : ℕ) (p cur s : Bytes)
    → join (sep ∷ []) (p ∷ split_from sep cur s)
      ≡ p ++ (sep ∷ join (sep ∷ []) (split_from sep cur s))
unfolding join split_from
join-cons_split sep p cur [] = refl
join-cons_split sep p cur (c ∷ s) = elim (Bool-cases (c == sep)) [
  | inl e ↦ rw e
  | inr e ↦ rw e (join-cons_split sep p (cur ++ c ∷ []) s)
]

join-split_from : (sep : ℕ) (cur s : Bytes) → join (sep ∷ []) (split_from sep cur s) ≡ cur ++ s
unfolding join split_from
join-split_from sep cur [] = sym (append-nil cur)
join-split_from sep cur (c ∷ s) = elim (Bool-cases (c == sep)) [
  | inl e ↦ rw (e, join-cons_split, join-split_from sep [] s, (==_iff c sep).0 e)
  | inr e ↦ rw e (join-split_from sep (cur ++ c ∷ []) s ∙ append_assoc cur (c ∷ []) s)
]

-- Joining what `split` gave restores the text.
pub join-split : (sep : ℕ) (s : Bytes) → join (sep ∷ []) (split sep s) ≡ s
unfolding split
join-split sep s = join-split_from sep [] s

-- `s.replace("''", "'")`: pairs of quotes from the left, each made one.
unfoldable pub undouble_quotes : Bytes → Bytes
undouble_quotes [] = []
undouble_quotes (c ∷ []) = c ∷ []
undouble_quotes (c ∷ d ∷ s) = elim (c == 39 && d == 39) [
  | true ↦ 39 ∷ undouble_quotes s
  | false ↦ c ∷ undouble_quotes (d ∷ s)
]

abbrev pub is_ascii : ℕ → Bool
is_ascii c = ltb c 128

unfoldable pub ascii_lower : ℕ → ℕ
ascii_lower c = if leb b'A' c && leb c b'Z' then c + 32 else c

-- `s.to_lowercase()`. The Unicode tables, which a text with a character beyond ASCII consults,
-- are the parameter `tables`.
unfoldable pub to_lowercase : (Bytes → Bytes) → Bytes → Bytes
unfolding ascii_lower
to_lowercase tables s = if all is_ascii s then map ascii_lower s else tables s

-- `s.to_uppercase()`, likewise.
unfoldable pub ascii_upper : ℕ → ℕ
ascii_upper c = if leb b'a' c && leb c b'z' then c - 32 else c

unfoldable pub to_uppercase : (Bytes → Bytes) → Bytes → Bytes
unfolding ascii_upper
to_uppercase tables s = if all is_ascii s then map ascii_upper s else tables s
