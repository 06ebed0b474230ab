-- ===== src/Base/Utf8.antt =====
-- `String::from_utf8_lossy`: the bytes of the text that stands for arbitrary bytes. Each maximal
-- part of a broken sequence becomes U+FFFD.
use pg_vectorize.Base.{
  ℕ, zero, suc, ◌<◌, Bool, true, ◌&&◌, [], ◌∷◌, ◌++◌, ◌≡◌, refl, ap, ◌∙◌, arith, ltb, lt→ltb, leb,
  ◌==◌, if◌then◌else◌, All, Bytes,
}

-- What the decoder holds: nothing, or the bytes `read` of a sequence whose next byte lies in
-- `lo` to `hi` and has `more` bytes behind it.
pub data Decoder : Type 0 where
  ready : Decoder
  partial : (read : Bytes) (lo hi more : ℕ) → Decoder

-- U+FFFD in UTF-8.
abbrev pub replacement : Bytes
replacement = 0xef ∷ 0xbf ∷ 0xbd ∷ []

abbrev pub within : ℕ → ℕ → ℕ → Bool
within lo hi c = leb lo c && leb c hi

-- A byte at the start of a character: what is written, and what the decoder holds then.
unfoldable pub first_byte : ℕ → Bytes × Decoder
first_byte c =
    if ltb c 0x80
    then (c ∷ [], ready)
    else if within 0xc2 0xdf c
    then ([], partial (c ∷ []) 0x80 0xbf 0)
    else if c == 0xe0
    then ([], partial (c ∷ []) 0xa0 0xbf 1)
    else if c == 0xed
    then ([], partial (c ∷ []) 0x80 0x9f 1)
    else if within 0xe1 0xef c
    then ([], partial (c ∷ []) 0x80 0xbf 1)
    else if c == 0xf0
    then ([], partial (c ∷ []) 0x90 0xbf 2)
    else if c == 0xf4
    then ([], partial (c ∷ []) 0x80 0x8f 2)
    else if within 0xf1 0xf3 c
    then ([], partial (c ∷ []) 0x80 0xbf 2)
    else (replacement, ready)

-- A byte behind `read`: the last of its sequence, one more of it, or a break in it.
unfoldable pub next_byte : Bytes → ℕ → ℕ → ℕ → ℕ → Bytes × Decoder
unfolding first_byte
next_byte read lo hi zero c =
    if within lo hi c
    then (read ++ c ∷ [], ready)
    else (replacement ++ (first_byte c).0, (first_byte c).1)
next_byte read lo hi (suc more) c =
    if within lo hi c
    then ([], partial (read ++ c ∷ []) 0x80 0xbf more)
    else (replacement ++ (first_byte c).0, (first_byte c).1)

unfoldable pub decode_byte : Decoder → ℕ → Bytes × Decoder
unfolding next_byte
decode_byte ready c = first_byte c
decode_byte (partial read lo hi more) c = next_byte read lo hi more c

unfoldable pub decode : Decoder → Bytes → Bytes
unfolding decode_byte
decode ready [] = []
decode (partial read lo hi more) [] = replacement
decode d (c ∷ s) = let (out, d') = decode_byte d c in out ++ decode d' s

unfoldable pub from_utf8_lossy : Bytes → Bytes
unfolding decode
from_utf8_lossy s = decode ready s

-- The texts: sequences of well-formed characters, by the table of the Unicode standard.
pub data IsUtf8 : Bytes → Type 0 where
  nil : IsUtf8 []
  ascii : {c : ℕ} {s : Bytes} → c < 0x80 → IsUtf8 s → IsUtf8 (c ∷ s)
  two :
      {a b : ℕ} {s : Bytes}
      → within 0xc2 0xdf a ≡ true
      → within 0x80 0xbf b ≡ true
      → IsUtf8 s
      → IsUtf8 (a ∷ b ∷ s)
  three :
      {a b c lo hi : ℕ} {s : Bytes}
      → first_byte a ≡ ([], partial (a ∷ []) lo hi 1)
      → within lo hi b ≡ true
      → within 0x80 0xbf c ≡ true
      → IsUtf8 s
      → IsUtf8 (a ∷ b ∷ c ∷ s)
  four :
      {a b c d lo hi : ℕ} {s : Bytes}
      → first_byte a ≡ ([], partial (a ∷ []) lo hi 2)
      → within lo hi b ≡ true
      → within 0x80 0xbf c ≡ true
      → within 0x80 0xbf d ≡ true
      → IsUtf8 s
      → IsUtf8 (a ∷ b ∷ c ∷ d ∷ s)

two_bytes : (a : ℕ) → within 0xc2 0xdf a ≡ true → first_byte a ≡ ([], partial (a ∷ []) 0x80 0xbf 0)
unfolding first_byte
two_bytes a h = ground arith

decode-first :
    (a : ℕ) (s : Bytes) (d : Decoder) → first_byte a ≡ ([], d) → decode ready (a ∷ s) ≡ decode d s
unfolding decode
decode-first a s d e = rw e

decode-next :
    (read : Bytes) (lo hi more b : ℕ) (s : Bytes)
    → within lo hi b ≡ true
    → decode (partial read lo hi (suc more)) (b ∷ s)
      ≡ decode (partial (read ++ b ∷ []) 0x80 0xbf more) s
unfolding decode
decode-next read lo hi more b s h = rw h

decode-last :
    (read : Bytes) (lo hi b : ℕ) (s : Bytes)
    → within lo hi b ≡ true
    → decode (partial read lo hi 0) (b ∷ s) ≡ (read ++ b ∷ []) ++ decode ready s
unfolding decode
decode-last read lo hi b s h = rw h

decode-ascii : (c : ℕ) (s : Bytes) → c < 0x80 → decode ready (c ∷ s) ≡ c ∷ decode ready s
unfolding decode first_byte
decode-ascii c s h = rw (lt→ltb c 0x80 h)

decode-IsUtf8 : {s : Bytes} → IsUtf8 s → decode ready s ≡ s
decode-IsUtf8 nil = unfold decode in refl
decode-IsUtf8 (ascii {c} {s} h t) = decode-ascii c s h ∙ ap (◌∷◌ c) (decode-IsUtf8 t)
decode-IsUtf8 (two {a} {b} {s} h k t) =
    decode-first a (b ∷ s) _ (two_bytes a h)
    ∙ decode-last (a ∷ []) _ _ b s k
    ∙ ap (λ (r : Bytes). a ∷ b ∷ r) (decode-IsUtf8 t)
decode-IsUtf8 (three {a} {b} {c} {lo} {hi} {s} h k l t) =
    decode-first a (b ∷ c ∷ s) _ h
    ∙ decode-next (a ∷ []) lo hi 0 b (c ∷ s) k
    ∙ decode-last (a ∷ b ∷ []) _ _ c s l
    ∙ ap (λ (r : Bytes). a ∷ b ∷ c ∷ r) (decode-IsUtf8 t)
decode-IsUtf8 (four {a} {b} {c} {d} {lo} {hi} {s} h k l m t) =
    decode-first a (b ∷ c ∷ d ∷ s) _ h
    ∙ decode-next (a ∷ []) lo hi 1 b (c ∷ d ∷ s) k
    ∙ decode-next (a ∷ b ∷ []) _ _ 0 c (d ∷ s) l
    ∙ decode-last (a ∷ b ∷ c ∷ []) _ _ d s m
    ∙ ap (λ (r : Bytes). a ∷ b ∷ c ∷ d ∷ r) (decode-IsUtf8 t)

-- A text is its own decoding.
pub from_utf8_lossy-IsUtf8 : {s : Bytes} → IsUtf8 s → from_utf8_lossy s ≡ s
unfolding from_utf8_lossy
from_utf8_lossy-IsUtf8 h = decode-IsUtf8 h

pub IsUtf8-append : {s t : Bytes} → IsUtf8 s → IsUtf8 t → IsUtf8 (s ++ t)
IsUtf8-append nil k = k
IsUtf8-append (ascii h u) k = ascii h (IsUtf8-append u k)
IsUtf8-append (two h l u) k = two h l (IsUtf8-append u k)
IsUtf8-append (three h l m u) k = three h l m (IsUtf8-append u k)
IsUtf8-append (four h l m n u) k = four h l m n (IsUtf8-append u k)

-- Bytes below 128 are a text.
pub IsUtf8-ascii : (s : Bytes) → All (λ c. c < 128) s → IsUtf8 s
IsUtf8-ascii [] h = nil
IsUtf8-ascii (c ∷ s) (h, t) = ascii h (IsUtf8-ascii s t)
