-- ===== src/Base/Replace.antt =====
-- `s.replace(from, to)` of a Rust `str`: the occurrences from the left that do not overlap, each made
-- `to`. The empty text occurs in front of every character and at the end.
use pg_vectorize.Base.Tests.{ltb, leb, ◌==◌, if◌then◌else◌}
use pg_vectorize.Base.Lists.{length}
use pg_vectorize.Base.Text.{Bytes}
use Prim.Native.Nat.{ℕ, zero, suc, ◌-◌}
use mathlib.Core.Bool.{Bool, true, false, ◌&&◌}
use mathlib.Core.List.{[], ◌∷◌, ◌++◌}

-- `s.starts_with(prefix)`.
unfoldable pub starts_with : (prefix s : Bytes) → Bool
starts_with [] s = true
starts_with (c ∷ prefix) [] = false
starts_with (c ∷ prefix) (d ∷ s) = c == d && starts_with prefix s

-- A byte inside a character: 10xxxxxx.
abbrev pub is_inside : ℕ → Bool
is_inside c = leb 128 c && ltb c 192

unfoldable pub insert_between : (to s : Bytes) → Bytes
insert_between to [] = to
insert_between to (c ∷ s) =
    let rest = insert_between to s in if is_inside c then c ∷ rest else to ++ (c ∷ rest)

-- `skip` bytes are left of an occurrence that was replaced; `from` is not empty.
unfoldable pub replace_from : (from to : Bytes) (skip : ℕ) → Bytes → Bytes
unfolding starts_with
replace_from from to skip [] = []
replace_from from to (suc skip) (c ∷ s) = replace_from from to skip s
replace_from from to zero (c ∷ s) =
    let replaced = to ++ replace_from from to (length from - 1) s in
    let kept = c ∷ replace_from from to 0 s in if starts_with from (c ∷ s) then replaced else kept

unfoldable pub replace : (from to s : Bytes) → Bytes
unfolding insert_between replace_from
replace [] to s = insert_between to s
replace (c ∷ from) to s = replace_from (c ∷ from) to 0 s
