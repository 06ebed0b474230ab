-- ===== src/Query/Filters.antt =====
-- core/src/query.rs: the filters of the search API, `operator.value` or just a value.
pub mod Forms
use mathlib.Core.Option.{map}
use pg_vectorize.Base.{
  ℕ, zero, suc, ◌+◌, ◌^◌, ◌≡◌, Bool, true, false, ◌&&◌, List, [], ◌∷◌, ◌++◌, Option, none, some,
  Bytes, codes, ltb, leb, ◌==◌, if◌then◌else◌, text_eq, concat,
}
use pg_vectorize.Base.Int.{ℤ, pos, negsuc}
use pg_vectorize.Base.Numbers.{parse_some_digits}
use pg_vectorize.Base.Result.{Result, okay, error}

pub data FilterOperator : Type 0 where
  equal greater_than greater_than_or_equal less_than less_than_or_equal : FilterOperator

-- `FilterOperator::to_sql`.
unfoldable pub to_sql : FilterOperator → Bytes
to_sql equal = codes "="
to_sql greater_than = codes ">"
to_sql greater_than_or_equal = codes ">="
to_sql less_than = codes "<"
to_sql less_than_or_equal = codes "<="

pub data FilterValueType (Float : Type 0) : Type 0 where
  string : Bytes → FilterValueType Float
  integer : ℤ → FilterValueType Float
  float : Float → FilterValueType Float
  boolean : Bool → FilterValueType Float

pub record FilterValue (Float : Type 0) : Type 0 where
  pub operator : FilterOperator
  pub value : FilterValueType Float

-- `val.parse::<bool>()` and `val.parse::<i64>()`.
unfoldable pub parse_bool : Bytes → Option Bool
parse_bool s =
    if text_eq s (codes "true")
    then some true
    else if text_eq s (codes "false")
    then some false
    else none

unfoldable pub negated : ℕ → ℤ
negated zero = pos zero
negated (suc n) = negsuc n

unfoldable pub parse_i64 : Bytes → Option ℤ
unfolding negated parse_some_digits
parse_i64 [] = none
parse_i64 (c ∷ s) =
    if c == b'-'
    then map negated (parse_some_digits (2 ^ 63 + 1) s)
    else if c == b'+'
    then map pos (parse_some_digits (2 ^ 63) s)
    else map pos (parse_some_digits (2 ^ 63) (c ∷ s))

-- What stands before and behind the first dot.
unfoldable pub split_dot : Bytes → Option (Bytes × Bytes)
split_dot [] = none
split_dot (c ∷ s) = elim (c == b'.') [
  | Bool.true ↦ some ([], s)
  | Bool.false ↦ elim (split_dot s) [
    | none ↦ none
    | some (before, behind) ↦ some (c ∷ before, behind)
  ]
]

unfoldable pub operator_of : Bytes → Option FilterOperator
operator_of s =
    if text_eq s (codes "eq")
    then some equal
    else if text_eq s (codes "gt")
    then some greater_than
    else if text_eq s (codes "gte")
    then some greater_than_or_equal
    else if text_eq s (codes "lt")
    then some less_than
    else if text_eq s (codes "lte")
    then some less_than_or_equal
    else none

-- `parse_float` stands for `parse::<f64>()`.
module _ {Float : Type 0} (parse_float : Bytes → Option Float) where
  -- An integer, then a number; `otherwise` if it is neither.
  unfoldable pub number_or :
      Bytes → Result Bytes (FilterValueType Float) → Result Bytes (FilterValueType Float)
  unfolding parse_i64
  number_or val otherwise = elim (parse_i64 val) [
    | some n ↦ okay (integer n)
    | none ↦ elim (parse_float val) [ some x ↦ okay (float x) | none ↦ otherwise ]
  ]

  -- The value for equality: a Boolean, a number, or a text.
  unfoldable pub equality_value : Bytes → Result Bytes (FilterValueType Float)
  unfolding parse_bool number_or
  equality_value val = elim (parse_bool val) [
    | some b ↦ okay (boolean b)
    | none ↦ number_or val (okay (string val))
  ]

  unfoldable pub comparison_value : Bytes → Result Bytes (FilterValueType Float)
  unfolding number_or
  comparison_value val = number_or val (
      error (
        concat (
          codes "Comparison operators (gt, gte, lt, lte) require numeric values, got: '"
          ∷ val
          ∷ codes "'"
          ∷ [])))

  unfoldable pub value_for : FilterOperator → Bytes → Result Bytes (FilterValueType Float)
  unfolding equality_value comparison_value
  value_for equal val = equality_value val
  value_for greater_than val = comparison_value val
  value_for greater_than_or_equal val = comparison_value val
  value_for less_than val = comparison_value val
  value_for less_than_or_equal val = comparison_value val

  unfoldable pub with_operator :
      FilterOperator → Result Bytes (FilterValueType Float) → Result Bytes (FilterValue Float)
  with_operator operator (okay value) = okay (record { operator = operator; value = value })
  with_operator operator (error e) = error e

  -- `visit_str`.
  unfoldable pub visit_str : Bytes → Result Bytes (FilterValue Float)
  unfolding split_dot operator_of value_for with_operator
  visit_str value = elim (split_dot value) [
    | none ↦ with_operator equal (equality_value value)
    | some (operator_str, val) ↦ elim (operator_of operator_str) [
      | none ↦ error (codes "Unknown operator: " ++ operator_str)
      | some operator ↦ with_operator operator (value_for operator val)
    ]
  ]
