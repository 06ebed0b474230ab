-- ===== src/Query/Filters/Forms.antt =====
-- The forms of a filter.
use pg_vectorize.Base.{
  ◌≡◌, ◌≢◌, refl, ap, sym, ◌∙◌, Bool, true, all, not, [], ◌∷◌, ◌++◌, Option, none, some, Bytes,
  codes, ◌==◌, arith, text_eq_iff, ◌⊎◌, inl, inr,
}
use mathlib.Core.Path.{subst}
use pg_vectorize.Base.Int.{ℤ}
use pg_vectorize.Base.Result.{Result, okay, error}
use pg_vectorize.Query.Filters.{
  FilterOperator, equal, greater_than, greater_than_or_equal, less_than, less_than_or_equal,
  FilterValueType, string, integer, float, boolean, FilterValue, parse_bool, parse_i64, split_dot,
  operator_of, number_or, equality_value, comparison_value, value_for, with_operator, visit_str,
}

-- The name of an operator in a filter.
abbrev pub operator_name : FilterOperator → Bytes
operator_name equal = codes "eq"
operator_name greater_than = codes "gt"
operator_name greater_than_or_equal = codes "gte"
operator_name less_than = codes "lt"
operator_name less_than_or_equal = codes "lte"

abbrev pub has_no_dot : Bytes → Bool
has_no_dot s = all (λ c. not (c == b'.')) s

-- What stands before the first dot holds none, and the pieces with the dot make up the text.
split_dot-pieces :
    (s p v : Bytes) → split_dot s ≡ some (p, v) → (s ≡ p ++ (b'.' ∷ v)) × (has_no_dot p ≡ true)
unfolding split_dot
split_dot-pieces [] p v e = cc
split_dot-pieces (c ∷ s) [] v e = grind (arith, split_dot-pieces s)
split_dot-pieces (c ∷ s) (d ∷ p) v e = grind (arith, split_dot-pieces s p v)

split_dot-none : (s : Bytes) → split_dot s ≡ none → has_no_dot s ≡ true
unfolding split_dot
split_dot-none [] h = refl
split_dot-none (c ∷ s) h = grind (arith, split_dot-none s)

-- The operator that a name is read as has this name.
operator_of-name : (s : Bytes) (o : FilterOperator) → operator_of s ≡ some o → s ≡ operator_name o
unfolding operator_of
operator_of-name s o h = ground (
  arith,
  text_eq_iff s (codes "eq"),
  text_eq_iff s (codes "gt"),
  text_eq_iff s (codes "gte"),
  text_eq_iff s (codes "lt"),
  text_eq_iff s (codes "lte"),
)

module _ {Float : Type 0} (parse_float : Bytes → Option Float) where
  -- A text is read as a Boolean behind equality only; then as an integer, as a number with a
  -- fraction, and as itself, behind equality only, in this order.
  pub data ReadsAs (v : Bytes) (o : FilterOperator) (value : FilterValueType Float) : Type 0 where
    reads_boolean :
        (b : Bool) → o ≡ equal → parse_bool v ≡ some b → value ≡ boolean b → ReadsAs v o value
    reads_integer :
        (n : ℤ)
        → (o ≢ equal) ⊎ (parse_bool v ≡ none)
        → parse_i64 v ≡ some n
        → value ≡ integer n
        → ReadsAs v o value
    reads_float :
        (x : Float)
        → (o ≢ equal) ⊎ (parse_bool v ≡ none)
        → parse_i64 v ≡ none
        → parse_float v ≡ some x
        → value ≡ float x
        → ReadsAs v o value
    reads_text :
        o ≡ equal
        → parse_bool v ≡ none
        → parse_i64 v ≡ none
        → parse_float v ≡ none
        → value ≡ string v
        → ReadsAs v o value

  number_or-ReadsAs :
      (v : Bytes) (o : FilterOperator) (otherwise : Result Bytes (FilterValueType Float))
      (value : FilterValueType Float)
      → (o ≢ equal) ⊎ (parse_bool v ≡ none)
      → (parse_i64 v ≡ none → parse_float v ≡ none → otherwise ≡ okay value → ReadsAs v o value)
      → number_or parse_float v otherwise ≡ okay value
      → ReadsAs v o value
  unfolding number_or
  number_or-ReadsAs v o otherwise value plain neither = as_integer (parse_i64 v) refl
    where
      as_float :
          (r : Option Float)
          → parse_i64 v ≡ none
          → parse_float v ≡ r
          → (elim r as (λ _. Result Bytes (FilterValueType Float)) [
            | some x ↦ okay (float x)
            | none ↦ otherwise
          ])
            ≡ okay value
          → ReadsAs v o value
      as_float none no_integer e h = neither no_integer e h
      as_float (some x) no_integer e h = reads_float x plain no_integer e cc

      as_integer :
          (r : Option ℤ)
          → parse_i64 v ≡ r
          → (elim r as (λ _. Result Bytes (FilterValueType Float)) [
            | some n ↦ okay (integer n)
            | none ↦ elim (parse_float v) [ some x ↦ okay (float x) | none ↦ otherwise ]
          ])
            ≡ okay value
          → ReadsAs v o value
      as_integer none e h = as_float (parse_float v) e refl h
      as_integer (some n) e h = reads_integer n plain e cc

  comparison-ReadsAs :
      (v : Bytes) (o : FilterOperator) (value : FilterValueType Float)
      → o ≢ equal
      → comparison_value parse_float v ≡ okay value
      → ReadsAs v o value
  unfolding comparison_value
  comparison-ReadsAs v o value ne h =
      number_or-ReadsAs v o _ value (inl ne) (λ no_integer no_float e. cc) h

  equality-ReadsAs :
      (v : Bytes) (value : FilterValueType Float)
      → equality_value parse_float v ≡ okay value
      → ReadsAs v equal value
  unfolding equality_value
  equality-ReadsAs v value = as_boolean (parse_bool v) refl
    where
      as_boolean :
          (r : Option Bool)
          → parse_bool v ≡ r
          → (elim r as (λ _. Result Bytes (FilterValueType Float)) [
            | some b ↦ okay (boolean b)
            | none ↦ number_or parse_float v (okay (string v))
          ])
            ≡ okay value
          → ReadsAs v equal value
      as_boolean (some b) e h = reads_boolean b refl e cc
      as_boolean none e h =
          number_or-ReadsAs v equal (okay (string v)) value (inr e)
            (λ no_integer no_float t. reads_text refl e no_integer no_float cc) h

  value_for-ReadsAs :
      (v : Bytes) (o : FilterOperator) (value : FilterValueType Float)
      → value_for parse_float o v ≡ okay value
      → ReadsAs v o value
  unfolding value_for
  value_for-ReadsAs v equal value h = equality-ReadsAs v value h
  value_for-ReadsAs v greater_than value h = comparison-ReadsAs v greater_than value (λ e. cc) h
  value_for-ReadsAs v greater_than_or_equal value h =
      comparison-ReadsAs v greater_than_or_equal value (λ e. cc) h
  value_for-ReadsAs v less_than value h = comparison-ReadsAs v less_than value (λ e. cc) h
  value_for-ReadsAs v less_than_or_equal value h =
      comparison-ReadsAs v less_than_or_equal value (λ e. cc) h

  with_operator-okay :
      (o : FilterOperator) (r : Result Bytes (FilterValueType Float)) (f : FilterValue Float)
      → with_operator parse_float o r ≡ okay f
      → (o ≡ f.operator) × (r ≡ okay f.value)
  unfolding with_operator
  with_operator-okay o (okay value) f h =
      let same : record { operator = o; value = value } ≡ f = cc in
      (
        ap (λ (g : FilterValue Float). g.operator) same,
        ap (λ (g : FilterValue Float). okay g.value) same,
      )
  with_operator-okay o (error e) f h = cc

  -- A text that is accepted as a filter is the name of the filter's operator, a dot and a text that is
  -- read as its value, dots included, or it holds no dot, the operator is equality and the whole is
  -- read as the value. A Boolean and a text that is no number are values of equality only.
  pub visit_str_forms :
      (s : Bytes) (f : FilterValue Float)
      → visit_str parse_float s ≡ okay f
      → ((v : Bytes) × (s ≡ operator_name f.operator ++ (b'.' ∷ v)) × ReadsAs v f.operator f.value)
        ⊎ ((has_no_dot s ≡ true) × (f.operator ≡ equal) × ReadsAs s equal f.value)
  unfolding visit_str
  visit_str_forms s f = at_dot (split_dot s) refl
    where
      Form : Type 0
      Form =
          ((v : Bytes) × (s ≡ operator_name f.operator ++ (b'.' ∷ v))
            × ReadsAs v f.operator f.value)
          ⊎ ((has_no_dot s ≡ true) × (f.operator ≡ equal) × ReadsAs s equal f.value)

      named :
          (p v : Bytes) (r : Option FilterOperator)
          → s ≡ p ++ (b'.' ∷ v)
          → operator_of p ≡ r
          → (elim r as (λ _. Result Bytes (FilterValue Float)) [
            | none ↦ error (codes "Unknown operator: " ++ p)
            | some operator ↦ with_operator parse_float operator (value_for parse_float operator v)
          ])
            ≡ okay f
          → Form
      named p v none pieces e h = cc
      named p v (some o) pieces e h =
          let (same, read) = with_operator-okay o (value_for parse_float o v) f h in
          inl (
            v,
            pieces ∙ ap (λ n. n ++ (b'.' ∷ v)) (operator_of-name p o e ∙ ap operator_name same),
            subst (λ o. ReadsAs v o f.value) same (value_for-ReadsAs v o f.value read),
          )

      at_dot :
          (r : Option (Bytes × Bytes))
          → split_dot s ≡ r
          → (elim r as (λ _. Result Bytes (FilterValue Float)) [
            | none ↦ with_operator parse_float equal (equality_value parse_float s)
            | some (operator_str, val) ↦ elim (operator_of operator_str) [
              | none ↦ error (codes "Unknown operator: " ++ operator_str)
              | some operator ↦
                  with_operator parse_float operator (value_for parse_float operator val)
            ]
          ])
            ≡ okay f
          → Form
      at_dot none e h =
          let (same, read) = with_operator-okay equal (equality_value parse_float s) f h in
          inr (split_dot-none s e, sym same, equality-ReadsAs s f.value read)
      at_dot (some (p, v)) e h = named p v (operator_of p) (split_dot-pieces s p v e).0 refl h
