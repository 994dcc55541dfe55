-- ===== src/Families/LogicGrid/Evaluation.antt =====
-- src/deductra/families/logic_grid/checker.py: `_numeric` and `_boolean`, which evaluate the
-- expression of a clue under an assignment of anchor values to the variables.
pub mod Meaning
pub mod Tells
pub mod Comparisons
pub mod Decides
use deductra.Common.{
  ℕ, suc, String, Bool, true, false, not, ◌&&◌, none, some, if◌then◌else◌, ◌==◌, string_eq, pair_eq,
  nat_eq, bool_eq, Error, value_error, Result, err, ok, ◌>>=◌, ◌>>◌,
}
use deductra.Common.Int.{ℤ, pos, leb_ℤ}
use deductra.Common.Dict.{Dict, lookup, subscript}
use deductra.Domain.Expressions.{
  Number, int, NumericExpression, constant, constant_bool, variable_reference, subtract, Comparison,
  equal, not_equal, less_than, less_than_or_equal, greater_than, greater_than_or_equal,
  BooleanExpression, compared, and_expression, or_expression, not_expression, xor_expression,
  implies, equivalent, cardinality, all_different, Booleans, no_boolean, condition,
}
use deductra.Families.LogicGrid.Numbers.{subtract_number, less_number, equal_number}

abbrev pub compare_numbers : Comparison → Number → Number → Bool
compare_numbers equal a b = equal_number a b
compare_numbers not_equal a b = not (equal_number a b)
compare_numbers less_than a b = less_number a b
compare_numbers less_than_or_equal a b = not (less_number b a)
compare_numbers greater_than a b = less_number b a
compare_numbers greater_than_or_equal a b = not (less_number a b)

-- `minimum <= true_count <= maximum`
abbrev pub within : ℤ → ℕ → ℤ → Bool
within low n high = leb_ℤ low (pos n) && leb_ℤ (pos n) high

-- The exceptions of an evaluation. The human rules (rules.py) have the same functions as the
-- checker, and raise others.
pub record EvaluationErrors : Type 0 where
  pub bad_constant : Error
  -- a variable that is not assigned, and a value without a number
  pub unassigned : Error
  pub valueless : Error
  pub unsupported_number : Error
  pub unsupported_truth : Error

-- the exceptions of the checker
abbrev pub checker_errors : EvaluationErrors
checker_errors = record {
  bad_constant = value_error "Logic Grid constants must be exact numeric values";
  unassigned = value_error "Logic Grid numeric expression lacks anchor values";
  valueless = value_error "Logic Grid numeric expression lacks anchor values";
  unsupported_number = value_error "unsupported Logic Grid numeric expression";
  unsupported_truth = value_error "unsupported Logic Grid Boolean expression";
}

module _ (errors : EvaluationErrors) (assignments : Dict String) (ordinals : Dict ℤ)
    (numeric_values : Dict Number) where
  -- `_numeric`
  unfoldable pub evaluate_numeric : NumericExpression → Result Number
  evaluate_numeric (constant n) = ok n
  evaluate_numeric (constant_bool b) = err errors.bad_constant
  evaluate_numeric (variable_reference v) = elim (lookup v assignments) [
    | none ↦ err errors.unassigned
    | some x ↦ elim (lookup x numeric_values) [ none ↦ err errors.valueless | some n ↦ ok n ]
  ]
  evaluate_numeric (subtract a b) = do
    left ← evaluate_numeric a
    right ← evaluate_numeric b
    ok (subtract_number left right)
  evaluate_numeric _ = err errors.unsupported_number

  -- the comparison of two variables: by identity, or by the ordinals of their values
  unfoldable pub compare_variables : Comparison → String → String → Result Bool
  compare_variables equal v w = do
    left ← subscript v assignments
    right ← subscript w assignments
    ok (left == right)
  compare_variables not_equal v w = do
    left ← subscript v assignments
    right ← subscript w assignments
    ok (not (left == right))
  compare_variables c v w = do
    left ← subscript v assignments
    right ← subscript w assignments
    left_ordinal ← subscript left ordinals
    right_ordinal ← subscript right ordinals
    ok (compare_numbers c (int left_ordinal) (int right_ordinal))

  unfoldable pub evaluate_comparison :
      Comparison → NumericExpression → NumericExpression → Result Bool
  unfolding evaluate_numeric compare_variables
  evaluate_comparison c (variable_reference v) (variable_reference w) = compare_variables c v w
  evaluate_comparison c a b = do
    left ← evaluate_numeric a
    right ← evaluate_numeric b
    ok (compare_numbers c left right)

  -- `_boolean`; `all`, `any` and `or` stop at the first operand that decides them
  unfoldable mutual
    unfolding evaluate_comparison

    pub evaluate_boolean : BooleanExpression → Result Bool
    evaluate_boolean (compared c a b) = evaluate_comparison c a b
    evaluate_boolean (and_expression xs) = evaluate_all xs
    evaluate_boolean (or_expression xs) = evaluate_any xs
    evaluate_boolean (not_expression a) = do value ← evaluate_boolean a; ok (not value)
    evaluate_boolean (xor_expression a b) = do
      left ← evaluate_boolean a
      right ← evaluate_boolean b
      ok (not (left == right))
    evaluate_boolean (equivalent a b) = do
      left ← evaluate_boolean a
      right ← evaluate_boolean b
      ok (left == right)
    evaluate_boolean (implies a b) = do
      premise ← evaluate_boolean a
      elim premise [ true ↦ evaluate_boolean b | false ↦ ok true ]
    evaluate_boolean (cardinality xs low high) = do
      true_count ← count_true xs
      ok (within low true_count high)
    evaluate_boolean (all_different xs) = err errors.unsupported_truth

    pub evaluate_all : Booleans → Result Bool
    evaluate_all no_boolean = ok true
    evaluate_all (condition x xs) = do
      value ← evaluate_boolean x
      elim value [ true ↦ evaluate_all xs | false ↦ ok false ]

    pub evaluate_any : Booleans → Result Bool
    evaluate_any no_boolean = ok false
    evaluate_any (condition x xs) = do
      value ← evaluate_boolean x
      elim value [ true ↦ ok true | false ↦ evaluate_any xs ]

    pub count_true : Booleans → Result ℕ
    count_true no_boolean = ok 0
    count_true (condition x xs) = do
      value ← evaluate_boolean x
      rest ← count_true xs
      ok (if value then suc rest else rest)
