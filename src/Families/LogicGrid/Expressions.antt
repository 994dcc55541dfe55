-- ===== src/Families/LogicGrid/Expressions.antt =====
-- src/deductra/families/logic_grid/specification.py: the validators of a clue's expression.
use deductra.Common.{
  String, Bool, true, false, not, ◌&&◌, none, some, List, [], ◌∷◌, if◌then◌else◌, string_eq,
  pair_eq, nat_eq, bool_eq, all, contains, update, Error, value_error, Result, err, ok, raise_if,
  ◌>>=◌, ◌>>◌,
}
use deductra.Domain.Expressions.{
  NumericExpression, constant, constant_bool, variable_reference, subtract, Comparison, equal,
  not_equal, BooleanExpression, compared, and_expression, or_expression, not_expression,
  xor_expression, implies, equivalent, cardinality, all_different, Booleans, no_boolean, condition,
}
use deductra.Domain.Values.{Domain}

-- `_has_complete_numeric_values`
unfoldable pub has_complete_numeric_values : Domain → Bool
has_complete_numeric_values d =
    all (λ v. elim v.numeric_value [ some n ↦ true | none ↦ false ]) d.values

abbrev pub is_variable : NumericExpression → Bool
is_variable (variable_reference v) = true
is_variable _ = false

-- `isinstance(expression, (Equal, NotEqual))`
abbrev pub is_equality : Comparison → Bool
is_equality equal = true
is_equality not_equal = true
is_equality _ = false

abbrev pub complete_values_required : Error
complete_values_required =
    value_error "numeric Logic Grid expressions require complete anchor numeric values"

abbrev pub unsupported_numeric : Error
unsupported_numeric = value_error "unsupported Logic Grid numeric expression"

abbrev pub unsupported_expression : Error
unsupported_expression = value_error "unsupported Logic Grid expression"

module _ (variable_ids : List String) (anchor : Domain) where
  -- `_validate_numeric_expression`
  unfoldable pub validate_numeric_expression : NumericExpression → Result (Unit {0})
  unfolding has_complete_numeric_values
  validate_numeric_expression (variable_reference v) =
      raise_if (not (contains variable_ids v))
        (value_error "expression references unknown variable")
  validate_numeric_expression (constant n) =
      raise_if (not (has_complete_numeric_values anchor))
        (value_error "Logic Grid constants require complete numeric anchor values")
  validate_numeric_expression (constant_bool b) =
      err (value_error "Logic Grid constants require complete numeric anchor values")
  validate_numeric_expression (subtract a b) = do
    raise_if (not (has_complete_numeric_values anchor)) complete_values_required
    validate_numeric_expression a
    validate_numeric_expression b
  validate_numeric_expression _ = err unsupported_numeric

  -- the branches of the two kinds of comparison
  unfoldable pub validate_comparison :
      Comparison → NumericExpression → NumericExpression → Result (Unit {0})
  unfolding validate_numeric_expression
  validate_comparison c a b =
      if is_equality c
      then (do
        validate_numeric_expression a
        validate_numeric_expression b
        raise_if (not (is_variable a && is_variable b) && not (has_complete_numeric_values anchor))
            complete_values_required)
      else (do
        raise_if (not anchor.ordered)
            (value_error "ordered comparisons require an ordered anchor category")
        validate_numeric_expression a
        validate_numeric_expression b)

  -- `_validate_boolean_expression`
  unfoldable mutual
    unfolding validate_comparison

    pub validate_boolean_expression : BooleanExpression → Result (Unit {0})
    validate_boolean_expression (compared c a b) = validate_comparison c a b
    validate_boolean_expression (and_expression xs) = validate_operands xs
    validate_boolean_expression (or_expression xs) = validate_operands xs
    validate_boolean_expression (not_expression a) = validate_boolean_expression a
    validate_boolean_expression (xor_expression a b) = do
      validate_boolean_expression a
      validate_boolean_expression b
    validate_boolean_expression (implies a b) = do
      validate_boolean_expression a
      validate_boolean_expression b
    validate_boolean_expression (equivalent a b) = do
      validate_boolean_expression a
      validate_boolean_expression b
    validate_boolean_expression (cardinality xs low high) = validate_operands xs
    validate_boolean_expression (all_different xs) = err unsupported_expression

    pub validate_operands : Booleans → Result (Unit {0})
    validate_operands no_boolean = ok tt
    validate_operands (condition x xs) = do validate_boolean_expression x; validate_operands xs

-- `_referenced_variables` of a numeric expression
unfoldable pub numeric_references : NumericExpression → Result (List String)
numeric_references (variable_reference v) = ok (v ∷ [])
numeric_references (constant n) = ok []
numeric_references (constant_bool b) = ok []
numeric_references (subtract a b) = do
  left ← numeric_references a
  right ← numeric_references b
  ok (update left right)
numeric_references _ = err unsupported_expression

-- `_referenced_variables`
unfoldable mutual
  unfolding numeric_references

  pub referenced_variables : BooleanExpression → Result (List String)
  referenced_variables (compared c a b) = do
    left ← numeric_references a
    right ← numeric_references b
    ok (update left right)
  referenced_variables (and_expression xs) = operand_references [] xs
  referenced_variables (or_expression xs) = operand_references [] xs
  referenced_variables (cardinality xs low high) = operand_references [] xs
  referenced_variables (not_expression a) = referenced_variables a
  referenced_variables (xor_expression a b) = do
    left ← referenced_variables a
    right ← referenced_variables b
    ok (update left right)
  referenced_variables (equivalent a b) = do
    left ← referenced_variables a
    right ← referenced_variables b
    ok (update left right)
  referenced_variables (implies a b) = do
    left ← referenced_variables a
    right ← referenced_variables b
    ok (update left right)
  referenced_variables (all_different xs) = err unsupported_expression

  pub operand_references : List String → Booleans → Result (List String)
  operand_references references no_boolean = ok references
  operand_references references (condition x xs) = do
    found ← referenced_variables x
    operand_references (update references found) xs
