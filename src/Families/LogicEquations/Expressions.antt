-- ===== src/Families/LogicEquations/Expressions.antt =====
-- src/deductra/families/logic_equations/specification.py: the validators of a clue's expression.
use deductra.Common.{
  String, Bool, true, false, not, List, eqb, string_eq, pair_eq, nat_eq, bool_eq, contains, Error,
  value_error, Result, err, ok, raise_if, ◌>>◌,
}
use deductra.Common.Int.{pos}
use deductra.Domain.Expressions.{
  int, fraction, NumericExpression, constant, constant_bool, variable_reference, add_expression,
  subtract, multiply, exact_divide, modulo, negate, Numerics, no_numeric, numeric,
  BooleanExpression, compared, and_expression, or_expression, not_expression, implies, Booleans,
  no_boolean, condition,
}
use deductra.Domain.Values.{Role, arithmetic}

abbrev pub unsupported_equation : Error
unsupported_equation = value_error "unsupported Logic Equations expression"

-- `isinstance(expression, Constant) and expression.value == 0`
abbrev pub is_zero : NumericExpression → Bool
is_zero (constant (int (pos n))) = eqb n 0
is_zero (constant (fraction (pos n) d)) = eqb n 0
is_zero (constant_bool b) = not b
is_zero _ = false

-- `variable.role == "arithmetic"`
abbrev pub is_arithmetic : Role → Bool
is_arithmetic arithmetic = true
is_arithmetic _ = false

module _ (variable_ids : List String) where
  -- `_validate_numeric_expression`
  unfoldable mutual
    pub validate_number : NumericExpression → Result (Unit {0})
    validate_number (constant (int z)) = ok tt
    validate_number (constant (fraction z n)) =
        err (value_error "Logic Equations constants must be integers")
    validate_number (constant_bool b) =
        err (value_error "Logic Equations constants must be integers")
    validate_number (variable_reference v) =
        raise_if (not (contains variable_ids v))
          (value_error "expression references unknown variable")
    validate_number (add_expression xs) = validate_numbers xs
    validate_number (multiply xs) = validate_numbers xs
    validate_number (subtract a b) = do validate_number a; validate_number b
    validate_number (exact_divide a b) = do
      validate_number a
      validate_number b
      raise_if (is_zero b) (value_error "division and modulo divisors cannot be the constant zero")
    validate_number (modulo a b) = do
      validate_number a
      validate_number b
      raise_if (is_zero b) (value_error "division and modulo divisors cannot be the constant zero")
    validate_number (negate a) = validate_number a

    pub validate_numbers : Numerics → Result (Unit {0})
    validate_numbers no_numeric = ok tt
    validate_numbers (numeric x xs) = do validate_number x; validate_numbers xs

  -- `_validate_boolean_expression`
  unfoldable mutual
    unfolding validate_number

    pub validate_equation : BooleanExpression → Result (Unit {0})
    validate_equation (compared c a b) = do validate_number a; validate_number b
    validate_equation (and_expression xs) = validate_equations xs
    validate_equation (or_expression xs) = validate_equations xs
    validate_equation (not_expression a) = validate_equation a
    validate_equation (implies a b) = do validate_equation a; validate_equation b
    validate_equation _ = err unsupported_equation

    pub validate_equations : Booleans → Result (Unit {0})
    validate_equations no_boolean = ok tt
    validate_equations (condition x xs) = do validate_equation x; validate_equations xs
