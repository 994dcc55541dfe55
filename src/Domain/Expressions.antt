-- ===== src/Domain/Expressions.antt =====
-- src/deductra/domain/expressions.py: arithmetic and propositional expression trees, and the
-- validators of their nodes, which pydantic runs from the leaves up.
use deductra.Common.{ℕ, suc, String, Bool, ◌||◌, ltb, value_error, Result, ok, raise_if, ◌>>◌}
use deductra.Common.Int.{ℤ, pos, ltb_ℤ}

pub data Number : Type 0 where
  int : ℤ → Number
  -- a `Fraction`: numerator and denominator
  fraction : ℤ → ℕ → Number

mutual
  pub data NumericExpression : Type 0 where
    constant : Number → NumericExpression
    -- a `bool` as the value of a constant
    constant_bool : Bool → NumericExpression
    variable_reference : String → NumericExpression
    add_expression : Numerics → NumericExpression
    subtract : NumericExpression → NumericExpression → NumericExpression
    multiply : Numerics → NumericExpression
    exact_divide : NumericExpression → NumericExpression → NumericExpression
    modulo : NumericExpression → NumericExpression → NumericExpression
    negate : NumericExpression → NumericExpression

  pub data Numerics : Type 0 where
    no_numeric : Numerics
    numeric : NumericExpression → Numerics → Numerics

pub data Comparison : Type 0 where
  equal not_equal less_than less_than_or_equal greater_than greater_than_or_equal : Comparison

mutual
  pub data BooleanExpression : Type 0 where
    -- `Equal`, `NotEqual`, `LessThan` and the other three
    compared : Comparison → NumericExpression → NumericExpression → BooleanExpression
    and_expression : Booleans → BooleanExpression
    or_expression : Booleans → BooleanExpression
    not_expression : BooleanExpression → BooleanExpression
    xor_expression : BooleanExpression → BooleanExpression → BooleanExpression
    implies : BooleanExpression → BooleanExpression → BooleanExpression
    equivalent : BooleanExpression → BooleanExpression → BooleanExpression
    -- the operands, `minimum` and `maximum`
    cardinality : Booleans → ℤ → ℤ → BooleanExpression
    all_different : Numerics → BooleanExpression

  pub data Booleans : Type 0 where
    no_boolean : Booleans
    condition : BooleanExpression → Booleans → Booleans

unfoldable pub count_numerics : Numerics → ℕ
count_numerics no_numeric = 0
count_numerics (numeric x xs) = suc (count_numerics xs)

unfoldable pub count_booleans : Booleans → ℕ
count_booleans no_boolean = 0
count_booleans (condition x xs) = suc (count_booleans xs)

unfoldable mutual
  unfolding count_numerics

  pub validate_numeric : NumericExpression → Result (Unit {0})
  validate_numeric (constant n) = ok tt
  validate_numeric (constant_bool b) = ok tt
  validate_numeric (variable_reference v) = ok tt
  validate_numeric (add_expression xs) = do
    validate_numerics xs
    raise_if (ltb (count_numerics xs) 2) (value_error "add requires at least two operands")
  validate_numeric (subtract a b) = do validate_numeric a; validate_numeric b
  validate_numeric (multiply xs) = do
    validate_numerics xs
    raise_if (ltb (count_numerics xs) 2) (value_error "multiply requires at least two operands")
  validate_numeric (exact_divide a b) = do validate_numeric a; validate_numeric b
  validate_numeric (modulo a b) = do validate_numeric a; validate_numeric b
  validate_numeric (negate a) = validate_numeric a

  pub validate_numerics : Numerics → Result (Unit {0})
  validate_numerics no_numeric = ok tt
  validate_numerics (numeric x xs) = do validate_numeric x; validate_numerics xs

unfoldable mutual
  unfolding count_booleans validate_numeric validate_numerics

  pub validate_boolean : BooleanExpression → Result (Unit {0})
  validate_boolean (compared c a b) = do validate_numeric a; validate_numeric b
  validate_boolean (and_expression xs) = do
    validate_booleans xs
    raise_if (ltb (count_booleans xs) 2) (value_error "and requires at least two operands")
  validate_boolean (or_expression xs) = do
    validate_booleans xs
    raise_if (ltb (count_booleans xs) 2) (value_error "or requires at least two operands")
  validate_boolean (not_expression a) = validate_boolean a
  validate_boolean (xor_expression a b) = do validate_boolean a; validate_boolean b
  validate_boolean (implies a b) = do validate_boolean a; validate_boolean b
  validate_boolean (equivalent a b) = do validate_boolean a; validate_boolean b
  validate_boolean (cardinality xs low high) = do
    validate_booleans xs
    raise_if (ltb_ℤ low (pos 0) || ltb_ℤ high low)
        (value_error "cardinality bounds must satisfy 0 <= minimum <= maximum")
    raise_if (ltb_ℤ (pos (count_booleans xs)) high)
        (value_error "cardinality maximum cannot exceed the operand count")
  validate_boolean (all_different xs) = do
    validate_numerics xs
    raise_if (ltb (count_numerics xs) 2)
        (value_error "all_different requires at least two operands")

  pub validate_booleans : Booleans → Result (Unit {0})
  validate_booleans no_boolean = ok tt
  validate_booleans (condition x xs) = do validate_boolean x; validate_booleans xs
