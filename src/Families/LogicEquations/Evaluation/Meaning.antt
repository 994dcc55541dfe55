-- ===== src/Families/LogicEquations/Evaluation/Meaning.antt =====
-- What the clues of a Logic Equations puzzle say, apart from how the checker evaluates them.
use deductra.Common.{String, ◌≡◌, ◌⊎◌, true, false}
use deductra.Common.Int.{ℤ, pos, subtract_ℤ, add_ℤ, negate_ℤ, multiply_ℤ, divmod_ℤ}
use deductra.Domain.Expressions.{
  int, fraction, NumericExpression, constant, constant_bool, variable_reference, add_expression,
  subtract, multiply, exact_divide, modulo, negate, Numerics, no_numeric, numeric,
  BooleanExpression, compared, and_expression, or_expression, not_expression, implies, Booleans,
  no_boolean, condition,
}
use deductra.Families.LogicEquations.Evaluation.{compare_integers, is_nought}

module _ (amount : String → ℤ) where
  -- The expression has a value, and it is this. A quotient has one only if it is exact, and none
  -- of the quotient and the remainder has one for the divisor 0.
  unfoldable mutual
    pub Amounts : NumericExpression → ℤ → Type 0
    Amounts (constant (int n)) z = z ≡ n
    Amounts (constant (fraction m n)) z = ⊥
    Amounts (constant_bool b) z = ⊥
    Amounts (variable_reference v) z = z ≡ amount v
    Amounts (add_expression xs) z = Sums xs z
    Amounts (multiply xs) z = Products xs (pos 1) z
    Amounts (subtract a b) z = (x : ℤ) × (y : ℤ) × Amounts a x × Amounts b y × (z ≡ subtract_ℤ x y)
    Amounts (exact_divide a b) z =
        (x : ℤ) × (y : ℤ) × Amounts a x
        × Amounts b y
        × (is_nought y ≡ false)
        × (is_nought (divmod_ℤ x y).1 ≡ true)
        × (z ≡ (divmod_ℤ x y).0)
    Amounts (modulo a b) z =
        (x : ℤ) × (y : ℤ) × Amounts a x
        × Amounts b y
        × (is_nought y ≡ false)
        × (z ≡ (divmod_ℤ x y).1)
    Amounts (negate a) z = (x : ℤ) × Amounts a x × (z ≡ negate_ℤ x)

    pub Sums : Numerics → ℤ → Type 0
    Sums no_numeric z = z ≡ pos 0
    Sums (numeric x xs) z = (a : ℤ) × (b : ℤ) × Amounts x a × Sums xs b × (z ≡ add_ℤ a b)

    -- the product of a number and the operands
    pub Products : Numerics → ℤ → ℤ → Type 0
    Products no_numeric n z = z ≡ n
    Products (numeric x xs) n z = (a : ℤ) × Amounts x a × Products xs (multiply_ℤ n a) z

  -- A comparison of expressions that have no value does not hold.
  unfoldable mutual
    unfolding Amounts

    pub HoldsOf : BooleanExpression → Type 0
    HoldsOf (compared c a b) =
        (x : ℤ) × (y : ℤ) × Amounts a x × Amounts b y × (compare_integers c x y ≡ true)
    HoldsOf (and_expression xs) = EveryOf xs
    HoldsOf (or_expression xs) = SomeOf xs
    HoldsOf (not_expression a) = ¬ HoldsOf a
    HoldsOf (implies a b) = HoldsOf a → HoldsOf b
    HoldsOf _ = ⊥

    pub EveryOf : Booleans → Type 0
    EveryOf no_boolean = Unit
    EveryOf (condition x xs) = HoldsOf x × EveryOf xs

    pub SomeOf : Booleans → Type 0
    SomeOf no_boolean = ⊥
    SomeOf (condition x xs) = HoldsOf x ⊎ SomeOf xs
