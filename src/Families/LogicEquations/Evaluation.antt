-- ===== src/Families/LogicEquations/Evaluation.antt =====
-- src/deductra/families/logic_equations/checker.py: `_numeric` and `_boolean`. The marker
-- `_INVALID` of an arithmetic that has no integer result is none.
pub mod Meaning
pub mod Decides
use deductra.Common.{
  Bool, true, false, not, ◌&&◌, Option, none, some, eqb, if◌then◌else◌, Result, ok, ◌>>=◌, ◌>>◌,
}
use deductra.Common.Int.{
  ℤ, pos, negsuc, ltb_ℤ, leb_ℤ, subtract_ℤ, add_ℤ, negate_ℤ, multiply_ℤ, divmod_ℤ,
}
use deductra.Common.Dict.{Dict, subscript}
use deductra.Domain.Expressions.{
  int, fraction, NumericExpression, constant, constant_bool, variable_reference, add_expression,
  subtract, multiply, exact_divide, modulo, negate, Numerics, no_numeric, numeric, Comparison,
  equal, not_equal, less_than, less_than_or_equal, greater_than, greater_than_or_equal,
  BooleanExpression, compared, and_expression, or_expression, not_expression, implies, Booleans,
  no_boolean, condition,
}

abbrev pub compare_integers : Comparison → ℤ → ℤ → Bool
compare_integers equal a b = leb_ℤ a b && leb_ℤ b a
compare_integers not_equal a b = not (leb_ℤ a b && leb_ℤ b a)
compare_integers less_than a b = ltb_ℤ a b
compare_integers less_than_or_equal a b = leb_ℤ a b
compare_integers greater_than a b = ltb_ℤ b a
compare_integers greater_than_or_equal a b = leb_ℤ b a

-- A binary operation, invalid if an operand is.
abbrev pub both : (ℤ → ℤ → Option ℤ) → Option ℤ → Option ℤ → Option ℤ
both f (some a) (some b) = f a b
both f _ _ = none

abbrev pub is_nought : ℤ → Bool
is_nought (pos n) = eqb n 0
is_nought (negsuc n) = false

-- the quotient if the remainder is 0
unfoldable pub exact_quotient : ℤ → ℤ → Option ℤ
unfolding divmod_ℤ
exact_quotient a b =
    if is_nought b
    then none
    else (let (q, r) = divmod_ℤ a b in if is_nought r then some q else none)

unfoldable pub remainder : ℤ → ℤ → Option ℤ
unfolding divmod_ℤ
remainder a b = if is_nought b then none else (let (q, r) = divmod_ℤ a b in some r)

module _ (assignments : Dict ℤ) where
  -- `_numeric`; the product stops at the first invalid operand
  unfoldable mutual
    unfolding exact_quotient remainder

    pub numeric_value_of : NumericExpression → Result (Option ℤ)
    numeric_value_of (constant (int z)) = ok (some z)
    numeric_value_of (constant (fraction z n)) = ok none
    numeric_value_of (constant_bool b) = ok none
    numeric_value_of (variable_reference v) = do z ← subscript v assignments; ok (some z)
    numeric_value_of (add_expression xs) = sum_of xs
    numeric_value_of (multiply xs) = product_of (pos 1) xs
    numeric_value_of (subtract a b) = do
      left ← numeric_value_of a
      right ← numeric_value_of b
      ok (both (λ x y. some (subtract_ℤ x y)) left right)
    numeric_value_of (exact_divide a b) = do
      dividend ← numeric_value_of a
      divisor ← numeric_value_of b
      ok (both exact_quotient dividend divisor)
    numeric_value_of (modulo a b) = do
      dividend ← numeric_value_of a
      divisor ← numeric_value_of b
      ok (both remainder dividend divisor)
    numeric_value_of (negate a) = do
      value ← numeric_value_of a
      ok (elim value [ some z ↦ some (negate_ℤ z) | none ↦ none ])

    pub sum_of : Numerics → Result (Option ℤ)
    sum_of no_numeric = ok (some (pos 0))
    sum_of (numeric x xs) = do
      value ← numeric_value_of x
      rest ← sum_of xs
      ok (both (λ a b. some (add_ℤ a b)) value rest)

    pub product_of : ℤ → Numerics → Result (Option ℤ)
    product_of result no_numeric = ok (some result)
    product_of result (numeric x xs) = do
      value ← numeric_value_of x
      elim value [ some z ↦ product_of (multiply_ℤ result z) xs | none ↦ ok none ]

  -- `_boolean`; `all`, `any` and `or` stop at the first operand that decides them
  unfoldable mutual
    unfolding numeric_value_of

    pub truth_of : BooleanExpression → Result Bool
    truth_of (compared c a b) = do
      left ← numeric_value_of a
      right ← numeric_value_of b
      ok (elim left [
        | none ↦ false
        | some x ↦ elim right [ none ↦ false | some y ↦ compare_integers c x y ]
      ])
    truth_of (and_expression xs) = truth_of_all xs
    truth_of (or_expression xs) = truth_of_any xs
    truth_of (not_expression a) = do value ← truth_of a; ok (not value)
    truth_of (implies a b) = do
      premise ← truth_of a
      elim premise [ true ↦ truth_of b | false ↦ ok true ]
    truth_of _ = ok false

    pub truth_of_all : Booleans → Result Bool
    truth_of_all no_boolean = ok true
    truth_of_all (condition x xs) = do
      value ← truth_of x
      elim value [ true ↦ truth_of_all xs | false ↦ ok false ]

    pub truth_of_any : Booleans → Result Bool
    truth_of_any no_boolean = ok false
    truth_of_any (condition x xs) = do
      value ← truth_of x
      elim value [ true ↦ ok true | false ↦ truth_of_any xs ]
