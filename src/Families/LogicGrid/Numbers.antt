-- ===== src/Families/LogicGrid/Numbers.antt =====
-- Exact numbers, Python's `int | Fraction`, as far as the family computes with them. A difference
-- is not reduced to lowest terms: the code only compares it.
use Prim.Native.Nat.{◌*◌}
use deductra.Common.{ℕ, Bool, true, not, ◌&&◌, List, [], ◌∷◌, any}
use deductra.Common.Int.{ℤ, ltb_ℤ, subtract_ℤ, scale}
use deductra.Domain.Expressions.{Number, int, fraction}

abbrev pub numerator : Number → ℤ
numerator (int z) = z
numerator (fraction z n) = z

abbrev pub denominator : Number → ℕ
denominator (int z) = 1
denominator (fraction z n) = n

-- `a - b`
abbrev pub subtract_number : Number → Number → Number
subtract_number (int a) (int b) = int (subtract_ℤ a b)
subtract_number a b =
    fraction
      (subtract_ℤ (scale (numerator a) (denominator b)) (scale (numerator b) (denominator a)))
      (denominator a * denominator b)

-- `a < b`
abbrev pub less_number : Number → Number → Bool
less_number a b = ltb_ℤ (scale (numerator a) (denominator b)) (scale (numerator b) (denominator a))

-- `a == b`
abbrev pub equal_number : Number → Number → Bool
equal_number a b = not (less_number a b) && not (less_number b a)

-- `len(xs) == len(set(xs))`
abbrev pub unique_numbers : List Number → Bool
unique_numbers [] = true
unique_numbers (x ∷ xs) = not (any (equal_number x) xs) && unique_numbers xs
