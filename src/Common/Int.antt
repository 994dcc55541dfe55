-- ===== src/Common/Int.antt =====
-- Python's integers where they may be negative; `negsuc n` is -(n + 1).
use Prim.Native.Nat.{ℕ, suc, ◌+◌, ◌-◌, ◌*◌, ◌/◌, ◌%◌}
use native.Mathlib.Decide.{ℕ_discrete}
use mathlib.Core.Bool.{Bool}
use deductra.Common.Tests.{ltb, leb, if◌then◌else◌}

pub data ℤ : Type 0 where
  pos : ℕ → ℤ
  negsuc : ℕ → ℤ

abbrev pub pos_part : ℤ → ℕ
pos_part (pos n) = n
pos_part (negsuc n) = 0

abbrev pub neg_part : ℤ → ℕ
neg_part (pos n) = 0
neg_part (negsuc n) = suc n

abbrev pub ltb_ℤ : ℤ → ℤ → Bool
ltb_ℤ a b = ltb (pos_part a + neg_part b) (pos_part b + neg_part a)

abbrev pub leb_ℤ : ℤ → ℤ → Bool
leb_ℤ a b = leb (pos_part a + neg_part b) (pos_part b + neg_part a)

pub ℤ-discrete : Discrete ℤ
ℤ-discrete = hlevel ℕ_discrete

-- `p - n` of two natural numbers
abbrev pub of_parts : ℕ → ℕ → ℤ
of_parts p n = if leb n p then pos (p - n) else negsuc (n - p - 1)

abbrev pub subtract_ℤ : ℤ → ℤ → ℤ
subtract_ℤ a b = of_parts (pos_part a + neg_part b) (neg_part a + pos_part b)

-- `a * k` for a positive `k`
abbrev pub scale : ℤ → ℕ → ℤ
scale a k = of_parts (pos_part a * k) (neg_part a * k)

abbrev pub add_ℤ : ℤ → ℤ → ℤ
add_ℤ a b = of_parts (pos_part a + pos_part b) (neg_part a + neg_part b)

-- `-a`
abbrev pub negate_ℤ : ℤ → ℤ
negate_ℤ a = of_parts (neg_part a) (pos_part a)

abbrev pub multiply_ℤ : ℤ → ℤ → ℤ
multiply_ℤ a b =
    of_parts (pos_part a * pos_part b + neg_part a * neg_part b)
      (pos_part a * neg_part b + neg_part a * pos_part b)

-- The quotient and the remainder of Python's `divmod`, which rounds down, by a positive divisor.
abbrev divmod_positive : ℤ → ℕ → ℤ × ℤ
divmod_positive (pos a) b = (pos (a / b), pos (a % b))
divmod_positive (negsuc a) b = (negsuc (a / b), pos (b - 1 - a % b))

-- `divmod(a, b)` for `b` other than 0: with a negative divisor the remainder is not positive.
unfoldable pub divmod_ℤ : ℤ → ℤ → ℤ × ℤ
divmod_ℤ a (pos b) = divmod_positive a b
divmod_ℤ a (negsuc b) = let (q, r) = divmod_positive (negate_ℤ a) (suc b) in (q, negate_ℤ r)
