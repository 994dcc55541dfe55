-- ===== src/Families/LogicGrid/Evaluation/Meaning.antt =====
-- What the clues of a Logic Grid puzzle say, apart from how the checker evaluates them.
use deductra.Common.{ℕ, zero, suc, String, ◌≡◌, ◌≢◌, ◌↔◌, ◌⊎◌, true}
use deductra.Common.Int.{ℤ, pos, leb_ℤ}
use deductra.Domain.Expressions.{
  Number, int, NumericExpression, constant, variable_reference, subtract, Comparison, equal,
  not_equal, BooleanExpression, compared, and_expression, or_expression, not_expression,
  xor_expression, implies, equivalent, cardinality, all_different, Booleans, no_boolean, condition,
}
use deductra.Families.LogicGrid.Numbers.{subtract_number}
use deductra.Families.LogicGrid.Evaluation.{compare_numbers}

-- The row of each variable, and the place and the number of each row.
pub record Grid : Type 0 where
  pub row : String → String
  pub place : String → ℤ
  pub amount : String → Number

module _ (g : Grid) where
  open g use {row, place, amount}

  -- The number that an expression stands for. Only constants, variables and differences have one.
  abbrev pub worth : NumericExpression → Number
  worth (constant n) = n
  worth (variable_reference v) = amount (row v)
  worth (subtract a b) = subtract_number (worth a) (worth b)
  worth _ = int (pos 0)

  -- Two variables are compared by their rows, or by the places of these.
  abbrev pub ComparesRows : Comparison → String → String → Type 0
  ComparesRows equal v w = row v ≡ row w
  ComparesRows not_equal v w = row v ≢ row w
  ComparesRows c v w = compare_numbers c (int (place (row v))) (int (place (row w))) ≡ true

  abbrev pub Compares : Comparison → NumericExpression → NumericExpression → Type 0
  Compares c (variable_reference v) (variable_reference w) = ComparesRows c v w
  Compares c a b = compare_numbers c (worth a) (worth b) ≡ true

  unfoldable mutual
    pub Holds : BooleanExpression → Type 0
    Holds (compared c a b) = Compares c a b
    Holds (and_expression xs) = Every xs
    Holds (or_expression xs) = Some xs
    Holds (not_expression a) = ¬ Holds a
    Holds (xor_expression a b) = (Holds a × (¬ Holds b)) ⊎ ((¬ Holds a) × Holds b)
    Holds (equivalent a b) = Holds a ↔ Holds b
    Holds (implies a b) = Holds a → Holds b
    Holds (cardinality xs low high) =
        (n : ℕ) × Exactly xs n × (leb_ℤ low (pos n) ≡ true) × (leb_ℤ (pos n) high ≡ true)
    Holds (all_different xs) = ⊥

    pub Every : Booleans → Type 0
    Every no_boolean = Unit
    Every (condition x xs) = Holds x × Every xs

    pub Some : Booleans → Type 0
    Some no_boolean = ⊥
    Some (condition x xs) = Holds x ⊎ Some xs

    -- of the operands, `n` hold
    pub Exactly : Booleans → ℕ → Type 0
    Exactly no_boolean zero = Unit
    Exactly no_boolean (suc n) = ⊥
    Exactly (condition x xs) zero = (¬ Holds x) × Exactly xs zero
    Exactly (condition x xs) (suc n) = (Holds x × Exactly xs n) ⊎ ((¬ Holds x) × Exactly xs (suc n))
