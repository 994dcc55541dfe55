-- ===== src/Families/LogicGrid/Specification/Kinds.antt =====
-- The constraints of a puzzle whose all-different and arithmetic ones are all of its constraints.
use deductra.Common.{ℕ, suc, ◌+◌, ◌≤◌, String, ◌≡◌, List, [], ◌∷◌, arith, length, All}
use deductra.Domain.Constraints.{Constraint, ConstraintKind, all_different, arithmetic}
use deductra.Domain.Expressions.{BooleanExpression}
use deductra.Families.LogicGrid.Specification.Clues.{
  note_different, all_different_of, note_arithmetic, arithmetic_of,
}

module _ (Group : List String → Type 0) (Valid : BooleanExpression → Type 0) where
  -- The constraint is of one of the two kinds, and its part has the kind's property.
  abbrev pub OfKind : ConstraintKind → Type 0
  OfKind (all_different ids) = Group ids
  OfKind (arithmetic e) = Valid e
  OfKind _ = ⊥

  abbrev pub IsGroup : Constraint × List String → Type 0
  IsGroup (c, ids) = Group ids

  abbrev pub IsClue : Constraint × BooleanExpression → Type 0
  IsClue (c, e) = Valid e

  note-OfKind :
      (c : Constraint) (k : ConstraintKind) (ds : List (Constraint × List String))
      (es : List (Constraint × BooleanExpression)) {n : ℕ}
      → length ds + length es ≤ n
      → length (note_different c k ds) + length (note_arithmetic c k es) ≡ suc n
      → All (IsGroup) (note_different c k ds)
      → All (IsClue) (note_arithmetic c k es)
      → OfKind k × (length ds + length es ≡ n) × All (IsGroup) ds × All (IsClue) es
  note-OfKind c (all_different ids) ds es fit n d a = (d.0, omega arith, d.1, a)
  note-OfKind c (arithmetic e) ds es fit n d a = (a.0, omega arith, d, a.1)
  note-OfKind c _ ds es fit n d a = absurd (omega arith)

  note-le :
      (c : Constraint) (k : ConstraintKind) (ds : List (Constraint × List String))
      (es : List (Constraint × BooleanExpression))
      → length (note_different c k ds) + length (note_arithmetic c k es)
        ≤ suc (length ds + length es)
  note-le c (all_different ids) ds es = omega arith
  note-le c (arithmetic e) ds es = omega arith
  note-le c _ ds es = omega arith

  kinds_le :
      (cs : List Constraint) → length (all_different_of cs) + length (arithmetic_of cs) ≤ length cs
  kinds_le [] = omega arith
  kinds_le (c ∷ cs) =
      omega (arith, note-le c c.kind (all_different_of cs) (arithmetic_of cs), kinds_le cs)

  -- Each constraint is of one of the two kinds, and of each kind all are checked.
  pub constraints-OfKind :
      (cs : List Constraint)
      → length (all_different_of cs) + length (arithmetic_of cs) ≡ length cs
      → All (IsGroup) (all_different_of cs)
      → All (IsClue) (arithmetic_of cs)
      → All (λ c. OfKind c.kind) cs
  constraints-OfKind [] n d a = tt
  constraints-OfKind (c ∷ cs) n d a =
      let (k, m, e, b) =
        note-OfKind c c.kind (all_different_of cs) (arithmetic_of cs) (kinds_le cs) n d a in
      (k, constraints-OfKind cs m e b)
