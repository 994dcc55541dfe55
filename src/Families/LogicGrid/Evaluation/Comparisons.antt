-- ===== src/Families/LogicGrid/Evaluation/Comparisons.antt =====
-- The evaluation of a validated comparison returns, and returns whether it holds.
use deductra.Common.{
  String, ◌≡◌, refl, ◌∙◌, inl, inr, true, false, not, ◌&&◌, some, List, arith, Bool-cases, ◌==◌,
  ==_iff, string_eq, pair_eq, nat_eq, bool_eq, Has, ok, ◌>>=◌, Result-cases,
}
use deductra.Common.Int.{ℤ}
use deductra.Common.Dict.{Dict, lookup, subscript}
use deductra.Domain.Expressions.{
  Number, int, NumericExpression, constant, constant_bool, variable_reference, add_expression,
  subtract, multiply, exact_divide, modulo, negate, Comparison, equal, not_equal,
}
use deductra.Domain.Values.{Domain, value_ids}
use deductra.Families.LogicGrid.Expressions.{
  has_complete_numeric_values, is_variable, is_equality, validate_numeric_expression,
  validate_comparison,
}
use deductra.Families.LogicGrid.Evaluation.{
  compare_numbers, EvaluationErrors, evaluate_numeric, compare_variables, evaluate_comparison,
}
use deductra.Families.LogicGrid.Evaluation.Meaning.{Grid, worth, ComparesRows, Compares}
use deductra.Families.LogicGrid.Evaluation.Tells.{Tells, Decided}

-- The dicts that the evaluation reads, for the variables and the anchor that the validator saw.
pub record IsTable (g : Grid) (variables : List String) (anchor : Domain)
    (assignments : Dict String) (ordinals : Dict ℤ) (numbers : Dict Number) : Type 0 where
  pub rows : (v : String) → Has variables v → lookup v assignments ≡ some (g.row v)
  pub inside : (v : String) → Has variables v → Has (value_ids anchor) (g.row v)
  pub places : (x : String) → Has (value_ids anchor) x → lookup x ordinals ≡ some (g.place x)
  pub amounts :
      (x : String)
      → has_complete_numeric_values anchor ≡ true
      → Has (value_ids anchor) x
      → lookup x numbers ≡ some (g.amount x)

module _ (errors : EvaluationErrors) (g : Grid) (variables : List String) (anchor : Domain)
    (assignments : Dict String) (ordinals : Dict ℤ) (numbers : Dict Number)
    (table : IsTable g variables anchor assignments ordinals numbers) where
  numeric-worth :
      (a : NumericExpression)
      → validate_numeric_expression variables anchor a ≡ ok tt
      → has_complete_numeric_values anchor ≡ true
      → evaluate_numeric errors assignments ordinals numbers a ≡ ok (worth g a)
  unfolding validate_numeric_expression evaluate_numeric
  numeric-worth (constant n) h c = refl
  numeric-worth (constant_bool b) h c = cc
  numeric-worth (variable_reference v) h c =
      let known : Has variables v = ground arith in
      ground (arith, table.rows v known, table.amounts (g.row v) c (table.inside v known))
  numeric-worth (subtract a b) h c = ground (
    arith,
    numeric-worth a,
    numeric-worth b,
    Result-cases (validate_numeric_expression variables anchor a),
  )
  numeric-worth (add_expression _) h c = cc
  numeric-worth (multiply _) h c = cc
  numeric-worth (exact_divide _ _) h c = cc
  numeric-worth (modulo _ _) h c = cc
  numeric-worth (negate _) h c = cc

  complete_of :
      (a : NumericExpression)
      → validate_numeric_expression variables anchor a ≡ ok tt
      → is_variable a ≡ false
      → has_complete_numeric_values anchor ≡ true
  unfolding validate_numeric_expression
  complete_of (constant n) h v = ground arith
  complete_of (subtract a b) h v = ground arith
  complete_of (variable_reference w) h v = cc
  complete_of _ h v = cc

  evaluate_comparison-other :
      (c : Comparison) (a b : NumericExpression)
      → (is_variable a && is_variable b) ≡ false
      → evaluate_comparison errors assignments ordinals numbers c a b ≡ (do
        left ← evaluate_numeric errors assignments ordinals numbers a
        right ← evaluate_numeric errors assignments ordinals numbers b
        ok (compare_numbers c left right))
  unfolding evaluate_comparison
  evaluate_comparison-other c (variable_reference v) (variable_reference w) h = cc
  evaluate_comparison-other c a b h = refl

  Compares-other :
      (c : Comparison) (a b : NumericExpression)
      → (is_variable a && is_variable b) ≡ false
      → Tells (Compares g c a b) (compare_numbers c (worth g a) (worth g b))
  Compares-other c (variable_reference v) (variable_reference w) h = cc
  Compares-other c a b h = (λ x. x, λ x. x)

  -- what the validator of a comparison lets pass
  comparison_parts :
      (c : Comparison) (a b : NumericExpression)
      → validate_comparison variables anchor c a b ≡ ok tt
      → (validate_numeric_expression variables anchor a ≡ ok tt)
        × (validate_numeric_expression variables anchor b ≡ ok tt)
  unfolding validate_comparison
  comparison_parts c a b h = elim (Bool-cases (is_equality c)) [
    | inl e ↦ (ground arith, ground arith)
    | inr e ↦ (ground arith, ground arith)
  ]

  other-Decided :
      (c : Comparison) (a b : NumericExpression)
      → validate_comparison variables anchor c a b ≡ ok tt
      → (is_variable a && is_variable b) ≡ false
      → Decided (Compares g c a b) (evaluate_comparison errors assignments ordinals numbers c a b)
  other-Decided c a b h o =
      let (va, vb) = comparison_parts c a b h in
      let complete : has_complete_numeric_values anchor ≡ true =
        ground (arith, complete_of a va, complete_of b vb) in
      (
        compare_numbers c (worth g a) (worth g b),
        evaluate_comparison-other c a b o
            ∙ cc (numeric-worth a va complete, numeric-worth b vb complete),
        Compares-other c a b o,
      )

  variables-Decided :
      (c : Comparison) (v w : String)
      → Has variables v
      → Has variables w
      → Decided (ComparesRows g c v w) (compare_variables errors assignments ordinals numbers c v w)
  unfolding compare_variables subscript
  variables-Decided equal v w kv kw =
      (g.row v == g.row w, cc (table.rows v kv, table.rows w kw), ==_iff (g.row v) (g.row w))
  variables-Decided not_equal v w kv kw =
      (not (g.row v == g.row w), cc (table.rows v kv, table.rows w kw), ground arith)
  variables-Decided c v w kv kw = (
    compare_numbers c (int (g.place (g.row v))) (int (g.place (g.row w))),
    cc (
      table.rows v kv,
      table.rows w kw,
      table.places (g.row v) (table.inside v kv),
      table.places (g.row w) (table.inside w kw),
    ),
    (λ x. x, λ x. x),
  )

  -- the evaluation of a validated comparison
  pub comparison-Decided :
      (c : Comparison) (a b : NumericExpression)
      → validate_comparison variables anchor c a b ≡ ok tt
      → Decided (Compares g c a b) (evaluate_comparison errors assignments ordinals numbers c a b)
  unfolding validate_numeric_expression evaluate_comparison
  comparison-Decided c (variable_reference v) (variable_reference w) h =
      let (va, vb) = comparison_parts c (variable_reference v) (variable_reference w) h in
      variables-Decided c v w (ground arith) (ground arith)
  comparison-Decided c a b h = other-Decided c a b h refl
