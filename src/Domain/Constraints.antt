-- ===== src/Domain/Constraints.antt =====
-- src/deductra/domain/constraints.py: the common constraint catalogue.
use deductra.Common.{
  String, Bool, Option, List, string_eq, pair_eq, nat_eq, bool_eq, contains, value_error, Result,
  ok, raise_if, ◌>>◌,
}
use deductra.Common.Int.{ℤ}
use deductra.Canonical.{Json}
use deductra.Domain.Expressions.{BooleanExpression, validate_boolean}

pub data Severity : Type 0 where
  hard instructional : Severity

pub data CageOperator : Type 0 where
  sum product difference quotient : CageOperator

pub data CompositeOperator : Type 0 where
  and or : CompositeOperator

-- The fields that a constraint class adds to `ConstraintBase`.
pub data ConstraintKind : Type 0 where
  -- the variable, and the allowed values
  domain : String → List String → ConstraintKind
  all_different : List String → ConstraintKind
  arithmetic : BooleanExpression → ConstraintKind
  -- the variables, the value, the minimum and the maximum
  cardinality : List String → Option String → ℤ → ℤ → ConstraintKind
  association : String → String → ConstraintKind
  -- before, after, strict
  order : String → String → Bool → ConstraintKind
  adjacency : String → String → ConstraintKind
  distance : String → String → ℤ → ConstraintKind
  region : List String → ConstraintKind
  cage : List String → CageOperator → ℤ → ConstraintKind
  selection : List String → ℤ → ℤ → ConstraintKind
  capacity : List String → ℤ → ConstraintKind
  implication : BooleanExpression → BooleanExpression → ConstraintKind
  equivalence : BooleanExpression → BooleanExpression → ConstraintKind
  proposition : BooleanExpression → ConstraintKind
  composite : CompositeOperator → List String → ConstraintKind

pub record Constraint : Type 0 where
  pub constraint_id : String
  pub label : String
  pub source_clue_id : Option String
  pub severity : Severity
  pub metadata : Json
  pub kind : ConstraintKind

-- The validators of the expressions, and `CompositeConstraint.reject_self_reference`.
validate_kind : String → ConstraintKind → Result (Unit {0})
validate_kind own (arithmetic e) = validate_boolean e
validate_kind own (implication a b) = do validate_boolean a; validate_boolean b
validate_kind own (equivalence a b) = do validate_boolean a; validate_boolean b
validate_kind own (proposition e) = validate_boolean e
validate_kind own (composite op ids) =
    raise_if (contains ids own) (value_error "a composite constraint cannot reference itself")
validate_kind own _ = ok tt

unfoldable pub validate_constraint : Constraint → Result (Unit {0})
unfolding validate_kind
validate_constraint c = validate_kind c.constraint_id c.kind
