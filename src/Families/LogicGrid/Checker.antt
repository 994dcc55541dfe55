-- ===== src/Families/LogicGrid/Checker.antt =====
-- src/deductra/families/logic_grid/checker.py: `check_logic_grid_solution`.
pub mod Anchors
pub mod Placement
pub mod Acceptance
use mathlib.Core.Option
use deductra.Common.{
  ℕ, suc, String, ◌<>◌, Bool, true, false, not, Option, none, some, List, [], ◌∷◌, ◌++◌, map, eqb,
  if◌then◌else◌, ◌==◌, string_eq, pair_eq, nat_eq, bool_eq, length, contains, to_set, difference,
  from_keys, unique, sort_texts, value_error, Result, err, ok, ◌>>=◌, ◌>>◌,
}
use deductra.Common.Int.{ℤ, pos}
use deductra.Common.Dict.{Dict, keys, values, insert, subscript}
use deductra.Domain.Atoms.{Atom, assignment, exclusion, atom_eq}
use deductra.Domain.Constraints.{Constraint, ConstraintKind, all_different, arithmetic}
use deductra.Domain.Expressions.{Number}
use deductra.Domain.Values.{DomainValue, Domain, value_ids}
use deductra.Families.LogicGrid.Evaluation.{checker_errors, evaluate_boolean}
use deductra.Families.LogicGrid.Specification.{LogicGridSpec, anchor_domain, variables_by_id}

pub record LogicGridSolutionCheck : Type 0 where
  pub accepted : Bool
  pub violations : List String

-- the loop over `enumerate(domain.values, start=1)`, for the ordinals and for the numbers
unfoldable pub ordinals_of : ℕ → Dict ℤ → List DomainValue → Dict ℤ
ordinals_of n d [] = d
ordinals_of n d (v ∷ vs) =
    ordinals_of (suc n) (insert v.value_id (Option.get_or v.ordinal (pos n)) d) vs

unfoldable pub numeric_values_of : Dict Number → List DomainValue → Dict Number
numeric_values_of d [] = d
numeric_values_of d (v ∷ vs) = elim v.numeric_value [
  | some n ↦ numeric_values_of (insert v.value_id n d) vs
  | none ↦ numeric_values_of d vs
]

-- `_anchor_semantics`
unfoldable pub anchor_semantics : LogicGridSpec → Result (Dict ℤ × Dict Number)
unfolding anchor_domain ordinals_of numeric_values_of
anchor_semantics p = do
  d ← anchor_domain p
  ok (ordinals_of 1 [] d.values, numeric_values_of [] d.values)

-- `violations` and `by_variable`
pub record Rows : Type 0 where
  pub violations : List String
  pub by_variable : Dict String

-- one turn of the loop over the assignments
unfoldable pub place_row : List String → List String → Rows → String × String → Rows
place_row variables value_ids rows (v, x) =
    if not (contains variables v)
    then record rows { violations = rows.violations ++ ("unknown_variable:" <> v) ∷ [] }
    else if contains (keys rows.by_variable) v
    then record rows { violations = rows.violations ++ ("duplicate_assignment:" <> v) ∷ [] }
    else if not (contains value_ids x)
    then record rows { violations = rows.violations ++ ("unknown_value:" <> x) ∷ [] }
    else record rows { by_variable = insert v x rows.by_variable }

unfoldable pub place_rows : List String → List String → Rows → List (String × String) → Rows
unfolding place_row
place_rows variables value_ids rows [] = rows
place_rows variables value_ids rows (a ∷ rest) =
    place_rows variables value_ids (place_row variables value_ids rows a) rest

-- the violations of the checks of the rows
unfoldable pub row_violations : LogicGridSpec → Domain → List (String × String) → Rows
unfolding place_rows
row_violations p anchor assignments =
    let variables = keys (variables_by_id p) in
    let rows =
      place_rows variables (value_ids anchor) (record { violations = []; by_variable = [] })
        assignments in
    record rows {
      violations =
          rows.violations
          ++ map (λ v. "missing_assignment:" <> v)
              (sort_texts (difference (to_set variables) (keys rows.by_variable)));
    }

-- the loop over the givens
unfoldable pub given_violations : Dict String → List Atom → Result (List String)
given_violations by_variable [] = ok []
given_violations by_variable (assignment v x ∷ givens) = do
  y ← subscript v by_variable
  rest ← given_violations by_variable givens
  ok (if y == x then rest else ("given_failed:assignment:" <> v) ∷ rest)
given_violations by_variable (exclusion v x ∷ givens) = do
  y ← subscript v by_variable
  rest ← given_violations by_variable givens
  ok (if y == x then ("given_failed:exclusion:" <> v) ∷ rest else rest)
given_violations by_variable _ =
    err (value_error "Logic Grid givens must be assignments or exclusions")

-- `tuple(by_variable[item] for item in ids)`
unfoldable pub selected : Dict String → List String → Result (List String)
selected by_variable [] = ok []
selected by_variable (v ∷ vs) = do
  x ← subscript v by_variable
  xs ← selected by_variable vs
  ok (x ∷ xs)

-- whether a constraint of a kind that is looked at fails
unfoldable pub constraint_holds : Dict String → Dict ℤ → Dict Number → ConstraintKind → Result Bool
unfolding selected evaluate_boolean
constraint_holds by_variable ordinals numeric_values (all_different ids) = do
  xs ← selected by_variable ids
  ok (unique xs)
constraint_holds by_variable ordinals numeric_values (arithmetic e) =
    evaluate_boolean checker_errors by_variable ordinals numeric_values e
constraint_holds by_variable ordinals numeric_values _ = ok true

-- the loop over the constraints
unfoldable pub clue_violations :
    Dict String → Dict ℤ → Dict Number → List Constraint → Result (List String)
unfolding constraint_holds
clue_violations by_variable ordinals numeric_values [] = ok []
clue_violations by_variable ordinals numeric_values (c ∷ cs) = do
  holds ← constraint_holds by_variable ordinals numeric_values c.kind
  rest ← clue_violations by_variable ordinals numeric_values cs
  ok (if holds then rest else ("constraint_failed:" <> c.constraint_id) ∷ rest)

abbrev pub rejected_with : List String → LogicGridSolutionCheck
rejected_with violations = record { accepted = false; violations = from_keys violations }

-- the checks of a complete assignment
unfoldable pub check_rows : LogicGridSpec → Dict String → Result LogicGridSolutionCheck
unfolding given_violations clue_violations anchor_semantics from_keys
check_rows p by_variable = do
  failed_givens ← given_violations by_variable p.base.givens
  (ordinals, numeric_values) ← anchor_semantics p
  failed_constraints ← clue_violations by_variable ordinals numeric_values p.base.constraints
  let violations = from_keys (failed_givens ++ failed_constraints)
  ok (record { accepted = eqb (length violations) 0; violations = violations })

-- the violations of the rows end the check
unfoldable pub check_placed : LogicGridSpec → Rows → Result LogicGridSolutionCheck
unfolding check_rows
check_placed p placed =
    if eqb (length placed.violations) 0
    then check_rows p placed.by_variable
    else ok (rejected_with placed.violations)

unfoldable pub check_logic_grid_solution :
    LogicGridSpec → List (String × String) → Result LogicGridSolutionCheck
unfolding check_placed row_violations anchor_domain
check_logic_grid_solution p entries = do
  anchor ← anchor_domain p
  check_placed p (row_violations p anchor entries)
