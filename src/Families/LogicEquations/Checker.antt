-- ===== src/Families/LogicEquations/Checker.antt =====
-- src/deductra/families/logic_equations/checker.py: `check_logic_equations_solution`. Its loop
-- over the assignments is that of the Logic Grid checker.
pub mod Acceptance
use deductra.Common.{
  String, ◌<>◌, Bool, true, false, none, some, List, [], ◌∷◌, ◌++◌, map, eqb, if◌then◌else◌,
  string_eq, pair_eq, nat_eq, bool_eq, length, to_set, difference, from_keys, unique, sort_texts,
  value_error, Result, err, ok, ◌>>=◌, ◌>>◌,
}
use deductra.Common.Int.{ℤ}
use deductra.Common.Dict.{Dict, keys, values, dict_of, subscript}
use deductra.Domain.Expressions.{int, fraction}
use deductra.Domain.Constraints.{Constraint, ConstraintKind, all_different, arithmetic}
use deductra.Domain.Values.{DomainValue, Domain}
use deductra.Families.LogicGrid.Checker.{Rows, place_rows, selected}
use deductra.Families.LogicEquations.Specification.{LogicEquationsSpec, value_domain}
use deductra.Families.LogicEquations.Evaluation.{truth_of}

pub record LogicEquationsSolutionCheck : Type 0 where
  pub accepted : Bool
  pub violations : List String

-- `{value.value_id: value for value in domain.values}`
abbrev pub values_by_id : Domain → Dict DomainValue
values_by_id d = dict_of [] (map (λ v. (v.value_id, v)) d.values)

-- the violations of the checks of the assignments
unfoldable pub assignment_violations : LogicEquationsSpec → Domain → List (String × String) → Rows
unfolding place_rows
assignment_violations p d assignments =
    let variables = keys (dict_of [] (map (λ v. (v.variable_id, v)) p.variables)) in
    let rows =
      place_rows variables (keys (values_by_id d)) (record { violations = []; by_variable = [] })
        assignments in
    record rows {
      violations =
          rows.violations
          ++ map (λ v. "missing_assignment:" <> v)
              (sort_texts (difference (to_set variables) (keys rows.by_variable)));
    }

-- the integer of a value
unfoldable pub integer_of : DomainValue → Result ℤ
integer_of v = elim v.numeric_value [
  | some n ↦ elim n [
    | int z ↦ ok z
    | fraction z d ↦ err (value_error "Logic Equations values must be integers")
  ]
  | none ↦ err (value_error "Logic Equations values must be integers")
]

-- the loop that fills `numeric_assignments`
unfoldable pub numeric_assignments : Dict DomainValue → Dict String → Result (Dict ℤ)
unfolding integer_of
numeric_assignments values [] = ok []
numeric_assignments values ((v, x) ∷ by_variable) = do
  value ← subscript x values
  z ← integer_of value
  rest ← numeric_assignments values by_variable
  ok ((v, z) ∷ rest)

-- whether a constraint of a kind that is looked at holds
unfoldable pub equation_holds : Dict String → Dict ℤ → ConstraintKind → Result Bool
unfolding selected truth_of
equation_holds by_variable numbers (all_different ids) = do
  xs ← selected by_variable ids
  ok (unique xs)
equation_holds by_variable numbers (arithmetic e) = truth_of numbers e
equation_holds by_variable numbers _ = ok true

-- the loop over the constraints
unfoldable pub failed_constraints : Dict String → Dict ℤ → List Constraint → Result (List String)
unfolding equation_holds
failed_constraints by_variable numbers [] = ok []
failed_constraints by_variable numbers (c ∷ cs) = do
  holds ← equation_holds by_variable numbers c.kind
  rest ← failed_constraints by_variable numbers cs
  ok (if holds then rest else ("constraint_failed:" <> c.constraint_id) ∷ rest)

-- the checks of a complete assignment
unfoldable pub check_equations :
    LogicEquationsSpec → Domain → Dict String → Result LogicEquationsSolutionCheck
unfolding numeric_assignments failed_constraints from_keys
check_equations p d by_variable = do
  numbers ← numeric_assignments (values_by_id d) by_variable
  failed ← failed_constraints by_variable numbers p.constraints
  let violations = from_keys failed
  ok (record { accepted = eqb (length violations) 0; violations = violations })

-- the violations of the assignments end the check
unfoldable pub check_assigned :
    LogicEquationsSpec → Domain → Rows → Result LogicEquationsSolutionCheck
unfolding check_equations from_keys
check_assigned p d placed =
    if eqb (length placed.violations) 0
    then check_equations p d placed.by_variable
    else ok (record { accepted = false; violations = from_keys placed.violations })

unfoldable pub check_logic_equations_solution :
    LogicEquationsSpec → List (String × String) → Result LogicEquationsSolutionCheck
unfolding check_assigned assignment_violations value_domain
check_logic_equations_solution p assignments = do
  d ← value_domain p
  check_assigned p d (assignment_violations p d assignments)
