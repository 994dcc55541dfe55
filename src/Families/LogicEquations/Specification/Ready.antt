-- ===== src/Families/LogicEquations/Specification/Ready.antt =====
-- What the validated specifications have: a value domain, and constraints that can be checked.
use deductra.Common.{
  ◌+◌, String, ◌≡◌, refl, inl, inr, true, false, List, [], ◌∷◌, arith, eqb_iff, string_eq, pair_eq,
  nat_eq, bool_eq, length, All, subset, ok, >>=-eq-ok, >>-eq-ok, Result-cases,
}
use deductra.Domain.Expressions.{BooleanExpression}
use deductra.Domain.Constraints.{Constraint}
use deductra.Domain.Values.{Domain}
use deductra.Domain.Puzzle.{validate_references}
use deductra.Families.LogicGrid.Specification.Clues.{all_different_of, arithmetic_of}
use deductra.Families.LogicGrid.Specification.Kinds.{OfKind, IsGroup, IsClue, constraints-OfKind}
use deductra.Families.LogicEquations.Expressions.{validate_equation}
use deductra.Families.LogicEquations.Specification.{
  LogicEquationsSpec, value_domain, validate_value_domain, variable_ids_of,
  validate_equation_variables, validate_arithmetic_clues, bad_different,
  validate_equation_constraints, validate_logic_equations_contract, validate_logic_equations_spec,
}

abbrev pub KnownGroup : List String → List String → Type 0
KnownGroup variables ids = subset ids variables ≡ true

abbrev pub ValidEquation : List String → BooleanExpression → Type 0
ValidEquation variables e = validate_equation variables e ≡ ok tt

pub record IsSolvable (p : LogicEquationsSpec) : Type 0 where
  pub domain : Domain
  pub found : value_domain p ≡ ok domain
  pub constraints :
      All
        (λ c. OfKind (KnownGroup (variable_ids_of p)) (ValidEquation (variable_ids_of p)) c.kind)
        p.constraints

validate_arithmetic_clues-All :
    (variables : List String) (clues : List (Constraint × BooleanExpression))
    → validate_arithmetic_clues variables clues ≡ ok tt
    → All (IsClue (KnownGroup variables) (ValidEquation variables)) clues
unfolding validate_arithmetic_clues
validate_arithmetic_clues-All variables [] h = tt
validate_arithmetic_clues-All variables ((c, e) ∷ cs) h =
    let (valid, rest) = >>-eq-ok (validate_equation variables e) _ h in
    (valid, validate_arithmetic_clues-All variables cs rest)

different-All :
    (variables : List String) (ds : List (Constraint × List String))
    → bad_different variables ds ≡ false
    → (length ds ≡ 1) × All (IsGroup (KnownGroup variables) (ValidEquation variables)) ds
different-All variables [] h = cc
different-All variables ((c, ids) ∷ []) h = (refl, (ground arith, tt))
different-All variables (_ ∷ _ ∷ ds) h = cc

constraints-Checked :
    (p : LogicEquationsSpec)
    → validate_equation_constraints p ≡ ok tt
    → All
        (λ c. OfKind (KnownGroup (variable_ids_of p)) (ValidEquation (variable_ids_of p)) c.kind)
        p.constraints
unfolding validate_equation_constraints
constraints-Checked p h =
    let variables = variable_ids_of p in
    let (one, groups) = different-All variables (all_different_of p.constraints) (ground arith) in
    let sizes =
      (eqb_iff (length (arithmetic_of p.constraints) + 1) (length p.constraints)).0
        (ground arith) in
    constraints-OfKind (KnownGroup variables) (ValidEquation variables) p.constraints (omega arith)
      groups (validate_arithmetic_clues-All variables (arithmetic_of p.constraints) (ground arith))

validate_value_domain-found :
    (p : LogicEquationsSpec) {d : Domain} → validate_value_domain p ≡ ok d → value_domain p ≡ ok d
unfolding validate_value_domain
validate_value_domain-found p h = elim (Result-cases (value_domain p)) [
  | inl (first, e) ↦ ground arith
  | inr (raised, e) ↦ absurd (ground arith)
]

pub validate_logic_equations_spec-IsSolvable :
    (p : LogicEquationsSpec) → validate_logic_equations_spec p ≡ ok tt → IsSolvable p
unfolding validate_logic_equations_spec validate_logic_equations_contract
validate_logic_equations_spec-IsSolvable p h =
    let (references, h1) = >>-eq-ok (validate_references p) _ h in
    let (d, found, h2) = >>=-eq-ok (validate_value_domain p) _ h1 in
    let (variables, h3) = >>-eq-ok (validate_equation_variables p d) _ h2 in
    let (constraints, h4) = >>-eq-ok (validate_equation_constraints p) _ h3 in
    record {
      domain = d;
      found = validate_value_domain-found p found;
      constraints = constraints-Checked p constraints;
    }
