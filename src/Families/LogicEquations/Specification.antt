-- ===== src/Families/LogicEquations/Specification.antt =====
-- src/deductra/families/logic_equations/specification.py: the specification of a Logic Equations
-- puzzle, which adds no field to the common one, and the validator of the family's contract.
pub mod Ready
use deductra.Common.{
  ℕ, suc, ◌+◌, String, Bool, true, false, not, ◌&&◌, ◌||◌, none, some, List, [], ◌∷◌, map, ltb, eqb,
  if◌then◌else◌, ◌==◌, string_eq, pair_eq, nat_eq, bool_eq, length, any, concat_map, contains,
  to_set, same_set, unique, value_error, index_error, Result, err, ok, raise_if, ◌>>=◌, ◌>>◌,
}
use deductra.Common.Int.{pos}
use deductra.Common.Dict.{Dict, keys, values, dict_of, subscript}
use deductra.Domain.Atoms.{Atom, assignment, exclusion, atom_eq}
use deductra.Domain.Expressions.{int, BooleanExpression}
use deductra.Domain.Constraints.{Constraint, ConstraintKind, all_different, arithmetic}
use deductra.Domain.Values.{DomainValue, Domain, value_ids}
use deductra.Domain.Puzzle.{Clue, PuzzleSpec, validate_references}
use deductra.Families.LogicGrid.Numbers.{equal_number}
use deductra.Families.LogicGrid.Specification.{strip}
use deductra.Families.LogicGrid.Specification.Clues.{ordinals_from, all_different_of, arithmetic_of}
use deductra.Families.LogicEquations.Expressions.{is_arithmetic, validate_equation}

abbrev pub LogicEquationsSpec : Type 0
LogicEquationsSpec = PuzzleSpec

-- `numeric_values == tuple(range(start, start + n))`; a fraction may equal an integer
abbrev pub numbers_from : ℕ → List DomainValue → Bool
numbers_from n [] = true
numbers_from n (v ∷ vs) =
    (elim v.numeric_value [ some m ↦ equal_number m (int (pos n)) | none ↦ false ])
    && numbers_from (suc n) vs

-- `puzzle.domains[0]`
unfoldable pub value_domain : LogicEquationsSpec → Result Domain
value_domain p = elim p.domains [ [] ↦ err index_error | d ∷ ds ↦ ok d ]

unfoldable pub validate_value_domain : LogicEquationsSpec → Result Domain
unfolding value_domain
validate_value_domain p = do
  raise_if (not (p.identity.family_id == "logic-equations"))
      (value_error "family_id must be 'logic-equations'")
  raise_if (not (p.identity.schema_version == "1.0.0"))
      (value_error "schema_version must be '1.0.0'")
  raise_if (not (eqb (length p.domains) 1))
      (value_error "Logic Equations requires exactly one value domain")
  d ← value_domain p
  raise_if (not d.ordered || not d.distinct_by_default)
      (value_error "the value domain must be ordered and distinct by default")
  raise_if (ltb (length d.values) 2)
      (value_error "the value domain must contain at least two integers")
  raise_if (not (numbers_from 1 d.values) || not (ordinals_from 1 d.values))
      (value_error "domain numeric values and ordinals must be the ordered range 1..n")
  ok d

abbrev pub variable_ids_of : LogicEquationsSpec → List String
variable_ids_of p = map (λ v. v.variable_id) p.variables

unfoldable pub validate_equation_variables : LogicEquationsSpec → Domain → Result (Unit {0})
unfolding strip
validate_equation_variables p d = do
  raise_if (not (eqb (length p.variables) (length d.values)))
      (value_error "Logic Equations requires one variable for each domain value")
  raise_if (any (λ v. not (v.domain_id == d.domain_id) || not (is_arithmetic v.role)) p.variables)
      (value_error "all variables must be arithmetic variables in the value domain")
  raise_if
      (any (λ v. strip v.label == "") p.variables || not (unique (map (λ v. v.label) p.variables)))
      (value_error "variable labels must be non-empty and unique")

-- the loop over the arithmetic constraints
unfoldable pub validate_arithmetic_clues :
    List String → List (Constraint × BooleanExpression) → Result (Unit {0})
unfolding validate_equation
validate_arithmetic_clues variables [] = ok tt
validate_arithmetic_clues variables ((c, e) ∷ cs) = do
  validate_equation variables e
  validate_arithmetic_clues variables cs

-- `len(all_different) != 1 or frozenset(all_different[0].variable_ids) != variable_ids`
abbrev pub bad_different : List String → List (Constraint × List String) → Bool
bad_different variables ((c, ids) ∷ []) = not (same_set ids variables)
bad_different variables _ = true

-- `len(all_different[0].variable_ids)`
abbrev pub different_count : List (Constraint × List String) → ℕ
different_count [] = 0
different_count ((c, ids) ∷ rest) = length ids

unfoldable pub validate_equation_constraints : LogicEquationsSpec → Result (Unit {0})
unfolding validate_arithmetic_clues
validate_equation_constraints p =
    let different = all_different_of p.constraints in
    let clues = arithmetic_of p.constraints in
    do
      raise_if (bad_different (variable_ids_of p) different)
          (value_error "one all-different constraint must cover every variable exactly once")
      raise_if (not (eqb (different_count different) (length (to_set (variable_ids_of p)))))
          (value_error "the all-different constraint cannot repeat variables")
      raise_if (not (eqb (length clues + 1) (length p.constraints)) || eqb (length clues) 0)
          (value_error "constraints must contain one all-different constraint and arithmetic clues")
      validate_arithmetic_clues (variable_ids_of p) clues

-- `constraint.source_clue_id == clue.clue_id`
abbrev pub comes_from : Clue → Constraint → Bool
comes_from clue c = elim c.source_clue_id [ some s ↦ s == clue.clue_id | none ↦ false ]

-- `any(arithmetic_by_id[clue.constraint_ids[0]].source_clue_id != clue.clue_id for clue in clues)`
unfoldable pub foreign_source : Dict Constraint → List Clue → Result Bool
foreign_source by_id [] = ok false
foreign_source by_id (clue ∷ clues) = elim clue.constraint_ids [
  | [] ↦ err index_error
  | i ∷ ids ↦ (do
    c ← subscript i by_id
    if comes_from clue c then foreign_source by_id clues else ok true)
]

unfoldable pub validate_equation_clues : LogicEquationsSpec → Result (Unit {0})
unfolding foreign_source strip
validate_equation_clues p =
    let by_id = dict_of [] (map (λ (c, e). (c.constraint_id, c)) (arithmetic_of p.constraints)) in
    let linked = concat_map (λ clue. clue.constraint_ids) p.clues in
    do
      raise_if (not (same_set linked (keys by_id)))
          (value_error "clues must cover every arithmetic constraint and no implicit constraint")
      raise_if (not (eqb (length linked) (length (keys by_id))))
          (value_error "each arithmetic constraint must be linked from exactly one clue")
      raise_if
          (any (λ clue. strip clue.text_of == "" || not (eqb (length clue.constraint_ids) 1))
            p.clues)
          (value_error "each clue must contain text and link exactly one arithmetic constraint")
      foreign ← foreign_source by_id p.clues
      raise_if foreign
          (value_error "arithmetic source_clue_id values must match their linked clues")

-- the loop over the givens
unfoldable pub validate_equation_givens : List String → List String → List Atom → Result (Unit {0})
validate_equation_givens variables value_ids [] = ok tt
validate_equation_givens variables value_ids (assignment v x ∷ givens) = do
  raise_if (not (contains variables v) || not (contains value_ids x))
      (value_error "givens must reference variables and values in this puzzle")
  validate_equation_givens variables value_ids givens
validate_equation_givens variables value_ids (exclusion v x ∷ givens) = do
  raise_if (not (contains variables v) || not (contains value_ids x))
      (value_error "givens must reference variables and values in this puzzle")
  validate_equation_givens variables value_ids givens
validate_equation_givens variables value_ids _ =
    err (value_error "Logic Equations givens must be assignments or exclusions")

-- `validate_logic_equations_contract`
unfoldable pub validate_logic_equations_contract : LogicEquationsSpec → Result (Unit {0})
unfolding validate_value_domain validate_equation_variables validate_equation_constraints
    validate_equation_clues validate_equation_givens
validate_logic_equations_contract p = do
  d ← validate_value_domain p
  validate_equation_variables p d
  validate_equation_constraints p
  validate_equation_clues p
  validate_equation_givens (variable_ids_of p) (value_ids d) p.givens

-- The validators of a specification: those of `PuzzleSpec` run first.
unfoldable pub validate_logic_equations_spec : LogicEquationsSpec → Result (Unit {0})
unfolding validate_logic_equations_contract validate_references
validate_logic_equations_spec p = do validate_references p; validate_logic_equations_contract p
