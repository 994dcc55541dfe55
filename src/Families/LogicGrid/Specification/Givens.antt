-- ===== src/Families/LogicGrid/Specification/Givens.antt =====
-- src/deductra/families/logic_grid/specification.py: `_validate_givens`.
use deductra.Common.{
  String, Bool, false, not, ◌||◌, none, some, List, [], ◌∷◌, map, ◌==◌, string_eq, pair_eq, nat_eq,
  bool_eq, any, contains, add, unique, value_error, Result, err, ok, raise_if, ◌>>=◌, ◌>>◌,
}
use deductra.Common.Dict.{Dict, values, lookup, insert, dict_of}
use deductra.Domain.Atoms.{Atom, assignment, exclusion, atom_eq}
use deductra.Domain.Values.{DomainValue, Domain, value_ids}
use deductra.Families.LogicGrid.Specification.{LogicGridCategory, LogicGridSpec}

-- What the loop over the givens keeps; a key (kind, variable, value) is the atom itself.
pub record GivenMarks : Type 0 where
  pub normalized : List Atom
  pub assignments : Dict String
  pub exclusions : List (String × String)

-- the checks that both kinds of atom share
unfoldable pub check_known :
    List String → List String → List Atom → Atom → String → String → Result (Unit {0})
check_known variables values seen a v x = do
  raise_if (not (contains variables v) || not (contains values x))
      (value_error "givens must reference variables and anchor values in this puzzle")
  raise_if (contains seen a) (value_error "givens cannot contain duplicate atoms")

-- `assignments.setdefault(v, x)`
abbrev set_default : String → String → Dict String → String
set_default v x d = elim (lookup v d) [ some y ↦ y | none ↦ x ]

-- the loop over the givens
unfoldable pub normalize_givens :
    List String → List String → GivenMarks → List Atom → Result GivenMarks
unfolding check_known
normalize_givens variables values marks [] = ok marks
normalize_givens variables values marks (assignment v x ∷ givens) = do
  check_known variables values marks.normalized (assignment v x) v x
  raise_if (not (set_default v x marks.assignments == x))
      (value_error "a variable cannot be assigned two anchor values")
  normalize_givens variables values
      (record marks {
        normalized = add (assignment v x) marks.normalized;
        assignments = insert v (set_default v x marks.assignments) marks.assignments;
      })
      givens
normalize_givens variables values marks (exclusion v x ∷ givens) = do
  check_known variables values marks.normalized (exclusion v x) v x
  normalize_givens variables values
      (record marks {
        normalized = add (exclusion v x) marks.normalized;
        exclusions = add (v, x) marks.exclusions;
      })
      givens
normalize_givens variables values marks _ =
    err (value_error "Logic Grid givens must be assignments or exclusions")

-- `[assignments[v] for v in ids if v in assignments]`
abbrev pub assigned_values : Dict String → List String → List String
assigned_values assignments [] = []
assigned_values assignments (v ∷ ids) = elim (lookup v assignments) [
  | some x ↦ x ∷ assigned_values assignments ids
  | none ↦ assigned_values assignments ids
]

-- `assignments.get(v) == x`
abbrev pub assigned_to : Dict String → String → String → Bool
assigned_to assignments v x = elim (lookup v assignments) [ some y ↦ y == x | none ↦ false ]

-- `zip(anchor_category.variable_ids, anchor_domain.values, strict=True)`
unfoldable pub required_assignments : List String → List DomainValue → Result (Dict String)
required_assignments [] [] = ok []
required_assignments (v ∷ ids) (x ∷ xs) = do
  rest ← required_assignments ids xs
  ok ((v, x.value_id) ∷ rest)
required_assignments _ _ = err (value_error "zip() arguments have different lengths")

-- `_validate_givens`
unfoldable pub validate_givens : LogicGridSpec → LogicGridCategory → Domain → Result (Unit {0})
unfolding normalize_givens required_assignments
validate_givens p category anchor = do
  marks ←
      normalize_givens (map (λ v. v.variable_id) p.base.variables) (value_ids anchor)
        (record { normalized = []; assignments = []; exclusions = [] }) p.base.givens
  raise_if (any (contains marks.exclusions) marks.assignments)
      (value_error "a given assignment cannot also be excluded")
  raise_if (any (λ c. not (unique (assigned_values marks.assignments c.variable_ids))) p.categories)
      (value_error "given assignments must respect category bijections")
  required ← required_assignments category.variable_ids anchor.values
  raise_if (any (λ (v, x). not (assigned_to marks.assignments v x)) (dict_of [] required))
      (value_error "anchor category variables must be assigned to their aligned anchor values")
