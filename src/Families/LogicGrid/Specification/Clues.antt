-- ===== src/Families/LogicGrid/Specification/Clues.antt =====
-- src/deductra/families/logic_grid/specification.py: `_validate_anchor_domain`,
-- `_validate_constraints` and `_validate_clues`.
use deductra.Common.{
  ℕ, suc, ◌+◌, String, Bool, true, false, not, ◌&&◌, ◌||◌, none, some, List, [], ◌∷◌, map, eqb,
  ◌==◌, string_eq, pair_eq, nat_eq, bool_eq, length, all, any, find, contains, update, subset,
  same_set, unique, value_error, Result, ok, raise_if, ◌>>=◌, ◌>>◌,
}
use deductra.Common.Int.{pos, negsuc}
use deductra.Common.Dict.{keys, values, dict_of}
use deductra.Domain.Expressions.{Number, BooleanExpression}
use deductra.Domain.Constraints.{Constraint, ConstraintKind, all_different, arithmetic}
use deductra.Domain.Values.{DomainValue, Domain}
use deductra.Domain.Puzzle.{Clue}
use deductra.Families.LogicGrid.Numbers.{unique_numbers}
use deductra.Families.LogicGrid.Expressions.{
  has_complete_numeric_values, validate_boolean_expression, referenced_variables,
}
use deductra.Families.LogicGrid.Specification.{LogicGridSpec, strip, anchor_domain}

-- `tuple(range(start, start + n))`
abbrev pub ordinals_from : ℕ → List DomainValue → Bool
ordinals_from n [] = true
ordinals_from n (v ∷ vs) =
    (elim v.ordinal [ some (pos k) ↦ eqb k n | some (negsuc k) ↦ false | none ↦ false ])
    && ordinals_from (suc n) vs

abbrev pub numbers_of : List DomainValue → List Number
numbers_of [] = []
numbers_of (v ∷ vs) = elim v.numeric_value [ some n ↦ n ∷ numbers_of vs | none ↦ numbers_of vs ]

-- `_validate_anchor_domain`
unfoldable pub validate_anchor_domain : Domain → Result (Unit {0})
unfolding has_complete_numeric_values
validate_anchor_domain d = do
  raise_if (d.ordered && not (ordinals_from 1 d.values))
      (value_error "an ordered anchor domain must use ordinals 1..n")
  raise_if (not (eqb (length (numbers_of d.values)) 0) && not (has_complete_numeric_values d))
      (value_error "anchor numeric values must be either complete or absent")
  raise_if (not (unique_numbers (numbers_of d.values)))
      (value_error "anchor numeric values must be unique")

abbrev pub note_different :
    Constraint → ConstraintKind → List (Constraint × List String) → List (Constraint × List String)
note_different c (all_different ids) rest = (c, ids) ∷ rest
note_different c _ rest = rest

-- the all-different constraints, with their variables
abbrev pub all_different_of : List Constraint → List (Constraint × List String)
all_different_of [] = []
all_different_of (c ∷ cs) = note_different c c.kind (all_different_of cs)

abbrev pub note_arithmetic :
    Constraint
    → ConstraintKind
    → List (Constraint × BooleanExpression)
    → List (Constraint × BooleanExpression)
note_arithmetic c (arithmetic e) rest = (c, e) ∷ rest
note_arithmetic c _ rest = rest

-- the arithmetic constraints, with their expressions
abbrev pub arithmetic_of : List Constraint → List (Constraint × BooleanExpression)
arithmetic_of [] = []
arithmetic_of (c ∷ cs) = note_arithmetic c c.kind (arithmetic_of cs)

-- `group in groups`, for sets of sets
abbrev pub contains_group : List (List String) → List String → Bool
contains_group groups group = any (same_set group) groups

-- the test of the loop over the all-different constraints
abbrev pub bad_group : List (List String) → Constraint × List String → Bool
bad_group expected_groups (c, ids) =
    not (unique ids)
    || not (contains_group expected_groups ids)
    || elim c.source_clue_id [ some i ↦ true | none ↦ false ]

-- the loop over the arithmetic constraints
unfoldable pub validate_arithmetic :
    List String → Domain → List (Constraint × BooleanExpression) → Result (Unit {0})
unfolding validate_boolean_expression referenced_variables
validate_arithmetic variables anchor [] = ok tt
validate_arithmetic variables anchor ((c, e) ∷ cs) = do
  validate_boolean_expression variables anchor e
  references ← referenced_variables e
  raise_if (eqb (length references) 0)
      (value_error "a Logic Grid clue expression must reference an item variable")
  validate_arithmetic variables anchor cs

-- `_validate_constraints`
unfoldable pub validate_constraints : LogicGridSpec → List String → Result (Unit {0})
unfolding validate_arithmetic anchor_domain
validate_constraints p variables =
    let different = all_different_of p.base.constraints in
    let clues = arithmetic_of p.base.constraints in
    let expected_groups = map (λ c. c.variable_ids) p.categories in
    let actual_groups = map (λ (c, ids). ids) different in
    do
      raise_if (not (eqb (length different + length clues) (length p.base.constraints)))
          (value_error "Logic Grid constraints must be all-different or arithmetic constraints")
      raise_if (not (eqb (length different) (length p.categories)))
          (value_error "each category requires exactly one all-different constraint")
      raise_if (any (bad_group expected_groups) different)
          (value_error "all-different constraints must cover each category exactly once")
      raise_if (not (all (contains_group actual_groups) expected_groups))
          (value_error "all-different constraints must cover each category exactly once")
      raise_if (eqb (length clues) 0)
          (value_error "Logic Grid requires at least one clue constraint")
      anchor ← anchor_domain p
      validate_arithmetic variables anchor clues

-- the loop over the clues; returns `referenced_ids`
unfoldable pub referenced_ids : List String → List String → List Clue → Result (List String)
unfolding strip
referenced_ids arithmetic_ids found [] = ok found
referenced_ids arithmetic_ids found (c ∷ cs) = do
  raise_if (strip c.text_of == "" || eqb (length c.constraint_ids) 0)
      (value_error "each clue must contain text and reference a constraint")
  raise_if (not (unique c.constraint_ids))
      (value_error "a clue cannot repeat a constraint reference")
  raise_if (not (subset c.constraint_ids arithmetic_ids))
      (value_error "clues may reference only arithmetic clue constraints")
  referenced_ids arithmetic_ids (update found c.constraint_ids) cs

-- the test of a constraint's provenance, which is false where no clue has the identifier
unfoldable pub has_source : List Clue → Constraint → Bool
has_source clues c = elim c.source_clue_id [
  | none ↦ false
  | some i ↦ elim (find (λ clue. clue.clue_id == i) clues) [
    | none ↦ false
    | some clue ↦ contains clue.constraint_ids c.constraint_id
  ]
]

-- `_validate_clues`
unfoldable pub validate_clues : LogicGridSpec → Result (Unit {0})
unfolding referenced_ids has_source
validate_clues p =
    let by_id =
      dict_of [] (map (λ (c, e). (c.constraint_id, c)) (arithmetic_of p.base.constraints)) in
    do
      found ← referenced_ids (keys by_id) [] p.base.clues
      raise_if (not (same_set found (keys by_id)))
          (value_error "clues must cover every arithmetic constraint")
      raise_if (not (all (has_source p.base.clues) (values by_id)))
          (value_error "constraint provenance must match a supporting clue")
