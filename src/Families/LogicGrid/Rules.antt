-- ===== src/Families/LogicGrid/Rules.antt =====
-- src/deductra/families/logic_grid/rules.py: the rules of association and of category bijection,
-- and what all rules share. A rule finds conclusions with their premises, and packs them as
-- candidates. For a puzzle of another family a rule finds nothing.
pub mod Follows
pub mod Bijection
pub mod Entailed
pub mod Completion
pub mod Completes
use deductra.Common.{
  ℕ, ◌-◌, String, ◌<>◌, Bool, true, false, not, ◌&&◌, Option, none, some, List, [], ◌∷◌, ◌++◌, ltb,
  eqb, if◌then◌else◌, ◌==◌, string_eq, pair_eq, nat_eq, bool_eq, length, find, contains, difference,
  intersection, text_le, sort_by, sort_texts, stop_iteration, Result, err, ok, ◌>>=◌, ◌>>◌,
}
use deductra.Common.Dict.{values, subscript}
use deductra.Canonical.{text, Platform, object_of, canonical_json, canonical_sha256}
use deductra.Domain.Atoms.{Atom, assignment, exclusion, atom_eq, dump_atom}
use deductra.Domain.Expressions.{variable_reference, equal, not_equal, BooleanExpression, compared}
use deductra.Domain.Constraints.{Constraint, ConstraintKind, all_different, arithmetic}
use deductra.Reasoning.State.{PuzzleState}
use deductra.Reasoning.Rules.{
  RuleReference, reference_eq, RuleApplicationCandidate, candidate_eq, dump_reference, identity,
  validate_candidate,
}
use deductra.Families.LogicGrid.Specification.{LogicGridSpec}
use deductra.Families.LogicGrid.Specification.Clues.{arithmetic_of}

pub data LogicGridTechnique : Type 0 where
  association category_bijection ordering numeric_relation compound_logic : LogicGridTechnique

-- `technique.value`
abbrev pub technique_text : LogicGridTechnique → String
technique_text association = "association"
technique_text category_bijection = "category_bijection"
technique_text ordering = "ordering"
technique_text numeric_relation = "numeric_relation"
technique_text compound_logic = "compound_logic"

-- `_TECHNIQUE_RANKS`
abbrev pub technique_rank_of : LogicGridTechnique → ℕ
technique_rank_of association = 10
technique_rank_of category_bijection = 20
technique_rank_of ordering = 30
technique_rank_of numeric_relation = 40
technique_rank_of compound_logic = 50

-- `_reference`
unfoldable pub technique_reference : LogicGridTechnique → String → RuleReference
technique_reference technique title = record {
  rule_id = "deductra:rule:logic-grid:" <> technique_text technique;
  rule_version = "1.0.0";
  family_scope = "logic-grid" ∷ [];
  title = title;
  technique_rank = technique_rank_of technique;
}

-- `_technique_for`
unfoldable pub technique_for : BooleanExpression → LogicGridTechnique
technique_for (compared equal (variable_reference v) (variable_reference w)) = association
technique_for (compared not_equal (variable_reference v) (variable_reference w)) = association
technique_for (compared equal a b) = numeric_relation
technique_for (compared not_equal a b) = numeric_relation
technique_for (compared c a b) = ordering
technique_for _ = compound_logic

-- `next(iter(values))`
abbrev pub first_value : List String → Result String
first_value [] = err stop_iteration
first_value (x ∷ xs) = ok x

-- A conclusion, with the premises that disclose it.
abbrev pub RuleConclusion : Type 0
RuleConclusion = Atom × List Atom

abbrev pub is_exclusion_of : String → String → Atom → Bool
is_exclusion_of v x (exclusion w y) = w == v && y == x
is_exclusion_of v x _ = false

abbrev pub is_other_assignment : String → String → Atom → Bool
is_other_assignment v x (assignment w y) = w == v && not (y == x)
is_other_assignment v x _ = false

-- `len(values) == 1`
abbrev pub is_single : List String → Bool
is_single xs = eqb (length xs) 1

module _ (s : PuzzleState) where
  -- `_assignment`
  unfoldable pub assignment_premise : String → Result Atom
  assignment_premise v = do
    xs ← subscript v s.candidate_domains
    x ← first_value xs
    ok (assignment v x)

  -- `_absence_premise`
  unfoldable pub absence_premise : String → String → Option Atom
  absence_premise v x = elim (find (is_exclusion_of v x) s.asserted_atoms) [
    | some a ↦ some a
    | none ↦ find (is_other_assignment v x) s.asserted_atoms
  ]

  -- `disclosed`, or none if a premise is missing
  unfoldable pub disclosed : String → List String → Option (List Atom)
  unfolding absence_premise
  disclosed v [] = some []
  disclosed v (x ∷ xs) = elim (absence_premise v x) [
    | none ↦ none
    | some a ↦ elim (disclosed v xs) [ none ↦ none | some rest ↦ some (a ∷ rest) ]
  ]

  -- the loop over the values that only one of two equal variables has
  unfoldable pub absent_values : String → String → List String → List RuleConclusion
  unfolding absence_premise
  absent_values v other [] = []
  absent_values v other (x ∷ xs) = elim (absence_premise other x) [
    | none ↦ absent_values v other xs
    | some a ↦ (exclusion v x, a ∷ []) ∷ absent_values v other xs
  ]

  -- the premises of the only common value, or none where the loop goes on
  unfoldable pub common_premises : String → List String → Result (Option (List Atom))
  unfolding assignment_premise disclosed
  common_premises other missing = do
    xs ← subscript other s.candidate_domains
    if is_single xs
        then (do a ← assignment_premise other; ok (some (a ∷ [])))
        else ok (disclosed other (sort_texts missing))

  -- one turn of the loop for `Equal`: the variable, its values and the other variable
  unfoldable pub equal_side :
      List String → String → List String → String → Result (List RuleConclusion)
  unfolding common_premises absent_values
  equal_side common v values other =
      if ltb 1 (length values) && is_single common
      then (do
        premises ← common_premises other (difference values common)
        x ← first_value common
        ok (elim premises [ none ↦ [] | some ps ↦ (assignment v x, ps) ∷ [] ]))
      else if ltb 1 (length common)
      then ok (absent_values v other (sort_texts (difference values common)))
      else ok []

  -- one turn of the loop for `NotEqual`
  unfoldable pub differ_side : String → String → Result (List RuleConclusion)
  unfolding assignment_premise
  differ_side fixed_id target_id = do
    fixed ← subscript fixed_id s.candidate_domains
    target ← subscript target_id s.candidate_domains
    if is_single fixed
        then (do
          x ← first_value fixed
          premise ← assignment_premise fixed_id
          let applies = contains target x && ltb 1 (length target)
          ok (if applies then (exclusion target_id x, premise ∷ []) ∷ [] else []))
        else ok []

  -- the conclusions of an association
  unfoldable pub association_conclusions : BooleanExpression → Result (List RuleConclusion)
  unfolding equal_side differ_side
  association_conclusions (compared equal (variable_reference v) (variable_reference w)) = do
    left ← subscript v s.candidate_domains
    right ← subscript w s.candidate_domains
    let common = intersection left right
    first ← equal_side common v left w
    second ← equal_side common w right v
    ok (first ++ second)
  association_conclusions (compared not_equal (variable_reference v) (variable_reference w)) = do
    left ← subscript v s.candidate_domains
    right ← subscript w s.candidate_domains
    first ← differ_side v w
    second ← differ_side w v
    ok (first ++ second)
  association_conclusions _ = ok []

module _ (P : Platform) (reference : RuleReference) (s : PuzzleState) where
  abbrev pub information_gain_of : Atom → Result ℕ
  information_gain_of (assignment v x) = do xs ← subscript v s.candidate_domains; ok (length xs - 1)
  information_gain_of _ = ok 1

  -- `conclusion.variable_id`
  abbrev pub variable_of_mark : Atom → List String
  variable_of_mark (assignment v x) = v ∷ []
  variable_of_mark (exclusion v x) = v ∷ []
  variable_of_mark _ = []

  -- `_candidate`
  unfoldable pub candidate_for : String → RuleConclusion → Result RuleApplicationCandidate
  unfolding validate_candidate dump_atom dump_reference
  candidate_for constraint_id (conclusion, premises) =
      let identity = canonical_sha256 P (
        object_of (
          ("conclusion", dump_atom conclusion)
          ∷ ("rule", dump_reference reference)
          ∷ ("source_state_hash", text s.state_hash)
          ∷ ("supporting_constraint", text constraint_id)
          ∷ [])) in
      do
        gain ← information_gain_of conclusion
        let candidate : RuleApplicationCandidate = record {
          candidate_id = "deductra:candidate:" <> identity;
          rule = reference;
          source_state_hash = s.state_hash;
          premises =
              sort_by
                (λ a b. text_le (canonical_json P (dump_atom a)) (canonical_json P (dump_atom b)))
                premises;
          affected_variables = variable_of_mark conclusion;
          supporting_constraints = constraint_id ∷ [];
          information_gain = gain;
          pedagogical_cost = reference.technique_rank;
          tie_break_key = canonical_json P (dump_atom conclusion);
        }
        validate_candidate P candidate
        ok candidate

  -- the loop over the conclusions of a constraint
  unfoldable pub candidates_for :
      String → List RuleConclusion → Result (List RuleApplicationCandidate)
  unfolding candidate_for
  candidates_for constraint_id [] = ok []
  candidates_for constraint_id (c ∷ cs) = do
    candidate ← candidate_for constraint_id c
    rest ← candidates_for constraint_id cs
    ok (candidate ∷ rest)

  abbrev pub is_association : LogicGridTechnique → Bool
  is_association association = true
  is_association _ = false

  -- the loop of `AssociationRule.find_applications`
  unfoldable pub find_associations :
      List (Constraint × BooleanExpression) → Result (List RuleApplicationCandidate)
  unfolding candidates_for association_conclusions technique_for
  find_associations [] = ok []
  find_associations ((c, e) ∷ cs) =
      let others = find_associations cs in
      let active = contains s.active_constraint_ids c.constraint_id in
      if active && is_association (technique_for e)
      then (do
        conclusions ← association_conclusions s e
        found ← candidates_for c.constraint_id conclusions
        rest ← others
        ok (found ++ rest))
      else others

-- `AssociationRule.find_applications`
unfoldable pub find_association_applications :
    Platform → LogicGridSpec → PuzzleState → Result (List RuleApplicationCandidate)
unfolding find_associations technique_reference
find_association_applications P p s =
    find_associations P (technique_reference association "Direct association") s
      (arithmetic_of p.base.constraints)
