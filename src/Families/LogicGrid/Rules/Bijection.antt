-- ===== src/Families/LogicGrid/Rules/Bijection.antt =====
-- src/deductra/families/logic_grid/rules.py: `CategoryBijectionRule`.
use deductra.Common.{
  ◌-◌, String, not, ◌&&◌, none, some, List, [], ◌∷◌, ◌++◌, eqb, if◌then◌else◌, ◌==◌, string_eq,
  pair_eq, nat_eq, bool_eq, length, contains, update, sort_texts, Result, ok, ◌>>=◌,
}
use deductra.Common.Dict.{values, subscript}
use deductra.Canonical.{Platform}
use deductra.Domain.Atoms.{Atom, assignment, exclusion, atom_eq}
use deductra.Domain.Constraints.{Constraint}
use deductra.Reasoning.State.{PuzzleState}
use deductra.Reasoning.Rules.{RuleReference, reference_eq, RuleApplicationCandidate, candidate_eq}
use deductra.Families.LogicGrid.Specification.{LogicGridSpec}
use deductra.Families.LogicGrid.Specification.Clues.{all_different_of}
use deductra.Families.LogicGrid.Rules.{
  category_bijection, technique_reference, first_value, RuleConclusion, is_single, absence_premise,
  candidates_for,
}

module _ (s : PuzzleState) where
  -- the other items that have the row of a fixed one
  unfoldable pub occupied_by : String → String → List String → Result (List RuleConclusion)
  occupied_by fixed_id x [] = ok []
  occupied_by fixed_id x (target_id ∷ ids) = do
    target ← (if target_id == fixed_id then ok [] else subscript target_id s.candidate_domains)
    rest ← occupied_by fixed_id x ids
    ok (
        if contains target x
        then (exclusion target_id x, assignment fixed_id x ∷ []) ∷ rest
        else rest)

  -- the loop over `fixed_id`, of the items of the second list
  unfoldable pub occupied_rows : List String → List String → Result (List RuleConclusion)
  unfolding occupied_by
  occupied_rows ids [] = ok []
  occupied_rows ids (fixed_id ∷ fixed_ids) = do
    fixed ← subscript fixed_id s.candidate_domains
    found ←
        (if is_single fixed then (do x ← first_value fixed; occupied_by fixed_id x ids) else ok [])
    rest ← occupied_rows ids fixed_ids
    ok (found ++ rest)

  -- `all_values`
  unfoldable pub all_values : List String → Result (List String)
  all_values [] = ok []
  all_values (v ∷ ids) = do
    xs ← subscript v s.candidate_domains
    rest ← all_values ids
    ok (update rest xs)

  -- `supporting`
  unfoldable pub supporting : String → List String → Result (List String)
  supporting x [] = ok []
  supporting x (v ∷ ids) = do
    xs ← subscript v s.candidate_domains
    rest ← supporting x ids
    ok (if contains xs x then v ∷ rest else rest)

  -- the premises of the items other than the target that are disclosed
  unfoldable pub absences : String → String → List String → List Atom
  unfolding absence_premise
  absences target_id x [] = []
  absences target_id x (v ∷ ids) =
      let rest = absences target_id x ids in
      if v == target_id
      then rest
      else elim (absence_premise s v x) [ none ↦ rest | some a ↦ a ∷ rest ]

  -- the only place that is left for a value
  unfoldable pub only_place : List String → String → List String → Result (List RuleConclusion)
  unfolding absences
  only_place ids x (target_id ∷ []) = do
    target ← subscript target_id s.candidate_domains
    let premises = absences target_id x ids
    let complete = eqb (length premises) (length ids - 1)
    ok (if not (is_single target) && complete then (assignment target_id x, premises) ∷ [] else [])
  only_place ids x _ = ok []

  -- the loop over the values
  unfoldable pub only_places : List String → List String → Result (List RuleConclusion)
  unfolding supporting only_place
  only_places ids [] = ok []
  only_places ids (x ∷ xs) = do
    places ← supporting x ids
    found ← only_place ids x places
    rest ← only_places ids xs
    ok (found ++ rest)

  -- the conclusions of an all-different constraint
  unfoldable pub bijection_conclusions : List String → Result (List RuleConclusion)
  unfolding occupied_rows all_values only_places
  bijection_conclusions ids = do
    occupied ← occupied_rows ids ids
    values ← all_values ids
    places ← only_places ids (sort_texts values)
    ok (occupied ++ places)

-- the loop of `CategoryBijectionRule.find_applications`
unfoldable pub find_bijections :
    Platform
    → RuleReference
    → PuzzleState
    → List (Constraint × List String)
    → Result (List RuleApplicationCandidate)
unfolding bijection_conclusions candidates_for
find_bijections P reference s [] = ok []
find_bijections P reference s ((c, ids) ∷ cs) =
    let others = find_bijections P reference s cs in
    if contains s.active_constraint_ids c.constraint_id
    then (do
      conclusions ← bijection_conclusions s ids
      found ← candidates_for P reference s c.constraint_id conclusions
      rest ← others
      ok (found ++ rest))
    else others

-- `CategoryBijectionRule.find_applications`
unfoldable pub find_bijection_applications :
    Platform → LogicGridSpec → PuzzleState → Result (List RuleApplicationCandidate)
unfolding find_bijections technique_reference
find_bijection_applications P p s =
    find_bijections P (technique_reference category_bijection "Category bijection") s
      (all_different_of p.base.constraints)
