-- ===== src/Reasoning/State/Validation.antt =====
-- src/deductra/reasoning/state.py: `validate_state`, the checks of a state against its puzzle.
use mathlib.Core.Option
use deductra.Common.{
  String, ◌<>◌, Bool, true, false, not, none, some, List, [], ◌∷◌, ◌++◌, map, ◌==◌, string_eq,
  pair_eq, nat_eq, bool_eq, contains, to_set, from_keys, subset, same_set, unique, key_error,
  Result, err, ok, ◌>>=◌,
}
use deductra.Common.Dict.{Dict, keys, lookup, insert, dict_of}
use deductra.Domain.Atoms.{Atom, assignment, exclusion, atom_eq}
use deductra.Domain.Constraints.{Constraint, ConstraintKind, all_different}
use deductra.Domain.Values.{Domain, Variable, value_ids}
use deductra.Domain.Puzzle.{PuzzleSpec, constraint_ids}
use deductra.Reasoning.State.{PuzzleState}

-- `domains[variable.domain_id].values`
domain_lookup : Dict Domain → Variable → Result (String × List String)
domain_lookup domains v = elim (lookup v.domain_id domains) [
  | some d ↦ ok (v.variable_id, to_set (value_ids d))
  | none ↦ err key_error
]

pub domain_items : Dict Domain → List Variable → Result (Dict (List String))
domain_items domains [] = ok []
domain_items domains (v ∷ vs) = do
  item ← domain_lookup domains v
  items ← domain_items domains vs
  ok (item ∷ items)

-- The values of each variable's domain.
unfoldable pub variable_domains : PuzzleSpec → Result (Dict (List String))
unfolding dict_of domain_lookup domain_items
variable_domains p = do
  items ← domain_items (dict_of [] (map (λ d. (d.domain_id, d)) p.domains)) p.variables
  ok (dict_of [] items)

abbrev pub lookup_or_empty : String → Dict (List String) → List String
lookup_or_empty v d = Option.get_or (lookup v d) []

-- `bad` if the test holds
abbrev pub report : Bool → String → List String
report true bad = bad ∷ []
report false bad = []

-- the loop over the candidate domains
pub outside_domain : Dict (List String) → Dict (List String) → List String
outside_domain domains [] = []
outside_domain domains ((v, xs) ∷ rest) =
    report (elim (lookup v domains) [ some allowed ↦ not (subset xs allowed) | none ↦ false ])
      ("candidate_outside_domain:" <> v)
    ++ outside_domain domains rest

-- `v not in domains or x not in domains[v]`
abbrev pub not_in_domain : Dict (List String) → String → String → Bool
not_in_domain domains v x = elim (lookup v domains) [
  | some allowed ↦ not (contains allowed x)
  | none ↦ true
]

-- `state.candidate_domains.get(v) != frozenset({x})`
abbrev pub not_only : Dict (List String) → String → String → Bool
not_only candidates v x = elim (lookup v candidates) [
  | some xs ↦ not (same_set xs (x ∷ []))
  | none ↦ true
]

-- `assignments.setdefault(v, x)` on the dict
abbrev pub set_default : String → String → Dict String → Dict String
set_default v x d = elim (lookup v d) [ some y ↦ d | none ↦ insert v x d ]

module _ (domains candidates : Dict (List String)) where
  -- The violations that one asserted atom shows, given the assignments before it.
  unfoldable pub atom_violations : Dict String → Atom → List String
  atom_violations assignments (assignment v x) =
      report (not_in_domain domains v x) ("assignment_outside_domain:" <> v)
      ++ (report (not (Option.get_or (lookup v assignments) x == x))
            ("conflicting_assignment:" <> v)
          ++ report (not_only candidates v x) ("assignment_candidate_mismatch:" <> v))
  atom_violations assignments (exclusion v x) =
      report (contains (lookup_or_empty v candidates) x) ("excluded_candidate_present:" <> v)
  atom_violations assignments _ = []

  pub note_assignment : Dict String → Atom → Dict String
  note_assignment assignments (assignment v x) = set_default v x assignments
  note_assignment assignments _ = assignments

  -- the loop over the asserted atoms: its violations
  unfoldable pub asserted_violations : Dict String → List Atom → List String
  asserted_violations assignments [] = []
  asserted_violations assignments (a ∷ atoms) =
      atom_violations assignments a ++ asserted_violations (note_assignment assignments a) atoms

  -- the dict `assignments` after that loop
  pub assignments_of : Dict String → List Atom → Dict String
  assignments_of assignments [] = assignments
  assignments_of assignments (a ∷ atoms) = assignments_of (note_assignment assignments a) atoms

-- `[assignments[item] for item in variable_ids if item in assignments]`
pub assigned : Dict String → List String → List String
assigned assignments [] = []
assigned assignments (v ∷ vs) = elim (lookup v assignments) [
  | some x ↦ x ∷ assigned assignments vs
  | none ↦ assigned assignments vs
]

abbrev pub constraint_violation : Dict String → String → ConstraintKind → List String
constraint_violation assignments c (all_different vs) =
    report (not (unique (assigned assignments vs))) ("all_different_violation:" <> c)
constraint_violation assignments c _ = []

pub constraint_violations : Dict String → List Constraint → List String
constraint_violations assignments [] = []
constraint_violations assignments (c ∷ cs) =
    constraint_violation assignments c.constraint_id c.kind ++ constraint_violations assignments cs

-- The violations, in the code's order, or `KeyError` if a variable's domain is not there.
unfoldable pub validate_state : PuzzleState → PuzzleSpec → Result (List String)
unfolding outside_domain atom_violations note_assignment asserted_violations assignments_of assigned
    constraint_violations
validate_state s p = do
  let candidates = s.candidate_domains
  domains ← variable_domains p
  let assignments = assignments_of domains candidates [] s.asserted_atoms
  ok (
      from_keys (
        report (not (s.puzzle_revision_id == p.identity.revision_id)) "puzzle_revision_mismatch"
        ++ (report (not (same_set (keys candidates) (keys domains))) "candidate_variable_mismatch"
            ++ (outside_domain domains candidates
                ++ (asserted_violations domains candidates [] s.asserted_atoms
                    ++ (report (not (subset s.active_constraint_ids (constraint_ids p)))
                          "unknown_active_constraint"
                        ++ constraint_violations assignments p.constraints))))))
