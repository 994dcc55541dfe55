-- ===== src/Reasoning/State/Initial.antt =====
-- src/deductra/reasoning/state.py: `create_initial_state`, the genesis state of a puzzle.
use deductra.Common.{
  ℕ, String, Bool, false, not, none, some, List, [], ◌∷◌, if◌then◌else◌, string_eq, pair_eq, nat_eq,
  bool_eq, contains, add, to_set, difference, intersection, value_error, Result, err, ok, raise_if,
  ◌>>=◌, ◌>>◌,
}
use deductra.Common.Dict.{Dict, lookup, insert}
use deductra.Canonical.{Platform}
use deductra.Domain.Atoms.{Atom, assignment, exclusion, atom_eq}
use deductra.Domain.Constraints.{Constraint, ConstraintKind, domain}
use deductra.Domain.Puzzle.{PuzzleSpec, constraint_ids}
use deductra.Reasoning.State.{PuzzleState, only, is_empty, build_state}
use deductra.Reasoning.State.Validation.{variable_domains, lookup_or_empty, validate_state}

-- one step of the loop over the constraints
unfoldable pub apply_constraint : Dict (List String) → ConstraintKind → Result (Dict (List String))
apply_constraint candidates (domain v allowed) = elim (lookup v candidates) [
  | some xs ↦ ok (insert v (intersection xs allowed) candidates)
  | none ↦ err (value_error "domain constraint references an unknown variable")
]
apply_constraint candidates _ = ok candidates

unfoldable pub apply_constraints :
    Dict (List String) → List Constraint → Result (Dict (List String))
apply_constraints candidates [] = ok candidates
apply_constraints candidates (c ∷ cs) = do
  next ← apply_constraint candidates c.kind
  apply_constraints next cs

-- `v in candidates and x in candidates[v]`
abbrev pub available : Dict (List String) → String → String → Bool
available candidates v x = elim (lookup v candidates) [ some xs ↦ contains xs x | none ↦ false ]

-- one step of the loop over the givens
unfoldable pub apply_given : Dict (List String) → Atom → Result (Dict (List String))
apply_given candidates (assignment v x) =
    if available candidates v x
    then ok (insert v (x ∷ []) candidates)
    else err (value_error "assignment given is outside the variable domain")
apply_given candidates (exclusion v x) =
    if available candidates v x
    then ok (insert v (difference (lookup_or_empty v candidates) (x ∷ [])) candidates)
    else err (value_error "exclusion given is outside the variable domain")
apply_given candidates _ = ok candidates

unfoldable pub apply_givens : Dict (List String) → List Atom → Result (Dict (List String))
apply_givens candidates [] = ok candidates
apply_givens candidates (a ∷ atoms) = do next ← apply_given candidates a; apply_givens next atoms

-- The loop that asserts an assignment for each singleton domain, here and in the reducers.
unfoldable pub assert_singletons : List Atom → Dict (List String) → List Atom
assert_singletons asserted [] = asserted
assert_singletons asserted ((v, xs) ∷ rest) =
    assert_singletons (elim (only xs) [ some x ↦ add (assignment v x) asserted | none ↦ asserted ])
      rest

module _ (P : Platform) where
  unfoldable pub create_initial_state : PuzzleSpec → String → String → ℕ → Result PuzzleState
  unfolding apply_constraint apply_constraints apply_given apply_givens
  create_initial_state p state_id branch_id sequence_no = do
    domains ← variable_domains p
    constrained ← apply_constraints domains p.constraints
    candidates ← apply_givens constrained p.givens
    state ← build_state P (record {
      state_id = state_id;
      puzzle_revision_id = p.identity.revision_id;
      sequence_no = sequence_no;
      branch_id = branch_id;
      candidate_domains = candidates;
      asserted_atoms = assert_singletons (to_set p.givens) candidates;
      rejected_atoms = [];
      active_constraint_ids = to_set (constraint_ids p);
      contradiction_ids = [];
    })
    violations ← validate_state state p
    raise_if (not (is_empty violations)) (value_error "initial state violates puzzle invariants")
    ok state
