-- ===== src/Reasoning/Engine/Proposal.antt =====
-- src/deductra/reasoning/engine.py: `_validate_proposal`, and the payload of the event for a
-- conclusion.
use deductra.Common.{
  String, not, ◌||◌, Option, none, some, List, [], ◌∷◌, eqb, Eq, ◌==◌, string_eq, pair_eq, nat_eq,
  bool_eq, list_dec, length, contains, subset, rule_contract, Result, err, ok, raise_if, ◌>>◌,
}
use deductra.Common.Dict.{lookup}
use deductra.Canonical.{object, end}
use deductra.Domain.Atoms.{Atom, assignment, exclusion, atom_eq}
use deductra.Domain.Puzzle.{PuzzleSpec, variable_ids}
use deductra.Reasoning.Events.{
  human_rule, CandidatesEliminated, Payload, candidates_eliminated, value_assigned,
  validate_candidates,
}
use deductra.Reasoning.State.{PuzzleState}
use deductra.Reasoning.Rules.{
  reference_eq, RuleApplicationCandidate, candidate_eq, ProposedDeduction,
}

instance abbrev pub atoms_eq : Eq (List Atom)
atoms_eq = record { dec = list_dec }

instance abbrev pub texts_eq : Eq (List String)
texts_eq = record { dec = list_dec }

-- `AssignmentAtom | ExclusionAtom`
pub data Conclusion : Type 0 where
  assigning : String → String → Conclusion
  excluding : String → String → Conclusion

-- The head of the conclusions, where it is an assignment or an exclusion.
abbrev pub as_conclusion : List Atom → Option Conclusion
as_conclusion (assignment v x ∷ atoms) = some (assigning v x)
as_conclusion (exclusion v x ∷ atoms) = some (excluding v x)
as_conclusion _ = none

abbrev pub variable_of : Conclusion → String
variable_of (assigning v x) = v
variable_of (excluding v x) = v

abbrev pub value_of : Conclusion → String
value_of (assigning v x) = x
value_of (excluding v x) = x

-- The tests of a conclusion against the candidates of its variable.
check_available : Conclusion → Option (List String) → Result (Unit {0})
check_available c none = err (rule_contract "conclusion references an unavailable candidate")
check_available c (some xs) = do
  raise_if (not (contains xs (value_of c)))
      (rule_contract "conclusion references an unavailable candidate")
  raise_if (eqb (length xs) 1) (
      rule_contract (elim c [
        | assigning v x ↦ "assignment proposal is already present in the source state"
        | excluding v x ↦ "elimination proposal would empty the candidate domain"
      ]))

check_conclusion : PuzzleState → ProposedDeduction → Option Conclusion → Result Conclusion
unfolding check_available
check_conclusion state proposal none =
    err (rule_contract "CR-005 supports assignment and elimination conclusions only")
check_conclusion state proposal (some c) = do
  raise_if (not (contains proposal.affected_variables (variable_of c)))
      (rule_contract "conclusion variable is absent from affected variables")
  check_available c (lookup (variable_of c) state.candidate_domains)
  ok c

-- `_validate_proposal`
unfoldable pub validate_proposal :
    PuzzleSpec → PuzzleState → RuleApplicationCandidate → ProposedDeduction → Result Conclusion
unfolding check_conclusion
validate_proposal puzzle state candidate proposal = do
  raise_if
      (not (proposal.candidate_id == candidate.candidate_id)
        || not (proposal.rule == candidate.rule))
      (rule_contract "proposal identity does not match the selected candidate")
  raise_if (not (proposal.source_state_hash == state.state_hash))
      (rule_contract "proposal source state is stale")
  raise_if (not (proposal.premises == candidate.premises))
      (rule_contract "proposal premises differ from discovery")
  raise_if (not (proposal.affected_variables == candidate.affected_variables))
      (rule_contract "proposal affected variables differ from discovery")
  raise_if (not (proposal.supporting_constraints == candidate.supporting_constraints))
      (rule_contract "proposal supporting constraints differ from discovery")
  raise_if (not (eqb (length proposal.conclusions) 1))
      (rule_contract "CR-005 human rules require exactly one conclusion")
  raise_if (not (subset proposal.premises state.asserted_atoms))
      (rule_contract "proposal cites a premise absent from the source state")
  raise_if (not (subset proposal.supporting_constraints state.active_constraint_ids))
      (rule_contract "proposal cites an inactive constraint")
  raise_if (not (subset proposal.affected_variables (variable_ids puzzle)))
      (rule_contract "proposal affects an unknown variable")
  check_conclusion state proposal (as_conclusion proposal.conclusions)

-- The payload of the event for a conclusion.
unfoldable pub payload_of : PuzzleState → String → Conclusion → Result Payload
payload_of state result_state_id (assigning v x) = ok (
    value_assigned (record {
      variable_id = v;
      value_id = x;
      source_state_hash = state.state_hash;
      result_state_id = result_state_id;
      origin = human_rule;
      metadata = object end;
    }))
payload_of state result_state_id (excluding v x) = do
  let payload : CandidatesEliminated = record {
    variable_id = v;
    value_ids = x ∷ [];
    source_state_hash = state.state_hash;
    result_state_id = result_state_id;
    origin = human_rule;
    metadata = object end;
  }
  validate_candidates payload
  ok (candidates_eliminated payload)
