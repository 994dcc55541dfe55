-- ===== src/Reasoning/Reducer.antt =====
-- src/deductra/reasoning/reducer.py: `reduce_state` and `derive_branch_state`.
-- `replay_projection` stands in Branches/Replay.
mod Effects
pub mod Soundness
pub mod Assumption
use deductra.Common.{
  String, ◌<>◌, not, Option, none, some, List, [], ◌∷◌, ◌++◌, map, leb, if◌then◌else◌, ◌==◌,
  string_eq, pair_eq, nat_eq, bool_eq, keep, contains, add, update, difference, subset,
  state_conflict, unsupported_state_event, Result, err, ok, raise_if, ◌>>=◌, ◌>>◌,
}
use deductra.Common.Dict.{Dict, lookup, insert}
use deductra.Canonical.{Platform}
use deductra.Domain.Atoms.{Atom, assignment, exclusion, atom_eq}
use deductra.Reasoning.Events.{
  CandidatesEliminated, ValueAssigned, BranchOpened, ContradictionDetected, Payload,
  candidates_eliminated, value_assigned, contradiction_detected, EventEnvelope,
}
use deductra.Reasoning.Integrity.{verify_event}
use deductra.Reasoning.State.{PuzzleState, is_empty, StateFields, build_state}
use deductra.Reasoning.State.Initial.{available, assert_singletons}

-- The payloads of `StateMutation`.
pub data Mutation : Type 0 where
  eliminated : CandidatesEliminated → Mutation
  assigned : ValueAssigned → Mutation
  contradiction : ContradictionDetected → Mutation

-- `isinstance(event.payload, (CandidatesEliminated, ValueAssigned, ContradictionDetected))`
abbrev pub as_mutation : Payload → Option Mutation
as_mutation (candidates_eliminated p) = some (eliminated p)
as_mutation (value_assigned p) = some (assigned p)
as_mutation (contradiction_detected p) = some (contradiction p)
as_mutation _ = none

abbrev pub mutation_source : Mutation → String
mutation_source (eliminated p) = p.source_state_hash
mutation_source (assigned p) = p.source_state_hash
mutation_source (contradiction p) = p.source_state_hash

supported : String → Option Mutation → Result Mutation
supported event_type (some m) = ok m
supported event_type none =
    err (unsupported_state_event (event_type <> " does not reduce PuzzleState"))

module _ (P : Platform) where
  -- `_validate_reduction`
  unfoldable pub validate_reduction : PuzzleState → EventEnvelope → Result Mutation
  unfolding supported
  validate_reduction previous event = do
    raise_if (not (verify_event P event)) (state_conflict "event integrity verification failed")
    raise_if (not (event.puzzle_revision_id == previous.puzzle_revision_id))
        (state_conflict "event puzzle revision does not match the state")
    raise_if (not (event.branch_id == previous.branch_id))
        (state_conflict "event branch does not match the state")
    raise_if (leb event.sequence_no previous.sequence_no)
        (state_conflict "event sequence must be newer than the branch state")
    m ← supported event.event_type (as_mutation event.payload)
    raise_if (not (mutation_source m == previous.state_hash))
        (state_conflict "event source_state_hash does not match the state")
    ok m

-- What the branches of `reduce_state` and of `derive_branch_state` leave in the local variables.
pub record Reduced : Type 0 where
  pub candidates : Dict (List String)
  pub asserted : List Atom
  pub contradictions : List String
  pub result_state_id : String

eliminate : PuzzleState → CandidatesEliminated → List String → Result Reduced
eliminate s p current = do
  raise_if (not (subset p.value_ids current))
      (state_conflict "candidate elimination references unavailable values")
  let remaining = difference current p.value_ids
  raise_if (is_empty remaining)
      (state_conflict "candidate elimination cannot empty a non-contradictory domain")
  ok (record {
    candidates = insert p.variable_id remaining s.candidate_domains;
    asserted = update s.asserted_atoms (map (exclusion p.variable_id) p.value_ids);
    contradictions = s.contradiction_ids;
    result_state_id = p.result_state_id;
  })

assign : PuzzleState → ValueAssigned → List String → Result Reduced
assign s p current = do
  raise_if (not (contains current p.value_id))
      (state_conflict "assignment is outside the current candidate domain")
  ok (record {
    candidates = insert p.variable_id (p.value_id ∷ []) s.candidate_domains;
    asserted =
        update (add (assignment p.variable_id p.value_id) s.asserted_atoms)
          (map (exclusion p.variable_id) (keep (λ x. not (x == p.value_id)) current));
    contradictions = s.contradiction_ids;
    result_state_id = p.result_state_id;
  })

unfoldable pub apply_mutation : PuzzleState → Mutation → Result Reduced
unfolding eliminate assign
apply_mutation s (eliminated p) = elim (lookup p.variable_id s.candidate_domains) [
  | some current ↦ eliminate s p current
  | none ↦ err (state_conflict "candidate elimination references an unknown variable")
]
apply_mutation s (assigned p) = elim (lookup p.variable_id s.candidate_domains) [
  | some current ↦ assign s p current
  | none ↦ err (state_conflict "assignment is outside the current candidate domain")
]
apply_mutation s (contradiction p) = do
  raise_if (contains s.contradiction_ids p.contradiction_id)
      (state_conflict "contradiction identifier already exists")
  ok (record {
    candidates = s.candidate_domains;
    asserted = s.asserted_atoms;
    contradictions = s.contradiction_ids ++ p.contradiction_id ∷ [];
    result_state_id = p.result_state_id;
  })

-- The arguments of the call of `build_state` at the end of both reducers.
unfoldable pub reduced_fields : PuzzleState → EventEnvelope → String → Reduced → StateFields
reduced_fields previous event branch_id r = record {
  state_id = r.result_state_id;
  puzzle_revision_id = previous.puzzle_revision_id;
  sequence_no = event.sequence_no;
  branch_id = branch_id;
  candidate_domains = r.candidates;
  asserted_atoms = assert_singletons r.asserted r.candidates;
  rejected_atoms = previous.rejected_atoms;
  active_constraint_ids = previous.active_constraint_ids;
  contradiction_ids = r.contradictions;
}

-- The candidates of a child branch under its assumption.
unfoldable pub assume : Dict (List String) → Atom → Result (Dict (List String))
assume candidates (assignment v x) =
    if available candidates v x
    then ok (insert v (x ∷ []) candidates)
    else err (state_conflict "branch assignment is outside the current candidate domain")
assume candidates (exclusion v x) = elim (lookup v candidates) [
  | none ↦ err (state_conflict "branch exclusion is outside the current candidate domain")
  | some current ↦ do
    raise_if (not (contains current x))
        (state_conflict "branch exclusion is outside the current candidate domain")
    let remaining = difference current (x ∷ [])
    raise_if (is_empty remaining)
        (state_conflict "branch assumption cannot empty a candidate domain")
    ok (insert v remaining candidates)
]
assume candidates _ = ok candidates

module _ (P : Platform) where
  unfoldable pub reduce_state : PuzzleState → EventEnvelope → Result PuzzleState
  reduce_state previous event = do
    m ← validate_reduction P previous event
    r ← apply_mutation previous m
    build_state P (reduced_fields previous event previous.branch_id r)

  unfoldable pub derive_branch_state :
      PuzzleState → EventEnvelope → BranchOpened → Result PuzzleState
  derive_branch_state parent event p = do
    raise_if (not (p.opened_from_state_hash == parent.state_hash))
        (state_conflict "branch source hash does not match its parent state")
    candidates ← assume parent.candidate_domains p.assumption
    build_state P (
        reduced_fields parent event event.branch_id (record {
          candidates = candidates;
          asserted = add p.assumption parent.asserted_atoms;
          contradictions = [];
          result_state_id = p.result_state_id;
        }))
