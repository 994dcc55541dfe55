-- ===== src/Reasoning/Branches/Reduction.antt =====
-- src/deductra/reasoning/branches.py: `reduce_branch_projection`, split by the payload.
use deductra.Common.{
  ℕ, String, Bool, true, false, not, ◌&&◌, Option, none, some, List, [], ◌∷◌, ◌++◌, leb,
  if◌then◌else◌, ◌==◌, string_eq, pair_eq, nat_eq, bool_eq, contains, state_conflict,
  search_disclosure, Result, err, ok, raise_if, ◌>>=◌, ◌>>◌,
}
use deductra.Canonical.{Platform}
use deductra.Domain.Atoms.{atom_eq}
use deductra.Reasoning.Events.{
  Origin, BranchOpened, contradicted, BranchClosed, Payload, candidates_eliminated, value_assigned,
  branch_opened, contradiction_detected, branch_closed, EventEnvelope,
}
use deductra.Reasoning.Integrity.{verify_event}
use deductra.Reasoning.State.{PuzzleState}
use deductra.Reasoning.Reducer.{
  Mutation, eliminated, assigned, contradiction, reduce_state, derive_branch_state,
}
use deductra.Reasoning.Branches.{
  Status, opened, ended, by, BranchRecord, BranchProjection, is_search, search_origin, is_open,
  is_contradicted, is_solved, ended_contradicted, record_ids, state_for, record_for, make_record,
  make_projection,
}

-- `_replace_state`: the records and the states
unfoldable pub replace_records : PuzzleState → Option Status → List BranchRecord → List BranchRecord
replace_records s status [] = []
replace_records s status (r ∷ rs) =
    (if r.branch_id == s.branch_id
      then record r {
        latest_state_hash = s.state_hash;
        status = elim status [ some x ↦ x | none ↦ r.status ];
      }
      else r)
    ∷ replace_records s status rs

unfoldable pub replace_states : PuzzleState → List PuzzleState → List PuzzleState
replace_states s [] = []
replace_states s (c ∷ cs) = (if c.branch_id == s.branch_id then s else c) ∷ replace_states s cs

-- `_validate_origin`
abbrev pub validate_origin : BranchRecord → Origin → Result (Unit {0})
validate_origin r origin = do
  raise_if (is_search r.method && not (search_origin origin))
      (search_disclosure "search-branch mutations must be disclosed as search")
  raise_if (not (is_search r.method) && search_origin origin)
      (search_disclosure "search mutations require an explicit search branch")

-- `_validate_origin`, which is not called for a contradiction
abbrev pub check_origin : BranchRecord → Mutation → Result (Unit {0})
check_origin r (eliminated p) = validate_origin r p.origin
check_origin r (assigned p) = validate_origin r p.origin
check_origin r (contradiction p) = ok tt

abbrev pub mutation_status : Mutation → Option Status
mutation_status (contradiction p) = some (ended contradicted)
mutation_status _ = none

-- The records after the closing of one branch.
unfoldable pub close_records : String → Status → ℕ → List BranchRecord → List BranchRecord
close_records b status sequence_no [] = []
close_records b status sequence_no (r ∷ rs) =
    (if r.branch_id == b
      then record r { status = status; closed_sequence_no = some sequence_no }
      else r)
    ∷ close_records b status sequence_no rs

module _ (P : Platform) where
  unfoldable pub open_branch :
      BranchProjection → EventEnvelope → BranchOpened → Result BranchProjection
  open_branch p event payload = do
    raise_if (contains (record_ids p.branches) event.branch_id)
        (state_conflict "branch identifier already exists")
    raise_if (not (payload.parent_branch_id == p.active_branch_id))
        (state_conflict "new branches must open from the active branch")
    active ← record_for p p.active_branch_id
    raise_if (not (is_open active.status))
        (state_conflict "new branches require an open parent branch")
    parent ← state_for p p.active_branch_id
    child ← derive_branch_state P parent event payload
    added ← make_record (record {
      branch_id = event.branch_id;
      parent_branch_id = some parent.branch_id;
      opened_from_state_hash = parent.state_hash;
      assumption = some payload.assumption;
      method = by payload.method;
      status = opened;
      opened_sequence_no = event.sequence_no;
      closed_sequence_no = none;
      latest_state_hash = child.state_hash;
    })
    make_projection (record {
      sequence_no = event.sequence_no;
      active_branch_id = event.branch_id;
      branches = p.branches ++ added ∷ [];
      states = p.states ++ child ∷ [];
    })

  unfoldable pub close_branch :
      BranchProjection → EventEnvelope → BranchClosed → Result BranchProjection
  close_branch p event payload = do
    raise_if (not (event.branch_id == p.active_branch_id))
        (state_conflict "only the active branch can be closed")
    r ← record_for p event.branch_id
    state ← state_for p event.branch_id
    elim r.parent_branch_id [
      | none ↦ err (state_conflict "the root branch cannot be closed")
      | some parent ↦ do
        raise_if (not (payload.source_state_hash == state.state_hash))
            (state_conflict "branch close source hash does not match retained state")
        raise_if (is_contradicted payload.status && not (ended_contradicted r.status))
            (state_conflict "contradicted closure requires a contradiction event")
        raise_if (is_solved payload.status && not state.solved)
            (state_conflict "solved closure requires a solved branch state")
        make_projection (record {
          sequence_no = event.sequence_no;
          active_branch_id = parent;
          branches = close_records r.branch_id (ended payload.status) event.sequence_no p.branches;
          states = p.states;
        })
    ]

  unfoldable pub mutate_branch :
      BranchProjection → EventEnvelope → Mutation → Result BranchProjection
  mutate_branch p event m = do
    raise_if (not (event.branch_id == p.active_branch_id))
        (state_conflict "state mutations must target the active branch")
    r ← record_for p event.branch_id
    raise_if (not (is_open r.status))
        (state_conflict "closed or contradicted branches cannot accept mutations")
    check_origin r m
    current ← state_for p event.branch_id
    state ← reduce_state P current event
    make_projection (record {
      sequence_no = event.sequence_no;
      active_branch_id = p.active_branch_id;
      branches = replace_records state (mutation_status m) p.branches;
      states = replace_states state p.states;
    })

  -- The dispatch on the payload; the other payloads only advance the sequence.
  unfoldable pub dispatch : BranchProjection → EventEnvelope → Payload → Result BranchProjection
  dispatch p event (branch_opened payload) = open_branch p event payload
  dispatch p event (branch_closed payload) = close_branch p event payload
  dispatch p event (candidates_eliminated payload) = mutate_branch p event (eliminated payload)
  dispatch p event (value_assigned payload) = mutate_branch p event (assigned payload)
  dispatch p event (contradiction_detected payload) = mutate_branch p event (contradiction payload)
  dispatch p event _ = ok (record p { sequence_no = event.sequence_no })

  abbrev pub opens : Payload → Bool
  opens (branch_opened payload) = true
  opens _ = false

  unfoldable pub reduce_branch_projection :
      BranchProjection → EventEnvelope → Result BranchProjection
  reduce_branch_projection p event = do
    raise_if (not (verify_event P event)) (state_conflict "event integrity verification failed")
    raise_if (leb event.sequence_no p.sequence_no)
        (state_conflict "event sequence must advance the projection")
    active ← state_for p p.active_branch_id
    raise_if (not (event.puzzle_revision_id == active.puzzle_revision_id))
        (state_conflict "event puzzle revision does not match the projection")
    raise_if (not (opens event.payload) && not (contains (record_ids p.branches) event.branch_id))
        (state_conflict "event references an unknown retained branch")
    dispatch p event event.payload
