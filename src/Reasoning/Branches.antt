-- ===== src/Reasoning/Branches.antt =====
-- src/deductra/reasoning/branches.py: the retained branches.
mod History
pub mod Reduction
pub mod Step
pub mod Acceptance
pub mod Retention
pub mod Replay
use deductra.Common.{
  ℕ, String, Bool, true, false, not, ◌&&◌, ◌||◌, Option, none, some, List, [], ◌∷◌, map,
  if◌then◌else◌, ◌==◌, string_eq, pair_eq, nat_eq, bool_eq, all, contains, same_set, unique,
  value_error, stop_iteration, Result, err, ok, raise_if, ◌>>=◌, ◌>>◌,
}
use deductra.Domain.Atoms.{Atom, atom_eq}
use deductra.Reasoning.Events.{Origin, Method, Ending, contradicted, solved, abandoned}
use deductra.Reasoning.State.{PuzzleState}

-- `Literal["open", "contradicted", "solved", "abandoned"]`
pub data Status : Type 0 where
  opened : Status
  ended : Ending → Status

-- `Literal["root", "assumption", "search", "demonstration"]`
pub data BranchMethod : Type 0 where
  root : BranchMethod
  by : Method → BranchMethod

pub record BranchRecord : Type 0 where
  pub branch_id : String
  pub parent_branch_id : Option String
  pub opened_from_state_hash : String
  pub assumption : Option Atom
  pub method : BranchMethod
  pub status : Status
  pub opened_sequence_no : ℕ
  pub closed_sequence_no : Option ℕ
  pub latest_state_hash : String

pub record BranchProjection : Type 0 where
  pub sequence_no : ℕ
  pub active_branch_id : String
  pub branches : List BranchRecord
  pub states : List PuzzleState

abbrev pub is_some {ℓ} : {A : Type ℓ} → Option A → Bool
is_some (some a) = true
is_some none = false

abbrev pub is_root : BranchMethod → Bool
is_root root = true
is_root _ = false

abbrev pub is_search : BranchMethod → Bool
is_search (by Method.search) = true
is_search _ = false

abbrev pub search_origin : Origin → Bool
search_origin Origin.search = true
search_origin _ = false

abbrev pub is_open : Status → Bool
is_open opened = true
is_open _ = false

abbrev pub is_contradicted : Ending → Bool
is_contradicted contradicted = true
is_contradicted _ = false

abbrev pub is_solved : Ending → Bool
is_solved solved = true
is_solved _ = false

abbrev pub ended_contradicted : Status → Bool
ended_contradicted (ended e) = is_contradicted e
ended_contradicted opened = false

abbrev pub needs_close : Status → Bool
needs_close (ended solved) = true
needs_close (ended abandoned) = true
needs_close _ = false

-- `BranchRecord.validate_branch_identity`
unfoldable pub validate_record : BranchRecord → Result (Unit {0})
validate_record r = do
  raise_if (is_root r.method && (is_some r.parent_branch_id || is_some r.assumption))
      (value_error "root branches cannot have a parent or assumption")
  raise_if (not (is_root r.method) && not (is_some r.parent_branch_id && is_some r.assumption))
      (value_error "non-root branches require a parent and assumption")
  raise_if (is_open r.status && is_some r.closed_sequence_no)
      (value_error "open branches cannot have a close sequence")
  raise_if (needs_close r.status && not (is_some r.closed_sequence_no))
      (value_error "solved and abandoned branches require a close sequence")

abbrev pub record_ids : List BranchRecord → List String
record_ids = map (λ r. r.branch_id)

abbrev pub state_branch_ids : List PuzzleState → List String
state_branch_ids = map (λ s. s.branch_id)

unfoldable pub find_state : String → List PuzzleState → Option PuzzleState
find_state b [] = none
find_state b (s ∷ ss) = if s.branch_id == b then some s else find_state b ss

unfoldable pub find_record : String → List BranchRecord → Option BranchRecord
find_record b [] = none
find_record b (r ∷ rs) = if r.branch_id == b then some r else find_record b rs

abbrev pub or_stop {ℓ} : {A : Type ℓ} → Option A → Result A
or_stop (some a) = ok a
or_stop none = err stop_iteration

-- `next(state for state in self.states if …)`
abbrev pub state_for : BranchProjection → String → Result PuzzleState
state_for p b = or_stop (find_state b p.states)

abbrev pub record_for : BranchProjection → String → Result BranchRecord
record_for p b = or_stop (find_record b p.branches)

abbrev pub parent_known : List String → BranchRecord → Bool
parent_known known r = elim r.parent_branch_id [ some b ↦ contains known b | none ↦ true ]

-- The state of a branch in `state_by_branch`: the branch identifiers differ at this point.
abbrev pub hash_matches : List PuzzleState → BranchRecord → Bool
hash_matches states r = elim (find_state r.branch_id states) [
  | some s ↦ r.latest_state_hash == s.state_hash
  | none ↦ false
]

-- `BranchProjection.validate_projection`
unfoldable pub validate_projection : BranchProjection → Result (Unit {0})
validate_projection p = do
  raise_if (not (unique (record_ids p.branches)) || not (unique (state_branch_ids p.states)))
      (value_error "branch projections must contain unique branch identifiers")
  raise_if (not (same_set (record_ids p.branches) (state_branch_ids p.states)))
      (value_error "every branch record must have exactly one retained state")
  raise_if (not (contains (record_ids p.branches) p.active_branch_id))
      (value_error "active branch must exist in the retained projection")
  raise_if (not (all (parent_known (record_ids p.branches)) p.branches))
      (value_error "branch parents must remain in the retained projection")
  raise_if (not (all (hash_matches p.states) p.branches))
      (value_error "branch records must reference their retained state hashes")

unfoldable pub make_record : BranchRecord → Result BranchRecord
unfolding validate_record
make_record r = do validate_record r; ok r

unfoldable pub make_projection : BranchProjection → Result BranchProjection
unfolding validate_projection
make_projection p = do validate_projection p; ok p

unfoldable pub create_branch_projection : PuzzleState → Result BranchProjection
create_branch_projection genesis = do
  first ← make_record (record {
    branch_id = genesis.branch_id;
    parent_branch_id = none;
    opened_from_state_hash = genesis.state_hash;
    assumption = none;
    method = root;
    status = opened;
    opened_sequence_no = genesis.sequence_no;
    closed_sequence_no = none;
    latest_state_hash = genesis.state_hash;
  })
  make_projection (record {
    sequence_no = genesis.sequence_no;
    active_branch_id = genesis.branch_id;
    branches = first ∷ [];
    states = genesis ∷ [];
  })
