-- ===== src/Reasoning/State.antt =====
-- src/deductra/reasoning/state.py: the immutable puzzle state, its construction and its hash.
pub mod Build
pub mod Initial
pub mod Invariant
pub mod Genesis
pub mod Validation
use deductra.Common.{
  ℕ, String, Bool, true, false, not, ◌&&◌, Option, none, some, List, [], ◌∷◌, map, eqb, ◌==◌,
  string_eq, pair_eq, nat_eq, bool_eq, length, all, any, contains, to_set, unique, text_le, sort_by,
  sort_texts, value_error, Result, ok, raise_if, ◌>>◌,
}
use deductra.Common.Dict.{Dict, values, sort_items, map_values}
use deductra.Canonical.{
  Json, boolean, text, Platform, array_of, object_of, texts, number, canonical_json,
  canonical_sha256,
}
use deductra.Domain.Atoms.{Atom, assignment, atom_eq, dump_atom}

pub record PuzzleState : Type 0 where
  pub state_id : String
  pub puzzle_revision_id : String
  pub sequence_no : ℕ
  pub branch_id : String
  pub candidate_domains : Dict (List String)
  pub asserted_atoms : List Atom
  pub rejected_atoms : List Atom
  pub active_constraint_ids : List String
  pub contradiction_ids : List String
  pub solved : Bool
  pub state_hash : String

-- `freeze_candidate_domains`, and the normalisation in `build_state`: sorted by variable, the
-- values of each as a frozenset
unfoldable pub freeze : Dict (List String) → Dict (List String)
freeze domains = sort_items (map_values to_set domains)

-- `next(iter(values))` if `len(values) == 1`
abbrev pub only : List String → Option String
only (x ∷ []) = some x
only _ = none

abbrev pub is_singleton : List String → Bool
is_singleton xs = eqb (length xs) 1

-- `serialize_candidate_domains`
dump_domains : Dict (List String) → Json
dump_domains d = object_of (map_values (λ xs. texts (sort_texts xs)) (sort_items d))

module _ (P : Platform) where
  -- `serialize_atoms`
  dump_atoms : List Atom → Json
  dump_atoms atoms = array_of (
      map dump_atom (
        sort_by (λ a b. text_le (canonical_json P (dump_atom a)) (canonical_json P (dump_atom b)))
          atoms))

  -- `state.model_dump(mode="json", exclude={"state_hash"})`
  unfoldable pub dump_state : PuzzleState → Json
  unfolding dump_domains dump_atoms
  dump_state s = object_of (
      ("state_id", text s.state_id)
      ∷ ("puzzle_revision_id", text s.puzzle_revision_id)
      ∷ ("sequence_no", number s.sequence_no)
      ∷ ("branch_id", text s.branch_id)
      ∷ ("candidate_domains", dump_domains s.candidate_domains)
      ∷ ("asserted_atoms", dump_atoms s.asserted_atoms)
      ∷ ("rejected_atoms", dump_atoms s.rejected_atoms)
      ∷ ("active_constraint_ids", texts (sort_texts s.active_constraint_ids))
      ∷ ("contradiction_ids", texts s.contradiction_ids)
      ∷ ("solved", boolean s.solved)
      ∷ [])

  unfoldable pub compute_state_hash : PuzzleState → String
  compute_state_hash s = canonical_sha256 P (dump_state s)

-- One step of the loop that asks for an assignment projection.
abbrev pub projected : List Atom → String × List String → Bool
projected asserted (v, xs) = elim (only xs) [
  | some x ↦ contains asserted (assignment v x)
  | none ↦ true
]

abbrev pub all_decided : Dict (List String) → Bool
all_decided d = all is_singleton (values d)

abbrev pub is_empty {ℓ} : {A : Type ℓ} → List A → Bool
is_empty [] = true
is_empty (x ∷ xs) = false

module _ (P : Platform) where
  -- `PuzzleState.validate_structural_invariants`
  unfoldable pub validate_structure : PuzzleState → Result (Unit {0})
  validate_structure s = do
    raise_if (is_empty s.candidate_domains)
        (value_error "candidate_domains must contain at least one variable")
    raise_if (any is_empty (values s.candidate_domains) && is_empty s.contradiction_ids)
        (value_error "empty candidate domains require an explicit contradiction")
    raise_if (any (contains s.rejected_atoms) s.asserted_atoms)
        (value_error "asserted and rejected atoms must not overlap")
    raise_if (not (unique s.contradiction_ids))
        (value_error "contradiction identifiers must be unique")
    raise_if (not (all (projected s.asserted_atoms) s.candidate_domains))
        (value_error "singleton candidate domains require an assignment projection")
    raise_if (not (s.solved == (is_empty s.contradiction_ids && all_decided s.candidate_domains)))
        (value_error "solved must match the candidate and contradiction projection")
    raise_if (not (s.state_hash == compute_state_hash P s))
        (value_error "state_hash does not match the canonical state")

  -- `PuzzleState(…)`: the field validator, then the model validator
  unfoldable pub make_state : PuzzleState → Result PuzzleState
  unfolding validate_structure
  make_state s = do
    let frozen : PuzzleState = record s { candidate_domains = freeze s.candidate_domains }
    validate_structure frozen
    ok frozen

abbrev pub unsigned_hash : String
unsigned_hash = "0000000000000000000000000000000000000000000000000000000000000000"

-- The keyword arguments of `build_state`.
pub record StateFields : Type 0 where
  pub state_id : String
  pub puzzle_revision_id : String
  pub sequence_no : ℕ
  pub branch_id : String
  pub candidate_domains : Dict (List String)
  pub asserted_atoms : List Atom
  pub rejected_atoms : List Atom
  pub active_constraint_ids : List String
  pub contradiction_ids : List String

-- `PuzzleState.model_construct` in `build_state`
unfoldable pub unsigned_state : StateFields → PuzzleState
unsigned_state f =
    let normalized = freeze f.candidate_domains in
    record {
      state_id = f.state_id;
      puzzle_revision_id = f.puzzle_revision_id;
      sequence_no = f.sequence_no;
      branch_id = f.branch_id;
      candidate_domains = normalized;
      asserted_atoms = f.asserted_atoms;
      rejected_atoms = f.rejected_atoms;
      active_constraint_ids = f.active_constraint_ids;
      contradiction_ids = f.contradiction_ids;
      solved = is_empty f.contradiction_ids && all_decided normalized;
      state_hash = unsigned_hash;
    }

module _ (P : Platform) where
  unfoldable pub build_state : StateFields → Result PuzzleState
  unfolding unsigned_state
  build_state f =
      let unsigned = unsigned_state f in
      make_state P (record unsigned { state_hash = compute_state_hash P unsigned })
