-- ===== src/Reasoning/Branches/Replay.antt =====
-- src/deductra/reasoning/reducer.py: `replay_projection`.
pub mod Rebuild
use deductra.Common.{
  ℕ, String, ◌<>◌, Bool, false, not, ◌&&◌, Option, none, some, List, [], ◌∷◌, ltb, eqb,
  if◌then◌else◌, ◌==◌, string_eq, pair_eq, nat_eq, bool_eq, find, state_conflict, Result, ok,
  raise_if, ◌>>=◌, ◌>>◌,
}
use deductra.Canonical.{Platform, show_number}
use deductra.Reasoning.Events.{initial_state_created, EventEnvelope}
use deductra.Reasoning.Integrity.{ChainVerification, valid, verify_chain}
use deductra.Reasoning.State.{PuzzleState}
use deductra.Reasoning.Branches.{BranchProjection, create_branch_projection}
use deductra.Reasoning.Branches.Reduction.{reduce_branch_projection}

abbrev pub is_genesis : PuzzleState → Option EventEnvelope → Bool
is_genesis genesis none = false
is_genesis genesis (some e) =
    e.branch_id == genesis.branch_id
    && elim e.payload [ initial_state_created h _ ↦ h == genesis.state_hash | _ ↦ false ]

-- `str(verification.first_invalid_sequence)`
abbrev pub invalid_at : ChainVerification → String
invalid_at v = elim v.first_invalid_sequence [ some n ↦ show_number n | none ↦ "None" ]

module _ (P : Platform) where
  -- The loop that reduces the events after the genesis state.
  unfoldable pub replay_from : ℕ → BranchProjection → List EventEnvelope → Result BranchProjection
  replay_from start p [] = ok p
  replay_from start p (e ∷ es) = do
    next ← if ltb start e.sequence_no then reduce_branch_projection P p e else ok p
    replay_from start next es

  unfoldable pub replay_projection : PuzzleState → List EventEnvelope → Result BranchProjection
  unfolding replay_from
  replay_projection genesis events = do
    raise_if (not (valid (verify_chain P events))) (
        state_conflict
          ("event stream is invalid at sequence " <> invalid_at (verify_chain P events)))
    raise_if (not (is_genesis genesis (find (λ e. eqb e.sequence_no genesis.sequence_no) events)))
        (state_conflict "genesis state does not match its InitialStateCreated event")
    projection ← create_branch_projection genesis
    replay_from genesis.sequence_no projection events
