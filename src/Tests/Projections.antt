-- ===== src/Tests/Projections.antt =====
-- Projections of the root branch after one event.
use deductra.Common.{
  ◌<◌, String, ◌≡◌, refl, ◌≢◌, true, none, some, [], ◌∷◌, string_dec, string_eq, pair_eq, nat_eq,
  bool_eq, contains, add, to_set, subset, unique, text_le, sort_texts, ok,
}
use deductra.Common.Dict.{sort_items, map_values}
use deductra.Canonical.{canonical_json, canonical_sha256}
use deductra.Domain.Atoms.{atom_dec, atom_eq, dump_atom}
use deductra.Reasoning.State.Initial.{assert_singletons}
use deductra.Reasoning.Events.{
  CandidatesEliminated, ValueAssigned, contradicted, initial_state_created, trace_completed,
  candidates_eliminated, value_assigned, EventEnvelope, dump_event,
}
use deductra.Reasoning.Integrity.{
  genesis_event_hash, valid, unsigned_event, compute_event_hash, verify_event, verify_chain,
}
use deductra.Reasoning.Integrity.Chain.{IsChain}
use deductra.Reasoning.State.{freeze, dump_state, compute_state_hash, unsigned_state}
use deductra.Reasoning.State.Build.{signed}
use deductra.Reasoning.Reducer.{Mutation, as_mutation, reduced_fields}
use deductra.Reasoning.Branches.{
  opened, ended, root, BranchRecord, BranchProjection, is_search, search_origin, is_open,
  find_state, find_record, validate_projection, make_record, make_projection,
  create_branch_projection,
}
use deductra.Reasoning.Branches.Reduction.{
  replace_records, replace_states, open_branch, mutate_branch, dispatch, reduce_branch_projection,
}
use deductra.Reasoning.Branches.Retention.{
  IsValid, reduce_branch_projection-IsValid, reduce_branch_projection-elsewhere,
  reduce_branch_projection-ended, reduce_branch_projection-disclosed,
}
use deductra.Reasoning.Branches.Replay.{replay_from, replay_projection}
use deductra.Reasoning.Branches.Replay.Rebuild.{
  root_projection, create_branch_projection-root, replay_projection-IsValid,
  replay_projection-append,
}
use deductra.Tests.Samples.{platform, none_metadata, draft, sealed, genesis, genesis-IsConsistent}
use deductra.Tests.Reductions.{event, next, reduces}

program : Unit {0}
unfolding reduce_branch_projection dispatch mutate_branch open_branch make_projection make_record
    validate_projection find_state find_record replace_states replace_records verify_event
    compute_event_hash dump_event canonical_sha256 canonical_json string_dec atom_dec text_le
    unsigned_event signed unsigned_state reduced_fields freeze to_set add contains subset unique
    compute_state_hash dump_state sort_texts assert_singletons dump_atom map_values sort_items
program = tt

abbrev before : BranchProjection
before = root_projection genesis

abbrev after : BranchProjection
after = record {
  sequence_no = 1;
  active_branch_id = "root";
  branches =
      record {
        branch_id = "root";
        parent_branch_id = none;
        opened_from_state_hash = genesis.state_hash;
        assumption = none;
        method = root;
        status = opened;
        opened_sequence_no = 0;
        closed_sequence_no = none;
        latest_state_hash = next.state_hash;
      }
      ∷ [];
  states = next ∷ [];
}

event_accepted : reduce_branch_projection platform before event ≡ ok after
unfolding program
event_accepted = rw reduces refl

before-IsValid : IsValid platform before
before-IsValid = record {
  checked = (create_branch_projection-root genesis).1;
  consistent = (genesis-IsConsistent, tt);
}

abbrev root_record : BranchRecord
root_record = record {
  branch_id = "root";
  parent_branch_id = none;
  opened_from_state_hash = genesis.state_hash;
  assumption = none;
  method = root;
  status = opened;
  opened_sequence_no = 0;
  closed_sequence_no = none;
  latest_state_hash = genesis.state_hash;
}

reduce_branch_projection-IsValid_example : IsValid platform after
reduce_branch_projection-IsValid_example =
    reduce_branch_projection-IsValid platform before event after event_accepted before-IsValid

reduce_branch_projection-elsewhere_example :
    ((b : String)
      → event.branch_id ≢ b
      → (find_state b after.states ≡ find_state b before.states)
        × (find_record b after.branches ≡ find_record b before.branches))
    × (before.sequence_no < after.sequence_no)
    × (after.sequence_no ≡ event.sequence_no)
reduce_branch_projection-elsewhere_example =
    reduce_branch_projection-elsewhere platform before event after event_accepted before-IsValid

found_root : find_record "root" before.branches ≡ some root_record
unfolding program
found_root = refl

reduce_branch_projection-disclosed_example :
    ((m : Mutation)
      → as_mutation event.payload ≡ some m
      → (event.branch_id ≡ before.active_branch_id) × (is_open root_record.status ≡ true))
    × ((a : ValueAssigned)
        → event.payload ≡ value_assigned a
        → search_origin a.origin ≡ is_search root_record.method)
    × ((c : CandidatesEliminated)
        → event.payload ≡ candidates_eliminated c
        → search_origin c.origin ≡ is_search root_record.method)
unfolding signed unsigned_state
reduce_branch_projection-disclosed_example =
    reduce_branch_projection-disclosed platform before event after event_accepted root_record
      found_root

-- A root branch that was contradicted: other branches go on, its state stays.
abbrev contradicted_projection : BranchProjection
contradicted_projection = record before {
  branches = record root_record { status = ended contradicted } ∷ [];
}

contradicted-IsValid : IsValid platform contradicted_projection
unfolding program
contradicted-IsValid = record { checked = refl; consistent = (genesis-IsConsistent, tt) }

abbrev note : EventEnvelope
note = sealed (draft 1 "root" genesis_event_hash (trace_completed "final" none_metadata))

abbrev noted : BranchProjection
noted = record contradicted_projection { sequence_no = 1 }

note_accepted : reduce_branch_projection platform contradicted_projection note ≡ ok noted
unfolding program
note_accepted = refl

reduce_branch_projection-ended_example :
    find_state "root" noted.states ≡ find_state "root" contradicted_projection.states
reduce_branch_projection-ended_example =
    reduce_branch_projection-ended platform contradicted_projection note noted note_accepted
      contradicted-IsValid "root" (record root_record { status = ended contradicted })
      (unfold find_record string_dec in refl) refl

-- A stream of the initial event and one elimination.
abbrev created : EventEnvelope
created =
    sealed
      (draft 0 "root" genesis_event_hash (initial_state_created genesis.state_hash none_metadata))

abbrev following : EventEnvelope
following = sealed (draft 1 "root" created.event_hash (trace_completed "final" none_metadata))

abbrev replayed : BranchProjection
replayed = record before { sequence_no = 1 }

created_replayed : replay_projection platform genesis (created ∷ []) ≡ ok before
unfolding program replay_projection replay_from verify_chain valid create_branch_projection
created_replayed = refl

stream_replayed : replay_projection platform genesis (created ∷ following ∷ []) ≡ ok replayed
unfolding program replay_projection replay_from verify_chain valid create_branch_projection
stream_replayed = refl

replay_projection-IsValid_example :
    IsValid platform replayed × IsChain platform (created ∷ following ∷ [])
replay_projection-IsValid_example =
    replay_projection-IsValid platform genesis (created ∷ following ∷ []) replayed
      genesis-IsConsistent stream_replayed

replay_projection-append_example :
    replay_projection platform genesis (created ∷ following ∷ [])
    ≡ reduce_branch_projection platform before following
replay_projection-append_example =
    replay_projection-append platform genesis (created ∷ []) following before created_replayed
      (replay_projection-IsValid platform genesis (created ∷ following ∷ []) replayed
        genesis-IsConsistent stream_replayed).1
