-- ===== src/Tests/Reductions.antt =====
-- Reductions of a small state.
use mathlib.Core.Logic.{if_pos}
use deductra.Common.{
  String, ◌≡◌, refl, ◌∙◌, true, false, List, [], ◌∷◌, string_dec, string_eq, pair_eq, nat_eq,
  bool_eq, contains, Has, add, to_set, update, difference, subset, unique, text_le, sort_texts, ok,
  ◌>>=◌,
}
use deductra.Common.Dict.{Dict, lookup, insert, sort_items, map_values}
use deductra.Canonical.{canonical_json, canonical_sha256}
use deductra.Domain.Atoms.{exclusion, atom_dec, atom_eq}
use deductra.Reasoning.Events.{
  Origin, CandidatesEliminated, Method, BranchOpened, candidates_eliminated, branch_opened,
  EventEnvelope, dump_event,
}
use deductra.Reasoning.Integrity.{
  genesis_event_hash, unsigned_event, compute_event_hash, verify_event,
}
use deductra.Reasoning.State.{
  PuzzleState, freeze, dump_state, compute_state_hash, make_state, unsigned_state, build_state,
}
use deductra.Reasoning.State.Build.{signed}
use deductra.Reasoning.State.Initial.{assert_singletons}
use deductra.Reasoning.State.Invariant.{IsConsistent}
use deductra.Reasoning.Reducer.{
  eliminated, validate_reduction, Reduced, apply_mutation, reduced_fields, assume, reduce_state,
  derive_branch_state,
}
use deductra.Reasoning.Reducer.Soundness.{
  IsStep, reduce_state-signed, reduce_state-IsConsistent, candidates_after, candidates-reduce_state,
  reduce_state-IsStep,
}
use deductra.Reasoning.Reducer.Assumption.{
  candidates_under, child_fields, derive_branch_state-IsConsistent, derive_branch_state-signed,
}
use deductra.Tests.Samples.{platform, none_metadata, draft, sealed, genesis, genesis-IsConsistent}

program : Unit {0}
unfolding reduce_state derive_branch_state validate_reduction apply_mutation assume reduced_fields
    build_state make_state signed verify_event compute_event_hash dump_event compute_state_hash
    dump_state canonical_sha256 canonical_json string_dec atom_dec text_le unsigned_event
    unsigned_state freeze sort_items map_values to_set add contains subset difference update unique
    lookup insert assert_singletons sort_texts
program = tt

-- "a" loses two of its three candidates.
abbrev pub elimination : CandidatesEliminated
elimination = record {
  variable_id = "a";
  value_ids = "1" ∷ "3" ∷ [];
  source_state_hash = genesis.state_hash;
  result_state_id = "next";
  origin = Origin.human_rule;
  metadata = none_metadata;
}

abbrev pub event : EventEnvelope
event = sealed (draft 1 "root" genesis_event_hash (candidates_eliminated elimination))

abbrev pub reduced : Reduced
reduced = record {
  candidates = ("a", "2" ∷ []) ∷ ("b", "1" ∷ []) ∷ [];
  asserted = exclusion "a" "1" ∷ exclusion "a" "3" ∷ genesis.asserted_atoms;
  contradictions = [];
  result_state_id = "next";
}

abbrev pub next : PuzzleState
next = signed platform (reduced_fields genesis event "root" reduced)

mutation_applied : apply_mutation genesis (eliminated elimination) ≡ ok reduced
unfolding program
mutation_applied = refl

event_valid : validate_reduction platform genesis event ≡ ok (eliminated elimination)
unfolding program
event_valid = refl

pub reduces : reduce_state platform genesis event ≡ ok next
unfolding signed unsigned_state compute_state_hash
reduces =
    reduce_state-signed platform genesis event genesis-IsConsistent
    ∙ rw (event_valid, mutation_applied)

pub solved_by_elimination : next.solved ≡ true
unfolding program
solved_by_elimination = refl

reduce_state-signed_example : reduce_state platform genesis event ≡ (do
  m ← validate_reduction platform genesis event
  r ← apply_mutation genesis m
  ok (signed platform (reduced_fields genesis event genesis.branch_id r)))
reduce_state-signed_example = reduce_state-signed platform genesis event genesis-IsConsistent

reduce_state-IsConsistent_example : IsConsistent platform next
reduce_state-IsConsistent_example =
    reduce_state-IsConsistent platform genesis event genesis-IsConsistent next reduces

reduce_state-IsStep_example : IsStep genesis next event
reduce_state-IsStep_example =
    reduce_state-IsStep platform genesis event genesis-IsConsistent next reduces

candidates-reduce_state_example :
    lookup "a" next.candidate_domains
    ≡ candidates_after (eliminated elimination) genesis.candidate_domains "a"
unfolding unsigned_event
candidates-reduce_state_example =
    candidates-reduce_state platform genesis event genesis-IsConsistent next reduces
      (eliminated elimination) refl "a"

abbrev pub opening : BranchOpened
opening = record {
  parent_branch_id = "root";
  opened_from_state_hash = genesis.state_hash;
  assumption = exclusion "a" "2";
  method = Method.assumption;
  result_state_id = "child";
  metadata = none_metadata;
}

abbrev pub opening_event : EventEnvelope
opening_event = sealed (draft 1 "child" genesis_event_hash (branch_opened opening))

abbrev assumed : Dict (List String)
assumed = ("a", "1" ∷ "3" ∷ []) ∷ ("b", "1" ∷ []) ∷ []

abbrev pub child : PuzzleState
child = signed platform (child_fields genesis opening_event opening assumed)

assumption_holds : assume genesis.candidate_domains opening.assumption ≡ ok assumed
unfolding program
assumption_holds = refl

pub opens : derive_branch_state platform genesis opening_event opening ≡ ok child
opens =
    derive_branch_state-signed platform genesis genesis-IsConsistent opening_event opening
    ∙ rw (
      if_pos (string_dec opening.opened_from_state_hash genesis.state_hash) refl true false,
      assumption_holds,
    )

derive_branch_state-IsConsistent_example :
    IsConsistent platform child
    × (child.branch_id ≡ opening_event.branch_id)
    × (child.contradiction_ids ≡ [])
    × ((v : String)
        → lookup v child.candidate_domains
          ≡ candidates_under opening.assumption genesis.candidate_domains v)
    × Has child.asserted_atoms opening.assumption
derive_branch_state-IsConsistent_example =
    derive_branch_state-IsConsistent platform genesis genesis-IsConsistent opening_event opening
      child opens
