-- ===== src/Tests/Decisions.antt =====
-- Decisions of two backends about the elimination of one candidate.
use deductra.Common.{
  String, ◌≡◌, refl, ◌↔◌, inl, inr, Bool, true, false, none, some, List, [], ◌∷◌, arith,
  Option-cases, string_dec, string_eq, pair_eq, nat_eq, bool_eq, All, contains, Has, add, to_set,
  update, difference, subset, unique, text_le, sort_texts, Result, err, ok,
}
use deductra.Common.Dict.{lookup, insert, sort_items, map_values}
use deductra.Common.Int.{pos}
use deductra.Canonical.{canonical_sha256}
use deductra.Domain.Atoms.{Atom, exclusion, atom_dec, atom_eq}
use deductra.Domain.Puzzle.{golden, PuzzleSpec}
use deductra.Reasoning.Events.{Origin, CandidatesEliminated, candidates_eliminated, EventEnvelope}
use deductra.Reasoning.Integrity.{
  genesis_event_hash, unsigned_event, compute_event_hash, verify_event,
}
use deductra.Reasoning.State.{
  PuzzleState, freeze, compute_state_hash, make_state, unsigned_state, build_state,
}
use deductra.Reasoning.State.Build.{signed}
use deductra.Reasoning.State.Initial.{assert_singletons}
use deductra.Reasoning.Reducer.{validate_reduction, apply_mutation, reduced_fields, reduce_state}
use deductra.Reasoning.Rules.{RuleReference, reference_eq, candidate_eq, ProposedDeduction}
use deductra.Reasoning.Engine.{AuthorityResult, validate_authority, given_state}
use deductra.Verification.Contracts.{
  VerificationStatus, elimination_negation, claim_dec, claim_eq, ProofObligation, negation_of,
  Verdict, sat, unsat, unknown, verdict_dec, verdict_eq, VerificationCertificate,
  VerificationDecision, verdicts, verified, is_quarantined, accepted, make_decision,
  make_obligation,
}
use deductra.Verification.Coordinator.{
  Backend, coordinator, collect, classify, decision_of, cross_verify, conclusion_of,
  optional_atom_eq, apply_verified_event,
}
use deductra.Verification.Coordinator.Decisions.{Answers, cross_verify-accepted, cross_verify_total}
use deductra.Verification.Coordinator.Application.{BearsOut, apply_verified_event-BearsOut}
use deductra.Verification.Authority.{
  authority_status, make_authority_result, obligation_for, apply_if_accepted, evaluate,
  evaluate-proved,
}
use deductra.Tests.Samples.{
  none_metadata, noon, draft, genesis, flat, flat_genesis, flat_genesis-IsConsistent, value_of_ok,
}

program : Unit {0}
unfolding cross_verify classify collect make_decision coordinator verified accepted verdict_dec
    subset contains string_dec unique to_set add
program = tt

abbrev obligation : ProofObligation
obligation = record {
  obligation_id = "obligation";
  puzzle_revision_id = "revision";
  source_state_hash = genesis.state_hash;
  assumptions = [];
  claimed_conclusions = exclusion "a" "1" ∷ [];
  negated_claim = elimination_negation "a" "1";
  encoding_version = "1.0.0";
}

abbrev certificate : String → Verdict → ProofObligation → VerificationCertificate
certificate name verdict o = record {
  certificate_id = name;
  backend_id = name;
  backend_version = "1.0.0";
  encoding_version = "1.0.0";
  obligation_id = o.obligation_id;
  outcome = verdict;
  duration_ms = 1;
  unsat_core_refs = [];
  model_snapshot = none;
  raw_artifact_hash = none;
  certificate_hash = "hash";
}

-- A backend with one verdict for every obligation.
abbrev backend : String → Verdict → Backend
backend name verdict = record {
  backend_id = name;
  answer = λ puzzle state o timeout. ok (certificate name verdict o);
}

abbrev pub agreeing : List Backend
agreeing = backend "z3" unsat ∷ backend "cpsat" unsat ∷ []

abbrev pub puzzle : PuzzleSpec
puzzle = record {
  identity = record {
    puzzle_id = "puzzle";
    revision_id = "revision";
    family_id = "family";
    schema_version = "1.0.0";
    title = "title";
    author = none;
    source_kind = golden;
    parent_revision_id = none;
    created_at = noon;
    metadata = none_metadata;
  };
  domains = [];
  variables = [];
  constraints = [];
  clues = [];
  givens = [];
  display_spec = record { locale = "en"; accessibility_labels = []; metadata = none_metadata };
  generation_lineage = none;
  provenance = [];
  metadata = none_metadata;
}

abbrev decision : VerificationDecision
decision =
    decision_of obligation
      (certificate "z3" unsat obligation ∷ certificate "cpsat" unsat obligation ∷ [])

pub offered : coordinator agreeing ≡ ok agreeing
unfolding program
offered = refl

decided : cross_verify agreeing puzzle genesis obligation (pos 5000) ≡ ok decision
unfolding program
decided = refl

crossed : decision.status ≡ VerificationStatus.cross_verified
unfolding program
crossed = refl

disagreeing : (classify (sat ∷ unknown ∷ unsat ∷ [])).0 ≡ VerificationStatus.quarantined
unfolding program
disagreeing = refl

cross_verify-accepted_example :
    Answers puzzle genesis obligation (pos 5000) agreeing decision.certificates
    × ((accepted decision ≡ true) ↔ All (λ v. v ≡ unsat) (verdicts decision.certificates))
    × ((is_quarantined decision.status ≡ true)
        ↔ (Has (verdicts decision.certificates) sat × Has (verdicts decision.certificates) unsat))
    × (decision.obligation_id ≡ obligation.obligation_id)
cross_verify-accepted_example =
    cross_verify-accepted puzzle genesis obligation (pos 5000) agreeing agreeing decision offered
      decided

cross_verify_total_example :
    (d : VerificationDecision) × (cross_verify agreeing puzzle genesis obligation (pos 5000) ≡ ok d)
cross_verify_total_example =
    cross_verify_total puzzle genesis obligation (pos 5000) agreeing agreeing offered refl (
      (certificate "z3" unsat obligation, refl, refl, refl),
      ((certificate "cpsat" unsat obligation, refl, refl, refl), tt),
    )

-- The elimination that the obligation claims.
abbrev single : CandidatesEliminated
single = record {
  variable_id = "a";
  value_ids = "1" ∷ [];
  source_state_hash = flat_genesis.state_hash;
  result_state_id = "next";
  origin = Origin.human_rule;
  metadata = none_metadata;
}

abbrev single_event : EventEnvelope
single_event =
    let unsigned =
      unsigned_event (draft 1 "root" genesis_event_hash (candidates_eliminated single)) in
    record unsigned { event_hash = compute_event_hash flat unsigned }

abbrev flat_obligation : ProofObligation
flat_obligation = record obligation { source_state_hash = flat_genesis.state_hash }

applying : Unit {0}
unfolding program apply_verified_event evaluate apply_if_accepted obligation_for make_obligation
    make_authority_result authority_status negation_of claim_dec reduce_state validate_reduction
    apply_mutation reduced_fields build_state make_state signed verify_event compute_event_hash
    compute_state_hash canonical_sha256 atom_dec text_le unsigned_event unsigned_state freeze
    sort_items map_values difference update lookup insert assert_singletons sort_texts
applying = tt

applied :
    (t : PuzzleState) × (apply_verified_event flat flat_genesis single_event flat_obligation
        decision
      ≡ ok t)
unfolding applying
applied =
    value_of_ok (apply_verified_event flat flat_genesis single_event flat_obligation decision) refl

apply_verified_event-BearsOut_example :
    (a : Atom) × (flat_obligation.claimed_conclusions ≡ a ∷ [])
    × (conclusion_of single_event.payload ≡ some a)
    × (accepted decision ≡ true)
    × (decision.obligation_id ≡ flat_obligation.obligation_id)
    × (flat_obligation.source_state_hash ≡ flat_genesis.state_hash)
    × (reduce_state flat flat_genesis single_event ≡ ok applied.0)
    × BearsOut a applied.0.candidate_domains
apply_verified_event-BearsOut_example =
    apply_verified_event-BearsOut flat flat_genesis single_event flat_obligation decision applied.0
      flat_genesis-IsConsistent applied.1

abbrev pub reference : RuleReference
reference = record {
  rule_id = "rule";
  rule_version = "1.0.0";
  family_scope = [];
  title = "title";
  technique_rank = 1;
}

abbrev pub proposal : ProposedDeduction
proposal = record {
  candidate_id = "candidate";
  source_state_hash = flat_genesis.state_hash;
  rule = reference;
  premises = [];
  conclusions = exclusion "a" "1" ∷ [];
  affected_variables = "a" ∷ [];
  supporting_constraints = [];
  explanation_parameters = none_metadata;
}

abbrev has_state : Result AuthorityResult → Bool
has_state (ok a) = given_state a.result_state
has_state (err e) = false

-- The answer of a run that accepts, and its state.
answer_with_state :
    (r : Result AuthorityResult)
    → has_state r ≡ true
    → (answer : AuthorityResult) × (t : PuzzleState) × (r ≡ ok answer)
      × (answer.result_state ≡ some t)
answer_with_state (ok answer) h = elim (Option-cases answer.result_state) [
  | inl none_given ↦ absurd (ground arith)
  | inr (t, given_one) ↦ (answer, t, refl, given_one)
]
answer_with_state (err e) h = absurd (ground arith)

evaluated :
    (answer : AuthorityResult) × (t : PuzzleState) × (evaluate flat agreeing puzzle flat_genesis
        proposal single_event
        (pos 5000)
      ≡ ok answer)
    × (answer.result_state ≡ some t)
unfolding applying validate_authority
evaluated =
    answer_with_state (evaluate flat agreeing puzzle flat_genesis proposal single_event (pos 5000))
      refl

evaluate-proved_example :
    (o : ProofObligation) × (cs : List VerificationCertificate) × (obligation_for flat puzzle
        proposal
      ≡ ok o)
    × Answers puzzle flat_genesis o (pos 5000) agreeing cs
    × All (λ v. v ≡ unsat) (verdicts cs)
    × (reduce_state flat flat_genesis single_event ≡ ok evaluated.1)
evaluate-proved_example =
    evaluate-proved flat agreeing puzzle flat_genesis proposal single_event (pos 5000) evaluated.0
      evaluated.1 evaluated.2 evaluated.3 agreeing offered
