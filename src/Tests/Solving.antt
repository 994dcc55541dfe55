-- ===== src/Tests/Solving.antt =====
-- A run of the engine with one rule, which solves a puzzle of one variable in one step.
use native.Mathlib.Decide.{ℕ_discrete}
use deductra.Common.{
  ℕ, String, ◌≡◌, refl, ◌↔◌, ◌⊎◌, Bool, true, false, Option, none, some, [], ◌∷◌, string_dec,
  string_eq, pair_eq, nat_eq, bool_eq, list_dec, contains, Has, add, to_set, update, difference,
  from_keys, subset, unique, Distinct, text_le, place, sort_by, sort_texts, Error, Result, err, ok,
}
use deductra.Common.Dict.{lookup, insert, dict_of, sort_items, map_values}
use deductra.Common.Int.{ℤ, pos}
use deductra.Canonical.{canonical_json, canonical_sha256}
use deductra.Domain.Atoms.{atom_dec, atom_eq}
use deductra.Domain.Puzzle.{PuzzleSpec, validate_references}
use deductra.Domain.Puzzle.References.{IsClosed, validate_references-IsClosed}
use deductra.Domain.Values.{DomainValue, cell}
use deductra.Reasoning.Events.{kind_of, validate_candidates, validate_envelope}
use deductra.Reasoning.Integrity.{
  genesis_event_hash, unsigned_event, compute_event_hash, seal_event, verify_event,
}
use deductra.Reasoning.State.{
  PuzzleState, freeze, compute_state_hash, make_state, unsigned_state, build_state,
}
use deductra.Reasoning.State.Build.{signed}
use deductra.Reasoning.State.Initial.{assert_singletons}
use deductra.Reasoning.State.Validation.{variable_domains, validate_state}
use deductra.Reasoning.Reducer.{validate_reduction, apply_mutation, reduced_fields, reduce_state}
use deductra.Reasoning.Rules.{
  reference_dec, reference_eq, RuleApplicationCandidate, candidate_eq, ReasoningRule,
  dump_reference, key_le, check_found, discover_from, candidate_ids, discover_rule_applications,
}
use deductra.Reasoning.Rules.Discovery.{
  SomeRule, Finds, FindsOwn, Ordered, discover_rule_applications-Ordered,
}
use deductra.Reasoning.Policy.{
  teaching_first, shortest_trace, score, least, select_rule_application,
}
use deductra.Reasoning.Policy.Preference.{IsFirst, select_rule_application-IsFirst}
use deductra.Reasoning.Engine.{
  HumanSolveStatus, validate_authority, HumanSolveContext, make_attempt, StalledReason,
  HumanSolveTrace, compute_human_trace_hash, validate_trace, build_trace,
}
use deductra.Reasoning.Engine.Proposal.{atoms_eq, texts_eq, validate_proposal, payload_of}
use deductra.Reasoning.Engine.Loop.{
  Progress, Outcome, stopped, Rendering, propose_event, record_refusal, record_result, submit,
  propose, consider, turn, turns, run, trace_of, solve,
}
use deductra.Reasoning.Engine.Loop.Termination.{run-returns}
use deductra.Reasoning.Engine.Solve.{Tells, solve-Tells, solve-returns}
use deductra.Verification.Contracts.{
  claim_dec, claim_eq, negation_of, verdict_dec, verdict_eq, verified, accepted, make_decision,
  make_obligation,
}
use deductra.Verification.Coordinator.{
  coordinator, collect, classify, cross_verify, optional_atom_eq, apply_verified_event,
}
use deductra.Verification.Authority.{
  authority_status, make_authority_result, obligation_for, apply_if_accepted, evaluate,
  evaluate-Reduces,
}
use deductra.Tests.Samples.{none_metadata, noon, engine, given_fields, flat, value_of_ok}
use deductra.Tests.Decisions.{agreeing, puzzle, reference, proposal}

abbrev candidate : RuleApplicationCandidate
candidate = record {
  candidate_id = "candidate";
  rule = reference;
  source_state_hash = "digest";
  premises = [];
  affected_variables = "a" ∷ [];
  supporting_constraints = [];
  information_gain = 1;
  pedagogical_cost = 2;
  tie_break_key = "a";
}

abbrev dearer : RuleApplicationCandidate
dearer = record candidate {
  candidate_id = "dearer";
  information_gain = 5;
  pedagogical_cost = 3;
  tie_break_key = "b";
}

abbrev rule : ReasoningRule
rule = record {
  reference = reference;
  find_applications = λ puzzle state. ok (dearer ∷ candidate ∷ []);
  apply = λ c state. ok (record proposal { candidate_id = c.candidate_id });
}

abbrev value : String → DomainValue
value v = record {
  value_id = v;
  label = v;
  ordinal = none;
  numeric_value = none;
  symbol = none;
  metadata = none_metadata;
}

abbrev pub one_variable : PuzzleSpec
one_variable = record puzzle {
  domains =
      record {
        domain_id = "d";
        values = value "1" ∷ value "2" ∷ [];
        ordered = false;
        distinct_by_default = true;
        metadata = none_metadata;
      }
      ∷ [];
  variables =
      record {
        variable_id = "a";
        label = "a";
        domain_id = "d";
        role = cell;
        coordinates = none;
        metadata = none_metadata;
      }
      ∷ [];
}

abbrev pub initial : PuzzleState
initial =
    signed flat
      (record given_fields { candidate_domains = ("a", "1" ∷ "2" ∷ []) ∷ []; asserted_atoms = [] })

abbrev context : HumanSolveContext
context = record {
  trace_id = "trace";
  correlation_id = "correlation";
  producer = engine;
  occurred_at = noon;
  previous_event_hash = genesis_event_hash;
  schema_version = "1.0.0";
}

abbrev rendering : Rendering
rendering = record { show_error = λ e. "error"; show_texts = λ ss. "texts" }

abbrev solving : ℤ → Result HumanSolveTrace
solving =
    solve flat rendering (rule ∷ []) (evaluate flat agreeing) one_variable context teaching_first
      (pos 5000) initial

program : Unit {0}
unfolding solve trace_of build_trace validate_trace run turns turn consider propose propose_event
    submit record_refusal record_result validate_proposal make_attempt payload_of seal_event
    validate_envelope unsigned_event validate_candidates kind_of discover_rule_applications
    discover_from check_found select_rule_application least score key_le validate_state
    variable_domains dict_of from_keys evaluate lookup insert string_dec signed unsigned_state
    subset freeze sort_items map_values contains to_set add unique reference_dec compute_state_hash
    canonical_sha256 assert_singletons sort_by place sort_texts text_le cross_verify classify
    collect make_decision coordinator verified accepted verdict_dec apply_verified_event
    apply_if_accepted obligation_for make_obligation make_authority_result authority_status
    negation_of claim_dec reduce_state validate_reduction apply_mutation reduced_fields build_state
    make_state verify_event compute_event_hash atom_dec difference update validate_authority
    canonical_json dump_reference compute_human_trace_hash list_dec ℕ_discrete
program = tt

abbrev is_solved_trace : Result HumanSolveTrace → Bool
is_solved_trace (ok t) = elim t.status [ HumanSolveStatus.solved ↦ true | _ ↦ false ]
is_solved_trace (err e) = false

solves : is_solved_trace (solving (pos 5)) ≡ true
unfolding program
solves = refl

solved_trace : (t : HumanSolveTrace) × (solving (pos 5) ≡ ok t)
unfolding program
solved_trace = value_of_ok (solving (pos 5)) refl

solve-Tells_example : Tells flat initial genesis_event_hash 5 solved_trace.0
solve-Tells_example =
    solve-Tells flat rendering (rule ∷ []) (evaluate flat agreeing) one_variable context
      teaching_first (pos 5000) (evaluate-Reduces flat agreeing) initial (pos 5) solved_trace.0
      solved_trace.1

abbrev running : ℕ → Progress → Result Outcome
running =
    run flat rendering (rule ∷ []) (evaluate flat agreeing) one_variable context teaching_first
      (pos 5000)

abbrev beginning : Progress
beginning = record {
  current = initial;
  previous_event_hash = genesis_event_hash;
  attempts = [];
  events = [];
  attempted = [];
}

run-returns_example :
    ((o : HumanSolveStatus × Option StalledReason × Progress) × (running 5 beginning
        ≡ ok (stopped o.0 o.1 o.2)))
    ⊎ ((x : Error) × (running 5 beginning ≡ err x))
run-returns_example =
    run-returns flat rendering (rule ∷ []) (evaluate flat agreeing) one_variable context
      teaching_first (pos 5000) 5 beginning

select_rule_application-IsFirst_example :
    ((select_rule_application (dearer ∷ candidate ∷ []) shortest_trace ≡ none)
      ↔ (dearer ∷ candidate ∷ [] ≡ []))
    × ((chosen : RuleApplicationCandidate)
        → select_rule_application (dearer ∷ candidate ∷ []) shortest_trace ≡ some chosen
        → IsFirst shortest_trace (dearer ∷ candidate ∷ []) chosen)
select_rule_application-IsFirst_example =
    select_rule_application-IsFirst shortest_trace (dearer ∷ candidate ∷ [])

cheaper : select_rule_application (dearer ∷ candidate ∷ []) teaching_first ≡ some candidate
unfolding program
cheaper = refl

more_gain : select_rule_application (dearer ∷ candidate ∷ []) shortest_trace ≡ some dearer
unfolding program
more_gain = refl

-- Discovery finds both candidates, in the order of their tie-break keys.
found :
    discover_rule_applications flat one_variable initial (rule ∷ []) ≡ ok (candidate ∷ dearer ∷ [])
unfolding program
found = refl

discover_rule_applications-Ordered_example :
    Ordered (candidate ∷ dearer ∷ [])
    × Distinct (candidate_ids (candidate ∷ dearer ∷ []))
    × ((c : RuleApplicationCandidate)
        → Has (candidate ∷ dearer ∷ []) c
        → SomeRule (FindsOwn one_variable initial c) (rule ∷ [])
          × (c.source_state_hash ≡ initial.state_hash))
    × ((c : RuleApplicationCandidate)
        → SomeRule (Finds one_variable initial c) (rule ∷ [])
        → Has (candidate ∷ dearer ∷ []) c)
discover_rule_applications-Ordered_example =
    discover_rule_applications-Ordered flat one_variable initial (rule ∷ [])
      (candidate ∷ dearer ∷ []) found

pub valid_initial : validate_state initial one_variable ≡ ok []
unfolding program
valid_initial = refl

solve-returns_example :
    ((t : HumanSolveTrace) × (solving (pos 5) ≡ ok t))
    ⊎ ((x : Error) × (running 5 beginning ≡ err x) × (solving (pos 5) ≡ err x))
solve-returns_example =
    solve-returns flat rendering (rule ∷ []) (evaluate flat agreeing) one_variable context
      teaching_first (pos 5000) initial (pos 5) refl refl valid_initial

validate_references-IsClosed_example :
    (validate_references one_variable ≡ ok tt) ↔ IsClosed one_variable
validate_references-IsClosed_example = validate_references-IsClosed one_variable

closed : validate_references one_variable ≡ ok tt
unfolding program validate_references
closed = refl
