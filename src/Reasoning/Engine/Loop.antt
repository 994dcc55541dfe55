-- ===== src/Reasoning/Engine/Loop.antt =====
-- src/deductra/reasoning/engine.py: `HumanReasoningEngine.solve`.
pub mod Termination
pub mod Derivation
use deductra.Common.{
  ℕ, zero, suc, String, ◌<>◌, Bool, true, false, not, ◌||◌, Option, none, some, List, [], ◌∷◌, ◌++◌,
  map, eqb, if◌then◌else◌, ◌==◌, string_eq, pair_eq, nat_eq, bool_eq, length, keep, find, contains,
  add, unique, Error, value_error, rule_contract, key_error, index_error, stop_iteration, Result,
  err, ok, raise_if, ◌>>=◌, ◌>>◌,
}
use deductra.Common.Int.{ℤ, pos, pos_part, leb_ℤ}
use deductra.Canonical.{text, Platform, object_of, number, canonical_sha256}
use deductra.Domain.Atoms.{atom_eq}
use deductra.Domain.Puzzle.{PuzzleSpec}
use deductra.Reasoning.Events.{solved, EventEnvelope}
use deductra.Reasoning.Integrity.{genesis_event_hash, seal_event}
use deductra.Reasoning.State.{PuzzleState}
use deductra.Reasoning.State.Validation.{validate_state}
use deductra.Reasoning.Rules.{
  reference_eq, RuleApplicationCandidate, candidate_eq, ProposedDeduction, ReasoningRule,
  dump_proposal, identity, discover_rule_applications,
}
use deductra.Reasoning.Policy.{ReasoningPolicy, select_rule_application}
use deductra.Reasoning.Branches.{or_stop}
use deductra.Reasoning.Engine.{
  HumanSolveStatus, stalled, inconclusive, quarantined, limit_reached, AuthorityStatus, rejected,
  AuthorityResult, HumanSolveContext, HumanReasoningAttempt, make_attempt, StalledReason,
  human_rules_exhausted, max_steps_reached, HumanSolveTrace, build_trace,
}
use deductra.Reasoning.Engine.Proposal.{
  atoms_eq, texts_eq, Conclusion, validate_proposal, payload_of,
}

-- `except (RuleContractError, ValueError)`: all error classes of the package are `ValueError`s
abbrev pub is_value_error : Error → Bool
is_value_error key_error = false
is_value_error index_error = false
is_value_error stop_iteration = false
is_value_error _ = true

-- The local variables of the loop. `applied_steps` is the number of the events.
pub record Progress : Type 0 where
  pub current : PuzzleState
  pub previous_event_hash : String
  pub attempts : List HumanReasoningAttempt
  pub events : List EventEnvelope
  pub attempted : List (String × String)

-- How one turn of the loop ends: with `return`, with `continue`, or at the end of the body.
pub data Turn : Type 0 where
  finish : HumanSolveStatus → Option StalledReason → Progress → Turn
  retry : Progress → Turn
  advance : Progress → Turn

pub data Outcome : Type 0 where
  stopped : HumanSolveStatus → Option StalledReason → Progress → Outcome
  out_of_fuel : Outcome

-- `str(error)`, and the text of a tuple of texts
pub record Rendering : Type 0 where
  pub show_error : Error → String
  pub show_texts : List String → String

-- The port `DeductionAuthority`.
abbrev pub Authority : Type 0
Authority =
    PuzzleSpec → PuzzleState → ProposedDeduction → EventEnvelope → ℤ → Result AuthorityResult

-- The candidates that were not attempted in the present state.
abbrev pub untried : Progress → List RuleApplicationCandidate → List RuleApplicationCandidate
untried p = keep (λ c. not (contains p.attempted (p.current.state_hash, c.candidate_id)))

-- What a refusal of the authority does to the loop.
abbrev pub after_refusal : AuthorityStatus → Progress → Turn
after_refusal AuthorityStatus.inconclusive p = finish HumanSolveStatus.inconclusive none p
after_refusal AuthorityStatus.quarantined p = finish HumanSolveStatus.quarantined none p
after_refusal _ p = retry p

-- `HumanReasoningEngine.__init__`
unfoldable pub engine_rules : List ReasoningRule → Result (List ReasoningRule)
engine_rules rules = do
  raise_if (not (unique (map identity rules)))
      (rule_contract "reasoning rule identities must be unique")
  ok rules

module _ (P : Platform) (R : Rendering) (rules : List ReasoningRule) (authority : Authority)
    (puzzle : PuzzleSpec) (context : HumanSolveContext) (policy : ReasoningPolicy)
    (timeout : ℤ) where
  -- The event for a proposal.
  unfoldable pub propose_event :
      Progress → RuleApplicationCandidate → Conclusion → Result EventEnvelope
  propose_event p candidate conclusion = do
    let identity = canonical_sha256 P (
        object_of (
          ("candidate_id", text candidate.candidate_id)
          ∷ ("sequence_no", number (suc p.current.sequence_no))
          ∷ ("source_state_hash", text p.current.state_hash)
          ∷ ("trace_id", text context.trace_id)
          ∷ []))
    payload ← payload_of p.current ("deductra:state:" <> identity) conclusion
    seal_event P (record {
      event_id = "deductra:event:" <> identity;
      trace_id = context.trace_id;
      puzzle_revision_id = puzzle.identity.revision_id;
      branch_id = p.current.branch_id;
      sequence_no = suc p.current.sequence_no;
      schema_version = context.schema_version;
      occurred_at = context.occurred_at;
      producer = context.producer;
      correlation_id = context.correlation_id;
      previous_event_hash = p.previous_event_hash;
      payload = payload;
      attempt_id = none;
      causation_id = none;
    })

  -- The attempt that the answer of the authority is recorded as.
  abbrev pub answered_attempt :
      Progress
      → RuleApplicationCandidate
      → ProposedDeduction
      → AuthorityResult
      → HumanReasoningAttempt
  answered_attempt p candidate proposal answer = record {
    candidate_id = candidate.candidate_id;
    source_state_hash = p.current.state_hash;
    rule = proposal.rule;
    premises = proposal.premises;
    conclusions = proposal.conclusions;
    supporting_constraints = proposal.supporting_constraints;
    proposal_hash = some (canonical_sha256 P (dump_proposal proposal));
    obligation_id = answer.obligation_id;
    verification_status = answer.status;
    certificate_ids = answer.certificate_ids;
    reason = answer.reason;
    event_id = none;
    result_state_hash = none;
  }

  -- The body where `authority.result_state is None`.
  unfoldable pub record_refusal :
      Progress → RuleApplicationCandidate → ProposedDeduction → AuthorityResult → Result Turn
  record_refusal p candidate proposal answer = do
    attempt ← make_attempt (answered_attempt p candidate proposal answer)
    ok (after_refusal answer.status (record p { attempts = p.attempts ++ attempt ∷ [] }))

  -- The end of the body, for an accepted deduction.
  unfoldable pub record_result :
      Progress
      → RuleApplicationCandidate
      → ProposedDeduction
      → EventEnvelope
      → AuthorityResult
      → PuzzleState
      → Result Turn
  record_result p candidate proposal event answer result = do
    violations ← validate_state result puzzle
    raise_if (not (eqb (length violations) 0))
        (rule_contract ("verified rule produced invalid state: " <> R.show_texts violations))
    attempt ← make_attempt (record (answered_attempt p candidate proposal answer) {
      event_id = some event.event_id;
      result_state_hash = some result.state_hash;
    })
    ok (
        advance (record {
          current = result;
          previous_event_hash = event.event_hash;
          attempts = p.attempts ++ attempt ∷ [];
          events = p.events ++ event ∷ [];
          attempted = p.attempted;
        }))

  -- From the sealing of the event to the end of the body.
  unfoldable pub submit :
      Progress → RuleApplicationCandidate → ProposedDeduction → Conclusion → Result Turn
  submit p candidate proposal conclusion = do
    event ← propose_event p candidate conclusion
    answer ← authority puzzle p.current proposal event timeout
    elim answer.result_state [
      | none ↦ record_refusal p candidate proposal answer
      | some result ↦ record_result p candidate proposal event answer result
    ]

  -- The body of the `try`.
  unfoldable pub propose :
      Progress → RuleApplicationCandidate → ReasoningRule → Result (ProposedDeduction × Conclusion)
  propose p candidate rule = do
    proposal ← rule.apply candidate p.current
    conclusion ← validate_proposal puzzle p.current candidate proposal
    ok (proposal, conclusion)

  -- The attempt of the `except`.
  abbrev pub rejected_attempt : Progress → RuleApplicationCandidate → Error → HumanReasoningAttempt
  rejected_attempt p candidate error = record {
    candidate_id = candidate.candidate_id;
    source_state_hash = p.current.state_hash;
    rule = candidate.rule;
    premises = candidate.premises;
    conclusions = [];
    supporting_constraints = candidate.supporting_constraints;
    proposal_hash = none;
    obligation_id = none;
    verification_status = AuthorityStatus.rejected;
    certificate_ids = [];
    reason = "invalid rule proposal: " <> R.show_error error;
    event_id = none;
    result_state_hash = none;
  }

  -- The body of the loop once a candidate is selected.
  unfoldable pub consider : Progress → RuleApplicationCandidate → Result Turn
  consider p candidate = do
    rule ← or_stop (find (λ r. r.reference == candidate.rule) rules)
    elim (propose p candidate rule) [
      | ok (proposal, conclusion) ↦ submit p candidate proposal conclusion
      | err error ↦
          if is_value_error error
          then (do
            attempt ← make_attempt (rejected_attempt p candidate error)
            ok (retry (record p { attempts = p.attempts ++ attempt ∷ [] })))
          else err error
    ]

  -- One turn of the loop.
  unfoldable pub turn : Progress → Result Turn
  turn p = do
    discovered ← discover_rule_applications P puzzle p.current rules
    elim (select_rule_application (untried p discovered) policy) [
      | none ↦ ok (finish stalled (some human_rules_exhausted) p)
      | some candidate ↦
          consider
            (record p {
              attempted = add (p.current.state_hash, candidate.candidate_id) p.attempted;
            })
            candidate
    ]

  -- The turns until the state changes or the loop returns; `retry` is left for no more fuel.
  unfoldable pub turns : ℕ → Progress → Result Turn
  turns zero p = ok (retry p)
  turns (suc fuel) p = do
    t ← turn p
    elim t [
      | finish status reason q ↦ ok (finish status reason q)
      | advance q ↦ ok (advance q)
      | retry q ↦ turns fuel q
    ]

  -- Each turn in one state attempts another of its candidates.
  abbrev pub fuel_for : Progress → ℕ
  fuel_for p = elim (discover_rule_applications P puzzle p.current rules) [
    | ok discovered ↦ suc (length discovered)
    | err error ↦ 1
  ]

  -- The loop, by the number of the steps that may still be applied.
  unfoldable pub run : ℕ → Progress → Result Outcome
  run zero p = ok (
      if p.current.solved
      then stopped HumanSolveStatus.solved none p
      else stopped limit_reached (some max_steps_reached) p)
  run (suc steps) p = elim p.current.solved [
    | true ↦ ok (stopped HumanSolveStatus.solved none p)
    | false ↦ do
      t ← turns (fuel_for p) p
      elim t [
        | finish status reason q ↦ ok (stopped status reason q)
        | advance q ↦ run steps q
        | retry q ↦ ok out_of_fuel
      ]
  ]

  abbrev pub start : PuzzleState → Progress
  start initial_state = record {
    current = initial_state;
    previous_event_hash = context.previous_event_hash;
    attempts = [];
    events = [];
    attempted = [];
  }

  -- The trace of an outcome. The loop never runs out of fuel, and the error that stands for it is
  -- never raised.
  unfoldable pub trace_of : PuzzleState → Outcome → Result HumanSolveTrace
  trace_of initial_state out_of_fuel = err stop_iteration
  trace_of initial_state (stopped status reason p) = build_trace P (record {
    trace_id = context.trace_id;
    puzzle_revision_id = puzzle.identity.revision_id;
    policy = policy;
    status = status;
    stalled_reason = reason;
    initial_state_hash = initial_state.state_hash;
    final_state_hash = p.current.state_hash;
    attempts = p.attempts;
    events = p.events;
    trace_hash = genesis_event_hash;
  })

  -- `HumanReasoningEngine.solve`
  unfoldable pub solve : PuzzleState → ℤ → Result HumanSolveTrace
  solve initial_state max_steps = do
    raise_if (leb_ℤ max_steps (pos 0) || leb_ℤ timeout (pos 0))
        (value_error "max_steps and timeout_ms must be positive")
    violations ← validate_state initial_state puzzle
    raise_if (not (eqb (length violations) 0))
        (rule_contract ("initial state is invalid: " <> R.show_texts violations))
    outcome ← run (pos_part max_steps) (start initial_state)
    trace_of initial_state outcome
