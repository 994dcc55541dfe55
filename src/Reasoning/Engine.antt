-- ===== src/Reasoning/Engine.antt =====
-- src/deductra/reasoning/engine.py: the authority port, attempts, traces and their validators.
-- The solve loop stands in Engine/Loop.
pub mod Proposal
pub mod Loop
pub mod Solve
use deductra.Common.{
  String, Bool, true, false, not, ◌&&◌, ◌||◌, Option, none, some, List, [], ◌∷◌, map, eqb, ◌==◌,
  string_eq, pair_eq, nat_eq, bool_eq, length, value_error, Result, ok, raise_if, ◌>>◌,
}
use deductra.Canonical.{
  Json, null, text, Platform, array_of, object_of, texts, optional, canonical_sha256,
}
use deductra.Domain.Atoms.{Atom, atom_eq, dump_atom}
use deductra.Domain.Puzzle.{Timestamp}
use deductra.Reasoning.Events.{ProducerRef, EventEnvelope, dump_sealed}
use deductra.Reasoning.State.{PuzzleState}
use deductra.Reasoning.Rules.{RuleReference, reference_eq, candidate_eq, dump_reference}
use deductra.Reasoning.Policy.{
  ReasoningPolicy, teaching_first, shortest_trace, max_information_gain, family_canonical,
}

pub data HumanSolveStatus : Type 0 where
  solved stalled inconclusive quarantined limit_reached : HumanSolveStatus

pub data AuthorityStatus : Type 0 where
  backend_verified cross_verified rejected inconclusive quarantined : AuthorityStatus

-- `DeductionAuthorityResult`
pub record AuthorityResult : Type 0 where
  pub status : AuthorityStatus
  pub obligation_id : Option String
  pub certificate_ids : List String
  pub reason : String
  pub result_state : Option PuzzleState

-- The statuses that accept a deduction.
unfoldable pub accepts : AuthorityStatus → Bool
accepts AuthorityStatus.backend_verified = true
accepts AuthorityStatus.cross_verified = true
accepts _ = false

abbrev pub given_state : Option PuzzleState → Bool
given_state (some s) = true
given_state none = false

abbrev pub xor : Bool → Bool → Bool
xor true b = not b
xor false b = b

-- `DeductionAuthorityResult.validate_authority`
unfoldable pub validate_authority : AuthorityResult → Result (Unit {0})
unfolding accepts
validate_authority r =
    raise_if (xor (accepts r.status) (given_state r.result_state))
      (value_error "accepted authority and result_state must appear together")

pub record HumanSolveContext : Type 0 where
  pub trace_id : String
  pub correlation_id : String
  pub producer : ProducerRef
  pub occurred_at : Timestamp
  pub previous_event_hash : String
  pub schema_version : String

pub record HumanReasoningAttempt : Type 0 where
  pub candidate_id : String
  pub source_state_hash : String
  pub rule : RuleReference
  pub premises : List Atom
  pub conclusions : List Atom
  pub supporting_constraints : List String
  pub proposal_hash : Option String
  pub obligation_id : Option String
  pub verification_status : AuthorityStatus
  pub certificate_ids : List String
  pub reason : String
  pub event_id : Option String
  pub result_state_hash : Option String

abbrev pub missing : Option String → Bool
missing none = true
missing (some s) = false

-- `HumanReasoningAttempt.validate_attempt_evidence`, at the end of every construction
unfoldable pub make_attempt : HumanReasoningAttempt → Result HumanReasoningAttempt
unfolding accepts
make_attempt a = do
  raise_if
      (accepts a.verification_status
        && (missing a.proposal_hash
            || missing a.obligation_id
            || eqb (length a.certificate_ids) 0
            || not (eqb (length a.conclusions) 1)
            || missing a.event_id
            || missing a.result_state_hash))
      (value_error "verified attempts require complete deduction evidence")
  ok a

pub data StalledReason : Type 0 where
  human_rules_exhausted max_steps_reached : StalledReason

pub record HumanSolveTrace : Type 0 where
  pub trace_id : String
  pub puzzle_revision_id : String
  pub policy : ReasoningPolicy
  pub status : HumanSolveStatus
  pub stalled_reason : Option StalledReason
  pub initial_state_hash : String
  pub final_state_hash : String
  pub attempts : List HumanReasoningAttempt
  pub events : List EventEnvelope
  pub trace_hash : String

write_policy : ReasoningPolicy → String
write_policy teaching_first = "teaching_first"
write_policy shortest_trace = "shortest_trace"
write_policy max_information_gain = "max_information_gain"
write_policy family_canonical = "family_canonical"

write_solve_status : HumanSolveStatus → String
write_solve_status HumanSolveStatus.solved = "solved"
write_solve_status stalled = "stalled"
write_solve_status HumanSolveStatus.inconclusive = "inconclusive"
write_solve_status HumanSolveStatus.quarantined = "quarantined"
write_solve_status limit_reached = "limit_reached"

write_authority : AuthorityStatus → String
write_authority AuthorityStatus.backend_verified = "backend_verified"
write_authority AuthorityStatus.cross_verified = "cross_verified"
write_authority AuthorityStatus.rejected = "rejected"
write_authority AuthorityStatus.inconclusive = "inconclusive"
write_authority AuthorityStatus.quarantined = "quarantined"

dump_stalled : Option StalledReason → Json
dump_stalled none = null
dump_stalled (some human_rules_exhausted) = text "HUMAN_RULES_EXHAUSTED"
dump_stalled (some max_steps_reached) = text "MAX_STEPS_REACHED"

-- `attempt.model_dump(mode="json")`
unfoldable pub dump_attempt : HumanReasoningAttempt → Json
unfolding dump_reference dump_atom write_authority
dump_attempt a = object_of (
    ("candidate_id", text a.candidate_id)
    ∷ ("source_state_hash", text a.source_state_hash)
    ∷ ("rule", dump_reference a.rule)
    ∷ ("premises", array_of (map dump_atom a.premises))
    ∷ ("conclusions", array_of (map dump_atom a.conclusions))
    ∷ ("supporting_constraints", texts a.supporting_constraints)
    ∷ ("proposal_hash", optional a.proposal_hash)
    ∷ ("obligation_id", optional a.obligation_id)
    ∷ ("verification_status", text (write_authority a.verification_status))
    ∷ ("certificate_ids", texts a.certificate_ids)
    ∷ ("reason", text a.reason)
    ∷ ("event_id", optional a.event_id)
    ∷ ("result_state_hash", optional a.result_state_hash)
    ∷ [])

-- `trace.model_dump(mode="json", exclude={"trace_hash"})`
unfoldable pub dump_trace : HumanSolveTrace → Json
unfolding dump_attempt dump_sealed write_policy write_solve_status dump_stalled
dump_trace t = object_of (
    ("trace_id", text t.trace_id)
    ∷ ("puzzle_revision_id", text t.puzzle_revision_id)
    ∷ ("policy", text (write_policy t.policy))
    ∷ ("status", text (write_solve_status t.status))
    ∷ ("stalled_reason", dump_stalled t.stalled_reason)
    ∷ ("initial_state_hash", text t.initial_state_hash)
    ∷ ("final_state_hash", text t.final_state_hash)
    ∷ ("attempts", array_of (map dump_attempt t.attempts))
    ∷ ("events", array_of (map dump_sealed t.events))
    ∷ [])

-- `HumanSolveContext.require_timezone`
unfoldable pub validate_context : HumanSolveContext → Result (Unit {0})
validate_context c =
    raise_if (not c.occurred_at.has_offset)
      (value_error "occurred_at must include a timezone offset")

abbrev pub is_exhausted : Option StalledReason → Bool
is_exhausted (some human_rules_exhausted) = true
is_exhausted _ = false

abbrev pub is_limited : Option StalledReason → Bool
is_limited (some max_steps_reached) = true
is_limited _ = false

abbrev pub no_reason : Option StalledReason → Bool
no_reason none = true
no_reason (some r) = false

-- The first part of `HumanSolveTrace.validate_trace`.
unfoldable pub check_reason : HumanSolveStatus → Option StalledReason → Result (Unit {0})
check_reason stalled r =
    raise_if (not (is_exhausted r)) (value_error "stalled traces require HUMAN_RULES_EXHAUSTED")
check_reason limit_reached r =
    raise_if (not (is_limited r)) (value_error "limited traces require MAX_STEPS_REACHED")
check_reason _ r =
    raise_if (not (no_reason r)) (value_error "non-stalled traces cannot carry a stalled reason")

module _ (P : Platform) where
  unfoldable pub compute_human_trace_hash : HumanSolveTrace → String
  compute_human_trace_hash t = canonical_sha256 P (dump_trace t)

  -- `HumanSolveTrace.validate_trace`
  unfoldable pub validate_trace : HumanSolveTrace → Result (Unit {0})
  unfolding check_reason
  validate_trace t = do
    check_reason t.status t.stalled_reason
    raise_if (not (t.trace_hash == compute_human_trace_hash t))
        (value_error "trace_hash does not match canonical trace contents")

  -- `_build_trace` of a trace whose digest is not set yet
  unfoldable pub build_trace : HumanSolveTrace → Result HumanSolveTrace
  build_trace unsigned = do
    let trace = record unsigned { trace_hash = compute_human_trace_hash unsigned }
    validate_trace trace
    ok trace
