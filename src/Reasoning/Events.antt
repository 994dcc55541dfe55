-- ===== src/Reasoning/Events.antt =====
-- src/deductra/reasoning/events.py: the payloads and the envelope of a reasoning event, and their
-- JSON form as pydantic's `model_dump(mode="json")` gives it.
use deductra.Common.{
  ℕ, String, not, Option, List, [], ◌∷◌, eqb, ◌==◌, string_eq, pair_eq, nat_eq, bool_eq, length,
  unique, value_error, Result, raise_if, ◌>>◌,
}
use deductra.Canonical.{Json, text, object_of, texts, number, optional}
use deductra.Domain.Atoms.{Atom, atom_eq, dump_atom}
use deductra.Domain.Puzzle.{Timestamp}

pub data Origin : Type 0 where
  given human_rule assumption search system : Origin

pub data ProducerKind : Type 0 where
  system_producer human rule_engine solver tool agent_producer : ProducerKind

pub record ProducerRef : Type 0 where
  pub producer_id : String
  pub kind : ProducerKind
  pub version : String
  pub metadata : Json

pub record CandidatesEliminated : Type 0 where
  pub variable_id : String
  pub value_ids : List String
  pub source_state_hash : String
  pub result_state_id : String
  pub origin : Origin
  pub metadata : Json

pub record ValueAssigned : Type 0 where
  pub variable_id : String
  pub value_id : String
  pub source_state_hash : String
  pub result_state_id : String
  pub origin : Origin
  pub metadata : Json

-- The methods of an opening event.
pub data Method : Type 0 where
  assumption search demonstration : Method

pub record BranchOpened : Type 0 where
  pub parent_branch_id : String
  pub opened_from_state_hash : String
  pub assumption : Atom
  pub method : Method
  pub result_state_id : String
  pub metadata : Json

pub record ContradictionDetected : Type 0 where
  pub contradiction_id : String
  pub source_state_hash : String
  pub result_state_id : String
  pub category : String
  pub metadata : Json

-- The statuses of a closing event.
pub data Ending : Type 0 where
  contradicted solved abandoned : Ending

pub record BranchClosed : Type 0 where
  pub source_state_hash : String
  pub status : Ending
  pub metadata : Json

pub data Payload : Type 0 where
  -- the hash of the puzzle specification, and the metadata
  trace_started : String → Json → Payload
  puzzle_validated : String → Json → Payload
  -- the state hash, and the metadata
  initial_state_created : String → Json → Payload
  trace_completed : String → Json → Payload
  -- the error code, the message, and the metadata
  trace_failed : String → String → Json → Payload
  candidates_eliminated : CandidatesEliminated → Payload
  value_assigned : ValueAssigned → Payload
  branch_opened : BranchOpened → Payload
  contradiction_detected : ContradictionDetected → Payload
  branch_closed : BranchClosed → Payload

-- `payload.kind`
unfoldable pub kind_of : Payload → String
kind_of (trace_started _ _) = "trace_started"
kind_of (puzzle_validated _ _) = "puzzle_validated"
kind_of (initial_state_created _ _) = "initial_state_created"
kind_of (trace_completed _ _) = "trace_completed"
kind_of (trace_failed _ _ _) = "trace_failed"
kind_of (candidates_eliminated _) = "candidates_eliminated"
kind_of (value_assigned _) = "value_assigned"
kind_of (branch_opened _) = "branch_opened"
kind_of (contradiction_detected _) = "contradiction_detected"
kind_of (branch_closed _) = "branch_closed"

-- `CandidatesEliminated.validate_candidates`
unfoldable pub validate_candidates : CandidatesEliminated → Result (Unit {0})
validate_candidates p = do
  raise_if (eqb (length p.value_ids) 0)
      (value_error "candidate elimination must contain at least one value")
  raise_if (not (unique p.value_ids)) (value_error "candidate elimination values must be unique")

pub record EventEnvelope : Type 0 where
  pub event_id : String
  pub trace_id : String
  pub attempt_id : Option String
  pub puzzle_revision_id : String
  pub branch_id : String
  pub sequence_no : ℕ
  pub event_type : String
  pub schema_version : String
  pub occurred_at : Timestamp
  pub producer : ProducerRef
  pub causation_id : Option String
  pub correlation_id : String
  pub previous_event_hash : String
  pub event_hash : String
  pub payload : Payload

-- `EventEnvelope.validate_envelope_contract`
unfoldable pub validate_envelope : EventEnvelope → Result (Unit {0})
validate_envelope e = do
  raise_if (not e.occurred_at.has_offset) (value_error "occurred_at must include a timezone offset")
  raise_if (not (e.event_type == kind_of e.payload))
      (value_error "event_type must match payload.kind")

write_origin : Origin → Json
write_origin Origin.given = text "given"
write_origin Origin.human_rule = text "human_rule"
write_origin Origin.assumption = text "assumption"
write_origin Origin.search = text "search"
write_origin Origin.system = text "system"

write_producer_kind : ProducerKind → Json
write_producer_kind system_producer = text "system"
write_producer_kind human = text "human"
write_producer_kind rule_engine = text "rule_engine"
write_producer_kind solver = text "solver"
write_producer_kind tool = text "tool"
write_producer_kind agent_producer = text "agent"

write_method : Method → Json
write_method Method.assumption = text "assumption"
write_method Method.search = text "search"
write_method Method.demonstration = text "demonstration"

write_status : Ending → Json
write_status contradicted = text "contradicted"
write_status solved = text "solved"
write_status abandoned = text "abandoned"

-- The fields of a payload beside its metadata.
payload_fields : Payload → List (String × Json)
payload_fields (trace_started h _) = ("puzzle_spec_hash", text h) ∷ []
payload_fields (puzzle_validated h _) = ("puzzle_spec_hash", text h) ∷ []
payload_fields (initial_state_created h _) = ("state_hash", text h) ∷ []
payload_fields (trace_completed h _) = ("final_state_hash", text h) ∷ []
payload_fields (trace_failed c m _) = ("error_code", text c) ∷ ("message", text m) ∷ []
payload_fields (candidates_eliminated p) =
    ("variable_id", text p.variable_id)
    ∷ ("value_ids", texts p.value_ids)
    ∷ ("source_state_hash", text p.source_state_hash)
    ∷ ("result_state_id", text p.result_state_id)
    ∷ ("origin", write_origin p.origin)
    ∷ []
payload_fields (value_assigned p) =
    ("variable_id", text p.variable_id)
    ∷ ("value_id", text p.value_id)
    ∷ ("source_state_hash", text p.source_state_hash)
    ∷ ("result_state_id", text p.result_state_id)
    ∷ ("origin", write_origin p.origin)
    ∷ []
payload_fields (branch_opened p) =
    ("parent_branch_id", text p.parent_branch_id)
    ∷ ("opened_from_state_hash", text p.opened_from_state_hash)
    ∷ ("assumption", dump_atom p.assumption)
    ∷ ("method", write_method p.method)
    ∷ ("result_state_id", text p.result_state_id)
    ∷ []
payload_fields (contradiction_detected p) =
    ("contradiction_id", text p.contradiction_id)
    ∷ ("source_state_hash", text p.source_state_hash)
    ∷ ("result_state_id", text p.result_state_id)
    ∷ ("category", text p.category)
    ∷ []
payload_fields (branch_closed p) =
    ("source_state_hash", text p.source_state_hash) ∷ ("status", write_status p.status) ∷ []

payload_metadata : Payload → Json
payload_metadata (trace_started _ m) = m
payload_metadata (puzzle_validated _ m) = m
payload_metadata (initial_state_created _ m) = m
payload_metadata (trace_completed _ m) = m
payload_metadata (trace_failed _ _ m) = m
payload_metadata (candidates_eliminated p) = p.metadata
payload_metadata (value_assigned p) = p.metadata
payload_metadata (branch_opened p) = p.metadata
payload_metadata (contradiction_detected p) = p.metadata
payload_metadata (branch_closed p) = p.metadata

unfoldable pub dump_payload : Payload → Json
unfolding kind_of payload_fields payload_metadata dump_atom write_origin write_method write_status
dump_payload p =
    object_of (("metadata", payload_metadata p) ∷ ("kind", text (kind_of p)) ∷ payload_fields p)

dump_producer : ProducerRef → Json
unfolding write_producer_kind
dump_producer p = object_of (
    ("metadata", p.metadata)
    ∷ ("producer_id", text p.producer_id)
    ∷ ("kind", write_producer_kind p.kind)
    ∷ ("version", text p.version)
    ∷ [])

envelope_fields : EventEnvelope → List (String × Json)
unfolding dump_payload dump_producer
envelope_fields e =
    ("event_id", text e.event_id)
    ∷ ("trace_id", text e.trace_id)
    ∷ ("attempt_id", optional e.attempt_id)
    ∷ ("puzzle_revision_id", text e.puzzle_revision_id)
    ∷ ("branch_id", text e.branch_id)
    ∷ ("sequence_no", number e.sequence_no)
    ∷ ("event_type", text e.event_type)
    ∷ ("schema_version", text e.schema_version)
    ∷ ("occurred_at", text e.occurred_at.iso)
    ∷ ("producer", dump_producer e.producer)
    ∷ ("causation_id", optional e.causation_id)
    ∷ ("correlation_id", text e.correlation_id)
    ∷ ("previous_event_hash", text e.previous_event_hash)
    ∷ ("payload", dump_payload e.payload)
    ∷ []

-- `event.model_dump(mode="json", exclude={"event_hash"})`
unfoldable pub dump_event : EventEnvelope → Json
unfolding envelope_fields
dump_event e = object_of (envelope_fields e)

-- `event.model_dump(mode="json")`
unfoldable pub dump_sealed : EventEnvelope → Json
unfolding envelope_fields
dump_sealed e = object_of (("event_hash", text e.event_hash) ∷ envelope_fields e)
