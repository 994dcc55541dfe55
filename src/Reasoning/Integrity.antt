-- ===== src/Reasoning/Integrity.antt =====
-- src/deductra/reasoning/integrity.py: sealing events, and verifying a chain of them.
pub mod Chain
use deductra.Common.{
  ℕ, suc, String, Bool, true, false, not, Option, none, some, List, [], ◌∷◌, map, eqb,
  if◌then◌else◌, ◌==◌, string_eq, pair_eq, nat_eq, bool_eq, length, Result, ok, ◌>>◌,
}
use deductra.Canonical.{Platform, canonical_sha256}
use deductra.Domain.Puzzle.{Timestamp}
use deductra.Reasoning.Events.{
  ProducerRef, Payload, kind_of, EventEnvelope, validate_envelope, dump_event,
}

abbrev pub genesis_event_hash : String
genesis_event_hash = "0000000000000000000000000000000000000000000000000000000000000000"

pub record ChainVerification : Type 0 where
  pub total_count : ℕ
  pub first_invalid_sequence : Option ℕ
  pub reason : Option String
  pub untrusted_sequences : List ℕ

-- `ChainVerification.valid`
unfoldable pub valid : ChainVerification → Bool
valid v = elim v.first_invalid_sequence [ none ↦ true | some _ ↦ false ]

-- The keyword arguments of `seal_event`.
pub record EventDraft : Type 0 where
  pub event_id : String
  pub trace_id : String
  pub puzzle_revision_id : String
  pub branch_id : String
  pub sequence_no : ℕ
  pub schema_version : String
  pub occurred_at : Timestamp
  pub producer : ProducerRef
  pub correlation_id : String
  pub previous_event_hash : String
  pub payload : Payload
  pub attempt_id : Option String
  pub causation_id : Option String

-- `unsigned` in `seal_event`
unfoldable pub unsigned_event : EventDraft → EventEnvelope
unsigned_event d = record {
  event_id = d.event_id;
  trace_id = d.trace_id;
  attempt_id = d.attempt_id;
  puzzle_revision_id = d.puzzle_revision_id;
  branch_id = d.branch_id;
  sequence_no = d.sequence_no;
  event_type = kind_of d.payload;
  schema_version = d.schema_version;
  occurred_at = d.occurred_at;
  producer = d.producer;
  causation_id = d.causation_id;
  correlation_id = d.correlation_id;
  previous_event_hash = d.previous_event_hash;
  event_hash = genesis_event_hash;
  payload = d.payload;
}

module _ (P : Platform) where
  unfoldable pub compute_event_hash : EventEnvelope → String
  compute_event_hash e = canonical_sha256 P (dump_event e)

  unfoldable pub seal_event : EventDraft → Result EventEnvelope
  unfolding unsigned_event
  seal_event d = do
    let unsigned = unsigned_event d
    validate_envelope unsigned
    ok (record unsigned { event_hash = compute_event_hash unsigned })

  unfoldable pub verify_event : EventEnvelope → Bool
  verify_event e = e.event_hash == compute_event_hash e

  -- The test `x is not None and y != x`.
  abbrev pub differs : Option String → String → Bool
  differs none y = false
  differs (some x) y = not (y == x)

  -- The reason why one event is refused, if it is.
  pub failure : ℕ → String → Option String → Option String → EventEnvelope → Option String
  failure index expected trace revision e =
      if not (eqb e.sequence_no index)
      then some "non_contiguous_sequence"
      else if not (e.previous_event_hash == expected)
      then some "previous_hash_mismatch"
      else if not (verify_event e)
      then some "event_hash_mismatch"
      else if differs trace e.trace_id
      then some "trace_id_mismatch"
      else if differs revision e.puzzle_revision_id
      then some "puzzle_revision_mismatch"
      else none

  -- The `for` loop of `verify_chain`; `total` is `len(ordered)`.
  pub verify_from :
      ℕ → ℕ → String → Option String → Option String → List EventEnvelope → ChainVerification
  verify_from total index expected trace revision [] = record {
    total_count = total;
    first_invalid_sequence = none;
    reason = none;
    untrusted_sequences = [];
  }
  verify_from total index expected trace revision (e ∷ rest) =
      let next =
        verify_from total (suc index) e.event_hash (some e.trace_id) (some e.puzzle_revision_id)
          rest in
      elim (failure index expected trace revision e) [
        | some reason ↦ record {
          total_count = total;
          first_invalid_sequence = some e.sequence_no;
          reason = some reason;
          untrusted_sequences = map (λ (x : EventEnvelope). x.sequence_no) (e ∷ rest);
        }
        | none ↦ next
      ]

  unfoldable pub verify_chain : List EventEnvelope → ChainVerification
  unfolding failure verify_from
  verify_chain events = verify_from (length events) 0 genesis_event_hash none none events
