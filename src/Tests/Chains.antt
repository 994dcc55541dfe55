-- ===== src/Tests/Chains.antt =====
-- Chains of sealed events.
use deductra.Common.{◌≡◌, refl, ◌↔◌, true, false, [], ◌∷◌, string_dec, text_le, ok}
use deductra.Canonical.{object_of, texts, number, canonical_json, canonical_sha256}
use deductra.Reasoning.Events.{
  trace_started, puzzle_validated, trace_completed, kind_of, EventEnvelope, validate_envelope,
  dump_event,
}
use deductra.Reasoning.Integrity.{
  genesis_event_hash, valid, EventDraft, unsigned_event, compute_event_hash, seal_event,
  verify_event, verify_chain,
}
use deductra.Reasoning.Integrity.Chain.{
  IsChain, last, verify_chain-IsChain, StopsAt, verify_chain-StopsAt, seal_event-IsChain,
}
use deductra.Tests.Samples.{platform, none_metadata, draft, sealed}

program : Unit {0}
unfolding verify_chain verify_event valid seal_event compute_event_hash dump_event canonical_sha256
    canonical_json string_dec unsigned_event validate_envelope kind_of text_le
program = tt

abbrev first : EventEnvelope
first = sealed (draft 0 "root" genesis_event_hash (trace_started "hash" none_metadata))

abbrev second : EventEnvelope
second = sealed (draft 1 "root" first.event_hash (puzzle_validated "hash" none_metadata))

-- The second event with another payload under the old digest.
abbrev tampered : EventEnvelope
tampered = record second { payload = puzzle_validated "other" none_metadata }

canonical_event :
    canonical_json platform (object_of (("b", number 12) ∷ ("a", texts ("x\n" ∷ "y" ∷ [])) ∷ []))
    ≡ "{\"a\":[\"x\\n\",\"y\"],\"b\":12}"
unfolding canonical_json text_le string_dec
canonical_event = refl

accepted : valid (verify_chain platform (first ∷ second ∷ [])) ≡ true
unfolding program
accepted = refl

refused : valid (verify_chain platform (first ∷ tampered ∷ [])) ≡ false
unfolding program
refused = refl

verify_chain-IsChain_example :
    (valid (verify_chain platform (first ∷ second ∷ [])) ≡ true)
    ↔ IsChain platform (first ∷ second ∷ [])
verify_chain-IsChain_example = verify_chain-IsChain platform (first ∷ second ∷ [])

verify_chain-StopsAt_example :
    StopsAt
      (IsChain platform)
      (first ∷ tampered ∷ [])
      (verify_chain platform (first ∷ tampered ∷ []))
verify_chain-StopsAt_example = verify_chain-StopsAt platform (first ∷ tampered ∷ []) refused

abbrev third : EventDraft
third = draft 2 "root" second.event_hash (trace_completed "final" none_metadata)

third-sealed : seal_event platform third ≡ ok (sealed third)
unfolding program
third-sealed = refl

seal_event-IsChain_example :
    IsChain platform (first ∷ second ∷ sealed third ∷ [])
    × ((sealed third).payload ≡ third.payload)
    × ((sealed third).event_type ≡ kind_of third.payload)
unfolding last unsigned_event
seal_event-IsChain_example =
    seal_event-IsChain platform first (second ∷ []) third (sealed third)
      ((verify_chain-IsChain platform (first ∷ second ∷ [])).0 accepted) refl refl refl refl
      third-sealed
