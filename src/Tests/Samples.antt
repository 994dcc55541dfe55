-- ===== src/Tests/Samples.antt =====
-- A platform, events and states for the tests.
use deductra.Common.{
  ℕ, String, ◌≡◌, refl, Bool, true, false, none, List, [], ◌∷◌, arith, string_dec, string_eq,
  pair_eq, nat_eq, bool_eq, contains, to_set, unique, Result, err, ok,
}
use deductra.Common.Dict.{Dict, lookup}
use deductra.Canonical.{Json, object, end, Platform}
use deductra.Domain.Atoms.{atom_eq}
use deductra.Domain.Puzzle.{Timestamp}
use deductra.Reasoning.Events.{rule_engine, ProducerRef, Payload, EventEnvelope}
use deductra.Reasoning.Integrity.{EventDraft, unsigned_event, compute_event_hash}
use deductra.Reasoning.State.{PuzzleState, StateFields}
use deductra.Reasoning.State.Build.{signed}
use deductra.Reasoning.State.Initial.{assert_singletons}
use deductra.Reasoning.State.Invariant.{IsBorneOut, IsConsistent, signed-IsConsistent}

-- The texts are normalized already, and a text is its own digest.
abbrev pub platform : Platform
platform = record { nfc = λ s. s; sha256 = λ s. s; casefold = λ s. s }

abbrev pub none_metadata : Json
none_metadata = object end

abbrev pub noon : Timestamp
noon = record { iso = "2026-07-18T12:00:00Z"; has_offset = true }

abbrev pub engine : ProducerRef
engine = record {
  producer_id = "engine";
  kind = rule_engine;
  version = "1.0.0";
  metadata = none_metadata;
}

abbrev pub draft : ℕ → String → String → Payload → EventDraft
draft n branch previous payload = record {
  event_id = "event";
  trace_id = "trace";
  puzzle_revision_id = "revision";
  branch_id = branch;
  sequence_no = n;
  schema_version = "1.0.0";
  occurred_at = noon;
  producer = engine;
  correlation_id = "correlation";
  previous_event_hash = previous;
  payload = payload;
  attempt_id = none;
  causation_id = none;
}

-- The event that `seal_event` makes of a draft.
abbrev pub sealed : EventDraft → EventEnvelope
sealed d =
    let unsigned = unsigned_event d in
    record unsigned { event_hash = compute_event_hash platform unsigned }

-- Two variables: "a" has three candidates, "b" has one.
abbrev pub candidates : Dict (List String)
candidates = ("a", "1" ∷ "2" ∷ "3" ∷ []) ∷ ("b", "1" ∷ []) ∷ []

abbrev pub given_fields : StateFields
given_fields = record {
  state_id = "genesis";
  puzzle_revision_id = "revision";
  sequence_no = 0;
  branch_id = "root";
  candidate_domains = candidates;
  asserted_atoms = assert_singletons [] candidates;
  rejected_atoms = [];
  active_constraint_ids = [];
  contradiction_ids = [];
}

abbrev pub genesis : PuzzleState
genesis = signed platform given_fields

candidates-IsBorneOut : IsBorneOut [] candidates
unfolding contains lookup
candidates-IsBorneOut = record {
  candidates =
      unfold string_dec in ((refl, (refl, tt)), ((refl, (refl, (refl, tt))), ((refl, tt), tt)));
  some_variable = refl;
  inhabited = λ v xs e. ground arith;
  assigned = λ v x h. cc;
  excluded = λ v x xs h e. cc;
}

pub genesis-IsConsistent : IsConsistent platform genesis
genesis-IsConsistent =
    signed-IsConsistent platform given_fields [] candidates-IsBorneOut refl refl
      (unfold unique to_set in refl)

-- One digest for every text: the runs below compare no two digests that have to differ.
abbrev pub flat : Platform
flat = record { nfc = λ s. s; sha256 = λ s. "digest"; casefold = λ s. s }

abbrev pub flat_genesis : PuzzleState
flat_genesis = signed flat given_fields

pub flat_genesis-IsConsistent : IsConsistent flat flat_genesis
flat_genesis-IsConsistent =
    signed-IsConsistent flat given_fields [] candidates-IsBorneOut refl refl
      (unfold unique to_set in refl)

abbrev pub is_ok {ℓ} : {A : Type ℓ} → Result A → Bool
is_ok (ok a) = true
is_ok (err e) = false

-- The value of a run that succeeds.
unfoldable pub value_of_ok {ℓ} : {A : Type ℓ} (r : Result A) → is_ok r ≡ true → (a : A) × (r ≡ ok a)
value_of_ok (ok a) h = (a, refl)
value_of_ok (err e) h = absurd (ground arith)
