-- ===== src/Verification/Coordinator.antt =====
-- src/deductra/verification/coordinator.py: the decision of several backends, and the event that
-- an accepted decision lets through.
pub mod Decisions
pub mod Application
use deductra.Common.{
  String, not, Option, none, some, List, [], ◌∷◌, map, eqb, if◌then◌else◌, Eq, ◌==◌, string_eq,
  pair_eq, nat_eq, bool_eq, length, contains, subset, same_set, unique, value_error,
  verification_rejected, Result, err, ok, raise_if, ◌>>=◌, ◌>>◌,
}
use deductra.Common.Int.{ℤ, pos, leb_ℤ}
use deductra.Canonical.{Platform}
use deductra.Domain.Atoms.{Atom, assignment, exclusion, atom_dec, atom_eq}
use deductra.Domain.Puzzle.{PuzzleSpec}
use deductra.Reasoning.Events.{Payload, candidates_eliminated, value_assigned, EventEnvelope}
use deductra.Reasoning.State.{PuzzleState}
use deductra.Reasoning.Reducer.{reduce_state}
use deductra.Verification.Contracts.{
  VerificationStatus, backend_verified, cross_verified, rejected, inconclusive, quarantined,
  claim_eq, ProofObligation, Verdict, sat, unsat, unknown, invalid, verdict_eq,
  VerificationCertificate, VerificationDecision, verdicts, accepted, make_decision,
}

-- The port `VerificationBackend`: the solvers behind it are not part of the model.
pub record Backend : Type 0 where
  pub backend_id : String
  pub answer : PuzzleSpec → PuzzleState → ProofObligation → ℤ → Result VerificationCertificate

abbrev pub identifiers : List Backend → List String
identifiers = map (λ b. b.backend_id)

-- `CrossVerificationCoordinator.__init__`
unfoldable pub coordinator : List Backend → Result (List Backend)
coordinator backends = do
  raise_if (eqb (length backends) 0) (value_error "at least one verification backend is required")
  raise_if (not (unique (identifiers backends)))
      (value_error "verification backend identifiers must be unique")
  ok backends

-- The certificates of all backends, in their order.
unfoldable pub collect :
    PuzzleSpec
    → PuzzleState
    → ProofObligation
    → ℤ
    → List Backend
    → Result (List VerificationCertificate)
collect puzzle state o timeout [] = ok []
collect puzzle state o timeout (b ∷ bs) = do
  c ← b.answer puzzle state o timeout
  cs ← collect puzzle state o timeout bs
  ok (c ∷ cs)

-- The chain of `if` in `verify`.
unfoldable pub classify : List Verdict → VerificationStatus × String
classify found =
    if subset (sat ∷ unsat ∷ []) found
    then (quarantined, "independent backends disagree on satisfiability")
    else if contains found invalid
    then (rejected, "at least one backend rejected the encoding")
    else if contains found unknown
    then (inconclusive, "at least one backend returned unknown or timed out")
    else if same_set found (unsat ∷ [])
    then (
      if eqb (length found) 1 then backend_verified else cross_verified,
      "the negated claim is unsatisfiable",
    )
    else (rejected, "the negated claim is satisfiable")

-- The decision that `verify` builds of the certificates.
abbrev pub decision_of : ProofObligation → List VerificationCertificate → VerificationDecision
decision_of o certificates =
    let (status, reason) = classify (verdicts certificates) in
    record {
      obligation_id = o.obligation_id;
      status = status;
      certificates = certificates;
      reason = reason;
    }

-- `CrossVerificationCoordinator.verify`
unfoldable pub cross_verify :
    List Backend → PuzzleSpec → PuzzleState → ProofObligation → ℤ → Result VerificationDecision
cross_verify backends puzzle state o timeout = do
  raise_if (leb_ℤ timeout (pos 0)) (value_error "timeout_ms must be positive")
  certificates ← collect puzzle state o timeout backends
  make_decision (decision_of o certificates)

-- The conclusion that a payload stands for.
unfoldable pub conclusion_of : Payload → Option Atom
conclusion_of (value_assigned p) = some (assignment p.variable_id p.value_id)
conclusion_of (candidates_eliminated p) = elim p.value_ids [
  | [] ↦ none
  | x ∷ xs ↦ if eqb (length xs) 0 then some (exclusion p.variable_id x) else none
]
conclusion_of _ = none

abbrev pub first_of {ℓ} : {A : Type ℓ} → List A → Option A
first_of [] = none
first_of (x ∷ xs) = some x

instance abbrev pub optional_atom_eq : Eq (Option Atom)
optional_atom_eq = record { dec = hlevel atom_dec }

module _ (P : Platform) where
  unfoldable pub apply_verified_event :
      PuzzleState → EventEnvelope → ProofObligation → VerificationDecision → Result PuzzleState
  unfolding conclusion_of
  apply_verified_event previous event o d = do
    raise_if (not (accepted d))
        (verification_rejected "verification decision does not authorize reduction")
    raise_if (not (d.obligation_id == o.obligation_id))
        (verification_rejected "decision and obligation identifiers do not match")
    raise_if (not (o.source_state_hash == previous.state_hash))
        (verification_rejected "obligation source state is stale")
    raise_if (not (eqb (length o.claimed_conclusions) 1))
        (verification_rejected "verified reduction requires one conclusion")
    elim (conclusion_of event.payload) [
      | none ↦ err (verification_rejected "event is outside the CR-004 verified reducer boundary")
      | some expected ↦ do
        raise_if (not (first_of o.claimed_conclusions == some expected))
            (verification_rejected "event conclusion does not match the proof obligation")
        reduce_state P previous event
    ]
