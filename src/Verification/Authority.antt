-- ===== src/Verification/Authority.antt =====
-- src/deductra/verification/rule_authority.py: the authority that proves a deduction with several
-- backends and reduces the state by its event.
use deductra.Common.{
  ◌<>◌, ◌≡◌, sym, ap, ◌∙◌, inl, inr, true, Option, none, some, List, [], ◌∷◌, map, arith,
  if◌then◌else◌, Option-cases, All, sort_texts, value_error, index_error, Result, err, ok, ◌>>=◌,
  ◌>>◌, >>=-eq-ok, ok-injective, Result-cases,
}
use deductra.Common.Int.{ℤ}
use deductra.Canonical.{text, Platform, object_of, canonical_sha256}
use deductra.Domain.Atoms.{Atom}
use deductra.Domain.Puzzle.{PuzzleSpec}
use deductra.Reasoning.Events.{EventEnvelope}
use deductra.Reasoning.State.{PuzzleState}
use deductra.Reasoning.Engine.Loop.Derivation.{Reduces}
use deductra.Reasoning.Reducer.{reduce_state}
use deductra.Reasoning.Rules.{ProposedDeduction, dump_proposal}
use deductra.Reasoning.Engine.{AuthorityStatus, AuthorityResult, validate_authority}
use deductra.Verification.Contracts.{
  VerificationStatus, NegatedClaim, ProofObligation, negation_of, unsat, VerificationCertificate,
  VerificationDecision, verdicts, accepted, make_obligation,
}
use deductra.Verification.Coordinator.{
  Backend, coordinator, cross_verify, conclusion_of, first_of, apply_verified_event,
}
use deductra.Verification.Coordinator.Decisions.{Answers, cross_verify-accepted}

-- `DeductionAuthorityStatus(decision.status.value)`
unfoldable pub authority_status : VerificationStatus → Result AuthorityStatus
authority_status VerificationStatus.backend_verified = ok AuthorityStatus.backend_verified
authority_status VerificationStatus.cross_verified = ok AuthorityStatus.cross_verified
authority_status VerificationStatus.rejected = ok AuthorityStatus.rejected
authority_status VerificationStatus.inconclusive = ok AuthorityStatus.inconclusive
authority_status VerificationStatus.quarantined = ok AuthorityStatus.quarantined
authority_status _ = err (value_error "the status is not a valid DeductionAuthorityStatus")

-- `proposal.conclusions[0]`, where a validated proposal has one
abbrev pub first_conclusion : ProposedDeduction → Result (Atom × NegatedClaim)
first_conclusion p = elim (first_of p.conclusions) [
  | some a ↦ elim (negation_of a) [
    | some n ↦ ok (a, n)
    | none ↦ err (value_error "verified rule authority supports assignment and exclusion only")
  ]
  | none ↦ err index_error
]

unfoldable pub make_authority_result : AuthorityResult → Result AuthorityResult
make_authority_result r = do validate_authority r; ok r

abbrev pub answer_of :
    ProofObligation → VerificationDecision → Option PuzzleState → AuthorityStatus → AuthorityResult
answer_of o decision result_state status = record {
  status = status;
  obligation_id = some o.obligation_id;
  certificate_ids = sort_texts (map (λ c. c.certificate_id) decision.certificates);
  reason = decision.reason;
  result_state = result_state;
}

make_authority_result-eq-ok : (r a : AuthorityResult) → make_authority_result r ≡ ok a → a ≡ r
unfolding make_authority_result
make_authority_result-eq-ok r a h =
    let (x, checked, same) = >>=-eq-ok (validate_authority r) (λ _. ok r) h in
    sym (ok-injective same)

module _ (P : Platform) where
  -- The obligation that `evaluate` builds.
  unfoldable pub obligation_for : PuzzleSpec → ProposedDeduction → Result ProofObligation
  obligation_for puzzle proposal = do
    (conclusion, negated) ← first_conclusion proposal
    let digest = canonical_sha256 P (
        object_of (
          ("candidate_id", text proposal.candidate_id)
          ∷ ("proposal", dump_proposal proposal)
          ∷ ("source_state_hash", text proposal.source_state_hash)
          ∷ []))
    make_obligation P (record {
      obligation_id = "deductra:obligation:" <> digest;
      puzzle_revision_id = puzzle.identity.revision_id;
      source_state_hash = proposal.source_state_hash;
      assumptions = proposal.premises;
      claimed_conclusions = conclusion ∷ [];
      negated_claim = negated;
      encoding_version = "1.0.0";
    })

  -- `apply_verified_event(…) if decision.accepted else None`
  unfoldable pub apply_if_accepted :
      PuzzleState
      → EventEnvelope
      → ProofObligation
      → VerificationDecision
      → Result (Option PuzzleState)
  apply_if_accepted state event o decision =
      if accepted decision
      then (apply_verified_event P state event o decision >>= λ s. ok (some s))
      else ok none

  -- `VerifiedRuleAuthority.evaluate`
  unfoldable pub evaluate :
      List Backend
      → PuzzleSpec
      → PuzzleState
      → ProposedDeduction
      → EventEnvelope
      → ℤ
      → Result AuthorityResult
  evaluate backends puzzle state proposal event timeout = do
    o ← obligation_for puzzle proposal
    decision ← cross_verify backends puzzle state o timeout
    result_state ← apply_if_accepted state event o decision
    status ← authority_status decision.status
    make_authority_result (answer_of o decision result_state status)

  reduces_if_applied :
      (s : PuzzleState) (e : EventEnvelope) (o : ProofObligation) (d : VerificationDecision)
      (t : PuzzleState)
      → apply_if_accepted s e o d ≡ ok (some t)
      → (accepted d ≡ true) × (apply_verified_event P s e o d ≡ ok t)
  unfolding apply_if_accepted
  reduces_if_applied s e o d t h = elim (Result-cases (apply_verified_event P s e o d)) [
    | inl (u, applied) ↦ ground arith
    | inr (x, failed) ↦ ground arith
  ]

  reduces_once_applied :
      (s : PuzzleState) (e : EventEnvelope) (o : ProofObligation) (d : VerificationDecision)
      (t : PuzzleState)
      → apply_verified_event P s e o d ≡ ok t
      → reduce_state P s e ≡ ok t
  unfolding apply_verified_event
  reduces_once_applied s e o d t h = elim (Option-cases (conclusion_of e.payload)) [
    | inl none_claimed ↦ absurd (ground arith)
    | inr (a, concludes) ↦ ground arith
  ]

  module _ (bs : List Backend) (puzzle : PuzzleSpec) (s : PuzzleState)
      (proposal : ProposedDeduction) (e : EventEnvelope) (timeout : ℤ) (answer : AuthorityResult)
      (t : PuzzleState) (answered : evaluate bs puzzle s proposal e timeout ≡ ok answer)
      (result : answer.result_state ≡ some t) where
    -- What an accepted answer went through.
    evaluate-parts :
        (o : ProofObligation) × (d : VerificationDecision) × (obligation_for puzzle proposal ≡ ok o)
        × (cross_verify bs puzzle s o timeout ≡ ok d)
        × (accepted d ≡ true)
        × (apply_verified_event P s e o d ≡ ok t)
    unfolding evaluate
    evaluate-parts = elim (Result-cases (obligation_for puzzle proposal)) [
      | inr (x, failed) ↦ absurd (ground arith)
      | inl (o, obliged) ↦ elim (Result-cases (cross_verify bs puzzle s o timeout)) [
        | inr (x, failed) ↦ absurd (ground arith)
        | inl (d, decided) ↦ elim (Result-cases (apply_if_accepted s e o d)) [
          | inr (x, failed) ↦ absurd (ground arith)
          | inl (r, applied) ↦ elim (Result-cases (authority_status d.status)) [
            | inr (x, failed) ↦ absurd (ground arith)
            | inl (status, named) ↦
                let made : make_authority_result (answer_of o d r status) ≡ ok answer =
                  ground arith in
                let same : r ≡ some t =
                  sym (
                    ap (λ (x : AuthorityResult). x.result_state)
                      (make_authority_result-eq-ok _ answer made))
                  ∙ result in
                let (yes_accepted, reduced) = reduces_if_applied s e o d t (applied ∙ ap ok same) in
                (o, d, obliged, decided, yes_accepted, reduced)
          ]
        ]
      ]
    ]

    -- A state that the authority answers with was proved: for the obligation that the proposal
    -- stands for, every backend answered "unsat", and the state is the reducer's.
    pub evaluate-proved :
        (offered : List Backend)
        → coordinator offered ≡ ok bs
        → (o : ProofObligation) × (cs : List VerificationCertificate) × (obligation_for puzzle
              proposal
            ≡ ok o)
          × Answers puzzle s o timeout bs cs
          × All (λ v. v ≡ unsat) (verdicts cs)
          × (reduce_state P s e ≡ ok t)
    evaluate-proved offered made =
        let (o, d, obliged, decided, yes_accepted, applied) = evaluate-parts in
        let (answers, iff, _, _) =
          cross_verify-accepted puzzle s o timeout offered bs d made decided in
        (
          o,
          d.certificates,
          obliged,
          answers,
          iff.0 yes_accepted,
          reduces_once_applied s e o d t applied,
        )

    evaluate-reduces : reduce_state P s e ≡ ok t
    evaluate-reduces =
        let (o, d, obliged, decided, yes_accepted, applied) = evaluate-parts in
        reduces_once_applied s e o d t applied

-- The authority answers with states of the reducer alone, as the engine asks of its port.
pub evaluate-Reduces : (P : Platform) (bs : List Backend) → Reduces P (evaluate P bs)
evaluate-Reduces P bs puzzle s proposal e timeout answer t answered result =
    evaluate-reduces P bs puzzle s proposal e timeout answer t answered result
