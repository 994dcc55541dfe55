-- ===== src/Verification/Coordinator/Decisions.antt =====
-- What an accepted decision means.
use mathlib.Core.Path.{subst}
use deductra.Common.{
  suc, ◌<◌, ◌≡◌, refl, sym, ◌∙◌, ◌↔◌, inl, inr, true, false, not, List, [], ◌∷◌, arith, ◌==◌,
  string_eq, pair_eq, nat_eq, bool_eq, length, any, All, contains, Has, subset, same_set, unique,
  subset_mem, subset_of, ok, >>=-eq-ok, ok-injective, Result-cases,
}
use deductra.Common.Int.{ℤ, pos, leb_ℤ}
use deductra.Domain.Atoms.{atom_eq}
use deductra.Domain.Puzzle.{PuzzleSpec}
use deductra.Reasoning.State.{PuzzleState}
use deductra.Verification.Contracts.{
  claim_eq, ProofObligation, Verdict, sat, unsat, unknown, invalid, verdict_eq,
  VerificationCertificate, VerificationDecision, verdicts, backend_ids, verified, is_quarantined,
  accepted, validate_decision, make_decision,
}
use deductra.Verification.Coordinator.{
  Backend, identifiers, coordinator, collect, classify, decision_of, cross_verify, optional_atom_eq,
}

subset-only : (vs : List Verdict) → (subset vs (unsat ∷ []) ≡ true) ↔ All (λ v. v ≡ unsat) vs
unfolding subset contains
subset-only [] = (λ _. tt, λ _. refl)
subset-only (v ∷ vs) = ground (arith, subset-only vs)

contains-only :
    (v : Verdict) (vs : List Verdict) → All (λ v. v ≡ unsat) vs → contains vs v ≡ true → v ≡ unsat
unfolding contains
contains-only v [] a h = cc
contains-only v (w ∷ vs) a h = ground (arith, contains-only v vs a.1)

contains-some :
    (vs : List Verdict) → All (λ v. v ≡ unsat) vs → 0 < length vs → contains vs unsat ≡ true
unfolding contains
contains-some [] a h = absurd (omega (arith, h))
contains-some (v ∷ vs) a h = ground (arith, a.0)

other_verdicts :
    (vs : List Verdict)
    → All (λ v. v ≡ unsat) vs
    → (contains vs sat ≡ false) × (contains vs invalid ≡ false) × (contains vs unknown ≡ false)
other_verdicts vs a = (
  ground (arith, contains-only sat vs a),
  ground (arith, contains-only invalid vs a),
  ground (arith, contains-only unknown vs a),
)

pub verified-classify :
    (vs : List Verdict)
    → 0 < length vs
    → (verified (classify vs).0 ≡ true) ↔ All (λ v. v ≡ unsat) vs
unfolding classify verified subset contains
verified-classify vs h = (
  λ v. (subset-only vs).0 (ground arith),
  λ a. ground (arith, (subset-only vs).1 a, contains-some vs a h, other_verdicts vs a),
)

pub quarantined-classify :
    (vs : List Verdict) → (is_quarantined (classify vs).0 ≡ true) ↔ (Has vs sat × Has vs unsat)
unfolding classify subset contains
quarantined-classify vs = ground arith

subset_by :
    (vs ws xs : List Verdict)
    → ((v : Verdict) → contains vs v ≡ contains ws v)
    → subset vs xs ≡ true
    → subset ws xs ≡ true
subset_by vs ws xs same h = subset_of ws xs (λ v m. subset_mem v vs xs h (same v ∙ m))

-- The classification does not depend on the order in which the backends answer.
pub classify_order :
    (vs ws : List Verdict)
    → length vs ≡ length ws
    → ((v : Verdict) → contains vs v ≡ contains ws v)
    → classify vs ≡ classify ws
unfolding classify subset
classify_order vs ws l same =
    let more : subset vs (unsat ∷ []) ≡ subset ws (unsat ∷ []) = ground (
      arith,
      subset_by vs ws (unsat ∷ []) same,
      subset_by ws vs (unsat ∷ []) (λ v. sym (same v)),
    ) in
    rw (l, more, same sat, same unsat, same invalid, same unknown) refl

length-verdicts : (cs : List VerificationCertificate) → length (verdicts cs) ≡ length cs
length-verdicts [] = refl
length-verdicts (c ∷ cs) = omega (arith, length-verdicts cs)

same_set-verified :
    (vs : List Verdict) → verified (classify vs).0 ≡ true → same_set vs (unsat ∷ []) ≡ true
unfolding classify verified
same_set-verified vs h = ground arith

subset-quarantined :
    (vs : List Verdict)
    → is_quarantined (classify vs).0 ≡ true
    → subset (sat ∷ unsat ∷ []) vs ≡ true
unfolding classify
subset-quarantined vs h = ground arith

make_decision-eq-ok : (d e : VerificationDecision) → make_decision d ≡ ok e → e ≡ d
unfolding make_decision
make_decision-eq-ok d e h =
    let (x, checked, same) = >>=-eq-ok (validate_decision d) (λ _. ok d) h in
    sym (ok-injective same)

module _ (puzzle : PuzzleSpec) (state : PuzzleState) (o : ProofObligation) (timeout : ℤ) where
  -- The certificates are the backends' answers, in order.
  abbrev pub Answers : List Backend → List VerificationCertificate → Type 0
  Answers [] [] = Unit
  Answers (b ∷ bs) (c ∷ cs) = (b.answer puzzle state o timeout ≡ ok c) × Answers bs cs
  Answers _ _ = ⊥

  collect-Answers :
      (bs : List Backend) (cs : List VerificationCertificate)
      → collect puzzle state o timeout bs ≡ ok cs
      → Answers bs cs × (length (verdicts cs) ≡ length bs)
  unfolding collect
  collect-Answers [] [] h = (tt, refl)
  collect-Answers [] (c ∷ cs) h = cc
  collect-Answers (b ∷ bs) cs h = elim (Result-cases (b.answer puzzle state o timeout)) [
    | inr (x, failed) ↦ absurd (ground arith)
    | inl (c, answered) ↦ elim (Result-cases (collect puzzle state o timeout bs)) [
      | inr (x, failed) ↦ absurd (ground arith)
      | inl (rest, collected) ↦
          let same : c ∷ rest ≡ cs = ground arith in
          let (answers, size) = collect-Answers bs rest collected in
          subst (λ x. Answers (b ∷ bs) x × (length (verdicts x) ≡ suc (length bs))) same
            ((answered, answers), omega (arith, size))
    ]
  ]

  -- A decision holds the answer of every backend; it is accepted exactly when all of them are
  -- "unsat", and quarantined exactly when there are "sat" and "unsat" among them.
  pub cross_verify-accepted :
      (offered bs : List Backend) (d : VerificationDecision)
      → coordinator offered ≡ ok bs
      → cross_verify bs puzzle state o timeout ≡ ok d
      → Answers bs d.certificates
        × ((accepted d ≡ true) ↔ All (λ v. v ≡ unsat) (verdicts d.certificates))
        × ((is_quarantined d.status ≡ true)
            ↔ (Has (verdicts d.certificates) sat × Has (verdicts d.certificates) unsat))
        × (d.obligation_id ≡ o.obligation_id)
  unfolding coordinator cross_verify accepted
  cross_verify-accepted offered bs d made h =
      elim (Result-cases (collect puzzle state o timeout bs)) [
        | inr (x, failed) ↦ absurd (ground arith)
        | inl (cs, collected) ↦
            let (answers, size) = collect-Answers bs cs collected in
            let some_backend : 0 < length (verdicts cs) = ground arith in
            let same : d ≡ decision_of o cs =
              make_decision-eq-ok (decision_of o cs) d (ground arith) in
            rw same (
              answers,
              verified-classify (verdicts cs) some_backend,
              quarantined-classify (verdicts cs),
              refl,
            )
      ]

  -- Each backend answers under its own identifier and for the obligation it was given.
  abbrev pub Answering : Backend → Type 0
  Answering b =
      (c : VerificationCertificate) × (b.answer puzzle state o timeout ≡ ok c)
      × (c.backend_id ≡ b.backend_id)
      × (c.obligation_id ≡ o.obligation_id)

  collect-All :
      (bs : List Backend)
      → All Answering bs
      → (cs : List VerificationCertificate) × (collect puzzle state o timeout bs ≡ ok cs)
        × (backend_ids cs ≡ identifiers bs)
        × All (λ c. c.obligation_id ≡ o.obligation_id) cs
        × (length (verdicts cs) ≡ length bs)
  unfolding collect
  collect-All [] a = ([], refl, refl, tt, refl)
  collect-All (b ∷ bs) ((c, answered, own, about), a) =
      let (cs, collected, ids, abouts, size) = collect-All bs a in
      (c ∷ cs, ground arith, rw (own, ids) refl, (about, abouts), omega (arith, size))

  none_misdirected :
      (cs : List VerificationCertificate)
      → All (λ c. c.obligation_id ≡ o.obligation_id) cs
      → any (λ c. not (c.obligation_id == o.obligation_id)) cs ≡ false
  none_misdirected [] a = refl
  none_misdirected (c ∷ cs) a = ground (arith, a.0, none_misdirected cs a.1)

  decision-valid :
      (cs : List VerificationCertificate)
      → 0 < length (verdicts cs)
      → unique (backend_ids cs) ≡ true
      → All (λ c. c.obligation_id ≡ o.obligation_id) cs
      → make_decision (decision_of o cs) ≡ ok (decision_of o cs)
  unfolding make_decision
  decision-valid cs some_one distinct abouts =
      let vs = verdicts cs in
      ground (
        arith,
        none_misdirected cs abouts,
        length-verdicts cs,
        same_set-verified vs,
        subset-quarantined vs,
      )

  -- If every backend answers under its own name and about the obligation, the verification with a
  -- positive timeout never fails its own validators: there is a decision.
  pub cross_verify_total :
      (offered bs : List Backend)
      → coordinator offered ≡ ok bs
      → leb_ℤ timeout (pos 0) ≡ false
      → All Answering bs
      → (d : VerificationDecision) × (cross_verify bs puzzle state o timeout ≡ ok d)
  unfolding coordinator cross_verify
  cross_verify_total offered bs made positive a =
      let (cs, collected, ids, abouts, size) = collect-All bs a in
      let decided = decision-valid cs (ground arith) (ground arith) abouts in
      (decision_of o cs, ground arith)
