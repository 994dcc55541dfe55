-- ===== src/Verification/Coordinator/Application.antt =====
-- An event that a decision lets through has exactly the conclusion that was proved.
use mathlib.Core.Path.{subst}
use deductra.Common.{
  String, ◌≡◌, refl, ap, inl, inr, true, false, some, List, [], ◌∷◌, arith, eqb, Option-cases,
  some_injective, ◌==◌, string_eq, pair_eq, nat_eq, bool_eq, length, contains, difference,
  contains-cons, contains-difference, ok,
}
use deductra.Common.Dict.{Dict, values, lookup}
use deductra.Canonical.{Platform}
use deductra.Domain.Atoms.{Atom, assignment, exclusion, atom_eq}
use deductra.Reasoning.Events.{
  CandidatesEliminated, Payload, candidates_eliminated, value_assigned, EventEnvelope,
}
use deductra.Reasoning.State.{PuzzleState}
use deductra.Reasoning.State.Invariant.{IsConsistent}
use deductra.Reasoning.Reducer.{eliminated, assigned, as_mutation, reduce_state}
use deductra.Reasoning.Reducer.Soundness.{candidates-reduce_state}
use deductra.Verification.Contracts.{
  claim_eq, ProofObligation, verdict_eq, VerificationDecision, accepted,
}
use deductra.Verification.Coordinator.{
  conclusion_of, first_of, optional_atom_eq, apply_verified_event,
}

-- The candidates of a state bear an atom out.
abbrev pub BearsOut : Atom → Dict (List String) → Type 0
BearsOut (assignment v x) d = lookup v d ≡ some (x ∷ [])
BearsOut (exclusion v x) d = (xs : List String) → lookup v d ≡ some xs → contains xs x ≡ false
BearsOut _ d = ⊥

singleton_of :
    (atoms : List Atom) (a : Atom)
    → eqb (length atoms) 1 ≡ true
    → (first_of atoms == some a) ≡ true
    → atoms ≡ a ∷ []
singleton_of [] a h k = cc
singleton_of (b ∷ []) a h k = ground arith
singleton_of (b ∷ c ∷ atoms) a h k = absurd (ground arith)

module _ (P : Platform) (s : PuzzleState) (e : EventEnvelope) (inv : IsConsistent P s)
    (t : PuzzleState) (reduced : reduce_state P s e ≡ ok t) where
  excluded-BearsOut :
      (p : CandidatesEliminated) (xs : List String)
      → p.value_ids ≡ xs
      → (a : Atom) → e.payload ≡ candidates_eliminated p
      → conclusion_of (candidates_eliminated p) ≡ some a
      → BearsOut a t.candidate_domains
  unfolding conclusion_of
  excluded-BearsOut p [] values a kind h = absurd (ground arith)
  excluded-BearsOut p (x ∷ []) values a kind h =
      let effect =
        candidates-reduce_state P s e inv t reduced (eliminated p) (ap as_mutation kind)
          p.variable_id in
      let same : exclusion p.variable_id x ≡ a = ground arith in
      subst (λ b. BearsOut b t.candidate_domains) same
        (λ ys left. elim (Option-cases (lookup p.variable_id s.candidate_domains)) [
          | inl missing ↦ absurd (ground (arith, effect))
          | inr (old, found) ↦
              let remains : ys ≡ difference old (x ∷ []) = ground (arith, effect, values) in
              rw remains (ground (arith, contains-difference x old (x ∷ []), contains-cons x x []))
        ])
  excluded-BearsOut p (x ∷ y ∷ xs) values a kind h = absurd (ground arith)

  concluded-BearsOut :
      (payload : Payload) (a : Atom)
      → e.payload ≡ payload
      → conclusion_of payload ≡ some a
      → BearsOut a t.candidate_domains
  unfolding conclusion_of
  concluded-BearsOut (value_assigned p) a kind h =
      let effect =
        candidates-reduce_state P s e inv t reduced (assigned p) (ap as_mutation kind)
          p.variable_id in
      subst (λ b. BearsOut b t.candidate_domains) (some_injective h) (ground (arith, effect))
  concluded-BearsOut (candidates_eliminated p) a kind h =
      excluded-BearsOut p p.value_ids refl a kind h
  concluded-BearsOut _ a kind h = cc

module _ (P : Platform) (s : PuzzleState) (e : EventEnvelope) (o : ProofObligation)
    (d : VerificationDecision) (t : PuzzleState) where
  -- What is applied was accepted for this very obligation, from the state it was proved in: the
  -- event's conclusion is the one claimed, and the new state, which is the reducer's, bears it out.
  pub apply_verified_event-BearsOut :
      IsConsistent P s
      → apply_verified_event P s e o d ≡ ok t
      → (a : Atom) × (o.claimed_conclusions ≡ a ∷ [])
        × (conclusion_of e.payload ≡ some a)
        × (accepted d ≡ true)
        × (d.obligation_id ≡ o.obligation_id)
        × (o.source_state_hash ≡ s.state_hash)
        × (reduce_state P s e ≡ ok t)
        × BearsOut a t.candidate_domains
  unfolding apply_verified_event
  apply_verified_event-BearsOut inv h = elim (Option-cases (conclusion_of e.payload)) [
    | inl none_claimed ↦ absurd (ground arith)
    | inr (a, concludes) ↦
        let reduced : reduce_state P s e ≡ ok t = ground arith in
        (
          a,
          singleton_of o.claimed_conclusions a (ground arith) (ground arith),
          concludes,
          ground arith,
          ground arith,
          ground arith,
          reduced,
          concluded-BearsOut P s e inv t reduced e.payload a refl concludes,
        )
  ]
