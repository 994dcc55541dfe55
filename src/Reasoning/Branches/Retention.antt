-- ===== src/Reasoning/Branches/Retention.antt =====
-- What every accepted event keeps: the projection's validity, and all branches but its own.
use mathlib.Core.Path.{subst}
use deductra.Common.{
  ◌<◌, String, ◌≡◌, sym, ap, ◌∙◌, ◌≢◌, true, false, some, arith, some_injective, All, ok,
}
use deductra.Canonical.{Platform}
use deductra.Reasoning.Events.{
  CandidatesEliminated, ValueAssigned, Payload, candidates_eliminated, value_assigned,
  branch_opened, contradiction_detected, branch_closed, EventEnvelope,
}
use deductra.Reasoning.State.Invariant.{IsConsistent}
use deductra.Reasoning.Reducer.{Mutation, eliminated, assigned, as_mutation}
use deductra.Reasoning.Reducer.Soundness.{reduce_state-IsConsistent, reduce_state-IsStep}
use deductra.Reasoning.Reducer.Assumption.{derive_branch_state-IsConsistent}
use deductra.Reasoning.Branches.{
  ended, BranchRecord, BranchProjection, is_search, search_origin, is_open, find_state, find_record,
  validate_projection,
}
use deductra.Reasoning.Branches.Reduction.{mutation_status, reduce_branch_projection}
use deductra.Reasoning.Branches.History.{
  find_state-snoc, find_record-snoc, find_state-replace, find_record-replace, find_record-close,
  find_state-branch, find_record-branch, All-find_state, All-replace_states, All-snoc,
  find_record-contains,
}
use deductra.Reasoning.Branches.Step.{
  is_note, IsDisclosed, opened_record, Mutating, Step, opening, closing, mutating, noting,
  accepted_of,
}

-- The model's own validator passes, and every retained state is consistent.
pub record IsValid (P : Platform) (p : BranchProjection) : Type 0 where
  pub checked : validate_projection p ≡ ok tt
  pub consistent : All (IsConsistent P) p.states

note-mutates :
    (payload : Payload) → is_note payload ≡ true → (m : Mutation) → as_mutation payload ≡ some m → ⊥
note-mutates (branch_opened payload) n m k = cc
note-mutates (branch_closed payload) n m k = cc
note-mutates (candidates_eliminated payload) n m k = cc
note-mutates (value_assigned payload) n m k = cc
note-mutates (contradiction_detected payload) n m k = cc
note-mutates _ n m k = cc

module _ (P : Platform) (p : BranchProjection) (e : EventEnvelope) (q : BranchProjection) where
  Step-IsValid : IsValid P p → Step P p e q → IsValid P q
  Step-IsValid v (opening payload o) = record {
    checked = o.checked;
    consistent = rw o.states (
        All-snoc (IsConsistent P) p.states o.child v.consistent
          (derive_branch_state-IsConsistent P o.parent
            (All-find_state (IsConsistent P) p.active_branch_id p.states o.parent v.consistent
              o.parent_found)
            e payload o.child o.derived).0);
  }
  Step-IsValid v (closing payload c) = record {
    checked = c.checked;
    consistent = rw c.states v.consistent;
  }
  Step-IsValid v (mutating m x) = record {
    checked = x.checked;
    consistent = rw x.states (
        All-replace_states (IsConsistent P) x.after p.states v.consistent (
          reduce_state-IsConsistent P x.before e
            (All-find_state (IsConsistent P) e.branch_id p.states x.before v.consistent
              x.before_found)
            x.after x.reduced));
  }
  Step-IsValid v (noting n) = record {
    checked = unfold validate_projection in ground (arith, v.checked);
    consistent = rw n.states v.consistent;
  }

  mutated_branch :
      IsValid P p → (m : Mutation) (x : Mutating P p e q m) → x.after.branch_id ≡ e.branch_id
  mutated_branch v m x =
      let before =
        All-find_state (IsConsistent P) e.branch_id p.states x.before v.consistent x.before_found in
      (reduce_state-IsStep P x.before e before x.after x.reduced).branch
      ∙ find_state-branch e.branch_id p.states x.before x.before_found

  Step-elsewhere :
      IsValid P p
      → Step P p e q
      → (b : String) → e.branch_id ≢ b
      → (find_state b q.states ≡ find_state b p.states)
        × (find_record b q.branches ≡ find_record b p.branches)
  Step-elsewhere v (opening payload o) b other =
      let child =
        (derive_branch_state-IsConsistent P o.parent
          (All-find_state (IsConsistent P) p.active_branch_id p.states o.parent v.consistent
            o.parent_found)
          e payload o.child o.derived).1 in
      (
        rw o.states (find_state-snoc b p.states o.child (λ same. other (sym child ∙ same))),
        rw o.branches
            (find_record-snoc b p.branches (opened_record o.parent o.child e payload) other),
      )
  Step-elsewhere v (closing payload c) b other = (
    ap (find_state b) c.states,
    rw c.branches (
        find_record-close b c.closing.branch_id (ended payload.status) e.sequence_no p.branches
          (λ same.
            other
              (sym (find_record-branch e.branch_id p.branches c.closing c.closing_found) ∙ same))),
  )
  Step-elsewhere v (mutating m x) b other =
      let here = mutated_branch v m x in
      (
        rw x.states (find_state-replace b x.after p.states (λ same. other (sym here ∙ same))),
        rw x.branches (
            find_record-replace b x.after (mutation_status m) p.branches
              (λ same. other (sym here ∙ same))),
      )
  Step-elsewhere v (noting n) b other = (ap (find_state b) n.states, ap (find_record b) n.branches)

  Step-ended :
      IsValid P p
      → Step P p e q
      → (b : String) (r : BranchRecord) → find_record b p.branches ≡ some r
      → is_open r.status ≡ false
      → find_state b q.states ≡ find_state b p.states
  Step-ended v (opening payload o) b r found over =
      (Step-elsewhere v (opening payload o) b
        (λ same. ground (arith, find_record-contains b p.branches r, o.new))).0
  Step-ended v (closing payload c) b r found over = ap (find_state b) c.states
  Step-ended v (mutating m x) b r found over =
      (Step-elsewhere v (mutating m x) b (λ same. ground (arith, x.target_found, x.target_open))).0
  Step-ended v (noting n) b r found over = ap (find_state b) n.states

  Step-number : Step P p e q → q.sequence_no ≡ e.sequence_no
  Step-number (opening payload o) = o.number
  Step-number (closing payload c) = c.number
  Step-number (mutating m x) = x.number
  Step-number (noting n) = n.number

  Step-disclosed :
      Step P p e q
      → (m : Mutation) (r : BranchRecord) → as_mutation e.payload ≡ some m
      → find_record p.active_branch_id p.branches ≡ some r
      → (e.branch_id ≡ p.active_branch_id) × (is_open r.status ≡ true) × IsDisclosed r m
  Step-disclosed (opening payload o) m r k f = cc (k, o.kind)
  Step-disclosed (closing payload c) m r k f = cc (k, c.kind)
  Step-disclosed (mutating n x) m r k f =
      let at : x.target ≡ r =
        some_injective
          (sym x.target_found ∙ (ap (λ b. find_record b p.branches) x.of_active ∙ f)) in
      let one : n ≡ m = some_injective (sym x.kind ∙ k) in
      (
        x.of_active,
        ap (λ (t : BranchRecord). is_open t.status) (sym at) ∙ x.target_open,
        subst (IsDisclosed r) one (subst (λ t. IsDisclosed t n) at x.disclosed),
      )
  Step-disclosed (noting n) m r k f = absurd (note-mutates e.payload n.kind m k)

  module _ (reduced : reduce_branch_projection P p e ≡ ok q) where
    -- An accepted event leaves a valid projection with consistent states.
    pub reduce_branch_projection-IsValid : IsValid P p → IsValid P q
    reduce_branch_projection-IsValid v = Step-IsValid v (accepted_of P p e q reduced).step

    -- An accepted event changes the state and the record of its own branch alone, and the number
    -- of the projection grows to the event's.
    pub reduce_branch_projection-elsewhere :
        IsValid P p
        → ((b : String)
            → e.branch_id ≢ b
            → (find_state b q.states ≡ find_state b p.states)
              × (find_record b q.branches ≡ find_record b p.branches))
          × (p.sequence_no < q.sequence_no)
          × (q.sequence_no ≡ e.sequence_no)
    reduce_branch_projection-elsewhere v =
        let taken = accepted_of P p e q reduced in
        let step = taken.step in
        let later = taken.later in
        let number = Step-number step in (Step-elsewhere v step, omega arith, number)

    -- The state of a branch that is contradicted, solved or abandoned is never changed again.
    pub reduce_branch_projection-ended :
        IsValid P p
        → (b : String) (r : BranchRecord) → find_record b p.branches ≡ some r
        → is_open r.status ≡ false
        → find_state b q.states ≡ find_state b p.states
    reduce_branch_projection-ended v = Step-ended v (accepted_of P p e q reduced).step

    -- A mutation is accepted only on the active branch, which is open, and is disclosed as search
    -- exactly if that is a search branch.
    pub reduce_branch_projection-disclosed :
        (r : BranchRecord)
        → find_record p.active_branch_id p.branches ≡ some r
        → ((m : Mutation)
            → as_mutation e.payload ≡ some m
            → (e.branch_id ≡ p.active_branch_id) × (is_open r.status ≡ true))
          × ((a : ValueAssigned)
              → e.payload ≡ value_assigned a
              → search_origin a.origin ≡ is_search r.method)
          × ((c : CandidatesEliminated)
              → e.payload ≡ candidates_eliminated c
              → search_origin c.origin ≡ is_search r.method)
    reduce_branch_projection-disclosed r found =
        let step = (accepted_of P p e q reduced).step in
        (
          λ m k.
              let (here, open_there, told) = Step-disclosed step m r k found in (here, open_there),
          λ a k. (Step-disclosed step (assigned a) r (ap as_mutation k) found).2,
          λ c k. (Step-disclosed step (eliminated c) r (ap as_mutation k) found).2,
        )
