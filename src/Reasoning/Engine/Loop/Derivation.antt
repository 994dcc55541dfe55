-- ===== src/Reasoning/Engine/Loop/Derivation.antt =====
-- The events of a run lead from the initial state to the final one, as a replay would find.
use mathlib.Core.Path.{subst}
use mathlib.Core.List.{append-nil, append_assoc}
use deductra.Common.{
  ℕ, zero, suc, ◌≤◌, String, ◌≡◌, refl, sym, ap, ◌∙◌, ◌≢◌, ◌↔◌, ◌⊎◌, inl, inr, true, false, Option,
  none, some, List, [], ◌∷◌, ◌++◌, arith, Bool-cases, Option-cases, ◌==◌, string_eq, pair_eq,
  nat_eq, bool_eq, length, find, add, ok, >>=-eq-ok, ok-injective, Result-cases,
}
use deductra.Common.Int.{ℤ}
use deductra.Canonical.{Platform}
use deductra.Domain.Puzzle.{PuzzleSpec}
use deductra.Reasoning.State.{PuzzleState}
use deductra.Reasoning.Events.{EventEnvelope, validate_envelope}
use deductra.Reasoning.Integrity.{EventDraft, unsigned_event, seal_event}
use deductra.Reasoning.Reducer.{reduce_state}
use deductra.Reasoning.Rules.{
  reference_eq, RuleApplicationCandidate, candidate_eq, ProposedDeduction, ReasoningRule,
  discover_rule_applications,
}
use deductra.Reasoning.Policy.{ReasoningPolicy, select_rule_application}
use deductra.Reasoning.Engine.{
  HumanSolveStatus, stalled, limit_reached, AuthorityStatus, AuthorityResult, HumanSolveContext,
  missing, make_attempt, StalledReason, human_rules_exhausted, max_steps_reached, check_reason,
}
use deductra.Reasoning.Engine.Proposal.{atoms_eq, texts_eq, Conclusion, payload_of}
use deductra.Reasoning.Engine.Loop.{
  is_value_error, Progress, Turn, finish, retry, advance, Outcome, stopped, out_of_fuel, Rendering,
  Authority, untried, after_refusal, propose_event, answered_attempt, record_refusal, submit,
  propose, rejected_attempt, consider, turn, turns, fuel_for, run,
}
use deductra.Reasoning.Engine.Loop.Termination.{record_result-advances}

-- The events lead from one state and event hash to another: each is linked to the event before,
-- has the next number, and reduces the state.
abbrev pub Derives :
    Platform → PuzzleState → String → List EventEnvelope → PuzzleState → String → Type 0
Derives P s h [] t k = (s ≡ t) × (h ≡ k)
Derives P s h (e ∷ es) t k =
    (e.previous_event_hash ≡ h)
    × (e.sequence_no ≡ suc s.sequence_no)
    × ((u : PuzzleState) × (reduce_state P s e ≡ ok u) × Derives P u e.event_hash es t k)

-- The law of the authority: a state that it answers with is the reducer's.
abbrev pub Reduces : Platform → Authority → Type 0
Reduces P authority =
    (puzzle : PuzzleSpec) (s : PuzzleState) (proposal : ProposedDeduction) (e : EventEnvelope)
    (timeout : ℤ) (answer : AuthorityResult) (t : PuzzleState)
    → authority puzzle s proposal e timeout ≡ ok answer
    → answer.result_state ≡ some t
    → reduce_state P s e ≡ ok t

Derives-append :
    (P : Platform) (s t u : PuzzleState) (h k l : String) (es fs : List EventEnvelope)
    → Derives P s h es t k
    → Derives P t k fs u l
    → Derives P s h (es ++ fs) u l
Derives-append P s t u h k l [] fs (same_state, same_hash) d = rw (same_state, same_hash) d
Derives-append P s t u h k l (e ∷ es) fs (linked, numbered, (v, reduced, rest)) d =
    (linked, numbered, (v, reduced, Derives-append P v t u e.event_hash k l es fs rest d))

seal_event-fields :
    (P : Platform) (d : EventDraft) (e : EventEnvelope)
    → seal_event P d ≡ ok e
    → (e.previous_event_hash ≡ d.previous_event_hash) × (e.sequence_no ≡ d.sequence_no)
unfolding seal_event
seal_event-fields P d e h =
    let (x, checked, same) = >>=-eq-ok (validate_envelope (unsigned_event d)) _ h in
    rw (sym (ok-injective same)) (refl, refl)

-- The state and the events are as they were.
pub record Stays (p q : Progress) : Type 0 where
  pub current : q.current ≡ p.current
  pub events : q.events ≡ p.events
  pub previous : q.previous_event_hash ≡ p.previous_event_hash

Stays-refl : {p : Progress} → Stays p p
Stays-refl = record { current = refl; events = refl; previous = refl }

-- From `p`, at most `steps` further events were applied, which lead to `q`; the status is `solved`
-- exactly when the state of `q` is.
abbrev pub Ran : Platform → ℕ → Progress → Progress → HumanSolveStatus → Type 0
Ran P steps p q s =
    (es : List EventEnvelope) × (q.events ≡ p.events ++ es)
    × (length es ≤ steps)
    × Derives P p.current p.previous_event_hash es q.current q.previous_event_hash
    × ((s ≡ HumanSolveStatus.solved) ↔ (q.current.solved ≡ true))

abbrev Ends : Platform → ℕ → Progress → Outcome → Type 0
Ends P steps p (stopped s r q) = Ran P steps p q s
Ends P steps p out_of_fuel = Unit

Stays-Ran :
    (P : Platform) (steps : ℕ) (p q : Progress) (s : HumanSolveStatus)
    → ((s ≡ HumanSolveStatus.solved) ↔ (q.current.solved ≡ true))
    → Stays p q
    → Ran P steps p q s
Stays-Ran P steps p q s iff stays = (
  [],
  stays.events ∙ sym (append-nil p.events),
  omega arith,
  (sym stays.current, sym stays.previous),
  iff,
)

after_refusal-kept :
    (status : AuthorityStatus) (p : Progress)
    → (after_refusal status p ≡ retry p)
      ⊎ ((s : HumanSolveStatus) × (after_refusal status p ≡ finish s none p)
          × (s ≢ HumanSolveStatus.solved)
          × (check_reason s none ≡ ok tt))
unfolding check_reason
after_refusal-kept AuthorityStatus.backend_verified p = inl refl
after_refusal-kept AuthorityStatus.cross_verified p = inl refl
after_refusal-kept AuthorityStatus.rejected p = inl refl
after_refusal-kept AuthorityStatus.inconclusive p =
    inr (HumanSolveStatus.inconclusive, refl, λ h. cc, refl)
after_refusal-kept AuthorityStatus.quarantined p =
    inr (HumanSolveStatus.quarantined, refl, λ h. cc, refl)

module _ (P : Platform) (R : Rendering) (rules : List ReasoningRule) (authority : Authority)
    (puzzle : PuzzleSpec) (context : HumanSolveContext) (policy : ReasoningPolicy)
    (timeout : ℤ) where
  -- One more event was sealed, proved and reduced.
  record Advances (p q : Progress) : Type 0 where
    event : EventEnvelope
    proposal : ProposedDeduction
    answer : AuthorityResult
    answered : authority puzzle p.current proposal event timeout ≡ ok answer
    result : answer.result_state ≡ some q.current
    linked : event.previous_event_hash ≡ p.previous_event_hash
    numbered : event.sequence_no ≡ suc p.current.sequence_no
    events : q.events ≡ p.events ++ event ∷ []
    previous : q.previous_event_hash ≡ event.event_hash

  abbrev Moves : Progress → Turn → Type 0
  Moves p (finish s r q) = Stays p q × (s ≢ HumanSolveStatus.solved) × (check_reason s r ≡ ok tt)
  Moves p (retry q) = Stays p q
  Moves p (advance q) = Advances p q

  propose_event-fields :
      (p : Progress) (c : RuleApplicationCandidate) (k : Conclusion) (e : EventEnvelope)
      → propose_event P R rules authority puzzle context policy timeout p c k ≡ ok e
      → (e.previous_event_hash ≡ p.previous_event_hash)
        × (e.sequence_no ≡ suc p.current.sequence_no)
  unfolding propose_event
  propose_event-fields p c k e h =
      let (payload, made, sealed) = >>=-eq-ok (payload_of _ _ k) _ h in
      seal_event-fields P _ e sealed

  record_refusal-Moves :
      (p : Progress) (c : RuleApplicationCandidate) (proposal : ProposedDeduction)
      (answer : AuthorityResult) (t : Turn)
      → record_refusal P R rules authority puzzle context policy timeout p c proposal answer ≡ ok t
      → Moves p t
  unfolding record_refusal
  record_refusal-Moves p c proposal answer t h =
      elim (Result-cases (
        make_attempt (
          answered_attempt P R rules authority puzzle context policy timeout p c proposal
            answer))) [
              | inr (x, failed) ↦ absurd (ground arith)
              | inl (attempt, made) ↦
                  let next : Progress = record p { attempts = p.attempts ++ attempt ∷ [] } in
                  let becomes : after_refusal answer.status next ≡ t = ground arith in
                  let stays : Stays p next = record {
                    current = refl;
                    events = refl;
                    previous = refl;
                  } in
                  elim (after_refusal-kept answer.status next) [
                    | inl again ↦ subst (Moves p) (sym again ∙ becomes) stays
                    | inr (s, ends, unsolved, reason) ↦
                        subst (Moves p) (sym ends ∙ becomes) (stays, unsolved, reason)
                  ]
            ]

  submit-Moves :
      (p : Progress) (c : RuleApplicationCandidate) (proposal : ProposedDeduction) (k : Conclusion)
      (t : Turn)
      → submit P R rules authority puzzle context policy timeout p c proposal k ≡ ok t
      → Moves p t
  unfolding submit
  submit-Moves p c proposal k t h =
      elim (Result-cases (propose_event P R rules authority puzzle context policy timeout p c k)) [
        | inr (x, failed) ↦ absurd (ground arith)
        | inl (event, sealed) ↦
            elim (Result-cases (authority puzzle p.current proposal event timeout)) [
              | inr (x, failed) ↦ absurd (ground arith)
              | inl (answer, answered) ↦ elim (Option-cases answer.result_state) [
                | inl refused ↦ record_refusal-Moves p c proposal answer t (ground arith)
                | inr (result, accepted) ↦
                    let (q, advanced, current, previous, events) =
                      record_result-advances P R rules authority puzzle context policy timeout p c
                        proposal event answer result t (ground arith) in
                    let (linked, numbered) = propose_event-fields p c k event sealed in
                    subst (Moves p) (sym advanced) (record {
                      event = event;
                      proposal = proposal;
                      answer = answer;
                      answered = answered;
                      result = rw current accepted;
                      linked = linked;
                      numbered = numbered;
                      events = events;
                      previous = previous;
                    })
              ]
            ]
      ]

  consider-Moves :
      (p : Progress) (c : RuleApplicationCandidate) (t : Turn)
      → consider P R rules authority puzzle context policy timeout p c ≡ ok t
      → Moves p t
  unfolding consider
  consider-Moves p c t h = elim (Option-cases (find (λ r. r.reference == c.rule) rules)) [
    | inl missing ↦ absurd (ground arith)
    | inr (rule, found) ↦
        elim (Result-cases (propose P R rules authority puzzle context policy timeout p c rule)) [
          | inl ((proposal, conclusion), proposed) ↦
              submit-Moves p c proposal conclusion t (ground arith)
          | inr (error, failed) ↦ elim (Bool-cases (is_value_error error)) [
            | inr other ↦ absurd (ground arith)
            | inl caught ↦
                elim (Result-cases (
                  make_attempt (
                    rejected_attempt P R rules authority puzzle context policy timeout p c
                      error))) [
                        | inr (x, unmade) ↦ absurd (ground arith)
                        | inl (attempt, made) ↦
                            let same : retry (record p { attempts = p.attempts ++ attempt ∷ [] })
                                ≡ t =
                              ground arith in
                            subst (Moves p) same
                              (record { current = refl; events = refl; previous = refl })
                      ]
          ]
        ]
  ]

  marked-Moves :
      (p : Progress) (attempted : List (String × String)) (t : Turn)
      → Moves (record p { attempted = attempted }) t
      → Moves p t
  marked-Moves p attempted (finish s r q) m =
      (record { current = m.0.current; events = m.0.events; previous = m.0.previous }, m.1, m.2)
  marked-Moves p attempted (retry q) m = record {
    current = m.current;
    events = m.events;
    previous = m.previous;
  }
  marked-Moves p attempted (advance q) m = record {
    event = m.event;
    proposal = m.proposal;
    answer = m.answer;
    answered = m.answered;
    result = m.result;
    linked = m.linked;
    numbered = m.numbered;
    events = m.events;
    previous = m.previous;
  }

  turn-Moves :
      (p : Progress) (t : Turn)
      → turn P R rules authority puzzle context policy timeout p ≡ ok t
      → Moves p t
  unfolding turn
  turn-Moves p t h = elim (Result-cases (discover_rule_applications P puzzle p.current rules)) [
    | inr (x, failed) ↦ absurd (ground arith)
    | inl (discovered, found) ↦
        elim (Option-cases (select_rule_application (untried p discovered) policy)) [
          | inl nothing ↦
              let ends : finish stalled (some human_rules_exhausted) p ≡ t = ground arith in
              let exhausted : check_reason stalled (some human_rules_exhausted) ≡ ok tt =
                unfold check_reason in refl in
              subst (Moves p) ends
                (record { current = refl; events = refl; previous = refl }, λ e. cc, exhausted)
          | inr (c, chosen) ↦
              let marked = add (p.current.state_hash, c.candidate_id) p.attempted in
              marked-Moves p marked t
                (consider-Moves (record p { attempted = marked }) c t (ground arith))
        ]
  ]

  Stays-Moves : (p q : Progress) (t : Turn) → Stays p q → Moves q t → Moves p t
  Stays-Moves p q (finish s r x) st m = (
    record {
      current = m.0.current ∙ st.current;
      events = m.0.events ∙ st.events;
      previous = m.0.previous ∙ st.previous;
    },
    m.1,
    m.2,
  )
  Stays-Moves p q (retry x) st m = record {
    current = m.current ∙ st.current;
    events = m.events ∙ st.events;
    previous = m.previous ∙ st.previous;
  }
  Stays-Moves p q (advance x) st m = record {
    event = m.event;
    proposal = m.proposal;
    answer = m.answer;
    answered = rw (sym st.current) m.answered;
    result = m.result;
    linked = m.linked ∙ st.previous;
    numbered = rw (sym st.current) m.numbered;
    events = rw (sym st.events) m.events;
    previous = m.previous;
  }

  turns-Moves :
      (fuel : ℕ) (p : Progress) (t : Turn)
      → turns P R rules authority puzzle context policy timeout fuel p ≡ ok t
      → Moves p t
  unfolding turns
  turns-Moves zero p t h =
      subst (Moves p) (ok-injective h) (record { current = refl; events = refl; previous = refl })
  turns-Moves (suc fuel) p t h =
      elim (Result-cases (turn P R rules authority puzzle context policy timeout p)) [
        | inr (x, failed) ↦ absurd (ground arith)
        | inl (finish s r q, turned) ↦
            let same : finish s r q ≡ t = ground arith in
            subst (Moves p) same (turn-Moves p (finish s r q) turned)
        | inl (advance q, turned) ↦
            let same : advance q ≡ t = ground arith in
            subst (Moves p) same (turn-Moves p (advance q) turned)
        | inl (retry q, turned) ↦
            Stays-Moves p q t (turn-Moves p (retry q) turned) (turns-Moves fuel q t (ground arith))
      ]

  -- The loop stops with a status and a reason that the validator of the trace allows.
  pub run-reason :
      (steps : ℕ) (p q : Progress) (s : HumanSolveStatus) (r : Option StalledReason)
      → run P R rules authority puzzle context policy timeout steps p ≡ ok (stopped s r q)
      → check_reason s r ≡ ok tt
  unfolding run check_reason
  run-reason zero p q s r h = elim (Bool-cases p.current.solved) [
    | inl over ↦ ground arith
    | inr further ↦ ground arith
  ]
  run-reason (suc steps) p q s r h = elim (Bool-cases p.current.solved) [
    | inl over ↦ ground arith
    | inr further ↦
        let fuel = fuel_for P R rules authority puzzle context policy timeout p in
        elim (Result-cases (turns P R rules authority puzzle context policy timeout fuel p)) [
          | inr (x, failed) ↦ absurd (ground arith)
          | inl (retry x, turned) ↦ absurd (ground arith)
          | inl (finish t w x, turned) ↦
              let (stays, unsolved, reason) = turns-Moves fuel p (finish t w x) turned in
              let same_status : t ≡ s = ground arith in
              let same_reason : w ≡ r = ground arith in rw (sym same_status, sym same_reason) reason
          | inl (advance x, turned) ↦ run-reason steps x q s r (ground arith)
        ]
  ]

  module _ (law : Reduces P authority) where
    advanced-Ran :
        (steps : ℕ) (p x q : Progress) (s : HumanSolveStatus)
        → Advances p x
        → Ran P steps x q s
        → Ran P (suc steps) p q s
    advanced-Ran steps p x q s a (es, events, few, derives, iff) = (
      a.event ∷ es,
      events ∙ ap (λ xs. xs ++ es) a.events ∙ append_assoc p.events (a.event ∷ []) es,
      omega (arith, few),
      (
        a.linked,
        a.numbered,
        (
          x.current,
          law puzzle p.current a.proposal a.event timeout a.answer x.current a.answered a.result,
          subst (λ h. Derives P x.current h es q.current q.previous_event_hash) a.previous derives,
        ),
      ),
      iff,
    )

    advanced-Ends :
        (steps : ℕ) (p x : Progress) (o : Outcome)
        → Advances p x
        → Ends P steps x o
        → Ends P (suc steps) p o
    advanced-Ends steps p x (stopped s r q) a e = advanced-Ran steps p x q s a e
    advanced-Ends steps p x out_of_fuel a e = tt

    run-Ends :
        (steps : ℕ) (p : Progress) (o : Outcome)
        → run P R rules authority puzzle context policy timeout steps p ≡ ok o
        → Ends P steps p o
    unfolding run
    run-Ends zero p o h = elim (Bool-cases p.current.solved) [
      | inl over ↦
          let same : stopped HumanSolveStatus.solved none p ≡ o = ground arith in
          subst (Ends P zero p) same (Stays-Ran P zero p p _ (λ e. over, λ e. refl) Stays-refl)
      | inr further ↦
          let same : stopped limit_reached (some max_steps_reached) p ≡ o = ground arith in
          subst (Ends P zero p) same (
            Stays-Ran P zero p p _ (λ e. absurd (ground arith), λ e. absurd (ground arith))
              Stays-refl)
    ]
    run-Ends (suc steps) p o h = elim (Bool-cases p.current.solved) [
      | inl over ↦
          let same : stopped HumanSolveStatus.solved none p ≡ o = ground arith in
          subst (Ends P (suc steps) p) same
            (Stays-Ran P (suc steps) p p _ (λ e. over, λ e. refl) Stays-refl)
      | inr further ↦
          let fuel = fuel_for P R rules authority puzzle context policy timeout p in
          elim (Result-cases (turns P R rules authority puzzle context policy timeout fuel p)) [
            | inr (x, failed) ↦ absurd (ground arith)
            | inl (retry q, turned) ↦
                let same : out_of_fuel ≡ o = ground arith in subst (Ends P (suc steps) p) same tt
            | inl (finish s r q, turned) ↦
                let (stays, unsolved, _) = turns-Moves fuel p (finish s r q) turned in
                let same : stopped s r q ≡ o = ground arith in
                let still : q.current.solved ≡ false =
                  ap (λ (u : PuzzleState). u.solved) stays.current ∙ further in
                subst (Ends P (suc steps) p) same (
                  Stays-Ran P (suc steps) p q s
                    (λ e. absurd (unsolved e), λ e. absurd (ground (arith, still))) stays)
            | inl (advance q, turned) ↦
                let moved = turns-Moves fuel p (advance q) turned in
                advanced-Ends steps p q o moved (run-Ends steps q o (ground arith))
          ]
    ]

    -- A run that stops has applied at most as many events as it has steps. They follow the events
    -- before, linked to one another, and reduce the state that it started in to the one that it
    -- ends in; its status is `solved` exactly when that state is.
    pub run-Derives :
        (steps : ℕ) (p q : Progress) (s : HumanSolveStatus) (r : Option StalledReason)
        → run P R rules authority puzzle context policy timeout steps p ≡ ok (stopped s r q)
        → Ran P steps p q s
    run-Derives steps p q s r h = run-Ends steps p (stopped s r q) h
