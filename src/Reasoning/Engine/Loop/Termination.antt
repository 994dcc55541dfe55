-- ===== src/Reasoning/Engine/Loop/Termination.antt =====
-- The loop returns: each turn in one state attempts another of its candidates.
use deductra.Common.{
  ℕ, zero, suc, ◌≤◌, ◌<◌, String, ◌≡◌, refl, sym, ap, ◌∙◌, ◌≢◌, ◌⊎◌, inl, inr, Bool, true, false,
  not, ◌&&◌, Option, none, some, List, [], ◌∷◌, ◌++◌, arith, eqb, Bool-cases, Option-cases, ◌==◌,
  string_eq, pair_eq, nat_eq, bool_eq, length, keep, find, contains, Has, add, contains-add,
  contains-keep, Error, Result, err, ok, Result-cases,
}
use deductra.Common.Int.{ℤ}
use deductra.Canonical.{Platform}
use deductra.Domain.Puzzle.{PuzzleSpec}
use deductra.Reasoning.State.{PuzzleState}
use deductra.Reasoning.State.Validation.{validate_state}
use deductra.Reasoning.Events.{EventEnvelope}
use deductra.Reasoning.Rules.{
  reference_eq, RuleApplicationCandidate, candidate_dec, candidate_eq, ProposedDeduction,
  ReasoningRule, discover_rule_applications,
}
use deductra.Reasoning.Policy.{ReasoningPolicy, select_rule_application}
use deductra.Reasoning.Policy.Selection.{select_rule_application-minimal}
use deductra.Reasoning.Engine.{
  HumanSolveStatus, limit_reached, AuthorityStatus, AuthorityResult, HumanSolveContext,
  HumanReasoningAttempt, missing, make_attempt, StalledReason, max_steps_reached,
}
use deductra.Reasoning.Engine.Proposal.{atoms_eq, texts_eq, Conclusion}
use deductra.Reasoning.Engine.Loop.{
  is_value_error, Progress, Turn, finish, retry, advance, stopped, Rendering, Authority, untried,
  after_refusal, propose_event, answered_attempt, record_refusal, record_result, submit, propose,
  rejected_attempt, consider, turn, turns, fuel_for, run,
}

length-keep-le :
    (f g : RuleApplicationCandidate → Bool) (cs : List RuleApplicationCandidate)
    → ((c : RuleApplicationCandidate) → g c ≡ true → f c ≡ true)
    → length (keep g cs) ≤ length (keep f cs)
length-keep-le f g [] h = omega arith
length-keep-le f g (c ∷ cs) h = ground (arith, h c, length-keep-le f g cs h)

-- A test that fails on one more element keeps fewer.
length-keep-lt :
    (f g : RuleApplicationCandidate → Bool) (cs : List RuleApplicationCandidate)
    (d : RuleApplicationCandidate)
    → ((c : RuleApplicationCandidate) → g c ≡ true → f c ≡ true)
    → Has cs d
    → f d ≡ true
    → g d ≡ false
    → length (keep g cs) < length (keep f cs)
unfolding contains
length-keep-lt f g [] d h m yes_f no_g = absurd (ground arith)
length-keep-lt f g (c ∷ cs) d h m yes_f no_g = elim (candidate_dec c d) [
  | yes same ↦ ground (arith, ap f same, ap g same, length-keep-le f g cs h)
  | no differ ↦ ground (arith, h c, length-keep-lt f g cs d h (ground arith) yes_f no_g)
]

length-keep :
    (f : RuleApplicationCandidate → Bool) (cs : List RuleApplicationCandidate)
    → length (keep f cs) ≤ length cs
length-keep f [] = omega arith
length-keep f (c ∷ cs) = ground (arith, length-keep f cs)

after_refusal-retry :
    (status : AuthorityStatus) (p q : Progress) → after_refusal status p ≡ retry q → p ≡ q
after_refusal-retry AuthorityStatus.backend_verified p q h = cc
after_refusal-retry AuthorityStatus.cross_verified p q h = cc
after_refusal-retry AuthorityStatus.rejected p q h = cc
after_refusal-retry AuthorityStatus.inconclusive p q h = cc
after_refusal-retry AuthorityStatus.quarantined p q h = cc

-- One more attempted candidate leaves fewer to try.
untried-add :
    (p : Progress) (c : RuleApplicationCandidate) (discovered : List RuleApplicationCandidate)
    → Has (untried p discovered) c
    → length (
        untried
          (record p { attempted = add (p.current.state_hash, c.candidate_id) p.attempted })
          discovered)
      < length (untried p discovered)
untried-add p c discovered h =
    let key : String × String = (p.current.state_hash, c.candidate_id) in
    let open_before : RuleApplicationCandidate → Bool =
      λ d. not (contains p.attempted (p.current.state_hash, d.candidate_id)) in
    let open_after : RuleApplicationCandidate → Bool =
      λ d. not (contains (add key p.attempted) (p.current.state_hash, d.candidate_id)) in
    let both : (contains discovered c && open_before c) ≡ true =
      sym (contains-keep open_before c discovered) ∙ h in
    length-keep-lt open_before open_after discovered c
      (λ d g. ground (arith, contains-add key (p.current.state_hash, d.candidate_id) p.attempted))
      (ground arith) (ground arith) (ground (arith, contains-add key key p.attempted))

module _ (P : Platform) (R : Rendering) (rules : List ReasoningRule) (authority : Authority)
    (puzzle : PuzzleSpec) (context : HumanSolveContext) (policy : ReasoningPolicy)
    (timeout : ℤ) where
  abbrev one_turn : Progress → Result Turn
  one_turn = turn P R rules authority puzzle context policy timeout

  record_refusal-retry :
      (p q : Progress) (c : RuleApplicationCandidate) (proposal : ProposedDeduction)
      (answer : AuthorityResult)
      → record_refusal P R rules authority puzzle context policy timeout p c proposal answer
        ≡ ok (retry q)
      → (q.current ≡ p.current) × (q.attempted ≡ p.attempted)
  unfolding record_refusal
  record_refusal-retry p q c proposal answer h =
      elim (Result-cases (
        make_attempt (
          answered_attempt P R rules authority puzzle context policy timeout p c proposal
            answer))) [
              | inr (x, failed) ↦ absurd (ground arith)
              | inl (attempt, made) ↦
                  let next : Progress = record p { attempts = p.attempts ++ attempt ∷ [] } in
                  let same = after_refusal-retry answer.status next q (ground arith) in
                  (
                    ap (λ (x : Progress). x.current) (sym same),
                    ap (λ (x : Progress). x.attempted) (sym same),
                  )
            ]

  pub record_result-advances :
      (p : Progress) (c : RuleApplicationCandidate) (proposal : ProposedDeduction)
      (event : EventEnvelope) (answer : AuthorityResult) (result : PuzzleState) (t : Turn)
      → record_result P R rules authority puzzle context policy timeout p c proposal event answer
          result
        ≡ ok t
      → (q : Progress) × (t ≡ advance q)
        × (q.current ≡ result)
        × (q.previous_event_hash ≡ event.event_hash)
        × (q.events ≡ p.events ++ event ∷ [])
  unfolding record_result
  record_result-advances p c proposal event answer result t h =
      elim (Result-cases (validate_state result puzzle)) [
        | inr (x, failed) ↦ absurd (ground arith)
        | inl (violations, validated) ↦ elim (Bool-cases (not (eqb (length violations) 0))) [
          | inl invalid ↦ absurd (ground arith)
          | inr sound ↦
              let attempt : HumanReasoningAttempt =
                record (answered_attempt P R rules authority puzzle context policy timeout p c
                  proposal answer) {
                    event_id = some event.event_id;
                    result_state_hash = some result.state_hash;
                  } in
              elim (Result-cases (make_attempt attempt)) [
                | inr (x, failed) ↦ absurd (ground arith)
                | inl (made, making) ↦ (
                  record {
                    current = result;
                    previous_event_hash = event.event_hash;
                    attempts = p.attempts ++ made ∷ [];
                    events = p.events ++ event ∷ [];
                    attempted = p.attempted;
                  },
                  ground arith,
                  refl,
                  refl,
                  refl,
                )
              ]
        ]
      ]

  submit-retry :
      (p q : Progress) (c : RuleApplicationCandidate) (proposal : ProposedDeduction)
      (k : Conclusion)
      → submit P R rules authority puzzle context policy timeout p c proposal k ≡ ok (retry q)
      → (q.current ≡ p.current) × (q.attempted ≡ p.attempted)
  unfolding submit
  submit-retry p q c proposal k h =
      elim (Result-cases (propose_event P R rules authority puzzle context policy timeout p c k)) [
        | inr (x, failed) ↦ absurd (ground arith)
        | inl (event, sealed) ↦
            elim (Result-cases (authority puzzle p.current proposal event timeout)) [
              | inr (x, failed) ↦ absurd (ground arith)
              | inl (answer, answered) ↦ elim (Option-cases answer.result_state) [
                | inl refused ↦ record_refusal-retry p q c proposal answer (ground arith)
                | inr (result, accepted) ↦
                    let (next, advanced, _, _, _) =
                      record_result-advances p c proposal event answer result (retry q)
                        (ground arith) in
                    absurd (ground (arith, advanced))
              ]
            ]
      ]

  consider-retry :
      (p q : Progress) (c : RuleApplicationCandidate)
      → consider P R rules authority puzzle context policy timeout p c ≡ ok (retry q)
      → (q.current ≡ p.current) × (q.attempted ≡ p.attempted)
  unfolding consider
  consider-retry p q c h = elim (Option-cases (find (λ r. r.reference == c.rule) rules)) [
    | inl missing ↦ absurd (ground arith)
    | inr (rule, found) ↦
        elim (Result-cases (propose P R rules authority puzzle context policy timeout p c rule)) [
          | inl ((proposal, conclusion), proposed) ↦
              submit-retry p q c proposal conclusion (ground arith)
          | inr (error, failed) ↦ elim (Bool-cases (is_value_error error)) [
            | inr other ↦ absurd (ground arith)
            | inl caught ↦
                elim (Result-cases (
                  make_attempt (
                    rejected_attempt P R rules authority puzzle context policy timeout p c
                      error))) [
                        | inr (x, unmade) ↦ absurd (ground arith)
                        | inl (attempt, made) ↦
                            let same : record p { attempts = p.attempts ++ attempt ∷ [] } ≡ q =
                              ground arith in
                            (
                              ap (λ (x : Progress). x.current) (sym same),
                              ap (λ (x : Progress). x.attempted) (sym same),
                            )
                      ]
          ]
        ]
  ]

  -- A turn that does not change the state leaves fewer candidates to try.
  turn-retry :
      (p q : Progress) (discovered : List RuleApplicationCandidate)
      → discover_rule_applications P puzzle p.current rules ≡ ok discovered
      → one_turn p ≡ ok (retry q)
      → (q.current ≡ p.current) × (length (untried q discovered) < length (untried p discovered))
  unfolding turn
  turn-retry p q discovered found h =
      elim (Option-cases (select_rule_application (untried p discovered) policy)) [
        | inl nothing ↦ absurd (ground arith)
        | inr (c, chosen) ↦
            let marked : Progress = record p {
              attempted = add (p.current.state_hash, c.candidate_id) p.attempted;
            } in
            let (state, attempted) = consider-retry marked q c (ground arith) in
            let same : untried q discovered ≡ untried marked discovered =
              rw (state, attempted) refl in
            let here =
              ((select_rule_application-minimal policy (untried p discovered)).1 c chosen).0 in
            (state, rw same (untried-add p c discovered here))
      ]

  turns-fuel :
      (fuel : ℕ) (p q : Progress) (discovered : List RuleApplicationCandidate)
      → discover_rule_applications P puzzle p.current rules ≡ ok discovered
      → length (untried p discovered) < fuel
      → turns P R rules authority puzzle context policy timeout fuel p ≢ ok (retry q)
  unfolding turns
  turns-fuel zero p q discovered found enough h = omega (arith, enough)
  turns-fuel (suc fuel) p q discovered found enough h = elim (Result-cases (one_turn p)) [
    | inr (x, failed) ↦ ground arith
    | inl (finish s r next, turned) ↦ ground arith
    | inl (advance next, turned) ↦ ground arith
    | inl (retry next, turned) ↦
        let (state, fewer) = turn-retry p next discovered found turned in
        turns-fuel fuel next q discovered (rw state found) (omega (arith, fewer, enough))
          (ground arith)
  ]

  turns-stops :
      (p q : Progress)
      → turns P R rules authority puzzle context policy timeout
          (fuel_for P R rules authority puzzle context policy timeout p)
          p
        ≢ ok (retry q)
  unfolding turns turn
  turns-stops p q h = elim (Result-cases (discover_rule_applications P puzzle p.current rules)) [
    | inl (discovered, found) ↦
        let fuel = fuel_for P R rules authority puzzle context policy timeout p in
        let given_fuel : fuel ≡ suc (length discovered) = ground (arith, found) in
        let fewer : length (untried p discovered) ≤ length discovered = length-keep _ discovered in
        turns-fuel fuel p q discovered found (omega (arith, given_fuel, fewer)) h
    | inr (x, failed) ↦ absurd (ground (arith, failed))
  ]

  -- Whatever the rules and the authority do, the loop ends with one of the statuses or with the
  -- exception of a part it calls: it never runs out of the fuel that the model gives it.
  pub run-returns :
      (steps : ℕ) (p : Progress)
      → ((o : HumanSolveStatus × Option StalledReason × Progress) × (run P R rules authority puzzle
              context policy timeout steps p
            ≡ ok (stopped o.0 o.1 o.2)))
        ⊎ ((x : Error) × (run P R rules authority puzzle context policy timeout steps p ≡ err x))
  unfolding run
  run-returns zero p = elim (Bool-cases p.current.solved) [
    | inl over ↦ inl ((HumanSolveStatus.solved, none, p), rw over refl)
    | inr further ↦ inl ((limit_reached, some max_steps_reached, p), rw further refl)
  ]
  run-returns (suc steps) p = elim (Bool-cases p.current.solved) [
    | inl over ↦ inl ((HumanSolveStatus.solved, none, p), rw over refl)
    | inr further ↦
        let fuel = fuel_for P R rules authority puzzle context policy timeout p in
        elim (Result-cases (turns P R rules authority puzzle context policy timeout fuel p)) [
          | inr (x, failed) ↦ inr (x, ground arith)
          | inl (finish status reason q, turned) ↦ inl ((status, reason, q), ground arith)
          | inl (retry q, turned) ↦ absurd (turns-stops p q turned)
          | inl (advance q, turned) ↦ elim (run-returns steps q) [
            | inl (o, returned) ↦ inl (o, ground arith)
            | inr (x, failed) ↦ inr (x, ground arith)
          ]
        ]
  ]
