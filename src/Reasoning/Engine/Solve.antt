-- ===== src/Reasoning/Engine/Solve.antt =====
-- src/deductra/reasoning/engine.py: what a trace that `HumanReasoningEngine.solve` returns says.
use mathlib.Core.Path.{subst}
use deductra.Common.{
  ℕ, ◌≤◌, String, ◌≡◌, refl, sym, ap, ◌↔◌, ◌⊎◌, inl, inr, true, false, List, [], arith, length,
  Error, err, ok, >>=-eq-ok, ok-injective, Result-cases,
}
use deductra.Common.Int.{ℤ, pos, pos_part, leb_ℤ}
use deductra.Canonical.{Platform}
use deductra.Domain.Puzzle.{PuzzleSpec}
use deductra.Reasoning.Integrity.{genesis_event_hash}
use deductra.Reasoning.State.{PuzzleState}
use deductra.Reasoning.State.Validation.{validate_state}
use deductra.Reasoning.Rules.{ReasoningRule}
use deductra.Reasoning.Policy.{ReasoningPolicy}
use deductra.Reasoning.Engine.{
  HumanSolveStatus, HumanSolveContext, HumanSolveTrace, dump_trace, check_reason,
  compute_human_trace_hash, validate_trace, build_trace,
}
use deductra.Reasoning.Engine.Loop.{stopped, Rendering, Authority, run, start, trace_of, solve}
use deductra.Reasoning.Engine.Loop.Termination.{run-returns}
use deductra.Reasoning.Engine.Loop.Derivation.{Derives, Reduces, run-reason, run-Derives}

-- A trace tells the truth about a run from one state.
pub record Tells (P : Platform) (initial_state : PuzzleState) (previous : String) (steps : ℕ)
    (t : HumanSolveTrace) : Type 0 where
  pub final : PuzzleState
  pub last : String
  pub derives : Derives P initial_state previous t.events final last
  pub few : length t.events ≤ steps
  pub initial_hash : t.initial_state_hash ≡ initial_state.state_hash
  pub final_hash : t.final_state_hash ≡ final.state_hash
  pub solved_iff : (t.status ≡ HumanSolveStatus.solved) ↔ (final.solved ≡ true)
  pub hash : t.trace_hash ≡ compute_human_trace_hash P t

module _ (P : Platform) (R : Rendering) (rules : List ReasoningRule) (authority : Authority)
    (puzzle : PuzzleSpec) (context : HumanSolveContext) (policy : ReasoningPolicy)
    (timeout : ℤ) where
  build_trace-eq-ok :
      (unsigned t : HumanSolveTrace)
      → build_trace P unsigned ≡ ok t
      → t ≡ record unsigned { trace_hash = compute_human_trace_hash P unsigned }
  unfolding build_trace
  build_trace-eq-ok unsigned t h =
      let (x, checked, same) =
        >>=-eq-ok
          (validate_trace P (record unsigned { trace_hash = compute_human_trace_hash P unsigned }))
          _ h in
      sym (ok-injective same)

  build_trace_ok :
      (unsigned : HumanSolveTrace)
      → check_reason unsigned.status unsigned.stalled_reason ≡ ok tt
      → (t : HumanSolveTrace) × (build_trace P unsigned ≡ ok t)
  unfolding build_trace validate_trace compute_human_trace_hash dump_trace
  build_trace_ok unsigned allowed =
      (record unsigned { trace_hash = compute_human_trace_hash P unsigned }, ground arith)

  -- If the authority answers only with states of the reducer, a returned trace lists at most
  -- `max_steps` events, linked to the context's event hash and to one another, which reduce the
  -- initial state to the one whose hash it names; it says `solved` exactly when that state is
  -- solved, and its own digest is right.
  pub solve-Tells :
      Reduces P authority
      → (initial_state : PuzzleState) (max_steps : ℤ) (t : HumanSolveTrace)
      → solve P R rules authority puzzle context policy timeout initial_state max_steps ≡ ok t
      → Tells P initial_state context.previous_event_hash (pos_part max_steps) t
  unfolding solve trace_of
  solve-Tells law initial_state max_steps t h =
      elim (Result-cases (validate_state initial_state puzzle)) [
        | inr (x, failed) ↦ absurd (ground arith)
        | inl (violations, validated) ↦
            let begin = start P R rules authority puzzle context policy timeout initial_state in
            elim (run-returns P R rules authority puzzle context policy timeout (pos_part max_steps)
              begin) [
                | inr (x, failed) ↦ absurd (ground arith)
                | inl ((status, reason, p), returned) ↦
                    let (es, events, few, derives, iff) =
                      run-Derives P R rules authority puzzle context policy timeout law
                        (pos_part max_steps) begin p status reason returned in
                    let built : trace_of P R rules authority puzzle context policy timeout
                          initial_state (stopped status reason p)
                        ≡ ok t =
                      ground arith in
                    let same = build_trace-eq-ok _ t built in
                    record {
                      final = p.current;
                      last = p.previous_event_hash;
                      derives = rw same (
                          subst
                            (λ xs.
                              Derives P initial_state context.previous_event_hash xs p.current
                                p.previous_event_hash)
                            (sym events) derives);
                      few = rw same (subst (λ xs. length xs ≤ pos_part max_steps) (sym events) few);
                      initial_hash = ap (λ (x : HumanSolveTrace). x.initial_state_hash) same;
                      final_hash = ap (λ (x : HumanSolveTrace). x.final_state_hash) same;
                      solved_iff = rw same iff;
                      hash = rw same (unfold compute_human_trace_hash dump_trace in refl);
                    }
              ]
      ]

  -- From a valid initial state with a positive number of steps and a positive timeout, solve
  -- returns a trace unless one of the parts that the loop calls raises: the validator of the trace
  -- does not object to what the loop leaves.
  pub solve-returns :
      (initial_state : PuzzleState) (max_steps : ℤ)
      → leb_ℤ max_steps (pos 0) ≡ false
      → leb_ℤ timeout (pos 0) ≡ false
      → validate_state initial_state puzzle ≡ ok []
      → ((t : HumanSolveTrace) × (solve P R rules authority puzzle context policy timeout
              initial_state max_steps
            ≡ ok t))
        ⊎ ((x : Error) × (run P R rules authority puzzle context policy timeout
                (pos_part max_steps)
                (start P R rules authority puzzle context policy timeout initial_state)
              ≡ err x)
            × (solve P R rules authority puzzle context policy timeout initial_state max_steps
                ≡ err x))
  unfolding solve trace_of
  solve-returns initial_state max_steps some_steps some_time valid_state =
      let begin = start P R rules authority puzzle context policy timeout initial_state in
      elim (run-returns P R rules authority puzzle context policy timeout (pos_part max_steps)
        begin) [
          | inr (x, failed) ↦ inr (x, failed, ground arith)
          | inl ((status, reason, p), returned) ↦
              let allowed =
                run-reason P R rules authority puzzle context policy timeout (pos_part max_steps)
                  begin p status reason returned in
              let built =
                build_trace_ok
                  (record {
                    trace_id = context.trace_id;
                    puzzle_revision_id = puzzle.identity.revision_id;
                    policy = policy;
                    status = status;
                    stalled_reason = reason;
                    initial_state_hash = initial_state.state_hash;
                    final_state_hash = p.current.state_hash;
                    attempts = p.attempts;
                    events = p.events;
                    trace_hash = genesis_event_hash;
                  })
                  allowed in
              inl (built.0, ground (arith, built.1))
        ]
