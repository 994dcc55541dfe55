-- ===== src/Families/LogicGrid/Play/Completion.antt =====
-- A completed session holds a solution of its puzzle.
use mathlib.Core.Path.{subst}
use deductra.Common.{String, ◌≡◌, sym, ap, ◌∙◌, inl, inr, true, List, [], ok, ok-injective}
use deductra.Common.Dict.{Dict, sort_items, sort_items_idem}
use deductra.Common.Dict.Items.{NewTo-nil, dict_of_new}
use deductra.Canonical.{Platform}
use deductra.Domain.Values.{Domain}
use deductra.Families.LogicGrid.Specification.{LogicGridSpec, anchor_domain}
use deductra.Families.LogicGrid.Specification.Contract.{validate_logic_grid_spec}
use deductra.Families.LogicGrid.Checker.{LogicGridSolutionCheck, check_logic_grid_solution}
use deductra.Families.LogicGrid.Checker.Acceptance.{
  IsSolution, check_logic_grid_solution-IsSolution,
}
use deductra.Families.LogicGrid.Play.{
  PlayValidationMode, active, completed, PlayAction, PlayEvent, LogicGridPlaySession,
  PlayActionResult,
}
use deductra.Families.LogicGrid.Play.Session.{
  validate_session_shape, unsigned_session, signed_session,
}
use deductra.Families.LogicGrid.Play.History.{given_marks}
use deductra.Families.LogicGrid.Play.Outcome.{session_parts, marks_of}
use deductra.Families.LogicGrid.Play.Replay.{
  start_parts, start_logic_grid_play, check_applicable, replay_logic_grid_play,
}
use deductra.Families.LogicGrid.Play.Steps.{
  Performed, start_logic_grid_play-ok, replay_logic_grid_play-keeps,
}
use deductra.Families.LogicGrid.Play.Effects.{decide-Effect}
use deductra.Families.LogicGrid.Play.Projection.{shape-Distinct}

module _ (P : Platform) (p : LogicGridSpec) where
  abbrev Accepted : Dict String → Type 0
  Accepted d =
      (r : LogicGridSolutionCheck) × (check_logic_grid_solution p d ≡ ok r) × (r.accepted ≡ true)

  record Checked (s : LogicGridPlaySession) : Type 0 where
    shape : validate_session_shape P s ≡ ok tt
    sorted : sort_items s.assignments ≡ s.assignments
    solved : s.status ≡ completed → Accepted s.assignments

  -- The dict and the sorted tuple of a session's assignments are the same list.
  marks_of-assignments :
      (s : LogicGridPlaySession) → Checked s → sort_items (marks_of s).assignments ≡ s.assignments
  unfolding marks_of
  marks_of-assignments s c =
      ap sort_items
        (dict_of_new [] s.assignments (shape-Distinct P s c.shape) (NewTo-nil s.assignments))
      ∙ c.sorted

  Performed-Checked :
      (s : LogicGridPlaySession) (event_id : String) (action : PlayAction) (r : PlayActionResult)
      → check_applicable P s p event_id ≡ ok tt
      → Performed P s p event_id action r
      → Checked s
      → Checked r.session
  unfolding signed_session unsigned_session session_parts
  Performed-Checked s event_id action r applicable d c =
      let o = d.outcome in
      let status : r.session.status ≡ o.status = ap (λ t. t.status) d.result in
      let assigned : r.session.assignments ≡ sort_items o.marks.assignments =
        ap (λ t. t.assignments) d.result in
      record {
        shape = d.shape;
        sorted = ap sort_items assigned ∙ (sort_items_idem o.marks.assignments ∙ sym assigned);
        solved = λ e. elim (decide-Effect s p event_id P action d.decided) [
          | inl st ↦
              let (kept, why) = st.status (sym status ∙ e) in
              let own : s.assignments ≡ r.session.assignments =
                sym (
                  assigned
                  ∙ (ap (λ m. sort_items m.assignments) kept ∙ marks_of-assignments s c)) in
              elim why [
                | inl before ↦ subst Accepted own (c.solved before)
                | inr now ↦ subst Accepted (marks_of-assignments s c ∙ own) now
              ]
          | inr pl ↦ absurd (pl.unfinished (sym pl.status ∙ (sym status ∙ e)))
        ];
      }

  started-Checked :
      (attempt_id : String) (mode : PlayValidationMode) (s : LogicGridPlaySession)
      → start_logic_grid_play P p attempt_id mode ≡ ok s
      → Checked s
  unfolding signed_session unsigned_session start_parts
  started-Checked attempt_id mode s h =
      let (same, shape) = start_logic_grid_play-ok P p attempt_id mode h in
      record {
        shape = shape;
        sorted =
            subst (λ t. sort_items t.assignments ≡ t.assignments) (sym same)
              (sort_items_idem (given_marks p).assignments);
        solved = λ e. let status : s.status ≡ active = ap (λ t. t.status) same in cc;
      }

  -- If a session that a replay returns is completed, for a validated puzzle, then its assignments
  -- are a solution of the puzzle.
  pub replay_logic_grid_play-IsSolution :
      (attempt_id : String) (mode : PlayValidationMode) (events : List PlayEvent)
      {s : LogicGridPlaySession}
      → validate_logic_grid_spec p ≡ ok tt
      → replay_logic_grid_play P p attempt_id mode events ≡ ok s
      → s.status ≡ completed
      → (anchor : Domain) × (anchor_domain p ≡ ok anchor) × IsSolution p anchor s.assignments
  replay_logic_grid_play-IsSolution attempt_id mode events {s} valid h e =
      let c =
        replay_logic_grid_play-keeps P p Checked Performed-Checked attempt_id mode events
          (started-Checked attempt_id mode) h in
      let (r, checked, accepted) = c.solved e in
      let (anchor, r2, found, again, t) =
        check_logic_grid_solution-IsSolution p s.assignments valid in
      (anchor, found, t.0 (ap (λ r. r.accepted) (ok-injective (sym again ∙ checked)) ∙ accepted))
