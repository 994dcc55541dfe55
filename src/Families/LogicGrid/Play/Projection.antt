-- ===== src/Families/LogicGrid/Play/Projection.antt =====
-- The marks of a session are those that the moves on the path to its active move make.
use mathlib.Core.Path.{subst}
use deductra.Common.{
  String, ◌≡◌, refl, sym, ap, ◌∙◌, inl, inr, true, false, ◌&&◌, some, List, [], ◌∷◌, ◌++◌, map,
  arith, match-cases, string_eq, nat_eq, bool_eq, contains, Distinct, contains-to_set,
  unique-Distinct, contains-sort_by, ok, ◌>>=◌, >>=-eq-ok,
}
use deductra.Common.Dict.{Dict, keys, lookup, insert, dict_of, lookup-sort_items}
use deductra.Common.Dict.Items.{lookup-dict_of}
use deductra.Common.{pair_eq}
use deductra.Canonical.{Platform}
use deductra.Families.LogicGrid.Specification.{LogicGridSpec}
use deductra.Families.LogicGrid.Play.{
  PlayValidationMode, CellAction, PlayAction, cell, PlayEvent, LogicGridPlaySession,
  PlayActionResult, play_event_eq, play_session_eq,
}
use deductra.Families.LogicGrid.Play.Session.{
  pair_le, validate_session_shape, SessionParts, unsigned_session, signed_session,
}
use deductra.Families.LogicGrid.Play.History.{
  Marks, given_marks, is_cell, cell_of, is_move, move_events, path_from, active_path,
  apply_cell_action, apply_path, project_marks,
}
use deductra.Families.LogicGrid.Play.Outcome.{Outcome, session_parts, unsigned_play_event, marks_of}
use deductra.Families.LogicGrid.Play.Replay.{
  start_parts, start_logic_grid_play, check_applicable, replay_logic_grid_play,
}
use deductra.Families.LogicGrid.Play.Steps.{
  Performed, start_logic_grid_play-ok, replay_logic_grid_play-keeps,
}
use deductra.Families.LogicGrid.Play.Effects.{Stays, Plays, decide-Effect}
use deductra.Families.LogicGrid.Play.Moves.{
  move_events-append, move_events-append_other, move_events-fresh, active_path-insert, SameMarks,
  SameMarks-trans, apply_cell_action-SameMarks,
}

abbrev pub session_marks : LogicGridPlaySession → Marks
session_marks s = record { assignments = s.assignments; exclusions = s.exclusions }

-- The marks of the session are the projection of its history at its cursor.
pub record IsProjected (p : LogicGridSpec) (s : LogicGridPlaySession) : Type 0 where
  pub marks : Marks
  pub projected : project_marks p (move_events s.events) s.active_move_id ≡ ok marks
  pub same : SameMarks (session_marks s) marks

apply_path-append :
    (m : Marks) (path : List PlayEvent) (e : PlayEvent) (a : CellAction) {n : Marks}
    → e.action ≡ cell a
    → apply_path m path ≡ ok n
    → apply_path m (path ++ e ∷ []) ≡ ok (apply_cell_action n a)
unfolding apply_path
apply_path-append m [] e a acts h = ground (arith, acts)
apply_path-append m (x ∷ path) e a {n} acts h =
    elim (match-cases (cell_of x.action) _ (λ b. apply_path (apply_cell_action m b) path) h) [
      | inl (none_there, f) ↦ absurd (ground arith)
      | inr (b, some_there, rest) ↦
          let ih = apply_path-append (apply_cell_action m b) path e a acts rest in
          ground (arith, some_there, ih)
    ]

project_marks-insert :
    (p : LogicGridSpec) (d : Dict PlayEvent) (e : PlayEvent) (a : CellAction) {m : Marks}
    → contains (keys d) e.event_id ≡ false
    → e.action ≡ cell a
    → project_marks p d e.parent_move_id ≡ ok m
    → project_marks p (insert e.event_id e d) (some e.event_id) ≡ ok (apply_cell_action m a)
unfolding project_marks
project_marks-insert p d e a {m} fresh acts h =
    let (path, walked, applied) = >>=-eq-ok (active_path d e.parent_move_id) _ h in
    ap (λ r. r >>= λ path. apply_path (given_marks p) path) (active_path-insert d e fresh walked)
    ∙ apply_path-append (given_marks p) path e a acts applied

module _ (P : Platform) where
  pub shape-Distinct :
      (s : LogicGridPlaySession)
      → validate_session_shape P s ≡ ok tt
      → Distinct (keys s.assignments)
  unfolding validate_session_shape
  shape-Distinct s h = (unique-Distinct (keys s.assignments)).0 (ground arith)

  -- The marks that an action starts from are those of the session.
  pub marks_of-same :
      (s : LogicGridPlaySession)
      → validate_session_shape P s ≡ ok tt
      → SameMarks (marks_of s) (session_marks s)
  unfolding marks_of lookup
  marks_of-same s shape = record {
    assignments = λ v. lookup-dict_of v [] s.assignments (shape-Distinct s shape) ∙ ground arith;
    exclusions = λ c. contains-to_set c s.exclusions;
  }

  -- Sorting the marks changes none of them.
  pub signed-same :
      (a : SessionParts)
      → SameMarks
          (session_marks (signed_session P a))
          (record { assignments = a.assignments; exclusions = a.exclusions })
  unfolding signed_session unsigned_session
  signed-same a = record {
    assignments = λ v. lookup-sort_items v a.assignments;
    exclusions = λ c. contains-sort_by pair_le c a.exclusions;
  }

  module _ (p : LogicGridSpec) where
    -- What the induction carries.
    pub record Kept (s : LogicGridPlaySession) : Type 0 where
      pub shape : validate_session_shape P s ≡ ok tt
      pub projection : IsProjected p s

    -- The session that an outcome makes, after the event for it.
    abbrev next_session : LogicGridPlaySession → Outcome → PlayEvent → LogicGridPlaySession
    next_session s o e = signed_session P (session_parts s o (s.events ++ e ∷ []))

    Stays-IsProjected :
        (s : LogicGridPlaySession) (event_id : String) (action : PlayAction) (o : Outcome)
        (e : PlayEvent)
        → validate_session_shape P s ≡ ok tt
        → is_move e ≡ false
        → Stays s p event_id action o
        → IsProjected p s
        → IsProjected p (next_session s o e)
    unfolding signed_session unsigned_session session_parts
    Stays-IsProjected s event_id action o e shape no_move st k =
        let moves = move_events-append_other s.events e no_move in
        let signed = signed-same (session_parts s o (s.events ++ e ∷ [])) in
        elim st.marks [
          | inl (m, head) ↦ record {
            marks = k.marks;
            projected =
                ap (λ d. project_marks p d o.resulting_move_id) moves
                ∙ (ap (project_marks p (move_events s.events)) head ∙ k.projected);
            same = SameMarks-trans signed (
                subst (λ n. SameMarks n k.marks) (sym m)
                  (SameMarks-trans (marks_of-same s shape) k.same));
          }
          | inr projected ↦ record {
            marks = o.marks;
            projected = ap (λ d. project_marks p d o.resulting_move_id) moves ∙ projected;
            same = signed;
          }
        ]

    Plays-IsProjected :
        (s : LogicGridPlaySession) (event_id : String) (action : PlayAction) (o : Outcome)
        (e : PlayEvent)
        → validate_session_shape P s ≡ ok tt
        → contains (map (λ e. e.event_id) s.events) e.event_id ≡ false
        → is_move e ≡ true
        → e.event_id ≡ event_id
        → e.action ≡ action
        → e.parent_move_id ≡ s.active_move_id
        → Plays s p event_id action o
        → IsProjected p s
        → IsProjected p (next_session s o e)
    unfolding signed_session unsigned_session session_parts
    Plays-IsProjected s event_id action o e shape fresh move named acts parent pl k =
        let moves = move_events-append s.events e move in
        let inserted =
          project_marks-insert p (move_events s.events) e pl.mark
            (move_events-fresh s.events e.event_id fresh) (acts ∙ pl.acts)
            (ap (project_marks p (move_events s.events)) parent ∙ k.projected) in
        record {
          marks = apply_cell_action k.marks pl.mark;
          projected =
              ap (λ d. project_marks p d o.resulting_move_id) moves
              ∙ (ap (project_marks p (insert e.event_id e (move_events s.events)))
                    (pl.head ∙ ap some (sym named))
                  ∙ inserted);
          same = SameMarks-trans (signed-same (session_parts s o (s.events ++ e ∷ []))) (
              subst (λ n. SameMarks n (apply_cell_action k.marks pl.mark)) (sym pl.marks)
                (apply_cell_action-SameMarks pl.mark
                  (SameMarks-trans (marks_of-same s shape) k.same)));
        }

    Performed-Kept :
        (s : LogicGridPlaySession) (event_id : String) (action : PlayAction) (r : PlayActionResult)
        → check_applicable P s p event_id ≡ ok tt
        → Performed P s p event_id action r
        → Kept s
        → Kept r.session
    unfolding check_applicable unsigned_play_event
    Performed-Kept s event_id action r applicable d k =
        let o = d.outcome in
        let e = d.event in
        let named : e.event_id ≡ event_id = ap (λ e. e.event_id) d.sealed in
        let acts : e.action ≡ action = ap (λ e. e.action) d.sealed in
        let accepted : e.accepted ≡ o.accepted = ap (λ e. e.accepted) d.sealed in
        let parent : e.parent_move_id ≡ s.active_move_id = ap (λ e. e.parent_move_id) d.sealed in
        let fresh : contains (map (λ e. e.event_id) s.events) event_id ≡ false = ground arith in
        let kind : is_move e ≡ (o.accepted && is_cell action) = cc (accepted, acts) in
        let next : IsProjected p (next_session s o e) =
          elim (decide-Effect s p event_id P action d.decided) [
            | inl st ↦
                Stays-IsProjected s event_id action o e k.shape (kind ∙ st.no_move) st k.projection
            | inr pl ↦
                Plays-IsProjected s event_id action o e k.shape
                  (ap (contains (map (λ e. e.event_id) s.events)) named ∙ fresh)
                  (kind ∙ cc (pl.accepted, pl.acts)) named acts parent pl k.projection
          ] in
        record { shape = d.shape; projection = subst (IsProjected p) (sym d.result) next }

    started-Kept :
        (attempt_id : String) (mode : PlayValidationMode) (s : LogicGridPlaySession)
        → start_logic_grid_play P p attempt_id mode ≡ ok s
        → Kept s
    unfolding signed_session unsigned_session start_parts project_marks active_path path_from
        apply_path move_events dict_of
    started-Kept attempt_id mode s h =
        let (same, shape) = start_logic_grid_play-ok P p attempt_id mode h in
        record {
          shape = shape;
          projection = subst (IsProjected p) (sym same) (record {
            marks = given_marks p;
            projected = refl;
            same = signed-same (start_parts p attempt_id mode);
          });
        }

    pub replay_logic_grid_play-Kept :
        (attempt_id : String) (mode : PlayValidationMode) (events : List PlayEvent)
        {s : LogicGridPlaySession}
        → replay_logic_grid_play P p attempt_id mode events ≡ ok s
        → Kept s
    replay_logic_grid_play-Kept attempt_id mode events h =
        replay_logic_grid_play-keeps P p Kept Performed-Kept attempt_id mode events
          (started-Kept attempt_id mode) h

  -- The marks of a session that a replay returns are the givens, changed in turn by the moves on
  -- the path to its active move.
  pub replay_logic_grid_play-IsProjected :
      (p : LogicGridSpec) (attempt_id : String) (mode : PlayValidationMode)
      (events : List PlayEvent) {s : LogicGridPlaySession}
      → replay_logic_grid_play P p attempt_id mode events ≡ ok s
      → IsProjected p s
  replay_logic_grid_play-IsProjected p attempt_id mode events h =
      (replay_logic_grid_play-Kept p attempt_id mode events h).projection
