-- ===== src/Families/LogicGrid/Play/Undo.antt =====
-- Redoing the move that was undone gives the marks back.
use mathlib.Core.Path.{subst}
use deductra.Common.{
  String, ◌≡◌, refl, sym, ap, ◌∙◌, inl, inr, Bool, true, Option, some, [], ◌∷◌, ◌++◌, arith,
  some_injective, if-cases, match-cases, ok, >>=-eq-ok, ok-injective,
}
use deductra.Common.Dict.{lookup, subscript}
use deductra.Common.{pair_eq}
use deductra.Canonical.{Platform}
use deductra.Families.LogicGrid.Specification.{LogicGridSpec}
use deductra.Families.LogicGrid.Play.{
  active, PlayAction, undo_move, redo_move, PlayEvent, LogicGridPlaySession, PlayActionResult,
}
use deductra.Families.LogicGrid.Play.Session.{unsigned_session, signed_session}
use deductra.Families.LogicGrid.Play.History.{move_events, project_marks}
use deductra.Families.LogicGrid.Play.Conflicts.{automatic_conflicts}
use deductra.Families.LogicGrid.Play.Outcome.{Outcome, session_parts, unsigned_play_event, stay}
use deductra.Families.LogicGrid.Play.Actions.{
  move_to, nothing_to_undo, undone, decide_undo, can_redo, redone, not_redone, decide_redo,
  decide_active, decide_unless_paused, decide_open, decide,
}
use deductra.Families.LogicGrid.Play.Replay.{apply_logic_grid_play_action}
use deductra.Families.LogicGrid.Play.Steps.{perform-Performed}
use deductra.Families.LogicGrid.Play.Roundtrip.{apply_logic_grid_play_action-ok}
use deductra.Families.LogicGrid.Play.Moves.{
  move_events-append_other, SameMarks, SameMarks-sym, SameMarks-trans,
}
use deductra.Families.LogicGrid.Play.Projection.{
  session_marks, signed-same, replay_logic_grid_play-IsProjected,
}

-- What moving the cursor decides.
record Cursor (s : LogicGridPlaySession) (p : LogicGridSpec) (accepted : Bool)
    (target : Option String) (o : Outcome) : Type 0 where
  taken : o.accepted ≡ accepted
  head : o.resulting_move_id ≡ target
  status : o.status ≡ s.status
  projected : project_marks p (move_events s.events) target ≡ ok o.marks

move_to-Cursor :
    (s : LogicGridPlaySession) (p : LogicGridSpec) (accepted : Bool) (target : Option String)
    (code message : String) {o : Outcome}
    → move_to s p accepted target code message ≡ ok o
    → Cursor s p accepted target o
unfolding move_to stay
move_to-Cursor s p accepted target code message h =
    let (marks, projected, h1) = >>=-eq-ok (project_marks p (move_events s.events) target) _ h in
    let (conflicts, found, h2) = >>=-eq-ok (automatic_conflicts s.validation_mode p marks) _ h1 in
    subst (Cursor s p accepted target) (ok-injective h2)
      (record { taken = refl; head = refl; status = refl; projected = projected })

module _ (P : Platform) (p : LogicGridSpec) where
  decide-active :
      (s : LogicGridPlaySession) (event_id : String) (action : PlayAction)
      → s.status ≡ active
      → decide P s p event_id action ≡ decide_open P s p event_id action
  unfolding decide
  decide-active s event_id action a = ground (arith, a)

  unless_paused-active :
      (s : LogicGridPlaySession) (event_id : String) (action : PlayAction)
      → s.status ≡ active
      → decide_unless_paused s p event_id action ≡ decide_active s p event_id action
  unfolding decide_unless_paused
  unless_paused-active s event_id action a = ground (arith, a)

  -- An undo of an active session with a move goes to the parent of that move.
  decide-undo :
      (s : LogicGridPlaySession) (event_id head : String) {o : Outcome}
      → s.status ≡ active
      → s.active_move_id ≡ some head
      → decide P s p event_id undo_move ≡ ok o
      → (event : PlayEvent) × (lookup head (move_events s.events) ≡ some event)
        × Cursor s p true event.parent_move_id o
  unfolding decide_open decide_active decide_undo subscript
  decide-undo s event_id head {o} a e h =
      let h1 = sym (decide-active s event_id undo_move a) ∙ h in
      let h2 = sym (unless_paused-active s event_id undo_move a) ∙ h1 in
      elim (match-cases s.active_move_id (nothing_to_undo s p) (undone s p) h2) [
        | inl (no_move, rest) ↦ absurd (cc (no_move, e))
        | inr (other, same, rest) ↦
            let own : other ≡ head = some_injective (sym same ∙ e) in
            let (event, found, moved) =
              >>=-eq-ok (subscript other (move_events s.events))
                (λ event.
                  move_to s p true event.parent_move_id "move_undone"
                    "The active move was undone without deleting history.")
                rest in
            (
              event,
              ap (λ i. lookup i (move_events s.events)) (sym own) ∙ ground (arith, found),
              move_to-Cursor s p true event.parent_move_id _ _ moved,
            )
      ]

  decide-redo :
      (s : LogicGridPlaySession) (event_id target : String) (event : PlayEvent) {o : Outcome}
      → s.status ≡ active
      → lookup target (move_events s.events) ≡ some event
      → event.parent_move_id ≡ s.active_move_id
      → decide P s p event_id (redo_move target) ≡ ok o
      → Cursor s p true (some target) o
  unfolding decide_open decide_active decide_redo
  decide-redo s event_id target event {o} a found parent h =
      let h1 = sym (decide-active s event_id (redo_move target) a) ∙ h in
      let h2 = sym (unless_paused-active s event_id (redo_move target) a) ∙ h1 in
      elim (if-cases (can_redo s target) (redone s p target) (not_redone s p) h2) [
        | inl (can, moved) ↦ move_to-Cursor s p true (some target) _ _ moved
        | inr (cannot, moved) ↦ absurd (ground (arith, found, parent))
      ]

  -- If an undo of an active session with an active move returns, and then a redo of that move, both
  -- are accepted, the move is active again, and the marks are those before.
  pub redo_move-undo_move :
      (s : LogicGridPlaySession) (i j head : String) {r t : PlayActionResult}
      → s.status ≡ active
      → s.active_move_id ≡ some head
      → apply_logic_grid_play_action P s p i undo_move ≡ ok r
      → apply_logic_grid_play_action P r.session p j (redo_move head) ≡ ok t
      → (r.accepted ≡ true)
        × (t.accepted ≡ true)
        × (t.session.active_move_id ≡ some head)
        × SameMarks (session_marks t.session) (session_marks s)
  unfolding signed_session unsigned_session session_parts unsigned_play_event
  redo_move-undo_move s i j head {r} {t} open_session moved undid redid =
      let (applicable, again, first) = apply_logic_grid_play_action-ok P s p i undo_move undid in
      let (applicable2, again2, second) =
        apply_logic_grid_play_action-ok P r.session p j (redo_move head) redid in
      let k =
        replay_logic_grid_play-IsProjected P p s.attempt_id s.validation_mode s.events again in
      let d = perform-Performed P s p i undo_move first in
      let (event, found, c) = decide-undo s i head open_session moved d.decided in
      let grown : r.session.events ≡ s.events ++ d.event ∷ [] = ap (λ x. x.events) d.result in
      let acts : d.event.action ≡ undo_move = ap (λ e. e.action) d.sealed in
      let moves : move_events r.session.events ≡ move_events s.events =
        ap move_events grown ∙ move_events-append_other s.events d.event (ground (arith, acts)) in
      let at_parent : r.session.active_move_id ≡ event.parent_move_id =
        ap (λ x. x.active_move_id) d.result ∙ c.head in
      let still_open : r.session.status ≡ active =
        ap (λ x. x.status) d.result ∙ (c.status ∙ open_session) in
      let d2 = perform-Performed P r.session p j (redo_move head) second in
      let c2 =
        decide-redo r.session j head event still_open (ap (lookup head) moves ∙ found)
          (sym at_parent) d2.decided in
      let own : d2.outcome.marks ≡ k.marks = ok-injective (
        sym c2.projected
        ∙ (ap (λ m. project_marks p m (some head)) moves
            ∙ (ap (project_marks p (move_events s.events)) (sym moved) ∙ k.projected))) in
      let result : t.session
          ≡ signed_session P
              (session_parts r.session d2.outcome (r.session.events ++ d2.event ∷ [])) =
        d2.result in
      (
        d.taken ∙ c.taken,
        d2.taken ∙ c2.taken,
        ap (λ x. x.active_move_id) result ∙ c2.head,
        subst (λ x. SameMarks (session_marks x) (session_marks s)) (sym result)
            (SameMarks-trans
              (signed-same P
                (session_parts r.session d2.outcome (r.session.events ++ d2.event ∷ [])))
              (subst (λ m. SameMarks m (session_marks s)) (sym own) (SameMarks-sym k.same))),
      )
