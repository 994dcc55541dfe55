-- ===== src/Families/LogicGrid/Play/Effects.antt =====
-- What the branches of an action decide: marks that are kept, a cursor that moves, or a new move.
use mathlib.Core.Path.{subst}
use deductra.Common.{
  String, ◌≡◌, refl, ◌≢◌, ◌⊎◌, inl, inr, Bool, true, false, not, ◌&&◌, Option, none, some, List, [],
  map, arith, eqb, if◌then◌else◌, if-cases, match-cases, if-both, ◌==◌, string_eq, pair_eq, nat_eq,
  bool_eq, length, find, contains, ok, >>=-eq-ok, ok-injective,
}
use deductra.Common.Dict.{subscript, sort_items}
use deductra.Canonical.{Platform}
use deductra.Families.LogicGrid.Specification.{LogicGridSpec}
use deductra.Families.LogicGrid.Checker.{LogicGridSolutionCheck, check_logic_grid_solution}
use deductra.Families.LogicGrid.Play.{
  PlayValidationMode, exam, PlaySessionStatus, active, paused, completed, CellAction, PlayAction,
  cell, undo_move, redo_move, check_completion, validate_progress, pause_session, resume_session,
  create_checkpoint, restore_checkpoint, PlayConflict, PlayCheckpoint, LogicGridPlaySession,
  play_event_eq, play_session_eq,
}
use deductra.Families.LogicGrid.Play.History.{
  is_cell, move_events, apply_cell_action, project_marks, cell_rejection,
}
use deductra.Families.LogicGrid.Play.Conflicts.{progress_conflicts, automatic_conflicts}
use deductra.Families.LogicGrid.Play.Outcome.{Outcome, marks_of, stay}
use deductra.Families.LogicGrid.Play.Actions.{
  is_status, decide_resume, decide_pause, decide_checkpoint, move_to, unavailable, restored,
  decide_restore, is_strict, mark_cell, decide_cell, nothing_to_undo, undone, decide_undo, can_redo,
  redone, not_redone, decide_redo, progress_in, decide_progress, unless_exam, completion_outcome,
  decide_completion, decide_active, decide_unless_paused, decide_open, decide,
}

module _ (s : LogicGridPlaySession) (p : LogicGridSpec) (event_id : String) where
  -- No move is retained, and the marks are those before, or projected from the retained moves.
  pub record Stays (action : PlayAction) (o : Outcome) : Type 0 where
    pub no_move : (o.accepted && is_cell action) ≡ false
    pub marks :
        ((o.marks ≡ marks_of s) × (o.resulting_move_id ≡ s.active_move_id))
        ⊎ (project_marks p (move_events s.events) o.resulting_move_id ≡ ok o.marks)
    pub status :
        o.status ≡ completed
        → (o.marks ≡ marks_of s)
          × ((s.status ≡ completed)
              ⊎ ((r : LogicGridSolutionCheck) × (check_logic_grid_solution p
                      (sort_items (marks_of s).assignments)
                    ≡ ok r)
                  × (r.accepted ≡ true)))

  -- A mark that no given locks is the new active move.
  pub record Plays (action : PlayAction) (o : Outcome) : Type 0 where
    pub mark : CellAction
    pub acts : action ≡ cell mark
    pub accepted : o.accepted ≡ true
    pub allowed : cell_rejection p mark ≡ ok none
    pub marks : o.marks ≡ apply_cell_action (marks_of s) mark
    pub head : o.resulting_move_id ≡ some event_id
    pub status : o.status ≡ s.status
    pub unfinished : s.status ≢ completed

  abbrev pub Effect : PlayAction → Outcome → Type 0
  Effect action o = Stays action o ⊎ Plays action o

  -- a status that is not `completed`, or was it before
  abbrev Open : PlaySessionStatus → Type 0
  Open t = t ≡ completed → s.status ≡ completed

  stay-Stays :
      (action : PlayAction) (accepted : Bool) (status : PlaySessionStatus) (code message : String)
      → (accepted && is_cell action) ≡ false
      → Open status
      → Stays action (stay s accepted status code message)
  unfolding stay
  stay-Stays action accepted status code message n o = record {
    no_move = n;
    marks = inl (refl, refl);
    status = λ c. (refl, inl (o c));
  }

  move_to-Stays :
      (action : PlayAction) (accepted : Bool) (target : Option String) (code message : String)
      {o : Outcome}
      → is_cell action ≡ false
      → s.status ≢ completed
      → move_to s p accepted target code message ≡ ok o
      → Stays action o
  unfolding move_to stay
  move_to-Stays action accepted target code message n ne h =
      let (marks, projected, h1) = >>=-eq-ok (project_marks p (move_events s.events) target) _ h in
      let (conflicts, found, h2) = >>=-eq-ok (automatic_conflicts s.validation_mode p marks) _ h1 in
      let same = ok-injective h2 in
      subst (Stays action) same
        (record { no_move = ground (arith, n); marks = inr projected; status = λ c. absurd (ne c) })

  -- An outcome that differs from one that stays in its conflicts and checkpoints alone.
  like_Stays :
      (action : PlayAction) (accepted : Bool) (status : PlaySessionStatus) (code message : String)
      (conflicts : List PlayConflict) (checkpoints : List PlayCheckpoint)
      → (accepted && is_cell action) ≡ false
      → Open status
      → Stays action (record (stay s accepted status code message) {
        conflicts = conflicts;
        checkpoints = checkpoints;
      })
  unfolding stay
  like_Stays action accepted status code message conflicts checkpoints n o = record {
    no_move = n;
    marks = inl (refl, refl);
    status = λ c. (refl, inl (o c));
  }

  restore-Stays :
      (i : String) {o : Outcome}
      → s.status ≢ completed
      → decide_restore s p i ≡ ok o
      → Stays (restore_checkpoint i) o
  unfolding decide_restore
  restore-Stays i ne h =
      let found = find (λ c. c.checkpoint_id == i) s.checkpoints in
      elim (match-cases found (ok (unavailable s)) (restored s p) h) [
        | inl (e, same) ↦
            subst (Stays (restore_checkpoint i)) (ok-injective same)
              (stay-Stays (restore_checkpoint i) false s.status _ _ refl (λ c. c))
        | inr (c, e, moved) ↦ move_to-Stays (restore_checkpoint i) true c.move_id _ _ refl ne moved
      ]

  undo-Stays : {o : Outcome} → s.status ≢ completed → decide_undo s p ≡ ok o → Stays undo_move o
  unfolding decide_undo
  undo-Stays ne h = elim (match-cases s.active_move_id (nothing_to_undo s p) (undone s p) h) [
    | inl (e, moved) ↦ move_to-Stays undo_move false none _ _ refl ne moved
    | inr (head, e, rest) ↦
        let (event, found, moved) =
          >>=-eq-ok (subscript head (move_events s.events))
            (λ event.
              move_to s p true event.parent_move_id "move_undone"
                "The active move was undone without deleting history.")
            rest in
        move_to-Stays undo_move true event.parent_move_id _ _ refl ne moved
  ]

  redo-Stays :
      (target : String) {o : Outcome}
      → s.status ≢ completed
      → decide_redo s p target ≡ ok o
      → Stays (redo_move target) o
  unfolding decide_redo
  redo-Stays target ne h =
      elim (if-cases (can_redo s target) (redone s p target) (not_redone s p) h) [
        | inl (e, moved) ↦ move_to-Stays (redo_move target) true (some target) _ _ refl ne moved
        | inr (e, moved) ↦ move_to-Stays (redo_move target) false s.active_move_id _ _ refl ne moved
      ]

  progress-Stays :
      (mode : PlayValidationMode) {o : Outcome}
      → progress_in s p mode ≡ ok o
      → Stays validate_progress o
  unfolding progress_in
  progress-Stays exam h =
      subst (Stays validate_progress) (ok-injective h)
        (stay-Stays validate_progress false s.status _ _ refl (λ c. c))
  progress-Stays _ h =
      let (conflicts, found, same) = >>=-eq-ok (progress_conflicts p (marks_of s)) _ h in
      subst (Stays validate_progress) (ok-injective same)
        (like_Stays validate_progress true s.status _ _ conflicts s.checkpoints refl (λ c. c))

  resume-Stays : Stays resume_session (decide_resume s)
  unfolding decide_resume
  resume-Stays =
      if-both (Stays resume_session) (is_status s.status paused)
        (stay-Stays resume_session true active _ _ refl (λ c. cc))
        (stay-Stays resume_session false s.status _ _ refl (λ c. c))

  pause-Stays : Stays pause_session (decide_pause s)
  unfolding decide_pause
  pause-Stays =
      if-both (Stays pause_session) (is_status s.status active)
        (stay-Stays pause_session true paused _ _ refl (λ c. cc))
        (stay-Stays pause_session false paused _ _ refl (λ c. cc))

  checkpoint-Stays :
      (P : Platform) (name : String)
      → Stays (create_checkpoint name) (decide_checkpoint P s event_id name)
  unfolding decide_checkpoint
  checkpoint-Stays P name =
      if-both (Stays (create_checkpoint name))
        (contains (map (λ c. P.casefold c.name) s.checkpoints) (P.casefold name))
        (stay-Stays (create_checkpoint name) false s.status _ _ refl (λ c. c))
        (like_Stays (create_checkpoint name) true s.status _ _ s.conflicts _ refl (λ c. c))

  completion_outcome-Stays :
      (action : PlayAction) (r : LogicGridSolutionCheck) (accepted : Bool)
      (conflicts : List PlayConflict)
      → is_cell action ≡ false
      → check_logic_grid_solution p (sort_items (marks_of s).assignments) ≡ ok r
      → r.accepted ≡ accepted
      → Stays action (completion_outcome s accepted conflicts)
  unfolding completion_outcome stay
  completion_outcome-Stays action r true conflicts n checked a = record {
    no_move = ground (arith, n);
    marks = inl (refl, refl);
    status = λ c. (refl, inr (r, checked, a));
  }
  completion_outcome-Stays action r false conflicts n checked a =
      like_Stays action false s.status _ _ conflicts s.checkpoints refl (λ c. c)

  completion-Stays :
      (action : PlayAction) {o : Outcome}
      → is_cell action ≡ false
      → decide_completion s p ≡ ok o
      → Stays action o
  unfolding decide_completion
  completion-Stays action n h =
      let (r, checked, h1) =
        >>=-eq-ok (check_logic_grid_solution p (sort_items (marks_of s).assignments)) _ h in
      let (conflicts, found, same) =
        >>=-eq-ok
          (if r.accepted
            then ok []
            else unless_exam s.validation_mode (progress_conflicts p (marks_of s)))
          _ h1 in
      subst (Stays action) (ok-injective same)
        (completion_outcome-Stays action r r.accepted conflicts n checked refl)

  mark_cell-Effect :
      (a : CellAction) (rejection : Option (String × String)) {o : Outcome}
      → s.status ≢ completed
      → cell_rejection p a ≡ ok rejection
      → mark_cell s p event_id a rejection ≡ ok o
      → Effect (cell a) o
  unfolding mark_cell stay
  mark_cell-Effect a (some (code, message)) ne r h = inl (
      subst (Stays (cell a)) (ok-injective h)
        (stay-Stays (cell a) false s.status _ _ refl (λ c. c)))
  mark_cell-Effect a none ne r h =
      let (conflicts, found, same) =
        >>=-eq-ok (progress_conflicts p (apply_cell_action (marks_of s) a)) _ h in
      subst (Effect (cell a)) (ok-injective same) (
        if-both (Effect (cell a)) (is_strict s.validation_mode && not (eqb (length conflicts) 0))
          (inl (stay-Stays (cell a) false s.status _ _ refl (λ c. c)))
          (inr (record {
            mark = a;
            acts = refl;
            accepted = refl;
            allowed = r;
            marks = refl;
            head = refl;
            status = refl;
            unfinished = ne;
          })))

  active-Effect :
      (action : PlayAction) {o : Outcome}
      → s.status ≢ completed
      → decide_active s p event_id action ≡ ok o
      → Effect action o
  unfolding decide_active decide_progress decide_cell
  active-Effect (restore_checkpoint i) ne h = inl (restore-Stays i ne h)
  active-Effect (cell a) ne h =
      let (rejection, rejected, marked) = >>=-eq-ok (cell_rejection p a) _ h in
      mark_cell-Effect a rejection ne rejected marked
  active-Effect undo_move ne h = inl (undo-Stays ne h)
  active-Effect (redo_move target) ne h = inl (redo-Stays target ne h)
  active-Effect validate_progress ne h = inl (progress-Stays s.validation_mode h)
  active-Effect check_completion ne h = inl (completion-Stays check_completion refl h)
  active-Effect pause_session ne h = inl (completion-Stays pause_session refl h)
  active-Effect resume_session ne h = inl (completion-Stays resume_session refl h)
  active-Effect (create_checkpoint name) ne h =
      inl (completion-Stays (create_checkpoint name) refl h)

  unless_paused-Effect :
      (action : PlayAction) {o : Outcome}
      → s.status ≢ completed
      → decide_unless_paused s p event_id action ≡ ok o
      → Effect action o
  unfolding decide_unless_paused stay
  unless_paused-Effect action ne h =
      elim (if-cases (is_status s.status paused) _ (decide_active s p event_id action) h) [
        | inl (e, same) ↦ inl (
            subst (Stays action) (ok-injective same)
              (stay-Stays action false s.status _ _ refl (λ c. c)))
        | inr (e, rest) ↦ active-Effect action ne rest
      ]

  open-Effect :
      (P : Platform) (action : PlayAction) {o : Outcome}
      → s.status ≢ completed
      → decide_open P s p event_id action ≡ ok o
      → Effect action o
  unfolding decide_open
  open-Effect P resume_session ne h =
      inl (subst (Stays resume_session) (ok-injective h) resume-Stays)
  open-Effect P pause_session ne h = inl (subst (Stays pause_session) (ok-injective h) pause-Stays)
  open-Effect P (create_checkpoint name) ne h =
      inl (subst (Stays (create_checkpoint name)) (ok-injective h) (checkpoint-Stays P name))
  open-Effect P action ne h = unless_paused-Effect action ne h

  is_status-completed : (t : PlaySessionStatus) → is_status t completed ≡ false → t ≢ completed
  is_status-completed completed h = cc
  is_status-completed _ h = λ e. cc

  pub decide-Effect :
      (P : Platform) (action : PlayAction) {o : Outcome}
      → decide P s p event_id action ≡ ok o
      → Effect action o
  unfolding decide stay
  decide-Effect P action h =
      elim (if-cases (is_status s.status completed) _ (decide_open P s p event_id action) h) [
        | inl (e, same) ↦ inl (
            subst (Stays action) (ok-injective same)
              (stay-Stays action false s.status _ _ refl (λ c. c)))
        | inr (e, rest) ↦ open-Effect P action (is_status-completed s.status e) rest
      ]
