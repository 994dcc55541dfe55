-- ===== src/Families/LogicGrid/Play/Actions.antt =====
-- src/deductra/families/logic_grid/play.py: the branches of `_apply_logic_grid_play_action`, which
-- decide the arguments of `_append_outcome`.
use deductra.Common.{
  String, Bool, true, false, not, ◌&&◌, Option, none, some, List, [], ◌∷◌, ◌++◌, map, eqb,
  if◌then◌else◌, Eq, ◌==◌, string_dec, string_eq, pair_eq, nat_eq, bool_eq, length, find, contains,
  Result, ok, ◌>>=◌,
}
use deductra.Common.Dict.{lookup, subscript, sort_items}
use deductra.Canonical.{Platform}
use deductra.Families.LogicGrid.Specification.{LogicGridSpec}
use deductra.Families.LogicGrid.Checker.{check_logic_grid_solution}
use deductra.Families.LogicGrid.Play.{
  PlayValidationMode, strict, soft, exam, PlaySessionStatus, active, paused, completed, CellAction,
  PlayAction, cell, undo_move, redo_move, validate_progress, pause_session, resume_session,
  create_checkpoint, restore_checkpoint, PlayConflict, PlayCheckpoint, LogicGridPlaySession,
  play_event_eq, play_session_eq,
}
use deductra.Families.LogicGrid.Play.History.{
  move_events, apply_cell_action, project_marks, cell_rejection,
}
use deductra.Families.LogicGrid.Play.Conflicts.{progress_conflicts, automatic_conflicts}
use deductra.Families.LogicGrid.Play.Outcome.{Outcome, marks_of, stay}

abbrev pub is_status : PlaySessionStatus → PlaySessionStatus → Bool
is_status active active = true
is_status paused paused = true
is_status completed completed = true
is_status _ _ = false

unfoldable pub decide_resume : LogicGridPlaySession → Outcome
unfolding stay
decide_resume s =
    if is_status s.status paused
    then stay s true active "session_resumed" "The play session resumed."
    else stay s false s.status "session_not_paused" "The play session is already active."

unfoldable pub decide_pause : LogicGridPlaySession → Outcome
unfolding stay
decide_pause s =
    if is_status s.status active
    then stay s true paused "session_paused" "The play session paused."
    else stay s false paused "session_already_paused" "The play session is already paused."

unfoldable pub decide_checkpoint : Platform → LogicGridPlaySession → String → String → Outcome
unfolding stay
decide_checkpoint P s event_id name =
    if contains (map (λ c. P.casefold c.name) s.checkpoints) (P.casefold name)
    then stay s false s.status "checkpoint_name_exists"
        "Choose a checkpoint name that is not already in use."
    else record (stay s true s.status "checkpoint_created"
        "The current history position was saved as a checkpoint.") {
          checkpoints =
              s.checkpoints
              ++ (record {
                checkpoint_id = event_id;
                name = name;
                move_id = s.active_move_id;
                captured_sequence_no = length s.events;
                captured_state_hash = s.state_hash;
              })
                ∷ [];
        }

-- The cursor moves: the marks are projected anew, and the conflicts with them.
unfoldable pub move_to :
    LogicGridPlaySession → LogicGridSpec → Bool → Option String → String → String → Result Outcome
unfolding project_marks move_events automatic_conflicts stay
move_to s p accepted target code message = do
  marks ← project_marks p (move_events s.events) target
  conflicts ← automatic_conflicts s.validation_mode p marks
  ok (record (stay s accepted s.status code message) {
    resulting_move_id = target;
    marks = marks;
    conflicts = conflicts;
  })

abbrev pub unavailable : LogicGridPlaySession → Outcome
unavailable s =
    stay s false s.status "checkpoint_unavailable"
      "Choose a retained checkpoint from this play session."

abbrev pub restored : LogicGridPlaySession → LogicGridSpec → PlayCheckpoint → Result Outcome
restored s p c =
    move_to s p true c.move_id "checkpoint_restored"
      "The retained checkpoint was restored without deleting later history."

unfoldable pub decide_restore : LogicGridPlaySession → LogicGridSpec → String → Result Outcome
unfolding stay move_to
decide_restore s p checkpoint_id =
    elim (find (λ c. c.checkpoint_id == checkpoint_id) s.checkpoints) [
      | none ↦ ok (unavailable s)
      | some c ↦ restored s p c
    ]

abbrev pub is_strict : PlayValidationMode → Bool
is_strict strict = true
is_strict _ = false

abbrev pub soft_only : PlayValidationMode → List PlayConflict → List PlayConflict
soft_only soft conflicts = conflicts
soft_only _ conflicts = []

-- what follows the test of the rejection
unfoldable pub mark_cell :
    LogicGridPlaySession
    → LogicGridSpec
    → String
    → CellAction
    → Option (String × String)
    → Result Outcome
unfolding apply_cell_action progress_conflicts stay marks_of
mark_cell s p event_id a (some (code, message)) = ok (stay s false s.status code message)
mark_cell s p event_id a none = do
  let next = apply_cell_action (marks_of s) a
  conflicts ← progress_conflicts p next
  ok (
      if is_strict s.validation_mode && not (eqb (length conflicts) 0)
      then stay s false s.status "structural_conflict"
          "That mark would create a structural puzzle conflict."
      else record (stay s true s.status "move_applied" "The tentative mark was applied.") {
        resulting_move_id = some event_id;
        marks = next;
        conflicts = soft_only s.validation_mode conflicts;
      })

unfoldable pub decide_cell :
    LogicGridPlaySession → LogicGridSpec → String → CellAction → Result Outcome
unfolding cell_rejection mark_cell
decide_cell s p event_id a = do rejection ← cell_rejection p a; mark_cell s p event_id a rejection

abbrev pub nothing_to_undo : LogicGridPlaySession → LogicGridSpec → Result Outcome
nothing_to_undo s p = move_to s p false none "nothing_to_undo" "There is no active move to undo."

abbrev pub undone : LogicGridPlaySession → LogicGridSpec → String → Result Outcome
undone s p head = do
  event ← subscript head (move_events s.events)
  move_to s p true event.parent_move_id "move_undone"
      "The active move was undone without deleting history."

unfoldable pub decide_undo : LogicGridPlaySession → LogicGridSpec → Result Outcome
unfolding move_to move_events
decide_undo s p = elim s.active_move_id [ none ↦ nothing_to_undo s p | some head ↦ undone s p head ]

instance abbrev optional_text_eq : Eq (Option String)
optional_text_eq = record { dec = hlevel string_dec }

-- `target_event is not None and target_event.parent_move_id == head`
abbrev pub can_redo : LogicGridPlaySession → String → Bool
can_redo s target = elim (lookup target (move_events s.events)) [
  | none ↦ false
  | some event ↦ event.parent_move_id == s.active_move_id
]

abbrev pub redone : LogicGridPlaySession → LogicGridSpec → String → Result Outcome
redone s p target = move_to s p true (some target) "move_redone" "The retained move was restored."

abbrev pub not_redone : LogicGridPlaySession → LogicGridSpec → Result Outcome
not_redone s p =
    move_to s p false s.active_move_id "redo_target_unavailable"
      "Choose a retained move directly after the current history position."

unfoldable pub decide_redo : LogicGridPlaySession → LogicGridSpec → String → Result Outcome
unfolding move_to move_events
decide_redo s p target = if can_redo s target then redone s p target else not_redone s p

unfoldable pub progress_in :
    LogicGridPlaySession → LogicGridSpec → PlayValidationMode → Result Outcome
unfolding progress_conflicts stay marks_of
progress_in s p exam = ok (
    stay s false s.status "validation_unavailable"
      "Progress validation is unavailable in exam mode.")
progress_in s p _ = do
  conflicts ← progress_conflicts p (marks_of s)
  let none_found = eqb (length conflicts) 0
  ok
      (record (stay s true s.status
        (if none_found then "progress_structurally_valid" else "conflicts_found")
        (if none_found
          then "No structural conflicts were found; clue correctness remains unchecked."
          else "Structural conflicts were found in the current marks.")) { conflicts = conflicts })

unfoldable pub decide_progress : LogicGridPlaySession → LogicGridSpec → Result Outcome
unfolding progress_in
decide_progress s p = progress_in s p s.validation_mode

abbrev pub unless_exam :
    PlayValidationMode → Result (List PlayConflict) → Result (List PlayConflict)
unless_exam exam conflicts = ok []
unless_exam _ conflicts = conflicts

unfoldable pub completion_outcome : LogicGridPlaySession → Bool → List PlayConflict → Outcome
unfolding stay
completion_outcome s true conflicts =
    record (stay s true completed "completed"
      "The puzzle is complete and independently verified.") { conflicts = conflicts }
completion_outcome s false conflicts =
    record (stay s false s.status "completion_rejected"
      "The current selections do not yet form a valid complete solution.") { conflicts = conflicts }

unfoldable pub decide_completion : LogicGridPlaySession → LogicGridSpec → Result Outcome
unfolding check_logic_grid_solution progress_conflicts completion_outcome marks_of
decide_completion s p = do
  check ← check_logic_grid_solution p (sort_items (marks_of s).assignments)
  conflicts ←
      if check.accepted
      then ok []
      else unless_exam s.validation_mode (progress_conflicts p (marks_of s))
  ok (completion_outcome s check.accepted conflicts)

-- the branches for a session that is neither completed nor paused
unfoldable pub decide_active :
    LogicGridPlaySession → LogicGridSpec → String → PlayAction → Result Outcome
unfolding decide_restore decide_cell decide_undo decide_redo decide_progress decide_completion
decide_active s p event_id (restore_checkpoint i) = decide_restore s p i
decide_active s p event_id (cell a) = decide_cell s p event_id a
decide_active s p event_id undo_move = decide_undo s p
decide_active s p event_id (redo_move target) = decide_redo s p target
decide_active s p event_id validate_progress = decide_progress s p
decide_active s p event_id _ = decide_completion s p

-- the branches after those that a pause does not hold up
unfoldable pub decide_unless_paused :
    LogicGridPlaySession → LogicGridSpec → String → PlayAction → Result Outcome
unfolding decide_active stay
decide_unless_paused s p event_id action =
    if is_status s.status paused
    then ok (
        stay s false s.status "session_paused"
          "Resume the play session before changing or checking the puzzle.")
    else decide_active s p event_id action

unfoldable pub decide_open :
    Platform → LogicGridPlaySession → LogicGridSpec → String → PlayAction → Result Outcome
unfolding decide_unless_paused decide_resume decide_pause decide_checkpoint
decide_open P s p event_id resume_session = ok (decide_resume s)
decide_open P s p event_id pause_session = ok (decide_pause s)
decide_open P s p event_id (create_checkpoint name) = ok (decide_checkpoint P s event_id name)
decide_open P s p event_id action = decide_unless_paused s p event_id action

-- the branches in the order of the code
unfoldable pub decide :
    Platform → LogicGridPlaySession → LogicGridSpec → String → PlayAction → Result Outcome
unfolding decide_open stay
decide P s p event_id action =
    if is_status s.status completed
    then ok (stay s false s.status "session_closed" "This completed attempt cannot be changed.")
    else decide_open P s p event_id action
