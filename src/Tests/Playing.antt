-- ===== src/Tests/Playing.antt =====
-- A session on the grid of Tests/Grids: marks, an undo and a redo, and the completion.
use deductra.Common.{String, ◌≡◌, refl, true, some, List, [], ◌∷◌, Result, ok, ◌>>=◌}
use deductra.Common.Dict.{sort_items}
use deductra.Common.{pair_eq}
use deductra.Canonical.{canonical_sha256}
use deductra.Domain.Values.{Domain}
use deductra.Families.LogicGrid.Specification.{anchor_domain}
use deductra.Families.LogicGrid.Checker.Acceptance.{IsSolution}
use deductra.Families.LogicGrid.Play.{
  soft, assign_cell, exclude_cell, PlayAction, cell, undo_move, redo_move, check_completion,
  PlayEvent, LogicGridPlaySession, PlayActionResult, play_event_dec, play_session_dec,
}
use deductra.Families.LogicGrid.Play.History.{move_events, active_path}
use deductra.Families.LogicGrid.Play.Actions.{decide_active, decide}
use deductra.Families.LogicGrid.Play.Outcome.{last_event_hash, append_outcome}
use deductra.Families.LogicGrid.Play.Replay.{
  start_logic_grid_play, perform, apply_unverified, ends_with, replay_event, replay_events,
  replay_logic_grid_play, apply_logic_grid_play_action,
}
use deductra.Families.LogicGrid.Play.Roundtrip.{apply_logic_grid_play_action-replay}
use deductra.Families.LogicGrid.Play.Stream.{IsStream, replay_logic_grid_play-IsStream}
use deductra.Families.LogicGrid.Play.Path.{Ends, active_path-Ends}
use deductra.Families.LogicGrid.Play.Moves.{SameMarks}
use deductra.Families.LogicGrid.Play.Projection.{
  session_marks, IsProjected, replay_logic_grid_play-IsProjected,
}
use deductra.Families.LogicGrid.Play.Completion.{replay_logic_grid_play-IsSolution}
use deductra.Families.LogicGrid.Play.Givens.{HasGivens, replay_logic_grid_play-HasGivens}
use deductra.Families.LogicGrid.Play.Undo.{redo_move-undo_move}
use deductra.Tests.Samples.{flat, value_of_ok}
use deductra.Tests.Grids.{grid, checks, grid_valid}

plays : Unit {0}
unfolding checks start_logic_grid_play apply_logic_grid_play_action replay_logic_grid_play
    replay_events replay_event apply_unverified perform decide decide_active play_event_dec
    play_session_dec append_outcome ends_with last_event_hash sort_items canonical_sha256
    value_of_ok
plays = tt

-- The sessions after the actions, numbered as events "e0", "e1" and so on.
play_all : LogicGridPlaySession → List (String × PlayAction) → Result LogicGridPlaySession
play_all s [] = ok s
play_all s ((i, a) ∷ actions) = do r ← apply_unverified flat s grid i a; play_all r.session actions

abbrev marked : List (String × PlayAction)
marked = ("e0", cell (exclude_cell "v_cat" "tue")) ∷ ("e1", cell (assign_cell "v_cat" "mon")) ∷ []

abbrev finished : List (String × PlayAction)
finished =
    ("e0", cell (assign_cell "v_cat" "mon"))
    ∷ ("e1", cell (assign_cell "v_dog" "tue"))
    ∷ ("e2", cell (assign_cell "v_tea" "mon"))
    ∷ ("e3", cell (assign_cell "v_milk" "tue"))
    ∷ ("e4", check_completion)
    ∷ []

abbrev playing : List (String × PlayAction) → Result LogicGridPlaySession
playing actions = do s ← start_logic_grid_play flat grid "attempt" soft; play_all s actions

marked_session : (s : LogicGridPlaySession) × (playing marked ≡ ok s)
unfolding plays play_all
marked_session = value_of_ok (playing marked) refl

undone_session :
    (r : PlayActionResult) × (apply_logic_grid_play_action flat marked_session.0 grid "e2" undo_move
      ≡ ok r)
unfolding plays marked_session
undone_session =
    value_of_ok (apply_logic_grid_play_action flat marked_session.0 grid "e2" undo_move) refl

-- The assignment is gone, the exclusion before it stays.
undone_marks :
    (undone_session.0.session.assignments ≡ ("v_mon", "mon") ∷ ("v_tue", "tue") ∷ [])
    × (undone_session.0.session.exclusions ≡ ("v_cat", "tue") ∷ [])
unfolding plays undone_session marked_session
undone_marks = (refl, refl)

redone_session :
    (r : PlayActionResult) × (apply_logic_grid_play_action flat undone_session.0.session grid "e3"
        (redo_move "e1")
      ≡ ok r)
unfolding plays undone_session marked_session
redone_session =
    value_of_ok
      (apply_logic_grid_play_action flat undone_session.0.session grid "e3" (redo_move "e1")) refl

redo_move-undo_move_example :
    (undone_session.0.accepted ≡ true)
    × (redone_session.0.accepted ≡ true)
    × (redone_session.0.session.active_move_id ≡ some "e1")
    × SameMarks (session_marks redone_session.0.session) (session_marks marked_session.0)
unfolding plays marked_session
redo_move-undo_move_example =
    redo_move-undo_move flat grid marked_session.0 "e2" "e3" "e1" refl refl undone_session.1
      redone_session.1

apply_logic_grid_play_action-replay_example :
    replay_logic_grid_play flat grid undone_session.0.session.attempt_id
      undone_session.0.session.validation_mode undone_session.0.session.events
    ≡ ok undone_session.0.session
apply_logic_grid_play_action-replay_example =
    apply_logic_grid_play_action-replay flat marked_session.0 grid "e2" undo_move undone_session.1

-- The stream of a completed session, and its replay.
finished_session : (s : LogicGridPlaySession) × (playing finished ≡ ok s)
unfolding plays play_all
finished_session = value_of_ok (playing finished) refl

abbrev stream : List PlayEvent
stream = finished_session.0.events

replayed :
    (s : LogicGridPlaySession) × (replay_logic_grid_play flat grid "attempt" soft stream ≡ ok s)
unfolding plays finished_session
replayed = value_of_ok (replay_logic_grid_play flat grid "attempt" soft stream) refl

replay_logic_grid_play-IsStream_example : (replayed.0.events ≡ stream) × IsStream flat stream
replay_logic_grid_play-IsStream_example =
    replay_logic_grid_play-IsStream flat grid "attempt" soft stream replayed.1

replay_logic_grid_play-IsProjected_example : IsProjected grid replayed.0
replay_logic_grid_play-IsProjected_example =
    replay_logic_grid_play-IsProjected flat grid "attempt" soft stream replayed.1

replay_logic_grid_play-HasGivens_example : HasGivens grid (session_marks replayed.0)
replay_logic_grid_play-HasGivens_example =
    replay_logic_grid_play-HasGivens flat grid "attempt" soft stream replayed.1

replay_logic_grid_play-IsSolution_example :
    (anchor : Domain) × (anchor_domain grid ≡ ok anchor)
    × IsSolution grid anchor replayed.0.assignments
unfolding plays replayed finished_session
replay_logic_grid_play-IsSolution_example =
    replay_logic_grid_play-IsSolution flat grid "attempt" soft stream grid_valid replayed.1 refl

active_path-Ends_example : Ends (active_path (move_events stream) (some "e3"))
active_path-Ends_example = active_path-Ends (move_events stream) (some "e3")
