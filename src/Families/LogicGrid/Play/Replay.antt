-- ===== src/Families/LogicGrid/Play/Replay.antt =====
-- src/deductra/families/logic_grid/play.py: `start_logic_grid_play`, `apply_logic_grid_play_action`
-- and `replay_logic_grid_play`.
use deductra.Common.{
  String, Bool, not, none, List, [], ◌∷◌, map, leb, eqb, ◌==◌, string_eq, pair_eq, nat_eq, bool_eq,
  length, contains, value_error, index_error, Result, err, ok, raise_if, ◌>>=◌, ◌>>◌,
}
use deductra.Canonical.{Platform}
use deductra.Families.LogicGrid.Specification.{LogicGridSpec}
use deductra.Families.LogicGrid.Play.{
  PlayValidationMode, active, PlayAction, PlayEvent, LogicGridPlaySession, PlayActionResult,
  max_play_events, play_event_eq, play_session_eq,
}
use deductra.Families.LogicGrid.Play.Session.{SessionParts, build_session}
use deductra.Families.LogicGrid.Play.History.{given_marks}
use deductra.Families.LogicGrid.Play.Outcome.{last_event_hash, append_outcome}
use deductra.Families.LogicGrid.Play.Actions.{decide}

-- the empty session: the givens are the only marks
unfoldable pub start_parts : LogicGridSpec → String → PlayValidationMode → SessionParts
unfolding given_marks
start_parts p attempt_id mode = record {
  attempt_id = attempt_id;
  puzzle_revision_id = p.base.identity.revision_id;
  validation_mode = mode;
  status = active;
  assignments = (given_marks p).assignments;
  exclusions = (given_marks p).exclusions;
  conflicts = [];
  checkpoints = [];
  active_move_id = none;
  events = [];
}

module _ (P : Platform) where
  unfoldable pub start_logic_grid_play :
      LogicGridSpec → String → PlayValidationMode → Result LogicGridPlaySession
  unfolding start_parts build_session
  start_logic_grid_play p attempt_id mode = build_session P (start_parts p attempt_id mode)

  -- the guards of `_apply_logic_grid_play_action`
  unfoldable pub check_applicable :
      LogicGridPlaySession → LogicGridSpec → String → Result (Unit {0})
  check_applicable s p event_id = do
    raise_if (not (s.puzzle_revision_id == p.base.identity.revision_id))
        (value_error "session puzzle revision does not match the supplied puzzle")
    raise_if (contains (map (λ e. e.event_id) s.events) event_id)
        (value_error "play event identifiers must be unique")
    raise_if (leb max_play_events (length s.events))
        (value_error "play session event limit reached")

  -- the rest of it
  unfoldable pub perform :
      LogicGridPlaySession → LogicGridSpec → String → PlayAction → Result PlayActionResult
  unfolding decide append_outcome
  perform s p event_id action = do
    outcome ← decide P s p event_id action
    append_outcome P s event_id action outcome

  -- `_apply_logic_grid_play_action` with `verify_session=False`
  unfoldable pub apply_unverified :
      LogicGridPlaySession → LogicGridSpec → String → PlayAction → Result PlayActionResult
  unfolding check_applicable perform
  apply_unverified s p event_id action = do
    check_applicable s p event_id
    perform s p event_id action

  -- `result.session.events[-1] != source`
  unfoldable pub ends_with : List PlayEvent → PlayEvent → Result Bool
  ends_with [] source = err index_error
  ends_with (e ∷ []) source = ok (e == source)
  ends_with (e ∷ f ∷ es) source = ends_with (f ∷ es) source

  -- one turn of the loop of `replay_logic_grid_play`
  unfoldable pub replay_event :
      LogicGridPlaySession → LogicGridSpec → PlayEvent → Result LogicGridPlaySession
  unfolding apply_unverified ends_with last_event_hash
  replay_event s p source = do
    raise_if (not (eqb source.sequence_no (length s.events)))
        (value_error "play event sequence is not contiguous")
    raise_if (not (source.previous_event_hash == last_event_hash s.events))
        (value_error "play event hash chain is broken")
    result ← apply_unverified s p source.event_id source.action
    same ← ends_with result.session.events source
    raise_if (not same) (value_error "play event does not match its deterministic replay")
    ok result.session

  unfoldable pub replay_events :
      LogicGridPlaySession → LogicGridSpec → List PlayEvent → Result LogicGridPlaySession
  unfolding replay_event
  replay_events s p [] = ok s
  replay_events s p (source ∷ events) = do
    next ← replay_event s p source
    replay_events next p events

  unfoldable pub replay_logic_grid_play :
      LogicGridSpec → String → PlayValidationMode → List PlayEvent → Result LogicGridPlaySession
  unfolding start_logic_grid_play replay_events
  replay_logic_grid_play p attempt_id mode events = do
    s ← start_logic_grid_play p attempt_id mode
    replay_events s p events

  -- `verify_session=True`
  unfoldable pub apply_logic_grid_play_action :
      LogicGridPlaySession → LogicGridSpec → String → PlayAction → Result PlayActionResult
  unfolding check_applicable replay_logic_grid_play perform
  apply_logic_grid_play_action s p event_id action = do
    check_applicable s p event_id
    replayed ← replay_logic_grid_play p s.attempt_id s.validation_mode s.events
    raise_if (not (replayed == s)) (value_error "session does not equal its canonical replay")
    perform s p event_id action
