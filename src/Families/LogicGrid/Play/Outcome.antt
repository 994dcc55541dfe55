-- ===== src/Families/LogicGrid/Play/Outcome.antt =====
-- src/deductra/families/logic_grid/play.py: `_append_outcome`.
use deductra.Common.{
  String, Bool, Option, List, [], ◌∷◌, ◌++◌, string_eq, pair_eq, nat_eq, bool_eq, length, to_set,
  Result, ok, ◌>>=◌,
}
use deductra.Common.Dict.{dict_of}
use deductra.Canonical.{Platform}
use deductra.Families.LogicGrid.Play.{
  PlaySessionStatus, PlayAction, PlayConflict, PlayCheckpoint, PlayEvent, LogicGridPlaySession,
  PlayActionResult, play_schema_version, play_genesis_hash, play_event_eq, play_session_eq,
}
use deductra.Families.LogicGrid.Play.Session.{SessionParts, build_session, seal_play_event}
use deductra.Families.LogicGrid.Play.History.{Marks}

-- The keyword arguments of `_append_outcome` after the action, with the defaults of the last two
-- filled in. `parent_move_id` is the session's active move in every call.
pub record Outcome : Type 0 where
  pub accepted : Bool
  pub code : String
  pub message : String
  pub resulting_move_id : Option String
  pub status : PlaySessionStatus
  pub marks : Marks
  pub conflicts : List PlayConflict
  pub checkpoints : List PlayCheckpoint

-- `session.events[-1].event_hash if session.events else PLAY_GENESIS_HASH`
unfoldable pub last_event_hash : List PlayEvent → String
last_event_hash [] = play_genesis_hash
last_event_hash (e ∷ []) = e.event_hash
last_event_hash (e ∷ f ∷ es) = last_event_hash (f ∷ es)

unfoldable pub session_parts : LogicGridPlaySession → Outcome → List PlayEvent → SessionParts
session_parts s o events = record {
  attempt_id = s.attempt_id;
  puzzle_revision_id = s.puzzle_revision_id;
  validation_mode = s.validation_mode;
  status = o.status;
  assignments = o.marks.assignments;
  exclusions = o.marks.exclusions;
  conflicts = o.conflicts;
  checkpoints = o.checkpoints;
  active_move_id = o.resulting_move_id;
  events = events;
}

unfoldable pub unsigned_play_event :
    LogicGridPlaySession → String → PlayAction → Outcome → String → PlayEvent
unfolding last_event_hash
unsigned_play_event s event_id action o state_hash = record {
  event_id = event_id;
  sequence_no = length s.events;
  schema_version = play_schema_version;
  action = action;
  accepted = o.accepted;
  code = o.code;
  message = o.message;
  parent_move_id = s.active_move_id;
  resulting_move_id = o.resulting_move_id;
  resulting_state_hash = state_hash;
  previous_event_hash = last_event_hash s.events;
  event_hash = play_genesis_hash;
}

-- `_append_outcome`
unfoldable pub append_outcome :
    Platform → LogicGridPlaySession → String → PlayAction → Outcome → Result PlayActionResult
unfolding session_parts unsigned_play_event build_session seal_play_event
append_outcome P s event_id action o = do
  provisional ← build_session P (session_parts s o s.events)
  event ← seal_play_event P (unsigned_play_event s event_id action o provisional.state_hash)
  result ← build_session P (session_parts s o (s.events ++ event ∷ []))
  ok (record { accepted = o.accepted; code = o.code; message = o.message; session = result })

unfoldable pub marks_of : LogicGridPlaySession → Marks
unfolding dict_of
marks_of s = record { assignments = dict_of [] s.assignments; exclusions = to_set s.exclusions }

-- An outcome that leaves the marks, the active move, the conflicts and the checkpoints.
unfoldable pub stay : LogicGridPlaySession → Bool → PlaySessionStatus → String → String → Outcome
unfolding marks_of
stay s accepted status code message = record {
  accepted = accepted;
  code = code;
  message = message;
  resulting_move_id = s.active_move_id;
  status = status;
  marks = marks_of s;
  conflicts = s.conflicts;
  checkpoints = s.checkpoints;
}
