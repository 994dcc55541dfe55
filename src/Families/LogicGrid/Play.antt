-- ===== src/Families/LogicGrid/Play.antt =====
-- src/deductra/families/logic_grid/play.py: the records of a play session and their validators.
-- `PlaySessionError` is a subclass of `ValueError`. Checkpoint names are given stripped.
pub mod Session
pub mod History
pub mod Conflicts
pub mod Outcome
pub mod Actions
pub mod Replay
pub mod Steps
pub mod Roundtrip
pub mod Stream
pub mod Effects
pub mod Path
pub mod Moves
pub mod Projection
pub mod Completion
pub mod Givens
pub mod Undo
use mathlib.Core.List.{List-discrete}
use mathlib.Core.Bool.{Bool-discrete}
use native.Mathlib.Decide.{ℕ_discrete}
use deductra.Common.{ℕ, String, Bool, Option, List, Eq, string_dec}

pub data PlayValidationMode : Type 0 where
  strict soft deferred exam : PlayValidationMode

pub data PlaySessionStatus : Type 0 where
  active paused completed : PlaySessionStatus

-- The variable and the value.
pub data CellAction : Type 0 where
  assign_cell exclude_cell clear_cell : String → String → CellAction

pub data PlayAction : Type 0 where
  cell : CellAction → PlayAction
  undo_move : PlayAction
  -- the target move
  redo_move : String → PlayAction
  check_completion validate_progress pause_session resume_session : PlayAction
  -- the name
  create_checkpoint : String → PlayAction
  -- the checkpoint
  restore_checkpoint : String → PlayAction

pub data ConflictCode : Type 0 where
  duplicate_row no_candidate : ConflictCode

pub record PlayConflict : Type 0 where
  pub code : ConflictCode
  pub references : List String
  pub message : String

pub record PlayCheckpoint : Type 0 where
  pub checkpoint_id : String
  pub name : String
  pub move_id : Option String
  pub captured_sequence_no : ℕ
  pub captured_state_hash : String

pub record PlayEvent : Type 0 where
  pub event_id : String
  pub sequence_no : ℕ
  pub schema_version : String
  pub action : PlayAction
  pub accepted : Bool
  pub code : String
  pub message : String
  pub parent_move_id : Option String
  pub resulting_move_id : Option String
  pub resulting_state_hash : String
  pub previous_event_hash : String
  pub event_hash : String

pub record LogicGridPlaySession : Type 0 where
  pub schema_version : String
  pub attempt_id : String
  pub puzzle_revision_id : String
  pub validation_mode : PlayValidationMode
  pub status : PlaySessionStatus
  -- the variable and the value of each atom
  pub assignments : List (String × String)
  pub exclusions : List (String × String)
  pub conflicts : List PlayConflict
  pub checkpoints : List PlayCheckpoint
  pub active_move_id : Option String
  pub events : List PlayEvent
  pub state_hash : String
  pub session_hash : String

pub record PlayActionResult : Type 0 where
  pub accepted : Bool
  pub code : String
  pub message : String
  pub session : LogicGridPlaySession

abbrev pub play_schema_version : String
play_schema_version = "1.1.0"

abbrev pub play_genesis_hash : String
play_genesis_hash = "0000000000000000000000000000000000000000000000000000000000000000"

abbrev pub max_play_events : ℕ
max_play_events = 10000

PlayEvent-discrete : Discrete PlayEvent
PlayEvent-discrete = hlevel (string_dec, ℕ_discrete, Bool-discrete)

unfoldable pub play_event_dec : Discrete PlayEvent
unfolding PlayEvent-discrete
play_event_dec = PlayEvent-discrete

instance abbrev pub play_event_eq : Eq PlayEvent
play_event_eq = record { dec = play_event_dec }

LogicGridPlaySession-discrete : Discrete LogicGridPlaySession
LogicGridPlaySession-discrete = hlevel (string_dec, ℕ_discrete, Bool-discrete, play_event_dec)

unfoldable pub play_session_dec : Discrete LogicGridPlaySession
unfolding LogicGridPlaySession-discrete
play_session_dec = LogicGridPlaySession-discrete

instance abbrev pub play_session_eq : Eq LogicGridPlaySession
play_session_eq = record { dec = play_session_dec }
