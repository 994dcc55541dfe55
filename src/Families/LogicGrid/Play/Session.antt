-- ===== src/Families/LogicGrid/Play/Session.antt =====
-- src/deductra/families/logic_grid/play.py: the digests of events and sessions, the validators, and
-- how sessions and events are built.
use deductra.Common.{
  String, Bool, true, false, not, ◌&&◌, ◌||◌, Option, List, [], ◌∷◌, map, ltb, leb, eqb,
  if◌then◌else◌, ◌==◌, string_eq, pair_eq, nat_eq, bool_eq, length, any, contains, unique, text_le,
  sort_by, value_error, Result, ok, raise_if, ◌>>◌,
}
use deductra.Common.Dict.{Dict, keys, sort_items}
use deductra.Canonical.{
  Json, boolean, text, Platform, array_of, object_of, texts, number, optional, canonical_sha256,
}
use deductra.Domain.Atoms.{assignment, exclusion, atom_eq, dump_atom}
use deductra.Families.LogicGrid.Play.{
  PlayValidationMode, strict, soft, deferred, exam, PlaySessionStatus, active, paused, completed,
  assign_cell, exclude_cell, clear_cell, PlayAction, cell, undo_move, redo_move, check_completion,
  validate_progress, pause_session, resume_session, create_checkpoint, restore_checkpoint,
  ConflictCode, duplicate_row, no_candidate, PlayConflict, PlayCheckpoint, PlayEvent,
  LogicGridPlaySession, play_schema_version, play_genesis_hash, max_play_events, play_event_eq,
  play_session_eq,
}

write_mode : PlayValidationMode → String
write_mode strict = "strict"
write_mode soft = "soft"
write_mode deferred = "deferred"
write_mode exam = "exam"

write_status : PlaySessionStatus → String
write_status active = "active"
write_status paused = "paused"
write_status completed = "completed"

abbrev pub write_code : ConflictCode → String
write_code duplicate_row = "duplicate_row"
write_code no_candidate = "no_candidate"

dump_cell : String → String → String → Json
dump_cell kind v x =
    object_of (("kind", text kind) ∷ ("variable_id", text v) ∷ ("value_id", text x) ∷ [])

dump_action : PlayAction → Json
unfolding dump_cell
dump_action (cell (assign_cell v x)) = dump_cell "assign_cell" v x
dump_action (cell (exclude_cell v x)) = dump_cell "exclude_cell" v x
dump_action (cell (clear_cell v x)) = dump_cell "clear_cell" v x
dump_action undo_move = object_of (("kind", text "undo_move") ∷ [])
dump_action (redo_move t) = object_of (("kind", text "redo_move") ∷ ("target_move_id", text t) ∷ [])
dump_action check_completion = object_of (("kind", text "check_completion") ∷ [])
dump_action validate_progress = object_of (("kind", text "validate_progress") ∷ [])
dump_action pause_session = object_of (("kind", text "pause_session") ∷ [])
dump_action resume_session = object_of (("kind", text "resume_session") ∷ [])
dump_action (create_checkpoint n) =
    object_of (("kind", text "create_checkpoint") ∷ ("name", text n) ∷ [])
dump_action (restore_checkpoint i) =
    object_of (("kind", text "restore_checkpoint") ∷ ("checkpoint_id", text i) ∷ [])

dump_conflict : PlayConflict → Json
dump_conflict c = object_of (
    ("code", text (write_code c.code))
    ∷ ("references", texts c.references)
    ∷ ("message", text c.message)
    ∷ [])

dump_checkpoint : PlayCheckpoint → Json
dump_checkpoint c = object_of (
    ("checkpoint_id", text c.checkpoint_id)
    ∷ ("name", text c.name)
    ∷ ("move_id", optional c.move_id)
    ∷ ("captured_sequence_no", number c.captured_sequence_no)
    ∷ ("captured_state_hash", text c.captured_state_hash)
    ∷ [])

abbrev event_fields : PlayEvent → List (String × Json)
event_fields e =
    ("event_id", text e.event_id)
    ∷ ("sequence_no", number e.sequence_no)
    ∷ ("schema_version", text e.schema_version)
    ∷ ("action", dump_action e.action)
    ∷ ("accepted", boolean e.accepted)
    ∷ ("code", text e.code)
    ∷ ("message", text e.message)
    ∷ ("parent_move_id", optional e.parent_move_id)
    ∷ ("resulting_move_id", optional e.resulting_move_id)
    ∷ ("resulting_state_hash", text e.resulting_state_hash)
    ∷ ("previous_event_hash", text e.previous_event_hash)
    ∷ []

abbrev state_fields : LogicGridPlaySession → List (String × Json)
state_fields s =
    ("attempt_id", text s.attempt_id)
    ∷ ("puzzle_revision_id", text s.puzzle_revision_id)
    ∷ ("validation_mode", text (write_mode s.validation_mode))
    ∷ ("status", text (write_status s.status))
    ∷ ("assignments", array_of (map (λ (v, x). dump_atom (assignment v x)) s.assignments))
    ∷ ("exclusions", array_of (map (λ (v, x). dump_atom (exclusion v x)) s.exclusions))
    ∷ ("conflicts", array_of (map dump_conflict s.conflicts))
    ∷ ("checkpoints", array_of (map dump_checkpoint s.checkpoints))
    ∷ ("active_move_id", optional s.active_move_id)
    ∷ []

-- The order of Python's pairs of texts.
abbrev pub pair_le : String × String → String × String → Bool
pair_le (a, b) (c, d) = if a == c then text_le b d else text_le a c

-- The order of Python's tuples of texts.
abbrev pub texts_le : List String → List String → Bool
texts_le [] ys = true
texts_le (x ∷ xs) [] = false
texts_le (x ∷ xs) (y ∷ ys) = let rest = texts_le xs ys in if x == y then rest else text_le x y

abbrev pub conflict_le : PlayConflict → PlayConflict → Bool
conflict_le a b =
    if write_code a.code == write_code b.code
    then texts_le a.references b.references
    else text_le (write_code a.code) (write_code b.code)

abbrev conflict_key : PlayConflict → String × List String
conflict_key c = (write_code c.code, c.references)

-- `xs == tuple(sorted(xs))`, for an order whose equivalent elements are equal
abbrev pub in_order {ℓ} : {A : Type ℓ} → (A → A → Bool) → List A → Bool
in_order before [] = true
in_order before (x ∷ []) = true
in_order before (x ∷ y ∷ ys) = before x y && in_order before (y ∷ ys)

-- `PlayConflict.validate_conflict`
unfoldable pub validate_conflict : PlayConflict → Result (Unit {0})
validate_conflict c = do
  raise_if (eqb (length c.references) 0 || c.message == "")
      (value_error "play conflicts require references and a message")
  raise_if (not (in_order text_le c.references && unique c.references))
      (value_error "play conflict references must be unique and sorted")

module _ (P : Platform) where
  unfoldable pub compute_play_event_hash : PlayEvent → String
  unfolding dump_action
  compute_play_event_hash e = canonical_sha256 P (object_of (event_fields e))

  unfoldable pub compute_play_state_hash : LogicGridPlaySession → String
  unfolding dump_conflict dump_checkpoint write_mode write_status
  compute_play_state_hash s = canonical_sha256 P (object_of (state_fields s))

  unfoldable pub compute_play_session_hash : LogicGridPlaySession → String
  unfolding dump_conflict dump_checkpoint write_mode write_status dump_action
  compute_play_session_hash s = canonical_sha256 P (
      object_of (
        ("schema_version", text s.schema_version)
        ∷ (
          "events",
          array_of
              (map (λ e. object_of (("event_hash", text e.event_hash) ∷ event_fields e)) s.events),
        )
        ∷ ("state_hash", text s.state_hash)
        ∷ state_fields s))

  -- `PlayEvent.validate_event`
  unfoldable pub validate_event : PlayEvent → Result (Unit {0})
  unfolding compute_play_event_hash
  validate_event e = do
    raise_if (e.code == "" || e.message == "")
        (value_error "play outcomes require a code and message")
    raise_if (not (e.event_hash == compute_play_event_hash e))
        (value_error "event_hash does not match the canonical play event")

  -- the bound on `events`, and `LogicGridPlaySession.validate_session_shape`
  unfoldable pub validate_session_shape : LogicGridPlaySession → Result (Unit {0})
  unfolding compute_play_state_hash compute_play_session_hash
  validate_session_shape s = do
    raise_if (ltb max_play_events (length s.events))
        (value_error "Tuple should have at most 10000 items after validation")
    raise_if (not (in_order pair_le s.assignments))
        (value_error "assignments must use canonical order")
    raise_if (not (in_order pair_le s.exclusions))
        (value_error "exclusions must use canonical order")
    raise_if (not (unique (keys s.assignments)))
        (value_error "a play session cannot assign one variable more than once")
    raise_if (any (contains s.exclusions) s.assignments)
        (value_error "a cell cannot be both assigned and excluded")
    raise_if (not (in_order conflict_le s.conflicts))
        (value_error "play conflicts must use canonical order")
    raise_if (not (unique (map (λ c. c.checkpoint_id) s.checkpoints)))
        (value_error "checkpoint identifiers must be unique")
    raise_if (not (unique (map (λ c. P.casefold c.name) s.checkpoints)))
        (value_error "checkpoint names must be unique ignoring case")
    raise_if (not (in_order leb (map (λ c. c.captured_sequence_no) s.checkpoints)))
        (value_error "checkpoints must use capture order")
    raise_if (not (s.state_hash == compute_play_state_hash s))
        (value_error "state_hash does not match the current play state")
    raise_if (not (s.session_hash == compute_play_session_hash s))
        (value_error "session_hash does not match the canonical play session")

-- The keyword arguments of `_build_session`: a dict and a set for the marks.
pub record SessionParts : Type 0 where
  pub attempt_id : String
  pub puzzle_revision_id : String
  pub validation_mode : PlayValidationMode
  pub status : PlaySessionStatus
  pub assignments : Dict String
  pub exclusions : List (String × String)
  pub conflicts : List PlayConflict
  pub checkpoints : List PlayCheckpoint
  pub active_move_id : Option String
  pub events : List PlayEvent

unfoldable pub unsigned_session : SessionParts → LogicGridPlaySession
unsigned_session a = record {
  schema_version = play_schema_version;
  attempt_id = a.attempt_id;
  puzzle_revision_id = a.puzzle_revision_id;
  validation_mode = a.validation_mode;
  status = a.status;
  assignments = sort_items a.assignments;
  exclusions = sort_by pair_le a.exclusions;
  conflicts = a.conflicts;
  checkpoints = a.checkpoints;
  active_move_id = a.active_move_id;
  events = a.events;
  state_hash = play_genesis_hash;
  session_hash = play_genesis_hash;
}

module _ (P : Platform) where
  unfoldable pub signed_session : SessionParts → LogicGridPlaySession
  unfolding unsigned_session
  signed_session a =
      let unsigned = unsigned_session a in
      let with_state = record unsigned { state_hash = compute_play_state_hash P unsigned } in
      record with_state { session_hash = compute_play_session_hash P with_state }

  -- `_build_session`
  unfoldable pub build_session : SessionParts → Result LogicGridPlaySession
  unfolding signed_session validate_session_shape
  build_session a = do validate_session_shape P (signed_session a); ok (signed_session a)

  -- `_seal_event`, of the event with the digest left open
  unfoldable pub seal_play_event : PlayEvent → Result PlayEvent
  unfolding validate_event compute_play_event_hash
  seal_play_event unsigned = do
    let sealed = record unsigned { event_hash = compute_play_event_hash P unsigned }
    validate_event P sealed
    ok sealed
