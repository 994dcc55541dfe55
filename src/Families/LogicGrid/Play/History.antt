-- ===== src/Families/LogicGrid/Play/History.antt =====
-- src/deductra/families/logic_grid/play.py: the retained moves, the path to the active one, and the
-- marks that the moves on it make.
use deductra.Common.{
  ℕ, zero, suc, String, Bool, true, false, not, ◌&&◌, ◌||◌, Option, none, some, List, [], ◌∷◌, ◌++◌,
  map, if◌then◌else◌, ◌==◌, string_eq, pair_eq, nat_eq, bool_eq, length, keep, contains, add,
  to_set, difference, value_error, stop_iteration, Result, err, ok, raise_if, ◌>>=◌, ◌>>◌,
}
use deductra.Common.Dict.{Dict, keys, lookup, insert, dict_of, subscript, remove_key}
use deductra.Domain.Atoms.{Atom, assignment, exclusion, atom_eq}
use deductra.Families.LogicGrid.Specification.{LogicGridSpec, anchor_domain}
use deductra.Families.LogicGrid.Play.{
  CellAction, assign_cell, exclude_cell, clear_cell, PlayAction, cell, PlayEvent, play_event_eq,
  play_session_eq,
}

-- The givens that are assignments, and those that are exclusions.
unfoldable pub given_assignments : List Atom → List (String × String)
given_assignments [] = []
given_assignments (assignment v x ∷ givens) = (v, x) ∷ given_assignments givens
given_assignments (_ ∷ givens) = given_assignments givens

unfoldable pub given_exclusions : List Atom → List (String × String)
given_exclusions [] = []
given_exclusions (exclusion v x ∷ givens) = (v, x) ∷ given_exclusions givens
given_exclusions (_ ∷ givens) = given_exclusions givens

-- The dict of assignments and the set of exclusions.
pub record Marks : Type 0 where
  pub assignments : Dict String
  pub exclusions : List (String × String)

unfoldable pub given_marks : LogicGridSpec → Marks
unfolding given_assignments given_exclusions dict_of
given_marks p = record {
  assignments = dict_of [] (given_assignments p.base.givens);
  exclusions = to_set (given_exclusions p.base.givens);
}

abbrev pub is_cell : PlayAction → Bool
is_cell (cell a) = true
is_cell _ = false

abbrev pub cell_of : PlayAction → Option CellAction
cell_of (cell a) = some a
cell_of _ = none

abbrev pub is_move : PlayEvent → Bool
is_move e = e.accepted && is_cell e.action

-- `_move_events`
unfoldable pub move_events : List PlayEvent → Dict PlayEvent
unfolding dict_of
move_events events = dict_of [] (map (λ e. (e.event_id, e)) (keep is_move events))

-- `_active_path`, from the first move to `current`. The fuel bounds the moves that are not in
-- `seen`; `Play/Path` proves that it is never used up.
unfoldable pub path_from :
    ℕ → Dict PlayEvent → List String → Option String → Result (List PlayEvent)
path_from fuel moves seen none = ok []
path_from zero moves seen (some current) = err stop_iteration
path_from (suc fuel) moves seen (some current) = do
  raise_if (contains seen current || not (contains (keys moves) current))
      (value_error "active move history is missing or cyclic")
  event ← subscript current moves
  path ← path_from fuel moves (add current seen) event.parent_move_id
  ok (path ++ event ∷ [])

unfoldable pub active_path : Dict PlayEvent → Option String → Result (List PlayEvent)
unfolding path_from
active_path moves active_move_id = path_from (suc (length moves)) moves [] active_move_id

-- `exclusions.discard(cell)`
abbrev pub discard : String × String → List (String × String) → List (String × String)
discard c s = difference s (c ∷ [])

-- `if assignments.get(v) == x: assignments.pop(v)`
abbrev pub pop_if : Dict String → String → String → Dict String
pop_if d v x = elim (lookup v d) [ some y ↦ if y == x then remove_key v d else d | none ↦ d ]

-- `_apply_cell_action`
unfoldable pub apply_cell_action : Marks → CellAction → Marks
apply_cell_action m (assign_cell v x) = record {
  assignments = insert v x m.assignments;
  exclusions = discard (v, x) m.exclusions;
}
apply_cell_action m (exclude_cell v x) = record {
  assignments = pop_if m.assignments v x;
  exclusions = add (v, x) m.exclusions;
}
apply_cell_action m (clear_cell v x) = record {
  assignments = pop_if m.assignments v x;
  exclusions = discard (v, x) m.exclusions;
}

-- the loop of `_project_marks`
unfoldable pub apply_path : Marks → List PlayEvent → Result Marks
unfolding apply_cell_action
apply_path m [] = ok m
apply_path m (e ∷ path) = elim (cell_of e.action) [
  | none ↦ err (value_error "move history contains a non-cell action")
  | some a ↦ apply_path (apply_cell_action m a) path
]

-- `_project_marks`
unfoldable pub project_marks : LogicGridSpec → Dict PlayEvent → Option String → Result Marks
unfolding given_marks active_path apply_path
project_marks p moves active_move_id = do
  path ← active_path moves active_move_id
  apply_path (given_marks p) path

abbrev pub cell_variable : CellAction → String
cell_variable (assign_cell v x) = v
cell_variable (exclude_cell v x) = v
cell_variable (clear_cell v x) = v

abbrev pub cell_value : CellAction → String
cell_value (assign_cell v x) = x
cell_value (exclude_cell v x) = x
cell_value (clear_cell v x) = x

given_locked : Option (String × String)
given_locked = some ("given_locked", "A fixed puzzle cell cannot be changed.")

-- `_cell_rejection`: the code and the message
unfoldable pub cell_rejection : LogicGridSpec → CellAction → Result (Option (String × String))
unfolding given_assignments given_exclusions anchor_domain given_locked dict_of
cell_rejection p a = do
  anchor ← anchor_domain p
  let v = cell_variable a
  let x = cell_value a
  ok (
      if not (contains (map (λ w. w.variable_id) p.base.variables) v)
      then some ("unknown_variable", "That puzzle item is not available.")
      else if not (contains (map (λ w. w.value_id) anchor.values) x)
      then some ("unknown_value", "That row value is not available.")
      else if contains (keys (dict_of [] (given_assignments p.base.givens))) v
      then given_locked
      else if contains (to_set (given_exclusions p.base.givens)) (v, x)
      then given_locked
      else none)
