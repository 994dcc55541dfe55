-- ===== src/Families/LogicGrid/Play/Conflicts.antt =====
-- src/deductra/families/logic_grid/play.py: `_progress_conflicts` and `_automatic_conflicts`.
use deductra.Common.{
  String, none, some, List, [], ◌∷◌, ◌++◌, map, ltb, eqb, if◌then◌else◌, ◌==◌, string_eq, pair_eq,
  nat_eq, bool_eq, length, keep, contains, to_set, difference, sort_by, sort_texts, Result, ok,
  ◌>>=◌, ◌>>◌,
}
use deductra.Common.Dict.{Dict, keys, lookup, insert}
use deductra.Domain.Values.{Variable, value_ids}
use deductra.Families.LogicGrid.Specification.{LogicGridCategory, LogicGridSpec, anchor_domain}
use deductra.Families.LogicGrid.Play.{
  PlayValidationMode, strict, soft, ConflictCode, duplicate_row, no_candidate, PlayConflict,
  play_event_eq, play_session_eq,
}
use deductra.Families.LogicGrid.Play.Session.{conflict_le, validate_conflict}
use deductra.Families.LogicGrid.Play.History.{Marks}

-- A conflict, or the exception of its validator.
unfoldable pub make_conflict : ConflictCode → List String → String → Result PlayConflict
unfolding validate_conflict
make_conflict code references message = do
  let c : PlayConflict = record { code = code; references = references; message = message }
  validate_conflict c
  ok c

-- `{value for variable, value in exclusions if variable == v}`
abbrev pub excluded_values : String → List (String × String) → List String
excluded_values v exclusions = map (λ (w, x). x) (keep (λ (w, x). w == v) exclusions)

-- the loop over the variables
unfoldable pub candidate_conflicts :
    List String → Marks → List Variable → Result (List PlayConflict)
unfolding make_conflict
candidate_conflicts anchor_values m [] = ok []
candidate_conflicts anchor_values m (v ∷ vs) = do
  let remaining = difference anchor_values (excluded_values v.variable_id m.exclusions)
  found ←
      if contains (keys m.assignments) v.variable_id
      then ok []
      else if eqb (length remaining) 0
      then (do
        c ←
            make_conflict no_candidate (v.variable_id ∷ [])
              "A puzzle item has no remaining row candidate."
        ok (c ∷ []))
      else ok []
  rest ← candidate_conflicts anchor_values m vs
  ok (found ++ rest)

-- `variables_by_value.setdefault(value_id, []).append(variable_id)`
abbrev pub append_at : String → String → Dict (List String) → Dict (List String)
append_at x v d = elim (lookup x d) [
  | some vs ↦ insert x (vs ++ v ∷ []) d
  | none ↦ insert x (v ∷ []) d
]

unfoldable pub variables_by_value :
    Dict String → Dict (List String) → List String → Dict (List String)
variables_by_value assignments d [] = d
variables_by_value assignments d (v ∷ vs) =
    variables_by_value assignments
      (elim (lookup v assignments) [ some x ↦ append_at x v d | none ↦ d ]) vs

-- the loop over `variables_by_value.items()`
unfoldable pub duplicate_conflicts : String → Dict (List String) → Result (List PlayConflict)
unfolding make_conflict sort_texts
duplicate_conflicts category_id [] = ok []
duplicate_conflicts category_id ((x, vs) ∷ rows) = do
  found ←
      if ltb 1 (length vs)
      then (do
        c ←
            make_conflict duplicate_row (sort_texts (to_set (category_id ∷ x ∷ vs)))
              "Two items in one category select the same row."
        ok (c ∷ []))
      else ok []
  rest ← duplicate_conflicts category_id rows
  ok (found ++ rest)

-- the loop over the categories
unfoldable pub category_conflicts :
    Dict String → List LogicGridCategory → Result (List PlayConflict)
unfolding variables_by_value duplicate_conflicts
category_conflicts assignments [] = ok []
category_conflicts assignments (c ∷ cs) = do
  found ← duplicate_conflicts c.category_id (variables_by_value assignments [] c.variable_ids)
  rest ← category_conflicts assignments cs
  ok (found ++ rest)

-- `_progress_conflicts`
unfoldable pub progress_conflicts : LogicGridSpec → Marks → Result (List PlayConflict)
unfolding candidate_conflicts category_conflicts anchor_domain
progress_conflicts p m = do
  anchor ← anchor_domain p
  without_candidate ← candidate_conflicts (to_set (value_ids anchor)) m p.base.variables
  duplicated ← category_conflicts m.assignments p.categories
  ok (sort_by conflict_le (without_candidate ++ duplicated))

-- `_automatic_conflicts`
unfoldable pub automatic_conflicts :
    PlayValidationMode → LogicGridSpec → Marks → Result (List PlayConflict)
unfolding progress_conflicts
automatic_conflicts strict p m = progress_conflicts p m
automatic_conflicts soft p m = progress_conflicts p m
automatic_conflicts _ p m = ok []
