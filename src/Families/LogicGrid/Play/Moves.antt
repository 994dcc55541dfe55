-- ===== src/Families/LogicGrid/Play/Moves.antt =====
-- The retained moves after one more event, and marks that differ in representation alone.
use deductra.Common.{
  suc, String, ◌≡◌, refl, sym, ap, ◌∙◌, true, false, not, ◌&&◌, ◌||◌, none, some, List, [], ◌∷◌,
  ◌++◌, map, arith, if◌then◌else◌, ◌==◌, string_eq, nat_eq, bool_eq, length, keep, contains, add,
  contains-add, contains-difference, ok,
}
use deductra.Common.Dict.{
  Dict, keys, lookup, insert, dict_of, lookup-insert, lookup-remove_key, contains-keys,
}
use deductra.Common.Dict.Items.{contains-keys-dict_of-map}
use deductra.Common.{pair_eq}
use deductra.Families.LogicGrid.Play.{
  CellAction, assign_cell, exclude_cell, clear_cell, PlayEvent, play_event_eq, play_session_eq,
}
use deductra.Families.LogicGrid.Play.History.{
  Marks, is_move, move_events, active_path, discard, pop_if, apply_cell_action,
}
use deductra.Families.LogicGrid.Play.Path.{path_from-next, path_from-extend}

keep-move_append :
    (es : List PlayEvent) (e : PlayEvent)
    → keep is_move (es ++ e ∷ [])
      ≡ (if is_move e then keep is_move es ++ e ∷ [] else keep is_move es)
keep-move_append [] e = refl
keep-move_append (x ∷ es) e = ground (arith, keep-move_append es e)

abbrev keyed : List PlayEvent → Dict PlayEvent
keyed es = map (λ e. (e.event_id, e)) es

dict_of-append :
    (d : Dict PlayEvent) (es : List PlayEvent) (e : PlayEvent)
    → dict_of d (keyed (es ++ e ∷ [])) ≡ insert e.event_id e (dict_of d (keyed es))
unfolding dict_of
dict_of-append d [] e = refl
dict_of-append d (x ∷ es) e = dict_of-append (insert x.event_id x d) es e

pub move_events-append :
    (es : List PlayEvent) (e : PlayEvent)
    → is_move e ≡ true
    → move_events (es ++ e ∷ []) ≡ insert e.event_id e (move_events es)
unfolding move_events
move_events-append es e h =
    let kept : keep is_move (es ++ e ∷ []) ≡ keep is_move es ++ e ∷ [] =
      keep-move_append es e ∙ ground arith in
    ap (λ ms. dict_of [] (keyed ms)) kept ∙ dict_of-append [] (keep is_move es) e

pub move_events-append_other :
    (es : List PlayEvent) (e : PlayEvent)
    → is_move e ≡ false
    → move_events (es ++ e ∷ []) ≡ move_events es
unfolding move_events
move_events-append_other es e h =
    let kept : keep is_move (es ++ e ∷ []) ≡ keep is_move es =
      keep-move_append es e ∙ ground arith in
    ap (λ ms. dict_of [] (keyed ms)) kept

contains-keep_moves :
    (es : List PlayEvent) (i : String)
    → contains (map (λ e. e.event_id) es) i ≡ false
    → contains (map (λ e. e.event_id) (keep is_move es)) i ≡ false
unfolding contains
contains-keep_moves [] i h = refl
contains-keep_moves (x ∷ es) i h = ground (arith, contains-keep_moves es i)

pub move_events-fresh :
    (es : List PlayEvent) (i : String)
    → contains (map (λ e. e.event_id) es) i ≡ false
    → contains (keys (move_events es)) i ≡ false
unfolding move_events
move_events-fresh es i h =
    contains-keys-dict_of-map i (λ e. e.event_id) (λ e. e) (keep is_move es)
    ∙ contains-keep_moves es i h

length-insert :
    (i : String) (e : PlayEvent) (d : Dict PlayEvent)
    → contains (keys d) i ≡ false
    → length (insert i e d) ≡ suc (length d)
unfolding insert contains
length-insert i e [] h = refl
length-insert i e ((j, w) ∷ d) h = ground (arith, length-insert i e d)

-- A new move after `current` has the path to `current`, and then itself.
pub active_path-insert :
    (d : Dict PlayEvent) (e : PlayEvent) {path : List PlayEvent}
    → contains (keys d) e.event_id ≡ false
    → active_path d e.parent_move_id ≡ ok path
    → active_path (insert e.event_id e d) (some e.event_id) ≡ ok (path ++ e ∷ [])
unfolding active_path contains add
active_path-insert d e {path} fresh h =
    let i = e.event_id in
    let others = insert i e d in
    let grown = length-insert i e d fresh in
    path_from-next (length others) others [] i (record {
      event = e;
      before = path;
      unseen = refl;
      found = lookup-insert i i e d ∙ ground arith;
      rest =
          path_from-extend (suc (length d)) (length others) d others [] (i ∷ []) e.parent_move_id
            (omega (arith, grown))
            (λ c x found. lookup-insert i c e d ∙ ground (arith, contains-keys i d))
            (λ c known. ground arith) h;
      whole = refl;
    })

-- The same marks, in dicts and sets that may be ordered otherwise.
pub record SameMarks (m n : Marks) : Type 0 where
  pub assignments : (v : String) → lookup v m.assignments ≡ lookup v n.assignments
  pub exclusions : (c : String × String) → contains m.exclusions c ≡ contains n.exclusions c

pub SameMarks-sym : {m n : Marks} → SameMarks m n → SameMarks n m
SameMarks-sym s = record {
  assignments = λ v. sym (s.assignments v);
  exclusions = λ c. sym (s.exclusions c);
}

pub SameMarks-trans : {m n k : Marks} → SameMarks m n → SameMarks n k → SameMarks m k
SameMarks-trans s t = record {
  assignments = λ v. s.assignments v ∙ t.assignments v;
  exclusions = λ c. s.exclusions c ∙ t.exclusions c;
}

pub lookup-pop_if :
    (d : Dict String) (v x w : String)
    → lookup w (pop_if d v x) ≡ elim (lookup v d) [
      | some y ↦ if y == x then (if v == w then none else lookup w d) else lookup w d
      | none ↦ lookup w d
    ]
lookup-pop_if d v x w = ground (arith, lookup-remove_key v w d)

pop_if-same :
    (d f : Dict String) (v x : String)
    → ((w : String) → lookup w d ≡ lookup w f)
    → (w : String) → lookup w (pop_if d v x) ≡ lookup w (pop_if f v x)
pop_if-same d f v x same w =
    ground (arith, lookup-pop_if d v x w, lookup-pop_if f v x w, same v, same w)

add-same :
    (c : String × String) (s t : List (String × String))
    → ((b : String × String) → contains s b ≡ contains t b)
    → (b : String × String) → contains (add c s) b ≡ contains (add c t) b
add-same c s t same b =
    contains-add c b s ∙ (ap (λ h. c == b || h) (same b) ∙ sym (contains-add c b t))

discard-same :
    (c : String × String) (s t : List (String × String))
    → ((b : String × String) → contains s b ≡ contains t b)
    → (b : String × String) → contains (discard c s) b ≡ contains (discard c t) b
discard-same c s t same b =
    contains-difference b s (c ∷ [])
    ∙ (ap (λ h. h && not (contains (c ∷ []) b)) (same b) ∙ sym (contains-difference b t (c ∷ [])))

-- An action does the same to the same marks.
pub apply_cell_action-SameMarks :
    {m n : Marks} (a : CellAction)
    → SameMarks m n
    → SameMarks (apply_cell_action m a) (apply_cell_action n a)
unfolding apply_cell_action
apply_cell_action-SameMarks {m} {n} (assign_cell v x) s = record {
  assignments = λ w.
      lookup-insert v w x m.assignments
      ∙ (ap (λ o. if v == w then some x else o) (s.assignments w)
          ∙ sym (lookup-insert v w x n.assignments));
  exclusions = discard-same (v, x) m.exclusions n.exclusions s.exclusions;
}
apply_cell_action-SameMarks {m} {n} (exclude_cell v x) s = record {
  assignments = pop_if-same m.assignments n.assignments v x s.assignments;
  exclusions = add-same (v, x) m.exclusions n.exclusions s.exclusions;
}
apply_cell_action-SameMarks {m} {n} (clear_cell v x) s = record {
  assignments = pop_if-same m.assignments n.assignments v x s.assignments;
  exclusions = discard-same (v, x) m.exclusions n.exclusions s.exclusions;
}
