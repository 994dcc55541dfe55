-- ===== src/Families/LogicGrid/Play/Path.antt =====
-- `_active_path` ends, and a path is not changed by events that come later.
use deductra.Common.{
  ℕ, zero, suc, ◌≤◌, ◌<◌, String, ◌≡◌, refl, ap, ◌∙◌, ◌⊎◌, inl, inr, false, not, ◌||◌, Option, none,
  some, List, [], ◌∷◌, ◌++◌, arith, Bool-cases, Option-cases, string_eq, pair_eq, nat_eq, bool_eq,
  length, contains, Has, add, difference, contains-add, Error, value_error, Result, err, ok,
  raise_if-eq-ok, >>=-eq-ok, ok-injective,
}
use deductra.Common.Dict.{Dict, keys, lookup, subscript, contains-keys}
use deductra.Families.LogicGrid.Play.{PlayEvent, play_event_eq, play_session_eq}
use deductra.Families.LogicGrid.Play.History.{path_from, active_path}

difference-add-le :
    (xs seen : List String) (c : String)
    → length (difference xs (add c seen)) ≤ length (difference xs seen)
unfolding difference
difference-add-le [] seen c = omega arith
difference-add-le (x ∷ xs) seen c =
    ground (arith, difference-add-le xs seen c, contains-add c x seen)

-- A key that is seen for the first time is one less to see.
difference-add-lt :
    (xs seen : List String) (c : String)
    → Has xs c
    → contains seen c ≡ false
    → length (difference xs (add c seen)) < length (difference xs seen)
unfolding difference contains
difference-add-lt [] seen c h n = cc
difference-add-lt (x ∷ xs) seen c h n =
    ground (arith, difference-add-le xs seen c, difference-add-lt xs seen c, contains-add c x seen)

difference-length-le : (xs ys : List String) → length (difference xs ys) ≤ length xs
unfolding difference
difference-length-le [] ys = omega arith
difference-length-le (x ∷ xs) ys = ground (arith, difference-length-le xs ys)

length-keys : (moves : Dict PlayEvent) → length (keys moves) ≡ length moves
length-keys [] = refl
length-keys (_ ∷ moves) = ap suc (length-keys moves)

abbrev broken_history : Error
broken_history = value_error "active move history is missing or cyclic"

-- A path, or the exception of the code.
abbrev pub Ends : Result (List PlayEvent) → Type 0
Ends r = ((path : List PlayEvent) × (r ≡ ok path)) ⊎ (r ≡ err broken_history)

path_from-Ends :
    (fuel : ℕ) (moves : Dict PlayEvent) (seen : List String) (current : Option String)
    → length (difference (keys moves) seen) < fuel
    → Ends (path_from fuel moves seen current)
unfolding path_from subscript
path_from-Ends fuel moves seen none enough = inl ([], refl)
path_from-Ends zero moves seen (some c) enough = absurd (omega arith)
path_from-Ends (suc fuel) moves seen (some c) enough =
    elim (Bool-cases (contains seen c || not (contains (keys moves) c))) [
      | inl bad ↦ inr (ground arith)
      | inr fine ↦ elim (Option-cases (lookup c moves)) [
        | inl missing ↦ absurd (ground (arith, contains-keys c moves))
        | inr (e, found) ↦
            let less = difference-add-lt (keys moves) seen c (ground arith) (ground arith) in
            elim (path_from-Ends fuel moves (add c seen) e.parent_move_id (omega arith)) [
              | inl (path, r) ↦ inl (path ++ e ∷ [], ground arith)
              | inr r ↦ inr (ground arith)
            ]
      ]
    ]

-- The walk to the active move ends for any retained moves, cyclic ones included: with a path, or
-- with the exception for a missing or cyclic history, never for want of fuel.
pub active_path-Ends :
    (moves : Dict PlayEvent) (current : Option String) → Ends (active_path moves current)
unfolding active_path
active_path-Ends moves current =
    path_from-Ends (suc (length moves)) moves [] current
      (omega (arith, difference-length-le (keys moves) [], length-keys moves))

-- The last event of a path and the path before it.
pub record LastStep (fuel : ℕ) (moves : Dict PlayEvent) (seen : List String) (c : String)
    (path : List PlayEvent) : Type 0 where
  pub event : PlayEvent
  pub before : List PlayEvent
  pub unseen : contains seen c ≡ false
  pub found : lookup c moves ≡ some event
  pub rest : path_from fuel moves (add c seen) event.parent_move_id ≡ ok before
  pub whole : before ++ event ∷ [] ≡ path

pub path_from-LastStep :
    (fuel : ℕ) (moves : Dict PlayEvent) (seen : List String) (c : String) {path : List PlayEvent}
    → path_from (suc fuel) moves seen (some c) ≡ ok path
    → LastStep fuel moves seen c path
unfolding path_from subscript
path_from-LastStep fuel moves seen c h =
    let (fine, h1) = raise_if-eq-ok (contains seen c || not (contains (keys moves) c)) _ _ h in
    let (event, found, h2) = >>=-eq-ok (subscript c moves) _ h1 in
    let (before, rest, h3) =
      >>=-eq-ok (path_from fuel moves (add c seen) event.parent_move_id) _ h2 in
    record {
      event = event;
      before = before;
      unseen = ground arith;
      found = ground arith;
      rest = rest;
      whole = ok-injective h3;
    }

pub path_from-next :
    (fuel : ℕ) (moves : Dict PlayEvent) (seen : List String) (c : String) {path : List PlayEvent}
    → LastStep fuel moves seen c path
    → path_from (suc fuel) moves seen (some c) ≡ ok path
unfolding path_from subscript
path_from-next fuel moves seen c {path} s =
    let known : Has (keys moves) c = (contains-keys c moves).1 (λ n. cc (n, s.found)) in
    ground (arith, s.unseen, s.found, s.rest, s.whole)

-- More fuel, more moves, and other keys that were seen, do not change a path.
pub path_from-extend :
    (fuel more : ℕ) (moves others : Dict PlayEvent) (seen known : List String)
    (current : Option String) {path : List PlayEvent}
    → fuel ≤ more
    → ((c : String) (e : PlayEvent) → lookup c moves ≡ some e → lookup c others ≡ some e)
    → ((c : String) → Has (keys moves) c → contains known c ≡ contains seen c)
    → path_from fuel moves seen current ≡ ok path
    → path_from more others known current ≡ ok path
unfolding path_from subscript
path_from-extend fuel more moves others seen known none f l k h = h
path_from-extend zero more moves others seen known (some c) f l k h = cc
path_from-extend (suc fuel) zero moves others seen known (some c) f l k h = absurd (omega arith)
path_from-extend (suc fuel) (suc more) moves others seen known (some c) {path} f l k h =
    let s = path_from-LastStep fuel moves seen c h in
    let known_c : Has (keys moves) c = (contains-keys c moves).1 (λ n. cc (n, s.found)) in
    path_from-next more others known c (record {
      event = s.event;
      before = s.before;
      unseen = k c known_c ∙ s.unseen;
      found = l c s.event s.found;
      rest =
          path_from-extend fuel more moves others (add c seen) (add c known) s.event.parent_move_id
            (omega arith) l
            (λ d m. ground (arith, contains-add c d seen, contains-add c d known, k d m)) s.rest;
      whole = s.whole;
    })
