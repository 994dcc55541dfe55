-- ===== src/Families/LogicGrid/Play/Givens.antt =====
-- The givens of a puzzle stay marked in every session.
use mathlib.Core.Path.{subst}
use deductra.Common.{
  ℕ, zero, suc, String, ◌≡◌, sym, ap, ◌∙◌, ◌≢◌, inl, inr, false, ◌&&◌, Option, none, some, List, [],
  ◌∷◌, ◌++◌, arith, string_eq, nat_eq, bool_eq, length, All, contains, Has, add,
  difference-keeps_other, add-keeps, value_error, err, ok, >>=-eq-ok, ok-injective,
}
use deductra.Common.Dict.{Dict, lookup, dict_of, lookup-insert, contains-keys}
use deductra.Common.Dict.Items.{All-lookup, All-insert}
use deductra.Common.{pair_eq}
use deductra.Canonical.{Platform}
use deductra.Families.LogicGrid.Specification.{LogicGridSpec, anchor_domain}
use deductra.Families.LogicGrid.Play.{
  PlayValidationMode, CellAction, assign_cell, exclude_cell, clear_cell, PlayAction, cell,
  PlayEvent, LogicGridPlaySession, PlayActionResult, play_event_eq, play_session_eq,
}
use deductra.Families.LogicGrid.Play.Session.{unsigned_session, signed_session}
use deductra.Families.LogicGrid.Play.History.{
  Marks, given_marks, is_cell, cell_of, is_move, move_events, path_from, active_path, pop_if,
  apply_cell_action, apply_path, project_marks, cell_variable, cell_value, cell_rejection,
}
use deductra.Families.LogicGrid.Play.Outcome.{session_parts, unsigned_play_event}
use deductra.Families.LogicGrid.Play.Replay.{
  start_parts, start_logic_grid_play, check_applicable, replay_logic_grid_play,
}
use deductra.Families.LogicGrid.Play.Steps.{
  Performed, start_logic_grid_play-ok, replay_logic_grid_play-keeps,
}
use deductra.Families.LogicGrid.Play.Effects.{decide-Effect}
use deductra.Families.LogicGrid.Play.Path.{path_from-LastStep}
use deductra.Families.LogicGrid.Play.Moves.{
  move_events-append, move_events-append_other, lookup-pop_if,
}
use deductra.Families.LogicGrid.Play.Projection.{session_marks, replay_logic_grid_play-IsProjected}

All-append :
    (Q : PlayEvent → Type 0) (xs : List PlayEvent) (e : PlayEvent)
    → All Q xs
    → Q e
    → All Q (xs ++ e ∷ [])
All-append Q [] e h q = (q, tt)
All-append Q (x ∷ xs) e h q = (h.0, All-append Q xs e h.1 q)

module _ (p : LogicGridSpec) where
  -- A move that the guard of the cells let pass.
  abbrev Allowed : PlayEvent → Type 0
  Allowed e = (a : CellAction) × (e.action ≡ cell a) × (cell_rejection p a ≡ ok none)

  abbrev AllowedMoves : Dict PlayEvent → Type 0
  AllowedMoves moves = All (λ (i, e). Allowed e) moves

  path_from-Allowed :
      (fuel : ℕ) (moves : Dict PlayEvent) (seen : List String) (current : Option String)
      {path : List PlayEvent}
      → AllowedMoves moves
      → path_from fuel moves seen current ≡ ok path
      → All Allowed path
  unfolding path_from
  path_from-Allowed fuel moves seen none h e = subst (All Allowed) (ok-injective e) tt
  path_from-Allowed zero moves seen (some c) h e = cc
  path_from-Allowed (suc fuel) moves seen (some c) h e =
      let s = path_from-LastStep fuel moves seen c e in
      subst (All Allowed) s.whole (
        All-append Allowed s.before s.event
          (path_from-Allowed fuel moves (add c seen) s.event.parent_move_id h s.rest)
          (All-lookup (λ (i, e). Allowed e) c s.event moves h s.found))

  -- The marks of the givens are among the marks.
  pub record HasGivens (m : Marks) : Type 0 where
    pub assignments :
        (v x : String)
        → lookup v (given_marks p).assignments ≡ some x
        → lookup v m.assignments ≡ some x
    pub exclusions : (c : String × String) → Has (given_marks p).exclusions c → Has m.exclusions c

  unlocked :
      (a : CellAction)
      → cell_rejection p a ≡ ok none
      → (lookup (cell_variable a) (given_marks p).assignments ≡ none)
        × (contains (given_marks p).exclusions (cell_variable a, cell_value a) ≡ false)
  unfolding cell_rejection given_marks
  unlocked a h =
      let (anchor, found, rest) = >>=-eq-ok (anchor_domain p) _ h in
      (ground (arith, contains-keys (cell_variable a) (given_marks p).assignments), ground arith)

  apart :
      (a : CellAction)
      → cell_rejection p a ≡ ok none
      → (c : String × String) → Has (given_marks p).exclusions c
      → (cell_variable a, cell_value a) ≢ c
  apart a h c k same =
      let marked = ap (contains (given_marks p).exclusions) same ∙ k in
      cc (marked, (unlocked a h).1)

  popped :
      (m : Marks) (a : CellAction)
      → cell_rejection p a ≡ ok none
      → HasGivens m
      → (w y : String) → lookup w (given_marks p).assignments ≡ some y
      → lookup w (pop_if m.assignments (cell_variable a) (cell_value a)) ≡ some y
  popped m a h g w y e =
      let (free, loose) = unlocked a h in
      lookup-pop_if m.assignments (cell_variable a) (cell_value a) w
      ∙ ground (arith, g.assignments w y e)

  apply_cell_action-HasGivens :
      (m : Marks) (a : CellAction)
      → cell_rejection p a ≡ ok none
      → HasGivens m
      → HasGivens (apply_cell_action m a)
  unfolding apply_cell_action
  apply_cell_action-HasGivens m (assign_cell v x) h g = record {
    assignments = λ w y e.
        let (free, loose) = unlocked (assign_cell v x) h in
        lookup-insert v w x m.assignments ∙ ground (arith, g.assignments w y e);
    exclusions = λ c k.
        difference-keeps_other c (v, x) m.exclusions (g.exclusions c k)
          (apart (assign_cell v x) h c k);
  }
  apply_cell_action-HasGivens m (exclude_cell v x) h g = record {
    assignments = popped m (exclude_cell v x) h g;
    exclusions = λ c k. add-keeps c (v, x) m.exclusions (g.exclusions c k);
  }
  apply_cell_action-HasGivens m (clear_cell v x) h g = record {
    assignments = popped m (clear_cell v x) h g;
    exclusions = λ c k.
        difference-keeps_other c (v, x) m.exclusions (g.exclusions c k)
          (apart (clear_cell v x) h c k);
  }

  apply_path-HasGivens :
      (m : Marks) (path : List PlayEvent) {n : Marks}
      → All Allowed path
      → apply_path m path ≡ ok n
      → HasGivens m
      → HasGivens n
  unfolding apply_path
  apply_path-HasGivens m [] h e g = subst HasGivens (ok-injective e) g
  apply_path-HasGivens m (x ∷ path) ((a, acts, allowed), h) e g =
      let rest =
        ap
          (λ b. elim (cell_of b) [
            | none ↦ err (value_error "move history contains a non-cell action")
            | some c ↦ apply_path (apply_cell_action m c) path
          ])
          (sym acts)
        ∙ e in
      apply_path-HasGivens (apply_cell_action m a) path h rest
        (apply_cell_action-HasGivens m a allowed g)

  project_marks-HasGivens :
      (moves : Dict PlayEvent) (current : Option String) {m : Marks}
      → AllowedMoves moves
      → project_marks p moves current ≡ ok m
      → HasGivens m
  unfolding project_marks active_path
  project_marks-HasGivens moves current h e =
      let (path, walked, applied) =
        >>=-eq-ok (path_from (suc (length moves)) moves [] current) _ e in
      apply_path-HasGivens (given_marks p) path
        (path_from-Allowed (suc (length moves)) moves [] current h walked) applied
        (record { assignments = λ v x e. e; exclusions = λ c k. k })

module _ (P : Platform) (p : LogicGridSpec) where
  Performed-AllowedMoves :
      (s : LogicGridPlaySession) (event_id : String) (action : PlayAction) (r : PlayActionResult)
      → check_applicable P s p event_id ≡ ok tt
      → Performed P s p event_id action r
      → AllowedMoves p (move_events s.events)
      → AllowedMoves p (move_events r.session.events)
  unfolding signed_session unsigned_session session_parts unsigned_play_event
  Performed-AllowedMoves s event_id action r applicable d h =
      let e = d.event in
      let acts : e.action ≡ action = ap (λ e. e.action) d.sealed in
      let accepted : e.accepted ≡ d.outcome.accepted = ap (λ e. e.accepted) d.sealed in
      let kind : is_move e ≡ (d.outcome.accepted && is_cell action) = cc (accepted, acts) in
      let grown : r.session.events ≡ s.events ++ e ∷ [] = ap (λ t. t.events) d.result in
      subst (λ es. AllowedMoves p (move_events es)) (sym grown)
        (elim (decide-Effect s p event_id P action d.decided) [
          | inl st ↦
              subst (AllowedMoves p) (sym (move_events-append_other s.events e (kind ∙ st.no_move)))
                h
          | inr pl ↦
              subst (AllowedMoves p)
                (sym (move_events-append s.events e (kind ∙ cc (pl.accepted, pl.acts))))
                (All-insert (λ (i, e). Allowed p e) e.event_id e (move_events s.events)
                  (pl.mark, acts ∙ pl.acts, pl.allowed) h)
        ])

  started-AllowedMoves :
      (attempt_id : String) (mode : PlayValidationMode) (s : LogicGridPlaySession)
      → start_logic_grid_play P p attempt_id mode ≡ ok s
      → AllowedMoves p (move_events s.events)
  unfolding signed_session unsigned_session start_parts move_events dict_of
  started-AllowedMoves attempt_id mode s h =
      subst (λ t. AllowedMoves p (move_events t.events))
        (sym (start_logic_grid_play-ok P p attempt_id mode h).0) tt

  -- In a session that a replay returns every given assignment and every given exclusion is marked.
  pub replay_logic_grid_play-HasGivens :
      (attempt_id : String) (mode : PlayValidationMode) (events : List PlayEvent)
      {s : LogicGridPlaySession}
      → replay_logic_grid_play P p attempt_id mode events ≡ ok s
      → HasGivens p (session_marks s)
  replay_logic_grid_play-HasGivens attempt_id mode events {s} h =
      let allowed =
        replay_logic_grid_play-keeps P p (λ s. AllowedMoves p (move_events s.events))
          Performed-AllowedMoves attempt_id mode events (started-AllowedMoves attempt_id mode) h in
      let k = replay_logic_grid_play-IsProjected P p attempt_id mode events h in
      let g =
        project_marks-HasGivens p (move_events s.events) s.active_move_id allowed k.projected in
      record {
        assignments = λ v x e. k.same.assignments v ∙ g.assignments v x e;
        exclusions = λ c m. k.same.exclusions c ∙ g.exclusions c m;
      }
