-- ===== src/Families/LogicGrid/Play/Roundtrip.antt =====
-- A session that an action returns replays to itself.
use deductra.Common.{
  String, ◌≡◌, refl, ap, ◌∙◌, true, not, List, [], ◌∷◌, ◌++◌, arith, ◌==◌, ==_iff, string_eq,
  pair_eq, nat_eq, bool_eq, length, Result, err, ok, ◌>>=◌, raise_if-eq-ok, >>=-eq-ok, >>-eq-ok,
  ok-injective,
}
use deductra.Canonical.{Platform}
use deductra.Families.LogicGrid.Specification.{LogicGridSpec}
use deductra.Families.LogicGrid.Play.{play_event_eq, play_session_eq}
use deductra.Families.LogicGrid.Play.{
  PlayValidationMode, PlayAction, PlayEvent, LogicGridPlaySession, PlayActionResult,
}
use deductra.Families.LogicGrid.Play.Session.{unsigned_session, signed_session}
use deductra.Families.LogicGrid.Play.Outcome.{last_event_hash, session_parts, unsigned_play_event}
use deductra.Families.LogicGrid.Play.Replay.{
  start_logic_grid_play, check_applicable, perform, apply_unverified, ends_with, replay_event,
  replay_events, replay_logic_grid_play, apply_logic_grid_play_action,
}
use deductra.Families.LogicGrid.Play.Steps.{Performed, perform-Performed}

ok-unit : (r : Result LogicGridPlaySession) → (r >>= λ s. ok s) ≡ r
ok-unit (ok s) = refl
ok-unit (err e) = refl

module _ (P : Platform) where
  replay_events-append :
      (s : LogicGridPlaySession) (p : LogicGridSpec) (xs ys : List PlayEvent)
      {t : LogicGridPlaySession}
      → replay_events P s p xs ≡ ok t
      → replay_events P s p (xs ++ ys) ≡ replay_events P t p ys
  unfolding replay_events
  replay_events-append s p [] ys h = ap (λ t. replay_events P t p ys) (ok-injective h)
  replay_events-append s p (x ∷ xs) ys h =
      let (next, one, rest) = >>=-eq-ok (replay_event P s p x) _ h in
      ap (λ r. r >>= λ n. replay_events P n p (xs ++ ys)) one
      ∙ replay_events-append next p xs ys rest

  ends_with-append : (es : List PlayEvent) (e : PlayEvent) → ends_with P (es ++ e ∷ []) e ≡ ok true
  unfolding ends_with
  ends_with-append [] e = ap ok ((==_iff e e).1 refl)
  ends_with-append (x ∷ []) e = ends_with-append [] e
  ends_with-append (x ∷ y ∷ es) e = ends_with-append (y ∷ es) e

  replay_event_of :
      (s : LogicGridPlaySession) (p : LogicGridSpec) (source : PlayEvent) {r : PlayActionResult}
      → source.sequence_no ≡ length s.events
      → source.previous_event_hash ≡ last_event_hash s.events
      → apply_unverified P s p source.event_id source.action ≡ ok r
      → ends_with P r.session.events source ≡ ok true
      → replay_event P s p source ≡ ok r.session
  unfolding replay_event
  replay_event_of s p source numbered linked applied ends = ground arith

  -- The event that an action appends replays to the session that the action returns.
  replay_event-Performed :
      (s : LogicGridPlaySession) (p : LogicGridSpec) (event_id : String) (action : PlayAction)
      {r : PlayActionResult}
      → check_applicable P s p event_id ≡ ok tt
      → perform P s p event_id action ≡ ok r
      → (d : Performed P s p event_id action r) → replay_event P s p d.event ≡ ok r.session
  unfolding apply_unverified signed_session unsigned_session session_parts unsigned_play_event
  replay_event-Performed s p event_id action {r} applicable performed d =
      let numbered : d.event.sequence_no ≡ length s.events = ap (λ e. e.sequence_no) d.sealed in
      let linked : d.event.previous_event_hash ≡ last_event_hash s.events =
        ap (λ e. e.previous_event_hash) d.sealed in
      let named : d.event.event_id ≡ event_id = ap (λ e. e.event_id) d.sealed in
      let acted : d.event.action ≡ action = ap (λ e. e.action) d.sealed in
      let events : r.session.events ≡ s.events ++ d.event ∷ [] = ap (λ t. t.events) d.result in
      let last : ends_with P r.session.events d.event ≡ ok true =
        ap (λ es. ends_with P es d.event) events ∙ ends_with-append s.events d.event in
      let applied : apply_unverified P s p d.event.event_id d.event.action ≡ ok r =
        ap (λ i. apply_unverified P s p i d.event.action) named
        ∙ (ap (λ a. apply_unverified P s p event_id a) acted
            ∙ (ap (λ c. c >>= λ done. perform P s p event_id action) applicable ∙ performed)) in
      replay_event_of s p d.event numbered linked applied last

  replay_of_parts :
      (p : LogicGridSpec) (s t : LogicGridPlaySession) (e : PlayEvent)
      → t.attempt_id ≡ s.attempt_id
      → t.validation_mode ≡ s.validation_mode
      → t.events ≡ s.events ++ e ∷ []
      → replay_logic_grid_play P p t.attempt_id t.validation_mode t.events
        ≡ replay_logic_grid_play P p s.attempt_id s.validation_mode (s.events ++ e ∷ [])
  replay_of_parts p s t e a m es = cc (a, m, es)

  replay_logic_grid_play-append :
      (p : LogicGridSpec) (attempt_id : String) (mode : PlayValidationMode)
      (events : List PlayEvent) (e : PlayEvent) {s : LogicGridPlaySession}
      → replay_logic_grid_play P p attempt_id mode events ≡ ok s
      → replay_logic_grid_play P p attempt_id mode (events ++ e ∷ []) ≡ replay_event P s p e
  unfolding replay_logic_grid_play replay_events
  replay_logic_grid_play-append p attempt_id mode events e {s} h =
      let (begin, started, rest) = >>=-eq-ok (start_logic_grid_play P p attempt_id mode) _ h in
      ap (λ r. r >>= λ b. replay_events P b p (events ++ e ∷ [])) started
      ∙ (replay_events-append begin p events (e ∷ []) rest ∙ ok-unit (replay_event P s p e))

  -- What a verified action has checked.
  pub apply_logic_grid_play_action-ok :
      (s : LogicGridPlaySession) (p : LogicGridSpec) (event_id : String) (action : PlayAction)
      {r : PlayActionResult}
      → apply_logic_grid_play_action P s p event_id action ≡ ok r
      → (check_applicable P s p event_id ≡ ok tt)
        × (replay_logic_grid_play P p s.attempt_id s.validation_mode s.events ≡ ok s)
        × (perform P s p event_id action ≡ ok r)
  unfolding apply_logic_grid_play_action
  apply_logic_grid_play_action-ok s p event_id action h =
      let (applicable, h1) = >>-eq-ok (check_applicable P s p event_id) _ h in
      let (replayed, again, h2) =
        >>=-eq-ok (replay_logic_grid_play P p s.attempt_id s.validation_mode s.events) _ h1 in
      let (same, performed) = raise_if-eq-ok (not (replayed == s)) _ _ h2 in
      let own : replayed ≡ s = (==_iff replayed s).0 (ground arith) in
      (applicable, again ∙ ap ok own, performed)

  -- The events of the session that a verified action returns replay to that session.
  pub apply_logic_grid_play_action-replay :
      (s : LogicGridPlaySession) (p : LogicGridSpec) (event_id : String) (action : PlayAction)
      {r : PlayActionResult}
      → apply_logic_grid_play_action P s p event_id action ≡ ok r
      → replay_logic_grid_play P p r.session.attempt_id r.session.validation_mode r.session.events
        ≡ ok r.session
  unfolding signed_session unsigned_session session_parts
  apply_logic_grid_play_action-replay s p event_id action {r} h =
      let (applicable, again, performed) = apply_logic_grid_play_action-ok s p event_id action h in
      let d = perform-Performed P s p event_id action performed in
      replay_of_parts p s r.session d.event (ap (λ t. t.attempt_id) d.result)
        (ap (λ t. t.validation_mode) d.result) (ap (λ t. t.events) d.result)
      ∙ (replay_logic_grid_play-append p s.attempt_id s.validation_mode s.events d.event again
          ∙ replay_event-Performed s p event_id action applicable performed d)
