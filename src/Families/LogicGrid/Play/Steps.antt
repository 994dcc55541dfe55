-- ===== src/Families/LogicGrid/Play/Steps.antt =====
-- What an action that succeeds leaves, and induction over the events of a replay.
use mathlib.Core.Path.{subst}
use deductra.Common.{
  String, ◌≡◌, sym, ap, ◌∙◌, not, List, [], ◌∷◌, ◌++◌, eqb, ◌==◌, string_eq, pair_eq, nat_eq,
  bool_eq, length, ok, raise_if-eq-ok, >>=-eq-ok, >>-eq-ok, ok-injective,
}
use deductra.Canonical.{Platform}
use deductra.Families.LogicGrid.Specification.{LogicGridSpec}
use deductra.Families.LogicGrid.Play.{
  PlayValidationMode, PlayAction, PlayEvent, LogicGridPlaySession, PlayActionResult, play_event_eq,
  play_session_eq,
}
use deductra.Families.LogicGrid.Play.Session.{
  compute_play_event_hash, validate_event, validate_session_shape, SessionParts, signed_session,
  build_session, seal_play_event,
}
use deductra.Families.LogicGrid.Play.Outcome.{
  Outcome, last_event_hash, session_parts, unsigned_play_event, append_outcome,
}
use deductra.Families.LogicGrid.Play.Actions.{decide}
use deductra.Families.LogicGrid.Play.Replay.{
  start_parts, start_logic_grid_play, check_applicable, perform, apply_unverified, ends_with,
  replay_event, replay_events, replay_logic_grid_play,
}

module _ (P : Platform) where
  -- One event is appended, and the session is the signed one of the outcome.
  pub record Performed (s : LogicGridPlaySession) (p : LogicGridSpec) (event_id : String)
      (action : PlayAction) (r : PlayActionResult) : Type 0 where
    pub outcome : Outcome
    pub decided : decide P s p event_id action ≡ ok outcome
    pub taken : r.accepted ≡ outcome.accepted
    pub state_hash : String
    pub event : PlayEvent
    pub sealed : event ≡ record (unsigned_play_event s event_id action outcome state_hash) {
      event_hash =
          compute_play_event_hash P (unsigned_play_event s event_id action outcome state_hash);
    }
    pub result : r.session ≡ signed_session P (session_parts s outcome (s.events ++ event ∷ []))
    pub shape : validate_session_shape P r.session ≡ ok tt

  build_session-ok :
      (a : SessionParts) {s : LogicGridPlaySession}
      → build_session P a ≡ ok s
      → (s ≡ signed_session P a) × (validate_session_shape P s ≡ ok tt)
  unfolding build_session
  build_session-ok a h =
      let (valid, e) = >>-eq-ok (validate_session_shape P (signed_session P a)) _ h in
      let same = sym (ok-injective e) in (same, ap (validate_session_shape P) same ∙ valid)

  pub start_logic_grid_play-ok :
      (p : LogicGridSpec) (attempt_id : String) (mode : PlayValidationMode)
      {s : LogicGridPlaySession}
      → start_logic_grid_play P p attempt_id mode ≡ ok s
      → (s ≡ signed_session P (start_parts p attempt_id mode))
        × (validate_session_shape P s ≡ ok tt)
  unfolding start_logic_grid_play
  start_logic_grid_play-ok p attempt_id mode h = build_session-ok (start_parts p attempt_id mode) h

  seal_play_event-ok :
      (u : PlayEvent) {e : PlayEvent}
      → seal_play_event P u ≡ ok e
      → e ≡ record u { event_hash = compute_play_event_hash P u }
  unfolding seal_play_event
  seal_play_event-ok u h =
      let (valid, e) = >>-eq-ok (validate_event P _) _ h in sym (ok-injective e)

  pub perform-Performed :
      (s : LogicGridPlaySession) (p : LogicGridSpec) (event_id : String) (action : PlayAction)
      {r : PlayActionResult}
      → perform P s p event_id action ≡ ok r
      → Performed s p event_id action r
  unfolding perform append_outcome
  perform-Performed s p event_id action h =
      let (o, decided, h1) = >>=-eq-ok (decide P s p event_id action) _ h in
      let (before, built, h2) = >>=-eq-ok (build_session P (session_parts s o s.events)) _ h1 in
      let (event, sealed, h3) =
        >>=-eq-ok (seal_play_event P (unsigned_play_event s event_id action o before.state_hash)) _
          h2 in
      let (after, rebuilt, h4) =
        >>=-eq-ok (build_session P (session_parts s o (s.events ++ event ∷ []))) _ h3 in
      let (result, shape) = build_session-ok (session_parts s o (s.events ++ event ∷ [])) rebuilt in
      let same = ap (λ r. r.session) (ok-injective h4) in
      record {
        outcome = o;
        decided = decided;
        taken = ap (λ r. r.accepted) (sym (ok-injective h4));
        state_hash = before.state_hash;
        event = event;
        sealed =
            seal_play_event-ok (unsigned_play_event s event_id action o before.state_hash) sealed;
        result = sym same ∙ result;
        shape = ap (validate_session_shape P) (sym same) ∙ shape;
      }

  module _ {ℓ} (p : LogicGridSpec) (Keeps : LogicGridPlaySession → Type ℓ)
      (step : (s : LogicGridPlaySession) (event_id : String) (action : PlayAction)
          (r : PlayActionResult)
        → check_applicable P s p event_id ≡ ok tt
        → Performed s p event_id action r
        → Keeps s
        → Keeps r.session) where
    apply_unverified-keeps :
        (s : LogicGridPlaySession) (event_id : String) (action : PlayAction) {r : PlayActionResult}
        → apply_unverified P s p event_id action ≡ ok r
        → Keeps s
        → Keeps r.session
    unfolding apply_unverified
    apply_unverified-keeps s event_id action {r} h k =
        let (applicable, performed) = >>-eq-ok (check_applicable P s p event_id) _ h in
        step s event_id action r applicable (perform-Performed s p event_id action performed) k

    replay_event-keeps :
        (s : LogicGridPlaySession) (source : PlayEvent) {t : LogicGridPlaySession}
        → replay_event P s p source ≡ ok t
        → Keeps s
        → Keeps t
    unfolding replay_event
    replay_event-keeps s source {t} h k =
        let (numbered, h1) =
          raise_if-eq-ok (not (eqb source.sequence_no (length s.events))) _ _ h in
        let (linked, h2) =
          raise_if-eq-ok (not (source.previous_event_hash == last_event_hash s.events)) _ _ h1 in
        let (r, applied, h3) =
          >>=-eq-ok (apply_unverified P s p source.event_id source.action) _ h2 in
        let (same, ends, h4) = >>=-eq-ok (ends_with P r.session.events source) _ h3 in
        let (equal_last, h5) = raise_if-eq-ok (not same) _ _ h4 in
        subst Keeps (ok-injective h5)
          (apply_unverified-keeps s source.event_id source.action applied k)

    pub replay_events-keeps :
        (s : LogicGridPlaySession) (events : List PlayEvent) {t : LogicGridPlaySession}
        → replay_events P s p events ≡ ok t
        → Keeps s
        → Keeps t
    unfolding replay_events
    replay_events-keeps s [] h k = subst Keeps (ok-injective h) k
    replay_events-keeps s (source ∷ events) h k =
        let (next, one, rest) = >>=-eq-ok (replay_event P s p source) _ h in
        replay_events-keeps next events rest (replay_event-keeps s source one k)

    -- What the start has and every action keeps, every replay has.
    pub replay_logic_grid_play-keeps :
        (attempt_id : String) (mode : PlayValidationMode) (events : List PlayEvent)
        {s : LogicGridPlaySession}
        → ((s : LogicGridPlaySession) → start_logic_grid_play P p attempt_id mode ≡ ok s → Keeps s)
        → replay_logic_grid_play P p attempt_id mode events ≡ ok s
        → Keeps s
    unfolding replay_logic_grid_play
    replay_logic_grid_play-keeps attempt_id mode events begin h =
        let (s, started, rest) = >>=-eq-ok (start_logic_grid_play P p attempt_id mode) _ h in
        replay_events-keeps s events rest (begin s started)
