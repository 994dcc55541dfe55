-- ===== src/Families/LogicGrid/Play/Stream.antt =====
-- The stream of events of a session: bounded, numbered, linked by digests, without repetition.
use mathlib.Core.Path.{subst}
use mathlib.Core.List.{append-nil, append_assoc}
use deductra.Common.{
  ℕ, suc, ◌+◌, ◌≤◌, ◌<◌, String, ◌≡◌, refl, sym, ap, ◌∙◌, true, false, not, List, [], ◌∷◌, ◌++◌,
  map, arith, leb, eqb, ◌==◌, ==_iff, string_eq, pair_eq, nat_eq, bool_eq, length, length-append,
  contains, Distinct, contains-append, ok, raise_if-eq-ok, >>=-eq-ok, >>-eq-ok, ok-injective,
}
use deductra.Canonical.{Platform}
use deductra.Families.LogicGrid.Specification.{LogicGridSpec}
use deductra.Families.LogicGrid.Play.{play_event_eq}
use deductra.Families.LogicGrid.Play.{
  PlayValidationMode, PlayAction, PlayEvent, LogicGridPlaySession, PlayActionResult,
  play_genesis_hash, max_play_events, play_session_eq,
}
use deductra.Families.LogicGrid.Play.Session.{
  compute_play_event_hash, unsigned_session, signed_session,
}
use deductra.Families.LogicGrid.Play.Outcome.{last_event_hash, session_parts, unsigned_play_event}
use deductra.Families.LogicGrid.Play.Replay.{
  start_parts, start_logic_grid_play, check_applicable, apply_unverified, ends_with, replay_event,
  replay_events, replay_logic_grid_play,
}
use deductra.Families.LogicGrid.Play.Steps.{
  Performed, start_logic_grid_play-ok, perform-Performed, replay_logic_grid_play-keeps,
}

map-append-one :
    (es : List PlayEvent) (e : PlayEvent)
    → map (λ e. e.event_id) (es ++ e ∷ []) ≡ map (λ e. e.event_id) es ++ (e.event_id ∷ [])
map-append-one [] e = refl
map-append-one (x ∷ es) e = ap (λ ids. x.event_id ∷ ids) (map-append-one es e)

Distinct-append-one :
    (xs : List String) (x : String) → Distinct xs → contains xs x ≡ false → Distinct (xs ++ x ∷ [])
unfolding contains
Distinct-append-one [] x d h = (refl, tt)
Distinct-append-one (y ∷ xs) x d h =
    (ground (arith, contains-append y xs (x ∷ [])), Distinct-append-one xs x d.1 (ground arith))

ltb_room : {n : ℕ} → leb max_play_events n ≡ false → n < max_play_events
ltb_room h = ground arith

module _ (P : Platform) where
  -- From the number `n` on, after the digest `h`.
  abbrev pub Linked : ℕ → String → List PlayEvent → Type 0
  Linked n h [] = Unit
  Linked n h (e ∷ es) =
      (e.sequence_no ≡ n)
      × (e.previous_event_hash ≡ h)
      × (e.event_hash ≡ compute_play_event_hash P e)
      × Linked (suc n) e.event_hash es

  pub record IsStream (events : List PlayEvent) : Type 0 where
    pub size : length events ≤ max_play_events
    pub distinct : Distinct (map (λ e. e.event_id) events)
    pub linked : Linked 0 play_genesis_hash events

  hash_after : String → List PlayEvent → String
  hash_after h [] = h
  hash_after h (e ∷ es) = hash_after e.event_hash es

  last_event_hash-after :
      (h : String) (e : PlayEvent) (es : List PlayEvent)
      → last_event_hash (e ∷ es) ≡ hash_after h (e ∷ es)
  unfolding last_event_hash hash_after
  last_event_hash-after h e [] = refl
  last_event_hash-after h e (f ∷ es) = last_event_hash-after e.event_hash f es

  last_event_hash_lem : (es : List PlayEvent) → last_event_hash es ≡ hash_after play_genesis_hash es
  unfolding last_event_hash hash_after
  last_event_hash_lem [] = refl
  last_event_hash_lem (e ∷ es) = last_event_hash-after play_genesis_hash e es

  Linked-append :
      (n : ℕ) (h : String) (es : List PlayEvent) (e : PlayEvent)
      → Linked n h es
      → e.sequence_no ≡ n + length es
      → e.previous_event_hash ≡ hash_after h es
      → e.event_hash ≡ compute_play_event_hash P e
      → Linked n h (es ++ e ∷ [])
  unfolding hash_after
  Linked-append n h [] e k a b c = (omega (arith, a), b, c, tt)
  Linked-append n h (x ∷ es) e (i, j, l, k) a b c =
      (i, j, l, Linked-append (suc n) x.event_hash es e k (omega (arith, a)) b c)

  IsStream-step :
      (p : LogicGridSpec) (s : LogicGridPlaySession) (event_id : String) (action : PlayAction)
      (r : PlayActionResult)
      → check_applicable P s p event_id ≡ ok tt
      → Performed P s p event_id action r
      → IsStream s.events
      → IsStream r.session.events
  unfolding check_applicable signed_session unsigned_session session_parts unsigned_play_event
      compute_play_event_hash
  IsStream-step p s event_id action r applicable d k =
      let grown : r.session.events ≡ s.events ++ d.event ∷ [] = ap (λ t. t.events) d.result in
      let named : d.event.event_id ≡ event_id = ap (λ e. e.event_id) d.sealed in
      let fresh : contains (map (λ e. e.event_id) s.events) event_id ≡ false = ground arith in
      let few : leb max_play_events (length s.events) ≡ false = ground arith in
      let numbered : d.event.sequence_no ≡ length s.events = ap (λ e. e.sequence_no) d.sealed in
      subst IsStream (sym grown) (record {
        size = omega (arith, ltb_room few, length-append s.events (d.event ∷ []));
        distinct = subst Distinct (sym (map-append-one s.events d.event)) (
            Distinct-append-one (map (λ e. e.event_id) s.events) d.event.event_id k.distinct
              (ap (contains (map (λ e. e.event_id) s.events)) named ∙ fresh));
        linked =
            Linked-append 0 play_genesis_hash s.events d.event k.linked (omega (arith, numbered))
              (ap (λ e. e.previous_event_hash) d.sealed ∙ last_event_hash_lem s.events)
              (ap (λ e. e.event_hash) d.sealed ∙ ap (compute_play_event_hash P) (sym d.sealed));
      })

  start_logic_grid_play-events :
      (p : LogicGridSpec) (attempt_id : String) (mode : PlayValidationMode)
      (s : LogicGridPlaySession)
      → start_logic_grid_play P p attempt_id mode ≡ ok s
      → s.events ≡ []
  unfolding start_parts signed_session unsigned_session
  start_logic_grid_play-events p attempt_id mode s h =
      ap (λ s. s.events) (start_logic_grid_play-ok P p attempt_id mode h).0

  ends_with-eq :
      (es : List PlayEvent) (e source : PlayEvent)
      → ends_with P (es ++ e ∷ []) source ≡ ok true
      → e ≡ source
  unfolding ends_with
  ends_with-eq [] e source h = (==_iff e source).0 (ok-injective h)
  ends_with-eq (x ∷ []) e source h = ends_with-eq [] e source h
  ends_with-eq (x ∷ y ∷ es) e source h = ends_with-eq (y ∷ es) e source h

  replay_event-events :
      (s : LogicGridPlaySession) (p : LogicGridSpec) (source : PlayEvent) {t : LogicGridPlaySession}
      → replay_event P s p source ≡ ok t
      → t.events ≡ s.events ++ source ∷ []
  unfolding replay_event apply_unverified signed_session unsigned_session session_parts
  replay_event-events s p source {t} h =
      let (numbered, h1) = raise_if-eq-ok (not (eqb source.sequence_no (length s.events))) _ _ h in
      let (linked, h2) =
        raise_if-eq-ok (not (source.previous_event_hash == last_event_hash s.events)) _ _ h1 in
      let (r, applied, h3) =
        >>=-eq-ok (apply_unverified P s p source.event_id source.action) _ h2 in
      let (same, ends, h4) = >>=-eq-ok (ends_with P r.session.events source) _ h3 in
      let (equal_last, h5) = raise_if-eq-ok (not same) _ _ h4 in
      let (applicable, performed) = >>-eq-ok (check_applicable P s p source.event_id) _ applied in
      let d = perform-Performed P s p source.event_id source.action performed in
      let grown : r.session.events ≡ s.events ++ d.event ∷ [] = ap (λ t. t.events) d.result in
      let same_is : same ≡ true = ground arith in
      let last =
        ends_with-eq s.events d.event source
          (ap (λ es. ends_with P es source) (sym grown) ∙ (ends ∙ ap ok same_is)) in
      ap (λ t. t.events) (sym (ok-injective h5)) ∙ (grown ∙ ap (λ e. s.events ++ e ∷ []) last)

  replay_events-events :
      (s : LogicGridPlaySession) (p : LogicGridSpec) (events : List PlayEvent)
      {t : LogicGridPlaySession}
      → replay_events P s p events ≡ ok t
      → t.events ≡ s.events ++ events
  unfolding replay_events
  replay_events-events s p [] h =
      ap (λ t. t.events) (sym (ok-injective h)) ∙ sym (append-nil s.events)
  replay_events-events s p (source ∷ events) h =
      let (next, one, rest) = >>=-eq-ok (replay_event P s p source) _ h in
      replay_events-events next p events rest
      ∙ (ap (λ es. es ++ events) (replay_event-events s p source one)
          ∙ append_assoc s.events (source ∷ []) events)

  replay_logic_grid_play-events :
      (p : LogicGridSpec) (attempt_id : String) (mode : PlayValidationMode)
      (events : List PlayEvent) {s : LogicGridPlaySession}
      → replay_logic_grid_play P p attempt_id mode events ≡ ok s
      → s.events ≡ events
  unfolding replay_logic_grid_play
  replay_logic_grid_play-events p attempt_id mode events h =
      let (begin, started, rest) = >>=-eq-ok (start_logic_grid_play P p attempt_id mode) _ h in
      replay_events-events begin p events rest
      ∙ ap (λ es. es ++ events) (start_logic_grid_play-events p attempt_id mode begin started)

  -- A session that a replay returns has exactly the events replayed: at most 10,000, of different
  -- identifiers, numbered from 0, each with its right digest and linked to the one before.
  pub replay_logic_grid_play-IsStream :
      (p : LogicGridSpec) (attempt_id : String) (mode : PlayValidationMode)
      (events : List PlayEvent) {s : LogicGridPlaySession}
      → replay_logic_grid_play P p attempt_id mode events ≡ ok s
      → (s.events ≡ events) × IsStream events
  replay_logic_grid_play-IsStream p attempt_id mode events {s} h =
      let own = replay_logic_grid_play-events p attempt_id mode events h in
      (
        own,
        subst IsStream own (
            replay_logic_grid_play-keeps P p (λ s. IsStream s.events) (IsStream-step p) attempt_id
              mode events
              (λ begin started.
                subst IsStream (sym (start_logic_grid_play-events p attempt_id mode begin started))
                  (record { size = omega arith; distinct = tt; linked = tt }))
              h),
      )
