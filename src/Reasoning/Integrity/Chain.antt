-- ===== src/Reasoning/Integrity/Chain.antt =====
-- What `verify_chain` accepts, where it stops, and how `seal_event` extends a chain.
use deductra.Common.{
  ℕ, suc, ◌≡◌, refl, ap, ◌↔◌, inl, inr, true, false, none, some, List, [], ◌∷◌, ◌++◌, map, arith,
  Option-cases, length, ok,
}
use deductra.Canonical.{Platform}
use deductra.Reasoning.Events.{kind_of, EventEnvelope, dump_event}
use deductra.Reasoning.Integrity.{
  genesis_event_hash, ChainVerification, valid, EventDraft, compute_event_hash, seal_event,
  verify_event, failure, verify_from, verify_chain,
}

pub record IsLinked (p e : EventEnvelope) : Type 0 where
  pub sequence_no : e.sequence_no ≡ suc p.sequence_no
  pub hash : e.previous_event_hash ≡ p.event_hash
  pub trace : e.trace_id ≡ p.trace_id
  pub revision : e.puzzle_revision_id ≡ p.puzzle_revision_id

module _ (P : Platform) where
  abbrev pub Intact : EventEnvelope → Type 0
  Intact e = e.event_hash ≡ compute_event_hash P e

  -- `es` continues a chain whose last event is `p`.
  abbrev pub Continues : EventEnvelope → List EventEnvelope → Type 0
  Continues p [] = Unit
  Continues p (e ∷ es) = IsLinked p e × Intact e × Continues e es

  abbrev pub IsChain : List EventEnvelope → Type 0
  IsChain [] = Unit
  IsChain (e ∷ es) =
      (e.sequence_no ≡ 0) × (e.previous_event_hash ≡ genesis_event_hash) × Intact e × Continues e es

  -- The event after which the others continue.
  unfoldable pub last : EventEnvelope → List EventEnvelope → EventEnvelope
  last p [] = p
  last p (e ∷ es) = last e es

  Continues-append :
      (p e : EventEnvelope) (es : List EventEnvelope)
      → Continues p es
      → IsLinked (last p es) e
      → Intact e
      → Continues p (es ++ e ∷ [])
  unfolding last
  Continues-append p e [] h l i = (l, i, tt)
  Continues-append p e (x ∷ es) h l i = (h.0, h.1, Continues-append x e es h.2 l i)

  failure-IsLinked :
      (p e : EventEnvelope)
      → (failure P (suc p.sequence_no) p.event_hash (some p.trace_id) (some p.puzzle_revision_id) e
          ≡ none)
        ↔ (IsLinked p e × Intact e)
  unfolding failure verify_event
  failure-IsLinked p e = ground arith

  failure_iff_first :
      (e : EventEnvelope)
      → (failure P 0 genesis_event_hash none none e ≡ none)
        ↔ ((e.sequence_no ≡ 0) × (e.previous_event_hash ≡ genesis_event_hash) × Intact e)
  unfolding failure verify_event
  failure_iff_first e = ground arith

  verify_from-Continues :
      (total : ℕ) (p : EventEnvelope) (es : List EventEnvelope)
      → (valid (
            verify_from P total
              (suc p.sequence_no)
              p.event_hash
              (some p.trace_id)
              (some p.puzzle_revision_id)
              es)
          ≡ true)
        ↔ Continues p es
  unfolding valid verify_from
  verify_from-Continues total p [] = (λ _. tt, λ _. refl)
  verify_from-Continues total p (e ∷ es) =
      ground (arith, failure-IsLinked p e, verify_from-Continues total e es)

  -- `verify_chain` accepts exactly the chains: numbered from 0, the first on the genesis hash, each
  -- other on the hash of the one before it, all of one trace and revision, every digest intact.
  pub verify_chain-IsChain :
      (es : List EventEnvelope) → (valid (verify_chain P es) ≡ true) ↔ IsChain es
  unfolding valid verify_chain
  verify_chain-IsChain [] = (λ _. tt, λ _. refl)
  verify_chain-IsChain (e ∷ es) =
      ground (arith, failure_iff_first e, verify_from-Continues (length (e ∷ es)) e es)

-- `v` reports that the events split into trusted ones and a first one that breaks what `C` asks.
pub record StopsAt (C : List EventEnvelope → Type 0) (es : List EventEnvelope)
    (v : ChainVerification) : Type 0 where
  pub good : List EventEnvelope
  pub bad : EventEnvelope
  pub rest : List EventEnvelope
  pub split : es ≡ good ++ bad ∷ rest
  pub trusted : C good
  pub broken : ¬ C (good ++ bad ∷ [])
  pub first : v.first_invalid_sequence ≡ some bad.sequence_no
  pub untrusted : v.untrusted_sequences ≡ map (λ (x : EventEnvelope). x.sequence_no) (bad ∷ rest)

module _ (P : Platform) where
  verify_from-StopsAt :
      (total : ℕ) (p : EventEnvelope) (es : List EventEnvelope)
      → let v =
          verify_from P total
            (suc p.sequence_no)
            p.event_hash
            (some p.trace_id)
            (some p.puzzle_revision_id)
            es in
        valid v ≡ false → StopsAt (Continues P p) es v
  unfolding valid verify_from
  verify_from-StopsAt total p [] h = absurd (ground arith)
  verify_from-StopsAt total p (e ∷ es) h =
      elim (Option-cases (
        failure P (suc p.sequence_no) p.event_hash (some p.trace_id) (some p.puzzle_revision_id)
          e)) [
            | inl fine ↦
                let (linked, intact) = (failure-IsLinked P p e).0 fine in
                let s = verify_from-StopsAt total e es (ground arith) in
                record {
                  good = e ∷ s.good;
                  bad = s.bad;
                  rest = s.rest;
                  split = ap (◌∷◌ e) s.split;
                  trusted = (linked, intact, s.trusted);
                  broken = λ c. s.broken c.2;
                  first = ground (arith, s.first);
                  untrusted = ground (arith, s.untrusted);
                }
            | inr (reason, found) ↦ record {
              good = [];
              bad = e;
              rest = es;
              split = refl;
              trusted = tt;
              broken = λ c. ground (arith, failure-IsLinked P p e);
              first = ground arith;
              untrusted = ground arith;
            }
          ]

  -- A refused sequence of events splits into a chain, and a first event which does not continue it;
  -- the report names that event, and distrusts it and all behind it.
  pub verify_chain-StopsAt :
      (es : List EventEnvelope)
      → valid (verify_chain P es) ≡ false
      → StopsAt (IsChain P) es (verify_chain P es)
  unfolding valid verify_chain
  verify_chain-StopsAt [] h = absurd (ground arith)
  verify_chain-StopsAt (e ∷ es) h =
      elim (Option-cases (failure P 0 genesis_event_hash none none e)) [
        | inl fine ↦
            let (zero_th, genesis, intact) = (failure_iff_first P e).0 fine in
            let s = verify_from-StopsAt (length (e ∷ es)) e es (ground arith) in
            record {
              good = e ∷ s.good;
              bad = s.bad;
              rest = s.rest;
              split = ap (◌∷◌ e) s.split;
              trusted = (zero_th, genesis, intact, s.trusted);
              broken = λ c. s.broken c.3;
              first = ground (arith, s.first);
              untrusted = ground (arith, s.untrusted);
            }
        | inr (reason, found) ↦ record {
          good = [];
          bad = e;
          rest = es;
          split = refl;
          trusted = tt;
          broken = λ c. ground (arith, failure_iff_first P e);
          first = ground arith;
          untrusted = ground arith;
        }
      ]

  -- An event sealed from a draft that carries the next number, the last hash and the same trace and
  -- revision, extends a chain; it keeps the draft's fields.
  pub seal_event-IsChain :
      (e : EventEnvelope) (es : List EventEnvelope) (d : EventDraft) (s : EventEnvelope)
      → IsChain P (e ∷ es)
      → d.sequence_no ≡ suc (last P e es).sequence_no
      → d.previous_event_hash ≡ (last P e es).event_hash
      → d.trace_id ≡ (last P e es).trace_id
      → d.puzzle_revision_id ≡ (last P e es).puzzle_revision_id
      → seal_event P d ≡ ok s
      → IsChain P (e ∷ es ++ s ∷ []) × (s.payload ≡ d.payload) × (s.event_type ≡ kind_of d.payload)
  unfolding seal_event compute_event_hash dump_event
  seal_event-IsChain e es d s (z, g, i, c) q h t r sealed = (
    (
      z,
      g,
      i,
      Continues-append P e s es c
          (record {
            sequence_no = ground arith;
            hash = ground arith;
            trace = ground arith;
            revision = ground arith;
          })
          (ground arith),
    ),
    ground arith,
    ground arith,
  )
