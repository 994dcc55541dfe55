-- ===== src/Reasoning/Branches/Replay/Rebuild.antt =====
-- A replay rebuilds what the reductions one by one would have left.
use deductra.Common.{
  ℕ, ◌<◌, ◌≡◌, refl, ◌∙◌, inl, inr, Bool, true, none, some, List, [], ◌∷◌, ◌++◌, arith, ltb, eqb,
  if◌then◌else◌, Bool-cases, Option-cases, string_eq, pair_eq, nat_eq, bool_eq, find, contains, add,
  to_set, subset, unique, ok, ◌>>=◌, ok-injective, Result-cases,
}
use deductra.Canonical.{Platform}
use deductra.Reasoning.Events.{EventEnvelope}
use deductra.Reasoning.Integrity.Chain.{Continues, IsChain, verify_chain-IsChain}
use deductra.Reasoning.State.{PuzzleState}
use deductra.Reasoning.State.Invariant.{IsConsistent}
use deductra.Reasoning.Branches.{
  opened, root, BranchProjection, find_state, validate_projection, make_record, make_projection,
  create_branch_projection,
}
use deductra.Reasoning.Branches.Reduction.{reduce_branch_projection}
use deductra.Reasoning.Branches.Retention.{IsValid, reduce_branch_projection-IsValid}
use deductra.Reasoning.Branches.Replay.{is_genesis, replay_from, replay_projection}

-- The projection that holds the root branch alone.
abbrev pub root_projection : PuzzleState → BranchProjection
root_projection genesis = record {
  sequence_no = genesis.sequence_no;
  active_branch_id = genesis.branch_id;
  branches =
      record {
        branch_id = genesis.branch_id;
        parent_branch_id = none;
        opened_from_state_hash = genesis.state_hash;
        assumption = none;
        method = root;
        status = opened;
        opened_sequence_no = genesis.sequence_no;
        closed_sequence_no = none;
        latest_state_hash = genesis.state_hash;
      }
      ∷ [];
  states = genesis ∷ [];
}

-- The root projection passes the validators.
pub create_branch_projection-root :
    (genesis : PuzzleState)
    → (create_branch_projection genesis ≡ ok (root_projection genesis))
      × (validate_projection (root_projection genesis) ≡ ok tt)
unfolding create_branch_projection make_record make_projection unique to_set add contains subset
    find_state
create_branch_projection-root genesis = (ground arith, ground arith)

module _ (P : Platform) where
  pub replay_from-append :
      (start : ℕ) (p : BranchProjection) (xs ys : List EventEnvelope)
      → replay_from P start p (xs ++ ys)
        ≡ (replay_from P start p xs >>= λ q. replay_from P start q ys)
  unfolding replay_from
  replay_from-append start p [] ys = refl
  replay_from-append start p (x ∷ xs) ys =
      elim (Result-cases
        (if ltb start x.sequence_no then reduce_branch_projection P p x else ok p)) [
          | inl (q, e) ↦ rw e (replay_from-append start q xs ys)
          | inr (q, e) ↦ rw e refl
        ]

  replay_from-IsValid :
      (start : ℕ) (p q : BranchProjection) (es : List EventEnvelope)
      → IsValid P p
      → replay_from P start p es ≡ ok q
      → IsValid P q
  unfolding replay_from
  replay_from-IsValid start p q [] v h = rw (← ok-injective h) v
  replay_from-IsValid start p q (e ∷ es) v h = elim (Bool-cases (ltb start e.sequence_no)) [
    | inr before ↦ replay_from-IsValid start p q es v (ground arith)
    | inl after ↦ elim (Result-cases (reduce_branch_projection P p e)) [
      | inr (x, failed) ↦ absurd (ground arith)
      | inl (next, reduced) ↦
          replay_from-IsValid start next q es
            (reduce_branch_projection-IsValid P p e next reduced v) (ground arith)
    ]
  ]

  -- Whatever a replay from a consistent genesis state returns is valid, each of its states is
  -- consistent, and the events were a chain.
  pub replay_projection-IsValid :
      (genesis : PuzzleState) (es : List EventEnvelope) (q : BranchProjection)
      → IsConsistent P genesis
      → replay_projection P genesis es ≡ ok q
      → IsValid P q × IsChain P es
  unfolding replay_projection
  replay_projection-IsValid genesis es q c h =
      let (created, checked) = create_branch_projection-root genesis in
      (
        replay_from-IsValid genesis.sequence_no (root_projection genesis) q es
            (record { checked = checked; consistent = (c, tt) }) (ground arith),
        (verify_chain-IsChain P es).0 (ground arith),
      )

  Continues-before :
      (p e : EventEnvelope) (es : List EventEnvelope)
      → Continues P p (es ++ e ∷ [])
      → p.sequence_no < e.sequence_no
  Continues-before p e [] h = omega (arith, h.0.sequence_no)
  Continues-before p e (x ∷ es) h = omega (arith, h.0.sequence_no, Continues-before x e es h.2)

  found-before :
      (f : EventEnvelope → Bool) (p e g : EventEnvelope) (es : List EventEnvelope)
      → Continues P p (es ++ e ∷ [])
      → find f es ≡ some g
      → g.sequence_no < e.sequence_no
  found-before f p e g [] h found = absurd (ground arith)
  found-before f p e g (x ∷ es) h found = elim (Bool-cases (f x)) [
    | inl here ↦ ground (arith, Continues-before x e es h.2)
    | inr further ↦ found-before f x e g es h.2 (ground arith)
  ]

  found-before_chain :
      (f : EventEnvelope → Bool) (e g : EventEnvelope) (es : List EventEnvelope)
      → IsChain P (es ++ e ∷ [])
      → find f es ≡ some g
      → g.sequence_no < e.sequence_no
  found-before_chain f e g [] h found = absurd (ground arith)
  found-before_chain f e g (x ∷ es) h found = elim (Bool-cases (f x)) [
    | inl here ↦ ground (arith, Continues-before x e es h.3)
    | inr further ↦ found-before f x e g es h.3 (ground arith)
  ]

  find-append :
      (f : EventEnvelope → Bool) (es ys : List EventEnvelope) (g : EventEnvelope)
      → find f es ≡ some g
      → find f (es ++ ys) ≡ some g
  find-append f [] ys g h = absurd (ground arith)
  find-append f (x ∷ es) ys g h = ground (arith, find-append f es ys g)

  found-number :
      (n : ℕ) (es : List EventEnvelope) (g : EventEnvelope)
      → find (λ x. eqb x.sequence_no n) es ≡ some g
      → g.sequence_no ≡ n
  found-number n [] g h = absurd (ground arith)
  found-number n (x ∷ es) g h = ground (arith, found-number n es g)

  replay_from-one :
      (start : ℕ) (p : BranchProjection) (e : EventEnvelope)
      → start < e.sequence_no
      → replay_from P start p (e ∷ []) ≡ reduce_branch_projection P p e
  unfolding replay_from
  replay_from-one start p e later = elim (Result-cases (reduce_branch_projection P p e)) [
    | inl (q, reduced) ↦ ground arith
    | inr (x, failed) ↦ ground arith
  ]

  -- Replaying a stream with one more event is reducing that event on the replay of the stream.
  pub replay_projection-append :
      (genesis : PuzzleState) (es : List EventEnvelope) (e : EventEnvelope) (p : BranchProjection)
      → replay_projection P genesis es ≡ ok p
      → IsChain P (es ++ e ∷ [])
      → replay_projection P genesis (es ++ e ∷ []) ≡ reduce_branch_projection P p e
  unfolding replay_projection
  replay_projection-append genesis es e p h chain =
      let f : EventEnvelope → Bool = λ x. eqb x.sequence_no genesis.sequence_no in
      let intact = (verify_chain-IsChain P (es ++ e ∷ [])).1 chain in
      let created = (create_branch_projection-root genesis).0 in
      elim (Option-cases (find f es)) [
        | inl missing ↦ absurd (ground arith)
        | inr (g, found) ↦
            let more = find-append f es (e ∷ []) g found in
            let later : genesis.sequence_no < e.sequence_no = omega (
              arith,
              found-number genesis.sequence_no es g found,
              found-before_chain f e g es chain found,
            ) in
            let replayed : replay_from P genesis.sequence_no (root_projection genesis) es ≡ ok p =
              ground arith in
            let last : replay_from P genesis.sequence_no p (e ∷ [])
                ≡ reduce_branch_projection P p e =
              replay_from-one genesis.sequence_no p e later in
            let split : replay_from P genesis.sequence_no (root_projection genesis) (es ++ e ∷ [])
                ≡ reduce_branch_projection P p e =
              replay_from-append genesis.sequence_no (root_projection genesis) es (e ∷ [])
              ∙ rw replayed last in
            let is_g : is_genesis genesis (find f es) ≡ true = ground arith in ground arith
      ]
