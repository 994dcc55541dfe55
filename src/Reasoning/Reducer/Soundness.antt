-- ===== src/Reasoning/Reducer/Soundness.antt =====
-- What `reduce_state` and `derive_branch_state` do to a consistent state.
use mathlib.Core.Option
use deductra.Common.{
  ◌<◌, String, ◌≡◌, refl, sym, ap, ◌∙◌, ◌↔◌, inl, inr, not, Option, none, some, List, [], ◌∷◌, map,
  arith, if◌then◌else◌, Option-cases, ◌==◌, string_eq, pair_eq, nat_eq, bool_eq, keep, contains,
  Has, add, update, difference, contains-add, contains-update, contains-difference, Result, err, ok,
  ◌>>=◌, >>=-eq-ok,
}
use deductra.Common.Dict.{Dict, lookup, lookup-insert}
use deductra.Canonical.{Platform}
use deductra.Domain.Atoms.{Atom, assignment, exclusion, atom_eq}
use deductra.Reasoning.Events.{EventEnvelope}
use deductra.Reasoning.State.{PuzzleState, unsigned_state, build_state}
use deductra.Reasoning.State.Build.{lookup-freeze, signed, build_state_eq-signed}
use deductra.Reasoning.State.Invariant.{
  IsConsistent, assert_singletons-keeps, build_state_succeeds, signed-IsConsistent,
}
use deductra.Reasoning.Reducer.{
  Mutation, eliminated, assigned, contradiction, as_mutation, validate_reduction, Reduced,
  apply_mutation, reduced_fields, reduce_state,
}
use deductra.Reasoning.Reducer.Effects.{apply_mutation-IsBorneOut}

-- What a reduction leaves alone, and in which direction it moves the rest.
pub record IsStep (s t : PuzzleState) (e : EventEnvelope) : Type 0 where
  pub revision : t.puzzle_revision_id ≡ s.puzzle_revision_id
  pub branch : t.branch_id ≡ s.branch_id
  pub constraints : t.active_constraint_ids ≡ s.active_constraint_ids
  pub number : t.sequence_no ≡ e.sequence_no
  pub later : s.sequence_no < t.sequence_no
  pub facts_kept : (a : Atom) → Has s.asserted_atoms a → Has t.asserted_atoms a
  pub variables :
      (v : String) → (lookup v t.candidate_domains ≡ none) ↔ (lookup v s.candidate_domains ≡ none)
  pub narrowed :
      (v x : String) (xs ys : List String)
      → lookup v s.candidate_domains ≡ some xs
      → lookup v t.candidate_domains ≡ some ys
      → Has ys x
      → Has xs x

module _ (P : Platform) (s : PuzzleState) (e : EventEnvelope) (inv : IsConsistent P s) where
  module _ (m : Mutation) (r : Reduced) (applied : apply_mutation s m ≡ ok r) where
    build-reduced :
        build_state P (reduced_fields s e s.branch_id r)
        ≡ ok (signed P (reduced_fields s e s.branch_id r))
    unfolding reduced_fields
    build-reduced =
        let (facts, distinct) = apply_mutation-IsBorneOut P s inv m r applied in
        build_state_succeeds P (reduced_fields s e s.branch_id r) r.asserted facts refl
          inv.no_rejected distinct

    reduced-IsConsistent : IsConsistent P (signed P (reduced_fields s e s.branch_id r))
    unfolding reduced_fields
    reduced-IsConsistent =
        let (facts, distinct) = apply_mutation-IsBorneOut P s inv m r applied in
        signed-IsConsistent P (reduced_fields s e s.branch_id r) r.asserted facts refl
          inv.no_rejected distinct

    lookup-reduced :
        (v : String)
        → lookup v (signed P (reduced_fields s e s.branch_id r)).candidate_domains
          ≡ lookup v r.candidates
    unfolding reduced_fields signed unsigned_state
    lookup-reduced v =
        lookup-freeze v r.candidates (apply_mutation-IsBorneOut P s inv m r applied).0.candidates

  -- From a consistent state a reduction fails by the reducer's own guards alone: what they let pass
  -- is built, with no objection from the validators of the state.
  pub reduce_state-signed : reduce_state P s e ≡ (do
    m ← validate_reduction P s e
    r ← apply_mutation s m
    ok (signed P (reduced_fields s e s.branch_id r)))
  unfolding reduce_state
  reduce_state-signed = go (validate_reduction P s e)
    where
      inner :
          (m : Mutation) (r : Result Reduced)
          → apply_mutation s m ≡ r
          → (r >>= λ x. build_state P (reduced_fields s e s.branch_id x))
            ≡ (r >>= λ x. ok (signed P (reduced_fields s e s.branch_id x)))
      inner m (ok x) h = build-reduced m x h
      inner m (err x) h = refl

      go :
          (v : Result Mutation)
          → (v >>= λ m.
              apply_mutation s m >>= λ r. build_state P (reduced_fields s e s.branch_id r))
            ≡ (v >>= λ m.
                apply_mutation s m >>= λ r. ok (signed P (reduced_fields s e s.branch_id r)))
      go (ok m) = inner m (apply_mutation s m) refl
      go (err x) = refl

  module _ (t : PuzzleState) (reduced : reduce_state P s e ≡ ok t) where
    reduction :
        (m : Mutation) × (r : Reduced) × (validate_reduction P s e ≡ ok m)
        × (apply_mutation s m ≡ ok r)
        × (t ≡ signed P (reduced_fields s e s.branch_id r))
    unfolding reduce_state
    reduction =
        let (m, checked, rest) =
          >>=-eq-ok (validate_reduction P s e)
            (λ m. apply_mutation s m >>= λ r. build_state P (reduced_fields s e s.branch_id r))
            reduced in
        let (r, applied, built) =
          >>=-eq-ok (apply_mutation s m) (λ r. build_state P (reduced_fields s e s.branch_id r))
            rest in
        (m, r, checked, applied, build_state_eq-signed P (reduced_fields s e s.branch_id r) built)

    -- A reduction of a consistent state is consistent: assigned variables have one candidate, excluded
    -- values are none, decided variables are asserted, and the hash and the solved flag are right.
    pub reduce_state-IsConsistent : IsConsistent P t
    reduce_state-IsConsistent =
        let (m, r, checked, applied, same) = reduction in rw same (reduced-IsConsistent m r applied)

    lookup-reduction :
        (m : Mutation) (r : Reduced)
        → apply_mutation s m ≡ ok r
        → t ≡ signed P (reduced_fields s e s.branch_id r)
        → (v : String) → lookup v t.candidate_domains ≡ lookup v r.candidates
    lookup-reduction m r applied same v =
        ap (λ (u : PuzzleState). lookup v u.candidate_domains) same ∙ lookup-reduced m r applied v

-- The candidates of a variable after a mutation, as an independent description gives them.
abbrev pub candidates_after : Mutation → Dict (List String) → String → Option (List String)
candidates_after (eliminated p) d v =
    if p.variable_id == v
    then Option.map (λ xs. difference xs p.value_ids) (lookup v d)
    else lookup v d
candidates_after (assigned p) d v =
    if p.variable_id == v then some (p.value_id ∷ []) else lookup v d
candidates_after (contradiction p) d v = lookup v d

module _ (s : PuzzleState) where
  lookup-apply_mutation :
      (m : Mutation) (r : Reduced)
      → apply_mutation s m ≡ ok r
      → (v : String) → lookup v r.candidates ≡ candidates_after m s.candidate_domains v
  unfolding apply_mutation
  lookup-apply_mutation (eliminated p) r h v =
      elim (Option-cases (lookup p.variable_id s.candidate_domains)) [
        | inl missing ↦ absurd (ground arith)
        | inr (current, found) ↦ ground (
          arith,
          lookup-insert p.variable_id v (difference current p.value_ids) s.candidate_domains,
        )
      ]
  lookup-apply_mutation (assigned p) r h v =
      ground (arith, lookup-insert p.variable_id v (p.value_id ∷ []) s.candidate_domains)
  lookup-apply_mutation (contradiction p) r h v = ground arith

  narrowed_by :
      (m : Mutation) (r : Reduced)
      → apply_mutation s m ≡ ok r
      → (v x : String) (xs ys : List String) → lookup v s.candidate_domains ≡ some xs
      → lookup v r.candidates ≡ some ys
      → Has ys x
      → Has xs x
  unfolding apply_mutation contains
  narrowed_by (eliminated p) r h v x xs ys old new m =
      ground
        (arith, lookup-apply_mutation (eliminated p) r h v, contains-difference x xs p.value_ids)
  narrowed_by (assigned p) r h v x xs ys old new m =
      ground (arith, lookup-apply_mutation (assigned p) r h v)
  narrowed_by (contradiction p) r h v x xs ys old new m = ground arith

  variables_by :
      (m : Mutation) (r : Reduced)
      → apply_mutation s m ≡ ok r
      → (v : String) → (lookup v r.candidates ≡ none) ↔ (lookup v s.candidate_domains ≡ none)
  unfolding apply_mutation
  variables_by (eliminated p) r h v = ground (arith, lookup-apply_mutation (eliminated p) r h v)
  variables_by (assigned p) r h v = ground (arith, lookup-apply_mutation (assigned p) r h v)
  variables_by (contradiction p) r h v = ground arith

  facts_by :
      (m : Mutation) (r : Reduced)
      → apply_mutation s m ≡ ok r
      → (a : Atom) → Has s.asserted_atoms a
      → Has r.asserted a
  unfolding apply_mutation
  facts_by (eliminated p) r h a m =
      ground (arith, contains-update a s.asserted_atoms (map (exclusion p.variable_id) p.value_ids))
  facts_by (assigned p) r h a m = elim (Option-cases (lookup p.variable_id s.candidate_domains)) [
    | inl missing ↦ absurd (ground arith)
    | inr (current, found) ↦
        let exclusions =
          map (exclusion p.variable_id) (keep (λ x. not (x == p.value_id)) current) in
        let asserted : r.asserted
            ≡ update (add (assignment p.variable_id p.value_id) s.asserted_atoms) exclusions =
          ground arith in
        ground (
          arith,
          contains-update a (add (assignment p.variable_id p.value_id) s.asserted_atoms) exclusions,
          contains-add (assignment p.variable_id p.value_id) a s.asserted_atoms,
        )
  ]
  facts_by (contradiction p) r h a m = ground arith

module _ (P : Platform) (s : PuzzleState) (e : EventEnvelope) (inv : IsConsistent P s)
    (t : PuzzleState) (reduced : reduce_state P s e ≡ ok t) where
  -- A successful reduction changes exactly the candidates that its event names.
  pub candidates-reduce_state :
      (m : Mutation)
      → as_mutation e.payload ≡ some m
      → (v : String) → lookup v t.candidate_domains ≡ candidates_after m s.candidate_domains v
  unfolding validate_reduction
  candidates-reduce_state m payload v =
      let (n, r, checked, applied, same) = reduction P s e inv t reduced in
      let agrees : n ≡ m = ground arith in
      lookup-reduction P s e inv t reduced n r applied same v
      ∙ lookup-apply_mutation s n r applied v
      ∙ ap (λ k. candidates_after k s.candidate_domains v) agrees

  -- A reduction stays on its branch and advances it; it keeps every fact and every variable, and it
  -- never gives a candidate back.
  pub reduce_state-IsStep : IsStep s t e
  unfolding validate_reduction reduced_fields signed unsigned_state
  reduce_state-IsStep =
      let (m, r, checked, applied, same) = reduction P s e inv t reduced in
      let entry = lookup-reduction P s e inv t reduced m r applied same in
      record {
        revision = ground arith;
        branch = ground arith;
        constraints = ground arith;
        number = ground arith;
        later = ground arith;
        facts_kept = λ a h.
            rw same
              (assert_singletons-keeps r.asserted r.candidates a (facts_by s m r applied a h));
        variables = λ v. ground (arith, entry v, variables_by s m r applied v);
        narrowed =
            λ v x xs ys old new h. narrowed_by s m r applied v x xs ys old (sym (entry v) ∙ new) h;
      }
