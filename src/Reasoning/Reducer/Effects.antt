-- ===== src/Reasoning/Reducer/Effects.antt =====
-- Every reduction keeps the facts borne out by the candidates, and fails by its own guards alone.
use deductra.Common.{
  String, ◌≡◌, refl, sym, ap, ◌∙◌, ◌⊎◌, inl, inr, true, false, not, ◌&&◌, some, List, [], ◌∷◌, ◌++◌,
  map, arith, Option-cases, ◌==◌, string_eq, pair_eq, nat_eq, bool_eq, keep, contains, Has, add,
  update, difference, unique, Distinct, contains-append, contains-add, contains-update,
  contains-difference, unique-Distinct, difference-Distinct, contains-keep, ok,
}
use deductra.Common.Dict.{Dict, lookup, insert, lookup-insert}
use deductra.Common.Dict.Items.{All-lookup, insert-IsCandidates}
use deductra.Canonical.{Platform}
use deductra.Domain.Atoms.{Atom, assignment, exclusion, atom_eq}
use deductra.Reasoning.Events.{CandidatesEliminated, ValueAssigned}
use deductra.Reasoning.State.{PuzzleState, is_empty}
use deductra.Reasoning.State.Invariant.{IsBorneOut, IsConsistent}
use deductra.Reasoning.Reducer.{
  Mutation, eliminated, assigned, contradiction, Reduced, apply_mutation, assign, eliminate,
}

contains-exclusions :
    (v w x : String) (xs : List String)
    → contains (map (exclusion v) xs) (exclusion w x) ≡ (v == w && contains xs x)
unfolding contains
contains-exclusions v w x [] = ground arith
contains-exclusions v w x (y ∷ xs) = ground (arith, contains-exclusions v w x xs)

contains-exclusions_assignment :
    (v w x : String) (xs : List String) → contains (map (exclusion v) xs) (assignment w x) ≡ false
unfolding contains
contains-exclusions_assignment v w x [] = refl
contains-exclusions_assignment v w x (y ∷ xs) =
    ground (arith, contains-exclusions_assignment v w x xs)

is_empty-insert :
    (v : String) (xs : List String) (d : Dict (List String)) → is_empty (insert v xs d) ≡ false
unfolding insert
is_empty-insert v xs [] = refl
is_empty-insert v xs (_ ∷ d) = ground arith

-- A set that has only `x`, and is not empty.
pub difference_single :
    (x : String) (xs : List String)
    → is_empty (difference (x ∷ []) xs) ≡ false
    → difference (x ∷ []) xs ≡ x ∷ []
unfolding difference
difference_single x xs h = ground arith

-- Narrowing one variable to a part of its candidates keeps the facts borne out, if the new facts
-- are exclusions outside that part, or the assignment of what is left.
module _ (asserted : List Atom) (d : Dict (List String)) (v : String) (old new : List String)
    (b : IsBorneOut asserted d) (found : lookup v d ≡ some old) (distinct : Distinct new)
    (inhabited : is_empty new ≡ false) (part : (x : String) → Has new x → Has old x)
    (fixed : (x : String) → old ≡ x ∷ [] → new ≡ x ∷ []) where
  pub narrow-IsBorneOut :
      (asserted' : List Atom)
      → ((w x : String)
          → Has asserted' (assignment w x)
          → Has asserted (assignment w x) ⊎ ((w ≡ v) × (new ≡ x ∷ [])))
      → ((w x : String)
          → Has asserted' (exclusion w x)
          → Has asserted (exclusion w x) ⊎ ((w ≡ v) × (contains new x ≡ false)))
      → IsBorneOut asserted' (insert v new d)
  narrow-IsBorneOut asserted' assigns excludes = record {
    candidates = insert-IsCandidates v new d b.candidates distinct;
    some_variable = is_empty-insert v new d;
    inhabited = λ w xs e. ground (arith, lookup-insert v w new d, b.inhabited w xs);
    assigned = λ w x h. elim (assigns w x h) [
      | inl before ↦ ground (arith, lookup-insert v w new d, b.assigned w x before, fixed x)
      | inr (same, single) ↦ ground (arith, lookup-insert v w new d)
    ];
    excluded = λ w x xs h e. elim (excludes w x h) [
      | inl before ↦ ground (
        arith,
        lookup-insert v w new d,
        b.excluded w x xs before,
        b.excluded w x old before,
        part x,
      )
      | inr (same, absent) ↦ ground (arith, lookup-insert v w new d)
    ];
  }

Distinct-snoc :
    (xs : List String) (c : String) → Distinct xs → contains xs c ≡ false → Distinct (xs ++ c ∷ [])
unfolding contains
Distinct-snoc [] c d fresh = (refl, tt)
Distinct-snoc (x ∷ xs) c d fresh =
    ground (arith, Distinct-snoc xs c d.1, contains-append x xs (c ∷ []))

unique-snoc :
    (xs : List String) (c : String)
    → unique xs ≡ true
    → contains xs c ≡ false
    → unique (xs ++ c ∷ []) ≡ true
unique-snoc xs c u fresh =
    (unique-Distinct (xs ++ c ∷ [])).1 (Distinct-snoc xs c ((unique-Distinct xs).0 u) fresh)

module _ (P : Platform) (s : PuzzleState) (inv : IsConsistent P s) where
  Distinct-values :
      (v : String) (xs : List String) → lookup v s.candidate_domains ≡ some xs → Distinct xs
  Distinct-values v xs found =
      All-lookup (λ (_, ys). Distinct ys) v xs s.candidate_domains inv.facts.candidates.1 found

  module _ (p : CandidatesEliminated) (current : List String)
      (found : lookup p.variable_id s.candidate_domains ≡ some current) where
    eliminate-IsBorneOut :
        (r : Reduced) → eliminate s p current ≡ ok r → IsBorneOut r.asserted r.candidates
    unfolding eliminate
    eliminate-IsBorneOut r h =
        let v = p.variable_id in
        let remaining = difference current p.value_ids in
        let exclusions = map (exclusion v) p.value_ids in
        let some_left : is_empty remaining ≡ false = ground arith in
        let candidates : r.candidates ≡ insert v remaining s.candidate_domains = ground arith in
        let asserted : r.asserted ≡ update s.asserted_atoms exclusions = ground arith in
        rw (candidates, asserted)
          (narrow-IsBorneOut s.asserted_atoms s.candidate_domains v current remaining inv.facts
            found (difference-Distinct current p.value_ids (Distinct-values v current found))
            some_left (λ x m. ground (arith, contains-difference x current p.value_ids))
            (λ x e.
              ap (λ c. difference c p.value_ids) e
              ∙ difference_single x p.value_ids
                  (ap (λ c. is_empty (difference c p.value_ids)) (sym e) ∙ some_left))
            (update s.asserted_atoms exclusions)
            (λ w x m. inl (
              ground (
                arith,
                contains-update (assignment w x) s.asserted_atoms exclusions,
                contains-exclusions_assignment v w x p.value_ids,
              )))
            (λ w x m. ground (
              arith,
              contains-update (exclusion w x) s.asserted_atoms exclusions,
              contains-exclusions v w x p.value_ids,
              contains-difference x current p.value_ids,
            )))

  assign-IsBorneOut :
      (p : ValueAssigned) (current : List String) (r : Reduced)
      → lookup p.variable_id s.candidate_domains ≡ some current
      → assign s p current ≡ ok r
      → IsBorneOut r.asserted r.candidates
  unfolding assign
  assign-IsBorneOut p current r found h =
      let v = p.variable_id in
      let chosen = p.value_id in
      let others = keep (λ x. not (x == chosen)) current in
      let exclusions = map (exclusion v) others in
      let asserted' = update (add (assignment v chosen) s.asserted_atoms) exclusions in
      let there : Has current chosen = ground arith in
      let candidates : r.candidates ≡ insert v (chosen ∷ []) s.candidate_domains = ground arith in
      let asserted : r.asserted ≡ asserted' = ground arith in
      rw (candidates, asserted)
        (narrow-IsBorneOut s.asserted_atoms s.candidate_domains v current (chosen ∷ []) inv.facts
          found (unfold contains in (refl, tt)) refl (λ x m. unfold contains in ground arith)
          (λ x e. unfold contains in ground arith) asserted'
          (λ w x m. ground (
            arith,
            contains-update (assignment w x) (add (assignment v chosen) s.asserted_atoms)
                exclusions,
            contains-exclusions_assignment v w x others,
            contains-add (assignment v chosen) (assignment w x) s.asserted_atoms,
          ))
          (λ w x m.
            unfold contains in
            ground (
              arith,
              contains-update (exclusion w x) (add (assignment v chosen) s.asserted_atoms)
                  exclusions,
              contains-exclusions v w x others,
              contains-keep (λ y. not (y == chosen)) x current,
              contains-add (assignment v chosen) (exclusion w x) s.asserted_atoms,
            )))

  -- Every mutation that the reducer accepts keeps the facts borne out.
  pub apply_mutation-IsBorneOut :
      (m : Mutation) (r : Reduced)
      → apply_mutation s m ≡ ok r
      → IsBorneOut r.asserted r.candidates × (unique r.contradictions ≡ true)
  unfolding apply_mutation
  apply_mutation-IsBorneOut (eliminated p) r h =
      elim (Option-cases (lookup p.variable_id s.candidate_domains)) [
        | inl missing ↦ absurd (ground arith)
        | inr (current, found) ↦ (
          eliminate-IsBorneOut p current found r (ground arith),
          ground (arith, inv.contradictions),
        )
      ]
  apply_mutation-IsBorneOut (assigned p) r h =
      elim (Option-cases (lookup p.variable_id s.candidate_domains)) [
        | inl missing ↦ absurd (ground arith)
        | inr (current, found) ↦
            (assign-IsBorneOut p current r found (ground arith), ground (arith, inv.contradictions))
      ]
  apply_mutation-IsBorneOut (contradiction p) r h =
      let candidates : r.candidates ≡ s.candidate_domains = ground arith in
      let asserted : r.asserted ≡ s.asserted_atoms = ground arith in
      (
        rw (candidates, asserted) inv.facts,
        ground (arith, inv.contradictions, unique-snoc s.contradiction_ids p.contradiction_id),
      )
