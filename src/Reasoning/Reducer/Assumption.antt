-- ===== src/Reasoning/Reducer/Assumption.antt =====
-- What `derive_branch_state` makes of a consistent parent.
use deductra.Common.{
  String, ◌≡◌, refl, sym, ap, ◌∙◌, ◌≢◌, inl, inr, false, not, Option, none, some, List, [], ◌∷◌,
  arith, if◌then◌else◌, Option-cases, ◌==◌, string_dec, string_eq, pair_eq, nat_eq, bool_eq,
  contains, Has, add, to_set, difference, unique, Distinct, contains-add, contains-difference,
  difference-Distinct, state_conflict, Result, err, ok, raise_if, ◌>>=◌, ◌>>◌, >>=-eq-ok,
}
use deductra.Common.Dict.{Dict, lookup, insert, lookup-insert}
use deductra.Common.Dict.Items.{All-lookup}
use deductra.Canonical.{Platform}
use deductra.Domain.Atoms.{Atom, assignment, exclusion, atom_eq}
use deductra.Reasoning.Events.{BranchOpened, EventEnvelope}
use deductra.Reasoning.State.{PuzzleState, is_empty, StateFields, unsigned_state, build_state}
use deductra.Reasoning.State.Build.{lookup-freeze, signed, build_state_eq-signed}
use deductra.Reasoning.State.Invariant.{
  IsBorneOut, IsConsistent, assert_singletons-keeps, build_state_succeeds, signed-IsConsistent,
}
use deductra.Reasoning.Reducer.{reduced_fields, assume, derive_branch_state}
use deductra.Reasoning.Reducer.Effects.{difference_single, narrow-IsBorneOut}

-- The candidates under an assumption, as an independent description gives them.
abbrev pub candidates_under : Atom → Dict (List String) → String → Option (List String)
candidates_under (assignment v x) d w = if v == w then some (x ∷ []) else lookup w d
candidates_under (exclusion v x) d w =
    if v == w
    then elim (lookup w d) [ some xs ↦ some (difference xs (x ∷ [])) | none ↦ none ]
    else lookup w d
candidates_under _ d w = lookup w d

pub lookup-assume :
    (d c : Dict (List String)) (a : Atom)
    → assume d a ≡ ok c
    → (w : String) → lookup w c ≡ candidates_under a d w
unfolding assume
lookup-assume d c (assignment v x) h w = ground (arith, lookup-insert v w (x ∷ []) d)
lookup-assume d c (exclusion v x) h w = elim (Option-cases (lookup v d)) [
  | inl missing ↦ absurd (ground arith)
  | inr (current, found) ↦ ground (arith, lookup-insert v w (difference current (x ∷ [])) d)
]
lookup-assume d c _ h w = ground arith

-- The arguments of the call of `build_state`.
unfoldable pub child_fields :
    PuzzleState → EventEnvelope → BranchOpened → Dict (List String) → StateFields
child_fields s e p c = reduced_fields s e e.branch_id (record {
  candidates = c;
  asserted = add p.assumption s.asserted_atoms;
  contradictions = [];
  result_state_id = p.result_state_id;
})

module _ (P : Platform) (s : PuzzleState) (inv : IsConsistent P s) where
  values_differ :
      (v : String) (xs : List String) → lookup v s.candidate_domains ≡ some xs → Distinct xs
  values_differ v xs found =
      All-lookup (λ (_, ys). Distinct ys) v xs s.candidate_domains inv.facts.candidates.1 found

  assume-assignment :
      (v x : String) (c : Dict (List String))
      → assume s.candidate_domains (assignment v x) ≡ ok c
      → IsBorneOut (add (assignment v x) s.asserted_atoms) c
  unfolding assume contains
  assume-assignment v x c h = elim (Option-cases (lookup v s.candidate_domains)) [
    | inl missing ↦ absurd (ground arith)
    | inr (current, found) ↦
        let there : Has current x = ground arith in
        let same : c ≡ insert v (x ∷ []) s.candidate_domains = ground arith in
        rw same (
          narrow-IsBorneOut s.asserted_atoms s.candidate_domains v current (x ∷ []) inv.facts found
            (refl, tt) refl (λ y m. ground arith) (λ y e. ground arith)
            (add (assignment v x) s.asserted_atoms)
            (λ w y m.
              ground (arith, contains-add (assignment v x) (assignment w y) s.asserted_atoms))
            (λ w y m.
              ground (arith, contains-add (assignment v x) (exclusion w y) s.asserted_atoms)))
  ]

  assume-exclusion :
      (v x : String) (c : Dict (List String))
      → assume s.candidate_domains (exclusion v x) ≡ ok c
      → IsBorneOut (add (exclusion v x) s.asserted_atoms) c
  unfolding assume contains
  assume-exclusion v x c h = elim (Option-cases (lookup v s.candidate_domains)) [
    | inl missing ↦ absurd (ground arith)
    | inr (current, found) ↦
        let remaining = difference current (x ∷ []) in
        let some_left : is_empty remaining ≡ false = ground arith in
        let same : c ≡ insert v remaining s.candidate_domains = ground arith in
        rw same (
          narrow-IsBorneOut s.asserted_atoms s.candidate_domains v current remaining inv.facts found
            (difference-Distinct current (x ∷ []) (values_differ v current found)) some_left
            (λ y m. ground (arith, contains-difference y current (x ∷ [])))
            (λ y e.
              ap (λ c. difference c (x ∷ [])) e
              ∙ difference_single y (x ∷ [])
                  (ap (λ c. is_empty (difference c (x ∷ []))) (sym e) ∙ some_left))
            (add (exclusion v x) s.asserted_atoms)
            (λ w y m.
              ground (arith, contains-add (exclusion v x) (assignment w y) s.asserted_atoms))
            (λ w y m. ground (
              arith,
              contains-add (exclusion v x) (exclusion w y) s.asserted_atoms,
              contains-difference y current (x ∷ []),
            )))
  ]

  -- A fact that is neither an assignment nor an exclusion changes nothing.
  add_other :
      (a : Atom) (c : Dict (List String))
      → ok s.candidate_domains ≡ ok c
      → ((v x : String) → a ≢ assignment v x)
      → ((v x : String) → a ≢ exclusion v x)
      → IsBorneOut (add a s.asserted_atoms) c
  add_other a c h not_assignment not_exclusion =
      let same : c ≡ s.candidate_domains = ground arith in
      rw same (record {
        candidates = inv.facts.candidates;
        some_variable = inv.facts.some_variable;
        inhabited = inv.facts.inhabited;
        assigned = λ v x m.
            inv.facts.assigned v x (
              ground (arith, contains-add a (assignment v x) s.asserted_atoms, not_assignment v x));
        excluded = λ v x xs m e.
            inv.facts.excluded v x xs
              (ground (arith, contains-add a (exclusion v x) s.asserted_atoms, not_exclusion v x))
              e;
      })

  assume-IsBorneOut :
      (a : Atom) (c : Dict (List String))
      → assume s.candidate_domains a ≡ ok c
      → IsBorneOut (add a s.asserted_atoms) c
  unfolding assume
  assume-IsBorneOut (assignment v x) c h = assume-assignment v x c h
  assume-IsBorneOut (exclusion v x) c h = assume-exclusion v x c h
  assume-IsBorneOut a c h = add_other a c h (λ v x e. cc) (λ v x e. cc)

  module _ (e : EventEnvelope) (p : BranchOpened) where
    child_of :
        (t : PuzzleState)
        → derive_branch_state P s e p ≡ ok t
        → (c : Dict (List String)) × (assume s.candidate_domains p.assumption ≡ ok c)
          × (t ≡ signed P (child_fields s e p c))
    unfolding derive_branch_state child_fields
    child_of t h = elim (string_dec p.opened_from_state_hash s.state_hash) [
      | no differ ↦ absurd (ground arith)
      | yes same ↦
          let (c, assumed, built) =
            >>=-eq-ok (assume s.candidate_domains p.assumption)
              (λ c. build_state P (child_fields s e p c)) (ground arith) in
          (c, assumed, build_state_eq-signed P (child_fields s e p c) built)
    ]

    child-IsConsistent :
        (c : Dict (List String))
        → assume s.candidate_domains p.assumption ≡ ok c
        → IsConsistent P (signed P (child_fields s e p c))
    unfolding child_fields reduced_fields
    child-IsConsistent c assumed =
        signed-IsConsistent P (child_fields s e p c) (add p.assumption s.asserted_atoms)
          (assume-IsBorneOut p.assumption c assumed) refl inv.no_rejected
          (unfold unique to_set in refl)

    -- The child of a consistent parent is consistent, stands on the event's branch without
    -- contradictions, has the parent's candidates narrowed by the assumption alone, and asserts it.
    pub derive_branch_state-IsConsistent :
        (t : PuzzleState)
        → derive_branch_state P s e p ≡ ok t
        → IsConsistent P t
          × (t.branch_id ≡ e.branch_id)
          × (t.contradiction_ids ≡ [])
          × ((v : String)
              → lookup v t.candidate_domains ≡ candidates_under p.assumption s.candidate_domains v)
          × Has t.asserted_atoms p.assumption
    unfolding child_fields reduced_fields signed unsigned_state
    derive_branch_state-IsConsistent t h =
        let (c, assumed, same) = child_of t h in
        let facts = assume-IsBorneOut p.assumption c assumed in
        (
          rw same (child-IsConsistent c assumed),
          ground arith,
          ground arith,
          λ v.
              ap (λ (u : PuzzleState). lookup v u.candidate_domains) same
              ∙ lookup-freeze v c facts.candidates
              ∙ lookup-assume s.candidate_domains c p.assumption assumed v,
          rw same (
              assert_singletons-keeps (add p.assumption s.asserted_atoms) c p.assumption
                (ground (arith, contains-add p.assumption p.assumption s.asserted_atoms))),
        )

    -- From a consistent parent the opening of a branch fails by the reducer's own guards alone.
    pub derive_branch_state-signed : derive_branch_state P s e p ≡ (do
      raise_if
          (not (p.opened_from_state_hash == s.state_hash))
          (state_conflict "branch source hash does not match its parent state")
      c ← assume s.candidate_domains p.assumption
      ok (signed P (child_fields s e p c)))
    unfolding derive_branch_state child_fields
    derive_branch_state-signed =
        ap
          (λ r.
            raise_if (not (p.opened_from_state_hash == s.state_hash))
              (state_conflict "branch source hash does not match its parent state")
            >> r)
          (go (assume s.candidate_domains p.assumption) refl)
      where
        go :
            (r : Result (Dict (List String)))
            → assume s.candidate_domains p.assumption ≡ r
            → (r >>= λ c. build_state P (child_fields s e p c))
              ≡ (r >>= λ c. ok (signed P (child_fields s e p c)))
        go (ok c) assumed =
            unfold reduced_fields in
            build_state_succeeds P (child_fields s e p c) (add p.assumption s.asserted_atoms)
              (assume-IsBorneOut p.assumption c assumed) refl inv.no_rejected
              (unfold unique to_set in refl)
        go (err x) assumed = refl
