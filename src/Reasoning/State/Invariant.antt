-- ===== src/Reasoning/State/Invariant.antt =====
-- The invariant of a puzzle state: its facts and its candidates say the same.
use deductra.Common.{
  String, ◌≡◌, refl, sym, ◌∙◌, ◌⊎◌, inl, inr, true, false, ◌&&◌, none, some, List, [], ◌∷◌, arith,
  string_dec, string_eq, pair_eq, nat_eq, bool_eq, contains, Has, add, unique, Distinct,
  contains-add, ok,
}
use deductra.Common.Dict.{Dict, keys, lookup, contains-keys}
use deductra.Common.Dict.Items.{IsCandidates}
use deductra.Canonical.{Platform}
use deductra.Domain.Atoms.{Atom, assignment, exclusion, atom_dec, atom_eq}
use deductra.Reasoning.State.{
  PuzzleState, freeze, only, compute_state_hash, all_decided, is_empty, StateFields, unsigned_state,
  build_state,
}
use deductra.Reasoning.State.Build.{
  lookup-freeze, freeze-IsCandidates, is_empty-freeze, signed, IsBuildable, hash-signed,
  build_state_ok,
}
use deductra.Reasoning.State.Initial.{assert_singletons}

-- Every fact is borne out by the candidates, and no variable is without one.
pub record IsBorneOut (asserted : List Atom) (d : Dict (List String)) : Type 0 where
  pub candidates : IsCandidates d
  pub some_variable : is_empty d ≡ false
  pub inhabited : (v : String) (xs : List String) → lookup v d ≡ some xs → is_empty xs ≡ false
  pub assigned : (v x : String) → Has asserted (assignment v x) → lookup v d ≡ some (x ∷ [])
  pub excluded :
      (v x : String) (xs : List String)
      → Has asserted (exclusion v x)
      → lookup v d ≡ some xs
      → contains xs x ≡ false

pub record IsConsistent (P : Platform) (s : PuzzleState) : Type 0 where
  pub facts : IsBorneOut s.asserted_atoms s.candidate_domains
  pub decided :
      (v x : String)
      → lookup v s.candidate_domains ≡ some (x ∷ [])
      → Has s.asserted_atoms (assignment v x)
  pub no_rejected : s.rejected_atoms ≡ []
  pub contradictions : unique s.contradiction_ids ≡ true
  pub solved_iff : s.solved ≡ (is_empty s.contradiction_ids && all_decided s.candidate_domains)
  pub hash : s.state_hash ≡ compute_state_hash P s

abbrev note_only : String → List String → List Atom → List Atom
note_only v xs asserted = elim (only xs) [
  | some x ↦ add (assignment v x) asserted
  | none ↦ asserted
]

contains-note_only :
    (v : String) (xs : List String) (asserted : List Atom) (b : Atom)
    → Has asserted b
    → Has (note_only v xs asserted) b
contains-note_only v [] asserted b h = h
contains-note_only v (x ∷ []) asserted b h =
    ground (arith, contains-add (assignment v x) b asserted)
contains-note_only v (x ∷ y ∷ xs) asserted b h = h

contains-note_only_cases :
    (v : String) (xs : List String) (asserted : List Atom) (b : Atom)
    → Has (note_only v xs asserted) b
    → Has asserted b ⊎ ((x : String) × (b ≡ assignment v x) × (xs ≡ x ∷ []))
contains-note_only_cases v [] asserted b h = inl h
contains-note_only_cases v (x ∷ []) asserted b h = elim (atom_dec (assignment v x) b) [
  | yes p ↦ inr (x, sym p, refl)
  | no n ↦ inl (ground (arith, contains-add (assignment v x) b asserted))
]
contains-note_only_cases v (x ∷ y ∷ xs) asserted b h = inl h

-- The loop over the singletons keeps every fact.
pub assert_singletons-keeps :
    (asserted : List Atom) (d : Dict (List String)) (b : Atom)
    → Has asserted b
    → Has (assert_singletons asserted d) b
unfolding assert_singletons
assert_singletons-keeps asserted [] b h = h
assert_singletons-keeps asserted ((v, xs) ∷ d) b h =
    assert_singletons-keeps (note_only v xs asserted) d b (contains-note_only v xs asserted b h)

-- What it adds are the assignments of decided variables.
pub assert_singletons-cases :
    (asserted : List Atom) (d : Dict (List String)) (b : Atom)
    → Distinct (keys d)
    → Has (assert_singletons asserted d) b
    → Has asserted b
      ⊎ ((v : String) × (x : String) × (b ≡ assignment v x) × (lookup v d ≡ some (x ∷ [])))
unfolding assert_singletons lookup
assert_singletons-cases asserted [] b u h = inl h
assert_singletons-cases asserted ((v, xs) ∷ d) b u h =
    elim (assert_singletons-cases (note_only v xs asserted) d b u.1 h) [
      | inl old ↦ elim (contains-note_only_cases v xs asserted b old) [
        | inl first ↦ inl first
        | inr (x, e, single) ↦ inr (v, x, e, ground arith)
      ]
      | inr (w, x, e, found) ↦ inr (w, x, e, ground (arith, contains-keys w d))
    ]

-- Each decided variable gets its assignment.
pub assert_singletons-decided :
    (asserted : List Atom) (d : Dict (List String)) (v x : String)
    → lookup v d ≡ some (x ∷ [])
    → Has (assert_singletons asserted d) (assignment v x)
unfolding assert_singletons lookup
assert_singletons-decided asserted [] v x h = cc
assert_singletons-decided asserted ((w, xs) ∷ d) v x h = elim (string_dec w v) [
  | yes same ↦ assert_singletons-keeps (note_only w xs asserted) d (assignment v x) (
      let single : xs ≡ x ∷ [] = ground arith in
      rw (single, same) (ground (arith, contains-add (assignment v x) (assignment v x) asserted)))
  | no differ ↦ assert_singletons-decided (note_only w xs asserted) d v x (ground arith)
]

-- The loop keeps the facts borne out.
pub assert_singletons-IsBorneOut :
    (asserted : List Atom) (d : Dict (List String))
    → IsBorneOut asserted d
    → IsBorneOut (assert_singletons asserted d) d
assert_singletons-IsBorneOut asserted d b = record {
  candidates = b.candidates;
  some_variable = b.some_variable;
  inhabited = b.inhabited;
  assigned = λ v x h. elim (assert_singletons-cases asserted d (assignment v x) b.candidates.0 h) [
    | inl old ↦ b.assigned v x old
    | inr (w, y, e, found) ↦ ground arith
  ];
  excluded = λ v x xs h e.
      elim (assert_singletons-cases asserted d (exclusion v x) b.candidates.0 h) [
        | inl old ↦ b.excluded v x xs old e
        | inr (w, y, e', found) ↦ ground arith
      ];
}

module _ (P : Platform) (f : StateFields) (asserted : List Atom)
    (b : IsBorneOut asserted f.candidate_domains)
    (projection : f.asserted_atoms ≡ assert_singletons asserted f.candidate_domains)
    (no_rejected : f.rejected_atoms ≡ []) (contradictions : unique f.contradiction_ids ≡ true) where
  full : IsBorneOut f.asserted_atoms f.candidate_domains
  full = rw projection (assert_singletons-IsBorneOut asserted f.candidate_domains b)

  decided :
      (v x : String)
      → lookup v f.candidate_domains ≡ some (x ∷ [])
      → Has f.asserted_atoms (assignment v x)
  decided v x e = rw projection (assert_singletons-decided asserted f.candidate_domains v x e)

  buildable : IsBuildable f
  buildable = record {
    candidates = b.candidates;
    some_variable = b.some_variable;
    inhabited = b.inhabited;
    disjoint = λ a h. rw no_rejected (unfold contains in refl);
    contradictions = contradictions;
    decided = decided;
  }

  -- The reducers' call of `build_state` succeeds.
  pub build_state_succeeds : build_state P f ≡ ok (signed P f)
  build_state_succeeds = build_state_ok P f buildable

  same_lookup : (v : String) → lookup v (freeze f.candidate_domains) ≡ lookup v f.candidate_domains
  same_lookup v = lookup-freeze v f.candidate_domains b.candidates

  pub signed-IsConsistent : IsConsistent P (signed P f)
  unfolding signed unsigned_state
  signed-IsConsistent = record {
    facts = record {
      candidates = freeze-IsCandidates f.candidate_domains b.candidates;
      some_variable = is_empty-freeze f.candidate_domains b.some_variable;
      inhabited = λ v xs e. full.inhabited v xs (sym (same_lookup v) ∙ e);
      assigned = λ v x h. same_lookup v ∙ full.assigned v x h;
      excluded = λ v x xs h e. full.excluded v x xs h (sym (same_lookup v) ∙ e);
    };
    decided = λ v x e. decided v x (sym (same_lookup v) ∙ e);
    no_rejected = no_rejected;
    contradictions = contradictions;
    solved_iff = refl;
    hash = hash-signed P f;
  }
