-- ===== src/Reasoning/Rules/Discovery.antt =====
-- src/deductra/reasoning/rules.py: `discover_rule_applications` beside what the rules find.
use mathlib.Core.Path.{subst}
use deductra.Common.{
  String, ◌≡◌, refl, sym, ap, ◌∙◌, ◌≢◌, ◌↔◌, ◌⊎◌, inl, inr, Bool, true, false, ◌||◌, List, [], ◌∷◌,
  ◌++◌, arith, Bool-cases, ◌==◌, string_eq, pair_eq, nat_eq, bool_eq, All, contains, Has, unique,
  Distinct, contains-append, unique-Distinct, place, sort_by, IsSorted, sort_by-IsSorted,
  contains-sort_by, ok, ok-injective, Result-cases,
}
use deductra.Canonical.{Platform}
use deductra.Domain.Puzzle.{PuzzleSpec}
use deductra.Reasoning.State.{PuzzleState}
use deductra.Reasoning.Rules.{
  reference_eq, RuleApplicationCandidate, candidate_eq, ReasoningRule, key_le, stable_tail,
  in_scope, rule_le, check_found, discover_from, candidate_ids, candidate_le,
  discover_rule_applications,
}
use deductra.Reasoning.Rules.Keys.{key_le_total, key_le_trans, key_le_antisymm}
use deductra.Reasoning.Rules.Precedence.{Precedes, stable_tail-Precedes}

-- One of the rules has the property.
abbrev pub SomeRule : (ReasoningRule → Type 0) → List ReasoningRule → Type 0
SomeRule Q [] = ⊥
SomeRule Q (r ∷ rs) = Q r ⊎ SomeRule Q rs

-- The rule is for every family, or for the puzzle's.
abbrev pub Admits : PuzzleSpec → ReasoningRule → Type 0
Admits puzzle r =
    (r.reference.family_scope ≡ []) ⊎ Has r.reference.family_scope puzzle.identity.family_id

-- The rule admits the puzzle, and the candidate is among those that it finds.
abbrev pub Finds : PuzzleSpec → PuzzleState → RuleApplicationCandidate → ReasoningRule → Type 0
Finds puzzle state c r =
    Admits puzzle r
    × ((own : List RuleApplicationCandidate) × (r.find_applications puzzle state ≡ ok own)
        × Has own c)

-- The candidate is found by the rule that it names.
abbrev pub FindsOwn : PuzzleSpec → PuzzleState → RuleApplicationCandidate → ReasoningRule → Type 0
FindsOwn puzzle state c r = Finds puzzle state c r × (c.rule ≡ r.reference)

-- Every candidate precedes all behind it.
abbrev pub Ordered : List RuleApplicationCandidate → Type 0
Ordered [] = Unit
Ordered (c ∷ cs) = All (Precedes c) cs × Ordered cs

module _ (Q : ReasoningRule → Type 0) (le : ReasoningRule → ReasoningRule → Bool) where
  SomeRule-place :
      (r : ReasoningRule) (rs : List ReasoningRule)
      → SomeRule Q (place le r rs) ↔ (Q r ⊎ SomeRule Q rs)
  unfolding place
  SomeRule-place r [] = (λ h. h, λ h. h)
  SomeRule-place r (s ∷ rs) = elim (Bool-cases (le r s)) [
    | inl first ↦ rw first (λ h. h, λ h. h)
    | inr second ↦ rw second ground (arith, SomeRule-place r rs)
  ]

  SomeRule-sort_by : (rs : List ReasoningRule) → SomeRule Q (sort_by le rs) ↔ SomeRule Q rs
  unfolding sort_by
  SomeRule-sort_by [] = (λ h. h, λ h. h)
  SomeRule-sort_by (r ∷ rs) =
      let placed = SomeRule-place r (sort_by le rs) in
      let sorted = SomeRule-sort_by rs in
      (
        λ h. elim (placed.0 h) [ inl q ↦ inl q | inr m ↦ inr (sorted.0 m) ],
        λ h. elim h [ inl q ↦ placed.1 (inl q) | inr m ↦ placed.1 (inr (sorted.1 m)) ],
      )

scope-cases : (xs : List String) → (xs ≡ []) ⊎ ((y : String) × (ys : List String) × (xs ≡ y ∷ ys))
scope-cases [] = inl refl
scope-cases (y ∷ ys) = inr (y, ys, refl)

in_scope-Admits :
    (puzzle : PuzzleSpec) (r : ReasoningRule) → (in_scope puzzle r ≡ true) ↔ Admits puzzle r
in_scope-Admits puzzle r = elim (scope-cases r.reference.family_scope) [
  | inl none_named ↦ (λ h. inl none_named, λ h. ground (arith, none_named))
  | inr (x, xs, some_named) ↦ (
    λ h. inr (ground (arith, some_named)),
    λ h. elim h [ inl none_named ↦ cc (none_named, some_named) | inr m ↦ ground (arith, m) ],
  )
]

module _ (puzzle : PuzzleSpec) (state : PuzzleState) where
  check_found-ok :
      (r : ReasoningRule) (found : List RuleApplicationCandidate)
      → check_found state r found ≡ ok tt
      → (c : RuleApplicationCandidate) → Has found c
      → (c.rule ≡ r.reference) × (c.source_state_hash ≡ state.state_hash)
  unfolding check_found contains
  check_found-ok r [] h c m = absurd (ground arith)
  check_found-ok r (d ∷ found) h c m =
      ground (arith, λ (k : check_found state r found ≡ ok tt). check_found-ok r found k c)

  -- What is found, by rules in any order.
  abbrev Discovered :
      List ReasoningRule → List RuleApplicationCandidate → RuleApplicationCandidate → Type 0
  Discovered rules found c =
      (Has found c
        → SomeRule (FindsOwn puzzle state c) rules × (c.source_state_hash ≡ state.state_hash))
      × (SomeRule (Finds puzzle state c) rules → Has found c)

  -- A rule that does not admit the puzzle finds nothing.
  skipped :
      (r : ReasoningRule) (rules : List ReasoningRule) (found : List RuleApplicationCandidate)
      (c : RuleApplicationCandidate)
      → in_scope puzzle r ≡ false
      → Discovered rules found c
      → Discovered (r ∷ rules) found c
  skipped r rules found c outside (sound, complete) = (
    λ m. let (k, source) = sound m in (inr k, source),
    λ h. elim h [
      | inl (admits, k) ↦ absurd (ground (arith, (in_scope-Admits puzzle r).1 admits))
      | inr k ↦ complete k
    ],
  )

  -- The candidates of one rule come before those of the others.
  added :
      (r : ReasoningRule) (rules : List ReasoningRule) (own rest : List RuleApplicationCandidate)
      (c : RuleApplicationCandidate)
      → in_scope puzzle r ≡ true
      → r.find_applications puzzle state ≡ ok own
      → check_found state r own ≡ ok tt
      → Discovered rules rest c
      → Discovered (r ∷ rules) (own ++ rest) c
  added r rules own rest c inside found_own checked (sound, complete) =
      let admits = (in_scope-Admits puzzle r).0 inside in
      let joined = contains-append c own rest in
      (
        λ m. elim (Bool-cases (contains own c)) [
          | inl here ↦
              let (named, source) = check_found-ok r own checked c here in
              (inl ((admits, (own, found_own, here)), named), source)
          | inr not_here ↦
              let (k, source) = sound (ground (arith, joined, m, not_here)) in (inr k, source)
        ],
        λ h. elim h [
          | inl (a, (found, e, m)) ↦
              let same : found ≡ own = ok-injective (sym e ∙ found_own) in
              let here : Has own c = ap (λ xs. contains xs c) (sym same) ∙ m in
              ground (arith, joined, here)
          | inr k ↦ ground (arith, joined, complete k)
        ],
      )

  discover_from-Discovered :
      (rules : List ReasoningRule) (found : List RuleApplicationCandidate)
      → discover_from puzzle state rules ≡ ok found
      → (c : RuleApplicationCandidate) → Discovered rules found c
  unfolding discover_from contains
  discover_from-Discovered [] found h c = (λ m. absurd (ground arith), λ k. absurd k)
  discover_from-Discovered (r ∷ rules) found h c = elim (Bool-cases (in_scope puzzle r)) [
    | inr outside ↦
        skipped r rules found c outside (discover_from-Discovered rules found (ground arith) c)
    | inl inside ↦ elim (Result-cases (r.find_applications puzzle state)) [
      | inr (x, failed) ↦ absurd (ground arith)
      | inl (own, found_own) ↦ elim (Result-cases (check_found state r own)) [
        | inr (x, failed) ↦ absurd (ground arith)
        | inl (u, checked) ↦ elim (Result-cases (discover_from puzzle state rules)) [
          | inr (x, failed) ↦ absurd (ground arith)
          | inl (rest, found_rest) ↦
              let split : own ++ rest ≡ found = ground arith in
              subst (λ found. Discovered (r ∷ rules) found c) split
                (added r rules own rest c inside found_own checked
                  (discover_from-Discovered rules rest found_rest c))
        ]
      ]
    ]
  ]

-- The identifiers of a sorted list.
contains-ids_place :
    (i : String) (c : RuleApplicationCandidate) (cs : List RuleApplicationCandidate)
    → contains (candidate_ids (place candidate_le c cs)) i
      ≡ (c.candidate_id == i || contains (candidate_ids cs) i)
unfolding contains place
contains-ids_place i c [] = refl
contains-ids_place i c (d ∷ cs) = ground (arith, contains-ids_place i c cs)

place-Distinct :
    (c : RuleApplicationCandidate) (cs : List RuleApplicationCandidate)
    → contains (candidate_ids cs) c.candidate_id ≡ false
    → Distinct (candidate_ids cs)
    → Distinct (candidate_ids (place candidate_le c cs))
unfolding contains place
place-Distinct c [] n h = (refl, tt)
place-Distinct c (d ∷ cs) n h =
    ground (arith, place-Distinct c cs, contains-ids_place d.candidate_id c cs)

contains-ids_sort :
    (i : String) (cs : List RuleApplicationCandidate)
    → contains (candidate_ids (sort_by candidate_le cs)) i ≡ contains (candidate_ids cs) i
unfolding contains sort_by
contains-ids_sort i [] = refl
contains-ids_sort i (c ∷ cs) =
    ground (arith, contains-ids_place i c (sort_by candidate_le cs), contains-ids_sort i cs)

sort_by-Distinct :
    (cs : List RuleApplicationCandidate)
    → Distinct (candidate_ids cs)
    → Distinct (candidate_ids (sort_by candidate_le cs))
unfolding sort_by
sort_by-Distinct [] h = tt
sort_by-Distinct (c ∷ cs) h =
    place-Distinct c (sort_by candidate_le cs) (contains-ids_sort c.candidate_id cs ∙ h.0)
      (sort_by-Distinct cs h.1)

strictly :
    (c d : RuleApplicationCandidate)
    → candidate_le c d ≡ true
    → c.candidate_id ≢ d.candidate_id
    → Precedes c d
strictly c d below differ = elim (Bool-cases (key_le (stable_tail d) (stable_tail c))) [
  | inr strict ↦ (stable_tail-Precedes c d).0 strict
  | inl above ↦
      let same = key_le_antisymm (stable_tail c) (stable_tail d) below above in
      absurd (differ (cc same))
]

first-Precedes :
    (c : RuleApplicationCandidate) (cs : List RuleApplicationCandidate)
    → IsSorted candidate_le (c ∷ cs)
    → contains (candidate_ids cs) c.candidate_id ≡ false
    → All (Precedes c) cs
unfolding contains
first-Precedes c [] h n = tt
first-Precedes c (d ∷ []) h n = (strictly c d h.0 (λ same. ground arith), tt)
first-Precedes c (d ∷ b ∷ cs) h n =
    let over = key_le_trans (stable_tail c) (stable_tail d) (stable_tail b) h.0 h.1.0 in
    (
      strictly c d h.0 (λ same. ground arith),
      first-Precedes c (b ∷ cs) (over, h.1.1) (ground arith),
    )

sorted-Ordered :
    (cs : List RuleApplicationCandidate)
    → IsSorted candidate_le cs
    → Distinct (candidate_ids cs)
    → Ordered cs
sorted-Ordered [] h n = tt
sorted-Ordered (c ∷ []) h n = (tt, tt)
sorted-Ordered (c ∷ d ∷ cs) h n = (first-Precedes c (d ∷ cs) h n.0, sorted-Ordered (d ∷ cs) h.1 n.1)

module _ (P : Platform) (puzzle : PuzzleSpec) (state : PuzzleState)
    (rules : List ReasoningRule) where
  -- Discovery returns all that the rules find for the puzzle's family, and nothing else, each
  -- candidate under the reference of a rule that finds it and for the present state. Every candidate
  -- precedes those behind it, and no two entries have one identifier.
  pub discover_rule_applications-Ordered :
      (cs : List RuleApplicationCandidate)
      → discover_rule_applications P puzzle state rules ≡ ok cs
      → Ordered cs
        × Distinct (candidate_ids cs)
        × ((c : RuleApplicationCandidate)
            → Has cs c
            → SomeRule (FindsOwn puzzle state c) rules × (c.source_state_hash ≡ state.state_hash))
        × ((c : RuleApplicationCandidate) → SomeRule (Finds puzzle state c) rules → Has cs c)
  unfolding discover_rule_applications
  discover_rule_applications-Ordered cs h =
      let by_reference = sort_by (rule_le P) rules in
      elim (Result-cases (discover_from puzzle state by_reference)) [
        | inr (x, failed) ↦ absurd (ground arith)
        | inl (found, discovered) ↦
            let sorted : sort_by candidate_le found ≡ cs = ground arith in
            let unique_there : unique (candidate_ids found) ≡ true = ground arith in
            let distinct =
              sort_by-Distinct found ((unique-Distinct (candidate_ids found)).0 unique_there) in
            let ordered =
              sorted-Ordered (sort_by candidate_le found)
                (sort_by-IsSorted candidate_le (λ c d. key_le_total (stable_tail c) (stable_tail d))
                  found)
                distinct in
            let same : (c : RuleApplicationCandidate) → contains cs c ≡ contains found c =
              λ c. ap (λ xs. contains xs c) (sym sorted) ∙ contains-sort_by candidate_le c found in
            let from_rules = discover_from-Discovered puzzle state by_reference found discovered in
            (
              subst Ordered sorted ordered,
              subst (λ xs. Distinct (candidate_ids xs)) sorted distinct,
              λ c m.
                  let (k, source) = (from_rules c).0 (sym (same c) ∙ m) in
                  ((SomeRule-sort_by (FindsOwn puzzle state c) (rule_le P) rules).0 k, source),
              λ c k.
                  same c
                  ∙ (from_rules c).1
                      ((SomeRule-sort_by (Finds puzzle state c) (rule_le P) rules).1 k),
            )
      ]
