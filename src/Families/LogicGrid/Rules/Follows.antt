-- ===== src/Families/LogicGrid/Rules/Follows.antt =====
-- What the rules conclude holds in every solution that the state still allows.
use mathlib.Core.Path.{subst}
use deductra.Common.{
  String, ◌≡◌, sym, ap, ◌∙◌, ◌≢◌, inl, inr, Bool, true, false, ◌&&◌, some, List, [], ◌∷◌, ◌++◌,
  arith, ltb, Bool-cases, Option-cases, some_injective, if-cases, match-cases, string_eq, pair_eq,
  nat_eq, bool_eq, length, find, All, contains, Has, difference, intersection, contains-difference,
  contains-intersection, sort_texts, ok, >>=-eq-ok, ok-injective,
}
use deductra.Common.Dict.{Dict, values, lookup, subscript}
use deductra.Domain.Atoms.{Atom, assignment, exclusion, relation, aggregate, truth, atom_eq}
use deductra.Domain.Expressions.{variable_reference, equal, not_equal, BooleanExpression, compared}
use deductra.Reasoning.State.{PuzzleState}
use deductra.Families.LogicGrid.Evaluation.Meaning.{Grid, Holds}
use deductra.Families.LogicGrid.Checker.Acceptance.{MarkHolds}
use deductra.Families.LogicGrid.Rules.{
  first_value, RuleConclusion, is_exclusion_of, is_other_assignment, is_single, assignment_premise,
  absence_premise, disclosed, absent_values, common_premises, equal_side, differ_side,
  association_conclusions,
}

-- The rows are candidates of the state, and what it asserts holds of them.
pub record Allowed (s : PuzzleState) (g : Grid) : Type 0 where
  pub candidates :
      (v : String) (xs : List String) → lookup v s.candidate_domains ≡ some xs → Has xs (g.row v)
  pub asserted : All (MarkHolds g) s.asserted_atoms

-- The conclusion holds, and so do its premises.
abbrev pub Follows : Grid → RuleConclusion → Type 0
Follows g (a, premises) = MarkHolds g a × All (MarkHolds g) premises

pub subscript-lookup :
    {V : Type 0} (k : String) (d : Dict V) {v : V} → subscript k d ≡ ok v → lookup k d ≡ some v
unfolding subscript
subscript-lookup k d h = elim (Option-cases (lookup k d)) [
  | inl e ↦ absurd (ground arith)
  | inr (v, e) ↦ e ∙ ground arith
]

contains-difference_not :
    (a : String) (xs ys : List String) → Has xs a → contains (difference xs ys) a ≡ false → Has ys a
contains-difference_not a xs ys m h = ground (arith, contains-difference a xs ys)

pub single-row :
    (xs : List String) (x y : String)
    → is_single xs ≡ true
    → first_value xs ≡ ok x
    → Has xs y
    → x ≡ y
unfolding contains
single-row [] x y one f m = cc
single-row (z ∷ []) x y one f m = let same : z ≡ x = ok-injective f in ground (arith, same)
single-row (_ ∷ _ ∷ _) x y one f m = absurd (ground arith)

find-All :
    {A : Type 0} (Q : A → Type 0) (test : A → Bool) (xs : List A) {a : A}
    → All Q xs
    → find test xs ≡ some a
    → Q a × (test a ≡ true)
find-All Q test [] h e = cc
find-All Q test (x ∷ xs) {a} h e = elim (Bool-cases (test x)) [
  | inl t ↦ let same : x ≡ a = ground arith in (subst Q same h.0, ap test (sym same) ∙ t)
  | inr t ↦ find-All Q test xs h.1 (ground arith)
]

module _ (s : PuzzleState) (g : Grid) (allowed : Allowed s g) where
  exclusion-differs :
      (v x : String) (a : Atom) → is_exclusion_of v x a ≡ true → MarkHolds g a → g.row v ≢ x
  exclusion-differs v x (exclusion w y) t h = ground arith
  exclusion-differs v x (assignment _ _) t h = cc
  exclusion-differs v x (relation _ _) t h = cc
  exclusion-differs v x (aggregate _ _ _ _) t h = cc
  exclusion-differs v x (truth _ _) t h = cc

  other-differs :
      (v x : String) (a : Atom) → is_other_assignment v x a ≡ true → MarkHolds g a → g.row v ≢ x
  other-differs v x (assignment w y) t h = ground arith
  other-differs v x (exclusion _ _) t h = cc
  other-differs v x (relation _ _) t h = cc
  other-differs v x (aggregate _ _ _ _) t h = cc
  other-differs v x (truth _ _) t h = cc

  -- An absence premise holds, and says that the row is not the value.
  pub absence_premise-Differs :
      (v x : String) {a : Atom} → absence_premise s v x ≡ some a → MarkHolds g a × (g.row v ≢ x)
  unfolding absence_premise
  absence_premise-Differs v x {a} h =
      elim (Option-cases (find (is_exclusion_of v x) s.asserted_atoms)) [
        | inl e ↦
            let f : find (is_other_assignment v x) s.asserted_atoms ≡ some a = ground arith in
            let (holds, t) =
              find-All (MarkHolds g) (is_other_assignment v x) s.asserted_atoms allowed.asserted
                f in
            (holds, other-differs v x a t holds)
        | inr (b, e) ↦
            let same : b ≡ a = ground arith in
            let (holds, t) =
              find-All (MarkHolds g) (is_exclusion_of v x) s.asserted_atoms allowed.asserted
                (e ∙ ap some same) in
            (holds, exclusion-differs v x a t holds)
      ]

  disclosed-All :
      (v : String) (xs : List String) {premises : List Atom}
      → disclosed s v xs ≡ some premises
      → All (MarkHolds g) premises
  unfolding disclosed
  disclosed-All v [] h = let e = some_injective h in subst (All (MarkHolds g)) e tt
  disclosed-All v (x ∷ xs) h = elim (Option-cases (absence_premise s v x)) [
    | inl e ↦ absurd (ground arith)
    | inr (a, e) ↦ elim (Option-cases (disclosed s v xs)) [
      | inl f ↦ absurd (ground arith)
      | inr (rest, f) ↦
          let same : some (a ∷ rest) ≡ some _ = sym (cc (e, f)) ∙ h in
          subst (All (MarkHolds g)) (some_injective same)
            ((absence_premise-Differs v x e).0, disclosed-All v xs f)
    ]
  ]

  absent_values-Follows :
      (v other : String) (xs : List String)
      → g.row v ≡ g.row other
      → All (Follows g) (absent_values s v other xs)
  unfolding absent_values
  absent_values-Follows v other [] e = tt
  absent_values-Follows v other (x ∷ xs) e = elim (Option-cases (absence_premise s other x)) [
    | inl f ↦
        let equation : absent_values s v other (x ∷ xs) ≡ absent_values s v other xs = cc f in
        subst (All (Follows g)) (sym equation) (absent_values-Follows v other xs e)
    | inr (a, f) ↦
        let equation : absent_values s v other (x ∷ xs)
            ≡ (exclusion v x, a ∷ []) ∷ absent_values s v other xs =
          cc f in
        let (holds, differs) = absence_premise-Differs other x f in
        subst (All (Follows g)) (sym equation)
          (((λ same. differs (sym e ∙ same)), (holds, tt)), absent_values-Follows v other xs e)
  ]

  pub assignment_premise-Holds :
      (v : String) (xs : List String) {a : Atom}
      → lookup v s.candidate_domains ≡ some xs
      → is_single xs ≡ true
      → assignment_premise s v ≡ ok a
      → MarkHolds g a
  unfolding assignment_premise
  assignment_premise-Holds v xs {a} found one h =
      let (ys, e, rest) = >>=-eq-ok (subscript v s.candidate_domains) _ h in
      let same : ys ≡ xs =
        some_injective (sym (subscript-lookup v s.candidate_domains e) ∙ found) in
      let (x, f, last) = >>=-eq-ok (first_value ys) _ rest in
      let row =
        single-row ys x (g.row v) (ap is_single same ∙ one) f
          (subst (λ zs. Has zs (g.row v)) (sym same) (allowed.candidates v xs found)) in
      subst (MarkHolds g) (ok-injective last) (sym row)

  common_premises-All :
      (other : String) (missing : List String) {premises : List Atom}
      → common_premises s other missing ≡ ok (some premises)
      → All (MarkHolds g) premises
  unfolding common_premises
  common_premises-All other missing {premises} h =
      let (xs, e, rest) = >>=-eq-ok (subscript other s.candidate_domains) _ h in
      elim (if-cases (is_single xs) _ _ rest) [
        | inl (one, last) ↦
            let (a, f, done) = >>=-eq-ok (assignment_premise s other) _ last in
            let holds =
              assignment_premise-Holds other xs (subscript-lookup other s.candidate_domains e) one
                f in
            subst (All (MarkHolds g)) (some_injective (ok-injective done)) (holds, tt)
        | inr (many, last) ↦ disclosed-All other (sort_texts missing) (ok-injective last)
      ]

  equal_side-Follows :
      (common : List String) (v : String) (values : List String) (other : String)
      {found : List RuleConclusion}
      → Has common (g.row v)
      → g.row v ≡ g.row other
      → equal_side s common v values other ≡ ok found
      → All (Follows g) found
  unfolding equal_side
  equal_side-Follows common v values other {found} m same h =
      elim (if-cases (ltb 1 (length values) && is_single common) _ _ h) [
        | inl (one, last) ↦
            let (premises, e, rest) =
              >>=-eq-ok (common_premises s other (difference values common)) _ last in
            let (x, f, done) = >>=-eq-ok (first_value common) _ rest in
            let row = single-row common x (g.row v) (ground arith) f m in
            elim (match-cases premises [] (λ ps. (assignment v x, ps) ∷ []) (ok-injective done)) [
              | inl (none_there, k) ↦ subst (All (Follows g)) k tt
              | inr (ps, there, k) ↦
                  let holds =
                    common_premises-All other (difference values common) (e ∙ ap ok there) in
                  subst (All (Follows g)) k ((sym row, holds), tt)
            ]
        | inr (many, last) ↦ elim (if-cases (ltb 1 (length common)) _ _ last) [
          | inl (some_common, k) ↦
              subst (All (Follows g)) (ok-injective k)
                (absent_values-Follows v other (sort_texts (difference values common)) same)
          | inr (few, k) ↦ subst (All (Follows g)) (ok-injective k) tt
        ]
      ]

  differ_side-Follows :
      (fixed_id target_id : String) {found : List RuleConclusion}
      → g.row fixed_id ≢ g.row target_id
      → differ_side s fixed_id target_id ≡ ok found
      → All (Follows g) found
  unfolding differ_side
  differ_side-Follows fixed_id target_id {found} differ h =
      let (fixed, e, h1) = >>=-eq-ok (subscript fixed_id s.candidate_domains) _ h in
      let (target, f, h2) = >>=-eq-ok (subscript target_id s.candidate_domains) _ h1 in
      let known = subscript-lookup fixed_id s.candidate_domains e in
      elim (if-cases (is_single fixed) _ _ h2) [
        | inl (one, h3) ↦
            let (x, at, h4) = >>=-eq-ok (first_value fixed) _ h3 in
            let (premise, p, h5) = >>=-eq-ok (assignment_premise s fixed_id) _ h4 in
            let row =
              single-row fixed x (g.row fixed_id) one at
                (allowed.candidates fixed_id fixed known) in
            let holds = assignment_premise-Holds fixed_id fixed known one p in
            elim (if-cases (contains target x && ltb 1 (length target)) _ _ (ok-injective h5)) [
              | inl (applies, k) ↦
                  subst (All (Follows g)) k
                    (((λ same. differ (sym row ∙ sym same)), (holds, tt)), tt)
              | inr (fails, k) ↦ subst (All (Follows g)) k tt
            ]
        | inr (many, k) ↦ subst (All (Follows g)) (ok-injective k) tt
      ]

  pub append-Follows :
      (cs ds : List RuleConclusion)
      → All (Follows g) cs
      → All (Follows g) ds
      → All (Follows g) (cs ++ ds)
  append-Follows [] ds h k = k
  append-Follows (c ∷ cs) ds h k = (h.0, append-Follows cs ds h.1 k)

  pub row-Has :
      (v : String) {xs : List String} → subscript v s.candidate_domains ≡ ok xs → Has xs (g.row v)
  row-Has v {xs} e = allowed.candidates v xs (subscript-lookup v s.candidate_domains e)

  equal-Follows :
      (v w : String) {found : List RuleConclusion}
      → g.row v ≡ g.row w
      → association_conclusions s (compared equal (variable_reference v) (variable_reference w))
        ≡ ok found
      → All (Follows g) found
  unfolding association_conclusions
  equal-Follows v w {found} same h =
      let (left, e, h1) = >>=-eq-ok (subscript v s.candidate_domains) _ h in
      let (right, f, h2) = >>=-eq-ok (subscript w s.candidate_domains) _ h1 in
      let common = intersection left right in
      let in_left = row-Has v e in
      let in_right = row-Has w f in
      let m : Has common (g.row v) =
        contains-intersection (g.row v) left right
        ∙ ground (arith, ap (contains right) same ∙ in_right) in
      let (first, a, h3) = >>=-eq-ok (equal_side s common v left w) _ h2 in
      let (second, b, h4) = >>=-eq-ok (equal_side s common w right v) _ h3 in
      subst (All (Follows g)) (ok-injective h4) (
        append-Follows first second (equal_side-Follows common v left w m same a)
          (equal_side-Follows common w right v (ap (contains common) (sym same) ∙ m) (sym same) b))

  differ-Follows :
      (v w : String) {found : List RuleConclusion}
      → g.row v ≢ g.row w
      → association_conclusions s (compared not_equal (variable_reference v) (variable_reference w))
        ≡ ok found
      → All (Follows g) found
  unfolding association_conclusions
  differ-Follows v w {found} differ h =
      let (left, e, h1) = >>=-eq-ok (subscript v s.candidate_domains) _ h in
      let (right, f, h2) = >>=-eq-ok (subscript w s.candidate_domains) _ h1 in
      let (first, a, h3) = >>=-eq-ok (differ_side s v w) _ h2 in
      let (second, b, h4) = >>=-eq-ok (differ_side s w v) _ h3 in
      subst (All (Follows g)) (ok-injective h4) (
        append-Follows first second (differ_side-Follows v w differ a)
          (differ_side-Follows w v (λ same. differ (sym same)) b))

-- If a clue holds of rows that the state still allows, then every conclusion that the rule of
-- association finds for it holds of them, and so do the premises that are named for it.
pub association_conclusions-Follows :
    (s : PuzzleState) (g : Grid) (e : BooleanExpression) {found : List RuleConclusion}
    → Allowed s g
    → Holds g e
    → association_conclusions s e ≡ ok found
    → All (Follows g) found
unfolding association_conclusions Holds
association_conclusions-Follows s g (compared equal (variable_reference v) (variable_reference w))
      allowed h k =
    equal-Follows s g allowed v w h k
association_conclusions-Follows s g
      (compared not_equal (variable_reference v) (variable_reference w)) allowed h k =
    differ-Follows s g allowed v w h k
association_conclusions-Follows s g _ allowed h k = subst (All (Follows g)) (ok-injective k) tt
