-- ===== src/Families/LogicGrid/Rules/Completes.antt =====
-- What the rule that completes clues concludes holds in every solution that the state still allows.
use mathlib.Core.Path.{subst}
use deductra.Common.{
  String, ◌≡◌, refl, sym, ap, ◌∙◌, ◌≢◌, inl, inr, Bool, true, false, some, List, [], ◌∷◌, arith,
  ltb, if◌then◌else◌, Bool-cases, some_injective, string_dec, string_eq, pair_eq, nat_eq, bool_eq,
  length, All, contains, Has, difference, contains-difference, text_le, contains-sort_by,
  sort_texts, Result, ok, >>=-eq-ok, ok-injective,
}
use deductra.Common.Int.{ℤ}
use deductra.Common.Dict.{Dict, lookup, insert, subscript, lookup-insert}
use deductra.Domain.Atoms.{Atom, atom_eq}
use deductra.Domain.Expressions.{Number, BooleanExpression}
use deductra.Domain.Values.{Domain, value_ids}
use deductra.Reasoning.State.{PuzzleState}
use deductra.Families.LogicGrid.Expressions.{
  has_complete_numeric_values, validate_boolean_expression,
}
use deductra.Families.LogicGrid.Evaluation.Meaning.{Grid, Holds}
use deductra.Families.LogicGrid.Evaluation.Comparisons.{IsTable}
use deductra.Families.LogicGrid.Evaluation.Decides.{boolean-Decided}
use deductra.Families.LogicGrid.Checker.Acceptance.{MarkHolds}
use deductra.Families.LogicGrid.Rules.{
  LogicGridTechnique, first_value, RuleConclusion, is_single, assignment_premise,
}
use deductra.Families.LogicGrid.Rules.Follows.{
  Allowed, Follows, subscript-lookup, single-row, assignment_premise-Holds, row-Has,
}
use deductra.Families.LogicGrid.Rules.Completion.{
  rule_errors, evaluate_clue, boolean_variables, unresolved_of, fixed_assignments, fixed_premises,
  sort_out, completion_of, complete_clue, undecided_conclusions, clue_conclusions,
}

few-single :
    (xs : List String) (y : String) → Has xs y → ltb 1 (length xs) ≡ false → is_single xs ≡ true
unfolding contains
few-single [] y m h = cc
few-single (x ∷ []) y m h = refl
few-single (_ ∷ _ ∷ xs) y m h = absurd (ground arith)

module _ (holds : String → Result Bool) where
  sort_out-valid :
      (xs : List String) (y : String) {valid invalid : List String}
      → sort_out holds xs ≡ ok (valid, invalid)
      → Has xs y
      → holds y ≡ ok true
      → Has valid y
  unfolding sort_out contains
  sort_out-valid [] y h m t = cc
  sort_out-valid (x ∷ xs) y {valid} {invalid} h m t =
      let (b, e, h1) = >>=-eq-ok (holds x) _ h in
      let ((ys, zs), f, h2) = >>=-eq-ok (sort_out holds xs) _ h1 in
      let kept : (if b then (x ∷ ys, zs) else (ys, x ∷ zs)) ≡ (valid, invalid) = ok-injective h2 in
      elim (string_dec x y) [
        | yes same ↦
            let right : b ≡ true = ok-injective (sym e ∙ (ap holds same ∙ t)) in ground arith
        | no differ ↦
            let later = sort_out-valid xs y f (ground arith) t in
            elim (Bool-cases b) [ inl right ↦ ground arith | inr wrong ↦ ground arith ]
      ]

  sort_out-invalid :
      (xs : List String) (y : String) {valid invalid : List String}
      → sort_out holds xs ≡ ok (valid, invalid)
      → Has invalid y
      → holds y ≡ ok false
  unfolding sort_out contains
  sort_out-invalid [] y h m = let none_there : ([], []) ≡ (_, _) = ok-injective h in ground arith
  sort_out-invalid (x ∷ xs) y {valid} {invalid} h m =
      let (b, e, h1) = >>=-eq-ok (holds x) _ h in
      let ((ys, zs), f, h2) = >>=-eq-ok (sort_out holds xs) _ h1 in
      let kept : (if b then (x ∷ ys, zs) else (ys, x ∷ zs)) ≡ (valid, invalid) = ok-injective h2 in
      elim (Bool-cases b) [
        | inl right ↦ sort_out-invalid xs y f (ground arith)
        | inr wrong ↦ elim (string_dec x y) [
          | yes same ↦ ap holds (sym same) ∙ (e ∙ ap ok wrong)
          | no differ ↦ sort_out-invalid xs y f (ground arith)
        ]
      ]

module _ (s : PuzzleState) (g : Grid) (allowed : Allowed s g) where
  -- The items have one candidate each.
  abbrev AreDecided : List String → Type 0
  AreDecided vs =
      (w : String) (xs : List String)
      → Has vs w
      → lookup w s.candidate_domains ≡ some xs
      → is_single xs ≡ true

  unresolved_of-Decided :
      (vs us : List String) (w : String) (xs : List String)
      → unresolved_of s vs ≡ ok us
      → Has vs w
      → contains us w ≡ false
      → lookup w s.candidate_domains ≡ some xs
      → is_single xs ≡ true
  unfolding unresolved_of contains
  unresolved_of-Decided [] us w xs h m n found = cc
  unresolved_of-Decided (v ∷ vs) us w xs h m n found =
      let (ys, e, h1) = >>=-eq-ok (subscript v s.candidate_domains) _ h in
      let (rest, f, h2) = >>=-eq-ok (unresolved_of s vs) _ h1 in
      let kept : (if ltb 1 (length ys) then v ∷ rest else rest) ≡ us = ok-injective h2 in
      elim (string_dec v w) [
        | yes same ↦
            let at =
              sym (subscript-lookup v s.candidate_domains e)
              ∙ (ap (λ i. lookup i s.candidate_domains) same ∙ found) in
            let few : ltb 1 (length ys) ≡ false = ground arith in
            few-single xs (g.row w) (allowed.candidates w xs found)
              (ap (λ zs. ltb 1 (length zs)) (sym (some_injective at)) ∙ few)
        | no differ ↦ unresolved_of-Decided vs rest w xs f (ground arith) (ground arith) found
      ]

  fixed_assignments-rows :
      (vs : List String) {d : Dict String} (w : String)
      → AreDecided vs
      → fixed_assignments s vs ≡ ok d
      → Has vs w
      → lookup w d ≡ some (g.row w)
  unfolding fixed_assignments lookup contains
  fixed_assignments-rows [] w decided h m = cc
  fixed_assignments-rows (v ∷ vs) {d} w decided h m =
      let (xs, e, h1) = >>=-eq-ok (subscript v s.candidate_domains) _ h in
      let (x, f, h2) = >>=-eq-ok (first_value xs) _ h1 in
      let (rest, r, h3) = >>=-eq-ok (fixed_assignments s vs) _ h2 in
      let found = subscript-lookup v s.candidate_domains e in
      let row : x ≡ g.row v =
        single-row xs x (g.row v) (decided v xs (ground arith) found) f
          (allowed.candidates v xs found) in
      let kept : (v, x) ∷ rest ≡ d = ok-injective h3 in
      subst (λ d. lookup w d ≡ some (g.row w)) kept
        (elim (string_dec v w) [
          | yes same ↦ ground (arith, row, ap g.row same)
          | no differ ↦ ground (
            arith,
            fixed_assignments-rows vs w (λ u ys k. decided u ys (ground (arith, k))) r
                (ground arith),
          )
        ])

  premise-Holds :
      (v : String) {a : Atom}
      → assignment_premise s v ≡ ok a
      → ((xs : List String) → lookup v s.candidate_domains ≡ some xs → is_single xs ≡ true)
      → MarkHolds g a
  unfolding assignment_premise
  premise-Holds v h one =
      let (xs, e, rest) = >>=-eq-ok (subscript v s.candidate_domains) _ h in
      let found = subscript-lookup v s.candidate_domains e in
      assignment_premise-Holds s g allowed v xs found (one xs found) h

  fixed_premises-All :
      (vs : List String) {premises : List Atom}
      → AreDecided vs
      → fixed_premises s vs ≡ ok premises
      → All (MarkHolds g) premises
  unfolding fixed_premises contains
  fixed_premises-All [] decided h = subst (All (MarkHolds g)) (ok-injective h) tt
  fixed_premises-All (v ∷ vs) {premises} decided h =
      let (a, e, h1) = >>=-eq-ok (assignment_premise s v) _ h in
      let (rest, r, h2) = >>=-eq-ok (fixed_premises s vs) _ h1 in
      subst (All (MarkHolds g)) (ok-injective h2) (
        premise-Holds v e (λ xs. decided v xs (ground arith)),
        fixed_premises-All vs (λ u ys k. decided u ys (ground (arith, k))) r,
      )

  completion_of-Follows :
      (v : String) (premises : List Atom) (valid invalid : List String)
      → Has valid (g.row v)
      → ((z : String) → Has invalid z → g.row v ≢ z)
      → All (MarkHolds g) premises
      → All (Follows g) (completion_of v premises valid invalid)
  unfolding completion_of contains
  completion_of-Follows v premises [] invalid m n h = cc
  completion_of-Follows v premises (x ∷ []) invalid m n h = ((ground arith, h), tt)
  completion_of-Follows v premises (x ∷ y ∷ valid) [] m n h = tt
  completion_of-Follows v premises (x ∷ y ∷ valid) (z ∷ invalid) m n h = (
    (n z (ground arith), h),
    completion_of-Follows v premises (x ∷ y ∷ valid) invalid m (λ w k. n w (ground (arith, k))) h,
  )

-- The rows of the variables are values of the anchor, whose places and numbers the dicts have.
pub record IsAnchored (g : Grid) (variables : List String) (anchor : Domain) (ordinals : Dict ℤ)
    (numbers : Dict Number) : Type 0 where
  pub inside : (v : String) → Has variables v → Has (value_ids anchor) (g.row v)
  pub places : (x : String) → Has (value_ids anchor) x → lookup x ordinals ≡ some (g.place x)
  pub amounts :
      (x : String)
      → has_complete_numeric_values anchor ≡ true
      → Has (value_ids anchor) x
      → lookup x numbers ≡ some (g.amount x)

module _ (s : PuzzleState) (g : Grid) (allowed : Allowed s g) (e : BooleanExpression)
    (variables : List String) (v : String) (anchor : Domain) (ordinals : Dict ℤ)
    (numbers : Dict Number) (anchored : IsAnchored g variables anchor ordinals numbers)
    (valid : validate_boolean_expression variables anchor e ≡ ok tt)
    (single : unresolved_of s (sort_texts variables) ≡ ok (v ∷ [])) (holds : Holds g e) where
  others-Decided : AreDecided s g allowed (difference variables (v ∷ []))
  unfolding contains sort_texts
  others-Decided w xs m found =
      let part = sym (contains-difference w variables (v ∷ [])) ∙ m in
      let inside : Has (sort_texts variables) w =
        contains-sort_by text_le w variables ∙ ground arith in
      unresolved_of-Decided s g allowed (sort_texts variables) (v ∷ []) w xs single inside
        (ground arith) found

  -- The clue is true for the item's own row.
  own_row-true :
      {assignments : Dict String}
      → fixed_assignments s (difference variables (v ∷ [])) ≡ ok assignments
      → evaluate_clue (insert v (g.row v) assignments) ordinals numbers e ≡ ok true
  unfolding contains
  own_row-true {assignments} h =
      let trial = insert v (g.row v) assignments in
      let row : (w : String) → Has variables w → lookup w trial ≡ some (g.row w) = λ w m.
        lookup-insert v w (g.row v) assignments ∙ elim (string_dec v w) [
          | yes same ↦ ground (arith, ap g.row same)
          | no differ ↦
              let other : Has (difference variables (v ∷ [])) w =
                contains-difference w variables (v ∷ []) ∙ ground arith in
              let found =
                fixed_assignments-rows s g allowed (difference variables (v ∷ [])) w others-Decided
                  h other in
              ground (arith, found)
        ] in
      let table : IsTable g variables anchor trial ordinals numbers = record {
        rows = row;
        inside = anchored.inside;
        places = anchored.places;
        amounts = anchored.amounts;
      } in
      let (b, k, t) =
        boolean-Decided rule_errors g variables anchor trial ordinals numbers table e valid in
      k ∙ ap ok (t.1 holds)

  complete_clue-Follows :
      {found : List RuleConclusion}
      → complete_clue s ordinals numbers e v (difference variables (v ∷ [])) ≡ ok found
      → All (Follows g) found
  unfolding complete_clue sort_texts
  complete_clue-Follows {found} h =
      let fixed = difference variables (v ∷ []) in
      let (assignments, a, h1) = >>=-eq-ok (fixed_assignments s fixed) _ h in
      let (premises, p, h2) = >>=-eq-ok (fixed_premises s (sort_texts fixed)) _ h1 in
      let (xs, d, h3) = >>=-eq-ok (subscript v s.candidate_domains) _ h2 in
      let test : String → Result Bool =
        λ x. evaluate_clue (insert v x assignments) ordinals numbers e in
      let ((kept, dropped), o, h4) = >>=-eq-ok (sort_out test (sort_texts xs)) _ h3 in
      let own : Has (sort_texts xs) (g.row v) =
        contains-sort_by text_le (g.row v) xs ∙ row-Has s g allowed v d in
      let right = own_row-true a in
      let apart : (z : String) → Has dropped z → g.row v ≢ z = λ z m same.
        let wrong = sort_out-invalid test (sort_texts xs) z o m in
        cc (wrong, ap test same, right) in
      let decided : AreDecided s g allowed (sort_texts fixed) =
        λ w ys m. others-Decided w ys (sym (contains-sort_by text_le w fixed) ∙ m) in
      subst (All (Follows g)) (ok-injective h4) (
        completion_of-Follows s g allowed v premises kept dropped
          (sort_out-valid test (sort_texts xs) (g.row v) o own right) apart
          (fixed_premises-All s g allowed (sort_texts fixed) decided p))

-- If a clue holds of rows that the state still allows and that are values of the anchor, the clue is
-- valid for the variables it names, and one of these is undecided, then every conclusion that the
-- completion finds for the clue holds of the rows, and so do the premises that are named for it.
pub clue_conclusions-Follows :
    (s : PuzzleState) (g : Grid) (technique : LogicGridTechnique) (e : BooleanExpression)
    (variables : List String) (v : String) (anchor : Domain) (ordinals : Dict ℤ)
    (numbers : Dict Number) {found : List RuleConclusion}
    → Allowed s g
    → IsAnchored g variables anchor ordinals numbers
    → boolean_variables e ≡ ok variables
    → validate_boolean_expression variables anchor e ≡ ok tt
    → unresolved_of s (sort_texts variables) ≡ ok (v ∷ [])
    → Holds g e
    → clue_conclusions s ordinals numbers technique e ≡ ok found
    → All (Follows g) found
unfolding clue_conclusions undecided_conclusions
clue_conclusions-Follows s g technique e variables v anchor ordinals numbers allowed anchored named
      valid single holds h =
    let opened : clue_conclusions s ordinals numbers technique e
        ≡ undecided_conclusions s ordinals numbers technique e variables (v ∷ []) =
      cc (named, single) in
    complete_clue-Follows s g allowed e variables v anchor ordinals numbers anchored valid single
      holds (sym opened ∙ h)
