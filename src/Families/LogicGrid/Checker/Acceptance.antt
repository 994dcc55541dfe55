-- ===== src/Families/LogicGrid/Checker/Acceptance.antt =====
-- A validated puzzle is checked without an exception, and accepted are exactly its solutions.
use deductra.Common.{
  String, ◌<>◌, ◌≡◌, refl, ap, ◌∙◌, ◌≢◌, ◌↔◌, inl, inr, true, List, [], ◌∷◌, ◌++◌, map, arith, eqb,
  if◌then◌else◌, Bool-cases, ◌==◌, string_eq, pair_eq, nat_eq, bool_eq, length, All, All-map,
  from_keys, subset, unique, Distinct, unique-Distinct, Result, ok,
}
use deductra.Common.Int.{ℤ}
use deductra.Common.Dict.{Dict, keys, subscript, contains-keys}
use deductra.Domain.Atoms.{Atom, assignment, exclusion, atom_eq}
use deductra.Domain.Constraints.{Constraint, ConstraintKind, all_different, arithmetic}
use deductra.Domain.Expressions.{Number}
use deductra.Domain.Values.{Domain}
use deductra.Families.LogicGrid.Evaluation.{checker_errors}
use deductra.Families.LogicGrid.Evaluation.Meaning.{Grid, Holds}
use deductra.Families.LogicGrid.Evaluation.Tells.{Decided}
use deductra.Families.LogicGrid.Evaluation.Comparisons.{IsTable}
use deductra.Families.LogicGrid.Evaluation.Decides.{boolean-Decided}
use deductra.Families.LogicGrid.Specification.{LogicGridSpec, anchor_domain, variables_by_id}
use deductra.Families.LogicGrid.Specification.Contract.{validate_logic_grid_spec}
use deductra.Families.LogicGrid.Specification.Ready.{
  KnownMark, Checkable, IsReady, validate_logic_grid_spec-IsReady,
}
use deductra.Families.LogicGrid.Checker.{
  LogicGridSolutionCheck, ordinals_of, numeric_values_of, anchor_semantics, row_violations,
  given_violations, selected, constraint_holds, clue_violations, rejected_with, check_rows,
  check_placed, check_logic_grid_solution,
}
use deductra.Families.LogicGrid.Checker.Anchors.{grid_of, grid_of-IsTable}
use deductra.Families.LogicGrid.Checker.Placement.{
  IsComplete, row_violations-IsComplete, row_violations_lem,
}

abbrev pub MarkHolds : Grid → Atom → Type 0
MarkHolds g (assignment v x) = g.row v ≡ x
MarkHolds g (exclusion v x) = g.row v ≢ x
MarkHolds g _ = Unit

abbrev pub ConstraintHolds : Grid → ConstraintKind → Type 0
ConstraintHolds g (all_different ids) = Distinct (map g.row ids)
ConstraintHolds g (arithmetic e) = Holds g e
ConstraintHolds g _ = Unit

-- Every variable has one row, and the givens, the groups and the clues hold.
pub record IsSolution (p : LogicGridSpec) (anchor : Domain) (entries : List (String × String))
    : Type 0 where
  pub complete : IsComplete p anchor entries
  pub givens : All (MarkHolds (grid_of anchor entries)) p.base.givens
  pub constraints : All (λ c. ConstraintHolds (grid_of anchor entries) c.kind) p.base.constraints

-- Violations that are reported, none of them exactly when the proposition holds.
abbrev Reports : Type 0 → Result (List String) → Type 0
Reports P r = (bad : List String) × (r ≡ ok bad) × ((bad ≡ []) ↔ P)

module _ (g : Grid) (variables : List String) (anchor : Domain) (assignments : Dict String)
    (ordinals : Dict ℤ) (numbers : Dict Number)
    (table : IsTable g variables anchor assignments ordinals numbers) where
  given-Reports :
      (givens : List Atom)
      → All (KnownMark variables) givens
      → Reports (All (MarkHolds g) givens) (given_violations assignments givens)
  unfolding given_violations subscript
  given-Reports [] k = ([], refl, (λ h. tt, λ h. refl))
  given-Reports (assignment v x ∷ givens) k =
      let (bad, e, t) = given-Reports givens k.1 in
      (
        if g.row v == x then bad else ("given_failed:assignment:" <> v) ∷ bad,
        cc (table.rows v k.0, e),
        ground arith,
      )
  given-Reports (exclusion v x ∷ givens) k =
      let (bad, e, t) = given-Reports givens k.1 in
      (
        if g.row v == x then ("given_failed:exclusion:" <> v) ∷ bad else bad,
        cc (table.rows v k.0, e),
        ground arith,
      )
  given-Reports (_ ∷ givens) k = absurd k.0

  selected_lem :
      (ids : List String)
      → subset ids variables ≡ true
      → selected assignments ids ≡ ok (map g.row ids)
  unfolding selected subset subscript
  selected_lem [] h = refl
  selected_lem (v ∷ ids) h =
      ground (arith, table.rows v (ground arith), selected_lem ids (ground arith))

  constraint-Decided :
      (k : ConstraintKind)
      → Checkable variables anchor k
      → Decided (ConstraintHolds g k) (constraint_holds assignments ordinals numbers k)
  unfolding constraint_holds
  constraint-Decided (all_different ids) h =
      (unique (map g.row ids), cc (selected_lem ids h), unique-Distinct (map g.row ids))
  constraint-Decided (arithmetic e) h =
      boolean-Decided checker_errors g variables anchor assignments ordinals numbers table e h
  constraint-Decided _ h = absurd h

  clue-Reports :
      (cs : List Constraint)
      → All (λ c. Checkable variables anchor c.kind) cs
      → Reports
          (All (λ c. ConstraintHolds g c.kind) cs)
          (clue_violations assignments ordinals numbers cs)
  unfolding clue_violations
  clue-Reports [] h = ([], refl, (λ h. tt, λ h. refl))
  clue-Reports (c ∷ cs) h =
      let (holds, f, u) = constraint-Decided c.kind h.0 in
      let (bad, e, t) = clue-Reports cs h.1 in
      (
        if holds then bad else ("constraint_failed:" <> c.constraint_id) ∷ bad,
        cc (f, e),
        ground arith,
      )

pub from_keys-nil : (xs : List String) → (eqb (length (from_keys xs)) 0 ≡ true) ↔ (xs ≡ [])
unfolding from_keys
from_keys-nil [] = (λ h. refl, λ h. refl)
from_keys-nil (x ∷ xs) = (λ h. absurd (ground arith), λ h. cc)

append-nil_both : (xs ys : List String) → (xs ++ ys ≡ []) ↔ ((xs ≡ []) × (ys ≡ []))
append-nil_both [] ys = (λ h. (refl, h), λ h. h.1)
append-nil_both (x ∷ xs) ys = (λ h. cc, λ h. cc)

-- The check of a complete assignment returns, and accepts if the givens and the constraints hold.
check_rows_lem :
    (p : LogicGridSpec) (ready : IsReady p) (entries : List (String × String))
    → IsComplete p ready.anchor entries
    → (r : LogicGridSolutionCheck) × (check_rows p entries ≡ ok r)
      × ((r.accepted ≡ true) ↔ IsSolution p ready.anchor entries)
unfolding check_rows anchor_semantics
check_rows_lem p ready entries complete =
    let variables = keys (variables_by_id p) in
    let anchor = ready.anchor in
    let g = grid_of anchor entries in
    let ordinals = ordinals_of 1 [] anchor.values in
    let numbers = numeric_values_of [] anchor.values in
    let table =
      grid_of-IsTable variables anchor entries ready.distinct
        (λ v k. (contains-keys v entries).0 (complete.1 v k))
        (All-map (λ entry k. k.1) entries complete.0.0) in
    let (failed, e, t) =
      given-Reports g variables anchor entries ordinals numbers table p.base.givens ready.givens in
    let (broken, f, u) =
      clue-Reports g variables anchor entries ordinals numbers table p.base.constraints
        ready.constraints in
    (
      record {
        accepted = eqb (length (from_keys (failed ++ broken))) 0;
        violations = from_keys (failed ++ broken);
      },
      cc (e, f, ready.found),
      (
        λ a.
            let (none_failed, none_broken) =
              (append-nil_both failed broken).0 ((from_keys-nil (failed ++ broken)).0 a) in
            record { complete = complete; givens = t.0 none_failed; constraints = u.0 none_broken },
        λ s.
            (from_keys-nil (failed ++ broken)).1
              ((append-nil_both failed broken).1 (t.1 s.givens, u.1 s.constraints)),
      ),
    )

pub length-nil : (xs : List String) → (eqb (length xs) 0 ≡ true) ↔ (xs ≡ [])
length-nil [] = (λ h. refl, λ h. refl)
length-nil (x ∷ xs) = (λ h. absurd (ground arith), λ h. cc)

check_of_found :
    (p : LogicGridSpec) (entries : List (String × String)) {anchor : Domain}
    → anchor_domain p ≡ ok anchor
    → check_logic_grid_solution p entries ≡ check_placed p (row_violations p anchor entries)
unfolding check_logic_grid_solution
check_of_found p entries found = ground arith

check_lem :
    (p : LogicGridSpec) (ready : IsReady p) (entries : List (String × String))
    → (r : LogicGridSolutionCheck) × (check_logic_grid_solution p entries ≡ ok r)
      × ((r.accepted ≡ true) ↔ IsSolution p ready.anchor entries)
unfolding check_placed
check_lem p ready entries =
    let anchor = ready.anchor in
    let seen = row_violations p anchor entries in
    elim (Bool-cases (eqb (length seen.violations) 0)) [
      | inl e ↦
          let complete =
            row_violations-IsComplete p anchor entries ((length-nil seen.violations).0 e) in
          let (r, checked, t) = check_rows_lem p ready entries complete in
          let kept = row_violations_lem p anchor entries complete in
          (r, check_of_found p entries ready.found ∙ (ap (check_placed p) kept ∙ checked), t)
      | inr e ↦ (
        rejected_with seen.violations,
        check_of_found p entries ready.found ∙ ground arith,
        (
          λ a. absurd (ground arith),
          λ s.
              let none_there =
                ap (λ placed. placed.violations) (row_violations_lem p anchor entries s.complete) in
              absurd (ground (arith, (length-nil seen.violations).1 none_there)),
        ),
      )
    ]

-- The check of a validated puzzle returns, for any entries: it raises nothing, and accepts exactly
-- the solutions, in which every variable has one row of the anchor, and the givens, the
-- all-different groups and the clues hold.
pub check_logic_grid_solution-IsSolution :
    (p : LogicGridSpec) (entries : List (String × String))
    → validate_logic_grid_spec p ≡ ok tt
    → (anchor : Domain) × (r : LogicGridSolutionCheck) × (anchor_domain p ≡ ok anchor)
      × (check_logic_grid_solution p entries ≡ ok r)
      × ((r.accepted ≡ true) ↔ IsSolution p anchor entries)
check_logic_grid_solution-IsSolution p entries h =
    let ready = validate_logic_grid_spec-IsReady p h in
    let (r, e, t) = check_lem p ready entries in (ready.anchor, r, ready.found, e, t)
