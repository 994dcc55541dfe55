-- ===== src/Families/LogicGrid/Specification/Ready.antt =====
-- What the validated specifications have: an anchor domain, givens and clues that can be checked.
use mathlib.Core.Path.{subst}
use deductra.Common.{
  ℕ, ◌+◌, String, ◌≡◌, ◌∙◌, ◌⊎◌, inl, inr, Bool, true, some, List, [], ◌∷◌, ◌++◌, map, arith,
  eqb_iff, Bool-cases, ◌==◌, string_eq, pair_eq, nat_eq, bool_eq, length, find, All, concat_map,
  All-map, Has, subset, same_set, Distinct, contains-append, subset_mem, subset_of, unique-Distinct,
  All-any, ok, raise_if-eq-ok, >>=-eq-ok, >>-eq-ok, Result-cases,
}
use deductra.Common.Dict.{keys, values}
use deductra.Common.Dict.Items.{contains-keys-dict_of-map}
use deductra.Domain.Atoms.{Atom, assignment, exclusion, atom_eq}
use deductra.Domain.Constraints.{Constraint, ConstraintKind}
use deductra.Domain.Expressions.{BooleanExpression}
use deductra.Domain.Values.{Domain, value_ids}
use deductra.Domain.Puzzle.{validate_references}
use deductra.Families.LogicGrid.Expressions.{validate_boolean_expression, referenced_variables}
use deductra.Families.LogicGrid.Specification.{
  LogicGridCategory, LogicGridSpec, anchor_category, anchor_domain, domains_by_id, variables_by_id,
  declared_variable_ids, validate_categories, validate_domains, validate_variables,
  validate_alignments,
}
use deductra.Families.LogicGrid.Specification.Clues.{
  validate_anchor_domain, all_different_of, arithmetic_of, contains_group, bad_group,
  validate_arithmetic, validate_constraints, validate_clues,
}
use deductra.Families.LogicGrid.Specification.Givens.{
  GivenMarks, check_known, normalize_givens, validate_givens,
}
use deductra.Families.LogicGrid.Specification.Kinds.{OfKind, constraints-OfKind}
use deductra.Families.LogicGrid.Specification.Contract.{
  validate_logic_grid_contract, validate_logic_grid_spec,
}

abbrev pub KnownMark : List String → Atom → Type 0
KnownMark variables (assignment v x) = Has variables v
KnownMark variables (exclusion v x) = Has variables v
KnownMark variables _ = ⊥

abbrev pub Checkable : List String → Domain → ConstraintKind → Type 0
Checkable variables anchor =
    OfKind (λ ids. subset ids variables ≡ true)
      (λ e. validate_boolean_expression variables anchor e ≡ ok tt)

pub record IsReady (p : LogicGridSpec) : Type 0 where
  pub anchor : Domain
  pub found : anchor_domain p ≡ ok anchor
  pub distinct : Distinct (value_ids anchor)
  pub givens : All (KnownMark (keys (variables_by_id p))) p.base.givens
  pub constraints : All (λ c. Checkable (keys (variables_by_id p)) anchor c.kind) p.base.constraints

module _ {ℓ κ} {A : Type ℓ} (Q : A → Type κ) (test : A → Bool) where
  All-find : (xs : List A) {a : A} → All Q xs → find test xs ≡ some a → Q a
  All-find [] h e = cc
  All-find (x ∷ xs) {a} h e = elim (Bool-cases (test x)) [
    | inl t ↦ let same : x ≡ a = ground arith in subst Q same h.0
    | inr t ↦ All-find xs h.1 (ground arith)
  ]

Distinct-append : (xs ys : List String) → Distinct (xs ++ ys) → Distinct xs × Distinct ys
Distinct-append [] ys h = (tt, h)
Distinct-append (x ∷ xs) ys h =
    let (dx, dy) = Distinct-append xs ys h.1 in ((ground (arith, contains-append x xs ys), dx), dy)

Distinct-concat_map :
    {A : Type 0} (f : A → List String) (xs : List A)
    → Distinct (concat_map f xs)
    → All (λ x. Distinct (f x)) xs
Distinct-concat_map f [] h = tt
Distinct-concat_map f (x ∷ xs) h =
    let (dx, dy) = Distinct-append (f x) (concat_map f xs) h in (dx, Distinct-concat_map f xs dy)

check_known-Has :
    (variables values : List String) (seen : List Atom) (a : Atom) (v x : String)
    → check_known variables values seen a v x ≡ ok tt
    → Has variables v
unfolding check_known
check_known-Has variables values seen a v x h = ground arith

normalize_givens-KnownMark :
    (variables values : List String) (givens : List Atom) (marks : GivenMarks) {result : GivenMarks}
    → normalize_givens variables values marks givens ≡ ok result
    → All (KnownMark variables) givens
unfolding normalize_givens check_known
normalize_givens-KnownMark vs xs [] marks h = tt
normalize_givens-KnownMark vs xs (assignment v x ∷ givens) marks h =
    let (checked, rest) = >>-eq-ok (check_known vs xs marks.normalized (assignment v x) v x) _ h in
    let (fresh, more) = raise_if-eq-ok _ _ _ rest in
    (
      check_known-Has vs xs marks.normalized (assignment v x) v x checked,
      normalize_givens-KnownMark vs xs givens _ more,
    )
normalize_givens-KnownMark vs xs (exclusion v x ∷ givens) marks h =
    let (checked, rest) = >>-eq-ok (check_known vs xs marks.normalized (exclusion v x) v x) _ h in
    (
      check_known-Has vs xs marks.normalized (exclusion v x) v x checked,
      normalize_givens-KnownMark vs xs givens _ rest,
    )
normalize_givens-KnownMark vs xs (_ ∷ givens) marks h = cc

validate_arithmetic-All :
    (variables : List String) (anchor : Domain) (clues : List (Constraint × BooleanExpression))
    → validate_arithmetic variables anchor clues ≡ ok tt
    → All (λ (c, e). validate_boolean_expression variables anchor e ≡ ok tt) clues
unfolding validate_arithmetic
validate_arithmetic-All variables anchor [] h = tt
validate_arithmetic-All variables anchor ((c, e) ∷ cs) h =
    let (valid, rest) = >>-eq-ok (validate_boolean_expression variables anchor e) _ h in
    let (references, found, more) = >>=-eq-ok (referenced_variables e) _ rest in
    let (some_reference, last) = raise_if-eq-ok _ _ _ more in
    (valid, validate_arithmetic-All variables anchor cs last)

groups_known :
    (variables : List String) (categories : List LogicGridCategory) (ids : List String)
    → subset (concat_map (λ c. c.variable_ids) categories) variables ≡ true
    → contains_group (map (λ c. c.variable_ids) categories) ids ≡ true
    → subset ids variables ≡ true
groups_known variables [] ids s h = cc
groups_known variables (c ∷ cs) ids s h =
    let own = c.variable_ids in
    let others = concat_map (λ c. c.variable_ids) cs in
    let inner : (a : String) → Has own a ⊎ Has others a → Has variables a = λ a m.
      subset_mem a (own ++ others) variables s (ground (arith, contains-append a own others, m)) in
    elim (Bool-cases (same_set ids own)) [
      | inl e ↦
          subset_of ids variables (λ a m. inner a (inl (subset_mem a ids own (ground arith) m)))
      | inr e ↦
          groups_known variables cs ids (subset_of others variables (λ a m. inner a (inr m)))
            (ground arith)
    ]

KnownMark-subset :
    (vs ws : List String)
    → ((a : String) → Has vs a → Has ws a)
    → (givens : List Atom) → All (KnownMark vs) givens
    → All (KnownMark ws) givens
KnownMark-subset vs ws h [] k = tt
KnownMark-subset vs ws h (assignment v x ∷ givens) k =
    (h v k.0, KnownMark-subset vs ws h givens k.1)
KnownMark-subset vs ws h (exclusion v x ∷ givens) k = (h v k.0, KnownMark-subset vs ws h givens k.1)
KnownMark-subset vs ws h (_ ∷ givens) k = absurd k.0

-- The parts of the validator that passed.
record Passed (p : LogicGridSpec) : Type 0 where
  size : ℕ
  anchors : LogicGridCategory × Domain
  domains : validate_domains p ≡ ok size
  variables : validate_variables p size ≡ ok anchors
  constraints : validate_constraints p (keys (variables_by_id p)) ≡ ok tt
  givens : validate_givens p anchors.0 anchors.1 ≡ ok tt

validate-Passed : (p : LogicGridSpec) → validate_logic_grid_spec p ≡ ok tt → Passed p
unfolding validate_logic_grid_spec validate_logic_grid_contract
validate-Passed p h =
    let (references, h1) = >>-eq-ok (validate_references p.base) _ h in
    let (categories, h2) = >>-eq-ok (validate_categories p) _ h1 in
    let (size, domains, h3) = >>=-eq-ok (validate_domains p) _ h2 in
    let (anchors, variables, h4) = >>=-eq-ok (validate_variables p size) _ h3 in
    let (aligned, h5) =
      >>-eq-ok (validate_alignments (domains_by_id p) (variables_by_id p) p.categories) _ h4 in
    let (anchor, h6) = >>-eq-ok (validate_anchor_domain anchors.1) _ h5 in
    let (constraints, h7) = >>-eq-ok (validate_constraints p (keys (variables_by_id p))) _ h6 in
    let (clues, givens) = >>-eq-ok (validate_clues p) _ h7 in
    record {
      size = size;
      anchors = anchors;
      domains = domains;
      variables = variables;
      constraints = constraints;
      givens = givens;
    }

module _ (p : LogicGridSpec) (passed : Passed p) where
  open passed use {size, anchors, domains, variables, constraints, givens}

  values-Distinct : All (λ d. Distinct (value_ids d)) p.base.domains
  unfolding validate_domains
  values-Distinct =
      Distinct-concat_map value_ids p.base.domains
        ((unique-Distinct (concat_map value_ids p.base.domains)).0 (ground arith))

  declared_known : subset (declared_variable_ids p) (keys (variables_by_id p)) ≡ true
  unfolding validate_variables
  declared_known = ground arith

  givens_known : All (KnownMark (keys (variables_by_id p))) p.base.givens
  unfolding validate_givens
  givens_known =
      let (marks, normalized, rest) = >>=-eq-ok (normalize_givens _ _ _ _) _ givens in
      KnownMark-subset (map (λ v. v.variable_id) p.base.variables) (keys (variables_by_id p))
        (λ a m. contains-keys-dict_of-map a (λ v. v.variable_id) (λ v. v) p.base.variables ∙ m)
        p.base.givens (normalize_givens-KnownMark _ _ _ _ normalized)

  anchor_checked :
      (anchor : Domain) × (anchor_domain p ≡ ok anchor)
      × (validate_arithmetic (keys (variables_by_id p)) anchor (arithmetic_of p.base.constraints)
          ≡ ok tt)
  unfolding validate_constraints
  anchor_checked = elim (Result-cases (anchor_domain p)) [
    | inl (anchor, e) ↦ (anchor, e, ground arith)
    | inr (error, e) ↦ absurd (ground arith)
  ]

  groups_checked :
      All
        (λ (c, ids). contains_group (map (λ c. c.variable_ids) p.categories) ids ≡ true)
        (all_different_of p.base.constraints)
  unfolding validate_constraints
  groups_checked =
      All-map (λ (c, ids) bad. ground arith) (all_different_of p.base.constraints)
        (All-any (bad_group (map (λ c. c.variable_ids) p.categories))
          (all_different_of p.base.constraints) (ground arith))

  anchor-Distinct : (anchor : Domain) → anchor_domain p ≡ ok anchor → Distinct (value_ids anchor)
  unfolding anchor_domain
  anchor-Distinct anchor found =
      let (category, first, rest) = >>=-eq-ok (anchor_category p) _ found in
      let at : String → Domain → Bool = λ i d. d.domain_id == i in
      let e : find (at category.domain_id) p.base.domains ≡ some anchor = ground arith in
      All-find (λ d. Distinct (value_ids d)) (at category.domain_id) p.base.domains values-Distinct
        e

  counted :
      length (all_different_of p.base.constraints) + length (arithmetic_of p.base.constraints)
      ≡ length p.base.constraints
  unfolding validate_constraints
  counted = (eqb_iff _ _).0 (ground arith)

  ready : IsReady p
  unfolding validate_constraints
  ready =
      let different = all_different_of p.base.constraints in
      let (anchor, found, h6) = anchor_checked in
      let known =
        All-map
          (λ (c, ids) bad.
            groups_known (keys (variables_by_id p)) p.categories ids declared_known bad)
          different groups_checked in
      record {
        anchor = anchor;
        found = found;
        distinct = anchor-Distinct anchor found;
        givens = givens_known;
        constraints =
            constraints-OfKind (λ ids. subset ids (keys (variables_by_id p)) ≡ true)
              (λ e. validate_boolean_expression (keys (variables_by_id p)) anchor e ≡ ok tt)
              p.base.constraints counted known
              (validate_arithmetic-All (keys (variables_by_id p)) anchor
                (arithmetic_of p.base.constraints) h6);
      }

pub validate_logic_grid_spec-IsReady :
    (p : LogicGridSpec) → validate_logic_grid_spec p ≡ ok tt → IsReady p
validate_logic_grid_spec-IsReady p h = ready p (validate-Passed p h)
