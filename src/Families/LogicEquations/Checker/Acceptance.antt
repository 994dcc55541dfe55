-- ===== src/Families/LogicEquations/Checker/Acceptance.antt =====
-- A validated puzzle over integers is checked without an exception, and accepted are exactly the
-- assignments that solve it.
use mathlib.Core.Option
use deductra.Common.{
  String, ◌<>◌, ◌≡◌, refl, sym, ap, ◌∙◌, ◌↔◌, ◌⊎◌, inl, inr, Bool, true, false, none, some, List,
  [], ◌∷◌, map, arith, eqb, if◌then◌else◌, Bool-cases, Option-cases, string_eq, pair_eq, nat_eq,
  bool_eq, length, all, All, All-map, Has, from_keys, subset, unique, Distinct, unique-Distinct,
  index_error, err, ok, ◌>>=◌, ok-injective, Result-cases,
}
use deductra.Common.Int.{ℤ, pos}
use deductra.Common.Dict.{
  Dict, keys, lookup, insert, dict_of, subscript, contains-keys, map_values, lookup-map_values,
}
use deductra.Common.Dict.Items.{contains-keys-dict_of-map, All-lookup, All-insert}
use deductra.Domain.Expressions.{int, fraction}
use deductra.Domain.Constraints.{Constraint, ConstraintKind, all_different, arithmetic}
use deductra.Domain.Values.{DomainValue, Domain}
use deductra.Families.LogicGrid.Evaluation.Tells.{Decided}
use deductra.Families.LogicGrid.Specification.Kinds.{OfKind}
use deductra.Families.LogicGrid.Checker.{selected}
use deductra.Families.LogicGrid.Checker.Placement.{
  report_of, PlacesAll, report_of-PlacesAll, report_of_lem,
}
use deductra.Families.LogicGrid.Checker.Acceptance.{from_keys-nil, length-nil}
use deductra.Families.LogicEquations.Specification.{
  LogicEquationsSpec, value_domain, variable_ids_of, validate_logic_equations_spec,
}
use deductra.Families.LogicEquations.Specification.Ready.{
  KnownGroup, ValidEquation, IsSolvable, validate_logic_equations_spec-IsSolvable,
}
use deductra.Families.LogicEquations.Evaluation.Meaning.{HoldsOf}
use deductra.Families.LogicEquations.Evaluation.Decides.{truth-Decided}
use deductra.Families.LogicEquations.Checker.{
  LogicEquationsSolutionCheck, values_by_id, assignment_violations, integer_of, numeric_assignments,
  equation_holds, failed_constraints, check_equations, check_assigned,
  check_logic_equations_solution,
}

abbrev pub is_integer : DomainValue → Bool
is_integer v = elim v.numeric_value [
  | some n ↦ elim n [ int z ↦ true | fraction z d ↦ false ]
  | none ↦ false
]

-- Every value of the puzzle is given by an integer, and not by a fraction equal to one.
abbrev pub has_integers : LogicEquationsSpec → Bool
has_integers p = all (λ d. all is_integer d.values) p.domains

abbrev integer_or_zero : DomainValue → ℤ
integer_or_zero v = elim v.numeric_value [
  | some n ↦ elim n [ int z ↦ z | fraction z d ↦ pos 0 ]
  | none ↦ pos 0
]

-- The integer of a value.
abbrev pub integer_at : Domain → String → ℤ
integer_at d x = elim (lookup x (values_by_id d)) [ some v ↦ integer_or_zero v | none ↦ pos 0 ]

-- The value of a variable, or the empty text.
abbrev pub value_of : List (String × String) → String → String
value_of entries v = Option.get_or (lookup v entries) ""

abbrev pub EquationHolds : Domain → List (String × String) → ConstraintKind → Type 0
EquationHolds d entries (all_different ids) = Distinct (map (value_of entries) ids)
EquationHolds d entries (arithmetic e) = HoldsOf (λ v. integer_at d (value_of entries v)) e
EquationHolds d entries _ = Unit

-- Each variable has one value of the domain, and the constraints hold of them.
pub record IsAnswer (p : LogicEquationsSpec) (d : Domain) (entries : List (String × String))
    : Type 0 where
  pub complete :
      PlacesAll
        (keys (dict_of [] (map (λ v. (v.variable_id, v)) p.variables)))
        (keys (values_by_id d))
        entries
  pub constraints : All (λ c. EquationHolds d entries c.kind) p.constraints

All-dict_of :
    {V : Type 0} (Q : String × V → Type 0) (d kvs : Dict V)
    → All Q d
    → All Q kvs
    → All Q (dict_of d kvs)
unfolding dict_of
All-dict_of Q d [] h k = h
All-dict_of Q d ((j, v) ∷ kvs) h k = All-dict_of Q (insert j v d) kvs (All-insert Q j v d k.0 h) k.1

abbrev IsInteger : String × DomainValue → Type 0
IsInteger (x, v) = is_integer v ≡ true

values-IsInteger :
    (vs : List DomainValue)
    → all is_integer vs ≡ true
    → All IsInteger (map (λ v. (v.value_id, v)) vs)
values-IsInteger [] h = tt
values-IsInteger (v ∷ vs) h = (ground arith, values-IsInteger vs (ground arith))

integer_of_lem : (v : DomainValue) → is_integer v ≡ true → integer_of v ≡ ok (integer_or_zero v)
unfolding integer_of
integer_of_lem v h = elim (Option-cases v.numeric_value) [
  | inl e ↦ absurd (ground arith)
  | inr (int z, e) ↦ rw e refl
  | inr (fraction z d, e) ↦ absurd (ground arith)
]

module _ (d : Domain) (integers : all is_integer d.values ≡ true) where
  integer_at_lem :
      (x : String)
      → Has (keys (values_by_id d)) x
      → (do value ← subscript x (values_by_id d); integer_of value) ≡ ok (integer_at d x)
  unfolding subscript
  integer_at_lem x k = elim (Option-cases (lookup x (values_by_id d))) [
    | inl e ↦ absurd ((contains-keys x (values_by_id d)).0 k e)
    | inr (v, e) ↦
        let found =
          All-lookup IsInteger x v (values_by_id d)
            (All-dict_of IsInteger [] _ tt (values-IsInteger d.values integers)) e in
        cc (e, integer_of_lem v found)
  ]

  -- The integers of a placement's values.
  abbrev integers_at : Dict String → Dict ℤ
  integers_at = map_values (integer_at d)

  numeric_assignments_lem :
      (entries : Dict String)
      → All (λ (v, x). Has (keys (values_by_id d)) x) entries
      → numeric_assignments (values_by_id d) entries ≡ ok (integers_at entries)
  unfolding numeric_assignments map_values
  numeric_assignments_lem [] h = refl
  numeric_assignments_lem ((v, x) ∷ entries) h =
      let at = integer_at_lem x h.0 in
      elim (Result-cases (subscript x (values_by_id d))) [
        | inl (value, e) ↦ cc (e, at, numeric_assignments_lem entries h.1)
        | inr (raised, e) ↦ cc (e, at)
      ]

  module _ (variables : List String) (entries : Dict String)
      (complete : (v : String) → Has variables v → Has (keys entries) v)
      (placed : All (λ (v, x). Has (keys (values_by_id d)) x) entries) where
    value_of_lem : (v : String) → Has variables v → lookup v entries ≡ some (value_of entries v)
    value_of_lem v k = elim (Option-cases (lookup v entries)) [
      | inl e ↦ absurd ((contains-keys v entries).0 (complete v k) e)
      | inr (x, e) ↦ ground arith
    ]

    integers_at_lem :
        (v : String)
        → Has variables v
        → lookup v (integers_at entries) ≡ some (integer_at d (value_of entries v))
    integers_at_lem v k =
        lookup-map_values (integer_at d) v entries
        ∙ ap (Option.map (integer_at d)) (value_of_lem v k)

    selected_known :
        (ids : List String)
        → subset ids variables ≡ true
        → selected entries ids ≡ ok (map (value_of entries) ids)
    unfolding selected subset subscript
    selected_known [] h = refl
    selected_known (v ∷ ids) h =
        ground (arith, value_of_lem v (ground arith), selected_known ids (ground arith))

    equation-Decided :
        (k : ConstraintKind)
        → OfKind (KnownGroup variables) (ValidEquation variables) k
        → Decided (EquationHolds d entries k) (equation_holds entries (integers_at entries) k)
    unfolding equation_holds
    equation-Decided (all_different ids) h = (
      unique (map (value_of entries) ids),
      cc (selected_known ids h),
      unique-Distinct (map (value_of entries) ids),
    )
    equation-Decided (arithmetic e) h =
        truth-Decided (λ v. integer_at d (value_of entries v)) variables (integers_at entries)
          integers_at_lem e h
    equation-Decided _ h = absurd h

    equations-Reported :
        (cs : List Constraint)
        → All (λ c. OfKind (KnownGroup variables) (ValidEquation variables) c.kind) cs
        → (failed : List String) × (failed_constraints entries (integers_at entries) cs ≡ ok failed)
          × ((failed ≡ []) ↔ All (λ c. EquationHolds d entries c.kind) cs)
    unfolding failed_constraints
    equations-Reported [] h = ([], refl, (λ h. tt, λ h. refl))
    equations-Reported (c ∷ cs) h =
        let (holds, f, u) = equation-Decided c.kind h.0 in
        let (failed, e, t) = equations-Reported cs h.1 in
        (
          if holds then failed else ("constraint_failed:" <> c.constraint_id) ∷ failed,
          cc (f, e),
          ground arith,
        )

abbrev ids_of : LogicEquationsSpec → List String
ids_of p = keys (dict_of [] (map (λ v. (v.variable_id, v)) p.variables))

check_equations_lem :
    (p : LogicEquationsSpec) (ready : IsSolvable p) (entries : List (String × String))
    → all is_integer ready.domain.values ≡ true
    → PlacesAll (ids_of p) (keys (values_by_id ready.domain)) entries
    → (r : LogicEquationsSolutionCheck) × (check_equations p ready.domain entries ≡ ok r)
      × ((r.accepted ≡ true) ↔ IsAnswer p ready.domain entries)
unfolding check_equations
check_equations_lem p ready entries integers complete =
    let d = ready.domain in
    let placed = All-map (λ entry k. k.1) entries complete.0.0 in
    let (failed, e, t) =
      equations-Reported d integers (variable_ids_of p) entries
        (λ v k.
          complete.1 v (contains-keys-dict_of-map v (λ v. v.variable_id) (λ v. v) p.variables ∙ k))
        placed p.constraints ready.constraints in
    (
      record { accepted = eqb (length (from_keys failed)) 0; violations = from_keys failed },
      cc (e, numeric_assignments_lem d integers entries placed),
      (
        λ a. record { complete = complete; constraints = t.0 ((from_keys-nil failed).0 a) },
        λ s. (from_keys-nil failed).1 (t.1 s.constraints),
      ),
    )

equations_of_found :
    (p : LogicEquationsSpec) (entries : List (String × String)) {d : Domain}
    → value_domain p ≡ ok d
    → check_logic_equations_solution p entries
      ≡ check_assigned p d (assignment_violations p d entries)
unfolding check_logic_equations_solution
equations_of_found p entries found = ground arith

check_solvable :
    (p : LogicEquationsSpec) (ready : IsSolvable p) (entries : List (String × String))
    → all is_integer ready.domain.values ≡ true
    → (r : LogicEquationsSolutionCheck) × (check_logic_equations_solution p entries ≡ ok r)
      × ((r.accepted ≡ true) ↔ IsAnswer p ready.domain entries)
unfolding check_assigned assignment_violations
check_solvable p ready entries integers =
    let d = ready.domain in
    let value_keys = keys (values_by_id d) in
    let seen = report_of (ids_of p) value_keys entries in
    elim (Bool-cases (eqb (length seen.violations) 0)) [
      | inl e ↦
          let complete =
            report_of-PlacesAll (ids_of p) value_keys entries ((length-nil seen.violations).0 e) in
          let (r, checked, t) = check_equations_lem p ready entries integers complete in
          let kept = report_of_lem (ids_of p) value_keys entries complete in
          (
            r,
            equations_of_found p entries ready.found ∙ (ap (check_assigned p d) kept ∙ checked),
            t,
          )
      | inr e ↦ (
        record { accepted = false; violations = from_keys seen.violations },
        equations_of_found p entries ready.found ∙ ground arith,
        (
          λ a. absurd (ground arith),
          λ s.
              let none_there =
                ap (λ placed. placed.violations)
                  (report_of_lem (ids_of p) value_keys entries s.complete) in
              absurd (ground (arith, (length-nil seen.violations).1 none_there)),
        ),
      )
    ]

first-cases :
    (ds : List Domain) → (ds ≡ []) ⊎ ((d : Domain) × (rest : List Domain) × (ds ≡ d ∷ rest))
first-cases [] = inl refl
first-cases (d ∷ rest) = inr (d, rest, refl)

domain-integers :
    (p : LogicEquationsSpec) {d : Domain}
    → value_domain p ≡ ok d
    → has_integers p ≡ true
    → all is_integer d.values ≡ true
unfolding value_domain
domain-integers p found h = elim (first-cases p.domains) [
  | inl e ↦ absurd (ground arith)
  | inr (first, ds, e) ↦
      let same =
        ok-injective
          (ap (λ ds. elim ds [ [] ↦ err index_error | d ∷ ds ↦ ok d ]) (sym e) ∙ found) in
      ap (λ d. all is_integer d.values) (sym same) ∙ ground arith
]

-- If every value of a validated puzzle is given by an integer, then its check returns, for any
-- entries: it raises nothing, and accepts exactly the answers, in which every variable has one
-- value of the domain, and the all-different constraint and the equations hold.
pub check_logic_equations_solution-IsAnswer :
    (p : LogicEquationsSpec) (entries : List (String × String))
    → validate_logic_equations_spec p ≡ ok tt
    → has_integers p ≡ true
    → (d : Domain) × (r : LogicEquationsSolutionCheck) × (value_domain p ≡ ok d)
      × (check_logic_equations_solution p entries ≡ ok r)
      × ((r.accepted ≡ true) ↔ IsAnswer p d entries)
check_logic_equations_solution-IsAnswer p entries h integers =
    let ready = validate_logic_equations_spec-IsSolvable p h in
    let (r, e, t) = check_solvable p ready entries (domain-integers p ready.found integers) in
    (ready.domain, r, ready.found, e, t)
