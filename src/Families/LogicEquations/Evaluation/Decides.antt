-- ===== src/Families/LogicEquations/Evaluation/Decides.antt =====
-- The evaluation of a validated clue returns, and returns whether the clue holds.
use mathlib.Core.Path.{subst}
use deductra.Common.{
  String, ◌≡◌, refl, sym, ◌↔◌, inl, inr, Bool, true, false, Option, none, some, List, arith,
  Bool-cases, some_injective, string_eq, pair_eq, nat_eq, bool_eq, Has, Result, ok, ◌>>=◌, >>-eq-ok,
}
use deductra.Common.Int.{ℤ, pos, subtract_ℤ, add_ℤ, negate_ℤ, multiply_ℤ, divmod_ℤ}
use deductra.Common.Dict.{Dict, lookup, subscript}
use deductra.Domain.Expressions.{
  int, fraction, NumericExpression, constant, constant_bool, variable_reference, add_expression,
  subtract, multiply, exact_divide, modulo, negate, Numerics, no_numeric, numeric, Comparison,
  BooleanExpression, compared, and_expression, or_expression, not_expression, implies, Booleans,
  no_boolean, condition,
}
use deductra.Families.LogicGrid.Evaluation.Tells.{
  Tells, Decided, every_step, some_step, implies-Decided, not-Decided,
}
use deductra.Families.LogicEquations.Expressions.{
  validate_number, validate_numbers, validate_equation, validate_equations,
}
use deductra.Families.LogicEquations.Evaluation.{
  compare_integers, both, is_nought, exact_quotient, remainder, numeric_value_of, sum_of,
  product_of, truth_of, truth_of_all, truth_of_any,
}
use deductra.Families.LogicEquations.Evaluation.Meaning.{
  Amounts, Sums, Products, HoldsOf, EveryOf, SomeOf,
}

-- A run that returns the only integer with a property, or none if there is none.
abbrev pub Finds : (ℤ → Type 0) → Result (Option ℤ) → Type 0
Finds P r = (o : Option ℤ) × (r ≡ ok o) × ((z : ℤ) → P z ↔ (o ≡ some z))

abbrev pub OfBoth : (ℤ → ℤ → Option ℤ) → (ℤ → Type 0) → (ℤ → Type 0) → ℤ → Type 0
OfBoth f P Q z = (x : ℤ) × (y : ℤ) × P x × Q y × (f x y ≡ some z)

both-Finds :
    {P Q : ℤ → Type 0} (f : ℤ → ℤ → Option ℤ) {r s : Result (Option ℤ)}
    → Finds P r
    → Finds Q s
    → Finds (OfBoth f P Q) (do left ← r; right ← s; ok (both f left right))
both-Finds f (some a, e, t) (some b, g, u) = (
  f a b,
  cc (e, g),
  λ z. (
    λ (x, y, px, qy, h).
        let sx : a ≡ x = some_injective ((t x).0 px) in
        let sy : b ≡ y = some_injective ((u y).0 qy) in cc,
    λ h. (a, b, (t a).1 refl, (u b).1 refl, h),
  ),
)
both-Finds f (some a, e, t) (none, g, u) =
    (none, cc (e, g), λ z. (λ (x, y, px, qy, h). cc ((u y).0 qy), λ h. cc))
both-Finds f (none, e, t) (some b, g, u) =
    (none, cc (e, g), λ z. (λ (x, y, px, qy, h). cc ((t x).0 px), λ h. cc))
both-Finds f (none, e, t) (none, g, u) =
    (none, cc (e, g), λ z. (λ (x, y, px, qy, h). cc ((t x).0 px), λ h. cc))

-- The same integers.
Finds-map :
    {P Q : ℤ → Type 0} {r : Result (Option ℤ)} → ((z : ℤ) → Q z ↔ P z) → Finds P r → Finds Q r
Finds-map same (o, e, t) = (o, e, λ z. (λ q. (t z).0 ((same z).0 q), λ h. (same z).1 ((t z).1 h)))

exact_quotient-some :
    (x y z : ℤ)
    → (exact_quotient x y ≡ some z)
      ↔ ((is_nought y ≡ false) × (is_nought (divmod_ℤ x y).1 ≡ true) × (z ≡ (divmod_ℤ x y).0))
unfolding exact_quotient
exact_quotient-some x y z = elim (Bool-cases (is_nought y)) [
  | inl e ↦ ground arith
  | inr e ↦ elim (Bool-cases (is_nought (divmod_ℤ x y).1)) [
    | inl f ↦ ground arith
    | inr f ↦ ground arith
  ]
]

remainder-some :
    (x y z : ℤ) → (remainder x y ≡ some z) ↔ ((is_nought y ≡ false) × (z ≡ (divmod_ℤ x y).1))
unfolding remainder
remainder-some x y z = elim (Bool-cases (is_nought y)) [
  | inl e ↦ ground arith
  | inr e ↦ ground arith
]

-- The second run depends on what the first finds.
bind-Finds :
    {P : ℤ → Type 0} {Q : ℤ → ℤ → Type 0} {r : Result (Option ℤ)} (s : ℤ → Result (Option ℤ))
    → Finds P r
    → ((a : ℤ) → Finds (Q a) (s a))
    → Finds
        (λ z. (a : ℤ) × P a × Q a z)
        (do value ← r; elim value [ some a ↦ s a | none ↦ ok none ])
bind-Finds {Q = Q} s (some a, e, t) k =
    let (o, f, u) = k a in
    (
      o,
      cc (e, f),
      λ z. (
        λ (x, px, q).
            let same : x ≡ a = sym (some_injective ((t x).0 px)) in
            (u z).0 (subst (λ y. Q y z) same q),
        λ h. (a, (t a).1 refl, (u z).1 h),
      ),
    )
bind-Finds s (none, e, t) k = (none, cc e, λ z. (λ (x, px, q). cc ((t x).0 px), λ h. cc))

negate-Finds :
    {P : ℤ → Type 0} {r : Result (Option ℤ)}
    → Finds P r
    → Finds
        (λ z. (x : ℤ) × P x × (z ≡ negate_ℤ x))
        (do value ← r; ok (elim value [ some z ↦ some (negate_ℤ z) | none ↦ none ]))
negate-Finds (some a, e, t) = (
  some (negate_ℤ a),
  cc e,
  λ z. (
    λ (x, p, h). let same : a ≡ x = some_injective ((t x).0 p) in cc,
    λ h. (a, (t a).1 refl, sym (some_injective h)),
  ),
)
negate-Finds (none, e, t) = (none, cc e, λ z. (λ (x, p, h). cc ((t x).0 p), λ h. cc))

-- Two integers that are compared, or none.
abbrev compared_values : Comparison → Option ℤ → Option ℤ → Bool
compared_values c left right = elim left [
  | none ↦ false
  | some x ↦ elim right [ none ↦ false | some y ↦ compare_integers c x y ]
]

compared-Tells :
    (c : Comparison) {P Q : ℤ → Type 0} (left right : Option ℤ)
    → ((z : ℤ) → P z ↔ (left ≡ some z))
    → ((z : ℤ) → Q z ↔ (right ≡ some z))
    → Tells
        ((x : ℤ) × (y : ℤ) × P x × Q y × (compare_integers c x y ≡ true))
        (compared_values c left right)
compared-Tells c (some a) (some b) t u = (
  λ h. (a, b, (t a).1 refl, (u b).1 refl, h),
  λ (x, y, px, qy, h).
      let sx : a ≡ x = some_injective ((t x).0 px) in
      let sy : b ≡ y = some_injective ((u y).0 qy) in cc,
)
compared-Tells c (some a) none t u = (λ h. cc, λ (x, y, px, qy, h). cc ((u y).0 qy))
compared-Tells c none right t u = (λ h. cc, λ (x, y, px, qy, h). cc ((t x).0 px))

module _ (amount : String → ℤ) (variables : List String) (numbers : Dict ℤ)
    (known : (v : String) → Has variables v → lookup v numbers ≡ some (amount v)) where
  mutual
    unfolding validate_number validate_numbers numeric_value_of sum_of product_of Amounts Sums
        Products subscript

    numeric-Finds :
        (a : NumericExpression)
        → validate_number variables a ≡ ok tt
        → Finds (Amounts amount a) (numeric_value_of numbers a)
    numeric-Finds (constant (int n)) h = (some n, refl, λ z. (λ e. cc, λ e. cc))
    numeric-Finds (constant (fraction m n)) h = cc
    numeric-Finds (constant_bool b) h = cc
    numeric-Finds (variable_reference v) h =
        (some (amount v), ground (arith, known v (ground arith)), λ z. (λ e. cc, λ e. cc))
    numeric-Finds (add_expression xs) h = sum-Finds xs h
    numeric-Finds (multiply xs) h = product-Finds (pos 1) xs h
    numeric-Finds (subtract a b) h =
        let (va, vb) = >>-eq-ok (validate_number variables a) (validate_number variables b) h in
        Finds-map
          (λ z. (
            λ (x, y, p, q, e). (x, y, p, q, cc),
            λ (x, y, p, q, e). (x, y, p, q, sym (some_injective e)),
          ))
          (both-Finds (λ x y. some (subtract_ℤ x y)) (numeric-Finds a va) (numeric-Finds b vb))
    numeric-Finds (exact_divide a b) h =
        let (va, rest) = >>-eq-ok (validate_number variables a) _ h in
        let (vb, nonzero) = >>-eq-ok (validate_number variables b) _ rest in
        Finds-map
          (λ z. (
            λ (x, y, p, q, n, m, e). (x, y, p, q, (exact_quotient-some x y z).1 (n, m, e)),
            λ (x, y, p, q, e).
                let (n, m, w) = (exact_quotient-some x y z).0 e in (x, y, p, q, n, m, w),
          ))
          (both-Finds exact_quotient (numeric-Finds a va) (numeric-Finds b vb))
    numeric-Finds (modulo a b) h =
        let (va, rest) = >>-eq-ok (validate_number variables a) _ h in
        let (vb, nonzero) = >>-eq-ok (validate_number variables b) _ rest in
        Finds-map
          (λ z. (
            λ (x, y, p, q, n, e). (x, y, p, q, (remainder-some x y z).1 (n, e)),
            λ (x, y, p, q, e). let (n, w) = (remainder-some x y z).0 e in (x, y, p, q, n, w),
          ))
          (both-Finds remainder (numeric-Finds a va) (numeric-Finds b vb))
    numeric-Finds (negate a) h = negate-Finds (numeric-Finds a h)

    sum-Finds :
        (xs : Numerics)
        → validate_numbers variables xs ≡ ok tt
        → Finds (Sums amount xs) (sum_of numbers xs)
    sum-Finds no_numeric h = (some (pos 0), refl, λ z. (λ e. cc, λ e. cc))
    sum-Finds (numeric x xs) h =
        let (va, vb) = >>-eq-ok (validate_number variables x) (validate_numbers variables xs) h in
        Finds-map
          (λ z. (
            λ (x, y, p, q, e). (x, y, p, q, cc),
            λ (x, y, p, q, e). (x, y, p, q, sym (some_injective e)),
          ))
          (both-Finds (λ x y. some (add_ℤ x y)) (numeric-Finds x va) (sum-Finds xs vb))

    product-Finds :
        (n : ℤ) (xs : Numerics)
        → validate_numbers variables xs ≡ ok tt
        → Finds (Products amount xs n) (product_of numbers n xs)
    product-Finds n no_numeric h = (some n, refl, λ z. (λ e. cc, λ e. cc))
    product-Finds n (numeric x xs) h =
        let (va, vb) = >>-eq-ok (validate_number variables x) (validate_numbers variables xs) h in
        bind-Finds {Q = λ a z. Products amount xs (multiply_ℤ n a) z}
          (λ a. product_of numbers (multiply_ℤ n a) xs) (numeric-Finds x va)
          (λ a. product-Finds (multiply_ℤ n a) xs vb)

  mutual
    unfolding validate_equation validate_equations truth_of truth_of_all truth_of_any HoldsOf
        EveryOf SomeOf

    pub truth-Decided :
        (e : BooleanExpression)
        → validate_equation variables e ≡ ok tt
        → Decided (HoldsOf amount e) (truth_of numbers e)
    truth-Decided (compared c a b) h =
        let (va, vb) = >>-eq-ok (validate_number variables a) (validate_number variables b) h in
        let (left, e, t) = numeric-Finds a va in
        let (right, f, u) = numeric-Finds b vb in
        (compared_values c left right, cc (e, f), compared-Tells c left right t u)
    truth-Decided (and_expression xs) h = every-Decided xs h
    truth-Decided (or_expression xs) h = some-Decided xs h
    truth-Decided (not_expression a) h = not-Decided (truth-Decided a h)
    truth-Decided (implies a b) h =
        let (va, vb) = >>-eq-ok _ _ h in implies-Decided (truth-Decided a va) (truth-Decided b vb)
    truth-Decided _ h = cc

    every-Decided :
        (xs : Booleans)
        → validate_equations variables xs ≡ ok tt
        → Decided (EveryOf amount xs) (truth_of_all numbers xs)
    every-Decided no_boolean h = (true, refl, (λ x. tt, λ x. refl))
    every-Decided (condition x xs) h =
        let (va, vb) = >>-eq-ok _ _ h in every_step (truth-Decided x va) (every-Decided xs vb)

    some-Decided :
        (xs : Booleans)
        → validate_equations variables xs ≡ ok tt
        → Decided (SomeOf amount xs) (truth_of_any numbers xs)
    some-Decided no_boolean h = (false, refl, (λ x. cc, λ x. absurd x))
    some-Decided (condition x xs) h =
        let (va, vb) = >>-eq-ok _ _ h in some_step (truth-Decided x va) (some-Decided xs vb)
