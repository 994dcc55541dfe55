-- ===== src/Families/LogicGrid/Evaluation/Decides.antt =====
-- The evaluation of a validated clue returns, and returns whether the clue holds.
use deductra.Common.{ℕ, zero, suc, String, ◌≡◌, refl, ◌↔◌, true, false, List, arith, ok, >>-eq-ok}
use deductra.Common.Int.{ℤ}
use deductra.Common.Dict.{Dict}
use deductra.Domain.Expressions.{
  Number, BooleanExpression, compared, and_expression, or_expression, not_expression,
  xor_expression, implies, equivalent, cardinality, all_different, Booleans, no_boolean, condition,
}
use deductra.Domain.Values.{Domain}
use deductra.Families.LogicGrid.Expressions.{validate_boolean_expression, validate_operands}
use deductra.Families.LogicGrid.Evaluation.{
  within, EvaluationErrors, evaluate_boolean, evaluate_all, evaluate_any, count_true,
}
use deductra.Families.LogicGrid.Evaluation.Meaning.{Grid, Holds, Every, Some, Exactly}
use deductra.Families.LogicGrid.Evaluation.Tells.{
  Decided, every_step, some_step, implies-Decided, xor-Decided, equivalent-Decided, not-Decided,
}
use deductra.Families.LogicGrid.Evaluation.Comparisons.{IsTable, comparison-Decided}

module _ (errors : EvaluationErrors) (g : Grid) (variables : List String) (anchor : Domain)
    (assignments : Dict String) (ordinals : Dict ℤ) (numbers : Dict Number)
    (table : IsTable g variables anchor assignments ordinals numbers) where
  Counted : Booleans → Type 0
  Counted xs =
      (n : ℕ) × (count_true errors assignments ordinals numbers xs ≡ ok n)
      × ((m : ℕ) → Exactly g xs m ↔ (m ≡ n))

  Exactly-none : (m : ℕ) → Exactly g no_boolean m ↔ (m ≡ 0)
  unfolding Exactly
  Exactly-none zero = (λ h. refl, λ h. tt)
  Exactly-none (suc m) = (λ h. absurd h, λ h. omega arith)

  cardinality-Decided :
      (xs : Booleans) (low high : ℤ)
      → Counted xs
      → Decided
          (Holds g (cardinality xs low high))
          (evaluate_boolean errors assignments ordinals numbers (cardinality xs low high))
  unfolding Counted evaluate_boolean Holds
  cardinality-Decided xs low high (n, e, t) = (
    within low n high,
    cc e,
    (
      λ w. (n, (t n).1 refl, ground arith, ground arith),
      λ (m, x, l, h). let same : m ≡ n = (t m).0 x in ground arith,
    ),
  )

  Exactly-Holds :
      (x : BooleanExpression) (xs : Booleans) {n : ℕ}
      → Holds g x
      → ((m : ℕ) → Exactly g xs m ↔ (m ≡ n))
      → (m : ℕ) → Exactly g (condition x xs) m ↔ (m ≡ suc n)
  unfolding Exactly
  Exactly-Holds x xs hx u zero = (λ h. absurd (h.0 hx), λ e. cc)
  Exactly-Holds x xs hx u (suc m) = ground (arith, u m)

  Exactly-fails :
      (x : BooleanExpression) (xs : Booleans) {n : ℕ}
      → ¬ Holds g x
      → ((m : ℕ) → Exactly g xs m ↔ (m ≡ n))
      → (m : ℕ) → Exactly g (condition x xs) m ↔ (m ≡ n)
  unfolding Exactly
  Exactly-fails x xs hx u zero = (λ h. (u zero).0 h.1, λ e. (hx, (u zero).1 e))
  Exactly-fails x xs hx u (suc m) = ground (arith, u (suc m))

  count_step :
      (x : BooleanExpression) (xs : Booleans)
      → Decided (Holds g x) (evaluate_boolean errors assignments ordinals numbers x)
      → Counted xs
      → Counted (condition x xs)
  unfolding Counted count_true
  count_step x xs (true, e, t) (n, f, u) = (suc n, cc (e, f), Exactly-Holds x xs (t.0 refl) u)
  count_step x xs (false, e, t) (n, f, u) =
      (n, cc (e, f), Exactly-fails x xs (λ h. absurd (ground (arith, t.1 h))) u)

  mutual
    unfolding validate_boolean_expression validate_operands evaluate_boolean evaluate_all
        evaluate_any count_true Holds Every Some Exactly Counted

    pub boolean-Decided :
        (e : BooleanExpression)
        → validate_boolean_expression variables anchor e ≡ ok tt
        → Decided (Holds g e) (evaluate_boolean errors assignments ordinals numbers e)
    boolean-Decided (compared c a b) h =
        comparison-Decided errors g variables anchor assignments ordinals numbers table c a b h
    boolean-Decided (and_expression xs) h = Every-Decided xs h
    boolean-Decided (or_expression xs) h = Some-Decided xs h
    boolean-Decided (not_expression a) h = not-Decided (boolean-Decided a h)
    boolean-Decided (xor_expression a b) h =
        let (va, vb) = >>-eq-ok _ _ h in xor-Decided (boolean-Decided a va) (boolean-Decided b vb)
    boolean-Decided (equivalent a b) h =
        let (va, vb) = >>-eq-ok _ _ h in
        equivalent-Decided (boolean-Decided a va) (boolean-Decided b vb)
    boolean-Decided (implies a b) h =
        let (va, vb) = >>-eq-ok _ _ h in
        implies-Decided (boolean-Decided a va) (boolean-Decided b vb)
    boolean-Decided (cardinality xs low high) h =
        cardinality-Decided xs low high (count_decided xs h)
    boolean-Decided (all_different xs) h = cc

    pub Every-Decided :
        (xs : Booleans)
        → validate_operands variables anchor xs ≡ ok tt
        → Decided (Every g xs) (evaluate_all errors assignments ordinals numbers xs)
    Every-Decided no_boolean h = (true, refl, (λ x. tt, λ x. refl))
    Every-Decided (condition x xs) h =
        let (va, vb) = >>-eq-ok _ _ h in every_step (boolean-Decided x va) (Every-Decided xs vb)

    pub Some-Decided :
        (xs : Booleans)
        → validate_operands variables anchor xs ≡ ok tt
        → Decided (Some g xs) (evaluate_any errors assignments ordinals numbers xs)
    Some-Decided no_boolean h = (false, refl, (λ x. cc, λ x. absurd x))
    Some-Decided (condition x xs) h =
        let (va, vb) = >>-eq-ok _ _ h in some_step (boolean-Decided x va) (Some-Decided xs vb)

    pub count_decided :
        (xs : Booleans)
        → validate_operands variables anchor xs ≡ ok tt
        → (n : ℕ) × (count_true errors assignments ordinals numbers xs ≡ ok n)
          × ((m : ℕ) → Exactly g xs m ↔ (m ≡ n))
    count_decided no_boolean h = (0, refl, Exactly-none)
    count_decided (condition x xs) h =
        let (va, vb) = >>-eq-ok _ _ h in
        count_step x xs (boolean-Decided x va) (count_decided xs vb)
