-- ===== src/Families/LogicGrid/Evaluation/Tells.antt =====
-- Results that return a Boolean which is true exactly when a proposition holds, and how the
-- connectives of the evaluation keep this.
use deductra.Common.{
  ◌≡◌, ◌↔◌, ◌⊎◌, Bool, true, false, not, arith, ◌==◌, string_eq, pair_eq, nat_eq, bool_eq, Result,
  ok, ◌>>=◌,
}

-- A Boolean that is true exactly when the proposition is.
abbrev pub Tells : Type 0 → Bool → Type 0
Tells P b = (b ≡ true) ↔ P

module _ {P Q : Type 0} where
  Tells-xor :
      (b c : Bool) → Tells P b → Tells Q c → Tells ((P × (¬ Q)) ⊎ ((¬ P) × Q)) (not (b == c))
  Tells-xor true true t u = ground arith
  Tells-xor true false t u = ground arith
  Tells-xor false true t u = ground arith
  Tells-xor false false t u = ground arith

  Tells-equivalent : (b c : Bool) → Tells P b → Tells Q c → Tells (P ↔ Q) (b == c)
  Tells-equivalent true true t u = ground arith
  Tells-equivalent true false t u = ground arith
  Tells-equivalent false true t u = ground arith
  Tells-equivalent false false t u = ground arith

-- A run that returns, and whose answer is right.
abbrev pub Decided : Type 0 → Result Bool → Type 0
Decided P r = (b : Bool) × (r ≡ ok b) × Tells P b

-- One operand after the others: `all`, `any`, `or` and `sum`.
pub every_step :
    {P Q : Type 0} {r s : Result Bool}
    → Decided P r
    → Decided Q s
    → Decided (P × Q) (do value ← r; elim value [ true ↦ s | false ↦ ok false ])
every_step (true, e, t) (y, f, u) = (y, cc (e, f), ground arith)
every_step (false, e, t) d = (false, cc e, ground arith)

pub some_step :
    {P Q : Type 0} {r s : Result Bool}
    → Decided P r
    → Decided Q s
    → Decided (P ⊎ Q) (do value ← r; elim value [ true ↦ ok true | false ↦ s ])
some_step (true, e, t) d = (true, cc e, ground arith)
some_step (false, e, t) (y, f, u) = (y, cc (e, f), ground arith)

pub implies-Decided :
    {P Q : Type 0} {r s : Result Bool}
    → Decided P r
    → Decided Q s
    → Decided (P → Q) (do premise ← r; elim premise [ true ↦ s | false ↦ ok true ])
implies-Decided (true, e, t) (y, f, u) = (y, cc (e, f), ground arith)
implies-Decided (false, e, t) d = (true, cc e, ground arith)

pub xor-Decided :
    {P Q : Type 0} {r s : Result Bool}
    → Decided P r
    → Decided Q s
    → Decided ((P × (¬ Q)) ⊎ ((¬ P) × Q)) (do left ← r; right ← s; ok (not (left == right)))
xor-Decided (x, e, t) (y, f, u) = (not (x == y), cc (e, f), Tells-xor x y t u)

pub equivalent-Decided :
    {P Q : Type 0} {r s : Result Bool}
    → Decided P r
    → Decided Q s
    → Decided (P ↔ Q) (do left ← r; right ← s; ok (left == right))
equivalent-Decided (x, e, t) (y, f, u) = (x == y, cc (e, f), Tells-equivalent x y t u)

pub not-Decided :
    {P : Type 0} {r : Result Bool} → Decided P r → Decided (¬ P) (do value ← r; ok (not value))
not-Decided (true, e, t) = (false, cc e, ground arith)
not-Decided (false, e, t) = (true, cc e, ground arith)
