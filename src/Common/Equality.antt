-- ===== src/Common/Equality.antt =====
-- Python's `==`, for every type whose equality can be decided.
use Prim.Native.String.{String}
use Prim.Native.Nat.{ℕ}
use mathlib.Core.Path.{◌≡◌, refl}
use mathlib.Core.Logic.{◌↔◌, ite, dite}
use mathlib.Core.Bool.{Bool, true, false, Bool-discrete}
use mathlib.Core.List.{List, [], ◌∷◌}
use native.Mathlib.Decide.{ℕ_discrete}
use native.Mathlib.Omega.{arith}
use text.Mathlib.Text
use text.Mathlib.TextEquality.{eq_iff}

pub record Eq {ℓ} (A : Type ℓ) : Type ℓ where
  pub dec : Discrete A

module _ {ℓ} {A : Type ℓ} ⦃e : Eq A⦄ where
  infix 50 ◌==◌
  abbrev pub ◌==◌ : A → A → Bool
  a == b = ite (e.dec a b) true false

  pub ==_iff : (a b : A) → ((a == b) ≡ true) ↔ (a ≡ b)
  ==_iff a b = ground arith

-- Shut in proofs, where a split on the decision yields the equation or its negation.
unfoldable pub string_dec : Discrete String
string_dec s t =
    dite (Bool-discrete (Text.◌==◌ s t) true) (λ same. yes ((eq_iff s t).0 same))
      (λ differ. no (λ p. differ ((eq_iff s t).1 p)))

instance abbrev pub string_eq : Eq String
string_eq = record { dec = string_dec }

instance abbrev pub pair_eq : Eq (String × String)
pair_eq = record { dec = hlevel string_dec }

instance abbrev pub nat_eq : Eq ℕ
nat_eq = record { dec = ℕ_discrete }

instance abbrev pub bool_eq : Eq Bool
bool_eq = record { dec = Bool-discrete }

-- Lists are compared element by element.
unfoldable pub list_dec {ℓ} : {A : Type ℓ} ⦃e : Eq A⦄ → Discrete (List A)
list_dec [] [] = yes refl
list_dec [] (y ∷ ys) = no (λ h. cc)
list_dec (x ∷ xs) [] = no (λ h. cc)
list_dec ⦃e = e⦄ (x ∷ xs) (y ∷ ys) = elim (e.dec x y) [
  | no differ ↦ no (λ h. differ (cc h))
  | yes same ↦ elim (list_dec xs ys) [
    | no rest ↦ no (λ h. rest (cc h))
    | yes rest ↦ yes (cc (same, rest))
  ]
]
