-- ===== src/Families/LogicGrid/Checker/Anchors.antt =====
-- `_anchor_semantics`: the place and the number of each row.
use mathlib.Core.Option
use deductra.Common.{
  ℕ, suc, String, ◌≡◌, refl, ◌∙◌, ◌≢◌, inl, inr, true, false, Option, none, some, List, [], ◌∷◌,
  map, arith, if◌then◌else◌, Bool-cases, Option-cases, ◌==◌, string_eq, pair_eq, nat_eq, bool_eq,
  all, All, contains, Has, Distinct,
}
use deductra.Common.Int.{ℤ, pos}
use deductra.Common.Dict.{Dict, lookup, insert, lookup-insert}
use deductra.Common.Dict.Items.{All-lookup}
use deductra.Domain.Atoms.{atom_eq}
use deductra.Domain.Expressions.{Number, int}
use deductra.Domain.Values.{DomainValue, Domain, value_ids}
use deductra.Families.LogicGrid.Expressions.{has_complete_numeric_values}
use deductra.Families.LogicGrid.Evaluation.Meaning.{Grid}
use deductra.Families.LogicGrid.Evaluation.Comparisons.{IsTable}
use deductra.Families.LogicGrid.Checker.{ordinals_of, numeric_values_of}

-- The ordinal of a row, or else its position.
unfoldable pub place_of : ℕ → List DomainValue → String → Option ℤ
place_of n [] x = none
place_of n (v ∷ vs) x =
    if v.value_id == x then some (Option.get_or v.ordinal (pos n)) else place_of (suc n) vs x

unfoldable pub amount_of : List DomainValue → String → Option Number
amount_of [] x = none
amount_of (v ∷ vs) x = if v.value_id == x then v.numeric_value else amount_of vs x

place_of-none :
    (n : ℕ) (vs : List DomainValue) (x : String)
    → contains (map (λ v. v.value_id) vs) x ≡ false
    → place_of n vs x ≡ none
unfolding place_of contains
place_of-none n [] x h = refl
place_of-none n (v ∷ vs) x h = ground (arith, place_of-none (suc n) vs x)

amount_of-none :
    (vs : List DomainValue) (x : String)
    → contains (map (λ v. v.value_id) vs) x ≡ false
    → amount_of vs x ≡ none
unfolding amount_of contains
amount_of-none [] x h = refl
amount_of-none (v ∷ vs) x h = ground (arith, amount_of-none vs x)

pub lookup-ordinals_of :
    (x : String) (n : ℕ) (d : Dict ℤ) (vs : List DomainValue)
    → Distinct (map (λ v. v.value_id) vs)
    → lookup x (ordinals_of n d vs) ≡ elim (place_of n vs x) [ some z ↦ some z | none ↦ lookup x d ]
unfolding ordinals_of place_of
lookup-ordinals_of x n d [] h = refl
lookup-ordinals_of x n d (v ∷ vs) h = ground (
  arith,
  lookup-ordinals_of x (suc n) (insert v.value_id (Option.get_or v.ordinal (pos n)) d) vs h.1,
  lookup-insert v.value_id x (Option.get_or v.ordinal (pos n)) d,
  place_of-none (suc n) vs x,
)

pub lookup-numeric_values_of :
    (x : String) (d : Dict Number) (vs : List DomainValue)
    → Distinct (map (λ v. v.value_id) vs)
    → lookup x (numeric_values_of d vs)
      ≡ elim (amount_of vs x) [ some z ↦ some z | none ↦ lookup x d ]
unfolding numeric_values_of amount_of
lookup-numeric_values_of x d [] h = refl
lookup-numeric_values_of x d (v ∷ vs) h = elim (Option-cases v.numeric_value) [
  | inl e ↦ ground (arith, lookup-numeric_values_of x d vs h.1, amount_of-none vs x)
  | inr (z, e) ↦ ground (
    arith,
    lookup-numeric_values_of x (insert v.value_id z d) vs h.1,
    lookup-insert v.value_id x z d,
    amount_of-none vs x,
  )
]

place_of-some :
    (n : ℕ) (vs : List DomainValue) (x : String)
    → contains (map (λ v. v.value_id) vs) x ≡ true
    → (z : ℤ) × (place_of n vs x ≡ some z)
unfolding place_of contains
place_of-some n [] x h = cc
place_of-some n (v ∷ vs) x h = elim (Bool-cases (v.value_id == x)) [
  | inl e ↦ (Option.get_or v.ordinal (pos n), ground arith)
  | inr e ↦ let (z, f) = place_of-some (suc n) vs x (ground arith) in (z, ground arith)
]

amount_of-some :
    (vs : List DomainValue) (x : String)
    → all (λ v. elim v.numeric_value [ some n ↦ true | none ↦ false ]) vs ≡ true
    → contains (map (λ v. v.value_id) vs) x ≡ true
    → (z : Number) × (amount_of vs x ≡ some z)
unfolding amount_of contains
amount_of-some [] x c h = cc
amount_of-some (v ∷ vs) x c h = elim (Bool-cases (v.value_id == x)) [
  | inl e ↦ elim (Option-cases v.numeric_value) [
    | inl none_there ↦ absurd (ground arith)
    | inr (z, f) ↦ (z, ground arith)
  ]
  | inr e ↦ let (z, f) = amount_of-some vs x (ground arith) (ground arith) in (z, ground arith)
]

-- The grid that an assignment makes: a variable's row is the value assigned to it.
abbrev pub grid_of : Domain → Dict String → Grid
grid_of anchor assignments = record {
  row = λ v. Option.get_or (lookup v assignments) "";
  place = λ x. Option.get_or (place_of 1 anchor.values x) (pos 0);
  amount = λ x. Option.get_or (amount_of anchor.values x) (int (pos 0));
}

pub grid_of-IsTable :
    (variables : List String) (anchor : Domain) (assignments : Dict String)
    → Distinct (value_ids anchor)
    → ((v : String) → Has variables v → lookup v assignments ≢ none)
    → All (λ (v, x). Has (value_ids anchor) x) assignments
    → IsTable
        (grid_of anchor assignments)
        variables
        anchor
        assignments
        (ordinals_of 1 [] anchor.values)
        (numeric_values_of [] anchor.values)
unfolding has_complete_numeric_values
grid_of-IsTable variables anchor assignments distinct complete inside = record {
  rows = λ v k. ground (arith, complete v k);
  inside = λ v k. elim (Option-cases (lookup v assignments)) [
    | inl e ↦ absurd (complete v k e)
    | inr (x, e) ↦ rw e (All-lookup (λ (v, x). Has (value_ids anchor) x) v x assignments inside e)
  ];
  places = λ x k.
      let (z, e) = place_of-some 1 anchor.values x k in
      unfold lookup in (lookup-ordinals_of x 1 [] anchor.values distinct ∙ ground arith);
  amounts = λ x c k.
      let (z, e) = amount_of-some anchor.values x c k in
      unfold lookup in (lookup-numeric_values_of x [] anchor.values distinct ∙ ground arith);
}
