-- ===== src/Common/Order.antt =====
-- The order of texts by code points is total, and Python's stable `sorted`.
use Prim.Native.Nat.{Ordering}
use Prim.Native.String.{String, compare}
use Prim.Native.String.compare
use mathlib.Core.Path.{◌≡◌, refl}
use mathlib.Core.Bool.{Bool, true, false, ◌||◌}
use mathlib.Core.List.{List, [], ◌∷◌}
use text.Mathlib.TextPositions.{compare_refl}
use text.Mathlib.TextEquality.{path_by_compare}
use native.Mathlib.Omega.{arith}
use deductra.Common.Tests.{if◌then◌else◌}
use deductra.Common.Equality.{Eq, ◌==◌}
use deductra.Common.Sets.{contains}

-- `s <= t`
unfoldable pub text_le : String → String → Bool
text_le s t = elim (compare s t) [ Ordering.gt ↦ false | _ ↦ true ]

pub text_le_refl : (s : String) → text_le s s ≡ true
unfolding text_le
text_le_refl s = ground (arith, compare_refl s)

compare_gt : (s t : String) → compare s t ≡ Ordering.gt → compare t s ≡ Ordering.lt
compare_gt String.[] String.[] h = ground (arith, compare.nil-nil)
compare_gt String.[] (String.◌∷◌ d t) h = ground (arith, compare.nil-cons d t)
compare_gt (String.◌∷◌ c s) String.[] h = compare.nil-cons c s
compare_gt (String.◌∷◌ c s) (String.◌∷◌ d t) h =
    ground (arith, compare_gt s t, compare.cons-cons c d s t, compare.cons-cons d c t s)

compare_lt : (s t : String) → compare s t ≡ Ordering.lt → compare t s ≡ Ordering.gt
compare_lt String.[] String.[] h = ground (arith, compare.nil-nil)
compare_lt String.[] (String.◌∷◌ d t) h = compare.cons-nil d t
compare_lt (String.◌∷◌ c s) String.[] h = ground (arith, compare.cons-nil c s)
compare_lt (String.◌∷◌ c s) (String.◌∷◌ d t) h =
    ground (arith, compare_lt s t, compare.cons-cons c d s t, compare.cons-cons d c t s)

-- Of two texts one is at most the other.
pub text_le_total : (s t : String) → text_le s t ≡ false → text_le t s ≡ true
unfolding text_le
text_le_total s t h = ground (arith, compare_gt s t)

pub text_le_antisymm : (s t : String) → text_le s t ≡ true → text_le t s ≡ true → s ≡ t
unfolding text_le
text_le_antisymm s t h k = ground (arith, compare_lt s t, path_by_compare s t)

pub text_le_trans : (s t u : String) → text_le s t ≡ true → text_le t u ≡ true → text_le s u ≡ true
unfolding text_le
text_le_trans String.[] String.[] u h k = k
text_le_trans String.[] (String.◌∷◌ d t) String.[] h k = ground (arith, compare.cons-nil d t)
text_le_trans String.[] (String.◌∷◌ d t) (String.◌∷◌ e u) h k = ground (arith, compare.nil-cons e u)
text_le_trans (String.◌∷◌ c s) String.[] u h k = ground (arith, compare.cons-nil c s)
text_le_trans (String.◌∷◌ c s) (String.◌∷◌ d t) String.[] h k = ground (arith, compare.cons-nil d t)
text_le_trans (String.◌∷◌ c s) (String.◌∷◌ d t) (String.◌∷◌ e u) h k = ground (
  arith,
  text_le_trans s t u,
  path_by_compare s t,
  path_by_compare t u,
  compare.cons-cons c d s t,
  compare.cons-cons d e t u,
  compare.cons-cons c e s u,
)

module _ {ℓ} {A : Type ℓ} (le : A → A → Bool) where
  unfoldable pub place : A → List A → List A
  place x [] = x ∷ []
  place x (y ∷ ys) = if le x y then x ∷ y ∷ ys else y ∷ place x ys

  -- `sorted(xs, key=…)`: `le x y` compares the keys; equal keys keep their order
  unfoldable pub sort_by : List A → List A
  unfolding place
  sort_by [] = []
  sort_by (x ∷ xs) = place x (sort_by xs)

  abbrev pub IsSorted : List A → Type 0
  IsSorted [] = Unit
  IsSorted (x ∷ []) = Unit
  IsSorted (x ∷ y ∷ ys) = (le x y ≡ true) × IsSorted (y ∷ ys)

  module _ (total : (x y : A) → le x y ≡ false → le y x ≡ true) where
    place-IsSorted : (x : A) (ys : List A) → IsSorted ys → IsSorted (place x ys)
    unfolding place
    place-IsSorted x [] h = tt
    place-IsSorted x (y ∷ []) h = ground (arith, total x y)
    place-IsSorted x (y ∷ z ∷ zs) h =
        ground (arith, total x y, total x z, place-IsSorted x (z ∷ zs) h.1)

    pub sort_by-IsSorted : (xs : List A) → IsSorted (sort_by xs)
    unfolding sort_by
    sort_by-IsSorted [] = tt
    sort_by-IsSorted (x ∷ xs) = place-IsSorted x (sort_by xs) (sort_by-IsSorted xs)

  sort_by_of_IsSorted : (xs : List A) → IsSorted xs → sort_by xs ≡ xs
  unfolding sort_by
  sort_by_of_IsSorted [] h = refl
  sort_by_of_IsSorted (x ∷ []) h = refl
  sort_by_of_IsSorted (x ∷ y ∷ ys) h = rw (sort_by_of_IsSorted (y ∷ ys) h.1) (ground arith)

module _ {ℓ} {A : Type ℓ} (le : A → A → Bool)
    (total : (x y : A) → le x y ≡ false → le y x ≡ true) where
  -- Sorting what is sorted changes nothing.
  pub sort_by_idem : (xs : List A) → sort_by le (sort_by le xs) ≡ sort_by le xs
  sort_by_idem xs = sort_by_of_IsSorted le (sort_by le xs) (sort_by-IsSorted le total xs)

module _ {ℓ} {A : Type ℓ} ⦃e : Eq A⦄ (le : A → A → Bool) where
  contains-place : (b x : A) (ys : List A) → contains (place le x ys) b ≡ (x == b || contains ys b)
  unfolding contains place
  contains-place b x [] = refl
  contains-place b x (y ∷ ys) = ground (arith, contains-place b x ys)

  pub contains-sort_by : (b : A) (xs : List A) → contains (sort_by le xs) b ≡ contains xs b
  unfolding contains sort_by
  contains-sort_by b [] = refl
  contains-sort_by b (x ∷ xs) =
      ground (arith, contains-place b x (sort_by le xs), contains-sort_by b xs)

unfoldable pub sort_texts : List String → List String
unfolding sort_by text_le
sort_texts = sort_by text_le
