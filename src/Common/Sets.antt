-- ===== src/Common/Sets.antt =====
-- Python's sets and frozensets as lists without repetition, `in`, and `len(xs) != len(set(xs))`.
use Prim.Native.Nat.{◌≤◌}
use mathlib.Core.Path.{◌≡◌, refl, ◌∙◌}
use mathlib.Core.Logic.{◌↔◌, ◌≢◌}
use mathlib.Core.Bool.{Bool, true, false, not, ◌&&◌, ◌||◌}
use mathlib.Core.List.{List, [], ◌∷◌, ◌++◌}
use native.Mathlib.Omega.{arith}
use deductra.Common.Tests.{eqb, if◌then◌else◌}
use deductra.Common.Equality.{Eq, ◌==◌}
use deductra.Common.Lists.{length, all, any, keep, All}

module _ {ℓ} {A : Type ℓ} ⦃e : Eq A⦄ where
  -- `a in xs`
  unfoldable pub contains : List A → A → Bool
  contains [] a = false
  contains (x ∷ xs) a = x == a || contains xs a

  abbrev pub Has : List A → A → Type 0
  Has xs a = contains xs a ≡ true

  -- `s | {a}`, `s.add(a)`
  unfoldable pub add : A → List A → List A
  add a s = if contains s a then s else a ∷ s

  -- `set(xs)`, `frozenset(xs)`
  unfoldable pub to_set : List A → List A
  to_set [] = []
  to_set (x ∷ xs) = add x (to_set xs)

  -- `s | set(xs)`, `s.update(xs)`
  unfoldable pub update : List A → List A → List A
  update s [] = s
  update s (x ∷ xs) = add x (update s xs)

  -- `s - set(xs)`
  unfoldable pub difference : List A → List A → List A
  difference [] xs = []
  difference (a ∷ s) xs = if contains xs a then difference s xs else a ∷ difference s xs

  -- `tuple(dict.fromkeys(xs))`
  unfoldable pub from_keys : List A → List A
  unfolding difference
  from_keys [] = []
  from_keys (x ∷ xs) = x ∷ difference (from_keys xs) (x ∷ [])

  -- `s & set(xs)`
  unfoldable pub intersection : List A → List A → List A
  intersection [] xs = []
  intersection (a ∷ s) xs = if contains xs a then a ∷ intersection s xs else intersection s xs

  -- `set(xs) <= set(ys)`
  unfoldable pub subset : List A → List A → Bool
  subset [] ys = true
  subset (x ∷ xs) ys = contains ys x && subset xs ys

  -- `set(xs) == set(ys)`
  abbrev pub same_set : List A → List A → Bool
  same_set xs ys = subset xs ys && subset ys xs

  -- `len(xs) == len(set(xs))`
  unfoldable pub unique : List A → Bool
  unique xs = eqb (length xs) (length (to_set xs))

  abbrev pub Distinct : List A → Type 0
  Distinct [] = Unit
  Distinct (x ∷ xs) = (contains xs x ≡ false) × Distinct xs

  pub contains-cons : (x a : A) (xs : List A) → contains (x ∷ xs) a ≡ (x == a || contains xs a)
  unfolding contains
  contains-cons x a xs = refl

  pub contains-append :
      (a : A) (xs ys : List A) → contains (xs ++ ys) a ≡ (contains xs a || contains ys a)
  unfolding contains
  contains-append a [] ys = refl
  contains-append a (x ∷ xs) ys = ground (arith, contains-append a xs ys)

  pub contains-add : (a b : A) (s : List A) → contains (add a s) b ≡ (a == b || contains s b)
  unfolding contains add
  contains-add a b s = ground arith

  pub contains-to_set : (b : A) (xs : List A) → contains (to_set xs) b ≡ contains xs b
  unfolding contains to_set
  contains-to_set b [] = refl
  contains-to_set b (x ∷ xs) = ground (arith, contains-to_set b xs, contains-add x b (to_set xs))

  pub contains-update :
      (b : A) (s xs : List A) → contains (update s xs) b ≡ (contains xs b || contains s b)
  unfolding contains update
  contains-update b s [] = refl
  contains-update b s (x ∷ xs) =
      ground (arith, contains-update b s xs, contains-add x b (update s xs))

  pub contains-difference :
      (b : A) (s xs : List A) → contains (difference s xs) b ≡ (contains s b && not (contains xs b))
  unfolding contains difference
  contains-difference b [] xs = refl
  contains-difference b (a ∷ s) xs = ground (arith, contains-difference b s xs)

  pub contains-intersection :
      (b : A) (s xs : List A) → contains (intersection s xs) b ≡ (contains s b && contains xs b)
  unfolding contains intersection
  contains-intersection b [] xs = refl
  contains-intersection b (a ∷ s) xs = ground (arith, contains-intersection b s xs)

  pub subset_mem : (a : A) (xs ys : List A) → subset xs ys ≡ true → Has xs a → Has ys a
  unfolding contains subset
  subset_mem a [] ys h m = cc
  subset_mem a (x ∷ xs) ys h m = ground (arith, subset_mem a xs ys)

  pub subset_of : (xs ys : List A) → ((a : A) → Has xs a → Has ys a) → subset xs ys ≡ true
  unfolding contains subset
  subset_of [] ys h = refl
  subset_of (x ∷ xs) ys h =
      ground (arith, h x (ground arith), subset_of xs ys (λ a m. h a (ground arith)))

  pub add-Distinct : (a : A) (s : List A) → Distinct s → Distinct (add a s)
  unfolding add
  add-Distinct a s h = ground arith

  pub to_set-Distinct : (xs : List A) → Distinct (to_set xs)
  unfolding to_set
  to_set-Distinct [] = tt
  to_set-Distinct (x ∷ xs) = add-Distinct x (to_set xs) (to_set-Distinct xs)

  length-to_set-le : (xs : List A) → length (to_set xs) ≤ length xs
  unfolding to_set add
  length-to_set-le [] = omega arith
  length-to_set-le (x ∷ xs) = ground (arith, length-to_set-le xs)

  -- Comparing the two lengths decides that no element repeats.
  pub unique-Distinct : (xs : List A) → (unique xs ≡ true) ↔ Distinct xs
  unfolding unique to_set add
  unique-Distinct [] = (λ _. tt, λ _. refl)
  unique-Distinct (x ∷ xs) =
      ground (arith, unique-Distinct xs, length-to_set-le xs, contains-to_set x xs)

  pub to_set_of_Distinct : (xs : List A) → Distinct xs → to_set xs ≡ xs
  unfolding to_set add
  to_set_of_Distinct [] h = refl
  to_set_of_Distinct (x ∷ xs) h = ground (arith, to_set_of_Distinct xs h.1)

  pub to_set_idem : (xs : List A) → to_set (to_set xs) ≡ to_set xs
  to_set_idem xs = to_set_of_Distinct (to_set xs) (to_set-Distinct xs)

  pub difference-Distinct : (s xs : List A) → Distinct s → Distinct (difference s xs)
  unfolding difference
  difference-Distinct [] xs h = tt
  difference-Distinct (a ∷ s) xs h =
      ground (arith, difference-Distinct s xs, contains-difference a s xs)

  pub difference-keeps_other :
      (c d : A) (s : List A) → Has s c → d ≢ c → Has (difference s (d ∷ [])) c
  unfolding contains
  difference-keeps_other c d s m ne = contains-difference c s (d ∷ []) ∙ ground (arith, m, ne)

  pub add-keeps : (c d : A) (s : List A) → Has s c → Has (add d s) c
  add-keeps c d s m = contains-add d c s ∙ ground (arith, m)

  pub contains-keep :
      (p : A → Bool) (b : A) (xs : List A) → contains (keep p xs) b ≡ (contains xs b && p b)
  unfolding contains
  contains-keep p b [] = refl
  contains-keep p b (x ∷ xs) = ground (arith, contains-keep p b xs)

  pub any-false :
      (p : A → Bool) (xs : List A) → ((a : A) → Has xs a → p a ≡ false) → any p xs ≡ false
  unfolding contains
  any-false p [] h = refl
  any-false p (x ∷ xs) h =
      ground (arith, h x (ground arith), any-false p xs (λ a m. h a (ground arith)))

  pub any-false_mem :
      (p : A → Bool) (xs : List A) (a : A) → any p xs ≡ false → Has xs a → p a ≡ false
  unfolding contains
  any-false_mem p [] a h m = cc
  any-false_mem p (x ∷ xs) a h m = ground (arith, any-false_mem p xs a)

module _ {ℓ} {A : Type ℓ} where
  pub all_of_All : (p : A → Bool) (xs : List A) → All (λ x. p x ≡ true) xs → all p xs ≡ true
  all_of_All p [] h = refl
  all_of_All p (x ∷ xs) h = ground (arith, all_of_All p xs h.1)

  pub All-all : (p : A → Bool) (xs : List A) → all p xs ≡ true → All (λ x. p x ≡ true) xs
  All-all p [] h = tt
  All-all p (x ∷ xs) h = (ground arith, All-all p xs (ground arith))

  pub any_of_All : (p : A → Bool) (xs : List A) → All (λ x. p x ≡ false) xs → any p xs ≡ false
  any_of_All p [] h = refl
  any_of_All p (x ∷ xs) h = ground (arith, any_of_All p xs h.1)

  pub All-any : (p : A → Bool) (xs : List A) → any p xs ≡ false → All (λ x. p x ≡ false) xs
  All-any p [] h = tt
  All-any p (x ∷ xs) h = (ground arith, All-any p xs (ground arith))
