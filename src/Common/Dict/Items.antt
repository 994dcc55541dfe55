-- ===== src/Common/Dict/Items.antt =====
-- Dicts whose keys differ: what holds of every item, and what can be looked up.
use mathlib.Core.Path.{subst}
use mathlib.Core.List.{append-nil, append_assoc}
use mathlib.Core.Logic.{if_pos, if_neg}
use deductra.Common.{
  String, ◌≡◌, refl, sym, ap, ◌∙◌, ◌↔◌, inl, inr, false, ◌||◌, none, some, List, [], ◌∷◌, ◌++◌, map,
  arith, Bool-cases, ◌==◌, string_dec, string_eq, pair_eq, nat_eq, bool_eq, All, contains, to_set,
  Distinct, to_set_of_Distinct, place,
}
use deductra.Common.Dict.{
  Dict, keys, lookup, insert, dict_of, item_le, sort_items, lookup-insert, contains-keys,
  map_values,
}

module _ {ℓ} {V : Type ℓ} where
  contains-keys-none : (k : String) (d : Dict V) → lookup k d ≡ none → contains (keys d) k ≡ false
  unfolding contains lookup
  contains-keys-none k [] h = refl
  contains-keys-none k (_ ∷ d) h = ground (arith, contains-keys-none k d)

  pub lookup-dict_of :
      (j : String) (d kvs : Dict V)
      → Distinct (keys kvs)
      → lookup j (dict_of d kvs) ≡ elim (lookup j kvs) [ some v ↦ some v | none ↦ lookup j d ]
  unfolding dict_of lookup contains
  lookup-dict_of j d [] h = refl
  lookup-dict_of j d ((k, v) ∷ kvs) h =
      ground
        (arith, lookup-dict_of j (insert k v d) kvs h.1, lookup-insert k j v d, contains-keys j kvs)

  pub contains-keys-insert :
      (k j : String) (v : V) (d : Dict V)
      → contains (keys (insert k v d)) j ≡ (k == j || contains (keys d) j)
  unfolding contains insert
  contains-keys-insert k j v [] = refl
  contains-keys-insert k j v ((i, w) ∷ d) = ground (arith, contains-keys-insert k j v d)

  pub contains-keys-dict_of :
      (j : String) (d kvs : Dict V)
      → contains (keys (dict_of d kvs)) j ≡ (contains (keys d) j || contains (keys kvs) j)
  unfolding dict_of contains
  contains-keys-dict_of j d [] = ground arith
  contains-keys-dict_of j d ((k, v) ∷ kvs) =
      ground (arith, contains-keys-dict_of j (insert k v d) kvs, contains-keys-insert k j v d)

  keys-map {κ} :
      {A : Type κ} (key : A → String) (f : A → V) (xs : List A)
      → keys (map (λ x. (key x, f x)) xs) ≡ map key xs
  keys-map key f [] = refl
  keys-map key f (x ∷ xs) = ap (λ rest. key x ∷ rest) (keys-map key f xs)

  insert-append :
      (k : String) (v : V) (d : Dict V)
      → contains (keys d) k ≡ false
      → insert k v d ≡ d ++ ((k, v) ∷ [])
  unfolding insert contains
  insert-append k v [] h = refl
  insert-append k v ((j, w) ∷ d) h = ground (arith, insert-append k v d)

  -- No key is one of the other dict's.
  unfoldable pub NewTo : Dict V → Dict V → Type 0
  NewTo d kvs = All (λ (k, v). contains (keys d) k ≡ false) kvs

  pub NewTo-nil : (kvs : Dict V) → NewTo [] kvs
  unfolding NewTo contains
  NewTo-nil [] = tt
  NewTo-nil (kv ∷ kvs) = (refl, NewTo-nil kvs)

  pub NewTo-insert :
      (d : Dict V) (k : String) (v : V) (kvs : Dict V)
      → NewTo (insert k v d) kvs ↔ (NewTo d kvs × (contains (keys kvs) k ≡ false))
  unfolding NewTo contains
  NewTo-insert d k v [] = (λ h. (tt, refl), λ h. tt)
  NewTo-insert d k v ((j, w) ∷ kvs) =
      ground (arith, NewTo-insert d k v kvs, contains-keys-insert k j v d)

  -- New keys that differ are appended as they are.
  pub dict_of_new : (d kvs : Dict V) → Distinct (keys kvs) → NewTo d kvs → dict_of d kvs ≡ d ++ kvs
  unfolding dict_of NewTo
  dict_of_new d [] h n = sym (append-nil d)
  dict_of_new d ((k, v) ∷ kvs) h n =
      dict_of_new (insert k v d) kvs h.1 ((NewTo-insert d k v kvs).1 (n.1, h.0))
      ∙ (ap (λ e. e ++ kvs) (insert-append k v d n.0) ∙ append_assoc d ((k, v) ∷ []) kvs)

  -- `{key(x): … for x in xs}`
  pub contains-keys-dict_of-map {κ} :
      {A : Type κ} (j : String) (key : A → String) (f : A → V) (xs : List A)
      → contains (keys (dict_of [] (map (λ x. (key x, f x)) xs))) j ≡ contains (map key xs) j
  unfolding contains
  contains-keys-dict_of-map j key f xs =
      contains-keys-dict_of j [] (map (λ x. (key x, f x)) xs)
      ∙ ap (λ ks. contains ks j) (keys-map key f xs)

  pub insert-Distinct :
      (k : String) (v : V) (d : Dict V) → Distinct (keys d) → Distinct (keys (insert k v d))
  unfolding contains insert
  insert-Distinct k v [] h = (refl, tt)
  insert-Distinct k v ((i, w) ∷ d) h =
      ground (arith, insert-Distinct k v d h.1, contains-keys-insert k i v d)

  contains-keys-place :
      (k j : String) (v : V) (d : Dict V)
      → contains (keys (place item_le (k, v) d)) j ≡ (k == j || contains (keys d) j)
  unfolding contains place
  contains-keys-place k j v [] = refl
  contains-keys-place k j v ((i, w) ∷ d) = ground (arith, contains-keys-place k j v d)

  place-Distinct :
      (k : String) (v : V) (d : Dict V)
      → contains (keys d) k ≡ false
      → Distinct (keys d)
      → Distinct (keys (place item_le (k, v) d))
  unfolding contains place
  place-Distinct k v [] a h = (refl, tt)
  place-Distinct k v ((i, w) ∷ d) a h =
      ground (arith, place-Distinct k v d, contains-keys-place k i v d)

  pub contains-keys_sort :
      (j : String) (d : Dict V) → contains (keys (sort_items d)) j ≡ contains (keys d) j
  unfolding contains sort_items
  contains-keys_sort j [] = refl
  contains-keys_sort j ((k, v) ∷ d) =
      ground (arith, contains-keys-place k j v (sort_items d), contains-keys_sort j d)

  pub sort_items-Distinct : (d : Dict V) → Distinct (keys d) → Distinct (keys (sort_items d))
  unfolding sort_items
  sort_items-Distinct [] h = tt
  sort_items-Distinct ((k, v) ∷ d) h =
      place-Distinct k v (sort_items d) (contains-keys_sort k d ∙ h.0) (sort_items-Distinct d h.1)

  module _ {κ} (Q : String × V → Type κ) where
    pub All-lookup : (k : String) (v : V) (d : Dict V) → All Q d → lookup k d ≡ some v → Q (k, v)
    unfolding lookup
    All-lookup k v [] h e = absurd (ground arith)
    All-lookup k v ((j, w) ∷ d) h e = elim (string_dec j k) [
      | yes same ↦ let p : ◌≡◌ {A = String × V} (j, w) (k, v) = ground arith in subst Q p h.0
      | no differ ↦ All-lookup k v d h.1 (ground arith)
    ]

    pub All-by_lookup :
        (d : Dict V)
        → Distinct (keys d)
        → ((k : String) (v : V) → lookup k d ≡ some v → Q (k, v))
        → All Q d
    unfolding lookup contains
    All-by_lookup [] h q = tt
    All-by_lookup ((j, w) ∷ d) h q = (
      q j w (ground arith),
      All-by_lookup d h.1
          (λ k v e. q k v (ground (arith, contains-keys-none j d, contains-keys k d))),
    )

module _ {ℓ κ} {V : Type ℓ} (Q : String × V → Type κ) where
  All-place : (x : String × V) (d : Dict V) → Q x → All Q d → All Q (place item_le x d)
  unfolding place
  All-place x [] q h = (q, tt)
  All-place x (y ∷ d) q h = elim (Bool-cases (item_le x y)) [
    | inl e ↦ rw e (q, h)
    | inr e ↦ rw e (h.0, All-place x d q h.1)
  ]

  pub All-sort_items : (d : Dict V) → All Q d → All Q (sort_items d)
  unfolding sort_items
  All-sort_items [] h = tt
  All-sort_items (x ∷ d) h = All-place x (sort_items d) h.0 (All-sort_items d h.1)

  pub All-insert : (k : String) (v : V) (d : Dict V) → Q (k, v) → All Q d → All Q (insert k v d)
  unfolding insert
  All-insert k v [] q h = (q, tt)
  All-insert k v ((j, w) ∷ d) q h = elim (string_dec j k) [
    | yes same ↦ rw (if_pos _ same) (subst (λ i. Q (i, v)) (sym same) q, h.1)
    | no differ ↦ rw (if_neg _ differ) (h.0, All-insert k v d q h.1)
  ]

-- The candidates of a state: the variables differ, and so do the values of each.
abbrev pub IsCandidates : Dict (List String) → Type 0
IsCandidates d = Distinct (keys d) × All (λ (_, xs). Distinct xs) d

pub map_to_set : (d : Dict (List String)) → IsCandidates d → map_values to_set d ≡ d
unfolding map_values
map_to_set [] h = refl
map_to_set ((k, xs) ∷ d) h = cc (to_set_of_Distinct xs h.1.0, map_to_set d (h.0.1, h.1.1))

pub sort_items-IsCandidates :
    (d : Dict (List String)) → IsCandidates d → IsCandidates (sort_items d)
sort_items-IsCandidates d h =
    (sort_items-Distinct d h.0, All-sort_items (λ (_, xs). Distinct xs) d h.1)

pub insert-IsCandidates :
    (k : String) (xs : List String) (d : Dict (List String))
    → IsCandidates d
    → Distinct xs
    → IsCandidates (insert k xs d)
insert-IsCandidates k xs d h x =
    (insert-Distinct k xs d h.0, All-insert (λ (_, ys). Distinct ys) k xs d x h.1)
