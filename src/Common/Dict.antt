-- ===== src/Common/Dict.antt =====
-- Python's dicts with text keys as association lists, `d[k] = v`, and `sorted(d.items())`.
use Prim.Native.Nat.{Ordering}
pub mod Items
use Prim.Native.String.{String, compare}
use mathlib.Core.Path.{◌≡◌, refl, ap, ◌∙◌}
use mathlib.Core.Logic.{◌≢◌, ◌↔◌}
use mathlib.Core.Bool.{Bool, true, false}
use mathlib.Core.Option
use mathlib.Core.Option.{Option, none, some}
use mathlib.Core.List.{List, [], ◌∷◌}
use text.Mathlib.TextPositions.{compare_refl}
use native.Mathlib.Omega.{arith}
use deductra.Common.Tests.{if◌then◌else◌}
use deductra.Common.Equality.{◌==◌, string_eq}
use deductra.Common.Order.{text_le, text_le_refl, text_le_total, place, sort_by, sort_by_idem}
use deductra.Common.Sets.{contains}
use deductra.Common.Errors.{Result, ok, err, key_error}

abbrev pub Dict {ℓ} : Type ℓ → Type ℓ
Dict V = List (String × V)

module _ {ℓ} {V : Type ℓ} where
  abbrev pub keys : Dict V → List String
  keys [] = []
  keys ((k, v) ∷ d) = k ∷ keys d

  abbrev pub values : Dict V → List V
  values [] = []
  values ((k, v) ∷ d) = v ∷ values d

  -- `d.get(k)`
  unfoldable pub lookup : String → Dict V → Option V
  lookup k [] = none
  lookup k ((j, v) ∷ d) = if j == k then some v else lookup k d

  -- `d[k] = v`
  unfoldable pub insert : String → V → Dict V → Dict V
  insert k v [] = (k, v) ∷ []
  insert k v ((j, w) ∷ d) = if j == k then (j, v) ∷ d else (j, w) ∷ insert k v d

  -- `{k: v for k, v in kvs}` over a dict that is there: of two equal keys the later value stays
  unfoldable pub dict_of : Dict V → Dict V → Dict V
  dict_of d [] = d
  dict_of d ((k, v) ∷ kvs) = dict_of (insert k v d) kvs

  -- `d[k]`
  unfoldable pub subscript : String → Dict V → Result V
  subscript k d = elim (lookup k d) [ some v ↦ ok v | none ↦ err key_error ]

  -- `d.pop(k)`, the keys of a dict being distinct
  unfoldable pub remove_key : String → Dict V → Dict V
  remove_key k [] = []
  remove_key k ((j, v) ∷ d) = if j == k then remove_key k d else (j, v) ∷ remove_key k d

  abbrev pub item_le : String × V → String × V → Bool
  item_le (k, _) (j, _) = text_le k j

  -- `dict(sorted(d.items()))`; the keys of a dict differ, so the order is that of the keys
  unfoldable pub sort_items : Dict V → Dict V
  unfolding sort_by text_le
  sort_items = sort_by item_le

  pub lookup-insert :
      (k j : String) (v : V) (d : Dict V)
      → lookup j (insert k v d) ≡ (if k == j then some v else lookup j d)
  unfolding lookup insert
  lookup-insert k j v [] = refl
  lookup-insert k j v ((i, w) ∷ d) = ground (arith, lookup-insert k j v d)

  pub lookup-remove_key :
      (k j : String) (d : Dict V)
      → lookup j (remove_key k d) ≡ (if k == j then none else lookup j d)
  unfolding lookup remove_key
  lookup-remove_key k j [] = ground arith
  lookup-remove_key k j ((i, w) ∷ d) = ground (arith, lookup-remove_key k j d)

  lookup-place :
      (k j : String) (v : V) (d : Dict V)
      → lookup j (place item_le (k, v) d) ≡ (if k == j then some v else lookup j d)
  unfolding lookup place
  lookup-place k j v [] = refl
  lookup-place k j v ((i, w) ∷ d) = ground (arith, lookup-place k j v d, text_le_refl k)

  -- Sorting the items changes no entry.
  pub lookup-sort_items : (j : String) (d : Dict V) → lookup j (sort_items d) ≡ lookup j d
  unfolding lookup sort_items
  lookup-sort_items j [] = refl
  lookup-sort_items j ((k, v) ∷ d) =
      ground (arith, lookup-place k j v (sort_items d), lookup-sort_items j d)

  pub sort_items_idem : (d : Dict V) → sort_items (sort_items d) ≡ sort_items d
  unfolding sort_items
  sort_items_idem d = sort_by_idem item_le (λ (k, _) (j, _). text_le_total k j) d

  pub contains-keys : (k : String) (d : Dict V) → (contains (keys d) k ≡ true) ↔ (lookup k d ≢ none)
  unfolding contains lookup
  contains-keys k [] = (λ h. cc, λ h. absurd (h refl))
  contains-keys k (_ ∷ d) = ground (arith, contains-keys k d)

  -- `{k: f(v) for k, v in d.items()}`
  unfoldable pub map_values {κ} : {W : Type κ} → (V → W) → Dict V → Dict W
  map_values f [] = []
  map_values f ((k, v) ∷ d) = (k, f v) ∷ map_values f d

module _ {ℓ κ} {V : Type ℓ} {W : Type κ} (f : V → W) where
  pub lookup-map_values :
      (k : String) (d : Dict V) → lookup k (map_values f d) ≡ Option.map f (lookup k d)
  unfolding lookup map_values
  lookup-map_values k [] = refl
  lookup-map_values k ((j, v) ∷ d) = ground (arith, lookup-map_values k d)

  map_values-place :
      (k : String) (v : V) (d : Dict V)
      → map_values f (place item_le (k, v) d) ≡ place item_le (k, f v) (map_values f d)
  unfolding place map_values
  map_values-place k v [] = refl
  map_values-place k v ((j, w) ∷ d) = ground (arith, map_values-place k v d)

  pub map_values-sort_items :
      (d : Dict V) → map_values f (sort_items d) ≡ sort_items (map_values f d)
  unfolding map_values sort_items
  map_values-sort_items [] = refl
  map_values-sort_items ((k, v) ∷ d) =
      map_values-place k v (sort_items d) ∙ ap (place item_le (k, f v)) (map_values-sort_items d)

module _ {ℓ} {V : Type ℓ} (f : V → V) (same : (v : V) → f (f v) ≡ f v) where
  pub map_values_idem : (d : Dict V) → map_values f (map_values f d) ≡ map_values f d
  unfolding map_values
  map_values_idem [] = refl
  map_values_idem ((k, v) ∷ d) = cc (same v, map_values_idem d)
