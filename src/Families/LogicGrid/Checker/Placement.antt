-- ===== src/Families/LogicGrid/Checker/Placement.antt =====
-- The checks of the rows: no violation is reported exactly for a complete assignment.
use deductra.Common.{
  String, ◌<>◌, ◌≡◌, refl, sym, ap, ◌∙◌, ◌≢◌, ◌⊎◌, inl, inr, false, List, [], ◌∷◌, ◌++◌, map, arith,
  string_eq, pair_eq, nat_eq, bool_eq, All, contains, Has, to_set, difference, Distinct,
  contains-to_set, text_le, place, sort_texts,
}
use deductra.Common.Dict.{Dict, keys, insert, dict_of}
use deductra.Common.Dict.Items.{NewTo, NewTo-nil, NewTo-insert, dict_of_new}
use deductra.Domain.Values.{Domain, value_ids}
use deductra.Families.LogicGrid.Specification.{LogicGridSpec, variables_by_id}
use deductra.Families.LogicGrid.Checker.{Rows, place_row, place_rows, row_violations}

abbrev pub clean : Dict String → Rows
clean d = record { violations = []; by_variable = d }

module _ (variables value_ids : List String) where
  -- The assignments that can follow those of `d`.
  Fits : Dict String → List (String × String) → Type 0
  Fits d [] = Unit
  Fits d ((v, x) ∷ rest) =
      Has variables v × (contains (keys d) v ≡ false) × Has value_ids x × Fits (insert v x d) rest

  append_some : (xs : List String) (s : String) → (xs ++ s ∷ []) ≢ []
  append_some [] s = λ e. cc
  append_some (x ∷ xs) s = λ e. cc

  place_row-keeps :
      (seen : Rows) (entry : String × String)
      → seen.violations ≢ []
      → (place_row variables value_ids seen entry).violations ≢ []
  unfolding place_row
  place_row-keeps seen (v, x) h = ground (
    arith,
    append_some seen.violations ("unknown_variable:" <> v),
    append_some seen.violations ("duplicate_assignment:" <> v),
    append_some seen.violations ("unknown_value:" <> x),
  )

  place_rows-keeps :
      (seen : Rows) (entries : List (String × String))
      → seen.violations ≢ []
      → (place_rows variables value_ids seen entries).violations ≢ []
  unfolding place_rows
  place_rows-keeps seen [] h = h
  place_rows-keeps seen (entry ∷ rest) h =
      place_rows-keeps (place_row variables value_ids seen entry) rest
        (place_row-keeps seen entry h)

  -- One turn of the loop reports a violation or takes the entry over.
  place_row-cases :
      (d : Dict String) (v x : String)
      → ((place_row variables value_ids (clean d) (v, x)).violations ≢ [])
        ⊎ (Has variables v
            × (contains (keys d) v ≡ false)
            × Has value_ids x
            × (place_row variables value_ids (clean d) (v, x) ≡ clean (insert v x d)))
  unfolding place_row
  place_row-cases d v x = ground arith

  place_rows-Fits :
      (d : Dict String) (entries : List (String × String))
      → (place_rows variables value_ids (clean d) entries).violations ≡ []
      → Fits d entries
  unfolding place_rows Fits
  place_rows-Fits d [] h = tt
  place_rows-Fits d ((v, x) ∷ rest) h = elim (place_row-cases d v x) [
    | inl some_violation ↦
        absurd
          (place_rows-keeps (place_row variables value_ids (clean d) (v, x)) rest some_violation h)
    | inr (k, f, m, e) ↦ (
      k,
      f,
      m,
      place_rows-Fits (insert v x d) rest
          (ap (λ r. (place_rows variables value_ids r rest).violations) (sym e) ∙ h),
    )
  ]

  place_rows_of_Fits :
      (d : Dict String) (entries : List (String × String))
      → Fits d entries
      → place_rows variables value_ids (clean d) entries ≡ clean (dict_of d entries)
  unfolding place_rows place_row Fits dict_of
  place_rows_of_Fits d [] h = refl
  place_rows_of_Fits d ((v, x) ∷ rest) (k, f, m, fits) =
      ground (arith, place_rows_of_Fits (insert v x d) rest fits)

  -- Every variable and every value is known, and no variable has two values.
  abbrev pub IsPlacement : List (String × String) → Type 0
  IsPlacement entries =
      All (λ (v, x). Has variables v × Has value_ids x) entries × Distinct (keys entries)

  Fits-IsPlacement :
      (d : Dict String) (entries : List (String × String))
      → Fits d entries
      → IsPlacement entries × NewTo d entries
  unfolding Fits NewTo
  Fits-IsPlacement d [] fits = ((tt, tt), tt)
  Fits-IsPlacement d ((v, x) ∷ rest) (k, f, m, fits) =
      let (p, n) = Fits-IsPlacement (insert v x d) rest fits in
      let (old, own) = (NewTo-insert d v x rest).0 n in ((((k, m), p.0), (own, p.1)), (f, old))

  Fits-of_IsPlacement :
      (d : Dict String) (entries : List (String × String))
      → IsPlacement entries
      → NewTo d entries
      → Fits d entries
  unfolding Fits NewTo
  Fits-of_IsPlacement d [] h n = tt
  Fits-of_IsPlacement d ((v, x) ∷ rest) (known, (own, distinct)) (f, old) = (
    known.0.0,
    f,
    known.0.1,
    Fits-of_IsPlacement (insert v x d) rest (known.1, distinct)
        ((NewTo-insert d v x rest).1 (old, own)),
  )

  -- A placement is kept, without a violation.
  pub place_rows_lem :
      (entries : List (String × String))
      → IsPlacement entries
      → place_rows variables value_ids (clean []) entries ≡ clean entries
  place_rows_lem entries h =
      let fits = Fits-of_IsPlacement [] entries h (NewTo-nil entries) in
      place_rows_of_Fits [] entries fits ∙ ap clean (dict_of_new [] entries h.1 (NewTo-nil entries))

  -- Nothing is reported only for a placement.
  pub place_rows-IsPlacement :
      (entries : List (String × String))
      → (place_rows variables value_ids (clean []) entries).violations ≡ []
      → IsPlacement entries
  place_rows-IsPlacement entries h = (Fits-IsPlacement [] entries (place_rows-Fits [] entries h)).0

place-some : (v : String) (xs : List String) → place text_le v xs ≢ []
unfolding place
place-some v [] = λ e. cc
place-some v (x ∷ xs) = ground arith

map-nil : (f : String → String) (xs : List String) → map f xs ≡ [] → xs ≡ []
map-nil f [] h = refl
map-nil f (x ∷ xs) h = cc

sort_texts-nil : (xs : List String) → sort_texts xs ≡ [] → xs ≡ []
unfolding sort_texts
sort_texts-nil [] h = refl
sort_texts-nil (x ∷ xs) h = absurd (place-some x (sort_texts xs) h)

append-both_nil : (xs ys : List String) → xs ++ ys ≡ [] → (xs ≡ []) × (ys ≡ [])
append-both_nil [] ys h = (refl, h)
append-both_nil (x ∷ xs) ys h = cc

difference-subset :
    (xs ys : List String) → difference xs ys ≡ [] → (a : String) → Has xs a → Has ys a
unfolding difference contains
difference-subset [] ys h a m = cc
difference-subset (x ∷ xs) ys h a m = ground (arith, difference-subset xs ys (ground arith) a)

difference-nil :
    (xs ys : List String) → ((a : String) → Has xs a → Has ys a) → difference xs ys ≡ []
unfolding difference contains
difference-nil [] ys h = refl
difference-nil (x ∷ xs) ys h =
    ground (arith, h x (ground arith), difference-nil xs ys (λ a m. h a (ground arith)))

module _ (variables value_ids : List String) where
  -- the rows that are placed, with the variables that are missing
  abbrev pub report_of : List (String × String) → Rows
  report_of entries =
      let rows =
        place_rows variables value_ids (record { violations = []; by_variable = [] }) entries in
      record rows {
        violations =
            rows.violations
            ++ map (λ v. "missing_assignment:" <> v)
                (sort_texts (difference (to_set variables) (keys rows.by_variable)));
      }

  -- The rows of a complete assignment: a placement with a row for every variable.
  abbrev pub PlacesAll : List (String × String) → Type 0
  PlacesAll entries =
      IsPlacement variables value_ids entries
      × ((v : String) → Has variables v → Has (keys entries) v)

  pub report_of-PlacesAll :
      (entries : List (String × String)) → (report_of entries).violations ≡ [] → PlacesAll entries
  report_of-PlacesAll entries h =
      let seen = place_rows variables value_ids (clean []) entries in
      let missing = difference (to_set variables) (keys seen.by_variable) in
      let (none_seen, none_missing) = append-both_nil seen.violations _ h in
      let placed = place_rows-IsPlacement variables value_ids entries none_seen in
      let all_there =
        sort_texts-nil missing
          (map-nil (λ v. "missing_assignment:" <> v) (sort_texts missing) none_missing) in
      let kept = ap (λ r. keys r.by_variable) (place_rows_lem variables value_ids entries placed) in
      (
        placed,
        λ v k.
            ap (λ ks. contains ks v) (sym kept)
            ∙ difference-subset (to_set variables) (keys seen.by_variable) all_there v
                (contains-to_set v variables ∙ k),
      )

  pub report_of_lem :
      (entries : List (String × String)) → PlacesAll entries → report_of entries ≡ clean entries
  unfolding sort_texts
  report_of_lem entries h =
      let kept = place_rows_lem variables value_ids entries h.0 in
      let all_there =
        difference-nil (to_set variables) (keys entries)
          (λ v k. h.1 v (sym (contains-to_set v variables) ∙ k)) in
      let report : Rows → Rows = λ r. record r {
        violations =
            r.violations
            ++ map (λ v. "missing_assignment:" <> v)
                (sort_texts (difference (to_set variables) (keys r.by_variable)));
      } in
      ap report kept ∙ rw all_there refl

abbrev pub IsComplete : LogicGridSpec → Domain → List (String × String) → Type 0
IsComplete p anchor = PlacesAll (keys (variables_by_id p)) (value_ids anchor)

pub row_violations-IsComplete :
    (p : LogicGridSpec) (anchor : Domain) (entries : List (String × String))
    → (row_violations p anchor entries).violations ≡ []
    → IsComplete p anchor entries
unfolding row_violations
row_violations-IsComplete p anchor =
    report_of-PlacesAll (keys (variables_by_id p)) (value_ids anchor)

pub row_violations_lem :
    (p : LogicGridSpec) (anchor : Domain) (entries : List (String × String))
    → IsComplete p anchor entries
    → row_violations p anchor entries ≡ clean entries
unfolding row_violations
row_violations_lem p anchor = report_of_lem (keys (variables_by_id p)) (value_ids anchor)
