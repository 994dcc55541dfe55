-- ===== src/Families/LogicGrid/Rules/Entailed.antt =====
-- What the rule of category bijection concludes holds in every solution that the state still allows.
use mathlib.Core.Path.{subst}
use deductra.Common.{
  ◌-◌, String, ◌≡◌, sym, ap, ◌∙◌, ◌≢◌, inl, inr, not, ◌&&◌, none, some, List, [], ◌∷◌, map, arith,
  eqb, if◌then◌else◌, Option-cases, if-cases, if-both, ◌==◌, string_dec, string_eq, pair_eq, nat_eq,
  bool_eq, length, All, contains, Has, Distinct, text_le, contains-sort_by, sort_texts, ok, ◌>>=◌,
  >>=-eq-ok, ok-injective,
}
use deductra.Common.Dict.{values, subscript}
use deductra.Domain.Atoms.{atom_eq}
use deductra.Reasoning.State.{PuzzleState}
use deductra.Families.LogicGrid.Evaluation.Meaning.{Grid}
use deductra.Families.LogicGrid.Checker.Acceptance.{MarkHolds}
use deductra.Families.LogicGrid.Rules.{first_value, RuleConclusion, is_single, absence_premise}
use deductra.Families.LogicGrid.Rules.Bijection.{
  occupied_by, occupied_rows, all_values, supporting, absences, only_place, only_places,
  bijection_conclusions,
}
use deductra.Families.LogicGrid.Rules.Follows.{
  Allowed, Follows, single-row, absence_premise-Differs, append-Follows, row-Has,
}

-- Every value that an item of the group still has is the row of one of the items.
abbrev pub Covers : PuzzleState → Grid → List String → Type 0
Covers s g ids =
    (values : List String)
    → all_values s ids ≡ ok values
    → (x : String) → Has values x
    → Has (map g.row ids) x

module _ (f : String → String) where
  contains-map : (a : String) (xs : List String) → Has xs a → Has (map f xs) (f a)
  unfolding contains
  contains-map a [] h = cc
  contains-map a (x ∷ xs) h = ground (arith, contains-map a xs)

  contains-preimage :
      (y : String) (xs : List String) → Has (map f xs) y → (a : String) × Has xs a × (f a ≡ y)
  unfolding contains
  contains-preimage y [] h = cc
  contains-preimage y (x ∷ xs) h = elim (string_dec (f x) y) [
    | yes same ↦ (x, ground arith, same)
    | no differ ↦ let (a, m, e) = contains-preimage y xs (ground arith) in (a, ground (arith, m), e)
  ]

  images-apart :
      (a b : String) (xs : List String)
      → Distinct (map f xs)
      → Has xs a
      → Has xs b
      → a ≢ b
      → f a ≢ f b
  unfolding contains
  images-apart a b [] h m n differ e = cc
  images-apart a b (x ∷ xs) h m n differ e =
      ground (arith, contains-map a xs, contains-map b xs, images-apart a b xs h.1)

module _ (s : PuzzleState) (g : Grid) (allowed : Allowed s g) where
  occupied_by-Follows :
      (fixed_id x : String) (ids : List String) {found : List RuleConclusion}
      → g.row fixed_id ≡ x
      → ((a : String) → Has ids a → a ≢ fixed_id → g.row a ≢ x)
      → occupied_by s fixed_id x ids ≡ ok found
      → All (Follows g) found
  unfolding occupied_by contains
  occupied_by-Follows fixed_id x [] e apart h = subst (All (Follows g)) (ok-injective h) tt
  occupied_by-Follows fixed_id x (target_id ∷ ids) e apart h =
      let (target, found_target, h1) =
        >>=-eq-ok (if target_id == fixed_id then ok [] else subscript target_id s.candidate_domains)
          _ h in
      let (rest, found_rest, h2) = >>=-eq-ok (occupied_by s fixed_id x ids) _ h1 in
      let others =
        occupied_by-Follows fixed_id x ids e (λ a m. apart a (ground (arith, m))) found_rest in
      elim (if-cases (contains target x) _ _ (ok-injective h2)) [
        | inl (has, k) ↦
            let other : target_id ≢ fixed_id = λ same.
              let empty : ok target ≡ ok [] = sym found_target ∙ ground (arith, same) in
              absurd (ground (arith, ap (λ xs. contains xs x) (ok-injective empty), has)) in
            subst (All (Follows g)) k ((apart target_id (ground arith) other, (e, tt)), others)
        | inr (has_not, k) ↦ subst (All (Follows g)) k others
      ]

  occupied_rows-Follows :
      (ids fixed_ids : List String) {found : List RuleConclusion}
      → Distinct (map g.row ids)
      → ((a : String) → Has fixed_ids a → Has ids a)
      → occupied_rows s ids fixed_ids ≡ ok found
      → All (Follows g) found
  unfolding occupied_rows contains
  occupied_rows-Follows ids [] distinct inside h = subst (All (Follows g)) (ok-injective h) tt
  occupied_rows-Follows ids (fixed_id ∷ fixed_ids) distinct inside h =
      let (fixed, e, h1) = >>=-eq-ok (subscript fixed_id s.candidate_domains) _ h in
      let (found, f, h2) =
        >>=-eq-ok
          (if is_single fixed
            then (do x ← first_value fixed; occupied_by s fixed_id x ids)
            else ok [])
          _ h1 in
      let (rest, r, h3) = >>=-eq-ok (occupied_rows s ids fixed_ids) _ h2 in
      let others =
        occupied_rows-Follows ids fixed_ids distinct (λ a m. inside a (ground (arith, m))) r in
      elim (if-cases (is_single fixed) _ _ f) [
        | inl (one, k) ↦
            let (x, at, by) = >>=-eq-ok (first_value fixed) _ k in
            let row = single-row fixed x (g.row fixed_id) one at (row-Has s g allowed fixed_id e) in
            let own = inside fixed_id (ground arith) in
            let apart : (a : String) → Has ids a → a ≢ fixed_id → g.row a ≢ x = λ a m differ same.
              images-apart g.row a fixed_id ids distinct m own differ (same ∙ row) in
            subst (All (Follows g)) (ok-injective h3) (
              append-Follows s g allowed found rest
                (occupied_by-Follows fixed_id x ids (sym row) apart by) others)
        | inr (many, k) ↦ subst (All (Follows g)) (ok-injective h3) (
            append-Follows s g allowed found rest (subst (All (Follows g)) (ok-injective k) tt)
              others)
      ]

  supporting-Has :
      (x : String) (ids : List String) {places : List String} (a : String)
      → supporting s x ids ≡ ok places
      → Has ids a
      → g.row a ≡ x
      → Has places a
  unfolding supporting contains
  supporting-Has x [] a h m e = cc
  supporting-Has x (v ∷ ids) {places} a h m e =
      let (xs, f, h1) = >>=-eq-ok (subscript v s.candidate_domains) _ h in
      let (rest, r, h2) = >>=-eq-ok (supporting s x ids) _ h1 in
      let kept : (if contains xs x then v ∷ rest else rest) ≡ places = ok-injective h2 in
      subst (λ ps. Has ps a) kept
        (elim (string_dec v a) [
          | yes same ↦
              let own : Has xs x = subst (Has xs) (ap g.row same ∙ e) (row-Has s g allowed v f) in
              ground arith
          | no differ ↦ ground (arith, supporting-Has x ids a r (ground arith) e)
        ])

  absences-All :
      (target_id x : String) (ids : List String) → All (MarkHolds g) (absences s target_id x ids)
  unfolding absences
  absences-All target_id x [] = tt
  absences-All target_id x (v ∷ ids) =
      if-both (All (MarkHolds g)) (v == target_id) (absences-All target_id x ids)
        (elim (Option-cases (absence_premise s v x)) [
          | inl e ↦
              subst
                (λ o. All (MarkHolds g) (elim o [
                  | none ↦ absences s target_id x ids
                  | some a ↦ a ∷ absences s target_id x ids
                ]))
                (sym e) (absences-All target_id x ids)
          | inr (a, e) ↦
              subst
                (λ o. All (MarkHolds g) (elim o [
                  | none ↦ absences s target_id x ids
                  | some a ↦ a ∷ absences s target_id x ids
                ]))
                (sym e)
                ((absence_premise-Differs s g allowed v x e).0, absences-All target_id x ids)
        ])

  only_place-Follows :
      (ids : List String) (x : String) (places : List String) {found : List RuleConclusion}
      → ((a : String) → Has ids a → g.row a ≡ x → Has places a)
      → Has (map g.row ids) x
      → only_place s ids x places ≡ ok found
      → All (Follows g) found
  unfolding only_place contains
  only_place-Follows ids x (target_id ∷ []) inside covered h =
      let (target, e, h1) = >>=-eq-ok (subscript target_id s.candidate_domains) _ h in
      let (a, m, at) = contains-preimage g.row x ids covered in
      let same : target_id ≡ a = ground (arith, inside a m at) in
      elim (if-cases
        (not (is_single target) && eqb (length (absences s target_id x ids)) (length ids - 1)) _ _
        (ok-injective h1)) [
          | inl (applies, k) ↦
              subst (All (Follows g)) k ((ap g.row same ∙ at, absences-All target_id x ids), tt)
          | inr (fails, k) ↦ subst (All (Follows g)) k tt
        ]
  only_place-Follows ids x [] inside covered h = subst (All (Follows g)) (ok-injective h) tt
  only_place-Follows ids x (_ ∷ _ ∷ _) inside covered h =
      subst (All (Follows g)) (ok-injective h) tt

  only_places-Follows :
      (ids xs : List String) {found : List RuleConclusion}
      → ((x : String) → Has xs x → Has (map g.row ids) x)
      → only_places s ids xs ≡ ok found
      → All (Follows g) found
  unfolding only_places contains
  only_places-Follows ids [] covered h = subst (All (Follows g)) (ok-injective h) tt
  only_places-Follows ids (x ∷ xs) covered h =
      let (places, e, h1) = >>=-eq-ok (supporting s x ids) _ h in
      let (found, f, h2) = >>=-eq-ok (only_place s ids x places) _ h1 in
      let (rest, r, h3) = >>=-eq-ok (only_places s ids xs) _ h2 in
      subst (All (Follows g)) (ok-injective h3) (
        append-Follows s g allowed found rest
          (only_place-Follows ids x places (λ a m at. supporting-Has x ids a e m at)
            (covered x (ground arith)) f)
          (only_places-Follows ids xs (λ y m. covered y (ground (arith, m))) r))

-- If the rows of a group's items differ, the state still allows them, and every value that an item
-- still has is the row of an item, then every conclusion that the rule of category bijection finds
-- for the group holds of the rows, and so do the premises that are named for it.
pub bijection_conclusions-Follows :
    (s : PuzzleState) (g : Grid) (ids : List String) {found : List RuleConclusion}
    → Allowed s g
    → Distinct (map g.row ids)
    → Covers s g ids
    → bijection_conclusions s ids ≡ ok found
    → All (Follows g) found
unfolding bijection_conclusions sort_texts
bijection_conclusions-Follows s g ids allowed distinct covers h =
    let (occupied, e, h1) = >>=-eq-ok (occupied_rows s ids ids) _ h in
    let (values, f, h2) = >>=-eq-ok (all_values s ids) _ h1 in
    let (places, p, h3) = >>=-eq-ok (only_places s ids (sort_texts values)) _ h2 in
    subst (All (Follows g)) (ok-injective h3) (
      append-Follows s g allowed occupied places
        (occupied_rows-Follows s g allowed ids ids distinct (λ a m. m) e)
        (only_places-Follows s g allowed ids (sort_texts values)
          (λ x m. covers values f x (sym (contains-sort_by text_le x values) ∙ m)) p))
