-- ===== src/Families/LogicGrid/Specification.antt =====
-- src/deductra/families/logic_grid/specification.py: the specification of a Logic Grid puzzle and
-- the validator of the family's contract, split by what its parts are about.
pub mod Clues
pub mod Givens
pub mod Contract
pub mod Kinds
pub mod Ready
use Prim.Native.Char.{code}
use deductra.Common.{
  ℕ, String, Bool, true, false, not, ◌&&◌, ◌||◌, Option, none, some, List, [], ◌∷◌, map, ltb, leb,
  eqb, if◌then◌else◌, ◌==◌, string_eq, pair_eq, nat_eq, bool_eq, length, any, find, concat_map,
  contains, same_set, unique, Error, value_error, index_error, stop_iteration, Result, err, ok,
  raise_if, ◌>>=◌, ◌>>◌,
}
use deductra.Common.Dict.{Dict, keys, values, dict_of, subscript}
use deductra.Domain.Atoms.{atom_eq}
use deductra.Domain.Constraints.{Constraint, ConstraintKind, all_different, arithmetic}
use deductra.Domain.Values.{DomainValue, Domain, Role, entity_assignment, Variable, value_ids}
use deductra.Domain.Puzzle.{PuzzleSpec}

pub record LogicGridCategory : Type 0 where
  pub category_id : String
  pub label : String
  pub domain_id : String
  pub variable_ids : List String

pub record LogicGridSpec : Type 0 where
  -- the fields inherited from `PuzzleSpec`
  pub base : PuzzleSpec
  pub categories : List LogicGridCategory
  pub anchor_category_id : String

-- The code points of the characters that `str.isspace` accepts.
is_space : ℕ → Bool
is_space c =
    (leb 9 c && leb c 13)
    || (leb 28 c && leb c 32)
    || (leb 8192 c && leb c 8202)
    || contains (133 ∷ 160 ∷ 5760 ∷ 8232 ∷ 8233 ∷ 8239 ∷ 8287 ∷ 12288 ∷ []) c

lstrip : String → String
lstrip String.[] = String.[]
lstrip (String.◌∷◌ c s) = if is_space (code c) then lstrip s else String.◌∷◌ c s

rstrip : String → String
rstrip String.[] = String.[]
rstrip (String.◌∷◌ c s) =
    let rest = rstrip s in if rest == "" && is_space (code c) then "" else String.◌∷◌ c rest

-- `s.strip()`
unfoldable pub strip : String → String
unfolding is_space lstrip rstrip
strip s = rstrip (lstrip s)

-- `any(not label for label in labels) or len(labels) != len(set(labels))`
abbrev pub bad_labels : List String → Bool
bad_labels labels = any (λ l. l == "") labels || not (unique labels)

abbrev or_stop {ℓ} : {A : Type ℓ} → Option A → Result A
or_stop none = err stop_iteration
or_stop (some a) = ok a

module _ (p : LogicGridSpec) where
  abbrev pub category_ids : List String
  category_ids = map (λ c. c.category_id) p.categories

  abbrev pub category_domain_ids : List String
  category_domain_ids = map (λ c. c.domain_id) p.categories

  -- `next(c for c in categories if c.category_id == anchor_category_id)`
  unfoldable pub anchor_category : Result LogicGridCategory
  anchor_category = or_stop (find (λ c. c.category_id == p.anchor_category_id) p.categories)

  -- `next(d for d in domains if d.domain_id == anchor_category.domain_id)`
  unfoldable pub anchor_domain : Result Domain
  unfolding anchor_category
  anchor_domain = do
    category ← anchor_category
    or_stop (find (λ d. d.domain_id == category.domain_id) p.base.domains)

  abbrev pub domains_by_id : Dict Domain
  domains_by_id = dict_of [] (map (λ d. (d.domain_id, d)) p.base.domains)

  abbrev pub variables_by_id : Dict Variable
  variables_by_id = dict_of [] (map (λ v. (v.variable_id, v)) p.base.variables)

  abbrev pub declared_variable_ids : List String
  declared_variable_ids = concat_map (λ c. c.variable_ids) p.categories

unfoldable pub validate_categories : LogicGridSpec → Result (Unit {0})
unfolding strip
validate_categories p = do
  raise_if (not (p.base.identity.family_id == "logic-grid"))
      (value_error "family_id must be 'logic-grid'")
  raise_if (not (p.base.identity.schema_version == "1.0.0"))
      (value_error "schema_version must be '1.0.0'")
  raise_if (ltb (length p.categories) 3)
      (value_error "Logic Grid requires at least three categories")
  raise_if (not (unique (category_ids p))) (value_error "category identifiers must be unique")
  raise_if (bad_labels (map (λ c. strip c.label) p.categories))
      (value_error "category labels must be non-empty and unique")
  raise_if (not (contains (category_ids p) p.anchor_category_id))
      (value_error "anchor_category_id must reference a declared category")

-- `test(domains_by_id[domain_id]) for domain_id in category_domain_ids`, under `any`
any_domain : Dict Domain → (Domain → Bool) → List String → Result Bool
any_domain domains test [] = ok false
any_domain domains test (i ∷ ids) = do
  d ← subscript i domains
  if test d then ok true else any_domain domains test ids

-- `len(domains_by_id[category_domain_ids[0]].values)`
category_size : LogicGridSpec → Result ℕ
category_size p = elim (category_domain_ids p) [
  | [] ↦ err index_error
  | i ∷ ids ↦ (do d ← subscript i (domains_by_id p); ok (length d.values))
]

-- Returns `category_size`.
unfoldable pub validate_domains : LogicGridSpec → Result ℕ
unfolding any_domain category_size strip
validate_domains p = do
  raise_if (not (unique (category_domain_ids p)))
      (value_error "each category must reference a different domain")
  raise_if (not (same_set (category_domain_ids p) (keys (domains_by_id p))))
      (value_error "categories must cover every domain exactly once")
  size ← category_size p
  raise_if (ltb size 2) (value_error "each category must contain at least two items")
  uneven ←
      any_domain (domains_by_id p) (λ d. not (eqb (length d.values) size)) (category_domain_ids p)
  raise_if uneven (value_error "all Logic Grid categories must have the same size")
  indistinct ← any_domain (domains_by_id p) (λ d. not d.distinct_by_default) (category_domain_ids p)
  raise_if indistinct (value_error "every category domain must be distinct by default")
  raise_if (not (unique (concat_map value_ids p.base.domains)))
      (value_error "item value identifiers must be globally unique")
  raise_if (any (λ d. bad_labels (map (λ v. strip v.label) d.values)) p.base.domains)
      (value_error "item labels must be non-empty and unique within a category")
  ok size

is_entity_assignment : Role → Bool
is_entity_assignment entity_assignment = true
is_entity_assignment _ = false

-- Returns the anchor's category and domain.
unfoldable pub validate_variables : LogicGridSpec → ℕ → Result (LogicGridCategory × Domain)
unfolding is_entity_assignment anchor_category
validate_variables p size = do
  raise_if (not (unique (declared_variable_ids p)))
      (value_error "category variable references must be unique")
  raise_if (not (same_set (declared_variable_ids p) (keys (variables_by_id p))))
      (value_error "categories must partition every variable exactly once")
  raise_if (any (λ c. not (eqb (length c.variable_ids) size)) p.categories)
      (value_error "each category requires one variable for each item")
  category ← anchor_category p
  anchor ← subscript category.domain_id (domains_by_id p)
  raise_if
      (any (λ v. not (v.domain_id == anchor.domain_id) || not (is_entity_assignment v.role))
        p.base.variables)
      (value_error "all Logic Grid variables must be entity assignments over the anchor domain")
  ok (category, anchor)

unequal_lengths : Error
unequal_lengths = value_error "zip() arguments have different lengths"

-- the loop over `zip(category.variable_ids, domain.values, strict=True)`
pub validate_alignment : Dict Variable → List String → List DomainValue → Result (Unit {0})
unfolding unequal_lengths
validate_alignment variables [] [] = ok tt
validate_alignment variables (i ∷ ids) (x ∷ xs) = do
  v ← subscript i variables
  raise_if (not (v.label == x.label))
      (value_error "category variable order and labels must align with domain values")
  validate_alignment variables ids xs
validate_alignment variables _ _ = err unequal_lengths

unfoldable pub validate_alignments :
    Dict Domain → Dict Variable → List LogicGridCategory → Result (Unit {0})
unfolding validate_alignment
validate_alignments domains variables [] = ok tt
validate_alignments domains variables (c ∷ cs) = do
  d ← subscript c.domain_id domains
  validate_alignment variables c.variable_ids d.values
  validate_alignments domains variables cs
