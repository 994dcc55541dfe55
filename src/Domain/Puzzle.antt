-- ===== src/Domain/Puzzle.antt =====
-- src/deductra/domain/puzzle.py: the immutable puzzle specification and `validate_references`.
pub mod References
use deductra.Common.{
  String, Bool, true, not, Option, List, map, string_eq, pair_eq, nat_eq, bool_eq, all, contains,
  subset, unique, value_error, Result, raise_if, ◌>>◌,
}
use deductra.Common.Int.{ℤ}
use deductra.Canonical.{Json}
use deductra.Domain.Atoms.{Atom, assignment, exclusion, atom_eq}
use deductra.Domain.Constraints.{Constraint, ConstraintKind, composite}
use deductra.Domain.Values.{Domain, Variable}

-- A datetime by its JSON text, and whether it has a timezone offset.
pub record Timestamp : Type 0 where
  pub iso : String
  pub has_offset : Bool

pub data SourceKind : Type 0 where
  golden generated user imported : SourceKind

pub record PuzzleIdentity : Type 0 where
  pub puzzle_id : String
  pub revision_id : String
  pub family_id : String
  pub schema_version : String
  pub title : String
  pub author : Option String
  pub source_kind : SourceKind
  pub parent_revision_id : Option String
  pub created_at : Timestamp
  pub metadata : Json

pub record Clue : Type 0 where
  pub clue_id : String
  pub text_of : String
  pub constraint_ids : List String
  pub locale : String
  pub template_id : Option String
  pub instructional_redundancy : Bool
  pub metadata : Json

pub record DisplaySpec : Type 0 where
  pub locale : String
  pub accessibility_labels : List (String × String)
  pub metadata : Json

pub record GenerationLink : Type 0 where
  pub generation_id : String
  pub parent_revision_ids : List String
  pub seed : Option ℤ
  pub metadata : Json

pub data ProvenanceKind : Type 0 where
  entity activity agent : ProvenanceKind

pub record ProvenanceReference : Type 0 where
  pub provenance_id : String
  pub kind : ProvenanceKind
  pub label : String
  pub metadata : Json

pub record PuzzleSpec : Type 0 where
  pub identity : PuzzleIdentity
  pub domains : List Domain
  pub variables : List Variable
  pub constraints : List Constraint
  pub clues : List Clue
  pub givens : List Atom
  pub display_spec : DisplaySpec
  pub generation_lineage : Option GenerationLink
  -- the references of the `ProvenanceBundle`
  pub provenance : List ProvenanceReference
  pub metadata : Json

-- `PuzzleIdentity.require_timezone`
unfoldable pub require_timezone : PuzzleIdentity → Result (Unit {0})
require_timezone i =
    raise_if (not i.created_at.has_offset) (value_error "created_at must include a timezone offset")

module _ (p : PuzzleSpec) where
  abbrev pub domain_ids : List String
  domain_ids = map (λ d. d.domain_id) p.domains

  abbrev pub variable_ids : List String
  variable_ids = map (λ v. v.variable_id) p.variables

  abbrev pub constraint_ids : List String
  constraint_ids = map (λ c. c.constraint_id) p.constraints

  abbrev pub clue_ids : List String
  clue_ids = map (λ c. c.clue_id) p.clues

-- the test of `missing_given_variables`
abbrev pub given_known : List String → Atom → Bool
given_known variables (assignment v x) = contains variables v
given_known variables (exclusion v x) = contains variables v
given_known variables _ = true

-- the loop over the composite constraints
abbrev pub references_known : List String → ConstraintKind → Bool
references_known known (composite op ids) = subset ids known
references_known known _ = true

-- `PuzzleSpec.validate_references`
unfoldable pub validate_references : PuzzleSpec → Result (Unit {0})
validate_references p = do
  raise_if (not (unique (domain_ids p))) (value_error "domain identifiers must be unique")
  raise_if (not (unique (variable_ids p))) (value_error "variable identifiers must be unique")
  raise_if (not (unique (constraint_ids p))) (value_error "constraint identifiers must be unique")
  raise_if (not (unique (clue_ids p))) (value_error "clue identifiers must be unique")
  raise_if (not (all (λ v. contains (domain_ids p) v.domain_id) p.variables))
      (value_error "variables reference unknown domains")
  raise_if (not (all (λ c. subset c.constraint_ids (constraint_ids p)) p.clues))
      (value_error "clues reference unknown constraints")
  raise_if (not (all (λ c. references_known (constraint_ids p) c.kind) p.constraints))
      (value_error "composite constraint references unknown constraints")
  raise_if (not (all (given_known (variable_ids p)) p.givens))
      (value_error "givens reference unknown variables")
