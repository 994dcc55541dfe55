-- ===== src/Domain/Puzzle/References.antt =====
-- `validate_references` accepts exactly the closed specifications.
use deductra.Common.{
  String, ◌≡◌, refl, ◌↔◌, true, List, arith, string_eq, pair_eq, nat_eq, bool_eq, All, All-map,
  contains, Has, subset, Distinct, subset_mem, subset_of, unique-Distinct, all_of_All, All-all, ok,
}
use deductra.Domain.Atoms.{Atom, assignment, exclusion, atom_eq}
use deductra.Domain.Constraints.{ConstraintKind, composite}
use deductra.Domain.Puzzle.{
  PuzzleSpec, domain_ids, variable_ids, constraint_ids, clue_ids, given_known, references_known,
  validate_references,
}

abbrev pub KnownGiven : List String → Atom → Type 0
KnownGiven variables (assignment v x) = Has variables v
KnownGiven variables (exclusion v x) = Has variables v
KnownGiven variables _ = Unit

abbrev pub KnownReferences : List String → ConstraintKind → Type 0
KnownReferences known (composite op ids) = (x : String) → Has ids x → Has known x
KnownReferences known _ = Unit

-- No identifier is declared twice, and every reference is to one that is declared.
pub record IsClosed (p : PuzzleSpec) : Type 0 where
  pub distinct_domains : Distinct (domain_ids p)
  pub distinct_variables : Distinct (variable_ids p)
  pub distinct_constraints : Distinct (constraint_ids p)
  pub distinct_clues : Distinct (clue_ids p)
  pub variables : All (λ v. Has (domain_ids p) v.domain_id) p.variables
  pub clues : All (λ c. (x : String) → Has c.constraint_ids x → Has (constraint_ids p) x) p.clues
  pub composites : All (λ c. KnownReferences (constraint_ids p) c.kind) p.constraints
  pub givens : All (KnownGiven (variable_ids p)) p.givens

given_known-KnownGiven : (vs : List String) (a : Atom) → (given_known vs a ≡ true) ↔ KnownGiven vs a
given_known-KnownGiven vs (assignment v x) = (λ h. h, λ h. h)
given_known-KnownGiven vs (exclusion v x) = (λ h. h, λ h. h)
given_known-KnownGiven vs _ = (λ h. tt, λ h. refl)

references_known-KnownReferences :
    (known : List String) (k : ConstraintKind)
    → (references_known known k ≡ true) ↔ KnownReferences known k
references_known-KnownReferences known (composite op ids) =
    (λ h x. subset_mem x ids known h, subset_of ids known)
references_known-KnownReferences known _ = (λ h. tt, λ h. refl)

validate_references_sound : (p : PuzzleSpec) → validate_references p ≡ ok tt → IsClosed p
unfolding validate_references
validate_references_sound p h =
    let known = constraint_ids p in
    record {
      distinct_domains = (unique-Distinct (domain_ids p)).0 (ground arith);
      distinct_variables = (unique-Distinct (variable_ids p)).0 (ground arith);
      distinct_constraints = (unique-Distinct (constraint_ids p)).0 (ground arith);
      distinct_clues = (unique-Distinct (clue_ids p)).0 (ground arith);
      variables = All-all (λ v. contains (domain_ids p) v.domain_id) p.variables (ground arith);
      clues =
          All-map (λ c m x. subset_mem x c.constraint_ids known m) p.clues
            (All-all (λ c. subset c.constraint_ids known) p.clues (ground arith));
      composites =
          All-map (λ c. (references_known-KnownReferences known c.kind).0) p.constraints
            (All-all (λ c. references_known known c.kind) p.constraints (ground arith));
      givens =
          All-map (λ a. (given_known-KnownGiven (variable_ids p) a).0) p.givens
            (All-all (given_known (variable_ids p)) p.givens (ground arith));
    }

validate_references_complete : (p : PuzzleSpec) → IsClosed p → validate_references p ≡ ok tt
unfolding validate_references
validate_references_complete p c =
    let known = constraint_ids p in
    ground (
      arith,
      (unique-Distinct (domain_ids p)).1 c.distinct_domains,
      (unique-Distinct (variable_ids p)).1 c.distinct_variables,
      (unique-Distinct (constraint_ids p)).1 c.distinct_constraints,
      (unique-Distinct (clue_ids p)).1 c.distinct_clues,
      all_of_All (λ v. contains (domain_ids p) v.domain_id) p.variables c.variables,
      all_of_All (λ c. subset c.constraint_ids known) p.clues
          (All-map (λ c. subset_of c.constraint_ids known) p.clues c.clues),
      all_of_All (λ c. references_known known c.kind) p.constraints
          (All-map (λ c. (references_known-KnownReferences known c.kind).1) p.constraints
            c.composites),
      all_of_All (given_known (variable_ids p)) p.givens
          (All-map (λ a. (given_known-KnownGiven (variable_ids p) a).1) p.givens c.givens),
    )

-- The validator of a specification accepts it exactly when no identifier of a domain, a variable, a
-- constraint or a clue is declared twice, and every variable's domain, every constraint of a clue or
-- of a composite, and every variable of a given atom is declared.
pub validate_references-IsClosed : (p : PuzzleSpec) → (validate_references p ≡ ok tt) ↔ IsClosed p
validate_references-IsClosed p = (validate_references_sound p, validate_references_complete p)
