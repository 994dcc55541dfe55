-- ===== src/Reasoning/Rules.antt =====
-- src/deductra/reasoning/rules.py: human rules, their candidates and proposals, and discovery.
pub mod Keys
pub mod Precedence
pub mod Discovery
use deductra.Common.{
  ℕ, String, Bool, true, false, not, ◌||◌, List, [], ◌∷◌, ◌++◌, map, eqb, if◌then◌else◌, Eq, ◌==◌,
  string_dec, string_eq, pair_eq, nat_eq, bool_eq, list_dec, length, contains, unique, text_le,
  sort_by, value_error, rule_contract, Result, ok, raise_if, ◌>>=◌, ◌>>◌,
}
use deductra.Common.Int.{ℤ, pos, leb_ℤ}
use deductra.Canonical.{Json, text, Platform, array_of, object_of, texts, number, canonical_json}
use deductra.Domain.Atoms.{Atom, atom_dec, atom_eq, dump_atom}
use deductra.Domain.Puzzle.{PuzzleSpec}
use deductra.Reasoning.State.{PuzzleState}

pub record RuleReference : Type 0 where
  pub rule_id : String
  pub rule_version : String
  pub family_scope : List String
  pub title : String
  pub technique_rank : ℕ

RuleReference-discrete : Discrete RuleReference
RuleReference-discrete = hlevel (string_dec, nat_eq.dec, λ (xs ys : List String). list_dec xs ys)

unfoldable pub reference_dec : Discrete RuleReference
unfolding RuleReference-discrete
reference_dec = RuleReference-discrete

instance abbrev pub reference_eq : Eq RuleReference
reference_eq = record { dec = reference_dec }

-- `RuleReference.validate_scope`
unfoldable pub validate_scope : RuleReference → Result (Unit {0})
validate_scope r =
    raise_if (not (unique r.family_scope)) (value_error "family_scope entries must be unique")

pub record RuleApplicationCandidate : Type 0 where
  pub candidate_id : String
  pub rule : RuleReference
  pub source_state_hash : String
  pub premises : List Atom
  pub affected_variables : List String
  pub supporting_constraints : List String
  pub information_gain : ℕ
  pub pedagogical_cost : ℕ
  pub tie_break_key : String

RuleApplicationCandidate-discrete : Discrete RuleApplicationCandidate
RuleApplicationCandidate-discrete = hlevel (string_dec, nat_eq.dec, atom_dec, reference_dec)

unfoldable pub candidate_dec : Discrete RuleApplicationCandidate
unfolding RuleApplicationCandidate-discrete
candidate_dec = RuleApplicationCandidate-discrete

instance abbrev pub candidate_eq : Eq RuleApplicationCandidate
candidate_eq = record { dec = candidate_dec }

pub record ProposedDeduction : Type 0 where
  pub candidate_id : String
  pub source_state_hash : String
  pub rule : RuleReference
  pub premises : List Atom
  pub conclusions : List Atom
  pub affected_variables : List String
  pub supporting_constraints : List String
  pub explanation_parameters : Json

-- The port `ReasoningRule`: the rules of the puzzle families are behind it.
pub record ReasoningRule : Type 0 where
  pub reference : RuleReference
  pub find_applications : PuzzleSpec → PuzzleState → Result (List RuleApplicationCandidate)
  pub apply : RuleApplicationCandidate → PuzzleState → Result ProposedDeduction

-- `reference.model_dump(mode="json")`
unfoldable pub dump_reference : RuleReference → Json
dump_reference r = object_of (
    ("rule_id", text r.rule_id)
    ∷ ("rule_version", text r.rule_version)
    ∷ ("family_scope", texts r.family_scope)
    ∷ ("title", text r.title)
    ∷ ("technique_rank", number r.technique_rank)
    ∷ [])

unfoldable pub dump_proposal : ProposedDeduction → Json
unfolding dump_atom dump_reference
dump_proposal p = object_of (
    ("candidate_id", text p.candidate_id)
    ∷ ("source_state_hash", text p.source_state_hash)
    ∷ ("rule", dump_reference p.rule)
    ∷ ("premises", array_of (map dump_atom p.premises))
    ∷ ("conclusions", array_of (map dump_atom p.conclusions))
    ∷ ("affected_variables", texts p.affected_variables)
    ∷ ("supporting_constraints", texts p.supporting_constraints)
    ∷ ("explanation_parameters", p.explanation_parameters)
    ∷ [])

-- A part of a sort key. Two keys of one sort have the same kind of part in each place, so a number
-- is never compared with a text.
pub data KeyPart : Type 0 where
  amount : ℤ → KeyPart
  word : String → KeyPart

abbrev pub part_le : KeyPart → KeyPart → Bool
part_le (amount m) (amount n) = leb_ℤ m n
part_le (word s) (word t) = text_le s t
part_le (amount m) (word t) = true
part_le (word s) (amount n) = false

-- `<=` on tuples: `part_le` both ways is equality
unfoldable pub key_le : List KeyPart → List KeyPart → Bool
key_le [] ks = true
key_le (j ∷ js) [] = false
key_le (j ∷ js) (k ∷ ks) =
    if part_le j k then (if part_le k j then key_le js ks else true) else false

-- The key of the final sort, and of the function `stable_tail` of the policies.
abbrev pub stable_tail : RuleApplicationCandidate → List KeyPart
stable_tail c =
    amount (pos c.rule.technique_rank)
    ∷ word c.rule.rule_id
    ∷ word c.rule.rule_version
    ∷ word c.tie_break_key
    ∷ word c.candidate_id
    ∷ []

abbrev pub identity : ReasoningRule → String × String
identity r = (r.reference.rule_id, r.reference.rule_version)

-- `not scope or family_id in scope`
abbrev pub in_scope : PuzzleSpec → ReasoningRule → Bool
in_scope puzzle r =
    eqb (length r.reference.family_scope) 0
    || contains r.reference.family_scope puzzle.identity.family_id

module _ (P : Platform) where
  abbrev pub canonical_atoms : List Atom → List String
  canonical_atoms = map (λ a. canonical_json P (dump_atom a))

  -- `RuleApplicationCandidate.validate_candidate`
  unfoldable pub validate_candidate : RuleApplicationCandidate → Result (Unit {0})
  validate_candidate c = do
    raise_if (not (unique (canonical_atoms c.premises))) (value_error "premises must be unique")
    raise_if (not (unique c.affected_variables)) (value_error "affected_variables must be unique")
    raise_if (not (unique c.supporting_constraints))
        (value_error "supporting_constraints must be unique")
    raise_if (eqb (length c.affected_variables) 0)
        (value_error "a rule candidate must affect at least one variable")

  -- `ProposedDeduction.validate_deduction`
  unfoldable pub validate_deduction : ProposedDeduction → Result (Unit {0})
  validate_deduction p = do
    raise_if (eqb (length p.conclusions) 0)
        (value_error "a proposed deduction requires a conclusion")
    raise_if (not (unique (canonical_atoms p.premises))) (value_error "premises must be unique")
    raise_if (not (unique (canonical_atoms p.conclusions)))
        (value_error "conclusions must be unique")
    raise_if (not (unique p.affected_variables)) (value_error "affected_variables must be unique")
    raise_if (not (unique p.supporting_constraints))
        (value_error "supporting_constraints must be unique")

  abbrev pub rule_le : ReasoningRule → ReasoningRule → Bool
  rule_le r s =
      text_le (canonical_json P (dump_reference r.reference))
        (canonical_json P (dump_reference s.reference))

-- The inner loop over the candidates of one rule.
unfoldable pub check_found :
    PuzzleState → ReasoningRule → List RuleApplicationCandidate → Result (Unit {0})
check_found state r [] = ok tt
check_found state r (c ∷ cs) = do
  raise_if (not (c.rule == r.reference))
      (rule_contract "candidate rule reference does not match its producer")
  raise_if (not (c.source_state_hash == state.state_hash))
      (rule_contract "candidate source state is stale")
  check_found state r cs

-- The outer loop over the rules.
unfoldable pub discover_from :
    PuzzleSpec → PuzzleState → List ReasoningRule → Result (List RuleApplicationCandidate)
discover_from puzzle state [] = ok []
discover_from puzzle state (r ∷ rs) = elim (in_scope puzzle r) [
  | false ↦ discover_from puzzle state rs
  | true ↦ do
    found ← r.find_applications puzzle state
    check_found state r found
    rest ← discover_from puzzle state rs
    ok (found ++ rest)
]

abbrev pub candidate_ids : List RuleApplicationCandidate → List String
candidate_ids = map (λ c. c.candidate_id)

abbrev pub candidate_le : RuleApplicationCandidate → RuleApplicationCandidate → Bool
candidate_le c d = key_le (stable_tail c) (stable_tail d)

module _ (P : Platform) where
  unfoldable pub discover_rule_applications :
      PuzzleSpec → PuzzleState → List ReasoningRule → Result (List RuleApplicationCandidate)
  discover_rule_applications puzzle state rules = do
    raise_if (not (state.puzzle_revision_id == puzzle.identity.revision_id))
        (rule_contract "rule discovery state does not match the puzzle revision")
    raise_if (not (unique (map identity rules)))
        (rule_contract "reasoning rule identities must be unique")
    discovered ← discover_from puzzle state (sort_by (rule_le P) rules)
    raise_if (not (unique (candidate_ids discovered)))
        (rule_contract "candidate identifiers must be unique within a state")
    ok (sort_by candidate_le discovered)
