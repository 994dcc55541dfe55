-- ===== src/Domain/Atoms.antt =====
-- src/deductra/domain/atoms.py: normalized facts.
use deductra.Common.{String, Bool, List, [], ◌∷◌, Eq, string_dec}
use deductra.Common.Int.{ℤ, ℤ-discrete}
use deductra.Canonical.{Json, boolean, integer, text, object_of, texts}

pub data AggregateOperator : Type 0 where
  sum count min max parity : AggregateOperator

pub data Comparator : Type 0 where
  eq ne lt le gt ge : Comparator

pub data Atom : Type 0 where
  -- the variable and the value
  assignment : String → String → Atom
  exclusion : String → String → Atom
  -- the relation and its arguments
  relation : String → List String → Atom
  -- the operator, the members, the comparator and the target
  aggregate : AggregateOperator → List String → Comparator → ℤ → Atom
  -- the proposition and its truth value
  truth : String → Bool → Atom

pub AggregateOperator-discrete : Discrete AggregateOperator
AggregateOperator-discrete = hlevel

pub Comparator-discrete : Discrete Comparator
Comparator-discrete = hlevel

Atom-discrete : Discrete Atom
Atom-discrete = hlevel (string_dec, ℤ-discrete)

unfoldable pub atom_dec : Discrete Atom
unfolding Atom-discrete
atom_dec = Atom-discrete

instance abbrev pub atom_eq : Eq Atom
atom_eq = record { dec = atom_dec }

write_operator : AggregateOperator → String
write_operator sum = "sum"
write_operator count = "count"
write_operator min = "min"
write_operator max = "max"
write_operator parity = "parity"

write_comparator : Comparator → String
write_comparator eq = "eq"
write_comparator ne = "ne"
write_comparator lt = "lt"
write_comparator le = "le"
write_comparator gt = "gt"
write_comparator ge = "ge"

-- `atom.model_dump(mode="json")`
unfoldable pub dump_atom : Atom → Json
unfolding write_operator write_comparator
dump_atom (assignment v x) =
    object_of (("kind", text "assignment") ∷ ("variable_id", text v) ∷ ("value_id", text x) ∷ [])
dump_atom (exclusion v x) =
    object_of (("kind", text "exclusion") ∷ ("variable_id", text v) ∷ ("value_id", text x) ∷ [])
dump_atom (relation r args) =
    object_of (("kind", text "relation") ∷ ("relation", text r) ∷ ("arguments", texts args) ∷ [])
dump_atom (aggregate op members cmp target) = object_of (
    ("kind", text "aggregate")
    ∷ ("operator", text (write_operator op))
    ∷ ("members", texts members)
    ∷ ("comparator", text (write_comparator cmp))
    ∷ ("target", integer target)
    ∷ [])
dump_atom (truth p b) =
    object_of
      (("kind", text "truth") ∷ ("proposition_id", text p) ∷ ("truth_value", boolean b) ∷ [])
