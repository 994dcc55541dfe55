-- ===== src/Domain/Values.antt =====
-- src/deductra/domain/values.py: domains, their values, and variables.
use deductra.Common.{
  String, Bool, not, Option, List, map, eqb, string_eq, pair_eq, nat_eq, bool_eq, length, unique,
  value_error, Result, raise_if, ◌>>◌,
}
use deductra.Common.Int.{ℤ}
use deductra.Canonical.{Json}
use deductra.Domain.Expressions.{Number}

pub record DomainValue : Type 0 where
  pub value_id : String
  pub label : String
  pub ordinal : Option ℤ
  pub numeric_value : Option Number
  pub symbol : Option String
  pub metadata : Json

pub record Domain : Type 0 where
  pub domain_id : String
  pub values : List DomainValue
  pub ordered : Bool
  pub distinct_by_default : Bool
  pub metadata : Json

pub data Role : Type 0 where
  cell entity_assignment position selection answer arithmetic : Role

pub record Variable : Type 0 where
  pub variable_id : String
  pub label : String
  pub domain_id : String
  pub role : Role
  pub coordinates : Option (List ℤ)
  pub metadata : Json

-- `{value.value_id for value in domain.values}`, in order
abbrev pub value_ids : Domain → List String
value_ids d = map (λ v. v.value_id) d.values

-- `Domain.validate_unique_values`
unfoldable pub validate_unique_values : Domain → Result (Unit {0})
validate_unique_values d = do
  raise_if (not (unique (value_ids d))) (value_error "domain value identifiers must be unique")
  raise_if (eqb (length (value_ids d)) 0) (value_error "a domain must contain at least one value")
