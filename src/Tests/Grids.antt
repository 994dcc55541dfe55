-- ===== src/Tests/Grids.antt =====
-- A Logic Grid puzzle of three categories with two items, and checks of its solutions.
use native.Mathlib.Decide.{ℕ_discrete}
use deductra.Common.{
  String, ◌≡◌, refl, ◌↔◌, Bool, true, false, Option, none, some, List, [], ◌∷◌, string_dec,
  string_eq, pair_eq, nat_eq, bool_eq, contains, add, to_set, update, difference, from_keys, subset,
  unique, text_le, place, sort_by, sort_texts, ok,
}
use deductra.Common.Int.{ℤ, pos}
use deductra.Common.Dict.{values, lookup, insert, dict_of, subscript}
use deductra.Domain.Atoms.{assignment, atom_dec, atom_eq}
use deductra.Domain.Expressions.{variable_reference, equal, less_than, compared}
use deductra.Domain.Constraints.{Constraint, ConstraintKind, all_different, arithmetic, hard}
use deductra.Domain.Values.{DomainValue, Domain, entity_assignment, Variable}
use deductra.Domain.Puzzle.{golden}
use deductra.Families.LogicGrid.Specification.{LogicGridCategory, LogicGridSpec, anchor_domain}
use deductra.Families.LogicGrid.Specification.Contract.{validate_logic_grid_spec}
use deductra.Families.LogicGrid.Checker.{LogicGridSolutionCheck, check_logic_grid_solution}
use deductra.Families.LogicGrid.Checker.Acceptance.{
  IsSolution, check_logic_grid_solution-IsSolution,
}
use deductra.Tests.Samples.{none_metadata, noon}

abbrev pub item_of : String → String → Option ℤ → DomainValue
item_of i l n = record {
  value_id = i;
  label = l;
  ordinal = n;
  numeric_value = none;
  symbol = none;
  metadata = none_metadata;
}

abbrev pub domain_of : String → Bool → List DomainValue → Domain
domain_of i ordered values = record {
  domain_id = i;
  values = values;
  ordered = ordered;
  distinct_by_default = true;
  metadata = none_metadata;
}

abbrev variable_of : String → String → Variable
variable_of i l = record {
  variable_id = i;
  label = l;
  domain_id = "days";
  role = entity_assignment;
  coordinates = none;
  metadata = none_metadata;
}

abbrev category_of : String → String → List String → LogicGridCategory
category_of i d vs = record { category_id = i; label = i; domain_id = d; variable_ids = vs }

abbrev constraint_of : String → Option String → ConstraintKind → Constraint
constraint_of i source kind = record {
  constraint_id = i;
  label = i;
  source_clue_id = source;
  severity = hard;
  metadata = none_metadata;
  kind = kind;
}

-- The cat drinks tea, and is seen before the dog.
abbrev pub grid : LogicGridSpec
grid = record {
  base = record {
    identity = record {
      puzzle_id = "grid";
      revision_id = "revision";
      family_id = "logic-grid";
      schema_version = "1.0.0";
      title = "Pets";
      author = none;
      source_kind = golden;
      parent_revision_id = none;
      created_at = noon;
      metadata = none_metadata;
    };
    domains =
        domain_of "days" true
          (item_of "mon" "Monday" (some (pos 1)) ∷ item_of "tue" "Tuesday" (some (pos 2)) ∷ [])
        ∷ domain_of "pets" false (item_of "cat" "Cat" none ∷ item_of "dog" "Dog" none ∷ [])
        ∷ domain_of "drinks" false (item_of "tea" "Tea" none ∷ item_of "milk" "Milk" none ∷ [])
        ∷ [];
    variables =
        variable_of "v_mon" "Monday"
        ∷ variable_of "v_tue" "Tuesday"
        ∷ variable_of "v_cat" "Cat"
        ∷ variable_of "v_dog" "Dog"
        ∷ variable_of "v_tea" "Tea"
        ∷ variable_of "v_milk" "Milk"
        ∷ [];
    constraints =
        constraint_of "c_days" none (all_different ("v_mon" ∷ "v_tue" ∷ []))
        ∷ constraint_of "c_pets" none (all_different ("v_cat" ∷ "v_dog" ∷ []))
        ∷ constraint_of "c_drinks" none (all_different ("v_tea" ∷ "v_milk" ∷ []))
        ∷ constraint_of "c_tea" (some "clue")
            (arithmetic (compared equal (variable_reference "v_cat") (variable_reference "v_tea")))
        ∷ constraint_of "c_first" (some "clue") (
            arithmetic
              (compared less_than (variable_reference "v_cat") (variable_reference "v_dog")))
        ∷ [];
    clues =
        (record {
          clue_id = "clue";
          text_of = "The cat, seen before the dog, drinks tea.";
          constraint_ids = "c_tea" ∷ "c_first" ∷ [];
          locale = "en";
          template_id = none;
          instructional_redundancy = false;
          metadata = none_metadata;
        })
        ∷ [];
    givens = assignment "v_mon" "mon" ∷ assignment "v_tue" "tue" ∷ [];
    display_spec = record { locale = "en"; accessibility_labels = []; metadata = none_metadata };
    generation_lineage = none;
    provenance = [];
    metadata = none_metadata;
  };
  categories =
      category_of "Day" "days" ("v_mon" ∷ "v_tue" ∷ [])
      ∷ category_of "Pet" "pets" ("v_cat" ∷ "v_dog" ∷ [])
      ∷ category_of "Drink" "drinks" ("v_tea" ∷ "v_milk" ∷ [])
      ∷ [];
  anchor_category_id = "Day";
}

unfoldable pub checks : Unit {0}
unfolding validate_logic_grid_spec check_logic_grid_solution lookup insert subscript string_dec
    pair_eq contains to_set add unique subset difference from_keys sort_by place text_le atom_dec
    dict_of sort_texts update ℕ_discrete
checks = tt

pub grid_valid : validate_logic_grid_spec grid ≡ ok tt
unfolding checks
grid_valid = refl

abbrev pub solved_rows : List (String × String)
solved_rows =
    ("v_mon", "mon")
    ∷ ("v_tue", "tue")
    ∷ ("v_cat", "mon")
    ∷ ("v_dog", "tue")
    ∷ ("v_tea", "mon")
    ∷ ("v_milk", "tue")
    ∷ []

-- The cat and the dog are exchanged: the order is violated, and the drink.
grid_violated :
    check_logic_grid_solution grid (
      ("v_mon", "mon")
      ∷ ("v_tue", "tue")
      ∷ ("v_cat", "tue")
      ∷ ("v_dog", "mon")
      ∷ ("v_tea", "mon")
      ∷ ("v_milk", "tue")
      ∷ [])
    ≡ ok (record {
      accepted = false;
      violations = "constraint_failed:c_tea" ∷ "constraint_failed:c_first" ∷ [];
    })
unfolding checks
grid_violated = refl

-- A row too few, a variable twice, and one that is not there.
grid_incomplete :
    check_logic_grid_solution grid (("v_cat", "mon") ∷ ("v_cat", "tue") ∷ ("v_cow", "mon") ∷ [])
    ≡ ok (record {
      accepted = false;
      violations =
          "duplicate_assignment:v_cat" ∷ "unknown_variable:v_cow" ∷ "missing_assignment:v_dog"
          ∷ "missing_assignment:v_milk" ∷ "missing_assignment:v_mon" ∷ "missing_assignment:v_tea"
          ∷ "missing_assignment:v_tue" ∷ [];
    })
unfolding checks
grid_incomplete = refl

check_logic_grid_solution-IsSolution_example :
    (anchor : Domain) × (r : LogicGridSolutionCheck) × (anchor_domain grid ≡ ok anchor)
    × (check_logic_grid_solution grid solved_rows ≡ ok r)
    × ((r.accepted ≡ true) ↔ IsSolution grid anchor solved_rows)
check_logic_grid_solution-IsSolution_example =
    check_logic_grid_solution-IsSolution grid solved_rows grid_valid

grid_solved :
    check_logic_grid_solution grid solved_rows ≡ ok (record { accepted = true; violations = [] })
unfolding checks
grid_solved = refl
