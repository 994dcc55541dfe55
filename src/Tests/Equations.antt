-- ===== src/Tests/Equations.antt =====
-- A Logic Equations puzzle of three variables, and checks of its answers.
use native.Mathlib.Decide.{ℕ_discrete}
use deductra.Common.{
  ℕ, String, ◌≡◌, refl, ◌↔◌, true, false, Option, none, some, List, [], ◌∷◌, string_dec, string_eq,
  pair_eq, nat_eq, bool_eq, contains, add, to_set, update, difference, from_keys, subset, unique,
  text_le, place, sort_by, sort_texts, ok,
}
use deductra.Common.Int.{pos, negsuc, divmod_ℤ}
use deductra.Common.Dict.{lookup, insert, dict_of, subscript}
use deductra.Domain.Atoms.{exclusion, atom_dec, atom_eq}
use deductra.Domain.Expressions.{
  int, constant, variable_reference, add_expression, exact_divide, no_numeric, numeric, equal,
  compared,
}
use deductra.Domain.Constraints.{Constraint, ConstraintKind, all_different, arithmetic, hard}
use deductra.Domain.Values.{DomainValue, Domain, Variable}
use deductra.Domain.Values.{arithmetic as arithmetic_role}
use deductra.Domain.Puzzle.{golden, Clue}
use deductra.Families.LogicEquations.Specification.{
  LogicEquationsSpec, value_domain, validate_logic_equations_spec,
}
use deductra.Families.LogicEquations.Checker.{
  LogicEquationsSolutionCheck, check_logic_equations_solution,
}
use deductra.Families.LogicEquations.Checker.Acceptance.{
  IsAnswer, check_logic_equations_solution-IsAnswer,
}
use deductra.Tests.Samples.{none_metadata, noon}

abbrev number_of : String → ℕ → DomainValue
number_of i n = record {
  value_id = i;
  label = i;
  ordinal = some (pos n);
  numeric_value = some (int (pos n));
  symbol = none;
  metadata = none_metadata;
}

abbrev unknown_of : String → Variable
unknown_of i = record {
  variable_id = i;
  label = i;
  domain_id = "numbers";
  role = arithmetic_role;
  coordinates = none;
  metadata = none_metadata;
}

abbrev equation_of : String → Option String → ConstraintKind → Constraint
equation_of i source kind = record {
  constraint_id = i;
  label = i;
  source_clue_id = source;
  severity = hard;
  metadata = none_metadata;
  kind = kind;
}

-- A + B = C, and B / A = 2.
abbrev equations : LogicEquationsSpec
equations = record {
  identity = record {
    puzzle_id = "equations";
    revision_id = "revision";
    family_id = "logic-equations";
    schema_version = "1.0.0";
    title = "Sums";
    author = none;
    source_kind = golden;
    parent_revision_id = none;
    created_at = noon;
    metadata = none_metadata;
  };
  domains =
      (record {
        domain_id = "numbers";
        values = number_of "one" 1 ∷ number_of "two" 2 ∷ number_of "three" 3 ∷ [];
        ordered = true;
        distinct_by_default = true;
        metadata = none_metadata;
      })
      ∷ [];
  variables = unknown_of "a" ∷ unknown_of "b" ∷ unknown_of "c" ∷ [];
  constraints =
      equation_of "differ" none (all_different ("a" ∷ "b" ∷ "c" ∷ []))
      ∷ equation_of "sum" (some "clue_sum") (
          arithmetic (
            compared equal
              (add_expression
                (numeric (variable_reference "a") (numeric (variable_reference "b") no_numeric)))
              (variable_reference "c")))
      ∷ equation_of "ratio" (some "clue_ratio") (
          arithmetic (
            compared equal (exact_divide (variable_reference "b") (variable_reference "a"))
              (constant (int (pos 2)))))
      ∷ [];
  clues = clue_of "clue_sum" "sum" ∷ clue_of "clue_ratio" "ratio" ∷ [];
  givens = exclusion "a" "three" ∷ [];
  display_spec = record { locale = "en"; accessibility_labels = []; metadata = none_metadata };
  generation_lineage = none;
  provenance = [];
  metadata = none_metadata;
}
  where
    clue_of : String → String → Clue
    clue_of i c = record {
      clue_id = i;
      text_of = "An equation.";
      constraint_ids = c ∷ [];
      locale = "en";
      template_id = none;
      instructional_redundancy = false;
      metadata = none_metadata;
    }

unfoldable runs : Unit {0}
unfolding validate_logic_equations_spec check_logic_equations_solution divmod_ℤ lookup insert
    subscript string_dec pair_eq contains to_set add unique subset difference from_keys sort_by
    place text_le atom_dec dict_of sort_texts update ℕ_discrete
runs = tt

equations_valid : validate_logic_equations_spec equations ≡ ok tt
unfolding runs
equations_valid = refl

abbrev answer : List (String × String)
answer = ("a", "one") ∷ ("b", "two") ∷ ("c", "three") ∷ []

equations_solved :
    check_logic_equations_solution equations answer
    ≡ ok (record { accepted = true; violations = [] })
unfolding runs
equations_solved = refl

-- With a and b exchanged the sum holds, and the quotient is not exact.
equations_violated :
    check_logic_equations_solution equations (("a", "two") ∷ ("b", "one") ∷ ("c", "three") ∷ [])
    ≡ ok (record { accepted = false; violations = "constraint_failed:ratio" ∷ [] })
unfolding runs
equations_violated = refl

equations_unplaced :
    check_logic_equations_solution equations (("a", "two") ∷ ("a", "one") ∷ ("b", "four") ∷ [])
    ≡ ok (record {
      accepted = false;
      violations =
          "duplicate_assignment:a" ∷ "unknown_value:four" ∷ "missing_assignment:b"
          ∷ "missing_assignment:c" ∷ [];
    })
unfolding runs
equations_unplaced = refl

-- -7 divided by 2, and 7 by -2, round down.
divmod_negative :
    (divmod_ℤ (negsuc 6) (pos 2) ≡ (negsuc 3, pos 1))
    × (divmod_ℤ (pos 7) (negsuc 1) ≡ (negsuc 3, negsuc 0))
    × (divmod_ℤ (negsuc 6) (negsuc 1) ≡ (pos 3, negsuc 0))
unfolding divmod_ℤ
divmod_negative = (refl, refl, refl)

check_logic_equations_solution-IsAnswer_example :
    (d : Domain) × (r : LogicEquationsSolutionCheck) × (value_domain equations ≡ ok d)
    × (check_logic_equations_solution equations answer ≡ ok r)
    × ((r.accepted ≡ true) ↔ IsAnswer equations d answer)
check_logic_equations_solution-IsAnswer_example =
    check_logic_equations_solution-IsAnswer equations answer equations_valid refl
