-- ===== src/Tests/Deductions.antt =====
-- A state of the Logic Grid puzzle in which the cat's row is known, and what the rules conclude.
use native.Mathlib.Decide.{ℕ_discrete}
use deductra.Common.{
  String, ◌≡◌, refl, sym, true, false, none, some, List, [], ◌∷◌, map, arith, if◌then◌else◌, ◌==◌,
  string_dec, string_eq, pair_eq, nat_eq, bool_eq, All, contains, Has, add, update, difference,
  intersection, Distinct, text_le, place, sort_by, sort_texts, ok, ok-injective,
}
use deductra.Common.Int.{ℤ, pos}
use deductra.Common.Dict.{Dict, values, lookup, insert, subscript}
use deductra.Common.Dict.Items.{All-lookup}
use deductra.Domain.Atoms.{assignment, exclusion, atom_eq}
use deductra.Domain.Expressions.{
  int, variable_reference, equal, less_than, BooleanExpression, compared,
}
use deductra.Reasoning.State.{PuzzleState}
use deductra.Families.LogicGrid.Evaluation.Meaning.{Grid, Holds}
use deductra.Families.LogicGrid.Rules.{ordering, RuleConclusion, association_conclusions}
use deductra.Families.LogicGrid.Rules.Bijection.{bijection_conclusions}
use deductra.Families.LogicGrid.Rules.Follows.{Allowed, Follows, association_conclusions-Follows}
use deductra.Families.LogicGrid.Rules.Entailed.{Covers, bijection_conclusions-Follows}
use deductra.Families.LogicGrid.Rules.Completion.{
  boolean_variables, ordering_bound_exclusions, unresolved_of, clue_conclusions,
}
use deductra.Families.LogicGrid.Rules.Completes.{IsAnchored, clue_conclusions-Follows}
use deductra.Families.LogicGrid.Expressions.{
  has_complete_numeric_values, validate_boolean_expression,
}
use deductra.Domain.Values.{Domain, value_ids}
use deductra.Tests.Grids.{item_of, domain_of, solved_rows}

abbrev both_days : List String
both_days = "mon" ∷ "tue" ∷ []

abbrev known_cat : PuzzleState
known_cat = record {
  state_id = "state";
  puzzle_revision_id = "revision";
  sequence_no = 1;
  branch_id = "main";
  candidate_domains =
      ("v_cat", "mon" ∷ [])
      ∷ ("v_dog", both_days)
      ∷ ("v_milk", both_days)
      ∷ ("v_mon", "mon" ∷ [])
      ∷ ("v_tea", both_days)
      ∷ ("v_tue", "tue" ∷ [])
      ∷ [];
  asserted_atoms =
      assignment "v_mon" "mon" ∷ assignment "v_tue" "tue" ∷ assignment "v_cat" "mon" ∷ [];
  rejected_atoms = [];
  active_constraint_ids = "c_days" ∷ "c_pets" ∷ "c_drinks" ∷ "c_tea" ∷ "c_first" ∷ [];
  contradiction_ids = [];
  solved = false;
  state_hash = "hash";
}

abbrev same_row : BooleanExpression
same_row = compared equal (variable_reference "v_cat") (variable_reference "v_tea")

abbrev solution : Grid
solution = record {
  row = λ v. elim (lookup v solved_rows) [ some x ↦ x | none ↦ "" ];
  place = λ x. if "mon" == x then pos 1 else pos 2;
  amount = λ x. int (pos 0);
}

unfoldable reads : Unit {0}
unfolding association_conclusions bijection_conclusions lookup subscript string_dec contains
    intersection difference sort_by place text_le sort_texts update add ℕ_discrete Holds
reads = tt

known_cat-Allowed : Allowed known_cat solution
unfolding reads
known_cat-Allowed = record {
  candidates = λ v xs e.
      All-lookup (λ (v, xs). Has xs (solution.row v)) v xs known_cat.candidate_domains
        (refl, (refl, (refl, (refl, (refl, (refl, tt)))))) e;
  asserted = (refl, (refl, (refl, tt)));
}

abbrev tea_found : List RuleConclusion
tea_found = (assignment "v_tea" "mon", assignment "v_cat" "mon" ∷ []) ∷ []

tea_concluded : association_conclusions known_cat same_row ≡ ok tea_found
unfolding reads
tea_concluded = refl

-- The dog is not on Monday, for the cat is; and Tuesday is left to the dog alone.
abbrev dog_found : List RuleConclusion
dog_found =
    (exclusion "v_dog" "mon", assignment "v_cat" "mon" ∷ [])
    ∷ (assignment "v_dog" "tue", assignment "v_cat" "mon" ∷ [])
    ∷ []

dog_concluded : bijection_conclusions known_cat ("v_cat" ∷ "v_dog" ∷ []) ≡ ok dog_found
unfolding reads
dog_concluded = refl

same_row-Holds : Holds solution same_row
unfolding reads
same_row-Holds = refl

pets_covered : Covers known_cat solution ("v_cat" ∷ "v_dog" ∷ [])
unfolding reads
pets_covered values h x m =
    let same : values ≡ "mon" ∷ "tue" ∷ [] = sym (ok-injective h) in ground (arith, same, m)

pets_differ : Distinct (map solution.row ("v_cat" ∷ "v_dog" ∷ []))
unfolding reads
pets_differ = (refl, (refl, tt))

association_conclusions-Follows_example : All (Follows solution) tea_found
association_conclusions-Follows_example =
    association_conclusions-Follows known_cat solution same_row known_cat-Allowed same_row-Holds
      tea_concluded

bijection_conclusions-Follows_example : All (Follows solution) dog_found
bijection_conclusions-Follows_example =
    bijection_conclusions-Follows known_cat solution ("v_cat" ∷ "v_dog" ∷ []) known_cat-Allowed
      pets_differ pets_covered dog_concluded

unfoldable completes : Unit {0}
unfolding clue_conclusions ordering_bound_exclusions insert lookup subscript string_dec contains
    difference sort_by place text_le sort_texts update add ℕ_discrete
completes = tt

abbrev day_numbers : Dict ℤ
day_numbers = ("mon", pos 1) ∷ ("tue", pos 2) ∷ []

-- The cat is seen before the dog, and on Monday: the dog is seen on Tuesday.
first_completed :
    clue_conclusions known_cat day_numbers [] ordering
      (compared less_than (variable_reference "v_cat") (variable_reference "v_dog"))
    ≡ ok ((assignment "v_dog" "tue", assignment "v_cat" "mon" ∷ []) ∷ [])
unfolding completes
first_completed = refl

-- If the dog is seen before milk is drunk, then neither on the last day nor on the first.
bounds_excluded :
    clue_conclusions known_cat day_numbers [] ordering
      (compared less_than (variable_reference "v_dog") (variable_reference "v_milk"))
    ≡ ok ((exclusion "v_dog" "tue", []) ∷ (exclusion "v_milk" "mon", []) ∷ [])
unfolding completes
bounds_excluded = refl

abbrev days : Domain
days =
    domain_of "days" true
      (item_of "mon" "Monday" (some (pos 1)) ∷ item_of "tue" "Tuesday" (some (pos 2)) ∷ [])

abbrev in_order : BooleanExpression
in_order = compared less_than (variable_reference "v_cat") (variable_reference "v_dog")

abbrev pets : List String
pets = "v_dog" ∷ "v_cat" ∷ []

days_placed : (x : String) → Has (value_ids days) x → lookup x day_numbers ≡ some (solution.place x)
unfolding lookup contains
days_placed x m = ground arith

pets_inside : (v : String) → Has pets v → Has (value_ids days) (solution.row v)
unfolding lookup contains
pets_inside v m = ground arith

pets-IsAnchored : IsAnchored solution pets days day_numbers []
unfolding has_complete_numeric_values
pets-IsAnchored = record { inside = pets_inside; places = days_placed; amounts = λ x c m. cc }

unfoldable evaluates : Unit {0}
unfolding completes boolean_variables unresolved_of validate_boolean_expression Holds
evaluates = tt

in_order_named : boolean_variables in_order ≡ ok pets
unfolding evaluates
in_order_named = refl

in_order_valid : validate_boolean_expression pets days in_order ≡ ok tt
unfolding evaluates
in_order_valid = refl

dog_unresolved : unresolved_of known_cat (sort_texts pets) ≡ ok ("v_dog" ∷ [])
unfolding evaluates
dog_unresolved = refl

in_order-Holds : Holds solution in_order
unfolding evaluates
in_order-Holds = refl

clue_conclusions-Follows_example :
    All (Follows solution) ((assignment "v_dog" "tue", assignment "v_cat" "mon" ∷ []) ∷ [])
clue_conclusions-Follows_example =
    clue_conclusions-Follows known_cat solution ordering in_order pets "v_dog" days day_numbers []
      known_cat-Allowed pets-IsAnchored in_order_named in_order_valid dog_unresolved in_order-Holds
      first_completed
