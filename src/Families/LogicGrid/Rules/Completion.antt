-- ===== src/Families/LogicGrid/Rules/Completion.antt =====
-- src/deductra/families/logic_grid/rules.py: `ClueCompletionRule`, which completes a clue that has
-- one undecided item, and the bounds of an ordering between two undecided items.
use Prim.Native.Char.{code}
use deductra.Common.{
  String, Bool, not, ◌&&◌, ◌||◌, List, [], ◌∷◌, ◌++◌, map, ltb, leb, eqb, if◌then◌else◌, ◌==◌,
  string_eq, pair_eq, nat_eq, bool_eq, length, keep, contains, update, difference, sort_texts,
  value_error, rule_contract, key_error, Result, err, ok, raise_if, ◌>>=◌, ◌>>◌,
}
use deductra.Common.Int.{ℤ, ltb_ℤ, leb_ℤ}
use deductra.Common.Dict.{Dict, keys, insert, subscript}
use deductra.Canonical.{text, Platform, object_of}
use deductra.Domain.Atoms.{Atom, assignment, exclusion, atom_eq}
use deductra.Domain.Expressions.{
  Number, NumericExpression, constant, constant_bool, variable_reference, subtract, Comparison,
  equal, not_equal, less_than, less_than_or_equal, greater_than, greater_than_or_equal,
  BooleanExpression, compared, and_expression, or_expression, not_expression, xor_expression,
  implies, equivalent, cardinality, all_different, Booleans, no_boolean, condition,
}
use deductra.Domain.Constraints.{Constraint}
use deductra.Reasoning.State.{PuzzleState}
use deductra.Reasoning.Rules.{
  RuleReference, reference_eq, RuleApplicationCandidate, candidate_eq, ProposedDeduction,
  validate_deduction,
}
use deductra.Families.LogicGrid.Evaluation.{EvaluationErrors, evaluate_numeric, evaluate_boolean}
use deductra.Families.LogicGrid.Specification.{LogicGridSpec}
use deductra.Families.LogicGrid.Specification.Clues.{arithmetic_of}
use deductra.Families.LogicGrid.Checker.{anchor_semantics}
use deductra.Families.LogicGrid.Rules.{
  LogicGridTechnique, association, category_bijection, ordering, technique_rank_of,
  technique_reference, technique_for, first_value, RuleConclusion, assignment_premise,
  candidates_for,
}

-- the exceptions of `_evaluate_numeric` and `_evaluate_boolean`
abbrev pub rule_errors : EvaluationErrors
rule_errors = record {
  bad_constant = rule_contract "Logic Grid constants must be exact numeric values";
  unassigned = key_error;
  valueless = rule_contract "Logic Grid numeric expression lacks anchor values";
  unsupported_number = rule_contract "unsupported Logic Grid numeric expression";
  unsupported_truth = rule_contract "unsupported Logic Grid Boolean expression";
}

-- `_evaluate_numeric` and `_evaluate_boolean`, which are those of the checker but for the exceptions
abbrev pub evaluate_amount : Dict String → Dict ℤ → Dict Number → NumericExpression → Result Number
evaluate_amount = evaluate_numeric rule_errors

abbrev pub evaluate_clue : Dict String → Dict ℤ → Dict Number → BooleanExpression → Result Bool
evaluate_clue = evaluate_boolean rule_errors

-- `_anchor_semantics`, the same as the checker's
abbrev pub clue_semantics : LogicGridSpec → Result (Dict ℤ × Dict Number)
clue_semantics = anchor_semantics

-- `_numeric_variables`
unfoldable pub numeric_variables : NumericExpression → Result (List String)
numeric_variables (constant n) = ok []
numeric_variables (constant_bool b) = ok []
numeric_variables (variable_reference v) = ok (v ∷ [])
numeric_variables (subtract a b) = do
  left ← numeric_variables a
  right ← numeric_variables b
  ok (update left right)
numeric_variables _ = err (rule_contract "unsupported Logic Grid numeric expression")

-- `_boolean_variables`
unfoldable mutual
  unfolding numeric_variables

  pub boolean_variables : BooleanExpression → Result (List String)
  boolean_variables (compared c a b) = do
    left ← numeric_variables a
    right ← numeric_variables b
    ok (update left right)
  boolean_variables (and_expression xs) = operand_variables [] xs
  boolean_variables (or_expression xs) = operand_variables [] xs
  boolean_variables (cardinality xs low high) = operand_variables [] xs
  boolean_variables (not_expression a) = boolean_variables a
  boolean_variables (xor_expression a b) = do
    left ← boolean_variables a
    right ← boolean_variables b
    ok (update left right)
  boolean_variables (equivalent a b) = do
    left ← boolean_variables a
    right ← boolean_variables b
    ok (update left right)
  boolean_variables (implies a b) = do
    left ← boolean_variables a
    right ← boolean_variables b
    ok (update left right)
  boolean_variables (all_different xs) =
      err (rule_contract "unsupported Logic Grid Boolean expression")

  pub operand_variables : List String → Booleans → Result (List String)
  operand_variables variables no_boolean = ok variables
  operand_variables variables (condition x xs) = do
    found ← boolean_variables x
    operand_variables (update variables found) xs

-- `{item: metrics[item] for item in values}`
unfoldable pub metrics_of : Dict ℤ → List String → Result (Dict ℤ)
metrics_of metrics [] = ok []
metrics_of metrics (x ∷ xs) = do
  z ← subscript x metrics
  rest ← metrics_of metrics xs
  ok ((x, z) ∷ rest)

-- `max(d.values())`
unfoldable pub greatest : Dict ℤ → Result ℤ
greatest [] = err (value_error "max() iterable argument is empty")
greatest ((x, z) ∷ []) = ok z
greatest ((x, z) ∷ d) = do top ← greatest d; ok (if ltb_ℤ z top then top else z)

-- `min(d.values())`
unfoldable pub lowest : Dict ℤ → Result ℤ
lowest [] = err (value_error "min() iterable argument is empty")
lowest ((x, z) ∷ []) = ok z
lowest ((x, z) ∷ d) = do bottom ← lowest d; ok (if ltb_ℤ bottom z then bottom else z)

-- `{item for item, value in d.items() if test(value)}`
abbrev pub items_with : (ℤ → Bool) → Dict ℤ → List String
items_with test d = keys (keep (λ (x, z). test z) d)

-- `invalid_left` and `invalid_right`
unfoldable pub invalid_values : Comparison → Dict ℤ → Dict ℤ → Result (List String × List String)
unfolding greatest lowest
invalid_values less_than left right = do
  top ← greatest right
  bottom ← lowest left
  ok (items_with (λ z. leb_ℤ top z) left, items_with (λ z. leb_ℤ z bottom) right)
invalid_values less_than_or_equal left right = do
  top ← greatest right
  bottom ← lowest left
  ok (items_with (λ z. ltb_ℤ top z) left, items_with (λ z. ltb_ℤ z bottom) right)
invalid_values greater_than left right = do
  bottom ← lowest right
  top ← greatest left
  ok (items_with (λ z. leb_ℤ z bottom) left, items_with (λ z. leb_ℤ top z) right)
invalid_values greater_than_or_equal left right = do
  bottom ← lowest right
  top ← greatest left
  ok (items_with (λ z. ltb_ℤ z bottom) left, items_with (λ z. ltb_ℤ top z) right)
invalid_values _ left right = ok ([], [])

abbrev exclusions_of : String → List String → List RuleConclusion
exclusions_of v invalid = map (λ x. (exclusion v x, [])) (sort_texts invalid)

module _ (s : PuzzleState) where
  -- `_ordering_bound_exclusions`, of a comparison of two variables
  unfoldable pub bound_exclusions :
      Comparison → String → String → Dict ℤ → Result (List RuleConclusion)
  unfolding metrics_of invalid_values
  bound_exclusions c left_id right_id metrics = do
    left ← subscript left_id s.candidate_domains
    right ← subscript right_id s.candidate_domains
    if left_id == right_id || leb (length left) 1 || leb (length right) 1 then ok [] else (do
      left_metrics ← metrics_of metrics left
      right_metrics ← metrics_of metrics right
      (invalid_left, invalid_right) ← invalid_values c left_metrics right_metrics
      ok (exclusions_of left_id invalid_left ++ exclusions_of right_id invalid_right))

  unfoldable pub ordering_bound_exclusions :
      BooleanExpression → Dict ℤ → Result (List RuleConclusion)
  unfolding bound_exclusions
  ordering_bound_exclusions (compared equal a b) metrics = ok []
  ordering_bound_exclusions (compared not_equal a b) metrics = ok []
  ordering_bound_exclusions (compared c (variable_reference v) (variable_reference w)) metrics =
      bound_exclusions c v w metrics
  ordering_bound_exclusions _ metrics = ok []

  -- `unresolved`
  unfoldable pub unresolved_of : List String → Result (List String)
  unresolved_of [] = ok []
  unresolved_of (v ∷ vs) = do
    xs ← subscript v s.candidate_domains
    rest ← unresolved_of vs
    ok (if ltb 1 (length xs) then v ∷ rest else rest)

  -- `assignments`
  unfoldable pub fixed_assignments : List String → Result (Dict String)
  fixed_assignments [] = ok []
  fixed_assignments (v ∷ vs) = do
    xs ← subscript v s.candidate_domains
    x ← first_value xs
    rest ← fixed_assignments vs
    ok ((v, x) ∷ rest)

  -- the premises of the decided items
  unfoldable pub fixed_premises : List String → Result (List Atom)
  unfolding assignment_premise
  fixed_premises [] = ok []
  fixed_premises (v ∷ vs) = do a ← assignment_premise s v; rest ← fixed_premises vs; ok (a ∷ rest)

-- the loop over the values of the undecided item: those for which the clue holds, and the others
unfoldable pub sort_out : (String → Result Bool) → List String → Result (List String × List String)
sort_out holds [] = ok ([], [])
sort_out holds (x ∷ xs) = do
  b ← holds x
  (valid, invalid) ← sort_out holds xs
  ok (if b then (x ∷ valid, invalid) else (valid, x ∷ invalid))

-- the conclusions from the values that are left
unfoldable pub completion_of : String → List Atom → List String → List String → List RuleConclusion
completion_of v premises [] invalid = []
completion_of v premises (x ∷ []) invalid = (assignment v x, premises) ∷ []
completion_of v premises (x ∷ y ∷ valid) invalid = map (λ z. (exclusion v z, premises)) invalid

module _ (s : PuzzleState) (ordinals : Dict ℤ) (numeric_values : Dict Number) where
  -- a clue with one undecided item, the second argument; the third are its decided ones
  unfoldable pub complete_clue :
      BooleanExpression → String → List String → Result (List RuleConclusion)
  unfolding evaluate_boolean fixed_assignments fixed_premises sort_out completion_of
  complete_clue e v fixed = do
    assignments ← fixed_assignments s fixed
    premises ← fixed_premises s (sort_texts fixed)
    xs ← subscript v s.candidate_domains
    (valid, invalid) ←
        sort_out (λ x. evaluate_clue (insert v x assignments) ordinals numeric_values e)
          (sort_texts xs)
    ok (completion_of v premises valid invalid)

  -- what depends on how many items are undecided
  unfoldable pub undecided_conclusions :
      LogicGridTechnique
      → BooleanExpression
      → List String
      → List String
      → Result (List RuleConclusion)
  unfolding complete_clue ordering_bound_exclusions
  undecided_conclusions technique e variables (v ∷ []) =
      complete_clue e v (difference variables (v ∷ []))
  undecided_conclusions ordering e variables (v ∷ w ∷ []) = ordering_bound_exclusions s e ordinals
  undecided_conclusions technique e variables _ = ok []

  -- the conclusions of a clue
  unfoldable pub clue_conclusions :
      LogicGridTechnique → BooleanExpression → Result (List RuleConclusion)
  unfolding boolean_variables unresolved_of undecided_conclusions
  clue_conclusions technique e = do
    variables ← boolean_variables e
    unresolved ← unresolved_of s (sort_texts variables)
    undecided_conclusions technique e variables unresolved

abbrev pub same_technique : LogicGridTechnique → LogicGridTechnique → Bool
same_technique a b = eqb (technique_rank_of a) (technique_rank_of b)

-- the loop of `ClueCompletionRule.find_applications`
unfoldable pub find_completions :
    Platform
    → RuleReference
    → LogicGridTechnique
    → PuzzleState
    → Dict ℤ × Dict Number
    → List (Constraint × BooleanExpression)
    → Result (List RuleApplicationCandidate)
unfolding clue_conclusions candidates_for technique_for
find_completions P reference technique s semantics [] = ok []
find_completions P reference technique s semantics ((c, e) ∷ cs) =
    let others = find_completions P reference technique s semantics cs in
    let active = contains s.active_constraint_ids c.constraint_id in
    if active && same_technique (technique_for e) technique
    then (do
      conclusions ← clue_conclusions s semantics.0 semantics.1 technique e
      found ← candidates_for P reference s c.constraint_id conclusions
      rest ← others
      ok (found ++ rest))
    else others

-- `ClueCompletionRule.find_applications`
unfoldable pub find_completion_applications :
    Platform
    → LogicGridTechnique
    → String
    → LogicGridSpec
    → PuzzleState
    → Result (List RuleApplicationCandidate)
unfolding find_completions technique_reference anchor_semantics
find_completion_applications P technique title p s = do
  semantics ← clue_semantics p
  find_completions P (technique_reference technique title) technique s semantics
      (arithmetic_of p.base.constraints)

-- `ClueCompletionRule.__init__`
unfoldable pub make_completion_reference : LogicGridTechnique → String → Result RuleReference
unfolding technique_reference
make_completion_reference technique title = do
  raise_if (same_technique technique association || same_technique technique category_bijection)
      (value_error "association and bijection use dedicated rules")
  ok (technique_reference technique title)

-- `conclusion.variable_id` and `conclusion.value_id`
abbrev mark_variable : Atom → String
mark_variable (assignment v x) = v
mark_variable (exclusion v x) = v
mark_variable _ = ""

abbrev mark_value : Atom → String
mark_value (assignment v x) = x
mark_value (exclusion v x) = x
mark_value _ = ""

-- `reference.rule_id.rsplit(":", 1)[1]`, for an identifier with a colon
after_colon : String → String → String
after_colon seen String.[] = seen
after_colon seen (String.◌∷◌ c s) = if eqb (code c) 58 then after_colon s s else after_colon seen s

-- `_proposal`; the text of an atom is read by pydantic, the argument read_atom
unfoldable pub proposal_for :
    Platform
    → (String → Result Atom)
    → RuleReference
    → RuleApplicationCandidate
    → PuzzleState
    → Result ProposedDeduction
unfolding after_colon validate_deduction
proposal_for P read_atom reference candidate s = do
  raise_if (not (candidate.rule == reference))
      (rule_contract "candidate rule reference does not match this rule")
  raise_if (not (candidate.source_state_hash == s.state_hash))
      (rule_contract "candidate source state is stale")
  conclusion ← read_atom candidate.tie_break_key
  let proposal : ProposedDeduction = record {
    candidate_id = candidate.candidate_id;
    source_state_hash = candidate.source_state_hash;
    rule = reference;
    premises = candidate.premises;
    conclusions = conclusion ∷ [];
    affected_variables = candidate.affected_variables;
    supporting_constraints = candidate.supporting_constraints;
    explanation_parameters = object_of (
        ("technique", text (after_colon reference.rule_id reference.rule_id))
        ∷ ("variable_id", text (mark_variable conclusion))
        ∷ ("value_id", text (mark_value conclusion))
        ∷ []);
  }
  validate_deduction P proposal
  ok proposal
