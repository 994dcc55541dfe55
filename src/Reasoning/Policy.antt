-- ===== src/Reasoning/Policy.antt =====
-- src/deductra/reasoning/policy.py: the selection of one candidate.
pub mod Selection
pub mod Preference
use deductra.Common.{ℕ, zero, suc, Option, none, some, List, [], ◌∷◌, if◌then◌else◌}
use deductra.Common.Int.{ℤ, pos, negsuc}
use deductra.Reasoning.Rules.{RuleApplicationCandidate, KeyPart, amount, key_le, stable_tail}

pub data ReasoningPolicy : Type 0 where
  teaching_first shortest_trace max_information_gain family_canonical : ReasoningPolicy

-- `-n`
abbrev pub negated : ℕ → ℤ
negated zero = pos 0
negated (suc n) = negsuc n

unfoldable pub score : ReasoningPolicy → RuleApplicationCandidate → List KeyPart
score teaching_first c = amount (pos c.pedagogical_cost) ∷ stable_tail c
score shortest_trace c =
    amount (negated c.information_gain) ∷ amount (pos c.pedagogical_cost) ∷ stable_tail c
score max_information_gain c = amount (negated c.information_gain) ∷ stable_tail c
score family_canonical c = stable_tail c

-- `min(xs, key=…)`: the first of the least ones, where `best` is the least so far
unfoldable pub least :
    ReasoningPolicy
    → RuleApplicationCandidate
    → List RuleApplicationCandidate
    → RuleApplicationCandidate
least policy best [] = best
least policy best (c ∷ cs) =
    least policy (if key_le (score policy best) (score policy c) then best else c) cs

unfoldable pub select_rule_application :
    List RuleApplicationCandidate → ReasoningPolicy → Option RuleApplicationCandidate
select_rule_application [] policy = none
select_rule_application (c ∷ cs) policy = some (least policy c cs)
