-- ===== src/Reasoning/Branches/Acceptance.antt =====
-- src/deductra/reasoning/branches.py: `reduce_branch_projection` beside the step relation.
use deductra.Common.{string_eq, pair_eq, nat_eq, bool_eq}
use deductra.Reasoning.Branches.Step.{Step}
