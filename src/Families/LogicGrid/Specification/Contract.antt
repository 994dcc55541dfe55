-- ===== src/Families/LogicGrid/Specification/Contract.antt =====
-- src/deductra/families/logic_grid/specification.py: `validate_logic_grid_contract`.
use deductra.Common.{Result, ◌>>=◌, ◌>>◌}
use deductra.Common.Dict.{keys}
use deductra.Domain.Puzzle.{validate_references}
use deductra.Families.LogicGrid.Specification.{
  LogicGridSpec, domains_by_id, variables_by_id, validate_categories, validate_domains,
  validate_variables, validate_alignments,
}
use deductra.Families.LogicGrid.Specification.Clues.{
  validate_anchor_domain, validate_constraints, validate_clues,
}
use deductra.Families.LogicGrid.Specification.Givens.{validate_givens}

-- `validate_logic_grid_contract`
unfoldable pub validate_logic_grid_contract : LogicGridSpec → Result (Unit {0})
unfolding validate_categories validate_domains validate_variables validate_alignments
    validate_anchor_domain validate_constraints validate_clues validate_givens
validate_logic_grid_contract p = do
  validate_categories p
  size ← validate_domains p
  (category, anchor) ← validate_variables p size
  validate_alignments (domains_by_id p) (variables_by_id p) p.categories
  validate_anchor_domain anchor
  validate_constraints p (keys (variables_by_id p))
  validate_clues p
  validate_givens p category anchor

-- The validators of a specification: those of `PuzzleSpec` run first.
unfoldable pub validate_logic_grid_spec : LogicGridSpec → Result (Unit {0})
unfolding validate_logic_grid_contract validate_references
validate_logic_grid_spec p = do validate_references p.base; validate_logic_grid_contract p
