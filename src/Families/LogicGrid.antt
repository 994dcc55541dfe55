-- ===== src/Families/LogicGrid.antt =====
-- src/deductra/families/logic_grid: one-to-one associations between the items of categories.
pub mod Numbers
pub mod Expressions
pub mod Specification
pub mod Evaluation
pub mod Checker
pub mod Play
pub mod Rules
