-- ===== src/Families/LogicEquations.antt =====
-- src/deductra/families/logic_equations: integers for variables, all different, by arithmetic clues.
pub mod Expressions
pub mod Specification
pub mod Evaluation
pub mod Checker
