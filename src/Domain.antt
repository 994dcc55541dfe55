-- ===== src/Domain.antt =====
-- src/deductra/domain: the family-neutral contracts of a puzzle.
pub mod Atoms
pub mod Expressions
pub mod Constraints
pub mod Values
pub mod Puzzle
