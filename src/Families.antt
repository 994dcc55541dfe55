-- ===== src/Families.antt =====
-- src/deductra/families: the puzzle families.
pub mod LogicGrid
pub mod LogicEquations
