-- ===== src/Tests.antt =====
-- Concrete runs of the program, and the examples that the theorems are applied to.
pub mod Samples
mod Chains
pub mod Reductions
mod Projections
mod Decisions
mod Solving
mod Genesis
pub mod Grids
mod Equations
mod Deductions
mod Playing
