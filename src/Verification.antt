-- ===== src/Verification.antt =====
-- src/deductra/verification: proof obligations, the decision of several backends, and the
-- authority that lets a proved deduction change a state.
pub mod Contracts
pub mod Coordinator
pub mod Authority
