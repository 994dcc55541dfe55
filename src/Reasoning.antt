-- ===== src/Reasoning.antt =====
-- src/deductra/reasoning: events, states, branches and the human-rule engine.
pub mod Events
pub mod Integrity
pub mod State
pub mod Reducer
pub mod Branches
pub mod Rules
pub mod Policy
pub mod Engine
