-- ===== src/Leader.antt =====
-- The epistemic leader of a task: crates/h2ai-orchestrator/src/leader.rs, and the elections of the
-- controller (mape_k.rs and engine.rs of the same crate).
pub mod Types
pub mod Question
pub mod Election
pub mod Chosen
pub mod Credibility
pub mod Steps
pub mod Terms
pub mod Elected
