-- ===== src/Merge.antt =====
-- The choice of an output among the valid proposals of a task: the selections of crates/h2ai-state
-- (krum.rs, bft.rs, weiszfeld.rs), the similarities they use, and the merge engine of crates/h2ai-autonomic.
pub mod Similarity
pub mod Krum
pub mod Median
pub mod Weiszfeld
pub mod Types
pub mod Accumulator
pub mod Engine
pub mod Dimensions
pub mod Given
pub mod Choice
pub mod Outcome
pub mod Rates
pub mod Positions
pub mod Survivors
