-- ===== src/Constraints.antt =====
-- crates/h2ai-constraints: the predicates of constraints, their evaluation, the conflicts between them
-- and the clusters that their references make.
pub mod Types
pub mod Doc
pub mod Eval
pub mod Conflict
pub mod Clusters
