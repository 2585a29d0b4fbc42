-- ===== src/Tao.antt =====
-- The loop of one explorer, which thinks, acts and observes: crates/h2ai-orchestrator/src/tao_loop.rs, with
-- output_schema.rs and repetition.rs beside it.
pub mod Types
pub mod Turn
pub mod Loop
pub mod Estimator
