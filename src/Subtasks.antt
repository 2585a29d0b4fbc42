-- ===== src/Subtasks.antt =====
-- The decomposition of a task into subtasks, and the engine that runs them in waves.
pub mod Plan
pub mod Waves
pub mod Execute
