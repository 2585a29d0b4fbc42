-- ===== src/Task.antt =====
-- The state of a task: its phases, its store and its event journal.
pub mod Phase
pub mod State
pub mod Event
pub mod Journal
pub mod Store
