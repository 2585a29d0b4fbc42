-- ===== src/State.antt =====
-- crates/h2ai-state: the stores of the program's state.
pub mod Values
pub mod InMemory
pub mod Recovery
