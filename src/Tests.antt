-- ===== src/Tests.antt =====
-- Concrete runs of the modelled code: tests, and the theorems at concrete inputs.
mod Samples
mod Tasks
mod Constraints
mod Merge
mod Leader
mod Subtasks
mod Proposals
mod Provisioner
mod Recovery
mod Retry
mod JudgePanel
mod Publishing
mod Tao
