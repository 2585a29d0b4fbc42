-- ===== src/Subtasks/Plan.antt =====
-- crates/h2ai-types/src/plan.rs: the subtasks of a plan and their results.
use h2ai_control_plane.Prelude.{ℕ, String, Option, List}
use h2ai_control_plane.Identity.{SubtaskId, TaskId}

-- A floating-point number is given by its bits.
pub data AgentRole : Type 0 where
  coordinator executor evaluator synthesizer : AgentRole
  custom : (name : String) (tau role_error_cost : ℕ) → AgentRole

pub record Subtask : Type 0 where
  pub id : SubtaskId
  pub description : String
  pub depends_on : List SubtaskId
  pub role_hint : Option AgentRole

pub data PlanStatus : Type 0 where
  draft pending_review approved complete : PlanStatus
  rejected : String → PlanStatus
  executing : ℕ → ℕ → PlanStatus

pub record SubtaskPlan : Type 0 where
  pub plan_id : TaskId
  pub parent_task_id : TaskId
  pub subtasks : List Subtask
  pub status : PlanStatus
  pub created_at : ℕ

pub record SubtaskResult : Type 0 where
  pub subtask_id : SubtaskId
  pub output : String
  pub token_cost : ℕ  -- u64
  pub timestamp : ℕ
