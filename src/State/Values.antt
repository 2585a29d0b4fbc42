-- ===== src/State/Values.antt =====
-- The values that the state stores keep, by the fields that make their keys
-- (crates/h2ai-types/src/prompt_variant.rs, reasoning_checkpoint.rs, conflict.rs, checkpoint.rs and
-- calibration.rs). `rest` stands for the other fields, which the stores only copy.
use h2ai_control_plane.Prelude.{ℕ, String}
use h2ai_control_plane.Identity.{TaskId, TenantId}

pub record CalibrationCompletedEvent : Type 0 where
  pub rest : ℕ

pub record CalibrationRecord : Type 0 where
  pub adapter_profile : String
  pub rest : ℕ

pub record AdapterOproState : Type 0 where
  pub adapter_name : String
  pub rest : ℕ

pub record PromptVariant : Type 0 where
  pub adapter_name : String
  pub prompt_key : String
  pub variant_id : String
  pub rest : ℕ

pub record TaskReasoningCheckpoint : Type 0 where
  pub task_id : TaskId
  pub tenant_id : TenantId
  pub rest : ℕ

pub record TaskMetaState : Type 0 where
  pub task_id : TaskId
  pub tenant_id : TenantId
  pub rest : ℕ

pub record ConflictRateAccumulator : Type 0 where
  pub tenant_id : TenantId
  pub rest : ℕ

pub record TaskCheckpoint : Type 0 where
  pub task_id : String
  pub rest : ℕ
