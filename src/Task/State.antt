-- ===== src/Task/State.antt =====
-- crates/h2ai-orchestrator/src/task_store.rs: `TaskState`.
use h2ai_control_plane.Prelude.{ℕ, String, ◌≡◌, refl}
use h2ai_control_plane.Identity.{TaskId, TenantId}
use h2ai_control_plane.Task.Phase.{TaskPhase, bootstrap, code, status_str, name_str}

pub record TaskState : Type 0 where
  pub task_id : TaskId
  pub tenant_id : TenantId
  pub status : String
  pub phase : ℕ  -- u8
  pub phase_name : String
  pub explorers_completed : ℕ  -- u32
  pub explorers_total : ℕ  -- u32
  pub proposals_valid : ℕ  -- u32
  pub proposals_pruned : ℕ  -- u32
  pub autonomic_retries : ℕ  -- u32

unfoldable pub new : TaskId → TenantId → TaskState
unfolding code name_str
new task_id tenant_id = record {
  task_id = task_id;
  tenant_id = tenant_id;
  status = "pending";
  phase = code bootstrap;
  phase_name = name_str bootstrap;
  explorers_completed = 0;
  explorers_total = 0;
  proposals_valid = 0;
  proposals_pruned = 0;
  autonomic_retries = 0;
}

-- The three assignments that move a state into a phase; the callers below write them together.
unfoldable pub enter : TaskPhase → TaskState → TaskState
unfolding status_str code name_str
enter p s = record s { status = status_str p; phase = code p; phase_name = name_str p }

-- The three fields that show the phase agree on it.
pub record InPhase (p : TaskPhase) (s : TaskState) : Type 0 where
  pub phase_eq : s.phase ≡ code p
  pub name_eq : s.phase_name ≡ name_str p
  pub status_eq : s.status ≡ status_str p

abbrev pub IsCoherent : TaskState → Type 0
IsCoherent s = (p : TaskPhase) × InPhase p s

pub new-IsCoherent : (id : TaskId) (tenant : TenantId) → IsCoherent (new id tenant)
unfolding new status_str
new-IsCoherent id tenant = (bootstrap, record { phase_eq = refl; name_eq = refl; status_eq = refl })

pub enter-InPhase : (p : TaskPhase) (s : TaskState) → InPhase p (enter p s)
unfolding enter
enter-InPhase p s = record { phase_eq = refl; name_eq = refl; status_eq = refl }
