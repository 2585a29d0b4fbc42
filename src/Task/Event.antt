-- ===== src/Task/Event.antt =====
-- crates/h2ai-types/src/events.rs: the events of a task, with every variant of `H2AIEvent`. A payload
-- is given by the fields that the modelled code reads, and is left out where it reads none.
use Prim.Native.String.{◌++◌}
use h2ai_control_plane.Prelude.{ℕ, String, Bool, List, Option}
use h2ai_control_plane.Identity.{TaskId, ExplorerId, UuidFormat}

pub data TopologyKind : Type 0 where
  ensemble : TopologyKind
  hierarchical_tree : Option ℕ → TopologyKind
  team_swarm_hybrid : TopologyKind

pub record ExplorerConfig : Type 0 where
  pub explorer_id : ExplorerId

pub record TopologyProvisionedEvent : Type 0 where
  pub explorer_configs : List ExplorerConfig
  pub retry_count : ℕ  -- u32

pub record VerificationScoredEvent : Type 0 where
  pub passed : Bool

pub record TaskFailedEvent : Type 0 where
  pub topologies_tried : List TopologyKind

pub record PendingApprovalEvent : Type 0 where
  pub task_id : TaskId

pub record ApprovalResolvedEvent : Type 0 where
  pub task_id : TaskId

pub data H2aiEvent : Type 0 where
  calibration_completed : H2aiEvent
  calibration_failed : String → String → H2aiEvent
  task_bootstrapped : H2aiEvent
  topology_provisioned : TopologyProvisionedEvent → H2aiEvent
  multiplication_condition_failed proposal proposal_failed : H2aiEvent
  generation_phase_completed review_gate_triggered review_gate_blocked : H2aiEvent
  validation branch_pruned zero_survival interface_saturation_warning : H2aiEvent
  consensus_required selection_resolved merge_resolved : H2aiEvent
  task_failed : TaskFailedEvent → H2aiEvent
  coherence_incomplete verifier_frozen tao_iteration : H2aiEvent
  verification_scored : VerificationScoredEvent → H2aiEvent
  subtask_plan_created subtask_plan_reviewed subtask_started subtask_completed : H2aiEvent
  task_attribution generation_knowledge epistemic_yield task_complexity_assessed : H2aiEvent
  constraint_frontier oracle_pending oracle_result calibration_drift : H2aiEvent
  oracle_suspect : H2aiEvent
  pending_approval : PendingApprovalEvent → H2aiEvent
  approval_resolved : ApprovalResolvedEvent → H2aiEvent
  verifier_comparison shadow_audit audit_domain_promoted audit_domain_demoted : H2aiEvent
  correlated_ensemble researcher_grounding diversity_guard_degraded : H2aiEvent
  thinking_loop_completed oracle_calibration_patched oracle_gate_result : H2aiEvent
  pending_clarification opro_triggered prompt_variant_promoted : H2aiEvent
  constraint_ambiguity constraint_ambiguity_detected awareness_probe_completed : H2aiEvent
  leader_elected socratic_diagnosis verifier_reason_contradiction : H2aiEvent
  complexity_probe complexity_ceiling_detected tiered_exit : H2aiEvent
  cost_threshold_warning budget_exhausted convergence_gate : H2aiEvent
  constraint_coherence_warning verifier_instability constraint_repair_attempted : H2aiEvent
  constraint_version_created constraint_repair_failed induction_cycle_completed : H2aiEvent
  provenance_recorded : H2aiEvent

-- `H2AIEvent::subject`
module _ (uuid : UuidFormat) where
  abbrev pub task_subject : TaskId → String
  task_subject task_id = "h2ai.tasks." ++ uuid.to_string task_id

  unfoldable pub subject : H2aiEvent → TaskId → String
  subject (pending_approval e) task_id = task_subject e.task_id ++ ".pending_approval"
  subject (approval_resolved e) task_id = task_subject e.task_id ++ ".approval_resolved"
  subject _ task_id = task_subject task_id
