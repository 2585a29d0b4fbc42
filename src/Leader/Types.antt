-- ===== src/Leader/Types.antt =====
-- The state of a leader (crates/h2ai-orchestrator/src/leader.rs), the fields of the controller that an
-- election uses (mape_k.rs), and the events that it leaves (crates/h2ai-types/src/events.rs). Timestamps
-- are left out.
use Prim.Native.Char.{Char}
use h2ai_control_plane.Prelude.{ℕ, String, Bool, Option, none, List, []}
use h2ai_control_plane.HashMap.{HashMap}
use h2ai_control_plane.Floats.{Floats}
use h2ai_control_plane.Identity.{TaskId, ExplorerId}

module _ (F : Type 0) where
  pub record BeliefRecord : Type 0 where
    pub question_hash : ℕ  -- u64
    pub question_text : String
    pub outcome_scores : List F

  pub record LeaderState : Type 0 where
    pub term : ℕ  -- u32
    pub leader_explorer_id : ExplorerId
    pub prior_proposal : String
    pub socratic_question : String
    pub confidence_history : List F
    pub stagnation_count : ℕ  -- u32
    pub belief_buffer : List BeliefRecord
    pub credibility_score : F
    pub follower_aspects : List String

  pub record LeaderElectionPlan : Type 0 where
    pub task_id : TaskId
    pub term : ℕ
    pub leader_explorer_id : ExplorerId
    pub runner_up_explorer_id : Option ExplorerId
    pub prior_proposal : String
    pub violated_constraint_ids : List String
    pub q_confidence : F
    pub should_rotate : Bool
    pub follower_aspects : List String
    pub existing_belief_buffer : List BeliefRecord
    pub existing_credibility : F

  pub record LeaderConfig : Type 0 where
    pub leader_enabled : Bool
    pub leader_stagnation_threshold : F
    pub leader_stagnation_waves : ℕ
    pub leader_credibility_decay_rate : F
    pub leader_eig_candidates : ℕ

pub data RotationReason : Type 0 where
  first_election stagnation : RotationReason

module _ (F : Type 0) where
  pub record LeaderElectedEvent : Type 0 where
    pub task_id : TaskId
    pub term : ℕ
    pub leader_explorer_id : ExplorerId
    pub q_confidence : F
    pub credibility_score : F
    pub rotation_reason : Option RotationReason

pub record SocraticDiagnosisEvent : Type 0 where
  pub task_id : TaskId
  pub term : ℕ
  pub question : String
  pub violated_constraints : List String
  pub eig_rank : ℕ
  pub dedup_candidates_tried : ℕ

module _ (F : Type 0) where
  -- The events of a wave are kept as explorers with their scores, the history of quality as its
  -- `q_confidence`s.
  pub record MapeKController : Type 0 where
    pub task_id : TaskId
    pub leader : Option (LeaderState F)
    pub last_wave_verification_events : List (ExplorerId × F)
    pub last_wave_proposal_texts : HashMap ExplorerId String
    pub last_wave_violated_constraint_ids : List String
    pub quality_history : List F
    pub pending_leader_elected_events : List (LeaderElectedEvent F)
    pub pending_socratic_diagnosis_events : List SocraticDiagnosisEvent

  -- `MapeKController::new`, as far as it concerns the leader.
  abbrev pub new : TaskId → MapeKController
  new task_id = record {
    task_id = task_id;
    leader = none;
    last_wave_verification_events = [];
    last_wave_proposal_texts = [];
    last_wave_violated_constraint_ids = [];
    quality_history = [];
    pending_leader_elected_events = [];
    pending_socratic_diagnosis_events = [];
  }

  -- The numbers of `f64` with 0.5, the white space of Unicode, and `str::trim`.
  pub record LeaderHost : Type 0 where
    pub floats : Floats F
    pub half : F
    pub is_whitespace : Char → Bool
    pub trim : String → String
