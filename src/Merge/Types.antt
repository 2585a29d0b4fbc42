-- ===== src/Merge/Types.antt =====
-- The merge strategies (crates/h2ai-types/src/sizing.rs), and what the merge engine emits (events.rs of
-- the same crate, and `MergeOutcome` of crates/h2ai-autonomic/src/merger.rs). Timestamps and the texts of
-- `zone3_hints` and `contradiction_analysis` are left out.
use h2ai_control_plane.Prelude.{ℕ, String, ◌&&◌, Option, List, ltb, if◌then◌else◌}
use h2ai_control_plane.Floats.{Floats, fold}
use h2ai_control_plane.Identity.{TaskId, ExplorerId}

pub data MergeStrategy : Type 0 where
  score_ordered : MergeStrategy
  consensus_median : MergeStrategy
  outlier_resistant : (f : ℕ) → MergeStrategy
  multi_outlier_resistant : (f : ℕ) → (m : ℕ) → MergeStrategy

-- `MergeStrategy::from_role_costs`, with `f64::NEG_INFINITY`.
unfoldable pub from_role_costs : {F : Type 0} → Floats F → F → List F → F → F → ℕ → MergeStrategy
from_role_costs fl neg_infinity costs bft_threshold krum_threshold krum_f =
    let max_ci = fold fl fl.max neg_infinity costs in
    if ltb 0 krum_f && fl.lt krum_threshold max_ci
    then outlier_resistant krum_f
    else if fl.lt bft_threshold max_ci
    then consensus_median
    else score_ordered

-- What `resolve` reads of an `OspConfig`.
pub record OspConfig (F : Type 0) : Type 0 where
  pub t_v : F
  pub accumulation_decay : F

pub data OspRegime : Type 0 where
  single_survivor : OspRegime
  clear_leader : OspRegime
  tight_cluster : OspRegime

pub record ZeroSurvivalEvent : Type 0 where
  pub task_id : TaskId
  pub retry_count : ℕ

pub record SelectionResolvedEvent : Type 0 where
  pub task_id : TaskId
  pub valid_proposals : List ExplorerId
  pub pruned_proposals : List (ExplorerId × String)
  pub merge_strategy : MergeStrategy
  pub n_input_proposals : ℕ
  pub n_failed_proposals : ℕ
  pub merge_selection_mode : Option String

pub record MergeResolvedEvent : Type 0 where
  pub task_id : TaskId
  pub resolved_output : String

pub data MergeOutcome : Type 0 where
  resolved : SelectionResolvedEvent → MergeResolvedEvent → MergeOutcome
  zero_survival : ZeroSurvivalEvent → MergeOutcome

abbrev pub osp_single_survivor : String
osp_single_survivor = "OSP-SingleSurvivor"

abbrev pub osp_clear_leader : String
osp_clear_leader = "OSP-ClearLeader"

abbrev pub osp_tight_cluster : String
osp_tight_cluster = "OSP-TightCluster"

abbrev pub outlier_resistant_krum : String
outlier_resistant_krum = "OutlierResistant-Krum"

abbrev pub outlier_resistant_weiszfeld : String
outlier_resistant_weiszfeld = "OutlierResistant-Weiszfeld"

abbrev pub outlier_resistant_consensus_median : String
outlier_resistant_consensus_median = "OutlierResistant-ConsensusMedian"

abbrev pub multi_krum_mode : String
multi_krum_mode = "MultiKrum"

abbrev pub score_ordered_mode : String
score_ordered_mode = "ScoreOrdered"

abbrev pub consensus_median_mode : String
consensus_median_mode = "ConsensusMedian"
