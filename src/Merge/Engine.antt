-- ===== src/Merge/Engine.antt =====
-- crates/h2ai-autonomic/src/merger.rs: `MergeEngine::resolve`. `none` is a panic.
use Prim.Native.Char.{Char}
use h2ai_control_plane.Prelude.{
  ℕ, ◌+◌, String, Bool, true, false, ◌&&◌, Option, none, some, List, [], ◌∷◌, map, ◌==◌, any,
  length, is_empty, find, get_elem?, if◌then◌else◌,
}
use mathlib.Core.Option
use h2ai_control_plane.Floats.{Floats}
use h2ai_control_plane.Identity.{TaskId}
use h2ai_control_plane.Proposals.{
  ProposalEvent, BranchPrunedEvent, ProposalSet, SemilatticeResult, compile,
}
use h2ai_control_plane.Merge.Similarity.{Vectors, token_jaccard, embedded_similarity}
use h2ai_control_plane.Merge.Krum.{
  quorum_satisfied, cluster_coherent, krum_select_semantic, multi_krum_select_semantic,
}
use h2ai_control_plane.Merge.Weiszfeld.{Roots, weiszfeld_select}
use h2ai_control_plane.Merge.Median
use h2ai_control_plane.Merge.Types.{
  MergeStrategy, score_ordered, consensus_median, outlier_resistant, multi_outlier_resistant,
  OspConfig, OspRegime, single_survivor, clear_leader, tight_cluster, MergeOutcome, resolved,
  zero_survival, osp_single_survivor, osp_clear_leader, osp_tight_cluster, outlier_resistant_krum,
  outlier_resistant_weiszfeld, outlier_resistant_consensus_median, multi_krum_mode,
  score_ordered_mode, consensus_median_mode,
}
use h2ai_control_plane.Merge.Accumulator.{ConstraintViolation, RetryAccumulator, update}

-- What the engine uses of the language and its libraries: the numbers of `f64` and `f32` with their
-- constants, and the tests on characters.
pub record Host (F G : Type 0) : Type 0 where
  pub floats : Floats F
  pub floats32 : Floats G
  pub vectors : Vectors F G
  pub roots : Roots F
  pub two : F
  pub max_cluster_diameter : F
  pub is_alphanumeric : Char → Bool
  pub to_lowercase : String → String

-- `.map(|p| p.raw_output.clone()).unwrap_or_default()`
abbrev pub output_of : Option ProposalEvent → String
output_of p = Option.get_or (Option.map (λ q. q.raw_output) p) ""

-- `Option::is_some`
abbrev pub has : {A : Type 0} → Option A → Bool
has none = false
has (some a) = true

module _ {F G : Type 0} (host : Host F G) where
  unfoldable pub classify_osp_regime : List F → F → OspRegime
  classify_osp_regime [] t_v = single_survivor
  classify_osp_regime (a ∷ []) t_v = single_survivor
  classify_osp_regime (a ∷ b ∷ scores) t_v =
      if host.floats.le (host.floats.mul host.two t_v) (host.floats.sub a b)
      then clear_leader
      else tight_cluster

  -- The outputs of two positions, by their embeddings or else by their tokens.
  unfoldable pub similarity : F → Option (String → List G) → List ProposalEvent → ℕ → ℕ → F
  unfolding embedded_similarity token_jaccard
  similarity both_empty embedding_model proposals i j =
      let a = output_of (get_elem? proposals i) in
      let b = output_of (get_elem? proposals j) in
      elim embedding_model [
        | none ↦ token_jaccard host.is_alphanumeric host.to_lowercase host.floats both_empty a b
        | some embed ↦
            embedded_similarity host.floats host.floats32 host.vectors (a, embed a) (b, embed b)
      ]

  -- `ConsensusMedian::resolve` with the similarities of bft.rs.
  unfoldable pub median : Option (String → List G) → List ProposalEvent → Option ProposalEvent
  unfolding similarity Median.resolve
  median embedding_model proposals =
      Median.resolve host.floats (similarity host.floats.zero embedding_model proposals) proposals

  -- The choice without a quorum or a coherent cluster.
  unfoldable pub fallback : Option (String → List G) → List ProposalEvent → Option (String × String)
  unfolding median weiszfeld_select
  fallback none proposals =
      some (output_of (median none proposals), outlier_resistant_consensus_median)
  fallback (some embed) proposals =
      elim (weiszfeld_select host.floats host.roots
        (map (λ p. map host.vectors.widen (embed p.raw_output)) proposals) 20) [
          | none ↦ none
          | some idx ↦ some (output_of (get_elem? proposals idx), outlier_resistant_weiszfeld)
        ]

  -- The test of `OutlierResistant` and `MultiOutlierResistant`.
  unfoldable pub trusted : Option (String → List G) → List ProposalEvent → ℕ → Bool
  unfolding similarity quorum_satisfied cluster_coherent
  trusted embedding_model proposals f =
      quorum_satisfied (length proposals) f
      && cluster_coherent host.floats host.max_cluster_diameter (has embedding_model)
          (length proposals) (similarity host.floats.one embedding_model proposals)

  -- The first valid proposal that is by the explorer of a survivor.
  abbrev pub first_survivor : List ProposalEvent → List ProposalEvent → Option ProposalEvent
  first_survivor proposals survivors =
      find (λ p. any (λ s. s.explorer_id == p.explorer_id) survivors) proposals

  unfoldable pub by_strategy :
      MergeStrategy → Option (String → List G) → List ProposalEvent → Option (String × String)
  unfolding median fallback trusted krum_select_semantic multi_krum_select_semantic
  by_strategy consensus_median embedding_model proposals =
      some (output_of (median embedding_model proposals), consensus_median_mode)
  by_strategy score_ordered embedding_model proposals =
      some (output_of (get_elem? proposals 0), score_ordered_mode)
  by_strategy (outlier_resistant f) embedding_model proposals =
      elim (trusted embedding_model proposals f) [
        | true ↦ some (
          output_of (
              krum_select_semantic host.floats (has embedding_model)
                (similarity host.floats.one embedding_model proposals) proposals f),
          outlier_resistant_krum,
        )
        | false ↦ fallback embedding_model proposals
      ]
  by_strategy (multi_outlier_resistant f m) embedding_model proposals =
      elim (trusted embedding_model proposals f) [
        | true ↦ some (
          output_of (
              first_survivor proposals (
                multi_krum_select_semantic host.floats (has embedding_model)
                  (similarity host.floats.one embedding_model proposals) proposals f m)),
          multi_krum_mode,
        )
        | false ↦ fallback embedding_model proposals
      ]

  unfoldable pub by_regime :
      OspRegime → Option (String → List G) → List ProposalEvent → String × String
  unfolding median
  by_regime single_survivor embedding_model proposals =
      (output_of (get_elem? proposals 0), osp_single_survivor)
  by_regime clear_leader embedding_model proposals =
      (output_of (get_elem? proposals 0), osp_clear_leader)
  by_regime tight_cluster embedding_model proposals =
      (output_of (median embedding_model proposals), osp_tight_cluster)

  -- `(resolved_output, selection_mode)`
  unfoldable pub select :
      Option (OspConfig F)
      → MergeStrategy
      → Option (String → List G)
      → SemilatticeResult F
      → Option (String × String)
  unfolding classify_osp_regime by_strategy by_regime
  select (some config) strategy embedding_model result = some (
      by_regime (classify_osp_regime result.valid_proposal_scores config.t_v) embedding_model
        result.valid_proposals)
  select none strategy embedding_model result =
      by_strategy strategy embedding_model result.valid_proposals

  -- The failed proposals that count for the audit.
  abbrev pub audited : Option (List ConstraintViolation) → ℕ → ℕ
  audited none n_f_semilattice = n_f_semilattice
  audited (some v) n_f_semilattice =
      if is_empty v then n_f_semilattice else if n_f_semilattice == 0 then 1 else n_f_semilattice

  -- What becomes of the accumulator, where one is given.
  unfoldable pub accumulate :
      Option (RetryAccumulator F)
      → Option (OspConfig F)
      → Option (List ConstraintViolation)
      → ℕ
      → Option (RetryAccumulator F)
  unfolding update
  accumulate (some acc) (some config) (some viols) n_f =
      some (update host.floats acc viols n_f config.accumulation_decay)
  accumulate (some acc) (some config) none n_f = some acc
  accumulate (some acc) none violations n_f = some acc
  accumulate none osp_config violations n_f = none

  -- The events, with the output and the mode that were chosen.
  abbrev pub resolved_of :
      TaskId
      → ProposalSet F
      → List BranchPrunedEvent
      → MergeStrategy
      → SemilatticeResult F
      → String × String
      → MergeOutcome
  resolved_of task_id proposals pruned strategy result (resolved_output, selection_mode) =
      resolved
        (record {
          task_id = task_id;
          valid_proposals = map (λ p. p.explorer_id) result.valid_proposals;
          pruned_proposals = map (λ p. (p.explorer_id, p.reason)) result.pruned_proposals;
          merge_strategy = strategy;
          n_input_proposals = length proposals + length pruned;
          n_failed_proposals = length result.failed_proposals;
          merge_selection_mode = some selection_mode;
        })
        (record { task_id = task_id; resolved_output = resolved_output })

  -- The outcome, and the accumulator after it.
  unfoldable pub resolve :
      TaskId
      → ProposalSet F
      → List BranchPrunedEvent
      → MergeStrategy
      → ℕ
      → Option (String → List G)
      → Option (List ConstraintViolation)
      → Option (RetryAccumulator F)
      → Option (OspConfig F)
      → Option (MergeOutcome × Option (RetryAccumulator F))
  unfolding compile select accumulate
  resolve task_id proposals pruned strategy retry_count embedding_model violations retry_accumulator
        osp_config =
      let result = compile (λ a b. host.floats.lt b a) host.floats.zero task_id proposals pruned in
      elim (is_empty result.valid_proposals) [
        | true ↦ some (
          zero_survival (record { task_id = task_id; retry_count = retry_count }),
          retry_accumulator,
        )
        | false ↦ elim (select osp_config strategy embedding_model result) [
          | none ↦ none
          | some chosen ↦ some (
            resolved_of task_id proposals pruned strategy result chosen,
            accumulate retry_accumulator osp_config violations
                (audited violations (length result.failed_proposals)),
          )
        ]
      ]
