-- ===== src/Merge/Choice.antt =====
-- The selection of an output in `MergeEngine::resolve` (crates/h2ai-autonomic/src/merger.rs): it is that of
-- one of the proposals.
use mathlib.Core.List.{Memᴰ}
use h2ai_control_plane.Prelude.{
  ℕ, ◌+◌, ◌*◌, ◌<◌, ◌≡◌, refl, ap, ◌∙◌, String, true, some, none, Option, List, [], ◌∷◌, map, All,
  arith, length, length-map, get_elem?, any, ◌==◌, Bool-cases, inl, inr,
}
use h2ai_control_plane.Proposals.{ProposalEvent, SemilatticeResult}
use h2ai_control_plane.Merge.Krum.{
  quorum_satisfied, cluster_coherent, krum_select_semantic, multi_krum_select_semantic,
}
use h2ai_control_plane.Merge.Positions.{find-Memᴰ, any-Memᴰ, get_elem?-below}
use h2ai_control_plane.Merge.Dimensions.{weiszfeld_select-below}
use h2ai_control_plane.Merge.Given.{
  OneOf, resolve-OneOf, krum_select_semantic-OneOf, multi_krum_select_semantic-Memᴰ,
}
use h2ai_control_plane.Merge.Types.{
  MergeStrategy, score_ordered, consensus_median, outlier_resistant, multi_outlier_resistant,
  OspConfig, OspRegime, single_survivor, clear_leader, tight_cluster, outlier_resistant_weiszfeld,
  outlier_resistant_krum, multi_krum_mode,
}
use h2ai_control_plane.Merge.Engine.{
  Host, output_of, has, similarity, median, fallback, trusted, first_survivor, by_strategy,
  by_regime, select, classify_osp_regime,
}

-- A strategy that asks for at least one survivor, with a number of faults whose quorum is a machine word.
abbrev pub IsUsable : MergeStrategy → Type 0
IsUsable score_ordered = Unit
IsUsable consensus_median = Unit
IsUsable (outlier_resistant f) = Unit
IsUsable (multi_outlier_resistant f m) = (0 < m) × (2 * f + 3 < 18446744073709551616)

-- A model, where there is one, whose embeddings have one length.
abbrev pub OneDimension : {G : Type 0} → Option (String → List G) → Type 0
OneDimension none = Unit
OneDimension (some embed) = (dim : ℕ) × ((s : String) → length (embed s) ≡ dim)

-- The text is the output of one of the proposals.
abbrev pub Given : List ProposalEvent → String → Type 0
Given proposals text = (p : ProposalEvent) × (Memᴰ p proposals × (text ≡ p.raw_output))

output_of-Given :
    (proposals : List ProposalEvent) (o : Option ProposalEvent)
    → OneOf proposals o
    → Given proposals (output_of o)
output_of-Given proposals o (p, (found, m)) = (p, (m, ap output_of found))

first-OneOf :
    (proposals : List ProposalEvent)
    → 0 < length proposals
    → OneOf proposals (get_elem? proposals 0)
first-OneOf proposals h = get_elem?-below proposals 0 h

module _ {F G : Type 0} (host : Host F G) where
  median-OneOf :
      (model : Option (String → List G)) (proposals : List ProposalEvent)
      → 0 < length proposals
      → OneOf proposals (median host model proposals)
  unfolding median
  median-OneOf model proposals h =
      resolve-OneOf host.floats (similarity host host.floats.zero model proposals) proposals h

  first_survivor-OneOf :
      (proposals survivors : List ProposalEvent) (p : ProposalEvent)
      → Memᴰ p survivors
      → Memᴰ p proposals
      → OneOf proposals (first_survivor host proposals survivors)
  first_survivor-OneOf proposals survivors p m given =
      find-Memᴰ (λ q. any (λ s. s.explorer_id == q.explorer_id) survivors) proposals p given
        (any-Memᴰ (λ s. s.explorer_id == p.explorer_id) survivors p m (ground arith))

  trusted-parts :
      (model : Option (String → List G)) (proposals : List ProposalEvent) (f : ℕ)
      → trusted host model proposals f ≡ true
      → (quorum_satisfied (length proposals) f ≡ true) × (has model ≡ true)
  unfolding trusted cluster_coherent
  trusted-parts model proposals f h = (ground (arith, h), ground (arith, h))

  embeddings-dim :
      (embed : String → List G) (dim : ℕ)
      → ((s : String) → length (embed s) ≡ dim)
      → (proposals : List ProposalEvent)
      → All
          (λ emb. length emb ≡ dim)
          (map (λ p. map host.vectors.widen (embed p.raw_output)) proposals)
  embeddings-dim embed dim same [] = tt
  embeddings-dim embed dim same (p ∷ ps) =
      (length-map _ (embed p.raw_output) ∙ same p.raw_output, embeddings-dim embed dim same ps)

  fallback-Given :
      (model : Option (String → List G)) (proposals : List ProposalEvent)
      → 0 < length proposals
      → OneDimension model
      → (chosen : String × String) × ((fallback host model proposals ≡ some chosen)
          × Given proposals chosen.0)
  unfolding fallback
  fallback-Given none proposals h d = (
    _,
    (refl, output_of-Given proposals (median host none proposals) (median-OneOf none proposals h)),
  )
  fallback-Given (some embed) proposals h (dim, same) =
      let embeddings = map (λ p. map host.vectors.widen (embed p.raw_output)) proposals in
      let sized : length embeddings ≡ length proposals = length-map _ proposals in
      let (idx, (found, below)) =
        weiszfeld_select-below host.floats host.roots embeddings 20 dim (omega (arith, sized, h))
          (embeddings-dim embed dim same proposals) in
      (
        (output_of (get_elem? proposals idx), outlier_resistant_weiszfeld),
        (
          rw (fallback, found) refl,
          output_of-Given proposals _ (get_elem?-below proposals idx (omega (arith, sized, below))),
        ),
      )

  by_strategy-Given :
      (strategy : MergeStrategy) (model : Option (String → List G)) (proposals : List ProposalEvent)
      → 0 < length proposals
      → IsUsable strategy
      → OneDimension model
      → (chosen : String × String) × ((by_strategy host strategy model proposals ≡ some chosen)
          × Given proposals chosen.0)
  unfolding by_strategy
  by_strategy-Given score_ordered model proposals h usable d =
      (_, (refl, output_of-Given proposals _ (first-OneOf proposals h)))
  by_strategy-Given consensus_median model proposals h usable d = (
    _,
    (
      refl,
      output_of-Given proposals (median host model proposals) (median-OneOf model proposals h),
    ),
  )
  by_strategy-Given (outlier_resistant f) model proposals h usable d =
      elim (Bool-cases (trusted host model proposals f)) [
        | inr not_trusted ↦ rw (by_strategy, not_trusted) (fallback-Given model proposals h d)
        | inl holds ↦
            let (quorum, there) = trusted-parts model proposals f holds in
            let chosen =
              krum_select_semantic host.floats (has model)
                (similarity host host.floats.one model proposals) proposals f in
            (
              (output_of chosen, outlier_resistant_krum),
              (
                rw (by_strategy, holds) refl,
                output_of-Given proposals chosen (
                    rw there (
                      krum_select_semantic-OneOf host.floats
                        (similarity host host.floats.one model proposals) proposals f h quorum)),
              ),
            )
      ]
  by_strategy-Given (multi_outlier_resistant f m) model proposals h usable d =
      elim (Bool-cases (trusted host model proposals f)) [
        | inr not_trusted ↦ rw (by_strategy, not_trusted) (fallback-Given model proposals h d)
        | inl holds ↦
            let (quorum, there) = trusted-parts model proposals f holds in
            let (p, (m', given)) =
              multi_krum_select_semantic-Memᴰ host.floats
                (similarity host host.floats.one model proposals) proposals f m h usable.0 usable.1
                quorum in
            let survivors =
              multi_krum_select_semantic host.floats (has model)
                (similarity host host.floats.one model proposals) proposals f m in
            let here : Memᴰ p survivors = rw there m' in
            (
              (output_of (first_survivor host proposals survivors), multi_krum_mode),
              (
                rw (by_strategy, holds) refl,
                output_of-Given proposals _ (first_survivor-OneOf proposals survivors p here given),
              ),
            )
      ]

  by_regime-Given :
      (regime : OspRegime) (model : Option (String → List G)) (proposals : List ProposalEvent)
      → 0 < length proposals
      → Given proposals (by_regime host regime model proposals).0
  unfolding by_regime
  by_regime-Given single_survivor model proposals h =
      output_of-Given proposals _ (first-OneOf proposals h)
  by_regime-Given clear_leader model proposals h =
      output_of-Given proposals _ (first-OneOf proposals h)
  by_regime-Given tight_cluster model proposals h =
      output_of-Given proposals _ (median-OneOf model proposals h)

  pub select-Given :
      (osp_config : Option (OspConfig F)) (strategy : MergeStrategy)
      (model : Option (String → List G)) (result : SemilatticeResult F)
      → 0 < length result.valid_proposals
      → IsUsable strategy
      → OneDimension model
      → (chosen : String × String) × ((select host osp_config strategy model result ≡ some chosen)
          × Given result.valid_proposals chosen.0)
  unfolding select
  select-Given (some config) strategy model result h usable d = (
    _,
    (
      refl,
      by_regime-Given (classify_osp_regime host result.valid_proposal_scores config.t_v) model
          result.valid_proposals h,
    ),
  )
  select-Given none strategy model result h usable d =
      by_strategy-Given strategy model result.valid_proposals h usable d
