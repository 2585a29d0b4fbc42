-- ===== src/Merge/Outcome.antt =====
-- `MergeEngine::resolve` (crates/h2ai-autonomic/src/merger.rs) against what it promises: the output of a
-- proposal that passed, or the report that none did.
use mathlib.Core.List.{Memᴰ}
use mathlib.Core.List.Memᴰ
use mathlib.Core.Path.{subst}
use h2ai_control_plane.Prelude.{
  ℕ, ◌≡◌, ◌↔◌, refl, sym, ap, ◌∙◌, String, true, false, not, some, Option, List, map, arith, length,
  any, is_empty, ◌==◌, inl, inr,
}
use h2ai_control_plane.HashMap
use h2ai_control_plane.HashMap.{HashMap}
use h2ai_control_plane.Sorting.{filter-Memᴰ, Memᴰ-filter, map-Memᴰ, Memᴰ-map, sort-Memᴰ, Memᴰ-sort}
use h2ai_control_plane.Members.{List-cases}
use h2ai_control_plane.Identity.{TaskId, ExplorerId}
use h2ai_control_plane.Proposals.{ProposalEvent, BranchPrunedEvent, ProposalSet, Entry, compile}
use h2ai_control_plane.Merge.Choice.{IsUsable, OneDimension, select-Given}
use h2ai_control_plane.Merge.Accumulator.{ConstraintViolation, RetryAccumulator}
use h2ai_control_plane.Merge.Types.{MergeStrategy, OspConfig, MergeOutcome, resolved, zero_survival}
use h2ai_control_plane.Merge.Engine.{Host, resolve, resolved_of, accumulate, audited}

module _ {F G : Type 0} (host : Host F G) where
  -- An entry of the set whose explorer was not pruned and whose score is positive.
  abbrev pub Survives : ProposalSet F → List BranchPrunedEvent → Entry F → Type 0
  Survives proposals pruned e =
      Memᴰ e (HashMap.values proposals)
      × ((any (λ b. b.explorer_id == e.0.explorer_id) pruned ≡ false)
          × (host.floats.lt host.floats.zero e.1.1 ≡ true))

  compile-valid_iff :
      (task_id : TaskId) (proposals : ProposalSet F) (pruned : List BranchPrunedEvent)
      (p : ProposalEvent)
      → Memᴰ p
          (compile
            (λ a b. host.floats.lt b a)
            host.floats.zero
            task_id
            proposals
            pruned).valid_proposals
        ↔ ((e : Entry F) × (Survives proposals pruned e × (e.0 ≡ p)))
  unfolding compile
  compile-valid_iff task_id proposals pruned p = (
    λ m.
        let (r, (in_filter, e)) = map-Memᴰ (λ (s : ProposalEvent × F). s.0) _ p m in
        let (in_sort, positive) = filter-Memᴰ _ _ r in_filter in
        let (entry, (kept, e')) =
          map-Memᴰ (λ (x : Entry F). (x.0, x.1.1)) _ r (sort-Memᴰ _ _ r in_sort) in
        let (there, not_pruned) = filter-Memᴰ _ _ entry kept in
        (
          entry,
          (
            (there, (ground (arith, not_pruned), rw (ap (λ s. s.1) e') at positive)),
            sym (e ∙ ap (λ s. s.0) e'),
          ),
        ),
    λ (entry, ((there, (not_pruned, positive)), e)). rw (← e) (
        Memᴰ-map (λ (s : ProposalEvent × F). s.0) _ (entry.0, entry.1.1)
          (Memᴰ-filter _ _ (entry.0, entry.1.1)
            (Memᴰ-sort _ _ (entry.0, entry.1.1)
              (Memᴰ-map (λ (x : Entry F). (x.0, x.1.1)) _ entry
                (Memᴰ-filter _ _ entry there (ap not not_pruned))))
            positive)),
  )

  valid_ids_iff :
      (task_id : TaskId) (proposals : ProposalSet F) (pruned : List BranchPrunedEvent)
      (id : ExplorerId)
      → Memᴰ id (
          map
            (λ p. p.explorer_id)
            (compile
              (λ a b. host.floats.lt b a)
              host.floats.zero
              task_id
              proposals
              pruned).valid_proposals)
        ↔ ((e : Entry F) × (Survives proposals pruned e × (e.0.explorer_id ≡ id)))
  valid_ids_iff task_id proposals pruned id = (
    λ m.
        let (p, (there, same)) = map-Memᴰ (λ (q : ProposalEvent). q.explorer_id) _ id m in
        let (e, (survives, is)) = (compile-valid_iff task_id proposals pruned p).0 there in
        (e, (survives, ap (λ q. q.explorer_id) is ∙ sym same)),
    λ (e, (survives, same)).
        subst
          (λ i. Memᴰ i (
            map (λ p. p.explorer_id)
              (compile (λ a b. host.floats.lt b a) host.floats.zero task_id proposals
                pruned).valid_proposals))
          same
          (Memᴰ-map (λ (q : ProposalEvent). q.explorer_id) _ e.0
            ((compile-valid_iff task_id proposals pruned e.0).1 (e, (survives, refl)))),
  )

  -- What a merge promises: without a survivor it reports that and leaves the accumulator; otherwise the
  -- output is that of a survivor, and the event names the survivors' explorers.
  abbrev pub IsMergeOf :
      TaskId
      → ProposalSet F
      → List BranchPrunedEvent
      → ℕ
      → Option (RetryAccumulator F)
      → MergeOutcome
      → Option (RetryAccumulator F)
      → Type 0
  IsMergeOf task_id proposals pruned retry_count before (zero_survival event) after =
      (event.task_id ≡ task_id)
      × ((event.retry_count ≡ retry_count)
          × ((after ≡ before) × ((e : Entry F) → ¬ Survives proposals pruned e)))
  IsMergeOf task_id proposals pruned retry_count before (resolved selection event) after =
      (event.task_id ≡ task_id)
      × (((e : Entry F) × (Survives proposals pruned e × (event.resolved_output ≡ e.0.raw_output)))
          × ((id : ExplorerId)
              → Memᴰ id selection.valid_proposals
                ↔ ((e : Entry F) × (Survives proposals pruned e × (e.0.explorer_id ≡ id)))))

  -- With a usable strategy and embeddings of one length, the merge returns, and its result is as promised.
  pub resolve-IsMergeOf :
      (task_id : TaskId) (proposals : ProposalSet F) (pruned : List BranchPrunedEvent)
      (strategy : MergeStrategy) (retry_count : ℕ) (model : Option (String → List G))
      (violations : Option (List ConstraintViolation)) (acc : Option (RetryAccumulator F))
      (osp_config : Option (OspConfig F))
      → IsUsable strategy
      → OneDimension model
      → (out : MergeOutcome) × ((acc' : Option (RetryAccumulator F)) × ((resolve host task_id
                proposals pruned strategy retry_count model violations acc osp_config
              ≡ some (out, acc'))
            × IsMergeOf task_id proposals pruned retry_count acc out acc'))
  unfolding resolve
  resolve-IsMergeOf task_id proposals pruned strategy retry_count model violations acc osp_config
        usable d =
      let result = compile (λ a b. host.floats.lt b a) host.floats.zero task_id proposals pruned in
      let valid = result.valid_proposals in
      elim (List-cases valid) [
        | inl empty ↦ (
          zero_survival (record { task_id = task_id; retry_count = retry_count }),
          (
            acc,
            (
              rw (resolve, empty) refl,
              (
                refl,
                (
                  refl,
                  (
                    refl,
                    λ e s. Memᴰ.not-nil (
                        subst (λ v. Memᴰ e.0 v) empty
                          ((compile-valid_iff task_id proposals pruned e.0).1 (e, (s, refl)))),
                  ),
                ),
              ),
            ),
          ),
        )
        | inr (p, (ps, filled)) ↦
            let (chosen, (selected, (q, (m, text)))) =
              select-Given host osp_config strategy model result (omega (arith, ap length filled))
                usable d in
            let (e, (survives, same)) = (compile-valid_iff task_id proposals pruned q).0 m in
            (
              resolved_of host task_id proposals pruned strategy result chosen,
              (
                accumulate host acc osp_config violations
                    (audited host violations (length result.failed_proposals)),
                (
                  rw (resolve, ap is_empty filled, selected) refl,
                  (
                    refl,
                    (
                      (e, (survives, text ∙ ap (λ x. x.raw_output) (sym same))),
                      valid_ids_iff task_id proposals pruned,
                    ),
                  ),
                ),
              ),
            )
      ]
