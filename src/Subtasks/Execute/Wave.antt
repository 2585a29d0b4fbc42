-- ===== src/Subtasks/Execute/Wave.antt =====
-- One wave of `SchedulingEngine::execute` (crates/h2ai-orchestrator/src/scheduler.rs): what its subtasks
-- are given, and what it adds to the results.
use mathlib.Core.Path.{subst, ap₂}
use h2ai_control_plane.Prelude.{
  ℕ, ◌<◌, ◌≡◌, ◌≢◌, ◌⊎◌, refl, ap, ◌∙◌, some, List, [], ◌∷◌, map, arith, ◌==◌, ==_iff, length, All,
  ltb, ltb→lt, eq_ℕ, Bool-cases, inl, inr,
}
use h2ai_control_plane.HashMap
use h2ai_control_plane.HashMap.{HashMap}
use h2ai_control_plane.Counting.{count, Distinct, All-of_count}
use h2ai_control_plane.Result.{Result, ok, err}
use h2ai_control_plane.Identity.{SubtaskId}
use h2ai_control_plane.Subtasks.Plan.{Subtask, SubtaskResult}
use h2ai_control_plane.Subtasks.Waves.{SchedulerError, id_at}
use h2ai_control_plane.Subtasks.Execute.{
  TaskManifest, dep_outputs, with_output, build_subtask_manifest, find, run_wave, absorb,
}
use h2ai_control_plane.Subtasks.Execute.Lookup.{UniqueIds, Found, find-at}

dep_outputs-congr :
    (c c' : HashMap SubtaskId SubtaskResult) (ds : List SubtaskId)
    → All (λ d. HashMap.get c d ≡ HashMap.get c' d) ds
    → dep_outputs c ds ≡ dep_outputs c' ds
unfolding dep_outputs
dep_outputs-congr c c' [] h = refl
dep_outputs-congr c c' (d ∷ ds) h = ap₂ with_output h.0 (dep_outputs-congr c c' ds h.1)

Result-cases {ℓ κ} :
    {A : Type ℓ} {E : Type κ} (x : Result A E) → ((e : E) × (x ≡ err e)) ⊎ ((a : A) × (x ≡ ok a))
Result-cases (err e) = inl (e, refl)
Result-cases (ok a) = inr (a, refl)

module _ {ParetoWeights TopologyRequest ExplorerRequest OracleSpec : Type 0}
    (executor : SubtaskId
      → TaskManifest ParetoWeights TopologyRequest ExplorerRequest OracleSpec
      → Result SubtaskResult SchedulerError)
    (parent : TaskManifest ParetoWeights TopologyRequest ExplorerRequest OracleSpec)
    (subtasks : List Subtask) where
  pub build-congr :
      (s : Subtask) (c c' : HashMap SubtaskId SubtaskResult)
      → All (λ d. HashMap.get c d ≡ HashMap.get c' d) s.depends_on
      → build_subtask_manifest s parent c ≡ build_subtask_manifest s parent c'
  unfolding build_subtask_manifest
  build-congr s c c' h = rw (dep_outputs-congr c c' s.depends_on h) refl

  -- The executor answers with the id that it was given.
  abbrev pub OwnIds : Type 0
  OwnIds =
      (id : SubtaskId) (m : TaskManifest ParetoWeights TopologyRequest ExplorerRequest OracleSpec)
      (r : SubtaskResult)
      → executor id m ≡ ok r
      → r.subtask_id ≡ id

  -- An error of the executor.
  abbrev pub FromExecutor : SchedulerError → Type 0
  FromExecutor e =
      (id : SubtaskId) × ((m : TaskManifest ParetoWeights TopologyRequest ExplorerRequest
          OracleSpec)
        × (executor id m ≡ err e))

  -- A subtask was run with the results `c`, and `c'` holds its result.
  abbrev pub Ran : HashMap SubtaskId SubtaskResult → HashMap SubtaskId SubtaskResult → ℕ → Type 0
  Ran c c' i =
      (s : Subtask) × (Found subtasks i s
        × ((r : SubtaskResult) × ((HashMap.get c' (id_at subtasks i) ≡ some r)
              × (executor (id_at subtasks i) (build_subtask_manifest s parent c) ≡ ok r))))

  -- What a wave does to the results `c₀`, run with the results `c`.
  pub record WaveDone (c c₀ c' : HashMap SubtaskId SubtaskResult) (w : List ℕ) : Type 0 where
    pub kept :
        (d : SubtaskId)
        → ((j : ℕ) → 0 < count j w → id_at subtasks j ≢ d)
        → HashMap.get c' d ≡ HashMap.get c₀ d
    pub ran : (j : ℕ) → 0 < count j w → Ran c c' j

  unfoldable pub Outcome :
      (c c₀ : HashMap SubtaskId SubtaskResult) (w : List ℕ)
      → List (Result SubtaskResult SchedulerError)
      → Type 0
  Outcome c c₀ w rs =
      ((e : SchedulerError) × ((absorb c₀ rs ≡ err e) × FromExecutor e))
      ⊎ ((c' : HashMap SubtaskId SubtaskResult) × ((absorb c₀ rs ≡ ok c') × WaveDone c c₀ c' w))

  run-step :
      (c : HashMap SubtaskId SubtaskResult) (s : Subtask) (id : SubtaskId) (w : List ℕ)
      (x : Result SubtaskResult SchedulerError) (rs : List (Result SubtaskResult SchedulerError))
      → find subtasks id ≡ some s
      → executor id (build_subtask_manifest s parent c) ≡ x
      → run_wave executor parent subtasks c (map (id_at subtasks) w) ≡ some rs
      → run_wave executor parent subtasks c (id ∷ map (id_at subtasks) w) ≡ some (x ∷ rs)
  unfolding run_wave
  run-step c s id w x rs found answered run =
      rw (run_wave, found, run) (ap (λ y. some (y ∷ rs)) answered)

  module _ (unique : UniqueIds subtasks) (own : OwnIds) where
    one-more :
        (c c₀ c' : HashMap SubtaskId SubtaskResult) (j : ℕ) (w : List ℕ) (s : Subtask)
        (r : SubtaskResult)
        → Distinct (length subtasks) (j ∷ w)
        → j < length subtasks
        → Found subtasks j s
        → executor (id_at subtasks j) (build_subtask_manifest s parent c) ≡ ok r
        → WaveDone c (HashMap.insert c₀ r.subtask_id r) c' w
        → WaveDone c c₀ c' (j ∷ w)
    one-more c c₀ c' j w s r d j_lt f answered done =
        let id_eq : r.subtask_id ≡ id_at subtasks j = own _ _ r answered in
        let other : (k : ℕ) → 0 < count k w → id_at subtasks k ≢ id_at subtasks j = λ k at e.
          absurd (
            ground (
              arith,
              d.once j,
              d.bounded k,
              at,
              unique k j (index_lt w d k at) j_lt e,
              ap (λ i. count i w) (unique k j (index_lt w d k at) j_lt e),
            )) in
        record {
          kept = λ id h.
              done.kept id (λ k at. h k (ground arith))
              ∙ ground (arith, HashMap.get-insert c₀ r.subtask_id id r, id_eq, h j (ground arith));
          ran = λ k at. elim (Bool-cases (j == k)) [
            | inl same ↦ subst (Ran c c') ((==_iff j k).0 same) (
              s,
              (
                f,
                (
                  r,
                  (
                    done.kept (id_at subtasks j) other
                        ∙ ground
                            (arith, HashMap.get-insert c₀ r.subtask_id (id_at subtasks j) r, id_eq),
                    answered,
                  ),
                ),
              ),
            )
            | inr differ ↦ done.ran k (ground (arith, at))
          ];
        }
      where
        index_lt :
            (w : List ℕ)
            → Distinct (length subtasks) (j ∷ w)
            → (k : ℕ) → 0 < count k w
            → k < length subtasks
        index_lt w d k at = elim (Bool-cases (ltb k (length subtasks))) [
          | inl e ↦ ltb→lt k (length subtasks) e
          | inr e ↦ absurd (ground (arith, d.bounded k, at))
        ]

    pub wave-Outcome :
        (c c₀ : HashMap SubtaskId SubtaskResult) (w : List ℕ)
        → Distinct (length subtasks) w
        → (rs : List (Result SubtaskResult SchedulerError)) × ((run_wave executor parent subtasks c
                (map (id_at subtasks) w)
              ≡ some rs)
            × Outcome c c₀ w rs)
    unfolding run_wave absorb Outcome
    wave-Outcome c c₀ [] d = (
      [],
      (refl, inr (c₀, (refl, record { kept = λ d h. refl; ran = λ j at. absurd (omega arith) }))),
    )
    wave-Outcome c c₀ (j ∷ w) d =
        let j_lt : j < length subtasks = (All-of_count (length subtasks) (j ∷ w) d.bounded).0 in
        let (s, f) = find-at subtasks j unique j_lt in
        let d' : Distinct (length subtasks) w = record {
          once = λ k. ground (arith, d.once k);
          bounded = λ k le. ground (arith, d.bounded k le);
        } in
        elim (Result-cases (executor (id_at subtasks j) (build_subtask_manifest s parent c))) [
          | inl (e, failed) ↦
              let (rs, (run, _)) = wave-Outcome c c₀ w d' in
              (
                err e ∷ rs,
                (
                  run-step c s (id_at subtasks j) w (err e) rs f.found failed run,
                  inl (e, (refl, (id_at subtasks j, (build_subtask_manifest s parent c, failed)))),
                ),
              )
          | inr (r, answered) ↦
              let c₁ = HashMap.insert c₀ r.subtask_id r in
              let (rs, (run, outcome)) = wave-Outcome c c₁ w d' in
              (
                ok r ∷ rs,
                (
                  run-step c s (id_at subtasks j) w (ok r) rs f.found answered run,
                  elim outcome [
                    | inl (e, (failed, from)) ↦ inl (e, (failed, from))
                    | inr (c', (absorbed, done)) ↦
                        inr (c', (absorbed, one-more c c₀ c' j w s r d j_lt f answered done))
                  ],
                ),
              )
        ]
