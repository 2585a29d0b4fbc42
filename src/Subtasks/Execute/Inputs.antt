-- ===== src/Subtasks/Execute/Inputs.antt =====
-- What `SchedulingEngine::execute` promises (crates/h2ai-orchestrator/src/scheduler.rs): every subtask is
-- run with the results of all its dependencies.
use mathlib.Core.Path.{subst}
use h2ai_control_plane.Prelude.{
  ℕ, ◌+◌, ◌≤◌, ◌<◌, ◌≡◌, ◌⊎◌, refl, sym, ap, ◌∙◌, Option, some, List, [], ◌∷◌, ◌++◌, map, arith,
  length, All, All-map, ltb, ltb→lt, eq_ℕ, Bool-cases, inl, inr,
}
use h2ai_control_plane.HashMap
use h2ai_control_plane.HashMap.{HashMap}
use h2ai_control_plane.Counting.{count, count-append, Distinct}
use h2ai_control_plane.Result.{Result, ok, err}
use h2ai_control_plane.Identity.{SubtaskId}
use h2ai_control_plane.Subtasks.Plan.{Subtask, SubtaskResult}
use h2ai_control_plane.Subtasks.Waves.{SchedulerError, id_at}
use h2ai_control_plane.Subtasks.Waves.Ids.{deps_at}
use h2ai_control_plane.Prelude.{concat}
use h2ai_control_plane.Subtasks.Waves.Order.{Placed}
use h2ai_control_plane.Subtasks.Waves.Schedule.{Ordered}
use h2ai_control_plane.Subtasks.Execute.{TaskManifest, run_waves}
use h2ai_control_plane.Subtasks.Execute.Lookup.{UniqueIds}
use h2ai_control_plane.Subtasks.Execute.Wave.{
  OwnIds, FromExecutor, Ran, WaveDone, build-congr, wave-Outcome, Outcome,
}

module _ {ParetoWeights TopologyRequest ExplorerRequest OracleSpec : Type 0}
    (executor : SubtaskId
      → TaskManifest ParetoWeights TopologyRequest ExplorerRequest OracleSpec
      → Result SubtaskResult SchedulerError)
    (parent : TaskManifest ParetoWeights TopologyRequest ExplorerRequest OracleSpec)
    (subtasks : List Subtask) (unique : UniqueIds subtasks)
    (own : OwnIds executor parent subtasks) where
  -- The subtasks `before` were run with results that are still there.
  pub record Progress (before : List ℕ) (c : HashMap SubtaskId SubtaskResult) : Type 0 where
    pub closed : (i : ℕ) → 0 < count i before → All (Placed subtasks before) (deps_at subtasks i)
    pub ran : (i : ℕ) → 0 < count i before → Ran executor parent subtasks c c i

  more_Placed :
      (xs ys : List ℕ) (ds : List SubtaskId)
      → All (Placed subtasks xs) ds
      → All (Placed subtasks (xs ++ ys)) ds
  more_Placed xs ys ds h =
      All-map _ (Placed subtasks (xs ++ ys))
        (λ d (p, (named, at)). (p, (named, omega (arith, at, count-append p xs ys)))) ds h

  module _ (before w : List ℕ) (c c' : HashMap SubtaskId SubtaskResult)
      (d : Distinct (length subtasks) (before ++ w)) (p : Progress before c)
      (done : WaveDone executor parent subtasks c c c' w)
      (order : (i : ℕ) → 0 < count i w → All (Placed subtasks before) (deps_at subtasks i)) where
    inside : (i : ℕ) → 0 < count i (before ++ w) → i < length subtasks
    inside i at = elim (Bool-cases (ltb i (length subtasks))) [
      | inl e ↦ ltb→lt i (length subtasks) e
      | inr e ↦ absurd (ground (arith, d.bounded i, at))
    ]

    -- The results of the subtasks before stay.
    still :
        (i : ℕ)
        → 0 < count i before
        → HashMap.get c (id_at subtasks i) ≡ HashMap.get c' (id_at subtasks i)
    still i at = sym (
        done.kept (id_at subtasks i) (λ j at_j e.
          let same : j ≡ i =
            unique j i (inside j (omega (arith, count-append j before w)))
              (inside i (omega (arith, count-append i before w))) e in
          absurd (omega (arith, d.once i, count-append i before w, ap (λ k. count k w) same))))

    still-deps :
        (ds : List SubtaskId)
        → All (Placed subtasks before) ds
        → All (λ id. HashMap.get c id ≡ HashMap.get c' id) ds
    still-deps ds h =
        All-map _ _
          (λ id (q, (named, at)).
            ap (HashMap.get c) (sym named) ∙ still q at ∙ ap (HashMap.get c') named)
          ds h

    -- A subtask that ran with the results `c` ran with what are now the results.
    now_Ran :
        (x : HashMap SubtaskId SubtaskResult) (i : ℕ)
        → All (Placed subtasks before) (deps_at subtasks i)
        → HashMap.get x (id_at subtasks i) ≡ HashMap.get c' (id_at subtasks i)
        → Ran executor parent subtasks c x i
        → Ran executor parent subtasks c' c' i
    now_Ran x i placed kept (s, (f, (r, (stored, ran)))) = (
      s,
      (
        f,
        (
          r,
          (
            sym kept ∙ stored,
            ap (executor (id_at subtasks i)) (
                  sym (
                    build-congr executor parent subtasks s c c' (
                      subst (All (λ id. HashMap.get c id ≡ HashMap.get c' id)) f.deps_eq
                        (still-deps (deps_at subtasks i) placed))))
                ∙ ran,
          ),
        ),
      ),
    )

    next_Progress : Progress (before ++ w) c'
    next_Progress = record {
      closed = λ i at. elim (Bool-cases (ltb 0 (count i before))) [
        | inl e ↦
            more_Placed before w (deps_at subtasks i) (p.closed i (ltb→lt 0 (count i before) e))
        | inr e ↦
            more_Placed before w (deps_at subtasks i)
              (order i (ground (arith, count-append i before w)))
      ];
      ran = λ i at. elim (Bool-cases (ltb 0 (count i before))) [
        | inl e ↦
            let b = ltb→lt 0 (count i before) e in
            now_Ran c i (p.closed i b) (still i b) (p.ran i b)
        | inr e ↦
            let a : 0 < count i w = ground (arith, count-append i before w) in
            now_Ran c' i (order i a) refl (done.ran i a)
      ];
    }

  -- The waves `ws` behind `before` have each subtask at most once.
  pub record Fresh (before : List ℕ) (ws : List (List ℕ)) : Type 0 where
    pub once : (j : ℕ) → count j before + count j (concat ws) ≤ 1
    pub bounded : (j : ℕ) → length subtasks ≤ j → count j before + count j (concat ws) ≡ 0

  Fresh-joined :
      (before w : List ℕ) (ws : List (List ℕ))
      → Fresh before (w ∷ ws)
      → Distinct (length subtasks) (before ++ w)
  Fresh-joined before w ws f = record {
    once = λ j. omega (arith, f.once j, count-append j before w, count-append j w (concat ws));
    bounded = λ j le.
        omega (arith, f.bounded j le, count-append j before w, count-append j w (concat ws));
  }

  Fresh-wave :
      (before w : List ℕ) (ws : List (List ℕ))
      → Fresh before (w ∷ ws)
      → Distinct (length subtasks) w
  Fresh-wave before w ws f = record {
    once = λ j. omega (arith, f.once j, count-append j w (concat ws));
    bounded = λ j le. omega (arith, f.bounded j le, count-append j w (concat ws));
  }

  Fresh-rest :
      (before w : List ℕ) (ws : List (List ℕ)) → Fresh before (w ∷ ws) → Fresh (before ++ w) ws
  Fresh-rest before w ws f = record {
    once = λ j. omega (arith, f.once j, count-append j before w, count-append j w (concat ws));
    bounded = λ j le.
        omega (arith, f.bounded j le, count-append j before w, count-append j w (concat ws));
  }

  -- The results are those of the subtasks of `before` and of `ws`.
  pub record Complete (before : List ℕ) (ws : List (List ℕ)) (c : HashMap SubtaskId SubtaskResult)
      : Type 0 where
    pub all : List ℕ
    pub counted : (j : ℕ) → count j all ≡ count j before + count j (concat ws)
    pub progress : Progress all c

  unfoldable pub Loop :
      (before : List ℕ) (ws : List (List ℕ))
      → Option (Result (HashMap SubtaskId SubtaskResult) SchedulerError)
      → Type 0
  Loop before ws r =
      ((e : SchedulerError) × ((r ≡ some (err e)) × FromExecutor executor parent subtasks e))
      ⊎ ((c : HashMap SubtaskId SubtaskResult) × ((r ≡ some (ok c)) × Complete before ws c))

  pub run_waves-Loop :
      (before : List ℕ) (ws : List (List ℕ)) (c : HashMap SubtaskId SubtaskResult)
      → Ordered subtasks before ws
      → Fresh before ws
      → Progress before c
      → Loop before ws (run_waves executor parent subtasks c (map (map (id_at subtasks)) ws))
  unfolding run_waves Outcome Loop
  run_waves-Loop before [] c o f p =
      inr (c, (refl, record { all = before; counted = λ j. omega arith; progress = p }))
  run_waves-Loop before (w ∷ ws) c o f p =
      let (rs, (run, outcome)) =
        wave-Outcome executor parent subtasks unique own c c w (Fresh-wave before w ws f) in
      elim outcome [
        | inl (e, (failed, from)) ↦ inl (e, (rw (run_waves, run, failed) refl, from))
        | inr (c', (absorbed, done)) ↦
            let p' = next_Progress before w c c' (Fresh-joined before w ws f) p done o.0 in
            elim (run_waves-Loop (before ++ w) ws c' o.1 (Fresh-rest before w ws f) p') [
              | inl (e, (failed, from)) ↦ inl (e, (rw (run_waves, run, absorbed) failed, from))
              | inr (c'', (finished, k)) ↦ inr (
                c'',
                (
                  rw (run_waves, run, absorbed) finished,
                  record {
                    all = k.all;
                    counted = λ j.
                        omega (
                          arith,
                          k.counted j,
                          count-append j before w,
                          count-append j w (concat ws),
                        );
                    progress = k.progress;
                  },
                ),
              )
            ]
      ]
