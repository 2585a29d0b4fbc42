-- ===== src/Subtasks/Execute/Whole.antt =====
-- `SchedulingEngine::execute` as a whole (crates/h2ai-orchestrator/src/scheduler.rs).
use h2ai_control_plane.Prelude.{
  ℕ, ◌<◌, ◌≡◌, ◌⊎◌, refl, sym, ap, ◌∙◌, Option, some, List, [], arith, length, All, All-map, eq_ℕ,
  ltb, ltb→lt, Bool-cases, inl, inr,
}
use h2ai_control_plane.HashMap
use h2ai_control_plane.HashMap.{HashMap}
use h2ai_control_plane.Counting.{count}
use h2ai_control_plane.Result.{Result, ok, err}
use h2ai_control_plane.Identity.{SubtaskId}
use h2ai_control_plane.Subtasks.Plan.{Subtask, SubtaskPlan, SubtaskResult}
use h2ai_control_plane.Subtasks.Waves.{SchedulerError, cyclic_dependency}
use h2ai_control_plane.Subtasks.Waves.Ids.{deps_at}
use h2ai_control_plane.Subtasks.Waves.Schedule.{IsSchedule, topo_waves-total, topo_waves-IsSchedule}
use h2ai_control_plane.Subtasks.Execute.{TaskManifest, execute}
use h2ai_control_plane.Subtasks.Execute.Lookup.{UniqueIds}
use h2ai_control_plane.Subtasks.Execute.Wave.{OwnIds, FromExecutor, Ran}
use h2ai_control_plane.Subtasks.Execute.Inputs.{Progress, Fresh, Loop, run_waves-Loop}

-- Every subtask was run with the results of all its dependencies, and has its result in `c`.
pub record Executed {ParetoWeights TopologyRequest ExplorerRequest OracleSpec : Type 0}
    (executor : SubtaskId
      → TaskManifest ParetoWeights TopologyRequest ExplorerRequest OracleSpec
      → Result SubtaskResult SchedulerError)
    (parent : TaskManifest ParetoWeights TopologyRequest ExplorerRequest OracleSpec)
    (subtasks : List Subtask) (c : HashMap SubtaskId SubtaskResult) : Type 0 where
  pub ran : (i : ℕ) → i < length subtasks → Ran executor parent subtasks c c i
  pub supplied :
      (i : ℕ)
      → i < length subtasks
      → All (λ d. (r : SubtaskResult) × (HashMap.get c d ≡ some r)) (deps_at subtasks i)

module _ {ParetoWeights TopologyRequest ExplorerRequest OracleSpec : Type 0}
    (executor : SubtaskId
      → TaskManifest ParetoWeights TopologyRequest ExplorerRequest OracleSpec
      → Result SubtaskResult SchedulerError)
    (parent : TaskManifest ParetoWeights TopologyRequest ExplorerRequest OracleSpec)
    (plan : SubtaskPlan) where
  -- What `execute` may answer.
  abbrev pub Answer : Option (Result (List SubtaskResult) SchedulerError) → Type 0
  Answer x =
      (x ≡ some (err cyclic_dependency))
      ⊎ (((e : SchedulerError) × ((x ≡ some (err e))
              × FromExecutor executor parent plan.subtasks e))
          ⊎ ((c : HashMap SubtaskId SubtaskResult) × ((x ≡ some (ok (HashMap.values c)))
                × Executed executor parent plan.subtasks c)))

module _ {ParetoWeights TopologyRequest ExplorerRequest OracleSpec : Type 0}
    (executor : SubtaskId
      → TaskManifest ParetoWeights TopologyRequest ExplorerRequest OracleSpec
      → Result SubtaskResult SchedulerError)
    (parent : TaskManifest ParetoWeights TopologyRequest ExplorerRequest OracleSpec)
    (plan : SubtaskPlan) (unique : UniqueIds plan.subtasks)
    (own : OwnIds executor parent plan.subtasks) where
  IsSchedule-Fresh :
      (ws : List (List ℕ))
      → IsSchedule plan.subtasks ws
      → Fresh executor parent plan.subtasks unique own [] ws
  IsSchedule-Fresh ws s = record {
    once = λ j. elim (Bool-cases (ltb j (length plan.subtasks))) [
      | inl e ↦ omega (arith, s.complete j (ltb→lt j (length plan.subtasks) e))
      | inr e ↦ ground (arith, s.bounded j)
    ];
    bounded = λ j le. omega (arith, s.bounded j le);
  }

  Progress-Executed :
      (all : List ℕ) (c : HashMap SubtaskId SubtaskResult)
      → ((i : ℕ) → i < length plan.subtasks → 0 < count i all)
      → Progress executor parent plan.subtasks unique own all c
      → Executed executor parent plan.subtasks c
  Progress-Executed all c at p = record {
    ran = λ i lt. p.ran i (at i lt);
    supplied = λ i lt.
        All-map _ _
          (λ d (q, (named, there)).
            let (s, (f, (r, (stored, _)))) = p.ran q there in
            (r, ap (HashMap.get c) (sym named) ∙ stored))
          (deps_at plan.subtasks i) (p.closed i (at i lt));
  }

  -- If the ids of the subtasks of a plan are different and the executor answers with the id that it was
  -- given, `execute` returns, without a panic: the error for a cycle, an error of the executor, or the
  -- values of a map that has, for every subtask, the executor's answer to the manifest built from the
  -- results of the subtask's dependencies, all of which are in the map.
  pub execute-inputs : Answer executor parent plan (execute executor plan parent)
  unfolding execute Loop
  execute-inputs = elim (topo_waves-total plan.subtasks).1 [
    | inl h ↦
        let (ws, (labelled, s)) =
          topo_waves-IsSchedule plan.subtasks (topo_waves-total plan.subtasks).0 h in
        elim (run_waves-Loop executor parent plan.subtasks unique own [] ws [] s.ordered
          (IsSchedule-Fresh ws s)
          (record { closed = λ i at. absurd (omega arith); ran = λ i at. absurd (omega arith) })) [
            | inl (e, (failed, from)) ↦
                inr (inl (e, (rw (execute, h, labelled, failed) refl, from)))
            | inr (c, (finished, k)) ↦ inr (
                inr (
                  c,
                  (
                    rw (execute, h, labelled, finished) refl,
                    Progress-Executed k.all c (λ i lt. omega (arith, k.counted i, s.complete i lt))
                        k.progress,
                  ),
                ))
          ]
    | inr h ↦ inl (rw (execute, h) refl)
  ]
