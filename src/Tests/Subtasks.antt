-- ===== src/Tests/Subtasks.antt =====
-- The scheduler of subtasks on a plan of four, on a cycle and on an unknown dependency.
use h2ai_control_plane.Prelude.{
  ℕ, zero, suc, ◌<◌, ◌≡◌, ◌≢◌, ◌⊎◌, refl, sym, ap, true, String, none, some, List, [], ◌∷◌, map,
  arith,
}
use mathlib.Core.Option
use h2ai_control_plane.Result.{Result, ok, err}
use h2ai_control_plane.Identity.{SubtaskId}
use h2ai_control_plane.Subtasks.Plan.{Subtask, SubtaskPlan, SubtaskResult, executing}
use h2ai_control_plane.Subtasks.Waves.{SchedulerError, cyclic_dependency, topo_waves, id_at}
use h2ai_control_plane.Subtasks.Waves.Schedule.{
  IsSchedule, Ranked, topo_waves-total, topo_waves-IsSchedule, topo_waves_complete,
}
use h2ai_control_plane.Subtasks.Waves.Refusal.{topo_waves-unknown_dependency}
use h2ai_control_plane.Subtasks.Execute.{TaskManifest, execute}
use h2ai_control_plane.Subtasks.Execute.Lookup.{UniqueIds}
use h2ai_control_plane.Subtasks.Execute.Wave.{OwnIds}
use h2ai_control_plane.Subtasks.Execute.Whole.{Answer, execute-inputs}

abbrev subtask : SubtaskId → List SubtaskId → Subtask
subtask id depends_on = record {
  id = id;
  description = "a step";
  depends_on = depends_on;
  role_hint = none;
}

abbrev diamond : List Subtask
diamond =
    subtask 40 (20 ∷ 30 ∷ []) ∷ subtask 10 [] ∷ subtask 20 (10 ∷ []) ∷ subtask 30 (10 ∷ []) ∷ []

diamond_waves : topo_waves diamond ≡ some (ok ((10 ∷ []) ∷ (20 ∷ 30 ∷ []) ∷ (40 ∷ []) ∷ []))
unfolding topo_waves
diamond_waves = refl

cycle_refused :
    topo_waves (subtask 1 (2 ∷ []) ∷ subtask 2 (1 ∷ []) ∷ []) ≡ some (err cyclic_dependency)
unfolding topo_waves
cycle_refused = refl

topo_waves-total_example :
    (waves : List (List SubtaskId)) × ((topo_waves diamond ≡ some (ok waves))
      ⊎ (topo_waves diamond ≡ some (err cyclic_dependency)))
topo_waves-total_example = topo_waves-total diamond

topo_waves-IsSchedule_example :
    (indices : List (List ℕ)) × ((((10 ∷ []) ∷ (20 ∷ 30 ∷ []) ∷ (40 ∷ []) ∷ [])
        ≡ map (map (id_at diamond)) indices)
      × IsSchedule diamond indices)
topo_waves-IsSchedule_example =
    topo_waves-IsSchedule diamond ((10 ∷ []) ∷ (20 ∷ 30 ∷ []) ∷ (40 ∷ []) ∷ []) diamond_waves

abbrev by_number : SubtaskId → ℕ
by_number id = id

diamond-Ranked : Ranked diamond by_number
diamond-Ranked zero lt =
    ((2, (omega arith, (refl, omega arith))), ((3, (omega arith, (refl, omega arith))), tt))
diamond-Ranked (suc zero) lt = tt
diamond-Ranked (suc (suc zero)) lt = ((1, (omega arith, (refl, omega arith))), tt)
diamond-Ranked (suc (suc (suc zero))) lt = ((1, (omega arith, (refl, omega arith))), tt)
diamond-Ranked (suc (suc (suc (suc i)))) lt = absurd (omega arith)

topo_waves_complete_example :
    (waves : List (List SubtaskId)) × (topo_waves diamond ≡ some (ok waves))
topo_waves_complete_example = topo_waves_complete diamond by_number diamond-Ranked

abbrev dangling : List Subtask
dangling = subtask 1 [] ∷ subtask 2 (1 ∷ 9 ∷ []) ∷ []

no_subtask_9 : (p : ℕ) → p < 2 → id_at dangling p ≢ 9
no_subtask_9 zero lt = λ e. ground (arith, e)
no_subtask_9 (suc zero) lt = λ e. ground (arith, e)
no_subtask_9 (suc (suc p)) lt = absurd (omega arith)

topo_waves-unknown_dependency_example : topo_waves dangling ≡ some (err cyclic_dependency)
topo_waves-unknown_dependency_example =
    topo_waves-unknown_dependency dangling 1 1 9 (omega arith) refl no_subtask_9

-- The second subtask is run first, and the first one reads its output.
abbrev pair : SubtaskPlan
pair = record {
  plan_id = 7;
  parent_task_id = 8;
  subtasks = subtask 1 (2 ∷ []) ∷ subtask 2 [] ∷ [];
  status = executing 0 2;
  created_at = 0;
}

abbrev Manifest : Type 0
Manifest = TaskManifest ℕ ℕ ℕ ℕ

abbrev the_parent : Manifest
the_parent = record {
  description = "the task";
  pareto_weights = 1;
  topology = 2;
  explorers = 3;
  constraints = [];
  context = some "read this";
  oracle = some 4;
  require_approval = true;
  constraint_tags = [];
  measure_verifier_ab = true;
  tenant_id = "default";
}

abbrev answer : SubtaskId → Manifest → SubtaskResult
answer id m = record {
  subtask_id = id;
  output = Option.get_or m.context "nothing";
  token_cost = 1;
  timestamp = 0;
}

abbrev echo : SubtaskId → Manifest → Result SubtaskResult SchedulerError
echo id m = ok (answer id m)

abbrev a_result : SubtaskId → String → SubtaskResult
a_result id output = record { subtask_id = id; output = output; token_cost = 1; timestamp = 0 }

pair_executed :
    execute echo pair the_parent
    ≡ some (
        ok (
          a_result 2 "read this"
          ∷ a_result 1 "read this\n\n---\n\n## Subtask Result\n\nread this"
          ∷ []))
unfolding execute
pair_executed = refl

pair_ids : UniqueIds pair.subtasks
pair_ids zero zero p_lt q_lt e = refl
pair_ids zero (suc zero) p_lt q_lt e = absurd (ground (arith, e))
pair_ids (suc zero) zero p_lt q_lt e = absurd (ground (arith, e))
pair_ids (suc zero) (suc zero) p_lt q_lt e = refl
pair_ids (suc (suc p)) q p_lt q_lt e = absurd (omega arith)
pair_ids zero (suc (suc q)) p_lt q_lt e = absurd (omega arith)
pair_ids (suc zero) (suc (suc q)) p_lt q_lt e = absurd (omega arith)

echo_ids : OwnIds echo the_parent pair.subtasks
echo_ids id m r e = ap (λ x. elim x [ err _ ↦ 0 | ok s ↦ s.subtask_id ]) (sym e)

execute-inputs_example : Answer echo the_parent pair (execute echo pair the_parent)
execute-inputs_example = execute-inputs echo the_parent pair pair_ids echo_ids
