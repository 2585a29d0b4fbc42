-- ===== src/Subtasks/Execute.antt =====
-- crates/h2ai-orchestrator/src/scheduler.rs: `SchedulingEngine::execute` and `build_subtask_manifest`.
-- The executor of a subtask is a parameter, as are the types of the fields of a manifest
-- (crates/h2ai-types/src/manifest.rs) that are only copied or set to `None`.
pub mod Lookup
pub mod Wave
pub mod Inputs
pub mod Whole
use Prim.Native.String.{◌++◌}
use h2ai_control_plane.Prelude.{
  ℕ, String, Bool, false, Option, none, some, List, [], ◌∷◌, ◌==◌, eq_ℕ, str_eq, if◌then◌else◌,
}
use mathlib.Core.Option
use h2ai_control_plane.HashMap
use h2ai_control_plane.HashMap.{HashMap}
use h2ai_control_plane.Result.{Result, ok, err}
use h2ai_control_plane.Identity.{SubtaskId, TenantId}
use h2ai_control_plane.Subtasks.Plan.{Subtask, SubtaskPlan, SubtaskResult}
use h2ai_control_plane.Subtasks.Waves.{SchedulerError, topo_waves}

pub record TaskManifest (ParetoWeights TopologyRequest ExplorerRequest OracleSpec : Type 0)
    : Type 0 where
  pub description : String
  pub pareto_weights : ParetoWeights
  pub topology : TopologyRequest
  pub explorers : ExplorerRequest
  pub constraints : List String
  pub context : Option String
  pub oracle : Option OracleSpec
  pub require_approval : Bool
  pub constraint_tags : List String
  pub measure_verifier_ab : Bool
  pub tenant_id : TenantId

abbrev pub separator : String
separator = "\n\n---\n\n"

-- `join(separator)`
abbrev pub joined : List String → String
joined [] = ""
joined (s ∷ []) = s
joined (s ∷ t ∷ ss) = s ++ separator ++ joined (t ∷ ss)

abbrev pub with_output : Option SubtaskResult → List String → List String
with_output none rest = rest
with_output (some r) rest = ("## Subtask Result\n\n" ++ r.output) ∷ rest

-- The outputs of the dependencies that are completed.
unfoldable pub dep_outputs : HashMap SubtaskId SubtaskResult → List SubtaskId → List String
unfolding HashMap.get
dep_outputs completed [] = []
dep_outputs completed (d ∷ ds) = with_output (HashMap.get completed d) (dep_outputs completed ds)

-- The dependencies' outputs behind the parent's context, where it has one.
abbrev pub with_context : Option String → String → Option String
with_context parent dep_context =
    let base = Option.get_or parent "" in
    if str_eq dep_context ""
    then parent
    else if str_eq base ""
    then some dep_context
    else some (base ++ separator ++ dep_context)

-- `iter().find(|s| s.id == subtask_id)`
unfoldable pub find : List Subtask → SubtaskId → Option Subtask
find [] subtask_id = none
find (s ∷ ss) subtask_id =
    let rest = find ss subtask_id in if s.id == subtask_id then some s else rest

-- `let result = res?; completed.insert(..)`
unfoldable pub absorb :
    HashMap SubtaskId SubtaskResult
    → List (Result SubtaskResult SchedulerError)
    → Result (HashMap SubtaskId SubtaskResult) SchedulerError
unfolding HashMap.insert
absorb completed [] = ok completed
absorb completed (err e ∷ rs) = err e
absorb completed (ok r ∷ rs) = absorb (HashMap.insert completed r.subtask_id r) rs

module _ {ParetoWeights TopologyRequest ExplorerRequest OracleSpec : Type 0} where
  unfoldable pub build_subtask_manifest :
      Subtask
      → TaskManifest ParetoWeights TopologyRequest ExplorerRequest OracleSpec
      → HashMap SubtaskId SubtaskResult
      → TaskManifest ParetoWeights TopologyRequest ExplorerRequest OracleSpec
  unfolding dep_outputs
  build_subtask_manifest subtask parent completed = record {
    description = subtask.description;
    pareto_weights = parent.pareto_weights;
    topology = parent.topology;
    explorers = parent.explorers;
    constraints = parent.constraints;
    context = with_context parent.context (joined (dep_outputs completed subtask.depends_on));
    oracle = none;
    require_approval = false;
    constraint_tags = parent.constraint_tags;
    measure_verifier_ab = parent.measure_verifier_ab;
    tenant_id = parent.tenant_id;
  }

  module _
      (executor : SubtaskId
        → TaskManifest ParetoWeights TopologyRequest ExplorerRequest OracleSpec
        → Result SubtaskResult SchedulerError)
      (parent : TaskManifest ParetoWeights TopologyRequest ExplorerRequest OracleSpec)
      (subtasks : List Subtask) where
    -- `join_all` over a wave, each with the results of the waves before; `none` is the panic of
    -- `expect`.
    unfoldable pub run_wave :
        HashMap SubtaskId SubtaskResult
        → List SubtaskId
        → Option (List (Result SubtaskResult SchedulerError))
    unfolding find build_subtask_manifest
    run_wave completed [] = some []
    run_wave completed (subtask_id ∷ wave) =
        let rest = run_wave completed wave in
        elim (find subtasks subtask_id) [
          | none ↦ none
          | some s ↦
              Option.map
                (λ rs. executor subtask_id (build_subtask_manifest s parent completed) ∷ rs) rest
        ]

    -- The loop over the waves.
    unfoldable pub run_waves :
        HashMap SubtaskId SubtaskResult
        → List (List SubtaskId)
        → Option (Result (HashMap SubtaskId SubtaskResult) SchedulerError)
    unfolding run_wave absorb
    run_waves completed [] = some (ok completed)
    run_waves completed (wave ∷ waves) = elim (run_wave completed wave) [
      | none ↦ none
      | some rs ↦ elim (absorb completed rs) [ err e ↦ some (err e) | ok c ↦ run_waves c waves ]
    ]

-- `completed.into_values()`
abbrev pub results :
    Option (Result (HashMap SubtaskId SubtaskResult) SchedulerError)
    → Option (Result (List SubtaskResult) SchedulerError)
results none = none
results (some (err e)) = some (err e)
results (some (ok completed)) = some (ok (HashMap.values completed))

module _ {ParetoWeights TopologyRequest ExplorerRequest OracleSpec : Type 0} where
  -- `SchedulingEngine::execute`; `none` is a panic, or the fuel of `topo_waves` running out.
  unfoldable pub execute :
      (SubtaskId
        → TaskManifest ParetoWeights TopologyRequest ExplorerRequest OracleSpec
        → Result SubtaskResult SchedulerError)
      → SubtaskPlan
      → TaskManifest ParetoWeights TopologyRequest ExplorerRequest OracleSpec
      → Option (Result (List SubtaskResult) SchedulerError)
  unfolding topo_waves run_waves
  execute executor plan parent = elim (topo_waves plan.subtasks) [
    | none ↦ none
    | some (err e) ↦ some (err e)
    | some (ok waves) ↦ results (run_waves executor parent plan.subtasks [] waves)
  ]
