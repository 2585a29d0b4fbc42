-- ===== src/Retry.antt =====
-- crates/h2ai-autonomic/src/retry.rs: what to do after a wave in which no proposal survived. `F` with
-- `gt` is `f64` with `>`; the texts' similarity and lower case are parameters. The log lines on
-- diverging reasons are left out.
pub mod Frontier
pub mod Reasons
pub mod Violations
use text.Mathlib.Text.{find?}
use h2ai_control_plane.Prelude.{
  ℕ, zero, suc, ◌+◌, ◌*◌, String, Bool, true, false, not, ◌&&◌, Option, none, some, List, [], ◌∷◌,
  ◌++◌, map, leb, str_eq, eq_string, length, any, filter, is_empty, if◌then◌else◌,
}
use h2ai_control_plane.HashMap
use h2ai_control_plane.HashMap.{HashMap}
use h2ai_control_plane.Sorting.{sort}
use h2ai_control_plane.Identity.{TaskId}
use h2ai_control_plane.Task.Event.{TopologyKind, ensemble, hierarchical_tree, team_swarm_hybrid}

pub data TerminalCause : Type 0 where
  llm_adapter_unavailable verification_exhaustion no_valid_proposals : TerminalCause
  complexity_overflow context_exhaustion oracle_rejected timeout unknown : TerminalCause

module _ {ℓ} (F : Type ℓ) where
  pub data MultiplicationConditionFailure : Type ℓ where
    insufficient_competence insufficient_decorrelation : F → F → MultiplicationConditionFailure
    common_ground_below_floor insufficient_pool_diversity : F → F → MultiplicationConditionFailure
    verifier_explorer_family_conflict : String → String → MultiplicationConditionFailure
    quorum_degraded_below_minimum : F → MultiplicationConditionFailure

  pub record ConstraintViolation : Type ℓ where
    pub constraint_id : String
    pub score : F
    pub severity_label : String
    pub remediation_hint : Option String
    pub constraint_description : String
    pub verifier_reason : Option String
    pub criteria_pass : Option String

  pub record BranchPrunedEvent : Type ℓ where
    pub reason : String
    pub violated_constraints : List ConstraintViolation

  pub record ZeroSurvivalEvent : Type ℓ where
    pub task_id : TaskId
    pub retry_count : ℕ  -- u32

  -- `contributing_causes` and `top_violated_constraints` are empty, and `last_selection_valid_count` is
  -- `None`, in the event that is made here.
  pub record TaskFailedEvent : Type ℓ where
    pub task_id : TaskId
    pub primary_cause : TerminalCause
    pub pruned_events : List BranchPrunedEvent
    pub topologies_tried : List TopologyKind
    pub tau_values_tried : List (List F)
    pub multiplication_condition_failure : Option MultiplicationConditionFailure

  pub record ConstraintEntry : Type ℓ where
    pub constraint_description : String
    pub remediation_hint : Option String
    pub criteria_pass : Option String
    pub score_reason_pairs : List (F × String)

  pub record RepairTarget : Type ℓ where
    pub constraint_id : String
    pub constraint_description : String
    pub remediation_hint : Option String
    pub criteria_pass : Option String
    pub verifier_reasons : List (F × String)

  pub data RetryAction : Type ℓ where
    retry : TopologyKind → RetryAction
    retry_with_tau_reduction : TopologyKind → F → RetryAction
    retry_with_hints : TopologyKind → List String → RetryAction
    retry_with_targets : TopologyKind → List RepairTarget → RetryAction
    fail : TaskFailedEvent → RetryAction

-- `FRONTIER`
abbrev pub frontier : List TopologyKind
frontier = ensemble ∷ hierarchical_tree none ∷ team_swarm_hybrid ∷ []

abbrev pub hallucination_signals : List String
hallucination_signals =
    "hallucination" ∷ "hallucinated" ∷ "fabricated" ∷ "fabrication" ∷ "invented" ∷ "made up"
    ∷ "does not exist" ∷ "incorrect" ∷ "inaccurate" ∷ "not factual" ∷ "fictional" ∷ "false claim"
    ∷ []

abbrev pub same_variant : TopologyKind → TopologyKind → Bool
same_variant ensemble ensemble = true
same_variant (hierarchical_tree a) (hierarchical_tree b) = true
same_variant team_swarm_hybrid team_swarm_hybrid = true
same_variant _ _ = false

abbrev pub has_tried : List TopologyKind → TopologyKind → Bool
has_tried tried candidate = any (λ t. same_variant t candidate) tried

-- The first topology of the frontier that was not tried.
unfoldable pub first_untried : List TopologyKind → List TopologyKind → Option TopologyKind
first_untried tried [] = none
first_untried tried (candidate ∷ rest) =
    let later = first_untried tried rest in
    if has_tried tried candidate then later else some candidate

abbrev pub contains : String → String → Bool
contains s t = elim (find? s t) [ none ↦ false | some i ↦ true ]

module _ {ℓ} {F : Type ℓ} (gt : F → F → Bool) (jaccard : String → String → F) where
  -- The loop of `top_k_unique_reasons`.
  unfoldable pub collect : ℕ → F → List (F × String) → List (F × String) → List (F × String)
  collect k dedup_threshold result [] = result
  collect k dedup_threshold result ((score, reason) ∷ sorted) =
      let is_dup = any (λ r. gt (jaccard r.1 reason) dedup_threshold) result in
      let result' = if is_dup then result else result ++ (score, reason) ∷ [] in
      let rest = collect k dedup_threshold result' sorted in
      if leb k (length result') then result' else rest

  unfoldable pub top_k_unique_reasons : List (F × String) → ℕ → F → List (F × String)
  unfolding collect sort
  top_k_unique_reasons pairs k dedup_threshold =
      collect k dedup_threshold [] (sort (λ a b. gt a.0 b.0) pairs)

module _ {ℓ} {F : Type ℓ} where
  abbrev pub is_hard : ConstraintViolation F → Bool
  is_hard v = str_eq v.severity_label "Hard"

  abbrev pub action : Bool → Bool → F → List (RepairTarget F) → TopologyKind → RetryAction F
  action has_violations reduce_tau tau_factor targets candidate =
      if has_violations
      then retry_with_targets candidate targets
      else if reduce_tau
      then retry_with_tau_reduction candidate tau_factor
      else retry candidate

  abbrev pub new_entry : ConstraintViolation F → ConstraintEntry F
  new_entry v = record {
    constraint_description = v.constraint_description;
    remediation_hint = v.remediation_hint;
    criteria_pass = v.criteria_pass;
    score_reason_pairs = [];
  }

  -- A reason that is not empty is kept with its score.
  abbrev pub with_reason : F → Option String → ConstraintEntry F → ConstraintEntry F
  with_reason score none e = e
  with_reason score (some r) e =
      if str_eq r ""
      then e
      else record e { score_reason_pairs = e.score_reason_pairs ++ (score, r) ∷ [] }

  abbrev entry_or_new : Option (ConstraintEntry F) → ConstraintViolation F → ConstraintEntry F
  entry_or_new none v = new_entry v
  entry_or_new (some e) v = e

  -- One turn of the loop over the violations.
  unfoldable pub aggregate_one :
      HashMap String (ConstraintEntry F)
      → ConstraintViolation F
      → HashMap String (ConstraintEntry F)
  unfolding HashMap.get HashMap.insert
  aggregate_one m v =
      HashMap.insert m v.constraint_id
        (with_reason v.score v.verifier_reason (entry_or_new (HashMap.get m v.constraint_id) v))

  unfoldable pub aggregate :
      HashMap String (ConstraintEntry F)
      → List (ConstraintViolation F)
      → HashMap String (ConstraintEntry F)
  unfolding aggregate_one
  aggregate m [] = m
  aggregate m (v ∷ vs) = aggregate (aggregate_one m v) vs

  -- The violations that the two loops run over.
  unfoldable pub hard_violations : List (BranchPrunedEvent F) → List (ConstraintViolation F)
  hard_violations [] = []
  hard_violations (e ∷ es) = filter is_hard e.violated_constraints ++ hard_violations es

module _ {ℓ} {F : Type ℓ} (gt : F → F → Bool) (jaccard : String → String → F) where
  -- With `0.7` as the threshold of similarity, and `k` one more than the number of retries.
  unfoldable pub target : F → ℕ → String × ConstraintEntry F → RepairTarget F
  unfolding top_k_unique_reasons
  target dedup_threshold retry_count (constraint_id, entry) = record {
    constraint_id = constraint_id;
    constraint_description = entry.constraint_description;
    remediation_hint = entry.remediation_hint;
    criteria_pass = entry.criteria_pass;
    verifier_reasons =
        top_k_unique_reasons gt jaccard entry.score_reason_pairs (retry_count + 1) dedup_threshold;
  }

module _ {ℓ} {F : Type ℓ} (gt : F → F → Bool) (jaccard : String → String → F)
    (to_lowercase : String → String) where
  abbrev pub is_hallucination : BranchPrunedEvent F → Bool
  is_hallucination e =
      let r = to_lowercase e.reason in any (λ sig. contains r sig) hallucination_signals

  -- `RetryPolicy::decide`, over `0.7` (the threshold and the factor of τ).
  unfoldable pub decide :
      F
      → ZeroSurvivalEvent F
      → List TopologyKind
      → List (BranchPrunedEvent F)
      → List (List F)
      → Option (MultiplicationConditionFailure F)
      → RetryAction F
  unfolding aggregate hard_violations target first_untried
  decide seven_tenths event tried_topologies pruned_events tau_values_tried multiplication_failure =
      let per_constraint = aggregate [] (hard_violations pruned_events) in
      let has_violations = not (is_empty per_constraint) in
      let targets = map (target gt jaccard seven_tenths event.retry_count) per_constraint in
      let hallucination_count =
        if has_violations then 0 else length (filter is_hallucination pruned_events) in
      let reduce_tau =
        not has_violations
        && (not (is_empty pruned_events) && leb (length pruned_events) (hallucination_count * 2)) in
      elim (first_untried tried_topologies frontier) [
        | some candidate ↦ action has_violations reduce_tau seven_tenths targets candidate
        | none ↦ fail record {
          task_id = event.task_id;
          primary_cause = verification_exhaustion;
          pruned_events = pruned_events;
          topologies_tried = tried_topologies;
          tau_values_tried = tau_values_tried;
          multiplication_condition_failure = multiplication_failure;
        }
      ]
