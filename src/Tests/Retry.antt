-- ===== src/Tests/Retry.antt =====
-- The retry policy with natural numbers as scores.
use h2ai_control_plane.Prelude.{
  ℕ, ◌≡◌, ◌⊎◌, refl, String, Bool, none, some, List, [], ◌∷◌, arith, ltb, str_eq, All,
  if◌then◌else◌,
}
use h2ai_control_plane.Sorting.{IsStrictWeak}
use h2ai_control_plane.Task.Event.{TopologyKind, ensemble, hierarchical_tree, team_swarm_hybrid}
use h2ai_control_plane.Retry.{
  ConstraintViolation, BranchPrunedEvent, fail, verification_exhaustion, top_k_unique_reasons,
  decide,
}
use h2ai_control_plane.Retry.Frontier.{
  Wave, decision, next_topology, IsFirst, IsTried, decide-cases,
}
use h2ai_control_plane.Retry.Reasons.{IsSelection, top_k_unique_reasons-IsSelection}

abbrev above : ℕ → ℕ → Bool
above a b = ltb b a

above-IsStrictWeak : IsStrictWeak above
above-IsStrictWeak = record {
  irrefl = λ a. ground arith;
  trans = λ a b c h k. ground arith;
  neg_trans = λ a b c h k. ground arith;
}

-- Texts are alike when they are equal.
abbrev alike : String → String → ℕ
alike a b = if str_eq a b then 10 else 0

abbrev unchanged : String → String
unchanged s = s

abbrev violation : ConstraintViolation ℕ
violation = record {
  constraint_id = "C-1";
  score = 4;
  severity_label = "Hard";
  remediation_hint = none;
  constraint_description = "no secrets";
  verifier_reason = some "a key is printed";
  criteria_pass = none;
}

abbrev pruned : BranchPrunedEvent ℕ
pruned = record { reason = "failed"; violated_constraints = violation ∷ [] }

abbrev made_up : BranchPrunedEvent ℕ
made_up = record { reason = "a fabricated source"; violated_constraints = [] }

abbrev wave : List (BranchPrunedEvent ℕ) → Wave ℕ
wave events = record {
  event = record { task_id = 1; retry_count = 0 };
  pruned_events = events;
  tau_values_tried = [];
  multiplication_failure = none;
}

fabrication_lowers_tau :
    next_topology (decision above alike unchanged 7 (wave (made_up ∷ [])) (ensemble ∷ []))
    ≡ some (hierarchical_tree none)
unfolding decide
fabrication_lowers_tau = refl

decide-cases_example :
    ((t : TopologyKind) × ((next_topology
            (decision above alike unchanged 7 (wave []) (ensemble ∷ []))
          ≡ some t)
        × IsFirst (ensemble ∷ []) (ensemble ∷ hierarchical_tree none ∷ team_swarm_hybrid ∷ []) t))
    ⊎ ((decision above alike unchanged 7 (wave []) (ensemble ∷ [])
          ≡ fail record {
            task_id = 1;
            primary_cause = verification_exhaustion;
            pruned_events = [];
            topologies_tried = ensemble ∷ [];
            tau_values_tried = [];
            multiplication_condition_failure = none;
          })
        × All
            (IsTried (ensemble ∷ []))
            (ensemble ∷ hierarchical_tree none ∷ team_swarm_hybrid ∷ []))
decide-cases_example = decide-cases above alike unchanged 7 (wave []) (ensemble ∷ [])

abbrev pairs : List (ℕ × String)
pairs = (3, "late") ∷ (8, "wrong") ∷ (5, "wrong") ∷ (4, "short") ∷ []

best_reasons : top_k_unique_reasons above alike pairs 2 7 ≡ (8, "wrong") ∷ (4, "short") ∷ []
unfolding top_k_unique_reasons
best_reasons = refl

top_k_unique_reasons-IsSelection_example :
    IsSelection above alike 2 7 pairs (top_k_unique_reasons above alike pairs 2 7)
top_k_unique_reasons-IsSelection_example =
    top_k_unique_reasons-IsSelection above alike 2 7 pairs above-IsStrictWeak (omega arith)
