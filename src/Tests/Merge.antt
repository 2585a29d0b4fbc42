-- ===== src/Tests/Merge.antt =====
-- Merges of proposals, with whole numbers for distances and scores.
use h2ai_control_plane.Prelude.{
  ◌+◌, ℕ, ◌≡◌, refl, String, true, some, none, Option, List, [], ◌∷◌, arith, ltb, ◌==◌, ◌||◌,
  if◌then◌else◌, eq_string,
}
use mathlib.Core.Option
use h2ai_control_plane.HashMap
use h2ai_control_plane.HashMap.{HashMap}
use h2ai_control_plane.Sorting.{IsStrictWeak}
use h2ai_control_plane.Identity.{ExplorerId}
use h2ai_control_plane.Proposals.{ProposalEvent, BranchPrunedEvent, ProposalSet}
use h2ai_control_plane.Tests.Constraints.{whole}
use h2ai_control_plane.Merge.Krum.{
  range, multi_krum_from, quorum_satisfied, multi_krum_select_semantic, semantic_distance_matrix,
  at_positions,
}
use h2ai_control_plane.Merge.Survivors.{IsSelection, multi_krum_select_semantic-IsSelection}
use h2ai_control_plane.Merge.Types.{
  MergeOutcome, multi_outlier_resistant, from_role_costs, outlier_resistant,
}
use h2ai_control_plane.Merge.Accumulator.{ConstraintViolation, RetryAccumulator, update}
use h2ai_control_plane.Merge.Rates.{violations_of, update-get}
use h2ai_control_plane.Merge.Engine.{Host, resolve}
use h2ai_control_plane.Merge.Outcome.{IsMergeOf, resolve-IsMergeOf}

below-IsStrictWeak : IsStrictWeak ltb
below-IsStrictWeak = record {
  irrefl = λ a. ground arith;
  trans = λ a b c h k. ground arith;
  neg_trans = λ a b c h k. ground arith;
}

abbrev host : Host ℕ ℕ
host = record {
  floats = whole;
  floats32 = whole;
  vectors = record { widen = λ x. x; root = λ x. x; minus_one = 0; tiny = 0 };
  roots = record { root = λ x. x; least_distance = 1; least_norm = 0 };
  two = 2;
  max_cluster_diameter = 1;
  is_alphanumeric = λ c. true;
  to_lowercase = λ s. s;
}

abbrev proposal : ExplorerId → String → ProposalEvent
proposal explorer_id raw_output = record {
  task_id = 1;
  explorer_id = explorer_id;
  generation = 0;
  raw_output = raw_output;
  token_cost = 5;
}

abbrev proposals : ProposalSet ℕ
proposals =
    (1, (proposal 1 "near", (0, 80)))
    ∷ (2, (proposal 2 "near", (0, 30)))
    ∷ (3, (proposal 3 "far", (0, 60)))
    ∷ (4, (proposal 4 "near", (0, 0)))
    ∷ (5, (proposal 5 "near", (0, 20)))
    ∷ []

abbrev pruned : List BranchPrunedEvent
pruned = record { explorer_id = 5; reason = "long" } ∷ []

abbrev embed : String → List ℕ
embed s = 3 ∷ []

abbrev violations : List ConstraintViolation
violations =
    record { constraint_id = "C-1" }
    ∷ record { constraint_id = "C-2" }
    ∷ record { constraint_id = "C-1" }
    ∷ []

-- Positions 0, 1 and 2 are close to each other.
abbrev distances : List (List ℕ)
distances =
    (0 ∷ 1 ∷ 2 ∷ 9 ∷ 9 ∷ [])
    ∷ (1 ∷ 0 ∷ 1 ∷ 8 ∷ 9 ∷ [])
    ∷ (2 ∷ 1 ∷ 0 ∷ 7 ∷ 9 ∷ [])
    ∷ (9 ∷ 8 ∷ 7 ∷ 0 ∷ 9 ∷ [])
    ∷ (9 ∷ 9 ∷ 9 ∷ 9 ∷ 0 ∷ [])
    ∷ []

selects_the_middle : multi_krum_from whole distances 1 2 (range 5) ≡ 1 ∷ 0 ∷ []
unfolding multi_krum_from
selects_the_middle = refl

-- Five proposals, the first three of them near each other.
abbrev five : List ProposalEvent
five = proposal 1 "a" ∷ proposal 2 "b" ∷ proposal 3 "c" ∷ proposal 4 "d" ∷ proposal 5 "e" ∷ []

abbrev alike : ℕ → ℕ → ℕ
alike i j = if ltb (i + j) 4 then 1 else 0

multi_krum_select_semantic-IsSelection_example :
    (positions : List ℕ) × ((multi_krum_select_semantic whole true alike five 1 2
        ≡ at_positions five positions)
      × IsSelection whole (semantic_distance_matrix whole 5 alike) 1 2 (range 5) positions)
multi_krum_select_semantic-IsSelection_example =
    multi_krum_select_semantic-IsSelection whole below-IsStrictWeak alike five 1 2 (omega arith)
      (omega arith) (omega arith) (unfold quorum_satisfied in refl)

resolve-IsMergeOf_example :
    (out : MergeOutcome) × ((acc : Option (RetryAccumulator ℕ)) × ((resolve host 1 proposals pruned
            (multi_outlier_resistant 0 2)
            0
            (some embed)
            (some violations)
            (some [])
            none
          ≡ some (out, acc))
        × IsMergeOf host 1 proposals pruned 0 (some []) out acc))
resolve-IsMergeOf_example =
    resolve-IsMergeOf host 1 proposals pruned (multi_outlier_resistant 0 2) 0 (some embed)
      (some violations) (some []) none (omega arith, omega arith) (1, λ s. refl)

update-get_example : HashMap.get (update whole (("C-1", 4) ∷ []) violations 2 1) "C-1" ≡ (
    if (2 == 0) || (violations_of violations "C-1" == 0)
    then HashMap.get ⦃e = eq_string⦄ (("C-1", 4) ∷ []) "C-1"
    else some (
        whole.mul_add 1 (Option.get_or (HashMap.get ⦃e = eq_string⦄ (("C-1", 4) ∷ []) "C-1") 0) (
          whole.mul
            (whole.sub 1 1)
            (whole.div (whole.of_nat (violations_of violations "C-1")) (whole.of_nat 2)))))
update-get_example = update-get whole (("C-1", 4) ∷ []) violations 2 1 "C-1"

role_costs_high : from_role_costs whole 0 (1 ∷ 5 ∷ []) 2 4 1 ≡ outlier_resistant 1
unfolding from_role_costs
role_costs_high = refl
