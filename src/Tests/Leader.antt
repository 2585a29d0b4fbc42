-- ===== src/Tests/Leader.antt =====
-- Elections of a leader, with whole numbers for scores.
use Prim.Native.Char.{code}
use mathlib.Core.Option.{Option, none, some}
use h2ai_control_plane.Prelude.{
  ℕ, ◌≡◌, ◌⊎◌, refl, String, Bool, true, false, List, [], ◌∷◌, arith, ltb, ◌==◌,
}
use h2ai_control_plane.Sorting.{IsStrictWeak}
use h2ai_control_plane.Identity.{ExplorerId}
use h2ai_control_plane.Tests.Constraints.{whole, whole-IsFloats}
use h2ai_control_plane.Leader.Types.{
  BeliefRecord, LeaderConfig, LeaderElectionPlan, MapeKController, LeaderHost, new,
}
use h2ai_control_plane.Leader.Question.{fnv1a, generate_socratic_question}
use h2ai_control_plane.Leader.Election.{elect, prepare_leader_election, plan_of, rotates}
use h2ai_control_plane.Leader.Chosen.{IsQuestion, answers_of, generate_socratic_question-IsQuestion}
use h2ai_control_plane.Leader.Terms.{Elections, start, wave, held, elections-IsLeaderAt}
use h2ai_control_plane.Leader.Steps.{IsLeaderAt}
use h2ai_control_plane.Leader.Elected.{IsElected, prepare_leader_election-IsElected}

below-IsStrictWeak : IsStrictWeak ltb
below-IsStrictWeak = record {
  irrefl = λ a. ground arith;
  trans = λ a b c h k. ground arith;
  neg_trans = λ a b c h k. ground arith;
}

abbrev host : LeaderHost ℕ
host = record { floats = whole; half = 0; is_whitespace = λ c. code c == 32; trim = λ s. s }

abbrev cfg : LeaderConfig ℕ
cfg = record {
  leader_enabled = true;
  leader_stagnation_threshold = 1;
  leader_stagnation_waves = 2;
  leader_credibility_decay_rate = 1;
  leader_eig_candidates = 2;
}

-- The first answer was given before, the second mentions a constraint.
abbrev adapter : String → List String → List String → ℕ → Option String
adapter prior violated asked n = if_first (n == 0)
  where
    if_first : Bool → Option String
    if_first true = some "why?"
    if_first false = some "is C-1 needed?"

abbrev buffer : List (BeliefRecord ℕ)
buffer = record { question_hash = fnv1a "why?"; question_text = "why?"; outcome_scores = [] } ∷ []

abbrev scores : List (ExplorerId × ℕ)
scores = (1, 40) ∷ (2, 90) ∷ (3, 60) ∷ []

abbrev after_wave : MapeKController ℕ
after_wave = record (new ℕ 7) {
  last_wave_verification_events = scores;
  last_wave_proposal_texts = (2, "draft") ∷ [];
  last_wave_violated_constraint_ids = "C-1" ∷ [];
  quality_history = 50 ∷ [];
}

-- The published test vector of FNV-1a for "a".
fnv1a_of_a : fnv1a "a" ≡ 12638187200555641996
unfolding fnv1a
fnv1a_of_a = refl

generate_socratic_question-IsQuestion_example :
    IsQuestion host
      ("C-1" ∷ [])
      buffer
      (answers_of host adapter "draft" ("C-1" ∷ []) buffer cfg)
      (generate_socratic_question host adapter "draft" ("C-1" ∷ []) buffer cfg).0
generate_socratic_question-IsQuestion_example =
    generate_socratic_question-IsQuestion host adapter "draft" ("C-1" ∷ []) buffer cfg
      below-IsStrictWeak

prepare_leader_election-IsElected_example :
    ((scores ≡ []) × (prepare_leader_election host after_wave cfg ≡ none))
    ⊎ ((plan : LeaderElectionPlan ℕ) × ((prepare_leader_election host after_wave cfg ≡ some plan)
          × IsElected host (rotates host after_wave cfg) scores plan.leader_explorer_id))
prepare_leader_election-IsElected_example =
    prepare_leader_election-IsElected host after_wave cfg below-IsStrictWeak

plan_is_made :
    prepare_leader_election host after_wave cfg ≡ some (plan_of host after_wave cfg (2, some 3))
unfolding prepare_leader_election
plan_is_made = refl

one_election : Elections host 7 cfg 1 (elect host adapter cfg after_wave)
one_election =
    held adapter (wave scores ((2, "draft") ∷ []) ("C-1" ∷ []) (50 ∷ []) start) refl plan_is_made

elections-IsLeaderAt_example : IsLeaderAt host 1 (elect host adapter cfg after_wave).leader
elections-IsLeaderAt_example =
    elections-IsLeaderAt host 7 cfg 1 (elect host adapter cfg after_wave) whole-IsFloats
      (λ c h. (ground arith, ground (arith, h.1))) one_election
