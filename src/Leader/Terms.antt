-- ===== src/Leader/Terms.antt =====
-- What the elections of a task keep (crates/h2ai-orchestrator/src/mape_k.rs): the state of the leader after
-- any number of waves.
use mathlib.Core.Path.{subst}
use h2ai_control_plane.Prelude.{
  ℕ, suc, ◌≡◌, refl, sym, ap, ◌∙◌, String, true, Option, none, some, List, not, if◌then◌else◌,
  Bool-cases, inl, inr,
}
use h2ai_control_plane.HashMap.{HashMap}
use h2ai_control_plane.Floats.{IsFloats}
use h2ai_control_plane.Identity.{TaskId, ExplorerId}
use h2ai_control_plane.Leader.Types.{
  LeaderElectionPlan, LeaderConfig, MapeKController, LeaderHost, new,
}
use h2ai_control_plane.Leader.Question.{generate_socratic_question}
use h2ai_control_plane.Leader.Election.{
  plan_of, prepare_leader_election, diagnose, elect, take_leader_events,
}
use h2ai_control_plane.Leader.Credibility.{IsRate}
use h2ai_control_plane.Leader.Steps.{IsLeaderAt, prepared, apply-IsLeaderAt}

module _ {F : Type 0} (host : LeaderHost F) where
  -- The controllers that a task comes to with a number of elections: waves leave any events, texts and
  -- violations, the quality is recorded at any time, and the engine tries an election and takes the events.
  pub data Elections (task_id : TaskId) (cfg : LeaderConfig F)
      : ℕ → MapeKController F → Type 0 where
    start : Elections task_id cfg 0 (new F task_id)
    wave :
        {n : ℕ} {c : MapeKController F} (scores : List (ExplorerId × F))
        (texts : HashMap ExplorerId String) (violated : List String) (quality_history : List F)
        → Elections task_id cfg n c
        → Elections task_id cfg n (record c {
          last_wave_verification_events = scores;
          last_wave_proposal_texts = texts;
          last_wave_violated_constraint_ids = violated;
          quality_history = quality_history;
        })
    held :
        {n : ℕ} {c : MapeKController F} {plan : LeaderElectionPlan F}
        (adapter : String → List String → List String → ℕ → Option String)
        → Elections task_id cfg n c
        → cfg.leader_enabled ≡ true
        → prepare_leader_election host c cfg ≡ some plan
        → Elections task_id cfg (suc n) (elect host adapter cfg c)
    not_held :
        {n : ℕ} {c : MapeKController F}
        (adapter : String → List String → List String → ℕ → Option String)
        → Elections task_id cfg n c
        → prepare_leader_election host c cfg ≡ none
        → Elections task_id cfg n (elect host adapter cfg c)
    taken :
        {n : ℕ} {c : MapeKController F}
        → Elections task_id cfg n c
        → Elections task_id cfg n (take_leader_events host c).1

  elect-diagnose :
      (adapter : String → List String → List String → ℕ → Option String) (cfg : LeaderConfig F)
      (c : MapeKController F) (o : Option (LeaderElectionPlan F))
      → cfg.leader_enabled ≡ true
      → prepare_leader_election host c cfg ≡ o
      → elect host adapter cfg c ≡ diagnose host adapter cfg c o
  unfolding elect
  elect-diagnose adapter cfg c o on e =
      ap
        (λ b. if not b then c else diagnose host adapter cfg c (prepare_leader_election host c cfg))
        on
      ∙ ap (diagnose host adapter cfg c) e

  elect-none :
      (adapter : String → List String → List String → ℕ → Option String) (cfg : LeaderConfig F)
      (c : MapeKController F)
      → prepare_leader_election host c cfg ≡ none
      → elect host adapter cfg c ≡ c
  unfolding elect diagnose
  elect-none adapter cfg c e = elim (Bool-cases cfg.leader_enabled) [
    | inl on ↦ elect-diagnose adapter cfg c none on e
    | inr off ↦
        ap
          (λ b.
            if not b then c else diagnose host adapter cfg c (prepare_leader_election host c cfg))
          off
  ]

  diagnose-IsLeaderAt :
      (n : ℕ) (adapter : String → List String → List String → ℕ → Option String)
      (c : MapeKController F) (cfg : LeaderConfig F) (chosen : ExplorerId × Option ExplorerId)
      → IsFloats host.floats
      → IsRate host cfg.leader_credibility_decay_rate
      → IsLeaderAt host n c.leader
      → IsLeaderAt host
          (suc n)
          (diagnose host adapter cfg c (some (plan_of host c cfg chosen))).leader
  unfolding diagnose
  diagnose-IsLeaderAt n adapter c cfg chosen laws r h =
      let plan = plan_of host c cfg chosen in
      let asked =
        generate_socratic_question host adapter plan.prior_proposal plan.violated_constraint_ids
          plan.existing_belief_buffer cfg in
      apply-IsLeaderAt host n c cfg chosen asked.0 asked.1.0 asked.1.1 laws r h

  -- Over numbers with the laws of `IsFloats`, if the credibility's rate moves no number out of the unit interval on the far side, then however waves,
  -- elections and deliveries of events follow each other, the leader is as `IsLeaderAt` says.
  pub elections-IsLeaderAt :
      (task_id : TaskId) (cfg : LeaderConfig F) (n : ℕ) (c : MapeKController F)
      → IsFloats host.floats
      → IsRate host cfg.leader_credibility_decay_rate
      → Elections task_id cfg n c
      → IsLeaderAt host n c.leader
  unfolding elect
  elections-IsLeaderAt task_id cfg n c laws r start = refl
  elections-IsLeaderAt task_id cfg n c laws r
        (wave {c = c'} scores texts violated quality_history e) =
      elections-IsLeaderAt task_id cfg n c' laws r e
  elections-IsLeaderAt task_id cfg n c laws r
        (held {n = m} {c = c'} {plan = plan} adapter e on some_plan) =
      let (chosen, same) = prepared host c' cfg plan some_plan in
      subst (λ x. IsLeaderAt host (suc m) x.leader)
        (sym (elect-diagnose adapter cfg c' _ on (some_plan ∙ ap some same)))
        (diagnose-IsLeaderAt m adapter c' cfg chosen laws r
          (elections-IsLeaderAt task_id cfg m c' laws r e))
  elections-IsLeaderAt task_id cfg n c laws r (not_held {c = c'} adapter e no_plan) =
      subst (λ x. IsLeaderAt host n x.leader) (sym (elect-none adapter cfg c' no_plan))
        (elections-IsLeaderAt task_id cfg n c' laws r e)
  elections-IsLeaderAt task_id cfg n c laws r (taken {c = c'} e) =
      elections-IsLeaderAt task_id cfg n c' laws r e
