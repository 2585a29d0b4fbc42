-- ===== src/Leader/Election.antt =====
-- The election of a leader after a wave: crates/h2ai-orchestrator/src/leader.rs, `prepare_leader_election`
-- and `apply_leader_result` of mape_k.rs, and the step of engine.rs that calls them.
use h2ai_control_plane.Prelude.{
  ℕ, suc, ◌+◌, ◌-◌, ◌%◌, String, Bool, true, false, not, ◌&&◌, Option, none, some, List, [], ◌∷◌,
  ◌++◌, map, leb, ◌==◌, u32, eq_ℕ, length, filter, get_or, get_elem?, replicate, if◌then◌else◌,
}
use mathlib.Core.Option
use h2ai_control_plane.HashMap
use h2ai_control_plane.Sorting.{sort}
use h2ai_control_plane.Identity.{ExplorerId}
use h2ai_control_plane.Subtasks.Waves.{range_from}
use h2ai_control_plane.Leader.Types.{
  BeliefRecord, LeaderState, LeaderElectionPlan, LeaderConfig, LeaderElectedEvent, stagnation,
  SocraticDiagnosisEvent, MapeKController, LeaderHost,
}
use h2ai_control_plane.Leader.Question.{fnv1a, generate_socratic_question}

abbrev pub assign_follower_aspects : List String → ℕ → List String
assign_follower_aspects [] n_followers = replicate n_followers "constraint resolution"
assign_follower_aspects (id ∷ ids) n_followers =
    map (λ i. get_or (id ∷ ids) (i % suc (length ids)) "") (range_from 0 n_followers)

module _ {F : Type 0} (host : LeaderHost F) where
  -- The last entry of a history less the one before it.
  abbrev pub last_delta : List F → Option F
  last_delta [] = none
  last_delta (x ∷ []) = none
  last_delta (x ∷ y ∷ []) = some (host.floats.sub y x)
  last_delta (x ∷ y ∷ z ∷ history) = last_delta (y ∷ z ∷ history)

  unfoldable pub should_rotate : LeaderState F → F → ℕ → Bool
  should_rotate state threshold waves =
      leb waves state.stagnation_count && (elim (last_delta state.confidence_history) [
        | none ↦ false
        | some delta ↦ host.floats.lt delta threshold
      ])

  unfoldable pub update_credibility : F → Bool → F → F
  update_credibility current improved decay_rate =
      if improved
      then host.floats.min (host.floats.add current decay_rate) host.floats.one
      else host.floats.max (host.floats.sub current decay_rate) host.floats.zero

  unfoldable pub select_best_and_runner_up :
      List (ExplorerId × F) → Option (ExplorerId × Option ExplorerId)
  unfolding sort
  select_best_and_runner_up scores = elim (sort (λ a b. host.floats.lt b.1 a.1) scores) [
    | [] ↦ none
    | winner ∷ rest ↦ some (winner.0, Option.map (λ s. s.0) (get_elem? rest 0))
  ]

  -- The quality rose enough in the last wave.
  abbrev pub improved : List F → LeaderConfig F → Bool
  improved quality_history cfg = elim (last_delta quality_history) [
    | none ↦ false
    | some delta ↦ host.floats.le cfg.leader_stagnation_threshold delta
  ]

  -- `do_rotate`
  abbrev pub rotates : MapeKController F → LeaderConfig F → Bool
  rotates self cfg = elim self.leader [
    | none ↦ false
    | some ls ↦ should_rotate ls cfg.leader_stagnation_threshold cfg.leader_stagnation_waves
  ]

  abbrev pub credibility_of : Bool → MapeKController F → LeaderConfig F → F
  credibility_of true self cfg = host.floats.one
  credibility_of false self cfg = elim self.leader [
    | none ↦ host.floats.one
    | some ls ↦
        update_credibility ls.credibility_score (improved self.quality_history cfg)
          cfg.leader_credibility_decay_rate
  ]

  abbrev pub buffer_of : Bool → MapeKController F → List (BeliefRecord F)
  buffer_of true self = []
  buffer_of false self = elim self.leader [ none ↦ [] | some ls ↦ ls.belief_buffer ]

  -- `leader_id`
  abbrev pub elected : Bool → ExplorerId → Option ExplorerId → ExplorerId
  elected do_rotate winner_id runner_up_id =
      if do_rotate then Option.get_or runner_up_id winner_id else winner_id

  -- The plan, for a winner and a runner-up.
  unfoldable pub plan_of :
      MapeKController F → LeaderConfig F → ExplorerId × Option ExplorerId → LeaderElectionPlan F
  unfolding should_rotate update_credibility HashMap.get range_from
  plan_of self cfg (winner_id, runner_up_id) =
      let scores = self.last_wave_verification_events in
      let do_rotate = rotates self cfg in
      let leader_id = elected do_rotate winner_id runner_up_id in
      record {
        task_id = self.task_id;
        term = elim self.leader [ none ↦ 1 | some ls ↦ u32 (ls.term + 1) ];
        leader_explorer_id = leader_id;
        runner_up_explorer_id = runner_up_id;
        prior_proposal = Option.get_or (HashMap.get self.last_wave_proposal_texts leader_id) "";
        violated_constraint_ids = self.last_wave_violated_constraint_ids;
        q_confidence =
            Option.get_or
              (Option.map (λ s. s.1) (get_elem? (filter (λ s. s.0 == leader_id) scores) 0))
              host.floats.zero;
        should_rotate = do_rotate;
        follower_aspects =
            assign_follower_aspects self.last_wave_violated_constraint_ids (length scores - 1);
        existing_belief_buffer = buffer_of do_rotate self;
        existing_credibility = credibility_of do_rotate self cfg;
      }

  unfoldable pub prepare_leader_election :
      MapeKController F → LeaderConfig F → Option (LeaderElectionPlan F)
  unfolding select_best_and_runner_up plan_of
  prepare_leader_election self cfg =
      elim (select_best_and_runner_up self.last_wave_verification_events) [
        | none ↦ none
        | some chosen ↦ some (plan_of self cfg chosen)
      ]

  abbrev pub stagnation_of : LeaderElectionPlan F → MapeKController F → LeaderConfig F → ℕ
  stagnation_of plan self cfg = if plan.should_rotate then 0 else elim self.leader [
    | none ↦ (if improved self.quality_history cfg then 0 else 1)
    | some ls ↦ (if improved self.quality_history cfg then 0 else u32 (ls.stagnation_count + 1))
  ]

  abbrev pub history_of : MapeKController F → List F
  history_of self = elim self.leader [ none ↦ [] | some ls ↦ ls.confidence_history ]

  unfoldable pub apply_leader_result :
      MapeKController F → LeaderElectionPlan F → String → ℕ → ℕ → LeaderConfig F → MapeKController F
  unfolding fnv1a
  apply_leader_result self plan question eig_rank dedup_candidates_tried cfg = record self {
    pending_leader_elected_events =
        self.pending_leader_elected_events
        ++ record {
          task_id = plan.task_id;
          term = plan.term;
          leader_explorer_id = plan.leader_explorer_id;
          q_confidence = plan.q_confidence;
          credibility_score = plan.existing_credibility;
          rotation_reason = if plan.should_rotate then some stagnation else none;
        }
          ∷ [];
    pending_socratic_diagnosis_events =
        self.pending_socratic_diagnosis_events
        ++ record {
          task_id = plan.task_id;
          term = plan.term;
          question = question;
          violated_constraints = plan.violated_constraint_ids;
          eig_rank = eig_rank;
          dedup_candidates_tried = dedup_candidates_tried;
        }
          ∷ [];
    leader = some (record {
      term = plan.term;
      leader_explorer_id = plan.leader_explorer_id;
      prior_proposal = plan.prior_proposal;
      socratic_question = question;
      confidence_history = history_of self ++ plan.q_confidence ∷ [];
      stagnation_count = stagnation_of plan self cfg;
      belief_buffer =
          plan.existing_belief_buffer
          ++ record {
            question_hash = fnv1a question;
            question_text = question;
            outcome_scores = map (λ e. e.1) self.last_wave_verification_events;
          }
            ∷ [];
      credibility_score = plan.existing_credibility;
      follower_aspects = plan.follower_aspects;
    });
  }

  -- Where there is a plan, the adapter is asked for a question.
  unfoldable pub diagnose :
      (String → List String → List String → ℕ → Option String)
      → LeaderConfig F
      → MapeKController F
      → Option (LeaderElectionPlan F)
      → MapeKController F
  unfolding generate_socratic_question apply_leader_result
  diagnose adapter cfg self none = self
  diagnose adapter cfg self (some plan) =
      let asked =
        generate_socratic_question host adapter plan.prior_proposal plan.violated_constraint_ids
          plan.existing_belief_buffer cfg in
      apply_leader_result self plan asked.0 asked.1.0 asked.1.1 cfg

  -- The step of the engine after a wave, where there are adapters: the first of them is asked.
  unfoldable pub elect :
      (String → List String → List String → ℕ → Option String)
      → LeaderConfig F
      → MapeKController F
      → MapeKController F
  unfolding prepare_leader_election diagnose
  elect adapter cfg self =
      if not cfg.leader_enabled
      then self
      else diagnose adapter cfg self (prepare_leader_election self cfg)

  -- `take_leader_events`
  abbrev pub take_leader_events :
      MapeKController F
      → (List (LeaderElectedEvent F) × List SocraticDiagnosisEvent) × MapeKController F
  take_leader_events self = (
    (self.pending_leader_elected_events, self.pending_socratic_diagnosis_events),
    record self { pending_leader_elected_events = []; pending_socratic_diagnosis_events = [] },
  )
