-- ===== src/Leader/Steps.antt =====
-- What one election (crates/h2ai-orchestrator/src/mape_k.rs) keeps of the state of the leader.
use h2ai_control_plane.Prelude.{
  ℕ, suc, ◌+◌, ◌≤◌, ◌<◌, ◌≡◌, refl, ap, String, Bool, true, false, Option, none, some, List, [],
  ◌∷◌, ◌++◌, u32, arith, length, if◌then◌else◌,
}
use h2ai_control_plane.Floats.{IsFloats, InUnit}
use h2ai_control_plane.Identity.{ExplorerId}
use h2ai_control_plane.Leader.Types.{
  BeliefRecord, LeaderState, LeaderElectionPlan, LeaderConfig, MapeKController, LeaderHost,
}
use h2ai_control_plane.Leader.Election.{
  update_credibility, select_best_and_runner_up, plan_of, prepare_leader_election,
  apply_leader_result, credibility_of, rotates, buffer_of, improved,
}
use h2ai_control_plane.Leader.Credibility.{IsRate, update_credibility-InUnit}

length-snoc {ℓ} : {A : Type ℓ} (xs : List A) (x : A) → length (xs ++ x ∷ []) ≡ suc (length xs)
length-snoc [] x = refl
length-snoc (y ∷ ys) x = ap suc (length-snoc ys x)

module _ {F : Type 0} (host : LeaderHost F) where
  -- After `n` elections there is a leader unless `n` is 0: it has the term `n`, a credibility between 0 and
  -- 1, a confidence for each election, no more stagnant waves or questions than elections, and the last
  -- question in its buffer is the one that it asks.
  abbrev pub IsLeaderAt : ℕ → Option (LeaderState F) → Type 0
  IsLeaderAt n none = n ≡ 0
  IsLeaderAt n (some ls) =
      (0 < n)
      × ((ls.term ≡ u32 n)
          × (InUnit host.floats ls.credibility_score
              × ((length ls.confidence_history ≡ n)
                  × ((ls.stagnation_count ≤ n)
                      × ((length ls.belief_buffer ≤ n)
                          × ((asked : List (BeliefRecord F)) × ((last : BeliefRecord F)
                                × ((ls.belief_buffer ≡ asked ++ last ∷ [])
                                    × (last.question_text ≡ ls.socratic_question)))))))))

  credibility_of-InUnit :
      (n : ℕ) (turn : Bool) (c : MapeKController F) (cfg : LeaderConfig F)
      → IsFloats host.floats
      → IsRate host cfg.leader_credibility_decay_rate
      → IsLeaderAt n c.leader
      → InUnit host.floats (credibility_of host turn c cfg)
  credibility_of-InUnit n true c cfg laws r h =
      (laws.le_of_lt _ _ laws.zero-lt-one, laws.one-le-one)
  credibility_of-InUnit n false c cfg laws r h = go c.leader h
    where
      go :
          (leader : Option (LeaderState F))
          → IsLeaderAt n leader
          → InUnit host.floats (elim leader [
            | none ↦ host.floats.one
            | some ls ↦
                update_credibility host ls.credibility_score
                  (improved host c.quality_history cfg)
                  cfg.leader_credibility_decay_rate
          ])
      go none h' = (laws.le_of_lt _ _ laws.zero-lt-one, laws.one-le-one)
      go (some ls) h' = update_credibility-InUnit host ls.credibility_score _ _ laws r h'.1.1.0

  pub prepared :
      (c : MapeKController F) (cfg : LeaderConfig F) (plan : LeaderElectionPlan F)
      → prepare_leader_election host c cfg ≡ some plan
      → (chosen : ExplorerId × Option ExplorerId) × (plan ≡ plan_of host c cfg chosen)
  unfolding prepare_leader_election
  prepared c cfg plan h = go (select_best_and_runner_up host c.last_wave_verification_events) h
    where
      go :
          (o : Option (ExplorerId × Option ExplorerId))
          → (elim o [ none ↦ none | some chosen ↦ some (plan_of host c cfg chosen) ]) ≡ some plan
          → (chosen : ExplorerId × Option ExplorerId) × (plan ≡ plan_of host c cfg chosen)
      go none h' = cc
      go (some chosen) h' = (chosen, cc)

  -- What the new state has of the old one, which may be none.
  term_next :
      (n : ℕ) (leader : Option (LeaderState F))
      → IsLeaderAt n leader
      → (elim leader [ none ↦ 1 | some ls ↦ u32 (ls.term + 1) ]) ≡ u32 (suc n)
  term_next n none h = ground (arith, h)
  term_next n (some ls) h = ground (arith, h.1.0)

  history_next :
      (n : ℕ) (leader : Option (LeaderState F)) (q : F)
      → IsLeaderAt n leader
      → length ((elim leader [ none ↦ [] | some ls ↦ ls.confidence_history ]) ++ q ∷ []) ≡ suc n
  history_next n none q h = omega (arith, h)
  history_next n (some ls) q h = omega (arith, length-snoc ls.confidence_history q, h.1.1.1.0)

  stagnation_next :
      (n : ℕ) (turn up : Bool) (leader : Option (LeaderState F))
      → IsLeaderAt n leader
      → (if turn then 0 else elim leader [
        | none ↦ (if up then 0 else 1)
        | some ls ↦ (if up then 0 else u32 (ls.stagnation_count + 1))
      ])
        ≤ suc n
  stagnation_next n true up leader h = omega arith
  stagnation_next n false true none h = omega arith
  stagnation_next n false false none h = omega arith
  stagnation_next n false true (some ls) h = omega arith
  stagnation_next n false false (some ls) h = ground (arith, h.1.1.1.1.0)

  buffer_next :
      (n : ℕ) (turn : Bool) (c : MapeKController F) (b : BeliefRecord F)
      → IsLeaderAt n c.leader
      → length (buffer_of host turn c ++ b ∷ []) ≤ suc n
  buffer_next n true c b h = omega arith
  buffer_next n false c b h = go c.leader h
    where
      go :
          (leader : Option (LeaderState F))
          → IsLeaderAt n leader
          → length ((elim leader [ none ↦ [] | some ls ↦ ls.belief_buffer ]) ++ b ∷ []) ≤ suc n
      go none h' = omega arith
      go (some ls) h' = omega (arith, length-snoc ls.belief_buffer b, h'.1.1.1.1.1.0)

  pub apply-IsLeaderAt :
      (n : ℕ) (c : MapeKController F) (cfg : LeaderConfig F)
      (chosen : ExplorerId × Option ExplorerId) (question : String) (rank tried : ℕ)
      → IsFloats host.floats
      → IsRate host cfg.leader_credibility_decay_rate
      → IsLeaderAt n c.leader
      → IsLeaderAt
          (suc n)
          (apply_leader_result host c (plan_of host c cfg chosen) question rank tried cfg).leader
  unfolding apply_leader_result plan_of
  apply-IsLeaderAt n c cfg chosen question rank tried laws r h =
      let turn = rotates host c cfg in
      (
        omega arith,
        (
          term_next n c.leader h,
          (
            credibility_of-InUnit n turn c cfg laws r h,
            (
              history_next n c.leader _ h,
              (
                stagnation_next n turn (improved host c.quality_history cfg) c.leader h,
                (buffer_next n turn c _ h, (buffer_of host turn c, (_, (refl, refl)))),
              ),
            ),
          ),
        ),
      )
