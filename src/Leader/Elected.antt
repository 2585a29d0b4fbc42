-- ===== src/Leader/Elected.antt =====
-- Which explorer `prepare_leader_election` (crates/h2ai-orchestrator/src/mape_k.rs) elects.
use mathlib.Core.List.{Memᴰ, Perm}
use mathlib.Core.Path.{subst}
use mathlib.Core.Option
use h2ai_control_plane.Prelude.{
  ◌≡◌, ◌⊎◌, refl, sym, ap, Bool, true, false, none, some, List, [], ◌∷◌, All, arith, length,
  get_elem?, inl, inr,
}
use h2ai_control_plane.Members.{List-cases}
use h2ai_control_plane.Sorting.{
  IsStrictWeak, sort, sort-Ordered, Ordered, sort-Memᴰ, Memᴰ-sort, All-Memᴰ, Memᴰ-All, sort-Perm,
  sort-length,
}
use h2ai_control_plane.Identity.{ExplorerId}
use h2ai_control_plane.Leader.Types.{LeaderElectionPlan, LeaderConfig, MapeKController, LeaderHost}
use h2ai_control_plane.Leader.Election.{
  select_best_and_runner_up, plan_of, prepare_leader_election, rotates, elected,
}

module _ {F : Type 0} (host : LeaderHost F) where
  -- Without a turn an explorer of the best score; at a turn the only one, or one whose score only that of
  -- one other event may be above.
  pub data IsElected (turn : Bool) (events : List (ExplorerId × F)) : ExplorerId → Type 0 where
    best :
        {w : ExplorerId × F}
        → turn ≡ false
        → Memᴰ w events
        → All (λ e. host.floats.lt w.1 e.1 ≡ false) events
        → IsElected turn events w.0
    only : {w : ExplorerId × F} → turn ≡ true → events ≡ w ∷ [] → IsElected turn events w.0
    second :
        {w r : ExplorerId × F} {rest : List (ExplorerId × F)}
        → turn ≡ true
        → Perm (w ∷ r ∷ rest) events
        → host.floats.lt w.1 r.1 ≡ false
        → All (λ e. host.floats.lt r.1 e.1 ≡ false) rest
        → IsElected turn events r.0

  by_score-IsStrictWeak :
      IsStrictWeak host.floats.lt
      → IsStrictWeak {A = ExplorerId × F} (λ a b. host.floats.lt b.1 a.1)
  by_score-IsStrictWeak w = record {
    irrefl = λ a. w.irrefl a.1;
    trans = λ a b c h k. w.trans c.1 b.1 a.1 k h;
    neg_trans = λ a b c h k. w.neg_trans c.1 b.1 a.1 k h;
  }

  sort_single :
      (before : ExplorerId × F → ExplorerId × F → Bool) (events : List (ExplorerId × F))
      (w : ExplorerId × F)
      → sort before events ≡ w ∷ []
      → events ≡ w ∷ []
  unfolding sort
  sort_single before [] w h = absurd (omega (arith, ap length h))
  sort_single before (x ∷ []) w h = h
  sort_single before (x ∷ y ∷ events) w h =
      absurd (omega (arith, ap length h, sort-length before (x ∷ y ∷ events)))

  sort_nil :
      (before : ExplorerId × F → ExplorerId × F → Bool) (events : List (ExplorerId × F))
      → sort before events ≡ []
      → events ≡ []
  sort_nil before [] h = refl
  sort_nil before (x ∷ events) h =
      absurd (omega (arith, ap length h, sort-length before (x ∷ events)))

  ranked-IsElected :
      (turn : Bool) (events : List (ExplorerId × F)) (w : ExplorerId × F)
      (rest : List (ExplorerId × F))
      → IsStrictWeak host.floats.lt
      → sort (λ a b. host.floats.lt b.1 a.1) events ≡ w ∷ rest
      → IsElected turn events (elected host turn w.0 (Option.map (λ s. s.0) (get_elem? rest 0)))
  ranked-IsElected false events w rest weak h =
      let before : ExplorerId × F → ExplorerId × F → Bool = λ a b. host.floats.lt b.1 a.1 in
      let ordered : Ordered before (w ∷ rest) =
        subst (Ordered before) h (sort-Ordered before (by_score-IsStrictWeak weak) events) in
      best refl (sort-Memᴰ before events w (subst (λ xs. Memᴰ w xs) (sym h) (Memᴰ.head refl))) (
        Memᴰ-All (λ e. host.floats.lt w.1 e.1 ≡ false) events
          (λ e m.
            All-Memᴰ (λ y. host.floats.lt w.1 y.1 ≡ false) (w ∷ rest) e (weak.irrefl w.1, ordered.0)
              (subst (λ xs. Memᴰ e xs) h (Memᴰ-sort before events e m))))
  ranked-IsElected true events w [] weak h =
      only refl (sort_single (λ a b. host.floats.lt b.1 a.1) events w h)
  ranked-IsElected true events w (r ∷ rest) weak h =
      let before : ExplorerId × F → ExplorerId × F → Bool = λ a b. host.floats.lt b.1 a.1 in
      let ordered : Ordered before (w ∷ r ∷ rest) =
        subst (Ordered before) h (sort-Ordered before (by_score-IsStrictWeak weak) events) in
      second refl (subst (λ xs. Perm xs events) h (sort-Perm before events)) ordered.0.0 ordered.1.0

  -- If scores are in a strict weak order, there is no plan exactly without events, and otherwise the plan's
  -- leader is as `IsElected` says.
  pub prepare_leader_election-IsElected :
      (c : MapeKController F) (cfg : LeaderConfig F)
      → IsStrictWeak host.floats.lt
      → ((c.last_wave_verification_events ≡ []) × (prepare_leader_election host c cfg ≡ none))
        ⊎ ((plan : LeaderElectionPlan F) × ((prepare_leader_election host c cfg ≡ some plan)
              × IsElected
                  (rotates host c cfg)
                  c.last_wave_verification_events
                  plan.leader_explorer_id))
  unfolding prepare_leader_election select_best_and_runner_up plan_of
  prepare_leader_election-IsElected c cfg weak =
      let events = c.last_wave_verification_events in
      let before : ExplorerId × F → ExplorerId × F → Bool = λ a b. host.floats.lt b.1 a.1 in
      elim (List-cases (sort before events)) [
        | inl empty ↦ inl (
          sort_nil before events empty,
          rw (prepare_leader_election, select_best_and_runner_up, empty) refl,
        )
        | inr (w, (rest, found)) ↦ inr (
          plan_of host c cfg (w.0, Option.map (λ s. s.0) (get_elem? rest 0)),
          (
            rw (prepare_leader_election, select_best_and_runner_up, found) refl,
            ranked-IsElected (rotates host c cfg) events w rest weak found,
          ),
        )
      ]
