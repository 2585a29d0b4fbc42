-- ===== src/Retry/Frontier.antt =====
-- The frontier of topologies in `RetryPolicy::decide` (crates/h2ai-autonomic/src/retry.rs): which one a
-- retry takes.
use mathlib.Core.List.{Memᴰ}
use mathlib.Core.Option.{none-ne-some, some-ne-none, some-injective}
use h2ai_control_plane.Prelude.{
  ℕ, ◌≡◌, refl, sym, ap, ◌∙◌, ◌⊎◌, String, Bool, true, false, Option, none, some, List, [], ◌∷◌,
  ◌++◌, arith, All, Bool-cases, Option-cases, inl, inr,
}
use h2ai_control_plane.Task.Event.{TopologyKind, ensemble, hierarchical_tree, team_swarm_hybrid}
use h2ai_control_plane.Retry.{
  ZeroSurvivalEvent, BranchPrunedEvent, MultiplicationConditionFailure, RepairTarget,
  verification_exhaustion, RetryAction, retry, retry_with_tau_reduction, retry_with_hints,
  retry_with_targets, fail, frontier, same_variant, has_tried, first_untried, action, decide,
}

-- The topology that an action goes on with.
abbrev pub next_topology {ℓ} : {F : Type ℓ} → RetryAction F → Option TopologyKind
next_topology (retry t) = some t
next_topology (retry_with_tau_reduction t factor) = some t
next_topology (retry_with_hints t hints) = some t
next_topology (retry_with_targets t targets) = some t
next_topology (fail e) = none

action-topology {ℓ} :
    {F : Type ℓ} (has_violations reduce_tau : Bool) (tau_factor : F)
    (targets : List (RepairTarget F)) (t : TopologyKind)
    → next_topology (action has_violations reduce_tau tau_factor targets t) ≡ some t
action-topology true reduce_tau tau_factor targets t = refl
action-topology false true tau_factor targets t = refl
action-topology false false tau_factor targets t = refl

-- Topologies of one variant, whatever a tree branches into.
pub data SameVariant : TopologyKind → TopologyKind → Type 0 where
  ensembles : SameVariant ensemble ensemble
  trees : (a b : Option ℕ) → SameVariant (hierarchical_tree a) (hierarchical_tree b)
  swarms : SameVariant team_swarm_hybrid team_swarm_hybrid

-- A topology of that variant was tried.
abbrev pub IsTried : List TopologyKind → TopologyKind → Type 0
IsTried tried c = (t : TopologyKind) × (Memᴰ t tried × SameVariant t c)

same_variant-true : (t c : TopologyKind) → same_variant t c ≡ true → SameVariant t c
same_variant-true ensemble ensemble e = ensembles
same_variant-true (hierarchical_tree a) (hierarchical_tree b) e = trees a b
same_variant-true team_swarm_hybrid team_swarm_hybrid e = swarms
same_variant-true ensemble (hierarchical_tree b) e = absurd cc
same_variant-true ensemble team_swarm_hybrid e = absurd cc
same_variant-true (hierarchical_tree a) ensemble e = absurd cc
same_variant-true (hierarchical_tree a) team_swarm_hybrid e = absurd cc
same_variant-true team_swarm_hybrid ensemble e = absurd cc
same_variant-true team_swarm_hybrid (hierarchical_tree b) e = absurd cc

same_variant-SameVariant : (t c : TopologyKind) → SameVariant t c → same_variant t c ≡ true
same_variant-SameVariant _ _ ensembles = refl
same_variant-SameVariant _ _ (trees a b) = refl
same_variant-SameVariant _ _ swarms = refl

has_tried-true :
    (tried : List TopologyKind) (c : TopologyKind) → has_tried tried c ≡ true → IsTried tried c
has_tried-true [] c e = absurd cc
has_tried-true (t ∷ tried) c e = elim (Bool-cases (same_variant t c)) [
  | inl same ↦ (t, (Memᴰ.head refl, same_variant-true t c same))
  | inr other ↦
      let (u, (m, same)) = has_tried-true tried c (ground (arith, e, other)) in
      (u, (Memᴰ.tail m, same))
]

has_tried-false :
    (tried : List TopologyKind) (c : TopologyKind) → has_tried tried c ≡ false → ¬ IsTried tried c
has_tried-false [] c e (u, (m, same)) = elim m [ ]
has_tried-false (t ∷ tried) c e (u, (Memᴰ.head here, same)) =
    let same' : same_variant t c ≡ true =
      ap (λ x. same_variant x c) (sym here) ∙ same_variant-SameVariant u c same in
    ground (arith, e, same')
has_tried-false (t ∷ tried) c e (u, (Memᴰ.tail m, same)) =
    has_tried-false tried c (ground (arith, e)) (u, (m, same))

-- The first one of a list that was not tried.
pub record IsFirst (tried rest : List TopologyKind) (c : TopologyKind) : Type 0 where
  pub before : List TopologyKind
  pub after : List TopologyKind
  pub split : rest ≡ before ++ c ∷ after
  pub all_tried : All (IsTried tried) before
  pub not_tried : ¬ IsTried tried c

first_untried-some :
    (tried rest : List TopologyKind) (c : TopologyKind)
    → first_untried tried rest ≡ some c
    → IsFirst tried rest c
unfolding first_untried
first_untried-some tried [] c e = absurd (none-ne-some c e)
first_untried-some tried (x ∷ rest) c e = elim (Bool-cases (has_tried tried x)) [
  | inl tried_x ↦
      let later = first_untried-some tried rest c (rw tried_x at e) in
      record {
        before = x ∷ later.before;
        after = later.after;
        split = ap (λ l. x ∷ l) later.split;
        all_tried = (has_tried-true tried x tried_x, later.all_tried);
        not_tried = later.not_tried;
      }
  | inr fresh ↦
      let same : x ≡ c = some-injective x c (rw fresh at e) in
      record {
        before = [];
        after = rest;
        split = ap (λ y. y ∷ rest) same;
        all_tried = tt;
        not_tried = has_tried-false tried c (ap (has_tried tried) (sym same) ∙ fresh);
      }
]

first_untried-none :
    (tried rest : List TopologyKind) → first_untried tried rest ≡ none → All (IsTried tried) rest
unfolding first_untried
first_untried-none tried [] e = tt
first_untried-none tried (x ∷ rest) e = elim (Bool-cases (has_tried tried x)) [
  | inl tried_x ↦ (has_tried-true tried x tried_x, first_untried-none tried rest (rw tried_x at e))
  | inr fresh ↦ absurd (some-ne-none x (rw fresh at e))
]

-- The arguments of `decide` beside the topologies tried.
pub record Wave {ℓ} (F : Type ℓ) : Type ℓ where
  pub event : ZeroSurvivalEvent F
  pub pruned_events : List (BranchPrunedEvent F)
  pub tau_values_tried : List (List F)
  pub multiplication_failure : Option (MultiplicationConditionFailure F)

module _ {ℓ} {F : Type ℓ} (gt : F → F → Bool) (jaccard : String → String → F)
    (to_lowercase : String → String) (seven_tenths : F) where
  abbrev pub decision : Wave F → List TopologyKind → RetryAction F
  decision w tried =
      decide gt jaccard to_lowercase seven_tenths w.event tried w.pruned_events w.tau_values_tried
        w.multiplication_failure

  decision-first_untried :
      (w : Wave F) (tried : List TopologyKind)
      → next_topology (decision w tried) ≡ first_untried tried frontier
  unfolding decide
  decision-first_untried w tried = elim (Option-cases (first_untried tried frontier)) [
    | inl e ↦ rw (decide, e) refl
    | inr (t, e) ↦ rw (decide, e) (action-topology _ _ seven_tenths _ t)
  ]

  -- `decide` either goes on with the first topology of ensemble, tree and swarm of which no variant was tried, or fails
  -- with the arguments in its event, and then a variant of each of them was tried.
  pub decide-cases :
      (w : Wave F) (tried : List TopologyKind)
      → ((t : TopologyKind) × ((next_topology (decision w tried) ≡ some t)
            × IsFirst tried (ensemble ∷ hierarchical_tree none ∷ team_swarm_hybrid ∷ []) t))
        ⊎ ((decision w tried
              ≡ fail record {
                task_id = w.event.task_id;
                primary_cause = verification_exhaustion;
                pruned_events = w.pruned_events;
                topologies_tried = tried;
                tau_values_tried = w.tau_values_tried;
                multiplication_condition_failure = w.multiplication_failure;
              })
            × All (IsTried tried) (ensemble ∷ hierarchical_tree none ∷ team_swarm_hybrid ∷ []))
  unfolding decide
  decide-cases w tried = elim (Option-cases (first_untried tried frontier)) [
    | inl e ↦ inr (rw (decide, e) refl, first_untried-none tried frontier e)
    | inr (t, e) ↦
        inl (t, (decision-first_untried w tried ∙ e, first_untried-some tried frontier t e))
  ]
