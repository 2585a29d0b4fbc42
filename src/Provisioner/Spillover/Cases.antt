-- ===== src/Provisioner/Spillover/Cases.antt =====
-- What `CostAwareSpilloverPolicy` selects (crates/h2ai-provisioner/src/scheduling.rs).
use mathlib.Core.Path.{subst}
use mathlib.Core.List.{Memᴰ}
use h2ai_control_plane.Prelude.{
  ℕ, ◌≤◌, ◌<◌, ◌≡◌, refl, sym, ◌∙◌, ◌⊎◌, false, Option, none, some, List, [], ◌∷◌, map, arith, ltb,
  ◌==◌, ==_iff, ltb→lt, All, Bool-cases, inl, inr,
}
use h2ai_control_plane.Sorting.{
  sort, sort-Ordered, sort-Memᴰ, Ordered, All-Memᴰ, Memᴰ-All, filter-Memᴰ, Memᴰ-filter, map-Memᴰ,
  Memᴰ-map, Memᴰ-sort,
}
use h2ai_control_plane.Identity.{AgentId}
use h2ai_control_plane.Provisioner.{AgentCandidate, tier}
use h2ai_control_plane.Provisioner.Order.{ltb-IsStrictWeak}
use h2ai_control_plane.Provisioner.Spillover.{
  dedup, min_load, least_id, tier_agents, over_tiers, select, IsMinLoad, least_id-IsMinLoad,
}

dedup-All {κ} : (P : ℕ → Type κ) (ts : List ℕ) → All P ts → All P (dedup ts)
dedup-All P [] h = tt
dedup-All P (t ∷ []) h = h
dedup-All P (t ∷ u ∷ ts) h = elim (Bool-cases (t == u)) [
  | inl e ↦ rw (dedup, e) (dedup-All P (u ∷ ts) h.1)
  | inr e ↦ rw (dedup, e) (h.0, dedup-All P (u ∷ ts) h.1)
]

dedup-All_back {κ} : (P : ℕ → Type κ) (ts : List ℕ) → All P (dedup ts) → All P ts
dedup-All_back P [] h = tt
dedup-All_back P (t ∷ []) h = h
dedup-All_back P (t ∷ u ∷ ts) h = elim (Bool-cases (t == u)) [
  | inl e ↦
      let rest = dedup-All_back P (u ∷ ts) (rw (dedup, e) at h) in
      (subst P (sym ((==_iff t u).0 e)) rest.0, rest)
  | inr e ↦
      let h' : All P (t ∷ dedup (u ∷ ts)) = rw (dedup, e) at h in
      (h'.0, dedup-All_back P (u ∷ ts) h'.1)
]

dedup-Ordered : (ts : List ℕ) → Ordered ltb ts → Ordered ltb (dedup ts)
dedup-Ordered [] h = tt
dedup-Ordered (t ∷ []) h = h
dedup-Ordered (t ∷ u ∷ ts) h = elim (Bool-cases (t == u)) [
  | inl e ↦ rw (dedup, e) (dedup-Ordered (u ∷ ts) h.1)
  | inr e ↦ rw (dedup, e) (dedup-All _ (u ∷ ts) h.0, dedup-Ordered (u ∷ ts) h.1)
]

module _ (spillover_threshold : ℕ) (candidates : List AgentCandidate) where
  -- An agent below the threshold, of the cheapest tier that has one, and least loaded in its tier.
  pub record IsCheapest (c : AgentCandidate) : Type 0 where
    pub member : Memᴰ c candidates
    pub below : c.active_tasks < spillover_threshold
    pub cheapest :
        (d : AgentCandidate)
        → Memᴰ d candidates
        → d.active_tasks < spillover_threshold
        → tier c ≤ tier d
    pub least :
        (d : AgentCandidate) → Memᴰ d candidates → tier d ≡ tier c → c.active_tasks ≤ d.active_tasks

  -- A least loaded agent, when none is below the threshold.
  pub record IsFallback (c : AgentCandidate) : Type 0 where
    pub member : Memᴰ c candidates
    pub saturated : (d : AgentCandidate) → Memᴰ d candidates → spillover_threshold ≤ d.active_tasks
    pub least : (d : AgentCandidate) → Memᴰ d candidates → c.active_tasks ≤ d.active_tasks

  Saturated : List ℕ → Type 0
  Saturated tiers =
      (d : AgentCandidate)
      → Memᴰ d candidates
      → Memᴰ (tier d) tiers ⊎ (spillover_threshold ≤ d.active_tasks)

  not-before : (t d : ℕ) (tiers : List ℕ) → Ordered ltb (t ∷ tiers) → Memᴰ d (t ∷ tiers) → t ≤ d
  not-before t d tiers h (Memᴰ.head e) = omega (arith, e)
  not-before t d tiers h (Memᴰ.tail m) =
      ground (arith, All-Memᴰ (λ y. ltb y t ≡ false) tiers d h.0 m)

  -- The least loaded agent of tier `t`.
  module _ (t : ℕ) (load : ℕ) (c : AgentCandidate)
      (l : IsMinLoad (tier_agents t candidates) load c) where
    own_tier : tier c ≡ t
    own_tier = (==_iff (tier c) t).0 (filter-Memᴰ (λ d. tier d == t) candidates c l.member).1

    least-of_tier :
        (d : AgentCandidate) → Memᴰ d candidates → tier d ≡ t → c.active_tasks ≤ d.active_tasks
    least-of_tier d m e =
        All-Memᴰ (λ d. c.active_tasks ≤ d.active_tasks) (tier_agents t candidates) d l.least
          (Memᴰ-filter (λ d. tier d == t) candidates d m ((==_iff (tier d) t).1 e))

    first-IsCheapest :
        (tiers : List ℕ)
        → Ordered ltb (t ∷ tiers)
        → Saturated (t ∷ tiers)
        → load < spillover_threshold
        → IsCheapest c
    unfolding Saturated
    first-IsCheapest tiers o s lt = record {
      member = (filter-Memᴰ (λ d. tier d == t) candidates c l.member).0;
      below = omega (arith, l.load_eq);
      cheapest = λ d m low. elim (s d m) [
        | inl at ↦ omega (arith, own_tier, not-before t (tier d) tiers o at)
        | inr full ↦ absurd (omega arith)
      ];
      least = λ d m e. least-of_tier d m (e ∙ own_tier);
    }

    rest-Saturated :
        (tiers : List ℕ) → Saturated (t ∷ tiers) → spillover_threshold ≤ load → Saturated tiers
    unfolding Saturated
    rest-Saturated tiers s le d m = elim (s d m) [
      | inl (Memᴰ.head e) ↦ inr (omega (arith, l.load_eq, least-of_tier d m e))
      | inl (Memᴰ.tail at) ↦ inl at
      | inr full ↦ inr full
    ]

  over_tiers-cases :
      (after : Option AgentId) (tiers : List ℕ)
      → Ordered ltb tiers
      → All (λ t. (d : AgentCandidate) × (Memᴰ d candidates × (tier d ≡ t))) tiers
      → Saturated tiers
      → ((over_tiers spillover_threshold candidates after tiers ≡ after) × Saturated [])
        ⊎ ((c : AgentCandidate) × ((over_tiers spillover_threshold candidates after tiers
                ≡ some c.agent_id)
              × IsCheapest c))
  unfolding over_tiers
  over_tiers-cases after [] o own s = inl (refl, s)
  over_tiers-cases after (t ∷ tiers) o own s =
      let agents = tier_agents t candidates in
      let load = min_load 4294967295 agents in
      let d0 = own.0.0 in
      let inside : (d : AgentCandidate) → Memᴰ d candidates → tier d ≡ t → Memᴰ d agents =
        λ d m e. Memᴰ-filter (λ c. tier c == t) candidates d m ((==_iff (tier d) t).1 e) in
      let (c, least) = least_id-IsMinLoad 4294967295 agents d0 (inside d0 own.0.1.0 own.0.1.1) in
      elim (Bool-cases (ltb load spillover_threshold)) [
        | inl e ↦ inr (
          c,
          (
            rw (over_tiers, e) least.chosen,
            first-IsCheapest t load c least tiers o s (ltb→lt load spillover_threshold e),
          ),
        )
        | inr e ↦ rw e (
            over_tiers-cases after tiers o.1 own.1
              (rest-Saturated t load c least tiers s (ground (arith, e))))
      ]

-- `select` finds no agent only among no candidates. Otherwise it finds an agent below the threshold, of
-- the cheapest tier that has such an agent and with the fewest active tasks in that tier, or, where no
-- candidate is below the threshold, one with the fewest active tasks of all.
pub select-cases :
    (spillover_threshold : ℕ) (candidates : List AgentCandidate)
    → ((candidates ≡ []) × (select spillover_threshold candidates ≡ none))
      ⊎ ((c : AgentCandidate) × ((select spillover_threshold candidates ≡ some c.agent_id)
            × (IsCheapest spillover_threshold candidates c
                ⊎ IsFallback spillover_threshold candidates c)))
unfolding select Saturated
select-cases spillover_threshold [] = inl (refl, refl)
select-cases spillover_threshold (x ∷ xs) =
    let candidates = x ∷ xs in
    let tiers = sort ltb (map tier candidates) in
    let (c, least) = least_id-IsMinLoad 0 candidates x (Memᴰ.head refl) in
    let present = dedup-All _ tiers (
      Memᴰ-All (λ t. (d : AgentCandidate) × (Memᴰ d candidates × (tier d ≡ t))) tiers
        (λ t m.
          let (d, (inside, e)) =
            map-Memᴰ tier candidates t (sort-Memᴰ ltb (map tier candidates) t m) in
          (d, (inside, sym e)))) in
    let known : Saturated spillover_threshold candidates (dedup tiers) = λ d m. inl (
      All-Memᴰ (λ t. Memᴰ t (dedup tiers)) tiers (tier d)
        (dedup-All_back (λ t. Memᴰ t (dedup tiers)) tiers
          (Memᴰ-All (λ t. Memᴰ t (dedup tiers)) (dedup tiers) (λ t m. m)))
        (Memᴰ-sort ltb (map tier candidates) (tier d) (Memᴰ-map tier candidates d m))) in
    elim (over_tiers-cases spillover_threshold candidates
      (least_id (min_load 0 candidates) candidates) (dedup tiers)
      (dedup-Ordered tiers (sort-Ordered ltb ltb-IsStrictWeak (map tier candidates))) present
      known) [
        | inl (e, full) ↦ inr (
          c,
          (
            e ∙ least.chosen,
            inr record {
              member = least.member;
              saturated = λ d m. elim (full d m) [ inl at ↦ elim at [ ] | inr le ↦ le ];
              least =
                  λ d m. All-Memᴰ (λ d. c.active_tasks ≤ d.active_tasks) candidates d least.least m;
            },
          ),
        )
        | inr (c', (e, cheap)) ↦ inr (c', (e, inl cheap))
      ]
