-- ===== src/Provisioner/Spillover.antt =====
-- `CostAwareSpilloverPolicy` of crates/h2ai-provisioner/src/scheduling.rs.
pub mod Cases
use mathlib.Core.List.{Memᴰ}
use mathlib.Core.Option
use h2ai_control_plane.Prelude.{
  ℕ, ◌≤◌, ◌≡◌, sym, ap, false, Option, none, some, List, [], ◌∷◌, map, arith, ltb, ◌==◌, ==_iff,
  filter, All, All-map, if◌then◌else◌,
}
use h2ai_control_plane.Sorting.{
  sort, min_by, filter-Memᴰ, Memᴰ-filter, min_from-low, min_from-Memᴰ, map-All, map-Memᴰ,
  min_by-Memᴰ,
}
use h2ai_control_plane.Identity.{AgentId}
use h2ai_control_plane.Provisioner.{AgentCandidate, tier, by_id, id_of}
use h2ai_control_plane.Provisioner.Order.{ltb-IsStrictWeak}

-- `tiers.dedup()`, which drops the repetitions of a tier that stand together.
abbrev pub dedup : List ℕ → List ℕ
dedup [] = []
dedup (t ∷ []) = t ∷ []
dedup (t ∷ u ∷ ts) = let rest = dedup (u ∷ ts) in if t == u then rest else t ∷ rest

-- `iter().map(|c| c.active_tasks).min().unwrap_or(default)`
abbrev pub min_load : ℕ → List AgentCandidate → ℕ
min_load default candidates =
    Option.get_or (min_by ltb (map (λ c. c.active_tasks) candidates)) default

-- The smallest id among the agents with that load.
abbrev pub least_id : ℕ → List AgentCandidate → Option AgentId
least_id load candidates = id_of (min_by by_id (filter (λ c. c.active_tasks == load) candidates))

abbrev pub tier_agents : ℕ → List AgentCandidate → List AgentCandidate
tier_agents t candidates = filter (λ c. tier c == t) candidates

-- `for tier in &tiers`: the early return, or what follows the loop.
unfoldable pub over_tiers : ℕ → List AgentCandidate → Option AgentId → List ℕ → Option AgentId
over_tiers spillover_threshold candidates after [] = after
over_tiers spillover_threshold candidates after (t ∷ tiers) =
    let agents = tier_agents t candidates in
    let load = min_load 4294967295 agents in
    let rest = over_tiers spillover_threshold candidates after tiers in
    if ltb load spillover_threshold then least_id load agents else rest

unfoldable pub select : ℕ → List AgentCandidate → Option AgentId
unfolding over_tiers sort
select spillover_threshold [] = none
select spillover_threshold (x ∷ xs) =
    let candidates = x ∷ xs in
    over_tiers spillover_threshold candidates (least_id (min_load 0 candidates) candidates)
      (dedup (sort ltb (map tier candidates)))

-- The agents are not empty, and `c` is one of them with the smallest load.
pub record IsMinLoad (agents : List AgentCandidate) (load : ℕ) (c : AgentCandidate) : Type 0 where
  pub chosen : least_id load agents ≡ some c.agent_id
  pub member : Memᴰ c agents
  pub least : All (λ d. c.active_tasks ≤ d.active_tasks) agents
  pub load_eq : c.active_tasks ≡ load

pub least_id-IsMinLoad :
    (default : ℕ) (agents : List AgentCandidate) (d : AgentCandidate)
    → Memᴰ d agents
    → (c : AgentCandidate) × IsMinLoad agents (min_load default agents) c
least_id-IsMinLoad default [] d m = elim m [ ]
least_id-IsMinLoad default (a ∷ agents) d m =
    let group = a ∷ agents in
    let load = min_load default group in
    let loads = map (λ c. c.active_tasks) agents in
    let (b, (inside, at_load)) =
      map-Memᴰ (λ c. c.active_tasks) group load (min_from-Memᴰ ltb a.active_tasks loads) in
    let (c, (found, among)) = min_by-Memᴰ by_id (filter (λ c. c.active_tasks == load) group) b (
      Memᴰ-filter (λ c. c.active_tasks == load) group b inside
        ((==_iff b.active_tasks load).1 (sym at_load))) in
    let kept = filter-Memᴰ (λ c. c.active_tasks == load) group c among in
    let same : c.active_tasks ≡ load = (==_iff c.active_tasks load).0 kept.1 in
    (
      c,
      record {
        chosen = ap id_of found;
        member = kept.0;
        least =
            All-map _ _ (λ d low. ground (arith, same, low)) group
              (map-All (λ c. c.active_tasks) (λ v. ltb v load ≡ false) group
                (min_from-low ltb ltb-IsStrictWeak a.active_tasks loads));
        load_eq = same;
      },
    )
