-- ===== src/Tests/Provisioner.antt =====
-- The scheduling policies on three agents.
use mathlib.Core.List.{Memᴰ}
use h2ai_control_plane.Prelude.{ℕ, ◌≡◌, ◌⊎◌, refl, none, some, List, [], ◌∷◌, All, arith}
use h2ai_control_plane.Identity.{AgentId}
use h2ai_control_plane.Provisioner.{CostTier, str_ltb, AgentCandidate, low, high}
use h2ai_control_plane.Provisioner.LeastLoaded
use h2ai_control_plane.Provisioner.Spillover
use h2ai_control_plane.Provisioner.RoundRobin
use h2ai_control_plane.Provisioner.Spillover.Cases
use h2ai_control_plane.Provisioner.Spillover.Cases.{IsCheapest, IsFallback}

abbrev agent : AgentId → CostTier → ℕ → AgentCandidate
agent agent_id cost_tier active_tasks = record {
  agent_id = agent_id;
  descriptor = record { model = "m"; tools = []; cost_tier = cost_tier };
  active_tasks = active_tasks;
}

abbrev agents : List AgentCandidate
agents = agent "c" high 0 ∷ agent "b" low 3 ∷ agent "a" low 3 ∷ []

least_loaded_agent : LeastLoaded.select agents ≡ some "a"
unfolding LeastLoaded.select str_ltb
least_loaded_agent = refl

spills_over : Spillover.select 3 agents ≡ some "c"
unfolding Spillover.select
spills_over = refl

stays_cheap : Spillover.select 4 agents ≡ some "a"
unfolding Spillover.select str_ltb
stays_cheap = refl

select-least_example :
    ((agents ≡ []) × (LeastLoaded.select agents ≡ none))
    ⊎ ((c : AgentCandidate) × ((LeastLoaded.select agents ≡ some c.agent_id)
          × (Memᴰ c agents × All (LeastLoaded.IsNoLater c) agents)))
select-least_example = LeastLoaded.select-least agents

select-cases_example :
    ((agents ≡ []) × (Spillover.select 3 agents ≡ none))
    ⊎ ((c : AgentCandidate) × ((Spillover.select 3 agents ≡ some c.agent_id)
          × (IsCheapest 3 agents c ⊎ IsFallback 3 agents c)))
select-cases_example = Cases.select-cases 3 agents

select-fair_example : Memᴰ (some "b") (RoundRobin.selections 3 7 agents)
select-fair_example =
    RoundRobin.select-fair 7 agents (agent "b" low 3) (Memᴰ.tail (Memᴰ.head refl)) (omega arith)
