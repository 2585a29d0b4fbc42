-- ===== src/Provisioner.antt =====
-- crates/h2ai-types/src/agent.rs and crates/h2ai-provisioner/src/scheduling.rs: the agents that can take
-- a task, and the policies that select one of them.
pub mod Order
pub mod LeastLoaded
pub mod Spillover
pub mod RoundRobin
use Prim.Native.Char.{code}
use h2ai_control_plane.Prelude.{
  ℕ, String, ◌+◌, ◌%◌, Bool, true, false, ◌&&◌, ◌||◌, Option, none, some, List, [], ◌∷◌, ◌==◌, ltb,
  u64, length, filter, get_elem?, if◌then◌else◌,
}
use mathlib.Core.Option
use h2ai_control_plane.Sorting.{sort}
use h2ai_control_plane.Identity.{AgentId}

pub data AgentTool : Type 0 where
  shell web_search code_execution file_system : AgentTool

pub data CostTier : Type 0 where
  low mid high : CostTier

-- The derived order of `CostTier`.
abbrev pub rank : CostTier → ℕ
rank low = 0
rank mid = 1
rank high = 2

pub record AgentDescriptor : Type 0 where
  pub model : String
  pub tools : List AgentTool
  pub cost_tier : CostTier

pub record AgentCandidate : Type 0 where
  pub agent_id : AgentId
  pub descriptor : AgentDescriptor
  pub active_tasks : ℕ  -- u32

-- The order of strings, which is that of their characters' codes.
unfoldable pub str_ltb : String → String → Bool
str_ltb String.[] String.[] = false
str_ltb String.[] (String.◌∷◌ d t) = true
str_ltb (String.◌∷◌ c s) String.[] = false
str_ltb (String.◌∷◌ c s) (String.◌∷◌ d t) =
    let rest = str_ltb s t in ltb (code c) (code d) || ((code c == code d) && rest)

abbrev pub tier : AgentCandidate → ℕ
tier c = rank c.descriptor.cost_tier

abbrev pub by_id : AgentCandidate → AgentCandidate → Bool
by_id a b = str_ltb a.agent_id b.agent_id

-- `LeastLoadedPolicy`: by tier, then by active tasks, then by id.
abbrev pub less_loaded : AgentCandidate → AgentCandidate → Bool
less_loaded a b =
    ltb (tier a) (tier b)
    || ((tier a == tier b)
        && (ltb a.active_tasks b.active_tasks || ((a.active_tasks == b.active_tasks) && by_id a b)))

abbrev pub id_of : Option AgentCandidate → Option AgentId
id_of = Option.map (λ c. c.agent_id)
