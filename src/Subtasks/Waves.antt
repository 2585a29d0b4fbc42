-- ===== src/Subtasks/Waves.antt =====
-- crates/h2ai-orchestrator/src/scheduler.rs: `topo_waves`, which groups the subtasks of a plan into
-- waves such that each waits only for earlier ones.
pub mod Release
pub mod Rounds
pub mod Adjacency
pub mod Ids
pub mod Start
pub mod Order
pub mod Schedule
pub mod Refusal
use h2ai_control_plane.Prelude.{
  ℕ, zero, suc, ◌+◌, String, Bool, Option, none, some, List, [], ◌∷◌, ◌++◌, map, ◌==◌, eq_ℕ, length,
  get_or, set, replicate, filter, if◌then◌else◌,
}
use h2ai_control_plane.HashMap
use h2ai_control_plane.HashMap.{HashMap}
use h2ai_control_plane.Result.{Result, ok, err}
use h2ai_control_plane.Identity.{SubtaskId}
use h2ai_control_plane.Subtasks.Plan.{Subtask}

pub data SchedulerError : Type 0 where
  cyclic_dependency : SchedulerError
  execution_failed : SubtaskId → String → SchedulerError

-- `id_to_idx`: the last of several subtasks with one id is found.
unfoldable pub id_to_idx : ℕ → List Subtask → HashMap SubtaskId ℕ → HashMap SubtaskId ℕ
id_to_idx i [] m = m
id_to_idx i (s ∷ ss) m = id_to_idx (suc i) ss (HashMap.insert m s.id i)

-- `adj[dep_idx].push(i)`, if the dependency is known.
unfoldable pub push_dep : HashMap SubtaskId ℕ → ℕ → List (List ℕ) → SubtaskId → List (List ℕ)
push_dep ids i adj dep_id = elim (HashMap.get ids dep_id) [
  | none ↦ adj
  | some dep_idx ↦ set adj dep_idx (get_or adj dep_idx [] ++ i ∷ [])
]

unfoldable pub push_deps : HashMap SubtaskId ℕ → ℕ → List (List ℕ) → List SubtaskId → List (List ℕ)
unfolding push_dep
push_deps ids i adj [] = adj
push_deps ids i adj (d ∷ ds) = push_deps ids i (push_dep ids i adj d) ds

unfoldable pub build_adj : HashMap SubtaskId ℕ → ℕ → List Subtask → List (List ℕ) → List (List ℕ)
unfolding push_deps
build_adj ids i [] adj = adj
build_adj ids i (s ∷ ss) adj = build_adj ids (suc i) ss (push_deps ids i adj s.depends_on)

-- `0..n` from `i` on.
unfoldable pub range_from : ℕ → ℕ → List ℕ
range_from i zero = []
range_from i (suc n) = i ∷ range_from (suc i) n

-- `x -= 1` on a `usize`, which wraps at 0.
abbrev pub decrement : ℕ → ℕ
decrement zero = 18446744073709551615
decrement (suc d) = d

-- `in_degree[dep] -= 1; if in_degree[dep] == 0 { ready.push(dep) }`
unfoldable pub release : List ℕ × List ℕ → ℕ → List ℕ × List ℕ
release (in_degree, ready) dep =
    let d = decrement (get_or in_degree dep 0) in
    (set in_degree dep d, if d == 0 then ready ++ dep ∷ [] else ready)

-- The loop over `adj[idx]`.
unfoldable pub release_all : List ℕ × List ℕ → List ℕ → List ℕ × List ℕ
unfolding release
release_all st [] = st
release_all st (dep ∷ deps) = release_all (release st dep) deps

-- The loop over the indices of a wave.
unfoldable pub release_wave : List (List ℕ) → List ℕ × List ℕ → List ℕ → List ℕ × List ℕ
unfolding release_all
release_wave adj st [] = st
release_wave adj st (idx ∷ wave) = release_wave adj (release_all st (get_or adj idx [])) wave

-- The `while` loop, with fuel: the number of visited subtasks and the waves, as labelled. `none` means
-- that the fuel ran out.
unfoldable pub rounds {ℓ} :
    {L : Type ℓ} (label : ℕ → L) (fuel : ℕ) (adj : List (List ℕ)) (in_degree ready : List ℕ)
    (visited : ℕ) (waves : List (List L))
    → Option (ℕ × List (List L))
unfolding release_wave
rounds label zero adj in_degree ready visited waves = none
rounds label (suc fuel) adj in_degree [] visited waves = some (visited, waves)
rounds label (suc fuel) adj in_degree (r ∷ rs) visited waves =
    let next = release_wave adj (in_degree, []) (r ∷ rs) in
    rounds label fuel adj next.0 next.1 (visited + length (r ∷ rs))
      (waves ++ map label (r ∷ rs) ∷ [])

abbrev pub in_degrees : List Subtask → List ℕ
in_degrees subtasks = map (λ s. length s.depends_on) subtasks

unfoldable pub adjacency : List Subtask → List (List ℕ)
unfolding build_adj id_to_idx HashMap.get HashMap.insert
adjacency subtasks = build_adj (id_to_idx 0 subtasks []) 0 subtasks (replicate (length subtasks) [])

unfoldable pub initially_ready : List Subtask → List ℕ
unfolding range_from
initially_ready subtasks =
    filter (λ i. get_or (in_degrees subtasks) i 0 == 0) (range_from 0 (length subtasks))

-- `subtasks[i].id`
abbrev pub id_at : List Subtask → ℕ → SubtaskId
id_at subtasks i = get_or (map (λ s. s.id) subtasks) i 0

abbrev pub verdict :
    ℕ → Option (ℕ × List (List SubtaskId)) → Option (Result (List (List SubtaskId)) SchedulerError)
verdict n none = none
verdict n (some (visited, waves)) = some (if visited == n then ok waves else err cyclic_dependency)

unfoldable pub topo_waves : List Subtask → Option (Result (List (List SubtaskId)) SchedulerError)
unfolding rounds adjacency initially_ready
topo_waves subtasks =
    let n = length subtasks in
    verdict n (
      rounds (id_at subtasks) (n + 2) (adjacency subtasks) (in_degrees subtasks)
        (initially_ready subtasks) 0 [])
