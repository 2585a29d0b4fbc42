-- ===== src/Subtasks/Waves/Start.antt =====
-- Where the outer loop of `topo_waves` starts (crates/h2ai-orchestrator/src/scheduler.rs): the tables
-- are a graph for it, and what is first ready has no dependencies.
use h2ai_control_plane.Prelude.{
  ℕ, zero, suc, ◌+◌, ◌≤◌, ◌≡◌, refl, ap, ◌∙◌, Bool, ◌&&◌, List, [], ◌∷◌, arith, ◌==◌, ==_iff, ltb,
  leb, Bool-cases, inl, inr, length, length-map, get_or, filter, if◌then◌else◌,
}
use h2ai_control_plane.Subtasks.Plan.{Subtask}
use h2ai_control_plane.Subtasks.Waves.{adjacency, in_degrees, initially_ready, range_from}
use h2ai_control_plane.Counting.{count, sum_below-congr, All-of_count}
use h2ai_control_plane.Subtasks.Waves.Adjacency.{hits, hits-total, known-le}
use h2ai_control_plane.Subtasks.Waves.Ids.{index, deps_at, index-Names, adjacency-edges}
use h2ai_control_plane.Subtasks.Waves.Rounds.{Graph, Between}

abbrev pub need : List Subtask → ℕ → ℕ
need subtasks i = length (deps_at subtasks i)

in_degrees-need :
    (subtasks : List Subtask) (i : ℕ) → get_or (in_degrees subtasks) i 0 ≡ need subtasks i
in_degrees-need [] i = refl
in_degrees-need (s ∷ ss) zero = refl
in_degrees-need (s ∷ ss) (suc i) = in_degrees-need ss i

deps_at-beyond : (subtasks : List Subtask) (i : ℕ) → length subtasks ≤ i → deps_at subtasks i ≡ []
deps_at-beyond [] i h = refl
deps_at-beyond (s ∷ ss) zero h = absurd (omega arith)
deps_at-beyond (s ∷ ss) (suc i) h = deps_at-beyond ss i (omega arith)

count-filter :
    (p : ℕ → Bool) (s m i : ℕ)
    → count i (filter p (range_from s m)) ≡ (if leb s i && (ltb i (s + m) && p i) then 1 else 0)
unfolding range_from
count-filter p s zero i = ground arith
count-filter p s (suc m) i = elim (Bool-cases (s == i)) [
  | inl e ↦ rw (← (==_iff s i).0 e) (ground (arith, count-filter p (suc s) m s))
  | inr e ↦ ground (arith, count-filter p (suc s) m i)
]

module _ (subtasks : List Subtask) where
  pub adjacency-Graph : Graph (length subtasks) (need subtasks) (adjacency subtasks)
  adjacency-Graph = record {
    low = λ p. All-of_count (length subtasks) (get_or (adjacency subtasks) p []) (λ j le.
        adjacency-edges subtasks p j ∙ ap (hits (index subtasks) p) (deps_at-beyond subtasks j le));
    total = λ i lt. omega (
      arith,
      sum_below-congr (length subtasks) (λ p. count i (get_or (adjacency subtasks) p []))
          (λ p. hits (index subtasks) p (deps_at subtasks i)) (λ p _. adjacency-edges subtasks p i),
      hits-total (index subtasks) (length subtasks) (λ d q e. (index-Names subtasks d q e).0)
          (deps_at subtasks i),
      known-le (index subtasks) (deps_at subtasks i),
    );
  }

  pub initial-Between :
      Between
        (length subtasks)
        (need subtasks)
        (adjacency subtasks)
        []
        (in_degrees subtasks)
        (initially_ready subtasks)
  unfolding initially_ready
  initial-Between = record {
    size = length-map _ subtasks;
    left = λ i lt. omega (arith, in_degrees-need subtasks i);
    marked = λ i.
        ground
          (arith, count-filter (λ i. get_or (in_degrees subtasks) i 0 == 0) 0 (length subtasks) i);
  }
