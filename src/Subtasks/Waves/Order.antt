-- ===== src/Subtasks/Waves/Order.antt =====
-- What a full in-degree means in `topo_waves` (crates/h2ai-orchestrator/src/scheduler.rs): all
-- dependencies of the subtask are known and stand among the subtasks before it.
use h2ai_control_plane.Prelude.{
  ℕ, zero, suc, ◌*◌, ◌≤◌, ◌<◌, ◌≡◌, ap, ◌∙◌, List, [], ◌∷◌, arith, ◌==◌, ==_iff, length, get_or,
  All, Bool-cases, Option-cases, inl, inr, eq_ℕ,
}
use h2ai_control_plane.HashMap
use h2ai_control_plane.HashMap.{HashMap}
use h2ai_control_plane.Identity.{SubtaskId}
use h2ai_control_plane.Subtasks.Plan.{Subtask}
use h2ai_control_plane.Subtasks.Waves.{adjacency, id_at}
use h2ai_control_plane.Counting.{
  count, sum_below, sum_below_mono, sum_below-congr, sum_over-eq-sum_below, Distinct, All-of_count,
  at_most_once,
}
use h2ai_control_plane.Subtasks.Waves.Adjacency.{
  hit, hits, hits-total, is_known, is_known-le, known, known-le,
}
use h2ai_control_plane.Subtasks.Waves.Ids.{index, deps_at, index-Names, adjacency-edges}
use h2ai_control_plane.Subtasks.Waves.Start.{need}
use h2ai_control_plane.Subtasks.Waves.Rounds.{edges_from}

-- Equal sums of values that are pairwise in order are equal value by value.
sum_below-pointwise :
    (n : ℕ) (f g : ℕ → ℕ)
    → ((j : ℕ) → f j ≤ g j)
    → sum_below n g ≤ sum_below n f
    → (j : ℕ) → j < n
    → f j ≡ g j
sum_below-pointwise zero f g h le j lt = absurd (omega arith)
sum_below-pointwise (suc n) f g h le j lt = elim (Bool-cases (j == n)) [
  | inl e ↦ omega (
    arith,
    ap f ((==_iff j n).0 e),
    ap g ((==_iff j n).0 e),
    h n,
    sum_below_mono n f g (λ j _. h j),
  )
  | inr e ↦ sum_below-pointwise n f g h (omega (arith, h n)) j (ground arith)
]

-- One of the subtasks of a list has that id.
abbrev pub Placed : List Subtask → List ℕ → SubtaskId → Type 0
Placed subtasks before d = (p : ℕ) × ((id_at subtasks p ≡ d) × (0 < count p before))

module _ (subtasks : List Subtask) where
  all-Placed :
      (before : List ℕ) (ds : List SubtaskId)
      → known (index subtasks) ds ≡ length ds
      → ((p : ℕ) → p < length subtasks → 0 < hits (index subtasks) p ds → 0 < count p before)
      → All (Placed subtasks before) ds
  all-Placed before [] k h = tt
  all-Placed before (d ∷ ds) k h =
      let now : is_known (HashMap.get (index subtasks) d) ≡ 1 =
        omega
          (arith, k, is_known-le (HashMap.get (index subtasks) d), known-le (index subtasks) ds) in
      (
        elim (Option-cases (HashMap.get (index subtasks) d)) [
          | inl e ↦ absurd (omega (arith, now, ap is_known e))
          | inr (q, e) ↦
              let named = index-Names subtasks d q e in
              let struck : hit (HashMap.get (index subtasks) d) q ≡ 1 = rw e (ground arith) in
              (q, (named.1, h q named.0 (omega (arith, struck))))
        ],
        all-Placed before ds (omega (arith, k, now)) (λ p lt at. h p lt (omega arith)),
      )

  pub edges_from-sum :
      (before : List ℕ) (i : ℕ)
      → Distinct (length subtasks) before
      → edges_from (length subtasks) (need subtasks) (adjacency subtasks) before i
        ≡ sum_below
            (length subtasks)
            (λ p. count p before * hits (index subtasks) p (deps_at subtasks i))
  edges_from-sum before i d =
      let n = length subtasks in
      let edges : ℕ → ℕ = λ p. count i (get_or (adjacency subtasks) p []) in
      sum_over-eq-sum_below n before edges (All-of_count n before d.bounded)
      ∙ sum_below-congr n _ _ (λ p _. ap (λ k. count p before * k) (adjacency-edges subtasks p i))

  pub total :
      (i : ℕ)
      → sum_below (length subtasks) (λ p. hits (index subtasks) p (deps_at subtasks i))
        ≡ known (index subtasks) (deps_at subtasks i)
  total i =
      hits-total (index subtasks) (length subtasks) (λ d q e. (index-Names subtasks d q e).0)
        (deps_at subtasks i)

  pub saturated-Placed :
      (before : List ℕ) (i : ℕ)
      → Distinct (length subtasks) before
      → edges_from (length subtasks) (need subtasks) (adjacency subtasks) before i ≡ need subtasks i
      → All (Placed subtasks before) (deps_at subtasks i)
  saturated-Placed before i d e =
      let n = length subtasks in
      let deps = deps_at subtasks i in
      let some_of : ℕ → ℕ = λ p. count p before * hits (index subtasks) p deps in
      let all_of : ℕ → ℕ = λ p. hits (index subtasks) p deps in
      let le : (p : ℕ) → some_of p ≤ all_of p =
        λ p. at_most_once (count p before) (all_of p) (d.once p) in
      let sum_le = sum_below_mono n some_of all_of (λ p _. le p) in
      let full : known (index subtasks) deps ≡ length deps =
        omega (arith, edges_from-sum before i d, total i, known-le (index subtasks) deps) in
      all-Placed before deps full (λ p lt at. counted (count p before) (all_of p) at (
        sum_below-pointwise n some_of all_of le
          (omega (arith, edges_from-sum before i d, total i, full)) p lt))
    where
      counted : (c k : ℕ) → 0 < k → c * k ≡ k → 0 < c
      counted zero k pos e = absurd (omega arith)
      counted (suc c) k pos e = omega arith
