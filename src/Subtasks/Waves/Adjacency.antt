-- ===== src/Subtasks/Waves/Adjacency.antt =====
-- The tables that `topo_waves` starts from (crates/h2ai-orchestrator/src/scheduler.rs): which edges
-- `adj` holds, and how they compare with the in-degrees.
use h2ai_control_plane.Prelude.{
  ℕ, zero, suc, ◌+◌, ◌≤◌, ◌<◌, ◌≡◌, refl, ◌∙◌, Option, none, some, List, [], ◌∷◌, ◌++◌, arith, ◌==◌,
  ==_iff, length, get_or, length-set, get_or-set_self, get_or-set_ne, if◌then◌else◌, Bool-cases,
  Option-cases, inl, inr, eq_ℕ,
}
use h2ai_control_plane.HashMap
use h2ai_control_plane.HashMap.{HashMap}
use h2ai_control_plane.Identity.{SubtaskId}
use h2ai_control_plane.Subtasks.Plan.{Subtask}
use h2ai_control_plane.Subtasks.Waves.{push_dep, push_deps, build_adj}
use h2ai_control_plane.Counting.{count, count-append, sum_below}

-- How many of a list of dependencies are the subtask with index `p`.
abbrev pub hit : Option ℕ → ℕ → ℕ
hit none p = 0
hit (some q) p = if q == p then 1 else 0

abbrev pub is_known : Option ℕ → ℕ
is_known none = 0
is_known (some q) = 1

pub is_known-le : (o : Option ℕ) → is_known o ≤ 1
is_known-le none = omega arith
is_known-le (some q) = omega arith

sum_below_zero : (n : ℕ) → sum_below n (λ _. 0) ≡ 0
sum_below_zero zero = refl
sum_below_zero (suc n) = omega (arith, sum_below_zero n)

sum_below-add : (n : ℕ) (f g : ℕ → ℕ) → sum_below n (λ p. f p + g p) ≡ sum_below n f + sum_below n g
sum_below-add zero f g = refl
sum_below-add (suc n) f g = omega (arith, sum_below-add n f g)

hit-above : (n q : ℕ) → n ≤ q → sum_below n (hit (some q)) ≡ 0
hit-above zero q h = refl
hit-above (suc n) q h = ground (arith, hit-above n q)

hit-below : (n q : ℕ) → q < n → sum_below n (hit (some q)) ≡ 1
hit-below zero q h = absurd (omega arith)
hit-below (suc n) q h = ground (arith, hit-below n q, hit-above n q)

hit-total :
    (n : ℕ) (o : Option ℕ) → ((q : ℕ) → o ≡ some q → q < n) → sum_below n (hit o) ≡ is_known o
hit-total n none low = sum_below_zero n
hit-total n (some q) low = hit-below n q (low q refl)

module _ (ids : HashMap SubtaskId ℕ) where
  abbrev pub hits : ℕ → List SubtaskId → ℕ
  hits p [] = 0
  hits p (d ∷ ds) = hit (HashMap.get ids d) p + hits p ds

  -- How many of them are known.
  abbrev pub known : List SubtaskId → ℕ
  known [] = 0
  known (d ∷ ds) = is_known (HashMap.get ids d) + known ds

  abbrev pub hits_from : ℕ → ℕ → List Subtask → ℕ → ℕ
  hits_from p i [] j = 0
  hits_from p i (s ∷ ss) j = (if i == j then hits p s.depends_on else 0) + hits_from p (suc i) ss j

  module _ (n : ℕ) (low : (d : SubtaskId) (q : ℕ) → HashMap.get ids d ≡ some q → q < n) where
    push_dep-edges :
        (i : ℕ) (adj : List (List ℕ)) (d : SubtaskId)
        → length adj ≡ n
        → (length (push_dep ids i adj d) ≡ n)
          × ((p j : ℕ)
              → count j (get_or (push_dep ids i adj d) p [])
                ≡ count j (get_or adj p []) + (if i == j then hit (HashMap.get ids d) p else 0))
    unfolding push_dep
    push_dep-edges i adj d size = elim (Option-cases (HashMap.get ids d)) [
      | inl e ↦ rw (push_dep, e) (size, λ p j. ground arith)
      | inr (q, e) ↦
          rw (push_dep, e)
            (
              length-set adj q _ ∙ size,
              λ p j. elim (Bool-cases (q == p)) [
                | inl same ↦
                    rw
                      (
                        ← (==_iff q p).0 same,
                        get_or-set_self adj q (get_or adj q [] ++ i ∷ []) []
                            (omega (arith, low d q e, size)),
                        count-append j (get_or adj q []) (i ∷ []),
                      )
                      (ground arith)
                | inr differ ↦
                    rw (get_or-set_ne adj q p (get_or adj q [] ++ i ∷ []) [] (λ e. ground arith))
                      (ground arith)
              ],
            )
    ]

    push_deps-edges :
        (i : ℕ) (adj : List (List ℕ)) (ds : List SubtaskId)
        → length adj ≡ n
        → (length (push_deps ids i adj ds) ≡ n)
          × ((p j : ℕ)
              → count j (get_or (push_deps ids i adj ds) p [])
                ≡ count j (get_or adj p []) + (if i == j then hits p ds else 0))
    unfolding push_deps
    push_deps-edges i adj [] size = (size, λ p j. ground arith)
    push_deps-edges i adj (d ∷ ds) size =
        let one = push_dep-edges i adj d size in
        let rest = push_deps-edges i (push_dep ids i adj d) ds one.0 in
        (rest.0, λ p j. ground (arith, one.1 p j, rest.1 p j))

    pub build_adj-edges :
        (i : ℕ) (ss : List Subtask) (adj : List (List ℕ))
        → length adj ≡ n
        → (p j : ℕ)
        → count j (get_or (build_adj ids i ss adj) p [])
          ≡ count j (get_or adj p []) + hits_from p i ss j
    unfolding build_adj
    build_adj-edges i [] adj size p j = omega arith
    build_adj-edges i (s ∷ ss) adj size p j =
        let one = push_deps-edges i adj s.depends_on size in
        omega (
          arith,
          one.1 p j,
          build_adj-edges (suc i) ss (push_deps ids i adj s.depends_on) one.0 p j,
        )

    -- The edges to a subtask are its known dependencies.
    pub hits-total : (ds : List SubtaskId) → sum_below n (λ p. hits p ds) ≡ known ds
    hits-total [] = sum_below_zero n
    hits-total (d ∷ ds) = omega (
      arith,
      sum_below-add n (hit (HashMap.get ids d)) (λ p. hits p ds),
      hit-total n (HashMap.get ids d) (low d),
      hits-total ds,
    )

  pub known-le : (ds : List SubtaskId) → known ds ≤ length ds
  known-le [] = omega arith
  known-le (d ∷ ds) = omega (arith, is_known-le (HashMap.get ids d), known-le ds)
