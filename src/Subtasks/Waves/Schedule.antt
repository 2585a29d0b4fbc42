-- ===== src/Subtasks/Waves/Schedule.antt =====
-- What `topo_waves` promises (crates/h2ai-orchestrator/src/scheduler.rs): it ends, its waves schedule
-- every subtask after its dependencies, and it refuses exactly the plans that have no such schedule.
use mathlib.Core.Option
use h2ai_control_plane.Prelude.{
  ℕ, zero, suc, ◌+◌, ◌*◌, ◌<◌, ◌≤◌, ◌≡◌, refl, sym, ap, ◌∙◌, ◌⊎◌, some, List, [], ◌∷◌, ◌++◌, map,
  arith, ◌==◌, ==_iff, length, All, All-map, if◌then◌else◌, Bool-cases, inl, inr, eq_ℕ,
}
use h2ai_control_plane.HashMap
use h2ai_control_plane.Result.{ok, err}
use h2ai_control_plane.Identity.{SubtaskId}
use h2ai_control_plane.Subtasks.Plan.{Subtask}
use h2ai_control_plane.Subtasks.Waves.{
  cyclic_dependency, topo_waves, verdict, id_at, adjacency, in_degrees, initially_ready,
}
use h2ai_control_plane.Counting.{
  count, count-append, sum_below-congr, Distinct, length_of_complete, complete_of_length,
}
use h2ai_control_plane.Subtasks.Waves.Adjacency.{hit, hits, is_known, known}
use h2ai_control_plane.Subtasks.Waves.Ids.{index, deps_at, index-Names, index-Known}
use h2ai_control_plane.Subtasks.Waves.Start.{need, adjacency-Graph, initial-Between}
use h2ai_control_plane.Prelude.{concat}
use h2ai_control_plane.Subtasks.Waves.Rounds.{
  later, labelled, rounds-eq-later, Layered, Done, later-Done,
}
use h2ai_control_plane.Subtasks.Waves.Order.{Placed, saturated-Placed, edges_from-sum, total}

-- Each subtask of a wave has its dependencies in the waves before.
abbrev pub Ordered : List Subtask → List ℕ → List (List ℕ) → Type 0
Ordered subtasks before [] = Unit
Ordered subtasks before (w ∷ ws) =
    ((i : ℕ) → 0 < count i w → All (Placed subtasks before) (deps_at subtasks i))
    × Ordered subtasks (before ++ w) ws

-- The waves, as indices, have each subtask once, and are in order.
pub record IsSchedule (subtasks : List Subtask) (indices : List (List ℕ)) : Type 0 where
  pub complete : (i : ℕ) → i < length subtasks → count i (concat indices) ≡ 1
  pub bounded : (i : ℕ) → length subtasks ≤ i → count i (concat indices) ≡ 0
  pub ordered : Ordered subtasks [] indices

distrib : (c a b : ℕ) → c * (a + b) ≡ c * a + c * b
distrib c a b = omega arith

module _ (subtasks : List Subtask) where
  Ordered-of_Layered :
      (before : List ℕ) (indices : List (List ℕ))
      → Distinct (length subtasks) (before ++ concat indices)
      → Layered (length subtasks) (need subtasks) (adjacency subtasks) before indices
      → Ordered subtasks before indices
  Ordered-of_Layered before [] d h = tt
  Ordered-of_Layered before (w ∷ ws) d h = (
    λ i at.
        saturated-Placed subtasks before i
          record {
            once = λ j. omega (arith, d.once j, count-append j before (w ++ concat ws));
            bounded = λ j le. omega (arith, d.bounded j le, count-append j before (w ++ concat ws));
          }
          (h.0 i at).1,
    Ordered-of_Layered (before ++ w) ws
        record {
          once = λ j. omega (
            arith,
            d.once j,
            count-append j before (w ++ concat ws),
            count-append j w (concat ws),
            count-append j (before ++ w) (concat ws),
            count-append j before w,
          );
          bounded = λ j le. omega (
            arith,
            d.bounded j le,
            count-append j before (w ++ concat ws),
            count-append j w (concat ws),
            count-append j (before ++ w) (concat ws),
            count-append j before w,
          );
        }
        h.1,
  )

  loop : Done (length subtasks) (need subtasks) (adjacency subtasks) [] (
      later
        (length subtasks + 2)
        (adjacency subtasks)
        (in_degrees subtasks)
        (initially_ready subtasks))
  loop =
      later-Done (length subtasks) (need subtasks) (adjacency subtasks) (adjacency-Graph subtasks)
        (length subtasks + 2) [] (in_degrees subtasks) (initially_ready subtasks) (omega arith)
        (initial-Between subtasks)

  -- The waves as indices.
  found : List (List ℕ)
  found = loop.new

  found-Distinct : Distinct (length subtasks) (concat found)
  unfolding found
  found-Distinct = record {
    once = λ j. ground (arith, loop.final.marked j);
    bounded = λ j le. ground (arith, loop.final.marked j);
  }

  found-Ordered : Ordered subtasks [] found
  unfolding found
  found-Ordered = Ordered-of_Layered [] found found-Distinct loop.layered

  topo_waves-found :
      topo_waves subtasks
      ≡ some (
          if length (concat found) == length subtasks
          then ok (map (map (id_at subtasks)) found)
          else err cyclic_dependency)
  unfolding topo_waves found
  topo_waves-found =
      ap (verdict (length subtasks)) (
        rounds-eq-later (id_at subtasks) (adjacency subtasks) (length subtasks + 2)
          (in_degrees subtasks) (initially_ready subtasks) 0 []
        ∙ ap (Option.map (labelled (id_at subtasks) (adjacency subtasks) 0 [])) loop.found_eq)
      ∙ ap
          (λ k. some (
            if k == length subtasks
            then ok (map (map (id_at subtasks)) found)
            else err cyclic_dependency))
          (omega arith)

  -- The loop of `topo_waves` ends: with waves, or with the error for a cycle.
  pub topo_waves-total :
      (waves : List (List SubtaskId)) × ((topo_waves subtasks ≡ some (ok waves))
        ⊎ (topo_waves subtasks ≡ some (err cyclic_dependency)))
  topo_waves-total = elim (Bool-cases (length (concat found) == length subtasks)) [
    | inl e ↦ (map (map (id_at subtasks)) found, inl (rw (topo_waves-found, e) refl))
    | inr e ↦ ([], inr (rw (topo_waves-found, e) refl))
  ]

  -- If `topo_waves` returns waves, they are the ids of a list of waves of indices that has every subtask
  -- of the plan once and in which each dependency of a subtask is the id of a subtask of an earlier wave.
  pub topo_waves-IsSchedule :
      (waves : List (List SubtaskId))
      → topo_waves subtasks ≡ some (ok waves)
      → (indices : List (List ℕ)) × ((waves ≡ map (map (id_at subtasks)) indices)
          × IsSchedule subtasks indices)
  topo_waves-IsSchedule waves h = elim (Bool-cases (length (concat found) == length subtasks)) [
    | inl e ↦ (
      found,
      (
        ground (arith, h, topo_waves-found),
        record {
          complete = λ i lt.
              complete_of_length (length subtasks) (concat found) found-Distinct
                ((==_iff (length (concat found)) (length subtasks)).0 e) i lt;
          bounded = found-Distinct.bounded;
          ordered = found-Ordered;
        },
      ),
    )
    | inr e ↦ absurd (ground (arith, h, topo_waves-found))
  ]

  Scheduled : SubtaskId → Type 0
  Scheduled d = (q : ℕ) × ((HashMap.get (index subtasks) d ≡ some q) × (count q (concat found) ≡ 1))

  all_known : (ds : List SubtaskId) → All Scheduled ds → known (index subtasks) ds ≡ length ds
  unfolding Scheduled
  all_known [] h = refl
  all_known (d ∷ ds) ((q, (e, _)), h) = omega (arith, ap is_known e, all_known ds h)

  hits-Scheduled :
      (ds : List SubtaskId) (p : ℕ)
      → All Scheduled ds
      → count p (concat found) * hits (index subtasks) p ds ≡ hits (index subtasks) p ds
  unfolding Scheduled
  hits-Scheduled [] p h = omega arith
  hits-Scheduled (d ∷ ds) p ((q, (e, one)), h) = elim (Bool-cases (q == p)) [
    | inl same ↦
        let full : count p (concat found) ≡ 1 =
          ap (λ k. count k (concat found)) (sym ((==_iff q p).0 same)) ∙ one in
        rw full (omega arith)
    | inr differ ↦
        let missed : hit (HashMap.get (index subtasks) d) p ≡ 0 = rw (e, differ) refl in
        omega (
          arith,
          distrib (count p (concat found)) (hit (HashMap.get (index subtasks) d) p)
              (hits (index subtasks) p ds),
          ap (λ k. count p (concat found) * k) missed,
          hits-Scheduled ds p h,
        )
  ]

  count_of_Scheduled :
      (i : ℕ)
      → i < length subtasks
      → All Scheduled (deps_at subtasks i)
      → count i (concat found) ≡ 1
  unfolding found
  count_of_Scheduled i lt h =
      let edges =
        edges_from-sum subtasks (concat found) i found-Distinct
        ∙ sum_below-congr (length subtasks) _ _ (λ p _. hits-Scheduled (deps_at subtasks i) p h)
        ∙ total subtasks i
        ∙ all_known (deps_at subtasks i) h in
      ground (arith, edges, loop.final.left i lt, loop.final.marked i)

  -- A rank for ids that falls from each subtask to its dependencies, which are all subtasks of the plan.
  abbrev pub Ranked : (SubtaskId → ℕ) → Type 0
  Ranked rank =
      (i : ℕ)
      → i < length subtasks
      → All
          (λ d.
            (p : ℕ) × ((p < length subtasks)
              × ((id_at subtasks p ≡ d) × (rank d < rank (id_at subtasks i)))))
          (deps_at subtasks i)

  module _ (rank : SubtaskId → ℕ) (ranked : Ranked rank) where
    count_of_rank :
        (r i : ℕ) → i < length subtasks → rank (id_at subtasks i) < r → count i (concat found) ≡ 1
    unfolding Scheduled
    count_of_rank zero i lt h = absurd (omega arith)
    count_of_rank (suc r) i lt h = count_of_Scheduled i lt (
        All-map _ Scheduled
          (λ d (p, (bound, (named, lower))).
            let known_p = index-Known subtasks p bound in
            let q = known_p.0 in
            let at_q = index-Names subtasks (id_at subtasks p) q known_p.1 in
            (
              q,
              (
                ap (HashMap.get (index subtasks)) (sym named) ∙ known_p.1,
                count_of_rank r q at_q.0 (omega (arith, ap rank (at_q.1 ∙ named))),
              ),
            ))
          (deps_at subtasks i) (ranked i lt))

  -- If the dependencies of each subtask are ids of subtasks of the plan and of lower rank, then
  -- `topo_waves` returns waves.
  pub topo_waves_complete :
      (rank : SubtaskId → ℕ)
      → Ranked rank
      → (waves : List (List SubtaskId)) × (topo_waves subtasks ≡ some (ok waves))
  topo_waves_complete rank ranked =
      let full =
        length_of_complete (length subtasks) (concat found) found-Distinct
          (λ i lt. count_of_rank rank ranked (suc (rank (id_at subtasks i))) i lt (omega arith)) in
      (
        map (map (id_at subtasks)) found,
        rw (topo_waves-found, (==_iff (length (concat found)) (length subtasks)).1 full) refl,
      )
