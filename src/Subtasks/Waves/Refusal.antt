-- ===== src/Subtasks/Waves/Refusal.antt =====
-- Plans that `topo_waves` refuses (crates/h2ai-orchestrator/src/scheduler.rs): those with a dependency
-- that no subtask has.
use mathlib.Core.List.{append_assoc}
use h2ai_control_plane.Prelude.{
  ℕ, zero, suc, ◌<◌, ◌≤◌, ◌≡◌, some, List, [], ◌∷◌, ◌++◌, arith, length, All, get_elem?, ltb,
  ltb→lt, ◌≢◌, Bool-cases, inl, inr, eq_ℕ,
}
use h2ai_control_plane.Result.{err}
use h2ai_control_plane.Identity.{SubtaskId}
use h2ai_control_plane.Subtasks.Plan.{Subtask}
use h2ai_control_plane.Subtasks.Waves.{cyclic_dependency, topo_waves, id_at}
use h2ai_control_plane.Counting.{count, count-append}
use h2ai_control_plane.Subtasks.Waves.Ids.{deps_at}
use h2ai_control_plane.Prelude.{concat}
use h2ai_control_plane.Subtasks.Waves.Order.{Placed}
use h2ai_control_plane.Subtasks.Waves.Schedule.{Ordered, topo_waves-total, topo_waves-IsSchedule}

module _ (subtasks : List Subtask) where
  -- In the waves, every subtask stands after others that have its dependencies.
  after :
      (before : List ℕ) (indices : List (List ℕ)) (i : ℕ)
      → Ordered subtasks before indices
      → 0 < count i (concat indices)
      → (earlier : List ℕ) × (((j : ℕ) → count j earlier ≤ count j (before ++ concat indices))
          × All (Placed subtasks earlier) (deps_at subtasks i))
  after before [] i h at = absurd (omega arith)
  after before (w ∷ ws) i h at = elim (Bool-cases (ltb 0 (count i w))) [
    | inl e ↦ (
      before,
      (λ j. omega (arith, count-append j before (w ++ concat ws)), h.0 i (ltb→lt 0 (count i w) e)),
    )
    | inr e ↦
        let rest = after (before ++ w) ws i h.1 (ground (arith, count-append i w (concat ws))) in
        (rest.0, (λ j. rw (← append_assoc before w (concat ws)) (rest.1.0 j), rest.1.1))
  ]

  All-at :
      (P : SubtaskId → Type 0) (ds : List SubtaskId) (k : ℕ) (d : SubtaskId)
      → All P ds
      → get_elem? ds k ≡ some d
      → P d
  All-at P [] k d h e = absurd (ground (arith, e))
  All-at P (x ∷ ds) zero d h e = let same : x ≡ d = ground (arith, e) in rw (← same) h.0
  All-at P (x ∷ ds) (suc k) d h e = All-at P ds k d h.1 e

  -- If a subtask depends on an id that no subtask of the plan has, then `topo_waves` returns the error
  -- for a cycle.
  pub topo_waves-unknown_dependency :
      (i k : ℕ) (d : SubtaskId)
      → i < length subtasks
      → get_elem? (deps_at subtasks i) k ≡ some d
      → ((p : ℕ) → p < length subtasks → id_at subtasks p ≢ d)
      → topo_waves subtasks ≡ some (err cyclic_dependency)
  topo_waves-unknown_dependency i k d lt e unknown = elim (topo_waves-total subtasks).1 [
    | inl h ↦
        let (indices, (_, s)) = topo_waves-IsSchedule subtasks (topo_waves-total subtasks).0 h in
        let at = after [] indices i s.ordered (omega (arith, s.complete i lt)) in
        let (p, (named, inside)) =
          All-at (Placed subtasks at.0) (deps_at subtasks i) k d at.1.1 e in
        absurd (elim (Bool-cases (ltb p (length subtasks))) [
          | inl below ↦ unknown p (ltb→lt p (length subtasks) below) named
          | inr above ↦ ground (arith, at.1.0 p, s.bounded p, inside)
        ])
    | inr h ↦ h
  ]
