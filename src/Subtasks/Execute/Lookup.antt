-- ===== src/Subtasks/Execute/Lookup.antt =====
-- The lookup of a subtask of a wave by `SchedulingEngine::execute`
-- (crates/h2ai-orchestrator/src/scheduler.rs).
use h2ai_control_plane.Prelude.{
  ℕ, zero, suc, ◌<◌, ◌≡◌, refl, some, List, [], ◌∷◌, arith, ◌==◌, ==_iff, length, get_elem?, eq_ℕ,
  Bool-cases, inl, inr,
}
use h2ai_control_plane.Subtasks.Plan.{Subtask}
use h2ai_control_plane.Subtasks.Waves.{id_at}
use h2ai_control_plane.Subtasks.Waves.Ids.{deps_at}
use h2ai_control_plane.Subtasks.Execute.{find}

-- No two subtasks have one id.
abbrev pub UniqueIds : List Subtask → Type 0
UniqueIds subtasks =
    (p q : ℕ)
    → p < length subtasks
    → q < length subtasks
    → id_at subtasks p ≡ id_at subtasks q
    → p ≡ q

-- The subtask with an index, as the list and as `find` have it.
pub record Found (subtasks : List Subtask) (i : ℕ) (s : Subtask) : Type 0 where
  pub listed : get_elem? subtasks i ≡ some s
  pub found : find subtasks (id_at subtasks i) ≡ some s
  pub deps_eq : deps_at subtasks i ≡ s.depends_on

pub find-at :
    (subtasks : List Subtask) (i : ℕ)
    → UniqueIds subtasks
    → i < length subtasks
    → (s : Subtask) × Found subtasks i s
unfolding find
find-at [] i u lt = absurd (omega arith)
find-at (s ∷ ss) zero u lt = (s, record { listed = refl; found = ground arith; deps_eq = refl })
find-at (s ∷ ss) (suc i) u lt =
    let (t, f) =
      find-at ss i
        (λ p q p_lt q_lt e. ground (arith, u (suc p) (suc q) (omega arith) (omega arith) e))
        (omega arith) in
    (
      t,
      record {
        listed = f.listed;
        found = elim (Bool-cases (s.id == id_at ss i)) [
          | inl e ↦
              absurd (ground (arith, u 0 (suc i) (omega arith) lt ((==_iff s.id (id_at ss i)).0 e)))
          | inr e ↦ rw (find, e) f.found
        ];
        deps_eq = f.deps_eq;
      },
    )
