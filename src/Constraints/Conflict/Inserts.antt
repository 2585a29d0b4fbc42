-- ===== src/Constraints/Conflict/Inserts.antt =====
-- crates/h2ai-constraints/src/conflict.rs: the insertion of a pair.
use h2ai_control_plane.Prelude.{◌≡◌, ◌⊎◌, ◌↔◌, Bool, true, false, arith, inl, inr, if◌then◌else◌}
use h2ai_control_plane.HashSet
use h2ai_control_plane.HashSet.{contains-insert}
use h2ai_control_plane.Constraints.Conflict.{Pair, ConstraintConflictGraph, eq_pair}

abbrev pub In : Pair → ConstraintConflictGraph → Type 0
In p g = HashSet.contains g p ≡ true

pub In-insert :
    (p q : Pair) (g : ConstraintConflictGraph) → In p (HashSet.insert g q) ↔ (In p g ⊎ (p ≡ q))
In-insert p q g = ground (arith, contains-insert g q p, eq_pair.beq_iff q p)

-- An insertion under a test.
pub In-insert_if :
    (b : Bool) (p q : Pair) (g : ConstraintConflictGraph)
    → In p (if b then HashSet.insert g q else g) ↔ (In p g ⊎ ((b ≡ true) × (p ≡ q)))
In-insert_if true p q g = ground (arith, In-insert p q g)
In-insert_if false p q g = (inl, λ h. elim h [ inl old ↦ old | inr (e, _) ↦ cc ])
