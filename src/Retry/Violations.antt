-- ===== src/Retry/Violations.antt =====
-- The violations that `RetryPolicy::decide` (crates/h2ai-autonomic/src/retry.rs) gathers by constraint,
-- and what it makes of them.
use h2ai_control_plane.Prelude.{String, Bool, true, false, none, some, List, str_eq, eq_string, any}
use h2ai_control_plane.HashMap
use h2ai_control_plane.HashMap.{HashMap}
use h2ai_control_plane.Retry.{ConstraintViolation, ConstraintEntry}

module _ {ℓ} {F : Type ℓ} where
  contains_key : HashMap String (ConstraintEntry F) → String → Bool
  contains_key m id = elim (HashMap.get m id) [ none ↦ false | some e ↦ true ]

  -- Some violation is of that constraint.
  abbrev pub is_violated : List (ConstraintViolation F) → String → Bool
  is_violated vs id = any (λ v. str_eq v.constraint_id id) vs
