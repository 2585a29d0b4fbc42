-- ===== src/Merge/Accumulator.antt =====
-- crates/h2ai-autonomic/src/retry_accumulator.rs: the decaying rates at which the constraints of a task
-- were violated, over its retries. `cid.to_string()` is the id itself.
use h2ai_control_plane.Prelude.{ℕ, ◌+◌, String, List, [], ◌∷◌, ◌==◌, eq_string, if◌then◌else◌}
use mathlib.Core.Option
use h2ai_control_plane.HashMap
use h2ai_control_plane.HashMap.{HashMap}
use h2ai_control_plane.Floats.{Floats}

-- What the accumulator reads of a `ConstraintViolation`.
pub record ConstraintViolation : Type 0 where
  pub constraint_id : String

abbrev pub RetryAccumulator : Type 0 → Type 0
RetryAccumulator F = HashMap String F

-- `RetryAccumulator::new`, and what `reset` leaves.
abbrev pub new : {F : Type 0} → RetryAccumulator F
new = []

-- `*counts.entry(id).or_insert(0) += 1` for each violation.
unfoldable pub count_ids : List ConstraintViolation → HashMap String ℕ → HashMap String ℕ
unfolding HashMap.get HashMap.insert
count_ids [] counts = counts
count_ids (v ∷ violations) counts = count_ids violations (
    HashMap.insert counts v.constraint_id
      (1 + Option.get_or (HashMap.get counts v.constraint_id) 0))

module _ {F : Type 0} (fl : Floats F) where
  -- The rate of a constraint with a count of violations among `n_f` failed proposals.
  abbrev pub decayed : F → ℕ → ℕ → F → F
  decayed lambda n_f count old =
      fl.mul_add lambda old
        (fl.mul (fl.sub fl.one lambda) (fl.div (fl.of_nat count) (fl.of_nat n_f)))

  unfoldable pub insert_rates : F → ℕ → HashMap String ℕ → RetryAccumulator F → RetryAccumulator F
  unfolding HashMap.get HashMap.insert
  insert_rates lambda n_f [] rates = rates
  insert_rates lambda n_f ((cid, count) ∷ counts) rates = insert_rates lambda n_f counts (
      HashMap.insert rates cid
        (decayed lambda n_f count (Option.get_or (HashMap.get rates cid) fl.zero)))

  unfoldable pub update : RetryAccumulator F → List ConstraintViolation → ℕ → F → RetryAccumulator F
  unfolding count_ids insert_rates
  update rates violations n_f lambda =
      if n_f == 0 then rates else insert_rates lambda n_f (count_ids violations []) rates
