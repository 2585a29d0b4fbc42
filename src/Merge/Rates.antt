-- ===== src/Merge/Rates.antt =====
-- `RetryAccumulator::update` (crates/h2ai-autonomic/src/retry_accumulator.rs): the rate of each constraint.
use h2ai_control_plane.Prelude.{
  ℕ, ◌+◌, ◌≡◌, refl, String, str_eq, Option, none, some, List, [], ◌∷◌, ◌==◌, ◌||◌, arith,
  eq_string, filter, length, if◌then◌else◌,
}
use mathlib.Core.Option
use h2ai_control_plane.HashMap.{HashMap, get, insert, get-insert}
use h2ai_control_plane.HashMap.Unique.{Unique, insert-Unique}
use h2ai_control_plane.Floats.{Floats}
use h2ai_control_plane.Merge.Accumulator.{
  ConstraintViolation, RetryAccumulator, count_ids, insert_rates, update, decayed,
}

-- The violations of a constraint.
abbrev pub violations_of : List ConstraintViolation → String → ℕ
violations_of violations cid = length (filter (λ v. str_eq v.constraint_id cid) violations)

count_ids-get :
    (violations : List ConstraintViolation) (counts : HashMap String ℕ) (cid : String)
    → get (count_ids violations counts) cid ≡ (
        if violations_of violations cid == 0
        then get counts cid
        else some (violations_of violations cid + Option.get_or (get counts cid) 0))
unfolding count_ids
count_ids-get [] counts cid = refl
count_ids-get (v ∷ violations) counts cid =
    let next = 1 + Option.get_or (get counts v.constraint_id) 0 in
    ground (
      arith,
      count_ids-get violations (insert counts v.constraint_id next) cid,
      get-insert counts v.constraint_id cid next,
      eq_string.beq_iff v.constraint_id cid,
    )

count_ids-Unique :
    (violations : List ConstraintViolation) (counts : HashMap String ℕ)
    → Unique counts
    → Unique (count_ids violations counts)
unfolding count_ids
count_ids-Unique [] counts u = u
count_ids-Unique (v ∷ violations) counts u =
    count_ids-Unique violations _
      (insert-Unique counts v.constraint_id (1 + Option.get_or (get counts v.constraint_id) 0) u)

module _ {F : Type 0} (fl : Floats F) where
  abbrev rate_after : F → ℕ → Option ℕ → Option F → Option F
  rate_after lambda n_f none old = old
  rate_after lambda n_f (some count) old =
      some (decayed fl lambda n_f count (Option.get_or old fl.zero))

  insert_rates-get :
      (lambda : F) (n_f : ℕ) (counts : HashMap String ℕ) (rates : RetryAccumulator F) (cid : String)
      → Unique counts
      → get (insert_rates fl lambda n_f counts rates) cid
        ≡ rate_after lambda n_f (get counts cid) (get rates cid)
  unfolding insert_rates get
  insert_rates-get lambda n_f [] rates cid u = refl
  insert_rates-get lambda n_f ((k, count) ∷ counts) rates cid u =
      let new_rate = decayed fl lambda n_f count (Option.get_or (get rates k) fl.zero) in
      ground (
        arith,
        insert_rates-get lambda n_f counts (insert rates k new_rate) cid u.1,
        u.0,
        get-insert rates k cid new_rate,
        eq_string.beq_iff k cid,
      )

  -- The new rate of each constraint that was violated is lambda times its old rate (at first 0) plus 1 - lambda times
  -- the share of its violations among the failed proposals, where the sum and the product with lambda are rounded
  -- once; every other rate is kept, and nothing changes without failed proposals.
  pub update-get :
      (rates : RetryAccumulator F) (violations : List ConstraintViolation) (n_f : ℕ) (lambda : F)
      (cid : String)
      → get (update fl rates violations n_f lambda) cid ≡ (
          if (n_f == 0) || (violations_of violations cid == 0)
          then get rates cid
          else some (
              fl.mul_add lambda (Option.get_or (get rates cid) fl.zero) (
                fl.mul
                  (fl.sub fl.one lambda)
                  (fl.div (fl.of_nat (violations_of violations cid)) (fl.of_nat n_f)))))
  unfolding update
  update-get rates violations n_f lambda cid = ground (
    arith,
    insert_rates-get lambda n_f (count_ids violations []) rates cid
        (count_ids-Unique violations [] tt),
    count_ids-get violations [] cid,
  )
