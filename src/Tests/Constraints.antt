-- ===== src/Tests/Constraints.antt =====
-- Predicates on an output, and documents that conflict and refer to each other.
use h2ai_control_plane.Prelude.{
  ℕ, ◌+◌, ◌-◌, ◌*◌, ◌≡◌, ◌↔◌, refl, String, true, none, some, List, [], ◌∷◌, arith, ltb, leb,
  if◌then◌else◌,
}
use h2ai_control_plane.Floats.{Floats, IsFloats, InUnit}
use h2ai_control_plane.Retry.{contains}
use h2ai_control_plane.Provisioner.{str_ltb}
use h2ai_control_plane.Constraints.Types.{
  ConstraintPredicate, ConstraintDoc, nil, cons, vocabulary_presence, all_of, any_of, length_range,
  composite, semantic_ordering, numeric_threshold, hard, CompositeOp, NumericOp,
}
use h2ai_control_plane.Constraints.Eval.{Libraries, eval_sync}
use h2ai_control_plane.Constraints.Eval.Bounds.{eval_sync-InUnit}
use h2ai_control_plane.Constraints.Eval.Truth.{holds, Exact}
use h2ai_control_plane.Constraints.Eval.Exact.{eval_sync-one_iff}
use h2ai_control_plane.Constraints.Conflict.{build, are_conflicting}
use h2ai_control_plane.Constraints.Conflict.Theorem.{Conflict}
use h2ai_control_plane.Constraints.Clusters.{build_clusters}
use h2ai_control_plane.Constraints.Clusters.Theorem.{IsClustering, build_clusters-IsClustering}

-- Whole numbers, with a quotient that is rounded down.
abbrev pub whole : Floats ℕ
whole = record {
  zero = 0;
  one = 1;
  lt = ltb;
  le = leb;
  add = λ a b. a + b;
  sub = λ a b. a - b;
  mul = λ a b. a * b;
  div = λ a b. if ltb a b then 0 else 1;
  min = λ a b. if ltb b a then b else a;
  max = λ a b. if ltb a b then b else a;
  mul_add = λ a b c. a * b + c;
  of_nat = λ n. n;
}

pub whole-IsFloats : IsFloats whole
whole-IsFloats = record {
  zero-lt-one = refl;
  le_of_lt = λ a b h. ground arith;
  irrefl = λ a. ground arith;
  lt_or_eq = λ a b h. ground arith;
  not_above_one = λ a h k. ground arith;
  not_below_zero = λ a h k. ground arith;
  zero-le-zero = refl;
  one-le-one = refl;
  min_cases = λ a b. ground arith;
  max_cases = λ a b. ground arith;
  min_left = λ a b h. ground arith;
  min_right = λ a b h. ground arith;
  max_left = λ a b h. ground arith;
  max_right = λ a b h. ground arith;
  sub_antitone = λ a b h. ground arith;
  one-sub-zero = refl;
  one-sub-one = refl;
  quotient_low = λ m n h k. ground arith;
  quotient_high = λ m n h k. ground arith;
  quotient_self = λ n h. ground arith;
  quotient_strict = λ m n h k. ground arith;
}

abbrev libraries : Libraries ℕ ℕ
libraries = record {
  to_lowercase = λ s. s;
  is_match = λ p s. some (contains s p);
  captures = λ p s. none;
  parse = λ s. none;
  from_str = λ s. none;
  validator_for = λ j. none;
}

abbrev polite : ConstraintPredicate ℕ ℕ
polite = composite CompositeOp.and (
    cons (vocabulary_presence all_of ("please" ∷ "thanks" ∷ [])) (
      cons (composite CompositeOp.not (cons (vocabulary_presence any_of ("rude" ∷ [])) nil))
        (cons (length_range (some 5) none) nil)))

polite_holds : eval_sync whole (λ a. a) 1 libraries polite "please, and thanks" ≡ 1
unfolding eval_sync
polite_holds = refl

eval_sync-InUnit_example :
    InUnit whole (eval_sync whole (λ a. a) 1 libraries polite "please, and thanks")
eval_sync-InUnit_example =
    eval_sync-InUnit whole whole-IsFloats (λ a. a) 1 libraries polite "please, and thanks"

polite-Exact : Exact polite
unfolding Exact
polite-Exact = (omega arith, ((tt, tt), (tt, tt)))

eval_sync-one_iff_example :
    (eval_sync whole (λ a. a) 1 libraries polite "please" ≡ 1)
    ↔ (holds whole (λ a. a) 1 libraries polite "please" ≡ true)
eval_sync-one_iff_example =
    eval_sync-one_iff whole whole-IsFloats (λ a. a) 1 libraries polite "please" polite-Exact

abbrev doc : String → ConstraintPredicate ℕ ℕ → List String → ConstraintDoc ℕ ℕ
doc id predicate related_to = record {
  id = id;
  source_file = "";
  description = "";
  severity = hard 1;
  predicate = predicate;
  remediation_hint = none;
  domains = [];
  mandatory_for_tags = [];
  related_to = related_to;
  binary_checks = [];
  version = 1;
  repair_provenance = none;
  pass_criteria = none;
}

abbrev docs : List (ConstraintDoc ℕ ℕ)
docs =
    doc "small" (numeric_threshold "size" NumericOp.le 3) []
    ∷ doc "log" (semantic_ordering "check" "write" 3) ("small" ∷ "unknown" ∷ [])
    ∷ doc "big" (composite CompositeOp.and (cons (numeric_threshold "size" NumericOp.ge 5) nil)) []
    ∷ []

big_small : are_conflicting (build whole docs) "big" "small" ≡ true
unfolding are_conflicting build str_ltb
big_small = refl

two_clusters : build_clusters docs ≡ some (("small" ∷ "log" ∷ []) ∷ ("big" ∷ []) ∷ [])
unfolding build_clusters
two_clusters = refl

build_clusters-IsClustering_example :
    (clusters : List (List String)) × ((build_clusters docs ≡ some clusters)
      × IsClustering docs clusters)
build_clusters-IsClustering_example = build_clusters-IsClustering docs
