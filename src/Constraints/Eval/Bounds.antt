-- ===== src/Constraints/Eval/Bounds.antt =====
-- `eval_sync` (crates/h2ai-constraints/src/eval.rs): the range of its scores.
use h2ai_control_plane.Prelude.{
  ℕ, suc, ◌≤◌, String, Bool, true, false, List, [], ◌∷◌, arith, length, get_or, All, inl, inr,
}
use h2ai_control_plane.Members.{length-filter}
use h2ai_control_plane.Floats.{Floats, IsFloats, InUnit, fold}
use h2ai_control_plane.Constraints.Types.{
  VocabularyMode, ConstraintPredicate, Children, vocabulary_presence, negative_keyword, regex_match,
  numeric_threshold, composite, oracle_execution, json_schema, length_range, nil, cons, all_of,
  any_of, none_of, CompositeOp, llm_judge, semantic_presence, semantic_ordering, semantic_exclusion,
}
use h2ai_control_plane.Retry.{contains}
use h2ai_control_plane.Constraints.Eval.{
  Libraries, score, hit_count, eval_vocabulary, eval_numeric, eval_regex, eval_schema, combine,
  eval_sync, eval_children,
}

module _ {F J : Type 0} (f : Floats F) (laws : IsFloats f) (abs : F → F) (tolerance : F)
    (l : Libraries F J) where
  pub zero-InUnit : InUnit f f.zero
  zero-InUnit = (laws.zero-le-zero, laws.le_of_lt f.zero f.one laws.zero-lt-one)

  pub one-InUnit : InUnit f f.one
  one-InUnit = (laws.le_of_lt f.zero f.one laws.zero-lt-one, laws.one-le-one)

  score-InUnit : (b : Bool) → InUnit f (score f abs tolerance l b)
  score-InUnit true = one-InUnit
  score-InUnit false = zero-InUnit

  ratio-InUnit : (h n : ℕ) → h ≤ suc n → InUnit f (f.div (f.of_nat h) (f.of_nat (suc n)))
  ratio-InUnit h n le =
      (laws.quotient_low h (suc n) le (omega arith), laws.quotient_high h (suc n) le (omega arith))

  vocabulary-InUnit :
      (mode : VocabularyMode) (terms : List String) (output : String)
      → InUnit f (eval_vocabulary f abs tolerance l mode terms output)
  unfolding eval_vocabulary
  vocabulary-InUnit mode [] output = one-InUnit
  vocabulary-InUnit all_of (t ∷ ts) output =
      ratio-InUnit (hit_count f abs tolerance l (t ∷ ts) output) (length ts)
        (length-filter (λ x. contains output (l.to_lowercase x)) (t ∷ ts))
  vocabulary-InUnit any_of (t ∷ ts) output = score-InUnit _
  vocabulary-InUnit none_of (t ∷ ts) output = score-InUnit _

  pub min-InUnit : (a b : F) → InUnit f a → InUnit f b → InUnit f (f.min a b)
  min-InUnit a b ha hb = elim (laws.min_cases a b) [ inl e ↦ rw e ha | inr e ↦ rw e hb ]

  pub max-InUnit : (a b : F) → InUnit f a → InUnit f b → InUnit f (f.max a b)
  max-InUnit a b ha hb = elim (laws.max_cases a b) [ inl e ↦ rw e ha | inr e ↦ rw e hb ]

  fold-InUnit :
      (op : F → F → F)
      → ((a b : F) → InUnit f a → InUnit f b → InUnit f (op a b))
      → (acc : F) (xs : List F) → InUnit f acc
      → All (InUnit f) xs
      → InUnit f (fold f op acc xs)
  fold-InUnit op keep acc [] h hs = h
  fold-InUnit op keep acc (x ∷ xs) h hs = fold-InUnit op keep (op acc x) xs (keep acc x h hs.0) hs.1

  opposite-InUnit : (a : F) → InUnit f a → InUnit f (f.sub f.one a)
  opposite-InUnit a h = (
    rw laws.one-sub-one at (laws.sub_antitone a f.one h.1),
    rw laws.one-sub-zero at (laws.sub_antitone f.zero a h.0),
  )

  first-InUnit : (xs : List F) → All (InUnit f) xs → InUnit f (get_or xs 0 f.zero)
  first-InUnit [] h = zero-InUnit
  first-InUnit (x ∷ xs) h = h.0

  combine-InUnit :
      (op : CompositeOp) (xs : List F)
      → All (InUnit f) xs
      → InUnit f (combine f abs tolerance l op xs)
  combine-InUnit CompositeOp.and xs h = fold-InUnit f.min min-InUnit f.one xs one-InUnit h
  combine-InUnit CompositeOp.or xs h = fold-InUnit f.max max-InUnit f.zero xs zero-InUnit h
  combine-InUnit CompositeOp.not xs h = opposite-InUnit _ (first-InUnit xs h)

  mutual
    unfolding eval_sync eval_numeric eval_regex eval_schema

    eval-InUnit :
        (p : ConstraintPredicate F J) (output : String)
        → InUnit f (eval_sync f abs tolerance l p output)
    eval-InUnit (vocabulary_presence mode terms) output =
        vocabulary-InUnit mode terms (l.to_lowercase output)
    eval-InUnit (negative_keyword terms) output =
        vocabulary-InUnit none_of terms (l.to_lowercase output)
    eval-InUnit (regex_match pattern_text must_match) output = score-InUnit _
    eval-InUnit (numeric_threshold field_pattern op value) output = score-InUnit _
    eval-InUnit (llm_judge rubric) output = one-InUnit
    eval-InUnit (composite op children) output =
        combine-InUnit op _ (children-InUnit children output)
    eval-InUnit (oracle_execution uri suite timeout) output = zero-InUnit
    eval-InUnit (json_schema schema) output = score-InUnit _
    eval-InUnit (length_range min_chars max_chars) output = score-InUnit _
    eval-InUnit (semantic_presence concept passes) output = one-InUnit
    eval-InUnit (semantic_ordering first then_text passes) output = one-InUnit
    eval-InUnit (semantic_exclusion excluded passes) output = one-InUnit

    children-InUnit :
        (ps : Children F J) (output : String)
        → All (InUnit f) (eval_children f abs tolerance l ps output)
    children-InUnit nil output = tt
    children-InUnit (cons p ps) output = (eval-InUnit p output, children-InUnit ps output)

  -- Over numbers with the laws of `IsFloats`, the score of a predicate on an output is a number between 0 and 1, and no NaN.
  pub eval_sync-InUnit :
      (p : ConstraintPredicate F J) (output : String)
      → InUnit f (eval_sync f abs tolerance l p output)
  eval_sync-InUnit p output = eval-InUnit p output
