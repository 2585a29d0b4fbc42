-- ===== src/Constraints/Eval/Exact.antt =====
-- `eval_sync` (crates/h2ai-constraints/src/eval.rs): when a predicate has the score 1.
use h2ai_control_plane.Prelude.{
  ℕ, suc, ◌≤◌, ◌≡◌, ◌≢◌, ◌↔◌, ◌⊎◌, refl, sym, ap, ◌∙◌, String, Bool, true, false, ◌&&◌, ◌||◌, List,
  [], ◌∷◌, arith, length, any, all, Bool-cases, inl, inr, ◌==◌, ==_iff,
}
use h2ai_control_plane.Members.{length-filter}
use h2ai_control_plane.Floats.{Floats, IsFloats, InUnit, fold}
use h2ai_control_plane.Retry.{contains}
use h2ai_control_plane.Constraints.Types.{
  ConstraintPredicate, Children, vocabulary_presence, negative_keyword, regex_match,
  numeric_threshold, composite, oracle_execution, json_schema, length_range, nil, cons, all_of,
  any_of, none_of, CompositeOp, llm_judge, semantic_presence, semantic_ordering, semantic_exclusion,
}
use h2ai_control_plane.Constraints.Eval.{
  Libraries, hit_count, eval_vocabulary, eval_numeric, eval_regex, eval_schema, eval_sync,
  eval_children,
}
use h2ai_control_plane.Constraints.Eval.Bounds.{
  eval_sync-InUnit, min-InUnit, max-InUnit, zero-InUnit, one-InUnit,
}
use h2ai_control_plane.Constraints.Eval.Truth.{
  terms_hold, holds, hold_children, Exact, ExactChildren, Crisp, zero≢one, score-one, crisp,
  same-min, same-max, length-filter-all,
}

module _ {F J : Type 0} (f : Floats F) (laws : IsFloats f) (abs : F → F) (tolerance : F)
    (l : Libraries F J) where
  not_below_one : (a : F) → f.lt a f.one ≡ true → a ≢ f.one
  not_below_one a h e = cc (h, laws.irrefl f.one, ap (λ x. f.lt x f.one) e)

  min-one : (a b : F) → InUnit f a → InUnit f b → (f.min a b ≡ f.one) ↔ ((a ≡ f.one) × (b ≡ f.one))
  min-one a b ha hb = (
    λ e. elim (laws.lt_or_eq a f.one ha.1) [
      | inl low ↦ elim (laws.lt_or_eq b f.one hb.1) [
        | inl low_b ↦ absurd (elim (laws.min_cases a b) [
          | inl s ↦ not_below_one a low (sym s ∙ e)
          | inr s ↦ not_below_one b low_b (sym s ∙ e)
        ])
        | inr one_b ↦ absurd (not_below_one a low (sym (laws.min_left a b (rw one_b low)) ∙ e))
      ]
      | inr one_a ↦ elim (laws.lt_or_eq b f.one hb.1) [
        | inl low_b ↦ absurd (not_below_one b low_b (sym (laws.min_right a b (rw one_a low_b)) ∙ e))
        | inr one_b ↦ (one_a, one_b)
      ]
    ],
    λ (p, q). rw (p, q) (same-min f laws abs tolerance l f.one),
  )

  max-one : (a b : F) → InUnit f a → InUnit f b → (f.max a b ≡ f.one) ↔ ((a ≡ f.one) ⊎ (b ≡ f.one))
  max-one a b ha hb = (
    λ e. elim (laws.max_cases a b) [ inl s ↦ inl (sym s ∙ e) | inr s ↦ inr (sym s ∙ e) ],
    λ h. elim h [
      | inl one_a ↦ elim (laws.lt_or_eq b f.one hb.1) [
        | inl low_b ↦ laws.max_left a b (rw one_a low_b) ∙ one_a
        | inr one_b ↦ rw (one_a, one_b) (same-max f laws abs tolerance l f.one)
      ]
      | inr one_b ↦ elim (laws.lt_or_eq a f.one ha.1) [
        | inl low_a ↦ laws.max_right a b (rw one_b low_a) ∙ one_b
        | inr one_a ↦ rw (one_a, one_b) (same-max f laws abs tolerance l f.one)
      ]
    ],
  )

  -- Scores that are 1 exactly where the truth values are true.
  abbrev Agree : List F → List Bool → Type 0
  Agree [] [] = Unit
  Agree (x ∷ xs) (b ∷ bs) = ((x ≡ f.one) ↔ (b ≡ true)) × (InUnit f x × Agree xs bs)
  Agree xs bs = ⊥

  fold-min-Agree :
      (acc : F) (b : Bool) (xs : List F) (bs : List Bool)
      → (acc ≡ f.one) ↔ (b ≡ true)
      → InUnit f acc
      → Agree xs bs
      → (fold f f.min acc xs ≡ f.one) ↔ ((b && all (λ c. c) bs) ≡ true)
  fold-min-Agree acc b [] [] h u g = ground (arith, h)
  fold-min-Agree acc b (x ∷ xs) (c ∷ bs) h u g =
      let step =
        fold-min-Agree (f.min acc x) (b && c) xs bs (ground (arith, min-one acc x u g.1.0, h, g.0))
          (min-InUnit f laws abs tolerance l acc x u g.1.0) g.1.1 in
      ground (arith, step)
  fold-min-Agree acc b [] (c ∷ bs) h u g = absurd g
  fold-min-Agree acc b (x ∷ xs) [] h u g = absurd g

  fold-max-Agree :
      (acc : F) (b : Bool) (xs : List F) (bs : List Bool)
      → (acc ≡ f.one) ↔ (b ≡ true)
      → InUnit f acc
      → Agree xs bs
      → (fold f f.max acc xs ≡ f.one) ↔ ((b || any (λ c. c) bs) ≡ true)
  fold-max-Agree acc b [] [] h u g = ground (arith, h)
  fold-max-Agree acc b (x ∷ xs) (c ∷ bs) h u g =
      let step =
        fold-max-Agree (f.max acc x) (b || c) xs bs (ground (arith, max-one acc x u g.1.0, h, g.0))
          (max-InUnit f laws abs tolerance l acc x u g.1.0) g.1.1 in
      ground (arith, step)
  fold-max-Agree acc b [] (c ∷ bs) h u g = absurd g
  fold-max-Agree acc b (x ∷ xs) [] h u g = absurd g

  ratio-one :
      (h n : ℕ)
      → h ≤ suc n
      → suc n ≤ 9007199254740992
      → (f.div (f.of_nat h) (f.of_nat (suc n)) ≡ f.one) ↔ ((h == suc n) ≡ true)
  ratio-one h n le small = elim (Bool-cases (h == suc n)) [
    | inl e ↦ (λ _. e, λ _. rw ((==_iff h (suc n)).0 e) (laws.quotient_self (suc n) (omega arith)))
    | inr e ↦ (
      λ q.
          absurd (not_below_one _ (laws.quotient_strict h (suc n) (ground (arith, e, le)) small) q),
      λ p. cc (p, e),
    )
  ]

  all_of-one :
      (terms : List String) (output : String)
      → length terms ≤ 9007199254740992
      → (eval_vocabulary f abs tolerance l all_of terms output ≡ f.one)
        ↔ (terms_hold all_of (λ t. contains output (l.to_lowercase t)) terms ≡ true)
  unfolding eval_vocabulary
  all_of-one [] output small = (λ _. refl, λ _. refl)
  all_of-one (t ∷ ts) output small =
      rw (← length-filter-all (λ x. contains output (l.to_lowercase x)) (t ∷ ts)) (
        ratio-one (hit_count f abs tolerance l (t ∷ ts) output) (length ts)
          (length-filter (λ x. contains output (l.to_lowercase x)) (t ∷ ts)) small)

  Crisp-one :
      (p : ConstraintPredicate F J) (output : String)
      → Crisp p
      → (eval_sync f abs tolerance l p output ≡ f.one) ↔ (holds f abs tolerance l p output ≡ true)
  Crisp-one p output c =
      rw (crisp f laws abs tolerance l p output c)
        (score-one f laws abs tolerance l (holds f abs tolerance l p output))

  mutual
    unfolding eval_sync eval_numeric eval_regex eval_schema holds Crisp Exact

    exact :
        (p : ConstraintPredicate F J) (output : String)
        → Exact p
        → (eval_sync f abs tolerance l p output ≡ f.one) ↔ (holds f abs tolerance l p output ≡ true)
    exact (vocabulary_presence all_of terms) output e = all_of-one terms (l.to_lowercase output) e
    exact (composite CompositeOp.not children) output e =
        Crisp-one (composite CompositeOp.not children) output e
    exact (composite CompositeOp.and children) output e =
        fold-min-Agree f.one true _ _ (λ _. refl, λ _. refl) (one-InUnit f laws abs tolerance l)
          (exact_children children output e)
    exact (composite CompositeOp.or children) output e =
        fold-max-Agree f.zero false _ _ (λ z. absurd (zero≢one f laws abs tolerance l z), λ b. cc)
          (zero-InUnit f laws abs tolerance l) (exact_children children output e)
    exact (vocabulary_presence any_of terms) output e =
        Crisp-one (vocabulary_presence any_of terms) output tt
    exact (vocabulary_presence none_of terms) output e =
        Crisp-one (vocabulary_presence none_of terms) output tt
    exact (negative_keyword terms) output e = Crisp-one (negative_keyword terms) output tt
    exact (regex_match pattern_text must_match) output e =
        Crisp-one (regex_match pattern_text must_match) output tt
    exact (numeric_threshold field_pattern op value) output e =
        Crisp-one (numeric_threshold field_pattern op value) output tt
    exact (llm_judge rubric) output e = Crisp-one (llm_judge rubric) output tt
    exact (oracle_execution uri suite timeout) output e =
        Crisp-one (oracle_execution uri suite timeout) output tt
    exact (json_schema schema) output e = Crisp-one (json_schema schema) output tt
    exact (length_range min_chars max_chars) output e =
        Crisp-one (length_range min_chars max_chars) output tt
    exact (semantic_presence concept passes) output e =
        Crisp-one (semantic_presence concept passes) output tt
    exact (semantic_ordering first then_text passes) output e =
        Crisp-one (semantic_ordering first then_text passes) output tt
    exact (semantic_exclusion excluded passes) output e =
        Crisp-one (semantic_exclusion excluded passes) output tt

    exact_children :
        (ps : Children F J) (output : String)
        → ExactChildren ps
        → Agree
            (eval_children f abs tolerance l ps output)
            (hold_children f abs tolerance l ps output)
    exact_children nil output e = tt
    exact_children (cons p ps) output e = (
      exact p output e.0,
      (eval_sync-InUnit f laws abs tolerance l p output, exact_children ps output e.1),
    )

  -- Over numbers with the laws of `IsFloats`, if a predicate has no share of terms under a negation, and counts no more than 2^53 terms, then its
  -- score on an output is 1 exactly where it holds of the output.
  pub eval_sync-one_iff :
      (p : ConstraintPredicate F J) (output : String)
      → Exact p
      → (eval_sync f abs tolerance l p output ≡ f.one) ↔ (holds f abs tolerance l p output ≡ true)
  eval_sync-one_iff p output e = exact p output e
