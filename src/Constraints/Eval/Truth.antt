-- ===== src/Constraints/Eval/Truth.antt =====
-- `eval_sync` (crates/h2ai-constraints/src/eval.rs) and the truth of a predicate.
use h2ai_control_plane.Prelude.{
  ◌≤◌, ◌≡◌, ◌↔◌, ◌⊎◌, refl, ap, ◌∙◌, String, Bool, true, false, not, ◌&&◌, ◌||◌, map, ◌≢◌, List, [],
  ◌∷◌, arith, length, filter, get_or, any, all, inl, inr, ltb, ◌==◌,
}
use mathlib.Core.Option
use mathlib.Core.Path.{ap₂}
use h2ai_control_plane.Members.{length-filter}
use h2ai_control_plane.Floats.{Floats, IsFloats, fold}
use h2ai_control_plane.Retry.{contains}
use h2ai_control_plane.Constraints.Types.{
  VocabularyMode, ConstraintPredicate, Children, vocabulary_presence, negative_keyword, regex_match,
  numeric_threshold, composite, oracle_execution, json_schema, length_range, nil, cons, all_of,
  any_of, none_of, CompositeOp, llm_judge, semantic_presence, semantic_ordering, semantic_exclusion,
}
use h2ai_control_plane.Constraints.Eval.{
  Libraries, score, eval_vocabulary, eval_numeric, eval_regex, eval_schema, combine, compare,
  eval_sync, eval_children, accepted, is_bool, read_number, schema_verdict, length_in, char_count,
}
use h2ai_control_plane.Constraints.Eval.Bounds.{}

-- Whether the terms are in a text as the mode wants; no terms want nothing.
abbrev pub terms_hold : VocabularyMode → (String → Bool) → List String → Bool
terms_hold mode hit [] = true
terms_hold all_of hit (t ∷ ts) = all hit (t ∷ ts)
terms_hold any_of hit (t ∷ ts) = any hit (t ∷ ts)
terms_hold none_of hit (t ∷ ts) = not (any hit (t ∷ ts))

abbrev pub first_or : Bool → List Bool → Bool
first_or b bs = get_or bs 0 b

abbrev pub connect : CompositeOp → List Bool → Bool
connect CompositeOp.and bs = all (λ b. b) bs
connect CompositeOp.or bs = any (λ b. b) bs
connect CompositeOp.not bs = not (first_or false bs)

module _ {F J : Type 0} (f : Floats F) (abs : F → F) (tolerance : F) (l : Libraries F J) where
  -- The truth of a predicate, where the predicates that are judged elsewhere hold, but for the oracle's.
  unfoldable mutual
    pub holds : ConstraintPredicate F J → String → Bool
    holds (vocabulary_presence mode terms) output =
        terms_hold mode (λ t. contains (l.to_lowercase output) (l.to_lowercase t)) terms
    holds (negative_keyword terms) output =
        not (any (λ t. contains (l.to_lowercase output) (l.to_lowercase t)) terms)
    holds (regex_match pattern_text must_match) output =
        accepted (Option.map (λ m. is_bool m must_match) (l.is_match pattern_text output))
    holds (numeric_threshold field_pattern op value) output = accepted (
        Option.map (λ v. compare f abs tolerance l op v value)
          (read_number f abs tolerance l field_pattern output))
    holds (oracle_execution uri suite timeout) output = false
    holds (json_schema schema) output = accepted (schema_verdict f abs tolerance l schema output)
    holds (length_range min_chars max_chars) output =
        length_in f abs tolerance l min_chars max_chars (char_count output)
    holds (composite op children) output = connect op (hold_children children output)
    holds p output = true

    pub hold_children : Children F J → String → List Bool
    hold_children nil output = []
    hold_children (cons p ps) output = holds p output ∷ hold_children ps output

-- A share of terms between none and all is neither true nor false. `Crisp` predicates give none, `Exact`
-- ones none under a negation, and count no more than 2 ^ 53 terms.
module _ {F J : Type 0} where
  unfoldable mutual
    pub Crisp : ConstraintPredicate F J → Type 0
    Crisp (vocabulary_presence all_of terms) = ⊥
    Crisp (composite op children) = CrispChildren children
    Crisp p = Unit

    pub CrispChildren : Children F J → Type 0
    CrispChildren nil = Unit
    CrispChildren (cons p ps) = Crisp p × CrispChildren ps

  unfoldable mutual
    unfolding Crisp

    pub Exact : ConstraintPredicate F J → Type 0
    Exact (vocabulary_presence all_of terms) = length terms ≤ 9007199254740992
    Exact (composite CompositeOp.not children) = CrispChildren children
    Exact (composite op children) = ExactChildren children
    Exact p = Unit

    pub ExactChildren : Children F J → Type 0
    ExactChildren nil = Unit
    ExactChildren (cons p ps) = Exact p × ExactChildren ps

length-filter-any {ℓ} :
    {A : Type ℓ} (p : A → Bool) (xs : List A) → ltb 0 (length (filter p xs)) ≡ any p xs
length-filter-any p [] = refl
length-filter-any p (x ∷ xs) = ground (arith, length-filter-any p xs)

length-filter-none {ℓ} :
    {A : Type ℓ} (p : A → Bool) (xs : List A) → (length (filter p xs) == 0) ≡ not (any p xs)
length-filter-none p [] = refl
length-filter-none p (x ∷ xs) = ground (arith, length-filter-none p xs)

pub length-filter-all {ℓ} :
    {A : Type ℓ} (p : A → Bool) (xs : List A) → (length (filter p xs) == length xs) ≡ all p xs
length-filter-all p [] = refl
length-filter-all p (x ∷ xs) = ground (arith, length-filter-all p xs, length-filter p xs)

module _ {F J : Type 0} (f : Floats F) (laws : IsFloats f) (abs : F → F) (tolerance : F)
    (l : Libraries F J) where
  pub zero≢one : f.zero ≢ f.one
  zero≢one e = cc (laws.zero-lt-one, laws.irrefl f.one, ap (λ x. f.lt x f.one) e)

  pub score-one : (b : Bool) → (score f abs tolerance l b ≡ f.one) ↔ (b ≡ true)
  score-one true = (λ _. refl, λ _. refl)
  score-one false = (λ e. absurd (zero≢one e), λ e. cc)

  pub same-min : (a : F) → f.min a a ≡ a
  same-min a = elim (laws.min_cases a a) [ inl e ↦ e | inr e ↦ e ]

  pub same-max : (a : F) → f.max a a ≡ a
  same-max a = elim (laws.max_cases a a) [ inl e ↦ e | inr e ↦ e ]

  min-score :
      (b c : Bool)
      → f.min (score f abs tolerance l b) (score f abs tolerance l c)
        ≡ score f abs tolerance l (b && c)
  min-score true true = same-min f.one
  min-score true false = laws.min_right f.one f.zero laws.zero-lt-one
  min-score false true = laws.min_left f.zero f.one laws.zero-lt-one
  min-score false false = same-min f.zero

  -- On crisp scores the connectives are those of truth.
  fold-min :
      (b : Bool) (bs : List Bool)
      → fold f f.min (score f abs tolerance l b) (map (score f abs tolerance l) bs)
        ≡ score f abs tolerance l (b && all (λ c. c) bs)
  fold-min b [] = ground arith
  fold-min b (c ∷ bs) =
      ap (λ a. fold f f.min a (map (score f abs tolerance l) bs)) (min-score b c)
      ∙ fold-min (b && c) bs
      ∙ ground arith

  max-score :
      (b c : Bool)
      → f.max (score f abs tolerance l b) (score f abs tolerance l c)
        ≡ score f abs tolerance l (b || c)
  max-score true true = same-max f.one
  max-score true false = laws.max_left f.one f.zero laws.zero-lt-one
  max-score false true = laws.max_right f.zero f.one laws.zero-lt-one
  max-score false false = same-max f.zero

  fold-max :
      (b : Bool) (bs : List Bool)
      → fold f f.max (score f abs tolerance l b) (map (score f abs tolerance l) bs)
        ≡ score f abs tolerance l (b || any (λ c. c) bs)
  fold-max b [] = ground arith
  fold-max b (c ∷ bs) =
      ap (λ a. fold f f.max a (map (score f abs tolerance l) bs)) (max-score b c)
      ∙ fold-max (b || c) bs
      ∙ ground arith

  combine-crisp :
      (op : CompositeOp) (bs : List Bool)
      → combine f abs tolerance l op (map (score f abs tolerance l) bs)
        ≡ score f abs tolerance l (connect op bs)
  combine-crisp CompositeOp.and bs = fold-min true bs
  combine-crisp CompositeOp.or bs = fold-max false bs
  combine-crisp CompositeOp.not [] = laws.one-sub-zero
  combine-crisp CompositeOp.not (true ∷ bs) = laws.one-sub-one
  combine-crisp CompositeOp.not (false ∷ bs) = laws.one-sub-zero

  vocabulary-crisp :
      (mode : VocabularyMode) (terms : List String) (output : String)
      → ((mode ≡ any_of) ⊎ (mode ≡ none_of))
      → eval_vocabulary f abs tolerance l mode terms output
        ≡ score f abs tolerance l (terms_hold mode (λ t. contains output (l.to_lowercase t)) terms)
  unfolding eval_vocabulary
  vocabulary-crisp mode [] output h = refl
  vocabulary-crisp all_of (t ∷ ts) output h = ground (arith, h)
  vocabulary-crisp any_of (t ∷ ts) output h =
      ap (score f abs tolerance l)
        (length-filter-any (λ t. contains output (l.to_lowercase t)) (t ∷ ts))
  vocabulary-crisp none_of (t ∷ ts) output h =
      ap (score f abs tolerance l)
        (length-filter-none (λ t. contains output (l.to_lowercase t)) (t ∷ ts))

  terms_hold-none :
      (hit : String → Bool) (ts : List String) → terms_hold none_of hit ts ≡ not (any hit ts)
  terms_hold-none hit [] = refl
  terms_hold-none hit (t ∷ ts) = refl

  mutual
    unfolding eval_sync eval_numeric eval_regex eval_schema holds Crisp

    pub crisp :
        (p : ConstraintPredicate F J) (output : String)
        → Crisp p
        → eval_sync f abs tolerance l p output
          ≡ score f abs tolerance l (holds f abs tolerance l p output)
    crisp (vocabulary_presence all_of terms) output c = absurd c
    crisp (vocabulary_presence any_of terms) output c =
        vocabulary-crisp any_of terms (l.to_lowercase output) (inl refl)
    crisp (vocabulary_presence none_of terms) output c =
        vocabulary-crisp none_of terms (l.to_lowercase output) (inr refl)
    crisp (negative_keyword terms) output c =
        vocabulary-crisp none_of terms (l.to_lowercase output) (inr refl)
        ∙ ap (score f abs tolerance l)
            (terms_hold-none (λ t. contains (l.to_lowercase output) (l.to_lowercase t)) terms)
    crisp (regex_match pattern_text must_match) output c = refl
    crisp (numeric_threshold field_pattern op value) output c = refl
    crisp (llm_judge rubric) output c = refl
    crisp (composite op children) output c =
        ap (combine f abs tolerance l op) (crisp_children children output c)
        ∙ combine-crisp op (hold_children f abs tolerance l children output)
    crisp (oracle_execution uri suite timeout) output c = refl
    crisp (json_schema schema) output c = refl
    crisp (length_range min_chars max_chars) output c = refl
    crisp (semantic_presence concept passes) output c = refl
    crisp (semantic_ordering first then_text passes) output c = refl
    crisp (semantic_exclusion excluded passes) output c = refl

    crisp_children :
        (ps : Children F J) (output : String)
        → CrispChildren ps
        → eval_children f abs tolerance l ps output
          ≡ map (score f abs tolerance l) (hold_children f abs tolerance l ps output)
    crisp_children nil output c = refl
    crisp_children (cons p ps) output c =
        ap₂ ◌∷◌ (crisp p output c.0) (crisp_children ps output c.1)
