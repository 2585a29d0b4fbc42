-- ===== src/Constraints/Eval.antt =====
-- crates/h2ai-constraints/src/eval.rs: the synchronous evaluation of a predicate on an output. What the
-- libraries `regex`, `serde_json` and `jsonschema` and the standard library's tables do is a parameter.
pub mod Bounds
pub mod Truth
pub mod Exact
use h2ai_control_plane.Prelude.{
  ℕ, suc, String, Bool, true, false, Option, none, some, List, [], ◌∷◌, map, leb, ltb, ◌==◌, length,
  filter, is_empty, get_or, ◌&&◌, if◌then◌else◌,
}
use mathlib.Core.Option
use h2ai_control_plane.Floats.{Floats, fold}
use h2ai_control_plane.Retry.{contains}
use h2ai_control_plane.Constraints.Types
use h2ai_control_plane.Constraints.Types.{
  VocabularyMode, NumericOp, ConstraintPredicate, Children, vocabulary_presence, negative_keyword,
  regex_match, numeric_threshold, composite, oracle_execution, json_schema, length_range, nil, cons,
  all_of, any_of, none_of, CompositeOp,
}

-- What `Regex::captures` gives, by group.
abbrev pub Captures : Type 0
Captures = List (Option String)

-- `is_match` and `captures` are `none` for a pattern that is no regular expression, `validator_for` for
-- a schema that is none, and `from_str` and `parse` for a text that they refuse.
pub record Libraries (F J : Type 0) : Type 0 where
  pub to_lowercase : String → String
  pub is_match : String → String → Option Bool
  pub captures : String → String → Option (Option Captures)
  pub parse : String → Option F
  pub from_str : String → Option J
  pub validator_for : J → Option (J → Bool)

-- `chars().count()`
abbrev pub char_count : String → ℕ
char_count String.[] = 0
char_count (String.◌∷◌ c s) = suc (char_count s)

-- `cap.get(1).or_else(|| cap.get(0))`
abbrev pub number_text : Captures → Option String
number_text cap = elim (get_or cap 1 none) [ some s ↦ some s | none ↦ get_or cap 0 none ]

-- `is_none_or`
abbrev pub none_or : Option ℕ → (ℕ → Bool) → Bool
none_or none p = true
none_or (some m) p = p m

-- `map_or(0.0, ..)` and the early returns of 0.0: what cannot be checked is not accepted.
abbrev pub accepted : Option Bool → Bool
accepted none = false
accepted (some b) = b

abbrev pub is_bool : Bool → Bool → Bool
is_bool true b = b
is_bool false true = false
is_bool false false = true

module _ {F J : Type 0} (f : Floats F) (abs : F → F) (tolerance : F) (l : Libraries F J) where
  abbrev pub score : Bool → F
  score b = if b then f.one else f.zero

  abbrev pub hit_count : List String → String → ℕ
  hit_count terms lower_output =
      length (filter (λ t. contains lower_output (l.to_lowercase t)) terms)

  -- The scores of terms, of which there is at least one.
  abbrev pub vocabulary_score : VocabularyMode → ℕ → ℕ → F
  vocabulary_score all_of hits total = f.div (f.of_nat hits) (f.of_nat total)
  vocabulary_score any_of hits total = score (ltb 0 hits)
  vocabulary_score none_of hits total = score (hits == 0)

  unfoldable pub eval_vocabulary : VocabularyMode → List String → String → F
  eval_vocabulary mode [] lower_output = f.one
  eval_vocabulary mode (t ∷ ts) lower_output =
      vocabulary_score mode (hit_count (t ∷ ts) lower_output) (length (t ∷ ts))

  -- `v < threshold`, and so on; `==` is up to a tolerance, 1e-9.
  abbrev pub compare : NumericOp → F → F → Bool
  compare NumericOp.lt v threshold = f.lt v threshold
  compare NumericOp.le v threshold = f.le v threshold
  compare NumericOp.eq v threshold = f.lt (abs (f.sub v threshold)) tolerance
  compare NumericOp.ge v threshold = f.le threshold v
  compare NumericOp.gt v threshold = f.lt threshold v

  -- The number that a match of the pattern shows.
  abbrev pub read_number : String → String → Option F
  read_number field_pattern output = elim (l.captures field_pattern output) [
    | none ↦ none
    | some none ↦ none
    | some (some cap) ↦ elim (number_text cap) [ none ↦ none | some num_str ↦ l.parse num_str ]
  ]

  unfoldable pub eval_numeric : String → NumericOp → F → String → F
  eval_numeric field_pattern op threshold output =
      score (accepted (Option.map (λ v. compare op v threshold) (read_number field_pattern output)))

  unfoldable pub eval_regex : String → Bool → String → F
  eval_regex pattern_text must_match output =
      score (accepted (Option.map (λ m. is_bool m must_match) (l.is_match pattern_text output)))

  abbrev pub schema_verdict : J → String → Option Bool
  schema_verdict schema output = elim (l.from_str output) [
    | none ↦ none
    | some instance_value ↦
        Option.map (λ is_valid. is_valid instance_value) (l.validator_for schema)
  ]

  unfoldable pub eval_schema : J → String → F
  eval_schema schema output = score (accepted (schema_verdict schema output))

  abbrev pub length_in : Option ℕ → Option ℕ → ℕ → Bool
  length_in min_chars max_chars len =
      none_or min_chars (λ m. leb m len) && none_or max_chars (λ m. leb len m)

  -- The scores of the children, put together.
  abbrev pub combine : CompositeOp → List F → F
  combine CompositeOp.and scores = fold f f.min f.one scores
  combine CompositeOp.or scores = fold f f.max f.zero scores
  combine CompositeOp.not scores = f.sub f.one (get_or scores 0 f.zero)

  unfoldable mutual
    unfolding eval_vocabulary eval_numeric eval_regex eval_schema

    pub eval_sync : ConstraintPredicate F J → String → F
    eval_sync (vocabulary_presence mode terms) output =
        eval_vocabulary mode terms (l.to_lowercase output)
    eval_sync (negative_keyword terms) output =
        eval_vocabulary none_of terms (l.to_lowercase output)
    eval_sync (regex_match pattern_text must_match) output =
        eval_regex pattern_text must_match output
    eval_sync (numeric_threshold field_pattern op value) output =
        eval_numeric field_pattern op value output
    eval_sync (oracle_execution uri suite timeout) output = f.zero
    eval_sync (json_schema schema) output = eval_schema schema output
    eval_sync (length_range min_chars max_chars) output =
        score (length_in min_chars max_chars (char_count output))
    eval_sync (composite op children) output = combine op (eval_children children output)
    eval_sync p output = f.one

    pub eval_children : Children F J → String → List F
    eval_children nil output = []
    eval_children (cons p ps) output = eval_sync p output ∷ eval_children ps output
