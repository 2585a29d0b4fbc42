-- ===== src/Constraints/Types.antt =====
-- crates/h2ai-constraints/src/types.rs. `F` is `f64`, `J` a JSON value (`serde_json::Value`).
use h2ai_control_plane.Prelude.{ℕ, String, Bool, Option, List}

pub data ConstraintTier : Type 0 where
  static light heavy : ConstraintTier

pub data VocabularyMode : Type 0 where
  all_of any_of none_of : VocabularyMode

pub data NumericOp : Type 0 where
  lt le eq ge gt : NumericOp

pub data CompositeOp : Type 0 where
  and or not : CompositeOp

pub data PredicateKind : Type 0 where
  static llm_judge oracle : PredicateKind

module _ (F J : Type 0) where
  mutual
    pub data ConstraintPredicate : Type 0 where
      vocabulary_presence : (mode : VocabularyMode) (terms : List String) → ConstraintPredicate
      negative_keyword : (terms : List String) → ConstraintPredicate
      regex_match : (pattern_text : String) (must_match : Bool) → ConstraintPredicate
      numeric_threshold :
          (field_pattern : String) (op : NumericOp) (value : F) → ConstraintPredicate
      llm_judge : (rubric : String) → ConstraintPredicate
      composite : (op : CompositeOp) (children : Children) → ConstraintPredicate
      oracle_execution :
          (test_runner_uri test_suite : String) (timeout_secs : ℕ) → ConstraintPredicate
      json_schema : (schema : J) → ConstraintPredicate
      length_range : (min_chars max_chars : Option ℕ) → ConstraintPredicate
      semantic_presence : (concept : String) (passes : ℕ) → ConstraintPredicate
      semantic_ordering : (first then_text : String) (passes : ℕ) → ConstraintPredicate
      semantic_exclusion : (excluded : String) (passes : ℕ) → ConstraintPredicate

    -- `Vec<ConstraintPredicate>`
    pub data Children : Type 0 where
      nil : Children
      cons : ConstraintPredicate → Children → Children

  pub data ConstraintSeverity : Type 0 where
    hard : (threshold : F) → ConstraintSeverity
    soft : (weight : F) → ConstraintSeverity
    advisory : ConstraintSeverity

  pub record RepairProvenance : Type 0 where
    pub triggered_by_task : String
    pub triggered_at_ms : ℕ  -- u64
    pub instability_score : F
    pub original_check_index : ℕ
    pub original_check_text : String
    pub simplified_check_text : String
    pub validation_consistency : F

  pub record ConstraintDoc : Type 0 where
    pub id : String
    pub source_file : String
    pub description : String
    pub severity : ConstraintSeverity
    pub predicate : ConstraintPredicate
    pub remediation_hint : Option String
    pub domains : List String
    pub mandatory_for_tags : List String
    pub related_to : List String
    pub binary_checks : List String
    pub version : ℕ  -- u64
    pub repair_provenance : Option RepairProvenance
    pub pass_criteria : Option String

  pub record ComplianceResult : Type 0 where
    pub constraint_id : String
    pub score : F
    pub severity : ConstraintSeverity
    pub remediation_hint : Option String
    pub constraint_description : String
    pub verifier_reason : Option String
    pub check_verdicts : List Bool
    pub criteria_pass : Option String
    pub check_reasons : List String

  pub record ConstraintMeta : Type 0 where
    pub id : String
    pub summary : String
    pub severity : ConstraintSeverity
    pub predicate_kind : PredicateKind
    pub domains : List String
    pub mandatory_for_tags : List String
    pub related_to : List String
    pub payload_version : String
    pub inline_predicate : Option ConstraintPredicate
    pub source : Option String
    pub last_updated_ms : Option ℕ
