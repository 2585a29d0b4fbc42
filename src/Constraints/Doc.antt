-- ===== src/Constraints/Doc.antt =====
-- crates/h2ai-constraints/src/types.rs: the tier and the vocabulary of a predicate, the documents made
-- in code, and what is read of compliance results.
use Prim.Native.String.{◌++◌}
use h2ai_control_plane.Prelude.{
  ℕ, ◌+◌, String, Bool, true, ◌&&◌, Option, none, some, List, [], ◌∷◌, map, u32, ltb, str_eq,
  length, filter, eq_string, if◌then◌else◌,
}
use h2ai_control_plane.HashSet
use h2ai_control_plane.Floats.{Floats, sum_from}
use h2ai_control_plane.Constraints.Types.{
  ConstraintTier, PredicateKind, ConstraintMeta, ConstraintPredicate, Children, ConstraintDoc,
  ComplianceResult, vocabulary_presence, negative_keyword, llm_judge, composite, oracle_execution,
  semantic_presence, semantic_ordering, semantic_exclusion, nil, cons, hard, soft, static, light,
  heavy, all_of, any_of, none_of,
}

-- `#[derive(Ord)]`
abbrev pub rank : ConstraintTier → ℕ
rank static = 0
rank light = 1
rank heavy = 2

-- `iter().max()` on tiers; of equal ones, either.
abbrev pub max_tier : Option ConstraintTier → ConstraintTier → ConstraintTier
max_tier none t = t
max_tier (some u) t = if ltb (rank t) (rank u) then u else t

abbrev pub or_static : Option ConstraintTier → ConstraintTier
or_static none = static
or_static (some t) = t

abbrev pub kind_of : ConstraintTier → PredicateKind
kind_of heavy = PredicateKind.oracle
kind_of light = PredicateKind.llm_judge
kind_of static = PredicateKind.static

module _ {F J : Type 0} where
  unfoldable mutual
    pub predicate_tier : ConstraintPredicate F J → ConstraintTier
    predicate_tier (oracle_execution uri suite timeout) = heavy
    predicate_tier (llm_judge rubric) = light
    predicate_tier (semantic_presence concept passes) = light
    predicate_tier (semantic_ordering first then_text passes) = light
    predicate_tier (semantic_exclusion excluded passes) = light
    predicate_tier (composite op children) = or_static (children_tier children)
    predicate_tier p = static

    pub children_tier : Children F J → Option ConstraintTier
    children_tier nil = none
    children_tier (cons p ps) = some (max_tier (children_tier ps) (predicate_tier p))

  -- The terms that a predicate wants, in a set, and those that it forbids.
  unfoldable mutual
    pub positive_vocabulary : ConstraintPredicate F J → List String
    positive_vocabulary (vocabulary_presence all_of terms) = HashSet.extend [] terms
    positive_vocabulary (vocabulary_presence any_of terms) = HashSet.extend [] terms
    positive_vocabulary (composite op children) = positive_children children
    positive_vocabulary p = []

    pub positive_children : Children F J → List String
    positive_children nil = []
    positive_children (cons p ps) = HashSet.extend (positive_vocabulary p) (positive_children ps)

  unfoldable mutual
    pub negative_vocabulary : ConstraintPredicate F J → List String
    negative_vocabulary (vocabulary_presence none_of terms) = HashSet.extend [] terms
    negative_vocabulary (negative_keyword terms) = HashSet.extend [] terms
    negative_vocabulary (composite op children) = negative_children children
    negative_vocabulary p = []

    pub negative_children : Children F J → List String
    negative_children nil = []
    negative_children (cons p ps) = HashSet.extend (negative_vocabulary p) (negative_children ps)

  unfoldable pub vocabulary : ConstraintDoc F J → List String
  unfolding positive_vocabulary negative_vocabulary
  vocabulary d = HashSet.extend (positive_vocabulary d.predicate) (negative_vocabulary d.predicate)

  unfoldable pub from_doc : ConstraintDoc F J → ConstraintMeta F J
  unfolding predicate_tier
  from_doc d = record {
    id = d.id;
    summary =
        if str_eq d.description ""
        then "Constraint " ++ d.id ++ ": enforce compliance"
        else d.description;
    severity = d.severity;
    predicate_kind = kind_of (predicate_tier d.predicate);
    domains = d.domains;
    mandatory_for_tags = d.mandatory_for_tags;
    related_to = d.related_to;
    payload_version = "v1";
    inline_predicate = elim (kind_of (predicate_tier d.predicate)) [
      | PredicateKind.static ↦ some d.predicate
      | _ ↦ none
    ];
    source = some d.source_file;
    last_updated_ms = none;
  }

module _ {F J : Type 0} where
  -- `len() as u32`, summed.
  abbrev pub total_verdicts : ℕ → List (ComplianceResult F J) → ℕ
  total_verdicts n [] = n
  total_verdicts n (r ∷ rs) = total_verdicts (u32 (n + u32 (length r.check_verdicts))) rs

  abbrev pub passed_verdicts : List (ComplianceResult F J) → ℕ
  passed_verdicts [] = 0
  passed_verdicts (r ∷ rs) = length (filter (λ v. v) r.check_verdicts) + passed_verdicts rs

  unfoldable pub count_check_verdicts : List (ComplianceResult F J) → ℕ × ℕ
  count_check_verdicts results = (u32 (passed_verdicts results), total_verdicts 0 results)

module _ {F : Type 0} (f : Floats F) where
  abbrev pub weigh : F × F → List (F × F) → F × F
  weigh (ws, tw) [] = (ws, tw)
  weigh (ws, tw) ((w, score) ∷ rest) = weigh (f.mul_add w score ws, f.add tw w) rest

  abbrev pub weighted_mean : F × F → F
  weighted_mean (ws, tw) = if f.le tw f.zero && f.le f.zero tw then f.one else f.div ws tw

module _ {F J : Type 0} (f : Floats F) where
  -- `score >= threshold`
  unfoldable pub hard_passes : ComplianceResult F J → Bool
  hard_passes r = elim r.severity [ hard threshold ↦ f.le threshold r.score | _ ↦ true ]

  unfoldable pub hard_passes_scaled : F → ComplianceResult F J → Bool
  hard_passes_scaled scale r = elim r.severity [
    | hard threshold ↦ f.le (f.mul threshold scale) r.score
    | _ ↦ true
  ]

  unfoldable pub fractional_compliance_score : List (ComplianceResult F J) → F
  fractional_compliance_score [] = f.zero
  fractional_compliance_score (r ∷ rs) =
      f.div (sum_from f f.zero (map (λ s. s.score) (r ∷ rs))) (f.of_nat (length (r ∷ rs)))

  -- The weights and the scores of the soft results.
  abbrev pub soft_scores : List (ComplianceResult F J) → List (F × F)
  soft_scores [] = []
  soft_scores (r ∷ rs) =
      let rest = soft_scores rs in elim r.severity [ soft w ↦ (w, r.score) ∷ rest | _ ↦ rest ]

  unfoldable pub aggregate_compliance_score : List (ComplianceResult F J) → F
  aggregate_compliance_score results = elim (soft_scores results) [
    | [] ↦ f.one
    | s ∷ more ↦ weighted_mean f (weigh f (f.zero, f.zero) (s ∷ more))
  ]
