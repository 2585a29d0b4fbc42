-- ===== src/Constraints/Conflict.antt =====
-- crates/h2ai-constraints/src/conflict.rs: the pairs of constraints that may contradict each other.
pub mod Pairs
pub mod Collect
pub mod Docs
pub mod Inserts
pub mod Reversals
pub mod Gaps
pub mod References
pub mod Theorem
use h2ai_control_plane.Prelude.{
  ℕ, String, Bool, true, false, not, Option, none, some, List, [], ◌∷◌, ◌++◌, map, str_eq,
  str_eq_iff, eq_string, ◌&&◌, ◌≡◌, ◌↔◌, arith, is_empty, filter, any, Eq, if◌then◌else◌,
}
use mathlib.Core.Option
use h2ai_control_plane.HashMap
use h2ai_control_plane.HashMap.{HashMap}
use h2ai_control_plane.HashMap.Multi.{push}
use h2ai_control_plane.HashSet
use h2ai_control_plane.Floats.{Floats}
use h2ai_control_plane.Provisioner.{str_ltb}
use h2ai_control_plane.Constraints.Types
use h2ai_control_plane.Constraints.Types.{
  NumericOp, ConstraintPredicate, Children, ConstraintDoc, numeric_threshold, composite,
  semantic_ordering, nil, cons, CompositeOp,
}

-- An id, what it wants first and what it wants then.
abbrev pub Ordering : Type 0
Ordering = String × (String × String)

-- An id, an operator and a threshold.
abbrev pub Numeric : Type 0 → Type 0
Numeric F = String × (NumericOp × F)

abbrev pub Pair : Type 0
Pair = String × String

-- `ConstraintConflictGraph`, the set of its pairs.
abbrev pub ConstraintConflictGraph : Type 0
ConstraintConflictGraph = List Pair

abbrev pub pair_beq : Pair → Pair → Bool
pair_beq (a, b) (c, d) = str_eq a c && str_eq b d

-- `a <= b` on strings
abbrev pub canonical_pair : String → String → Pair
canonical_pair a b = if not (str_ltb b a) then (a, b) else (b, a)

pub pair_beq_iff : (p q : Pair) → (pair_beq p q ≡ true) ↔ (p ≡ q)
pair_beq_iff (a, b) (c, d) = ground (arith, str_eq_iff a c, str_eq_iff b d)

instance abbrev pub eq_pair : Eq Pair
eq_pair = record { beq = pair_beq; beq_iff = pair_beq_iff }

-- `orderings` and `numerics`, the accumulators of `collect_predicates`.
abbrev pub Collected : Type 0 → Type 0
Collected F = List Ordering × HashMap String (List (Numeric F))

module _ {F J : Type 0} where
  unfoldable mutual
    unfolding push

    pub collect_predicates : String → ConstraintPredicate F J → Collected F → Collected F
    collect_predicates id (semantic_ordering first then_text passes) (orderings, numerics) =
        (orderings ++ (id, (first, then_text)) ∷ [], numerics)
    collect_predicates id (numeric_threshold field_pattern op value) (orderings, numerics) =
        (orderings, push numerics field_pattern (id, (op, value)))
    collect_predicates id (composite CompositeOp.and children) s = collect_children id children s
    collect_predicates id p s = s

    pub collect_children : String → Children F J → Collected F → Collected F
    collect_children id nil s = s
    collect_children id (cons p ps) s = collect_children id ps (collect_predicates id p s)

  unfoldable pub collect_docs : List (ConstraintDoc F J) → Collected F → Collected F
  unfolding collect_predicates
  collect_docs [] s = s
  collect_docs (d ∷ ds) s = collect_docs ds (collect_predicates d.id d.predicate s)

-- The inner loop over the orderings, and the outer one.
unfoldable pub against :
    Ordering → List Ordering → ConstraintConflictGraph → ConstraintConflictGraph
unfolding HashSet.insert
against o [] pairs = pairs
against (id_a, (first_a, then_a)) ((id_b, (first_b, then_b)) ∷ orderings) pairs =
    against (id_a, (first_a, then_a)) orderings
      (if str_eq first_a then_b && str_eq then_a first_b
        then HashSet.insert pairs (canonical_pair id_a id_b)
        else pairs)

unfoldable pub ordering_pairs : List Ordering → ConstraintConflictGraph → ConstraintConflictGraph
unfolding against
ordering_pairs [] pairs = pairs
ordering_pairs (o ∷ orderings) pairs = ordering_pairs orderings (against o orderings pairs)

abbrev pub is_le : NumericOp → Bool
is_le NumericOp.le = true
is_le op = false

abbrev pub is_ge : NumericOp → Bool
is_ge NumericOp.ge = true
is_ge op = false

module _ {F : Type 0} (f : Floats F) where
  -- The loop over `ges`, the one over `les` and the one over the fields.
  unfoldable pub over_ges :
      String → F → List (Numeric F) → ConstraintConflictGraph → ConstraintConflictGraph
  unfolding HashSet.insert
  over_ges id_le v_le [] pairs = pairs
  over_ges id_le v_le ((id_ge, (op, v_ge)) ∷ ges) pairs =
      over_ges id_le v_le ges
        (if f.lt v_le v_ge then HashSet.insert pairs (canonical_pair id_le id_ge) else pairs)

  unfoldable pub over_les :
      List (Numeric F) → List (Numeric F) → ConstraintConflictGraph → ConstraintConflictGraph
  unfolding over_ges
  over_les [] ges pairs = pairs
  over_les ((id_le, (op, v_le)) ∷ les) ges pairs = over_les les ges (over_ges id_le v_le ges pairs)

  unfoldable pub numeric_pairs :
      List (List (Numeric F)) → ConstraintConflictGraph → ConstraintConflictGraph
  unfolding over_les
  numeric_pairs [] pairs = pairs
  numeric_pairs (entries ∷ rest) pairs =
      numeric_pairs rest
        (over_les (filter (λ e. is_le e.1.0) entries) (filter (λ e. is_ge e.1.0) entries) pairs)

-- The pairs of `related_to`.
unfoldable pub relate : String → List String → ConstraintConflictGraph → ConstraintConflictGraph
unfolding HashSet.insert
relate id [] pairs = pairs
relate id (related_id ∷ more) pairs =
    relate id more (HashSet.insert pairs (canonical_pair id related_id))

module _ {F J : Type 0} where
  unfoldable pub related_pairs :
      List (ConstraintDoc F J) → ConstraintConflictGraph → ConstraintConflictGraph
  unfolding relate
  related_pairs [] pairs = pairs
  related_pairs (d ∷ docs) pairs = related_pairs docs (relate d.id d.related_to pairs)

module _ {F J : Type 0} (f : Floats F) where
  unfoldable pub build : List (ConstraintDoc F J) → ConstraintConflictGraph
  unfolding collect_docs ordering_pairs numeric_pairs related_pairs
  build docs =
      let (orderings, numerics) = collect_docs docs ([], []) in
      related_pairs docs (numeric_pairs f (HashMap.values numerics) (ordering_pairs orderings []))

unfoldable pub are_conflicting : ConstraintConflictGraph → String → String → Bool
unfolding HashSet.contains
are_conflicting g id_a id_b = HashSet.contains g (canonical_pair id_a id_b)

unfoldable pub conflicts_for : ConstraintConflictGraph → String → List String
conflicts_for [] id = []
conflicts_for ((a, b) ∷ g) id =
    let rest = conflicts_for g id in
    if str_eq a id then b ∷ rest else if str_eq b id then a ∷ rest else rest
