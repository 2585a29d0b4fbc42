-- ===== src/Merge/Krum.antt =====
-- crates/h2ai-state/src/krum.rs: the proposal that is nearest to its neighbours. `similarity` of two
-- positions is that of their outputs; a model of embeddings is there or not.
use h2ai_control_plane.Prelude.{
  ℕ, zero, suc, ◌+◌, ◌-◌, ◌*◌, ◌/◌, Bool, true, false, not, ◌&&◌, ◌||◌, Option, none, some, List,
  [], ◌∷◌, map, ltb, leb, ◌==◌, u64, length, is_empty, filter, get_or, get_elem?, take, concat,
  if◌then◌else◌,
}
use mathlib.Core.Option
use h2ai_control_plane.Floats.{Floats, sum_from}
use h2ai_control_plane.Sorting.{sort, min_by}
use h2ai_control_plane.Proposals.{ProposalEvent}
use h2ai_control_plane.Subtasks.Waves.{range_from}

-- `0..n`
abbrev pub range : ℕ → List ℕ
range n = range_from 0 n

unfoldable pub min_quorum : ℕ → ℕ
min_quorum f = u64 (2 * f + 3)

unfoldable pub quorum_satisfied : ℕ → ℕ → Bool
unfolding min_quorum
quorum_satisfied n f = leb (min_quorum f) n

-- `n - f - 2` on `usize`
abbrev pub neighbours : ℕ → ℕ → ℕ
neighbours n f = u64 (u64 (n + (18446744073709551616 - u64 f)) + 18446744073709551614)

-- `remaining.remove(pos)`
abbrev pub remove_at : ℕ → List ℕ → List ℕ
remove_at i [] = []
remove_at zero (x ∷ xs) = xs
remove_at (suc i) (x ∷ xs) = x ∷ remove_at i xs

-- The proposals at positions.
abbrev pub at_positions : List ProposalEvent → List ℕ → List ProposalEvent
at_positions proposals [] = []
at_positions proposals (i ∷ is) =
    let rest = at_positions proposals is in
    elim (get_elem? proposals i) [ none ↦ rest | some p ↦ p ∷ rest ]

module _ {F : Type 0} (fl : Floats F) where
  abbrev pub distance_at : List (List F) → ℕ → ℕ → F
  distance_at distances i j = get_or (get_or distances i []) j fl.zero

  unfoldable pub krum_score_subset : ℕ → List ℕ → List (List F) → ℕ → F
  unfolding sort
  krum_score_subset idx subset distances k = sum_from fl fl.zero (
      take k
        (sort fl.lt (map (λ j. distance_at distances idx j) (filter (λ j. not (j == idx)) subset))))

  unfoldable pub krum_index : List (List F) → ℕ → Option ℕ
  unfolding krum_score_subset range_from
  krum_index distances k =
      let n = length distances in
      Option.map (λ (s : ℕ × F). s.0)
        (min_by (λ a b. fl.lt a.1 b.1)
          (map (λ i. (i, krum_score_subset i (range n) distances k)) (range n)))

  -- An entry of the matrix: each pair is compared once, in the order of the positions.
  abbrev pub entry : (ℕ → ℕ → F) → ℕ → ℕ → F
  entry similarity i j =
      if i == j
      then fl.zero
      else if ltb i j
      then fl.sub fl.one (similarity i j)
      else fl.sub fl.one (similarity j i)

  unfoldable pub semantic_distance_matrix : ℕ → (ℕ → ℕ → F) → List (List F)
  unfolding range_from
  semantic_distance_matrix n similarity =
      map (λ i. map (λ j. entry similarity i j) (range n)) (range n)

  -- The pairs `i < j`.
  abbrev pub pairs : ℕ → List (ℕ × ℕ)
  pairs n = concat (map (λ i. map (λ j. (i, j)) (range_from (suc i) (n - suc i))) (range n))

  unfoldable pub mean_pairwise_distance : ℕ → (ℕ → ℕ → F) → F
  unfolding semantic_distance_matrix range_from
  mean_pairwise_distance n similarity =
      if ltb n 2
      then fl.zero
      else fl.div
          (sum_from fl fl.zero
            (map (λ p. distance_at (semantic_distance_matrix n similarity) p.0 p.1) (pairs n)))
          (fl.of_nat (n * (n - 1) / 2))

  -- Against `MAX_CLUSTER_DIAMETER`, 0.7.
  unfoldable pub cluster_coherent : F → Bool → ℕ → (ℕ → ℕ → F) → Bool
  unfolding mean_pairwise_distance
  cluster_coherent max_cluster_diameter has_model n similarity =
      has_model && fl.lt (mean_pairwise_distance n similarity) max_cluster_diameter

  unfoldable pub krum_select_semantic :
      Bool → (ℕ → ℕ → F) → List ProposalEvent → ℕ → Option ProposalEvent
  unfolding quorum_satisfied krum_index semantic_distance_matrix
  krum_select_semantic has_model similarity proposals f =
      let n = length proposals in
      if not has_model
      then none
      else if is_empty proposals
      then none
      else if f == 0
      then get_elem? proposals 0
      else if not (quorum_satisfied n f)
      then none
      else elim (krum_index (semantic_distance_matrix n similarity) (neighbours n f)) [
        | none ↦ none
        | some i ↦ get_elem? proposals i
      ]

  -- The position with the smallest score among those that remain.
  abbrev pub best_pos : List (List F) → ℕ → List ℕ → Option ℕ
  best_pos distances k remaining =
      min_by
        (λ a b.
          fl.lt (krum_score_subset (get_or remaining a 0) remaining distances k)
            (krum_score_subset (get_or remaining b 0) remaining distances k))
        (range (length remaining))

  -- The `while` loop, with the number of proposals that are still to select; the positions.
  unfoldable pub multi_krum_from : List (List F) → ℕ → ℕ → List ℕ → List ℕ
  unfolding krum_score_subset range_from
  multi_krum_from distances f zero remaining = []
  multi_krum_from distances f (suc m) remaining = elim (ltb (u64 (f + 2)) (length remaining)) [
    | false ↦ []
    | true ↦ elim (best_pos distances (neighbours (length remaining) f) remaining) [
      | none ↦ []
      | some pos ↦ get_or remaining pos 0 ∷ multi_krum_from distances f m (remove_at pos remaining)
    ]
  ]

  unfoldable pub multi_krum_select_semantic :
      Bool → (ℕ → ℕ → F) → List ProposalEvent → ℕ → ℕ → List ProposalEvent
  unfolding quorum_satisfied multi_krum_from semantic_distance_matrix
  multi_krum_select_semantic has_model similarity proposals f m =
      let n = length proposals in
      if not has_model
      then []
      else if is_empty proposals || (m == 0)
      then []
      else if f == 0
      then take m proposals
      else if not (quorum_satisfied n f)
      then []
      else at_positions proposals
          (multi_krum_from (semantic_distance_matrix n similarity) f m (range n))
