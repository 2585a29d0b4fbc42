-- ===== src/Merge/Median.antt =====
-- crates/h2ai-state/src/bft.rs: the proposal with the greatest sum of similarities to all others.
use h2ai_control_plane.Prelude.{
  ℕ, Bool, Option, none, some, List, [], ◌∷◌, map, ltb, ◌==◌, length, get_elem?, if◌then◌else◌,
}
use h2ai_control_plane.Floats.{Floats, sum_from}
use h2ai_control_plane.Proposals.{ProposalEvent}
use h2ai_control_plane.Subtasks.Waves.{range_from}
use h2ai_control_plane.Merge.Krum.{range}

-- The last of the greatest items (`Iterator::max_by`), from a first item on.
abbrev pub max_from {ℓ} : {A : Type ℓ} → (A → A → Bool) → A → List A → A
max_from before x [] = x
max_from before x (y ∷ ys) = max_from before (if before y x then x else y) ys

abbrev pub max_by {ℓ} : {A : Type ℓ} → (A → A → Bool) → List A → Option A
max_by before [] = none
max_by before (x ∷ xs) = some (max_from before x xs)

module _ {F : Type 0} (fl : Floats F) where
  -- An entry of the matrix `sims`.
  abbrev pub sim : (ℕ → ℕ → F) → ℕ → ℕ → F
  sim similarity i j = if i == j then fl.one else if ltb i j then similarity i j else similarity j i

  unfoldable pub total : ℕ → (ℕ → ℕ → F) → ℕ → F
  unfolding range_from
  total n similarity i = sum_from fl fl.zero (map (λ j. sim similarity i j) (range n))

  -- `ConsensusMedian::resolve`
  unfoldable pub resolve : (ℕ → ℕ → F) → List ProposalEvent → Option ProposalEvent
  unfolding total range_from
  resolve similarity [] = none
  resolve similarity (p ∷ []) = some p
  resolve similarity (p ∷ q ∷ ps) =
      let n = length (p ∷ q ∷ ps) in
      elim (max_by (λ i j. fl.lt (total n similarity i) (total n similarity j)) (range n)) [
        | none ↦ none
        | some i ↦ get_elem? (p ∷ q ∷ ps) i
      ]
