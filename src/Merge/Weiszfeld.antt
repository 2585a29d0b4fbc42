-- ===== src/Merge/Weiszfeld.antt =====
-- crates/h2ai-state/src/weiszfeld.rs: the embedding that is nearest to the geometric median. The
-- embeddings' numbers are widened to `f64`; `none` is the panic of an index out of bounds.
use h2ai_control_plane.Prelude.{
  ℕ, zero, suc, true, false, Option, none, some, List, [], ◌∷◌, map, length, replicate, is_empty,
}
use mathlib.Core.Option
use h2ai_control_plane.Floats.{Floats, sum_from}
use h2ai_control_plane.Sorting.{min_by}

-- Square roots, and the constants 1e-8 and 1e-12.
pub record Roots (F : Type 0) : Type 0 where
  pub root : F → F
  pub least_distance : F
  pub least_norm : F

module _ {F : Type 0} (fl : Floats F) (r : Roots F) where
  -- `median[i] += w * v` for each entry of an embedding; an embedding that is longer is out of bounds.
  abbrev pub add_to : (F → F) → List F → List F → Option (List F)
  add_to weigh median [] = some median
  add_to weigh [] (v ∷ emb) = none
  add_to weigh (m ∷ median) (v ∷ emb) =
      Option.map (λ rest. fl.add m (weigh v) ∷ rest) (add_to weigh median emb)

  unfoldable pub add_all : List F → List (List F) → Option (List F)
  add_all median [] = some median
  add_all median (emb ∷ embeddings) = elim (add_to (λ v. v) median emb) [
    | none ↦ none
    | some median' ↦ add_all median' embeddings
  ]

  abbrev pub squares : List F → List F → List F
  squares [] median = []
  squares (a ∷ emb) [] = []
  squares (a ∷ emb) (b ∷ median) = fl.mul (fl.sub a b) (fl.sub a b) ∷ squares emb median

  -- The distance of an embedding to the median, at least 1e-8.
  abbrev pub distance : List F → List F → F
  distance median emb = fl.max (r.root (sum_from fl fl.zero (squares emb median))) r.least_distance

  unfoldable pub add_weighted : List F → List (List F) → List F → Option (List F)
  add_weighted median [] dists = some median
  add_weighted median (emb ∷ embeddings) [] = some median
  add_weighted median (emb ∷ embeddings) (dist ∷ dists) =
      elim (add_to (λ v. fl.mul (fl.div fl.one dist) v) median emb) [
        | none ↦ none
        | some median' ↦ add_weighted median' embeddings dists
      ]

  -- The iterations that are left.
  unfoldable pub iterate : ℕ → List (List F) → ℕ → List F → Option (List F)
  unfolding add_weighted
  iterate zero embeddings dim median = some median
  iterate (suc n) embeddings dim median =
      let dists = map (distance median) embeddings in
      let weight_sum = sum_from fl fl.zero (map (λ d. fl.div fl.one d) dists) in
      elim (fl.lt weight_sum r.least_norm) [
        | true ↦ some median
        | false ↦ elim (add_weighted (replicate dim fl.zero) embeddings dists) [
          | none ↦ none
          | some new_median ↦ iterate n embeddings dim (map (λ v. fl.div v weight_sum) new_median)
        ]
      ]

  abbrev pub dot : List F → List F → List F
  dot [] median = []
  dot (a ∷ emb) [] = []
  dot (a ∷ emb) (b ∷ median) = fl.mul a b ∷ dot emb median

  abbrev pub norm : List F → F
  norm emb = fl.max (r.root (sum_from fl fl.zero (map (λ v. fl.mul v v) emb))) r.least_norm

  abbrev pub cosine_dist : List F → List F → F
  cosine_dist median emb =
      fl.sub fl.one
        (fl.div (sum_from fl fl.zero (dot emb median)) (fl.mul (norm emb) (norm median)))

  -- `enumerate`, with the distances.
  abbrev pub numbered : ℕ → List F → List (List F) → List (ℕ × F)
  numbered i median [] = []
  numbered i median (emb ∷ embeddings) =
      (i, cosine_dist median emb) ∷ numbered (suc i) median embeddings

  abbrev pub nearest : List (List F) → List F → ℕ
  nearest embeddings median = elim (min_by (λ a b. fl.lt a.1 b.1) (numbered 0 median embeddings)) [
    | none ↦ 0
    | some s ↦ s.0
  ]

  unfoldable pub weiszfeld_select : List (List F) → ℕ → Option ℕ
  unfolding add_all iterate
  weiszfeld_select [] max_iter = some 0
  weiszfeld_select (emb ∷ []) max_iter = some 0
  weiszfeld_select (emb ∷ emb' ∷ more) max_iter =
      let embeddings = emb ∷ emb' ∷ more in
      let dim = length emb in
      elim (is_empty emb) [
        | true ↦ some 0
        | false ↦ elim (add_all (replicate dim fl.zero) embeddings) [
          | none ↦ none
          | some sums ↦ Option.map (nearest embeddings) (
              iterate max_iter embeddings dim
                (map (λ v. fl.div v (fl.of_nat (length embeddings))) sums))
        ]
      ]
