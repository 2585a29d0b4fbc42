-- ===== src/Merge/Dimensions.antt =====
-- crates/h2ai-state/src/weiszfeld.rs on embeddings of one length: no index is out of bounds, and the
-- embedding that is chosen is one of those given.
use mathlib.Core.Path.{subst}
use h2ai_control_plane.Prelude.{
  ℕ, zero, suc, ◌+◌, ◌≤◌, ◌<◌, ◌≡◌, refl, sym, ap, Bool, some, List, [], ◌∷◌, map, All, All-map,
  arith, length, replicate, is_empty, Bool-cases, inl, inr,
}
use h2ai_control_plane.Floats.{Floats, sum_from}
use h2ai_control_plane.Sorting.{min_from, min_from-Memᴰ, All-Memᴰ}
use h2ai_control_plane.Merge.Weiszfeld.{
  Roots, add_to, add_all, add_weighted, iterate, distance, numbered, nearest, weiszfeld_select,
  cosine_dist,
}

length-replicate {ℓ} : {A : Type ℓ} (n : ℕ) (a : A) → length (replicate n a) ≡ n
length-replicate zero a = refl
length-replicate (suc n) a = ap suc (length-replicate n a)

module _ {F : Type 0} (fl : Floats F) (r : Roots F) where
  -- No embedding is longer than the median.
  abbrev Fits : ℕ → List (List F) → Type 0
  Fits dim embeddings = All (λ emb. length emb ≤ dim) embeddings

  add_to-length :
      (weigh : F → F) (median emb : List F)
      → length emb ≤ length median
      → (sums : List F) × ((add_to fl r weigh median emb ≡ some sums)
          × (length sums ≡ length median))
  add_to-length weigh median [] h = (median, (refl, refl))
  add_to-length weigh [] (v ∷ emb) h = absurd (omega (arith, h))
  add_to-length weigh (m ∷ median) (v ∷ emb) h =
      let (rest, (found, same)) = add_to-length weigh median emb (omega (arith, h)) in
      (fl.add m (weigh v) ∷ rest, (rw found refl, ap suc same))

  add_all-length :
      (median : List F) (embeddings : List (List F))
      → Fits (length median) embeddings
      → (sums : List F) × (add_all fl r median embeddings ≡ some sums)
  unfolding add_all
  add_all-length median [] h = (median, refl)
  add_all-length median (emb ∷ embeddings) h =
      let (sums, (found, same)) = add_to-length (λ v. v) median emb h.0 in
      let (last, found') = add_all-length sums embeddings (rw same h.1) in
      (last, rw (add_all, found) found')

  add_weighted-length :
      (median : List F) (embeddings : List (List F)) (dists : List F)
      → Fits (length median) embeddings
      → (sums : List F) × (add_weighted fl r median embeddings dists ≡ some sums)
  unfolding add_weighted
  add_weighted-length median [] dists h = (median, refl)
  add_weighted-length median (emb ∷ embeddings) [] h = (median, refl)
  add_weighted-length median (emb ∷ embeddings) (dist ∷ dists) h =
      let (sums, (found, same)) =
        add_to-length (λ v. fl.mul (fl.div fl.one dist) v) median emb h.0 in
      let (last, found') = add_weighted-length sums embeddings dists (rw same h.1) in
      (last, rw (add_weighted, found) found')

  iterate-some :
      (n : ℕ) (embeddings : List (List F)) (dim : ℕ) (median : List F)
      → Fits dim embeddings
      → (m : List F) × (iterate fl r n embeddings dim median ≡ some m)
  unfolding iterate
  iterate-some zero embeddings dim median h = (median, refl)
  iterate-some (suc n) embeddings dim median h =
      let dists = map (distance fl r median) embeddings in
      let weight_sum = sum_from fl fl.zero (map (λ d. fl.div fl.one d) dists) in
      elim (Bool-cases (fl.lt weight_sum r.least_norm)) [
        | inl close ↦ (median, rw (iterate, close) refl)
        | inr far ↦
            let (sums, found) =
              add_weighted-length (replicate dim fl.zero) embeddings dists
                (rw (length-replicate dim fl.zero) h) in
            let (last, found') =
              iterate-some n embeddings dim (map (λ v. fl.div v weight_sum) sums) h in
            (last, rw (iterate, far, found) found')
      ]

  numbered-All :
      (i : ℕ) (median : List F) (embeddings : List (List F))
      → All (λ (s : ℕ × F). s.0 < i + length embeddings) (numbered fl r i median embeddings)
  numbered-All i median [] = tt
  numbered-All i median (emb ∷ embeddings) = (
    omega arith,
    subst (λ n. All (λ s. s.0 < n) (numbered fl r (suc i) median embeddings))
        (sym (shift i (length embeddings))) (numbered-All (suc i) median embeddings),
  )
    where
      shift : (k l : ℕ) → k + suc l ≡ suc k + l
      shift k l = omega arith

  nearest-below :
      (emb : List F) (embeddings : List (List F)) (median : List F)
      → nearest fl r (emb ∷ embeddings) median < suc (length embeddings)
  nearest-below emb embeddings median =
      let before : (ℕ × F) → (ℕ × F) → Bool = λ a b. fl.lt a.1 b.1 in
      let first : ℕ × F = (0, cosine_dist fl r median emb) in
      let rest = numbered fl r 1 median embeddings in
      All-Memᴰ (λ s. s.0 < suc (length embeddings)) (first ∷ rest) (min_from before first rest)
        (
          omega arith,
          subst (λ n. All (λ s. s.0 < n) rest) (one_plus (length embeddings))
              (numbered-All 1 median embeddings),
        )
        (min_from-Memᴰ before first rest)
    where
      one_plus : (l : ℕ) → 1 + l ≡ suc l
      one_plus l = omega arith

  -- With embeddings of one length there is no panic, and the choice is one of them.
  pub weiszfeld_select-below :
      (embeddings : List (List F)) (max_iter dim : ℕ)
      → 0 < length embeddings
      → All (λ emb. length emb ≡ dim) embeddings
      → (idx : ℕ) × ((weiszfeld_select fl r embeddings max_iter ≡ some idx)
          × (idx < length embeddings))
  unfolding weiszfeld_select
  weiszfeld_select-below [] max_iter dim some_given same = absurd (omega (arith, some_given))
  weiszfeld_select-below (emb ∷ []) max_iter dim some_given same = (0, (refl, omega arith))
  weiszfeld_select-below (emb ∷ emb' ∷ more) max_iter dim some_given same =
      let embeddings = emb ∷ emb' ∷ more in
      let fits : Fits (length emb) embeddings =
        All-map (λ e. length e ≡ dim) (λ e. length e ≤ length emb) (λ e h. omega (arith, h, same.0))
          embeddings same in
      elim (Bool-cases (is_empty emb)) [
        | inl empty ↦ (0, (rw (weiszfeld_select, empty) refl, omega arith))
        | inr filled ↦
            let (sums, found) =
              add_all-length (replicate (length emb) fl.zero) embeddings (
                subst (λ n. Fits n embeddings) (sym (length-replicate (length emb) fl.zero))
                  fits) in
            let (median, found') =
              iterate-some max_iter embeddings (length emb)
                (map (λ v. fl.div v (fl.of_nat (length embeddings))) sums) fits in
            (
              nearest fl r embeddings median,
              (
                rw (weiszfeld_select, filled, found, found') refl,
                nearest-below emb (emb' ∷ more) median,
              ),
            )
      ]
