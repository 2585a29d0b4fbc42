-- ===== src/Merge/Given.antt =====
-- What the selections of crates/h2ai-state return for proposals that are given: one of them.
use mathlib.Core.List.{Memᴰ}
use h2ai_control_plane.Prelude.{
  ℕ, zero, suc, ◌+◌, ◌*◌, ◌<◌, ◌≡◌, refl, ap, ◌∙◌, Bool, true, false, some, none, Option, List, [],
  ◌∷◌, map, arith, length, length-map, get_elem?, get_or, lt→ltb, u64, ◌==◌, Bool-cases, inl, inr,
}
use h2ai_control_plane.Floats.{Floats}
use h2ai_control_plane.Sorting.{min_from, min_from-Memᴰ, map-Memᴰ}
use h2ai_control_plane.Subtasks.Waves.{range_from}
use h2ai_control_plane.Proposals.{ProposalEvent}
use h2ai_control_plane.Merge.Krum.{
  range, quorum_satisfied, krum_index, krum_select_semantic, krum_score_subset, multi_krum_from,
  multi_krum_select_semantic, semantic_distance_matrix, neighbours, at_positions, best_pos,
  remove_at,
}
use h2ai_control_plane.Merge.Median.{max_from, resolve, total}
use h2ai_control_plane.Merge.Positions.{
  range-Memᴰ, range_from-length, get_elem?-below, get_or-Memᴰ, max_from-Memᴰ,
}

-- The result is one of the proposals.
abbrev pub OneOf : List ProposalEvent → Option ProposalEvent → Type 0
OneOf proposals result = (p : ProposalEvent) × ((result ≡ some p) × Memᴰ p proposals)

module _ {F : Type 0} (fl : Floats F) where
  pub resolve-OneOf :
      (similarity : ℕ → ℕ → F) (proposals : List ProposalEvent)
      → 0 < length proposals
      → OneOf proposals (resolve fl similarity proposals)
  unfolding resolve range_from
  resolve-OneOf similarity [] h = absurd (omega (arith, h))
  resolve-OneOf similarity (p ∷ []) h = (p, (refl, Memᴰ.head refl))
  resolve-OneOf similarity (p ∷ q ∷ ps) h =
      let n = length (p ∷ q ∷ ps) in
      get_elem?-below (p ∷ q ∷ ps)
        (max_from (λ i j. fl.lt (total fl n similarity i) (total fl n similarity j)) 0
          (range_from 1 (suc (length ps))))
        (range-Memᴰ n _ (
          max_from-Memᴰ (λ i j. fl.lt (total fl n similarity i) (total fl n similarity j)) 0
            (range_from 1 (suc (length ps)))))

  krum_index-below :
      (distances : List (List F)) (k : ℕ)
      → 0 < length distances
      → (i : ℕ) × ((krum_index fl distances k ≡ some i) × (i < length distances))
  unfolding krum_index range_from
  krum_index-below [] k h = absurd (omega (arith, h))
  krum_index-below (row ∷ rows) k h =
      let n = suc (length rows) in
      let item : ℕ → ℕ × F = λ i. (i, krum_score_subset fl i (range n) (row ∷ rows) k) in
      let least : ℕ × F =
        min_from (λ a b. fl.lt a.1 b.1) (item 0) (map item (range_from 1 (length rows))) in
      let (i, (m, e)) =
        map-Memᴰ item (range n) least
          (min_from-Memᴰ (λ a b. fl.lt a.1 b.1) (item 0) (map item (range_from 1 (length rows)))) in
      (least.0, (refl, omega (arith, ap (λ s. s.0) e, range-Memᴰ n i m)))

  matrix-length :
      (n : ℕ) (similarity : ℕ → ℕ → F) → length (semantic_distance_matrix fl n similarity) ≡ n
  unfolding semantic_distance_matrix
  matrix-length n similarity = length-map _ (range n) ∙ range_from-length 0 n

  pub krum_select_semantic-OneOf :
      (similarity : ℕ → ℕ → F) (proposals : List ProposalEvent) (f : ℕ)
      → 0 < length proposals
      → quorum_satisfied (length proposals) f ≡ true
      → OneOf proposals (krum_select_semantic fl true similarity proposals f)
  unfolding krum_select_semantic
  krum_select_semantic-OneOf similarity [] f h quorum = absurd (omega (arith, h))
  krum_select_semantic-OneOf similarity (p ∷ ps) f h quorum = elim (Bool-cases (f == 0)) [
    | inl none_bad ↦ (p, (rw (krum_select_semantic, none_bad) refl, Memᴰ.head refl))
    | inr some_bad ↦
        let n = length (p ∷ ps) in
        let (i, (found, below)) =
          krum_index-below (semantic_distance_matrix fl n similarity) (neighbours n f)
            (omega (arith, matrix-length n similarity)) in
        let (q, (there, m)) =
          get_elem?-below (p ∷ ps) i (omega (arith, below, matrix-length n similarity)) in
        let at : Option ℕ → Option ProposalEvent =
          λ o. elim o [ none ↦ none | some j ↦ get_elem? (p ∷ ps) j ] in
        (q, (rw (krum_select_semantic, some_bad, quorum) (ap at found ∙ there), m))
  ]

  best_pos-below :
      (distances : List (List F)) (k : ℕ) (remaining : List ℕ)
      → 0 < length remaining
      → (pos : ℕ) × ((best_pos fl distances k remaining ≡ some pos) × (pos < length remaining))
  unfolding range_from
  best_pos-below distances k [] h = absurd (omega (arith, h))
  best_pos-below distances k (x ∷ xs) h =
      let before : ℕ → ℕ → Bool = λ a b.
        fl.lt (krum_score_subset fl (get_or (x ∷ xs) a 0) (x ∷ xs) distances k)
          (krum_score_subset fl (get_or (x ∷ xs) b 0) (x ∷ xs) distances k) in
      (
        min_from before 0 (range_from 1 (length xs)),
        (refl, range-Memᴰ (suc (length xs)) _ (min_from-Memᴰ before 0 (range_from 1 (length xs)))),
      )

  at_positions-cons :
      (proposals : List ProposalEvent) (i : ℕ) (is : List ℕ)
      → i < length proposals
      → (p : ProposalEvent) × (Memᴰ p (at_positions proposals (i ∷ is)) × Memᴰ p proposals)
  at_positions-cons proposals i is below =
      let (p, (found, m)) = get_elem?-below proposals i below in
      (p, (rw (at_positions, found) (Memᴰ.head refl), m))

  multi_krum_from-first :
      (distances : List (List F)) (f m : ℕ) (remaining : List ℕ)
      → u64 (f + 2) < length remaining
      → (i : ℕ) × ((rest : List ℕ) × ((multi_krum_from fl distances f (suc m) remaining ≡ i ∷ rest)
            × Memᴰ i remaining))
  unfolding multi_krum_from
  multi_krum_from-first distances f m remaining many =
      let (pos, (found, below)) =
        best_pos-below distances (neighbours (length remaining) f) remaining
          (omega (arith, many)) in
      (
        get_or remaining pos 0,
        (
          multi_krum_from fl distances f m (remove_at pos remaining),
          (
            rw (multi_krum_from, lt→ltb (u64 (f + 2)) (length remaining) many, found) refl,
            get_or-Memᴰ pos remaining below,
          ),
        ),
      )

  -- A quorum of proposals has a survivor, which is one of them.
  pub multi_krum_select_semantic-Memᴰ :
      (similarity : ℕ → ℕ → F) (proposals : List ProposalEvent) (f m : ℕ)
      → 0 < length proposals
      → 0 < m
      → 2 * f + 3 < 18446744073709551616
      → quorum_satisfied (length proposals) f ≡ true
      → (p : ProposalEvent) × (Memᴰ p (multi_krum_select_semantic fl true similarity proposals f m)
          × Memᴰ p proposals)
  unfolding multi_krum_select_semantic quorum_satisfied
  multi_krum_select_semantic-Memᴰ similarity [] f m h hm hf quorum = absurd (omega (arith, h))
  multi_krum_select_semantic-Memᴰ similarity (p ∷ ps) f zero h hm hf quorum =
      absurd (omega (arith, hm))
  multi_krum_select_semantic-Memᴰ similarity (p ∷ ps) f (suc m) h hm hf quorum =
      let wanted : (suc m == 0) ≡ false = ground arith in
      elim (Bool-cases (f == 0)) [
        | inl none_bad ↦ (
          p,
          (rw (multi_krum_select_semantic, wanted, none_bad) (Memᴰ.head refl), Memᴰ.head refl),
        )
        | inr some_bad ↦
            let n = length (p ∷ ps) in
            let distances = semantic_distance_matrix fl n similarity in
            let enough : u64 (f + 2) < length (range n) =
              ground (arith, quorum, hf, range_from-length 0 n) in
            let (i, (rest, (found, here))) = multi_krum_from-first distances f m (range n) enough in
            let (q, (selected, given)) = at_positions-cons (p ∷ ps) i rest (range-Memᴰ n i here) in
            (q, (rw (multi_krum_select_semantic, wanted, some_bad, quorum, found) selected, given))
      ]
