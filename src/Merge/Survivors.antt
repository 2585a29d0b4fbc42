-- ===== src/Merge/Survivors.antt =====
-- The `while` loop of `multi_krum_select_semantic` (crates/h2ai-state/src/krum.rs): which positions it selects.
use mathlib.Core.List.{Memᴰ}
use mathlib.Core.Path.{subst}
use h2ai_control_plane.Prelude.{
  ◌*◌, ◌==◌, true, ℕ, zero, suc, ◌+◌, ◌-◌, ◌≤◌, ◌<◌, ◌≡◌, refl, sym, Bool, false, some, List, [],
  ◌∷◌, All, arith, length, get_or, ltb, u64, Bool-cases, inl, inr,
}
use h2ai_control_plane.Floats.{Floats}
use h2ai_control_plane.Sorting.{IsStrictWeak, min_from, min_from-low, min_from-Memᴰ, Memᴰ-All}
use h2ai_control_plane.Members.{Once}
use h2ai_control_plane.Subtasks.Waves.{range_from}
use h2ai_control_plane.Proposals.{ProposalEvent}
use h2ai_control_plane.Merge.Krum.{
  range, remove_at, neighbours, krum_score_subset, best_pos, multi_krum_from, quorum_satisfied,
  semantic_distance_matrix, multi_krum_select_semantic, at_positions,
}
use h2ai_control_plane.Merge.Positions.{
  range-Memᴰ, remove_at-Memᴰ, remove_at-Once, remove_at-length, remove_at-gone, get_or-Memᴰ,
  range_from-length, range_from-Once,
}

module _ {F : Type 0} (fl : Floats F) (distances : List (List F)) (f : ℕ) where
  -- Each position is one of those that remain when it is selected, more than `f + 2` of them, and no other
  -- of them has a smaller sum of the distances to its `n - f - 2` nearest; the rest follow without it.
  -- The selection ends after `m` positions, or when no more than `f + 2` remain.
  pub data IsSelection : ℕ → List ℕ → List ℕ → Type 0 where
    all_selected : {remaining : List ℕ} → IsSelection 0 remaining []
    too_few : {m : ℕ} {remaining : List ℕ} → length remaining ≤ f + 2 → IsSelection m remaining []
    selected :
        {m : ℕ} {remaining others : List ℕ} {i : ℕ} {rest : List ℕ}
        → f + 2 < length remaining
        → Memᴰ i remaining
        → All
            (λ j.
              fl.lt
                (krum_score_subset fl j remaining distances (length remaining - (f + 2)))
                (krum_score_subset fl i remaining distances (length remaining - (f + 2)))
              ≡ false)
            remaining
        → ¬ Memᴰ i others
        → ((j : ℕ) → Memᴰ j others → Memᴰ j remaining)
        → suc (length others) ≡ length remaining
        → IsSelection m others rest
        → IsSelection (suc m) remaining (i ∷ rest)

position : (j : ℕ) (xs : List ℕ) → Memᴰ j xs → (a : ℕ) × ((a < length xs) × (get_or xs a 0 ≡ j))
position j [] m = elim m [ ]
position j (x ∷ xs) (Memᴰ.head e) = (0, (omega arith, sym e))
position j (x ∷ xs) (Memᴰ.tail m) =
    let (a, (lt, e)) = position j xs m in (suc a, (omega (arith, lt), e))

-- The order of the positions by what stands there.
at-IsStrictWeak :
    {F : Type 0} (lt : F → F → Bool) (score : ℕ → F)
    → IsStrictWeak lt
    → IsStrictWeak {A = ℕ} (λ a b. lt (score a) (score b))
at-IsStrictWeak lt score w = record {
  irrefl = λ a. w.irrefl (score a);
  trans = λ a b c. w.trans (score a) (score b) (score c);
  neg_trans = λ a b c. w.neg_trans (score a) (score b) (score c);
}

range_from-All {κ} : (P : ℕ → Type κ) (i n a : ℕ) → All P (range_from i n) → a < n → P (i + a)
unfolding range_from
range_from-All P i zero a h lt = absurd (omega (arith, lt))
range_from-All P i (suc n) zero h lt = rw (plus_zero i) h.0
  where
    plus_zero : (k : ℕ) → k + 0 ≡ k
    plus_zero k = omega arith
range_from-All P i (suc n) (suc a) h lt =
    rw (plus_suc i a) (range_from-All P (suc i) n a h.1 (omega (arith, lt)))
  where
    plus_suc : (k l : ℕ) → k + suc l ≡ suc k + l
    plus_suc k l = omega arith

range-All {κ} : (P : ℕ → Type κ) (n a : ℕ) → All P (range n) → a < n → P a
range-All P n a h lt = rw (zero_plus a) at (range_from-All P 0 n a h lt)
  where
    zero_plus : (k : ℕ) → 0 + k ≡ k
    zero_plus k = omega arith

neighbours-eq : (n f : ℕ) → f + 2 < n → n < 18446744073709551616 → neighbours n f ≡ n - (f + 2)
neighbours-eq n f few small = ground (arith, few, small)

module _ {F : Type 0} (fl : Floats F) (w : IsStrictWeak fl.lt) where
  -- The position that is chosen has a score that no other one is below.
  best_pos-low :
      (distances : List (List F)) (k k' : ℕ) (remaining : List ℕ)
      → k ≡ k'
      → 0 < length remaining
      → (pos : ℕ) × ((best_pos fl distances k remaining ≡ some pos)
          × ((pos < length remaining)
              × All
                  (λ j.
                    fl.lt
                      (krum_score_subset fl j remaining distances k')
                      (krum_score_subset fl (get_or remaining pos 0) remaining distances k')
                    ≡ false)
                  remaining))
  unfolding range_from
  best_pos-low distances k k' [] e lt = absurd (omega (arith, lt))
  best_pos-low distances k k' (x ∷ xs) e lt =
      let score : ℕ → F = λ j. krum_score_subset fl j (x ∷ xs) distances k in
      let at : ℕ → F = λ a. score (get_or (x ∷ xs) a 0) in
      let before : ℕ → ℕ → Bool = λ a b. fl.lt (at a) (at b) in
      let pos = min_from before 0 (range_from 1 (length xs)) in
      let lowest = min_from-low before (at-IsStrictWeak fl.lt at w) 0 (range_from 1 (length xs)) in
      (
        pos,
        (
          refl,
          (
            range-Memᴰ (suc (length xs)) pos (min_from-Memᴰ before 0 (range_from 1 (length xs))),
            subst
                (λ l.
                  All
                    (λ j.
                      fl.lt (krum_score_subset fl j (x ∷ xs) distances l)
                        (krum_score_subset fl (get_or (x ∷ xs) pos 0) (x ∷ xs) distances l)
                      ≡ false)
                    (x ∷ xs))
                e
                (Memᴰ-All (λ j. fl.lt (score j) (at pos) ≡ false) (x ∷ xs)
                  (λ j m.
                    let (a, (below, here)) = position j (x ∷ xs) m in
                    rw here at (
                      range-All (λ b. fl.lt (at b) (at pos) ≡ false) (suc (length xs)) a lowest
                        below))),
          ),
        ),
      )

  -- For scores in a strict weak order, fewer than 2^64 positions, of which none stands twice, and a number of
  -- faults that is as small, the loop selects as `IsSelection` says.
  pub multi_krum_from-IsSelection :
      (distances : List (List F)) (f m : ℕ) (remaining : List ℕ)
      → f + 2 < 18446744073709551616
      → length remaining < 18446744073709551616
      → Once remaining
      → IsSelection fl distances f m remaining (multi_krum_from fl distances f m remaining)
  unfolding multi_krum_from
  multi_krum_from-IsSelection distances f zero remaining hf hn o = all_selected
  multi_krum_from-IsSelection distances f (suc m) remaining hf hn o =
      elim (Bool-cases (ltb (u64 (f + 2)) (length remaining))) [
        | inr few ↦ rw (multi_krum_from, few) (too_few (ground (arith, few, hf)))
        | inl many ↦
            let enough : f + 2 < length remaining = ground (arith, many, hf) in
            let (pos, (found, (below, low))) =
              best_pos-low distances (neighbours (length remaining) f) (length remaining - (f + 2))
                remaining (neighbours-eq (length remaining) f enough hn) (omega (arith, enough)) in
            rw (multi_krum_from, many, found)
              (selected enough (get_or-Memᴰ pos remaining below) low
                (remove_at-gone pos remaining below o) (remove_at-Memᴰ pos remaining)
                (remove_at-length pos remaining below)
                (multi_krum_from-IsSelection distances f m (remove_at pos remaining) hf
                  (omega (arith, hn, remove_at-length pos remaining below))
                  (remove_at-Once pos remaining o)))
      ]

  -- For scores in a strict weak order, fewer than 2^64 proposals that are a quorum for a positive number of faults,
  -- of which the double and 3 is as small, and with a model of embeddings, the survivors are the proposals at the
  -- positions that `IsSelection` says, by the distances between all of them.
  pub multi_krum_select_semantic-IsSelection :
      (similarity : ℕ → ℕ → F) (proposals : List ProposalEvent) (f m : ℕ)
      → 0 < f
      → 2 * f + 3 < 18446744073709551616
      → length proposals < 18446744073709551616
      → quorum_satisfied (length proposals) f ≡ true
      → (positions : List ℕ) × ((multi_krum_select_semantic fl true similarity proposals f m
            ≡ at_positions proposals positions)
          × IsSelection fl
              (semantic_distance_matrix fl (length proposals) similarity)
              f
              m
              (range (length proposals))
              positions)
  unfolding multi_krum_select_semantic quorum_satisfied
  multi_krum_select_semantic-IsSelection similarity [] f m some_faults hf hn quorum =
      absurd (ground (arith, quorum, hf))
  multi_krum_select_semantic-IsSelection similarity (p ∷ ps) f zero some_faults hf hn quorum =
      ([], (refl, all_selected))
  multi_krum_select_semantic-IsSelection similarity (p ∷ ps) f (suc m) some_faults hf hn quorum =
      let n = length (p ∷ ps) in
      let distances = semantic_distance_matrix fl n similarity in
      let wanted : (suc m == 0) ≡ false = ground arith in
      let faults : (f == 0) ≡ false = ground (arith, some_faults) in
      (
        multi_krum_from fl distances f (suc m) (range n),
        (
          rw (multi_krum_select_semantic, wanted, faults, quorum) refl,
          multi_krum_from-IsSelection distances f (suc m) (range n) (omega (arith, hf))
              (omega (arith, hn, range_from-length 0 n)) (range_from-Once 0 n),
        ),
      )
