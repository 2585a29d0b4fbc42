-- ===== src/Tao/Estimator/Mean.antt =====
-- `TaoMultiplierEstimator` (crates/h2ai-orchestrator/src/tao_loop.rs) against the mean it estimates.
use h2ai_control_plane.Prelude.{
  ℕ, zero, suc, ◌+◌, ◌≤◌, ◌<◌, ◌≡◌, ◌⊎◌, ◌∙◌, refl, ap, true, false, inl, inr, Bool-cases, none,
  some, List, [], ◌∷◌, arith, ltb, leb, ◌==◌, length, take, drop,
}
use h2ai_control_plane.Floats.{Floats, sum_from}
use h2ai_control_plane.Tao.Estimator.{
  TaoMultiplierEstimator, Sample, new_with_alpha, with_warmup, ratio_of, count_ratio, update,
  multiplier, persist_state, updates, ratios, smoothed, smooth_from, estimate,
}

module _ {F : Type 0} (f : Floats F) where
  counts : TaoMultiplierEstimator F → List F → TaoMultiplierEstimator F
  counts self [] = self
  counts self (r ∷ rs) = counts (count_ratio f self r) rs

  updates-counts :
      (self : TaoMultiplierEstimator F) (samples : List (Sample F))
      → updates f self samples ≡ counts self (ratios f samples)
  unfolding updates ratios counts
  updates-counts self [] = refl
  updates-counts self (s ∷ samples) = elim (Bool-cases (f.le s.q_before f.zero)) [
    | inl skipped ↦ rw (update, skipped) (updates-counts self samples)
    | inr counted ↦
        rw (update, counted) (updates-counts (count_ratio f self (ratio_of f s)) samples)
  ]

  record IsAfter (self : TaoMultiplierEstimator F) (n w : ℕ) (e : F) : Type 0 where
    count : self.count ≡ n
    warmup : self.warmup ≡ w
    ema : w ≤ n → self.ema ≡ e

  count_ratio-warm :
      (self : TaoMultiplierEstimator F) (r : F)
      → suc self.count < self.warmup
      → count_ratio f self r
        ≡ record self { count = self.count + 1; warmup_sum = f.add self.warmup_sum r }
  unfolding count_ratio
  count_ratio-warm self r h =
      let e : ltb (self.count + 1) self.warmup ≡ true = ground (arith, h) in rw e refl

  count_ratio-mean :
      (self : TaoMultiplierEstimator F) (r : F)
      → suc self.count ≡ self.warmup
      → count_ratio f self r ≡ record self {
        count = self.count + 1;
        warmup_sum = f.add self.warmup_sum r;
        ema = f.div (f.add self.warmup_sum r) (f.of_nat self.warmup);
      }
  unfolding count_ratio
  count_ratio-mean self r h =
      let e : ltb (self.count + 1) self.warmup ≡ false = ground (arith, h) in
      let e' : self.count + 1 == self.warmup ≡ true = ground (arith, h) in rw (e, e') refl

  count_ratio-smooth :
      (self : TaoMultiplierEstimator F) (r : F)
      → self.warmup ≤ self.count
      → count_ratio f self r
        ≡ record self { count = self.count + 1; ema = smoothed f self.alpha self.ema r }
  unfolding count_ratio
  count_ratio-smooth self r h =
      let e : ltb (self.count + 1) self.warmup ≡ false = ground (arith, h) in
      let e' : self.count + 1 == self.warmup ≡ false = ground (arith, h) in rw (e, e') refl

  -- After warm-up the later ratios are smoothed in.
  counts-smooth :
      (self : TaoMultiplierEstimator F) (rs : List F) (n : ℕ)
      → self.warmup ≤ self.count
      → self.count + length rs ≡ n
      → IsAfter (counts self rs) n self.warmup (smooth_from f self.alpha self.ema rs)
  unfolding counts
  counts-smooth self [] n h e = record { count = omega (arith, e); warmup = refl; ema = λ w. refl }
  counts-smooth self (r ∷ rs) n h e = rw (count_ratio-smooth self r h) (
      counts-smooth (record self { count = self.count + 1; ema = smoothed f self.alpha self.ema r })
        rs n (omega (arith, h)) (omega (arith, e)))

  counts-warm :
      (left : ℕ) (self : TaoMultiplierEstimator F) (rs : List F) (n : ℕ)
      → self.count + suc left ≡ self.warmup
      → self.count + length rs ≡ n
      → IsAfter (counts self rs) n self.warmup (
          smooth_from f self.alpha
            (f.div (sum_from f self.warmup_sum (take (suc left) rs)) (f.of_nat self.warmup))
            (drop (suc left) rs))
  unfolding counts
  counts-warm left self [] n w e = record {
    count = omega (arith, e);
    warmup = refl;
    ema = λ h. absurd (omega (arith, h, w, e));
  }
  counts-warm zero self (r ∷ rs) n w e = rw (count_ratio-mean self r (omega (arith, w))) (
      counts-smooth
        (record self {
          count = self.count + 1;
          warmup_sum = f.add self.warmup_sum r;
          ema = f.div (f.add self.warmup_sum r) (f.of_nat self.warmup);
        })
        rs n (omega (arith, w)) (omega (arith, e)))
  counts-warm (suc left) self (r ∷ rs) n w e = rw (count_ratio-warm self r (omega (arith, w))) (
      counts-warm left
        (record self { count = self.count + 1; warmup_sum = f.add self.warmup_sum r }) rs n
        (omega (arith, w)) (omega (arith, e)))

  -- What the estimator of a run of samples gives: before the end of warm-up, and after it.
  abbrev pub IsEstimate : F → F → ℕ → List (Sample F) → TaoMultiplierEstimator F → Type 0
  IsEstimate prior alpha warmup samples self =
      ((length (ratios f samples) < warmup)
        × ((multiplier f prior self ≡ prior) × (persist_state f self ≡ none)))
      ⊎ ((warmup ≤ length (ratios f samples))
          × ((multiplier f prior self ≡ estimate f alpha warmup (ratios f samples))
              × (persist_state f self
                  ≡ some (estimate f alpha warmup (ratios f samples), length (ratios f samples)))))

  after-IsEstimate :
      (prior alpha : F) (warmup : ℕ) (samples : List (Sample F)) (self : TaoMultiplierEstimator F)
      → IsAfter self (length (ratios f samples)) warmup (estimate f alpha warmup (ratios f samples))
      → IsEstimate prior alpha warmup samples self
  unfolding multiplier persist_state
  after-IsEstimate prior alpha warmup samples self h =
      elim (Bool-cases (ltb (length (ratios f samples)) warmup)) [
        | inl b ↦
            let few : length (ratios f samples) < warmup = ground (arith, b) in
            inl (
              few,
              (
                rw (ltb-true self.count self.warmup (rw (h.count, h.warmup) few)) refl,
                rw (leb-false self.warmup self.count (rw (h.count, h.warmup) few)) refl,
              ),
            )
        | inr b ↦
            let many : warmup ≤ length (ratios f samples) = ground (arith, b) in
            inr (
              many,
              (
                rw (ltb-false self.count self.warmup (rw (h.count, h.warmup) many)) (h.ema many),
                rw (leb-true self.warmup self.count (rw (h.count, h.warmup) many)) (
                    ap (λ p. some p)
                      (ap (λ e. (e, self.count)) (h.ema many)
                        ∙ ap (λ n. (estimate f alpha warmup (ratios f samples), n)) h.count)),
              ),
            )
      ]
    where
      ltb-true : (m n : ℕ) → m < n → ltb m n ≡ true
      ltb-true m n h = ground (arith, h)

      ltb-false : (m n : ℕ) → n ≤ m → ltb m n ≡ false
      ltb-false m n h = ground (arith, h)

      leb-true : (m n : ℕ) → m ≤ n → leb m n ≡ true
      leb-true m n h = ground (arith, h)

      leb-false : (m n : ℕ) → n < m → leb m n ≡ false
      leb-false m n h = ground (arith, h)

  -- After a run of samples, the estimator with a warm-up that is not empty is the prior, and is not stored, as long
  -- as fewer samples than the warm-up have a first score above 0. Else it is the mean of the first `warmup` of
  -- their ratios with the later ones smoothed in, one by one, and this is stored with the number of the ratios.
  pub updates-IsEstimate :
      (prior alpha : F) (warmup : ℕ) (samples : List (Sample F))
      → 0 < warmup
      → IsEstimate prior alpha warmup samples
          (updates f (with_warmup f warmup (new_with_alpha f alpha)) samples)
  unfolding estimate
  updates-IsEstimate prior alpha zero samples h = elim h [ ]
  updates-IsEstimate prior alpha (suc left) samples h =
      rw (updates-counts (with_warmup f (suc left) (new_with_alpha f alpha)) samples) (
        after-IsEstimate prior alpha (suc left) samples _ (
          counts-warm left (with_warmup f (suc left) (new_with_alpha f alpha)) (ratios f samples) _
            (omega arith) (omega arith)))
