-- ===== src/Tao/Estimator.antt =====
-- `TaoMultiplierEstimator` of crates/h2ai-orchestrator/src/tao_loop.rs: how much a turn improves the quality.
-- Reading and writing its JSON is left out.
pub mod Mean
use h2ai_control_plane.Prelude.{
  ℕ, zero, suc, ◌+◌, ◌-◌, ◌≤◌, ◌<◌, ◌≡◌, ◌⊎◌, refl, sym, ap, Bool, true, false, inl, inr,
  Bool-cases, Option, none, some, List, [], ◌∷◌, arith, ltb, leb, ◌==◌, length, take, drop,
  if◌then◌else◌,
}
use h2ai_control_plane.Floats.{Floats, sum_from}

pub record TaoMultiplierEstimator (F : Type 0) : Type 0 where
  pub ema : F
  pub count : ℕ
  pub alpha : F
  pub warmup_sum : F
  pub warmup : ℕ

pub record Sample (F : Type 0) : Type 0 where
  pub q_before : F
  pub q_after : F

module _ {F : Type 0} (f : Floats F) where
  abbrev pub new_with_alpha : F → TaoMultiplierEstimator F
  new_with_alpha alpha = record {
    ema = f.zero;
    count = 0;
    alpha = alpha;
    warmup_sum = f.zero;
    warmup = 20;
  }

  abbrev pub with_alpha : F → TaoMultiplierEstimator F → TaoMultiplierEstimator F
  with_alpha alpha self = record self { alpha = alpha }

  abbrev pub with_warmup : ℕ → TaoMultiplierEstimator F → TaoMultiplierEstimator F
  with_warmup warmup self = record self { warmup = warmup }

  -- `clamp(0.0, 2.0)`
  abbrev pub clamp_ratio : F → F
  clamp_ratio x =
      if f.lt x f.zero then f.zero else if f.lt (f.add f.one f.one) x then f.add f.one f.one else x

  abbrev pub ratio_of : Sample F → F
  ratio_of s = clamp_ratio (f.div s.q_after s.q_before)

  -- `self.ema += self.alpha * (ratio - self.ema)`
  abbrev pub smoothed : F → F → F → F
  smoothed alpha ema ratio = f.add ema (f.mul alpha (f.sub ratio ema))

  -- A ratio is counted: until warm-up ends it is added up, then the mean of the ratios is the first estimate.
  unfoldable pub count_ratio : TaoMultiplierEstimator F → F → TaoMultiplierEstimator F
  count_ratio self ratio =
      let count = self.count + 1 in
      if ltb count self.warmup
      then record self { count = count; warmup_sum = f.add self.warmup_sum ratio }
      else if count == self.warmup
      then record self {
        count = count;
        warmup_sum = f.add self.warmup_sum ratio;
        ema = f.div (f.add self.warmup_sum ratio) (f.of_nat self.warmup);
      }
      else record self { count = count; ema = smoothed self.alpha self.ema ratio }

  unfoldable pub update : TaoMultiplierEstimator F → Sample F → TaoMultiplierEstimator F
  unfolding count_ratio
  update self s = if f.le s.q_before f.zero then self else count_ratio self (ratio_of s)

  -- `prior` is 0.6.
  unfoldable pub multiplier : F → TaoMultiplierEstimator F → F
  multiplier prior self = if ltb self.count self.warmup then prior else self.ema

  unfoldable pub persist_state : TaoMultiplierEstimator F → Option (F × ℕ)
  persist_state self = if leb self.warmup self.count then some (self.ema, self.count) else none

  -- The samples of a run of the program, in their order.
  unfoldable pub updates : TaoMultiplierEstimator F → List (Sample F) → TaoMultiplierEstimator F
  unfolding update
  updates self [] = self
  updates self (s ∷ samples) = updates (update self s) samples

  -- The ratios that count: those of the samples whose first score is above 0.
  unfoldable pub ratios : List (Sample F) → List F
  ratios [] = []
  ratios (s ∷ samples) =
      let rest = ratios samples in if f.le s.q_before f.zero then rest else ratio_of s ∷ rest

  abbrev pub smooth_from : F → F → List F → F
  smooth_from alpha ema [] = ema
  smooth_from alpha ema (r ∷ rs) = smooth_from alpha (smoothed alpha ema r) rs

  -- The mean of the first `warmup` ratios, with the later ones smoothed in.
  unfoldable pub estimate : F → ℕ → List F → F
  estimate alpha warmup rs =
      smooth_from alpha (f.div (sum_from f f.zero (take warmup rs)) (f.of_nat warmup))
        (drop warmup rs)
