-- ===== src/Counting.antt =====
-- Counting and summing over lists of indices below a bound.
use h2ai_control_plane.Prelude.{
  ℕ, zero, suc, ◌+◌, ◌*◌, ◌≤◌, ◌<◌, ◌≡◌, refl, sym, ap, List, [], ◌∷◌, ◌++◌, arith, ◌==◌, ==_iff,
  ltb, length, All, if◌then◌else◌, Bool-cases, inl, inr,
}

abbrev pub count : ℕ → List ℕ → ℕ
count i [] = 0
count i (x ∷ xs) = let rest = count i xs in if x == i then suc rest else rest

pub count-append : (i : ℕ) (xs ys : List ℕ) → count i (xs ++ ys) ≡ count i xs + count i ys
count-append i [] ys = omega arith
count-append i (x ∷ xs) ys = ground (arith, count-append i xs ys)

-- The sum over the elements of a list, and over the numbers below a bound.
abbrev pub sum_over : List ℕ → (ℕ → ℕ) → ℕ
sum_over [] f = 0
sum_over (x ∷ xs) f = f x + sum_over xs f

abbrev pub sum_below : ℕ → (ℕ → ℕ) → ℕ
sum_below zero f = 0
sum_below (suc n) f = sum_below n f + f n

pub sum_over-append :
    (xs ys : List ℕ) (f : ℕ → ℕ) → sum_over (xs ++ ys) f ≡ sum_over xs f + sum_over ys f
sum_over-append [] ys f = omega arith
sum_over-append (x ∷ xs) ys f = omega (arith, sum_over-append xs ys f)

pub sum_below_mono :
    (n : ℕ) (f g : ℕ → ℕ) → ((j : ℕ) → j < n → f j ≤ g j) → sum_below n f ≤ sum_below n g
sum_below_mono zero f g h = omega arith
sum_below_mono (suc n) f g h =
    omega (arith, sum_below_mono n f g (λ j lt. h j (omega arith)), h n (omega arith))

pub sum_below-congr :
    (n : ℕ) (f g : ℕ → ℕ) → ((j : ℕ) → j < n → f j ≡ g j) → sum_below n f ≡ sum_below n g
sum_below-congr zero f g h = refl
sum_below-congr (suc n) f g h =
    omega (arith, sum_below-congr n f g (λ j lt. h j (omega arith)), h n (omega arith))

mul-of_suc : (c k : ℕ) → suc c * k ≡ c * k + k
mul-of_suc c k = omega arith

sum_below_zero : (n : ℕ) (f : ℕ → ℕ) → sum_below n (λ j. 0 * f j) ≡ 0
sum_below_zero zero f = refl
sum_below_zero (suc n) f = omega (arith, sum_below_zero n f)

-- One more copy of `x` adds `f x`, once.
sum_below-cons :
    (n x : ℕ) (xs : List ℕ) (f : ℕ → ℕ)
    → sum_below n (λ j. count j (x ∷ xs) * f j)
      ≡ sum_below n (λ j. count j xs * f j) + (if ltb x n then f x else 0)
sum_below-cons zero x xs f = ground arith
sum_below-cons (suc n) x xs f = elim (Bool-cases (x == n)) [
  | inl e ↦
      let same : x ≡ n = (==_iff x n).0 e in
      ground (arith, sum_below-cons n x xs f, ap f same, mul-of_suc (count n xs) (f n))
  | inr e ↦ ground (arith, sum_below-cons n x xs f)
]

pub sum_over-eq-sum_below :
    (n : ℕ) (xs : List ℕ) (f : ℕ → ℕ)
    → All (λ x. x < n) xs
    → sum_over xs f ≡ sum_below n (λ j. count j xs * f j)
sum_over-eq-sum_below n [] f h = sym (sum_below_zero n f)
sum_over-eq-sum_below n (x ∷ xs) f h =
    ground (arith, sum_over-eq-sum_below n xs f, sum_below-cons n x xs f)

below : (n x : ℕ) (xs : List ℕ) → (n ≤ x → count x (x ∷ xs) ≡ 0) → x < n
below n x xs h = elim (Bool-cases (ltb x n)) [
  | inl e ↦ ground arith
  | inr e ↦ absurd (ground (arith, h (ground arith)))
]

pub All-of_count : (n : ℕ) (xs : List ℕ) → ((j : ℕ) → n ≤ j → count j xs ≡ 0) → All (λ x. x < n) xs
All-of_count n [] h = tt
All-of_count n (x ∷ xs) h = (below n x xs (h x), All-of_count n xs (λ j le. ground (arith, h j le)))

-- A list of indices below `n`, none twice.
pub record Distinct (n : ℕ) (xs : List ℕ) : Type 0 where
  pub once : (j : ℕ) → count j xs ≤ 1
  pub bounded : (j : ℕ) → n ≤ j → count j xs ≡ 0

pub at_most_once : (c k : ℕ) → c ≤ 1 → c * k ≤ k
at_most_once zero k h = omega arith
at_most_once (suc zero) k h = omega arith
at_most_once (suc (suc c)) k h = absurd (omega arith)

pub sum_over-le-sum_below :
    (n : ℕ) (xs : List ℕ) (f : ℕ → ℕ) → Distinct n xs → sum_over xs f ≤ sum_below n f
sum_over-le-sum_below n xs f d = omega (
  arith,
  sum_over-eq-sum_below n xs f (All-of_count n xs d.bounded),
  sum_below_mono n (λ j. count j xs * f j) f (λ j lt. at_most_once (count j xs) (f j) (d.once j)),
)

sum_over_ones : (xs : List ℕ) → sum_over xs (λ _. 1) ≡ length xs
sum_over_ones [] = refl
sum_over_ones (x ∷ xs) = omega (arith, sum_over_ones xs)

sum_below_ones : (n : ℕ) → sum_below n (λ _. 1) ≡ n
sum_below_ones zero = refl
sum_below_ones (suc n) = omega (arith, sum_below_ones n)

pub length_of_Distinct : (n : ℕ) (xs : List ℕ) → Distinct n xs → length xs ≤ n
length_of_Distinct n xs d =
    omega (arith, sum_over-le-sum_below n xs (λ _. 1) d, sum_over_ones xs, sum_below_ones n)

-- A list of every index has them all.
pub length_of_complete :
    (n : ℕ) (xs : List ℕ) → Distinct n xs → ((j : ℕ) → j < n → count j xs ≡ 1) → length xs ≡ n
length_of_complete n xs d full = omega (
  arith,
  sum_over_ones xs,
  sum_over-eq-sum_below n xs (λ _. 1) (All-of_count n xs d.bounded),
  sum_below-congr n (λ j. count j xs * 1) (λ _. 1) (λ j lt. omega (arith, full j lt)),
  sum_below_ones n,
)

sum_below-le : (n : ℕ) (f : ℕ → ℕ) → ((j : ℕ) → f j ≤ 1) → sum_below n f ≤ n
sum_below-le zero f one = omega arith
sum_below-le (suc n) f one = omega (arith, sum_below-le n f one, one n)

-- Values of at most 1 that sum to their number are all 1.
saturated :
    (n : ℕ) (f : ℕ → ℕ) → ((j : ℕ) → f j ≤ 1) → n ≤ sum_below n f → (j : ℕ) → j < n → f j ≡ 1
saturated zero f one full j lt = absurd (omega arith)
saturated (suc n) f one full j lt = elim (Bool-cases (j == n)) [
  | inl e ↦ omega (arith, ap f ((==_iff j n).0 e), one n, sum_below-le n f one)
  | inr e ↦ saturated n f one (omega (arith, one n)) j (ground arith)
]

-- A list of `n` distinct indices below `n` has every one.
pub complete_of_length :
    (n : ℕ) (xs : List ℕ) → Distinct n xs → length xs ≡ n → (j : ℕ) → j < n → count j xs ≡ 1
complete_of_length n xs d full =
    saturated n (λ j. count j xs) d.once
      (omega (
        arith,
        sum_over_ones xs,
        sum_over-eq-sum_below n xs (λ _. 1) (All-of_count n xs d.bounded),
        sum_below-congr n (λ j. count j xs * 1) (λ j. count j xs) (λ j lt. omega arith),
      ))
