-- ===== src/Floats.antt =====
-- The operations of `f64` that the program uses, over any type of numbers, and the laws of IEEE 754 that
-- it relies on. The laws hold for the numbers that are equal by `==` taken as one, and
-- what is proved with them divides only by counts above 0. `of_nat` is `as f64` up to 2 ^ 64, and constant from there on.
use h2ai_control_plane.Prelude.{ℕ, ◌≤◌, ◌<◌, ◌≡◌, ◌⊎◌, Bool, true, false, List, [], ◌∷◌}

pub record Floats (F : Type 0) : Type 0 where
  pub zero : F
  pub one : F
  pub lt : F → F → Bool
  pub le : F → F → Bool
  pub add : F → F → F
  pub sub : F → F → F
  pub mul : F → F → F
  pub div : F → F → F
  pub min : F → F → F
  pub max : F → F → F
  pub mul_add : F → F → F → F  -- `a.mul_add(b, c)` is a * b + c, rounded once
  pub of_nat : ℕ → F  -- `as f64`

module _ {F : Type 0} (f : Floats F) where
  -- `iter().sum::<f64>()`
  abbrev pub sum_from : F → List F → F
  sum_from acc [] = acc
  sum_from acc (x ∷ xs) = sum_from (f.add acc x) xs

  -- `iter().fold(acc, op)`
  abbrev pub fold : (F → F → F) → F → List F → F
  fold op acc [] = acc
  fold op acc (x ∷ xs) = fold op (op acc x) xs

  -- The number is not a NaN and lies between 0 and 1.
  abbrev pub InUnit : F → Type 0
  InUnit x = (f.le f.zero x ≡ true) × (f.le x f.one ≡ true)

  -- Comparison with 0 and 1, `min`, `max`, the difference from 1 and quotients.
  pub record IsFloats : Type 0 where
    pub zero-lt-one : f.lt f.zero f.one ≡ true
    pub le_of_lt : (a b : F) → f.lt a b ≡ true → f.le a b ≡ true
    pub irrefl : (a : F) → f.lt a a ≡ false
    pub lt_or_eq : (a b : F) → f.le a b ≡ true → (f.lt a b ≡ true) ⊎ (a ≡ b)
    -- A number that is compared with another one and is not a NaN.
    pub not_above_one : (a : F) → f.le f.zero a ≡ true → f.lt f.one a ≡ false → f.le a f.one ≡ true
    pub not_below_zero :
        (a : F) → f.le a f.one ≡ true → f.lt a f.zero ≡ false → f.le f.zero a ≡ true
    pub zero-le-zero : f.le f.zero f.zero ≡ true
    pub one-le-one : f.le f.one f.one ≡ true
    pub min_cases : (a b : F) → (f.min a b ≡ a) ⊎ (f.min a b ≡ b)
    pub max_cases : (a b : F) → (f.max a b ≡ a) ⊎ (f.max a b ≡ b)
    pub min_left : (a b : F) → f.lt a b ≡ true → f.min a b ≡ a
    pub min_right : (a b : F) → f.lt b a ≡ true → f.min a b ≡ b
    pub max_left : (a b : F) → f.lt b a ≡ true → f.max a b ≡ a
    pub max_right : (a b : F) → f.lt a b ≡ true → f.max a b ≡ b
    pub sub_antitone : (a b : F) → f.le a b ≡ true → f.le (f.sub f.one b) (f.sub f.one a) ≡ true
    pub one-sub-zero : f.sub f.one f.zero ≡ f.one
    pub one-sub-one : f.sub f.one f.one ≡ f.zero
    -- Quotients of counts, which are finite.
    pub quotient_low :
        (m n : ℕ) → m ≤ n → 0 < n → f.le f.zero (f.div (f.of_nat m) (f.of_nat n)) ≡ true
    pub quotient_high :
        (m n : ℕ) → m ≤ n → 0 < n → f.le (f.div (f.of_nat m) (f.of_nat n)) f.one ≡ true
    pub quotient_self : (n : ℕ) → 0 < n → f.div (f.of_nat n) (f.of_nat n) ≡ f.one
    -- Up to 2 ^ 53, counts are exact.
    pub quotient_strict :
        (m n : ℕ)
        → m < n
        → n ≤ 9007199254740992
        → f.lt (f.div (f.of_nat m) (f.of_nat n)) f.one ≡ true
