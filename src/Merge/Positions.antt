-- ===== src/Merge/Positions.antt =====
-- Positions in the lists of proposals that crates/h2ai-state/src/krum.rs and bft.rs select from.
use mathlib.Core.List.{Memᴰ}
use mathlib.Core.List.Memᴰ
use h2ai_control_plane.Prelude.{
  ap, ℕ, zero, suc, ◌+◌, ◌≤◌, ◌<◌, ◌≡◌, refl, some, List, [], ◌∷◌, arith, length, get_elem?, get_or,
  Bool-cases, inl, inr, Bool,
}
use h2ai_control_plane.Prelude.{any, find, filter, true}
use h2ai_control_plane.Sorting.{filter-Memᴰ, Memᴰ-filter}
use h2ai_control_plane.Members.{Once}
use h2ai_control_plane.Subtasks.Waves.{range_from}
use h2ai_control_plane.Merge.Krum.{range, remove_at}
use h2ai_control_plane.Merge.Median.{max_from}

pub range_from-Memᴰ : (i n x : ℕ) → Memᴰ x (range_from i n) → (i ≤ x) × (x < i + n)
unfolding range_from
range_from-Memᴰ i zero x m = elim m [ ]
range_from-Memᴰ i (suc n) x (Memᴰ.head e) = (omega (arith, e), omega (arith, e))
range_from-Memᴰ i (suc n) x (Memᴰ.tail m) =
    let h = range_from-Memᴰ (suc i) n x m in (omega (arith, h.0), omega (arith, h.1))

pub range-Memᴰ : (n x : ℕ) → Memᴰ x (range n) → x < n
range-Memᴰ n x m = let h = range_from-Memᴰ 0 n x m in omega (arith, h.1)

pub range_from-Once : (i n : ℕ) → Once (range_from i n)
unfolding range_from
range_from-Once i zero = tt
range_from-Once i (suc n) =
    (λ m. let h = range_from-Memᴰ (suc i) n i m in omega (arith, h.0), range_from-Once (suc i) n)

pub range_from-length : (i n : ℕ) → length (range_from i n) ≡ n
unfolding range_from
range_from-length i zero = refl
range_from-length i (suc n) = omega (arith, range_from-length (suc i) n)

module _ {ℓ} {A : Type ℓ} where
  pub get_elem?-below :
      (xs : List A) (i : ℕ) → i < length xs → (a : A) × ((get_elem? xs i ≡ some a) × Memᴰ a xs)
  get_elem?-below [] i lt = absurd (omega (arith, lt))
  get_elem?-below (x ∷ xs) zero lt = (x, (refl, Memᴰ.head refl))
  get_elem?-below (x ∷ xs) (suc i) lt =
      let (a, (e, m)) = get_elem?-below xs i (omega (arith, lt)) in (a, (e, Memᴰ.tail m))

  pub max_from-Memᴰ :
      (before : A → A → Bool) (x : A) (ys : List A) → Memᴰ (max_from before x ys) (x ∷ ys)
  max_from-Memᴰ before x [] = Memᴰ.head refl
  max_from-Memᴰ before x (y ∷ ys) = elim (Bool-cases (before y x)) [
    | inl e ↦ rw e (behind (max_from-Memᴰ before x ys))
    | inr e ↦ rw e (Memᴰ.tail (max_from-Memᴰ before y ys))
  ]
    where
      behind : {m : A} → Memᴰ m (x ∷ ys) → Memᴰ m (x ∷ y ∷ ys)
      behind (Memᴰ.head e) = Memᴰ.head e
      behind (Memᴰ.tail m) = Memᴰ.tail (Memᴰ.tail m)

-- `remaining.remove(pos)` takes out the item of the position.
pub remove_at-Memᴰ : (i : ℕ) (xs : List ℕ) (x : ℕ) → Memᴰ x (remove_at i xs) → Memᴰ x xs
remove_at-Memᴰ i [] x m = m
remove_at-Memᴰ zero (y ∷ ys) x m = Memᴰ.tail m
remove_at-Memᴰ (suc i) (y ∷ ys) x (Memᴰ.head e) = Memᴰ.head e
remove_at-Memᴰ (suc i) (y ∷ ys) x (Memᴰ.tail m) = Memᴰ.tail (remove_at-Memᴰ i ys x m)

pub remove_at-Once : (i : ℕ) (xs : List ℕ) → Once xs → Once (remove_at i xs)
remove_at-Once i [] o = o
remove_at-Once zero (y ∷ ys) o = o.1
remove_at-Once (suc i) (y ∷ ys) o = (λ m. o.0 (remove_at-Memᴰ i ys y m), remove_at-Once i ys o.1)

pub remove_at-length :
    (i : ℕ) (xs : List ℕ) → i < length xs → suc (length (remove_at i xs)) ≡ length xs
remove_at-length i [] lt = omega (arith, lt)
remove_at-length zero (y ∷ ys) lt = refl
remove_at-length (suc i) (y ∷ ys) lt = omega (arith, remove_at-length i ys (omega (arith, lt)))

pub get_or-Memᴰ : (i : ℕ) (xs : List ℕ) → i < length xs → Memᴰ (get_or xs i 0) xs
get_or-Memᴰ i [] lt = absurd (omega (arith, lt))
get_or-Memᴰ zero (y ∷ ys) lt = Memᴰ.head refl
get_or-Memᴰ (suc i) (y ∷ ys) lt = Memᴰ.tail (get_or-Memᴰ i ys (omega (arith, lt)))

-- What is taken out is gone, where no item stands twice; and the others stay.
pub remove_at-gone :
    (i : ℕ) (xs : List ℕ) → i < length xs → Once xs → ¬ Memᴰ (get_or xs i 0) (remove_at i xs)
remove_at-gone i [] lt o m = omega (arith, lt)
remove_at-gone zero (y ∷ ys) lt o m = o.0 m
remove_at-gone (suc i) (y ∷ ys) lt o (Memᴰ.head e) =
    o.0 (rw e at (get_or-Memᴰ i ys (omega (arith, lt))))
remove_at-gone (suc i) (y ∷ ys) lt o (Memᴰ.tail m) = remove_at-gone i ys (omega (arith, lt)) o.1 m

Memᴰ-filled {ℓ} : {A : Type ℓ} (ys : List A) (a : A) → Memᴰ a ys → 0 < length ys
Memᴰ-filled [] a n = absurd (Memᴰ.not-nil n)
Memᴰ-filled (y ∷ ys) a n = omega arith

-- An item that passes is found, or one before it.
pub find-Memᴰ :
    {A : Type 0} (p : A → Bool) (xs : List A) (a : A)
    → Memᴰ a xs
    → p a ≡ true
    → (b : A) × ((find p xs ≡ some b) × Memᴰ b xs)
find-Memᴰ p xs a m h =
    let (b, (found, there)) =
      get_elem?-below (filter p xs) 0 (Memᴰ-filled (filter p xs) a (Memᴰ-filter p xs a m h)) in
    (b, (found, (filter-Memᴰ p xs b there).0))

pub any-Memᴰ :
    {A : Type 0} (p : A → Bool) (xs : List A) (a : A) → Memᴰ a xs → p a ≡ true → any p xs ≡ true
any-Memᴰ p [] a m h = absurd (Memᴰ.not-nil m)
any-Memᴰ p (x ∷ xs) a (Memᴰ.head e) h = ground (arith, ap p e, h)
any-Memᴰ p (x ∷ xs) a (Memᴰ.tail m) h = ground (arith, any-Memᴰ p xs a m h)
