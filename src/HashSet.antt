-- ===== src/HashSet.antt =====
-- The sets of the program (`HashSet`), as lists in which an item stands once. A client relies on
-- membership, never on the order.
use mathlib.Core.List.{Memᴰ}
use mathlib.Core.List.Memᴰ
use h2ai_control_plane.Members.{Memᴰ-cons}
use h2ai_control_plane.Prelude.{
  ◌⊎◌, ◌↔◌, inl, inr, true, ◌≡◌, ◌||◌, Bool, false, List, [], ◌∷◌, ◌++◌, arith, Eq, if◌then◌else◌,
}

module _ {ℓ} {A : Type ℓ} ⦃e : Eq A⦄ where
  unfoldable pub contains : List A → A → Bool
  contains [] a = false
  contains (x ∷ xs) a = e.beq x a || contains xs a

  -- `set.insert(a)`
  unfoldable pub insert : List A → A → List A
  unfolding contains
  insert xs a = if contains xs a then xs else xs ++ a ∷ []

  -- `set.extend(..)`, and `collect` from the empty set.
  unfoldable pub extend : List A → List A → List A
  unfolding insert
  extend xs [] = xs
  extend xs (a ∷ more) = extend (insert xs a) more

  contains-concat :
      (xs : List A) (a b : A) → contains (xs ++ a ∷ []) b ≡ (contains xs b || e.beq a b)
  unfolding contains
  contains-concat [] a b = ground arith
  contains-concat (x ∷ xs) a b = ground (arith, contains-concat xs a b)

  pub contains-insert :
      (xs : List A) (a b : A) → contains (insert xs a) b ≡ (e.beq a b || contains xs b)
  unfolding insert
  contains-insert xs a b = ground (arith, contains-concat xs a b, e.beq_iff a b)

  pub contains-extend :
      (xs more : List A) (a : A)
      → (contains (extend xs more) a ≡ true) ↔ ((contains xs a ≡ true) ⊎ Memᴰ a more)
  unfolding extend
  contains-extend xs [] a = (inl, λ h. elim h [ inl m ↦ m | inr m ↦ absurd (Memᴰ.not-nil m) ])
  contains-extend xs (b ∷ more) a = ground (
    arith,
    contains-extend (insert xs b) more a,
    contains-insert xs b a,
    e.beq_iff b a,
    Memᴰ-cons a b more,
  )
