-- ===== src/Members.antt =====
-- Membership of lists that are made by appending and filtering.
use mathlib.Core.List.{Memᴰ}
use mathlib.Core.List.Memᴰ
use h2ai_control_plane.Prelude.{
  ◌≡◌, ◌⊎◌, ◌↔◌, refl, ◌≤◌, length, Bool, List, [], ◌∷◌, ◌++◌, arith, filter, inl, inr,
}

pub Memᴰ-concat {ℓ} :
    {A : Type ℓ} (a b : A) (xs : List A) → Memᴰ a (xs ++ b ∷ []) ↔ (Memᴰ a xs ⊎ (a ≡ b))
Memᴰ-concat a b xs = (
  λ m. elim (Memᴰ.append_cases xs m) [
    | inl old ↦ inl old
    | inr new ↦ inr (Memᴰ.eq_of_singleton new)
  ],
  λ h. elim h [
    | inl old ↦ Memᴰ.append_left (b ∷ []) old
    | inr e ↦ Memᴰ.append_right xs (Memᴰ.head e)
  ],
)

pub Memᴰ-append {ℓ} :
    {A : Type ℓ} (a : A) (xs ys : List A) → Memᴰ a (xs ++ ys) ↔ (Memᴰ a xs ⊎ Memᴰ a ys)
Memᴰ-append a xs ys = (
  Memᴰ.append_cases xs,
  λ h. elim h [ inl m ↦ Memᴰ.append_left ys m | inr m ↦ Memᴰ.append_right xs m ],
)

pub Memᴰ-cons {ℓ} : {A : Type ℓ} (a x : A) (xs : List A) → Memᴰ a (x ∷ xs) ↔ ((a ≡ x) ⊎ Memᴰ a xs)
Memᴰ-cons a x xs = (Memᴰ.cases_cons, λ h. elim h [ inl e ↦ Memᴰ.head e | inr m ↦ Memᴰ.tail m ])

-- No item stands twice.
abbrev pub Once {ℓ} : {A : Type ℓ} → List A → Type ℓ
Once [] = Unit
Once (x ∷ xs) = (¬ Memᴰ x xs) × Once xs

pub Once-append {ℓ} :
    {A : Type ℓ} (xs ys : List A)
    → Once xs
    → Once ys
    → ((a : A) → Memᴰ a xs → ¬ Memᴰ a ys)
    → Once (xs ++ ys)
Once-append [] ys ox oy apart = oy
Once-append (x ∷ xs) ys ox oy apart = (
  λ m. elim (Memᴰ.append_cases xs m) [ inl m' ↦ ox.0 m' | inr m' ↦ apart x (Memᴰ.head refl) m' ],
  Once-append xs ys ox.1 oy (λ a m. apart a (Memᴰ.tail m)),
)

pub length-filter {ℓ} : {A : Type ℓ} (p : A → Bool) (xs : List A) → length (filter p xs) ≤ length xs
length-filter p [] = omega arith
length-filter p (x ∷ xs) = ground (arith, length-filter p xs)

pub List-cases {ℓ} :
    {A : Type ℓ} (xs : List A) → (xs ≡ []) ⊎ ((x : A) × ((rest : List A) × (xs ≡ x ∷ rest)))
List-cases [] = inl refl
List-cases (x ∷ xs) = inr (x, (xs, refl))
