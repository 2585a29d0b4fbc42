-- ===== src/Sorting.antt =====
-- The stable sort of the standard library (`slice::sort_by`, `sort_by_key`) and what it guarantees, for
-- an order given as a Boolean test.
use mathlib.Core.List.{Perm, Memᴰ}
use mathlib.Core.List.Perm
use h2ai_control_plane.Prelude.{
  ◌≡◌, refl, ap, ◌∙◌, Bool, true, false, Option, map, none, some, filter, List, [], ◌∷◌, arith, sym,
  suc, length, All, All-map, if◌then◌else◌, Bool-cases, inl, inr,
}

-- A strict order in which the items that do not go before each other form classes: `<` on any ordered
-- type, and `>` on floating-point numbers other than NaN (`0.0` and `-0.0` are one class).
pub record IsStrictWeak {ℓ} {A : Type ℓ} (before : A → A → Bool) : Type ℓ where
  pub irrefl : (a : A) → before a a ≡ false
  pub trans : (a b c : A) → before a b ≡ true → before b c ≡ true → before a c ≡ true
  pub neg_trans : (a b c : A) → before a b ≡ false → before b c ≡ false → before a c ≡ false

module _ {ℓ} {A : Type ℓ} (before : A → A → Bool) where
  -- An item goes in front of the first one that is not before it.
  unfoldable pub place : A → List A → List A
  place x [] = x ∷ []
  place x (y ∷ ys) = let rest = place x ys in if before y x then y ∷ rest else x ∷ y ∷ ys

  unfoldable pub sort : List A → List A
  unfolding place
  sort [] = []
  sort (x ∷ xs) = place x (sort xs)

  place-Perm : (x : A) (xs : List A) → Perm (place x xs) (x ∷ xs)
  unfolding place
  place-Perm x [] = Perm.refl (x ∷ [])
  place-Perm x (y ∷ ys) = elim (Bool-cases (before y x)) [
    | inl e ↦ rw (place, e) (Perm.trans (Perm.cons y (place-Perm x ys)) (Perm.swap x y ys))
    | inr e ↦ rw (place, e) (Perm.refl (x ∷ y ∷ ys))
  ]

  pub sort-Perm : (xs : List A) → Perm (sort xs) xs
  unfolding sort
  sort-Perm [] = Perm.refl []
  sort-Perm (x ∷ xs) = Perm.trans (place-Perm x (sort xs)) (Perm.cons x (sort-Perm xs))

  place-length : (x : A) (xs : List A) → length (place x xs) ≡ suc (length xs)
  unfolding place
  place-length x [] = refl
  place-length x (y ∷ ys) = ground (arith, place-length x ys)

  pub sort-length : (xs : List A) → length (sort xs) ≡ length xs
  unfolding sort
  sort-length [] = refl
  sort-length (x ∷ xs) = place-length x (sort xs) ∙ ap suc (sort-length xs)

  place-All {κ} : (P : A → Type κ) (x : A) (xs : List A) → P x → All P xs → All P (place x xs)
  unfolding place
  place-All P x [] hx h = (hx, tt)
  place-All P x (y ∷ ys) hx h = elim (Bool-cases (before y x)) [
    | inl e ↦ rw (place, e) (h.0, place-All P x ys hx h.1)
    | inr e ↦ rw (place, e) (hx, h)
  ]

  pub sort-All {κ} : (P : A → Type κ) (xs : List A) → All P xs → All P (sort xs)
  unfolding sort
  sort-All P [] h = tt
  sort-All P (x ∷ xs) h = place-All P x (sort xs) h.0 (sort-All P xs h.1)

  place-All_back {κ} : (P : A → Type κ) (x : A) (xs : List A) → All P (place x xs) → P x × All P xs
  unfolding place
  place-All_back P x [] h = h
  place-All_back P x (y ∷ ys) h = elim (Bool-cases (before y x)) [
    | inl e ↦
        let h' : All P (y ∷ place x ys) = rw (place, e) at h in
        let rest = place-All_back P x ys h'.1 in (rest.0, (h'.0, rest.1))
    | inr e ↦ rw (place, e) at h
  ]

  pub sort-All_back {κ} : (P : A → Type κ) (xs : List A) → All P (sort xs) → All P xs
  unfolding sort
  sort-All_back P [] h = tt
  sort-All_back P (x ∷ xs) h =
      let rest = place-All_back P x (sort xs) h in (rest.0, sort-All_back P xs rest.1)

  -- No item stands behind one that it is before.
  abbrev pub Ordered : List A → Type 0
  Ordered [] = Unit
  Ordered (x ∷ xs) = All (λ y. before y x ≡ false) xs × Ordered xs

  module _ (w : IsStrictWeak before) where
    place-Ordered : (x : A) (xs : List A) → Ordered xs → Ordered (place x xs)
    unfolding place
    place-Ordered x [] h = (tt, tt)
    place-Ordered x (y ∷ ys) h = elim (Bool-cases (before y x)) [
      | inl e ↦
          rw (place, e)
            (
              place-All (λ z. before z y ≡ false) x ys
                  (ground (arith, w.trans x y x, w.irrefl x, e)) h.0,
              place-Ordered x ys h.1,
            )
      | inr e ↦ rw (place, e) ((e, All-map _ _ (λ z low. w.neg_trans z y x low e) ys h.0), h)
    ]

    pub sort-Ordered : (xs : List A) → Ordered (sort xs)
    unfolding sort
    sort-Ordered [] = tt
    sort-Ordered (x ∷ xs) = place-Ordered x (sort xs) (sort-Ordered xs)

-- The first of the smallest items (`Iterator::min_by`), from a first item on.
abbrev pub min_from {ℓ} : {A : Type ℓ} → (A → A → Bool) → A → List A → A
min_from before x [] = x
min_from before x (y ∷ ys) = min_from before (if before y x then y else x) ys

abbrev pub min_by {ℓ} : {A : Type ℓ} → (A → A → Bool) → List A → Option A
min_by before [] = none
min_by before (x ∷ xs) = some (min_from before x xs)

module _ {ℓ} {A : Type ℓ} (before : A → A → Bool) (w : IsStrictWeak before) where
  -- The smallest item is not behind another one.
  pub min_from-low :
      (x : A) (ys : List A) → All (λ y. before y (min_from before x ys) ≡ false) (x ∷ ys)
  min_from-low x [] = (w.irrefl x, tt)
  min_from-low x (y ∷ ys) =
      let z = if before y x then y else x in
      let rest = min_from-low z ys in
      (
        w.neg_trans x z (min_from before z ys) (ground (arith, w.trans x y x, w.irrefl x)) rest.0,
        (w.neg_trans y z (min_from before z ys) (ground (arith, w.irrefl y)) rest.0, rest.1),
      )

module _ {ℓ} {A : Type ℓ} where
  pub min_from-Memᴰ :
      (before : A → A → Bool) (x : A) (ys : List A) → Memᴰ (min_from before x ys) (x ∷ ys)
  min_from-Memᴰ before x [] = Memᴰ.head refl
  min_from-Memᴰ before x (y ∷ ys) = elim (Bool-cases (before y x)) [
    | inl e ↦ rw e (Memᴰ.tail (min_from-Memᴰ before y ys))
    | inr e ↦ rw e (behind y ys (min_from-Memᴰ before x ys))
  ]
    where
      behind : (z : A) (zs : List A) {m : A} → Memᴰ m (x ∷ zs) → Memᴰ m (x ∷ z ∷ zs)
      behind z zs (Memᴰ.head e) = Memᴰ.head e
      behind z zs (Memᴰ.tail m) = Memᴰ.tail (Memᴰ.tail m)

  pub All-Memᴰ {κ} : (P : A → Type κ) (xs : List A) (a : A) → All P xs → Memᴰ a xs → P a
  All-Memᴰ P [] a h m = elim m [ ]
  All-Memᴰ P (x ∷ xs) a h (Memᴰ.head e) = rw e h.0
  All-Memᴰ P (x ∷ xs) a h (Memᴰ.tail m) = All-Memᴰ P xs a h.1 m

  pub Memᴰ-All {κ} : (P : A → Type κ) (xs : List A) → ((a : A) → Memᴰ a xs → P a) → All P xs
  Memᴰ-All P [] h = tt
  Memᴰ-All P (x ∷ xs) h = (h x (Memᴰ.head refl), Memᴰ-All P xs (λ a m. h a (Memᴰ.tail m)))

  pub filter-Memᴰ :
      (p : A → Bool) (xs : List A) (a : A) → Memᴰ a (filter p xs) → Memᴰ a xs × (p a ≡ true)
  filter-Memᴰ p xs a m =
      All-Memᴰ (λ b. Memᴰ b xs × (p b ≡ true)) (filter p xs) a
        (passing (λ b. Memᴰ b xs) xs (Memᴰ-All (λ b. Memᴰ b xs) xs (λ b m. m))) m
    where
      passing :
          (P : A → Type ℓ) (ys : List A) → All P ys → All (λ b. P b × (p b ≡ true)) (filter p ys)
      passing P [] h = tt
      passing P (y ∷ ys) h = elim (Bool-cases (p y)) [
        | inl e ↦ rw (filter, e) ((h.0, e), passing P ys h.1)
        | inr e ↦ rw (filter, e) (passing P ys h.1)
      ]

  pub Memᴰ-filter :
      (p : A → Bool) (xs : List A) (a : A) → Memᴰ a xs → p a ≡ true → Memᴰ a (filter p xs)
  Memᴰ-filter p [] a m h = elim m [ ]
  Memᴰ-filter p (x ∷ xs) a (Memᴰ.head e) h = rw (filter, ap p (sym e) ∙ h) (Memᴰ.head e)
  Memᴰ-filter p (x ∷ xs) a (Memᴰ.tail m) h = elim (Bool-cases (p x)) [
    | inl e ↦ rw (filter, e) (Memᴰ.tail (Memᴰ-filter p xs a m h))
    | inr e ↦ rw (filter, e) (Memᴰ-filter p xs a m h)
  ]

  pub sort-Memᴰ :
      (before : A → A → Bool) (xs : List A) (a : A) → Memᴰ a (sort before xs) → Memᴰ a xs
  sort-Memᴰ before xs a m =
      All-Memᴰ (λ b. Memᴰ b xs) (sort before xs) a
        (sort-All before (λ b. Memᴰ b xs) xs (Memᴰ-All (λ b. Memᴰ b xs) xs (λ b m. m))) m

  pub min_by-Memᴰ :
      (before : A → A → Bool) (xs : List A) (a : A)
      → Memᴰ a xs
      → (m : A) × ((min_by before xs ≡ some m) × Memᴰ m xs)
  min_by-Memᴰ before [] a h = elim h [ ]
  min_by-Memᴰ before (x ∷ xs) a h = (min_from before x xs, (refl, min_from-Memᴰ before x xs))

  module _ {κ} {B : Type κ} (f : A → B) where
    pub map-Memᴰ : (xs : List A) (b : B) → Memᴰ b (map f xs) → (a : A) × (Memᴰ a xs × (b ≡ f a))
    map-Memᴰ [] b h = elim h [ ]
    map-Memᴰ (x ∷ xs) b (Memᴰ.head e) = (x, (Memᴰ.head refl, e))
    map-Memᴰ (x ∷ xs) b (Memᴰ.tail m) =
        let rest = map-Memᴰ xs b m in (rest.0, (Memᴰ.tail rest.1.0, rest.1.1))

    pub map-All {μ} : (P : B → Type μ) (xs : List A) → All P (map f xs) → All (λ a. P (f a)) xs
    map-All P [] h = tt
    map-All P (x ∷ xs) h = (h.0, map-All P xs h.1)

  pub Memᴰ-sort :
      (before : A → A → Bool) (xs : List A) (a : A) → Memᴰ a xs → Memᴰ a (sort before xs)
  Memᴰ-sort before xs a m =
      All-Memᴰ (λ b. Memᴰ b (sort before xs)) xs a
        (sort-All_back before (λ b. Memᴰ b (sort before xs)) xs
          (Memᴰ-All (λ b. Memᴰ b (sort before xs)) (sort before xs) (λ b m. m)))
        m

  pub Memᴰ-map {κ} :
      {B : Type κ} (f : A → B) (xs : List A) (a : A) → Memᴰ a xs → Memᴰ (f a) (map f xs)
  Memᴰ-map f [] a m = elim m [ ]
  Memᴰ-map f (x ∷ xs) a (Memᴰ.head e) = Memᴰ.head (ap f e)
  Memᴰ-map f (x ∷ xs) a (Memᴰ.tail m) = Memᴰ.tail (Memᴰ-map f xs a m)
