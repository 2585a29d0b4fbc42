-- ===== src/HashMap/Unique.antt =====
-- Maps in which every key stands once, as all those are that the program makes by insertion.
use mathlib.Core.List.{Memᴰ}
use mathlib.Core.List.Memᴰ
use h2ai_control_plane.Prelude.{◌≡◌, refl, none, some, [], ◌∷◌, arith, Eq, Bool-cases, inl, inr}
use h2ai_control_plane.HashMap.{HashMap, get, insert, get-insert, values}

module _ {ℓ κ} {K : Type ℓ} {V : Type κ} ⦃e : Eq K⦄ where
  abbrev pub Unique : HashMap K V → Type κ
  Unique [] = Unit
  Unique ((k, v) ∷ m) = (get m k ≡ none) × Unique m

  pub insert-Unique : (m : HashMap K V) (k : K) (v : V) → Unique m → Unique (insert m k v)
  unfolding insert get
  insert-Unique [] k v u = (refl, tt)
  insert-Unique ((j, w) ∷ m) k v u =
      ground (arith, get-insert m k j v, insert-Unique m k v u.1, e.beq_iff j k, e.beq_iff k j)

  pub get-values : (m : HashMap K V) (k : K) (v : V) → get m k ≡ some v → Memᴰ v (values m)
  unfolding get
  get-values [] k v h = cc
  get-values ((j, w) ∷ m) k v h = elim (Bool-cases (e.beq j k)) [
    | inl same ↦ Memᴰ.head (ground (arith, h, same))
    | inr differ ↦ Memᴰ.tail (get-values m k v (ground (arith, h, differ)))
  ]

  pub values-get :
      (m : HashMap K V) (v : V) → Unique m → Memᴰ v (values m) → (k : K) × (get m k ≡ some v)
  unfolding get
  values-get [] v u h = absurd (Memᴰ.not-nil h)
  values-get ((j, w) ∷ m) v u (Memᴰ.head p) = (j, ground (arith, p, e.beq_iff j j))
  values-get ((j, w) ∷ m) v u (Memᴰ.tail h) =
      let (k, found) = values-get m v u.1 h in (k, ground (arith, found, u.0, e.beq_iff j k))
