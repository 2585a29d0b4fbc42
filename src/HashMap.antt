-- ===== src/HashMap.antt =====
-- The maps of the program (`HashMap`, `DashMap`, `BTreeMap` with a default iteration order), as lists
-- of entries. A client relies on the three laws, never on the order of the entries.
pub mod Unique
pub mod Multi
use h2ai_control_plane.Prelude.{
  ◌≡◌, refl, Option, none, some, List, [], ◌∷◌, map, arith, Eq, if◌then◌else◌,
}
use mathlib.Core.Option

abbrev pub HashMap {ℓ κ} : Type ℓ → Type κ → Type (ℓ ⊔ κ)
HashMap K V = List (K × V)

module _ {ℓ κ} {K : Type ℓ} {V : Type κ} ⦃e : Eq K⦄ where
  -- `m.get(&k)`
  unfoldable pub get : HashMap K V → K → Option V
  get [] k = none
  get ((j, v) ∷ m) k = let rest = get m k in if e.beq j k then some v else rest

  -- `m.insert(k, v)`: a new value replaces the one that stands under the key.
  unfoldable pub insert : HashMap K V → K → V → HashMap K V
  insert [] k v = (k, v) ∷ []
  insert ((j, w) ∷ m) k v =
      let rest = insert m k v in if e.beq j k then (j, v) ∷ m else (j, w) ∷ rest

  -- `m.remove(&k)`
  unfoldable pub remove : HashMap K V → K → HashMap K V
  remove [] k = []
  remove ((j, w) ∷ m) k = let rest = remove m k in if e.beq j k then rest else (j, w) ∷ rest

  -- `if let Some(mut entry) = m.get_mut(&k) { f(entry) }`
  unfoldable pub modify : HashMap K V → K → (V → V) → HashMap K V
  modify [] k f = []
  modify ((j, w) ∷ m) k f =
      let rest = modify m k f in if e.beq j k then (j, f w) ∷ m else (j, w) ∷ rest

  pub get-insert :
      (m : HashMap K V) (k j : K) (v : V)
      → get (insert m k v) j ≡ (if e.beq k j then some v else get m j)
  unfolding get insert
  get-insert [] k j v = refl
  get-insert ((i, w) ∷ m) k j v =
      ground (arith, get-insert m k j v, e.beq_iff i k, e.beq_iff i j, e.beq_iff k j)

  pub get-remove :
      (m : HashMap K V) (k j : K) → get (remove m k) j ≡ (if e.beq k j then none else get m j)
  unfolding get remove
  get-remove [] k j = ground arith
  get-remove ((i, w) ∷ m) k j =
      ground (arith, get-remove m k j, e.beq_iff i k, e.beq_iff i j, e.beq_iff k j)

  pub get-modify :
      (m : HashMap K V) (k j : K) (f : V → V)
      → get (modify m k f) j ≡ (if e.beq k j then Option.map f (get m j) else get m j)
  unfolding get modify
  get-modify [] k j f = ground arith
  get-modify ((i, w) ∷ m) k j f =
      ground (arith, get-modify m k j f, e.beq_iff i k, e.beq_iff i j, e.beq_iff k j)

-- `m.values()`
abbrev pub values {ℓ κ} : {K : Type ℓ} {V : Type κ} → HashMap K V → List V
values m = map (λ p. p.1) m

pub ruleset hash_map_laws = (get-insert, get-remove, get-modify)
