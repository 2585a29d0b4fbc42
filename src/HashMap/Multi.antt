-- ===== src/HashMap/Multi.antt =====
-- Maps to lists of entries (`HashMap<K, Vec<V>>`).
use mathlib.Core.List.{Memᴰ}
use mathlib.Core.Option
use h2ai_control_plane.Prelude.{
  ◌≡◌, ◌⊎◌, ◌↔◌, List, [], ◌∷◌, ◌++◌, arith, Eq, Bool-cases, inl, inr, if◌then◌else◌,
}
use h2ai_control_plane.Members.{Memᴰ-concat}
use h2ai_control_plane.HashMap.{HashMap, get, insert, get-insert}

module _ {ℓ κ} {K : Type ℓ} {V : Type κ} ⦃eq : Eq K⦄ where
  -- The entries of a key.
  abbrev pub entries : HashMap K (List V) → K → List V
  entries m k = Option.get_or (get m k) []

  -- `entry(k).or_default()`
  unfoldable pub touch : HashMap K (List V) → K → HashMap K (List V)
  unfolding insert get
  touch m k = insert m k (entries m k)

  -- `entry(k).or_default().push(e)`
  unfoldable pub push : HashMap K (List V) → K → V → HashMap K (List V)
  unfolding insert get
  push m k e = insert m k (entries m k ++ e ∷ [])

  pub entries-touch : (m : HashMap K (List V)) (k k' : K) → entries (touch m k) k' ≡ entries m k'
  unfolding touch
  entries-touch m k k' = ground (arith, get-insert m k k' (entries m k), eq.beq_iff k k')

  entries-push :
      (m : HashMap K (List V)) (k k' : K) (e : V)
      → entries (push m k e) k' ≡ (if eq.beq k k' then entries m k ++ e ∷ [] else entries m k')
  unfolding push
  entries-push m k k' e = ground (arith, get-insert m k k' (entries m k ++ e ∷ []))

  pub entry-push :
      (m : HashMap K (List V)) (k k' : K) (e e' : V)
      → Memᴰ e' (entries (push m k e) k') ↔ (Memᴰ e' (entries m k') ⊎ ((k' ≡ k) × (e' ≡ e)))
  entry-push m k k' e e' = elim (Bool-cases (eq.beq k k')) [
    | inl same ↦
        let equal = (eq.beq_iff k k').0 same in
        rw (entries-push m k k' e, same)
          (rw (← equal) (ground (arith, Memᴰ-concat e' e (entries m k))))
    | inr differ ↦
        rw (entries-push m k k' e, differ)
          (
            inl,
            λ h. elim h [
              | inl old ↦ old
              | inr (p, q) ↦ absurd (ground (arith, differ, eq.beq_iff k k', p))
            ],
          )
  ]
