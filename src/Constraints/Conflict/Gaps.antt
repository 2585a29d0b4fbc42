-- ===== src/Constraints/Conflict/Gaps.antt =====
-- crates/h2ai-constraints/src/conflict.rs: the pairs of disjoint bounds.
use mathlib.Core.List.{Memᴰ}
use mathlib.Core.List.Memᴰ
use h2ai_control_plane.Prelude.{
  ◌≡◌, ◌⊎◌, ◌↔◌, refl, sym, ap, ◌∙◌, String, true, List, [], ◌∷◌, arith, filter, inl, inr,
  if◌then◌else◌,
}
use mathlib.Core.Path.{subst}
use h2ai_control_plane.HashSet
use h2ai_control_plane.HashSet.{contains-insert}
use h2ai_control_plane.Floats.{Floats}
use h2ai_control_plane.Constraints.Types.{NumericOp}
use h2ai_control_plane.Constraints.Conflict.{
  Numeric, Pair, ConstraintConflictGraph, canonical_pair, eq_pair, over_ges, over_les,
  numeric_pairs, is_le, is_ge,
}
use h2ai_control_plane.Constraints.Conflict.Inserts.{In, In-insert_if}
use h2ai_control_plane.Sorting.{filter-Memᴰ, Memᴰ-filter}

is_le_iff : (op : NumericOp) → (is_le op ≡ true) ↔ (op ≡ NumericOp.le)
is_le_iff NumericOp.le = (λ _. refl, λ _. refl)
is_le_iff op = (λ h. cc, λ e. ground (arith, e))

is_ge_iff : (op : NumericOp) → (is_ge op ≡ true) ↔ (op ≡ NumericOp.ge)
is_ge_iff NumericOp.ge = (λ _. refl, λ _. refl)
is_ge_iff op = (λ h. cc, λ e. ground (arith, e))

module _ {F : Type 0} (f : Floats F) where
  over_ges-In :
      (a : String) (v : F) (ges : List (Numeric F)) (p : Pair) (g : ConstraintConflictGraph)
      → In p (over_ges f a v ges g) ↔ (
          In p g
          ⊎ ((e : Numeric F) × (Memᴰ e ges × ((f.lt v e.1.1 ≡ true) × (p ≡ canonical_pair a e.0)))))
  unfolding over_ges
  over_ges-In a v [] p g =
      (inl, λ h. elim h [ inl old ↦ old | inr (e, (m, _)) ↦ absurd (Memᴰ.not-nil m) ])
  over_ges-In a v ((b, (op, u)) ∷ ges) p g =
      let first = In-insert_if (f.lt v u) p (canonical_pair a b) g in
      let rest =
        over_ges-In a v ges p (if f.lt v u then HashSet.insert g (canonical_pair a b) else g) in
      (
        λ h. elim (rest.0 h) [
          | inl m ↦ elim (first.0 m) [
            | inl old ↦ inl old
            | inr (e, q) ↦ inr ((b, (op, u)), (Memᴰ.head refl, (e, q)))
          ]
          | inr (e, (m, q)) ↦ inr (e, (Memᴰ.tail m, q))
        ],
        λ h. elim h [
          | inl old ↦ rest.1 (inl (first.1 (inl old)))
          | inr (e, (m, (low, q))) ↦ elim (Memᴰ.cases_cons m) [
            | inl same ↦ rest.1 (
                inl (
                  first.1 (
                    inr (
                      ap (λ z. f.lt v z.1.1) (sym same) ∙ low,
                      q ∙ ap (λ z. canonical_pair a z.0) same,
                    ))))
            | inr later ↦ rest.1 (inr (e, (later, (low, q))))
          ]
        ],
      )

  -- The pair of an upper bound and a greater lower bound.
  abbrev pub Apart : Numeric F → Numeric F → Pair → Type 0
  Apart d e p = (f.lt d.1.1 e.1.1 ≡ true) × (p ≡ canonical_pair d.0 e.0)

  over_les-In :
      (les ges : List (Numeric F)) (p : Pair) (g : ConstraintConflictGraph)
      → In p (over_les f les ges g) ↔ (
          In p g
          ⊎ ((d : Numeric F) × ((e : Numeric F) × (Memᴰ d les × (Memᴰ e ges × Apart d e p)))))
  unfolding over_les
  over_les-In [] ges p g =
      (inl, λ h. elim h [ inl old ↦ old | inr (d, (e, (m, _))) ↦ absurd (Memᴰ.not-nil m) ])
  over_les-In ((a, (op, v)) ∷ les) ges p g =
      let first = over_ges-In a v ges p g in
      let rest = over_les-In les ges p (over_ges f a v ges g) in
      (
        λ h. elim (rest.0 h) [
          | inl m ↦ elim (first.0 m) [
            | inl old ↦ inl old
            | inr (e, (m', q)) ↦ inr ((a, (op, v)), (e, (Memᴰ.head refl, (m', q))))
          ]
          | inr (d, (e, (m, q))) ↦ inr (d, (e, (Memᴰ.tail m, q)))
        ],
        λ h. elim h [
          | inl old ↦ rest.1 (inl (first.1 (inl old)))
          | inr (d, (e, (m, (m', q)))) ↦ elim (Memᴰ.cases_cons m) [
            | inl same ↦ rest.1 (inl (first.1 (inr (e, (m', subst (λ z. Apart z e p) same q)))))
            | inr later ↦ rest.1 (inr (d, (e, (later, (m', q)))))
          ]
        ],
      )

  -- An upper and a greater lower bound of one field.
  abbrev pub Clash : List (Numeric F) → Pair → Type 0
  Clash es p =
      (d : Numeric F) × ((e : Numeric F) × ((Memᴰ d es × (d.1.0 ≡ NumericOp.le))
          × ((Memᴰ e es × (e.1.0 ≡ NumericOp.ge)) × Apart d e p)))

  pub numeric_pairs-In :
      (lists : List (List (Numeric F))) (p : Pair) (g : ConstraintConflictGraph)
      → In p (numeric_pairs f lists g)
        ↔ (In p g ⊎ ((es : List (Numeric F)) × (Memᴰ es lists × Clash es p)))
  unfolding numeric_pairs
  numeric_pairs-In [] p g =
      (inl, λ h. elim h [ inl old ↦ old | inr (es, (m, _)) ↦ absurd (Memᴰ.not-nil m) ])
  numeric_pairs-In (es ∷ lists) p g =
      let les = filter (λ e. is_le e.1.0) es in
      let ges = filter (λ e. is_ge e.1.0) es in
      let first = over_les-In les ges p g in
      let rest = numeric_pairs-In lists p (over_les f les ges g) in
      (
        λ h. elim (rest.0 h) [
          | inl m ↦ elim (first.0 m) [
            | inl old ↦ inl old
            | inr (d, (e, (md, (me, q)))) ↦
                let (in_d, low) = filter-Memᴰ (λ e. is_le e.1.0) es d md in
                let (in_e, high) = filter-Memᴰ (λ e. is_ge e.1.0) es e me in
                inr (
                  es,
                  (
                    Memᴰ.head refl,
                    (
                      d,
                      (e, ((in_d, (is_le_iff d.1.0).0 low), ((in_e, (is_ge_iff e.1.0).0 high), q))),
                    ),
                  ),
                )
          ]
          | inr (fs, (m, q)) ↦ inr (fs, (Memᴰ.tail m, q))
        ],
        λ h. elim h [
          | inl old ↦ rest.1 (inl (first.1 (inl old)))
          | inr (fs, (m, q)) ↦ elim (Memᴰ.cases_cons m) [
            | inl same ↦
                let (d, (e, ((in_d, low), ((in_e, high), far)))) = subst (λ z. Clash z p) same q in
                rest.1 (
                  inl (
                    first.1 (
                      inr (
                        d,
                        (
                          e,
                          (
                            Memᴰ-filter (λ e. is_le e.1.0) es d in_d ((is_le_iff d.1.0).1 low),
                            (
                              Memᴰ-filter (λ e. is_ge e.1.0) es e in_e ((is_ge_iff e.1.0).1 high),
                              far,
                            ),
                          ),
                        ),
                      ))))
            | inr later ↦ rest.1 (inr (fs, (later, q)))
          ]
        ],
      )
