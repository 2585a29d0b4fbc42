-- ===== src/Constraints/Conflict/Reversals.antt =====
-- crates/h2ai-constraints/src/conflict.rs: the pairs of reversed orderings.
use mathlib.Core.List.{Memᴰ}
use mathlib.Core.List.Memᴰ
use h2ai_control_plane.Prelude.{
  ◌≡◌, ◌⊎◌, ◌↔◌, refl, sym, ap, ◌∙◌, true, List, [], ◌∷◌, arith, ◌≢◌, inl, inr, str_eq, str_eq_iff,
  if◌then◌else◌, ◌&&◌,
}
use h2ai_control_plane.Constraints.Conflict.Pairs.{canonical_pair_comm}
use h2ai_control_plane.HashSet
use h2ai_control_plane.HashSet.{contains-insert}
use h2ai_control_plane.Constraints.Conflict.{
  Ordering, Pair, ConstraintConflictGraph, canonical_pair, eq_pair, against, ordering_pairs,
}
use h2ai_control_plane.Constraints.Conflict.Inserts.{In, In-insert_if}

-- The second ordering is the first one reversed.
abbrev pub Opposed : Ordering → Ordering → Type 0
Opposed (a, (x, y)) (b, (u, v)) = (x ≡ v) × (y ≡ u)

against-In :
    (o : Ordering) (os : List Ordering) (p : Pair) (g : ConstraintConflictGraph)
    → In p (against o os g)
      ↔ (In p g ⊎ ((o' : Ordering) × (Memᴰ o' os × (Opposed o o' × (p ≡ canonical_pair o.0 o'.0)))))
unfolding against
against-In o [] p g =
    (inl, λ h. elim h [ inl old ↦ old | inr (o', (m, _)) ↦ absurd (Memᴰ.not-nil m) ])
against-In (a, (x, y)) ((b, (u, v)) ∷ os) p g =
    let test = str_eq x v && str_eq y u in
    let pair = canonical_pair a b in
    let first = In-insert_if test p pair g in
    let rest = against-In (a, (x, y)) os p (if test then HashSet.insert g pair else g) in
    let opposed : (test ≡ true) ↔ ((x ≡ v) × (y ≡ u)) =
      ground (arith, str_eq_iff x v, str_eq_iff y u) in
    (
      λ h. elim (rest.0 h) [
        | inl m ↦ elim (first.0 m) [
          | inl old ↦ inl old
          | inr (e, q) ↦ inr ((b, (u, v)), (Memᴰ.head refl, (opposed.0 e, q)))
        ]
        | inr (o', (m, q)) ↦ inr (o', (Memᴰ.tail m, q))
      ],
      λ h. elim h [
        | inl old ↦ rest.1 (inl (first.1 (inl old)))
        | inr (o', (m, (q, e))) ↦ elim (Memᴰ.cases_cons m) [
          | inl same ↦
              rest.1
                (inl (first.1 (inr (opposed.1 (ground (arith, same, q)), ground (arith, same, e)))))
          | inr later ↦ rest.1 (inr (o', (later, (q, e))))
        ]
      ],
    )

pub ordering_pairs_sound :
    (os : List Ordering) (p : Pair) (g : ConstraintConflictGraph)
    → In p (ordering_pairs os g)
    → In p g
      ⊎ ((o : Ordering) × ((o' : Ordering) × (Memᴰ o os
              × (Memᴰ o' os × (Opposed o o' × (p ≡ canonical_pair o.0 o'.0))))))
unfolding ordering_pairs
ordering_pairs_sound [] p g h = inl h
ordering_pairs_sound (o ∷ os) p g h = elim (ordering_pairs_sound os p (against o os g) h) [
  | inl m ↦ elim ((against-In o os p g).0 m) [
    | inl old ↦ inl old
    | inr (o', (m', q)) ↦ inr (o, (o', (Memᴰ.head refl, (Memᴰ.tail m', q))))
  ]
  | inr (o₁, (o₂, (m₁, (m₂, q)))) ↦ inr (o₁, (o₂, (Memᴰ.tail m₁, (Memᴰ.tail m₂, q))))
]

pub ordering_pairs-keeps :
    (os : List Ordering) (p : Pair) (g : ConstraintConflictGraph)
    → In p g
    → In p (ordering_pairs os g)
unfolding ordering_pairs
ordering_pairs-keeps [] p g h = h
ordering_pairs-keeps (o ∷ os) p g h =
    ordering_pairs-keeps os p (against o os g) ((against-In o os p g).1 (inl h))

pub ordering_pairs_complete :
    (os : List Ordering) (o o' : Ordering) (g : ConstraintConflictGraph)
    → o.0 ≢ o'.0
    → Opposed o o'
    → Memᴰ o os
    → Memᴰ o' os
    → In (canonical_pair o.0 o'.0) (ordering_pairs os g)
unfolding ordering_pairs
ordering_pairs_complete [] o o' g differ opp m m' = absurd (Memᴰ.not-nil m)
ordering_pairs_complete (z ∷ os) o o' g differ opp m m' = elim (Memᴰ.cases_cons m) [
  | inl e ↦ elim (Memᴰ.cases_cons m') [
    | inl e' ↦ absurd (differ (ap (λ q. q.0) (e ∙ sym e')))
    | inr later' ↦
        ordering_pairs-keeps os _ (against z os g) (
          (against-In z os _ g).1 (inr (o', (later', (ground (arith, e, opp), ground (arith, e))))))
  ]
  | inr later ↦ elim (Memᴰ.cases_cons m') [
    | inl e' ↦ ordering_pairs-keeps os _ (against z os g) (
        (against-In z os _ g).1 (
          inr (
            o,
            (later, (ground (arith, e', opp), canonical_pair_comm o.0 o'.0 ∙ ground (arith, e'))),
          )))
    | inr later' ↦ ordering_pairs_complete os o o' (against z os g) differ opp later later'
  ]
]
