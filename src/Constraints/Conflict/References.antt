-- ===== src/Constraints/Conflict/References.antt =====
-- crates/h2ai-constraints/src/conflict.rs: the pairs of references.
use mathlib.Core.List.{Memᴰ}
use mathlib.Core.List.Memᴰ
use h2ai_control_plane.Prelude.{◌≡◌, ◌⊎◌, ◌↔◌, refl, ap, ◌∙◌, String, List, [], ◌∷◌, inl, inr}
use mathlib.Core.Path.{subst}
use h2ai_control_plane.HashSet
use h2ai_control_plane.HashSet.{contains-insert}
use h2ai_control_plane.Constraints.Types.{ConstraintDoc}
use h2ai_control_plane.Constraints.Conflict.{
  Pair, ConstraintConflictGraph, canonical_pair, eq_pair, relate, related_pairs,
}
use h2ai_control_plane.Constraints.Conflict.Inserts.{In, In-insert}

pub relate-In :
    (id : String) (ids : List String) (p : Pair) (g : ConstraintConflictGraph)
    → In p (relate id ids g) ↔ (In p g ⊎ ((b : String) × (Memᴰ b ids × (p ≡ canonical_pair id b))))
unfolding relate
relate-In id [] p g =
    (inl, λ h. elim h [ inl old ↦ old | inr (b, (m, _)) ↦ absurd (Memᴰ.not-nil m) ])
relate-In id (b ∷ ids) p g =
    let first = In-insert p (canonical_pair id b) g in
    let rest = relate-In id ids p (HashSet.insert g (canonical_pair id b)) in
    (
      λ h. elim (rest.0 h) [
        | inl m ↦ elim (first.0 m) [ inl old ↦ inl old | inr q ↦ inr (b, (Memᴰ.head refl, q)) ]
        | inr (c, (m, q)) ↦ inr (c, (Memᴰ.tail m, q))
      ],
      λ h. elim h [
        | inl old ↦ rest.1 (inl (first.1 (inl old)))
        | inr (c, (m, q)) ↦ elim (Memᴰ.cases_cons m) [
          | inl same ↦ rest.1 (inl (first.1 (inr (q ∙ ap (canonical_pair id) same))))
          | inr later ↦ rest.1 (inr (c, (later, q)))
        ]
      ],
    )

module _ {F J : Type 0} where
  -- A document of one of the ids that names the other one.
  pub record Related (docs : List (ConstraintDoc F J)) (p : Pair) : Type 0 where
    pub doc : ConstraintDoc F J
    pub listed : Memᴰ doc docs
    pub other : String
    pub related : Memᴰ other doc.related_to
    pub pair : p ≡ canonical_pair doc.id other

  pub related_pairs-In :
      (docs : List (ConstraintDoc F J)) (p : Pair) (g : ConstraintConflictGraph)
      → In p (related_pairs docs g) ↔ (In p g ⊎ Related docs p)
  unfolding related_pairs
  related_pairs-In [] p g =
      (inl, λ h. elim h [ inl old ↦ old | inr r ↦ absurd (Memᴰ.not-nil r.listed) ])
  related_pairs-In (d ∷ ds) p g =
      let first = relate-In d.id d.related_to p g in
      let rest = related_pairs-In ds p (relate d.id d.related_to g) in
      (
        λ h. elim (rest.0 h) [
          | inl m ↦ elim (first.0 m) [
            | inl old ↦ inl old
            | inr (b, (m', q)) ↦
                inr (record { doc = d; listed = Memᴰ.head refl; other = b; related = m'; pair = q })
          ]
          | inr r ↦ inr (record {
            doc = r.doc;
            listed = Memᴰ.tail r.listed;
            other = r.other;
            related = r.related;
            pair = r.pair;
          })
        ],
        λ h. elim h [
          | inl old ↦ rest.1 (inl (first.1 (inl old)))
          | inr r ↦ elim (Memᴰ.cases_cons r.listed) [
            | inl same ↦ rest.1 (
                inl (
                  first.1 (
                    inr (
                      r.other,
                      (
                        subst (λ z. Memᴰ r.other z.related_to) same r.related,
                        r.pair ∙ ap (λ z. canonical_pair z.id r.other) same,
                      ),
                    ))))
            | inr later ↦ rest.1 (
                inr (record {
                  doc = r.doc;
                  listed = later;
                  other = r.other;
                  related = r.related;
                  pair = r.pair;
                }))
          ]
        ],
      )
