-- ===== src/Constraints/Clusters/Graph.antt =====
-- crates/h2ai-constraints/src/clustering.rs: the links in `adj`.
use mathlib.Core.List.{Memᴰ}
use mathlib.Core.List.Memᴰ
use mathlib.Core.Path.{subst}
use h2ai_control_plane.Prelude.{
  ◌≡◌, ◌⊎◌, ◌↔◌, refl, ap, ◌∙◌, String, true, List, [], ◌∷◌, eq_string, Bool-cases, inl, inr,
}
use h2ai_control_plane.HashMap.Multi.{entries, push, entry-push, touch, entries-touch}
use h2ai_control_plane.HashSet
use h2ai_control_plane.Constraints.Types.{ConstraintDoc}
use h2ai_control_plane.Constraints.Clusters.{Adjacency, link_all, link_docs}

-- The link of an id and a known one that its document refers to, in either direction.
abbrev LinkedBy : List String → String → List String → String → String → Type 0
LinkedBy known id rels x y =
    (rel : String) × (Memᴰ rel rels
      × ((HashSet.contains known rel ≡ true) × (((x ≡ id) × (y ≡ rel)) ⊎ ((x ≡ rel) × (y ≡ id)))))

link_all-entries :
    (known : List String) (id : String) (rels : List String) (adj : Adjacency) (x y : String)
    → Memᴰ y (entries (link_all known id rels adj) x)
      ↔ (Memᴰ y (entries adj x) ⊎ LinkedBy known id rels x y)
unfolding link_all
link_all-entries known id [] adj x y =
    (inl, λ h. elim h [ inl old ↦ old | inr (rel, (m, _)) ↦ absurd (Memᴰ.not-nil m) ])
link_all-entries known id (rel ∷ rels) adj x y = elim (Bool-cases (HashSet.contains known rel)) [
  | inl is_known ↦
      let adj₁ = push (push adj id rel) rel id in
      let rest = link_all-entries known id rels adj₁ x y in
      let one = entry-push adj id x rel y in
      let two = entry-push (push adj id rel) rel x id y in
      rw is_known (
        λ h. elim (rest.0 h) [
          | inl m ↦ elim (two.0 m) [
            | inl m' ↦ elim (one.0 m') [
              | inl old ↦ inl old
              | inr q ↦ inr (rel, (Memᴰ.head refl, (is_known, inl q)))
            ]
            | inr q ↦ inr (rel, (Memᴰ.head refl, (is_known, inr q)))
          ]
          | inr (r, (m, q)) ↦ inr (r, (Memᴰ.tail m, q))
        ],
        λ h. elim h [
          | inl old ↦ rest.1 (inl (two.1 (inl (one.1 (inl old)))))
          | inr (r, (m, (k, q))) ↦ elim (Memᴰ.cases_cons m) [
            | inl e ↦ rest.1 (
                inl (elim q [
                  | inl (p, p') ↦ two.1 (inl (one.1 (inr (p, p' ∙ e))))
                  | inr (p, p') ↦ two.1 (inr (p ∙ e, p'))
                ]))
            | inr later ↦ rest.1 (inr (r, (later, (k, q))))
          ]
        ],
      )
  | inr unknown ↦
      let rest = link_all-entries known id rels adj x y in
      rw unknown (
        λ h. elim (rest.0 h) [ inl old ↦ inl old | inr (r, (m, q)) ↦ inr (r, (Memᴰ.tail m, q)) ],
        λ h. elim h [
          | inl old ↦ rest.1 (inl old)
          | inr (r, (m, (k, q))) ↦ elim (Memᴰ.cases_cons m) [
            | inl e ↦ cc (k, unknown, ap (HashSet.contains known) e)
            | inr later ↦ rest.1 (inr (r, (later, (k, q))))
          ]
        ],
      )
]

module _ {F J : Type 0} where
  -- A document of one of the two ids refers to the other one, which is known.
  pub record Linked (known : List String) (docs : List (ConstraintDoc F J)) (x y : String)
      : Type 0 where
    pub doc : ConstraintDoc F J
    pub listed : Memᴰ doc docs
    pub rel : String
    pub refers : Memᴰ rel doc.related_to
    pub is_known : HashSet.contains known rel ≡ true
    pub ends : ((x ≡ doc.id) × (y ≡ rel)) ⊎ ((x ≡ rel) × (y ≡ doc.id))

  pub link_docs-entries :
      (known : List String) (docs : List (ConstraintDoc F J)) (adj : Adjacency) (x y : String)
      → Memᴰ y (entries (link_docs known docs adj) x)
        ↔ (Memᴰ y (entries adj x) ⊎ Linked known docs x y)
  unfolding link_docs
  link_docs-entries known [] adj x y =
      (inl, λ h. elim h [ inl old ↦ old | inr l ↦ absurd (Memᴰ.not-nil l.listed) ])
  link_docs-entries known (d ∷ docs) adj x y =
      let first : Memᴰ y (entries (link_all known d.id d.related_to (touch adj d.id)) x)
          ↔ (Memᴰ y (entries adj x) ⊎ LinkedBy known d.id d.related_to x y) =
        rw (← entries-touch adj d.id x)
          (link_all-entries known d.id d.related_to (touch adj d.id) x y) in
      let rest =
        link_docs-entries known docs (link_all known d.id d.related_to (touch adj d.id)) x y in
      (
        λ h. elim (rest.0 h) [
          | inl m ↦ elim (first.0 m) [
            | inl old ↦ inl old
            | inr (rel, (m', (k, q))) ↦ inr (record {
              doc = d;
              listed = Memᴰ.head refl;
              rel = rel;
              refers = m';
              is_known = k;
              ends = q;
            })
          ]
          | inr l ↦ inr (record {
            doc = l.doc;
            listed = Memᴰ.tail l.listed;
            rel = l.rel;
            refers = l.refers;
            is_known = l.is_known;
            ends = l.ends;
          })
        ],
        λ h. elim h [
          | inl old ↦ rest.1 (inl (first.1 (inl old)))
          | inr l ↦ elim (Memᴰ.cases_cons l.listed) [
            | inl e ↦ rest.1 (
                inl (
                  first.1 (
                    inr (
                      subst (λ z. LinkedBy known z.id z.related_to x y) e
                        (l.rel, (l.refers, (l.is_known, l.ends)))))))
            | inr later ↦ rest.1 (
                inr (record {
                  doc = l.doc;
                  listed = later;
                  rel = l.rel;
                  refers = l.refers;
                  is_known = l.is_known;
                  ends = l.ends;
                }))
          ]
        ],
      )
