-- ===== src/Constraints/Clusters/Theorem.antt =====
-- crates/h2ai-constraints/src/clustering.rs: the clusters are the connected components.
use mathlib.Core.List.{Memᴰ}
use mathlib.Core.List.Memᴰ
use mathlib.Core.Path.{subst}
use h2ai_control_plane.Prelude.{
  ◌≡◌, ◌⊎◌, ◌↔◌, refl, String, true, some, List, [], ◌∷◌, arith, eq_string, length-map, concat, inl,
  inr,
}
use h2ai_control_plane.HashMap
use h2ai_control_plane.HashMap.Multi.{entries}
use h2ai_control_plane.HashSet
use h2ai_control_plane.HashSet.{contains-extend}
use h2ai_control_plane.Members.{Once}
use h2ai_control_plane.Constraints.Types.{ConstraintDoc}
use h2ai_control_plane.Constraints.Clusters.{
  Adjacency, link_docs, ids, clusters_from, build_clusters,
}
use h2ai_control_plane.Constraints.Clusters.Graph.{Linked, link_docs-entries}
use h2ai_control_plane.Constraints.Clusters.Bfs.{Walk, here, step}
use h2ai_control_plane.Constraints.Clusters.Components.{Parts, from-Parts}

module _ {F J : Type 0} (docs : List (ConstraintDoc F J)) where
  -- A document of the one id refers to the other one.
  pub record Refers (x y : String) : Type 0 where
    pub doc : ConstraintDoc F J
    pub listed : Memᴰ doc docs
    pub named : x ≡ doc.id
    pub refers : Memᴰ y doc.related_to

  -- The ids of documents that references, in either direction, lead to.
  pub data Joined (x : String) : String → Type 0 where
    start : Joined x x
    follow : {u v : String} → Joined x u → Refers u v ⊎ Refers v u → Memᴰ v (ids docs) → Joined x v

-- The clusters have the id of every document once, and no other; of an id they have in one cluster those
-- that references join it to.
pub record IsClustering {F J : Type 0} (docs : List (ConstraintDoc F J))
    (clusters : List (List String)) : Type 0 where
  pub members : (x : String) → Memᴰ x (concat clusters) ↔ Memᴰ x (ids docs)
  pub once : Once (concat clusters)
  pub component :
      (c : List String) (x y : String) → Memᴰ c clusters → Memᴰ x c → Memᴰ y c ↔ Joined docs x y

Memᴰ-concat_elim {ℓ} :
    {A : Type ℓ} (a : A) (xss : List (List A))
    → Memᴰ a (concat xss)
    → (xs : List A) × (Memᴰ xs xss × Memᴰ a xs)
Memᴰ-concat_elim a [] m = absurd (Memᴰ.not-nil m)
Memᴰ-concat_elim a (xs ∷ xss) m = elim (Memᴰ.append_cases xs m) [
  | inl i ↦ (xs, (Memᴰ.head refl, i))
  | inr i ↦ let (ys, (at, j)) = Memᴰ-concat_elim a xss i in (ys, (Memᴰ.tail at, j))
]

module _ (adj : Adjacency)
    (symmetric : (x y : String) → Memᴰ y (entries adj x) → Memᴰ x (entries adj y)) where
  Walk-trans : {x y z : String} → Walk adj x y → Walk adj y z → Walk adj x z
  Walk-trans w here = w
  Walk-trans w (step v e) = step (Walk-trans w v) e

  Walk-symm : {x y : String} → Walk adj x y → Walk adj y x
  Walk-symm here = here
  Walk-symm (step {u} {v} w e) = Walk-trans (step here (symmetric u v e)) (Walk-symm w)

module _ {F J : Type 0} (docs : List (ConstraintDoc F J)) where
  abbrev known : List String
  known = HashSet.extend [] (ids docs)

  abbrev adj : Adjacency
  adj = link_docs known docs []

  known_iff : (x : String) → (HashSet.contains known x ≡ true) ↔ Memᴰ x (ids docs)
  unfolding HashSet.contains
  known_iff x = ground (arith, contains-extend [] (ids docs) x)

  listed_id : (d : ConstraintDoc F J) → Memᴰ d docs → Memᴰ d.id (ids docs)
  listed_id d m = Memᴰ.map (λ z. z.id) m

  edge_iff : (x y : String) → Memᴰ y (entries adj x) ↔ Linked known docs x y
  unfolding HashMap.get
  edge_iff x y =
      let e = link_docs-entries known docs [] x y in
      (λ m. elim (e.0 m) [ inl old ↦ absurd (Memᴰ.not-nil old) | inr l ↦ l ], λ l. e.1 (inr l))

  symmetric : (x y : String) → Memᴰ y (entries adj x) → Memᴰ x (entries adj y)
  symmetric x y m =
      let l = (edge_iff x y).0 m in
      (edge_iff y x).1 (record {
        doc = l.doc;
        listed = l.listed;
        rel = l.rel;
        refers = l.refers;
        is_known = l.is_known;
        ends = elim l.ends [ inl (p, q) ↦ inr (q, p) | inr (p, q) ↦ inl (q, p) ];
      })

  inside : (x y : String) → Memᴰ y (entries adj x) → Memᴰ y (ids docs)
  inside x y m =
      let l = (edge_iff x y).0 m in
      elim l.ends [
        | inl (p, q) ↦ rw q ((known_iff l.rel).0 l.is_known)
        | inr (p, q) ↦ rw q (listed_id l.doc l.listed)
      ]

  Walk-Joined : {x y : String} → Walk adj x y → Joined docs x y
  Walk-Joined here = start
  Walk-Joined (step {u} {v} w m) =
      let l = (edge_iff u v).0 m in
      follow (Walk-Joined w)
        (elim l.ends [
          | inl (p, q) ↦
              inl (record { doc = l.doc; listed = l.listed; named = p; refers = rw q l.refers })
          | inr (p, q) ↦
              inr (record { doc = l.doc; listed = l.listed; named = q; refers = rw p l.refers })
        ])
        (inside u v m)

  Joined-known : {x y : String} → Joined docs x y → Memᴰ x (ids docs) → Memᴰ y (ids docs)
  Joined-known start k = k
  Joined-known (follow j r m) k = m

  Joined-Walk : {x y : String} → Joined docs x y → Memᴰ x (ids docs) → Walk adj x y
  Joined-Walk start k = here
  Joined-Walk (follow {u} {v} j r m) k = step (Joined-Walk j k) (
      (edge_iff u v).1 (elim r [
        | inl f ↦ record {
          doc = f.doc;
          listed = f.listed;
          rel = v;
          refers = f.refers;
          is_known = (known_iff v).1 m;
          ends = inl (f.named, refl);
        }
        | inr f ↦ record {
          doc = f.doc;
          listed = f.listed;
          rel = u;
          refers = f.refers;
          is_known = (known_iff u).1 (Joined-known j k);
          ends = inr (refl, f.named);
        }
      ]))

  Walk-known : {x y : String} → Walk adj x y → Memᴰ x (ids docs) → Memᴰ y (ids docs)
  Walk-known here k = k
  Walk-known (step {u} {v} w m) k = inside u v m

  Parts-IsClustering :
      (clusters : List (List String))
      → Parts adj [] (ids docs) clusters
      → IsClustering docs clusters
  unfolding HashSet.contains
  Parts-IsClustering clusters p = record {
    members = λ x. (
      λ m.
          let (c, (at, i)) = Memᴰ-concat_elim x clusters m in
          let (r, (r_known, w)) = p.component c at in Walk-known ((w x).0 i) r_known,
      λ m. elim (p.covers x m) [ inl e ↦ cc e | inr i ↦ i ],
    );
    once = p.once;
    component = λ c x y at i.
        let (r, (r_known, w)) = p.component c at in
        (
          λ j.
              Walk-Joined
                (Walk-trans adj symmetric (Walk-symm adj symmetric ((w x).0 i)) ((w y).0 j)),
          λ j. (w y).1 (
              Walk-trans adj symmetric ((w x).0 i)
                (Joined-Walk j (Walk-known ((w x).0 i) r_known))),
        );
  }

  -- `build_clusters` ends, and its clusters have the id of every document once, and no other; two ids are
  -- in one cluster exactly if references between documents, in either direction, join them.
  pub build_clusters-IsClustering :
      (clusters : List (List String)) × ((build_clusters docs ≡ some clusters)
        × IsClustering docs clusters)
  unfolding build_clusters HashSet.contains
  build_clusters-IsClustering =
      let (clusters, (ran, p)) =
        from-Parts adj (ids docs) inside symmetric (ids docs) [] (λ x y i e. cc i) (λ x m. m) in
      (
        clusters,
        (
          subst (λ n. clusters_from n adj (ids docs) [] ≡ some clusters)
              (length-map (λ d. d.id) docs) ran,
          Parts-IsClustering clusters p,
        ),
      )
