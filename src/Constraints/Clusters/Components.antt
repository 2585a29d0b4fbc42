-- ===== src/Constraints/Clusters/Components.antt =====
-- crates/h2ai-constraints/src/clustering.rs: each search finds a connected component.
use mathlib.Core.List.{Memᴰ, append-nil}
use mathlib.Core.List.Memᴰ
use h2ai_control_plane.Prelude.{
  ℕ, ◌+◌, ◌≤◌, ◌≡◌, ◌⊎◌, ◌↔◌, refl, ap, ◌∙◌, String, true, false, not, some, List, [], ◌∷◌, ◌++◌,
  arith, eq_string, length, concat, str_eq_iff, Bool-cases, inl, inr,
}
use h2ai_control_plane.HashMap.Multi.{entries}
use h2ai_control_plane.HashSet
use h2ai_control_plane.HashSet.{contains-insert}
use h2ai_control_plane.Members.{Once, Once-append, Memᴰ-cons, length-filter}
use h2ai_control_plane.Constraints.Clusters.{Adjacency, bfs, clusters_from}
use h2ai_control_plane.Constraints.Clusters.Scan.{unseen, unseen-insert-lt}
use h2ai_control_plane.Constraints.Clusters.Bfs.{Walk, here, step, Inv, bfs-Inv}

-- A set of ids that no link leaves.
abbrev pub Closed : Adjacency → List String → Type 0
Closed adj visited =
    (x y : String)
    → HashSet.contains visited x ≡ true
    → Memᴰ y (entries adj x)
    → HashSet.contains visited y ≡ true

-- The clusters of the ids that were not visited before.
pub record Parts (adj : Adjacency) (visited remaining : List String) (clusters : List (List String))
    : Type 0 where
  pub covers :
      (x : String)
      → Memᴰ x remaining
      → (HashSet.contains visited x ≡ true) ⊎ Memᴰ x (concat clusters)
  pub apart : (x : String) → Memᴰ x (concat clusters) → HashSet.contains visited x ≡ false
  pub once : Once (concat clusters)
  pub component :
      (c : List String)
      → Memᴰ c clusters
      → (r : String) × (Memᴰ r remaining × ((x : String) → Memᴰ x c ↔ Walk adj r x))

-- The fuel is enough at the start of a search.
start_work :
    (base : List String) (r : String) (nodes : List String)
    → HashSet.contains base r ≡ false
    → Memᴰ r nodes
    → unseen (HashSet.insert base r) nodes + 1 ≤ length nodes
start_work base r nodes new m = omega (
  arith,
  unseen-insert-lt base nodes r new m,
  length-filter (λ n. not (HashSet.contains base n)) nodes,
)

module _ (adj : Adjacency) (fuel : ℕ) where
  from-nil : (visited : List String) → clusters_from fuel adj [] visited ≡ some []
  unfolding clusters_from
  from-nil visited = refl

  from-old :
      (id : String) (remaining visited : List String)
      → HashSet.contains visited id ≡ true
      → clusters_from fuel adj (id ∷ remaining) visited ≡ clusters_from fuel adj remaining visited
  unfolding clusters_from
  from-old id remaining visited old = rw (clusters_from, old) refl

  from-new :
      (id : String) (remaining visited cluster visited' : List String)
      (clusters : List (List String))
      → HashSet.contains visited id ≡ false
      → bfs fuel adj [] (record { visited = HashSet.insert visited id; queue = id ∷ [] })
        ≡ some (cluster, visited')
      → clusters_from fuel adj remaining visited' ≡ some clusters
      → clusters_from fuel adj (id ∷ remaining) visited ≡ some (cluster ∷ clusters)
  unfolding clusters_from
  from-new id remaining visited cluster visited' clusters new ran rest =
      rw (clusters_from, new, ran, rest) refl

module _ (adj : Adjacency) (nodes : List String)
    (inside : (x y : String) → Memᴰ y (entries adj x) → Memᴰ y nodes)
    (symmetric : (x y : String) → Memᴰ y (entries adj x) → Memᴰ x (entries adj y)) where
  start-Inv :
      (visited : List String) (id : String)
      → HashSet.contains visited id ≡ false
      → Inv adj visited id [] (record { visited = HashSet.insert visited id; queue = id ∷ [] })
  start-Inv visited id new = record {
    marked = λ x. ground (
      arith,
      contains-insert visited id x,
      str_eq_iff id x,
      Memᴰ-cons x id [],
      λ (m : Memᴰ x []). Memᴰ.not-nil m,
    );
    fresh = λ x m. ap (HashSet.contains visited) (Memᴰ.eq_of_singleton m) ∙ new;
    once = (λ m. Memᴰ.not-nil m, tt);
    reached = λ x m. rw (Memᴰ.eq_of_singleton m) here;
    closed = λ x y m e. absurd (Memᴰ.not-nil m);
    source = Memᴰ.head refl;
  }

  -- A cluster that the search found has all that can be reached.
  complete :
      (base : List String) (r : String) (c visited : List String)
      → Closed adj base
      → Inv adj base r c (record { visited = visited; queue = [] })
      → (x : String) → Walk adj r x
      → Memᴰ x (c ++ [])
  complete base r c visited closed h r' here = h.source
  complete base r c visited closed h x (step {u} {v} w e) =
      let at_u = complete base r c visited closed h u w in
      elim ((h.marked x).0 (h.closed u x (rw append-nil at at_u) e)) [
        | inl old ↦ cc (closed x u old (symmetric u x e), h.fresh u at_u)
        | inr m ↦ m
      ]

  -- The search from a new id, with fuel for all nodes.
  pub record Found (fuel : ℕ) (base : List String) (r : String) : Type 0 where
    pub cluster : List String
    pub visited : List String
    pub ran :
        bfs fuel adj [] (record { visited = HashSet.insert base r; queue = r ∷ [] })
        ≡ some (cluster, visited)
    pub marked :
        (x : String)
        → (HashSet.contains visited x ≡ true) ↔ ((HashSet.contains base x ≡ true) ⊎ Memᴰ x cluster)
    pub fresh : (x : String) → Memᴰ x cluster → HashSet.contains base x ≡ false
    pub once : Once cluster
    pub component : (x : String) → Memᴰ x cluster ↔ Walk adj r x
    pub closed : Closed adj visited

  found :
      (base : List String) (r : String)
      → Closed adj base
      → HashSet.contains base r ≡ false
      → Memᴰ r nodes
      → Found (length nodes) base r
  found base r closed new m =
      let (c, (visited, (ran, h))) =
        bfs-Inv adj nodes inside base r (length nodes) []
          (record { visited = HashSet.insert base r; queue = r ∷ [] }) (start-Inv base r new)
          (start_work base r nodes new m) in
      let whole : c ++ [] ≡ c = append-nil c in
      let marked : (x : String)
          → (HashSet.contains visited x ≡ true) ↔ ((HashSet.contains base x ≡ true) ⊎ Memᴰ x c) =
        λ x. rw whole at (h.marked x) in
      record {
        cluster = c;
        visited = visited;
        ran = ran;
        marked = marked;
        fresh = λ x i. h.fresh x (rw whole i);
        once = rw whole at h.once;
        component = λ x. (
          λ i. h.reached x (rw whole i),
          λ w. rw whole at (complete base r c visited closed h x w),
        );
        closed = λ x y i e. elim ((marked x).0 i) [
          | inl old ↦ (marked y).1 (inl (closed x y old e))
          | inr at ↦ h.closed x y at e
        ];
      }

  pub from-Parts :
      (remaining visited : List String)
      → Closed adj visited
      → ((x : String) → Memᴰ x remaining → Memᴰ x nodes)
      → (clusters : List (List String)) × ((clusters_from (length nodes) adj remaining visited
            ≡ some clusters)
          × Parts adj visited remaining clusters)
  from-Parts [] visited closed sub = (
    [],
    (
      from-nil adj (length nodes) visited,
      record {
        covers = λ x m. absurd (Memᴰ.not-nil m);
        apart = λ x m. absurd (Memᴰ.not-nil m);
        once = tt;
        component = λ c m. absurd (Memᴰ.not-nil m);
      },
    ),
  )
  from-Parts (id ∷ remaining) visited closed sub = elim (Bool-cases (HashSet.contains visited id)) [
    | inl old ↦
        let (clusters, (ran, p)) =
          from-Parts remaining visited closed (λ x m. sub x (Memᴰ.tail m)) in
        (
          clusters,
          (
            from-old adj (length nodes) id remaining visited old ∙ ran,
            record {
              covers = λ x m. elim (Memᴰ.cases_cons m) [
                | inl e ↦ inl (ap (HashSet.contains visited) e ∙ old)
                | inr later ↦ p.covers x later
              ];
              apart = p.apart;
              once = p.once;
              component = λ c m. let (r, (at, w)) = p.component c m in (r, (Memᴰ.tail at, w));
            },
          ),
        )
    | inr new ↦
        let f = found visited id closed new (sub id (Memᴰ.head refl)) in
        let (clusters, (ran, p)) =
          from-Parts remaining f.visited f.closed (λ x m. sub x (Memᴰ.tail m)) in
        (
          f.cluster ∷ clusters,
          (
            from-new adj (length nodes) id remaining visited f.cluster f.visited clusters new f.ran
                ran,
            record {
              covers = λ x m. elim (Memᴰ.cases_cons m) [
                | inl e ↦ inr (Memᴰ.append_left (concat clusters) ((f.component x).1 (rw e here)))
                | inr later ↦ elim (p.covers x later) [
                  | inl seen ↦ elim ((f.marked x).0 seen) [
                    | inl before ↦ inl before
                    | inr i ↦ inr (Memᴰ.append_left (concat clusters) i)
                  ]
                  | inr i ↦ inr (Memᴰ.append_right f.cluster i)
                ]
              ];
              apart = λ x m. elim (Memᴰ.append_cases f.cluster m) [
                | inl i ↦ f.fresh x i
                | inr i ↦ ground (arith, p.apart x i, f.marked x)
              ];
              once =
                  Once-append f.cluster (concat clusters) f.once p.once
                    (λ a i i'. cc (p.apart a i', (f.marked a).1 (inr i)));
              component = λ c m. elim (Memᴰ.cases_cons m) [
                | inl e ↦ (id, (Memᴰ.head refl, λ x. rw e (f.component x)))
                | inr later ↦ let (r, (at, w)) = p.component c later in (r, (Memᴰ.tail at, w))
              ];
            },
          ),
        )
  ]
