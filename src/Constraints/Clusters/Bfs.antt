-- ===== src/Constraints/Clusters/Bfs.antt =====
-- crates/h2ai-constraints/src/clustering.rs: one breadth-first search.
use mathlib.Core.List.{Memᴰ, append_assoc}
use mathlib.Core.List.Memᴰ
use mathlib.Core.Path.{subst}
use h2ai_control_plane.Prelude.{
  ℕ, zero, suc, ◌+◌, ◌≤◌, ◌≡◌, ◌⊎◌, ◌↔◌, refl, sym, ap, ◌∙◌, String, true, false, some, List, [],
  ◌∷◌, ◌++◌, arith, eq_string, length, length-append, inl, inr,
}
use h2ai_control_plane.HashMap.Multi.{entries}
use h2ai_control_plane.HashSet
use h2ai_control_plane.Members.{List-cases, Once, Once-append, Memᴰ-append}
use h2ai_control_plane.Constraints.Clusters.{Adjacency, Search, scan, bfs}
use h2ai_control_plane.Constraints.Clusters.Scan.{unseen, Scanned, scan-Scanned}

-- The walks from an id along the links.
pub data Walk (adj : Adjacency) (r : String) : String → Type 0 where
  here : Walk adj r r
  step : {u v : String} → Walk adj r u → Memᴰ v (entries adj u) → Walk adj r v

-- A search from `r` with the ids of `base` visited before: `cluster` is done, the queue is waiting.
pub record Inv (adj : Adjacency) (base : List String) (r : String) (cluster : List String)
    (s : Search) : Type 0 where
  pub marked :
      (x : String)
      → (HashSet.contains s.visited x ≡ true)
        ↔ ((HashSet.contains base x ≡ true) ⊎ Memᴰ x (cluster ++ s.queue))
  pub fresh : (x : String) → Memᴰ x (cluster ++ s.queue) → HashSet.contains base x ≡ false
  pub once : Once (cluster ++ s.queue)
  pub reached : (x : String) → Memᴰ x (cluster ++ s.queue) → Walk adj r x
  pub closed :
      (x y : String) → Memᴰ x cluster → Memᴰ y (entries adj x) → HashSet.contains s.visited y ≡ true
  pub source : Memᴰ r (cluster ++ s.queue)

module _ (adj : Adjacency) (nodes : List String)
    (inside : (x y : String) → Memᴰ y (entries adj x) → Memᴰ y nodes) (base : List String)
    (r : String) where
  bfs-done :
      (fuel : ℕ) (cluster : List String) (s : Search)
      → s.queue ≡ []
      → bfs fuel adj cluster s ≡ some (cluster, s.visited)
  unfolding bfs
  bfs-done zero cluster s e = rw e refl
  bfs-done (suc fuel) cluster s e = rw e refl

  bfs-step :
      (fuel : ℕ) (cluster : List String) (s : Search) (node : String) (rest : List String)
      → s.queue ≡ node ∷ rest
      → bfs (suc fuel) adj cluster s
        ≡ bfs fuel adj
            (cluster ++ node ∷ [])
            (scan (record { visited = s.visited; queue = rest }) (entries adj node))
  unfolding bfs
  bfs-step fuel cluster s node rest e = rw e refl

  expand-Inv :
      (cluster : List String) (s : Search) (node : String) (rest : List String) (s' : Search)
      → s.queue ≡ node ∷ rest
      → Inv adj base r cluster s
      → Scanned (record { visited = s.visited; queue = rest }) (entries adj node) nodes s'
      → Inv adj base r (cluster ++ node ∷ []) s'
  expand-Inv cluster s node rest s' q h sc =
      let items : (cluster ++ node ∷ []) ++ s'.queue ≡ (cluster ++ s.queue) ++ sc.new =
        rw (sc.queued, q)
          (append_assoc cluster (node ∷ []) (rest ++ sc.new)
            ∙ sym (append_assoc cluster (node ∷ rest) sc.new)) in
      let split : (x : String)
          → Memᴰ x ((cluster ++ node ∷ []) ++ s'.queue)
            ↔ (Memᴰ x (cluster ++ s.queue) ⊎ Memᴰ x sc.new) =
        λ x. rw items (Memᴰ-append x (cluster ++ s.queue) sc.new) in
      let at_node : Memᴰ node (cluster ++ s.queue) =
        rw q (Memᴰ.append_right cluster (Memᴰ.head refl)) in
      record {
        marked = λ x. (
          λ m. elim ((sc.marked x).0 m) [
            | inl old ↦ elim ((h.marked x).0 old) [
              | inl b ↦ inl b
              | inr i ↦ inr ((split x).1 (inl i))
            ]
            | inr new ↦ inr ((split x).1 (inr new))
          ],
          λ m. elim m [
            | inl b ↦ (sc.marked x).1 (inl ((h.marked x).1 (inl b)))
            | inr i ↦ elim ((split x).0 i) [
              | inl old ↦ (sc.marked x).1 (inl ((h.marked x).1 (inr old)))
              | inr new ↦ (sc.marked x).1 (inr new)
            ]
          ],
        );
        fresh = λ x m. elim ((split x).0 m) [
          | inl old ↦ h.fresh x old
          | inr new ↦ ground (arith, sc.from x new, h.marked x)
        ];
        once = rw items (
            Once-append (cluster ++ s.queue) sc.new h.once sc.once
              (λ a m m'. ground (arith, sc.from a m', h.marked a)));
        reached = λ x m. elim ((split x).0 m) [
          | inl old ↦ h.reached x old
          | inr new ↦ step (h.reached node at_node) (sc.from x new).0
        ];
        closed = λ x y m e. elim (Memᴰ.append_cases cluster m) [
          | inl old ↦ (sc.marked y).1 (inl (h.closed x y old e))
          | inr new ↦
              sc.all_marked y (subst (λ z. Memᴰ y (entries adj z)) (Memᴰ.eq_of_singleton new) e)
        ];
        source = (split r).1 (inl h.source);
      }

  ended :
      (fuel : ℕ) (cluster : List String) (s : Search)
      → Inv adj base r cluster s
      → s.queue ≡ []
      → (c : List String) × ((visited : List String) × ((bfs fuel adj cluster s ≡ some (c, visited))
            × Inv adj base r c (record { visited = visited; queue = [] })))
  ended fuel cluster s h e = (
    cluster,
    (
      s.visited,
      (
        bfs-done fuel cluster s e,
        subst (λ q. Inv adj base r cluster (record { visited = s.visited; queue = q })) e h,
      ),
    ),
  )

  -- The search ends with a cluster.
  pub bfs-Inv :
      (fuel : ℕ) (cluster : List String) (s : Search)
      → Inv adj base r cluster s
      → unseen s.visited nodes + length s.queue ≤ fuel
      → (c : List String) × ((visited : List String) × ((bfs fuel adj cluster s ≡ some (c, visited))
            × Inv adj base r c (record { visited = visited; queue = [] })))
  bfs-Inv zero cluster s h enough = elim (List-cases s.queue) [
    | inl e ↦ ended zero cluster s h e
    | inr (node, (rest, e)) ↦ absurd (omega (arith, ap length e))
  ]
  bfs-Inv (suc fuel) cluster s h enough = elim (List-cases s.queue) [
    | inl e ↦ ended (suc fuel) cluster s h e
    | inr (node, (rest, e)) ↦
        let s₁ : Search = record { visited = s.visited; queue = rest } in
        let sc = scan-Scanned s₁ (entries adj node) nodes (inside node) in
        let (c, (visited, (ran, h'))) =
          bfs-Inv fuel (cluster ++ node ∷ []) (scan s₁ (entries adj node))
            (expand-Inv cluster s node rest (scan s₁ (entries adj node)) e h sc)
            (omega (arith, ap length e, sc.work, ap length sc.queued, length-append rest sc.new)) in
        (c, (visited, (bfs-step fuel cluster s node rest e ∙ ran, h')))
  ]
