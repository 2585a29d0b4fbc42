-- ===== src/Subtasks/Waves/Ids.antt =====
-- The map `id_to_idx` of `topo_waves` (crates/h2ai-orchestrator/src/scheduler.rs), and the table `adj`
-- that is built with it.
use h2ai_control_plane.Prelude.{
  ℕ, zero, suc, ◌+◌, ◌≤◌, ◌<◌, ◌≡◌, refl, ap, ◌∙◌, some, List, [], ◌∷◌, map, arith, ◌==◌, ==_iff,
  length, length-replicate, get_or, replicate, Bool-cases, inl, inr, eq_ℕ,
}
use h2ai_control_plane.HashMap
use h2ai_control_plane.HashMap.{HashMap}
use h2ai_control_plane.Identity.{SubtaskId}
use h2ai_control_plane.Subtasks.Plan.{Subtask}
use h2ai_control_plane.Subtasks.Waves.{id_to_idx, adjacency, id_at}
use h2ai_control_plane.Counting.{count}
use h2ai_control_plane.Subtasks.Waves.Adjacency.{hits, hits_from, build_adj-edges}

abbrev pub index : List Subtask → HashMap SubtaskId ℕ
index subtasks = id_to_idx 0 subtasks []

abbrev pub deps_at : List Subtask → ℕ → List SubtaskId
deps_at subtasks j = get_or (map (λ s. s.depends_on) subtasks) j []

module _ (n : ℕ) (names : ℕ → SubtaskId) where
  -- Each entry stands for a subtask with that id.
  abbrev Names : HashMap SubtaskId ℕ → Type 0
  Names m = (d : SubtaskId) (q : ℕ) → HashMap.get m d ≡ some q → (q < n) × (names q ≡ d)

  insert-Names :
      (m : HashMap SubtaskId ℕ) (k : SubtaskId) (i : ℕ)
      → i < n
      → names i ≡ k
      → Names m
      → Names (HashMap.insert m k i)
  insert-Names m k i lt named h d q e = elim (Bool-cases (k == d)) [
    | inl same ↦
        let found : i ≡ q = ground (arith, HashMap.get-insert m k d i) in
        rw (← found) (lt, named ∙ (==_iff k d).0 same)
    | inr differ ↦ h d q (ground (arith, HashMap.get-insert m k d i))
  ]

  id_to_idx-Names :
      (i : ℕ) (ss : List Subtask) (m : HashMap SubtaskId ℕ)
      → i + length ss ≤ n
      → ((k : ℕ) → k < length ss → names (i + k) ≡ id_at ss k)
      → Names m
      → Names (id_to_idx i ss m)
  unfolding id_to_idx
  id_to_idx-Names i [] m room h hm = hm
  id_to_idx-Names i (s ∷ ss) m room h hm =
      id_to_idx-Names (suc i) ss (HashMap.insert m s.id i) (omega arith)
        (λ k lt. ap names (omega arith) ∙ h (suc k) (omega arith))
        (insert-Names m s.id i (omega arith) (ap names (omega arith) ∙ h 0 (omega arith)) hm)

Known : HashMap SubtaskId ℕ → SubtaskId → Type 0
Known m d = (q : ℕ) × (HashMap.get m d ≡ some q)

insert-Known :
    (m : HashMap SubtaskId ℕ) (k d : SubtaskId) (i : ℕ) → Known m d → Known (HashMap.insert m k i) d
unfolding Known
insert-Known m k d i (q, e) = elim (Bool-cases (k == d)) [
  | inl same ↦ (i, ground (arith, HashMap.get-insert m k d i))
  | inr differ ↦ (q, ground (arith, HashMap.get-insert m k d i))
]

insert-Known_self :
    (m : HashMap SubtaskId ℕ) (d : SubtaskId) (i : ℕ) → Known (HashMap.insert m d i) d
unfolding Known
insert-Known_self m d i = (i, ground (arith, HashMap.get-insert m d d i))

id_to_idx-Known :
    (i : ℕ) (ss : List Subtask) (m : HashMap SubtaskId ℕ) (d : SubtaskId)
    → Known m d
    → Known (id_to_idx i ss m) d
unfolding id_to_idx
id_to_idx-Known i [] m d h = h
id_to_idx-Known i (s ∷ ss) m d h =
    id_to_idx-Known (suc i) ss (HashMap.insert m s.id i) d (insert-Known m s.id d i h)

id_at-Known :
    (i : ℕ) (ss : List Subtask) (m : HashMap SubtaskId ℕ) (k : ℕ)
    → k < length ss
    → Known (id_to_idx i ss m) (id_at ss k)
unfolding id_to_idx
id_at-Known i [] m k lt = absurd (omega arith)
id_at-Known i (s ∷ ss) m zero lt =
    id_to_idx-Known (suc i) ss (HashMap.insert m s.id i) s.id (insert-Known_self m s.id i)
id_at-Known i (s ∷ ss) m (suc k) lt =
    id_at-Known (suc i) ss (HashMap.insert m s.id i) k (omega arith)

get_or-replicate : (n p : ℕ) → get_or {A = List ℕ} (replicate n []) p [] ≡ []
get_or-replicate zero p = refl
get_or-replicate (suc n) zero = refl
get_or-replicate (suc n) (suc p) = get_or-replicate n p

hits_from-before :
    (ids : HashMap SubtaskId ℕ) (p i j : ℕ) (ss : List Subtask) → j < i → hits_from ids p i ss j ≡ 0
hits_from-before ids p i j [] h = refl
hits_from-before ids p i j (s ∷ ss) h = ground (arith, hits_from-before ids p (suc i) j ss)

hits_from-hits :
    (ids : HashMap SubtaskId ℕ) (p i : ℕ) (ss : List Subtask) (k : ℕ)
    → hits_from ids p i ss (i + k) ≡ hits ids p (deps_at ss k)
hits_from-hits ids p i [] k = refl
hits_from-hits ids p i (s ∷ ss) zero = ground (arith, hits_from-before ids p (suc i) i ss)
hits_from-hits ids p i (s ∷ ss) (suc k) =
    let step : hits_from ids p (suc i) ss (i + suc k) ≡ hits ids p (deps_at ss k) =
      ap (hits_from ids p (suc i) ss) (omega arith) ∙ hits_from-hits ids p (suc i) ss k in
    ground (arith, step)

module _ (subtasks : List Subtask) where
  pub index-Names :
      (d : SubtaskId) (q : ℕ)
      → HashMap.get (index subtasks) d ≡ some q
      → (q < length subtasks) × (id_at subtasks q ≡ d)
  unfolding HashMap.get
  index-Names =
      id_to_idx-Names (length subtasks) (id_at subtasks) 0 subtasks [] (omega arith)
        (λ k lt. ap (id_at subtasks) (omega arith)) (λ d q e. ground arith)

  pub index-Known :
      (p : ℕ)
      → p < length subtasks
      → (q : ℕ) × (HashMap.get (index subtasks) (id_at subtasks p) ≡ some q)
  unfolding Known
  index-Known p lt = id_at-Known 0 subtasks [] p lt

  pub adjacency-edges :
      (p j : ℕ)
      → count j (get_or (adjacency subtasks) p []) ≡ hits (index subtasks) p (deps_at subtasks j)
  unfolding adjacency
  adjacency-edges p j =
      let n = length subtasks in
      let at : hits_from (index subtasks) p 0 subtasks (0 + j)
          ≡ hits_from (index subtasks) p 0 subtasks j =
        ap (hits_from (index subtasks) p 0 subtasks) (omega arith) in
      build_adj-edges (index subtasks) n (λ d q e. (index-Names d q e).0) 0 subtasks
        (replicate n []) (length-replicate n []) p j
      ∙ rw (get_or-replicate n p, ← hits_from-hits (index subtasks) p 0 subtasks j)
          (omega (arith, at))
