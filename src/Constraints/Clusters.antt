-- ===== src/Constraints/Clusters.antt =====
-- crates/h2ai-constraints/src/clustering.rs: the clusters that the references of constraints make.
pub mod Graph
pub mod Scan
pub mod Bfs
pub mod Components
pub mod Theorem
use h2ai_control_plane.Prelude.{
  ℕ, zero, suc, ◌+◌, String, Bool, true, false, Option, none, some, List, [], ◌∷◌, ◌++◌, map,
  eq_string, length, str_eq, ◌==◌, if◌then◌else◌,
}
use Prim.Native.Char.{code}
use mathlib.Core.Option
use h2ai_control_plane.HashMap.{HashMap}
use h2ai_control_plane.HashMap.Multi.{entries, touch, push}
use h2ai_control_plane.HashSet
use h2ai_control_plane.Constraints.Types.{ConstraintDoc}

-- `adj`
abbrev pub Adjacency : Type 0
Adjacency = HashMap String (List String)

-- The loop over `related_to`: only known ids are linked.
unfoldable pub link_all : List String → String → List String → Adjacency → Adjacency
unfolding push HashSet.contains
link_all known_ids id [] adj = adj
link_all known_ids id (rel ∷ rels) adj =
    link_all known_ids id rels
      (if HashSet.contains known_ids rel then push (push adj id rel) rel id else adj)

module _ {F J : Type 0} where
  abbrev pub ids : List (ConstraintDoc F J) → List String
  ids docs = map (λ d. d.id) docs

  unfoldable pub link_docs : List String → List (ConstraintDoc F J) → Adjacency → Adjacency
  unfolding link_all touch
  link_docs known_ids [] adj = adj
  link_docs known_ids (d ∷ docs) adj =
      link_docs known_ids docs (link_all known_ids d.id d.related_to (touch adj d.id))

-- `visited` and `queue`
pub record Search : Type 0 where
  pub visited : List String
  pub queue : List String

-- The loop over the neighbours.
unfoldable pub scan : Search → List String → Search
unfolding HashSet.insert
scan s [] = s
scan s (n ∷ neighbors) =
    scan
      (if HashSet.contains s.visited n
        then s
        else record { visited = HashSet.insert s.visited n; queue = s.queue ++ n ∷ [] })
      neighbors

-- The `while` loop, with fuel: the cluster and the visited ids. `none` means that the fuel ran out.
unfoldable pub bfs : ℕ → Adjacency → List String → Search → Option (List String × List String)
unfolding scan
bfs zero adj cluster s = elim s.queue [ [] ↦ some (cluster, s.visited) | node ∷ rest ↦ none ]
bfs (suc fuel) adj cluster s = elim s.queue [
  | [] ↦ some (cluster, s.visited)
  | node ∷ rest ↦
      bfs fuel adj (cluster ++ node ∷ [])
        (scan (record { visited = s.visited; queue = rest }) (entries adj node))
]

-- The loop over all ids, each search with the same fuel.
unfoldable pub clusters_from :
    ℕ → Adjacency → List String → List String → Option (List (List String))
unfolding bfs HashSet.insert
clusters_from fuel adj [] visited = some []
clusters_from fuel adj (id ∷ all_ids) visited = elim (HashSet.contains visited id) [
  | true ↦ clusters_from fuel adj all_ids visited
  | false ↦
      elim (bfs fuel adj [] (record { visited = HashSet.insert visited id; queue = id ∷ [] })) [
        | none ↦ none
        | some (cluster, visited') ↦
            Option.map (λ clusters. cluster ∷ clusters) (clusters_from fuel adj all_ids visited')
      ]
]

module _ {F J : Type 0} where
  unfoldable pub build_clusters : List (ConstraintDoc F J) → Option (List (List String))
  unfolding link_docs clusters_from HashSet.extend
  build_clusters docs =
      let known_ids = HashSet.extend [] (ids docs) in
      clusters_from (length docs) (link_docs known_ids docs []) (ids docs) []

-- `split(':').next()`
abbrev pub prefix : String → String
prefix String.[] = String.[]
prefix (String.◌∷◌ c s) =
    let rest = prefix s in if code c == b':' then String.[] else String.◌∷◌ c rest

unfoldable pub check_indices_from : ℕ → List String → List String → List ℕ
unfolding HashSet.contains
check_indices_from i cluster_set [] = []
check_indices_from i cluster_set (check ∷ checks) =
    let rest = check_indices_from (suc i) cluster_set checks in
    if HashSet.contains cluster_set (prefix check) then i ∷ rest else rest

unfoldable pub cluster_check_indices : List String → List String → List ℕ
unfolding check_indices_from HashSet.extend
cluster_check_indices cluster_ids all_check_ids =
    check_indices_from 0 (HashSet.extend [] cluster_ids) all_check_ids
