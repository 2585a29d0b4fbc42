-- ===== src/Provisioner/LeastLoaded.antt =====
-- `LeastLoadedPolicy` of crates/h2ai-provisioner/src/scheduling.rs.
use mathlib.Core.Path.{subst}
use mathlib.Core.List.{Memᴰ}
use mathlib.Core.Option.{none-ne-some, some-injective}
use h2ai_control_plane.Prelude.{
  ◌≡◌, ◌<◌, arith, refl, false, Option, none, some, List, [], ◌∷◌, get_elem?, All, All-map, ◌⊎◌,
  inl, inr, ap, Bool-cases,
}
use h2ai_control_plane.Sorting.{
  sort, sort-All, sort-All_back, sort-Ordered, Ordered, Memᴰ-All, place,
}
use h2ai_control_plane.Identity.{AgentId}
use h2ai_control_plane.Provisioner.{AgentCandidate, less_loaded, tier, str_ltb, id_of}
use h2ai_control_plane.Provisioner.Order.{less_loaded-IsStrictWeak}

-- `candidates.is_empty()` gives `None`; otherwise `sorted[0]`.
unfoldable pub select : List AgentCandidate → Option AgentId
unfolding sort
select candidates = id_of (get_elem? (sort less_loaded candidates) 0)

placed_first :
    (x : AgentCandidate) (ys : List AgentCandidate)
    → (c : AgentCandidate) × (get_elem? (place less_loaded x ys) 0 ≡ some c)
unfolding place
placed_first x [] = (x, refl)
placed_first x (y ∷ ys) = elim (Bool-cases (less_loaded y x)) [
  | inl e ↦ (y, rw (place, e) refl)
  | inr e ↦ (x, rw (place, e) refl)
]

first-least :
    (xs candidates : List AgentCandidate) (c : AgentCandidate)
    → All (λ d. Memᴰ d candidates) xs
    → Ordered less_loaded xs
    → get_elem? xs 0 ≡ some c
    → Memᴰ c candidates × All (λ d. less_loaded d c ≡ false) xs
first-least [] candidates c m o e = absurd (none-ne-some c e)
first-least (x ∷ xs) candidates c m o e =
    subst (λ z. Memᴰ z candidates × All (λ d. less_loaded d z ≡ false) (x ∷ xs))
      (some-injective x c e) (m.0, (less_loaded-IsStrictWeak.irrefl x, o.0))

-- A candidate of a cheaper tier than another one, or of the same tier with fewer active tasks, or of both the same
-- with an id that is not after.
abbrev pub IsNoLater : AgentCandidate → AgentCandidate → Type 0
IsNoLater c d =
    (tier c < tier d)
    ⊎ ((tier c ≡ tier d)
        × ((c.active_tasks < d.active_tasks)
            ⊎ ((c.active_tasks ≡ d.active_tasks) × (str_ltb d.agent_id c.agent_id ≡ false))))

less_loaded-IsNoLater : (c d : AgentCandidate) → less_loaded d c ≡ false → IsNoLater c d
less_loaded-IsNoLater c d h = ground (arith, h)

-- `select` finds no agent only among no candidates, and otherwise the id of a candidate that is of a cheaper tier than
-- each candidate, or of the same tier with fewer active tasks, or of both the same with an id that is not after.
pub select-least :
    (candidates : List AgentCandidate)
    → ((candidates ≡ []) × (select candidates ≡ none))
      ⊎ ((c : AgentCandidate) × ((select candidates ≡ some c.agent_id)
            × (Memᴰ c candidates × All (IsNoLater c) candidates)))
unfolding select
select-least [] = inl (refl, refl)
select-least (x ∷ xs) =
    let candidates = x ∷ xs in
    let (c, e) = placed_first x (sort less_loaded xs) in
    let least =
      first-least (sort less_loaded candidates) candidates c
        (sort-All less_loaded (λ d. Memᴰ d candidates) candidates
          (Memᴰ-All (λ d. Memᴰ d candidates) candidates (λ d m. m)))
        (sort-Ordered less_loaded less_loaded-IsStrictWeak candidates) e in
    inr (
      c,
      (
        ap id_of e,
        (
          least.0,
          All-map (λ d. less_loaded d c ≡ false) (IsNoLater c) (less_loaded-IsNoLater c) candidates
              (sort-All_back less_loaded (λ d. less_loaded d c ≡ false) candidates least.1),
        ),
      ),
    )
