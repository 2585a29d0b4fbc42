-- ===== src/Provisioner/RoundRobin.antt =====
-- `RoundRobinPolicy` of crates/h2ai-provisioner/src/scheduling.rs.
use mathlib.Core.Path.{subst}
use mathlib.Core.List.{Memᴰ}
use mathlib.Core.List.Memᴰ
use native.Mathlib.Nat.{mod-add-mod, mod-lt, mod-eq_of_lt, add-mod_left}
use h2ai_control_plane.Prelude.{
  ℕ, zero, suc, ◌+◌, ◌-◌, ◌%◌, ◌≤◌, ◌<◌, ◌≡◌, sym, ap, ◌∙◌, Option, none, some, List, [], ◌∷◌,
  arith, u64, length, ltb, get_elem?, Bool-cases, inl, inr,
}
use h2ai_control_plane.Sorting.{sort, sort-length, Memᴰ-sort}
use h2ai_control_plane.Identity.{AgentId}
use h2ai_control_plane.Provisioner.{AgentCandidate, by_id, id_of}

-- `fetch_add` returns the old count and leaves the next one, which wraps.
unfoldable pub select : ℕ → List AgentCandidate → Option AgentId × ℕ
unfolding sort
select counter [] = (none, counter)
select counter (x ∷ xs) =
    let sorted = sort by_id (x ∷ xs) in
    (id_of (get_elem? sorted (counter % length sorted)), u64 (counter + 1))

-- The agents that a number of calls in a row select.
unfoldable pub selections : ℕ → ℕ → List AgentCandidate → List (Option AgentId)
unfolding select
selections zero counter candidates = []
selections (suc calls) counter candidates =
    let (agent, next) = select counter candidates in agent ∷ selections calls next candidates

-- Where the counter has to get to for an index to come up.
steps_to : (n counter i : ℕ) → i < n → (k : ℕ) × ((k < n) × ((counter + k) % n ≡ i))
steps_to n counter i lt =
    let r = counter % n in
    let r_lt : r < n = mod-lt counter (omega arith) in
    let at : (k : ℕ) → (counter + k) % n ≡ (r + k) % n = λ k. sym (mod-add-mod counter n k) in
    elim (Bool-cases (ltb i r)) [
      | inl e ↦ (
        n - r + i,
        (
          ground arith,
          at (n - r + i) ∙ ap (λ j. j % n) (ground arith) ∙ add-mod_left n i ∙ mod-eq_of_lt lt,
        ),
      )
      | inr e ↦
          (i - r, (ground arith, at (i - r) ∙ ap (λ j. j % n) (ground arith) ∙ mod-eq_of_lt lt))
    ]

index_of :
    (xs : List AgentCandidate) (d : AgentCandidate)
    → Memᴰ d xs
    → (i : ℕ) × ((i < length xs) × (get_elem? xs i ≡ some d))
index_of [] d m = elim m [ ]
index_of (x ∷ xs) d (Memᴰ.head e) = (0, (omega arith, ap some (sym e)))
index_of (x ∷ xs) d (Memᴰ.tail m) = let (i, (lt, e)) = index_of xs d m in (suc i, (omega arith, e))

selections-at :
    (calls k counter : ℕ) (x : AgentCandidate) (xs : List AgentCandidate)
    → k < calls
    → counter + calls ≤ 18446744073709551616
    → Memᴰ (select (counter + k) (x ∷ xs)).0 (selections calls counter (x ∷ xs))
unfolding selections select
selections-at zero k counter x xs lt room = absurd (omega arith)
selections-at (suc calls) zero counter x xs lt room =
    Memᴰ.head (ap (λ c. (select c (x ∷ xs)).0) (omega arith))
selections-at (suc calls) (suc k) counter x xs lt room =
    let next : u64 (counter + 1) ≡ counter + 1 = mod-eq_of_lt (omega arith) in
    let rest = selections-at calls k (counter + 1) x xs (omega arith) (omega arith) in
    Memᴰ.tail (
      Memᴰ.cast (ap (λ c. (select c (x ∷ xs)).0) (omega arith)) (
        subst (λ c. Memᴰ (select (counter + 1 + k) (x ∷ xs)).0 (selections calls c (x ∷ xs)))
          (sym next) rest))

-- The policy is fair: as long as its counter does not wrap around, each candidate is selected by one of
-- as many calls in a row as there are candidates.
pub select-fair :
    (counter : ℕ) (candidates : List AgentCandidate) (d : AgentCandidate)
    → Memᴰ d candidates
    → counter + length candidates ≤ 18446744073709551616
    → Memᴰ (some d.agent_id) (selections (length candidates) counter candidates)
unfolding select
select-fair counter [] d m room = elim m [ ]
select-fair counter (x ∷ xs) d m room =
    let sorted = sort by_id (x ∷ xs) in
    let (i, (lt, at_i)) = index_of sorted d (Memᴰ-sort by_id (x ∷ xs) d m) in
    let (k, (k_lt, e)) = steps_to (length sorted) counter i lt in
    let found : some d.agent_id ≡ (select (counter + k) (x ∷ xs)).0 =
      sym (ap id_of (ap (get_elem? sorted) e ∙ at_i)) in
    Memᴰ.cast found (
      selections-at (length (x ∷ xs)) k counter x xs
        (omega (arith, k_lt, sort-length by_id (x ∷ xs))) room)
