-- ===== src/Proposals/Ranking.antt =====
-- `SemilatticeResult::compile` (crates/h2ai-state/src/semilattice.rs): the ranking and the partition.
use mathlib.Core.Path.{subst}
use mathlib.Core.List.{Perm, perm_middle, map-append, Memᴰ}
use mathlib.Core.List.Perm
use h2ai_control_plane.Prelude.{
  ◌≡◌, refl, sym, ap, ◌∙◌, Bool, true, false, not, any, All-append, arith, ◌==◌, ==_iff, List, [],
  ◌∷◌, ◌++◌, map, All, filter, Bool-cases, inl, inr,
}
use h2ai_control_plane.HashMap
use h2ai_control_plane.Sorting.{IsStrictWeak, sort-All, sort-Perm, Ordered, sort-Ordered}
use h2ai_control_plane.Identity.{TaskId}
use h2ai_control_plane.Proposals.{
  ProposalEvent, BranchPrunedEvent, ProposalSet, Entry, is_pruned, ranked, scored, compile,
  SemilatticeResult,
}

module _ {ℓ} {A : Type ℓ} where
  filter-passes : (p : A → Bool) (xs : List A) → All (λ x. p x ≡ true) (filter p xs)
  filter-passes p [] = tt
  filter-passes p (x ∷ xs) = elim (Bool-cases (p x)) [
    | inl e ↦ rw (filter, e) (e, filter-passes p xs)
    | inr e ↦ rw (filter, e) (filter-passes p xs)
  ]

  -- A filter and its opposite take a list apart.
  filter-split : (p : A → Bool) (xs : List A) → Perm (filter p xs ++ filter (λ x. not (p x)) xs) xs
  filter-split p [] = Perm.refl []
  filter-split p (x ∷ xs) = elim (Bool-cases (p x)) [
    | inl e ↦ rw (filter, e) (Perm.cons x (filter-split p xs))
    | inr e ↦
        rw (filter, e)
          (Perm.trans (perm_middle (filter p xs) (filter (λ x. not (p x)) xs))
            (Perm.cons x (filter-split p xs)))
  ]

  filter-All {κ} : (P : A → Type κ) (p : A → Bool) (xs : List A) → All P xs → All P (filter p xs)
  filter-All P p [] h = tt
  filter-All P p (x ∷ xs) h = elim (Bool-cases (p x)) [
    | inl e ↦ rw (filter, e) (h.0, filter-All P p xs h.1)
    | inr e ↦ rw (filter, e) (filter-All P p xs h.1)
  ]

  filter-Ordered :
      (before : A → A → Bool) (p : A → Bool) (xs : List A)
      → Ordered before xs
      → Ordered before (filter p xs)
  filter-Ordered before p [] h = tt
  filter-Ordered before p (x ∷ xs) h = elim (Bool-cases (p x)) [
    | inl e ↦ rw (filter, e) (filter-All _ p xs h.0, filter-Ordered before p xs h.1)
    | inr e ↦ rw (filter, e) (filter-Ordered before p xs h.1)
  ]

-- The explorer of a proposal was pruned.
abbrev pub IsPruned : List BranchPrunedEvent → ProposalEvent → Type 0
IsPruned pruned p = (b : BranchPrunedEvent) × (Memᴰ b pruned × (b.explorer_id ≡ p.explorer_id))

-- The result of `compile`, with the scores that its lists leave out: the entries of the set are taken apart into those
-- whose explorer was pruned and the others, of which it has each once; the valid ones have positive scores that never
-- rise, and the failed ones have no positive score.
pub record IsRanking {ℓ} {F : Type ℓ} (gt : F → F → Bool) (zero : F) (proposals : ProposalSet F)
    (pruned : List BranchPrunedEvent) (result : SemilatticeResult F) : Type ℓ where
  pub valid : List (ProposalEvent × F)
  pub failed : List (ProposalEvent × F)
  pub valid_eq : result.valid_proposals ≡ map (λ r. r.0) valid
  pub scores_eq : result.valid_proposal_scores ≡ map (λ r. r.1) valid
  pub failed_eq : result.failed_proposals ≡ map (λ r. r.0) failed
  pub left_out : List (ProposalEvent × F)
  pub split :
      Perm ((valid ++ failed) ++ left_out) (map (λ e. (e.0, e.1.1)) (HashMap.values proposals))
  pub not_pruned : All (λ r. ¬ IsPruned pruned r.0) (valid ++ failed)
  pub all_pruned : All (λ r. IsPruned pruned r.0) left_out
  pub positive : All (λ r. gt r.1 zero ≡ true) valid
  pub not_positive : All (λ r. not (gt r.1 zero) ≡ true) failed
  pub falling : Ordered (λ a b. gt a.1 b.1) valid

some-IsPruned :
    (pruned : List BranchPrunedEvent) (p : ProposalEvent)
    → any (λ b. b.explorer_id == p.explorer_id) pruned ≡ true
    → IsPruned pruned p
some-IsPruned [] p e = absurd cc
some-IsPruned (b ∷ bs) p e = elim (Bool-cases (b.explorer_id == p.explorer_id)) [
  | inl same ↦ (b, (Memᴰ.head refl, (==_iff b.explorer_id p.explorer_id).0 same))
  | inr other ↦ let (c, (m, id)) = some-IsPruned bs p (rw other at e) in (c, (Memᴰ.tail m, id))
]

none-IsPruned :
    (pruned : List BranchPrunedEvent) (p : ProposalEvent)
    → any (λ b. b.explorer_id == p.explorer_id) pruned ≡ false
    → ¬ IsPruned pruned p
none-IsPruned [] p e (c, (m, id)) = elim m [ ]
none-IsPruned (b ∷ bs) p e (c, (Memᴰ.head same, id)) =
    let id' : b.explorer_id ≡ p.explorer_id =
      ap (λ (x : BranchPrunedEvent). x.explorer_id) (sym same) ∙ id in
    ground (arith, e, id')
none-IsPruned (b ∷ bs) p e (c, (Memᴰ.tail m, id)) =
    none-IsPruned bs p (ground (arith, e)) (c, (m, id))

module _ {ℓ} {F : Type ℓ} (gt : F → F → Bool) (pruned : List BranchPrunedEvent) where
  abbrev kept_entry : Entry F → Bool
  kept_entry e = not (is_pruned gt pruned e.0)

  scored-not_pruned :
      (entries : List (Entry F))
      → All
          (λ (r : ProposalEvent × F). ¬ IsPruned pruned r.0)
          (map (λ e. (e.0, e.1.1)) (filter kept_entry entries))
  scored-not_pruned [] = tt
  scored-not_pruned (e ∷ entries) = elim (Bool-cases (is_pruned gt pruned e.0)) [
    | inl h ↦ rw (filter, h) (scored-not_pruned entries)
    | inr h ↦ rw (filter, h) (none-IsPruned pruned e.0 h, scored-not_pruned entries)
  ]

  left_out-pruned :
      (entries : List (Entry F))
      → All
          (λ (r : ProposalEvent × F). IsPruned pruned r.0)
          (map (λ e. (e.0, e.1.1)) (filter (λ e. not (kept_entry e)) entries))
  left_out-pruned [] = tt
  left_out-pruned (e ∷ entries) = elim (Bool-cases (is_pruned gt pruned e.0)) [
    | inl h ↦ rw (filter, h) (some-IsPruned pruned e.0 h, left_out-pruned entries)
    | inr h ↦ rw (filter, h) (left_out-pruned entries)
  ]

module _ {ℓ} {F : Type ℓ} (gt : F → F → Bool) (zero : F) where
  by_score-IsStrictWeak : IsStrictWeak gt → IsStrictWeak {A = ProposalEvent × F} (λ a b. gt a.1 b.1)
  by_score-IsStrictWeak w = record {
    irrefl = λ a. w.irrefl a.1;
    trans = λ a b c. w.trans a.1 b.1 c.1;
    neg_trans = λ a b c. w.neg_trans a.1 b.1 c.1;
  }

  -- For an order of scores that is a strict weak order, `compile` ranks the proposals of the set whose
  -- explorer was not pruned: valid and failed ones together are these, each once, and the entries that it
  -- leaves out are those of pruned explorers; the valid ones are those with a positive score, beside their
  -- scores, which never rise, and the failed ones the others.
  pub compile-IsRanking :
      (task_id : TaskId) (proposals : ProposalSet F) (pruned : List BranchPrunedEvent)
      → IsStrictWeak gt
      → IsRanking gt zero proposals pruned (compile gt zero task_id proposals pruned)
  unfolding compile scored
  compile-IsRanking task_id proposals pruned w =
      let rows = ranked gt (scored gt proposals pruned) in
      let entries = HashMap.values proposals in
      let out =
        map (λ (e : Entry F). (e.0, e.1.1)) (filter (λ e. not (kept_entry gt pruned e)) entries) in
      let good : All (λ (r : ProposalEvent × F). ¬ IsPruned pruned r.0) rows =
        sort-All (λ a b. gt a.1 b.1) (λ (r : ProposalEvent × F). ¬ IsPruned pruned r.0) _
          (scored-not_pruned gt pruned entries) in
      record {
        valid = filter (λ r. gt r.1 zero) rows;
        failed = filter (λ r. not (gt r.1 zero)) rows;
        left_out = out;
        valid_eq = refl;
        scores_eq = refl;
        failed_eq = refl;
        split =
            Perm.trans
              (Perm.append_right out (
                Perm.trans (filter-split (λ r. gt r.1 zero) rows)
                  (sort-Perm (λ a b. gt a.1 b.1) (scored gt proposals pruned))))
              (subst (λ l. Perm l (map (λ (e : Entry F). (e.0, e.1.1)) entries))
                (map-append (λ (e : Entry F). (e.0, e.1.1)) (filter (kept_entry gt pruned) entries)
                  (filter (λ e. not (kept_entry gt pruned e)) entries))
                (Perm.map (λ (e : Entry F). (e.0, e.1.1))
                  (filter-split (kept_entry gt pruned) entries)));
        not_pruned =
            All-append _ (filter (λ r. gt r.1 zero) rows) _
              (filter-All _ (λ r. gt r.1 zero) rows good)
              (filter-All _ (λ r. not (gt r.1 zero)) rows good);
        all_pruned = left_out-pruned gt pruned entries;
        positive = filter-passes (λ r. gt r.1 zero) rows;
        not_positive = filter-passes (λ r. not (gt r.1 zero)) rows;
        falling =
            filter-Ordered (λ a b. gt a.1 b.1) (λ r. gt r.1 zero) rows
              (sort-Ordered (λ a b. gt a.1 b.1) (by_score-IsStrictWeak w)
                (scored gt proposals pruned));
      }
