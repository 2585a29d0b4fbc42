-- ===== src/Proposals/Join.antt =====
-- `ProposalSet::insert_scored` and `ProposalSet::join` (crates/h2ai-state/src/semilattice.rs) as a
-- join of maps: what they leave of each explorer's entry.
use h2ai_control_plane.Prelude.{
  ◌≡◌, refl, sym, ap, ◌∙◌, Bool, true, false, Option, none, some, [], ◌∷◌, arith, ◌==◌, ==_iff,
  eq_ℕ, if◌then◌else◌, Bool-cases, Option-cases, inl, inr,
}
use h2ai_control_plane.HashMap
use h2ai_control_plane.Identity.{ExplorerId}
use h2ai_control_plane.Proposals.{ProposalEvent, Entry, ProposalSet, insert_scored, join}
use h2ai_control_plane.Proposals.Best.{best, best_option, beats}

module _ {ℓ} {F : Type ℓ} where
  -- The entry of an explorer.
  abbrev pub entry : ProposalSet F → ExplorerId → Option (Entry F)
  entry s k = HashMap.get s k

  -- Each entry stands once, under its proposal's explorer and with its proposal's generation.
  abbrev pub IsWellFormed : ProposalSet F → Type ℓ
  IsWellFormed [] = Unit
  IsWellFormed ((k, e) ∷ s) =
      ((k ≡ e.0.explorer_id) × ((e.1.0 ≡ e.0.generation) × (entry s k ≡ none))) × IsWellFormed s

  -- What an entry is of, and where it stands.
  abbrev IsOwn : ExplorerId → Entry F → Type 0
  IsOwn k e = (k ≡ e.0.explorer_id) × (e.1.0 ≡ e.0.generation)

  insert-IsWellFormed :
      (s : ProposalSet F) (k : ExplorerId) (e : Entry F)
      → IsOwn k e
      → IsWellFormed s
      → IsWellFormed (HashMap.insert s k e)
  unfolding HashMap.insert HashMap.get
  insert-IsWellFormed [] k e g h = ((g.0, (g.1, refl)), tt)
  insert-IsWellFormed ((j, w) ∷ s) k e g h = elim (Bool-cases (j == k)) [
    | inl same ↦ rw (HashMap.insert, same) (((==_iff j k).0 same ∙ g.0, (g.1, h.0.1.1)), h.1)
    | inr other ↦
        rw (HashMap.insert, other)
          (
            (h.0.0, (h.0.1.0, ground (arith, HashMap.get-insert s k j e, h.0.1.1))),
            insert-IsWellFormed s k e g h.1,
          )
  ]

  entry-IsOwn :
      (s : ProposalSet F) (k : ExplorerId) (e : Entry F)
      → IsWellFormed s
      → entry s k ≡ some e
      → IsOwn k e
  unfolding HashMap.get
  entry-IsOwn [] k e h found = absurd (ground (arith, found))
  entry-IsOwn ((j, w) ∷ s) k e h found = elim (Bool-cases (j == k)) [
    | inl same ↦
        let found_w : w ≡ e = ground (arith, found, same) in
        rw (← found_w) (sym ((==_iff j k).0 same) ∙ h.0.0, h.0.1.0)
    | inr other ↦ entry-IsOwn s k e h.1 (ground (arith, found))
  ]

module _ {ℓ} {F : Type ℓ} (gt : F → F → Bool) where
  abbrev pub scored_entry : ProposalEvent → F → Entry F
  scored_entry p score = (p, (p.generation, score))

  best_option-none : (o : Option (Entry F)) → best_option (beats gt) o none ≡ o
  best_option-none none = refl
  best_option-none (some e) = refl

  -- The entry that `insert_scored` leaves for the proposal's explorer.
  abbrev left_entry : Option (Entry F) → ProposalEvent → F → Entry F
  left_entry none p score = scored_entry p score
  left_entry (some old) p score = best (beats gt) old (scored_entry p score)

  insert_scored-insert :
      (s : ProposalSet F) (p : ProposalEvent) (score : F)
      → insert_scored gt s p score
        ≡ HashMap.insert s p.explorer_id (left_entry (entry s p.explorer_id) p score)
  unfolding insert_scored
  insert_scored-insert s p score = elim (Option-cases (HashMap.get s p.explorer_id)) [
    | inl e ↦ rw (insert_scored, e) refl
    | inr (old, e) ↦ rw (insert_scored, e) refl
  ]

  best_option-left :
      (o : Option (Entry F)) (p : ProposalEvent) (score : F)
      → some (left_entry o p score) ≡ best_option (beats gt) o (some (scored_entry p score))
  best_option-left none p score = refl
  best_option-left (some old) p score = refl

  -- After `insert_scored` an explorer has the better of its old entry and the new one, which is that of
  -- the later generation, then that of the higher score, then the old one; the others are unchanged.
  pub insert_scored-entry :
      (s : ProposalSet F) (p : ProposalEvent) (score : F) (k : ExplorerId)
      → entry (insert_scored gt s p score) k ≡ (
          if p.explorer_id == k
          then best_option (beats gt) (entry s k) (some (scored_entry p score))
          else entry s k)
  insert_scored-entry s p score k = elim (Bool-cases (p.explorer_id == k)) [
    | inl same ↦
        rw
          (
            same,
            insert_scored-insert s p score,
            HashMap.get-insert s p.explorer_id k (left_entry (entry s p.explorer_id) p score),
            same,
          )
          (best_option-left (entry s p.explorer_id) p score
            ∙ ap (λ k. best_option (beats gt) (entry s k) (some (scored_entry p score)))
                ((==_iff p.explorer_id k).0 same))
    | inr other ↦
        rw
          (
            other,
            insert_scored-insert s p score,
            HashMap.get-insert s p.explorer_id k (left_entry (entry s p.explorer_id) p score),
            other,
          )
          refl
  ]

  left_entry-IsOwn :
      (o : Option (Entry F)) (p : ProposalEvent) (score : F)
      → ((e : Entry F) → o ≡ some e → IsOwn p.explorer_id e)
      → IsOwn p.explorer_id (left_entry o p score)
  left_entry-IsOwn none p score h = (refl, refl)
  left_entry-IsOwn (some old) p score h = elim (Bool-cases (beats gt (scored_entry p score) old)) [
    | inl e ↦ rw e (refl, refl)
    | inr e ↦ rw e (h old refl)
  ]

  pub insert_scored-IsWellFormed :
      (s : ProposalSet F) (p : ProposalEvent) (score : F)
      → IsWellFormed s
      → IsWellFormed (insert_scored gt s p score)
  insert_scored-IsWellFormed s p score h = rw (insert_scored-insert s p score) (
      insert-IsWellFormed s p.explorer_id _
        (left_entry-IsOwn (entry s p.explorer_id) p score
          (λ e found. entry-IsOwn s p.explorer_id e h found))
        h)

  -- `join` gives every explorer the better of its two entries.
  pub join-entry :
      (lhs rhs : ProposalSet F) (k : ExplorerId)
      → IsWellFormed rhs
      → entry (join gt lhs rhs) k ≡ best_option (beats gt) (entry lhs k) (entry rhs k)
  unfolding join HashMap.get
  join-entry lhs [] k h = sym (best_option-none (entry lhs k))
  join-entry lhs ((j, (p, (g, score))) ∷ rhs) k h =
      join-entry (insert_scored gt lhs p score) rhs k h.1 ∙ elim (Bool-cases (p.explorer_id == k)) [
        | inl same ↦
            let at_k : p.explorer_id ≡ k = (==_iff p.explorer_id k).0 same in
            let here : (j == k) ≡ true = (==_iff j k).1 (h.0.0 ∙ at_k) in
            let last : HashMap.get rhs k ≡ none =
              ap (HashMap.get rhs) (sym (h.0.0 ∙ at_k)) ∙ h.0.1.1 in
            rw (insert_scored-entry lhs p score k, same, here, last, ← h.0.1.0) (best_option-none _)
        | inr other ↦
            let away : (j == k) ≡ false = ap (λ i. i == k) h.0.0 ∙ other in
            rw (insert_scored-entry lhs p score k, other, away) refl
      ]

  pub join-IsWellFormed :
      (lhs rhs : ProposalSet F) → IsWellFormed lhs → IsWellFormed (join gt lhs rhs)
  unfolding join
  join-IsWellFormed lhs [] h = h
  join-IsWellFormed lhs ((_, (p, (_, score))) ∷ rhs) h =
      join-IsWellFormed (insert_scored gt lhs p score) rhs
        (insert_scored-IsWellFormed lhs p score h)
