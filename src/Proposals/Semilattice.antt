-- ===== src/Proposals/Semilattice.antt =====
-- The laws that the comment of `insert_scored` claims of `ProposalSet::join`
-- (crates/h2ai-state/src/semilattice.rs), on what explorers have in the joined sets.
use h2ai_control_plane.Prelude.{◌≡◌, sym, ◌∙◌, Bool, false, some, arith}
use h2ai_control_plane.Identity.{ExplorerId}
use h2ai_control_plane.Sorting.{IsStrictWeak}
use h2ai_control_plane.Proposals.{Entry, ProposalSet, join}
use h2ai_control_plane.Proposals.Best.{
  best_option_idem, best_option_assoc, best_option_comm, Decided, beats, beats-IsStrictWeak,
}
use h2ai_control_plane.Proposals.Join.{entry, IsWellFormed, join-entry, join-IsWellFormed}

module _ {ℓ} {F : Type ℓ} (gt : F → F → Bool) (w : IsStrictWeak gt) where
  -- `join` is associative: for an order of scores that is a strict weak order, and sets with each entry
  -- under its own explorer, both ways to join three sets leave the same entry to every explorer.
  pub join_assoc :
      (a b c : ProposalSet F) (k : ExplorerId)
      → IsWellFormed b
      → IsWellFormed c
      → entry (join gt (join gt a b) c) k ≡ entry (join gt a (join gt b c)) k
  join_assoc a b c k hb hc =
      rw
        (
          join-entry gt (join gt a b) c k hc,
          join-entry gt a b k hb,
          join-entry gt a (join gt b c) k (join-IsWellFormed gt b c hb),
          join-entry gt b c k hc,
        )
        (best_option_assoc (beats gt) (beats-IsStrictWeak gt w) (entry a k) (entry b k) (entry c k))

  -- `join` is idempotent: joining a set with itself changes no entry.
  join_idem :
      (a : ProposalSet F) (k : ExplorerId) → IsWellFormed a → entry (join gt a a) k ≡ entry a k
  join_idem a k h =
      join-entry gt a a k h ∙ best_option_idem (beats gt) (beats-IsStrictWeak gt w) (entry a k)

  -- `join` is commutative where no explorer has entries of equal generation and equal score in the two
  -- sets: both orders leave the same entry to every explorer.
  pub join_comm :
      (a b : ProposalSet F) (k : ExplorerId)
      → IsWellFormed a
      → IsWellFormed b
      → ((x y : Entry F) → entry a k ≡ some x → entry b k ≡ some y → Decided (beats gt) x y)
      → entry (join gt a b) k ≡ entry (join gt b a) k
  join_comm a b k ha hb decided =
      join-entry gt a b k hb
      ∙ best_option_comm (beats gt) (beats-IsStrictWeak gt w) (entry a k) (entry b k) decided
      ∙ sym (join-entry gt b a k ha)

module _ {ℓ} {F : Type ℓ} (gt : F → F → Bool) where
  -- On a tie `join` is not commutative: where the two sets hold entries of one explorer with the same
  -- generation, of which neither score is higher, the explorer keeps the entry of the first set.
  pub join-tie :
      (a b : ProposalSet F) (k : ExplorerId) (x y : Entry F)
      → IsWellFormed a
      → IsWellFormed b
      → entry a k ≡ some x
      → entry b k ≡ some y
      → x.1.0 ≡ y.1.0
      → gt x.1.1 y.1.1 ≡ false
      → gt y.1.1 x.1.1 ≡ false
      → (entry (join gt a b) k ≡ some x) × (entry (join gt b a) k ≡ some y)
  join-tie a b k x y ha hb ex ey same x_low y_low = (
    join-entry gt a b k hb ∙ rw (ex, ey) (ground (arith, same, y_low)),
    join-entry gt b a k ha ∙ rw (ex, ey) (ground (arith, same, x_low)),
  )
