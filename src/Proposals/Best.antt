-- ===== src/Proposals/Best.antt =====
-- The rule by which `ProposalSet` keeps one of two proposals (crates/h2ai-state/src/semilattice.rs): the
-- later generation, then the higher score, then the one that stands already.
use h2ai_control_plane.Prelude.{
  ◌⊎◌, ◌≡◌, refl, ap, Bool, true, false, Option, none, some, arith, if◌then◌else◌, inl, inr,
}
use h2ai_control_plane.Sorting.{IsStrictWeak}
use h2ai_control_plane.Proposals.{Entry, should_replace}

-- The better of two, by any such order: the first one, unless the second one beats it.
module _ {ℓ} {E : Type ℓ} (beats : E → E → Bool) where
  abbrev pub best : E → E → E
  best old new = if beats new old then new else old

  abbrev pub best_option : Option E → Option E → Option E
  best_option none b = b
  best_option (some a) none = some a
  best_option (some a) (some b) = some (best a b)

  -- One of two beats the other.
  abbrev pub Decided : E → E → Type 0
  Decided a b = (beats a b ≡ true) ⊎ (beats b a ≡ true)

  module _ (w : IsStrictWeak beats) where
    asym : (a b : E) → beats a b ≡ true → beats b a ≡ false
    asym a b h = ground (arith, w.trans a b a, w.irrefl a)

    best_idem : (a : E) → best a a ≡ a
    best_idem a = rw (w.irrefl a) refl

    best_assoc : (a b c : E) → best (best a b) c ≡ best a (best b c)
    best_assoc a b c = ground (
      arith,
      w.trans c b a,
      w.neg_trans c b a,
      w.trans b a c,
      asym b a,
      asym c b,
      asym c a,
      w.neg_trans c a b,
      w.neg_trans b c a,
    )

    pub best_option_idem : (a : Option E) → best_option a a ≡ a
    best_option_idem none = refl
    best_option_idem (some a) = ap some (best_idem a)

    pub best_option_assoc :
        (a b c : Option E) → best_option (best_option a b) c ≡ best_option a (best_option b c)
    best_option_assoc none b c = refl
    best_option_assoc (some a) none c = refl
    best_option_assoc (some a) (some b) none = refl
    best_option_assoc (some a) (some b) (some c) = ap some (best_assoc a b c)

    best_comm : (a b : E) → Decided a b → best a b ≡ best b a
    best_comm a b (inl h) = ground (arith, h, asym a b)
    best_comm a b (inr h) = ground (arith, h, asym b a)

    pub best_option_comm :
        (a b : Option E)
        → ((x y : E) → a ≡ some x → b ≡ some y → Decided x y)
        → best_option a b ≡ best_option b a
    best_option_comm none none h = refl
    best_option_comm none (some b) h = refl
    best_option_comm (some a) none h = refl
    best_option_comm (some a) (some b) h = ap some (best_comm a b (h a b refl refl))

module _ {ℓ} {F : Type ℓ} (gt : F → F → Bool) where
  -- Of two entries of an explorer, `a` replaces `b`.
  abbrev pub beats : Entry F → Entry F → Bool
  beats a b = should_replace gt a.1.0 a.1.1 b.1.0 b.1.1

  pub beats-IsStrictWeak : IsStrictWeak gt → IsStrictWeak beats
  beats-IsStrictWeak w = record {
    irrefl = λ a. ground (arith, w.irrefl a.1.1);
    trans = λ a b c h k. ground (arith, w.trans a.1.1 b.1.1 c.1.1);
    neg_trans = λ a b c h k. ground (arith, w.neg_trans a.1.1 b.1.1 c.1.1);
  }
