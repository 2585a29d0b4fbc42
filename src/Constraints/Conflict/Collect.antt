-- ===== src/Constraints/Conflict/Collect.antt =====
-- crates/h2ai-constraints/src/conflict.rs: what `collect_predicates` collects.
use mathlib.Core.List.{Memᴰ}
use h2ai_control_plane.Prelude.{◌≡◌, ◌⊎◌, ◌↔◌, ap, ℕ, String, arith, inl, inr, eq_string}
use h2ai_control_plane.Members.{Memᴰ-concat}
use h2ai_control_plane.HashMap.Multi.{entries, push, entry-push}
use h2ai_control_plane.HashMap.Unique.{Unique, insert-Unique}
use h2ai_control_plane.Constraints.Types.{
  NumericOp, ConstraintPredicate, Children, numeric_threshold, composite, semantic_ordering, nil,
  cons, CompositeOp,
}
use h2ai_control_plane.Constraints.Conflict.{Collected, collect_predicates, collect_children}

module _ {F J : Type 0} where
  -- Who satisfies the first predicate satisfies the second one, which stands under no `Or` and no `Not`.
  unfoldable mutual
    pub Enforces : ConstraintPredicate F J → ConstraintPredicate F J → Type 0
    Enforces (composite CompositeOp.and children) q = OneEnforces children q
    Enforces (composite op children) q = ⊥
    Enforces p q = q ≡ p

    pub OneEnforces : Children F J → ConstraintPredicate F J → Type 0
    OneEnforces nil q = ⊥
    OneEnforces (cons p ps) q = Enforces p q ⊎ OneEnforces ps q

  abbrev pub OrdersBy : ConstraintPredicate F J → String → String → Type 0
  OrdersBy p x y = (n : ℕ) × Enforces p (semantic_ordering x y n)

module _ {F J : Type 0} (id : String) where
  mutual
    unfolding collect_predicates Enforces

    pub collect-ordering :
        (p : ConstraintPredicate F J) (s : Collected F) (a x y : String)
        → Memᴰ (a, (x, y)) (collect_predicates id p s).0
          ↔ (Memᴰ (a, (x, y)) s.0 ⊎ ((a ≡ id) × OrdersBy p x y))
    collect-ordering (semantic_ordering first then_text passes) s a x y =
        let m = Memᴰ-concat (a, (x, y)) (id, (first, then_text)) s.0 in
        (
          λ h. elim (m.0 h) [
            | inl old ↦ inl old
            | inr e ↦ inr (ap (λ o. o.0) e, (passes, ground (arith, e)))
          ],
          λ h. elim h [
            | inl old ↦ m.1 (inl old)
            | inr (e, (n, q)) ↦ m.1 (inr (ground (arith, e, q)))
          ],
        )
    collect-ordering (composite CompositeOp.and children) s a x y =
        children-ordering children s a x y
    collect-ordering p s a x y =
        (inl, λ h. elim h [ inl old ↦ old | inr (e, (n, q)) ↦ ground (arith, q) ])

    children-ordering :
        (ps : Children F J) (s : Collected F) (a x y : String)
        → Memᴰ (a, (x, y)) (collect_children id ps s).0 ↔ (
            Memᴰ (a, (x, y)) s.0
            ⊎ ((a ≡ id) × ((n : ℕ) × OneEnforces ps (semantic_ordering x y n))))
    children-ordering nil s a x y =
        (inl, λ h. elim h [ inl old ↦ old | inr (e, (n, q)) ↦ absurd q ])
    children-ordering (cons p ps) s a x y =
        let first = collect-ordering p s a x y in
        let rest = children-ordering ps (collect_predicates id p s) a x y in
        (
          λ h. elim (rest.0 h) [
            | inl m ↦ elim (first.0 m) [ inl old ↦ inl old | inr (e, (n, q)) ↦ inr (e, (n, inl q)) ]
            | inr (e, (n, q)) ↦ inr (e, (n, inr q))
          ],
          λ h. elim h [
            | inl old ↦ rest.1 (inl (first.1 (inl old)))
            | inr (e, (n, inl q)) ↦ rest.1 (inl (first.1 (inr (e, (n, q)))))
            | inr (e, (n, inr q)) ↦ rest.1 (inr (e, (n, q)))
          ],
        )

  mutual
    unfolding collect_predicates Enforces

    pub collect-numeric :
        (p : ConstraintPredicate F J) (s : Collected F) (field a : String) (op : NumericOp) (v : F)
        → Memᴰ (a, (op, v)) (entries (collect_predicates id p s).1 field) ↔ (
            Memᴰ (a, (op, v)) (entries s.1 field)
            ⊎ ((a ≡ id) × Enforces p (numeric_threshold field op v)))
    collect-numeric (numeric_threshold field_pattern op' value) s field a op v =
        let m = entry-push s.1 field_pattern field (id, (op', value)) (a, (op, v)) in
        (
          λ h. elim (m.0 h) [
            | inl old ↦ inl old
            | inr (p, e) ↦ inr (ap (λ o. o.0) e, ground (arith, e, p))
          ],
          λ h. elim h [ inl old ↦ m.1 (inl old) | inr (e, q) ↦ m.1 (inr (ground (arith, e, q))) ],
        )
    collect-numeric (composite CompositeOp.and children) s field a op v =
        children-numeric children s field a op v
    collect-numeric p s field a op v =
        (inl, λ h. elim h [ inl old ↦ old | inr (e, q) ↦ ground (arith, q) ])

    children-numeric :
        (ps : Children F J) (s : Collected F) (field a : String) (op : NumericOp) (v : F)
        → Memᴰ (a, (op, v)) (entries (collect_children id ps s).1 field) ↔ (
            Memᴰ (a, (op, v)) (entries s.1 field)
            ⊎ ((a ≡ id) × OneEnforces ps (numeric_threshold field op v)))
    children-numeric nil s field a op v =
        (inl, λ h. elim h [ inl old ↦ old | inr (e, q) ↦ absurd q ])
    children-numeric (cons p ps) s field a op v =
        let first = collect-numeric p s field a op v in
        let rest = children-numeric ps (collect_predicates id p s) field a op v in
        (
          λ h. elim (rest.0 h) [
            | inl m ↦ elim (first.0 m) [ inl old ↦ inl old | inr (e, q) ↦ inr (e, inl q) ]
            | inr (e, q) ↦ inr (e, inr q)
          ],
          λ h. elim h [
            | inl old ↦ rest.1 (inl (first.1 (inl old)))
            | inr (e, inl q) ↦ rest.1 (inl (first.1 (inr (e, q))))
            | inr (e, inr q) ↦ rest.1 (inr (e, q))
          ],
        )

  mutual
    unfolding collect_predicates push

    pub collect-Unique :
        (p : ConstraintPredicate F J) (s : Collected F)
        → Unique s.1
        → Unique (collect_predicates id p s).1
    collect-Unique (numeric_threshold field_pattern op value) s u =
        insert-Unique s.1 field_pattern _ u
    collect-Unique (composite CompositeOp.and children) s u = children-Unique children s u
    collect-Unique p s u = u

    children-Unique :
        (ps : Children F J) (s : Collected F) → Unique s.1 → Unique (collect_children id ps s).1
    children-Unique nil s u = u
    children-Unique (cons p ps) s u =
        children-Unique ps (collect_predicates id p s) (collect-Unique p s u)
