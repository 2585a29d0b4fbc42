-- ===== src/Constraints/Conflict/Docs.antt =====
-- crates/h2ai-constraints/src/conflict.rs: what `build` collects from the documents.
use mathlib.Core.List.{Memᴰ}
use mathlib.Core.List.Memᴰ
use h2ai_control_plane.Prelude.{
  ◌≡◌, ◌⊎◌, ◌↔◌, refl, ap, ◌∙◌, ℕ, String, List, [], ◌∷◌, inl, inr, eq_string,
}
use mathlib.Core.Path.{subst}
use h2ai_control_plane.HashMap.Unique.{Unique}
use h2ai_control_plane.Constraints.Types.{
  NumericOp, ConstraintDoc, numeric_threshold, semantic_ordering,
}
use h2ai_control_plane.Constraints.Conflict.{Collected, collect_predicates, collect_docs}
use h2ai_control_plane.HashMap.Multi.{entries}
use h2ai_control_plane.Constraints.Conflict.Collect.{
  Enforces, collect-ordering, collect-numeric, collect-Unique,
}

module _ {F J : Type 0} where
  -- A document of the id that enforces an ordering, a bound.
  pub record Orders (docs : List (ConstraintDoc F J)) (a x y : String) : Type 0 where
    pub doc : ConstraintDoc F J
    pub listed : Memᴰ doc docs
    pub named : a ≡ doc.id
    pub passes : ℕ
    pub enforced : Enforces doc.predicate (semantic_ordering x y passes)

  pub record Limits (docs : List (ConstraintDoc F J)) (field a : String) (op : NumericOp) (v : F)
      : Type 0 where
    pub doc : ConstraintDoc F J
    pub listed : Memᴰ doc docs
    pub named : a ≡ doc.id
    pub enforced : Enforces doc.predicate (numeric_threshold field op v)

  pub docs-ordering :
      (docs : List (ConstraintDoc F J)) (s : Collected F) (a x y : String)
      → Memᴰ (a, (x, y)) (collect_docs docs s).0 ↔ (Memᴰ (a, (x, y)) s.0 ⊎ Orders docs a x y)
  unfolding collect_docs
  docs-ordering [] s a x y =
      (inl, λ h. elim h [ inl old ↦ old | inr o ↦ absurd (Memᴰ.not-nil o.listed) ])
  docs-ordering (d ∷ ds) s a x y =
      let first = collect-ordering d.id d.predicate s a x y in
      let rest = docs-ordering ds (collect_predicates d.id d.predicate s) a x y in
      (
        λ h. elim (rest.0 h) [
          | inl m ↦ elim (first.0 m) [
            | inl old ↦ inl old
            | inr (e, (n, q)) ↦
                inr
                  (record { doc = d; listed = Memᴰ.head refl; named = e; passes = n; enforced = q })
          ]
          | inr o ↦ inr (record {
            doc = o.doc;
            listed = Memᴰ.tail o.listed;
            named = o.named;
            passes = o.passes;
            enforced = o.enforced;
          })
        ],
        λ h. elim h [
          | inl old ↦ rest.1 (inl (first.1 (inl old)))
          | inr o ↦ elim (Memᴰ.cases_cons o.listed) [
            | inl e ↦ rest.1 (
                inl (
                  first.1 (
                    inr (
                      o.named ∙ ap (λ d. d.id) e,
                      (
                        o.passes,
                        subst (λ d. Enforces d.predicate (semantic_ordering x y o.passes)) e
                            o.enforced,
                      ),
                    ))))
            | inr m ↦ rest.1 (
                inr (record {
                  doc = o.doc;
                  listed = m;
                  named = o.named;
                  passes = o.passes;
                  enforced = o.enforced;
                }))
          ]
        ],
      )

  pub docs-numeric :
      (docs : List (ConstraintDoc F J)) (s : Collected F) (field a : String) (op : NumericOp)
      (v : F)
      → Memᴰ (a, (op, v)) (entries (collect_docs docs s).1 field)
        ↔ (Memᴰ (a, (op, v)) (entries s.1 field) ⊎ Limits docs field a op v)
  unfolding collect_docs
  docs-numeric [] s field a op v =
      (inl, λ h. elim h [ inl old ↦ old | inr o ↦ absurd (Memᴰ.not-nil o.listed) ])
  docs-numeric (d ∷ ds) s field a op v =
      let first = collect-numeric d.id d.predicate s field a op v in
      let rest = docs-numeric ds (collect_predicates d.id d.predicate s) field a op v in
      (
        λ h. elim (rest.0 h) [
          | inl m ↦ elim (first.0 m) [
            | inl old ↦ inl old
            | inr (e, q) ↦
                inr (record { doc = d; listed = Memᴰ.head refl; named = e; enforced = q })
          ]
          | inr o ↦ inr (record {
            doc = o.doc;
            listed = Memᴰ.tail o.listed;
            named = o.named;
            enforced = o.enforced;
          })
        ],
        λ h. elim h [
          | inl old ↦ rest.1 (inl (first.1 (inl old)))
          | inr o ↦ elim (Memᴰ.cases_cons o.listed) [
            | inl e ↦ rest.1 (
                inl (
                  first.1 (
                    inr (
                      o.named ∙ ap (λ d. d.id) e,
                      subst (λ d. Enforces d.predicate (numeric_threshold field op v)) e o.enforced,
                    ))))
            | inr m ↦
                rest.1
                  (inr (record { doc = o.doc; listed = m; named = o.named; enforced = o.enforced }))
          ]
        ],
      )

  pub docs-Unique :
      (docs : List (ConstraintDoc F J)) (s : Collected F)
      → Unique s.1
      → Unique (collect_docs docs s).1
  unfolding collect_docs
  docs-Unique [] s u = u
  docs-Unique (d ∷ ds) s u =
      docs-Unique ds (collect_predicates d.id d.predicate s) (collect-Unique d.id d.predicate s u)
