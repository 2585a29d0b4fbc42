-- ===== src/JudgePanel/Panel.antt =====
-- Which judges `JudgePanel::build` seats (crates/h2ai-orchestrator/src/judge_panel.rs).
use h2ai_control_plane.Prelude.{
  ℕ, zero, suc, ◌≤◌, ◌≡◌, refl, sym, ap, ◌∙◌, false, List, [], ◌∷◌, map, take, any, arith, ◌==◌,
  length, All, All-map, if◌then◌else◌, Bool-cases, inl, inr, leb,
}
use h2ai_control_plane.JudgePanel.{
  AdapterKind, Adapter, family, JudgePanel, PanelDiversityKind, cross_family, persona_only,
  cross_adapters, literal_variant, panel_of, build,
}

-- No two adapters of a list are of one family.
abbrev pub Diverse : List Adapter → Type 0
Diverse [] = Unit
Diverse (a ∷ rest) = All (λ b. (family a.kind == family b.kind) ≡ false) rest × Diverse rest

-- An adapter is listed with its own kind.
abbrev pub OwnKinds : List (Adapter × AdapterKind) → Type 0
OwnKinds additional = All (λ p. p.1 ≡ p.0.kind) additional

abbrev Unseen : List ℕ → Adapter → Type 0
Unseen seen a = any (λ f. f == family a.kind) seen ≡ false

seen_less : (f : ℕ) (seen : List ℕ) (a : Adapter) → Unseen (f ∷ seen) a → Unseen seen a
seen_less f seen a h = ground (arith, h)

head_ne : (f : ℕ) (seen : List ℕ) (a : Adapter) → Unseen (f ∷ seen) a → (f == family a.kind) ≡ false
head_ne f seen a h = ground (arith, h)

cross-Unseen :
    (seen : List ℕ) (additional : List (Adapter × AdapterKind))
    → OwnKinds additional
    → All (Unseen seen) (cross_adapters seen additional) × Diverse (cross_adapters seen additional)
unfolding cross_adapters
cross-Unseen seen [] own = (tt, tt)
cross-Unseen seen ((a, k) ∷ additional) own = elim (Bool-cases (any (λ f. f == family k) seen)) [
  | inl e ↦ rw (cross_adapters, e) (cross-Unseen seen additional own.1)
  | inr e ↦
      let more = cross-Unseen (family k ∷ seen) additional own.1 in
      let same : family k ≡ family a.kind = ap family own.0 in
      rw (cross_adapters, e)
        (
          (
            ap (λ g. any (λ f. f == g) seen) (sym same) ∙ e,
            All-map _ _ (λ b. seen_less (family k) seen b)
                (cross_adapters (family k ∷ seen) additional) more.0,
          ),
          (
            All-map _ _
                (λ b h. ap (λ g. g == family b.kind) (sym same) ∙ head_ne (family k) seen b h)
                (cross_adapters (family k ∷ seen) additional) more.0,
            more.1,
          ),
        )
]

take-All : (P : Adapter → Type 0) (n : ℕ) (rest : List Adapter) → All P rest → All P (take n rest)
take-All P zero rest h = tt
take-All P (suc n) [] h = tt
take-All P (suc n) (a ∷ rest) h = (h.0, take-All P n rest h.1)

take-Diverse : (n : ℕ) (rest : List Adapter) → Diverse rest → Diverse (take n rest)
take-Diverse zero rest h = tt
take-Diverse (suc n) [] h = tt
take-Diverse (suc n) (a ∷ rest) h = (take-All _ n rest h.0, take-Diverse n rest h.1)

take-length : (n : ℕ) (rest : List Adapter) → length (take n rest) ≤ n
take-length zero rest = omega arith
take-length (suc n) [] = omega arith
take-length (suc n) (a ∷ rest) = omega (arith, take-length n rest)

-- The judges of a panel.
abbrev pub judges : JudgePanel → List Adapter
judges panel = map (λ v. v.adapter) panel.variants

panel-judges :
    (primary : Adapter) (cross : List Adapter) → judges (panel_of primary cross) ≡ primary ∷ cross
panel-judges primary [] = refl
panel-judges primary (a ∷ cross) = ap (λ rest. primary ∷ a ∷ rest) (of_variants cross)
  where
    of_variants : (rest : List Adapter) → map (λ v. v.adapter) (map literal_variant rest) ≡ rest
    of_variants [] = refl
    of_variants (a ∷ rest) = ap (λ bs. a ∷ bs) (of_variants rest)

abbrev kind_for : ℕ → PanelDiversityKind
kind_for n = if leb 2 n then cross_family else persona_only

panel-kind :
    (primary : Adapter) (cross : List Adapter)
    → (panel_of primary cross).diversity_kind ≡ kind_for (length (primary ∷ cross))
panel-kind primary [] = ground arith
panel-kind primary (a ∷ cross) = ground arith

-- Where each further adapter is listed with its own kind, `build` seats at most three judges of
-- pairwise different families, the primary one first, and counts them as a cross-family panel exactly
-- if there are two or more.
pub build-Diverse :
    (primary : Adapter) (additional : List (Adapter × AdapterKind))
    → OwnKinds additional
    → let panel = build primary additional in
      (cross : List Adapter) × ((judges panel ≡ primary ∷ cross)
        × (Diverse (primary ∷ cross)
            × ((length cross ≤ 2)
                × (panel.diversity_kind
                    ≡ (if leb 2 (length (judges panel)) then cross_family else persona_only)))))
unfolding build
build-Diverse primary additional own =
    let found = cross-Unseen (family primary.kind ∷ []) additional own in
    let cross = take 2 (cross_adapters (family primary.kind ∷ []) additional) in
    (
      cross,
      (
        panel-judges primary cross,
        (
          (
            take-All _ 2 _ (All-map _ _ (λ b. head_ne (family primary.kind) [] b) _ found.0),
            take-Diverse 2 _ found.1,
          ),
          (
            take-length 2 _,
            panel-kind primary cross
                ∙ ap (λ js. kind_for (length js)) (sym (panel-judges primary cross)),
          ),
        ),
      ),
    )
