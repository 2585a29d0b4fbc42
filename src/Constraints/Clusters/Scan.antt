-- ===== src/Constraints/Clusters/Scan.antt =====
-- crates/h2ai-constraints/src/clustering.rs: the loop over the neighbours.
use mathlib.Core.List.{Memᴰ, append_assoc, append-nil}
use mathlib.Core.List.Memᴰ
use h2ai_control_plane.Prelude.{
  ℕ, ◌+◌, ◌≤◌, ◌≡◌, ◌⊎◌, ◌↔◌, refl, sym, ap, ◌∙◌, String, true, false, not, List, [], ◌∷◌, ◌++◌,
  arith, eq_string, length, filter, Bool-cases, inl, inr, if◌then◌else◌, str_eq_iff,
}
use h2ai_control_plane.Members.{Once}
use h2ai_control_plane.HashSet
use h2ai_control_plane.HashSet.{contains-insert}
use h2ai_control_plane.Constraints.Clusters.{Search, scan}

abbrev pub unseen : List String → List String → ℕ
unseen visited nodes = length (filter (λ n. not (HashSet.contains visited n)) nodes)

unseen-insert-le :
    (visited nodes : List String) (n : String)
    → unseen (HashSet.insert visited n) nodes ≤ unseen visited nodes
unseen-insert-le visited [] n = omega arith
unseen-insert-le visited (m ∷ nodes) n =
    ground (arith, contains-insert visited n m, unseen-insert-le visited nodes n)

pub unseen-insert-lt :
    (visited nodes : List String) (n : String)
    → HashSet.contains visited n ≡ false
    → Memᴰ n nodes
    → unseen (HashSet.insert visited n) nodes + 1 ≤ unseen visited nodes
unseen-insert-lt visited [] n new m = absurd (Memᴰ.not-nil m)
unseen-insert-lt visited (k ∷ nodes) n new (Memᴰ.head e) = ground (
  arith,
  contains-insert visited n k,
  unseen-insert-le visited nodes n,
  str_eq_iff n k,
  e,
  new,
  ap (HashSet.contains visited) e,
)
unseen-insert-lt visited (k ∷ nodes) n new (Memᴰ.tail m) =
    ground (arith, contains-insert visited n k, unseen-insert-lt visited nodes n new m)

-- What a scan adds: the neighbours that were not visited, once each.
pub record Scanned (s : Search) (neighbors nodes : List String) (s' : Search) : Type 0 where
  pub new : List String
  pub queued : s'.queue ≡ s.queue ++ new
  pub once : Once new
  pub from : (x : String) → Memᴰ x new → Memᴰ x neighbors × (HashSet.contains s.visited x ≡ false)
  pub marked :
      (x : String)
      → (HashSet.contains s'.visited x ≡ true)
        ↔ ((HashSet.contains s.visited x ≡ true) ⊎ Memᴰ x new)
  pub all_marked : (x : String) → Memᴰ x neighbors → HashSet.contains s'.visited x ≡ true
  pub work : unseen s'.visited nodes + length new ≤ unseen s.visited nodes

abbrev pub visit : Search → String → Search
visit s n = record { visited = HashSet.insert s.visited n; queue = s.queue ++ n ∷ [] }

scan-old :
    (s : Search) (n : String) (neighbors : List String)
    → HashSet.contains s.visited n ≡ true
    → scan s (n ∷ neighbors) ≡ scan s neighbors
unfolding scan
scan-old s n neighbors old = ap (λ b. scan (if b then s else visit s n) neighbors) old

scan-fresh :
    (s : Search) (n : String) (neighbors : List String)
    → HashSet.contains s.visited n ≡ false
    → scan s (n ∷ neighbors) ≡ scan (visit s n) neighbors
unfolding scan
scan-fresh s n neighbors fresh = ap (λ b. scan (if b then s else visit s n) neighbors) fresh

scan-nil : (s : Search) → scan s [] ≡ s
unfolding scan
scan-nil s = refl

pub scan-Scanned :
    (s : Search) (neighbors nodes : List String)
    → ((x : String) → Memᴰ x neighbors → Memᴰ x nodes)
    → Scanned s neighbors nodes (scan s neighbors)
scan-Scanned s [] nodes inside = rw (scan-nil s) (record {
  new = [];
  queued = sym (append-nil s.queue);
  once = tt;
  from = λ x m. absurd (Memᴰ.not-nil m);
  marked = λ x. (inl, λ h. elim h [ inl m ↦ m | inr m ↦ absurd (Memᴰ.not-nil m) ]);
  all_marked = λ x m. absurd (Memᴰ.not-nil m);
  work = omega arith;
})
scan-Scanned s (n ∷ neighbors) nodes inside = elim (Bool-cases (HashSet.contains s.visited n)) [
  | inl old ↦
      let r = scan-Scanned s neighbors nodes (λ x m. inside x (Memᴰ.tail m)) in
      rw (scan-old s n neighbors old) (record {
        new = r.new;
        queued = r.queued;
        once = r.once;
        from = λ x m. let (i, u) = r.from x m in (Memᴰ.tail i, u);
        marked = r.marked;
        all_marked = λ x m. elim (Memᴰ.cases_cons m) [
          | inl e ↦ (r.marked x).1 (inl (ap (HashSet.contains s.visited) e ∙ old))
          | inr later ↦ r.all_marked x later
        ];
        work = r.work;
      })
  | inr fresh ↦
      let s₁ = visit s n in
      let r = scan-Scanned s₁ neighbors nodes (λ x m. inside x (Memᴰ.tail m)) in
      let seen_n : (x : String)
          → (HashSet.contains s₁.visited x ≡ true)
            ↔ ((x ≡ n) ⊎ (HashSet.contains s.visited x ≡ true)) =
        λ x. ground (arith, contains-insert s.visited n x, str_eq_iff n x) in
      rw (scan-fresh s n neighbors fresh) (record {
        new = n ∷ r.new;
        queued = r.queued ∙ append_assoc s.queue (n ∷ []) r.new;
        once = (λ m. ground (arith, r.from n m, seen_n n), r.once);
        from = λ x m. elim (Memᴰ.cases_cons m) [
          | inl e ↦ (Memᴰ.head e, ap (HashSet.contains s.visited) e ∙ fresh)
          | inr later ↦ let (i, u) = r.from x later in (Memᴰ.tail i, ground (arith, seen_n x, u))
        ];
        marked = λ x. (
          λ h. elim ((r.marked x).0 h) [
            | inl m ↦ elim ((seen_n x).0 m) [ inl e ↦ inr (Memᴰ.head e) | inr old ↦ inl old ]
            | inr m ↦ inr (Memᴰ.tail m)
          ],
          λ h. elim h [
            | inl old ↦ (r.marked x).1 (inl ((seen_n x).1 (inr old)))
            | inr m ↦ elim (Memᴰ.cases_cons m) [
              | inl e ↦ (r.marked x).1 (inl ((seen_n x).1 (inl e)))
              | inr later ↦ (r.marked x).1 (inr later)
            ]
          ],
        );
        all_marked = λ x m. elim (Memᴰ.cases_cons m) [
          | inl e ↦ (r.marked x).1 (inl ((seen_n x).1 (inl e)))
          | inr later ↦ r.all_marked x later
        ];
        work =
            omega
              (arith, r.work, unseen-insert-lt s.visited nodes n fresh (inside n (Memᴰ.head refl)));
      })
]
