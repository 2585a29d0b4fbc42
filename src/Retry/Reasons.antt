-- ===== src/Retry/Reasons.antt =====
-- `top_k_unique_reasons` of crates/h2ai-autonomic/src/retry.rs: what the selected reasons are.
use mathlib.Core.List.{append_assoc, Memᴰ}
use h2ai_control_plane.Prelude.{
  ℕ, ◌≤◌, ◌<◌, ◌≡◌, String, Bool, false, List, [], ◌∷◌, ◌++◌, arith, leb, length, length-append,
  any, All, All-append, Bool-cases, inl, inr,
}
use h2ai_control_plane.Sorting.{IsStrictWeak, sort, sort-All, sort-Ordered, Ordered, Memᴰ-All}
use h2ai_control_plane.Retry.{collect, top_k_unique_reasons}

module _ {ℓ} {A : Type ℓ} (before : A → A → Bool) where
  All-drop :
      (P : A → Type 0) (xs : List A) (x : A) (ys : List A) → All P (xs ++ x ∷ ys) → All P (xs ++ ys)
  All-drop P [] x ys h = h.1
  All-drop P (z ∷ xs) x ys h = (h.0, All-drop P xs x ys h.1)

  All-prefix : (P : A → Type 0) (xs ys : List A) → All P (xs ++ ys) → All P xs
  All-prefix P [] ys h = tt
  All-prefix P (x ∷ xs) ys h = (h.0, All-prefix P xs ys h.1)

  Ordered-drop :
      (xs : List A) (x : A) (ys : List A)
      → Ordered before (xs ++ x ∷ ys)
      → Ordered before (xs ++ ys)
  Ordered-drop [] x ys h = h.1
  Ordered-drop (z ∷ xs) x ys h = (All-drop _ xs x ys h.0, Ordered-drop xs x ys h.1)

  Ordered-prefix : (xs ys : List A) → Ordered before (xs ++ ys) → Ordered before xs
  Ordered-prefix [] ys h = tt
  Ordered-prefix (x ∷ xs) ys h = (All-prefix _ xs ys h.0, Ordered-prefix xs ys h.1)

any-All {ℓ} :
    {A : Type ℓ} (p : A → Bool) (xs : List A) → any p xs ≡ false → All (λ x. p x ≡ false) xs
any-All p [] h = tt
any-All p (x ∷ xs) h = (ground (arith, h), any-All p xs (ground (arith, h)))

module _ {ℓ} {F : Type ℓ} (gt : F → F → Bool) (jaccard : String → String → F) (k : ℕ)
    (dedup_threshold : F) where
  abbrev higher : F × String → F × String → Bool
  higher a b = gt a.0 b.0

  -- A reason is not too similar to an earlier one.
  abbrev pub Unalike : List (F × String) → Type 0
  Unalike [] = Unit
  Unalike (x ∷ xs) = All (λ y. gt (jaccard x.1 y.1) dedup_threshold ≡ false) xs × Unalike xs

  Unalike-append :
      (xs : List (F × String)) (y : F × String)
      → Unalike xs
      → All (λ x. gt (jaccard x.1 y.1) dedup_threshold ≡ false) xs
      → Unalike (xs ++ y ∷ [])
  Unalike-append [] y h new = (tt, tt)
  Unalike-append (x ∷ xs) y h new =
      (All-append _ xs (y ∷ []) h.0 (new.0, tt), Unalike-append xs y h.1 new.1)

  -- At most `k` of the pairs, by scores that never rise, none too similar to an earlier one.
  pub record IsSelection (pairs selected : List (F × String)) : Type ℓ where
    pub bounded : length selected ≤ k
    pub falling : Ordered higher selected
    pub unalike : Unalike selected
    pub members : All (λ p. Memᴰ p pairs) selected

  collect-IsSelection :
      (pairs result sorted : List (F × String))
      → length result < k
      → Ordered higher (result ++ sorted)
      → Unalike result
      → All (λ p. Memᴰ p pairs) result
      → All (λ p. Memᴰ p pairs) sorted
      → IsSelection pairs (collect gt jaccard k dedup_threshold result sorted)
  unfolding collect
  collect-IsSelection pairs result [] room o u m n = record {
    bounded = omega arith;
    falling = Ordered-prefix higher result [] o;
    unalike = u;
    members = m;
  }
  collect-IsSelection pairs result (x ∷ rest) room o u m n =
      elim (Bool-cases (any (λ r. gt (jaccard r.1 x.1) dedup_threshold) result)) [
        | inl dup ↦
            let later =
              collect-IsSelection pairs result rest room (Ordered-drop higher result x rest o) u m
                n.1 in
            let short : leb k (length result) ≡ false = ground arith in
            rw (collect, dup, short) later
        | inr fresh ↦
            let more : List (F × String) = result ++ x ∷ [] in
            let more_o : Ordered higher (more ++ rest) = rw (append_assoc result (x ∷ []) rest) o in
            let more_u : Unalike more =
              Unalike-append result x u
                (any-All (λ r. gt (jaccard r.1 x.1) dedup_threshold) result fresh) in
            let more_m : All (λ p. Memᴰ p pairs) more = All-append _ result (x ∷ []) m (n.0, tt) in
            elim (Bool-cases (leb k (length more))) [
              | inl full ↦
                  rw (collect, fresh, full)
                    record {
                      bounded = omega (arith, length-append result (x ∷ []));
                      falling = Ordered-prefix higher more rest more_o;
                      unalike = more_u;
                      members = more_m;
                    }
              | inr short ↦
                  rw (collect, fresh, short)
                    (collect-IsSelection pairs more rest (ground (arith, short)) more_o more_u
                      more_m n.1)
            ]
      ]

  -- For scores in a strict weak order and a `k` above 0, `top_k_unique_reasons` selects at most `k` of
  -- the pairs, by scores that never rise, and none whose reason is too similar to one before it.
  pub top_k_unique_reasons-IsSelection :
      (pairs : List (F × String))
      → IsStrictWeak gt
      → 0 < k
      → IsSelection pairs (top_k_unique_reasons gt jaccard pairs k dedup_threshold)
  unfolding top_k_unique_reasons
  top_k_unique_reasons-IsSelection pairs w pos =
      collect-IsSelection pairs [] (sort higher pairs) (omega arith)
        (sort-Ordered higher
          record {
            irrefl = λ a. w.irrefl a.0;
            trans = λ a b c. w.trans a.0 b.0 c.0;
            neg_trans = λ a b c. w.neg_trans a.0 b.0 c.0;
          }
          pairs)
        tt tt
        (sort-All higher (λ p. Memᴰ p pairs) pairs (Memᴰ-All (λ p. Memᴰ p pairs) pairs (λ p m. m)))
