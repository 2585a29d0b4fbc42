-- ===== src/Subtasks/Waves/Release.antt =====
-- The inner loops of `topo_waves` (crates/h2ai-orchestrator/src/scheduler.rs): what the releases of a
-- wave do to the in-degrees and to the subtasks that are ready.
use h2ai_control_plane.Prelude.{
  ℕ, zero, suc, ◌+◌, ◌≤◌, ◌<◌, ◌≡◌, ◌≢◌, ◌∙◌, false, ◌&&◌, List, [], ◌∷◌, arith, ◌==◌, ==_iff, ltb,
  length, get_or, set, length-set, get_or-set_self, get_or-set_ne, All, if◌then◌else◌, Bool-cases,
  inl, inr,
}
use h2ai_control_plane.Subtasks.Waves.{decrement, release, release_all, release_wave}
use h2ai_control_plane.Counting.{count, count-append, sum_over}

abbrev pub is_ready : ℕ → List ℕ → ℕ → ℕ
is_ready n in_degree i = if ltb i n && (get_or in_degree i 0 == 0) then 1 else 0

decrement-pos : (d : ℕ) → 0 < d → decrement d + 1 ≡ d
decrement-pos zero h = absurd (omega arith)
decrement-pos (suc d) h = omega arith

ne_of_false : (a b : ℕ) → (a == b) ≡ false → a ≢ b
ne_of_false a b e p = ground arith

-- `need i` is the number of dependencies of subtask `i`, `freed i` how many of them were taken off its
-- in-degree, `seen` are the subtasks of this and of earlier waves, and `ready` those of the next.
pub record Balanced (n : ℕ) (need freed : ℕ → ℕ) (seen : List ℕ) (in_degree ready : List ℕ)
    : Type 0 where
  pub size : length in_degree ≡ n
  pub left : (i : ℕ) → i < n → get_or in_degree i 0 + freed i ≡ need i
  pub marked : (i : ℕ) → count i seen + count i ready ≡ is_ready n in_degree i

module _ (n : ℕ) (need : ℕ → ℕ) (seen : List ℕ) where
  one_more : (ℕ → ℕ) → ℕ → ℕ → ℕ
  one_more freed dep i = if dep == i then freed i + 1 else freed i

  release-Balanced :
      (freed : ℕ → ℕ) (in_degree ready : List ℕ) (dep : ℕ)
      → dep < n
      → freed dep + 1 ≤ need dep
      → Balanced n need freed seen in_degree ready
      → let st = release (in_degree, ready) dep in
        Balanced n need (one_more freed dep) seen st.0 st.1
  unfolding release one_more
  release-Balanced freed in_degree ready dep lt room h =
      let old = get_or in_degree dep 0 in
      let new = decrement old in
      let was : old + freed dep ≡ need dep = h.left dep lt in
      let down : new + 1 ≡ old = decrement-pos old (omega arith) in
      let now : get_or (set in_degree dep new) dep 0 ≡ new =
        get_or-set_self in_degree dep new 0 (omega (arith, h.size)) in
      let others : (i : ℕ) → dep ≢ i → get_or (set in_degree dep new) i 0 ≡ get_or in_degree i 0 =
        λ i ne. get_or-set_ne in_degree dep i new 0 ne in
      record {
        size = length-set in_degree dep _ ∙ h.size;
        left = λ i bound. elim (Bool-cases (dep == i)) [
          | inl e ↦ rw (← (==_iff dep i).0 e, now) (ground arith)
          | inr e ↦ ground (arith, others i (ne_of_false dep i e), h.left i bound)
        ];
        marked = λ i. elim (Bool-cases (dep == i)) [
          | inl e ↦
              rw (← (==_iff dep i).0 e, now)
                (ground (arith, h.marked dep, count-append dep ready (dep ∷ [])))
          | inr e ↦
              rw (others i (ne_of_false dep i e))
                (ground (arith, h.marked i, count-append i ready (dep ∷ [])))
        ];
      }

  pub Balanced-congr :
      (f g : ℕ → ℕ) (in_degree ready : List ℕ)
      → ((i : ℕ) → f i ≡ g i)
      → Balanced n need f seen in_degree ready
      → Balanced n need g seen in_degree ready
  Balanced-congr f g in_degree ready e h = record {
    size = h.size;
    left = λ i lt. omega (arith, h.left i lt, e i);
    marked = h.marked;
  }

  one_more-count :
      (freed : ℕ → ℕ) (dep : ℕ) (deps : List ℕ) (i : ℕ)
      → one_more freed dep i + count i deps ≡ freed i + count i (dep ∷ deps)
  unfolding one_more
  one_more-count freed dep deps i = ground arith

  release_all-Balanced :
      (freed : ℕ → ℕ) (st : List ℕ × List ℕ) (deps : List ℕ)
      → All (λ d. d < n) deps
      → ((i : ℕ) → i < n → freed i + count i deps ≤ need i)
      → Balanced n need freed seen st.0 st.1
      → let st' = release_all st deps in
        Balanced n need (λ i. freed i + count i deps) seen st'.0 st'.1
  unfolding release_all
  release_all-Balanced freed st [] low room h =
      Balanced-congr freed (λ i. freed i + 0) st.0 st.1 (λ i. omega arith) h
  release_all-Balanced freed st (dep ∷ deps) low room h =
      let st' = release st dep in
      let all' = release_all st' deps in
      Balanced-congr _ _ all'.0 all'.1 (one_more-count freed dep deps) (
        release_all-Balanced (one_more freed dep) st' deps low.1
          (λ i lt. omega (arith, one_more-count freed dep deps i, room i lt))
          (release-Balanced freed st.0 st.1 dep low.0 (ground (arith, room dep low.0)) h))

  -- A whole wave: `freed` grows by the edges that leave the wave.
  pub release_wave-Balanced :
      (adj : List (List ℕ)) (freed : ℕ → ℕ) (st : List ℕ × List ℕ) (wave : List ℕ)
      → ((p : ℕ) → All (λ d. d < n) (get_or adj p []))
      → ((i : ℕ) → i < n → freed i + sum_over wave (λ p. count i (get_or adj p [])) ≤ need i)
      → Balanced n need freed seen st.0 st.1
      → let st' = release_wave adj st wave in
        Balanced n need
          (λ i. freed i + sum_over wave (λ p. count i (get_or adj p [])))
          seen
          st'.0
          st'.1
  unfolding release_wave
  release_wave-Balanced adj freed st [] low room h =
      Balanced-congr freed (λ i. freed i + 0) st.0 st.1 (λ i. omega arith) h
  release_wave-Balanced adj freed st (idx ∷ wave) low room h =
      let st' = release_all st (get_or adj idx []) in
      let all' = release_wave adj st' wave in
      Balanced-congr _ _ all'.0 all'.1 (λ i. omega arith)
        (release_wave-Balanced adj (λ i. freed i + count i (get_or adj idx [])) st' wave low
          (λ i lt. omega (arith, room i lt))
          (release_all-Balanced freed st (get_or adj idx []) (low idx)
            (λ i lt. omega (arith, room i lt)) h))
