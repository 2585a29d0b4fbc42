-- ===== src/Subtasks/Waves/Rounds.antt =====
-- The outer loop of `topo_waves` (crates/h2ai-orchestrator/src/scheduler.rs), over any graph whose edges
-- do not exceed the in-degrees: it ends, and each wave waits only for earlier ones.
use mathlib.Core.List.{append_assoc, append-nil}
use mathlib.Core.Option
use h2ai_control_plane.Prelude.{
  ℕ, zero, suc, ◌+◌, ◌≤◌, ◌<◌, ◌≡◌, refl, sym, ap, ◌∙◌, Option, none, some, List, [], ◌∷◌, ◌++◌,
  map, arith, length, length-append, get_or, All, concat,
}
use h2ai_control_plane.Subtasks.Waves.{release_wave, rounds}
use h2ai_control_plane.Counting.{
  count, count-append, sum_over, sum_over-append, sum_below, sum_over-le-sum_below, Distinct,
  length_of_Distinct,
}
use h2ai_control_plane.Subtasks.Waves.Release.{Balanced, Balanced-congr, release_wave-Balanced}

-- The waves that the loop has still to find.
unfoldable pub later : ℕ → List (List ℕ) → List ℕ → List ℕ → Option (List (List ℕ))
later zero adj in_degree ready = none
later (suc fuel) adj in_degree [] = some []
later (suc fuel) adj in_degree (r ∷ rs) =
    let next = release_wave adj (in_degree, []) (r ∷ rs) in
    Option.map (λ ws. (r ∷ rs) ∷ ws) (later fuel adj next.0 next.1)

module _ {ℓ} {L : Type ℓ} (label : ℕ → L) (adj : List (List ℕ)) where
  abbrev pub labelled : ℕ → List (List L) → List (List ℕ) → ℕ × List (List L)
  labelled visited waves new = (visited + length (concat new), waves ++ map (map label) new)

  labelled-cons :
      (visited : ℕ) (waves : List (List L)) (w : List ℕ) (new : Option (List (List ℕ)))
      → Option.map (labelled (visited + length w) (waves ++ map label w ∷ [])) new
        ≡ Option.map (labelled visited waves) (Option.map (λ ws. w ∷ ws) new)
  labelled-cons visited waves w none = refl
  labelled-cons visited waves w (some new) = ap some (
      rw (length-append w (concat new), append_assoc waves (map label w ∷ []) (map (map label) new))
        (ap (λ k. (k, waves ++ map label w ∷ map (map label) new)) (omega arith)))

  pub rounds-eq-later :
      (fuel : ℕ) (in_degree ready : List ℕ) (visited : ℕ) (waves : List (List L))
      → rounds label fuel adj in_degree ready visited waves
        ≡ Option.map (labelled visited waves) (later fuel adj in_degree ready)
  unfolding rounds later
  rounds-eq-later zero in_degree ready visited waves = refl
  rounds-eq-later (suc fuel) in_degree [] visited waves =
      rw (append-nil waves) (ap (λ k. some (k, waves)) (omega arith))
  rounds-eq-later (suc fuel) in_degree (r ∷ rs) visited waves =
      let next = release_wave adj (in_degree, []) (r ∷ rs) in
      rounds-eq-later fuel next.0 next.1 (visited + length (r ∷ rs))
        (waves ++ map label (r ∷ rs) ∷ [])
      ∙ labelled-cons visited waves (r ∷ rs) (later fuel adj next.0 next.1)

module _ (n : ℕ) (need : ℕ → ℕ) (adj : List (List ℕ)) where
  -- The edges to `i` from the subtasks of a list.
  abbrev pub edges_from : List ℕ → ℕ → ℕ
  edges_from ps i = sum_over ps (λ p. count i (get_or adj p []))

  pub record Graph : Type 0 where
    pub low : (p : ℕ) → All (λ d. d < n) (get_or adj p [])
    pub total : (i : ℕ) → i < n → sum_below n (λ p. count i (get_or adj p [])) ≤ need i

  -- Every subtask of a wave has all its dependencies in the waves before.
  abbrev pub Layered : List ℕ → List (List ℕ) → Type 0
  Layered before [] = Unit
  Layered before (w ∷ ws) =
      ((i : ℕ) → 0 < count i w → (i < n) × (edges_from before i ≡ need i))
      × Layered (before ++ w) ws

  abbrev pub Between : List ℕ → List ℕ → List ℕ → Type 0
  Between before in_degree ready = Balanced n need (edges_from before) before in_degree ready

  pub record Done (before : List ℕ) (found : Option (List (List ℕ))) : Type 0 where
    pub new : List (List ℕ)
    pub found_eq : found ≡ some new
    pub layered : Layered before new
    pub final_degree : List ℕ
    pub final : Between (before ++ concat new) final_degree []

  module _ (g : Graph) where
    Between-Distinct :
        (before in_degree ready : List ℕ)
        → Between before in_degree ready
        → Distinct n (before ++ ready)
    Between-Distinct before in_degree ready b = record {
      once = λ j. ground (arith, b.marked j, count-append j before ready);
      bounded = λ j le. ground (arith, b.marked j, count-append j before ready);
    }

    round-Between :
        (before in_degree wave : List ℕ)
        → Between before in_degree wave
        → let next = release_wave adj (in_degree, []) wave in Between (before ++ wave) next.0 next.1
    round-Between before in_degree wave b =
        let next = release_wave adj (in_degree, []) wave in
        let room : (i : ℕ) → i < n → edges_from before i + edges_from wave i ≤ need i = λ i lt.
          omega (
            arith,
            sum_over-append before wave (λ p. count i (get_or adj p [])),
            sum_over-le-sum_below n (before ++ wave) (λ p. count i (get_or adj p []))
                (Between-Distinct before in_degree wave b),
            g.total i lt,
          ) in
        Balanced-congr n need (before ++ wave) _ _ next.0 next.1
          (λ i. sym (sum_over-append before wave (λ p. count i (get_or adj p []))))
          (release_wave-Balanced n need (before ++ wave) adj (edges_from before) (in_degree, [])
            wave g.low room
            record {
              size = b.size;
              left = b.left;
              marked = λ i. omega (arith, count-append i before wave, b.marked i);
            })

    ready-Layered :
        (before in_degree wave : List ℕ) (i : ℕ)
        → Between before in_degree wave
        → 0 < count i wave
        → (i < n) × (edges_from before i ≡ need i)
    ready-Layered before in_degree wave i b h =
        let lt : i < n = ground (arith, b.marked i) in (lt, ground (arith, b.marked i, b.left i lt))

    pub later-Done :
        (fuel : ℕ) (before in_degree ready : List ℕ)
        → n < length before + fuel
        → Between before in_degree ready
        → Done before (later fuel adj in_degree ready)
    unfolding later
    later-Done zero before in_degree ready room b = absurd (
        omega (
          arith,
          length_of_Distinct n (before ++ ready) (Between-Distinct before in_degree ready b),
          length-append before ready,
        ))
    later-Done (suc fuel) before in_degree [] room b = record {
      new = [];
      found_eq = refl;
      layered = tt;
      final_degree = in_degree;
      final = rw (append-nil before) b;
    }
    later-Done (suc fuel) before in_degree (r ∷ rs) room b =
        let next = release_wave adj (in_degree, []) (r ∷ rs) in
        let rest =
          later-Done fuel (before ++ r ∷ rs) next.0 next.1
            (omega (arith, length-append before (r ∷ rs)))
            (round-Between before in_degree (r ∷ rs) b) in
        record {
          new = (r ∷ rs) ∷ rest.new;
          found_eq = ap (Option.map (λ ws. (r ∷ rs) ∷ ws)) rest.found_eq;
          layered = (λ i h. ready-Layered before in_degree (r ∷ rs) i b h, rest.layered);
          final_degree = rest.final_degree;
          final = rw (← append_assoc before (r ∷ rs) (concat rest.new)) rest.final;
        }
