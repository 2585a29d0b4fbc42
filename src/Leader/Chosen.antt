-- ===== src/Leader/Chosen.antt =====
-- Which question `generate_socratic_question` (crates/h2ai-orchestrator/src/leader.rs) returns.
use mathlib.Core.List.{Memᴰ}
use mathlib.Core.List.Memᴰ
use mathlib.Core.Path.{subst}
use h2ai_control_plane.Prelude.{
  ℕ, ◌≡◌, refl, sym, ap, ◌∙◌, String, Bool, true, false, Option, none, some, List, [], ◌∷◌, map,
  All, Bool-cases, inl, inr,
}
use h2ai_control_plane.Members.{List-cases}
use h2ai_control_plane.Sorting.{
  IsStrictWeak, sort, sort-Ordered, Ordered, sort-Memᴰ, Memᴰ-sort, All-Memᴰ,
}
use h2ai_control_plane.Subtasks.Waves.{range_from}
use h2ai_control_plane.Leader.Types.{BeliefRecord, LeaderHost, LeaderConfig}
use h2ai_control_plane.Leader.Question.{
  is_dup, eig_score, counted, collect, fallback_question, n_candidates, generate_socratic_question,
}

module _ {F : Type 0} (host : LeaderHost F) where
  -- A question that the adapter gave, and that is not in the buffer.
  abbrev pub Fresh : List (BeliefRecord F) → List (Option String) → String → Type 0
  Fresh buffer answers q =
      (a : String) × (Memᴰ (some a) answers × ((q ≡ host.trim a) × (is_dup host buffer q ≡ false)))

  -- A fresh question with no better one, or the fallback where no answer is fresh.
  pub data IsQuestion (violated : List String) (buffer : List (BeliefRecord F))
      (answers : List (Option String)) : String → Type 0 where
    best :
        {q : String}
        → Fresh buffer answers q
        → ((q' : String)
            → Fresh buffer answers q'
            → host.floats.lt (eig_score host q violated buffer) (eig_score host q' violated buffer)
              ≡ false)
        → IsQuestion violated buffer answers q
    fallback :
        ((q : String) → ¬ Fresh buffer answers q)
        → IsQuestion violated buffer answers (fallback_question host violated)

  -- An answer that is fresh is a candidate in front of the others, and any other is none.
  collect-some :
      (violated : List String) (buffer : List (BeliefRecord F)) (output : String)
      (answers : List (Option String)) (dup : Bool)
      → is_dup host buffer (host.trim output) ≡ dup
      → collect host violated buffer (some output ∷ answers)
        ≡ counted host dup
            (host.trim output, eig_score host (host.trim output) violated buffer)
            (collect host violated buffer answers)
  unfolding collect
  collect-some violated buffer output answers dup e =
      ap
        (λ d.
          counted host d (host.trim output, eig_score host (host.trim output) violated buffer)
            (collect host violated buffer answers))
        e

  collect-none :
      (violated : List String) (buffer : List (BeliefRecord F)) (answers : List (Option String))
      → collect host violated buffer (none ∷ answers) ≡ collect host violated buffer answers
  unfolding collect
  collect-none violated buffer answers = refl

  collect-nil :
      (violated : List String) (buffer : List (BeliefRecord F))
      → collect host violated buffer [] ≡ ([], 0)
  unfolding collect
  collect-nil violated buffer = refl

  later :
      (buffer : List (BeliefRecord F)) (answers : List (Option String)) (q : String)
      (a : Option String)
      → Fresh buffer answers q
      → Fresh buffer (a ∷ answers) q
  later buffer answers q a (b, (there, rest)) = (b, (Memᴰ.tail there, rest))

  collect-Fresh :
      (violated : List String) (buffer : List (BeliefRecord F)) (answers : List (Option String))
      (c : String × F)
      → Memᴰ c (collect host violated buffer answers).0
      → Fresh buffer answers c.0 × (c.1 ≡ eig_score host c.0 violated buffer)
  collect-Fresh violated buffer [] c m =
      absurd (Memᴰ.not-nil (subst (λ r. Memᴰ c r.0) (collect-nil violated buffer) m))
  collect-Fresh violated buffer (none ∷ answers) c m =
      let (fresh, e) =
        collect-Fresh violated buffer answers c
          (subst (λ r. Memᴰ c r.0) (collect-none violated buffer answers) m) in
      (later buffer answers c.0 none fresh, e)
  collect-Fresh violated buffer (some output ∷ answers) c m =
      elim (Bool-cases (is_dup host buffer (host.trim output))) [
        | inl dup ↦
            let (fresh, e) =
              collect-Fresh violated buffer answers c (
                subst (λ r. Memᴰ c r.0) (collect-some violated buffer output answers true dup) m) in
            (later buffer answers c.0 (some output) fresh, e)
        | inr new ↦
            elim (Memᴰ.cases_cons
              (subst (λ r. Memᴰ c r.0) (collect-some violated buffer output answers false new) m)) [
                | inl e ↦ (
                  (
                    output,
                    (Memᴰ.head refl, (ap (λ x. x.0) e, ap (λ x. is_dup host buffer x.0) e ∙ new)),
                  ),
                  ap (λ x. x.1) e
                      ∙ ap (λ x. eig_score host x violated buffer) (sym (ap (λ x. x.0) e)),
                )
                | inr rest ↦
                    let (fresh, e) = collect-Fresh violated buffer answers c rest in
                    (later buffer answers c.0 (some output) fresh, e)
              ]
      ]

  Fresh-collect :
      (violated : List String) (buffer : List (BeliefRecord F)) (answers : List (Option String))
      (q : String)
      → Fresh buffer answers q
      → Memᴰ (q, eig_score host q violated buffer) (collect host violated buffer answers).0
  Fresh-collect violated buffer [] q (a, (m, rest)) = absurd (Memᴰ.not-nil m)
  Fresh-collect violated buffer (none ∷ answers) q (a, (Memᴰ.head e, rest)) = cc
  Fresh-collect violated buffer (none ∷ answers) q (a, (Memᴰ.tail m, rest)) =
      subst (λ r. Memᴰ (q, eig_score host q violated buffer) r.0)
        (sym (collect-none violated buffer answers))
        (Fresh-collect violated buffer answers q (a, (m, rest)))
  Fresh-collect violated buffer (some output ∷ answers) q (a, (Memᴰ.head e, (same, new))) =
      let told : a ≡ output = cc in
      let trimmed : q ≡ host.trim output = same ∙ ap host.trim told in
      subst (λ r. Memᴰ (q, eig_score host q violated buffer) r.0)
        (sym (
          collect-some violated buffer output answers false
            (ap (is_dup host buffer) (sym trimmed) ∙ new)))
        (Memᴰ.head (ap (λ x. (x, eig_score host x violated buffer)) trimmed))
  Fresh-collect violated buffer (some output ∷ answers) q (a, (Memᴰ.tail m, rest)) =
      let there = Fresh-collect violated buffer answers q (a, (m, rest)) in
      elim (Bool-cases (is_dup host buffer (host.trim output))) [
        | inl dup ↦
            subst (λ r. Memᴰ (q, eig_score host q violated buffer) r.0)
              (sym (collect-some violated buffer output answers true dup)) there
        | inr new ↦
            subst (λ r. Memᴰ (q, eig_score host q violated buffer) r.0)
              (sym (collect-some violated buffer output answers false new)) (Memᴰ.tail there)
      ]

  by_score-IsStrictWeak :
      IsStrictWeak host.floats.lt → IsStrictWeak {A = String × F} (λ a b. host.floats.lt b.1 a.1)
  by_score-IsStrictWeak w = record {
    irrefl = λ a. w.irrefl a.1;
    trans = λ a b c h k. w.trans c.1 b.1 a.1 k h;
    neg_trans = λ a b c h k. w.neg_trans c.1 b.1 a.1 k h;
  }

  -- No candidate has a better score than the first of them in their order.
  low :
      (c : String × F) (rest : List (String × F)) (d : String × F)
      → IsStrictWeak host.floats.lt
      → All (λ y. host.floats.lt c.1 y.1 ≡ false) rest
      → Memᴰ d (c ∷ rest)
      → host.floats.lt c.1 d.1 ≡ false
  low c rest d w h m = elim (Memᴰ.cases_cons m) [
    | inl e ↦ ap (λ x. host.floats.lt c.1 x.1) e ∙ w.irrefl c.1
    | inr m' ↦ All-Memᴰ (λ y. host.floats.lt c.1 y.1 ≡ false) rest d h m'
  ]

  -- The answers to the calls that are made.
  abbrev pub answers_of :
      (String → List String → List String → ℕ → Option String)
      → String
      → List String
      → List (BeliefRecord F)
      → LeaderConfig F
      → List (Option String)
  answers_of adapter prior_proposal violated buffer cfg =
      map (adapter prior_proposal violated (map (λ r. r.question_text) buffer))
        (range_from 0 (n_candidates host cfg))

  -- If scores are in a strict weak order, then the question is an answer that is not in the buffer, of the best
  -- score among these, or the fallback where every answer is in the buffer.
  pub generate_socratic_question-IsQuestion :
      (adapter : String → List String → List String → ℕ → Option String) (prior_proposal : String)
      (violated : List String) (buffer : List (BeliefRecord F)) (cfg : LeaderConfig F)
      → IsStrictWeak host.floats.lt
      → IsQuestion violated buffer
          (answers_of adapter prior_proposal violated buffer cfg)
          (generate_socratic_question host adapter prior_proposal violated buffer cfg).0
  unfolding generate_socratic_question
  generate_socratic_question-IsQuestion adapter prior_proposal violated buffer cfg w =
      let before : (String × F) → (String × F) → Bool = λ a b. host.floats.lt b.1 a.1 in
      let answers = answers_of adapter prior_proposal violated buffer cfg in
      let candidates = (collect host violated buffer answers).0 in
      elim (List-cases (sort before candidates)) [
        | inl empty ↦
            rw (generate_socratic_question, empty)
              (fallback (λ q fresh. Memᴰ.not-nil (
                subst (λ xs. Memᴰ (q, eig_score host q violated buffer) xs) empty
                  (Memᴰ-sort before candidates _ (Fresh-collect violated buffer answers q fresh)))))
        | inr (c, (rest, found)) ↦
            let (fresh, score) = collect-Fresh violated buffer answers c (
              sort-Memᴰ before candidates c
                (subst (λ xs. Memᴰ c xs) (sym found) (Memᴰ.head refl))) in
            let ordered : Ordered before (c ∷ rest) =
              subst (Ordered before) found
                (sort-Ordered before (by_score-IsStrictWeak w) candidates) in
            rw (generate_socratic_question, found)
              (best fresh (λ q' fresh'.
                subst (λ s. host.floats.lt s (eig_score host q' violated buffer) ≡ false) score
                  (low c rest (q', eig_score host q' violated buffer) w ordered.0
                    (subst (λ xs. Memᴰ (q', eig_score host q' violated buffer) xs) found
                      (Memᴰ-sort before candidates _
                        (Fresh-collect violated buffer answers q' fresh'))))))
      ]
