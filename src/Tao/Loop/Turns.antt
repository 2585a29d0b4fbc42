-- ===== src/Tao/Loop/Turns.antt =====
-- What a turn of the loop of crates/h2ai-orchestrator/src/tao_loop.rs leaves or gives.
use h2ai_control_plane.Prelude.{
  ℕ, suc, ◌+◌, ◌≤◌, ◌<◌, ◌≡◌, ◌⊎◌, refl, sym, ap, ◌∙◌, ◌++◌, String, Bool, true, false, Option,
  none, some, List, arith, length, ltb, ◌==◌, Bool-cases, inl, inr,
}
use h2ai_control_plane.Result.{Result, ok, err}
use h2ai_control_plane.Tao.Types.{
  ComputeResponse, Call, EngineError, TaoIterationEvent, TaoInput, Host,
}
use h2ai_control_plane.Tao.Turn.{
  LoopState, Progress, finished, going, ask, passes, iteration, next, repeats, conclude, judge,
  step,
}
use h2ai_control_plane.Tao.Turn.Calls.{
  Came, Begins, Ends, Few, first_output, last_answer, last_from-append, Genuine, ask-IsAsked,
}
use h2ai_control_plane.Tao.Turn.Passing.{Passing, passes_iff}
use h2ai_control_plane.Tao.Loop.Invariant.{
  All-snoc, IsBefore, Cause, unanswered, stuck, IsResult, iterations-numbered,
}

module _ {F J : Type 0} (host : Host F J) (input : TaoInput F)
    (pattern : Option (String → Bool)) where
  abbrev pub AfterTurn : ℕ → Progress → Type 0
  AfterTurn n (finished result calls) =
      (IsResult host input pattern result calls × (length calls ≤ n + 2))
      × Genuine host input 0 calls
  AfterTurn n (going st) = IsBefore host input pattern (suc n) st × (suc n < input.config.max_turns)

  -- What the calls of the turn `suc n` give.
  record IsMade (n : ℕ) (st : LoopState) (r : Result ComputeResponse EngineError × List Call)
      : Type 0 where
    came : Came r
    few : length r.1 ≤ n + 2
    begins : Begins st.calls r
    first_kept : (o : String) → first_output st.calls ≡ some o → first_output r.1 ≡ some o
    added : List Call
    split : r.1 ≡ st.calls ++ added
    ends : Ends added r.0
    genuine : Genuine host input 0 r.1

  conclude-IsProposal :
      (n : ℕ) (st : LoopState) (resp : ComputeResponse) (calls : List Call)
      → IsBefore host input pattern n st
      → suc n ≤ input.config.max_turns
      → IsMade n st (ok resp, calls)
      → (passes host input pattern resp.output ≡ true) ⊎ (suc n ≡ input.config.max_turns)
      → AfterTurn n (conclude host input pattern true (suc n) st resp calls)
  conclude-IsProposal n st resp calls h allowed made ended = (
    (
      record {
        some_turn = omega arith;
        no_more = allowed;
        earlier = st.iterations;
        last = iteration host input pattern (suc n) resp.output;
        split = refl;
        numbered = iterations-numbered host input pattern n st resp.output h;
        failing = h.failing;
        judged = passes_iff host input pattern resp.output;
        ended = ended;
        output = (made.came.0, (made.came.1.0, (resp, (made.came.1.1, refl))));
        first = elim h.first [
          | inl none_before ↦ inl (omega (arith, none_before), rw (not_later n none_before) refl)
          | inr (o, (kept, (first, failed))) ↦ elim (Bool-cases (ltb 1 (suc n))) [
            | inl later ↦ inr (o, (rw later kept, (made.first_kept o first, not_passing o failed)))
            | inr not_later ↦ inl (ground (arith, not_later), rw not_later refl)
          ]
        ];
      },
      made.few,
    ),
    made.genuine,
  )
    where
      not_passing :
          (o : String) → passes host input pattern o ≡ false → ¬ Passing host input pattern o
      not_passing o failed good =
          let passed = (passes_iff host input pattern o).1 good in ground (arith, failed, passed)

      not_later : (k : ℕ) → k ≡ 0 → ltb 1 (suc k) ≡ false
      not_later k e = ground (arith, e)

  next-IsBefore :
      (n : ℕ) (st : LoopState) (resp : ComputeResponse) (calls : List Call)
      → IsBefore host input pattern n st
      → IsMade n st (ok resp, calls)
      → passes host input pattern resp.output ≡ false
      → IsBefore host input pattern (suc n) (next host input pattern (suc n) st resp calls)
  unfolding next
  next-IsBefore n st resp calls h made failed = record {
    numbered = iterations-numbered host input pattern n st resp.output h;
    failing =
        All-snoc (λ (e : TaoIterationEvent). e.passed ≡ false) st.iterations
          (iteration host input pattern (suc n) resp.output) h.failing failed;
    first = elim (Bool-cases (suc n == 1)) [
      | inl one ↦ inr (
        resp.output,
        (rw one refl, (made.begins (h.unanswered_yet (ground (arith, one))), failed)),
      )
      | inr more ↦ elim h.first [
        | inl none_before ↦ absurd (ground (arith, more, none_before))
        | inr (o, (kept, (first, failed'))) ↦
            inr (o, (rw more kept, (made.first_kept o first, failed')))
      ]
    ];
    few_calls = omega (arith, made.few);
    none_yet = λ e. absurd (omega (arith, e));
    unanswered_yet = λ e. absurd (omega (arith, e));
    genuine = made.genuine;
    last_eq =
        sym (ap last_answer made.split ∙ last_from-append none st.calls made.added ∙ made.ends _);
  }

  repeats-Cause :
      (n : ℕ) (st : LoopState) (resp : ComputeResponse) (calls : List Call)
      → IsBefore host input pattern n st
      → IsMade n st (ok resp, calls)
      → repeats host input pattern st.last_output resp.output ≡ true
      → Cause host input pattern calls
  unfolding repeats
  repeats-Cause n st resp calls h made similar = by_last st.last_output h.last_eq similar
    where
      by_last :
          (before : Option String)
          → before ≡ last_answer st.calls
          → repeats host input pattern before resp.output ≡ true
          → Cause host input pattern calls
      by_last none e k = absurd cc
      by_last (some o) e k =
          stuck st.calls made.added o resp.output made.split (sym e) (made.ends none) k

  judge-AfterTurn :
      (n : ℕ) (st : LoopState) (r : Result ComputeResponse EngineError × List Call)
      → IsBefore host input pattern n st
      → suc n ≤ input.config.max_turns
      → IsMade n st r
      → AfterTurn n (judge host input pattern (suc n) st r)
  judge-AfterTurn n st (err e, calls) h allowed made =
      ((unanswered made.came, made.few), made.genuine)
  judge-AfterTurn n st (ok resp, calls) h allowed made =
      elim (Bool-cases (passes host input pattern resp.output)) [
        | inl passed ↦ rw passed (conclude-IsProposal n st resp calls h allowed made (inl passed))
        | inr failed ↦ elim (Bool-cases (suc n == input.config.max_turns)) [
          | inl last ↦
              rw (failed, last)
                (conclude-IsProposal n st resp calls h allowed made (inr (ground (arith, last))))
          | inr more ↦ elim (Bool-cases (repeats host input pattern st.last_output resp.output)) [
            | inl similar ↦
                rw (failed, more, similar)
                  ((repeats-Cause n st resp calls h made similar, made.few), made.genuine)
            | inr moving ↦
                rw (failed, more, moving)
                  (next-IsBefore n st resp calls h made failed, ground (arith, more, allowed))
          ]
        ]
      ]

  calls_bound :
      (n : ℕ) (st : LoopState) (after : ℕ)
      → IsBefore host input pattern n st
      → Few (suc n == 1) (length st.calls) after
      → after ≤ n + 2
  calls_bound n st after h few = elim (Bool-cases (suc n == 1)) [
    | inl one ↦
        let few' : after ≤ length st.calls + 2 = rw one at few in
        omega (arith, few', h.none_yet (ground (arith, one)))
    | inr more ↦
        let few' : after ≤ length st.calls + 1 = rw more at few in omega (arith, few', h.few_calls)
  ]

  pub step-AfterTurn :
      (n : ℕ) (st : LoopState)
      → IsBefore host input pattern n st
      → suc n ≤ input.config.max_turns
      → AfterTurn n (step host input pattern (suc n) st)
  unfolding step
  step-AfterTurn n st h allowed =
      let asked = ask-IsAsked host input (suc n == 1) st.req st.calls in
      judge-AfterTurn n st (ask host input (suc n == 1) st.req st.calls) h allowed record {
        came = asked.came;
        few = calls_bound n st _ h asked.few;
        begins = asked.begins;
        first_kept = asked.first_kept;
        added = asked.added;
        split = asked.split;
        ends = asked.ends;
        genuine = asked.genuine h.genuine;
      }
