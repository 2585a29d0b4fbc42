-- ===== src/Tao/Loop/Invariant.antt =====
-- What the loop of crates/h2ai-orchestrator/src/tao_loop.rs keeps from turn to turn, and what it gives.
use h2ai_control_plane.Prelude.{
  ℕ, zero, suc, ◌+◌, ◌≤◌, ◌<◌, ◌≡◌, ◌∙◌, ◌⊎◌, ◌↔◌, refl, sym, ap, String, Bool, true, false, Option,
  none, some, List, [], ◌∷◌, ◌++◌, map, All, arith, length, inl,
}
use h2ai_control_plane.Result.{Result, ok, err}
use h2ai_control_plane.Subtasks.Waves.{range_from}
use h2ai_control_plane.Tao.Types.{Call, EngineError, TaoIterationEvent, TaoInput, TaoProposal, Host}
use h2ai_control_plane.Tao.Turn.{iteration, LoopState, passes, repeats}
use h2ai_control_plane.Tao.Turn.Calls.{Answered, Unanswered, Genuine, first_output, last_answer}
use h2ai_control_plane.Tao.Turn.Passing.{Passing}
use h2ai_control_plane.Tao.Loop.{start}

pub map-snoc {ℓ κ} :
    {A : Type ℓ} {B : Type κ} (f : A → B) (xs : List A) (x : A)
    → map f (xs ++ x ∷ []) ≡ map f xs ++ f x ∷ []
map-snoc f [] x = refl
map-snoc f (y ∷ ys) x = ap (λ zs. f y ∷ zs) (map-snoc f ys x)

pub All-snoc {ℓ κ} :
    {A : Type ℓ} (P : A → Type κ) (xs : List A) (x : A) → All P xs → P x → All P (xs ++ x ∷ [])
All-snoc P [] x h p = (p, tt)
All-snoc P (y ∷ ys) x h p = (h.0, All-snoc P ys x h.1 p)

pub range_from-snoc : (i n j : ℕ) → i + n ≡ j → range_from i n ++ j ∷ [] ≡ range_from i (suc n)
unfolding range_from
range_from-snoc i zero j e = let e' : i ≡ j = omega (arith, e) in ap (λ k. k ∷ []) (sym e')
range_from-snoc i (suc n) j e = ap (λ ks. i ∷ ks) (range_from-snoc (suc i) n j (omega (arith, e)))

module _ {F J : Type 0} (host : Host F J) (input : TaoInput F)
    (pattern : Option (String → Bool)) where
  -- Before the turn `suc n`: the turns so far are numbered and failed, and from the second turn on the output of the
  -- first one is kept, the first answer of all calls, which does not pass.
  pub record IsBefore (n : ℕ) (st : LoopState) : Type 0 where
    pub numbered : map (λ (e : TaoIterationEvent). e.turn) st.iterations ≡ range_from 1 n
    pub failing : All (λ e. e.passed ≡ false) st.iterations
    pub first :
        (n ≡ 0)
        ⊎ ((o : String) × ((st.turn1_output ≡ some o)
              × ((first_output st.calls ≡ some o) × (passes host input pattern o ≡ false))))
    pub few_calls : length st.calls ≤ suc n
    pub none_yet : n ≡ 0 → length st.calls ≡ 0
    pub unanswered_yet : n ≡ 0 → first_output st.calls ≡ none
    pub genuine : Genuine host input 0 st.calls
    pub last_eq : st.last_output ≡ last_answer st.calls

  -- A proposal of the loop: its turns are numbered from 1, all but the last one failed, and the last one passed
  -- or was the last that is allowed. The output is the answer to one of the calls, and the first answer of all is kept
  -- exactly if there were more turns, and does not pass.
  pub record IsProposal (calls : List Call) (p : TaoProposal) : Type 0 where
    pub some_turn : 0 < p.tao_turns
    pub no_more : p.tao_turns ≤ input.config.max_turns
    pub earlier : List TaoIterationEvent
    pub last : TaoIterationEvent
    pub split : p.iterations ≡ earlier ++ last ∷ []
    pub numbered : map (λ (e : TaoIterationEvent). e.turn) p.iterations ≡ range_from 1 p.tao_turns
    pub failing : All (λ e. e.passed ≡ false) earlier
    pub judged : (last.passed ≡ true) ↔ Passing host input pattern p.event.raw_output
    pub ended : (last.passed ≡ true) ⊎ (p.tao_turns ≡ input.config.max_turns)
    pub output : Answered calls p.event.raw_output
    pub first :
        ((p.tao_turns ≡ 1) × (p.turn1_output ≡ none))
        ⊎ ((o : String) × ((p.turn1_output ≡ some o)
              × ((first_output calls ≡ some o) × (¬ Passing host input pattern o))))

  -- Why a loop with a turn to run gives no proposal: a call of the adapter had no answer, or the last answer is too
  -- similar to the one before, of an earlier call.
  pub data Cause (calls : List Call) : Type 0 where
    unanswered : Unanswered calls → Cause calls
    stuck :
        (earlier later : List Call) (before after : String)
        → calls ≡ earlier ++ later
        → last_answer earlier ≡ some before
        → last_answer later ≡ some after
        → repeats host input pattern (some before) after ≡ true
        → Cause calls

  abbrev pub IsResult : Result TaoProposal EngineError → List Call → Type 0
  IsResult (ok p) calls = IsProposal calls p
  IsResult (err e) calls = Cause calls

  pub start-IsBefore : IsBefore 0 (start host input)
  unfolding range_from
  start-IsBefore = record {
    numbered = refl;
    failing = tt;
    first = inl refl;
    few_calls = omega arith;
    none_yet = λ e. refl;
    unanswered_yet = λ e. refl;
    genuine = tt;
    last_eq = refl;
  }

  pub iterations-numbered :
      (n : ℕ) (st : LoopState) (output : String)
      → IsBefore n st
      → map
          (λ (e : TaoIterationEvent). e.turn)
          (st.iterations ++ iteration host input pattern (suc n) output ∷ [])
        ≡ range_from 1 (suc n)
  iterations-numbered n st output h =
      map-snoc (λ (e : TaoIterationEvent). e.turn) st.iterations
        (iteration host input pattern (suc n) output)
      ∙ ap (λ ks. ks ++ suc n ∷ []) h.numbered
      ∙ range_from-snoc 1 n (suc n) (omega arith)
