-- ===== src/Tao/Turn/Calls.antt =====
-- The calls of the adapter in a turn (crates/h2ai-orchestrator/src/tao_loop.rs): at most two, and two only on the
-- first turn.
use mathlib.Core.List.{Memᴰ, append_assoc}
use h2ai_control_plane.Prelude.{
  ℕ, suc, ◌+◌, ◌≤◌, ◌≡◌, ◌≢◌, refl, sym, ap, ◌∙◌, String, Bool, true, false, Option, none, some,
  List, [], ◌∷◌, ◌++◌, arith, length, inr,
}
use h2ai_control_plane.Result.{Result, ok, err}
use h2ai_control_plane.Members.{Memᴰ-concat}
use h2ai_control_plane.Tao.Types.{
  ComputeRequest, ComputeResponse, Answer, Call, answered, refused, timed_out, EngineError,
  TaoInput, Host,
}
use h2ai_control_plane.Tao.Turn.{placed, settled, retried, after_answer, ask}

pub length-snoc {ℓ} : {A : Type ℓ} (xs : List A) (x : A) → length (xs ++ x ∷ []) ≡ length xs + 1
length-snoc [] x = omega arith
length-snoc (y ∷ ys) x = omega (arith, length-snoc ys x)

-- A call had this output as its answer.
abbrev pub Answered : List Call → String → Type 0
Answered calls o =
    (c : Call) × (Memᴰ c calls
      × ((resp : ComputeResponse) × ((c.answer ≡ answered resp) × (resp.output ≡ o))))

-- A call had no answer.
abbrev pub Unanswered : List Call → Type 0
Unanswered calls =
    (c : Call) × (Memᴰ c calls × ((resp : ComputeResponse) → c.answer ≢ answered resp))

-- A call had this answer, or one had none.
abbrev pub Came : Result ComputeResponse EngineError × List Call → Type 0
Came (err e, calls) = Unanswered calls
Came (ok resp, calls) = (c : Call) × (Memᴰ c calls × (c.answer ≡ answered resp))

-- The output of the first call that had an answer.
abbrev output_or : Answer → Option String → Option String
output_or (answered resp) later = some resp.output
output_or (refused message) later = later
output_or timed_out later = later

abbrev pub first_output : List Call → Option String
first_output [] = none
first_output (c ∷ calls) = output_or c.answer (first_output calls)

first_output-append :
    (xs ys : List Call) (o : String) → first_output xs ≡ some o → first_output (xs ++ ys) ≡ some o
first_output-append [] ys o h = absurd cc
first_output-append (c ∷ xs) ys o h = by_answer c.answer (first_output-append xs ys o) h
  where
    by_answer :
        (a : Answer)
        → (first_output xs ≡ some o → first_output (xs ++ ys) ≡ some o)
        → output_or a (first_output xs) ≡ some o
        → output_or a (first_output (xs ++ ys)) ≡ some o
    by_answer (answered resp) later h = h
    by_answer (refused message) later h = later h
    by_answer timed_out later h = later h

first_output-snoc :
    (xs : List Call) (c : Call)
    → first_output xs ≡ none
    → first_output (xs ++ c ∷ []) ≡ output_or c.answer none
first_output-snoc [] c h = refl
first_output-snoc (d ∷ xs) c h = by_answer d.answer (first_output-snoc xs c) h
  where
    by_answer :
        (a : Answer)
        → (first_output xs ≡ none → first_output (xs ++ c ∷ []) ≡ output_or c.answer none)
        → output_or a (first_output xs) ≡ none
        → output_or a (first_output (xs ++ c ∷ [])) ≡ output_or c.answer none
    by_answer (answered resp) later h = absurd cc
    by_answer (refused message) later h = later h
    by_answer timed_out later h = later h

-- The output of the last call that had an answer.
abbrev last_from : Option String → List Call → Option String
last_from o [] = o
last_from o (c ∷ calls) = last_from (output_or c.answer o) calls

abbrev pub last_answer : List Call → Option String
last_answer calls = last_from none calls

pub last_from-append :
    (o : Option String) (xs ys : List Call) → last_from o (xs ++ ys) ≡ last_from (last_from o xs) ys
last_from-append o [] ys = refl
last_from-append o (c ∷ xs) ys = last_from-append (output_or c.answer o) xs ys

-- The last answer is this one, whatever was before.
abbrev pub Ends : List Call → Result ComputeResponse EngineError → Type 0
Ends calls (err e) = Unit
Ends calls (ok resp) = (o : Option String) → last_from o calls ≡ some resp.output

-- If no call before had an answer, this one is the first.
abbrev pub Begins : List Call → Result ComputeResponse EngineError × List Call → Type 0
Begins before (err e, calls) = Unit
Begins before (ok resp, calls) = first_output before ≡ none → first_output calls ≡ some resp.output

abbrev pub Few : Bool → ℕ → ℕ → Type 0
Few true before after = after ≤ before + 2
Few false before after = after ≤ before + 1

module _ {F J : Type 0} (host : Host F J) (input : TaoInput F) where
  -- Each call has the answer of the adapter, from a number on.
  abbrev pub Genuine : ℕ → List Call → Type 0
  Genuine n [] = Unit
  Genuine n (c ∷ calls) = (c.answer ≡ input.adapter n c.request) × Genuine (suc n) calls

  Genuine-snoc :
      (n m : ℕ) (calls : List Call) (req : ComputeRequest)
      → n + length calls ≡ m
      → Genuine n calls
      → Genuine n (calls ++ record { request = req; answer = input.adapter m req } ∷ [])
  Genuine-snoc n m [] req e h =
      let same : m ≡ n = omega (arith, e) in (ap (λ k. input.adapter k req) same, tt)
  Genuine-snoc n m (c ∷ calls) req e h =
      (h.0, Genuine-snoc (suc n) m calls req (omega (arith, e)) h.1)

  -- What the calls of a turn leave of those before.
  pub record IsAsked (first : Bool) (before : List Call)
      (r : Result ComputeResponse EngineError × List Call) : Type 0 where
    pub came : Came r
    pub few : Few first (length before) (length r.1)
    pub begins : Begins before r
    pub first_kept : (o : String) → first_output before ≡ some o → first_output r.1 ≡ some o
    pub added : List Call
    pub split : r.1 ≡ before ++ added
    pub ends : Ends added r.0
    pub genuine : Genuine 0 before → Genuine 0 r.1

  last_call : (c : Call) (calls : List Call) → Memᴰ c (calls ++ c ∷ [])
  last_call c calls = (Memᴰ-concat c c calls).1 (inr refl)

  no_answer :
      (c : Call) (calls : List Call) (a : Answer)
      → c.answer ≡ a
      → ((resp : ComputeResponse) → a ≢ answered resp)
      → Unanswered (calls ++ c ∷ [])
  no_answer c calls a e apart = (c, (last_call c calls, λ resp e'. apart resp (sym e ∙ e')))

  settled-Came :
      (c : Call) (calls : List Call) (a : Answer)
      → c.answer ≡ a
      → Came (settled host input a, calls ++ c ∷ [])
  settled-Came c calls (answered resp) e = (c, (last_call c calls, e))
  settled-Came c calls (refused message) e = no_answer c calls _ e (λ resp e'. cc)
  settled-Came c calls timed_out e = no_answer c calls _ e (λ resp e'. cc)

  settled-Begins :
      (c : Call) (before calls : List Call) (a : Answer)
      → c.answer ≡ a
      → (first_output before ≡ none → first_output calls ≡ none)
      → Begins before (settled host input a, calls ++ c ∷ [])
  settled-Begins c before calls (answered resp) e none_yet =
      λ h. first_output-snoc calls c (none_yet h) ∙ ap (λ a. output_or a none) e
  settled-Begins c before calls (refused message) e none_yet = tt
  settled-Begins c before calls timed_out e none_yet = tt

  settled-Ends :
      (c : Call) (calls : List Call) (a : Answer)
      → c.answer ≡ a
      → Ends (calls ++ c ∷ []) (settled host input a)
  settled-Ends c calls (answered resp) e =
      λ o. last_from-append o calls (c ∷ []) ∙ ap (λ a. output_or a (last_from o calls)) e
  settled-Ends c calls (refused message) e = tt
  settled-Ends c calls timed_out e = tt

  -- One call, and what came of it.
  one_call-IsAsked :
      (first : Bool) (req : ComputeRequest) (before : List Call)
      (r : Result ComputeResponse EngineError)
      → Came (r, before ++ placed host input req before ∷ [])
      → Begins before (r, before ++ placed host input req before ∷ [])
      → Ends (placed host input req before ∷ []) r
      → IsAsked first before (r, before ++ placed host input req before ∷ [])
  one_call-IsAsked first req before r came begins ends = record {
    added = placed host input req before ∷ [];
    split = refl;
    ends = ends;
    came = came;
    begins = begins;
    first_kept = λ o h. first_output-append before _ o h;
    few = within first _ _ (length-snoc before (placed host input req before));
    genuine = λ h. Genuine-snoc 0 _ before req (omega arith) h;
  }
    where
      within : (f : Bool) (m n : ℕ) → n ≡ m + 1 → Few f m n
      within true m n e = omega (arith, e)
      within false m n e = omega (arith, e)

  retried-IsAsked :
      (again : Bool) (req : ComputeRequest) (before : List Call)
      → input.adapter (length before) req ≡ timed_out
      → IsAsked true before
          (retried host input again req (before ++ placed host input req before ∷ []))
  retried-IsAsked false req before e =
      one_call-IsAsked true req before _ (settled-Came _ before timed_out e)
        (settled-Begins (placed host input req before) before before timed_out e (λ h. h))
        (settled-Ends (placed host input req before) [] timed_out e)
  retried-IsAsked true req before e =
      let made = before ++ placed host input req before ∷ [] in
      let again =
        placed host input (record req { max_tokens = input.config.timeout_retry_max_tokens })
          made in
      record {
        came = settled-Came again made again.answer refl;
        begins = settled-Begins again before made again.answer refl (λ h.
            first_output-snoc before (placed host input req before) h
            ∙ ap (λ a. output_or a none) e);
        first_kept = λ o h. first_output-append made _ o (first_output-append before _ o h);
        added = placed host input req before ∷ again ∷ [];
        split = append_assoc before (placed host input req before ∷ []) (again ∷ []);
        ends = settled-Ends again (placed host input req before ∷ []) again.answer refl;
        few =
            omega
              (arith, length-snoc before (placed host input req before), length-snoc made again);
        genuine = λ h.
            Genuine-snoc 0 _ made again.request (omega arith)
              (Genuine-snoc 0 _ before req (omega arith) h);
      }

  after_answer-IsAsked :
      (first : Bool) (req : ComputeRequest) (before : List Call) (a : Answer)
      → input.adapter (length before) req ≡ a
      → IsAsked first before
          (after_answer host input first req (before ++ placed host input req before ∷ []) a)
  after_answer-IsAsked first req before (answered resp) e =
      one_call-IsAsked first req before _ (settled-Came _ before (answered resp) e)
        (settled-Begins (placed host input req before) before before (answered resp) e (λ h. h))
        (settled-Ends (placed host input req before) [] (answered resp) e)
  after_answer-IsAsked first req before (refused message) e =
      one_call-IsAsked first req before _ (settled-Came _ before (refused message) e)
        (settled-Begins (placed host input req before) before before (refused message) e (λ h. h))
        (settled-Ends (placed host input req before) [] (refused message) e)
  after_answer-IsAsked true req before timed_out e =
      retried-IsAsked input.config.retry_on_timeout req before e
  after_answer-IsAsked false req before timed_out e =
      one_call-IsAsked false req before _ (settled-Came _ before timed_out e)
        (settled-Begins (placed host input req before) before before timed_out e (λ h. h))
        (settled-Ends (placed host input req before) [] timed_out e)

  pub ask-IsAsked :
      (first : Bool) (req : ComputeRequest) (before : List Call)
      → IsAsked first before (ask host input first req before)
  unfolding ask
  ask-IsAsked first req before =
      after_answer-IsAsked first req before (input.adapter (length before) req) refl
