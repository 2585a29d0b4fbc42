-- ===== src/Task/Journal/Replay.antt =====
-- What `SessionJournal::replay` (crates/h2ai-orchestrator/src/session_journal.rs) returns: the events up
-- to the first terminal one, applied in order.
use h2ai_control_plane.Prelude.{
  ℕ, suc, ◌+◌, ◌≤◌, ◌<◌, ◌≡◌, refl, ap, ◌∙◌, inl, inr, Bool, true, false, ◌&&◌, Option, none, some,
  List, [], ◌∷◌, ◌++◌, map, arith, ◌==◌, u32, length, All, Bool-cases, if◌then◌else◌,
}
use h2ai_control_plane.Result.{Result, ok, err, ◌>>=◌}
use h2ai_control_plane.Task.State.{TaskState}
use h2ai_control_plane.Task.Event.{H2aiEvent}
use h2ai_control_plane.Task.Journal.{
  Arrival, item, failure, elapsed, OrchestratorError, transport, apply_event, is_terminal, drain,
  finish, resume,
}

-- Every event applied in order.
abbrev pub apply_all : TaskState → List H2aiEvent → TaskState
apply_all state [] = state
apply_all state (e ∷ es) = apply_all (apply_event state e) es

-- Every event applied in order, up to the first terminal event and with it.
unfoldable pub play : TaskState → List H2aiEvent → TaskState
play state [] = state
play state (e ∷ es) =
    let rest = play (apply_event state e) es in if is_terminal e then apply_event state e else rest

abbrev pub IsOngoing : H2aiEvent → Type 0
IsOngoing e = is_terminal e ≡ false

pub play-append :
    (state : TaskState) (es fs : List H2aiEvent)
    → All IsOngoing es
    → play state (es ++ fs) ≡ play (apply_all state es) fs
unfolding play
play-append state [] fs h = refl
play-append state (e ∷ es) fs h = rw h.0 (play-append (apply_event state e) es fs h.1)

zero_add : (n : ℕ) → 0 + n ≡ n
zero_add n = omega arith

module _ {E : Type 0} where
  abbrev pub items : List (ℕ × H2aiEvent) → List (Arrival E)
  items [] = []
  items (p ∷ ps) = item p.0 p.1 ∷ items ps

  -- The specification of the loop: its state or its error, and how many items it reads.
  abbrev pub outcome : TaskState → List (Arrival E) → Result TaskState (OrchestratorError E)
  outcome state [] = ok state
  outcome state (elapsed ∷ rest) = ok state
  outcome state (failure e ∷ rest) = err (transport e)
  outcome state (item seq e ∷ rest) =
      let next = outcome (apply_event state e) rest in
      if is_terminal e then ok (apply_event state e) else next

  abbrev pub consumed : List (Arrival E) → ℕ
  consumed [] = 0
  consumed (elapsed ∷ rest) = 0
  consumed (failure e ∷ rest) = 0
  consumed (item seq e ∷ rest) = let more = consumed rest in if is_terminal e then 1 else suc more

  pub consumed-le-length : (arrivals : List (Arrival E)) → consumed arrivals ≤ length arrivals
  consumed-le-length [] = omega arith
  consumed-le-length (elapsed ∷ rest) = omega arith
  consumed-le-length (failure e ∷ rest) = omega arith
  consumed-le-length (item seq e ∷ rest) = ground (arith, consumed-le-length rest)

  counted :
      ℕ → Result TaskState (OrchestratorError E) → Result (TaskState × ℕ) (OrchestratorError E)
  counted n (ok s) = ok (s, n)
  counted n (err e) = err e

  drain-eq-outcome :
      (state : TaskState) (n : ℕ) (arrivals : List (Arrival E))
      → n + length arrivals < 4294967296
      → drain state n arrivals ≡ counted (n + consumed arrivals) (outcome state arrivals)
  unfolding drain counted
  drain-eq-outcome state n [] h = ground arith
  drain-eq-outcome state n (elapsed ∷ rest) h = ground arith
  drain-eq-outcome state n (failure e ∷ rest) h = refl
  drain-eq-outcome state n (item seq e ∷ rest) h =
      let wrap : u32 (n + 1) ≡ n + 1 = omega arith in
      elim (Bool-cases (is_terminal e)) [
        | inl last ↦ rw (last, wrap)
        | inr more ↦
            rw (more, wrap)
              (drain-eq-outcome (apply_event state e) (n + 1) rest (omega arith)
                ∙ ap (λ k. counted k (outcome (apply_event state e) rest)) (omega arith))
      ]

  finish-counted :
      (from_seq k : ℕ) (r : Result TaskState (OrchestratorError E))
      → finish from_seq (counted k r)
        ≡ (r >>= λ s. if k == 0 && from_seq == 0 then ok none else ok (some s))
  unfolding finish counted
  finish-counted from_seq k (ok s) = refl
  finish-counted from_seq k (err e) = refl

  -- The result of a replay from a starting point, over any stream of fewer than 2 ^ 32 items: the
  -- error of the stream if one is read before a terminal event; nothing if no event was read from
  -- sequence number 0; otherwise the starting state with the events that were read applied.
  pub resume-eq-outcome :
      (state : TaskState) (from_seq : ℕ) (arrivals : List (Arrival E))
      → length arrivals < 4294967296
      → resume (state, from_seq) (ok arrivals) ≡ (
          outcome state arrivals >>= λ s.
          if consumed arrivals == 0 && from_seq == 0 then ok none else ok (some s))
  unfolding resume
  resume-eq-outcome state from_seq arrivals h =
      ap (finish from_seq) (drain-eq-outcome state 0 arrivals (omega arith))
      ∙ ap (λ k. finish from_seq (counted k (outcome state arrivals)))
          (zero_add (consumed arrivals))
      ∙ finish-counted from_seq (consumed arrivals) (outcome state arrivals)

  pub outcome-items :
      (state : TaskState) (ps : List (ℕ × H2aiEvent))
      → outcome state (items ps) ≡ ok (play state (map (λ p. p.1) ps))
  unfolding play
  outcome-items state [] = refl
  outcome-items state (p ∷ ps) = ground (arith, outcome-items (apply_event state p.1) ps)

  -- Nothing that stands behind a terminal event of the stream changes the result.
  pub resume-terminal :
      (state : TaskState) (from_seq : ℕ) (ps : List (ℕ × H2aiEvent)) (seq : ℕ) (e : H2aiEvent)
      (rest rest' : List (Arrival E))
      → is_terminal e ≡ true
      → resume (state, from_seq) (ok (items ps ++ item seq e ∷ rest))
        ≡ resume (state, from_seq) (ok (items ps ++ item seq e ∷ rest'))
  unfolding resume
  resume-terminal state from_seq ps seq e rest rest' last =
      ap (finish from_seq) (drain-terminal state 0 ps)
    where
      drain-terminal :
          (s : TaskState) (n : ℕ) (qs : List (ℕ × H2aiEvent))
          → drain s n (items qs ++ item seq e ∷ rest) ≡ drain s n (items qs ++ item seq e ∷ rest')
      drain-terminal s n [] = unfold drain in rw last
      drain-terminal s n (q ∷ qs) =
          let same = drain-terminal (apply_event s q.1) (u32 (n + 1)) qs in
          unfold drain in
          ap (λ r. if is_terminal q.1 then ok (apply_event s q.1, u32 (n + 1)) else r) same

-- The result over a stream of events that are all readable.
abbrev pub played : ℕ → TaskState → List H2aiEvent → Option TaskState
played from_seq state [] = if from_seq == 0 then none else some state
played from_seq state (e ∷ es) = some (play state (e ∷ es))

consumed-items :
    (E : Type 0) (p : ℕ × H2aiEvent) (ps : List (ℕ × H2aiEvent))
    → (consumed {E = E} (items (p ∷ ps)) == 0) ≡ false
consumed-items E p ps = ground arith

length-items : (E : Type 0) (ps : List (ℕ × H2aiEvent)) → length (items {E = E} ps) ≡ length ps
length-items E [] = refl
length-items E (p ∷ ps) = ap suc (length-items E ps)

module _ {E : Type 0} where
  outcome_some :
      (r : Result TaskState (OrchestratorError E)) (b c : Bool) (s : TaskState)
      → r ≡ ok s
      → b ≡ false
      → (r >>= λ t. if b && c then ok none else ok (some t)) ≡ ok (some s)
  outcome_some r b c s e f = rw (e, f)

  pub resume-items :
      (state : TaskState) (from_seq : ℕ) (ps : List (ℕ × H2aiEvent))
      → length ps < 4294967296
      → resume {E = E} (state, from_seq) (ok (items ps))
        ≡ ok (played from_seq state (map (λ p. p.1) ps))
  resume-items state from_seq [] h = resume-eq-outcome state from_seq [] h ∙ ground arith
  resume-items state from_seq (p ∷ ps) h =
      resume-eq-outcome state from_seq (items (p ∷ ps)) (omega (arith, length-items E ps))
      ∙ outcome_some _ _ (from_seq == 0) _ (outcome-items state (p ∷ ps)) (consumed-items E p ps)
