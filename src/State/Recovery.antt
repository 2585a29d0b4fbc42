-- ===== src/State/Recovery.antt =====
-- A session journal (crates/h2ai-orchestrator/src/session_journal.rs) over the in-memory backend
-- (crates/h2ai-state/src/in_memory.rs): a full replay, and one from a snapshot.
use mathlib.Core.List.{map-append}
use mathlib.Core.Path.{ap₂, subst}
use mathlib.Core.Option.{none-ne-some, some-injective}
use h2ai_control_plane.Prelude.{
  ℕ, ◌+◌, ◌<◌, ◌≡◌, ◌≢◌, refl, ap, ◌∙◌, ◌&&◌, ◌||◌, not, ◌==◌, Bool, true, false, if◌then◌else◌,
  Option, none, some, List, [], ◌∷◌, ◌++◌, map, arith, ltb, str_eq_refl, eq_string, eq_ℕ, length,
  length-append, filter, All,
}
use h2ai_control_plane.HashMap
use h2ai_control_plane.Result.{ok}
use h2ai_control_plane.Identity.{TaskId, UuidFormat, default_tenant}
use h2ai_control_plane.Task.State
use h2ai_control_plane.Task.State.{TaskState}
use h2ai_control_plane.Task.Event.{H2aiEvent}
use h2ai_control_plane.Task.Journal.{
  SessionJournal, SessionJournalBackend, StateJson, TaskSnapshot, counter_or_new, tick, note_event,
  replay, resume, starting_point,
}
use h2ai_control_plane.Task.Journal.Replay.{
  apply_all, play, play-append, IsOngoing, items, played, resume-items,
}
use h2ai_control_plane.State.InMemory.{new, InMemoryStateBackend, CapturedEvent}
use h2ai_control_plane.State.InMemory.Keyed.{
  is_for_task, put_snapshot, get_snapshot, tail_task_events,
}
use h2ai_control_plane.State.InMemory.Log.{
  own, publish_all, numbered, tail_of, tail_of-append, tail_of-old, tail_of-new, events-publish_all,
  next_seq-publish_all, snapshots-publish_all, length-tail_of, length-numbered,
}

played_from_log :
    (state : TaskState) (es : List H2aiEvent) → es ≢ [] → played 0 state es ≡ some (play state es)
played_from_log state [] h = absurd (h refl)
played_from_log state (e ∷ es) h = refl

played_from_snapshot :
    (q : ℕ) (state : TaskState) (es : List H2aiEvent)
    → q ≢ 0
    → played q state es ≡ some (play state es)
unfolding play
played_from_snapshot q state [] h = ground arith
played_from_snapshot q state (e ∷ es) h = refl

own_empty : (id : TaskId) (xs : List (TaskId × H2aiEvent)) → length xs ≡ 0 → own id xs ≡ []
own_empty id [] h = refl
own_empty id (x ∷ xs) h = absurd (omega arith)

append_ne_nil : (es fs : List H2aiEvent) → es ≢ [] → es ++ fs ≢ []
append_ne_nil [] fs h e = h refl
append_ne_nil (x ∷ es) fs h e = cc

-- A backend whose log holds `xs`, after `ys` more.
module _ (uuid : UuidFormat) {Text F64 : Type 0} (id : TaskId) (xs ys : List (TaskId × H2aiEvent))
    (small : length xs + length ys < 4294967296) (b : InMemoryStateBackend Text F64)
    (log : b.events ≡ numbered uuid 0 xs) (next : b.next_seq ≡ length xs) where
  abbrev later : InMemoryStateBackend Text F64
  later = publish_all uuid b ys

  events-later : later.events ≡ numbered uuid 0 xs ++ numbered uuid (length xs) ys
  events-later =
      events-publish_all uuid b (length xs) ys next (omega arith)
      ∙ ap (λ es. es ++ numbered uuid (length xs) ys) log

  small-later : (q : ℕ) → length (tail_of uuid id q later.events) < 4294967296
  small-later q = omega (
    arith,
    length-tail_of uuid id q later.events,
    ap (λ (es : List CapturedEvent). length es) events-later,
    length-append (numbered uuid 0 xs) (numbered uuid (length xs) ys),
    length-numbered uuid 0 xs,
    length-numbered uuid (length xs) ys,
  )

  tail_later :
      (q : ℕ)
      → map (λ p. p.1) (tail_of uuid id q later.events)
        ≡ map (λ p. p.1) (tail_of uuid id q (numbered uuid 0 xs))
          ++ map (λ p. p.1) (tail_of uuid id q (numbered uuid (length xs) ys))
  tail_later q =
      ap (λ es. map (λ p. p.1) (tail_of uuid id q es)) events-later
      ∙ ap (map (λ p. p.1)) (tail_of-append uuid id q _ _)
      ∙ map-append _ _ _

  tail-zero : map (λ p. p.1) (tail_of uuid id 0 later.events) ≡ own id xs ++ own id ys
  tail-zero =
      tail_later 0
      ∙ ap₂ ◌++◌ (tail_of-new uuid id 0 0 xs (omega arith))
          (tail_of-new uuid id 0 (length xs) ys (omega arith))

  tail-length : map (λ p. p.1) (tail_of uuid id (length xs) later.events) ≡ own id ys
  tail-length =
      tail_later (length xs)
      ∙ ap₂ ◌++◌ (ap (map (λ p. p.1)) (tail_of-old uuid id (length xs) 0 xs (omega arith)))
          (tail_of-new uuid id (length xs) (length xs) ys (omega arith))

module _ (uuid : UuidFormat) (json : StateJson) (F64 E : Type 0) where
  open json use {Text, to_text, from_text, from-to_text}

  -- The backend as the journal sees it.
  unfoldable pub journal_backend : InMemoryStateBackend Text F64 → SessionJournalBackend Text E
  journal_backend b = record {
    get_snapshot = λ id. ok (get_snapshot uuid b id);
    tail_task_events = λ id from_seq. ok (items (tail_task_events uuid b id from_seq));
  }

  replay-journal_backend :
      (b : InMemoryStateBackend Text F64) (id : TaskId) (state : TaskState) (q : ℕ)
      → starting_point json {E = E} id (ok (get_snapshot uuid b id)) ≡ (state, q)
      → length (tail_of uuid id q b.events) < 4294967296
      → replay json (some (journal_backend b)) id
        ≡ ok (played q state (map (λ p. p.1) (tail_of uuid id q b.events)))
  unfolding replay journal_backend tail_task_events tail_of
  replay-journal_backend b id state q start h =
      ap
        (λ (st : TaskState × ℕ). resume {E = E} st (
          ok (
            items (
              map (λ e. (e.seq, e.event))
                (filter (λ e. is_for_task uuid id e && ltb st.1 e.seq) b.events)))))
        start
      ∙ resume-items {E = E} state q (tail_of uuid id q b.events) h

  start_fresh :
      (b : InMemoryStateBackend Text F64) (id : TaskId)
      → b.snapshots ≡ []
      → starting_point json {E = E} id (ok (get_snapshot uuid b id))
        ≡ (State.new id default_tenant, 0)
  unfolding starting_point get_snapshot HashMap.get
  start_fresh b id e = rw e

  start_restored :
      (b : InMemoryStateBackend Text F64) (id : TaskId) (snap : TaskSnapshot Text) (s : TaskState)
      → b.snapshots ≡ HashMap.insert [] (uuid.to_string id) snap
      → snap.task_state_json ≡ to_text s
      → starting_point json {E = E} id (ok (get_snapshot uuid b id)) ≡ (s, snap.last_sequence)
  unfolding starting_point get_snapshot HashMap.get HashMap.insert
  start_restored b id snap s e t = rw (e, str_eq_refl (uuid.to_string id), t, from-to_text s)

  -- A journal over `xs` published events, a snapshot, and `ys` more, each with or without the snapshot.
  abbrev pub published : List (TaskId × H2aiEvent) → InMemoryStateBackend Text F64
  published xs = publish_all uuid (new Text F64) xs

  -- What `note_event` takes of a state after `xs`.
  abbrev taken : TaskId → ℕ → List (TaskId × H2aiEvent) → TaskState → TaskSnapshot Text
  taken id now xs state = record {
    task_id = id;
    last_sequence = (published xs).next_seq;
    task_state_json = to_text state;
    taken_at = now;
  }

  note_event-taken :
      (journal : SessionJournal) (id : TaskId) (now : ℕ) (xs : List (TaskId × H2aiEvent))
      (state : TaskState) (snap : TaskSnapshot Text)
      → (note_event json journal id (published xs).next_seq state now).1 ≡ some snap
      → taken id now xs state ≡ snap
  unfolding note_event
  note_event-taken journal id now xs state snap =
      of_tests (not journal.has_backend || (journal.snapshot_interval == 0))
        (tick (counter_or_new journal id)).1
        (record journal {
          counters =
              HashMap.insert ⦃e = eq_ℕ⦄ journal.counters id (tick (counter_or_new journal id)).0;
        })
    where
      of_tests :
          (off due : Bool) (journal' : SessionJournal)
          → (if◌then◌else◌ {A = SessionJournal × Option (TaskSnapshot Text)} off
              (journal, none)
              (if due then (journal', some (taken id now xs state)) else (journal', none))).1
            ≡ some snap
          → taken id now xs state ≡ snap
      of_tests true due j e = absurd (none-ne-some snap e)
      of_tests false true j e = some-injective _ snap e
      of_tests false false j e = absurd (none-ne-some snap e)

  -- A full replay, after `xs` and `ys`.
  replay_full :
      (id : TaskId) (xs ys : List (TaskId × H2aiEvent))
      → own id xs ≢ []
      → All IsOngoing (own id xs)
      → length xs + length ys < 4294967296
      → replay json (some (journal_backend (publish_all uuid (published xs) ys))) id
        ≡ ok (some (play (apply_all (State.new id default_tenant) (own id xs)) (own id ys)))
  unfolding new
  replay_full id xs ys some_event ongoing small =
      let before : InMemoryStateBackend Text F64 = published xs in
      let log : before.events ≡ numbered uuid 0 xs =
        events-publish_all uuid (new Text F64) 0 xs refl (omega arith) in
      let next : before.next_seq ≡ length xs =
        next_seq-publish_all uuid (new Text F64) xs (omega arith) ∙ omega arith in
      let start : TaskState = State.new id default_tenant in
      replay-journal_backend (publish_all uuid before ys) id start 0
        (start_fresh _ id
          (snapshots-publish_all uuid before ys ∙ snapshots-publish_all uuid (new Text F64) xs))
        (small-later uuid id xs ys small before log next 0)
      ∙ ap (λ es. ok (played 0 start es)) (tail-zero uuid id xs ys small before log next)
      ∙ ap ok (played_from_log start _ (append_ne_nil _ _ some_event))
      ∙ ap (λ s. ok (some s)) (play-append start (own id xs) (own id ys) ongoing)

  -- A replay from a snapshot of a state, taken between `xs` and `ys`.
  replay-taken :
      (id : TaskId) (now : ℕ) (xs ys : List (TaskId × H2aiEvent)) (state : TaskState)
      → own id xs ≢ []
      → length xs + length ys < 4294967296
      → replay json
          (some (
            journal_backend
              (publish_all uuid (put_snapshot uuid (published xs) (taken id now xs state)) ys)))
          id
        ≡ ok (some (play state (own id ys)))
  unfolding new put_snapshot
  replay-taken id now xs ys state some_event small =
      let before : InMemoryStateBackend Text F64 = published xs in
      let log : before.events ≡ numbered uuid 0 xs =
        events-publish_all uuid (new Text F64) 0 xs refl (omega arith) in
      let next : before.next_seq ≡ length xs =
        next_seq-publish_all uuid (new Text F64) xs (omega arith) ∙ omega arith in
      let snapped : InMemoryStateBackend Text F64 =
        put_snapshot uuid before (taken id now xs state) in
      let counted : length xs ≢ 0 = λ e. some_event (own_empty id xs e) in
      replay-journal_backend (publish_all uuid snapped ys) id state (length xs)
        (start_restored _ id (taken id now xs state) state
            (snapshots-publish_all uuid snapped ys
              ∙ ap (λ m. HashMap.insert m (uuid.to_string id) (taken id now xs state))
                  (snapshots-publish_all uuid (new Text F64) xs))
            refl
          ∙ ap (λ q. (state, q)) next)
        (small-later uuid id xs ys small snapped log next (length xs))
      ∙ ap (λ es. ok (played (length xs) state es))
          (tail-length uuid id xs ys small snapped log next)
      ∙ ap ok (played_from_snapshot (length xs) state (own id ys) counted)

  -- Let `xs` be published to a new backend, with at least one event of a task and no terminal one, and
  -- then `ys`, fewer than 2 ^ 32 events in all. A full replay gives what the task's events of `xs` make of a
  -- new state of the default tenant, with those of `ys` applied up to the first terminal one. If `note_event`
  -- takes a snapshot of a state after `xs`, under the number of the last event, and it is stored, a replay gives
  -- that state instead, its tenant and counters included, with the same events of `ys` applied.
  pub replay-snapshot :
      (id : TaskId) (now : ℕ) (xs ys : List (TaskId × H2aiEvent)) (journal : SessionJournal)
      (state : TaskState) (snap : TaskSnapshot Text)
      → own id xs ≢ []
      → All IsOngoing (own id xs)
      → length xs + length ys < 4294967296
      → (note_event json journal id (published xs).next_seq state now).1 ≡ some snap
      → let before = published xs in
        let snapped = put_snapshot uuid before snap in
        (replay json (some (journal_backend (publish_all uuid before ys))) id
          ≡ ok (some (play (apply_all (State.new id default_tenant) (own id xs)) (own id ys))))
        × (replay json (some (journal_backend (publish_all uuid snapped ys))) id
            ≡ ok (some (play state (own id ys))))
  replay-snapshot id now xs ys journal state snap some_event ongoing small noted = (
    replay_full id xs ys some_event ongoing small,
    subst
        (λ sn.
          replay json
            (some (journal_backend (publish_all uuid (put_snapshot uuid (published xs) sn) ys))) id
          ≡ ok (some (play state (own id ys))))
        (note_event-taken journal id now xs state snap noted)
        (replay-taken id now xs ys state some_event small),
  )
