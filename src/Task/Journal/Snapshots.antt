-- ===== src/Task/Journal/Snapshots.antt =====
-- When `SessionJournal::note_event` (crates/h2ai-orchestrator/src/session_journal.rs) takes a snapshot.
use native.Mathlib.Nat.{add-zero, zero-add}
use h2ai_control_plane.Prelude.{
  ℕ, suc, ◌+◌, ◌%◌, ◌≤◌, ◌<◌, ◌≡◌, refl, ap, ◌∙◌, ◌⊎◌, Bool, true, false, Option, none, some, List,
  [], ◌∷◌, arith, ◌==◌, ==_iff, eq_ℕ, length, Bool-cases, inl, inr, if◌then◌else◌,
}
use h2ai_control_plane.HashMap
use h2ai_control_plane.HashMap.{get-insert}
use h2ai_control_plane.Identity.{TaskId}
use h2ai_control_plane.Task.State.{TaskState}
use h2ai_control_plane.Task.Journal.{
  SessionJournal, EventCounter, StateJson, TaskSnapshot, counter_or_new, new_counter, tick,
  note_event,
}

-- A call of `note_event`: its task, its sequence number, the state and the time.
pub record Note : Type 0 where
  pub task_id : TaskId
  pub seq : ℕ
  pub state : TaskState
  pub now : ℕ

abbrev pub notes_of : TaskId → List Note → ℕ
notes_of id [] = 0
notes_of id (n ∷ ns) = let rest = notes_of id ns in if n.task_id == id then suc rest else rest

module _ (json : StateJson) where
  open json use {Text, to_text}

  unfoldable pub note : SessionJournal → Note → SessionJournal × Option (TaskSnapshot Text)
  unfolding note_event
  note j n = note_event json j n.task_id n.seq n.state n.now

  unfoldable pub note_all : SessionJournal → List Note → SessionJournal
  unfolding note
  note_all j [] = j
  note_all j (n ∷ ns) = note_all (note j n).0 ns

abbrev with_counter : SessionJournal → TaskId → EventCounter → SessionJournal
with_counter j id c = record j { counters = HashMap.insert j.counters id c }

-- The counter of a task after another one was stored.
counter-with_counter :
    (j : SessionJournal) (k id : TaskId) (c : EventCounter)
    → counter_or_new (with_counter j k c) id ≡ (if k == id then c else counter_or_new j id)
unfolding counter_or_new
counter-with_counter j k id c = ground (arith, get-insert j.counters k id c)

-- What a task's counter holds when `k` of its events were noted.
abbrev Counted : SessionJournal → TaskId → ℕ → Type 0
Counted j id k = counter_or_new j id ≡ record { interval = j.snapshot_interval; count = k }

abbrev Snapshots : ℕ → SessionJournal → Type 0
Snapshots i j = (j.has_backend ≡ true) × (j.snapshot_interval ≡ i)

module _ (json : StateJson) (i : ℕ) (pos : 0 < i) where
  note_lem :
      (j : SessionJournal) (n : Note) (c : EventCounter) (due : Bool)
      → Snapshots i j
      → tick (counter_or_new j n.task_id) ≡ (c, due)
      → note json j n ≡ (
        with_counter j n.task_id c,
        if due
            then some (record {
              task_id = n.task_id;
              last_sequence = n.seq;
              task_state_json = json.to_text n.state;
              taken_at = n.now;
            })
            else none,
      )
  unfolding note
  note_lem j n c due ok e =
      ground
        (arith, ap (λ (t : EventCounter × Bool). t.0) e, ap (λ (t : EventCounter × Bool). t.1) e)

  tick-Counted :
      (j : SessionJournal) (id : TaskId) (k : ℕ)
      → j.snapshot_interval ≡ i
      → k + 1 < 18446744073709551616
      → Counted j id k
      → tick (counter_or_new j id) ≡ (
        record { interval = j.snapshot_interval; count = k + 1 },
        (k + 1) % j.snapshot_interval == 0,
      )
  unfolding tick
  tick-Counted j id k i small c = rw c (ground arith)

  -- One note moves the counter of its task, and no other.
  note-Counted :
      (j : SessionJournal) (n : Note) (id : TaskId) (k : ℕ)
      → Snapshots i j
      → k + 1 < 18446744073709551616
      → Counted j id k
      → Counted (note json j n).0 id (if n.task_id == id then k + 1 else k)
        × Snapshots i (note json j n).0
  note-Counted j n id k ok small c =
      rw
        (note_lem j n (tick (counter_or_new j n.task_id)).0 (tick (counter_or_new j n.task_id)).1 ok
          refl)
        (
          counter-with_counter j n.task_id id (tick (counter_or_new j n.task_id)).0
              ∙ moved (Bool-cases (n.task_id == id)),
          ok,
        )
    where
      moved :
          ((n.task_id == id) ≡ true) ⊎ ((n.task_id == id) ≡ false)
          → (if n.task_id == id then (tick (counter_or_new j n.task_id)).0 else counter_or_new j id)
            ≡ record {
              interval = j.snapshot_interval;
              count = if n.task_id == id then k + 1 else k;
            }
      moved (inl same) = rw same (
          ap (λ (t : TaskId). (tick (counter_or_new j t)).0) ((==_iff n.task_id id).0 same)
          ∙ ap (λ (t : EventCounter × Bool). t.0) (tick-Counted j id k ok.1 small c))
      moved (inr other) = rw other c

  note_all-Counted :
      (j : SessionJournal) (ns : List Note) (id : TaskId) (k : ℕ)
      → Snapshots i j
      → k + length ns < 18446744073709551616
      → Counted j id k
      → Counted (note_all json j ns) id (k + notes_of id ns) × Snapshots i (note_all json j ns)
  unfolding note_all
  note_all-Counted j [] id k ok small c = (rw add-zero c, ok)
  note_all-Counted j (n ∷ ns) id k ok small c =
      let (c', ok') = note-Counted j n id k ok (omega arith) c in
      let k' = if n.task_id == id then k + 1 else k in
      let sum : k' + notes_of id ns ≡ k + notes_of id (n ∷ ns) = ground arith in
      let fits : k' + length ns < 18446744073709551616 = ground arith in
      rw sum at (note_all-Counted (note json j n).0 ns id k' ok' fits c')

  ticked :
      (j : SessionJournal) (n : Note) (k : ℕ)
      → Snapshots i j
      → k + 1 < 18446744073709551616
      → Counted j n.task_id k
      → (note json j n).1 ≡ (
          if (k + 1) % i == 0
          then some (record {
            task_id = n.task_id;
            last_sequence = n.seq;
            task_state_json = json.to_text n.state;
            taken_at = n.now;
          })
          else none)
  ticked j n k ok small c = rw (note_lem j n _ _ ok (tick-Counted j n.task_id k ok.1 small c), ok.1)

notes_of-le-length : (id : TaskId) (ns : List Note) → notes_of id ns ≤ length ns
notes_of-le-length id [] = omega arith
notes_of-le-length id (n ∷ ns) = ground (arith, notes_of-le-length id ns)

abbrev pub started : ℕ → SessionJournal
started interval = record { has_backend = true; snapshot_interval = interval; counters = [] }

-- A journal with a backend and an interval `i` of snapshots takes a snapshot of a task exactly when
-- the number of events noted for that task is a multiple of `i`, whatever is noted for other tasks.
pub note-snapshot :
    (json : StateJson) (i : ℕ) (ns : List Note) (n : Note)
    → 0 < i
    → length ns + 1 < 18446744073709551616
    → (note json (note_all json (started i) ns) n).1 ≡ (
        if (notes_of n.task_id ns + 1) % i == 0
        then some (record {
          task_id = n.task_id;
          last_sequence = n.seq;
          task_state_json = json.to_text n.state;
          taken_at = n.now;
        })
        else none)
note-snapshot json i ns n pos small =
    let j : SessionJournal = note_all json (started i) ns in
    let begun : Counted (started i) n.task_id 0 =
      unfold counter_or_new new_counter HashMap.get in refl in
    let k = notes_of n.task_id ns in
    let (c, ok) =
      note_all-Counted json i pos (started i) ns n.task_id 0 (refl, refl) (omega arith) begun in
    ticked json i pos j n k ok (omega (arith, notes_of-le-length n.task_id ns)) (rw zero-add at c)
