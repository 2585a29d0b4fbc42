-- ===== src/Task/Journal.antt =====
-- crates/h2ai-orchestrator/src/session_journal.rs: events applied to a task's state, snapshots after
-- every so many events, and the replay from a snapshot. The replay reads a stream with a timeout of
-- 200 ms for each item: what the successive reads see is a list of `Arrival`s.
pub mod Replay
pub mod Snapshots
pub mod Invariants
use h2ai_control_plane.Prelude.{
  ℕ, ◌+◌, ◌≡◌, ◌%◌, Bool, true, false, not, ◌||◌, ◌&&◌, Option, none, some, List, [], ◌∷◌, ◌==◌,
  ltb, u32, u64, eq_ℕ, length, if◌then◌else◌,
}
use h2ai_control_plane.HashMap
use h2ai_control_plane.HashMap.{HashMap}
use h2ai_control_plane.Result.{Result, ok, err}
use h2ai_control_plane.Identity.{TaskId, default_tenant}
use h2ai_control_plane.Task.Phase.{
  bootstrap, provisioning, multiplication_check, parallel_generation, auditor_gate, merging,
  resolved, failed, complexity_assessed,
}
use h2ai_control_plane.Task.State
use h2ai_control_plane.Task.State.{TaskState, enter}
use h2ai_control_plane.Task.Event.{
  H2aiEvent, task_bootstrapped, task_complexity_assessed, topology_provisioned,
  multiplication_condition_failed, proposal, proposal_failed, verification_scored, branch_pruned,
  zero_survival, selection_resolved, merge_resolved, task_failed,
}

-- `SessionJournal::apply_event`
unfoldable pub apply_event : TaskState → H2aiEvent → TaskState
unfolding enter
apply_event state task_bootstrapped = enter bootstrap state
apply_event state task_complexity_assessed = enter complexity_assessed state
apply_event state (topology_provisioned e) = record (enter provisioning state) {
  explorers_total = u32 (length e.explorer_configs);
  autonomic_retries = e.retry_count;
}
apply_event state multiplication_condition_failed = enter multiplication_check state
apply_event state proposal =
    enter parallel_generation
      (record state { explorers_completed = u32 (state.explorers_completed + 1) })
apply_event state proposal_failed =
    enter parallel_generation
      (record state { explorers_completed = u32 (state.explorers_completed + 1) })
apply_event state (verification_scored e) = enter auditor_gate (
    if e.passed
    then record state { proposals_valid = u32 (state.proposals_valid + 1) }
    else record state { proposals_pruned = u32 (state.proposals_pruned + 1) })
apply_event state branch_pruned = record state {
  proposals_pruned = u32 (state.proposals_pruned + 1);
}
apply_event state zero_survival = record state {
  autonomic_retries = u32 (state.autonomic_retries + 1);
}
apply_event state selection_resolved = enter merging state
apply_event state merge_resolved = enter resolved state
apply_event state (task_failed e) = record (enter failed state) {
  autonomic_retries = u32 (length e.topologies_tried);
}
apply_event state _ = state

-- `matches!(event, MergeResolved(_) | TaskFailed(_))`
unfoldable pub is_terminal : H2aiEvent → Bool
is_terminal merge_resolved = true
is_terminal (task_failed e) = true
is_terminal _ = false

pub record EventCounter : Type 0 where
  pub interval : ℕ  -- usize
  pub count : ℕ  -- usize

unfoldable pub new_counter : ℕ → EventCounter
new_counter interval = record { interval = interval; count = 0 }

-- `EventCounter::tick`; the test of the interval guards the remainder by 0.
unfoldable pub tick : EventCounter → EventCounter × Bool
tick c =
    let count = u64 (c.count + 1) in
    (record c { count = count }, ltb 0 c.interval && (count % c.interval) == 0)

-- What the journal uses of `serde_json` on a state: a state is read back from what it is written as.
-- `to_text` stands for `to_string(..).unwrap_or_default()`.
pub record StateJson : Type 1 where
  pub Text : Type 0
  pub to_text : TaskState → Text
  pub from_text : Text → Option TaskState
  pub from-to_text : (s : TaskState) → from_text (to_text s) ≡ some s

pub record TaskSnapshot (Text : Type 0) : Type 0 where
  pub task_id : TaskId
  pub last_sequence : ℕ  -- u64
  pub task_state_json : Text
  pub taken_at : ℕ

-- An item of the stream of events, a failure of the stream, or a wait that timed out.
pub data Arrival (E : Type 0) : Type 0 where
  item : ℕ → H2aiEvent → Arrival E
  failure : E → Arrival E
  elapsed : Arrival E

pub data OrchestratorError (E : Type 0) : Type 0 where
  transport : E → OrchestratorError E

-- The trait `SessionJournalBackend`, over the type of its errors.
pub record SessionJournalBackend (Text E : Type 0) : Type 0 where
  pub get_snapshot : TaskId → Result (Option (TaskSnapshot Text)) E
  pub tail_task_events : TaskId → ℕ → Result (List (Arrival E)) E

-- The loop of `replay`: the state and the number of events seen.
unfoldable pub drain :
    {E : Type 0} → TaskState → ℕ → List (Arrival E) → Result (TaskState × ℕ) (OrchestratorError E)
drain state seen [] = ok (state, seen)
drain state seen (elapsed ∷ rest) = ok (state, seen)
drain state seen (failure e ∷ rest) = err (transport e)
drain state seen (item seq event ∷ rest) =
    let next = drain (apply_event state event) (u32 (seen + 1)) rest in
    if is_terminal event then ok (apply_event state event, u32 (seen + 1)) else next

-- Where a replay starts: the restored state and its sequence number, or a new state and 0 if there is
-- no snapshot, its text is not read, or it cannot be loaded.
abbrev pub fresh : TaskId → TaskState × ℕ
fresh task_id = (State.new task_id default_tenant, 0)

restored : TaskId → ℕ → Option TaskState → TaskState × ℕ
restored task_id last_sequence none = fresh task_id
restored task_id last_sequence (some state) = (state, last_sequence)

finish :
    {E : Type 0}
    → ℕ
    → Result (TaskState × ℕ) (OrchestratorError E)
    → Result (Option TaskState) (OrchestratorError E)
finish from_seq (err e) = err e
finish from_seq (ok (state, events_seen)) =
    if (events_seen == 0) && (from_seq == 0) then ok none else ok (some state)

unfoldable pub resume :
    {E : Type 0}
    → TaskState × ℕ
    → Result (List (Arrival E)) E
    → Result (Option TaskState) (OrchestratorError E)
unfolding drain finish
resume (state, from_seq) (err e) = err (transport e)
resume (state, from_seq) (ok stream) = finish from_seq (drain state 0 stream)

module _ (json : StateJson) where
  open json use {Text, from_text}

  unfoldable pub starting_point :
      {E : Type 0} → TaskId → Result (Option (TaskSnapshot Text)) E → TaskState × ℕ
  unfolding restored State.new
  starting_point task_id (ok (some snapshot)) =
      restored task_id snapshot.last_sequence (from_text snapshot.task_state_json)
  starting_point task_id (ok none) = fresh task_id
  starting_point task_id (err e) = fresh task_id

  -- `SessionJournal::replay`; a journal with no backend replays nothing.
  unfoldable pub replay :
      {E : Type 0}
      → Option (SessionJournalBackend Text E)
      → TaskId
      → Result (Option TaskState) (OrchestratorError E)
  unfolding starting_point resume
  replay none task_id = ok none
  replay (some nats) task_id =
      let start = starting_point task_id (nats.get_snapshot task_id) in
      resume start (nats.tail_task_events task_id start.1)

-- `SessionJournal`: the counters of events since the start, for each task.
pub record SessionJournal : Type 0 where
  pub has_backend : Bool  -- `nats` is `Some`
  pub snapshot_interval : ℕ
  pub counters : HashMap TaskId EventCounter

-- `new` and `new_noop`
abbrev journal_of : Bool → SessionJournal
journal_of has_backend = record { has_backend = has_backend; snapshot_interval = 0; counters = [] }

abbrev with_snapshot_interval : ℕ → SessionJournal → SessionJournal
with_snapshot_interval interval self = record self { snapshot_interval = interval }

unfoldable pub counter_or_new : SessionJournal → TaskId → EventCounter
unfolding new_counter HashMap.get
counter_or_new journal task_id = elim (HashMap.get journal.counters task_id) [
  | none ↦ new_counter journal.snapshot_interval
  | some c ↦ c
]

-- `note_event` at time `now`: the journal, and the snapshot whose write it spawns, if any.
module _ (json : StateJson) where
  open json use {Text, to_text}

  unfoldable pub note_event :
      SessionJournal → TaskId → ℕ → TaskState → ℕ → SessionJournal × Option (TaskSnapshot Text)
  note_event journal task_id seq state now =
      let (entry, due) = tick (counter_or_new journal task_id) in
      let journal' = record journal { counters = HashMap.insert journal.counters task_id entry } in
      let snapshot : TaskSnapshot Text = record {
        task_id = task_id;
        last_sequence = seq;
        task_state_json = to_text state;
        taken_at = now;
      } in
      if not journal.has_backend || (journal.snapshot_interval == 0)
      then (journal, none)
      else if due
      then (journal', some snapshot)
      else (journal', none)
