-- ===== src/Tests/Tasks.antt =====
-- The theorems on tasks at concrete inputs.
use mathlib.Core.Bool.{false≢true}
use h2ai_control_plane.Prelude.{
  true, ◌≡◌, ◌≢◌, refl, ◌↔◌, inl, false, none, some, [], ◌∷◌, List, arith, ℕ, str_eq_iff, eq_string,
  eq_ℕ, if◌then◌else◌, ◌==◌, ◌&&◌, String,
}
use h2ai_control_plane.HashMap
use h2ai_control_plane.Result.{ok, err, ◌>>=◌}
use h2ai_control_plane.Identity.{TaskId, default_tenant}
use h2ai_control_plane.Task.Phase.{merging, code, try_from, try_from_iff}
use h2ai_control_plane.Task.State
use h2ai_control_plane.Task.State.{TaskState, IsCoherent, new-IsCoherent}
use h2ai_control_plane.Task.Event.{task_bootstrapped, proposal, merge_resolved}
use h2ai_control_plane.Task.Store.{TaskStore, empty, get, get_for_tenant, is_active}
use h2ai_control_plane.Task.Store.Calls.{
  Call, insert_state, phase_set, completed, validated, resolve, call, calls,
}
use h2ai_control_plane.Task.Store.Tally.{own_calls, TalliedAll, calls-TalliedAll}
use h2ai_control_plane.Task.Store.Invariants.{
  calls-IsCoherent, is_active-finished, get_for_tenant-foreign,
}
use h2ai_control_plane.Task.Journal.{
  SessionJournalBackend, Arrival, item, elapsed, failure, replay, resume, drain, apply_event,
  is_terminal, starting_point, transport,
}
use h2ai_control_plane.Task.Journal.Replay.{outcome, consumed, resume-eq-outcome}
use h2ai_control_plane.Task.Journal.Invariants.{
  no_snapshot, IsReplayOf, replay-IsReplayOf, replay-default_tenant,
}
use h2ai_control_plane.Task.Journal.Snapshots.{Note, note, note_all, started, note-snapshot}
use h2ai_control_plane.Tests.Samples.{unary_uuid, plain_json}

try_from_iff_example : (try_from 6 ≡ ok merging) ↔ (code merging ≡ 6)
try_from_iff_example = try_from_iff 6 merging

abbrev acme_task : TaskState
acme_task = State.new 1 "acme"

abbrev script : List (TaskId × Call)
script =
    (1, insert_state acme_task)
    ∷ (2, insert_state (State.new 2 "other"))
    ∷ (1, phase_set merging 3 0)
    ∷ (2, completed)
    ∷ []

abbrev acme_store : TaskStore
acme_store = ("u", acme_task) ∷ []

abbrev acme_calls : List (TaskId × Call)
acme_calls =
    (1, validated true) ∷ (2, completed) ∷ (1, validated false) ∷ (1, phase_set merging 3 0) ∷ []

get-acme_store : get unary_uuid acme_store 1 ≡ some acme_task
unfolding get HashMap.get
get-acme_store = refl

calls-TalliedAll_example :
    (s' : TaskState) × ((get unary_uuid (calls unary_uuid acme_store acme_calls) 1 ≡ some s')
      × TalliedAll acme_task (own_calls 1 acme_calls) s')
unfolding State.new
calls-TalliedAll_example =
    calls-TalliedAll unary_uuid acme_store acme_calls 1 acme_task get-acme_store
      (omega arith, (omega arith, omega arith)) (refl, (refl, (refl, tt)))

absent :
    (P : TaskState → Type 0) (id : TaskId) (s : TaskState) → get unary_uuid empty id ≡ some s → P s
unfolding get HashMap.get
absent P id s e = cc

abbrev merging_task : TaskState
merging_task = record (State.new 1 "acme") {
  status = "merging";
  phase = 6;
  phase_name = "Merging";
  explorers_total = 3;
}

get-script : get unary_uuid (calls unary_uuid empty script) 1 ≡ some merging_task
unfolding get calls HashMap.get HashMap.insert HashMap.modify State.new State.enter
get-script = refl

calls-IsCoherent_example : IsCoherent merging_task
calls-IsCoherent_example =
    calls-IsCoherent unary_uuid empty script (absent IsCoherent) 1 merging_task
      (λ _. new-IsCoherent 1 "acme", (λ _. new-IsCoherent 2 "other", (λ _. tt, (λ _. tt, tt))))
      get-script

is_active-finished_example :
    is_active unary_uuid
      (calls unary_uuid
        (call unary_uuid (calls unary_uuid empty script) 1 resolve)
        ((1, completed) ∷ (2, phase_set merging 1 0) ∷ []))
      1
    ≡ false
is_active-finished_example =
    is_active-finished unary_uuid (calls unary_uuid empty script) 1 resolve
      ((1, completed) ∷ (2, phase_set merging 1 0) ∷ []) (inl refl)
      (λ _. tt, (λ e. absurd (omega arith), tt))

other_ne_acme : ◌≢◌ {A = String} "other" "acme"
other_ne_acme e = false≢true ((str_eq_iff "other" "acme").1 e)

get_for_tenant-foreign_example :
    get_for_tenant unary_uuid
      (calls unary_uuid empty ((1, insert_state acme_task) ∷ (1, completed) ∷ []))
      1
      "other"
    ≡ none
unfolding State.new
get_for_tenant-foreign_example =
    get_for_tenant-foreign unary_uuid empty ((1, insert_state acme_task) ∷ (1, completed) ∷ []) 1
      "acme" "other" other_ne_acme (absent (λ s. s.tenant_id ≡ "acme") 1) (λ _. refl, (λ _. tt, tt))

-- A stream that times out after two events, and a backend with no snapshot that gives it.
abbrev stream : List (Arrival String)
stream = item 1 task_bootstrapped ∷ item 2 proposal ∷ elapsed ∷ item 3 merge_resolved ∷ []

abbrev backend : SessionJournalBackend TaskState String
backend = record { get_snapshot = λ id. ok none; tail_task_events = λ id from_seq. ok stream }

abbrev replayed_task : TaskState
replayed_task = record (State.new 1 "default") {
  status = "generating";
  phase = 4;
  phase_name = "ParallelGeneration";
  explorers_completed = 1;
}

replay_stream : replay plain_json (some backend) 1 ≡ ok (some replayed_task)
unfolding replay drain apply_event is_terminal State.new State.enter
replay_stream = refl

replay_failure :
    replay plain_json
      (some (record backend {
        tail_task_events = λ id from_seq. ok (item 1 proposal ∷ failure "lost" ∷ []);
      }))
      1
    ≡ err (transport "lost")
unfolding replay apply_event is_terminal State.new
replay_failure = refl

resume-eq-outcome_example : resume (acme_task, 4) (ok stream) ≡ (
    outcome acme_task stream >>= λ s.
    if consumed stream == 0 && 4 == 0 then ok none else ok (some s))
resume-eq-outcome_example = resume-eq-outcome acme_task 4 stream (omega arith)

replay-IsReplayOf_example :
    IsReplayOf (starting_point plain_json 1 (backend.get_snapshot 1)).0 replayed_task
replay-IsReplayOf_example = replay-IsReplayOf plain_json backend 1 replayed_task replay_stream

replay-default_tenant_example :
    (replayed_task.task_id ≡ 1)
    × (replayed_task.tenant_id ≡ default_tenant)
    × IsCoherent replayed_task
replay-default_tenant_example =
    replay-default_tenant plain_json backend 1 replayed_task no_snapshot replay_stream

abbrev noted : TaskId → ℕ → Note
noted id seq = record { task_id = id; seq = seq; state = acme_task; now = 0 }

abbrev some_notes : List Note
some_notes = noted 1 1 ∷ noted 2 2 ∷ noted 1 3 ∷ []

note-snapshot_example :
    (note plain_json (note_all plain_json (started 3) some_notes) (noted 1 4)).1
    ≡ some (record { task_id = 1; last_sequence = 4; task_state_json = acme_task; taken_at = 0 })
note-snapshot_example =
    note-snapshot plain_json 3 some_notes (noted 1 4) (omega arith) (omega arith)
