-- ===== src/Tests/Recovery.antt =====
-- A replay after a snapshot, over the in-memory backend.
use h2ai_control_plane.Prelude.{ℕ, ◌≡◌, ◌≢◌, refl, true, some, List, [], ◌∷◌, arith}
use h2ai_control_plane.Result.{ok}
use h2ai_control_plane.Identity.{TaskId, default_tenant}
use h2ai_control_plane.Task.State
use h2ai_control_plane.Task.State.{TaskState}
use h2ai_control_plane.Task.Event.{H2aiEvent, task_bootstrapped, proposal, merge_resolved}
use h2ai_control_plane.Task.Journal.{
  SessionJournal, TaskSnapshot, tick, counter_or_new, note_event, replay, is_terminal,
}
use h2ai_control_plane.Task.Journal.Replay.{apply_all, play}
use h2ai_control_plane.State.InMemory.Keyed.{put_snapshot}
use h2ai_control_plane.State.InMemory.Log.{own, publish_all}
use h2ai_control_plane.State.Recovery.{journal_backend, published, replay-snapshot}
use h2ai_control_plane.Tests.Samples.{unary_uuid, plain_json}

abbrev early : List (TaskId × H2aiEvent)
early = (1, task_bootstrapped) ∷ (2, proposal) ∷ (1, proposal) ∷ []

abbrev late : List (TaskId × H2aiEvent)
late = (1, merge_resolved) ∷ (2, proposal) ∷ []

some_early : own 1 early ≢ []
some_early e = cc

abbrev each_event : SessionJournal
each_event = record { has_backend = true; snapshot_interval = 1; counters = [] }

-- The task is of another tenant than the default one.
abbrev acme_snapshot : TaskSnapshot TaskState
acme_snapshot = record {
  task_id = 1;
  last_sequence = (published unary_uuid plain_json ℕ Unit early).next_seq;
  task_state_json = State.new 1 "acme";
  taken_at = 0;
}

acme_noted :
    (note_event plain_json each_event 1
      (published unary_uuid plain_json ℕ Unit early).next_seq
      (State.new 1 "acme")
      0).1
    ≡ some acme_snapshot
unfolding note_event tick counter_or_new
acme_noted = refl

replay-snapshot_example :
    let before = published unary_uuid plain_json ℕ Unit early in
    let snapped = put_snapshot unary_uuid before acme_snapshot in
    (replay plain_json
        (some (journal_backend unary_uuid plain_json ℕ Unit (publish_all unary_uuid before late)))
        1
      ≡ ok (some (play (apply_all (State.new 1 default_tenant) (own 1 early)) (own 1 late))))
    × (replay plain_json
          (some
            (journal_backend unary_uuid plain_json ℕ Unit (publish_all unary_uuid snapped late)))
          1
        ≡ ok (some (play (State.new 1 "acme") (own 1 late))))
unfolding is_terminal
replay-snapshot_example =
    replay-snapshot unary_uuid plain_json ℕ Unit 1 0 early late each_event (State.new 1 "acme")
      acme_snapshot some_early (refl, (refl, tt)) (omega arith) acme_noted
