-- ===== src/Task/Journal/Invariants.antt =====
-- What `apply_event` and `replay` (crates/h2ai-orchestrator/src/session_journal.rs) keep of a state.
use mathlib.Core.Path.{subst}
use h2ai_control_plane.Prelude.{
  ℕ, ◌+◌, ◌≡◌, refl, ◌∙◌, Bool, true, false, ◌&&◌, Option, none, some, List, [], ◌∷◌, arith, ◌==◌,
  u32, any, Bool-cases, inl, inr, if◌then◌else◌,
}
use h2ai_control_plane.Result.{Result, ok, err}
use h2ai_control_plane.Identity.{TaskId, default_tenant}
use h2ai_control_plane.Task.Phase.{
  TaskPhase, bootstrap, provisioning, multiplication_check, parallel_generation, auditor_gate,
  merging, resolved, failed, complexity_assessed, code, name_str, status_str,
}
use h2ai_control_plane.Task.State
use h2ai_control_plane.Task.State.{TaskState, InPhase, IsCoherent, enter, new-IsCoherent}
use h2ai_control_plane.Task.Store.{is_live}
use h2ai_control_plane.Task.Event.{
  H2aiEvent, task_bootstrapped, task_complexity_assessed, topology_provisioned,
  multiplication_condition_failed, proposal, proposal_failed, verification_scored,
  selection_resolved, merge_resolved, task_failed,
}
use h2ai_control_plane.Task.Journal.{
  Arrival, TaskSnapshot, item, failure, elapsed, OrchestratorError, SessionJournalBackend,
  StateJson, apply_event, is_terminal, drain, finish, resume, replay, starting_point,
}
use h2ai_control_plane.Task.Journal.Replay.{play}

in_phase :
    (p : TaskPhase) (s : TaskState)
    → s.phase ≡ code p
    → s.phase_name ≡ name_str p
    → s.status ≡ status_str p
    → IsCoherent s
in_phase p s a b c = (p, record { phase_eq = a; name_eq = b; status_eq = c })

-- Every event leaves the three phase fields in agreement.
apply_event-IsCoherent :
    (s : TaskState) (e : H2aiEvent) → IsCoherent s → IsCoherent (apply_event s e)
unfolding apply_event
apply_event-IsCoherent s task_bootstrapped h = in_phase bootstrap _ refl refl refl
apply_event-IsCoherent s task_complexity_assessed h = in_phase complexity_assessed _ refl refl refl
apply_event-IsCoherent s (topology_provisioned e) h = in_phase provisioning _ refl refl refl
apply_event-IsCoherent s multiplication_condition_failed h =
    in_phase multiplication_check _ refl refl refl
apply_event-IsCoherent s proposal h = in_phase parallel_generation _ refl refl refl
apply_event-IsCoherent s proposal_failed h = in_phase parallel_generation _ refl refl refl
apply_event-IsCoherent s (verification_scored e) h = in_phase auditor_gate _ refl refl refl
apply_event-IsCoherent s selection_resolved h = in_phase merging _ refl refl refl
apply_event-IsCoherent s merge_resolved h = in_phase resolved _ refl refl refl
apply_event-IsCoherent s (task_failed e) h = in_phase failed _ refl refl refl
apply_event-IsCoherent s _ h = in_phase h.0 _ h.1.phase_eq h.1.name_eq h.1.status_eq

-- No event changes whose state it is.
apply_event-owner :
    (s : TaskState) (e : H2aiEvent)
    → ((apply_event s e).task_id ≡ s.task_id) × ((apply_event s e).tenant_id ≡ s.tenant_id)
unfolding apply_event
apply_event-owner s (verification_scored e) = ground arith
apply_event-owner s _ = (refl, refl)

terminal-not-live :
    (s : TaskState) (e : H2aiEvent) → is_terminal e ≡ true → is_live (apply_event s e) ≡ false
unfolding is_terminal apply_event is_live
terminal-not-live s merge_resolved h = refl
terminal-not-live s (task_failed e) h = refl
terminal-not-live s _ h = cc

-- A state that has seen a terminal event is not active.
pub play-terminal :
    (s : TaskState) (es : List H2aiEvent) → any is_terminal es ≡ true → is_live (play s es) ≡ false
unfolding play
play-terminal s [] h = cc
play-terminal s (e ∷ es) h = elim (Bool-cases (is_terminal e)) [
  | inl last ↦ rw last (terminal-not-live s e last)
  | inr more ↦ rw more (play-terminal (apply_event s e) es (rw more at h))
]

-- What a replayed state has of the one it started from.
pub record IsReplayOf (start s : TaskState) : Type 0 where
  pub task_id_eq : s.task_id ≡ start.task_id
  pub tenant_eq : s.tenant_id ≡ start.tenant_id
  pub coherent : IsCoherent start → IsCoherent s

step-IsReplayOf :
    (start s : TaskState) (e : H2aiEvent) → IsReplayOf start s → IsReplayOf start (apply_event s e)
step-IsReplayOf start s e h = record {
  task_id_eq = (apply_event-owner s e).0 ∙ h.task_id_eq;
  tenant_eq = (apply_event-owner s e).1 ∙ h.tenant_eq;
  coherent = λ c. apply_event-IsCoherent s e (h.coherent c);
}

refl-IsReplayOf : (s : TaskState) → IsReplayOf s s
refl-IsReplayOf s = record { task_id_eq = refl; tenant_eq = refl; coherent = λ c. c }

returned :
    {E : Type 0} (b : Bool) (s t : TaskState)
    → ◌≡◌ {A = Result (Option TaskState) (OrchestratorError E)}
        (if b then ok none else ok (some s))
        (ok (some t))
    → s ≡ t
returned b s t h = ground arith

module _ {E : Type 0} (start : TaskState) where
  abbrev Ends : Result (TaskState × ℕ) (OrchestratorError E) → Type 0
  Ends (ok (s, n)) = IsReplayOf start s
  Ends (err e) = Unit

  drain-Ends :
      (s : TaskState) (n : ℕ) (arrivals : List (Arrival E))
      → IsReplayOf start s
      → Ends (drain s n arrivals)
  unfolding drain
  drain-Ends s n [] h = h
  drain-Ends s n (elapsed ∷ rest) h = h
  drain-Ends s n (failure e ∷ rest) h = tt
  drain-Ends s n (item seq e ∷ rest) h = elim (Bool-cases (is_terminal e)) [
    | inl last ↦ rw last (step-IsReplayOf start s e h)
    | inr more ↦
        rw more (drain-Ends (apply_event s e) (u32 (n + 1)) rest (step-IsReplayOf start s e h))
  ]

  finish-Ends :
      (q : ℕ) (r : Result (TaskState × ℕ) (OrchestratorError E)) {s : TaskState}
      → Ends r
      → finish q r ≡ ok (some s)
      → IsReplayOf start s
  unfolding finish
  finish-Ends q (err e) h k = cc
  finish-Ends q (ok (s, n)) h k = subst (IsReplayOf start) (returned ((n == 0) && (q == 0)) s _ k) h

  resume-Ends :
      (q : ℕ) (r : Result (List (Arrival E)) E) {s : TaskState}
      → resume (start, q) r ≡ ok (some s)
      → IsReplayOf start s
  unfolding resume
  resume-Ends q (err e) k = cc
  resume-Ends q (ok arrivals) k =
      finish-Ends q (drain start 0 arrivals) (drain-Ends start 0 arrivals (refl-IsReplayOf start)) k

-- A replayed state belongs to the task and the tenant of the state that the replay started from, and
-- is coherent if that was, whatever the backend returns and the stream brings.
pub replay-IsReplayOf :
    (json : StateJson) {E : Type 0} (nats : SessionJournalBackend json.Text E) (id : TaskId)
    (s : TaskState)
    → replay json (some nats) id ≡ ok (some s)
    → IsReplayOf (starting_point json id (nats.get_snapshot id)).0 s
unfolding replay
replay-IsReplayOf json nats id s k =
    let (start, q) = starting_point json id (nats.get_snapshot id) in
    resume-Ends start q (nats.tail_task_events id q) k

-- There is no snapshot that can be read: none at all, one whose text does not load, or a failure.
pub data Unreadable (json : StateJson) {E : Type 0}
    : Result (Option (TaskSnapshot json.Text)) E → Type 0 where
  no_snapshot : Unreadable json (ok none)
  garbled :
      (snap : TaskSnapshot json.Text)
      → json.from_text snap.task_state_json ≡ none
      → Unreadable json (ok (some snap))
  unloaded : (e : E) → Unreadable json (err e)

starting_point_miss :
    (json : StateJson) {E : Type 0} (id : TaskId) (r : Result (Option (TaskSnapshot json.Text)) E)
    → Unreadable json r
    → (starting_point json id r).0 ≡ State.new id default_tenant
unfolding starting_point
starting_point_miss json id _ no_snapshot = refl
starting_point_miss json id _ (garbled snap e) = rw (starting_point, e) refl
starting_point_miss json id _ (unloaded e) = refl

of_fresh :
    (id : TaskId) (s : TaskState)
    → IsReplayOf (State.new id default_tenant) s
    → (s.task_id ≡ id) × (s.tenant_id ≡ default_tenant) × IsCoherent s
unfolding State.new
of_fresh id s h = (h.task_id_eq, h.tenant_eq, h.coherent (new-IsCoherent id default_tenant))

-- Without a snapshot that can be read (none, a failure to load it, or a text that gives no state), a replayed state belongs to the default tenant, whatever the
-- tenant of the task was, and is coherent.
pub replay-default_tenant :
    (json : StateJson) {E : Type 0} (nats : SessionJournalBackend json.Text E) (id : TaskId)
    (s : TaskState)
    → Unreadable json (nats.get_snapshot id)
    → replay json (some nats) id ≡ ok (some s)
    → (s.task_id ≡ id) × (s.tenant_id ≡ default_tenant) × IsCoherent s
replay-default_tenant json nats id s miss k = of_fresh id s (
    rw (starting_point_miss json id (nats.get_snapshot id) miss) at
      (replay-IsReplayOf json nats id s k))
