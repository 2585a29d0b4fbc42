-- ===== src/Task/Store/Calls.antt =====
-- Any sequence of calls of `TaskStore`, against a plain map from task ids to states.
use mathlib.Core.Option
use h2ai_control_plane.Prelude.{
  ℕ, ◌≡◌, refl, ap, ◌∙◌, Bool, Option, some, List, [], ◌∷◌, arith, ◌==◌, str_eq, str_eq_iff,
  eq_string, if◌then◌else◌,
}
use h2ai_control_plane.HashMap.{hash_map_laws}
use h2ai_control_plane.Identity.{TaskId, UuidFormat}
use h2ai_control_plane.Task.Phase.{TaskPhase, resolved, failed, awaiting_approval}
use h2ai_control_plane.Task.State.{TaskState, enter}
use h2ai_control_plane.Task.Store.{
  TaskStore, with_phase, with_completed, with_validation, insert, get, set_phase,
  increment_completed, record_validation, mark_resolved, mark_failed, set_awaiting_approval,
}

-- A call of one of the methods that change the store.
pub data Call : Type 0 where
  insert_state : TaskState → Call
  phase_set : TaskPhase → ℕ → ℕ → Call
  completed : Call
  validated : Bool → Call
  resolve : Call
  fail : Call
  await_approval : Call

-- The specification: what a call for a task does to what is known of that task.
abbrev pub effect : Call → Option TaskState → Option TaskState
effect (insert_state s) o = some s
effect (phase_set p n r) o = Option.map (with_phase p n r) o
effect completed o = Option.map with_completed o
effect (validated v) o = Option.map (with_validation v) o
effect resolve o = Option.map (enter resolved) o
effect fail o = Option.map (enter failed) o
effect await_approval o = Option.map (enter awaiting_approval) o

-- The states that calls for one task leave behind, in order.
abbrev pub history : TaskId → List (TaskId × Call) → Option TaskState → Option TaskState
history id [] o = o
history id ((j, c) ∷ cs) o = history id cs (if j == id then effect c o else o)

module _ (uuid : UuidFormat) where
  open uuid use {to_string, to_string_injective}

  unfoldable pub call : TaskStore → TaskId → Call → TaskStore
  unfolding insert set_phase increment_completed record_validation mark_resolved mark_failed
      set_awaiting_approval
  call store id (insert_state s) = insert uuid store id s
  call store id (phase_set p n r) = set_phase uuid store id p n r
  call store id completed = increment_completed uuid store id
  call store id (validated v) = record_validation uuid store id v
  call store id resolve = mark_resolved uuid store id
  call store id fail = mark_failed uuid store id
  call store id await_approval = set_awaiting_approval uuid store id

  unfoldable pub calls : TaskStore → List (TaskId × Call) → TaskStore
  unfolding call
  calls store [] = store
  calls store ((id, c) ∷ cs) = calls (call store id c) cs

  printed_eq : (a b : TaskId) → str_eq (to_string a) (to_string b) ≡ (a == b)
  printed_eq a b = ground (
    arith,
    str_eq_iff (to_string a) (to_string b),
    to_string_injective a b,
    ap to_string {x = a} {y = b},
  )

  -- One call acts on its own task as specified, and on no other.
  pub get-call :
      (store : TaskStore) (id j : TaskId) (c : Call)
      → get uuid (call store id c) j
        ≡ (if id == j then effect c (get uuid store j) else get uuid store j)
  unfolding call get
  get-call store id j (insert_state s) = simp (hash_map_laws, printed_eq)
  get-call store id j _ = simp (hash_map_laws, printed_eq)

  -- After any calls, the state of a task is what its own calls make of it.
  pub get-calls :
      (store : TaskStore) (cs : List (TaskId × Call)) (id : TaskId)
      → get uuid (calls store cs) id ≡ history id cs (get uuid store id)
  unfolding calls
  get-calls store [] id = refl
  get-calls store ((j, c) ∷ cs) id =
      get-calls (call store j c) cs id ∙ ap (history id cs) (get-call store j id c)
