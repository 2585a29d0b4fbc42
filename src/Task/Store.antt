-- ===== src/Task/Store.antt =====
-- crates/h2ai-orchestrator/src/task_store.rs: `TaskStore`, a map from the printed task id to the
-- state. Every method holds one entry's lock for its whole body, so each is one step.
pub mod Calls
pub mod Invariants
pub mod Tally
use mathlib.Core.Option
use h2ai_control_plane.Prelude.{
  ℕ, ◌+◌, String, Bool, false, not, eq_string, ◌&&◌, Option, none, some, ◌==◌, str_eq, u32, [],
  if◌then◌else◌,
}
use h2ai_control_plane.HashMap
use h2ai_control_plane.HashMap.{HashMap}
use h2ai_control_plane.Identity.{TaskId, TenantId, UuidFormat}
use h2ai_control_plane.Task.Phase.{TaskPhase, resolved, failed, awaiting_approval, code}
use h2ai_control_plane.Task.State.{TaskState, enter}

abbrev pub TaskStore : Type 0
TaskStore = HashMap String TaskState

abbrev pub empty : TaskStore
empty = []

-- What each setter does to the entry that it has locked.
unfoldable pub with_phase : TaskPhase → ℕ → ℕ → TaskState → TaskState
unfolding enter
with_phase phase explorer_count retries s = record (enter phase s) {
  explorers_total = explorer_count;
  autonomic_retries = retries;
}

unfoldable pub with_completed : TaskState → TaskState
with_completed s = record s { explorers_completed = u32 (s.explorers_completed + 1) }

unfoldable pub with_validation : Bool → TaskState → TaskState
with_validation valid s =
    if valid
    then record s { proposals_valid = u32 (s.proposals_valid + 1) }
    else record s { proposals_pruned = u32 (s.proposals_pruned + 1) }

unfoldable pub is_live : TaskState → Bool
unfolding code
is_live s = not (s.phase == code resolved) && not (s.phase == code failed)

-- `.filter(|r| &r.tenant_id == tenant_id)`
unfoldable pub for_tenant : TenantId → Option TaskState → Option TaskState
for_tenant tenant_id none = none
for_tenant tenant_id (some s) = if str_eq s.tenant_id tenant_id then some s else none

module _ (uuid : UuidFormat) where
  open uuid use {to_string}

  unfoldable pub insert : TaskStore → TaskId → TaskState → TaskStore
  insert store id state = HashMap.insert store (to_string id) state

  unfoldable pub get : TaskStore → TaskId → Option TaskState
  get store id = HashMap.get store (to_string id)

  unfoldable pub get_for_tenant : TaskStore → TaskId → TenantId → Option TaskState
  unfolding for_tenant
  get_for_tenant store id tenant_id = for_tenant tenant_id (HashMap.get store (to_string id))

  unfoldable pub set_phase : TaskStore → TaskId → TaskPhase → ℕ → ℕ → TaskStore
  unfolding with_phase
  set_phase store id phase explorer_count retries =
      HashMap.modify store (to_string id) (with_phase phase explorer_count retries)

  unfoldable pub increment_completed : TaskStore → TaskId → TaskStore
  unfolding with_completed
  increment_completed store id = HashMap.modify store (to_string id) with_completed

  unfoldable pub record_validation : TaskStore → TaskId → Bool → TaskStore
  unfolding with_validation
  record_validation store id valid = HashMap.modify store (to_string id) (with_validation valid)

  unfoldable pub mark_resolved : TaskStore → TaskId → TaskStore
  mark_resolved store id = HashMap.modify store (to_string id) (enter resolved)

  unfoldable pub mark_failed : TaskStore → TaskId → TaskStore
  mark_failed store id = HashMap.modify store (to_string id) (enter failed)

  unfoldable pub set_awaiting_approval : TaskStore → TaskId → TaskStore
  set_awaiting_approval store id = HashMap.modify store (to_string id) (enter awaiting_approval)

  unfoldable pub is_active : TaskStore → TaskId → Bool
  unfolding is_live
  is_active store id = elim (HashMap.get store (to_string id)) [ none ↦ false | some s ↦ is_live s ]
