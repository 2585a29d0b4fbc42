-- ===== src/State/InMemory/Keyed.antt =====
-- crates/h2ai-state/src/in_memory.rs: the methods whose keys are printed identifiers or sanitised
-- tenants, and those that read the log of events.
use Prim.Native.Char.{Char}
use Prim.Native.String.{◌++◌ as ◌<>◌}
use text.Mathlib.Text.{starts_with}
use h2ai_control_plane.Prelude.{
  ℕ, String, Bool, Option, none, some, List, [], ◌&&◌, str_eq, ltb, eq_string, filter, length, map,
  take,
}
use h2ai_control_plane.HashMap
use h2ai_control_plane.HashMap.{HashMap}
use h2ai_control_plane.Identity.{TaskId, TenantId, UuidFormat, bucket_safe}
use h2ai_control_plane.Task.Event.{H2aiEvent, task_subject}
use h2ai_control_plane.Task.Journal.{TaskSnapshot}
use h2ai_control_plane.State.Values.{
  TaskReasoningCheckpoint, TaskMetaState, ConflictRateAccumulator,
}
use h2ai_control_plane.State.InMemory.{InMemoryStateBackend, CapturedEvent, publish_to, key₂}

abbrev pub is_for_task : UuidFormat → TaskId → CapturedEvent → Bool
is_for_task uuid task_id e = str_eq e.subject (task_subject uuid task_id)

abbrev pub checkpoint_key : UuidFormat → TenantId → TaskId → String
checkpoint_key uuid tenant_id task_id = key₂ tenant_id (uuid.to_string task_id)

module _ (uuid : UuidFormat) {Text F64 : Type 0} where
  open uuid use {to_string}

  unfoldable pub event_count_for_task : InMemoryStateBackend Text F64 → TaskId → ℕ
  event_count_for_task b task_id = length (filter (is_for_task uuid task_id) b.events)

  unfoldable pub put_snapshot :
      InMemoryStateBackend Text F64 → TaskSnapshot Text → InMemoryStateBackend Text F64
  put_snapshot b snap = record b {
    snapshots = HashMap.insert b.snapshots (to_string snap.task_id) snap;
  }

  unfoldable pub get_snapshot : InMemoryStateBackend Text F64 → TaskId → Option (TaskSnapshot Text)
  get_snapshot b task_id = HashMap.get b.snapshots (to_string task_id)

  unfoldable pub publish_event :
      InMemoryStateBackend Text F64 → TaskId → H2aiEvent → InMemoryStateBackend Text F64
  unfolding publish_to
  publish_event b task_id event = (publish_to b (task_subject uuid task_id) event).0

  unfoldable pub publish_event_seq :
      InMemoryStateBackend Text F64 → TaskId → H2aiEvent → InMemoryStateBackend Text F64 × ℕ
  unfolding publish_to
  publish_event_seq b task_id event = publish_to b (task_subject uuid task_id) event

  -- The items of the stream, none of which is an error.
  unfoldable pub tail_task_events :
      InMemoryStateBackend Text F64 → TaskId → ℕ → List (ℕ × H2aiEvent)
  tail_task_events b task_id from_seq =
      map (λ e. (e.seq, e.event))
        (filter (λ e. is_for_task uuid task_id e && ltb from_seq e.seq) b.events)

  unfoldable pub put_reasoning_checkpoint :
      InMemoryStateBackend Text F64 → TaskReasoningCheckpoint → InMemoryStateBackend Text F64
  put_reasoning_checkpoint b c = record b {
    reasoning_checkpoints =
        HashMap.insert b.reasoning_checkpoints (checkpoint_key uuid c.tenant_id c.task_id) c;
  }

  unfoldable pub get_reasoning_checkpoint :
      InMemoryStateBackend Text F64 → TaskId → TenantId → Option TaskReasoningCheckpoint
  get_reasoning_checkpoint b task_id tenant_id =
      HashMap.get b.reasoning_checkpoints (checkpoint_key uuid tenant_id task_id)

  unfoldable pub put_task_meta_state :
      InMemoryStateBackend Text F64 → TaskMetaState → InMemoryStateBackend Text F64
  put_task_meta_state b m = record b {
    task_meta_states =
        HashMap.insert b.task_meta_states (checkpoint_key uuid m.tenant_id m.task_id) m;
  }

  unfoldable pub get_task_meta_state :
      InMemoryStateBackend Text F64 → TaskId → TenantId → Option TaskMetaState
  get_task_meta_state b task_id tenant_id =
      HashMap.get b.task_meta_states (checkpoint_key uuid tenant_id task_id)

-- At most `limit` of the states whose key begins with the tenant and a slash.
unfoldable pub list_task_meta_states :
    {Text F64 : Type 0} → InMemoryStateBackend Text F64 → TenantId → ℕ → List TaskMetaState
list_task_meta_states b tenant_id limit =
    HashMap.values
      (take limit (filter (λ e. starts_with e.0 (tenant_id <> "/")) b.task_meta_states))

unfoldable pub get_conflict_accumulator :
    {Text F64 : Type 0} → InMemoryStateBackend Text F64 → TenantId → Option ConflictRateAccumulator
get_conflict_accumulator b tenant_id = HashMap.get b.conflict_accumulators tenant_id

unfoldable pub put_conflict_accumulator :
    {Text F64 : Type 0}
    → InMemoryStateBackend Text F64
    → ConflictRateAccumulator
    → InMemoryStateBackend Text F64
put_conflict_accumulator b acc = record b {
  conflict_accumulators = HashMap.insert b.conflict_accumulators acc.tenant_id acc;
}

-- The stores of a tenant's estimators and skills, under the sanitised tenant.
abbrev pub bucket : (Char → Bool) → TenantId → String → String
bucket is_alphanumeric tenant_id name = key₂ (bucket_safe is_alphanumeric tenant_id) name

module _ (is_alphanumeric : Char → Bool) {Text F64 : Type 0} where
  unfoldable pub get_tao_estimator_state :
      InMemoryStateBackend Text F64 → TenantId → Option (F64 × ℕ)
  get_tao_estimator_state b tenant_id =
      HashMap.get b.tao_states (bucket is_alphanumeric tenant_id "tao")

  unfoldable pub put_tao_estimator_state :
      InMemoryStateBackend Text F64 → TenantId → F64 → ℕ → InMemoryStateBackend Text F64
  put_tao_estimator_state b tenant_id ema count = record b {
    tao_states = HashMap.insert b.tao_states (bucket is_alphanumeric tenant_id "tao") (ema, count);
  }

  unfoldable pub get_bandit_state : InMemoryStateBackend Text F64 → TenantId → Option (List ℕ)
  get_bandit_state b tenant_id =
      HashMap.get b.bandit_states (bucket is_alphanumeric tenant_id "bandit")

  unfoldable pub put_bandit_state :
      InMemoryStateBackend Text F64 → TenantId → List ℕ → InMemoryStateBackend Text F64
  put_bandit_state b tenant_id json_bytes = record b {
    bandit_states =
        HashMap.insert b.bandit_states (bucket is_alphanumeric tenant_id "bandit") json_bytes;
  }

  unfoldable pub put_skill_nodes :
      InMemoryStateBackend Text F64 → TenantId → List ℕ → InMemoryStateBackend Text F64
  put_skill_nodes b tenant_id json_bytes = record b {
    skill_nodes = HashMap.insert b.skill_nodes (bucket_safe is_alphanumeric tenant_id) json_bytes;
  }

  -- `unwrap_or_default`
  unfoldable pub get_skill_nodes : InMemoryStateBackend Text F64 → TenantId → List ℕ
  get_skill_nodes b tenant_id =
      elim (HashMap.get b.skill_nodes (bucket_safe is_alphanumeric tenant_id)) [
        | none ↦ []
        | some bytes ↦ bytes
      ]
