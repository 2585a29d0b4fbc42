-- ===== src/State/InMemory.antt =====
-- crates/h2ai-state/src/in_memory.rs: the in-memory backend. Each field of the record is a lock-guarded
-- field of the struct; a method holds one lock, so it is one step, but for the publishing of an event,
-- which takes a number from a counter and then locks the log (State/InMemory/Publishing.antt).
pub mod Keyed
pub mod Log
pub mod Publishing
use Prim.Native.String.{◌++◌ as ◌<>◌}
use h2ai_control_plane.Prelude.{
  ℕ, zero, ◌+◌, String, Bool, Option, none, some, List, [], ◌∷◌, ◌++◌, ◌&&◌, str_eq, ltb, u64,
  eq_string, filter, length, map, take,
}
use h2ai_control_plane.HashMap
use h2ai_control_plane.HashMap.{HashMap}
use h2ai_control_plane.Identity.{TaskId, TenantId, UuidFormat, bucket_safe}
use h2ai_control_plane.Task.Event.{H2aiEvent, task_subject}
use h2ai_control_plane.Task.Journal.{TaskSnapshot}
use h2ai_control_plane.State.Values.{
  CalibrationCompletedEvent, CalibrationRecord, AdapterOproState, PromptVariant,
  TaskReasoningCheckpoint, TaskMetaState, ConflictRateAccumulator, TaskCheckpoint,
}

pub record CapturedEvent : Type 0 where
  pub subject : String
  pub event : H2aiEvent
  pub seq : ℕ  -- u64

-- Over the text of a serialised state and the floating-point numbers.
pub record InMemoryStateBackend (Text F64 : Type 0) : Type 0 where
  pub snapshots : HashMap String (TaskSnapshot Text)
  pub calibration : Option CalibrationCompletedEvent
  pub calibration_records : HashMap String CalibrationRecord
  pub events : List CapturedEvent
  pub next_seq : ℕ  -- AtomicU64
  pub opro_states : HashMap String AdapterOproState
  pub prompt_variants : HashMap String PromptVariant
  pub active_variant_ptrs : HashMap String String
  pub tao_states : HashMap String (F64 × ℕ)
  pub bandit_states : HashMap String (List ℕ)
  pub reasoning_checkpoints : HashMap String TaskReasoningCheckpoint
  pub task_meta_states : HashMap String TaskMetaState
  pub conflict_accumulators : HashMap String ConflictRateAccumulator
  pub shadow_domains : List String
  pub task_checkpoints : HashMap String TaskCheckpoint
  pub skill_nodes : HashMap String (List ℕ)

-- `{a}/{b}` and `{a}/{b}/{c}`
abbrev pub key₂ : String → String → String
key₂ a b = a <> "/" <> b

abbrev pub key₃ : String → String → String → String
key₃ a b c = a <> "/" <> b <> "/" <> c

unfoldable pub new : (Text F64 : Type 0) → InMemoryStateBackend Text F64
new Text F64 = record {
  snapshots = [];
  calibration = none;
  calibration_records = [];
  events = [];
  next_seq = 0;
  opro_states = [];
  prompt_variants = [];
  active_variant_ptrs = [];
  tao_states = [];
  bandit_states = [];
  reasoning_checkpoints = [];
  task_meta_states = [];
  conflict_accumulators = [];
  shadow_domains = [];
  task_checkpoints = [];
  skill_nodes = [];
}

module _ {Text F64 : Type 0} where
  unfoldable pub put_calibration :
      InMemoryStateBackend Text F64 → CalibrationCompletedEvent → InMemoryStateBackend Text F64
  put_calibration b cal = record b { calibration = some cal }

  unfoldable pub get_calibration : InMemoryStateBackend Text F64 → Option CalibrationCompletedEvent
  get_calibration b = b.calibration

  unfoldable pub get_calibration_record :
      InMemoryStateBackend Text F64 → String → Option CalibrationRecord
  get_calibration_record b profile = HashMap.get b.calibration_records profile

  unfoldable pub put_calibration_record :
      InMemoryStateBackend Text F64 → CalibrationRecord → InMemoryStateBackend Text F64
  put_calibration_record b r = record b {
    calibration_records = HashMap.insert b.calibration_records r.adapter_profile r;
  }

  -- `publish_to` and, at the task's subject, `publish_event` and `publish_event_seq`, which returns
  -- the number.
  unfoldable pub publish_to :
      InMemoryStateBackend Text F64 → String → H2aiEvent → InMemoryStateBackend Text F64 × ℕ
  publish_to b subject event =
      let seq = u64 (b.next_seq + 1) in
      let captured : CapturedEvent = record { subject = subject; event = event; seq = seq } in
      (record b { next_seq = seq; events = b.events ++ captured ∷ [] }, seq)

  unfoldable pub put_prompt_variant :
      InMemoryStateBackend Text F64 → PromptVariant → InMemoryStateBackend Text F64
  put_prompt_variant b v = record b {
    prompt_variants =
        HashMap.insert b.prompt_variants (key₃ v.adapter_name v.prompt_key v.variant_id) v;
  }

  unfoldable pub get_prompt_variant :
      InMemoryStateBackend Text F64 → String → String → String → Option PromptVariant
  get_prompt_variant b adapter_name prompt_key variant_id =
      HashMap.get b.prompt_variants (key₃ adapter_name prompt_key variant_id)

  unfoldable pub get_active_variant_ptr :
      InMemoryStateBackend Text F64 → String → String → Option String
  get_active_variant_ptr b adapter_name prompt_key =
      HashMap.get b.active_variant_ptrs (key₂ adapter_name prompt_key)

  unfoldable pub set_active_variant_ptr :
      InMemoryStateBackend Text F64 → String → String → String → InMemoryStateBackend Text F64
  set_active_variant_ptr b adapter_name prompt_key variant_id = record b {
    active_variant_ptrs =
        HashMap.insert b.active_variant_ptrs (key₂ adapter_name prompt_key) variant_id;
  }

  unfoldable pub get_adapter_opro_state :
      InMemoryStateBackend Text F64 → String → Option AdapterOproState
  get_adapter_opro_state b adapter_name = HashMap.get b.opro_states adapter_name

  unfoldable pub put_adapter_opro_state :
      InMemoryStateBackend Text F64 → AdapterOproState → InMemoryStateBackend Text F64
  put_adapter_opro_state b s = record b {
    opro_states = HashMap.insert b.opro_states s.adapter_name s;
  }

  unfoldable pub put_shadow_promoted_domains :
      InMemoryStateBackend Text F64 → List String → InMemoryStateBackend Text F64
  put_shadow_promoted_domains b domains = record b { shadow_domains = domains }

  unfoldable pub get_shadow_promoted_domains : InMemoryStateBackend Text F64 → List String
  get_shadow_promoted_domains b = b.shadow_domains

  unfoldable pub list_task_checkpoints : InMemoryStateBackend Text F64 → List TaskCheckpoint
  list_task_checkpoints b = HashMap.values b.task_checkpoints

  -- The expected revision is not looked at, and the revision returned is 1.
  unfoldable pub put_task_checkpoint :
      InMemoryStateBackend Text F64 → TaskCheckpoint → Option ℕ → InMemoryStateBackend Text F64 × ℕ
  put_task_checkpoint b cp expected_revision =
      (record b { task_checkpoints = HashMap.insert b.task_checkpoints cp.task_id cp }, 1)

  unfoldable pub get_task_checkpoint :
      InMemoryStateBackend Text F64 → String → Option TaskCheckpoint
  get_task_checkpoint b task_id = HashMap.get b.task_checkpoints task_id

  unfoldable pub delete_task_checkpoint :
      InMemoryStateBackend Text F64 → String → InMemoryStateBackend Text F64
  delete_task_checkpoint b task_id = record b {
    task_checkpoints = HashMap.remove b.task_checkpoints task_id;
  }
