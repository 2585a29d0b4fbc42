-- ===== src/Tao/Types.antt =====
-- What goes into the loop and comes out of it: crates/h2ai-orchestrator/src/tao_loop.rs and output_schema.rs,
-- and TaoConfig of crates/h2ai-types/src/config.rs. `tau`, the kind of the adapter and timestamps are left out.
use Prim.Native.Char.{Char}
use h2ai_control_plane.Prelude.{ℕ, String, Bool, Option, List}
use h2ai_control_plane.Result.{Result}
use h2ai_control_plane.Floats.{Floats}
use h2ai_control_plane.Identity.{TaskId, ExplorerId}
use h2ai_control_plane.Proposals.{ProposalEvent}

pub record ComputeRequest : Type 0 where
  pub system_context : String
  pub task : String
  pub max_tokens : ℕ

pub record ComputeResponse : Type 0 where
  pub output : String
  pub token_cost : ℕ

-- What becomes of a call of the adapter within the time of a turn.
pub data Answer : Type 0 where
  answered : ComputeResponse → Answer
  refused : (message : String) → Answer
  timed_out : Answer

-- A call of the adapter that was made.
pub record Call : Type 0 where
  pub request : ComputeRequest
  pub answer : Answer

pub data EngineError : Type 0 where
  adapter_error : (message : String) → EngineError
  parse_error : (message : String) → EngineError

pub record TaoConfig (F : Type 0) : Type 0 where
  pub max_turns : ℕ  -- u8
  pub verify_pattern : Option String
  pub observation_pass : String
  pub observation_fail_pattern : String
  pub observation_fail_schema : String
  pub retry_instruction : String
  pub repetition_threshold : F
  pub retry_on_timeout : Bool
  pub timeout_retry_max_tokens : ℕ

pub record TaoMemoryEntry : Type 0 where
  pub turn : ℕ
  pub observation : String
  pub passed : Bool

pub record TaoIterationEvent : Type 0 where
  pub task_id : TaskId
  pub explorer_id : ExplorerId
  pub turn : ℕ
  pub observation : String
  pub passed : Bool

-- The adapter is a function of the number of the call and of the request.
pub record TaoInput (F : Type 0) : Type 0 where
  pub task_id : TaskId
  pub explorer_id : ExplorerId
  pub adapter : ℕ → ComputeRequest → Answer
  pub initial_request : ComputeRequest
  pub config : TaoConfig F
  pub schema_config : Option String  -- its `schema_json`
  pub generation : ℕ
  pub bypass_tao : Bool

pub record TaoProposal : Type 0 where
  pub event : ProposalEvent
  pub tao_turns : ℕ
  pub iterations : List TaoIterationEvent
  pub turn1_output : Option String

pub data SchemaValidationResult : Type 0 where
  valid : SchemaValidationResult
  invalid : (message : String) → SchemaValidationResult
  skipped : SchemaValidationResult

-- What the loop uses of the language and of the libraries `regex`, `serde_json` and `jsonschema`: a compiled
-- schema gives the messages on a value, and there are none exactly for a valid one. An error is its text.
pub record Host (F J : Type 0) : Type 0 where
  pub floats : Floats F
  pub is_alphanumeric : Char → Bool
  pub to_lowercase : String → String
  pub replace : String → String → String → String
  pub show : ℕ → String
  pub show_score : F → String
  pub regex : String → Result (String → Bool) String
  pub from_str : String → Result J String
  pub validator_for : J → Result (J → List String) String
