-- ===== src/Tao/Loop.antt =====
-- `TaoLoop::run` (crates/h2ai-orchestrator/src/tao_loop.rs), with the calls of the adapter.
pub mod Invariant
pub mod Turns
pub mod Runs
use h2ai_control_plane.Prelude.{
  ℕ, zero, suc, String, Bool, true, false, Option, none, some, List, [], ◌==◌, if◌then◌else◌,
}
use Prim.Native.String.{◌++◌ as append}
use h2ai_control_plane.Result.{Result, ok, err}
use h2ai_control_plane.Tao.Types.{
  ComputeResponse, Call, EngineError, adapter_error, parse_error, TaoInput, TaoProposal, Host,
}
use h2ai_control_plane.Tao.Turn.{LoopState, Progress, finished, going, ask, proposal_of, step}

module _ {F J : Type 0} (host : Host F J) (input : TaoInput F) where
  -- The turns that are left, from a turn on.
  unfoldable pub loop :
      Option (String → Bool) → ℕ → ℕ → LoopState → Result TaoProposal EngineError × List Call
  unfolding step
  loop pattern zero turn st = (err (adapter_error "TAO max_turns must be >= 1"), st.calls)
  loop pattern (suc left) turn st = elim (step host input pattern turn st) [
    | finished result calls ↦ (result, calls)
    | going st' ↦ loop pattern left (suc turn) st'
  ]

  abbrev pub start : LoopState
  start = record {
    req = input.initial_request;
    iterations = [];
    memory = [];
    last_output = none;
    turn1_output = none;
    calls = [];
  }

  -- A reasoning model is asked once.
  abbrev pub bypassed :
      Result ComputeResponse EngineError × List Call → Result TaoProposal EngineError × List Call
  bypassed (err e, calls) = (err e, calls)
  bypassed (ok resp, calls) = (ok (proposal_of host input resp 1 [] none), calls)

  -- `verify_pattern`, compiled.
  abbrev pub compiled : Option String → Result (Option (String → Bool)) EngineError
  compiled none = ok none
  compiled (some pattern) = elim (host.regex pattern) [
    | err e ↦ err (parse_error (append "invalid TAO verify_pattern: " e))
    | ok is_match ↦ ok (some is_match)
  ]

  abbrev pub looped :
      Result (Option (String → Bool)) EngineError → Result TaoProposal EngineError × List Call
  looped (err e) = (err e, [])
  looped (ok pattern) = loop pattern input.config.max_turns 1 start

  abbrev pub guarded : Bool → Result TaoProposal EngineError × List Call
  guarded true = (err (adapter_error "TAO max_turns must be >= 1"), [])
  guarded false = looped (compiled input.config.verify_pattern)

  unfoldable pub run_mode : Bool → Result TaoProposal EngineError × List Call
  unfolding ask loop
  run_mode true = bypassed (ask host input true input.initial_request [])
  run_mode false = guarded (input.config.max_turns == 0)

  unfoldable pub run : Result TaoProposal EngineError × List Call
  unfolding run_mode
  run = run_mode input.bypass_tao
