-- ===== src/Tao/Loop/Runs.antt =====
-- What a run of the loop of crates/h2ai-orchestrator/src/tao_loop.rs gives: its proposal or the cause of its
-- error, and its calls of the adapter.
use h2ai_control_plane.Prelude.{◌+◌, ◌≤◌, ◌≡◌, String, Bool, Option, List, [], length}
use h2ai_control_plane.Result.{Result, ok, err}
use h2ai_control_plane.Tao.Types.{Call, EngineError, TaoInput, TaoProposal, Host}
use h2ai_control_plane.Tao.Turn.Calls.{Genuine}
use h2ai_control_plane.Tao.Loop.{compiled}
use h2ai_control_plane.Tao.Loop.Invariant.{IsProposal, Cause, IsResult}

module _ {F J : Type 0} (host : Host F J) (input : TaoInput F)
    (pattern : Option (String → Bool)) where
  -- What the loop gives, with the calls of the adapter.
  abbrev pub Bounded : Result TaoProposal EngineError × List Call → Type 0
  Bounded r =
      (IsResult host input pattern r.0 r.1 × (length r.1 ≤ input.config.max_turns + 1))
      × Genuine host input 0 r.1

-- What a run that is not bypassed gives: a proposal of the loop with the compiled pattern, or an error with its cause.
pub data IsRun {F J : Type 0} (host : Host F J) (input : TaoInput F)
    : Result TaoProposal EngineError × List Call → Type 0 where
  proposed :
      (pattern : Option (String → Bool)) (p : TaoProposal) (calls : List Call)
      → compiled host input input.config.verify_pattern ≡ ok pattern
      → IsProposal host input pattern calls p
      → IsRun host input (ok p, calls)
  no_turn : (e : EngineError) → input.config.max_turns ≡ 0 → IsRun host input (err e, [])
  bad_pattern :
      (e : EngineError)
      → compiled host input input.config.verify_pattern ≡ err e
      → IsRun host input (err e, [])
  failed :
      (pattern : Option (String → Bool)) (e : EngineError) (calls : List Call)
      → compiled host input input.config.verify_pattern ≡ ok pattern
      → Cause host input pattern calls
      → IsRun host input (err e, calls)

module _ {F J : Type 0} (host : Host F J) (input : TaoInput F) where
  -- A run with its calls, which are few, and answered by the adapter.
  abbrev pub Runs : Result TaoProposal EngineError × List Call → Type 0
  Runs r =
      (IsRun host input r × (length r.1 ≤ input.config.max_turns + 1)) × Genuine host input 0 r.1
