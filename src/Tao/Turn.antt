-- ===== src/Tao/Turn.antt =====
-- One turn of the loop of crates/h2ai-orchestrator/src/tao_loop.rs, with `validate_output` of output_schema.rs.
pub mod Calls
pub mod Passing
use Prim.Native.String.{◌++◌ as append}
use h2ai_control_plane.Prelude.{
  ℕ, suc, String, Bool, true, false, not, ◌&&◌, ◌||◌, Option, none, some, List, [], ◌∷◌, ◌++◌, map,
  length, ltb, ◌==◌, if◌then◌else◌,
}
use h2ai_control_plane.Result.{Result, ok, err}
use h2ai_control_plane.Merge.Similarity.{token_jaccard}
use h2ai_control_plane.Tao.Types.{
  ComputeRequest, ComputeResponse, Answer, Call, answered, refused, timed_out, EngineError,
  adapter_error, TaoMemoryEntry, TaoIterationEvent, TaoInput, TaoProposal, SchemaValidationResult,
  valid, invalid, skipped, Host,
}

-- `join`
abbrev pub join : String → List String → String
join sep [] = ""
join sep (x ∷ []) = x
join sep (x ∷ y ∷ xs) = append x (append sep (join sep (y ∷ xs)))

-- What the loop carries from turn to turn; `calls` are the calls of the adapter so far.
pub record LoopState : Type 0 where
  pub req : ComputeRequest
  pub iterations : List TaoIterationEvent
  pub memory : List TaoMemoryEntry
  pub last_output : Option String
  pub turn1_output : Option String
  pub calls : List Call

pub data Progress : Type 0 where
  finished : Result TaoProposal EngineError → (calls : List Call) → Progress
  going : LoopState → Progress

module _ {F J : Type 0} (host : Host F J) where
  unfoldable pub validate_output : String → Option String → SchemaValidationResult
  validate_output output none = skipped
  validate_output output (some schema_json) = elim (host.from_str schema_json) [
    | err e ↦ invalid (append "invalid schema JSON: " e)
    | ok schema_value ↦ elim (host.from_str output) [
      | err e ↦ invalid "output is not valid JSON — schema validation requires JSON output"
      | ok output_value ↦ elim (host.validator_for schema_value) [
        | err e ↦ invalid (append "schema compile error: " e)
        | ok validator ↦ elim (validator output_value) [
          | [] ↦ valid
          | e ∷ errors ↦ invalid (join "; " (e ∷ errors))
        ]
      ]
    ]
  ]

  abbrev pub is_invalid : SchemaValidationResult → Bool
  is_invalid valid = false
  is_invalid (invalid message) = true
  is_invalid skipped = false

  -- `as_invalid_msg().unwrap_or(..)`
  abbrev pub invalid_msg : SchemaValidationResult → String
  invalid_msg valid = "unknown schema error"
  invalid_msg (invalid message) = message
  invalid_msg skipped = "unknown schema error"

  abbrev pub memory_line : TaoMemoryEntry → String
  memory_line e = append "[TAO turn " (
      append (host.show e.turn)
        (append " — " (append (if e.passed then "PASS" else "FAIL") (append "]: " e.observation))))

  abbrev pub format_memory : List TaoMemoryEntry → String
  format_memory [] = ""
  format_memory (e ∷ entries) =
      append "\n\n[TAO MEMORY]\n" (join "\n" (map memory_line (e ∷ entries)))

  module _ (input : TaoInput F) where
    -- The second call after a time-out, with its limit on tokens.
    abbrev pub settled : Answer → Result ComputeResponse EngineError
    settled (answered resp) = ok resp
    settled (refused message) = err (adapter_error message)
    settled timed_out = err (adapter_error "TAO timeout")

    abbrev pub placed : ComputeRequest → List Call → Call
    placed req calls = record { request = req; answer = input.adapter (length calls) req }

    -- After a time-out.
    abbrev pub retried :
        Bool → ComputeRequest → List Call → Result ComputeResponse EngineError × List Call
    retried false req calls = (err (adapter_error "TAO timeout"), calls)
    retried true req calls =
        let call =
          placed (record req { max_tokens = input.config.timeout_retry_max_tokens }) calls in
        (settled call.answer, calls ++ call ∷ [])

    -- Only the first turn asks again after a time-out.
    abbrev pub after_answer :
        Bool → ComputeRequest → List Call → Answer → Result ComputeResponse EngineError × List Call
    after_answer first req calls (answered resp) = (ok resp, calls)
    after_answer first req calls (refused message) = (err (adapter_error message), calls)
    after_answer first req calls timed_out =
        retried (first && input.config.retry_on_timeout) req calls

    -- The answer to a request, with the calls that were made.
    unfoldable pub ask :
        Bool → ComputeRequest → List Call → Result ComputeResponse EngineError × List Call
    ask first req calls =
        let call = placed req calls in after_answer first req (calls ++ call ∷ []) call.answer

    abbrev pub proposal_of :
        ComputeResponse → ℕ → List TaoIterationEvent → Option String → TaoProposal
    proposal_of resp tao_turns iterations turn1_output = record {
      event = record {
        task_id = input.task_id;
        explorer_id = input.explorer_id;
        generation = input.generation;
        raw_output = resp.output;
        token_cost = resp.token_cost;
      };
      tao_turns = tao_turns;
      iterations = iterations;
      turn1_output = turn1_output;
    }

    module _ (pattern : Option (String → Bool)) where
      abbrev pub pattern_passed : String → Bool
      pattern_passed output = elim pattern [ none ↦ true | some is_match ↦ is_match output ]

      unfoldable pub passes : String → Bool
      unfolding validate_output
      passes output =
          pattern_passed output && not (is_invalid (validate_output output input.schema_config))

      unfoldable pub observe : ℕ → String → String
      unfolding passes
      observe turn output =
          if passes output
          then input.config.observation_pass
          else if not (pattern_passed output)
          then host.replace input.config.observation_fail_pattern "{turn}" (host.show turn)
          else host.replace
              (host.replace input.config.observation_fail_schema "{turn}" (host.show turn))
              "{error}" (invalid_msg (validate_output output input.schema_config))

      abbrev pub iteration : ℕ → String → TaoIterationEvent
      iteration turn output = record {
        task_id = input.task_id;
        explorer_id = input.explorer_id;
        turn = turn;
        observation = observe turn output;
        passed = passes output;
      }

      -- The turn's output is too similar to the one before.
      unfoldable pub repeats : Option String → String → Bool
      unfolding token_jaccard
      repeats none output = false
      repeats (some prev) output = host.floats.le input.config.repetition_threshold (
          token_jaccard host.is_alphanumeric host.to_lowercase host.floats host.floats.zero prev
            output)

      abbrev pub repetition_message : ℕ → Option String → String → String
      repetition_message turn none output = ""
      repetition_message turn (some prev) output = append "TAO repetition detected at turn " (
          append (host.show turn) (
            append ": similarity " (
              append
                (host.show_score (
                  token_jaccard host.is_alphanumeric host.to_lowercase host.floats host.floats.zero
                    prev output))
                (append " >= threshold " (host.show_score input.config.repetition_threshold)))))

      -- The state for the next turn.
      unfoldable pub next : ℕ → LoopState → ComputeResponse → List Call → LoopState
      unfolding observe
      next turn st resp calls =
          let memory =
            st.memory
            ++ record {
              turn = turn;
              observation = observe turn resp.output;
              passed = passes resp.output;
            }
              ∷ [] in
          record {
            req = record st.req {
              system_context = append input.initial_request.system_context (format_memory memory);
              task = append st.req.task (
                  append "\n\n"
                    (host.replace input.config.retry_instruction "{turn}" (host.show turn)));
            };
            iterations = st.iterations ++ iteration turn resp.output ∷ [];
            memory = memory;
            last_output = some resp.output;
            turn1_output = if turn == 1 then some resp.output else st.turn1_output;
            calls = calls;
          }

      -- After a turn that failed with more turns to come: a loop that is stuck is an error.
      abbrev pub continue : Bool → ℕ → LoopState → ComputeResponse → List Call → Progress
      continue true turn st resp calls =
          finished (err (adapter_error (repetition_message turn st.last_output resp.output))) calls
      continue false turn st resp calls = going (next turn st resp calls)

      -- After an answer: the last turn, or one that passed, ends the loop.
      abbrev pub conclude : Bool → ℕ → LoopState → ComputeResponse → List Call → Progress
      conclude true turn st resp calls =
          finished
            (ok (
              proposal_of resp turn (st.iterations ++ iteration turn resp.output ∷ [])
                (if ltb 1 turn then st.turn1_output else none)))
            calls
      conclude false turn st resp calls =
          continue (repeats st.last_output resp.output) turn st resp calls

      abbrev pub judge : ℕ → LoopState → Result ComputeResponse EngineError × List Call → Progress
      judge turn st (err e, calls) = finished (err e) calls
      judge turn st (ok resp, calls) =
          conclude (passes resp.output || (turn == input.config.max_turns)) turn st resp calls

      unfoldable pub step : ℕ → LoopState → Progress
      unfolding ask observe repeats next
      step turn st = judge turn st (ask (turn == 1) st.req st.calls)
