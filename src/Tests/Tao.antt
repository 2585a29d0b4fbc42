-- ===== src/Tests/Tao.antt =====
-- The loop of an explorer, with an adapter that times out, then fails, then passes; and its estimator.
use h2ai_control_plane.Prelude.{
  ℕ, length, zero, suc, ◌≡◌, refl, String, Bool, true, false, Option, none, some, List, [], ◌∷◌,
  arith, str_eq,
}
use h2ai_control_plane.Result.{Result, ok, err}
use h2ai_control_plane.Tests.Constraints.{whole}
use h2ai_control_plane.Tao.Types.{
  ComputeRequest, Answer, Call, answered, timed_out, EngineError, TaoConfig, TaoInput, TaoProposal,
  Host, invalid,
}
use h2ai_control_plane.Tao.Turn.{validate_output}
use h2ai_control_plane.Tao.Loop.{run}
use h2ai_control_plane.Tao.Loop.Runs.{Runs}
use h2ai_control_plane.Tao.Estimator.{Sample, new_with_alpha, with_warmup, updates}
use h2ai_control_plane.Tao.Estimator.Mean.{IsEstimate, updates-IsEstimate}

-- A pattern matches the text that it is, a value is its text, and a schema wants its own text.
abbrev host : Host ℕ String
host = record {
  floats = whole;
  is_alphanumeric = λ c. true;
  to_lowercase = λ s. s;
  replace = λ s pattern by. s;
  show = λ n. "n";
  show_score = λ n. "s";
  regex = λ pattern. if_readable (str_eq pattern "(") pattern;
  from_str = λ s. ok s;
  validator_for = λ schema. ok (λ value. errors_of (str_eq schema value));
}
  where
    if_readable : Bool → String → Result (String → Bool) String
    if_readable true pattern = err "unclosed group"
    if_readable false pattern = ok (λ output. str_eq output pattern)

    errors_of : Bool → List String
    errors_of true = []
    errors_of false = "not the value" ∷ "not the type" ∷ []

abbrev request : ComputeRequest
request = record { system_context = "ctx"; task = "task"; max_tokens = 100 }

abbrev adapter : ℕ → ComputeRequest → Answer
adapter zero req = timed_out
adapter (suc zero) req = answered (record { output = "maybe"; token_cost = 3 })
adapter (suc (suc n)) req = answered (record { output = "yes"; token_cost = 4 })

abbrev config : Option String → TaoConfig ℕ
config pattern = record {
  max_turns = 3;
  verify_pattern = pattern;
  observation_pass = "fine";
  observation_fail_pattern = "no match";
  observation_fail_schema = "no schema";
  retry_instruction = "again";
  repetition_threshold = 1;
  retry_on_timeout = true;
  timeout_retry_max_tokens = 50;
}

abbrev input : Option String → TaoInput ℕ
input pattern = record {
  task_id = 1;
  explorer_id = 7;
  adapter = adapter;
  initial_request = request;
  config = config pattern;
  schema_config = none;
  generation = 0;
  bypass_tao = false;
}

abbrev turns_of : Result TaoProposal EngineError × List Call → Option (ℕ × Option String) × ℕ
turns_of (ok p, calls) = (some (p.tao_turns, p.turn1_output), length calls)
turns_of (err e, calls) = (none, length calls)

second_turn_passes : turns_of (run host (input (some "yes"))) ≡ (some (2, some "maybe"), 3)
unfolding run
second_turn_passes = refl

last_turn_is_returned : turns_of (run host (input (some "no"))) ≡ (some (3, some "maybe"), 4)
unfolding run
last_turn_is_returned = refl

abbrev long : TaoInput ℕ
long = record (input (some "no")) { config = record (config (some "no")) { max_turns = 4 } }

same_answer_is_stuck : turns_of (run host long) ≡ (none, 4)
unfolding run
same_answer_is_stuck = refl

bad_pattern_is_not_run : turns_of (run host (input (some "("))) ≡ (none, 0)
unfolding run
bad_pattern_is_not_run = refl

schema_errors_are_joined :
    validate_output host "x" (some "y") ≡ invalid "not the value; not the type"
unfolding validate_output
schema_errors_are_joined = refl

abbrev samples : List (Sample ℕ)
samples =
    record { q_before = 1; q_after = 1 }
    ∷ record { q_before = 0; q_after = 1 }
    ∷ record { q_before = 2; q_after = 1 }
    ∷ []

two_samples_count : (updates whole (with_warmup whole 2 (new_with_alpha whole 1)) samples).count ≡ 2
unfolding updates
two_samples_count = refl

updates-IsEstimate_example :
    IsEstimate whole 6 1 2 samples
      (updates whole (with_warmup whole 2 (new_with_alpha whole 1)) samples)
updates-IsEstimate_example = updates-IsEstimate whole 6 1 2 samples (omega arith)
