-- ===== src/Leader/Question.antt =====
-- crates/h2ai-orchestrator/src/leader.rs: the question that a leader asks. The adapter answers each of the
-- calls that are made with one request, or fails.
use Prim.Native.Char.{Char, code}
use Prim.Native.Nat.{bit_xor}
use Prim.Native.String.{◌++◌ as append}
use h2ai_control_plane.Prelude.{
  ℕ, suc, ◌+◌, ◌*◌, ◌/◌, ◌%◌, String, Bool, true, false, not, Option, none, some, List, [], ◌∷◌,
  ◌++◌, map, ltb, ◌==◌, str_eq, any, length, is_empty, filter, if◌then◌else◌,
}
use h2ai_control_plane.Sorting.{sort}
use h2ai_control_plane.Retry.{contains}
use h2ai_control_plane.Subtasks.Waves.{range_from}
use h2ai_control_plane.Merge.Similarity.{cut}
use h2ai_control_plane.Leader.Types.{BeliefRecord, LeaderHost, LeaderConfig}

-- The bytes of a character in UTF-8.
abbrev pub bytes_of : ℕ → List ℕ
bytes_of c =
    if ltb c 128
    then c ∷ []
    else if ltb c 2048
    then (192 + c / 64) ∷ (128 + c % 64) ∷ []
    else if ltb c 65536
    then (224 + c / 4096) ∷ (128 + c / 64 % 64) ∷ (128 + c % 64) ∷ []
    else (240 + c / 262144) ∷ (128 + c / 4096 % 64) ∷ (128 + c / 64 % 64) ∷ (128 + c % 64) ∷ []

abbrev pub bytes : String → List ℕ
bytes String.[] = []
bytes (String.◌∷◌ c s) = bytes_of (code c) ++ bytes s

unfoldable pub hash_from : ℕ → List ℕ → ℕ
hash_from hash [] = hash
hash_from hash (byte ∷ rest) =
    hash_from (bit_xor hash byte * 1099511628211 % 18446744073709551616) rest

unfoldable pub fnv1a : String → ℕ
unfolding hash_from
fnv1a s = hash_from 14695981039346656037 (bytes s)

-- The pieces between characters that are not `keep`.
unfoldable pub pieces : (Char → Bool) → String → String × List String
pieces keep String.[] = (String.[], [])
pieces keep (String.◌∷◌ c s) = cut (keep c) c (pieces keep s)

-- `split_whitespace`
unfoldable pub split_whitespace : (Char → Bool) → String → List String
unfolding pieces
split_whitespace is_whitespace s =
    let (piece, rest) = pieces (λ c. not (is_whitespace c)) s in
    filter (λ t. not (str_eq t "")) (piece ∷ rest)

module _ {F : Type 0} (host : LeaderHost F) where
  -- The question was asked before.
  unfoldable pub is_dup : List (BeliefRecord F) → String → Bool
  unfolding fnv1a
  is_dup buffer question = any (λ r. r.question_hash == fnv1a question) buffer

  -- The records with more than three words of the question.
  abbrev pub similar : String → List (BeliefRecord F) → ℕ
  similar question buffer = length (
      filter
        (λ r. ltb 3 (
          length (
            filter (λ w. contains r.question_text w)
              (split_whitespace host.is_whitespace question))))
        buffer)

  unfoldable pub eig_score : String → List String → List (BeliefRecord F) → F
  unfolding is_dup split_whitespace
  eig_score question constraint_ids buffer =
      if is_dup buffer question
      then host.floats.zero
      else host.floats.mul_add host.half
          (host.floats.sub host.floats.one (
            if is_empty buffer
            then host.floats.zero
            else host.floats.min
                (host.floats.div (host.floats.of_nat (similar question buffer))
                  (host.floats.of_nat (length buffer)))
                host.floats.one))
          (host.floats.of_nat (length (filter (λ id. contains question id) constraint_ids)))

  -- A duplicate is counted, anything else is a candidate.
  abbrev pub counted : Bool → String × F → List (String × F) × ℕ → List (String × F) × ℕ
  counted true c (candidates, tried) = (candidates, suc tried)
  counted false c (candidates, tried) = (c ∷ candidates, tried)

  -- The candidates of the loop, with their scores, and the number of duplicates.
  unfoldable pub collect :
      List String → List (BeliefRecord F) → List (Option String) → List (String × F) × ℕ
  unfolding is_dup eig_score
  collect violated buffer [] = ([], 0)
  collect violated buffer (none ∷ answers) = collect violated buffer answers
  collect violated buffer (some output ∷ answers) =
      let q = host.trim output in
      counted (is_dup buffer q) (q, eig_score q violated buffer) (collect violated buffer answers)

  abbrev pub fallback_question : List String → String
  fallback_question [] = "What core assumption might be preventing constraint satisfaction?"
  fallback_question (id ∷ ids) =
      append "What if the approach to " (append id " is fundamentally wrong?")

  -- `cfg.leader_eig_candidates.max(1)`
  abbrev pub n_candidates : LeaderConfig F → ℕ
  n_candidates cfg = if cfg.leader_eig_candidates == 0 then 1 else cfg.leader_eig_candidates

  -- The question, its rank, and the number of duplicates. The adapter is a function of what the request is made
  -- of and of the number of the call.
  unfoldable pub generate_socratic_question :
      (String → List String → List String → ℕ → Option String)
      → String
      → List String
      → List (BeliefRecord F)
      → LeaderConfig F
      → String × (ℕ × ℕ)
  unfolding collect sort range_from
  generate_socratic_question adapter prior_proposal violated buffer cfg =
      let answers =
        map (adapter prior_proposal violated (map (λ r. r.question_text) buffer))
          (range_from 0 (n_candidates cfg)) in
      let (candidates, tried) = collect violated buffer answers in
      elim (sort (λ a b. host.floats.lt b.1 a.1) candidates) [
        | [] ↦ (fallback_question violated, (1, tried))
        | best ∷ _ ↦ (best.0, (1, tried))
      ]
