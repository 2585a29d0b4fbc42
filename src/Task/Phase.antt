-- ===== src/Task/Phase.antt =====
-- crates/h2ai-orchestrator/src/task_store.rs: the phases of a task, their codes and their names.
use h2ai_control_plane.Prelude.{
  ℕ, String, ◌≡◌, refl, sym, ap, ◌∙◌, ◌↔◌, Option, none, some, arith, ◌==◌, str_eq, str_eq_iff,
  if◌then◌else◌,
}
use h2ai_control_plane.Result.{Result, ok, err}

pub data TaskPhase : Type 0 where
  bootstrap provisioning multiplication_check parallel_generation auditor_gate : TaskPhase
  merging resolved failed complexity_assessed awaiting_approval : TaskPhase

-- `phase as u8`
unfoldable pub code : TaskPhase → ℕ
code bootstrap = 1
code provisioning = 2
code multiplication_check = 3
code parallel_generation = 4
code auditor_gate = 5
code merging = 6
code resolved = 7
code failed = 8
code complexity_assessed = 9
code awaiting_approval = 10

-- The cases of `TryFrom<u8>`, in the order of the source.
unfoldable pub try_from : ℕ → Result TaskPhase ℕ
unfolding code
try_from x =
    if x == code bootstrap
    then ok bootstrap
    else if x == code provisioning
    then ok provisioning
    else if x == code multiplication_check
    then ok multiplication_check
    else if x == code parallel_generation
    then ok parallel_generation
    else if x == code auditor_gate
    then ok auditor_gate
    else if x == code merging
    then ok merging
    else if x == code resolved
    then ok resolved
    else if x == code failed
    then ok failed
    else if x == code complexity_assessed
    then ok complexity_assessed
    else if x == code awaiting_approval
    then ok awaiting_approval
    else err x

unfoldable pub status_str : TaskPhase → String
status_str bootstrap = "pending"
status_str complexity_assessed = "assessing"
status_str provisioning = "provisioning"
status_str multiplication_check = "validating"
status_str parallel_generation = "generating"
status_str auditor_gate = "auditing"
status_str merging = "merging"
status_str resolved = "resolved"
status_str failed = "failed"
status_str awaiting_approval = "awaiting_approval"

unfoldable pub name_str : TaskPhase → String
name_str bootstrap = "Bootstrap"
name_str complexity_assessed = "ComplexityAssessment"
name_str provisioning = "TopologyProvisioning"
name_str multiplication_check = "MultiplicationCheck"
name_str parallel_generation = "ParallelGeneration"
name_str auditor_gate = "AuditorGate"
name_str merging = "Merging"
name_str resolved = "Resolved"
name_str failed = "Failed"
name_str awaiting_approval = "AwaitingApproval"

unfoldable pub try_from_name_str : String → Option TaskPhase
try_from_name_str s =
    if str_eq s "Bootstrap"
    then some bootstrap
    else if str_eq s "TopologyProvisioning"
    then some provisioning
    else if str_eq s "MultiplicationCheck"
    then some multiplication_check
    else if str_eq s "ParallelGeneration"
    then some parallel_generation
    else if str_eq s "AuditorGate"
    then some auditor_gate
    else if str_eq s "Merging"
    then some merging
    else if str_eq s "Resolved"
    then some resolved
    else if str_eq s "Failed"
    then some failed
    else if str_eq s "ComplexityAssessment"
    then some complexity_assessed
    else if str_eq s "AwaitingApproval"
    then some awaiting_approval
    else none

-- Every phase is read back from its code.
try_from-code : (p : TaskPhase) → try_from (code p) ≡ ok p
unfolding try_from
try_from-code bootstrap = refl
try_from-code _ = refl

-- A code that is accepted is the code of the phase that it is read as.
code-try_from : (x : ℕ) (p : TaskPhase) → try_from x ≡ ok p → code p ≡ x
unfolding try_from
code-try_from x p h = ground arith

-- Every phase is read back from its name.
name_round_trip : (p : TaskPhase) → try_from_name_str (name_str p) ≡ some p
unfolding try_from_name_str name_str
name_round_trip bootstrap = refl
name_round_trip _ = refl

infixr 0 ◌$◌
abbrev ◌$◌ : {A B : Type 0} → (A → B) → A → B
f $ a = f a

-- One case of the match: the phase of a literal, or what the later cases find.
name_case :
    (s lit : String) (q p : TaskPhase) (rest : Option TaskPhase)
    → name_str q ≡ lit
    → (rest ≡ some p → name_str p ≡ s)
    → (if str_eq s lit then some q else rest) ≡ some p
    → name_str p ≡ s
name_case s lit q p rest named later h = ground (arith, str_eq_iff s lit)

-- A name that is accepted is the name of the phase that it is read as.
name-try_from_name_str :
    (s : String) (p : TaskPhase) → try_from_name_str s ≡ some p → name_str p ≡ s
unfolding try_from_name_str name_str
name-try_from_name_str s p =
    name_case s _ bootstrap p _ refl
    $ name_case s _ provisioning p _ refl
    $ name_case s _ multiplication_check p _ refl
    $ name_case s _ parallel_generation p _ refl
    $ name_case s _ auditor_gate p _ refl
    $ name_case s _ merging p _ refl
    $ name_case s _ resolved p _ refl
    $ name_case s _ failed p _ refl
    $ name_case s _ complexity_assessed p _ refl
    $ name_case s _ awaiting_approval p _ refl (λ h. cc)

-- A byte is read as a phase exactly when it is that phase's code.
pub try_from_iff : (x : ℕ) (p : TaskPhase) → (try_from x ≡ ok p) ↔ (code p ≡ x)
try_from_iff x p = (code-try_from x p, λ e. ap try_from (sym e) ∙ try_from-code p)

-- A text is read as a phase exactly when it is that phase's name.
pub try_from_name_str_iff :
    (s : String) (p : TaskPhase) → (try_from_name_str s ≡ some p) ↔ (name_str p ≡ s)
try_from_name_str_iff s p =
    (name-try_from_name_str s p, λ e. ap try_from_name_str (sym e) ∙ name_round_trip p)
