-- ===== src/Tests/Samples.antt =====
-- Concrete instances of the parameters of the development.
use text.Mathlib.TextLemmas.{tail-eq_of_cons-eq}
use h2ai_control_plane.Prelude.{ℕ, zero, suc, ◌≡◌, refl, ap, String, some}
use h2ai_control_plane.Identity.{UuidFormat}
use h2ai_control_plane.Task.State.{TaskState}
use h2ai_control_plane.Task.Journal.{StateJson}

-- A UUID printed in unary.
abbrev pub tally : ℕ → String
tally zero = String.[]
tally (suc n) = String.◌∷◌ "u" (tally n)

pub tally_injective : (a b : ℕ) → tally a ≡ tally b → a ≡ b
tally_injective zero zero e = refl
tally_injective zero (suc b) e = cc
tally_injective (suc a) zero e = cc
tally_injective (suc a) (suc b) e = ap suc (tally_injective a b (tail-eq_of_cons-eq e))

abbrev pub unary_uuid : UuidFormat
unary_uuid = record { to_string = tally; to_string_injective = tally_injective }

-- A state that is written as itself.
abbrev pub plain_json : StateJson
plain_json = record {
  Text = TaskState;
  to_text = λ s. s;
  from_text = some;
  from-to_text = λ s. refl;
}
