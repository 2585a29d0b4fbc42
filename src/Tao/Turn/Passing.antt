-- ===== src/Tao/Turn/Passing.antt =====
-- When an output passes a turn of the loop of crates/h2ai-orchestrator/src/tao_loop.rs, and the schema of
-- crates/h2ai-orchestrator/src/output_schema.rs.
use h2ai_control_plane.Prelude.{
  ◌≡◌, ◌↔◌, refl, String, Bool, true, false, Option, none, some, List, [], ◌∷◌, arith,
}
use h2ai_control_plane.Result.{Result, ok, err}
use h2ai_control_plane.Tao.Types.{TaoInput, Host}
use h2ai_control_plane.Tao.Turn.{validate_output, is_invalid, passes}

abbrev pub Matches : Option (String → Bool) → String → Type 0
Matches none output = Unit
Matches (some is_match) output = is_match output ≡ true

module _ {F J : Type 0} (host : Host F J) where
  -- The output is JSON, of which the schema, which is JSON and compiles, has nothing to say.
  pub record Conforms (schema_json output : String) : Type 0 where
    pub schema_value : J
    pub output_value : J
    pub validator : J → List String
    pub schema_eq : host.from_str schema_json ≡ ok schema_value
    pub output_eq : host.from_str output ≡ ok output_value
    pub validator_eq : host.validator_for schema_value ≡ ok validator
    pub no_error : validator output_value ≡ []

  abbrev pub IsSchemaValid : Option String → String → Type 0
  IsSchemaValid none output = Unit
  IsSchemaValid (some schema_json) output = Conforms schema_json output

  module _ (schema_json output : String) where
    abbrev Accepted : Type 0
    Accepted = is_invalid host (validate_output host output (some schema_json)) ≡ false

    by_errors :
        (sv ov : J) (v : J → List String) (errors : List String)
        → host.from_str schema_json ≡ ok sv
        → host.from_str output ≡ ok ov
        → host.validator_for sv ≡ ok v
        → v ov ≡ errors
        → Accepted
        → Conforms schema_json output
    unfolding validate_output
    by_errors sv ov v [] es eo ev e h = record {
      schema_value = sv;
      output_value = ov;
      validator = v;
      schema_eq = es;
      output_eq = eo;
      validator_eq = ev;
      no_error = e;
    }
    by_errors sv ov v (x ∷ errors) es eo ev e h =
        let refused : is_invalid host (validate_output host output (some schema_json)) ≡ true =
          rw (validate_output, es, eo, ev, e) refl in
        absurd (ground (arith, refused, h))

    by_validator :
        (sv ov : J) (r : Result (J → List String) String)
        → host.from_str schema_json ≡ ok sv
        → host.from_str output ≡ ok ov
        → host.validator_for sv ≡ r
        → Accepted
        → Conforms schema_json output
    unfolding validate_output
    by_validator sv ov (err e) es eo ev h =
        let refused : is_invalid host (validate_output host output (some schema_json)) ≡ true =
          rw (validate_output, es, eo, ev) refl in
        absurd (ground (arith, refused, h))
    by_validator sv ov (ok v) es eo ev h = by_errors sv ov v (v ov) es eo ev refl h

    by_values :
        (s o : Result J String)
        → host.from_str schema_json ≡ s
        → host.from_str output ≡ o
        → Accepted
        → Conforms schema_json output
    unfolding validate_output
    by_values (err e) o es eo h =
        let refused : is_invalid host (validate_output host output (some schema_json)) ≡ true =
          rw (validate_output, es) refl in
        absurd (ground (arith, refused, h))
    by_values (ok sv) (err e) es eo h =
        let refused : is_invalid host (validate_output host output (some schema_json)) ≡ true =
          rw (validate_output, es, eo) refl in
        absurd (ground (arith, refused, h))
    by_values (ok sv) (ok ov) es eo h = by_validator sv ov (host.validator_for sv) es eo refl h

  validate_output_iff :
      (schema : Option String) (output : String)
      → (is_invalid host (validate_output host output schema) ≡ false) ↔ IsSchemaValid schema output
  unfolding validate_output
  validate_output_iff none output = (λ _. tt, λ _. refl)
  validate_output_iff (some schema_json) output = (
    by_values schema_json output _ _ refl refl,
    λ c. rw (validate_output, c.schema_eq, c.output_eq, c.validator_eq, c.no_error) refl,
  )

  -- The output matches the pattern, if there is one, and conforms to the schema, if there is one.
  abbrev pub Passing : TaoInput F → Option (String → Bool) → String → Type 0
  Passing input pattern output = Matches pattern output × IsSchemaValid input.schema_config output

  pub passes_iff :
      (input : TaoInput F) (pattern : Option (String → Bool)) (output : String)
      → (passes host input pattern output ≡ true) ↔ Passing input pattern output
  unfolding passes
  passes_iff input none output =
      let (conforms, accepted) = validate_output_iff input.schema_config output in
      (λ h. (tt, conforms (ground (arith, h))), λ c. ground (arith, accepted c.1))
  passes_iff input (some is_match) output =
      let (conforms, accepted) = validate_output_iff input.schema_config output in
      (
        λ h. (ground (arith, h), conforms (ground (arith, h))),
        λ c. ground (arith, c.0, accepted c.1),
      )
