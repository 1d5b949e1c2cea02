-- ===== src/Program/Validate.antt =====
-- src/program.rs: validation of a program.
use canonical_company_audito.Prelude.{
  String, Bool, true, false, not, ◌||◌, ◌==◌, Option, none, some, List, [], ◌∷◌, ltb, all, any,
  is_empty, is_some, if◌then◌else◌,
}
use canonical_company_audito.Outcome.{
  AuditError, Result, ok, invalid, unsupported_version, reject_if, ◌>>=◌, ◌>>◌, for_each,
}
use canonical_company_audito.Text.{codes, bytes, len, is_blank, is_control, trim, strip_prefix}
use canonical_company_audito.Collections.{contains}
use canonical_company_audito.Collections.Unique.{for_unique}
use canonical_company_audito.Json.{Value, bool, number, string}
use canonical_company_audito.Model.{FrameworkMapping}
use canonical_company_audito.Model.Checks.{is_identifier_byte}
use canonical_company_audito.Program.{
  program_schema, FrameworkDescriptor, ConditionOperator, equals, number_at_least, number_at_most,
  non_empty, RuleCondition, AssessmentRule, AssessmentProgram,
}
use canonical_company_audito.External.{External}

-- A copy of the manifest's check.
unfoldable pub validate_identifier : String → String → Result (Unit {0})
validate_identifier field value =
    reject_if (is_blank value || ltb 160 (len value) || not (all is_identifier_byte (bytes value)))
      (invalid field "must contain 1..=160 safe identifier bytes")

unfoldable pub validate_reference : String → Result (Unit {0})
validate_reference value =
    reject_if
      (is_blank value
        || ltb 120 (len value)
        || any is_control (codes value)
        || not (trim value == value))
      (invalid "reference" "must be trimmed public reference text no longer than 120 bytes")

abbrev pub is_scalar : Value → Bool
is_scalar (bool b) = true
is_scalar (number n) = true
is_scalar (string s) = true
is_scalar _ = false

abbrev pub is_true : Value → Bool
is_true (bool b) = b
is_true _ = false

unfoldable pub validate_framework : FrameworkDescriptor → Result (Unit {0})
validate_framework f =
    reject_if
      (not (is_some (strip_prefix "https://" f.source_url))
        || is_blank (trim f.redistribution)
        || is_blank (trim f.status_note))
      (invalid "frameworks" "every framework needs HTTPS provenance and redistribution metadata")

abbrev pub repeated_framework : AuditError
repeated_framework = invalid "frameworks" "contains duplicate identifiers"

abbrev pub repeated_rule : AuditError
repeated_rule = invalid "rules" "contains duplicate identifiers"

unfoldable pub validate_mapping : List String → FrameworkMapping → Result (Unit {0})
validate_mapping framework_ids mapping = do
  reject_if (not (contains mapping.framework_id framework_ids))
      (invalid "frameworkMappings" "references an unknown framework")
  validate_reference mapping.reference

unfoldable pub validate_rule_names : AssessmentRule → Result (Unit {0})
validate_rule_names r = do
  validate_identifier "rule id" r.id
  validate_identifier "evidence type" r.evidence_type
  validate_identifier "fact" r.condition.fact

module _ (ext : External) where
  -- `Value::as_f64`
  abbrev pub is_f64 : Value → Bool
  is_f64 (number n) = is_some (ext.as_f64 n)
  is_f64 _ = false

  abbrev pub is_expected : ConditionOperator → Value → Bool
  is_expected equals expected = is_scalar expected
  is_expected number_at_least expected = is_f64 expected
  is_expected number_at_most expected = is_f64 expected
  is_expected non_empty expected = is_true expected

  unfoldable pub validate_condition : RuleCondition → Result (Unit {0})
  validate_condition condition =
      reject_if (not (is_expected condition.operator condition.expected))
        (invalid "condition" "operator and expected scalar type do not match")

  unfoldable pub validate_rule_body : List String → AssessmentRule → Result (Unit {0})
  validate_rule_body framework_ids r = do
    reject_if (is_blank (trim r.remediation)) (invalid "remediation" "must not be empty")
    for_each (validate_mapping framework_ids) r.framework_mappings
    validate_condition r.condition

  -- `AssessmentProgram::validate`
  unfoldable pub validate_program : AssessmentProgram → Result (Unit {0})
  validate_program p = do
    reject_if (not (p.schema_version == program_schema)) (unsupported_version p.schema_version)
    validate_identifier "programId" p.program_id
    validate_identifier "version" p.version
    reject_if (is_empty p.frameworks || is_empty p.rules)
        (invalid "program" "requires at least one framework and one rule")
    framework_ids ←
        for_unique (λ f. f.id) (λ f. validate_identifier "framework id" f.id) repeated_framework
          validate_framework [] p.frameworks
    _ ←
        for_unique (λ r. r.id) validate_rule_names repeated_rule (validate_rule_body framework_ids)
          [] p.rules
    ok tt

-- `framework`: the first descriptor with the identifier
unfoldable pub framework : List FrameworkDescriptor → String → Option FrameworkDescriptor
framework [] id = none
framework (f ∷ fs) id = if f.id == id then some f else framework fs id
