-- ===== src/Adapters/Readings.antt =====
-- What src/native_readiness_evidence.rs and src/operational_evidence.rs share: the text check, the
-- levels of a finding and an observation of the scope.
use canonical_company_audito.Prelude.{ℕ, ◌*◌, String, not, ◌||◌, ◌==◌, none, List, ltb, any}
use canonical_company_audito.Outcome.{Result, invalid, reject_if}
use canonical_company_audito.Text.{codes, len, is_blank, is_control, trim}
use canonical_company_audito.Json.{Value}
use canonical_company_audito.Model.{EvidenceSource, EvidenceObservation}
use canonical_company_audito.Adapters.Scan.{EvidenceContext}

abbrev pub max_reading_bytes : ℕ
max_reading_bytes = 4 * 1024

unfoldable pub validate_reading : String × String → Result (Unit {0})
validate_reading (field, value) =
    reject_if
      (is_blank value
        || ltb max_reading_bytes (len value)
        || not (trim value == value)
        || any is_control (codes value))
      (invalid field "must be trimmed printable text containing 1..=4096 bytes")

-- An observation of the scope, from its type, identifier and facts.
abbrev pub reading :
    EvidenceContext → EvidenceSource → String → String → List (String × Value) → EvidenceObservation
reading context source evidence_type external_id facts = record {
  external_id = external_id;
  evidence_type = evidence_type;
  subject = context.scope_id;
  source = source;
  collected_at = context.collected_at;
  valid_until = context.valid_until;
  facts = facts;
  attestation = none;
}
