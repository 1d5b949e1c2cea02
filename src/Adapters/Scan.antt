-- ===== src/Adapters/Scan.antt =====
-- src/external_evidence.rs: the normalised report of an external scanner as evidence.
use Prim.Native.String.{◌++◌}
use canonical_company_audito.Prelude.{
  ℕ, ◌*◌, ℤ, pos, String, Bool, true, false, not, ◌||◌, ◌==◌, Option, none, some, List, [], ◌∷◌,
  length, ltb,
}
use canonical_company_audito.Outcome.{
  Result, ok, json, invalid, reject_if, ok_or, ◌>>=◌, ◌>>◌, for_each, map_result,
}
use canonical_company_audito.Text.{len, is_blank}
use canonical_company_audito.Collections.{contains, collect_into}
use canonical_company_audito.Json.{Value, bool, string}
use canonical_company_audito.Model.{
  evidence_schema, EvidenceSource, connector, EvidenceObservation, EvidenceBundle,
}
use canonical_company_audito.Model.Validate.{validate_bundle}
use canonical_company_audito.External.{
  text, optional_text, integer, natural, Document, tuple, External,
}
use canonical_company_audito.Evidence.{digest}
use canonical_company_audito.Adapters.{natural_value, integer_value, insert_optional, freshness_end}

abbrev pub max_report_bytes : ℕ
max_report_bytes = 2 * 1024 * 1024

abbrev pub max_findings : ℕ
max_findings = 100

abbrev pub max_text_bytes : ℕ
max_text_bytes = 4 * 1024

abbrev pub max_validity_seconds : ℤ
max_validity_seconds = pos (30 * 24 * 60 * 60)

abbrev pub approved_tools : List String
approved_tools =
    "prowler" ∷ "scout-suite" ∷ "trivy" ∷ "checkov" ∷ "kubescape" ∷ "kube-bench" ∷ "kubeaudit"
    ∷ "infracost" ∷ "powerpipe" ∷ []

pub record ExternalCounts : Type 0 where
  pub passed : ℕ
  pub failed : ℕ
  pub warning : ℕ
  pub skipped : ℕ
  pub informational : ℕ
  pub total_records : ℕ

pub record ExternalFinding : Type 0 where
  pub id : String
  pub severity : String
  pub title : String
  pub detail : String
  pub resource : Option String

pub record ExternalScanReport : Type 0 where
  pub tool : String
  pub provider : Option String
  pub status : String
  pub read_only : Bool
  pub exit_code : Option ℤ
  pub counts : ExternalCounts
  pub findings : List ExternalFinding

pub record EvidenceContext : Type 0 where
  pub tenant_id : String
  pub scope_id : String
  pub collected_at : ℤ
  pub valid_until : ℤ

-- `option.as_deref().is_some_and(|value| value.len() > maximum)`
abbrev pub longer_than : ℕ → Option String → Bool
longer_than maximum none = false
longer_than maximum (some value) = ltb maximum (len value)

unfoldable pub validate_report : ExternalScanReport → Result (Unit {0})
validate_report r = do
  reject_if (not (contains r.tool approved_tools))
      (invalid "externalScanner" "scanner is not in the approved external-tool catalog")
  reject_if (not r.read_only)
      (invalid "externalScanner" "scanner report must explicitly attest readOnly=true")
  reject_if (not (r.status == "completed" || r.status == "completed-with-nonzero-exit"))
      (invalid "externalScannerStatus" "scanner status is not a completed state")
  reject_if (ltb max_findings (length r.findings))
      (invalid "externalScannerFindings" "may contain at most 100 normalized findings")
  reject_if (longer_than 160 r.provider)
      (invalid "externalScannerProvider" "provider label is too long")

abbrev pub severities : List String
severities = "critical" ∷ "high" ∷ "medium" ∷ "low" ∷ "info" ∷ []

-- one turn of the loop over the text fields
unfoldable pub validate_finding_text : String × String → Result (Unit {0})
validate_finding_text (field, value) =
    reject_if (is_blank value || ltb max_text_bytes (len value))
      (invalid field "must contain 1..=4096 bytes")

unfoldable pub validate_finding : ExternalFinding → Result (Unit {0})
unfolding validate_finding_text
validate_finding f = do
  for_each validate_finding_text (
      ("externalFindingId", f.id)
      ∷ ("externalFindingSeverity", f.severity)
      ∷ ("externalFindingTitle", f.title)
      ∷ ("externalFindingDetail", f.detail)
      ∷ [])
  reject_if (longer_than max_text_bytes f.resource)
      (invalid "externalFindingResource" "may contain at most 4096 bytes")
  reject_if (not (contains f.severity severities))
      (invalid "externalFindingSeverity" "must be critical, high, medium, low, or info")

unfoldable pub run_facts : ExternalScanReport → List (String × Value)
run_facts r = insert_optional "exitCode" integer_value r.exit_code (
    insert_optional "provider" string r.provider (
      collect_into [] (
        ("tool", string r.tool)
        ∷ ("status", string r.status)
        ∷ ("readOnly", bool true)
        ∷ ("passed", natural_value r.counts.passed)
        ∷ ("failed", natural_value r.counts.failed)
        ∷ ("warning", natural_value r.counts.warning)
        ∷ ("skipped", natural_value r.counts.skipped)
        ∷ ("informational", natural_value r.counts.informational)
        ∷ ("totalRecords", natural_value r.counts.total_records)
        ∷ [])))

unfoldable pub finding_facts : ExternalScanReport → ExternalFinding → List (String × Value)
finding_facts r f = insert_optional "resource" string f.resource (
    insert_optional "provider" string r.provider (
      collect_into [] (
        ("tool", string r.tool)
        ∷ ("scannerFindingId", string f.id)
        ∷ ("severity", string f.severity)
        ∷ ("title", string f.title)
        ∷ ("detail", string f.detail)
        ∷ [])))

abbrev pub source_of : ExternalScanReport → String → EvidenceSource
source_of r adapter_version = connector ("external." ++ r.tool) adapter_version

abbrev pub run_identity : EvidenceContext → ExternalScanReport → Document
run_identity context r = tuple (
    text "canonical.external-scanner-run/v1"
    ∷ text context.tenant_id
    ∷ text context.scope_id
    ∷ integer context.collected_at
    ∷ text r.tool
    ∷ optional_text r.provider
    ∷ text r.status
    ∷ natural r.counts.total_records
    ∷ [])

abbrev pub scan_finding_identity : EvidenceContext → ExternalScanReport → ExternalFinding → Document
scan_finding_identity context r f = tuple (
    text "canonical.external-scanner-finding/v1"
    ∷ text context.tenant_id
    ∷ text context.scope_id
    ∷ integer context.collected_at
    ∷ text r.tool
    ∷ optional_text r.provider
    ∷ text f.id
    ∷ text f.severity
    ∷ text f.title
    ∷ optional_text f.resource
    ∷ [])

module _ (ext : External) where
  unfoldable pub run_observation :
      EvidenceContext → EvidenceSource → ExternalScanReport → Result EvidenceObservation
  unfolding run_facts
  run_observation context source r = do
    external_id ← digest ext (run_identity context r)
    ok (record {
      external_id = external_id;
      evidence_type = "scanner.run";
      subject = context.scope_id;
      source = source;
      collected_at = context.collected_at;
      valid_until = context.valid_until;
      facts = run_facts r;
      attestation = none;
    })

  unfoldable pub finding_observation :
      EvidenceContext
      → EvidenceSource
      → ExternalScanReport
      → ExternalFinding
      → Result EvidenceObservation
  unfolding finding_facts validate_finding
  finding_observation context source r f = do
    validate_finding f
    external_id ← digest ext (scan_finding_identity context r f)
    ok (record {
      external_id = external_id;
      evidence_type = "scanner.finding";
      subject = context.scope_id;
      source = source;
      collected_at = context.collected_at;
      valid_until = context.valid_until;
      facts = finding_facts r f;
      attestation = none;
    })

  -- `serde_json::from_slice` on the report
  module _ (parse : List ℕ → Option ExternalScanReport) where
    unfoldable pub parse_report : List ℕ → ℤ → ℤ → Result (ExternalScanReport × ℤ)
    parse_report report_json collected_at valid_for_seconds = do
      reject_if (ltb max_report_bytes (length report_json))
          (invalid "externalScanReport" "may contain at most 2097152 bytes")
      valid_until ←
          freshness_end "externalScanFreshness"
            "requires collectedAt >= 0 and validForSeconds in 1..=2592000" max_validity_seconds
            collected_at valid_for_seconds
      report ← ok_or (parse report_json) json
      validate_report report
      ok (report, valid_until)

    unfoldable pub external_scan_to_evidence :
        String → String → ℤ → ℤ → String → List ℕ → Result EvidenceBundle
    unfolding parse_report run_observation finding_observation
    external_scan_to_evidence tenant_id scope_id collected_at valid_for_seconds adapter_version
          report_json =
        parse_report report_json collected_at valid_for_seconds >>= λ (report, valid_until).
        let context : EvidenceContext = record {
          tenant_id = tenant_id;
          scope_id = scope_id;
          collected_at = collected_at;
          valid_until = valid_until;
        } in
        let source = source_of report adapter_version in
        run_observation context source report >>= λ run.
        map_result (finding_observation context source report) report.findings >>= λ found.
        let bundle : EvidenceBundle = record {
          schema_version = evidence_schema;
          tenant_id = tenant_id;
          scope_id = scope_id;
          observations = run ∷ found;
        } in
        (validate_bundle bundle >> ok bundle)
