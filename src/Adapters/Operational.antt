-- ===== src/Adapters/Operational.antt =====
-- src/operational_evidence.rs: the report of Prometheus and OpenCost as evidence.
use canonical_company_audito.Prelude.{
  ℕ, ◌*◌, ◌/◌, ◌%◌, ◌-◌, ◌^◌, ℤ, pos, String, Bool, not, ◌&&◌, ◌||◌, Option, List, [], ◌∷◌, ◌++◌,
  length, ltb, eqb,
}
use canonical_company_audito.Outcome.{
  Result, ok, json, invalid, reject_if, ok_or, ◌>>=◌, ◌>>◌, for_each, map_result,
}
use canonical_company_audito.Text.{concat}
use canonical_company_audito.Collections.{contains, collect_into}
use canonical_company_audito.Json.{Value, string}
use canonical_company_audito.Model.{
  evidence_schema, EvidenceSource, connector, EvidenceObservation, EvidenceBundle,
}
use canonical_company_audito.Model.Validate.{validate_bundle}
use canonical_company_audito.External.{
  F64, text, optional_text, integer, natural, Document, tuple, External,
}
use canonical_company_audito.Evidence.{digest}
use canonical_company_audito.Adapters.{insert_optional, freshness_end}
use canonical_company_audito.Adapters.Scan.{EvidenceContext, severities}
use canonical_company_audito.Adapters.Readings.{validate_reading, reading}
use canonical_company_audito.Adapters.Native.{if_resource}

abbrev pub max_report_bytes : ℕ
max_report_bytes = 2 * 1024 * 1024

abbrev pub max_evidence : ℕ
max_evidence = 256

abbrev pub max_findings : ℕ
max_findings = 512

abbrev pub max_validity_seconds : ℤ
max_validity_seconds = pos (24 * 60 * 60)

pub record Thresholds : Type 0 where
  pub cpu_high : F64
  pub disk_free_low : F64
  pub memory_free_low : F64

pub record OperationalEvidence : Type 0 where
  pub source : String
  pub check : String
  pub status : String
  pub summary : String

pub record OperationalFinding : Type 0 where
  pub id : String
  pub severity : String
  pub category : String
  pub title : String
  pub detail : String
  pub resource : Option String

pub record OperationalReport : Type 0 where
  pub prometheus : String
  pub opencost : String
  pub thresholds : Thresholds
  pub evidence : List OperationalEvidence
  pub findings : List OperationalFinding

-- `json!` of a finite double, which is a number with the shortest text of it
pub record Doubles : Type 0 where
  pub to_json : F64 → Value

-- `is_finite`: the eleven bits of the exponent are not all set
abbrev pub is_finite : F64 → Bool
is_finite value = not (eqb ((value.bits / 2 ^ 52) % 2 ^ 11) (2 ^ 11 - 1))

-- the bits of 0.0 and of 100.0
abbrev pub zero_percent : F64
zero_percent = record { bits = 0 }

abbrev pub hundred_percent : F64
hundred_percent = record { bits = 0x4059000000000000 }

unfoldable pub validate_operational_finding : OperationalFinding → Result (Unit {0})
unfolding validate_reading
validate_operational_finding f = do
  for_each validate_reading (
      ("operationalFindingId", f.id)
      ∷ ("operationalFindingSeverity", f.severity)
      ∷ ("operationalFindingCategory", f.category)
      ∷ ("operationalFindingTitle", f.title)
      ∷ ("operationalFindingDetail", f.detail)
      ∷ [])
  reject_if (not (contains f.severity severities))
      (invalid "operationalFindingSeverity" "must be critical, high, medium, low, or info")
  if_resource "operationalFindingResource" f.resource

unfoldable pub validate_operational_evidence : OperationalEvidence → Result (Unit {0})
unfolding validate_reading
validate_operational_evidence e = do
  reject_if (not (contains e.source ("prometheus" ∷ "opencost" ∷ [])))
      (invalid "operationalReadinessSource" "source must be prometheus or opencost")
  validate_reading ("operationalReadinessCheck", e.check)
  validate_reading ("operationalReadinessStatus", e.status)
  validate_reading ("operationalReadinessSummary", e.summary)

unfoldable pub check_facts : OperationalEvidence → List (String × Value)
check_facts e = collect_into [] (
    ("source", string e.source)
    ∷ ("check", string e.check)
    ∷ ("status", string e.status)
    ∷ ("summary", string e.summary)
    ∷ [])

unfoldable pub finding_facts : OperationalFinding → List (String × Value)
finding_facts f = insert_optional "resource" string f.resource (
    collect_into [] (
      ("scannerFindingId", string f.id)
      ∷ ("severity", string f.severity)
      ∷ ("category", string f.category)
      ∷ ("title", string f.title)
      ∷ ("detail", string f.detail)
      ∷ []))

abbrev pub run_identity : EvidenceContext → OperationalReport → Document
run_identity context r = tuple (
    text "canonical.operational-readiness-run/v1"
    ∷ text context.tenant_id
    ∷ text context.scope_id
    ∷ integer context.collected_at
    ∷ text r.prometheus
    ∷ text r.opencost
    ∷ natural r.thresholds.cpu_high.bits
    ∷ natural r.thresholds.disk_free_low.bits
    ∷ natural r.thresholds.memory_free_low.bits
    ∷ [])

abbrev pub check_identity : EvidenceContext → OperationalEvidence → Document
check_identity context e = tuple (
    text "canonical.operational-readiness-evidence/v1"
    ∷ text context.tenant_id
    ∷ text context.scope_id
    ∷ integer context.collected_at
    ∷ text e.source
    ∷ text e.check
    ∷ text e.status
    ∷ text e.summary
    ∷ [])

abbrev pub operational_finding_identity : EvidenceContext → OperationalFinding → Document
operational_finding_identity context f = tuple (
    text "canonical.operational-readiness-finding/v1"
    ∷ text context.tenant_id
    ∷ text context.scope_id
    ∷ integer context.collected_at
    ∷ text f.id
    ∷ text f.severity
    ∷ text f.category
    ∷ optional_text f.resource
    ∷ [])

module _ (ext : External) where
  -- one turn of the loop over the thresholds
  unfoldable pub validate_threshold : String × F64 → Result (Unit {0})
  validate_threshold (field, value) =
      reject_if
        (not (is_finite value)
          || not (ext.f64_ge value zero_percent && ext.f64_le value hundred_percent))
        (invalid "operationalReadinessThresholds"
          (concat (field ∷ " must be a finite percentage in 0..=100" ∷ [])))

  unfoldable pub validate_thresholds : Thresholds → Result (Unit {0})
  unfolding validate_threshold
  validate_thresholds t = for_each validate_threshold (
      ("cpuHighPercent", t.cpu_high)
      ∷ ("diskFreeLowPercent", t.disk_free_low)
      ∷ ("memoryFreeLowPercent", t.memory_free_low)
      ∷ [])

  unfoldable pub validate_report : OperationalReport → Result (Unit {0})
  unfolding validate_thresholds validate_reading
  validate_report r = do
    validate_reading ("prometheusStatus", r.prometheus)
    validate_reading ("openCostStatus", r.opencost)
    validate_thresholds r.thresholds
    reject_if (ltb max_evidence (length r.evidence) || ltb max_findings (length r.findings))
        (invalid "operationalReadinessRecords" "report contains too many evidence rows or findings")

unfoldable pub run_facts : Doubles → OperationalReport → List (String × Value)
run_facts doubles r = collect_into [] (
    ("prometheusStatus", string r.prometheus)
    ∷ ("openCostStatus", string r.opencost)
    ∷ ("cpuHighPercent", doubles.to_json r.thresholds.cpu_high)
    ∷ ("diskFreeLowPercent", doubles.to_json r.thresholds.disk_free_low)
    ∷ ("memoryFreeLowPercent", doubles.to_json r.thresholds.memory_free_low)
    ∷ [])

module _ (ext : External) (doubles : Doubles) (context : EvidenceContext) (source : EvidenceSource)
    (r : OperationalReport) where
  unfoldable pub run_observation : Result EvidenceObservation
  unfolding run_facts
  run_observation = do
    external_id ← digest ext (run_identity context r)
    ok (reading context source "operations.readiness_run" external_id (run_facts doubles r))

module _ (ext : External) (context : EvidenceContext) (source : EvidenceSource) where
  unfoldable pub check_observation : OperationalEvidence → Result EvidenceObservation
  unfolding check_facts validate_operational_evidence
  check_observation e = do
    validate_operational_evidence e
    external_id ← digest ext (check_identity context e)
    ok (reading context source "operations.check" external_id (check_facts e))

  unfoldable pub finding_observation : OperationalFinding → Result EvidenceObservation
  unfolding finding_facts validate_operational_finding
  finding_observation f = do
    validate_operational_finding f
    external_id ← digest ext (operational_finding_identity context f)
    ok (reading context source "operations.finding" external_id (finding_facts f))

module _ (ext : External) (doubles : Doubles) (parse : List ℕ → Option OperationalReport) where
  unfoldable pub parse_report : List ℕ → ℤ → ℤ → Result (OperationalReport × ℤ)
  unfolding validate_report
  parse_report report_json collected_at valid_for_seconds = do
    reject_if (ltb max_report_bytes (length report_json))
        (invalid "operationalReadinessReport" "may contain at most 2097152 bytes")
    valid_until ←
        freshness_end "operationalReadinessFreshness"
          "requires collectedAt >= 0 and validForSeconds in 1..=86400" max_validity_seconds
          collected_at valid_for_seconds
    report ← ok_or (parse report_json) json
    validate_report ext report
    ok (report, valid_until)

  unfoldable pub operational_readiness_to_evidence :
      String → String → ℤ → ℤ → String → List ℕ → Result EvidenceBundle
  unfolding parse_report run_observation check_observation finding_observation
  operational_readiness_to_evidence tenant_id scope_id collected_at valid_for_seconds
        adapter_version report_json =
      parse_report report_json collected_at valid_for_seconds >>= λ (report, valid_until).
      let context : EvidenceContext = record {
        tenant_id = tenant_id;
        scope_id = scope_id;
        collected_at = collected_at;
        valid_until = valid_until;
      } in
      let source = connector "canonical-operational-readiness" adapter_version in
      run_observation ext doubles context source report >>= λ run.
      map_result (check_observation ext context source) report.evidence >>= λ checked.
      map_result (finding_observation ext context source) report.findings >>= λ found.
      let bundle : EvidenceBundle = record {
        schema_version = evidence_schema;
        tenant_id = tenant_id;
        scope_id = scope_id;
        observations = run ∷ (checked ++ found);
      } in
      (validate_bundle bundle >> ok bundle)
