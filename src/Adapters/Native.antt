-- ===== src/Adapters/Native.antt =====
-- src/native_readiness_evidence.rs: the report of the native readiness scanner as evidence.
use canonical_company_audito.Prelude.{
  ℕ, ◌*◌, ℤ, pos, String, Bool, false, not, ◌||◌, Option, none, some, List, [], ◌∷◌, ◌++◌, length,
  ltb, any,
}
use canonical_company_audito.Outcome.{
  Result, ok, json, invalid, reject_if, ok_or, ◌>>=◌, ◌>>◌, for_each, map_result,
}
use canonical_company_audito.Text.{concat, codes, len, is_blank, is_control}
use canonical_company_audito.Collections.{contains, collect_into}
use canonical_company_audito.Json.{Value, string}
use canonical_company_audito.Model.{
  evidence_schema, EvidenceSource, connector, EvidenceObservation, EvidenceBundle,
}
use canonical_company_audito.Model.Validate.{validate_bundle}
use canonical_company_audito.External.{text, optional_text, integer, Document, tuple, External}
use canonical_company_audito.Evidence.{digest}
use canonical_company_audito.Adapters.{natural_value, insert_optional, freshness_end}
use canonical_company_audito.Adapters.Scan.{EvidenceContext, severities}
use canonical_company_audito.Adapters.Readings.{validate_reading, reading}

abbrev pub max_report_bytes : ℕ
max_report_bytes = 2 * 1024 * 1024

abbrev pub max_findings : ℕ
max_findings = 512

abbrev pub max_checks : ℕ
max_checks = 128

abbrev pub max_validity_seconds : ℤ
max_validity_seconds = pos (30 * 24 * 60 * 60)

abbrev pub providers : List String
providers =
    "aws" ∷ "gcp" ∷ "azure" ∷ "cloudflare" ∷ "github" ∷ "upstash" ∷ "vercel" ∷ "digital-ocean"
    ∷ "netlify" ∷ "render" ∷ "fly-io" ∷ "heroku" ∷ []

pub record NativeCheck : Type 0 where
  pub check : String
  pub status : String
  pub summary : String

pub record NativeFinding : Type 0 where
  pub id : String
  pub severity : String
  pub category : String
  pub title : String
  pub detail : String
  pub resource : Option String

pub record NativeScanReport : Type 0 where
  pub provider : String
  pub scope : Option String
  pub transport : String
  pub auth_status : String
  pub score : ℕ
  pub checks : List NativeCheck
  pub findings : List NativeFinding

abbrev pub transports : List String
transports =
    "HTTPS GET only" ∷ "allowlisted aws CLI API calls" ∷ "allowlisted gcloud API calls"
    ∷ "allowlisted az CLI API calls" ∷ "allowlisted flyctl read calls" ∷ []

unfoldable pub validate_transport : String → Result (Unit {0})
validate_transport value =
    reject_if (not (contains value transports))
      (invalid "nativeReadinessTransport" "transport is not a recognized read-only native adapter")

abbrev pub is_unsafe_scope : Option String → Bool
is_unsafe_scope none = false
is_unsafe_scope (some value) = is_blank value || ltb 200 (len value) || any is_control (codes value)

unfoldable pub validate_report : NativeScanReport → Result (Unit {0})
unfolding validate_transport validate_reading
validate_report r = do
  reject_if (not (contains r.provider providers))
      (invalid "nativeReadinessProvider" "provider is not in the native readiness catalog")
  validate_transport r.transport
  validate_reading ("nativeReadinessAuthStatus", r.auth_status)
  reject_if (ltb max_findings (length r.findings) || ltb max_checks (length r.checks))
      (invalid "nativeReadinessRecords" "report contains too many checks or findings")
  reject_if (is_unsafe_scope r.scope)
      (invalid "nativeReadinessScope" "provider scope must be bounded printable text")

abbrev pub if_resource : String → Option String → Result (Unit {0})
if_resource field none = ok tt
if_resource field (some resource) = validate_reading (field, resource)

unfoldable pub validate_finding : NativeFinding → Result (Unit {0})
unfolding validate_reading
validate_finding f = do
  for_each validate_reading (
      ("nativeReadinessFindingId", f.id)
      ∷ ("nativeReadinessFindingSeverity", f.severity)
      ∷ ("nativeReadinessFindingCategory", f.category)
      ∷ ("nativeReadinessFindingTitle", f.title)
      ∷ ("nativeReadinessFindingDetail", f.detail)
      ∷ [])
  reject_if (not (contains f.severity severities))
      (invalid "nativeReadinessFindingSeverity" "must be critical, high, medium, low, or info")
  if_resource "nativeReadinessFindingResource" f.resource

unfoldable pub run_facts : NativeScanReport → List (String × Value)
run_facts r = insert_optional "providerScope" string r.scope (
    collect_into [] (
      ("provider", string r.provider)
      ∷ ("transport", string r.transport)
      ∷ ("authStatus", string r.auth_status)
      ∷ ("scannerScore", natural_value r.score)
      ∷ []))

unfoldable pub check_facts : NativeScanReport → NativeCheck → List (String × Value)
check_facts r c = collect_into [] (
    ("provider", string r.provider)
    ∷ ("check", string c.check)
    ∷ ("status", string c.status)
    ∷ ("summary", string c.summary)
    ∷ [])

unfoldable pub finding_facts : NativeScanReport → NativeFinding → List (String × Value)
finding_facts r f = insert_optional "resource" string f.resource (
    collect_into [] (
      ("provider", string r.provider)
      ∷ ("scannerFindingId", string f.id)
      ∷ ("severity", string f.severity)
      ∷ ("category", string f.category)
      ∷ ("title", string f.title)
      ∷ ("detail", string f.detail)
      ∷ []))

abbrev pub run_identity : EvidenceContext → NativeScanReport → Document
run_identity context r = tuple (
    text "canonical.native-readiness-run/v1"
    ∷ text context.tenant_id
    ∷ text context.scope_id
    ∷ integer context.collected_at
    ∷ text r.provider
    ∷ optional_text r.scope
    ∷ text r.transport
    ∷ [])

abbrev pub check_identity : EvidenceContext → NativeScanReport → NativeCheck → Document
check_identity context r c = tuple (
    text "canonical.native-readiness-check/v1"
    ∷ text context.tenant_id
    ∷ text context.scope_id
    ∷ integer context.collected_at
    ∷ text r.provider
    ∷ text c.check
    ∷ text c.status
    ∷ text c.summary
    ∷ [])

abbrev pub native_finding_identity : EvidenceContext → NativeScanReport → NativeFinding → Document
native_finding_identity context r f = tuple (
    text "canonical.native-readiness-finding/v1"
    ∷ text context.tenant_id
    ∷ text context.scope_id
    ∷ integer context.collected_at
    ∷ text r.provider
    ∷ text f.id
    ∷ text f.severity
    ∷ text f.category
    ∷ optional_text f.resource
    ∷ [])

abbrev pub source_of : NativeScanReport → String → EvidenceSource
source_of r adapter_version =
    connector (concat ("canonical-readiness." ∷ r.provider ∷ [])) adapter_version

module _ (ext : External) (context : EvidenceContext) (source : EvidenceSource)
    (r : NativeScanReport) where
  unfoldable pub run_observation : Result EvidenceObservation
  unfolding run_facts
  run_observation = do
    external_id ← digest ext (run_identity context r)
    ok (reading context source "readiness.run" external_id (run_facts r))

  unfoldable pub check_observation : NativeCheck → Result EvidenceObservation
  unfolding check_facts validate_reading
  check_observation c = do
    validate_reading ("nativeReadinessCheck", c.check)
    validate_reading ("nativeReadinessCheckStatus", c.status)
    validate_reading ("nativeReadinessCheckSummary", c.summary)
    external_id ← digest ext (check_identity context r c)
    ok (reading context source "readiness.check" external_id (check_facts r c))

  unfoldable pub finding_observation : NativeFinding → Result EvidenceObservation
  unfolding finding_facts validate_finding
  finding_observation f = do
    validate_finding f
    external_id ← digest ext (native_finding_identity context r f)
    ok (reading context source "readiness.finding" external_id (finding_facts r f))

module _ (ext : External) (parse : List ℕ → Option NativeScanReport) where
  unfoldable pub parse_report : List ℕ → ℤ → ℤ → Result (NativeScanReport × ℤ)
  unfolding validate_report
  parse_report report_json collected_at valid_for_seconds = do
    reject_if (ltb max_report_bytes (length report_json))
        (invalid "nativeReadinessReport" "may contain at most 2097152 bytes")
    valid_until ←
        freshness_end "nativeReadinessFreshness"
          "requires collectedAt >= 0 and validForSeconds in 1..=2592000" max_validity_seconds
          collected_at valid_for_seconds
    report ← ok_or (parse report_json) json
    validate_report report
    ok (report, valid_until)

  unfoldable pub native_readiness_to_evidence :
      String → String → ℤ → ℤ → String → List ℕ → Result EvidenceBundle
  unfolding parse_report run_observation check_observation finding_observation
  native_readiness_to_evidence tenant_id scope_id collected_at valid_for_seconds adapter_version
        report_json =
      parse_report report_json collected_at valid_for_seconds >>= λ (report, valid_until).
      let context : EvidenceContext = record {
        tenant_id = tenant_id;
        scope_id = scope_id;
        collected_at = collected_at;
        valid_until = valid_until;
      } in
      let source = source_of report adapter_version in
      run_observation ext context source report >>= λ run.
      map_result (check_observation ext context source report) report.checks >>= λ checked.
      map_result (finding_observation ext context source report) report.findings >>= λ found.
      let bundle : EvidenceBundle = record {
        schema_version = evidence_schema;
        tenant_id = tenant_id;
        scope_id = scope_id;
        observations = run ∷ (checked ++ found);
      } in
      (validate_bundle bundle >> ok bundle)
