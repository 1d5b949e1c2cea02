-- ===== src/Tests/Natives.antt =====
-- The theorem on the native readiness adapter, on a report with one check and one finding.
use canonical_company_audito.Prelude.{
  ℕ, ◌≡◌, refl, pos, Option, some, List, [], ◌∷◌, ◌≤ℤ◌, ◌+ℤ◌, checked_add,
}
use canonical_company_audito.Outcome.{Result, ok}
use canonical_company_audito.Text.{
  bytes, len, trim_start, trim_end, trim, starts_with, ends_with, strip_prefix, split, decimal, lt,
}
use canonical_company_audito.Collections.{get, insert, collect_into, contains, set_insert}
use canonical_company_audito.Collections.Unique.{for_unique}
use canonical_company_audito.Model.{EvidenceBundle}
use canonical_company_audito.Model.Checks.{validate_identifier, validate_scope, validate_text}
use canonical_company_audito.Model.Validate.{
  validate_source, validate_attestation, validate_observation, validate_bundle,
}
use canonical_company_audito.Evidence.{canonicalize, canonical_json_bytes, sha256, digest}
use canonical_company_audito.Adapters.{freshness_end}
use canonical_company_audito.Adapters.Scan.{EvidenceContext}
use canonical_company_audito.Adapters.Readings.{validate_reading}
use canonical_company_audito.Adapters.Native.{
  NativeScanReport, max_validity_seconds, validate_transport, validate_report, validate_finding,
  run_facts, check_facts, finding_facts, run_observation, check_observation, finding_observation,
  parse_report, native_readiness_to_evidence,
}
use canonical_company_audito.Adapters.NativeReadings.{
  IsKnown, IsNativeEvidence, native_readiness_to_evidence-IsNativeEvidence,
}
use canonical_company_audito.Tests.Samples.{value_or}
use canonical_company_audito.Tests.Imports.{total_ext, empty_bundle}

abbrev report : NativeScanReport
report = record {
  provider = "aws";
  scope = some "123456789012";
  transport = "allowlisted aws CLI API calls";
  auth_status = "authenticated";
  score = 80;
  checks = record { check = "mfa"; status = "observed"; summary = "3 users" } ∷ [];
  findings =
      record {
        id = "f-1";
        severity = "high";
        category = "access";
        title = "No MFA";
        detail = "1 user";
        resource = some "user-1";
      }
      ∷ [];
}

abbrev parse : List ℕ → Option NativeScanReport
parse _ = some report

abbrev import_report : Result EvidenceBundle
import_report =
    native_readiness_to_evidence total_ext parse "acme" "acme/eu" (pos 100) (pos 60) "1.0"
      (b'{' ∷ [])

abbrev imported : EvidenceBundle
imported = value_or empty_bundle import_report

report_imported : import_report ≡ ok imported
unfolding bytes len trim_start trim_end trim starts_with ends_with strip_prefix split insert
    contains set_insert for_unique validate_identifier validate_scope validate_text validate_source
    collect_into get validate_attestation validate_observation validate_bundle canonicalize
    canonical_json_bytes sha256 digest decimal freshness_end checked_add ◌+ℤ◌ lt validate_reading
    validate_transport validate_report validate_finding run_facts check_facts finding_facts
    run_observation check_observation finding_observation parse_report native_readiness_to_evidence
report_imported = refl

native_readiness_to_evidence-IsNativeEvidence_example :
    (r : NativeScanReport) × (parse (b'{' ∷ []) ≡ some r)
    × IsKnown r
    × (pos 60 ≤ℤ max_validity_seconds)
    × (context : EvidenceContext) × (context ≡ record {
      tenant_id = "acme";
      scope_id = "acme/eu";
      collected_at = pos 100;
      valid_until = pos 100 +ℤ pos 60;
    })
    × IsNativeEvidence context "1.0" r imported
native_readiness_to_evidence-IsNativeEvidence_example =
    native_readiness_to_evidence-IsNativeEvidence total_ext parse "acme" "acme/eu" (pos 100)
      (pos 60) "1.0" (b'{' ∷ []) imported report_imported
