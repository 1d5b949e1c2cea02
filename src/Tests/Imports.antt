-- ===== src/Tests/Imports.antt =====
-- The theorems on the adapters, on a scan with one finding and on the receipt of one case.
use canonical_company_audito.Prelude.{
  ℕ, ◌≡◌, refl, pos, String, true, Option, none, some, is_some, List, [], ◌∷◌, length, count, All,
  ◌≤ℤ◌, ◌+ℤ◌, checked_add,
}
use canonical_company_audito.Outcome.{Result, ok, map_result}
use canonical_company_audito.Text.{
  bytes, len, trim_start, trim_end, trim, starts_with, ends_with, strip_prefix, split, split_once,
  compare, lt, le, decimal,
}
use canonical_company_audito.Collections.{get, insert, collect_into, contains, set_insert}
use canonical_company_audito.Collections.Unique.{for_unique}
use canonical_company_audito.Json.{Value, null, string}
use canonical_company_audito.Model.{evidence_schema, EvidenceBundle}
use canonical_company_audito.Model.Checks.{validate_identifier, validate_scope, validate_text}
use canonical_company_audito.Model.Validate.{
  validate_source, validate_attestation, validate_observation, validate_bundle,
}
use canonical_company_audito.External.{External, Document, text, tuple}
use canonical_company_audito.Evidence.{canonicalize, canonical_json_bytes, sha256, digest}
use canonical_company_audito.Adapters.{freshness_end}
use canonical_company_audito.Adapters.Scan.{
  ExternalFinding, ExternalScanReport, EvidenceContext, max_validity_seconds, validate_report,
  validate_finding_text, validate_finding, finding_facts, finding_observation, parse_report,
  external_scan_to_evidence,
}
use canonical_company_audito.Adapters.Scan as Scan
use canonical_company_audito.Adapters.Scanned.{
  IsApproved, IsScanEvidence, external_scan_to_evidence-IsScanEvidence,
}
use canonical_company_audito.Adapters.Signals.{
  severity_rank, choose_higher, required_fact, optional_fact, Signal, absorb, add_signal,
  finding_fingerprint, scanner_finding_fingerprint, signal_from, signal_of, summarize_observation,
  ScannerResourceSignals, summarize_scanner_resources,
}
use canonical_company_audito.Adapters.Facts.{IsNamed}
use canonical_company_audito.Adapters.Grouped.{total, CoveredIf, summarize_scanner_resources-covers}
use canonical_company_audito.Adapters.Composed.{
  external_scan_to_evidence-summarize_scanner_resources,
}
use canonical_company_audito.Adapters.Receipts.{
  AgentEvalEvidenceContext, AgentEvalCaseResult, passed, AgentEvalReceipt,
}
use canonical_company_audito.Adapters.AgentEval.{
  safe_repo_segment, validate_repository, validate_git_sha, validate_sha256, validate_case_result,
  validate_binding, validate_fields, validate_cases, receipt_payload_sha256, validate_receipt,
  receipt_schema, receipt_kind,
}
use canonical_company_audito.Adapters.AgentEval as Agent_eval
use canonical_company_audito.Adapters.AgentRuns.{
  case_facts, case_observation, agent_eval_receipt_to_evidence,
}
use canonical_company_audito.Adapters.AgentRuns as Agent_runs
use canonical_company_audito.Adapters.AgentReceipts.{
  IsReceiptFor, IsReceiptEvidence, agent_eval_receipt_to_evidence-IsReceiptFor,
}
use canonical_company_audito.Tests.Samples.{value_or}

abbrev zeros : String
zeros = "0000000000000000000000000000000000000000000000000000000000000000"

abbrev revision : String
revision = "0123456789abcdef0123456789abcdef01234567"

-- A serialisation that never fails and tells tuples apart by the length of their first text.
abbrev value_of : Document → Value
value_of (tuple (text tag ∷ parts)) = string tag
value_of _ = null

abbrev bytes_of : Value → List ℕ
bytes_of (string s) = bytes s
bytes_of _ = []

abbrev hex_of : List ℕ → String
hex_of [] = zeros
hex_of (c ∷ cs) = decimal (length cs)

abbrev pub total_ext : External
total_ext = record {
  to_value = λ d. some (value_of d);
  to_vec = λ v. some (bytes_of v);
  sha256_hex = hex_of;
  number_eq = λ a b. true;
  as_f64 = λ n. some (record { bits = 0 });
  f64_ge = λ a b. true;
  f64_le = λ a b. true;
}

digests : (d : Document) → (x : String) × (digest total_ext d ≡ ok x)
unfolding digest sha256 canonical_json_bytes canonicalize
digests d = (_, refl)

abbrev pub empty_bundle : EvidenceBundle
empty_bundle = record {
  schema_version = evidence_schema;
  tenant_id = "acme";
  scope_id = "acme/eu";
  observations = [];
}

abbrev open_port : ExternalFinding
open_port = record {
  id = "f-1";
  severity = "high";
  title = "Open port";
  detail = "22";
  resource = some "vm-1";
}

abbrev scan : ExternalScanReport
scan = record {
  tool = "trivy";
  provider = some "aws";
  status = "completed";
  read_only = true;
  exit_code = some (pos 0);
  counts = record {
    passed = 1;
    failed = 1;
    warning = 0;
    skipped = 0;
    informational = 0;
    total_records = 2;
  };
  findings = open_port ∷ [];
}

abbrev parse_scan : List ℕ → Option ExternalScanReport
parse_scan _ = some scan

abbrev import_scan : Result EvidenceBundle
import_scan =
    external_scan_to_evidence total_ext parse_scan "acme" "acme/eu" (pos 100) (pos 60) "1.0"
      (b'{' ∷ [])

abbrev scanned : EvidenceBundle
scanned = value_or empty_bundle import_scan

scan_imported : import_scan ≡ ok scanned
unfolding bytes len trim_start trim_end trim starts_with ends_with strip_prefix split insert
    contains set_insert for_unique validate_identifier validate_scope validate_text validate_source
    collect_into get validate_attestation validate_observation validate_bundle canonicalize
    canonical_json_bytes sha256 digest decimal freshness_end checked_add ◌+ℤ◌ validate_report
    validate_finding_text validate_finding Scan.run_facts finding_facts Scan.run_observation
    finding_observation parse_report external_scan_to_evidence lt
scan_imported = refl

external_scan_to_evidence-IsScanEvidence_example :
    (r : ExternalScanReport) × (parse_scan (b'{' ∷ []) ≡ some r)
    × IsApproved r
    × (pos 60 ≤ℤ max_validity_seconds)
    × IsScanEvidence
        (record {
          tenant_id = "acme";
          scope_id = "acme/eu";
          collected_at = pos 100;
          valid_until = pos 100 +ℤ pos 60;
        })
        "1.0"
        r
        scanned
external_scan_to_evidence-IsScanEvidence_example =
    external_scan_to_evidence-IsScanEvidence total_ext parse_scan "acme" "acme/eu" (pos 100)
      (pos 60) "1.0" (b'{' ∷ []) scanned scan_imported

abbrev rows : List ScannerResourceSignals
rows = value_or [] (summarize_scanner_resources total_ext scanned)

scan_summarized : summarize_scanner_resources total_ext scanned ≡ ok rows
unfolding bytes len trim_start trim_end trim starts_with ends_with strip_prefix split insert
    contains set_insert for_unique validate_identifier validate_scope validate_text validate_source
    collect_into get validate_attestation validate_observation validate_bundle canonicalize
    canonical_json_bytes sha256 digest decimal freshness_end checked_add ◌+ℤ◌ validate_report
    validate_finding_text validate_finding Scan.run_facts finding_facts Scan.run_observation
    finding_observation parse_report external_scan_to_evidence lt severity_rank choose_higher
    required_fact optional_fact absorb add_signal finding_fingerprint scanner_finding_fingerprint
    signal_from signal_of summarize_observation summarize_scanner_resources compare le
scan_summarized = refl

summarize_scanner_resources-covers_example :
    (signals : List (Option Signal)) × (map_result (signal_of total_ext) scanned.observations
      ≡ ok signals)
    × (total rows ≡ count is_some signals)
    × All (CoveredIf rows) signals
summarize_scanner_resources-covers_example =
    summarize_scanner_resources-covers total_ext scanned rows scan_summarized

resource-IsNamed : IsNamed (some "vm-1")
resource-IsNamed = refl

provider-IsNamed : IsNamed (some "aws")
provider-IsNamed = refl

external_scan_to_evidence-summarize_scanner_resources_example :
    (rows : List ScannerResourceSignals) × (summarize_scanner_resources total_ext scanned ≡ ok rows)
    × (total rows ≡ count (λ f. is_some f.resource) scan.findings)
external_scan_to_evidence-summarize_scanner_resources_example =
    external_scan_to_evidence-summarize_scanner_resources total_ext parse_scan digests "acme"
      "acme/eu" (pos 100) (pos 60) "1.0" (b'{' ∷ []) scan scanned refl provider-IsNamed
      (resource-IsNamed, tt) scan_imported

abbrev case_passed : AgentEvalCaseResult
case_passed = record {
  case_id = "case-1";
  status = passed;
  candidate_tree_sha = some revision;
  verifier_receipt_sha256 = some zeros;
  duration_ms = 10;
  tool_calls = 2;
  retry_count = 0;
  input_tokens = none;
  output_tokens = none;
  observed_cost_usd_micros = none;
}

abbrev receipt : AgentEvalReceipt
receipt = record {
  kind = receipt_kind;
  schema_version = receipt_schema;
  repository = "acme/tool";
  base_sha = revision;
  benchmark_suite = "suite";
  benchmark_suite_version = "1";
  benchmark_suite_sha256 = zeros;
  harness = "harness";
  harness_version = "1";
  harness_sha256 = zeros;
  agent = "agent";
  model = "model";
  provider = "provider";
  environment_identity = "linux";
  toolchain_identity = "rust";
  case_results = case_passed ∷ [];
  declared_case_count = 1;
  executed_case_count = 1;
  passing_case_count = 1;
  non_passing_case_count = 0;
  result_artifact_sha256 = [];
  receipt_sha256 = zeros;
}

abbrev parse_receipt : List ℕ → Option AgentEvalReceipt
parse_receipt _ = some receipt

abbrev eval_context : AgentEvalEvidenceContext
eval_context = record {
  tenant_id = "acme";
  scope_id = "acme/eu";
  expected_repository = "acme/tool";
  expected_base_sha = revision;
  collected_at = pos 100;
  valid_for_seconds = pos 60;
  adapter_version = "1.0";
}

abbrev import_receipt : Result EvidenceBundle
import_receipt = agent_eval_receipt_to_evidence total_ext parse_receipt eval_context (b'{' ∷ [])

abbrev evaluated : EvidenceBundle
evaluated = value_or empty_bundle import_receipt

receipt_imported : import_receipt ≡ ok evaluated
unfolding bytes len trim_start trim_end trim starts_with ends_with strip_prefix split split_once
    insert contains set_insert for_unique validate_identifier validate_scope
    Agent_eval.validate_text validate_text validate_source collect_into get validate_attestation
    validate_observation validate_bundle canonicalize canonical_json_bytes sha256 digest decimal
    freshness_end checked_add ◌+ℤ◌ lt safe_repo_segment validate_repository validate_git_sha
    validate_sha256 validate_case_result validate_binding validate_fields validate_cases
    receipt_payload_sha256 validate_receipt case_facts Agent_runs.run_facts
    Agent_runs.run_observation case_observation agent_eval_receipt_to_evidence
receipt_imported = refl

agent_eval_receipt_to_evidence-IsReceiptFor_example :
    (r : AgentEvalReceipt) × (parse_receipt (b'{' ∷ []) ≡ some r)
    × IsReceiptFor total_ext eval_context r
    × IsReceiptEvidence total_ext eval_context r evaluated
agent_eval_receipt_to_evidence-IsReceiptFor_example =
    agent_eval_receipt_to_evidence-IsReceiptFor total_ext parse_receipt eval_context (b'{' ∷ [])
      evaluated receipt_imported
