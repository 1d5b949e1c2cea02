-- ===== src/Tests/Samples.antt =====
-- A small audit: one rule, one observation and a finalized engagement with one workpaper.
use canonical_company_audito.Prelude.{
  ℕ, String, true, false, Option, none, some, List, [], ◌∷◌, pos, eqb, if◌then◌else◌,
}
use canonical_company_audito.Outcome.{Result, ok, err}
use canonical_company_audito.Json.{Value, null, bool, object, Fields, end, field, of_entries}
use canonical_company_audito.Model.{
  manifest_schema, evidence_schema, AssessmentPeriod, CompanyScope, CompanyManifest, manual,
  EvidenceObservation, EvidenceBundle, AssessmentRequest, high, AuditReport, Finding, pass,
  report_schema,
}
use canonical_company_audito.Program.{program_schema, equals, AssessmentRule, AssessmentProgram}
use canonical_company_audito.Engagement.{
  engagement_schema, full_audit, finalized, audit_lead, auditor, effective, approved,
  AuditException, minor, remediated, ReviewSignoff, Workpaper, ManagementResponse, complete,
  EngagementEvent, AuditEngagement,
}
use canonical_company_audito.Dossier.{
  dossier_schema, AuditDossier, AuditTrailEntry, ExceptionRecord, ControlTestResult, exception,
  unsatisfactory,
}
use canonical_company_audito.Evidence.{SealedObservation, SealedEvidence}
use canonical_company_audito.External.{Document, facts, trail_entry, External}
use canonical_company_audito.Audit.{limitations}

-- The value of a result, with a default for an error.
abbrev pub value_or {ℓ} : {A : Type ℓ} → A → Result A → A
value_or d (ok a) = a
value_or d (err e) = d

-- A serialisation that tells the first entry of a trail from the later ones.
abbrev value_of : Document → Option Value
value_of (trail_entry tag (some previous) event) = some (bool true)
value_of (facts entries) = some (object (of_entries entries))
value_of _ = some null

abbrev bytes_of : Value → Option (List ℕ)
bytes_of (bool b) = some (b't' ∷ [])
bytes_of _ = some (b'n' ∷ [])

abbrev hex_of : List ℕ → String
hex_of (c ∷ []) = if eqb c b't' then "later" else "first"
hex_of _ = "first"

abbrev pub ext : External
ext = record {
  to_value = value_of;
  to_vec = bytes_of;
  sha256_hex = hex_of;
  number_eq = λ a b. true;
  as_f64 = λ n. some (record { bits = 0 });
  f64_ge = λ a b. true;
  f64_le = λ a b. true;
}

-- One object, written in two orders.
abbrev pub one_order : Fields
one_order = field "a" null (field "b" (bool true) end)

abbrev pub other_order : Fields
other_order = field "b" (bool true) (field "a" null end)

abbrev pub nested : Fields → Value
nested fields = object (field "f" (object fields) end)

abbrev pub nested_facts : Fields → Document
nested_facts fields = facts (("f", object fields) ∷ [])

abbrev pub company_scope : CompanyScope
company_scope = record {
  business_units = "Payments" ∷ [];
  systems = [];
  data_classes = [];
  vendors = [];
  jurisdictions = [];
  owners = [];
}

abbrev pub year : AssessmentPeriod
year = record { starts_at = pos 10; ends_at = pos 20 }

abbrev pub company : CompanyManifest
company = record {
  schema_version = manifest_schema;
  tenant_id = "acme";
  scope_id = "acme/eu";
  company_name = "Acme";
  frameworks = "soc2" ∷ [];
  assessment_period = year;
  scope = company_scope;
}

abbrev pub login : EvidenceObservation
login = record {
  external_id = "obs-1";
  evidence_type = "mfa";
  subject = "acme/eu/login";
  source = manual "ann";
  collected_at = pos 15;
  valid_until = pos 30;
  facts = ("enabled", bool true) ∷ [];
  attestation = none;
}

abbrev pub evidence : EvidenceBundle
evidence = record {
  schema_version = evidence_schema;
  tenant_id = "acme";
  scope_id = "acme/eu";
  observations = login ∷ [];
}

abbrev pub request : AssessmentRequest
request = record { manifest = company; evidence = evidence }

abbrev pub rule : AssessmentRule
rule = record {
  id = "r1";
  title = "Login";
  category = "access";
  severity = high;
  evidence_type = "mfa";
  condition = record { fact = "enabled"; operator = equals; expected = bool true };
  framework_mappings = record { framework_id = "soc2"; reference = "CC6" } ∷ [];
  remediation = "Enable it";
}

abbrev pub program : AssessmentProgram
program = record {
  schema_version = program_schema;
  program_id = "base";
  version = "1";
  frameworks =
      record {
        id = "soc2";
        title = "SOC 2";
        version = "1";
        authority = "AICPA";
        source_url = "https://aicpa.org";
        redistribution = "none";
        status_note = "current";
      }
      ∷ [];
  rules = rule ∷ [];
}

abbrev pub slip : AuditException
slip = record {
  exception_id = "x1";
  classification = minor;
  title = "Late";
  description = "One late review";
  evidence_external_ids = "obs-1" ∷ [];
  disposition = remediated;
}

abbrev pub signoff : ReviewSignoff
signoff = record { reviewer_id = "lea"; reviewed_at = pos 18; conclusion = approved; note = "" }

abbrev pub paper : Workpaper
paper = record {
  workpaper_id = "w1";
  rule_id = "r1";
  preparer_id = "bob";
  prepared_at = pos 17;
  procedure_performed = "Looked";
  design_conclusion = effective;
  operating_conclusion = effective;
  evidence_external_ids = "obs-1" ∷ [];
  sample_plan_id = none;
  exceptions = slip ∷ [];
  reviewer_signoff = some signoff;
}

abbrev pub digest_text : String
digest_text = "sha256:0000000000000000000000000000000000000000000000000000000000000000"

abbrev pub event_at : ℕ → EngagementEvent
event_at n = record {
  sequence = n;
  event_type = "opened";
  actor_id = "lea";
  occurred_at = pos 12;
  subject_id = "e1";
  payload_sha256 = digest_text;
}

abbrev pub reply : ManagementResponse
reply = record {
  response_id = "m1";
  exception_id = "x1";
  owner_id = "bob";
  response = "Agreed";
  action_plan = "Done";
  due_at = pos 19;
  status = complete;
}

abbrev pub engaged : AuditEngagement
engaged = record {
  schema_version = engagement_schema;
  engagement_id = "e1";
  tenant_id = "acme";
  scope_id = "acme/eu";
  title = "Audit";
  mode = full_audit;
  phase = finalized;
  period = year;
  framework_ids = "soc2" ∷ [];
  objective = "Check";
  criteria = "SOC 2";
  actors =
      record {
        actor_id = "lea";
        role = audit_lead;
        organization = "Audit";
        display_name = "Lea";
        independent = true;
      }
      ∷ record {
        actor_id = "bob";
        role = auditor;
        organization = "Audit";
        display_name = "Bob";
        independent = true;
      }
      ∷ [];
  milestones = [];
  evidence_requests = [];
  sample_plans = [];
  workpapers = paper ∷ [];
  management_responses = reply ∷ [];
  events = event_at 0 ∷ event_at 1 ∷ [];
  report_recipients = "board" ∷ [];
}

abbrev pub mfa_finding : Finding
mfa_finding = record {
  finding_id = "sha256:first";
  rule_id = "r1";
  title = "Login";
  category = "access";
  severity = high;
  status = pass;
  subject = "acme/eu/login";
  summary = "Current evidence satisfied the deterministic test.";
  evidence_ids = "sha256:first" ∷ [];
  framework_mappings = rule.framework_mappings;
  remediation = "Enable it";
}

abbrev pub report : AuditReport
report = record {
  schema_version = report_schema;
  report_id = "sha256:first";
  manifest_sha256 = "sha256:first";
  evidence_sha256 = "sha256:first";
  program_sha256 = "sha256:first";
  manifest = company;
  summary = record { passed = 1; failed = 0; unknown = 0; high_or_critical = 0 };
  findings = mfa_finding ∷ [];
  limitations =
      "This readiness assessment is not a certification, legal opinion, regulatory determination, or independent auditor attestation."
      ∷ "Framework mappings are directional aids; they do not assert equivalence between standards or replace authoritative source material."
      ∷ "The engine evaluated normalized evidence supplied for the declared tenant, scope, period, and program; it did not independently prove completeness."
      ∷ "AI-generated narrative must cite finding and evidence identifiers and cannot alter finding status or become audit evidence."
      ∷ [];
}

abbrev pub sealed_login : SealedObservation
sealed_login = record {
  observation_id = "sha256:first";
  facts_sha256 = "sha256:first";
  input = login;
}

abbrev pub sealed : SealedEvidence
sealed = record { evidence_sha256 = "sha256:first"; observations = sealed_login ∷ [] }

abbrev pub control : ControlTestResult
control = record {
  rule_id = "r1";
  title = "Login";
  category = "access";
  severity = high;
  automated_status = pass;
  audit_status = exception;
  workpaper_id = some "w1";
  design_conclusion = some effective;
  operating_conclusion = some effective;
  reviewer_id = some "lea";
  sample_plan_id = none;
  evidence_ids = "sha256:first" ∷ [];
  exception_ids = "x1" ∷ [];
  framework_mappings = rule.framework_mappings;
}

abbrev pub slip_record : ExceptionRecord
slip_record = record {
  rule_id = "r1";
  workpaper_id = "w1";
  exception = slip;
  management_response = some reply;
}

abbrev pub first_entry : AuditTrailEntry
first_entry = record {
  event = event_at 0;
  previous_entry_sha256 = none;
  entry_sha256 = "sha256:first";
}

abbrev pub second_entry : AuditTrailEntry
second_entry = record {
  event = event_at 1;
  previous_entry_sha256 = some "sha256:first";
  entry_sha256 = "sha256:later";
}

abbrev pub trail : List AuditTrailEntry
trail = first_entry ∷ second_entry ∷ []

abbrev pub dossier : AuditDossier
dossier = record {
  schema_version = dossier_schema;
  dossier_id = "sha256:first";
  engagement_sha256 = "sha256:first";
  conclusion = unsatisfactory;
  engagement = engaged;
  readiness_report = report;
  summary = record {
    total_controls = 1;
    satisfactory_controls = 0;
    exception_controls = 1;
    evidence_gap_controls = 0;
    not_reviewed_controls = 0;
    evidence_coverage_basis_points = 10000;
    review_coverage_basis_points = 10000;
    open_evidence_requests = 0;
    total_exceptions = 1;
    open_exceptions = 0;
    management_responses = 1;
  };
  control_results = control ∷ [];
  evidence_index =
      record {
        observation_id = "sha256:first";
        external_id = "obs-1";
        evidence_type = "mfa";
        subject = "acme/eu/login";
        source_kind = "manual";
        collected_at = pos 15;
        valid_until = pos 30;
        facts_sha256 = "sha256:first";
        attested = false;
        referenced_by_rule_ids = "r1" ∷ [];
      }
      ∷ [];
  exceptions = slip_record ∷ [];
  audit_trail = trail;
  limitations = limitations engaged;
}
