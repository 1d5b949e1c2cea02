-- ===== src/Model.antt =====
-- src/model.rs: the manifest, the evidence, the findings and the report.
pub mod Checks
pub mod Scope
pub mod Validate
pub mod Accepted
pub mod Boundary
use canonical_company_audito.Prelude.{ℕ, String, Option, List, ℤ}
use canonical_company_audito.Json.{Value}

abbrev pub manifest_schema : String
manifest_schema = "canonical.company-audit/v1"

abbrev pub evidence_schema : String
evidence_schema = "canonical.evidence-bundle/v1"

abbrev pub report_schema : String
report_schema = "canonical.audit-report/v1"

pub record AssessmentPeriod : Type 0 where
  pub starts_at : ℤ
  pub ends_at : ℤ

pub record CompanyScope : Type 0 where
  pub business_units : List String
  pub systems : List String
  pub data_classes : List String
  pub vendors : List String
  pub jurisdictions : List String
  pub owners : List String

pub record CompanyManifest : Type 0 where
  pub schema_version : String
  pub tenant_id : String
  pub scope_id : String
  pub company_name : String
  pub frameworks : List String
  pub assessment_period : AssessmentPeriod
  pub scope : CompanyScope

pub data EvidenceSource : Type 0 where
  manual : (submitted_by : String) → EvidenceSource
  connector : (connector adapter_version : String) → EvidenceSource
  runtime_probe : (runtime probe_version : String) → EvidenceSource

-- `facts` is a `BTreeMap`: its entries stand in key order.
pub record EvidenceObservation : Type 0 where
  pub external_id : String
  pub evidence_type : String
  pub subject : String
  pub source : EvidenceSource
  pub collected_at : ℤ
  pub valid_until : ℤ
  pub facts : List (String × Value)
  pub attestation : Option String

pub record EvidenceBundle : Type 0 where
  pub schema_version : String
  pub tenant_id : String
  pub scope_id : String
  pub observations : List EvidenceObservation

pub record AssessmentRequest : Type 0 where
  pub manifest : CompanyManifest
  pub evidence : EvidenceBundle

pub data Severity : Type 0 where
  info low medium high critical : Severity

-- The derived order of `Severity`.
abbrev pub rank : Severity → ℕ
rank info = 0
rank low = 1
rank medium = 2
rank high = 3
rank critical = 4

pub data FindingStatus : Type 0 where
  pass fail unknown : FindingStatus

pub record FrameworkMapping : Type 0 where
  pub framework_id : String
  pub reference : String

pub record Finding : Type 0 where
  pub finding_id : String
  pub rule_id : String
  pub title : String
  pub category : String
  pub severity : Severity
  pub status : FindingStatus
  pub subject : String
  pub summary : String
  pub evidence_ids : List String
  pub framework_mappings : List FrameworkMapping
  pub remediation : String

pub record AssessmentSummary : Type 0 where
  pub passed : ℕ
  pub failed : ℕ
  pub unknown : ℕ
  pub high_or_critical : ℕ

pub record AuditReport : Type 0 where
  pub schema_version : String
  pub report_id : String
  pub manifest_sha256 : String
  pub evidence_sha256 : String
  pub program_sha256 : String
  pub manifest : CompanyManifest
  pub summary : AssessmentSummary
  pub findings : List Finding
  pub limitations : List String
