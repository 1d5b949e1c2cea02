-- ===== src/External.antt =====
-- What the program takes from other libraries: serde_json's serialisation of each value that is
-- digested, SHA-256 with its hexadecimal form, and the numbers of JSON. None of it has a definition
-- here: `External` is a parameter of every function that uses it.
use canonical_company_audito.Prelude.{ℕ, ℤ, String, Bool, Option, List}
use canonical_company_audito.Json.{Number, Value}
use canonical_company_audito.Model.{
  CompanyManifest, EvidenceSource, EvidenceObservation, EvidenceBundle, FindingStatus, Finding,
  AssessmentSummary, AuditReport,
}
use canonical_company_audito.Program.{AssessmentProgram}
use canonical_company_audito.Config.{CanonicalAuditConfig}
use canonical_company_audito.Package.{PackageDocumentMetadata}
use canonical_company_audito.Adapters.Receipts.{ReceiptPayload}
use canonical_company_audito.Engagement.{AuditEngagement, EngagementEvent}
use canonical_company_audito.Dossier.{
  AuditConclusion, DossierSummary, ControlTestResult, EvidenceIndexEntry, ExceptionRecord,
  AuditTrailEntry,
}

-- An IEEE 754 double, by its bits; its comparisons are parameters.
pub record F64 : Type 0 where
  pub bits : ℕ

-- src/engine.rs
pub record ReportIdentityCore : Type 0 where
  pub schema_version : String
  pub manifest : CompanyManifest
  pub manifest_sha256 : String
  pub evidence_sha256 : String
  pub program_sha256 : String
  pub summary : AssessmentSummary
  pub findings : List Finding
  pub limitations : List String

-- src/audit.rs
pub record DossierIdentityCore : Type 0 where
  pub schema_version : String
  pub engagement_sha256 : String
  pub conclusion : AuditConclusion
  pub engagement : AuditEngagement
  pub readiness_report : AuditReport
  pub summary : DossierSummary
  pub control_results : List ControlTestResult
  pub evidence_index : List EvidenceIndexEntry
  pub exceptions : List ExceptionRecord
  pub audit_trail : List AuditTrailEntry
  pub limitations : List String

-- src/evidence.rs: the tuple that identifies an observation
pub record ObservationIdentity : Type 0 where
  pub tag : String
  pub tenant_id : String
  pub external_id : String
  pub evidence_type : String
  pub subject : String
  pub source : EvidenceSource
  pub collected_at : ℤ
  pub valid_until : ℤ
  pub facts_sha256 : String
  pub attestation : Option String

-- src/engine.rs: the tuple that identifies a finding
pub record FindingIdentity : Type 0 where
  pub tag : String
  pub tenant_id : String
  pub scope_id : String
  pub rule_id : String
  pub status : FindingStatus
  pub evidence_ids : List String

-- A component of the tuples that the adapters digest.
pub data Part : Type 0 where
  text : String → Part
  optional_text : Option String → Part
  integer : ℤ → Part
  natural : ℕ → Part
  package_documents : List PackageDocumentMetadata → Part

-- The values that the program passes to `digest` or serialises.
pub data Document : Type 0 where
  manifest : CompanyManifest → Document
  bundle : EvidenceBundle → Document
  observation : EvidenceObservation → Document
  facts : List (String × Value) → Document
  observation_identity : ObservationIdentity → Document
  program : AssessmentProgram → Document
  finding_identity : FindingIdentity → Document
  report_core : ReportIdentityCore → Document
  engagement : AuditEngagement → Document
  trail_entry : (tag : String) → (previous : Option String) → EngagementEvent → Document
  dossier_core : DossierIdentityCore → Document
  tuple : List Part → Document
  receipt_payload : ReceiptPayload → Document
  -- `content.as_bytes()`, which serde serialises as an array of numbers
  content_bytes : (content : String) → Document
  config : CanonicalAuditConfig → Document

-- `none` is a serialisation error.
pub record External : Type 0 where
  pub to_value : Document → Option Value
  pub to_vec : Value → Option (List ℕ)
  pub sha256_hex : List ℕ → String
  pub number_eq : Number → Number → Bool
  pub as_f64 : Number → Option F64
  pub f64_ge : F64 → F64 → Bool
  pub f64_le : F64 → F64 → Bool
