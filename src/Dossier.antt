-- ===== src/Dossier.antt =====
-- src/audit.rs: the values of an audit dossier.
use canonical_company_audito.Prelude.{ℕ, String, Bool, Option, List, ℤ}
use canonical_company_audito.Model.{Severity, FindingStatus, FrameworkMapping, AuditReport}
use canonical_company_audito.Engagement.{
  AuditEngagement, AuditException, EngagementEvent, ManagementResponse, WorkpaperConclusion,
}

abbrev pub dossier_schema : String
dossier_schema = "canonical.audit-dossier/v1"

pub data AuditConclusion : Type 0 where
  satisfactory satisfactory_with_exceptions unsatisfactory incomplete : AuditConclusion

pub data ControlTestStatus : Type 0 where
  satisfactory exception evidence_gap not_reviewed : ControlTestStatus

pub record DossierSummary : Type 0 where
  pub total_controls : ℕ
  pub satisfactory_controls : ℕ
  pub exception_controls : ℕ
  pub evidence_gap_controls : ℕ
  pub not_reviewed_controls : ℕ
  pub evidence_coverage_basis_points : ℕ
  pub review_coverage_basis_points : ℕ
  pub open_evidence_requests : ℕ
  pub total_exceptions : ℕ
  pub open_exceptions : ℕ
  pub management_responses : ℕ

pub record ControlTestResult : Type 0 where
  pub rule_id : String
  pub title : String
  pub category : String
  pub severity : Severity
  pub automated_status : FindingStatus
  pub audit_status : ControlTestStatus
  pub workpaper_id : Option String
  pub design_conclusion : Option WorkpaperConclusion
  pub operating_conclusion : Option WorkpaperConclusion
  pub reviewer_id : Option String
  pub sample_plan_id : Option String
  pub evidence_ids : List String
  pub exception_ids : List String
  pub framework_mappings : List FrameworkMapping

pub record EvidenceIndexEntry : Type 0 where
  pub observation_id : String
  pub external_id : String
  pub evidence_type : String
  pub subject : String
  pub source_kind : String
  pub collected_at : ℤ
  pub valid_until : ℤ
  pub facts_sha256 : String
  pub attested : Bool
  pub referenced_by_rule_ids : List String

pub record ExceptionRecord : Type 0 where
  pub rule_id : String
  pub workpaper_id : String
  pub exception : AuditException
  pub management_response : Option ManagementResponse

pub record AuditTrailEntry : Type 0 where
  pub event : EngagementEvent
  pub previous_entry_sha256 : Option String
  pub entry_sha256 : String

pub record AuditDossier : Type 0 where
  pub schema_version : String
  pub dossier_id : String
  pub engagement_sha256 : String
  pub conclusion : AuditConclusion
  pub engagement : AuditEngagement
  pub readiness_report : AuditReport
  pub summary : DossierSummary
  pub control_results : List ControlTestResult
  pub evidence_index : List EvidenceIndexEntry
  pub exceptions : List ExceptionRecord
  pub audit_trail : List AuditTrailEntry
  pub limitations : List String
