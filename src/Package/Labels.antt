-- ===== src/Package/Labels.antt =====
-- src/package.rs: `label` of each enumeration, its serialised name in snake case.
use canonical_company_audito.Prelude.{String}
use canonical_company_audito.Model.{Severity, FindingStatus}
use canonical_company_audito.Dossier.{AuditConclusion, ControlTestStatus}
use canonical_company_audito.Engagement.{
  EngagementMode, EngagementPhase, RequestStatus, SamplingMethod, WorkpaperConclusion,
  ReviewConclusion, ExceptionClassification, ExceptionDisposition, ResponseStatus,
}

-- `{severity}`
abbrev pub severity_name : Severity → String
severity_name Severity.info = "info"
severity_name Severity.low = "low"
severity_name Severity.medium = "medium"
severity_name Severity.high = "high"
severity_name Severity.critical = "critical"

abbrev pub finding_status_label : FindingStatus → String
finding_status_label FindingStatus.pass = "pass"
finding_status_label FindingStatus.fail = "fail"
finding_status_label FindingStatus.unknown = "unknown"

abbrev pub conclusion_label : AuditConclusion → String
conclusion_label AuditConclusion.satisfactory = "satisfactory"
conclusion_label AuditConclusion.satisfactory_with_exceptions = "satisfactory_with_exceptions"
conclusion_label AuditConclusion.unsatisfactory = "unsatisfactory"
conclusion_label AuditConclusion.incomplete = "incomplete"

abbrev pub control_status_label : ControlTestStatus → String
control_status_label ControlTestStatus.satisfactory = "satisfactory"
control_status_label ControlTestStatus.exception = "exception"
control_status_label ControlTestStatus.evidence_gap = "evidence_gap"
control_status_label ControlTestStatus.not_reviewed = "not_reviewed"

abbrev pub mode_label : EngagementMode → String
mode_label EngagementMode.dress_rehearsal = "dress_rehearsal"
mode_label EngagementMode.full_audit = "full_audit"

abbrev pub phase_label : EngagementPhase → String
phase_label EngagementPhase.planning = "planning"
phase_label EngagementPhase.fieldwork = "fieldwork"
phase_label EngagementPhase.review = "review"
phase_label EngagementPhase.management_response = "management_response"
phase_label EngagementPhase.finalized = "finalized"

abbrev pub request_label : RequestStatus → String
request_label RequestStatus.opened = "open"
request_label RequestStatus.submitted = "submitted"
request_label RequestStatus.accepted = "accepted"
request_label RequestStatus.rejected = "rejected"
request_label RequestStatus.closed = "closed"

abbrev pub sampling_label : SamplingMethod → String
sampling_label SamplingMethod.full_population = "full_population"
sampling_label SamplingMethod.random = "random"
sampling_label SamplingMethod.systematic = "systematic"
sampling_label SamplingMethod.judgmental = "judgmental"

abbrev pub workpaper_label : WorkpaperConclusion → String
workpaper_label WorkpaperConclusion.effective = "effective"
workpaper_label WorkpaperConclusion.ineffective = "ineffective"
workpaper_label WorkpaperConclusion.not_tested = "not_tested"
workpaper_label WorkpaperConclusion.not_applicable = "not_applicable"

abbrev pub review_label : ReviewConclusion → String
review_label ReviewConclusion.approved = "approved"
review_label ReviewConclusion.changes_requested = "changes_requested"

abbrev pub classification_label : ExceptionClassification → String
classification_label ExceptionClassification.observation = "observation"
classification_label ExceptionClassification.minor = "minor"
classification_label ExceptionClassification.major = "major"

abbrev pub disposition_label : ExceptionDisposition → String
disposition_label ExceptionDisposition.opened = "open"
disposition_label ExceptionDisposition.remediated = "remediated"
disposition_label ExceptionDisposition.risk_accepted = "risk_accepted"
disposition_label ExceptionDisposition.compensating_control = "compensating_control"

abbrev pub response_label : ResponseStatus → String
response_label ResponseStatus.planned = "planned"
response_label ResponseStatus.in_progress = "in_progress"
response_label ResponseStatus.complete = "complete"
response_label ResponseStatus.risk_accepted = "risk_accepted"
