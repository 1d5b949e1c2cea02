-- ===== src/Engagement.antt =====
-- src/engagement.rs: the engagement record.
pub mod Checks
pub mod Validate
pub mod Fieldwork
pub mod Record
pub mod Accepted
pub mod Fields
pub mod Reviewed
pub mod Finalized
pub mod Against
use canonical_company_audito.Prelude.{ℕ, String, Bool, Option, List, ℤ}
use canonical_company_audito.Model.{AssessmentPeriod}

abbrev pub engagement_schema : String
engagement_schema = "canonical.audit-engagement/v1"

pub data EngagementMode : Type 0 where
  dress_rehearsal full_audit : EngagementMode

pub data EngagementPhase : Type 0 where
  planning fieldwork review management_response finalized : EngagementPhase

pub data ActorRole : Type 0 where
  audit_lead auditor reviewer control_owner evidence_owner executive : ActorRole

-- `open` is reserved here: `Open` of the source is `opened`.
pub data RequestStatus : Type 0 where
  opened submitted accepted rejected closed : RequestStatus

pub data SamplingMethod : Type 0 where
  full_population random systematic judgmental : SamplingMethod

pub data WorkpaperConclusion : Type 0 where
  effective ineffective not_tested not_applicable : WorkpaperConclusion

pub data ReviewConclusion : Type 0 where
  approved changes_requested : ReviewConclusion

pub data ExceptionClassification : Type 0 where
  observation minor major : ExceptionClassification

pub data ExceptionDisposition : Type 0 where
  opened remediated risk_accepted compensating_control : ExceptionDisposition

pub data ResponseStatus : Type 0 where
  planned in_progress complete risk_accepted : ResponseStatus

pub record EngagementActor : Type 0 where
  pub actor_id : String
  pub role : ActorRole
  pub organization : String
  pub display_name : String
  pub independent : Bool

pub record AuditMilestone : Type 0 where
  pub milestone_id : String
  pub title : String
  pub due_at : ℤ
  pub completed_at : Option ℤ

pub record EvidenceRequest : Type 0 where
  pub request_id : String
  pub title : String
  pub rule_ids : List String
  pub owner_id : String
  pub due_at : ℤ
  pub status : RequestStatus
  pub evidence_external_ids : List String
  pub auditor_note : String

pub record SamplePlan : Type 0 where
  pub sample_plan_id : String
  pub rule_id : String
  pub population_id : String
  pub population_size : ℕ
  pub method : SamplingMethod
  pub sample_size : ℕ
  pub selected_item_fingerprints : List String
  pub rationale : String

pub record AuditException : Type 0 where
  pub exception_id : String
  pub classification : ExceptionClassification
  pub title : String
  pub description : String
  pub evidence_external_ids : List String
  pub disposition : ExceptionDisposition

pub record ReviewSignoff : Type 0 where
  pub reviewer_id : String
  pub reviewed_at : ℤ
  pub conclusion : ReviewConclusion
  pub note : String

pub record Workpaper : Type 0 where
  pub workpaper_id : String
  pub rule_id : String
  pub preparer_id : String
  pub prepared_at : ℤ
  pub procedure_performed : String
  pub design_conclusion : WorkpaperConclusion
  pub operating_conclusion : WorkpaperConclusion
  pub evidence_external_ids : List String
  pub sample_plan_id : Option String
  pub exceptions : List AuditException
  pub reviewer_signoff : Option ReviewSignoff

pub record ManagementResponse : Type 0 where
  pub response_id : String
  pub exception_id : String
  pub owner_id : String
  pub response : String
  pub action_plan : String
  pub due_at : ℤ
  pub status : ResponseStatus

pub record EngagementEvent : Type 0 where
  pub sequence : ℕ
  pub event_type : String
  pub actor_id : String
  pub occurred_at : ℤ
  pub subject_id : String
  pub payload_sha256 : String

pub record AuditEngagement : Type 0 where
  pub schema_version : String
  pub engagement_id : String
  pub tenant_id : String
  pub scope_id : String
  pub title : String
  pub mode : EngagementMode
  pub phase : EngagementPhase
  pub period : AssessmentPeriod
  pub framework_ids : List String
  pub objective : String
  pub criteria : String
  pub actors : List EngagementActor
  pub milestones : List AuditMilestone
  pub evidence_requests : List EvidenceRequest
  pub sample_plans : List SamplePlan
  pub workpapers : List Workpaper
  pub management_responses : List ManagementResponse
  pub events : List EngagementEvent
  pub report_recipients : List String
