-- ===== src/Engagement/Record.antt =====
-- src/engagement.rs: the responses, the events, finalization, and the whole validation.
use canonical_company_audito.Prelude.{
  ℕ, ◌+◌, String, Bool, true, false, not, ◌&&◌, ◌||◌, ◌==◌, List, [], ◌∷◌, ◌++◌, map, eqb, any,
  is_empty, is_some, ℤ-discrete, flat_map, same,
}
use canonical_company_audito.Outcome.{
  AuditError, Result, ok, invalid, unsupported_version, scope_denied, reject_if, ◌>>=◌, ◌>>◌,
  for_each,
}
use canonical_company_audito.Collections.{contains, set_of}
use canonical_company_audito.Collections.Unique.{for_unique}
use canonical_company_audito.Model.{AssessmentPeriod, CompanyManifest, EvidenceBundle}
use canonical_company_audito.Program.{AssessmentProgram}
use canonical_company_audito.Engagement.{
  engagement_schema, Workpaper, ManagementResponse, EngagementEvent, AuditEngagement,
}
use canonical_company_audito.Engagement.Checks.{
  identifier, scope, text, period, timestamp, digest, unique_identifiers, unique_text, unique_by,
  require_actor,
}
use canonical_company_audito.Engagement.Validate.{
  Actors, is_settled, is_not_tested, is_finalized, is_full_audit, is_signed_off, may_review,
  validate_actors, validate_milestones, validate_requests,
}
use canonical_company_audito.Engagement.Fieldwork.{validate_sample_plans, validate_workpapers}

abbrev pub repeated_response : AuditError
repeated_response = invalid "managementResponses" "only one response is allowed per exception"

unfoldable pub check_response_target : List String → ManagementResponse → Result (Unit {0})
check_response_target exception_ids r = do
  identifier "responseId" r.response_id
  reject_if (not (contains r.exception_id exception_ids))
      (invalid "exceptionId" "management response references unknown exception")

unfoldable pub check_response : Actors → ManagementResponse → Result (Unit {0})
check_response actors r = do
  require_actor actors r.owner_id "management response owner"
  text "management response" r.response 8000
  text "actionPlan" r.action_plan 8000
  timestamp "response dueAt" r.due_at

unfoldable pub validate_responses : AuditEngagement → Actors → List String → Result (List String)
validate_responses e actors exception_ids = do
  _ ← unique_by (λ r. r.response_id) "managementResponses" e.management_responses 10000
  for_unique (λ r. r.exception_id) (check_response_target exception_ids) repeated_response
      (check_response actors) [] e.management_responses

-- `(0_u64..).zip(events)`
unfoldable pub validate_events_from : Actors → ℕ → List EngagementEvent → Result (Unit {0})
validate_events_from actors expected [] = ok tt
validate_events_from actors expected (event ∷ events) = do
  reject_if (not (eqb event.sequence expected))
      (invalid "events" "sequences must be contiguous and start at zero")
  identifier "eventType" event.event_type
  require_actor actors event.actor_id "event actor"
  timestamp "event occurredAt" event.occurred_at
  identifier "event subjectId" event.subject_id
  digest "payloadSha256" event.payload_sha256
  validate_events_from actors (expected + 1) events

unfoldable pub validate_events : AuditEngagement → Actors → Result (Unit {0})
unfolding validate_events_from
validate_events e actors = validate_events_from actors 0 e.events

unfoldable pub validate_finalized_workpaper : List String → Workpaper → Result (Unit {0})
validate_finalized_workpaper responses w = do
  reject_if
      (is_not_tested w.design_conclusion
        || is_not_tested w.operating_conclusion
        || not (is_signed_off w.reviewer_signoff))
      (invalid "workpapers" "finalized workpapers require completed testing and approval")
  for_each
      (λ x.
        reject_if (not (contains x.exception_id responses))
          (invalid "managementResponses" "every finalized exception needs a response"))
      w.exceptions

unfoldable pub validate_finalized : AuditEngagement → List String → Result (Unit {0})
validate_finalized e responses = do
  reject_if (is_empty e.report_recipients)
      (invalid "reportRecipients" "a finalized audit requires recipients")
  reject_if (any (λ m. not (is_some m.completed_at)) e.milestones)
      (invalid "milestones" "all finalized milestones must be complete")
  reject_if (any (λ r. not (is_settled r.status)) e.evidence_requests)
      (invalid "evidenceRequests" "all finalized requests must be accepted or closed")
  for_each (validate_finalized_workpaper responses) e.workpapers
  reject_if (is_full_audit e.mode && not (any (λ a. a.independent && may_review a.role) e.actors))
      (invalid "actors" "a finalized full audit requires an independent lead or reviewer")

-- `if condition { check?; }`
abbrev pub only_if : Bool → Result (Unit {0}) → Result (Unit {0})
only_if true check = check
only_if false check = ok tt

-- `AuditEngagement::validate`
unfoldable pub validate_engagement : AuditEngagement → Result (Unit {0})
validate_engagement e = do
  reject_if (not (e.schema_version == engagement_schema)) (unsupported_version e.schema_version)
  identifier "engagementId" e.engagement_id
  identifier "tenantId" e.tenant_id
  scope "scopeId" e.scope_id
  text "title" e.title 240
  text "objective" e.objective 2000
  text "criteria" e.criteria 2000
  period e.period
  unique_identifiers "frameworkIds" e.framework_ids 64 false
  unique_text "reportRecipients" e.report_recipients 128 true
  actors ← validate_actors e
  validate_milestones e
  validate_requests e actors
  plans ← validate_sample_plans e
  exceptions ← validate_workpapers e actors plans
  responses ← validate_responses e actors exceptions
  validate_events e actors
  only_if (is_finalized e.phase) (validate_finalized e responses)

-- the rules that the engagement names, in the order of the chain
abbrev pub named_rules : AuditEngagement → List String
named_rules e =
    flat_map (λ r. r.rule_ids) e.evidence_requests
    ++ (map (λ s. s.rule_id) e.sample_plans ++ map (λ w. w.rule_id) e.workpapers)

-- the evidence that the engagement names, in the order of the chain
abbrev pub named_evidence : AuditEngagement → List String
named_evidence e =
    flat_map (λ r. r.evidence_external_ids) e.evidence_requests
    ++ (flat_map (λ w. w.evidence_external_ids) e.workpapers
        ++ flat_map (λ x. x.evidence_external_ids) (flat_map (λ w. w.exceptions) e.workpapers))

abbrev pub lists_eq : List String → List String → Bool
lists_eq [] [] = true
lists_eq (a ∷ as') (b ∷ bs) = a == b && lists_eq as' bs
lists_eq _ _ = false

-- the derived `==` on periods
abbrev pub period_eq : AssessmentPeriod → AssessmentPeriod → Bool
period_eq a b = same ℤ-discrete a.starts_at b.starts_at && same ℤ-discrete a.ends_at b.ends_at

unfoldable pub matches_manifest : AuditEngagement → CompanyManifest → Bool
matches_manifest e m =
    e.tenant_id == m.tenant_id
    && e.scope_id == m.scope_id
    && period_eq e.period m.assessment_period
    && lists_eq e.framework_ids m.frameworks

-- `AuditEngagement::validate_against`
unfoldable pub validate_against :
    AuditEngagement → CompanyManifest → EvidenceBundle → AssessmentProgram → Result (Unit {0})
validate_against e m evidence program = do
  validate_engagement e
  reject_if (not (matches_manifest e m)) scope_denied
  let rule_ids = set_of [] (map (λ r. r.id) program.rules)
  for_each
      (λ id.
        reject_if (not (contains id rule_ids))
          (invalid "ruleId" "references a rule outside the assessment program"))
      (named_rules e)
  let external_ids = set_of [] (map (λ o. o.external_id) evidence.observations)
  for_each
      (λ id.
        reject_if (not (contains id external_ids))
          (invalid "evidenceExternalId" "references absent evidence"))
      (named_evidence e)
  only_if (is_finalized e.phase) (
      reject_if (not (lists_eq (set_of [] (map (λ w. w.rule_id) e.workpapers)) rule_ids))
        (invalid "workpapers" "a finalized audit requires every rule to be tested"))
