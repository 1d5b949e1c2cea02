-- ===== src/Engagement/Validate.antt =====
-- src/engagement.rs: the actors, the milestones and the evidence requests.
use canonical_company_audito.Prelude.{
  String, Bool, true, false, not, ◌&&◌, Option, none, some, List, any, is_empty, ℤ,
}
use canonical_company_audito.Outcome.{Result, ok, invalid, reject_if, ◌>>=◌, ◌>>◌, for_each}
use canonical_company_audito.Engagement.{
  EngagementMode, full_audit, EngagementPhase, finalized, ActorRole, audit_lead, reviewer,
  RequestStatus, accepted, closed, SamplingMethod, full_population, WorkpaperConclusion, not_tested,
  ReviewConclusion, approved, EngagementActor, EvidenceRequest, SamplePlan, ReviewSignoff,
  AuditEngagement,
}
use canonical_company_audito.Engagement.Checks.{
  identifier, text, optional_text, timestamp, unique_identifiers, unique_by, require_actor,
}

abbrev pub Actors : Type 0
Actors = List (String × EngagementActor)

abbrev pub Plans : Type 0
Plans = List (String × SamplePlan)

abbrev pub is_audit_lead : ActorRole → Bool
is_audit_lead audit_lead = true
is_audit_lead _ = false

-- `AuditLead | Reviewer`
abbrev pub may_review : ActorRole → Bool
may_review audit_lead = true
may_review reviewer = true
may_review _ = false

-- `Accepted | Closed`
abbrev pub is_settled : RequestStatus → Bool
is_settled accepted = true
is_settled closed = true
is_settled _ = false

abbrev pub is_full_population : SamplingMethod → Bool
is_full_population full_population = true
is_full_population _ = false

abbrev pub is_not_tested : WorkpaperConclusion → Bool
is_not_tested not_tested = true
is_not_tested _ = false

abbrev pub is_finalized : EngagementPhase → Bool
is_finalized finalized = true
is_finalized _ = false

abbrev pub is_full_audit : EngagementMode → Bool
is_full_audit full_audit = true
is_full_audit _ = false

-- a sign-off with the conclusion `Approved`
abbrev pub is_approved : ReviewConclusion → Bool
is_approved approved = true
is_approved _ = false

abbrev pub is_signed_off : Option ReviewSignoff → Bool
is_signed_off none = false
is_signed_off (some signoff) = is_approved signoff.conclusion

unfoldable pub validate_actors : AuditEngagement → Result Actors
validate_actors e = do
  actors ← unique_by (λ a. a.actor_id) "actors" e.actors 256
  for_each
      (λ a. do
        identifier "actorId" a.actor_id
        text "organization" a.organization 240
        text "displayName" a.display_name 240)
      e.actors
  reject_if (not (any (λ a. is_audit_lead a.role) e.actors))
      (invalid "actors" "requires an audit lead")
  ok actors

abbrev optional_timestamp : String → Option ℤ → Result (Unit {0})
optional_timestamp field none = ok tt
optional_timestamp field (some value) = timestamp field value

unfoldable pub validate_milestones : AuditEngagement → Result (Unit {0})
validate_milestones e = do
  _ ← unique_by (λ m. m.milestone_id) "milestones" e.milestones 128
  for_each
      (λ m. do
        identifier "milestoneId" m.milestone_id
        text "milestone title" m.title 240
        timestamp "milestone dueAt" m.due_at
        optional_timestamp "milestone completedAt" m.completed_at)
      e.milestones

unfoldable pub validate_request : Actors → EvidenceRequest → Result (Unit {0})
validate_request actors r = do
  identifier "requestId" r.request_id
  text "request title" r.title 500
  unique_identifiers "request ruleIds" r.rule_ids 128 false
  require_actor actors r.owner_id "request owner"
  timestamp "request dueAt" r.due_at
  unique_identifiers "request evidenceExternalIds" r.evidence_external_ids 10000 true
  optional_text "auditorNote" r.auditor_note 4000
  reject_if (is_settled r.status && is_empty r.evidence_external_ids)
      (invalid "evidenceRequests" "accepted or closed requests need evidence")

unfoldable pub validate_requests : AuditEngagement → Actors → Result (Unit {0})
validate_requests e actors = do
  _ ← unique_by (λ r. r.request_id) "evidenceRequests" e.evidence_requests 10000
  for_each (validate_request actors) e.evidence_requests
