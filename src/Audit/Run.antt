-- ===== src/Audit/Run.antt =====
-- src/audit.rs: `run_audit` and `verify_dossier`.
use canonical_company_audito.Prelude.{
  String, not, ◌||◌, ◌==◌, List, [], map, flat_map, ℕ_discrete, ℤ-discrete, String-discrete, same,
}
use canonical_company_audito.Outcome.{
  Result, ok, integrity, unsupported_version, reject_if, ok_or, ◌>>=◌, ◌>>◌, map_result,
}
use canonical_company_audito.Collections.{get, collect_into, sort_by}
use canonical_company_audito.Model.{AssessmentRequest, Finding}
use canonical_company_audito.Program.{AssessmentRule, AssessmentProgram}
use canonical_company_audito.Engagement.{AuditEngagement, EngagementEvent, Workpaper}
use canonical_company_audito.Engagement.Record.{validate_engagement, validate_against}
use canonical_company_audito.Dossier.{
  dossier_schema, AuditConclusion, DossierSummary, ControlTestResult, ExceptionRecord,
  AuditTrailEntry, AuditDossier,
}
use canonical_company_audito.External.{External, engagement, dossier_core, DossierIdentityCore}
use canonical_company_audito.Evidence.{digest, seal_evidence}
use canonical_company_audito.Engine.{assess, verify_report}
use canonical_company_audito.Audit.{
  control_result, evidence_index, build_audit_trail, summarize, conclude, limitations,
}

-- The derived equalities that `verify_dossier` uses.
pub EngagementEvent-discrete : Discrete EngagementEvent
EngagementEvent-discrete = hlevel (ℕ_discrete, ℤ-discrete, String-discrete)

pub AuditTrailEntry-discrete : Discrete AuditTrailEntry
AuditTrailEntry-discrete = hlevel (EngagementEvent-discrete, String-discrete)

pub trail-discrete : Discrete (List AuditTrailEntry)
trail-discrete = hlevel AuditTrailEntry-discrete

pub DossierSummary-discrete : Discrete DossierSummary
DossierSummary-discrete = hlevel ℕ_discrete

pub AuditConclusion-discrete : Discrete AuditConclusion
AuditConclusion-discrete = hlevel

-- `responses.get(exception_id).cloned()` for each exception of each workpaper
unfoldable pub exception_records : AuditEngagement → List ExceptionRecord
exception_records e =
    let responses = collect_into [] (map (λ r. (r.exception_id, r)) e.management_responses) in
    sort_by (λ x. x.exception.exception_id)
      (flat_map
        (λ w.
          map
            (λ x. record {
              rule_id = w.rule_id;
              workpaper_id = w.workpaper_id;
              exception = x;
              management_response = get x.exception_id responses;
            })
            w.exceptions)
        e.workpapers)

-- one round of the loop over the rules
unfoldable pub control_for :
    List (String × Finding) → List (String × Workpaper) → AssessmentRule → Result ControlTestResult
control_for findings workpapers rule = do
  finding ← ok_or (get rule.id findings) integrity
  ok (control_result finding (get rule.id workpapers))

unfoldable pub control_results :
    AuditEngagement → List Finding → List AssessmentRule → Result (List ControlTestResult)
unfolding control_for
control_results e findings rules = do
  results ←
      map_result
        (control_for (collect_into [] (map (λ f. (f.rule_id, f)) findings))
          (collect_into [] (map (λ w. (w.rule_id, w)) e.workpapers)))
        rules
  ok (sort_by (λ c. c.rule_id) results)

abbrev pub core_of : AuditDossier → DossierIdentityCore
core_of d = record {
  schema_version = dossier_schema;
  engagement_sha256 = d.engagement_sha256;
  conclusion = d.conclusion;
  engagement = d.engagement;
  readiness_report = d.readiness_report;
  summary = d.summary;
  control_results = d.control_results;
  evidence_index = d.evidence_index;
  exceptions = d.exceptions;
  audit_trail = d.audit_trail;
  limitations = d.limitations;
}

module _ (ext : External) where
  -- The dossier before its identifier is known.
  abbrev pub with_id : String → AuditDossier → AuditDossier
  with_id id d = record d { dossier_id = id }

  unfoldable pub run_audit :
      AssessmentRequest → AuditEngagement → AssessmentProgram → Result AuditDossier
  run_audit request e p = do
    validate_against e request.manifest request.evidence p
    report ← assess ext request p
    sealed ← seal_evidence ext request.manifest request.evidence
    controls ← control_results e report.findings p.rules
    let exceptions = exception_records e
    trail ← build_audit_trail ext e.events
    engagement_sha256 ← digest ext (engagement e)
    let unnamed : AuditDossier = record {
      schema_version = dossier_schema;
      dossier_id = "";
      engagement_sha256 = engagement_sha256;
      conclusion = conclude e controls exceptions;
      engagement = e;
      readiness_report = report;
      summary = summarize e controls exceptions;
      control_results = controls;
      evidence_index = evidence_index sealed.observations report.findings;
      exceptions = exceptions;
      audit_trail = trail;
      limitations = limitations e;
    }
    dossier_id ← digest ext (dossier_core (core_of unnamed))
    ok (with_id dossier_id unnamed)

  unfoldable pub verify_dossier : AuditDossier → Result (Unit {0})
  verify_dossier d = do
    reject_if (not (d.schema_version == dossier_schema)) (unsupported_version d.schema_version)
    validate_engagement d.engagement
    verify_report ext d.readiness_report
    engagement_digest ← digest ext (engagement d.engagement)
    reject_if (not (engagement_digest == d.engagement_sha256)) integrity
    trail ← build_audit_trail ext d.engagement.events
    reject_if
        (not (same trail-discrete trail d.audit_trail)
          || not (
              same DossierSummary-discrete (summarize d.engagement d.control_results d.exceptions)
                d.summary)
          || not (
              same AuditConclusion-discrete (conclude d.engagement d.control_results d.exceptions)
                d.conclusion))
        integrity
    dossier_digest ← digest ext (dossier_core (core_of d))
    reject_if (not (dossier_digest == d.dossier_id)) integrity
