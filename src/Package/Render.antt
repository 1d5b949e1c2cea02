-- ===== src/Package/Render.antt =====
-- src/package.rs: the audit report, the control matrix and the findings of a package.
use canonical_company_audito.Prelude.{
  String, Option, none, some, List, [], ◌∷◌, map, length, flat_map, if◌then◌else◌,
}
use canonical_company_audito.Text.{decimal, decimal_ℤ, concat}
use canonical_company_audito.Model.{FrameworkMapping}
use canonical_company_audito.Dossier.{AuditDossier, ControlTestResult, ExceptionRecord}
use canonical_company_audito.Engagement.{ManagementResponse, ExceptionDisposition}
use canonical_company_audito.Audit.{is_treated}
use canonical_company_audito.Package.Format.{escape, field, code, optional_code, percent, row}
use canonical_company_audito.Package.Labels.{
  severity_name, finding_status_label, conclusion_label, control_status_label, mode_label,
  phase_label, classification_label, disposition_label, response_label,
}

abbrev pub bullet : String → String
bullet text = concat ("- " ∷ text ∷ "\n" ∷ [])

abbrev pub recipients : List String → String
recipients [] = "No recipients recorded; this is a draft engagement package.\n"
recipients (r ∷ rs) = concat (map (λ recipient. bullet (escape recipient)) (r ∷ rs))

unfoldable pub render_audit_report : AuditDossier → String
unfolding field escape code percent
render_audit_report d =
    let summary = d.summary in
    concat (
      "# Whole-company audit engagement report\n\n"
      ∷ field "Company" d.readiness_report.manifest.company_name
      ∷ field "Engagement" d.engagement.engagement_id
      ∷ field "Mode" (mode_label d.engagement.mode)
      ∷ field "Phase" (phase_label d.engagement.phase)
      ∷ field "Dossier" d.dossier_id
      ∷ field "Conclusion" (conclusion_label d.conclusion)
      ∷ "\n## Executive outcome\n\n"
      ∷ "| Controls | Satisfactory | Exceptions | Evidence gaps | Not reviewed | Evidence coverage | Review coverage |\n| ---: | ---: | ---: | ---: | ---: | ---: | ---: |\n"
      ∷ row (
          decimal summary.total_controls
          ∷ decimal summary.satisfactory_controls
          ∷ decimal summary.exception_controls
          ∷ decimal summary.evidence_gap_controls
          ∷ decimal summary.not_reviewed_controls
          ∷ percent summary.evidence_coverage_basis_points
          ∷ percent summary.review_coverage_basis_points
          ∷ [])
      ∷ "\n## Objective and criteria\n\n"
      ∷ concat ("**Objective:** " ∷ escape d.engagement.objective ∷ "\n\n" ∷ [])
      ∷ concat ("**Criteria:** " ∷ escape d.engagement.criteria ∷ "\n\n" ∷ [])
      ∷ "## Scope and period\n\n"
      ∷ field "Tenant" d.engagement.tenant_id
      ∷ field "Scope" d.engagement.scope_id
      ∷ field "Period" (
          concat (
            decimal_ℤ d.engagement.period.starts_at
            ∷ " through "
            ∷ decimal_ℤ d.engagement.period.ends_at
            ∷ " (inclusive Unix seconds)"
            ∷ []))
      ∷ "\n## Framework profiles\n\n"
      ∷ concat (map (λ framework. bullet (code framework)) d.engagement.framework_ids)
      ∷ "\n## Open items\n\n"
      ∷ concat (
          "- Open evidence requests: "
          ∷ decimal summary.open_evidence_requests
          ∷ "\n- Open exceptions: "
          ∷ decimal summary.open_exceptions
          ∷ "\n- Management responses: "
          ∷ decimal summary.management_responses
          ∷ "\n"
          ∷ [])
      ∷ "\n## Intended recipients\n\n"
      ∷ recipients d.engagement.report_recipients
      ∷ "\n## Limitations\n\n"
      ∷ concat (map (λ limitation. bullet (escape limitation)) d.limitations)
      ∷ [])

unfoldable pub control_row : ControlTestResult → String
unfolding code escape optional_code
control_row c = row (
    code c.rule_id
    ∷ escape c.category
    ∷ severity_name c.severity
    ∷ finding_status_label c.automated_status
    ∷ control_status_label c.audit_status
    ∷ optional_code c.workpaper_id
    ∷ optional_code c.reviewer_id
    ∷ optional_code c.sample_plan_id
    ∷ decimal (length c.evidence_ids)
    ∷ decimal (length c.exception_ids)
    ∷ [])

unfoldable pub render_controls : AuditDossier → String
unfolding control_row
render_controls d = concat (
    "# Control testing matrix\n\n"
    ∷ "| Rule | Category | Severity | Automated | Audit | Workpaper | Reviewer | Sample | Evidence | Exceptions |\n| --- | --- | --- | --- | --- | --- | --- | --- | ---: | ---: |\n"
    ∷ map control_row d.control_results)

abbrev pub no_response : ExceptionDisposition → String
no_response disposition =
    if is_treated disposition then "" else "No management response is recorded.\n\n"

abbrev pub management_section : ExceptionDisposition → Option ManagementResponse → String
management_section disposition (some r) = concat (
    "### Management response\n\n"
    ∷ concat (escape r.response ∷ "\n\n" ∷ [])
    ∷ concat ("**Action plan:** " ∷ escape r.action_plan ∷ "\n\n" ∷ [])
    ∷ field "Owner" r.owner_id
    ∷ field "Due" (decimal_ℤ r.due_at)
    ∷ field "Status" (response_label r.status)
    ∷ "\n"
    ∷ [])
management_section disposition none = no_response disposition

unfoldable pub render_exception : ExceptionRecord → String
unfolding field escape
render_exception r = concat (
    concat ("## " ∷ escape r.exception.title ∷ "\n\n" ∷ [])
    ∷ field "Exception" r.exception.exception_id
    ∷ field "Rule" r.rule_id
    ∷ field "Workpaper" r.workpaper_id
    ∷ field "Classification" (classification_label r.exception.classification)
    ∷ field "Disposition" (disposition_label r.exception.disposition)
    ∷ concat ("\n" ∷ escape r.exception.description ∷ "\n\n" ∷ [])
    ∷ management_section r.exception.disposition r.management_response
    ∷ [])

abbrev pub exception_sections : List ExceptionRecord → String
exception_sections [] = "No auditor-documented exceptions.\n"
exception_sections (r ∷ rs) = concat (map render_exception (r ∷ rs))

unfoldable pub render_exceptions : AuditDossier → String
unfolding render_exception
render_exceptions d =
    concat
      ("# Findings, exceptions, and management actions\n\n" ∷ exception_sections d.exceptions ∷ [])

abbrev pub crosswalk_row : ControlTestResult → FrameworkMapping → String
crosswalk_row c m = row (
    code c.rule_id
    ∷ control_status_label c.audit_status
    ∷ code m.framework_id
    ∷ escape m.reference
    ∷ [])

unfoldable pub render_crosswalk : AuditDossier → String
unfolding code escape
render_crosswalk d = concat (
    "# Framework crosswalk\n\n"
    ∷ "Mappings are directional references, not equivalence claims.\n\n"
    ∷ "| Rule | Audit status | Framework | Reference |\n| --- | --- | --- | --- |\n"
    ∷ flat_map (λ c. map (crosswalk_row c) c.framework_mappings) d.control_results)
