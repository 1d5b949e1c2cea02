-- ===== src/Engine/Reports.antt =====
-- A produced report verifies, and what a verified report is bound to (src/engine.rs).
use canonical_company_audito.Prelude.{◌≡◌, ◌↔◌, true, not, eq_iff, eq_refl, arith, not-eq-false}
use canonical_company_audito.Outcome.{
  ok, integrity, >>-eq-ok, reject_if-eq-ok, checked-eq-ok, last_checked-eq-ok,
}
use canonical_company_audito.Model.{
  report_schema, AssessmentRequest, AssessmentSummary, AuditReport,
}
use canonical_company_audito.Model.Validate.{validate_manifest}
use canonical_company_audito.Program.{AssessmentProgram}
use canonical_company_audito.External.{External, manifest, report_core}
use canonical_company_audito.Evidence.{digest}
use canonical_company_audito.Engine.{summarize, summary_eq, core_of, assess, verify_report}

summary_eq_refl : (s : AssessmentSummary) → summary_eq s s ≡ true
unfolding summary_eq
summary_eq_refl s = ground arith

summary_eq-eq : (s t : AssessmentSummary) → summary_eq s t ≡ true → s ≡ t
unfolding summary_eq
summary_eq-eq s t h = ground arith

module _ (ext : External) where
  -- What binds a report together.
  pub record IsBound (r : AuditReport) : Type 0 where
    pub version : r.schema_version ≡ report_schema
    pub manifest_valid : validate_manifest r.manifest ≡ ok tt
    pub manifest_digest : digest ext (manifest r.manifest) ≡ ok r.manifest_sha256
    pub summary : summarize r.findings ≡ r.summary
    pub identity : digest ext (report_core (core_of ext r)) ≡ ok r.report_id

  -- A report verifies exactly when it is bound.
  pub verify_report-eq-ok : (r : AuditReport) → (verify_report ext r ≡ ok tt) ↔ IsBound r
  unfolding verify_report
  verify_report-eq-ok r = (
    λ h.
        let (version, h1) = >>-eq-ok _ _ h in
        let (valid, h2) = >>-eq-ok _ _ h1 in
        let (digested, differs, h3) =
          checked-eq-ok (digest ext (manifest r.manifest)) r.manifest_sha256
            (not (summary_eq (summarize r.findings) r.summary)) integrity _ h2 in
        record {
          version =
              (eq_iff r.schema_version report_schema).0
                (not-eq-false _ (reject_if-eq-ok _ _ version));
          manifest_valid = valid;
          manifest_digest = digested;
          summary = summary_eq-eq (summarize r.findings) r.summary (not-eq-false _ differs);
          identity =
              last_checked-eq-ok (digest ext (report_core (core_of ext r))) r.report_id integrity
                h3;
        },
    λ b. rw b.manifest_valid (
        rw b.manifest_digest (
          rw b.identity (
            ground (
              arith,
              (eq_iff r.schema_version report_schema).1 b.version,
              eq_refl r.manifest_sha256,
              eq_refl r.report_id,
              b.summary,
              summary_eq_refl r.summary,
            )))),
  )

  assess-IsBound :
      (request : AssessmentRequest) (p : AssessmentProgram) (r : AuditReport)
      → assess ext request p ≡ ok r
      → IsBound r
  unfolding assess
  assess-IsBound request p r h = record {
    version = ground arith;
    manifest_valid = ground arith;
    manifest_digest = ground arith;
    summary = ground arith;
    identity = ground arith;
  }

  -- Every report that the assessment produces verifies.
  pub assess-verify_report :
      (request : AssessmentRequest) (p : AssessmentProgram) (r : AuditReport)
      → assess ext request p ≡ ok r
      → verify_report ext r ≡ ok tt
  assess-verify_report request p r h = (verify_report-eq-ok r).1 (assess-IsBound request p r h)
