-- ===== src/Audit/Dossiers.antt =====
-- A produced dossier verifies, and what a verified dossier is bound to (src/audit.rs).
use canonical_company_audito.Prelude.{◌≡◌, ◌↔◌, refl, inl, inr, eq_iff, eq_refl, arith, same_iff}
use canonical_company_audito.Outcome.{Result-cases, ok}
use canonical_company_audito.Model.{CompanyManifest, EvidenceBundle, AssessmentRequest}
use canonical_company_audito.Program.{AssessmentProgram}
use canonical_company_audito.Engagement.{AuditEngagement}
use canonical_company_audito.Engagement.Record.{validate_engagement, validate_against}
use canonical_company_audito.Dossier.{dossier_schema, AuditDossier}
use canonical_company_audito.External.{External, engagement, dossier_core}
use canonical_company_audito.Evidence.{digest}
use canonical_company_audito.Engine.{assess, verify_report}
use canonical_company_audito.Engine.Reports.{assess-verify_report}
use canonical_company_audito.Audit.{build_audit_trail, summarize, conclude}
use canonical_company_audito.Audit.Run.{
  trail-discrete, DossierSummary-discrete, AuditConclusion-discrete, core_of, run_audit,
  verify_dossier,
}

validate_against-engagement :
    (e : AuditEngagement) (m : CompanyManifest) (b : EvidenceBundle) (p : AssessmentProgram)
    → validate_against e m b p ≡ ok tt
    → validate_engagement e ≡ ok tt
unfolding validate_against
validate_against-engagement e m b p h = ground arith

module _ (ext : External) where
  -- What binds a dossier together.
  pub record IsBound (d : AuditDossier) : Type 0 where
    pub version : d.schema_version ≡ dossier_schema
    pub engagement_valid : validate_engagement d.engagement ≡ ok tt
    pub report_valid : verify_report ext d.readiness_report ≡ ok tt
    pub engagement_digest : digest ext (engagement d.engagement) ≡ ok d.engagement_sha256
    pub trail : build_audit_trail ext d.engagement.events ≡ ok d.audit_trail
    pub summary : summarize d.engagement d.control_results d.exceptions ≡ d.summary
    pub conclusion : conclude d.engagement d.control_results d.exceptions ≡ d.conclusion
    pub identity : digest ext (dossier_core (core_of d)) ≡ ok d.dossier_id

  -- A dossier verifies exactly when it is bound: the schema, the engagement and the report are valid,
  -- and the digests, the trail, the summary and the conclusion are the recomputed ones.
  pub verify_dossier-eq-ok : (d : AuditDossier) → (verify_dossier ext d ≡ ok tt) ↔ IsBound d
  unfolding verify_dossier
  verify_dossier-eq-ok d = (
    λ h. record {
      version = (eq_iff d.schema_version dossier_schema).0 (ground arith);
      engagement_valid = ground arith;
      report_valid = ground arith;
      engagement_digest = elim (Result-cases (digest ext (engagement d.engagement))) [
        | inl (s, q) ↦ ground (arith, (eq_iff s d.engagement_sha256).0)
        | inr (e, q) ↦ ground arith
      ];
      trail = ground arith;
      summary = ground arith;
      conclusion = ground arith;
      identity = elim (Result-cases (digest ext (dossier_core (core_of d)))) [
        | inl (s, q) ↦ ground (arith, (eq_iff s d.dossier_id).0)
        | inr (e, q) ↦ ground arith
      ];
    },
    λ b. rw b.engagement_digest (
        rw b.trail (
          rw b.identity (
            ground (
              arith,
              (eq_iff d.schema_version dossier_schema).1 b.version,
              b.engagement_valid,
              b.report_valid,
              eq_refl d.engagement_sha256,
              eq_refl d.dossier_id,
              (same_iff trail-discrete d.audit_trail d.audit_trail).1 refl,
              b.summary,
              b.conclusion,
              (same_iff DossierSummary-discrete d.summary d.summary).1 refl,
              (same_iff AuditConclusion-discrete d.conclusion d.conclusion).1 refl,
            )))),
  )

  run_audit-IsBound :
      (request : AssessmentRequest) (e : AuditEngagement) (p : AssessmentProgram) (d : AuditDossier)
      → run_audit ext request e p ≡ ok d
      → IsBound d
  unfolding run_audit
  run_audit-IsBound request e p d h = record {
    version = ground arith;
    engagement_valid =
        ground (arith, validate_against-engagement e request.manifest request.evidence p);
    report_valid = elim (Result-cases (assess ext request p)) [
      | inl (r, q) ↦ ground (arith, assess-verify_report ext request p r q)
      | inr (e, q) ↦ ground arith
    ];
    engagement_digest = ground arith;
    trail = ground arith;
    summary = ground arith;
    conclusion = ground arith;
    identity = ground arith;
  }

  -- Every dossier that an audit produces verifies.
  pub run_audit-verify_dossier :
      (request : AssessmentRequest) (e : AuditEngagement) (p : AssessmentProgram) (d : AuditDossier)
      → run_audit ext request e p ≡ ok d
      → verify_dossier ext d ≡ ok tt
  run_audit-verify_dossier request e p d h =
      (verify_dossier-eq-ok d).1 (run_audit-IsBound request e p d h)
