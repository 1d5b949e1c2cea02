-- ===== src/Adapters/Scanned.antt =====
-- src/external_evidence.rs: what the evidence of an accepted scanner report is.
use canonical_company_audito.Prelude.{
  ◌≡◌, ◌≤◌, ◌+ℤ◌, refl, ℕ, ℤ, pos, ◌≤ℤ◌, checked_add-eq-some, String, true, Option, some, List, ◌∷◌,
  length, Pairwise, Pairwise-imp, ltb, arith, subst,
}
use canonical_company_audito.Outcome.{
  ok, json, reject_if, ok_or, >>=-eq-ok, >>-eq-ok, map_result, map_result-Pairwise,
}
use canonical_company_audito.Collections.{contains}
use canonical_company_audito.Model.{
  evidence_schema, EvidenceSource, EvidenceObservation, EvidenceBundle,
}
use canonical_company_audito.Model.Validate.{validate_bundle}
use canonical_company_audito.External.{External}
use canonical_company_audito.Evidence.{digest}
use canonical_company_audito.Adapters.{freshness_end}
use canonical_company_audito.Adapters.Scan.{
  run_identity, scan_finding_identity, max_report_bytes, max_validity_seconds, approved_tools,
  ExternalFinding, ExternalScanReport, EvidenceContext, source_of, validate_report,
  validate_finding, finding_facts, run_observation, finding_observation, parse_report,
  external_scan_to_evidence,
}

-- What `validate_report` accepts.
pub record IsApproved (r : ExternalScanReport) : Type 0 where
  pub tool : contains r.tool approved_tools ≡ true
  pub read_only : r.read_only ≡ true
  pub few : length r.findings ≤ 100

validate_report-IsApproved : (r : ExternalScanReport) → validate_report r ≡ ok tt → IsApproved r
unfolding validate_report
validate_report-IsApproved r h = record {
  tool = ground arith;
  read_only = ground arith;
  few = ground arith;
}

pub freshness_end-eq-ok :
    (field reason : String) (maximum a v : ℤ) {t : ℤ}
    → freshness_end field reason maximum a v ≡ ok t
    → (t ≡ a +ℤ v) × (pos 0 ≤ℤ a) × (v ≤ℤ maximum)
unfolding freshness_end
freshness_end-eq-ok field reason maximum a v h =
    (checked_add-eq-some a v (ground arith), ground arith, ground arith)

-- An observation of a report: of the scope, with the times of the request.
pub record IsOf (context : EvidenceContext) (source : EvidenceSource) (o : EvidenceObservation)
    : Type 0 where
  pub subject : o.subject ≡ context.scope_id
  pub source_is : o.source ≡ source
  pub collected : o.collected_at ≡ context.collected_at
  pub valid : o.valid_until ≡ context.valid_until

-- An observation of one finding
pub record IsFindingOf (context : EvidenceContext) (source : EvidenceSource)
    (r : ExternalScanReport) (f : ExternalFinding) (o : EvidenceObservation) : Type 0 where
  pub placed : IsOf context source o
  pub type_is : o.evidence_type ≡ "scanner.finding"
  pub facts_are : o.facts ≡ finding_facts r f
  pub valid_finding : validate_finding f ≡ ok tt

module _ (ext : External) (context : EvidenceContext) (source : EvidenceSource)
    (r : ExternalScanReport) where
  finding_observation-IsFindingOf :
      (f : ExternalFinding) (o : EvidenceObservation)
      → finding_observation ext context source r f ≡ ok o
      → IsFindingOf context source r f o
  unfolding finding_observation
  finding_observation-IsFindingOf f o h =
      let (checked, h1) = >>-eq-ok (validate_finding f) _ h in
      let (x, _, whole) = >>=-eq-ok (digest ext (scan_finding_identity context r f)) _ h1 in
      record {
        placed = record {
          subject = cc whole;
          source_is = cc whole;
          collected = cc whole;
          valid = cc whole;
        };
        type_is = cc whole;
        facts_are = cc whole;
        valid_finding = checked;
      }

  run_observation-IsOf :
      (o : EvidenceObservation)
      → run_observation ext context source r ≡ ok o
      → IsOf context source o × (o.evidence_type ≡ "scanner.run")
  unfolding run_observation
  run_observation-IsOf o h =
      let (x, _, whole) = >>=-eq-ok (digest ext (run_identity context r)) _ h in
      (
        record { subject = cc whole; source_is = cc whole; collected = cc whole; valid = cc whole },
        cc whole,
      )

-- The evidence of a report: one observation for the run and one for each finding, in order.
pub record IsScanEvidence (context : EvidenceContext) (adapter_version : String)
    (r : ExternalScanReport) (b : EvidenceBundle) : Type 0 where
  pub tenant : b.tenant_id ≡ context.tenant_id
  pub scope : b.scope_id ≡ context.scope_id
  pub accepted : validate_bundle b ≡ ok tt
  pub run : EvidenceObservation
  pub found : List EvidenceObservation
  pub observations_are : b.observations ≡ run ∷ found
  pub run_is : IsOf context (source_of r adapter_version) run × (run.evidence_type ≡ "scanner.run")
  pub found_are : Pairwise (IsFindingOf context (source_of r adapter_version) r) r.findings found

module _ (ext : External) (parse : List ℕ → Option ExternalScanReport) where
  parse_report-eq-ok :
      (report_json : List ℕ) (a v : ℤ) (r : ExternalScanReport) (t : ℤ)
      → parse_report ext parse report_json a v ≡ ok (r, t)
      → (parse report_json ≡ some r) × IsApproved r × (t ≡ a +ℤ v) × (v ≤ℤ max_validity_seconds)
  unfolding parse_report
  parse_report-eq-ok report_json a v r t h =
      let (_, h1) = >>-eq-ok (reject_if (ltb max_report_bytes (length report_json)) _) _ h in
      let (t', fresh, h2) = >>=-eq-ok (freshness_end _ _ max_validity_seconds a v) _ h1 in
      let (r', parsed, h3) = >>=-eq-ok (ok_or (parse report_json) json) _ h2 in
      let (valid, h4) = >>-eq-ok (validate_report r') _ h3 in
      let same_report : r' ≡ r = cc h4 in
      let same_end : t' ≡ t = cc h4 in
      let (end, _, bounded) = freshness_end-eq-ok _ _ max_validity_seconds a v fresh in
      (
        ground (arith, parsed, same_report),
        subst IsApproved same_report (validate_report-IsApproved r' valid),
        cc (same_end, end),
        bounded,
      )

  -- An accepted report becomes evidence: its bytes parse to a report of an approved tool that was
  -- read-only with at most 100 findings, the validity is the one asked for and at most 30 days, and
  -- the bundle is the report's, valid, with one observation for the run and one for each finding.
  pub external_scan_to_evidence-IsScanEvidence :
      (tenant_id scope_id : String) (a v : ℤ) (adapter_version : String) (report_json : List ℕ)
      (b : EvidenceBundle)
      → external_scan_to_evidence ext parse tenant_id scope_id a v adapter_version report_json
        ≡ ok b
      → (r : ExternalScanReport) × (parse report_json ≡ some r)
        × IsApproved r
        × (v ≤ℤ max_validity_seconds)
        × IsScanEvidence
            (record {
              tenant_id = tenant_id;
              scope_id = scope_id;
              collected_at = a;
              valid_until = a +ℤ v;
            })
            adapter_version
            r
            b
  unfolding external_scan_to_evidence
  external_scan_to_evidence-IsScanEvidence tenant_id scope_id a v adapter_version report_json b h =
      let ((r, t), read, h1) = >>=-eq-ok (parse_report ext parse report_json a v) _ h in
      let (parsed, approved, end, bounded) = parse_report-eq-ok report_json a v r t read in
      let context : EvidenceContext = record {
        tenant_id = tenant_id;
        scope_id = scope_id;
        collected_at = a;
        valid_until = t;
      } in
      let source = source_of r adapter_version in
      let (run, first, h2) = >>=-eq-ok (run_observation ext context source r) _ h1 in
      let (found, each, h3) =
        >>=-eq-ok (map_result (finding_observation ext context source r) r.findings) _ h2 in
      let bundle : EvidenceBundle = record {
        schema_version = evidence_schema;
        tenant_id = tenant_id;
        scope_id = scope_id;
        observations = run ∷ found;
      } in
      let (valid, whole) = >>-eq-ok (validate_bundle bundle) (ok bundle) h3 in
      let same : bundle ≡ b = cc whole in
      let evidence : IsScanEvidence context adapter_version r bundle = record {
        tenant = refl;
        scope = refl;
        accepted = valid;
        run = run;
        found = found;
        observations_are = refl;
        run_is = run_observation-IsOf ext context source r run first;
        found_are =
            Pairwise-imp r.findings found (finding_observation-IsFindingOf ext context source r) (
              map_result-Pairwise (finding_observation ext context source r) r.findings found each);
      } in
      (
        r,
        parsed,
        approved,
        bounded,
        subst
            (λ t.
              IsScanEvidence
                (record {
                  tenant_id = tenant_id;
                  scope_id = scope_id;
                  collected_at = a;
                  valid_until = t;
                })
                adapter_version r b)
            end (subst (IsScanEvidence context adapter_version r) same evidence),
      )
