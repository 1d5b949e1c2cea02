-- ===== src/Adapters/NativeReadings.antt =====
-- src/native_readiness_evidence.rs: what the evidence of an accepted native report is.
use canonical_company_audito.Prelude.{
  ◌≡◌, ◌≤◌, ◌+ℤ◌, refl, ℕ, ℤ, ◌≤ℤ◌, String, true, Option, some, List, ◌∷◌, ◌++◌, length, Pairwise,
  Pairwise-imp, ltb, not, arith, subst,
}
use canonical_company_audito.Outcome.{
  ok, json, invalid, reject_if, ok_or, ok_inj, >>=-eq-ok, >>-eq-ok, map_result, map_result-Pairwise,
}
use canonical_company_audito.Collections.{contains}
use canonical_company_audito.Json.{Value}
use canonical_company_audito.Model.{EvidenceSource, EvidenceObservation, EvidenceBundle}
use canonical_company_audito.Model.Validate.{validate_bundle}
use canonical_company_audito.External.{External}
use canonical_company_audito.Evidence.{digest}
use canonical_company_audito.Adapters.{freshness_end}
use canonical_company_audito.Adapters.Readings.{validate_reading, reading}
use canonical_company_audito.Adapters.Scan.{EvidenceContext}
use canonical_company_audito.Adapters.Scanned.{IsOf, freshness_end-eq-ok}
use canonical_company_audito.Adapters.Native.{
  max_report_bytes, max_validity_seconds, providers, transports, NativeScanReport, NativeCheck,
  NativeFinding, validate_transport, validate_report, validate_finding, run_facts, check_facts,
  finding_facts, run_identity, check_identity, native_finding_identity, source_of, run_observation,
  check_observation, finding_observation, parse_report, native_readiness_to_evidence,
}

-- What `validate_report` accepts.
pub record IsKnown (r : NativeScanReport) : Type 0 where
  pub provider : contains r.provider providers ≡ true
  pub transport : contains r.transport transports ≡ true
  pub few_findings : length r.findings ≤ 512
  pub few_checks : length r.checks ≤ 128

validate_report-IsKnown : (r : NativeScanReport) → validate_report r ≡ ok tt → IsKnown r
unfolding validate_report validate_transport
validate_report-IsKnown r h =
    let (known, h1) =
      >>-eq-ok
        (reject_if (not (contains r.provider providers))
          (invalid "nativeReadinessProvider" "provider is not in the native readiness catalog"))
        _ h in
    let (carried, h2) = >>-eq-ok (validate_transport r.transport) _ h1 in
    let (_, h3) = >>-eq-ok (validate_reading ("nativeReadinessAuthStatus", r.auth_status)) _ h2 in
    record {
      provider = ground (arith, known);
      transport = ground (arith, carried);
      few_findings = ground (arith, h3);
      few_checks = ground (arith, h3);
    }

-- An observation of the report, of one type and with the given facts.
pub record IsReading (context : EvidenceContext) (source : EvidenceSource) (evidence_type : String)
    (facts : List (String × Value)) (o : EvidenceObservation) : Type 0 where
  pub placed : IsOf context source o
  pub type_is : o.evidence_type ≡ evidence_type
  pub facts_are : o.facts ≡ facts

module _ (ext : External) (context : EvidenceContext) (source : EvidenceSource)
    (r : NativeScanReport) where
  reading-IsReading :
      (x evidence_type : String) (facts : List (String × Value)) (o : EvidenceObservation)
      → reading context source evidence_type x facts ≡ o
      → IsReading context source evidence_type facts o
  reading-IsReading x evidence_type facts o h = record {
    placed = record { subject = cc h; source_is = cc h; collected = cc h; valid = cc h };
    type_is = cc h;
    facts_are = cc h;
  }

  run_observation-IsReading :
      (o : EvidenceObservation)
      → run_observation ext context source r ≡ ok o
      → IsReading context source "readiness.run" (run_facts r) o
  unfolding run_observation
  run_observation-IsReading o h =
      let (x, _, whole) = >>=-eq-ok (digest ext (run_identity context r)) _ h in
      reading-IsReading x _ _ o (ok_inj whole)

  check_observation-IsReading :
      (c : NativeCheck) (o : EvidenceObservation)
      → check_observation ext context source r c ≡ ok o
      → IsReading context source "readiness.check" (check_facts r c) o
  unfolding check_observation
  check_observation-IsReading c o h =
      let (_, h1) = >>-eq-ok (validate_reading _) _ h in
      let (_, h2) = >>-eq-ok (validate_reading _) _ h1 in
      let (_, h3) = >>-eq-ok (validate_reading _) _ h2 in
      let (x, _, whole) = >>=-eq-ok (digest ext (check_identity context r c)) _ h3 in
      reading-IsReading x _ _ o (ok_inj whole)

  finding_observation-IsReading :
      (f : NativeFinding) (o : EvidenceObservation)
      → finding_observation ext context source r f ≡ ok o
      → IsReading context source "readiness.finding" (finding_facts r f) o
  unfolding finding_observation
  finding_observation-IsReading f o h =
      let (_, h1) = >>-eq-ok (validate_finding f) _ h in
      let (x, _, whole) = >>=-eq-ok (digest ext (native_finding_identity context r f)) _ h1 in
      reading-IsReading x _ _ o (ok_inj whole)

-- The evidence of a report: the run, then the checks and the findings in order.
pub record IsNativeEvidence (context : EvidenceContext) (adapter_version : String)
    (r : NativeScanReport) (b : EvidenceBundle) : Type 0 where
  pub tenant : b.tenant_id ≡ context.tenant_id
  pub scope : b.scope_id ≡ context.scope_id
  pub accepted : validate_bundle b ≡ ok tt
  pub run : EvidenceObservation
  pub checked : List EvidenceObservation
  pub found : List EvidenceObservation
  pub observations_are : b.observations ≡ run ∷ (checked ++ found)
  pub run_is : IsReading context (source_of r adapter_version) "readiness.run" (run_facts r) run
  pub checked_are :
      Pairwise
        (λ c. IsReading context (source_of r adapter_version) "readiness.check" (check_facts r c))
        r.checks
        checked
  pub found_are :
      Pairwise
        (λ f.
          IsReading context (source_of r adapter_version) "readiness.finding" (finding_facts r f))
        r.findings
        found

module _ (ext : External) (parse : List ℕ → Option NativeScanReport) where
  parse_report-eq-ok :
      (report_json : List ℕ) (a v : ℤ) (r : NativeScanReport) (t : ℤ)
      → parse_report ext parse report_json a v ≡ ok (r, t)
      → (parse report_json ≡ some r) × IsKnown r × (t ≡ a +ℤ v) × (v ≤ℤ max_validity_seconds)
  unfolding parse_report
  parse_report-eq-ok report_json a v r t h =
      let (_, h1) = >>-eq-ok (reject_if (ltb max_report_bytes (length report_json)) _) _ h in
      let (t', fresh, h2) = >>=-eq-ok (freshness_end _ _ max_validity_seconds a v) _ h1 in
      let (r', parsed, h3) = >>=-eq-ok (ok_or (parse report_json) json) _ h2 in
      let (valid, h4) = >>-eq-ok (validate_report r') _ h3 in
      let same_report : r' ≡ r = cc h4 in
      let same_end : t' ≡ t = cc h4 in
      let (end, _, bounded) = freshness_end-eq-ok _ _ max_validity_seconds a v fresh in
      (
        ground (arith, parsed, same_report),
        subst IsKnown same_report (validate_report-IsKnown r' valid),
        cc (same_end, end),
        bounded,
      )

  -- An accepted native report becomes evidence: its provider and its read-only transport are of the
  -- catalog, it has at most 512 findings and 128 checks, the validity is the one asked for and at
  -- most 30 days, and the bundle is valid, with the run, the checks and the findings in order.
  pub native_readiness_to_evidence-IsNativeEvidence :
      (tenant_id scope_id : String) (a v : ℤ) (adapter_version : String) (report_json : List ℕ)
      (b : EvidenceBundle)
      → native_readiness_to_evidence ext parse tenant_id scope_id a v adapter_version report_json
        ≡ ok b
      → (r : NativeScanReport) × (parse report_json ≡ some r)
        × IsKnown r
        × (v ≤ℤ max_validity_seconds)
        × (context : EvidenceContext) × (context ≡ record {
          tenant_id = tenant_id;
          scope_id = scope_id;
          collected_at = a;
          valid_until = a +ℤ v;
        })
        × IsNativeEvidence context adapter_version r b
  unfolding native_readiness_to_evidence
  native_readiness_to_evidence-IsNativeEvidence tenant_id scope_id a v adapter_version report_json b
        h =
      let ((r, t), read, h1) = >>=-eq-ok (parse_report ext parse report_json a v) _ h in
      let (parsed, known, end, bounded) = parse_report-eq-ok report_json a v r t read in
      let context : EvidenceContext = record {
        tenant_id = tenant_id;
        scope_id = scope_id;
        collected_at = a;
        valid_until = t;
      } in
      let source = source_of r adapter_version in
      let (run, first, h2) = >>=-eq-ok (run_observation ext context source r) _ h1 in
      let (checked, checks, h3) =
        >>=-eq-ok (map_result (check_observation ext context source r) r.checks) _ h2 in
      let (found, each, h4) =
        >>=-eq-ok (map_result (finding_observation ext context source r) r.findings) _ h3 in
      let (valid, whole) = >>-eq-ok (validate_bundle _) _ h4 in
      let same = ok_inj whole in
      let evidence : IsNativeEvidence context adapter_version r _ = record {
        tenant = refl;
        scope = refl;
        accepted = valid;
        run = run;
        checked = checked;
        found = found;
        observations_are = refl;
        run_is = run_observation-IsReading ext context source r run first;
        checked_are =
            Pairwise-imp r.checks checked (check_observation-IsReading ext context source r) (
              map_result-Pairwise (check_observation ext context source r) r.checks checked checks);
        found_are =
            Pairwise-imp r.findings found (finding_observation-IsReading ext context source r) (
              map_result-Pairwise (finding_observation ext context source r) r.findings found each);
      } in
      (
        r,
        parsed,
        known,
        bounded,
        context,
        rw end refl,
        subst (IsNativeEvidence context adapter_version r) same evidence,
      )
