-- ===== src/Adapters/Composed.antt =====
-- src/external_evidence.rs and src/scanner_signals.rs: the evidence of a scan can be summarised.
use Prim.Native.String.{[], ◌∷◌}
use mathlib.Core.List.{List, [], ◌∷◌}
use canonical_company_audito.Prelude.{
  ◌≡◌, refl, ap, ◌∙◌, ℕ, ℤ, ◌+ℤ◌, subst, String, false, ◌==◌, eq_iff, Option, none, some, is_some,
  map, All, Pairwise, count, arith,
}
use canonical_company_audito.Outcome.{ok, ok_unique, for_state, map_result}
use canonical_company_audito.Collections.{get}
use canonical_company_audito.Model.{EvidenceSource, EvidenceObservation, EvidenceBundle}
use canonical_company_audito.Model.Validate.{validate_bundle}
use canonical_company_audito.External.{Document, External}
use canonical_company_audito.Evidence.{digest}
use canonical_company_audito.Adapters.Scan.{
  source_of, ExternalFinding, ExternalScanReport, EvidenceContext, external_scan_to_evidence,
}
use canonical_company_audito.Adapters.Scanned.{
  IsApproved, IsFindingOf, IsScanEvidence, external_scan_to_evidence-IsScanEvidence,
}
use canonical_company_audito.Adapters.Signals.{
  ScannerResourceSignals, ScannerFindingFingerprint, fingerprint_identity, Signal, required_fact,
  finding_fingerprint, scanner_finding_fingerprint, signal_from, signal_of, summarize_observation,
  summarize_scanner_resources, Groups, add_optional, resource_row,
}
use canonical_company_audito.Adapters.Facts.{
  IsNamed, finding_facts-tool, finding_facts-id, finding_facts-severity, finding_facts-title,
  finding_facts-provider, finding_facts-resource, required_fact_of, optional_fact_of,
  validate_finding-nonempty, approved_tools-nonempty,
}
use canonical_company_audito.Adapters.Grouped.{total, summarize_scanner_resources-covers}

module _ (ext : External) (digests : (d : Document) → (x : String) × (digest ext d ≡ ok x))
    (context : EvidenceContext) (source : EvidenceSource) (r : ExternalScanReport)
    (approved : IsApproved r) (provider_named : IsNamed r.provider) where
  finding-fingerprint :
      (f : ExternalFinding) (o : EvidenceObservation)
      → IsNamed f.resource
      → IsFindingOf context source r f o
      → (p : ScannerFindingFingerprint) × (finding_fingerprint ext o ≡ ok p)
        × (p.resource ≡ f.resource)
  unfolding finding_fingerprint
  finding-fingerprint f o named is =
      let (id, _, title) = validate_finding-nonempty f is.valid_finding in
      let at = is.facts_are in
      let tool =
        required_fact_of o "tool" (ap (get "tool") at ∙ finding_facts-tool r f)
          (approved_tools-nonempty r.tool approved.tool) in
      let named_id =
        required_fact_of o "scannerFindingId"
          (ap (get "scannerFindingId") at ∙ finding_facts-id r f) id in
      let provider =
        optional_fact_of o "provider" r.provider
          (ap (get "provider") at ∙ finding_facts-provider r f) provider_named in
      let resource =
        optional_fact_of o "resource" f.resource
          (ap (get "resource") at ∙ finding_facts-resource r f) named in
      let titled =
        required_fact_of o "title" (ap (get "title") at ∙ finding_facts-title r f) title in
      let (x, made) = digests (fingerprint_identity r.tool r.provider f.id f.resource f.title) in
      let fingerprint : ScannerFindingFingerprint = record {
        fingerprint = x;
        tool = r.tool;
        provider = r.provider;
        scanner_finding_id = f.id;
        resource = f.resource;
      } in
      (fingerprint, rw (tool, named_id, provider, resource, titled, made) refl, refl)

  from_fingerprint :
      (o : EvidenceObservation) (p : ScannerFindingFingerprint) (resource : Option String)
      {severity : String}
      → p.resource ≡ resource
      → required_fact o "severity" ≡ ok severity
      → (s : Option Signal) × (signal_from ext o (some p) ≡ ok s) × (is_some s ≡ is_some resource)
  unfolding signal_from
  from_fingerprint o p none at severe = (none, rw at refl, refl)
  from_fingerprint o p (some resource) {severity} at severe =
      let signal : Signal = record {
        key = (p.provider, resource);
        tool = p.tool;
        severity = severity;
        fingerprint = p.fingerprint;
        observation_id = o.external_id;
      } in
      (some signal, rw (at, severe) refl, refl)

  -- The observation of a finding gives a signal exactly when the finding names a resource.
  finding-signal :
      (f : ExternalFinding) (o : EvidenceObservation)
      → IsNamed f.resource
      → IsFindingOf context source r f o
      → (s : Option Signal) × (signal_of ext o ≡ ok s) × (is_some s ≡ is_some f.resource)
  unfolding signal_of scanner_finding_fingerprint
  finding-signal f o named is =
      let (_, severity, _) = validate_finding-nonempty f is.valid_finding in
      let severe =
        required_fact_of o "severity"
          (ap (get "severity") is.facts_are ∙ finding_facts-severity r f) severity in
      let (p, made, at) = finding-fingerprint f o named is in
      let (s, signal, same) = from_fingerprint o p f.resource at severe in
      let typed = (eq_iff o.evidence_type "scanner.finding").1 is.type_is in
      (s, rw (typed, made) signal, same)

  run-signal :
      (o : EvidenceObservation) → o.evidence_type ≡ "scanner.run" → signal_of ext o ≡ ok none
  unfolding signal_of scanner_finding_fingerprint signal_from
  run-signal o type_is =
      let other : (o.evidence_type == "scanner.finding") ≡ false = rw type_is refl in rw other refl

  -- What the loop does on the observations of the findings.
  loop-signals :
      (groups : Groups) (fs : List ExternalFinding) (os : List EvidenceObservation)
      → All (λ f. IsNamed f.resource) fs
      → Pairwise (IsFindingOf context source r) fs os
      → (final : Groups) × (signals : List (Option Signal)) × (for_state
            (summarize_observation ext)
            groups
            os
          ≡ ok final)
        × (map_result (signal_of ext) os ≡ ok signals)
        × (count is_some signals ≡ count (λ f. is_some f.resource) fs)
  unfolding summarize_observation
  loop-signals groups [] [] named is = (groups, [], refl, refl, refl)
  loop-signals groups [] (o ∷ os) named is = absurd is
  loop-signals groups (f ∷ fs) [] named is = absurd is
  loop-signals groups (f ∷ fs) (o ∷ os) (named, later) (is, rest) =
      let (s, signal, same) = finding-signal f o named is in
      let (final, signals, loop, each, counts) =
        loop-signals (add_optional ext s groups) fs os later rest in
      (
        final,
        s ∷ signals,
        rw (signal, loop) refl,
        rw (signal, each) refl,
        ground (arith, same, counts),
      )

module _ (ext : External) (parse : List ℕ → Option ExternalScanReport)
    (digests : (d : Document) → (x : String) × (digest ext d ≡ ok x)) where
  summary_of_loop :
      (b : EvidenceBundle) (run : EvidenceObservation) (found : List EvidenceObservation)
      (groups : Groups) (signals : List (Option Signal))
      → validate_bundle b ≡ ok tt
      → b.observations ≡ run ∷ found
      → signal_of ext run ≡ ok none
      → for_state (summarize_observation ext) [] found ≡ ok groups
      → map_result (signal_of ext) found ≡ ok signals
      → (summarize_scanner_resources ext b ≡ ok (map resource_row groups))
        × (map_result (signal_of ext) b.observations ≡ ok (none ∷ signals))
  unfolding summarize_scanner_resources summarize_observation
  summary_of_loop b run found groups signals valid are ran loop each =
      (rw (valid, are, ran, loop) refl, rw (are, ran, each) refl)

  -- Where digests do not fail, the evidence of an accepted report whose provider and resources are
  -- not empty texts can be summarised, and the summary counts the findings that name a resource.
  pub external_scan_to_evidence-summarize_scanner_resources :
      (tenant_id scope_id : String) (a v : ℤ) (adapter_version : String) (report_json : List ℕ)
      (r : ExternalScanReport) (b : EvidenceBundle)
      → parse report_json ≡ some r
      → IsNamed r.provider
      → All (λ f. IsNamed f.resource) r.findings
      → external_scan_to_evidence ext parse tenant_id scope_id a v adapter_version report_json
        ≡ ok b
      → (rows : List ScannerResourceSignals) × (summarize_scanner_resources ext b ≡ ok rows)
        × (total rows ≡ count (λ f. is_some f.resource) r.findings)
  external_scan_to_evidence-summarize_scanner_resources tenant_id scope_id a v adapter_version
        report_json r b parsed provider resources h =
      let (r', parsed', approved', _, evidence') =
        external_scan_to_evidence-IsScanEvidence ext parse tenant_id scope_id a v adapter_version
          report_json b h in
      let same : r' ≡ r = cc (parsed, parsed') in
      let approved = subst IsApproved same approved' in
      let context : EvidenceContext = record {
        tenant_id = tenant_id;
        scope_id = scope_id;
        collected_at = a;
        valid_until = a +ℤ v;
      } in
      let evidence : IsScanEvidence context adapter_version r b =
        subst (λ r. IsScanEvidence context adapter_version r b) same evidence' in
      let source = source_of r adapter_version in
      let ran =
        run-signal ext digests context source r approved provider evidence.run evidence.run_is.1 in
      let (groups, signals, loop, each, counts) =
        loop-signals ext digests context source r approved provider [] r.findings evidence.found
          resources evidence.found_are in
      let (summary, all_signals) =
        summary_of_loop b evidence.run evidence.found groups signals evidence.accepted
          evidence.observations_are ran loop each in
      let (others, each', counted, _) =
        summarize_scanner_resources-covers ext b (map resource_row groups) summary in
      let same_signals : others ≡ none ∷ signals =
        ok_unique (map_result (signal_of ext) b.observations) others (none ∷ signals) each'
          all_signals in
      (map resource_row groups, summary, counted ∙ (ap (count is_some) same_signals ∙ counts))
