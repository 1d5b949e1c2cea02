-- ===== src/Model/Boundary.antt =====
-- What `validate` of the manifest and of the evidence bundle accepts (src/model.rs).
use canonical_company_audito.Prelude.{
  ◌≤◌, ◌≡◌, ◌↔◌, refl, String, false, eq_iff, Option, none, some, map, pos, ◌≤ℤ◌, length, All,
  arith, is_empty, All-imp, le_of_not-ltb, not-eq-false,
}
use canonical_company_audito.Json.{Value}
use canonical_company_audito.Outcome.{ok, for_each, for_each-eq-ok, reject_if-eq-ok, >>-eq-ok}
use canonical_company_audito.Collections.Unique.{Distinct, unique_loop-eq-ok}
use canonical_company_audito.Model.{
  manifest_schema, evidence_schema, AssessmentPeriod, CompanyScope, CompanyManifest, EvidenceSource,
  manual, connector, runtime_probe, EvidenceObservation, EvidenceBundle,
}
use canonical_company_audito.Model.Checks.{validate_identifier}
use canonical_company_audito.Model.Validate.{
  list_table, validate_row, validate_lists, validate_manifest, validate_source,
  validate_attestation, validate_observation, validate_bundle, repeated_external_id,
}
use canonical_company_audito.Model.Accepted.{
  IsIdentifier, IsText, IsScope, IsUniqueList, validate_identifier-eq-ok, validate_text-eq-ok,
  validate_scope-eq-ok, validate_unique_identifiers-eq-ok, validate_text_list-eq-ok, All-trivially,
  trivially,
}

pub record IsPeriod (p : AssessmentPeriod) : Type 0 where
  pub start : pos 0 ≤ℤ p.starts_at
  pub ordered : p.starts_at ≤ℤ p.ends_at

-- Six lists of distinct texts of at most 256 bytes, each within its own bound.
pub record AreLists (s : CompanyScope) : Type 0 where
  pub business_units : IsUniqueList (IsText 256) 256 s.business_units
  pub systems : IsUniqueList (IsText 256) 1024 s.systems
  pub data_classes : IsUniqueList (IsText 256) 256 s.data_classes
  pub vendors : IsUniqueList (IsText 256) 1024 s.vendors
  pub jurisdictions : IsUniqueList (IsText 256) 128 s.jurisdictions
  pub owners : IsUniqueList (IsText 256) 256 s.owners

pub record IsManifest (m : CompanyManifest) : Type 0 where
  pub version : m.schema_version ≡ manifest_schema
  pub tenant : IsIdentifier m.tenant_id
  pub scope_id : IsScope m.scope_id
  pub company : IsText 200 m.company_name
  pub period : IsPeriod m.assessment_period
  pub frameworks : IsUniqueList IsIdentifier 32 m.frameworks
  pub some_framework : is_empty m.frameworks ≡ false
  pub lists : AreLists m.scope

validate_lists-eq-ok : (s : CompanyScope) → (validate_lists s ≡ ok tt) ↔ AreLists s
unfolding validate_lists
validate_lists-eq-ok s = (
  λ h.
      let rows = (for_each-eq-ok validate_row (list_table s)).0 h in
      record {
        business_units = (validate_text_list-eq-ok "businessUnits" s.business_units 256).0 rows.0;
        systems = (validate_text_list-eq-ok "systems" s.systems 1024).0 rows.1.0;
        data_classes = (validate_text_list-eq-ok "dataClasses" s.data_classes 256).0 rows.1.1.0;
        vendors = (validate_text_list-eq-ok "vendors" s.vendors 1024).0 rows.1.1.1.0;
        jurisdictions =
            (validate_text_list-eq-ok "jurisdictions" s.jurisdictions 128).0 rows.1.1.1.1.0;
        owners = (validate_text_list-eq-ok "owners" s.owners 256).0 rows.1.1.1.1.1.0;
      },
  λ v. (for_each-eq-ok validate_row (list_table s)).1 (
    (validate_text_list-eq-ok "businessUnits" s.business_units 256).1 v.business_units,
    (
      (validate_text_list-eq-ok "systems" s.systems 1024).1 v.systems,
      (
        (validate_text_list-eq-ok "dataClasses" s.data_classes 256).1 v.data_classes,
        (
          (validate_text_list-eq-ok "vendors" s.vendors 1024).1 v.vendors,
          (
            (validate_text_list-eq-ok "jurisdictions" s.jurisdictions 128).1 v.jurisdictions,
            ((validate_text_list-eq-ok "owners" s.owners 256).1 v.owners, tt),
          ),
        ),
      ),
    ),
  ),
)

-- A manifest is accepted exactly when it satisfies every clause.
pub validate_manifest-eq-ok : (m : CompanyManifest) → (validate_manifest m ≡ ok tt) ↔ IsManifest m
unfolding validate_manifest
validate_manifest-eq-ok m =
    let tenant = validate_identifier-eq-ok "tenantId" m.tenant_id in
    let scope = validate_scope-eq-ok m.scope_id in
    let company = validate_text-eq-ok "companyName" m.company_name 200 in
    let frameworks = validate_unique_identifiers-eq-ok "frameworks" m.frameworks 32 in
    let lists = validate_lists-eq-ok m.scope in
    (
      λ h. record {
        version = (eq_iff m.schema_version manifest_schema).0 (ground arith);
        tenant = tenant.0 (ground arith);
        scope_id = scope.0 (ground arith);
        company = company.0 (ground arith);
        period = record { start = ground arith; ordered = ground arith };
        frameworks = frameworks.0 (ground arith);
        some_framework = ground arith;
        lists = lists.0 (ground arith);
      },
      λ v. ground (
        arith,
        (eq_iff m.schema_version manifest_schema).1 v.version,
        tenant.1 v.tenant,
        scope.1 v.scope_id,
        company.1 v.company,
        v.period.start,
        v.period.ordered,
        frameworks.1 v.frameworks,
        v.some_framework,
        lists.1 v.lists,
      ),
    )

abbrev pub IsSource : EvidenceSource → Type 0
IsSource (manual submitted_by) = IsIdentifier submitted_by
IsSource (connector name adapter_version) = IsIdentifier name × IsIdentifier adapter_version
IsSource (runtime_probe runtime probe_version) = IsIdentifier runtime × IsIdentifier probe_version

abbrev pub IsAttestation : Option String → Type 0
IsAttestation none = Unit
IsAttestation (some attestation) = IsText 512 attestation

pub record IsObservation (o : EvidenceObservation) : Type 0 where
  pub external_id : IsIdentifier o.external_id
  pub evidence_type : IsIdentifier o.evidence_type
  pub subject : IsScope o.subject
  pub collected : pos 0 ≤ℤ o.collected_at
  pub fresh : o.collected_at ≤ℤ o.valid_until
  pub few_facts : length o.facts ≤ 256
  pub fact_keys : All (λ entry. IsIdentifier entry.0) o.facts
  pub source : IsSource o.source
  pub attestation : IsAttestation o.attestation

validate_source-eq-ok : (s : EvidenceSource) → (validate_source s ≡ ok tt) ↔ IsSource s
unfolding validate_source
validate_source-eq-ok (manual a) = validate_identifier-eq-ok "submittedBy" a
validate_source-eq-ok (connector a b) =
    let first = validate_identifier-eq-ok "connector" a in
    let second = validate_identifier-eq-ok "adapterVersion" b in
    (λ h. (first.0 (ground arith), second.0 (ground arith)), λ (p, q). rw (first.1 p) (second.1 q))
validate_source-eq-ok (runtime_probe a b) =
    let first = validate_identifier-eq-ok "runtime" a in
    let second = validate_identifier-eq-ok "probeVersion" b in
    (λ h. (first.0 (ground arith), second.0 (ground arith)), λ (p, q). rw (first.1 p) (second.1 q))

validate_attestation-eq-ok :
    (a : Option String) → (validate_attestation a ≡ ok tt) ↔ IsAttestation a
unfolding validate_attestation
validate_attestation-eq-ok none = (λ _. tt, λ _. refl)
validate_attestation-eq-ok (some a) = validate_text-eq-ok "attestation" a 512

fact_keys-eq-ok :
    (o : EvidenceObservation)
    → (for_each (λ (entry : String × Value). validate_identifier "fact key" entry.0) o.facts
        ≡ ok tt)
      ↔ All (λ entry. IsIdentifier entry.0) o.facts
fact_keys-eq-ok o =
    let (to, from) =
      for_each-eq-ok (λ (entry : String × Value). validate_identifier "fact key" entry.0) o.facts in
    (
      λ h. All-imp o.facts (λ entry. (validate_identifier-eq-ok "fact key" entry.0).0) (to h),
      λ a. from (All-imp o.facts (λ entry. (validate_identifier-eq-ok "fact key" entry.0).1) a),
    )

-- An observation is accepted exactly when it satisfies every clause.
validate_observation-eq-ok :
    (o : EvidenceObservation) → (validate_observation o ≡ ok tt) ↔ IsObservation o
unfolding validate_observation
validate_observation-eq-ok o =
    let external = validate_identifier-eq-ok "externalId" o.external_id in
    let kind = validate_identifier-eq-ok "evidenceType" o.evidence_type in
    let subject = validate_scope-eq-ok o.subject in
    let keys = fact_keys-eq-ok o in
    let source = validate_source-eq-ok o.source in
    let attestation = validate_attestation-eq-ok o.attestation in
    (
      λ h. record {
        external_id = external.0 (ground arith);
        evidence_type = kind.0 (ground arith);
        subject = subject.0 (ground arith);
        collected = ground arith;
        fresh = ground arith;
        few_facts = ground arith;
        fact_keys = keys.0 (ground arith);
        source = source.0 (ground arith);
        attestation = attestation.0 (ground arith);
      },
      λ v. ground (
        arith,
        external.1 v.external_id,
        kind.1 v.evidence_type,
        subject.1 v.subject,
        v.collected,
        v.fresh,
        v.few_facts,
        keys.1 v.fact_keys,
        source.1 v.source,
        attestation.1 v.attestation,
      ),
    )

pub record IsBundle (b : EvidenceBundle) : Type 0 where
  pub version : b.schema_version ≡ evidence_schema
  pub tenant : IsIdentifier b.tenant_id
  pub scope_id : IsScope b.scope_id
  pub few : length b.observations ≤ 10000
  pub observations : All IsObservation b.observations
  pub distinct : Distinct (map (λ o. o.external_id) b.observations)

-- A bundle is accepted exactly when it satisfies every clause.
pub validate_bundle-eq-ok : (b : EvidenceBundle) → (validate_bundle b ≡ ok tt) ↔ IsBundle b
unfolding validate_bundle
validate_bundle-eq-ok b =
    let same = eq_iff b.schema_version evidence_schema in
    let tenant = validate_identifier-eq-ok "tenantId" b.tenant_id in
    let scope = validate_scope-eq-ok b.scope_id in
    let loop =
      unique_loop-eq-ok (λ o. o.external_id) validate_observation repeated_external_id trivially
        b.observations in
    (
      λ h.
          let (version, h1) = >>-eq-ok _ _ h in
          let (t, h2) = >>-eq-ok _ _ h1 in
          let (s, h3) = >>-eq-ok _ _ h2 in
          let (few, h4) = >>-eq-ok _ _ h3 in
          let (checked, _, distinct) = loop.0 h4 in
          record {
            version = same.0 (not-eq-false _ (reject_if-eq-ok _ _ version));
            tenant = tenant.0 t;
            scope_id = scope.0 s;
            few = le_of_not-ltb 10000 (length b.observations) (reject_if-eq-ok _ _ few);
            observations = All-imp b.observations (λ o. (validate_observation-eq-ok o).0) checked;
            distinct = distinct;
          },
      λ v. ground (
        arith,
        same.1 v.version,
        tenant.1 v.tenant,
        scope.1 v.scope_id,
        v.few,
        loop.1 (
          All-imp b.observations (λ o. (validate_observation-eq-ok o).1) v.observations,
          All-trivially b.observations,
          v.distinct,
        ),
      ),
    )
