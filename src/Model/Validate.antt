-- ===== src/Model/Validate.antt =====
-- src/model.rs: `validate` of the manifest, the scope, the bundle and one observation.
use canonical_company_audito.Prelude.{
  ℕ, String, not, ◌||◌, ◌==◌, Option, none, some, List, [], ◌∷◌, ltb, ltb_ℤ, pos, length, is_empty,
}
use canonical_company_audito.Outcome.{
  AuditError, Result, ok, invalid, unsupported_version, reject_if, ◌>>=◌, ◌>>◌, for_each,
}
use canonical_company_audito.Collections.Unique.{for_unique}
use canonical_company_audito.Model.{
  manifest_schema, evidence_schema, CompanyScope, CompanyManifest, EvidenceSource, manual,
  connector, runtime_probe, EvidenceObservation, EvidenceBundle,
}
use canonical_company_audito.Model.Checks.{
  validate_identifier, validate_scope, validate_text, validate_unique_identifiers,
  validate_text_list,
}

-- The table of `CompanyScope::validate`: field, values, maximum.
abbrev pub list_table : CompanyScope → List (String × List String × ℕ)
list_table s =
    ("businessUnits", s.business_units, 256)
    ∷ ("systems", s.systems, 1024)
    ∷ ("dataClasses", s.data_classes, 256)
    ∷ ("vendors", s.vendors, 1024)
    ∷ ("jurisdictions", s.jurisdictions, 128)
    ∷ ("owners", s.owners, 256)
    ∷ []

abbrev pub validate_row : String × List String × ℕ → Result (Unit {0})
validate_row (field, values, maximum) = validate_text_list field values maximum

-- `CompanyScope::validate`
unfoldable pub validate_lists : CompanyScope → Result (Unit {0})
validate_lists s = for_each validate_row (list_table s)

-- `CompanyManifest::validate`
unfoldable pub validate_manifest : CompanyManifest → Result (Unit {0})
validate_manifest m = do
  reject_if (not (m.schema_version == manifest_schema)) (unsupported_version m.schema_version)
  validate_identifier "tenantId" m.tenant_id
  validate_scope m.scope_id
  validate_text "companyName" m.company_name 200
  reject_if
      (ltb_ℤ m.assessment_period.starts_at (pos 0)
        || ltb_ℤ m.assessment_period.ends_at m.assessment_period.starts_at)
      (invalid "assessmentPeriod" "requires 0 <= startsAt <= endsAt")
  validate_unique_identifiers "frameworks" m.frameworks 32
  reject_if (is_empty m.frameworks) (invalid "frameworks" "at least one framework is required")
  validate_lists m.scope

-- the `match` on the source of an observation
unfoldable pub validate_source : EvidenceSource → Result (Unit {0})
validate_source (manual submitted_by) = validate_identifier "submittedBy" submitted_by
validate_source (connector name adapter_version) = do
  validate_identifier "connector" name
  validate_identifier "adapterVersion" adapter_version
validate_source (runtime_probe runtime probe_version) = do
  validate_identifier "runtime" runtime
  validate_identifier "probeVersion" probe_version

unfoldable pub validate_attestation : Option String → Result (Unit {0})
validate_attestation none = ok tt
validate_attestation (some attestation) = validate_text "attestation" attestation 512

-- `EvidenceObservation::validate`
unfoldable pub validate_observation : EvidenceObservation → Result (Unit {0})
validate_observation o = do
  validate_identifier "externalId" o.external_id
  validate_identifier "evidenceType" o.evidence_type
  validate_scope o.subject
  reject_if (ltb_ℤ o.collected_at (pos 0) || ltb_ℤ o.valid_until o.collected_at)
      (invalid "freshness" "requires 0 <= collectedAt <= validUntil")
  reject_if (ltb 256 (length o.facts)) (invalid "facts" "may contain at most 256 keys")
  for_each (λ entry. validate_identifier "fact key" entry.0) o.facts
  validate_source o.source
  validate_attestation o.attestation

abbrev pub repeated_external_id : AuditError
repeated_external_id = invalid "externalId" "must be unique within an evidence bundle"

-- `EvidenceBundle::validate`
unfoldable pub validate_bundle : EvidenceBundle → Result (Unit {0})
validate_bundle b = do
  reject_if (not (b.schema_version == evidence_schema)) (unsupported_version b.schema_version)
  validate_identifier "tenantId" b.tenant_id
  validate_scope b.scope_id
  reject_if (ltb 10000 (length b.observations))
      (invalid "observations" "may contain at most 10000 observations")
  _ ←
      for_unique (λ o. o.external_id) validate_observation repeated_external_id (λ _. ok tt) []
        b.observations
  ok tt
