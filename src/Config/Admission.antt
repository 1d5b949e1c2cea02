-- ===== src/Config/Admission.antt =====
-- src/audit_config.rs: what an admitted configuration says of its services, secrets and publishing.
use canonical_company_audito.Prelude.{
  ◌≡◌, ◌↔◌, refl, ap, String, true, false, not, List, [], map, All, All-imp, All-zip_imp, is_empty,
  arith, inl, inr, Bool-cases, not-eq-true,
}
use canonical_company_audito.Outcome.{Result, ok, >>=-eq-ok, >>-eq-ok, for_each, for_each-eq-ok}
use canonical_company_audito.Text.{is_blank, trim}
use canonical_company_audito.Collections.Unique.{
  for_unique, Distinct, unique_loop-eq-ok, for_unique-Passes,
}
use canonical_company_audito.Config.Services.{ServiceConnection}
use canonical_company_audito.Config.{
  CanonicalAuditConfig, SecretReferenceScheme, PublishingPolicy, PublishingProvider,
}
use canonical_company_audito.Config.Validate.{
  invalid, require, require_row, nonempty, requirements, publishing_requirements, is_cloudflare_r2,
  approved_schemes, validate_secret_ref, validate_service_id, validate_service, references_of,
  enabled_requirements, validate,
}
use canonical_company_audito.Config.References.{
  IsSecretRef, validate_secret_ref-IsSecretRef, validate_secret_ref_of,
}
use canonical_company_audito.Config.Admitted.{
  require_row-eq-ok, requirements-eq-ok, IsGuarded, requirements-IsGuarded, IsGuarded-requirements,
}

-- Publishing, where it is enabled, goes to the known backend with its provenance.
pub record IsPublishable (p : PublishingPolicy) : Type 0 where
  pub provider : p.provider ≡ PublishingProvider.cloudflare_r2
  pub bucket : nonempty p.r2_bucket ≡ true
  pub prefix : nonempty p.r2_prefix ≡ true
  pub commit : p.include_git_commit_sha ≡ true
  pub integrity : p.publish_integrity_manifest ≡ true

publishing-IsPublishable :
    (p : PublishingPolicy)
    → All (λ row. row.0 ≡ true) (publishing_requirements p)
    → p.enabled ≡ true
    → IsPublishable p
unfolding publishing_requirements
publishing-IsPublishable p h on =
    let (a, (b, (c, (d, (e, _))))) = rw on at h in
    record { provider = ground arith; bucket = b; prefix = c; commit = d; integrity = e }

publishing_of :
    (p : PublishingPolicy)
    → (p.enabled ≡ true → IsPublishable p)
    → All (λ row. row.0 ≡ true) (publishing_requirements p)
unfolding publishing_requirements
publishing_of p f = elim (Bool-cases p.enabled) [
  | inl on ↦
      let i = f on in
      let r2 : is_cloudflare_r2 p.provider ≡ true = ap is_cloudflare_r2 i.provider in
      rw on (r2, (i.bucket, (i.prefix, (i.commit, (i.integrity, tt)))))
  | inr off ↦ rw off tt
]

-- A service is read-only, refers to its secrets and, where it is enabled, says what it collects.
pub record IsReadOnlyService (schemes : List SecretReferenceScheme) (s : ServiceConnection)
    : Type 0 where
  pub named : is_blank (trim s.id) ≡ false
  pub read_only : s.read_only ≡ true
  pub collects : s.enabled ≡ true → (is_empty s.auth_refs ≡ false) × (is_empty s.collect ≡ false)
  pub references : All (IsSecretRef schemes) s.auth_refs

module _ (c : CanonicalAuditConfig) where
  abbrev schemes : List SecretReferenceScheme
  schemes = c.security.secret_reference_schemes

  abbrev check : String → Result (Unit {0})
  check = validate_secret_ref (approved_schemes c)

  references-eq-ok : (rs : List String) → (for_each check rs ≡ ok tt) ↔ All (IsSecretRef schemes) rs
  references-eq-ok rs =
      let (to, from) = for_each-eq-ok check rs in
      (
        λ h. All-imp rs (validate_secret_ref-IsSecretRef c) (to h),
        λ h. from (All-imp rs (validate_secret_ref_of c) h),
      )

  service-IsReadOnlyService :
      (s : ServiceConnection)
      → validate_service_id s ≡ ok tt
      → validate_service (approved_schemes c) s ≡ ok tt
      → IsReadOnlyService schemes s
  unfolding validate_service
  service-IsReadOnlyService s id h =
      let (read_only, h1) = >>-eq-ok (require s.read_only _) _ h in
      let (enabled, refs) = >>-eq-ok (for_each require_row (enabled_requirements s)) _ h1 in
      let rows = (requirements-eq-ok (enabled_requirements s)).0 enabled in
      record {
        named = not-eq-true _ ((require_row-eq-ok (not (is_blank (trim s.id)), _)).0 id);
        read_only = (require_row-eq-ok (s.read_only, _)).0 read_only;
        collects = λ on. let (a, (b, _)) = rw on at rows in (not-eq-true _ a, not-eq-true _ b);
        references = (references-eq-ok s.auth_refs).0 refs;
      }

  service_of :
      (s : ServiceConnection)
      → IsReadOnlyService schemes s
      → (validate_service_id s ≡ ok tt) × (validate_service (approved_schemes c) s ≡ ok tt)
  unfolding validate_service
  service_of s i =
      let rows : All (λ row. row.0 ≡ true) (enabled_requirements s) = elim (Bool-cases s.enabled) [
        | inl on ↦ let (a, b) = i.collects on in rw on (ap not a, (ap not b, tt))
        | inr off ↦ rw off tt
      ] in
      let enabled = (requirements-eq-ok (enabled_requirements s)).1 rows in
      (rw i.named refl, rw (i.read_only, enabled) ((references-eq-ok s.auth_refs).1 i.references))

  -- An admitted configuration.
  pub record IsAdmitted : Type 0 where
    pub guarded : IsGuarded c
    pub publishing : c.publishing.enabled ≡ true → IsPublishable c.publishing
    pub services : All (IsReadOnlyService schemes) c.services
    pub ids : Distinct (map (λ s. s.id) c.services)
    pub secrets : All (IsSecretRef schemes) (references_of c.secret_sources)

  abbrev loop : Result (List String)
  loop =
      for_unique (λ s. s.id) validate_service_id (invalid "service ids must be unique")
        (validate_service (approved_schemes c)) [] c.services

  -- A configuration is admitted exactly when it is read-only and without plain secrets under the
  -- known toolchain and layout, publishes only with a bucket and provenance, and has distinct
  -- read-only services whose secrets, like those of its sources, are references of the schemes it
  -- lists.
  pub validate-eq-ok : (validate c ≡ ok tt) ↔ IsAdmitted
  unfolding validate
  validate-eq-ok = (
    λ h.
        let (required, h1) = >>-eq-ok (for_each require_row (requirements c)) _ h in
        let (published, h2) =
          >>-eq-ok (for_each require_row (publishing_requirements c.publishing)) _ h1 in
        let (seen, run, secrets) = >>=-eq-ok loop _ h2 in
        let passes =
          (for_unique-Passes (λ s. s.id) validate_service_id _
            (validate_service (approved_schemes c)) [] c.services run).0 in
        record {
          guarded = requirements-IsGuarded c ((requirements-eq-ok (requirements c)).0 required);
          publishing =
              publishing-IsPublishable c.publishing
                ((requirements-eq-ok (publishing_requirements c.publishing)).0 published);
          services = All-zip_imp c.services service-IsReadOnlyService passes.befores passes.afters;
          ids = passes.distinct;
          secrets = (references-eq-ok (references_of c.secret_sources)).0 secrets;
        },
    λ a.
        let required =
          (requirements-eq-ok (requirements c)).1 (IsGuarded-requirements c a.guarded) in
        let published =
          (requirements-eq-ok (publishing_requirements c.publishing)).1
            (publishing_of c.publishing a.publishing) in
        let befores = All-imp c.services (λ s i. (service_of s i).0) a.services in
        let afters = All-imp c.services (λ s i. (service_of s i).1) a.services in
        let run =
          (unique_loop-eq-ok (λ s. s.id) validate_service_id (invalid "service ids must be unique")
              (validate_service (approved_schemes c)) c.services).1
            (befores, afters, a.ids) in
        let (seen, loops, _) = >>=-eq-ok loop (λ _. ok tt) run in
        let secrets = (references-eq-ok (references_of c.secret_sources)).1 a.secrets in
        rw (required, published, loops) secrets,
  )
