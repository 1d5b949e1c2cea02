-- ===== src/Evidence/Sealing.antt =====
-- What a sealed evidence bundle holds (src/evidence.rs).
use mathlib.Core.List.{Perm}
use mathlib.Core.List.Perm
use canonical_company_audito.Prelude.{◌≡◌, ◌∙◌, String, true, eq_iff, map, arith, All, inl, inr}
use canonical_company_audito.Outcome.{ok, map_result, map-map_result, All-map_result, Result-cases}
use canonical_company_audito.Collections.{sort_by}
use canonical_company_audito.Model.Accepted.{map_id}
use canonical_company_audito.Collections.Sorted.{
  Ascends, sort_by-perm, sort_by-Ascends, All-sort_by,
}
use canonical_company_audito.Model.{CompanyManifest, EvidenceObservation, EvidenceBundle}
use canonical_company_audito.Model.Scope.{scope_contains}
use canonical_company_audito.Model.Validate.{validate_manifest, validate_bundle}
use canonical_company_audito.External.{External, Document, bundle, facts, observation_identity}
use canonical_company_audito.Evidence.{
  digest, SealedObservation, SealedEvidence, seal_observation, seal_evidence,
}

module _ (ext : External) (m : CompanyManifest) where
  -- The identity that `seal_evidence` hashes: the observation with the digest of its facts for them.
  abbrev pub identity_of : EvidenceObservation → String → Document
  identity_of o facts_sha256 = observation_identity (record {
    tag = "canonical.evidence-observation/v1";
    tenant_id = m.tenant_id;
    external_id = o.external_id;
    evidence_type = o.evidence_type;
    subject = o.subject;
    source = o.source;
    collected_at = o.collected_at;
    valid_until = o.valid_until;
    facts_sha256 = facts_sha256;
    attestation = o.attestation;
  })

  -- An observation inside the manifest's scope, with its identifier and the digest of its facts.
  pub record IsSealedObservation (s : SealedObservation) : Type 0 where
    pub in_scope : scope_contains m.scope_id s.input.subject ≡ true
    pub facts_digest : digest ext (facts s.input.facts) ≡ ok s.facts_sha256
    pub identity : digest ext (identity_of s.input s.facts_sha256) ≡ ok s.observation_id

  seal_observation-input :
      (o : EvidenceObservation) (s : SealedObservation)
      → seal_observation ext m o ≡ ok s
      → s.input ≡ o
  unfolding seal_observation
  seal_observation-input o s h = ground arith

  seal_observation-IsSealedObservation :
      (o : EvidenceObservation) (s : SealedObservation)
      → seal_observation ext m o ≡ ok s
      → IsSealedObservation s
  unfolding seal_observation digest
  seal_observation-IsSealedObservation o s h = record {
    in_scope = ground arith;
    facts_digest = ground arith;
    identity = ground arith;
  }

  -- What sealing promises: one tenant and one scope, every observation sealed once, in the order of
  -- the identifiers.
  pub record IsSealed (b : EvidenceBundle) (s : SealedEvidence) : Type 0 where
    pub manifest_valid : validate_manifest m ≡ ok tt
    pub bundle_valid : validate_bundle b ≡ ok tt
    pub tenant : m.tenant_id ≡ b.tenant_id
    pub scope : m.scope_id ≡ b.scope_id
    pub evidence_digest : digest ext (bundle b) ≡ ok s.evidence_sha256
    pub each : All IsSealedObservation s.observations
    pub inputs : Perm (map (λ o. o.input) s.observations) b.observations
    pub ordered : Ascends (λ o. o.observation_id) s.observations

  -- Sealed evidence is of the manifest's tenant and scope, its observations are the bundle's, each
  -- inside the scope and with the digests of its contents, in the order of their identifiers.
  pub seal_evidence-IsSealed :
      (b : EvidenceBundle) (s : SealedEvidence) → seal_evidence ext m b ≡ ok s → IsSealed b s
  unfolding seal_evidence
  seal_evidence-IsSealed b s h =
      elim (Result-cases (map_result (seal_observation ext m) b.observations)) [
        | inl (os, q) ↦
            let whole : s.observations ≡ sort_by (λ o. o.observation_id) os = ground arith in
            let kept0 : map (λ o. o.input) os ≡ map (λ o. o) b.observations =
              map-map_result (seal_observation ext m) (λ o. o.input) (λ o. o) seal_observation-input
                b.observations os q in
            let kept : map (λ o. o.input) os ≡ b.observations = kept0 ∙ map_id b.observations in
            record {
              manifest_valid = ground arith;
              bundle_valid = ground arith;
              tenant = (eq_iff m.tenant_id b.tenant_id).0 (ground arith);
              scope = (eq_iff m.scope_id b.scope_id).0 (ground arith);
              evidence_digest = ground arith;
              each = rw whole (
                  All-sort_by _ IsSealedObservation os (
                    All-map_result (seal_observation ext m) IsSealedObservation
                      seal_observation-IsSealedObservation b.observations os q));
              inputs =
                  rw whole (
                    rw kept at (Perm.map (λ o. o.input) (sort_by-perm (λ o. o.observation_id) os)));
              ordered = rw whole (sort_by-Ascends (λ o. o.observation_id) os);
            }
        | inr (e, q) ↦ absurd (ground arith)
      ]
