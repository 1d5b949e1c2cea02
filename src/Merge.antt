-- ===== src/Merge.antt =====
-- src/evidence_merge.rs: the composition of evidence bundles.
pub mod Pools
pub mod Union
use canonical_company_audito.Prelude.{
  String, Bool, not, ◌||◌, ◌==◌, Option, none, some, List, [], ◌∷◌, map, head?,
}
use canonical_company_audito.Outcome.{
  Result, ok, err, invalid, integrity, scope_denied, reject_if, ok_or, ◌>>=◌, ◌>>◌, for_state,
}
use canonical_company_audito.Collections.{get, insert}
use canonical_company_audito.Model.{evidence_schema, EvidenceObservation, EvidenceBundle}
use canonical_company_audito.Model.Validate.{validate_bundle}
use canonical_company_audito.External.{External, observation}
use canonical_company_audito.Evidence.{digest}

-- `observations`: by external identifier, the digest and the observation
abbrev pub Pool : Type 0
Pool = List (String × (String × EvidenceObservation))

-- the `match` on what the pool holds under the identifier
abbrev pub settle :
    Pool → EvidenceObservation → String → Option (String × EvidenceObservation) → Result Pool
settle pool o observation_digest none = ok (insert o.external_id (observation_digest, o) pool)
settle pool o observation_digest (some (existing_digest, _)) = do
  reject_if (not (existing_digest == observation_digest)) integrity
  ok pool

module _ (ext : External) where
  unfoldable pub add_observation : Pool → EvidenceObservation → Result Pool
  add_observation pool o = do
    observation_digest ← digest ext (observation o)
    settle pool o observation_digest (get o.external_id pool)

  unfoldable pub add_bundle : String → String → Pool → EvidenceBundle → Result Pool
  add_bundle tenant_id scope_id pool b = do
    validate_bundle b
    reject_if
        (not (b.schema_version == evidence_schema)
          || not (b.tenant_id == tenant_id)
          || not (b.scope_id == scope_id))
        scope_denied
    for_state add_observation pool b.observations

  unfoldable pub merge_evidence_bundles : List EvidenceBundle → Result EvidenceBundle
  merge_evidence_bundles bundles = do
    first ←
        ok_or (head? bundles) (invalid "evidenceBundles" "at least one evidence bundle is required")
    validate_bundle first
    pool ← for_state (add_bundle first.tenant_id first.scope_id) [] bundles
    let merged : EvidenceBundle = record {
      schema_version = evidence_schema;
      tenant_id = first.tenant_id;
      scope_id = first.scope_id;
      observations = map (λ entry. entry.1.1) pool;
    }
    validate_bundle merged
    ok merged
