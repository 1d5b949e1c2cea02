-- ===== src/Evidence.antt =====
-- src/evidence.rs: canonical JSON, digests and the sealing of evidence.
pub mod Sealing
pub mod Canonical
use Prim.Native.String.{◌++◌}
use canonical_company_audito.Prelude.{
  ℕ, ◌*◌, String, Bool, true, false, not, ◌||◌, ◌==◌, Option, none, some, List, [], ◌∷◌, length,
  ltb,
}
use canonical_company_audito.Outcome.{
  Result, ok, err, json, invalid, scope_denied, reject_if, ok_or, ◌>>=◌, ◌>>◌, map_result,
}
use canonical_company_audito.Json.{
  Value, array, object, Items, nil, cons, Fields, end, field, entries, of_entries,
}
use canonical_company_audito.Collections.{collect_into, sort_by}
use canonical_company_audito.Model.{CompanyManifest, EvidenceObservation, EvidenceBundle}
use canonical_company_audito.Model.Scope.{scope_contains}
use canonical_company_audito.Model.Validate.{validate_manifest, validate_bundle}
use canonical_company_audito.External.{
  Document, bundle, facts, observation_identity, ObservationIdentity, External,
}

abbrev pub max_fact_bytes : ℕ
max_fact_bytes = 64 * 1024

pub record SealedObservation : Type 0 where
  pub observation_id : String
  pub facts_sha256 : String
  pub input : EvidenceObservation

pub record SealedEvidence : Type 0 where
  pub evidence_sha256 : String
  pub observations : List SealedObservation

-- `sort_by` on the key of an entry
abbrev pub entry_key : String × Value → String
entry_key (k, v) = k

-- The source sorts the entries and then canonicalises each value; the keys stay, so the order of
-- the two steps does not matter.
unfoldable mutual
  pub canonicalize : Value → Value
  canonicalize (array vs) = array (canonicalize_items vs)
  canonicalize (object fs) =
      object (of_entries (collect_into [] (sort_by entry_key (canonicalize_entries fs))))
  canonicalize scalar = scalar

  pub canonicalize_items : Items → Items
  canonicalize_items nil = nil
  canonicalize_items (cons v vs) = cons (canonicalize v) (canonicalize_items vs)

  pub canonicalize_entries : Fields → List (String × Value)
  canonicalize_entries end = []
  canonicalize_entries (field k v fs) = (k, canonicalize v) ∷ canonicalize_entries fs

module _ (ext : External) where
  unfoldable pub canonical_json_bytes : Document → Result (List ℕ)
  canonical_json_bytes document = do
    value ← ok_or (ext.to_value document) json
    ok_or (ext.to_vec (canonicalize value)) json

  unfoldable pub sha256 : List ℕ → String
  sha256 content = "sha256:" ++ ext.sha256_hex content

  unfoldable pub digest : Document → Result String
  unfolding canonical_json_bytes sha256
  digest document = do content ← canonical_json_bytes document; ok (sha256 content)

  unfoldable pub seal_observation : CompanyManifest → EvidenceObservation → Result SealedObservation
  seal_observation m o = do
    reject_if (not (scope_contains m.scope_id o.subject)) scope_denied
    fact_bytes ← canonical_json_bytes (facts o.facts)
    reject_if (ltb max_fact_bytes (length fact_bytes))
        (invalid "facts" "canonical facts exceed 65536 bytes")
    observation_id ← digest (
        observation_identity (record {
          tag = "canonical.evidence-observation/v1";
          tenant_id = m.tenant_id;
          external_id = o.external_id;
          evidence_type = o.evidence_type;
          subject = o.subject;
          source = o.source;
          collected_at = o.collected_at;
          valid_until = o.valid_until;
          facts_sha256 = sha256 fact_bytes;
          attestation = o.attestation;
        }))
    ok (record { observation_id = observation_id; facts_sha256 = sha256 fact_bytes; input = o })

  unfoldable pub seal_evidence : CompanyManifest → EvidenceBundle → Result SealedEvidence
  seal_evidence m b = do
    validate_manifest m
    validate_bundle b
    reject_if
        (not (m.tenant_id == b.tenant_id)
          || not (m.scope_id == b.scope_id)
          || not (scope_contains m.scope_id b.scope_id))
        scope_denied
    observations ← map_result (seal_observation m) b.observations
    evidence_sha256 ← digest (bundle b)
    ok (record {
      evidence_sha256 = evidence_sha256;
      observations = sort_by (λ o. o.observation_id) observations;
    })
