-- ===== src/Config/Validate.antt =====
-- src/audit_config.rs: `validate` and `load` of the configuration.
use canonical_company_audito.Prelude.{
  ℕ, suc, ◌*◌, String, Bool, true, false, not, ◌&&◌, ◌||◌, ◌==◌, Option, none, some, List, [], ◌∷◌,
  ◌++◌, length, ltb, leb, eqb, all, any, filter, head?, is_empty, is_some, take,
}
use canonical_company_audito.Outcome.{
  AuditError, Result, ok, err, toml, io, reject_if, ok_or, ◌>>=◌, ◌>>◌, for_each,
}
use canonical_company_audito.Outcome as Outcome
use canonical_company_audito.Text.{bytes, len, is_blank, trim, strip_prefix}
use canonical_company_audito.Collections.Unique.{for_unique}
use canonical_company_audito.Config.Services.{ServiceConnection}
use canonical_company_audito.Config.{
  CanonicalAuditConfig, SecretReferenceScheme, env, sops, file, vault, prefix, SecretSources,
  PublishingProvider, PublishingPolicy,
}

abbrev pub max_config_bytes : ℕ
max_config_bytes = 1024 * 1024

abbrev pub schema_version : String
schema_version = "canonical.audit-config.v1"

abbrev pub customer_dir : String
customer_dir = "customer"

abbrev pub canonical_cli_version : String
canonical_cli_version = "0.1.0"

abbrev pub validator_id : String
validator_id = "oresoftware/typespec-json-schema-validator"

abbrev pub validator_revision : String
validator_revision = "7b1e79a32b89006a6eb6642ccd71ef25ffac0103"

abbrev pub validator_receipt_schema : String
validator_receipt_schema = "ores.tjsv.config-instance/v1"

abbrev pub config_bridge_id : String
config_bridge_id = "oresoftware/ores-cli"

abbrev pub config_bridge_revision : String
config_bridge_revision = "f07b3785a6cd1957591104d19099724452058172"

abbrev pub invalid : String → AuditError
invalid reason = Outcome.invalid "canonical-cfg" reason

abbrev pub require : Bool → String → Result (Unit {0})
require condition reason = elim condition [ true ↦ ok tt | false ↦ err (invalid reason) ]

abbrev pub require_row : Bool × String → Result (Unit {0})
require_row (condition, reason) = require condition reason

abbrev pub is_lower_hex_digit : ℕ → Bool
is_lower_hex_digit b = leb b'0' b && leb b b'9' || leb b'a' b && leb b b'f'

unfoldable pub is_lower_hex_revision : String → Bool
is_lower_hex_revision value = eqb (len value) 40 && all is_lower_hex_digit (bytes value)

abbrev pub nonempty : Option String → Bool
nonempty none = false
nonempty (some value) = not (is_blank (trim value))

abbrev pub blank : Option String → Bool
blank value = not (nonempty value)

abbrev pub empty_vec : Option (List String) → Bool
empty_vec none = true
empty_vec (some values) = is_empty values

-- The requirements in front of those on publishing, in the order of the source.
unfoldable pub requirements : CanonicalAuditConfig → List (Bool × String)
unfolding is_lower_hex_revision
requirements c =
    (c.schema_version == schema_version, "schema_version must be canonical.audit-config.v1")
    ∷ (
      c.toolchain.canonical_cli == canonical_cli_version,
      "toolchain.canonical_cli must match the admitted Canonical CLI version",
    )
    ∷ (
      c.toolchain.validator == validator_id,
      "toolchain.validator must use the admitted TJSV validator",
    )
    ∷ (
      c.toolchain.validator_revision == validator_revision,
      "toolchain.validator_revision must match the admitted TJSV revision",
    )
    ∷ (
      c.toolchain.validator_receipt_schema == validator_receipt_schema,
      "toolchain.validator_receipt_schema must use the admitted receipt protocol",
    )
    ∷ (
      c.toolchain.config_bridge == config_bridge_id,
      "toolchain.config_bridge must use the admitted ores-cli bridge",
    )
    ∷ (
      c.toolchain.config_bridge_revision == config_bridge_revision,
      "toolchain.config_bridge_revision must match the admitted ores-cli revision",
    )
    ∷ (c.toolchain.require_exact_cli_version, "toolchain.require_exact_cli_version must be true")
    ∷ (c.toolchain.runtime_schema_drift == "warn", "toolchain.runtime_schema_drift must be warn")
    ∷ (
      is_lower_hex_revision c.toolchain.validator_revision,
      "toolchain.validator_revision must be a lowercase 40-hex revision",
    )
    ∷ (
      is_lower_hex_revision c.toolchain.config_bridge_revision,
      "toolchain.config_bridge_revision must be a lowercase 40-hex revision",
    )
    ∷ (not (is_blank (trim c.customer_id)), "customer_id must not be empty")
    ∷ (not (is_blank (trim c.display_name)), "display_name must not be empty")
    ∷ (c.audit_mode == "read-only", "audit_mode must be read-only")
    ∷ (not c.security.allow_mutations, "security.allow_mutations must be false")
    ∷ (not c.security.allow_plaintext_secrets, "security.allow_plaintext_secrets must be false")
    ∷ (
      not (is_empty c.security.secret_reference_schemes),
      "security.secret_reference_schemes must not be empty",
    )
    ∷ (c.repository.private, "repository.private must be true")
    ∷ (c.repository.evidence_dir == "evidence", "repository.evidence_dir must be evidence")
    ∷ (c.repository.workpapers_dir == "workpapers", "repository.workpapers_dir must be workpapers")
    ∷ (c.repository.reports_dir == "reports", "repository.reports_dir must be reports")
    ∷ (c.repository.manifests_dir == "manifests", "repository.manifests_dir must be manifests")
    ∷ (c.repository.customer_dir == customer_dir, "repository.customer_dir must be customer")
    ∷ (c.publishing.source_dir == customer_dir, "publishing.source_dir must be customer")
    ∷ (not c.git.commit_raw_secrets, "git.commit_raw_secrets must be false")
    ∷ (c.evidence.hash == "sha256", "evidence.hash must be sha256")
    ∷ []

abbrev pub is_cloudflare_r2 : PublishingProvider → Bool
is_cloudflare_r2 PublishingProvider.cloudflare_r2 = true
is_cloudflare_r2 PublishingProvider.disabled = false

-- `if publishing.enabled { .. }`
unfoldable pub publishing_requirements : PublishingPolicy → List (Bool × String)
publishing_requirements p = elim p.enabled [
  | false ↦ []
  | true ↦
      (is_cloudflare_r2 p.provider, "enabled publishing must use cloudflare-r2")
      ∷ (nonempty p.r2_bucket, "publishing.r2_bucket is required when publishing is enabled")
      ∷ (nonempty p.r2_prefix, "publishing.r2_prefix is required when publishing is enabled")
      ∷ (p.include_git_commit_sha, "publishing.include_git_commit_sha must be true")
      ∷ (p.publish_integrity_manifest, "publishing.publish_integrity_manifest must be true")
      ∷ []
]

abbrev pub scheme_eq : SecretReferenceScheme → SecretReferenceScheme → Bool
scheme_eq env env = true
scheme_eq sops sops = true
scheme_eq file file = true
scheme_eq vault vault = true
scheme_eq _ _ = false

-- The `BTreeSet` of the schemes in its order, which is that of the enumeration.
unfoldable pub approved_schemes : CanonicalAuditConfig → List SecretReferenceScheme
approved_schemes c =
    filter (λ s. any (scheme_eq s) c.security.secret_reference_schemes)
      (env ∷ sops ∷ file ∷ vault ∷ [])

abbrev pub has_prefix : String → SecretReferenceScheme → Bool
has_prefix reference scheme = is_some (strip_prefix (prefix scheme) reference)

-- `strip_prefix(..).unwrap_or_default()`
abbrev pub or_default : Option String → String
or_default none = ""
or_default (some s) = s

unfoldable pub validate_secret_ref : List SecretReferenceScheme → String → Result (Unit {0})
validate_secret_ref approved reference = do
  scheme ←
      ok_or (head? (filter (has_prefix reference) approved))
        (invalid "secret reference uses an unapproved scheme")
  require (not (is_blank (trim (or_default (strip_prefix (prefix scheme) reference)))))
      "secret reference target must not be empty"

abbrev pub enabled_requirements : ServiceConnection → List (Bool × String)
enabled_requirements s = elim s.enabled [
  | false ↦ []
  | true ↦
      (not (is_empty s.auth_refs), "enabled services must declare auth_refs")
      ∷ (not (is_empty s.collect), "enabled services must declare a read-only collection scope")
      ∷ []
]

abbrev pub validate_service_id : ServiceConnection → Result (Unit {0})
validate_service_id s = require (not (is_blank (trim s.id))) "service id must not be empty"

-- one turn of the loop over the services, after the check of its identifier
unfoldable pub validate_service : List SecretReferenceScheme → ServiceConnection → Result (Unit {0})
unfolding validate_secret_ref
validate_service approved s = do
  require s.read_only "every service must set read_only=true"
  for_each require_row (enabled_requirements s)
  for_each (validate_secret_ref approved) s.auth_refs

abbrev pub to_list : Option String → List String
to_list none = []
to_list (some s) = s ∷ []

abbrev pub or_none : Option (List String) → List String
or_none none = []
or_none (some values) = values

-- `sops_age_file.iter().chain(local_env_file.iter()).chain(vault_paths.iter().flatten())`
abbrev pub references_of : Option SecretSources → List String
references_of none = []
references_of (some sources) =
    to_list sources.sops_age_file ++ (to_list sources.local_env_file ++ or_none sources.vault_paths)

unfoldable pub validate : CanonicalAuditConfig → Result (Unit {0})
unfolding requirements publishing_requirements validate_service validate_secret_ref approved_schemes
validate c = do
  for_each require_row (requirements c)
  for_each require_row (publishing_requirements c.publishing)
  _ ←
      for_unique (λ s. s.id) validate_service_id (invalid "service ids must be unique")
        (validate_service (approved_schemes c)) [] c.services
  for_each (validate_secret_ref (approved_schemes c)) (references_of c.secret_sources)

-- The file, the decoding of UTF-8 and the TOML parser are parameters; `none` is their error.
module _ {FilePath : Type 0} (read : FilePath → Option (List ℕ))
    (from_utf8 : List ℕ → Option String) (parse : String → Option CanonicalAuditConfig) where
  unfoldable pub load : FilePath → Result CanonicalAuditConfig
  unfolding validate
  load path = do
    content ← ok_or (read path) io
    let bytes = take (suc max_config_bytes) content
    reject_if (ltb max_config_bytes (length bytes)) (invalid "configuration exceeds 1 MiB")
    text ← ok_or (from_utf8 bytes) (invalid "configuration is not UTF-8")
    config ← ok_or (parse text) toml
    validate config
    ok config
