-- ===== src/Config.antt =====
-- src/audit_config.rs: the admitted audit configuration. Config/Services has the inventory.
pub mod Services
pub mod Validate
pub mod References
pub mod Admitted
pub mod Admission
pub mod Missing
pub mod Selectors
pub mod Redact
pub mod Redacted
pub mod Secrets
use canonical_company_audito.Prelude.{String, Bool, Option, List}
use canonical_company_audito.Config.Services.{ServiceConnection}

pub record ToolchainPolicy : Type 0 where
  pub canonical_cli : String
  pub validator : String
  pub validator_revision : String
  pub validator_receipt_schema : String
  pub config_bridge : String
  pub config_bridge_revision : String
  pub require_exact_cli_version : Bool
  pub runtime_schema_drift : String

pub data AuditEnvironment : Type 0 where
  test staging production : AuditEnvironment

pub record FrameworkSelection : Type 0 where
  pub soc2 : Bool
  pub nist_csf_2_0 : Bool
  pub nist_sp_800_53_rev5 : Bool
  pub iso_iec_27001_2022 : Bool

pub data InteractionMode : Type 0 where
  interactive non_interactive : InteractionMode

pub record InteractionPolicy : Type 0 where
  pub default_mode : InteractionMode
  pub prompt_for_missing : Bool
  pub allow_interactive_override : Bool
  pub fail_on_missing_required : Bool

pub data SecretReferenceScheme : Type 0 where
  env sops file vault : SecretReferenceScheme

abbrev pub prefix : SecretReferenceScheme → String
prefix env = "env:"
prefix sops = "sops:"
prefix file = "file:"
prefix vault = "vault:"

pub record SecurityPolicy : Type 0 where
  pub allow_mutations : Bool
  pub allow_plaintext_secrets : Bool
  pub secret_reference_schemes : List SecretReferenceScheme
  pub redact_logs : Bool
  pub redact_reports : Bool
  pub record_secret_fingerprints : Bool

pub record RepositoryLayout : Type 0 where
  pub private : Bool
  pub evidence_dir : String
  pub workpapers_dir : String
  pub reports_dir : String
  pub manifests_dir : String
  pub customer_dir : String

pub data PublishingProvider : Type 0 where
  disabled cloudflare_r2 : PublishingProvider

pub data PublicationVisibility : Type 0 where
  private authenticated public : PublicationVisibility

pub record PublishingPolicy : Type 0 where
  pub enabled : Bool
  pub provider : PublishingProvider
  pub source_dir : String
  pub visibility : PublicationVisibility
  pub custom_domain : Option String
  pub r2_bucket : Option String
  pub r2_prefix : Option String
  pub access_policy : Option String
  pub cache_control : Option String
  pub include_git_commit_sha : Bool
  pub publish_integrity_manifest : Bool

pub record EvidencePolicy : Type 0 where
  pub content_addressed : Bool
  pub hash : String
  pub retain_raw_provider_payloads : Bool
  pub write_normalized_evidence : Bool
  pub write_collection_manifest : Bool
  pub write_provenance : Bool

pub data AuditReportFormat : Type 0 where
  json markdown html : AuditReportFormat

pub record ReportPolicy : Type 0 where
  pub formats : List AuditReportFormat
  pub include_framework_crosswalk : Bool
  pub include_evidence_gaps : Bool
  pub include_remediation : Bool
  pub include_limitations : Bool

pub record GitPolicy : Type 0 where
  pub commit_generated_reports : Bool
  pub commit_raw_secrets : Bool
  pub require_clean_worktree : Bool
  pub sign_manifest : Bool

pub record SecretSources : Type 0 where
  pub sops_age_file : Option String
  pub local_env_file : Option String
  pub vault_paths : Option (List String)

pub record CanonicalAuditConfig : Type 0 where
  pub schema_version : String
  pub toolchain : ToolchainPolicy
  pub customer_id : String
  pub display_name : String
  pub environment : AuditEnvironment
  pub audit_mode : String
  pub frameworks : FrameworkSelection
  pub interaction : InteractionPolicy
  pub security : SecurityPolicy
  pub repository : RepositoryLayout
  pub publishing : PublishingPolicy
  pub services : List ServiceConnection
  pub evidence : EvidencePolicy
  pub reports : ReportPolicy
  pub git : GitPolicy
  pub secret_sources : Option SecretSources
