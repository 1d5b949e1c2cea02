-- ===== src/Tests/Configs.antt =====
-- The theorems on the audit configuration, on a configuration with one service.
use canonical_company_audito.Prelude.{◌≡◌, ◌↔◌, Pairwise, true, false, none, some, [], ◌∷◌, All}
use canonical_company_audito.Outcome.{ok}
use canonical_company_audito.Collections.Sorted.{Ascends}
use canonical_company_audito.Json.{Value, string, object, array, nil, cons, end, field}
use canonical_company_audito.Config.{
  test, interactive, env, disabled, private, json, ToolchainPolicy, PublishingPolicy,
  RepositoryLayout, CanonicalAuditConfig,
}
use canonical_company_audito.Config.Services.{aws, cloud, ServiceSettings, ServiceConnection}
use canonical_company_audito.Config.Validate.{validate}
use canonical_company_audito.Config.Validate as Validate
use canonical_company_audito.Config.Admission.{IsAdmitted, validate-eq-ok}
use canonical_company_audito.Config.Missing.{missing_required_fields}
use canonical_company_audito.Config.Selectors.{IsSelected, missing_required_fields-eq-nil}
use canonical_company_audito.Config.Redact.{redact}
use canonical_company_audito.Config.Redacted.{IsRedactionOf}
use canonical_company_audito.Config.Secrets.{secret_texts, secret_texts-redact}

abbrev toolchain : ToolchainPolicy
toolchain = record {
  canonical_cli = Validate.canonical_cli_version;
  validator = Validate.validator_id;
  validator_revision = Validate.validator_revision;
  validator_receipt_schema = Validate.validator_receipt_schema;
  config_bridge = Validate.config_bridge_id;
  config_bridge_revision = Validate.config_bridge_revision;
  require_exact_cli_version = true;
  runtime_schema_drift = "reject";
}

abbrev repository : RepositoryLayout
repository = record {
  private = true;
  evidence_dir = "evidence";
  workpapers_dir = "workpapers";
  reports_dir = "reports";
  manifests_dir = "manifests";
  customer_dir = Validate.customer_dir;
}

abbrev publishing : PublishingPolicy
publishing = record {
  enabled = false;
  provider = disabled;
  source_dir = "reports";
  visibility = private;
  custom_domain = none;
  r2_bucket = none;
  r2_prefix = none;
  access_policy = none;
  cache_control = none;
  include_git_commit_sha = true;
  publish_integrity_manifest = true;
}

abbrev settings : ServiceSettings
settings = record {
  organization = none;
  api_base_url = none;
  account_id = some "123456789012";
  regions = some ("eu-west-1" ∷ []);
  profile = none;
  project_ids = none;
  tenant_id = none;
  subscription_ids = none;
  project_refs = none;
  team_id = none;
  contexts = none;
  site = none;
  resource_ids = none;
}

abbrev service : ServiceConnection
service = record {
  id = "aws-main";
  provider = aws;
  kind = cloud;
  enabled = true;
  read_only = true;
  auth_refs = "env:AWS_PROFILE" ∷ [];
  collect = "iam" ∷ [];
  settings = settings;
}

abbrev configuration : CanonicalAuditConfig
configuration = record {
  schema_version = Validate.schema_version;
  toolchain = toolchain;
  customer_id = "acme";
  display_name = "Acme";
  environment = test;
  audit_mode = "read_only";
  frameworks = record {
    soc2 = true;
    nist_csf_2_0 = false;
    nist_sp_800_53_rev5 = false;
    iso_iec_27001_2022 = false;
  };
  interaction = record {
    default_mode = interactive;
    prompt_for_missing = true;
    allow_interactive_override = true;
    fail_on_missing_required = true;
  };
  security = record {
    allow_mutations = false;
    allow_plaintext_secrets = false;
    secret_reference_schemes = env ∷ [];
    redact_logs = true;
    redact_reports = true;
    record_secret_fingerprints = false;
  };
  repository = repository;
  publishing = publishing;
  services = service ∷ [];
  evidence = record {
    content_addressed = true;
    hash = "sha256";
    retain_raw_provider_payloads = false;
    write_normalized_evidence = true;
    write_collection_manifest = true;
    write_provenance = true;
  };
  reports = record {
    formats = json ∷ [];
    include_framework_crosswalk = true;
    include_evidence_gaps = true;
    include_remediation = true;
    include_limitations = true;
  };
  git = record {
    commit_generated_reports = false;
    commit_raw_secrets = false;
    require_clean_worktree = true;
    sign_manifest = true;
  };
  secret_sources = none;
}

validate-eq-ok_example : (validate configuration ≡ ok tt) ↔ IsAdmitted configuration
validate-eq-ok_example = validate-eq-ok configuration

missing_required_fields-eq-nil_example :
    Ascends (λ m. m.path) (missing_required_fields configuration)
    × ((missing_required_fields configuration ≡ []) ↔ All IsSelected configuration.services)
missing_required_fields-eq-nil_example = missing_required_fields-eq-nil configuration

-- A serialised configuration with one service and one of its references.
abbrev serialised : Value
serialised = object (
    field "secret_sources" (object (field "sops_age_file" (string "sops:age.key") end)) (
      field "services"
        (array
          (cons (object (field "auth_refs" (array (cons (string "env:AWS_PROFILE") nil)) end)) nil))
        end))

secret_texts-redact_example :
    Pairwise IsRedactionOf (secret_texts serialised) (secret_texts (redact serialised))
secret_texts-redact_example = secret_texts-redact serialised
