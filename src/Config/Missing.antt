-- ===== src/Config/Missing.antt =====
-- src/audit_config.rs: `missing_required_fields`.
use Prim.Native.String.{◌++◌}
use canonical_company_audito.Prelude.{String, Bool, List, [], ◌∷◌, filter, flat_map, if◌then◌else◌}
use canonical_company_audito.Collections.{sort_by}
use canonical_company_audito.Config.{CanonicalAuditConfig}
use canonical_company_audito.Config.Services.{
  ServiceConnection, ServiceSettings, ServiceProvider, github, aws, gcp, azure, cloudflare,
  supabase, neondb, vercel, upstash, kubernetes, sentry, datadog, other,
}
use canonical_company_audito.Config.Validate.{blank, empty_vec}

pub record MissingConfigField : Type 0 where
  pub path : String
  pub reason : String

-- `{:?}` of the provider, in lower case
abbrev pub provider_name : ServiceProvider → String
provider_name github = "github"
provider_name aws = "aws"
provider_name gcp = "gcp"
provider_name azure = "azure"
provider_name cloudflare = "cloudflare"
provider_name supabase = "supabase"
provider_name neondb = "neondb"
provider_name vercel = "vercel"
provider_name upstash = "upstash"
provider_name kubernetes = "kubernetes"
provider_name sentry = "sentry"
provider_name datadog = "datadog"
provider_name other = "other"

-- The `push` calls of one provider: the field and whether it is absent.
unfoldable pub selectors : ServiceProvider → ServiceSettings → List (String × Bool)
selectors github s = ("organization", blank s.organization) ∷ []
selectors sentry s = ("organization", blank s.organization) ∷ []
selectors aws s = ("account_id", blank s.account_id) ∷ []
selectors cloudflare s = ("account_id", blank s.account_id) ∷ []
selectors gcp s = ("project_ids", empty_vec s.project_ids) ∷ []
selectors neondb s = ("project_ids", empty_vec s.project_ids) ∷ []
selectors azure s =
    ("tenant_id", blank s.tenant_id) ∷ ("subscription_ids", empty_vec s.subscription_ids) ∷ []
selectors supabase s = ("project_refs", empty_vec s.project_refs) ∷ []
selectors vercel s = ("team_id", blank s.team_id) ∷ []
selectors kubernetes s = ("contexts", empty_vec s.contexts) ∷ []
selectors datadog s = ("site", blank s.site) ∷ []
selectors upstash s = []
selectors other s = []

-- `push`
abbrev pub push : ServiceConnection → String × Bool → List MissingConfigField
push s (field, absent) =
    if absent
    then record {
      path = "services." ++ (s.id ++ (".settings." ++ field));
      reason = "required for enabled " ++ (provider_name s.provider ++ " audit collection");
    }
      ∷ []
    else []

abbrev pub missing_of : ServiceConnection → List MissingConfigField
missing_of s = flat_map (push s) (selectors s.provider s.settings)

unfoldable pub missing_required_fields : CanonicalAuditConfig → List MissingConfigField
unfolding selectors
missing_required_fields c =
    sort_by (λ m. m.path) (flat_map missing_of (filter (λ s. s.enabled) c.services))
