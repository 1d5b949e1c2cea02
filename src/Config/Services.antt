-- ===== src/Config/Services.antt =====
-- src/audit_config.rs: the inventory of providers and services.
use canonical_company_audito.Prelude.{String, Bool, Option, List}

pub data ServiceProvider : Type 0 where
  github aws gcp azure cloudflare supabase neondb vercel upstash kubernetes sentry datadog other :
      ServiceProvider

pub data ServiceKind : Type 0 where
  organization cloud edge database_platform hosting cache_messaging orchestrator observability
        other_kind :
      ServiceKind

pub record ServiceSettings : Type 0 where
  pub organization : Option String
  pub api_base_url : Option String
  pub account_id : Option String
  pub regions : Option (List String)
  pub profile : Option String
  pub project_ids : Option (List String)
  pub tenant_id : Option String
  pub subscription_ids : Option (List String)
  pub project_refs : Option (List String)
  pub team_id : Option String
  pub contexts : Option (List String)
  pub site : Option String
  pub resource_ids : Option (List String)

pub record ServiceConnection : Type 0 where
  pub id : String
  pub provider : ServiceProvider
  pub kind : ServiceKind
  pub enabled : Bool
  pub read_only : Bool
  pub auth_refs : List String
  pub collect : List String
  pub settings : ServiceSettings
