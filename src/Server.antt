-- ===== src/Server.antt =====
-- src/server.rs: the policy of the service, the authentication of a request and its handlers.
pub mod Policy
use canonical_company_audito.Prelude.{
  ℕ, ◌*◌, String, Bool, true, false, not, ◌&&◌, ◌||◌, Option, none, some, List, ltb, leb, length,
  is_some, same, ℕ_discrete, if◌then◌else◌,
}
use canonical_company_audito.Outcome.{
  AuditError, Result, ok, err, server_policy, reject_if, ok_or, ◌>>=◌, ◌>>◌,
}
use canonical_company_audito.Text.{bytes, len, strip_prefix}
use canonical_company_audito.Model.{AssessmentRequest, AuditReport}
use canonical_company_audito.Program.{AssessmentProgram}
use canonical_company_audito.Engagement.{AuditEngagement}
use canonical_company_audito.Dossier.{AuditDossier}
use canonical_company_audito.External.{External}
use canonical_company_audito.Engine.{assess}
use canonical_company_audito.Audit.Run.{run_audit}
use canonical_company_audito.Report.{PromptKind, from_str}
use canonical_company_audito.Package.{AuditPackage}
use canonical_company_audito.Package.Build.{build_audit_package}

abbrev pub min_body_bytes : ℕ
min_body_bytes = 1024

abbrev pub max_body_bytes : ℕ
max_body_bytes = 10 * 1024 * 1024

pub record ServeConfig : Type 0 where
  pub bind : String
  pub max_body_bytes : ℕ

-- src/audit.rs
pub record AuditRequest : Type 0 where
  pub assessment : AssessmentRequest
  pub engagement : AuditEngagement

pub record AppState : Type 0 where
  pub program : AssessmentProgram
  pub webhook_secret : Option (List ℕ)

-- `std::env::var`
pub data EnvironmentVariable : Type 0 where
  present : String → EnvironmentVariable
  not_present : EnvironmentVariable
  not_unicode : EnvironmentVariable

unfoldable pub read_webhook_secret : EnvironmentVariable → Result (Option (List ℕ))
read_webhook_secret (present secret) =
    if leb 32 (len secret)
    then ok (some (bytes secret))
    else err (server_policy "CANONICAL_WEBHOOK_SECRET must contain at least 32 bytes")
read_webhook_secret not_present = ok none
read_webhook_secret not_unicode = err (server_policy "CANONICAL_WEBHOOK_SECRET must be valid UTF-8")

-- `SocketAddr::from_str` and `is_loopback` are parameters.
module _ {Address : Type 0} (from_str : String → Option Address)
    (is_loopback : Address → Bool) where
  -- The checks of `run`, with the address to bind and the secret of the state.
  unfoldable pub check_policy :
      EnvironmentVariable → ServeConfig → Result (Address × Option (List ℕ))
  unfolding read_webhook_secret
  check_policy variable config = do
    reject_if
        (not (leb min_body_bytes config.max_body_bytes && leb config.max_body_bytes max_body_bytes))
        (server_policy "max body bytes must be between 1024 and 10485760")
    address ← ok_or (from_str config.bind) (server_policy "bind must be a valid socket address")
    webhook_secret ← read_webhook_secret variable
    reject_if (not (is_loopback address) && not (is_some webhook_secret)) (
        server_policy
          "non-loopback binding requires CANONICAL_WEBHOOK_SECRET with at least 32 bytes")
    ok (address, webhook_secret)

  -- The embedded program and the listener with its routes are parameters.
  unfoldable pub run :
      Result AssessmentProgram
      → (Address → AppState → ℕ → Result (Unit {0}))
      → EnvironmentVariable
      → ServeConfig
      → Result (Unit {0})
  unfolding check_policy
  run built_in_program serve variable config =
      check_policy variable config >>= λ (address, webhook_secret). built_in_program >>= λ program.
      serve address (record { program = program; webhook_secret = webhook_secret })
        config.max_body_bytes

-- `hex::decode` and HMAC-SHA-256; `none` is an error of theirs
pub record Signatures : Type 0 where
  pub decode_hex : String → Option (List ℕ)
  pub mac : List ℕ → List ℕ → Option (List ℕ)

pub bytes-discrete : Discrete (List ℕ)
bytes-discrete = hlevel ℕ_discrete

-- `verify_slice`: the code is the expected one
abbrev pub verify_slice : List ℕ → Option (List ℕ) → Bool
verify_slice expected none = false
verify_slice expected (some code) = same bytes-discrete code expected

module _ (signatures : Signatures) where
  abbrev pub verify_decoded : List ℕ → List ℕ → Option (List ℕ) → Bool
  verify_decoded secret body none = false
  verify_decoded secret body (some expected) = verify_slice expected (signatures.mac secret body)

  abbrev pub verify_encoded : List ℕ → List ℕ → Option String → Bool
  verify_encoded secret body none = false
  verify_encoded secret body (some encoded) =
      verify_decoded secret body (signatures.decode_hex encoded)

  unfoldable pub verify_signature : List ℕ → List ℕ → String → Bool
  verify_signature secret body signature =
      verify_encoded secret body (strip_prefix "sha256=" signature)

  -- The refusals of `authenticate`: a code and a message. The header is its text, where it has one.
  abbrev pub check_signature : List ℕ → List ℕ → Option String → Option (String × String)
  check_signature secret body none = some ("signature_required", "signed request required")
  check_signature secret body (some signature) =
      if verify_signature secret body signature
      then none
      else some ("invalid_signature", "request signature did not verify")

  unfoldable pub authenticate : AppState → Option String → List ℕ → Option (String × String)
  unfolding verify_signature
  authenticate state header body = elim state.webhook_secret [
    | none ↦ none
    | some secret ↦ check_signature secret body header
  ]

-- A response: its status and its body.
pub data Body : Type 0 where
  report_body : AuditReport → Body
  dossier_body : AuditDossier → Body
  package_body : AuditPackage → Body
  api_error : (error message : String) → Body
  health_body : (status service schema_version : String) → Body
  catalog_body : AssessmentProgram → Body
  markdown_body : String → Body

pub record Response : Type 0 where
  pub status : ℕ
  pub body : Body

abbrev pub error_response : ℕ → String → String → Response
error_response status error message = record { status = status; body = api_error error message }

-- What follows the parsing of a request: 200 with the result, or 422.
abbrev pub answer {ℓ} :
    {A : Type ℓ} → (AuditError → String) → (A → Body) → String → Result A → Response
answer display body rejected (ok value) = record { status = 200; body = body value }
answer display body rejected (err error) = error_response 422 rejected (display error)

-- A handler: the authentication, the parsing and the operation, in this order.
abbrev pub handle {ℓ} :
    {A : Type ℓ} → Option (String × String) → Option A → String → (A → Response) → Response
handle (some (code, message)) request expected operate = error_response 401 code message
handle none none expected operate = error_response 400 "invalid_request" expected
handle none (some request) expected operate = operate request

-- The parsers of the bodies, the text of an error and the printing of a dossier are parameters.
module _ (ext : External) (signatures : Signatures) (display : AuditError → String) where
  unfoldable pub assessment :
      (List ℕ → Option AssessmentRequest) → AppState → Option String → List ℕ → Response
  unfolding authenticate
  assessment parse state header body =
      handle (authenticate signatures state header body) (parse body)
        "body must match canonical.assessment-request/v1 inputs"
        (λ request.
          answer display report_body "assessment_rejected" (assess ext request state.program))

  unfoldable pub audit_engagement :
      (List ℕ → Option AuditRequest) → AppState → Option String → List ℕ → Response
  unfolding authenticate
  audit_engagement parse state header body =
      handle (authenticate signatures state header body) (parse body)
        "body must contain assessment inputs and canonical.audit-engagement/v1"
        (λ request.
          answer display dossier_body "audit_rejected"
            (run_audit ext request.assessment request.engagement state.program))

  unfoldable pub audit_package :
      (AuditDossier → Option String)
      → (List ℕ → Option AuditDossier)
      → AppState
      → Option String
      → List ℕ
      → Response
  unfolding authenticate
  audit_package to_string_pretty parse state header body =
      handle (authenticate signatures state header body) (parse body)
        "body must match canonical.audit-dossier/v1"
        (λ d.
          answer display package_body "package_rejected"
            (build_audit_package ext to_string_pretty d))

abbrev pub health : Response
health = record {
  status = 200;
  body = health_body "ok" "canonical-company-auditor" "canonical.health/v1";
}

abbrev pub catalog : AppState → Response
catalog state = record { status = 200; body = catalog_body state.program }

-- The prompt files of the build are a parameter.
module _ (template : PromptKind → String) where
  abbrev pub prompt_response : Result PromptKind → Response
  prompt_response (ok kind) = record { status = 200; body = markdown_body (template kind) }
  prompt_response (err error) = error_response 404 "unknown_prompt" "unknown prompt name"

  unfoldable pub prompt_template : String → Response
  unfolding from_str
  prompt_template name = prompt_response (from_str name)
