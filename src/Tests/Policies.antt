-- ===== src/Tests/Policies.antt =====
-- The theorems on the policy of the service and on the declarations of a customer.
use canonical_company_audito.Prelude.{
  ℕ, ◌≡◌, ◌↔◌, ◌≢◌, refl, String, Bool, false, Option, some, List, [], ◌∷◌, map, All, eq_iff, arith,
}
use canonical_company_audito.Outcome.{AuditError, ok}
use canonical_company_audito.Text.{
  bytes, len, trim_start, trim_end, trim, starts_with, ends_with, compare, lt, le,
}
use canonical_company_audito.Collections.Unique.{Distinct}
use canonical_company_audito.Model.{AssessmentRequest}
use canonical_company_audito.Dossier.{AuditDossier}
use canonical_company_audito.Readiness.{
  Question, Framework, Catalog, Context, implemented, Answer, Response,
}
use canonical_company_audito.Readiness.Fields.{
  identifier, text, blank_text, leap, maximum_day, valid_day, valid_date,
}
use canonical_company_audito.Readiness.Responses.{validate_context, draft, validate}
use canonical_company_audito.Readiness.Analysis.{answer_to, analyze}
use canonical_company_audito.Readiness.Drafts.{draft-validate}
use canonical_company_audito.Readiness.Gaps.{IsComplete, analyze-eq-false}
use canonical_company_audito.Server.{
  ServeConfig, AuditRequest, AppState, present, read_webhook_secret, check_policy, Signatures,
  assessment, audit_engagement, audit_package,
}
use canonical_company_audito.Server.Policy.{
  IsAllowed, IsRefused, check_policy-IsAllowed, unauthorized_iff,
}
use canonical_company_audito.Tests.Samples.{ext, program, request, engaged, dossier}

abbrev secret : String
secret = "0123456789abcdef0123456789abcdef"

abbrev config : ServeConfig
config = record { bind = "0.0.0.0:8080"; max_body_bytes = 65536 }

abbrev from_str : String → Option String
from_str bind = some bind

abbrev is_loopback : String → Bool
is_loopback address = false

policy_checked :
    check_policy from_str is_loopback (present secret) config
    ≡ ok ("0.0.0.0:8080", some (bytes secret))
unfolding bytes len read_webhook_secret check_policy
policy_checked = refl

check_policy-IsAllowed_example :
    IsAllowed from_str is_loopback config "0.0.0.0:8080" (some (bytes secret))
check_policy-IsAllowed_example =
    check_policy-IsAllowed from_str is_loopback (present secret) config "0.0.0.0:8080"
      (some (bytes secret)) policy_checked

-- The code of a body is the body itself.
abbrev signatures : Signatures
signatures = record { decode_hex = λ s. some (bytes s); mac = λ key body. some body }

abbrev display : AuditError → String
display e = "error"

abbrev guarded : AppState
guarded = record { program = program; webhook_secret = some (bytes secret) }

abbrev header : Option String
header = some "sha256=body"

abbrev print_dossier : AuditDossier → Option String
print_dossier d = some "{}"

abbrev read_assessment : List ℕ → Option AssessmentRequest
read_assessment body = some request

abbrev read_audit : List ℕ → Option AuditRequest
read_audit body = some (record { assessment = request; engagement = engaged })

abbrev read_dossier : List ℕ → Option AuditDossier
read_dossier body = some dossier

unauthorized_iff_example :
    IsRefused ext signatures display guarded header
      (bytes "body")
      (assessment ext signatures display read_assessment guarded header (bytes "body"))
    × IsRefused ext signatures display guarded header
        (bytes "body")
        (audit_engagement ext signatures display read_audit guarded header (bytes "body"))
    × IsRefused ext signatures display guarded header (bytes "body") (
        audit_package ext signatures display print_dossier read_dossier guarded header
          (bytes "body"))
unauthorized_iff_example =
    unauthorized_iff ext signatures display guarded header (bytes "body") print_dossier
      read_assessment read_audit read_dossier

abbrev question : String → Question
question id = record { id = id; prompt = "Is it done?"; evidence = "A record"; method = "Inspect" }

abbrev framework : Framework
framework = record {
  id = "soc2";
  title = "SOC 2";
  edition = "2017";
  scope_note = "All";
  sources = "AICPA" ∷ [];
  questions = question "q1" ∷ question "q2" ∷ [];
}

abbrev catalog : Catalog
catalog = record { version = "1"; frameworks = framework ∷ [] }

abbrev context : Context
context = record {
  customer_id = "acme";
  assessment_id = "a1";
  scope = "Payments";
  period_start = "2024-01-01";
  period_end = "2024-12-31";
  as_of = "2025-01-31";
}

context_valid : validate_context context ≡ ok tt
unfolding bytes len trim_start trim_end trim starts_with ends_with compare lt le identifier text
    blank_text leap maximum_day valid_day valid_date validate_context
context_valid = refl

keys_differ : ◌≢◌ {A = String} "q1" "q2"
keys_differ e = let test = (eq_iff "q1" "q2").1 e in ground arith

questions-Distinct : Distinct (map (λ q. q.id) framework.questions)
questions-Distinct = ((keys_differ, tt), (tt, tt))

draft-validate_example :
    validate catalog framework context (draft catalog framework context) ≡ ok tt
draft-validate_example = draft-validate framework context catalog context_valid questions-Distinct

abbrev answer : String → Answer
answer id = record {
  question_id = id;
  status = implemented;
  owner = "ann";
  notes = "";
  evidence_ref = "wiki";
  evidence_date = "2024-05-01";
  reviewer = "bob";
  due_date = "";
}

abbrev response : Response
response = record {
  schema_version = "canonical.readiness-response/v1";
  catalog_version = "1";
  framework_id = "soc2";
  context = context;
  answers = answer "q1" ∷ answer "q2" ∷ [];
}

analyze-eq-false_example :
    ((analyze framework response).1 ≡ false)
    ↔ All (λ q. IsComplete (answer_to response.answers q)) framework.questions
analyze-eq-false_example = analyze-eq-false response framework
