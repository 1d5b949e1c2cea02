-- ===== src/Adapters/AgentEval.antt =====
-- src/agent_eval_evidence.rs: the validation of a receipt, and its observations.
use canonical_company_audito.Prelude.{
  ℕ, ◌*◌, ◌-◌, ℤ, pos, String, Bool, not, ◌&&◌, ◌||◌, ◌==◌, Option, none, some, [], ◌∷◌, length,
  ltb, leb, eqb, all, any, count, is_empty, is_some,
}
use canonical_company_audito.Outcome.{
  Result, ok, invalid, integrity, unsupported_version, reject_if, ok_or, ◌>>=◌, ◌>>◌, for_each,
}
use canonical_company_audito.Text.{
  codes, bytes, len, is_blank, is_control, is_ascii_alphanumeric, trim, strip_prefix, split_once,
}
use canonical_company_audito.Collections.Unique.{for_unique}
use canonical_company_audito.External.{receipt_payload, External}
use canonical_company_audito.Evidence.{digest}
use canonical_company_audito.Adapters.Receipts.{
  AgentEvalEvidenceContext, AgentEvalReceipt, AgentEvalCaseResult, ReceiptPayload, is_passed,
  counts_as_executed,
}

abbrev pub receipt_schema : String
receipt_schema = "elenkos.agent-eval.receipt.v1"

abbrev pub receipt_kind : String
receipt_kind = "evaluation_receipt"

abbrev pub max_receipt_bytes : ℕ
max_receipt_bytes = 2 * 1024 * 1024

abbrev pub max_case_results : ℕ
max_case_results = 1000

abbrev pub max_text_bytes : ℕ
max_text_bytes = 512

abbrev pub max_validity_seconds : ℤ
max_validity_seconds = pos (30 * 24 * 60 * 60)

abbrev pub is_repo_byte : ℕ → Bool
is_repo_byte b = is_ascii_alphanumeric b || eqb b b'.' || eqb b b'_' || eqb b b'-'

unfoldable pub safe_repo_segment : String → Bool
safe_repo_segment value =
    not (is_blank value) && leb (len value) 128 && all is_repo_byte (bytes value)

abbrev pub repo_parts : String × String → Result (Unit {0})
repo_parts (owner, repository) =
    reject_if
      (any (eqb b'/') (codes repository)
        || not (safe_repo_segment owner)
        || not (safe_repo_segment repository))
      (invalid "agentEvalRepository" "must use safe owner/repository form")

unfoldable pub validate_repository : String → Result (Unit {0})
unfolding safe_repo_segment
validate_repository value =
    ok_or (split_once b'/' value) (invalid "agentEvalRepository" "must use owner/repository form")
    >>= repo_parts

abbrev pub is_lower_hex : String → Bool
is_lower_hex value = all (λ b. leb b'0' b && leb b b'9' || leb b'a' b && leb b b'f') (bytes value)

unfoldable pub validate_git_sha : String → String → Result (Unit {0})
validate_git_sha field value =
    reject_if (not (eqb (len value) 40 || eqb (len value) 64) || not (is_lower_hex value))
      (invalid field "must be a lowercase 40- or 64-hex Git SHA")

unfoldable pub validate_sha256 : String → String → Result (Unit {0})
validate_sha256 field value =
    reject_if (not (eqb (len value) 64) || not (is_lower_hex value))
      (invalid field "must be a lowercase 64-hex SHA-256 digest")

unfoldable pub validate_text : String → String → Result (Unit {0})
validate_text field value =
    reject_if
      (is_blank value
        || ltb max_text_bytes (len value)
        || not (trim value == value)
        || any is_control (codes value))
      (invalid field "must be trimmed text containing 1..=512 bytes")

abbrev pub validate_entry : String × String → Result (Unit {0})
validate_entry (field, value) = validate_text field value

-- `if let Some(value) = option { check(value)?; }`
abbrev pub if_some : (String → Result (Unit {0})) → Option String → Result (Unit {0})
if_some check none = ok tt
if_some check (some value) = check value

unfoldable pub validate_case_result : AgentEvalCaseResult → Result (Unit {0})
unfolding validate_text validate_git_sha validate_sha256
validate_case_result r = do
  validate_text "agentEvalCaseId" r.case_id
  if_some (validate_git_sha "agentEvalCandidateTreeSha") r.candidate_tree_sha
  if_some (validate_sha256 "agentEvalVerifierReceiptSha256") r.verifier_receipt_sha256
  reject_if
      (is_passed r.status
        && (not (is_some r.candidate_tree_sha) || not (is_some r.verifier_receipt_sha256)))
      (invalid "agentEvalPassedCase"
        "passed cases require candidate_tree_sha and verifier_receipt_sha256")

unfoldable pub validate_binding : AgentEvalReceipt → AgentEvalEvidenceContext → Result (Unit {0})
unfolding validate_repository validate_git_sha
validate_binding r context = do
  reject_if (not (r.kind == receipt_kind)) (invalid "agentEvalKind" "must be evaluation_receipt")
  reject_if (not (r.schema_version == receipt_schema)) (unsupported_version r.schema_version)
  reject_if (not (r.repository == context.expected_repository))
      (invalid "agentEvalRepository" "receipt repository does not match the requested repository")
  reject_if (not (r.base_sha == context.expected_base_sha)) (
      invalid "agentEvalBaseSha"
        "receipt base SHA does not match the requested repository revision")
  validate_repository r.repository
  validate_git_sha "agentEvalBaseSha" r.base_sha

unfoldable pub validate_fields : AgentEvalReceipt → Result (Unit {0})
unfolding validate_text validate_sha256
validate_fields r = do
  for_each validate_entry (
      ("benchmarkSuite", r.benchmark_suite)
      ∷ ("benchmarkSuiteVersion", r.benchmark_suite_version)
      ∷ ("harness", r.harness)
      ∷ ("harnessVersion", r.harness_version)
      ∷ ("agent", r.agent)
      ∷ ("model", r.model)
      ∷ ("provider", r.provider)
      ∷ ("environmentIdentity", r.environment_identity)
      ∷ ("toolchainIdentity", r.toolchain_identity)
      ∷ [])
  validate_sha256 "benchmarkSuiteSha256" r.benchmark_suite_sha256
  validate_sha256 "harnessSha256" r.harness_sha256
  validate_sha256 "receiptSha256" r.receipt_sha256
  reject_if (is_empty r.case_results || ltb max_case_results (length r.case_results))
      (invalid "agentEvalCaseResults" "must contain 1..=1000 results")
  reject_if (ltb max_case_results (length r.result_artifact_sha256))
      (invalid "agentEvalResultArtifacts" "may contain at most 1000 digests")

-- The two loops and the counts, which the second loop adds up.
abbrev pub nothing_more {ℓ} : {A : Type ℓ} → A → Result (Unit {0})
nothing_more _ = ok tt

unfoldable pub validate_cases : AgentEvalReceipt → Result (Unit {0})
unfolding validate_sha256 validate_case_result
validate_cases r = do
  _ ←
      for_unique (λ artifact. artifact) (validate_sha256 "agentEvalResultArtifactSha256")
        (invalid "agentEvalResultArtifactSha256" "contains duplicate artifact digests") nothing_more
        [] r.result_artifact_sha256
  _ ←
      for_unique (λ result. result.case_id) validate_case_result
        (invalid "agentEvalCaseId" "contains duplicate case IDs") nothing_more [] r.case_results
  let passing = count (λ result. is_passed result.status) r.case_results
  let executed = count (λ result. counts_as_executed result.status) r.case_results
  let declared = length r.case_results
  reject_if
      (not (eqb r.declared_case_count declared)
        || not (eqb r.executed_case_count executed)
        || not (eqb r.passing_case_count passing)
        || not (eqb r.non_passing_case_count (declared - passing)))
      (invalid "agentEvalCounts"
        "declared/executed/passing/non-passing counts do not match case_results")

abbrev pub payload_of : AgentEvalReceipt → ReceiptPayload
payload_of r = record {
  kind = r.kind;
  schema_version = r.schema_version;
  repository = r.repository;
  base_sha = r.base_sha;
  benchmark_suite = r.benchmark_suite;
  benchmark_suite_version = r.benchmark_suite_version;
  benchmark_suite_sha256 = r.benchmark_suite_sha256;
  harness = r.harness;
  harness_version = r.harness_version;
  harness_sha256 = r.harness_sha256;
  agent = r.agent;
  model = r.model;
  provider = r.provider;
  environment_identity = r.environment_identity;
  toolchain_identity = r.toolchain_identity;
  case_results = r.case_results;
  declared_case_count = r.declared_case_count;
  executed_case_count = r.executed_case_count;
  passing_case_count = r.passing_case_count;
  non_passing_case_count = r.non_passing_case_count;
  result_artifact_sha256 = r.result_artifact_sha256;
}

module _ (ext : External) where
  unfoldable pub receipt_payload_sha256 : AgentEvalReceipt → Result String
  receipt_payload_sha256 r = do
    canonical ← digest ext (receipt_payload (payload_of r))
    ok_or (strip_prefix "sha256:" canonical) integrity

  unfoldable pub validate_receipt : AgentEvalReceipt → AgentEvalEvidenceContext → Result (Unit {0})
  unfolding validate_binding validate_fields validate_cases receipt_payload_sha256
  validate_receipt r context = do
    validate_binding r context
    validate_fields r
    validate_cases r
    observed_digest ← receipt_payload_sha256 r
    reject_if (not (observed_digest == r.receipt_sha256)) integrity
