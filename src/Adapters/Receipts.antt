-- ===== src/Adapters/Receipts.antt =====
-- src/agent_eval_evidence.rs: the receipt of a coding-agent evaluation.
use canonical_company_audito.Prelude.{ℕ, ℤ, String, Bool, true, false, Option, List}

pub record AgentEvalEvidenceContext : Type 0 where
  pub tenant_id : String
  pub scope_id : String
  pub expected_repository : String
  pub expected_base_sha : String
  pub collected_at : ℤ
  pub valid_for_seconds : ℤ
  pub adapter_version : String

pub data AgentEvalCaseStatus : Type 0 where
  passed failed skipped flaky infra_failed invalid_case : AgentEvalCaseStatus

abbrev pub as_str : AgentEvalCaseStatus → String
as_str passed = "passed"
as_str failed = "failed"
as_str skipped = "skipped"
as_str flaky = "flaky"
as_str infra_failed = "infra_failed"
as_str invalid_case = "invalid_case"

abbrev pub counts_as_executed : AgentEvalCaseStatus → Bool
counts_as_executed skipped = false
counts_as_executed invalid_case = false
counts_as_executed _ = true

abbrev pub is_passed : AgentEvalCaseStatus → Bool
is_passed passed = true
is_passed _ = false

pub record AgentEvalCaseResult : Type 0 where
  pub case_id : String
  pub status : AgentEvalCaseStatus
  pub candidate_tree_sha : Option String
  pub verifier_receipt_sha256 : Option String
  pub duration_ms : ℕ
  pub tool_calls : ℕ
  pub retry_count : ℕ
  pub input_tokens : Option ℕ
  pub output_tokens : Option ℕ
  pub observed_cost_usd_micros : Option ℕ

pub record AgentEvalReceipt : Type 0 where
  pub kind : String
  pub schema_version : String
  pub repository : String
  pub base_sha : String
  pub benchmark_suite : String
  pub benchmark_suite_version : String
  pub benchmark_suite_sha256 : String
  pub harness : String
  pub harness_version : String
  pub harness_sha256 : String
  pub agent : String
  pub model : String
  pub provider : String
  pub environment_identity : String
  pub toolchain_identity : String
  pub case_results : List AgentEvalCaseResult
  pub declared_case_count : ℕ
  pub executed_case_count : ℕ
  pub passing_case_count : ℕ
  pub non_passing_case_count : ℕ
  pub result_artifact_sha256 : List String
  pub receipt_sha256 : String

pub record ReceiptPayload : Type 0 where
  pub kind : String
  pub schema_version : String
  pub repository : String
  pub base_sha : String
  pub benchmark_suite : String
  pub benchmark_suite_version : String
  pub benchmark_suite_sha256 : String
  pub harness : String
  pub harness_version : String
  pub harness_sha256 : String
  pub agent : String
  pub model : String
  pub provider : String
  pub environment_identity : String
  pub toolchain_identity : String
  pub case_results : List AgentEvalCaseResult
  pub declared_case_count : ℕ
  pub executed_case_count : ℕ
  pub passing_case_count : ℕ
  pub non_passing_case_count : ℕ
  pub result_artifact_sha256 : List String
