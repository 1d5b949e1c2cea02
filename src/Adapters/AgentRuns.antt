-- ===== src/Adapters/AgentRuns.antt =====
-- src/agent_eval_evidence.rs: the observations of a validated receipt.
use canonical_company_audito.Prelude.{ℕ, ℤ, String, Option, none, List, [], ◌∷◌, length, ltb}
use canonical_company_audito.Outcome.{
  Result, ok, json, invalid, reject_if, ok_or, ◌>>=◌, ◌>>◌, map_result,
}
use canonical_company_audito.Collections.{collect_into}
use canonical_company_audito.Json.{Value, string}
use canonical_company_audito.Model.{
  evidence_schema, EvidenceSource, connector, EvidenceObservation, EvidenceBundle,
}
use canonical_company_audito.Model.Validate.{validate_bundle}
use canonical_company_audito.External.{text, optional_text, Document, tuple, External}
use canonical_company_audito.Evidence.{digest}
use canonical_company_audito.Adapters.{natural_value, insert_optional, freshness_end}
use canonical_company_audito.Adapters.Receipts.{
  AgentEvalEvidenceContext, AgentEvalReceipt, AgentEvalCaseResult, as_str,
}
use canonical_company_audito.Adapters.AgentEval.{
  max_receipt_bytes, max_validity_seconds, validate_receipt,
}

unfoldable pub run_facts : AgentEvalReceipt → List (String × Value)
run_facts r = collect_into [] (
    ("repository", string r.repository)
    ∷ ("baseSha", string r.base_sha)
    ∷ ("benchmarkSuite", string r.benchmark_suite)
    ∷ ("benchmarkSuiteVersion", string r.benchmark_suite_version)
    ∷ ("benchmarkSuiteSha256", string r.benchmark_suite_sha256)
    ∷ ("harness", string r.harness)
    ∷ ("harnessVersion", string r.harness_version)
    ∷ ("harnessSha256", string r.harness_sha256)
    ∷ ("agent", string r.agent)
    ∷ ("model", string r.model)
    ∷ ("provider", string r.provider)
    ∷ ("environmentIdentity", string r.environment_identity)
    ∷ ("toolchainIdentity", string r.toolchain_identity)
    ∷ ("declaredCaseCount", natural_value r.declared_case_count)
    ∷ ("executedCaseCount", natural_value r.executed_case_count)
    ∷ ("passingCaseCount", natural_value r.passing_case_count)
    ∷ ("nonPassingCaseCount", natural_value r.non_passing_case_count)
    ∷ ("receiptSha256", string r.receipt_sha256)
    ∷ [])

unfoldable pub case_facts : AgentEvalReceipt → AgentEvalCaseResult → List (String × Value)
case_facts r c = insert_optional "observedCostUsdMicros" natural_value c.observed_cost_usd_micros (
    insert_optional "outputTokens" natural_value c.output_tokens (
      insert_optional "inputTokens" natural_value c.input_tokens (
        insert_optional "verifierReceiptSha256" string c.verifier_receipt_sha256 (
          insert_optional "candidateTreeSha" string c.candidate_tree_sha (
            collect_into [] (
              ("caseId", string c.case_id)
              ∷ ("status", string (as_str c.status))
              ∷ ("durationMs", natural_value c.duration_ms)
              ∷ ("toolCalls", natural_value c.tool_calls)
              ∷ ("retryCount", natural_value c.retry_count)
              ∷ ("evaluationReceiptSha256", string r.receipt_sha256)
              ∷ []))))))

abbrev pub run_identity : AgentEvalEvidenceContext → AgentEvalReceipt → Document
run_identity context r = tuple (
    text "canonical.agent-eval-run/v1"
    ∷ text context.tenant_id
    ∷ text context.scope_id
    ∷ text r.repository
    ∷ text r.base_sha
    ∷ text r.benchmark_suite_sha256
    ∷ text r.harness_sha256
    ∷ text r.receipt_sha256
    ∷ [])

abbrev pub case_identity :
    AgentEvalEvidenceContext → AgentEvalReceipt → AgentEvalCaseResult → Document
case_identity context r c = tuple (
    text "canonical.agent-eval-case/v1"
    ∷ text context.tenant_id
    ∷ text context.scope_id
    ∷ text r.receipt_sha256
    ∷ text c.case_id
    ∷ text (as_str c.status)
    ∷ optional_text c.candidate_tree_sha
    ∷ optional_text c.verifier_receipt_sha256
    ∷ [])

abbrev pub eval_source : AgentEvalEvidenceContext → EvidenceSource
eval_source context = connector "external.agent-eval" context.adapter_version

abbrev pub bundle_of : AgentEvalEvidenceContext → List EvidenceObservation → EvidenceBundle
bundle_of context observations = record {
  schema_version = evidence_schema;
  tenant_id = context.tenant_id;
  scope_id = context.scope_id;
  observations = observations;
}

module _ (ext : External) where
  unfoldable pub run_observation :
      AgentEvalEvidenceContext → ℤ → EvidenceSource → AgentEvalReceipt → Result EvidenceObservation
  unfolding run_facts
  run_observation context valid_until source r = do
    external_id ← digest ext (run_identity context r)
    ok (record {
      external_id = external_id;
      evidence_type = "agent_eval.run";
      subject = context.scope_id;
      source = source;
      collected_at = context.collected_at;
      valid_until = valid_until;
      facts = run_facts r;
      attestation = none;
    })

  unfoldable pub case_observation :
      AgentEvalEvidenceContext
      → ℤ
      → EvidenceSource
      → AgentEvalReceipt
      → AgentEvalCaseResult
      → Result EvidenceObservation
  unfolding case_facts
  case_observation context valid_until source r c = do
    external_id ← digest ext (case_identity context r c)
    ok (record {
      external_id = external_id;
      evidence_type = "agent_eval.case";
      subject = context.scope_id;
      source = source;
      collected_at = context.collected_at;
      valid_until = valid_until;
      facts = case_facts r c;
      attestation = none;
    })

  -- `serde_json::from_slice` on the receipt
  module _ (parse : List ℕ → Option AgentEvalReceipt) where
    unfoldable pub agent_eval_receipt_to_evidence :
        AgentEvalEvidenceContext → List ℕ → Result EvidenceBundle
    unfolding run_observation case_observation
    agent_eval_receipt_to_evidence context receipt_json = do
      reject_if (ltb max_receipt_bytes (length receipt_json))
          (invalid "agentEvalReceipt" "may contain at most 2097152 bytes")
      valid_until ←
          freshness_end "agentEvalFreshness"
            "requires collectedAt >= 0 and validForSeconds in 1..=2592000" max_validity_seconds
            context.collected_at context.valid_for_seconds
      receipt ← ok_or (parse receipt_json) json
      validate_receipt ext receipt context
      run ← run_observation context valid_until (eval_source context) receipt
      found ←
          map_result (case_observation context valid_until (eval_source context) receipt)
            receipt.case_results
      validate_bundle (bundle_of context (run ∷ found))
      ok (bundle_of context (run ∷ found))
