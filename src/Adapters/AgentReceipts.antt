-- ===== src/Adapters/AgentReceipts.antt =====
-- src/agent_eval_evidence.rs: what the evidence of an accepted receipt is.
use canonical_company_audito.Prelude.{
  ◌≡◌, ◌+◌, ◌+ℤ◌, refl, subst, ℕ, ℤ, String, true, Option, some, is_some, List, [], ◌∷◌, map,
  length, All, All-imp, Pairwise, Pairwise-imp, count, count-le-length, arith, eq_iff, ltb,
}
use canonical_company_audito.Outcome.{
  ok, json, integrity, invalid, reject_if, ok_or, ok_or-eq-ok, >>=-eq-ok, >>-eq-ok,
  last_checked-eq-ok, map_result, map_result-Pairwise,
}
use canonical_company_audito.Collections.Unique.{for_unique, Distinct, for_unique-Passes}
use canonical_company_audito.Json.{Value}
use canonical_company_audito.Model.{EvidenceObservation, EvidenceBundle}
use canonical_company_audito.Model.Validate.{validate_bundle}
use canonical_company_audito.External.{External}
use canonical_company_audito.Evidence.{digest}
use canonical_company_audito.Adapters.{freshness_end}
use canonical_company_audito.Adapters.Scanned.{freshness_end-eq-ok}
use canonical_company_audito.Adapters.Receipts.{
  AgentEvalEvidenceContext, AgentEvalReceipt, AgentEvalCaseResult, is_passed, counts_as_executed,
}
use canonical_company_audito.Adapters.AgentEval.{
  validate_sha256, validate_case_result, nothing_more, validate_binding, validate_fields,
  validate_cases, receipt_payload_sha256, validate_receipt, max_receipt_bytes, max_validity_seconds,
}
use canonical_company_audito.Adapters.AgentRuns.{
  run_facts, run_identity, run_observation, case_facts, case_identity, case_observation,
  eval_source, bundle_of, agent_eval_receipt_to_evidence,
}

-- A passed case carries the tree that passed and the receipt of its verifier.
abbrev pub IsProved : AgentEvalCaseResult → Type 0
IsProved c =
    is_passed c.status ≡ true
    → (is_some c.candidate_tree_sha ≡ true) × (is_some c.verifier_receipt_sha256 ≡ true)

validate_case_result-IsProved :
    (c : AgentEvalCaseResult) → validate_case_result c ≡ ok tt → IsProved c
unfolding validate_case_result
validate_case_result-IsProved c h passed = (ground arith, ground arith)

-- The cases differ, and the counts are those of the cases.
pub record IsTallied (r : AgentEvalReceipt) : Type 0 where
  pub distinct : Distinct (map (λ c. c.case_id) r.case_results)
  pub proved : All IsProved r.case_results
  pub declared : r.declared_case_count ≡ length r.case_results
  pub executed : r.executed_case_count ≡ count (λ c. counts_as_executed c.status) r.case_results
  pub passing : r.passing_case_count ≡ count (λ c. is_passed c.status) r.case_results
  pub shared : r.passing_case_count + r.non_passing_case_count ≡ r.declared_case_count

validate_cases-IsTallied : (r : AgentEvalReceipt) → validate_cases r ≡ ok tt → IsTallied r
unfolding validate_cases
validate_cases-IsTallied r h =
    let (artifacts, _, h1) =
      >>=-eq-ok
        (for_unique (λ artifact. artifact) (validate_sha256 "agentEvalResultArtifactSha256") _
          nothing_more [] r.result_artifact_sha256)
        _ h in
    let (ids, run, h2) =
      >>=-eq-ok
        (for_unique (λ c. c.case_id) validate_case_result
          (invalid "agentEvalCaseId" "contains duplicate case IDs") nothing_more [] r.case_results)
        _ h1 in
    let passes =
      (for_unique-Passes (λ c. c.case_id) validate_case_result _ nothing_more [] r.case_results
        run).0 in
    let fits = count-le-length (λ c. is_passed c.status) r.case_results in
    record {
      distinct = passes.distinct;
      proved = All-imp r.case_results validate_case_result-IsProved passes.befores;
      declared = ground (arith, h2);
      executed = ground (arith, h2);
      passing = ground (arith, h2);
      shared = ground (arith, h2, fits);
    }

module _ (ext : External) where
  -- A receipt that is bound to the request and to its own digest.
  pub record IsReceiptFor (context : AgentEvalEvidenceContext) (r : AgentEvalReceipt) : Type 0 where
    pub repository : r.repository ≡ context.expected_repository
    pub base : r.base_sha ≡ context.expected_base_sha
    pub tallied : IsTallied r
    pub sealed : receipt_payload_sha256 ext r ≡ ok r.receipt_sha256

  validate_receipt-IsReceiptFor :
      (r : AgentEvalReceipt) (context : AgentEvalEvidenceContext)
      → validate_receipt ext r context ≡ ok tt
      → IsReceiptFor context r
  unfolding validate_receipt validate_binding
  validate_receipt-IsReceiptFor r context h =
      let (binding, h1) = >>-eq-ok (validate_binding r context) _ h in
      let (_, h2) = >>-eq-ok (validate_fields r) _ h1 in
      let (cases, last) = >>-eq-ok (validate_cases r) _ h2 in
      record {
        repository = (eq_iff r.repository context.expected_repository).0 (ground (arith, binding));
        base = (eq_iff r.base_sha context.expected_base_sha).0 (ground (arith, binding));
        tallied = validate_cases-IsTallied r cases;
        sealed = last_checked-eq-ok (receipt_payload_sha256 ext r) r.receipt_sha256 integrity last;
      }

  -- An observation of a receipt: of the scope and the source, with the times of the request.
  pub record IsObserved (context : AgentEvalEvidenceContext) (evidence_type : String)
      (facts : List (String × Value)) (o : EvidenceObservation) : Type 0 where
    pub type_is : o.evidence_type ≡ evidence_type
    pub subject : o.subject ≡ context.scope_id
    pub source_is : o.source ≡ eval_source context
    pub collected : o.collected_at ≡ context.collected_at
    pub valid : o.valid_until ≡ context.collected_at +ℤ context.valid_for_seconds
    pub facts_are : o.facts ≡ facts

  module _ (context : AgentEvalEvidenceContext) (end : ℤ)
      (sum : end ≡ context.collected_at +ℤ context.valid_for_seconds) (r : AgentEvalReceipt) where
    case_observation-IsObserved :
        (c : AgentEvalCaseResult) (o : EvidenceObservation)
        → case_observation ext context end (eval_source context) r c ≡ ok o
        → IsObserved context "agent_eval.case" (case_facts r c) o
    unfolding case_observation
    case_observation-IsObserved c o h =
        let (x, _, whole) = >>=-eq-ok (digest ext (case_identity context r c)) _ h in
        record {
          type_is = cc whole;
          subject = cc whole;
          source_is = cc whole;
          collected = cc whole;
          valid = cc (whole, sum);
          facts_are = cc whole;
        }

    run_observation-IsObserved :
        (o : EvidenceObservation)
        → run_observation ext context end (eval_source context) r ≡ ok o
        → IsObserved context "agent_eval.run" (run_facts r) o
    unfolding run_observation
    run_observation-IsObserved o h =
        let (x, _, whole) = >>=-eq-ok (digest ext (run_identity context r)) _ h in
        record {
          type_is = cc whole;
          subject = cc whole;
          source_is = cc whole;
          collected = cc whole;
          valid = cc (whole, sum);
          facts_are = cc whole;
        }

  -- The evidence of a receipt: one observation for the run and one for each case, in order.
  pub record IsReceiptEvidence (context : AgentEvalEvidenceContext) (r : AgentEvalReceipt)
      (b : EvidenceBundle) : Type 0 where
    pub tenant : b.tenant_id ≡ context.tenant_id
    pub scope : b.scope_id ≡ context.scope_id
    pub accepted : validate_bundle b ≡ ok tt
    pub run : EvidenceObservation
    pub cases : List EvidenceObservation
    pub observations_are : b.observations ≡ run ∷ cases
    pub run_is : IsObserved context "agent_eval.run" (run_facts r) run
    pub cases_are :
        Pairwise (λ c. IsObserved context "agent_eval.case" (case_facts r c)) r.case_results cases

  module _ (parse : List ℕ → Option AgentEvalReceipt) where
    -- An accepted receipt is for the requested repository and revision and carries its own digest,
    -- its cases differ, its counts are those of its cases and its passed cases are proved. The bundle
    -- is valid and of the request's tenant and scope; its observations are one for the run and then one
    -- for each case in order, with their facts and the source and the times of the request.
    pub agent_eval_receipt_to_evidence-IsReceiptFor :
        (context : AgentEvalEvidenceContext) (receipt_json : List ℕ) (b : EvidenceBundle)
        → agent_eval_receipt_to_evidence ext parse context receipt_json ≡ ok b
        → (r : AgentEvalReceipt) × (parse receipt_json ≡ some r)
          × IsReceiptFor context r
          × IsReceiptEvidence context r b
    unfolding agent_eval_receipt_to_evidence
    agent_eval_receipt_to_evidence-IsReceiptFor context receipt_json b h =
        let source = eval_source context in
        let (_, h1) = >>-eq-ok (reject_if (ltb max_receipt_bytes (length receipt_json)) _) _ h in
        let (end, fresh, h2) =
          >>=-eq-ok
            (freshness_end _ _ max_validity_seconds context.collected_at context.valid_for_seconds)
            _ h1 in
        let (r, parsed, h3) = >>=-eq-ok (ok_or (parse receipt_json) json) _ h2 in
        let (valid, h4) = >>-eq-ok (validate_receipt ext r context) _ h3 in
        let (run, first, h5) = >>=-eq-ok (run_observation ext context end source r) _ h4 in
        let (cases, each, h6) =
          >>=-eq-ok (map_result (case_observation ext context end source r) r.case_results) _ h5 in
        let (accepted, whole) = >>-eq-ok (validate_bundle (bundle_of context (run ∷ cases))) _ h6 in
        let same : bundle_of context (run ∷ cases) ≡ b = cc whole in
        let (sum, _, _) = freshness_end-eq-ok _ _ max_validity_seconds _ _ fresh in
        let evidence : IsReceiptEvidence context r (bundle_of context (run ∷ cases)) = record {
          tenant = refl;
          scope = refl;
          accepted = accepted;
          run = run;
          cases = cases;
          observations_are = refl;
          run_is = run_observation-IsObserved context end sum r run first;
          cases_are =
              Pairwise-imp r.case_results cases (case_observation-IsObserved context end sum r) (
                map_result-Pairwise (case_observation ext context end source r) r.case_results cases
                  each);
        } in
        (
          r,
          ok_or-eq-ok (parse receipt_json) json parsed,
          validate_receipt-IsReceiptFor r context valid,
          subst (IsReceiptEvidence context r) same evidence,
        )
