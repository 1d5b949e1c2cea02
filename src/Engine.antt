-- ===== src/Engine.antt =====
-- src/engine.rs: the assessment of a request and the verification of a report.
pub mod Conditions
pub mod Summary
pub mod Reports
pub mod Coverage
use Prim.Native.String.{◌++◌}
use canonical_company_audito.Prelude.{
  ℕ, ◌+◌, String, Bool, true, false, not, ◌&&◌, ◌||◌, ◌==◌, Option, none, some, List, [], ◌∷◌, leb,
  leb_ℤ, ℤ, if◌then◌else◌, map, filter, head?, is_some, ltb, eqb,
}
use canonical_company_audito.Outcome.{
  Result, ok, err, integrity, unsupported_version, unknown_catalog_item, reject_if, ◌>>=◌, ◌>>◌,
  for_each, map_result,
}
use canonical_company_audito.Text.{is_blank, decimal}
use canonical_company_audito.Collections.{get, sort_by, contains}
use canonical_company_audito.Json.{
  Value, null, bool, number, string, array, object, Items, nil, cons, Fields, end, field,
}
use canonical_company_audito.Model.{
  report_schema, CompanyManifest, AssessmentRequest, Severity, high, rank, FindingStatus, pass,
  fail, unknown, FrameworkMapping, Finding, AssessmentSummary, AuditReport,
}
use canonical_company_audito.Model.Validate.{validate_manifest, validate_bundle}
use canonical_company_audito.Program.{
  ConditionOperator, equals, number_at_least, number_at_most, non_empty, AssessmentRule,
  AssessmentProgram,
}
use canonical_company_audito.Program.Validate.{validate_program, framework}
use canonical_company_audito.External.{
  F64, ReportIdentityCore, manifest, program, finding_identity, report_core, External,
}
use canonical_company_audito.Evidence.{SealedObservation, SealedEvidence, digest, seal_evidence}

abbrev pub bool_eq : Bool → Bool → Bool
bool_eq true b = b
bool_eq false b = not b

-- `let a = a?; let b = b?; Some(compare(a, b))`
abbrev pub compare_numbers : (F64 → F64 → Bool) → Option F64 → Option F64 → Option Bool
compare_numbers test (some a) (some b) = some (test a b)
compare_numbers test _ _ = none

-- `contains(&Some(expected))` on the evaluations
unfoldable pub has_verdict : Bool → List (Option Bool) → Bool
has_verdict expected [] = false
has_verdict expected (none ∷ rest) = has_verdict expected rest
has_verdict expected (some verdict ∷ rest) = bool_eq verdict expected || has_verdict expected rest

unfoldable pub status_of : List (Option Bool) → FindingStatus
unfolding has_verdict
status_of evaluations =
    if has_verdict true evaluations
    then pass
    else if has_verdict false evaluations
    then fail
    else unknown

abbrev pub summary_of : FindingStatus → String
summary_of pass = "Current evidence satisfied the deterministic test."
summary_of fail =
    "Current evidence did not satisfy the deterministic test; no raw fact values are included in this report."
summary_of unknown =
    "No current, type-compatible evidence was available; this is an evidence gap, not proof that the control failed."

-- one round of the loop of `summarize`
unfoldable pub count_finding : AssessmentSummary → Finding → AssessmentSummary
count_finding s f = elim f.status [
  | pass ↦ record s { passed = s.passed + 1 }
  | fail ↦
      if leb (rank high) (rank f.severity)
      then record s { failed = s.failed + 1; high_or_critical = s.high_or_critical + 1 }
      else record s { failed = s.failed + 1 }
  | unknown ↦ record s { unknown = s.unknown + 1 }
]

unfoldable pub summarize_from : AssessmentSummary → List Finding → AssessmentSummary
summarize_from s [] = s
summarize_from s (f ∷ fs) = summarize_from (count_finding s f) fs

unfoldable pub summarize : List Finding → AssessmentSummary
unfolding summarize_from count_finding
summarize findings =
    summarize_from (record { passed = 0; failed = 0; unknown = 0; high_or_critical = 0 }) findings

unfoldable pub limitations : ℕ → List String
limitations unknown_count =
    "This readiness assessment is not a certification, legal opinion, regulatory determination, or independent auditor attestation."
    ∷ "Framework mappings are directional aids; they do not assert equivalence between standards or replace authoritative source material."
    ∷ "The engine evaluated normalized evidence supplied for the declared tenant, scope, period, and program; it did not independently prove completeness."
    ∷ "AI-generated narrative must cite finding and evidence identifiers and cannot alter finding status or become audit evidence."
    ∷ (if ltb 0 unknown_count
        then (decimal unknown_count
            ++ " test(s) lack current type-compatible evidence and require collection or manual review.")
          ∷ []
        else [])

-- the derived `==` on summaries
unfoldable pub summary_eq : AssessmentSummary → AssessmentSummary → Bool
summary_eq a b =
    eqb a.passed b.passed
    && eqb a.failed b.failed
    && eqb a.unknown b.unknown
    && eqb a.high_or_critical b.high_or_critical

-- the filter of `evaluate_rule`
abbrev pub is_relevant : AssessmentRequest → AssessmentRule → SealedObservation → Bool
is_relevant request rule o =
    o.input.evidence_type == rule.evidence_type
    && leb_ℤ o.input.collected_at request.manifest.assessment_period.ends_at
    && leb_ℤ request.manifest.assessment_period.ends_at o.input.valid_until

abbrev pub subject_of : CompanyManifest → List SealedObservation → String
subject_of m [] = m.scope_id
subject_of m (o ∷ os) = o.input.subject

module _ (ext : External) where
  unfoldable mutual
    pub value_eq : Value → Value → Bool
    value_eq null null = true
    value_eq (bool a) (bool b) = bool_eq a b
    value_eq (number a) (number b) = ext.number_eq a b
    value_eq (string a) (string b) = a == b
    value_eq (array xs) (array ys) = items_eq xs ys
    value_eq (object xs) (object ys) = fields_eq xs ys
    value_eq _ _ = false

    pub items_eq : Items → Items → Bool
    items_eq nil nil = true
    items_eq (cons a xs) (cons b ys) = value_eq a b && items_eq xs ys
    items_eq _ _ = false

    pub fields_eq : Fields → Fields → Bool
    fields_eq end end = true
    fields_eq (field j a xs) (field k b ys) = j == k && value_eq a b && fields_eq xs ys
    fields_eq _ _ = false

  abbrev pub as_f64 : Value → Option F64
  as_f64 (number n) = ext.as_f64 n
  as_f64 _ = none

  abbrev pub non_empty_value : Value → Option Bool
  non_empty_value (string s) = some (not (is_blank s))
  non_empty_value (array nil) = some false
  non_empty_value (array (cons v vs)) = some true
  non_empty_value _ = none

  -- the `match` on the operator of a rule
  unfoldable pub apply_operator : ConditionOperator → Value → Value → Option Bool
  unfolding value_eq
  apply_operator equals actual expected = some (value_eq actual expected)
  apply_operator number_at_least actual expected =
      compare_numbers ext.f64_ge (as_f64 actual) (as_f64 expected)
  apply_operator number_at_most actual expected =
      compare_numbers ext.f64_le (as_f64 actual) (as_f64 expected)
  apply_operator non_empty actual expected = non_empty_value actual

  unfoldable pub evaluate_condition : AssessmentRule → SealedObservation → Option Bool
  unfolding apply_operator
  evaluate_condition rule o = elim (get rule.condition.fact o.input.facts) [
    | none ↦ none
    | some actual ↦ apply_operator rule.condition.operator actual rule.condition.expected
  ]

  unfoldable pub evaluate_rule :
      AssessmentRequest → List SealedObservation → AssessmentRule → Result Finding
  evaluate_rule request observations rule = do
    let relevant = filter (is_relevant request rule) observations
    let status = status_of (map (evaluate_condition rule) relevant)
    let evidence_ids = map (λ o. o.observation_id) relevant
    finding_id ← digest ext (
        finding_identity (record {
          tag = "canonical.finding/v1";
          tenant_id = request.manifest.tenant_id;
          scope_id = request.manifest.scope_id;
          rule_id = rule.id;
          status = status;
          evidence_ids = evidence_ids;
        }))
    ok (record {
      finding_id = finding_id;
      rule_id = rule.id;
      title = rule.title;
      category = rule.category;
      severity = rule.severity;
      status = status;
      subject = subject_of request.manifest relevant;
      summary = summary_of status;
      evidence_ids = evidence_ids;
      framework_mappings =
          filter (λ mapping. contains mapping.framework_id request.manifest.frameworks)
            rule.framework_mappings;
      remediation = rule.remediation;
    })

  -- the loop of `assess` over the selected frameworks
  unfoldable pub known_frameworks : AssessmentProgram → List String → Result (Unit {0})
  known_frameworks p frameworks =
      for_each
        (λ id. reject_if (not (is_some (framework p.frameworks id))) (unknown_catalog_item id))
        frameworks

  abbrev pub core_of : AuditReport → ReportIdentityCore
  core_of r = record {
    schema_version = report_schema;
    manifest = r.manifest;
    manifest_sha256 = r.manifest_sha256;
    evidence_sha256 = r.evidence_sha256;
    program_sha256 = r.program_sha256;
    summary = r.summary;
    findings = r.findings;
    limitations = r.limitations;
  }

  unfoldable pub assess : AssessmentRequest → AssessmentProgram → Result AuditReport
  assess request p = do
    validate_manifest request.manifest
    validate_bundle request.evidence
    validate_program ext p
    known_frameworks p request.manifest.frameworks
    sealed ← seal_evidence ext request.manifest request.evidence
    manifest_sha256 ← digest ext (manifest request.manifest)
    program_sha256 ← digest ext (program p)
    evaluated ← map_result (evaluate_rule request sealed.observations) p.rules
    let findings = sort_by (λ f. f.rule_id) evaluated
    let summary = summarize findings
    let limits = limitations summary.unknown
    report_id ← digest ext (
        report_core (record {
          schema_version = report_schema;
          manifest = request.manifest;
          manifest_sha256 = manifest_sha256;
          evidence_sha256 = sealed.evidence_sha256;
          program_sha256 = program_sha256;
          summary = summary;
          findings = findings;
          limitations = limits;
        }))
    ok (record {
      schema_version = report_schema;
      report_id = report_id;
      manifest_sha256 = manifest_sha256;
      evidence_sha256 = sealed.evidence_sha256;
      program_sha256 = program_sha256;
      manifest = request.manifest;
      summary = summary;
      findings = findings;
      limitations = limits;
    })

  unfoldable pub verify_report : AuditReport → Result (Unit {0})
  verify_report r = do
    reject_if (not (r.schema_version == report_schema)) (unsupported_version r.schema_version)
    validate_manifest r.manifest
    manifest_digest ← digest ext (manifest r.manifest)
    reject_if
        (not (manifest_digest == r.manifest_sha256)
          || not (summary_eq (summarize r.findings) r.summary))
        integrity
    report_digest ← digest ext (report_core (core_of r))
    reject_if (not (report_digest == r.report_id)) integrity
