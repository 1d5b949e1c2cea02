-- ===== src/Tests/Audits.antt =====
-- The theorems on sealing, assessments, merging and audits, on the sample audit.
use mathlib.Core.List.{Perm, Memᴰ}
use canonical_company_audito.Prelude.{
  true, String, ◌⊎◌, inl, inr, sym, ◌≡◌, ◌≢◌, ◌↔◌, refl, none, some, [], ◌∷◌, map, All, eq_iff,
  arith,
}
use canonical_company_audito.Outcome.{ok, ok_inj}
use canonical_company_audito.Text.{
  bytes, len, trim_start, trim_end, trim, starts_with, ends_with, strip_prefix, split, compare, lt,
  le, decimal,
}
use canonical_company_audito.Collections.{
  get, insert, collect_into, contains, set_insert, place, sort_by,
}
use canonical_company_audito.Collections.Unique.{for_unique}
use canonical_company_audito.Collections.Sorted.{Ascends}
use canonical_company_audito.Model.{pass}
use canonical_company_audito.Model.Checks.{
  validate_identifier, validate_scope, validate_text, validate_unique_identifiers,
  validate_text_list,
}
use canonical_company_audito.Model.Scope.{scope_contains}
use canonical_company_audito.Model.Validate.{
  validate_lists, validate_manifest, validate_source, validate_attestation, validate_observation,
  validate_bundle,
}
use canonical_company_audito.Program.Validate as Program_checks
use canonical_company_audito.Program.Validate.{
  validate_reference, validate_framework, validate_mapping, validate_rule_names, validate_condition,
  validate_rule_body, validate_program, framework,
}
use canonical_company_audito.Evidence.{
  canonicalize, canonical_json_bytes, sha256, digest, seal_observation, seal_evidence,
}
use canonical_company_audito.Evidence.Sealing.{IsSealed, seal_evidence-IsSealed}
use canonical_company_audito.Engine.{
  value_eq, has_verdict, status_of, apply_operator, evaluate_condition, evaluate_rule,
  known_frameworks, assess, verify_report, count_finding, summarize_from, summary_eq,
}
use canonical_company_audito.Engine as Engine_functions
use canonical_company_audito.Engine.Conditions.{Meaning, evaluate_rule-status}
use canonical_company_audito.Engine.Coverage.{assess-covers_rules}
use canonical_company_audito.Engine.Reports as Reports
use canonical_company_audito.Engine.Reports.{verify_report-eq-ok, assess-verify_report}
use canonical_company_audito.Engine.Summary.{Counts, summarize-Counts}
use canonical_company_audito.Merge.{add_observation, add_bundle, merge_evidence_bundles}
use canonical_company_audito.Merge.Union.{IsUnion, merge_evidence_bundles-IsUnion}
use canonical_company_audito.Audit.{
  audit_status, control_result, add_references, references_from, evidence_index, trail_from,
  build_audit_trail, basis_points, count_status, summarize, conclude, limitations,
}
use canonical_company_audito.Audit.Run.{
  exception_records, control_for, control_results, run_audit, verify_dossier,
}
use canonical_company_audito.Audit.Controls.{
  IsTested, IsClean, IsTally, audit_status-satisfactory, summarize-IsTally,
}
use canonical_company_audito.Audit.Conclusion.{
  Concludes, conclude-Concludes, IsShare, basis_points-IsShare,
}
use canonical_company_audito.Audit.Trail.{
  IsLinked, content, CollisionFree, build_audit_trail-IsLinked, build_audit_trail_unique,
}
use canonical_company_audito.Audit.Dossiers as Dossiers
use canonical_company_audito.Audit.Dossiers.{verify_dossier-eq-ok, run_audit-verify_dossier}
use canonical_company_audito.Audit.Approved.{IsReviewed, run_audit-IsReviewed}
use canonical_company_audito.Audit.Coverage.{IsCovering, run_audit-IsCovering}
use canonical_company_audito.Dossier.{ControlTestStatus, AuditTrailEntry}
use canonical_company_audito.Engagement.{Workpaper}
use canonical_company_audito.Evidence.Canonical.{
  in_object, each_field, swapped, no_fields, digest-Reordered,
}
use canonical_company_audito.Json.{null, bool, object, end, field}
use canonical_company_audito.Tests.Samples.{
  one_order, other_order, nested, nested_facts, ext, company, evidence, request, rule, program,
  paper, engaged, mfa_finding, report, sealed_login, sealed, control, slip_record, first_entry,
  second_entry, trail, dossier,
}
use canonical_company_audito.Tests.Records.{engaged-bound}

bundle_sealed : seal_evidence ext company evidence ≡ ok sealed
unfolding bytes len trim_start trim_end trim starts_with ends_with strip_prefix split compare lt le
    contains set_insert for_unique validate_identifier validate_scope validate_text
    validate_unique_identifiers validate_text_list scope_contains validate_lists validate_manifest
    validate_source validate_attestation validate_observation validate_bundle canonicalize
    canonical_json_bytes sha256 digest seal_observation seal_evidence place sort_by
bundle_sealed = refl

seal_evidence-IsSealed_example : IsSealed ext company evidence sealed
seal_evidence-IsSealed_example = seal_evidence-IsSealed ext company evidence sealed bundle_sealed

rule_evaluated : evaluate_rule ext request (sealed_login ∷ []) rule ≡ ok mfa_finding
unfolding get contains canonicalize canonical_json_bytes sha256 digest value_eq has_verdict
    status_of apply_operator evaluate_condition evaluate_rule
rule_evaluated = refl

evaluate_rule-status_example :
    (mfa_finding.status ≡ pass) ↔ Meaning ext request rule (sealed_login ∷ []) pass
evaluate_rule-status_example =
    evaluate_rule-status ext request rule (sealed_login ∷ []) mfa_finding pass rule_evaluated

program_assessed : assess ext request program ≡ ok report
unfolding bytes len trim_start trim_end trim starts_with ends_with strip_prefix split compare lt le
    contains set_insert for_unique validate_identifier validate_scope validate_text
    validate_unique_identifiers validate_text_list validate_lists validate_manifest validate_source
    validate_attestation validate_observation validate_bundle canonicalize canonical_json_bytes
    sha256 digest place sort_by Program_checks.validate_identifier validate_reference
    validate_framework validate_mapping validate_rule_names validate_condition validate_rule_body
    validate_program framework known_frameworks assess count_finding summarize_from
    Engine_functions.summarize Engine_functions.limitations decimal
program_assessed = rw bundle_sealed (rw rule_evaluated refl)

assess-verify_report_example : verify_report ext report ≡ ok tt
assess-verify_report_example = assess-verify_report ext request program report program_assessed

verify_report-eq-ok_example : (verify_report ext report ≡ ok tt) ↔ Reports.IsBound ext report
verify_report-eq-ok_example = verify_report-eq-ok ext report

assess-covers_rules_example :
    Perm (map (λ f. f.rule_id) report.findings) (map (λ rule. rule.id) program.rules)
    × Ascends (λ f. f.rule_id) report.findings
assess-covers_rules_example = assess-covers_rules ext request program report program_assessed

summarize-Counts_example : Counts report.findings (Engine_functions.summarize report.findings)
summarize-Counts_example = summarize-Counts report.findings

bundles_merged : merge_evidence_bundles ext (evidence ∷ evidence ∷ []) ≡ ok evidence
unfolding bytes len trim_start trim_end trim starts_with ends_with split contains set_insert get
    insert for_unique validate_identifier validate_scope validate_text validate_source
    validate_attestation validate_observation validate_bundle canonicalize canonical_json_bytes
    sha256 digest add_observation add_bundle merge_evidence_bundles
bundles_merged = refl

merge_evidence_bundles-IsUnion_example : IsUnion ext (evidence ∷ evidence ∷ []) evidence
merge_evidence_bundles-IsUnion_example =
    merge_evidence_bundles-IsUnion ext (evidence ∷ evidence ∷ []) evidence bundles_merged

trail_built : build_audit_trail ext engaged.events ≡ ok trail
unfolding canonicalize canonical_json_bytes sha256 digest trail_from build_audit_trail
trail_built = refl

build_audit_trail-IsLinked_example :
    (build_audit_trail ext engaged.events ≡ ok trail)
    ↔ ((map (λ x. x.event) trail ≡ engaged.events) × IsLinked ext none trail)
build_audit_trail-IsLinked_example = build_audit_trail-IsLinked ext engaged.events trail

-- An entry of the trail is its first or its second.
entry_cases : (x : AuditTrailEntry) → Memᴰ x trail → (x ≡ first_entry) ⊎ (x ≡ second_entry)
entry_cases x (Memᴰ.head e) = inl e
entry_cases x (Memᴰ.tail (Memᴰ.head e)) = inr e
entry_cases x (Memᴰ.tail (Memᴰ.tail m)) = elim m [ ]

hashes_differ : first_entry.entry_sha256 ≢ second_entry.entry_sha256
hashes_differ e =
    let test = (eq_iff first_entry.entry_sha256 second_entry.entry_sha256).1 e in ground arith

-- The digests of the contents of the two entries are their hashes.
digests_differ : digest ext (content ext first_entry) ≢ digest ext (content ext second_entry)
unfolding canonicalize canonical_json_bytes sha256 digest
digests_differ e =
    let hash : first_entry.entry_sha256 ≡ second_entry.entry_sha256 = ok_inj e in hashes_differ hash

trail-CollisionFree : CollisionFree ext trail trail
trail-CollisionFree x y m n h = elim (entry_cases x m) [
  | inl p ↦ elim (entry_cases y n) [
    | inl q ↦ rw p (rw q refl)
    | inr q ↦ absurd (digests_differ (rw p at (rw q at h)))
  ]
  | inr p ↦ elim (entry_cases y n) [
    | inl q ↦ absurd (digests_differ (sym (rw p at (rw q at h))))
    | inr q ↦ rw p (rw q refl)
  ]
]

build_audit_trail_unique_example : engaged.events ≡ engaged.events
build_audit_trail_unique_example =
    build_audit_trail_unique ext engaged.events engaged.events trail trail trail_built trail_built
      trail-CollisionFree refl

pub audit_run : run_audit ext request engaged program ≡ ok dossier
unfolding get insert collect_into compare lt le place sort_by set_insert canonicalize
    canonical_json_bytes sha256 digest audit_status control_result add_references references_from
    evidence_index basis_points count_status summarize conclude limitations exception_records
    control_for control_results run_audit
audit_run = rw engaged-bound (rw program_assessed (rw bundle_sealed (rw trail_built refl)))

run_audit-verify_dossier_example : verify_dossier ext dossier ≡ ok tt
run_audit-verify_dossier_example =
    run_audit-verify_dossier ext request engaged program dossier audit_run

verify_dossier-eq-ok_example : (verify_dossier ext dossier ≡ ok tt) ↔ Dossiers.IsBound ext dossier
verify_dossier-eq-ok_example = verify_dossier-eq-ok ext dossier

run_audit-IsCovering_example : IsCovering program dossier.control_results
run_audit-IsCovering_example = run_audit-IsCovering ext request engaged program dossier audit_run

run_audit-IsReviewed_example : All (IsReviewed engaged) dossier.control_results
run_audit-IsReviewed_example =
    run_audit-IsReviewed ext request engaged program dossier audit_run refl

conclude-Concludes_example :
    Concludes engaged
      (control ∷ [])
      (slip_record ∷ [])
      (conclude engaged (control ∷ []) (slip_record ∷ []))
conclude-Concludes_example = conclude-Concludes engaged (control ∷ []) (slip_record ∷ [])

audit_status-satisfactory_example :
    (audit_status pass (some paper) ≡ ControlTestStatus.satisfactory)
    ↔ ((v : Workpaper) × (some paper ≡ some v) × IsTested pass v × IsClean pass v)
audit_status-satisfactory_example = audit_status-satisfactory pass (some paper)

summarize-IsTally_example :
    IsTally engaged
      (control ∷ [])
      (slip_record ∷ [])
      (summarize engaged (control ∷ []) (slip_record ∷ []))
summarize-IsTally_example = summarize-IsTally engaged (control ∷ []) (slip_record ∷ [])

basis_points-IsShare_example : IsShare 2 3 (basis_points 2 3)
basis_points-IsShare_example = basis_points-IsShare 2 3 (omega arith) (omega arith) (omega arith)

keys_differ : ◌≢◌ {A = String} "a" "b"
keys_differ e = let test = (eq_iff "a" "b").1 e in ground arith

digest-Reordered_example :
    digest ext (nested_facts one_order) ≡ digest ext (nested_facts other_order)
digest-Reordered_example =
    digest-Reordered ext (nested_facts one_order) (nested_facts other_order) (nested one_order)
      (nested other_order) refl refl
      (in_object (field "f" (object one_order) end) (field "f" (object other_order) end) (
        each_field "f" (object one_order) (object other_order) end end
          (in_object one_order other_order (swapped "a" "b" null (bool true) end keys_differ))
          no_fields))
