-- ===== src/Engagement/Fieldwork.antt =====
-- src/engagement.rs: the sample plans and the workpapers.
use canonical_company_audito.Prelude.{
  String, true, not, ◌&&◌, ◌||◌, ◌==◌, Option, none, some, List, [], ◌∷◌, ltb, eqb, length, ltb_ℤ,
}
use canonical_company_audito.Outcome.{
  AuditError, Result, ok, err, invalid, reject_if, ◌>>=◌, ◌>>◌, for_each,
}
use canonical_company_audito.Collections.{get, contains, set_insert}
use canonical_company_audito.Collections.Unique.{for_unique}
use canonical_company_audito.Engagement.{
  SamplePlan, AuditException, ReviewSignoff, Workpaper, AuditEngagement,
}
use canonical_company_audito.Engagement.Checks.{
  identifier, text, optional_text, timestamp, digest, unique_identifiers, unique_by, require_actor,
}
use canonical_company_audito.Engagement.Validate.{Actors, Plans, is_full_population}

-- `u64::try_from(usize)` never fails on the supported 64-bit targets.
unfoldable pub validate_sample : SamplePlan → Result (Unit {0})
validate_sample s = do
  identifier "samplePlanId" s.sample_plan_id
  identifier "sample ruleId" s.rule_id
  identifier "populationId" s.population_id
  text "sample rationale" s.rationale 4000
  reject_if
      (eqb s.population_size 0
        || eqb s.sample_size 0
        || ltb s.population_size s.sample_size
        || not (eqb (length s.selected_item_fingerprints) s.sample_size)
        || is_full_population s.method && not (eqb s.sample_size s.population_size))
      (invalid "samplePlans" "population, sample size, and selection disagree")
  _ ←
      for_unique (λ f. f) (digest "selectedItemFingerprint")
        (invalid "samplePlans" "selected fingerprints must be unique") (λ _. ok tt) []
        s.selected_item_fingerprints
  ok tt

unfoldable pub validate_sample_plans : AuditEngagement → Result Plans
validate_sample_plans e = do
  plans ← unique_by (λ s. s.sample_plan_id) "samplePlans" e.sample_plans 10000
  for_each validate_sample e.sample_plans
  ok plans

abbrev pub check_plan : String → Option SamplePlan → Result (Unit {0})
check_plan rule_id none = err (invalid "samplePlanId" "references an unknown sample plan")
check_plan rule_id (some sample) =
    reject_if (not (sample.rule_id == rule_id))
      (invalid "samplePlanId" "sample plan tests a different rule")

unfoldable pub validate_plan_reference : Plans → Workpaper → Result (Unit {0})
validate_plan_reference plans w = elim w.sample_plan_id [
  | none ↦ ok tt
  | some plan_id ↦ check_plan w.rule_id (get plan_id plans)
]

abbrev pub check_signoff : Actors → Workpaper → ReviewSignoff → Result (Unit {0})
check_signoff actors w signoff = do
  require_actor actors signoff.reviewer_id "workpaper reviewer"
  reject_if (signoff.reviewer_id == w.preparer_id)
      (invalid "reviewerId" "reviewer must differ from preparer")
  timestamp "reviewedAt" signoff.reviewed_at
  reject_if (ltb_ℤ signoff.reviewed_at w.prepared_at)
      (invalid "reviewedAt" "cannot precede workpaper preparation")
  optional_text "review note" signoff.note 4000

unfoldable pub validate_signoff : Actors → Workpaper → Result (Unit {0})
validate_signoff actors w = elim w.reviewer_signoff [
  | none ↦ ok tt
  | some signoff ↦ check_signoff actors w signoff
]

-- `validate_workpaper`, up to the insertion of the rule and after it
unfoldable pub validate_workpaper_names : Workpaper → Result (Unit {0})
validate_workpaper_names w = do
  identifier "workpaperId" w.workpaper_id
  identifier "workpaper ruleId" w.rule_id

unfoldable pub validate_workpaper_body : Actors → Plans → Workpaper → Result (Unit {0})
validate_workpaper_body actors plans w = do
  require_actor actors w.preparer_id "workpaper preparer"
  timestamp "preparedAt" w.prepared_at
  text "procedurePerformed" w.procedure_performed 8000
  unique_identifiers "workpaper evidenceExternalIds" w.evidence_external_ids 10000 true
  validate_plan_reference plans w
  validate_signoff actors w

abbrev pub repeated_rule : AuditError
repeated_rule = invalid "workpapers" "only one workpaper may test each rule"

unfoldable pub validate_workpaper : Actors → Plans → List String → Workpaper → Result (List String)
validate_workpaper actors plans rules w = do
  validate_workpaper_names w
  reject_if (contains w.rule_id rules) repeated_rule
  validate_workpaper_body actors plans w
  ok (set_insert w.rule_id rules)

abbrev pub repeated_exception : AuditError
repeated_exception = invalid "exceptions" "exception identifiers must be unique"

abbrev pub check_exception : AuditException → Result (Unit {0})
check_exception x = do
  text "exception title" x.title 500
  text "exception description" x.description 8000
  unique_identifiers "exception evidenceExternalIds" x.evidence_external_ids 10000 true

unfoldable pub validate_exceptions : List String → List AuditException → Result (List String)
validate_exceptions =
    for_unique (λ x. x.exception_id) (λ x. identifier "exceptionId" x.exception_id)
      repeated_exception check_exception

-- the loop over the workpapers, with the rules and the exceptions seen so far
unfoldable pub validate_workpaper_loop :
    Actors → Plans → List String → List String → List Workpaper → Result (List String)
validate_workpaper_loop actors plans rules exceptions [] = ok exceptions
validate_workpaper_loop actors plans rules exceptions (w ∷ ws) = do
  rules' ← validate_workpaper actors plans rules w
  exceptions' ← validate_exceptions exceptions w.exceptions
  validate_workpaper_loop actors plans rules' exceptions' ws

unfoldable pub validate_workpapers : AuditEngagement → Actors → Plans → Result (List String)
validate_workpapers e actors plans = do
  _ ← unique_by (λ w. w.workpaper_id) "workpapers" e.workpapers 10000
  validate_workpaper_loop actors plans [] [] e.workpapers
