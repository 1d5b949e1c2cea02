-- ===== src/Engagement/Against.antt =====
-- What an engagement is bound to when it is validated against an assessment (src/engagement.rs).
use canonical_company_audito.Prelude.{
  ◌≡◌, ◌↔◌, refl, arith, String, true, not, ◌==◌, eq_iff, List, [], ◌∷◌, map, All, All-imp, Memᴰ,
  same_iff, ℤ-discrete, and-eq-true,
}
use canonical_company_audito.Outcome.{
  ok, invalid, scope_denied, reject_if, for_each, for_each-eq-ok, >>-eq-ok,
}
use canonical_company_audito.Collections.{contains, set_of}
use canonical_company_audito.Collections.Maps.{contains-set_of, contains_iff}
use canonical_company_audito.Model.{CompanyManifest, EvidenceBundle}
use canonical_company_audito.Program.{AssessmentProgram}
use canonical_company_audito.Engagement.{AuditEngagement}
use canonical_company_audito.Engagement.Validate.{is_finalized}
use canonical_company_audito.Engagement.Record.{
  validate_engagement, validate_against, named_rules, named_evidence, lists_eq, matches_manifest,
}

-- One tenant, scope, period and list of frameworks; every rule named is in the program and every
-- evidence named is in the bundle; finalized, each rule of the program has a workpaper.
pub record IsBound (e : AuditEngagement) (m : CompanyManifest) (b : EvidenceBundle)
    (p : AssessmentProgram) : Type 0 where
  pub valid : validate_engagement e ≡ ok tt
  pub tenant : e.tenant_id ≡ m.tenant_id
  pub scope : e.scope_id ≡ m.scope_id
  pub starts : e.period.starts_at ≡ m.assessment_period.starts_at
  pub ends : e.period.ends_at ≡ m.assessment_period.ends_at
  pub frameworks : e.framework_ids ≡ m.frameworks
  pub rules : All (λ id. Memᴰ id (map (λ r. r.id) p.rules)) (named_rules e)
  pub evidence : All (λ id. Memᴰ id (map (λ o. o.external_id) b.observations)) (named_evidence e)
  pub all_tested :
      is_finalized e.phase ≡ true
      → (id : String)
      → Memᴰ id (map (λ r. r.id) p.rules) ↔ Memᴰ id (map (λ w. w.rule_id) e.workpapers)

lists_eq-eq : (xs ys : List String) → lists_eq xs ys ≡ true → xs ≡ ys
lists_eq-eq [] [] h = refl
lists_eq-eq [] (y ∷ ys) h = absurd (ground arith)
lists_eq-eq (x ∷ xs) [] h = absurd (ground arith)
lists_eq-eq (x ∷ xs) (y ∷ ys) h =
    let (first, rest) = and-eq-true (x == y) (lists_eq xs ys) h in
    let heads = (eq_iff x y).0 first in let tails = lists_eq-eq xs ys rest in cc

set_member : (j : String) (ks : List String) → (contains j (set_of [] ks) ≡ true) ↔ Memᴰ j ks
unfolding contains
set_member j ks =
    let law = contains-set_of j [] ks in
    (
      λ c. (contains_iff j ks).0 (ground arith),
      λ m. let c = (contains_iff j ks).1 m in ground arith,
    )

-- An engagement that is accepted against an assessment is valid and bound to the manifest, to the
-- program and to the evidence.
pub validate_against-IsBound :
    (e : AuditEngagement) (m : CompanyManifest) (b : EvidenceBundle) (p : AssessmentProgram)
    → validate_against e m b p ≡ ok tt
    → IsBound e m b p
unfolding validate_against matches_manifest
validate_against-IsBound e m b p h =
    let rule_names = map (λ r. r.id) p.rules in
    let names = map (λ o. o.external_id) b.observations in
    let (valid, h1) = >>-eq-ok (validate_engagement e) _ h in
    let (matches, h2) = >>-eq-ok (reject_if (not (matches_manifest e m)) scope_denied) _ h1 in
    let (rules, h3) =
      >>-eq-ok
        (for_each
          (λ id.
            reject_if (not (contains id (set_of [] rule_names)))
              (invalid "ruleId" "references a rule outside the assessment program"))
          (named_rules e))
        _ h2 in
    let (evidence, h4) =
      >>-eq-ok
        (for_each
          (λ id.
            reject_if (not (contains id (set_of [] names)))
              (invalid "evidenceExternalId" "references absent evidence"))
          (named_evidence e))
        _ h3 in
    let same_manifest : matches_manifest e m ≡ true = ground arith in
    record {
      valid = valid;
      tenant = (eq_iff e.tenant_id m.tenant_id).0 (ground arith);
      scope = (eq_iff e.scope_id m.scope_id).0 (ground arith);
      starts =
          (same_iff ℤ-discrete e.period.starts_at m.assessment_period.starts_at).0 (ground arith);
      ends = (same_iff ℤ-discrete e.period.ends_at m.assessment_period.ends_at).0 (ground arith);
      frameworks = lists_eq-eq e.framework_ids m.frameworks (ground arith);
      rules =
          All-imp (named_rules e) (λ id k. (set_member id rule_names).0 (ground arith))
            ((for_each-eq-ok
                (λ (id : String).
                  reject_if (not (contains id (set_of [] rule_names)))
                    (invalid "ruleId" "references a rule outside the assessment program"))
                (named_rules e)).0
              rules);
      evidence =
          All-imp (named_evidence e) (λ id k. (set_member id names).0 (ground arith))
            ((for_each-eq-ok
                (λ (id : String).
                  reject_if (not (contains id (set_of [] names)))
                    (invalid "evidenceExternalId" "references absent evidence"))
                (named_evidence e)).0
              evidence);
      all_tested = λ final id.
          let tested = map (λ w. w.rule_id) e.workpapers in
          let sets : set_of [] tested ≡ set_of [] rule_names =
            lists_eq-eq (set_of [] tested) (set_of [] rule_names)
              (let last = rw final at h4 in ground arith) in
          (
            λ k. (set_member id tested).0 (rw sets ((set_member id rule_names).1 k)),
            λ k. (set_member id rule_names).0 (rw (← sets) ((set_member id tested).1 k)),
          );
    }
