-- ===== src/Engagement/Finalized.antt =====
-- What an accepted engagement that is finalized promises (src/engagement.rs).
use canonical_company_audito.Prelude.{
  ◌≡◌, arith, String, true, false, not, ◌&&◌, ◌||◌, List, [], map, All, All-imp, Memᴰ, any-eq-false,
  any-eq-true, not-eq-false, is_empty, is_some,
}
use canonical_company_audito.Outcome.{ok, invalid, reject_if, for_each-eq-ok, >>-eq-ok}
use canonical_company_audito.Collections.{contains, set_of}
use canonical_company_audito.Collections.Maps.{contains-set_of, contains_iff}
use canonical_company_audito.Engagement.{
  AuditEngagement, Workpaper, AuditException, EngagementActor,
}
use canonical_company_audito.Engagement.Validate.{
  is_finalized, is_settled, is_full_audit, may_review, is_not_tested, is_signed_off,
}
use canonical_company_audito.Engagement.Record.{
  validate_finalized, validate_finalized_workpaper, validate_engagement,
}
use canonical_company_audito.Engagement.Accepted.{validate_engagement-Runs}
use canonical_company_audito.Engagement.Reviewed.{responses_of_run}

-- Tested, signed off, and every exception answered.
pub record IsConcluded (e : AuditEngagement) (w : Workpaper) : Type 0 where
  pub designed : is_not_tested w.design_conclusion ≡ false
  pub operated : is_not_tested w.operating_conclusion ≡ false
  pub approved : is_signed_off w.reviewer_signoff ≡ true
  pub answered :
      All (λ x. Memᴰ x.exception_id (map (λ r. r.exception_id) e.management_responses)) w.exceptions

pub record IsFinal (e : AuditEngagement) : Type 0 where
  pub recipients : is_empty e.report_recipients ≡ false
  pub milestones : All (λ m. is_some m.completed_at ≡ true) e.milestones
  pub requests : All (λ r. is_settled r.status ≡ true) e.evidence_requests
  pub workpapers : All (IsConcluded e) e.workpapers
  pub independent :
      is_full_audit e.mode ≡ true
      → (a : EngagementActor) × Memᴰ a e.actors
        × (a.independent ≡ true)
        × (may_review a.role ≡ true)

IsConcluded-of_run :
    (e : AuditEngagement) (responses : List String) (w : Workpaper)
    → ((j : String)
        → contains j responses ≡ true
        → Memᴰ j (map (λ r. r.exception_id) e.management_responses))
    → validate_finalized_workpaper responses w ≡ ok tt
    → IsConcluded e w
unfolding validate_finalized_workpaper
IsConcluded-of_run e responses w known h =
    let (tested, loop) =
      >>-eq-ok
        (reject_if
          (is_not_tested w.design_conclusion
            || is_not_tested w.operating_conclusion
            || not (is_signed_off w.reviewer_signoff))
          (invalid "workpapers" "finalized workpapers require completed testing and approval"))
        _ h in
    record {
      designed = ground arith;
      operated = ground arith;
      approved = ground arith;
      answered =
          All-imp w.exceptions (λ x p. known x.exception_id (ground arith))
            ((for_each-eq-ok
                (λ (x : AuditException).
                  reject_if (not (contains x.exception_id responses))
                    (invalid "managementResponses" "every finalized exception needs a response"))
                w.exceptions).0
              loop);
    }

IsFinal-of_run :
    (e : AuditEngagement) (responses : List String)
    → ((j : String)
        → contains j responses ≡ true
        → Memᴰ j (map (λ r. r.exception_id) e.management_responses))
    → validate_finalized e responses ≡ ok tt
    → IsFinal e
unfolding validate_finalized
IsFinal-of_run e responses known h = record {
  recipients = ground arith;
  milestones =
      All-imp e.milestones (λ m. not-eq-false (is_some m.completed_at))
        (any-eq-false (λ m. not (is_some m.completed_at)) e.milestones (ground arith));
  requests =
      All-imp e.evidence_requests (λ r. not-eq-false (is_settled r.status))
        (any-eq-false (λ r. not (is_settled r.status)) e.evidence_requests (ground arith));
  workpapers =
      All-imp e.workpapers (λ w. IsConcluded-of_run e responses w known)
        ((for_each-eq-ok (validate_finalized_workpaper responses) e.workpapers).0 (ground arith));
  independent = λ full.
      let (a, present, both) =
        any-eq-true (λ a. a.independent && may_review a.role) e.actors (ground arith) in
      (a, present, ground arith, ground arith);
}

member :
    (j : String) (responses ids : List String)
    → responses ≡ set_of [] ids
    → contains j responses ≡ true
    → contains j ids ≡ true
unfolding contains
member j responses ids same c =
    let law = contains-set_of j [] ids in let c' = rw same at c in ground arith

-- An accepted engagement that is finalized is complete: it has recipients, its milestones are done and
-- its requests settled, every workpaper is tested and approved and its exceptions answered, and a full
-- audit has an independent lead or reviewer.
pub validate_engagement-IsFinal :
    (e : AuditEngagement) → validate_engagement e ≡ ok tt → is_finalized e.phase ≡ true → IsFinal e
validate_engagement-IsFinal e h final =
    let r = validate_engagement-Runs e h in
    let ids = map (λ r. r.exception_id) e.management_responses in
    let (_, collected) = responses_of_run e r in
    IsFinal-of_run e r.responses
      (λ j c. (contains_iff j ids).0 (member j r.responses ids collected c))
      (rw final at r.finalized_run)
