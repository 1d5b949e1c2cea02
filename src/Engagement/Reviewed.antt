-- ===== src/Engagement/Reviewed.antt =====
-- What an accepted engagement promises (src/engagement.rs): separate preparers and reviewers,
-- references that resolve, and contiguous events.
use canonical_company_audito.Prelude.{
  ◌≡◌, ◌≢◌, inl, inr, arith, String, true, false, ◌==◌, eq_iff, some, [], map, All, All-imp, Memᴰ,
  Option-cases, ◌≤ℤ◌,
}
use canonical_company_audito.Outcome.{ok, >>=-eq-ok}
use canonical_company_audito.Collections.{get, contains, set_of}
use canonical_company_audito.Collections.Maps.{contains_iff}
use canonical_company_audito.Collections.Unique.{Distinct, for_unique-Passes, Passes}
use canonical_company_audito.Engagement.{
  AuditEngagement, Workpaper, SamplePlan, ReviewSignoff, ManagementResponse, EngagementActor,
}
use canonical_company_audito.Engagement.Checks.{unique_by}
use canonical_company_audito.Engagement.Validate.{Actors, Plans}
use canonical_company_audito.Engagement.Fieldwork.{
  validate_workpaper_body, validate_workpapers, validate_plan_reference, check_plan,
  validate_signoff, check_signoff,
}
use canonical_company_audito.Engagement.Record.{
  validate_events, validate_responses, check_response, check_response_target, repeated_response,
  validate_engagement,
}
use canonical_company_audito.Engagement.Fields.{
  IsIndex, require_actor-known, count_from, validate_events_from-sequence,
}
use canonical_company_audito.Engagement.Accepted.{
  Runs, validate_engagement-Runs, validate_actors-IsIndex, validate_sample_plans-IsIndex,
  exception_ids, IsWorked, validate_workpaper_loop-IsWorked,
}

-- An actor of the engagement with the identifier.
pub record IsActor (e : AuditEngagement) (actor_id : String) : Type 0 where
  pub actor : EngagementActor
  pub present : Memᴰ actor e.actors
  pub named : actor.actor_id ≡ actor_id

-- A known reviewer other than the preparer, not before the preparation.
pub record IsReview (e : AuditEngagement) (w : Workpaper) (s : ReviewSignoff) : Type 0 where
  pub reviewer : IsActor e s.reviewer_id
  pub independent : s.reviewer_id ≢ w.preparer_id
  pub later : w.prepared_at ≤ℤ s.reviewed_at

-- A sample plan of the engagement that tests the workpaper's rule.
pub record IsPlan (e : AuditEngagement) (w : Workpaper) (plan_id : String) : Type 0 where
  pub plan : SamplePlan
  pub present : Memᴰ plan e.sample_plans
  pub named : plan.sample_plan_id ≡ plan_id
  pub of_rule : plan.rule_id ≡ w.rule_id

pub record IsSound (e : AuditEngagement) (w : Workpaper) : Type 0 where
  pub preparer : IsActor e w.preparer_id
  pub review : (s : ReviewSignoff) → w.reviewer_signoff ≡ some s → IsReview e w s
  pub plan : (p : String) → w.sample_plan_id ≡ some p → IsPlan e w p

IsActor-of_get :
    (e : AuditEngagement) (actors : Actors)
    → IsIndex (λ a. a.actor_id) e.actors actors
    → (k : String) → ((a : EngagementActor) × (get k actors ≡ some a))
    → IsActor e k
IsActor-of_get e actors index k (a, found) =
    let (present, named) = index.sound k a found in
    record { actor = a; present = present; named = named }

module _ (e : AuditEngagement) (actors : Actors) (plans : Plans)
    (actor_index : IsIndex (λ a. a.actor_id) e.actors actors)
    (plan_index : IsIndex (λ s. s.sample_plan_id) e.sample_plans plans) where
  IsReview-of_run :
      (w : Workpaper) (s : ReviewSignoff) → check_signoff actors w s ≡ ok tt → IsReview e w s
  IsReview-of_run w s h =
      let differ : (s.reviewer_id == w.preparer_id) ≡ false = ground arith in
      record {
        reviewer =
            IsActor-of_get e actors actor_index s.reviewer_id
              (require_actor-known actors s.reviewer_id "workpaper reviewer" (ground arith));
        independent = λ p. ground (arith, (eq_iff s.reviewer_id w.preparer_id).1 p);
        later = ground arith;
      }

  IsPlan-of_run :
      (w : Workpaper) (p : String) → check_plan w.rule_id (get p plans) ≡ ok tt → IsPlan e w p
  IsPlan-of_run w p h = elim (Option-cases (get p plans)) [
    | inl n ↦ absurd (ground arith)
    | inr (plan, found) ↦
        let (present, named) = plan_index.sound p plan found in
        record {
          plan = plan;
          present = present;
          named = named;
          of_rule = (eq_iff plan.rule_id w.rule_id).0 (ground arith);
        }
  ]

  IsSound-of_body : (w : Workpaper) → validate_workpaper_body actors plans w ≡ ok tt → IsSound e w
  unfolding validate_workpaper_body validate_signoff validate_plan_reference
  IsSound-of_body w h = record {
    preparer =
        IsActor-of_get e actors actor_index w.preparer_id
          (require_actor-known actors w.preparer_id "workpaper preparer" (ground arith));
    review = λ s signed. IsReview-of_run w s (ground arith);
    plan = λ p planned. IsPlan-of_run w p (ground arith);
  }

loop_of_run :
    (e : AuditEngagement) (r : Runs e) → IsWorked r.actors r.plans [] [] e.workpapers r.exceptions
unfolding validate_workpapers
loop_of_run e r =
    let run = r.workpapers_run in
    let (_, _, loop) =
      >>=-eq-ok (unique_by (λ w. w.workpaper_id) "workpapers" e.workpapers 10000) _ run in
    validate_workpaper_loop-IsWorked r.actors r.plans [] [] e.workpapers r.exceptions loop

-- Every workpaper of an accepted engagement is prepared by an actor of it; its sign-off is by another
-- actor of it and not earlier than the preparation; its sample plan is one of the engagement's and
-- tests the same rule.
pub validate_engagement-IsSound :
    (e : AuditEngagement) → validate_engagement e ≡ ok tt → All (IsSound e) e.workpapers
validate_engagement-IsSound e h =
    let r = validate_engagement-Runs e h in
    let worked = loop_of_run e r in
    All-imp e.workpapers
      (IsSound-of_body e r.actors r.plans (validate_actors-IsIndex e r.actors r.actors_run)
        ((validate_sample_plans-IsIndex e r.plans r.plans_run).0))
      worked.bodies

-- The names of the engagement are unambiguous: one workpaper per rule, one record per exception, one
-- response per exception, and every response answers an exception of the engagement.
pub record IsUnambiguous (e : AuditEngagement) : Type 0 where
  pub actors : Distinct (map (λ a. a.actor_id) e.actors)
  pub plans : Distinct (map (λ s. s.sample_plan_id) e.sample_plans)
  pub rules : Distinct (map (λ w. w.rule_id) e.workpapers)
  pub exceptions : Distinct (exception_ids e.workpapers)
  pub responses : Distinct (map (λ r. r.exception_id) e.management_responses)
  pub answers : All (λ r. Memᴰ r.exception_id (exception_ids e.workpapers)) e.management_responses

pub responses_of_run :
    (e : AuditEngagement) (r : Runs e)
    → Passes
        (λ r. r.exception_id)
        (check_response_target r.exceptions)
        repeated_response
        (check_response r.actors)
        []
        e.management_responses
      × (r.responses ≡ set_of [] (map (λ r. r.exception_id) e.management_responses))
unfolding validate_responses
responses_of_run e r =
    let run = r.responses_run in
    let (_, _, loop) =
      >>=-eq-ok (unique_by (λ r. r.response_id) "managementResponses" e.management_responses 10000)
        _ run in
    for_unique-Passes (λ r. r.exception_id) (check_response_target r.exceptions) repeated_response
      (check_response r.actors) [] e.management_responses loop

answer_of_target :
    (e : AuditEngagement) (r : Runs e) (m : ManagementResponse)
    → check_response_target r.exceptions m ≡ ok tt
    → Memᴰ m.exception_id (exception_ids e.workpapers)
unfolding check_response_target contains
answer_of_target e r m h =
    let known : contains m.exception_id r.exceptions ≡ true = ground arith in
    let all_ids = (loop_of_run e r).collected m.exception_id in
    (contains_iff m.exception_id (exception_ids e.workpapers)).0 (ground arith)

-- In an accepted engagement actors, sample plans and exceptions have distinct identifiers, each rule
-- has at most one workpaper, each exception at most one response, and each response an exception.
pub validate_engagement-IsUnambiguous :
    (e : AuditEngagement) → validate_engagement e ≡ ok tt → IsUnambiguous e
validate_engagement-IsUnambiguous e h =
    let r = validate_engagement-Runs e h in
    let worked = loop_of_run e r in
    let responses = (responses_of_run e r).0 in
    record {
      actors = (validate_actors-IsIndex e r.actors r.actors_run).distinct;
      plans = ((validate_sample_plans-IsIndex e r.plans r.plans_run).0).distinct;
      rules = worked.rules_differ;
      exceptions = worked.exceptions_differ;
      responses = responses.distinct;
      answers = All-imp e.management_responses (answer_of_target e r) responses.befores;
    }

-- The events of an accepted engagement are numbered from zero without a gap, each by an actor of it.
pub validate_engagement-events :
    (e : AuditEngagement)
    → validate_engagement e ≡ ok tt
    → (map (λ v. v.sequence) e.events ≡ count_from 0 e.events)
      × All (λ v. IsActor e v.actor_id) e.events
unfolding validate_events
validate_engagement-events e h =
    let r = validate_engagement-Runs e h in
    let index = validate_actors-IsIndex e r.actors r.actors_run in
    let (numbered, known) = validate_events_from-sequence r.actors 0 e.events r.events_run in
    (numbered, All-imp e.events (λ v. IsActor-of_get e r.actors index v.actor_id) known)
