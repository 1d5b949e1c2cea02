-- ===== src/Engagement/Accepted.antt =====
-- What the parts of an accepted engagement satisfy: the loops of src/engagement.rs.
use canonical_company_audito.Prelude.{
  ◌≡◌, ◌≢◌, refl, sym, ap, arith, String, false, ◌||◌, eq_iff, List, [], ◌∷◌, ◌++◌, map, All,
  All-imp, All-append, flat_map,
}
use canonical_company_audito.Outcome.{
  Result, ok, ◌>>=◌, ◌>>◌, for_each, for_each-eq-ok, >>=-eq-ok, >>-eq-ok,
}
use canonical_company_audito.Collections.{contains, set_insert}
use canonical_company_audito.Collections.Maps.{contains-set_of, contains-set_insert}
use canonical_company_audito.Collections.Unique.{Distinct, for_unique-Passes}
use canonical_company_audito.Engagement.{AuditEngagement, Workpaper}
use canonical_company_audito.Engagement.Checks.{unique_by, identifier}
use canonical_company_audito.Engagement.Validate.{
  Actors, Plans, validate_actors, validate_milestones, validate_requests, is_finalized,
}
use canonical_company_audito.Engagement.Fieldwork.{
  validate_sample_plans, validate_workpaper_body, validate_workpaper, validate_workpaper_loop,
  validate_workpapers, validate_exceptions, repeated_exception, check_exception, validate_sample,
}
use canonical_company_audito.Engagement.Record.{
  validate_events, validate_responses, validate_finalized, validate_engagement, only_if,
}
use canonical_company_audito.Engagement.Fields.{IsIndex, unique_by-IsIndex}

-- The tables that the validation builds, and the runs that build and use them.
pub record Runs (e : AuditEngagement) : Type 0 where
  pub actors : Actors
  pub plans : Plans
  pub exceptions : List String
  pub responses : List String
  pub actors_run : validate_actors e ≡ ok actors
  pub plans_run : validate_sample_plans e ≡ ok plans
  pub workpapers_run : validate_workpapers e actors plans ≡ ok exceptions
  pub responses_run : validate_responses e actors exceptions ≡ ok responses
  pub events_run : validate_events e actors ≡ ok tt
  pub finalized_run : only_if (is_finalized e.phase) (validate_finalized e responses) ≡ ok tt

-- `validate_engagement` from the actors on
abbrev after_fields : AuditEngagement → Result (Unit {0})
after_fields e = do
  actors ← validate_actors e
  validate_milestones e
  validate_requests e actors
  plans ← validate_sample_plans e
  exceptions ← validate_workpapers e actors plans
  responses ← validate_responses e actors exceptions
  validate_events e actors
  only_if (is_finalized e.phase) (validate_finalized e responses)

validate_engagement-after_fields :
    (e : AuditEngagement) → validate_engagement e ≡ ok tt → after_fields e ≡ ok tt
unfolding validate_engagement
validate_engagement-after_fields e h = ground arith

pub validate_engagement-Runs : (e : AuditEngagement) → validate_engagement e ≡ ok tt → Runs e
validate_engagement-Runs e h =
    let (actors, a, h1) = >>=-eq-ok (validate_actors e) _ (validate_engagement-after_fields e h) in
    let (_, h2) = >>-eq-ok (validate_milestones e) _ h1 in
    let (_, h3) = >>-eq-ok (validate_requests e actors) _ h2 in
    let (plans, p, h4) = >>=-eq-ok (validate_sample_plans e) _ h3 in
    let (exceptions, x, h5) = >>=-eq-ok (validate_workpapers e actors plans) _ h4 in
    let (responses, r, h6) = >>=-eq-ok (validate_responses e actors exceptions) _ h5 in
    let (v, f) = >>-eq-ok (validate_events e actors) _ h6 in
    record {
      actors = actors;
      plans = plans;
      exceptions = exceptions;
      responses = responses;
      actors_run = a;
      plans_run = p;
      workpapers_run = x;
      responses_run = r;
      events_run = v;
      finalized_run = f;
    }

pub validate_actors-IsIndex :
    (e : AuditEngagement) (actors : Actors)
    → validate_actors e ≡ ok actors
    → IsIndex (λ a. a.actor_id) e.actors actors
unfolding validate_actors
validate_actors-IsIndex e actors h =
    let (built, run, rest) = >>=-eq-ok (unique_by (λ a. a.actor_id) "actors" e.actors 256) _ h in
    let same : built ≡ actors = ground arith in
    unique_by-IsIndex (λ a. a.actor_id) "actors" e.actors 256 actors (rw same at run)

pub validate_sample_plans-IsIndex :
    (e : AuditEngagement) (plans : Plans)
    → validate_sample_plans e ≡ ok plans
    → IsIndex (λ s. s.sample_plan_id) e.sample_plans plans
      × All (λ s. validate_sample s ≡ ok tt) e.sample_plans
unfolding validate_sample_plans
validate_sample_plans-IsIndex e plans h =
    let (built, run, rest) =
      >>=-eq-ok (unique_by (λ s. s.sample_plan_id) "samplePlans" e.sample_plans 10000) _ h in
    let (each, last) = >>-eq-ok (for_each validate_sample e.sample_plans) _ rest in
    let same : built ≡ plans = ground arith in
    (
      unique_by-IsIndex (λ s. s.sample_plan_id) "samplePlans" e.sample_plans 10000 plans
          (rw same at run),
      (for_each-eq-ok validate_sample e.sample_plans).0 each,
    )

abbrev pub exception_ids : List Workpaper → List String
exception_ids ws = map (λ x. x.exception_id) (flat_map (λ w. w.exceptions) ws)

-- What the loop over the workpapers checks, from the rules and the exceptions seen before.
pub record IsWorked (actors : Actors) (plans : Plans) (rules exceptions : List String)
    (ws : List Workpaper) (out : List String) : Type 0 where
  pub bodies : All (λ w. validate_workpaper_body actors plans w ≡ ok tt) ws
  pub rules_differ : Distinct (map (λ w. w.rule_id) ws)
  pub rules_fresh : All (λ w. contains w.rule_id rules ≡ false) ws
  pub exceptions_differ : Distinct (exception_ids ws)
  pub exceptions_fresh : All (λ x. contains x exceptions ≡ false) (exception_ids ws)
  pub collected :
      (j : String) → contains j out ≡ (contains j exceptions || contains j (exception_ids ws))

Distinct-append :
    (xs ys : List String)
    → Distinct xs
    → Distinct ys
    → All (λ y. contains y xs ≡ false) ys
    → Distinct (xs ++ ys)
unfolding contains
Distinct-append [] ys d k f = k
Distinct-append (x ∷ xs) ys (a, d) k f = (
  All-append (λ j. x ≢ j) xs ys a (All-imp ys (λ y p q. ground (arith, (eq_iff y x).1 (sym q))) f),
  Distinct-append xs ys d k (All-imp ys (λ y p. ground arith) f),
)

-- Values that are fresh for a larger set are fresh for the set and for what was added.
module _ {ℓ} {A : Type ℓ} (key : A → String) (k : String) (seen : List String) where
  fresh_after :
      (xs : List A)
      → All (λ x. contains (key x) (set_insert k seen) ≡ false) xs
      → All (λ x. contains (key x) seen ≡ false) xs × All (λ j. k ≢ j) (map key xs)
  fresh_after [] h = (tt, tt)
  fresh_after (x ∷ xs) (p, h) =
      let (later, apart) = fresh_after xs h in
      let law = contains-set_insert k (key x) seen in
      ((ground arith, later), (λ e. ground (arith, (eq_iff (key x) k).1 (sym e)), apart))

map-append {ℓ κ} :
    {A : Type ℓ} {B : Type κ} (f : A → B) (xs ys : List A) → map f (xs ++ ys) ≡ map f xs ++ map f ys
map-append f [] ys = refl
map-append f (x ∷ xs) ys = ap (◌∷◌ (f x)) (map-append f xs ys)

All-keys :
    {A : Type 0} (key : A → String) (P : String → Type 0) (xs : List A)
    → All (λ x. P (key x)) xs
    → All P (map key xs)
All-keys key P [] h = tt
All-keys key P (x ∷ xs) (p, h) = (p, All-keys key P xs h)

contains-append :
    (j : String) (xs ys : List String) → contains j (xs ++ ys) ≡ (contains j xs || contains j ys)
unfolding contains
contains-append j [] ys = refl
contains-append j (x ∷ xs) ys = ground (arith, contains-append j xs ys)

validate_workpaper-rules :
    (actors : Actors) (plans : Plans) (rules next : List String) (w : Workpaper)
    → validate_workpaper actors plans rules w ≡ ok next
    → (contains w.rule_id rules ≡ false)
      × (validate_workpaper_body actors plans w ≡ ok tt)
      × (next ≡ set_insert w.rule_id rules)
unfolding validate_workpaper
validate_workpaper-rules actors plans rules next w h = (ground arith, ground arith, ground arith)

pub validate_workpaper_loop-IsWorked :
    (actors : Actors) (plans : Plans) (rules exceptions : List String) (ws : List Workpaper)
    (out : List String)
    → validate_workpaper_loop actors plans rules exceptions ws ≡ ok out
    → IsWorked actors plans rules exceptions ws out
unfolding validate_workpaper_loop validate_exceptions contains
validate_workpaper_loop-IsWorked actors plans rules exceptions [] out h =
    let same : out ≡ exceptions = ground arith in
    record {
      bodies = tt;
      rules_differ = tt;
      rules_fresh = tt;
      exceptions_differ = tt;
      exceptions_fresh = tt;
      collected = λ j. rw same (ground arith);
    }
validate_workpaper_loop-IsWorked actors plans rules exceptions (w ∷ ws) out h =
    let (rules', first, h1) = >>=-eq-ok (validate_workpaper actors plans rules w) _ h in
    let (exceptions', second, h2) = >>=-eq-ok (validate_exceptions exceptions w.exceptions) _ h1 in
    let (new, body, grown) = validate_workpaper-rules actors plans rules rules' w first in
    let (passes, added) =
      for_unique-Passes (λ x. x.exception_id) (λ x. identifier "exceptionId" x.exception_id)
        repeated_exception check_exception exceptions w.exceptions second in
    let rest = validate_workpaper_loop-IsWorked actors plans rules' exceptions' ws out h2 in
    let (rules_fresh, rules_apart) =
      fresh_after (λ v. v.rule_id) w.rule_id rules ws (rw grown at rest.rules_fresh) in
    let own = map (λ x. x.exception_id) w.exceptions in
    let ids = map-append (λ x. x.exception_id) w.exceptions (flat_map (λ v. v.exceptions) ws) in
    let known : (j : String) → contains j exceptions' ≡ (contains j exceptions || contains j own) =
      (λ j. rw added (contains-set_of j exceptions own)) in
    let later : All (λ x. contains x exceptions ≡ false) (exception_ids ws) =
      All-imp (exception_ids ws) (λ y p. ground (arith, known y)) rest.exceptions_fresh in
    let apart : All (λ x. contains x own ≡ false) (exception_ids ws) =
      All-imp (exception_ids ws) (λ y p. ground (arith, known y)) rest.exceptions_fresh in
    record {
      bodies = (body, rest.bodies);
      rules_differ = (rules_apart, rest.rules_differ);
      rules_fresh = (new, rules_fresh);
      exceptions_differ =
          rw ids
            (Distinct-append own (exception_ids ws) passes.distinct rest.exceptions_differ apart);
      exceptions_fresh = rw ids (
          All-append _ own (exception_ids ws)
            (All-keys (λ x. x.exception_id) _ w.exceptions passes.fresh) later);
      collected = λ j. rw ids (
          let split = contains-append j own (exception_ids ws) in
          ground (arith, rest.collected j, known j));
    }
