-- ===== src/Tests/Records.antt =====
-- The theorems on manifests, bundles, scopes and engagements, on the sample audit.
use canonical_company_audito.Prelude.{
  same_iff, ℤ-discrete, pos, ◌≡◌, ◌↔◌, refl, String, true, List, map, ◌++◌, All,
}
use canonical_company_audito.Outcome.{ok}
use canonical_company_audito.Text.{
  bytes, len, trim_start, trim_end, trim, starts_with, ends_with, strip_prefix, split, compare, lt,
  le, decimal,
}
use canonical_company_audito.Collections.{get, insert, contains, set_insert, set_of}
use canonical_company_audito.Collections.Unique.{for_unique}
use canonical_company_audito.Model.Scope.{scope_contains, scope_contains_iff}
use canonical_company_audito.Model.Validate.{validate_manifest, validate_bundle}
use canonical_company_audito.Model.Boundary.{
  IsManifest, IsBundle, validate_manifest-eq-ok, validate_bundle-eq-ok,
}
use canonical_company_audito.Engagement.Checks.{
  identifier, scope, text, optional_text, period, timestamp, digest, unique_identifiers,
  unique_text, index_from, unique_by, require_actor,
}
use canonical_company_audito.Engagement.Validate.{
  validate_actors, validate_milestones, validate_request, validate_requests,
}
use canonical_company_audito.Engagement.Fieldwork.{
  validate_sample, validate_sample_plans, validate_plan_reference, validate_signoff,
  validate_workpaper_names, validate_workpaper_body, validate_workpaper, validate_exceptions,
  validate_workpaper_loop, validate_workpapers,
}
use canonical_company_audito.Engagement.Record.{
  check_response_target, check_response, validate_responses, validate_events_from, validate_events,
  validate_finalized_workpaper, validate_finalized, validate_engagement, matches_manifest,
  validate_against,
}
use canonical_company_audito.Engagement.Fields.{count_from}
use canonical_company_audito.Engagement.Reviewed.{
  IsSound, IsUnambiguous, IsActor, validate_engagement-IsSound, validate_engagement-IsUnambiguous,
  validate_engagement-events,
}
use canonical_company_audito.Engagement.Finalized.{IsFinal, validate_engagement-IsFinal}
use canonical_company_audito.Engagement.Against.{IsBound, validate_against-IsBound}
use canonical_company_audito.Tests.Samples.{company, evidence, program, engaged}

-- A scope inside another; a name that only begins like it is outside.
scope_contains_iff_example :
    (scope_contains "acme/eu" "acme/eu/login" ≡ true)
    ↔ ((rest : List String) × (split b'/' "acme/eu/login" ≡ split b'/' "acme/eu" ++ rest))
scope_contains_iff_example = scope_contains_iff "acme/eu" "acme/eu/login"

validate_manifest-eq-ok_example : (validate_manifest company ≡ ok tt) ↔ IsManifest company
validate_manifest-eq-ok_example = validate_manifest-eq-ok company

validate_bundle-eq-ok_example : (validate_bundle evidence ≡ ok tt) ↔ IsBundle evidence
validate_bundle-eq-ok_example = validate_bundle-eq-ok evidence

pub engaged-valid : validate_engagement engaged ≡ ok tt
unfolding bytes len trim_start trim_end trim starts_with ends_with strip_prefix split compare lt le
    decimal get insert contains set_insert for_unique identifier scope text optional_text period
    timestamp digest unique_identifiers unique_text index_from unique_by require_actor
    validate_actors validate_milestones validate_request validate_requests validate_sample
    validate_sample_plans validate_plan_reference validate_signoff validate_workpaper_names
    validate_workpaper_body validate_workpaper validate_exceptions validate_workpaper_loop
    validate_workpapers check_response_target check_response validate_responses validate_events_from
    validate_events validate_finalized_workpaper validate_finalized validate_engagement
engaged-valid = refl

validate_engagement-IsSound_example : All (IsSound engaged) engaged.workpapers
validate_engagement-IsSound_example = validate_engagement-IsSound engaged engaged-valid

validate_engagement-IsUnambiguous_example : IsUnambiguous engaged
validate_engagement-IsUnambiguous_example = validate_engagement-IsUnambiguous engaged engaged-valid

validate_engagement-IsFinal_example : IsFinal engaged
validate_engagement-IsFinal_example = validate_engagement-IsFinal engaged engaged-valid refl

validate_engagement-events_example :
    (map (λ v. v.sequence) engaged.events ≡ count_from 0 engaged.events)
    × All (λ v. IsActor engaged v.actor_id) engaged.events
validate_engagement-events_example = validate_engagement-events engaged engaged-valid

pub engaged-bound : validate_against engaged company evidence program ≡ ok tt
unfolding validate_against matches_manifest contains set_insert set_of compare lt
engaged-bound =
    let starts = (same_iff ℤ-discrete (pos 10) (pos 10)).1 refl in
    let ends = (same_iff ℤ-discrete (pos 20) (pos 20)).1 refl in
    rw engaged-valid (rw (starts, ends) refl)

validate_against-IsBound_example : IsBound engaged company evidence program
validate_against-IsBound_example =
    validate_against-IsBound engaged company evidence program engaged-bound
