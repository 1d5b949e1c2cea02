-- ===== src/Readiness/Analysis.antt =====
-- src/app/readiness.rs: the issues of each answer, the summary and the report.
use canonical_company_audito.Prelude.{
  ℕ, ◌+◌, String, Bool, true, false, not, ◌&&◌, ◌||◌, ◌==◌, Option, none, some, List, [], ◌∷◌, ◌++◌,
  map, ltb, any, filter, head?, if◌then◌else◌,
}
use canonical_company_audito.Text.{is_blank, lt}
use canonical_company_audito.Json.{Value, bool, string, array, object, of_items, of_entries}
use canonical_company_audito.Collections.{collect_into}
use canonical_company_audito.Adapters.{natural_value}
use canonical_company_audito.Readiness.{
  Framework, Question, Context, Status, unanswered, implemented, partial, missing, not_applicable,
  label, Answer, Response, Summary,
}
use canonical_company_audito.Readiness.Fields.{notice, blank_text}
use canonical_company_audito.Readiness.Responses.{blank}

abbrev pub is_unanswered : Status → Bool
is_unanswered unanswered = true
is_unanswered _ = false

abbrev pub is_implemented : Status → Bool
is_implemented implemented = true
is_implemented _ = false

-- `Partial | Missing`
abbrev pub is_gap : Status → Bool
is_gap partial = true
is_gap missing = true
is_gap _ = false

abbrev pub is_not_applicable : Status → Bool
is_not_applicable not_applicable = true
is_not_applicable _ = false

abbrev pub issue_if : Bool → String → List String
issue_if condition issue = if condition then issue ∷ [] else []

abbrev pub lacks_evidence : Answer → Bool
lacks_evidence a = is_implemented a.status && (is_blank a.evidence_ref || is_blank a.evidence_date)

abbrev pub is_overdue : Answer → String → Bool
is_overdue a as_of = is_gap a.status && not (is_blank a.due_date) && lt a.due_date as_of

-- The issues of an answer other than `unanswered`, in the order of the source.
unfoldable pub answered_issues : Answer → String → List String
answered_issues a as_of =
    issue_if (blank_text a.owner || blank_text a.notes) "owner_or_explanation_missing"
    ++ (issue_if (blank_text a.reviewer) "assessor_review_pending"
        ++ (issue_if (lacks_evidence a) "evidence_unknown"
            ++ (issue_if (is_gap a.status) "declared_gap"
                ++ (issue_if (is_gap a.status && is_blank a.due_date) "remediation_date_missing"
                    ++ (issue_if (is_overdue a as_of) "remediation_overdue"
                        ++ issue_if (is_not_applicable a.status && blank_text a.reviewer)
                            "applicability_review_missing")))))

abbrev pub is_metadata_issue : String → Bool
is_metadata_issue issue =
    issue == "owner_or_explanation_missing"
    || issue == "remediation_date_missing"
    || issue == "applicability_review_missing"

-- `number += 1` under a condition
abbrev pub add_if : Bool → ℕ → ℕ
add_if condition n = if condition then n + 1 else n

-- The counters of the summary after an answer other than `unanswered`.
unfoldable pub count_answer : Answer → String → Summary → Summary
unfolding answered_issues
count_answer a as_of s = record {
  total = s.total;
  answered = s.answered + 1;
  declared_gaps = add_if (is_gap a.status) s.declared_gaps;
  unknown_evidence = add_if (lacks_evidence a) s.unknown_evidence;
  incomplete_metadata =
      add_if (any is_metadata_issue (answered_issues a as_of)) s.incomplete_metadata;
  review_pending = add_if (blank_text a.reviewer) s.review_pending;
  overdue_actions = add_if (is_overdue a as_of) s.overdue_actions;
}

-- The issues and the summary that `answer_issues` leaves.
unfoldable pub answer_issues : Answer → String → Summary → List String × Summary
unfolding answered_issues count_answer
answer_issues a as_of s =
    if is_unanswered a.status
    then ("unanswered" ∷ [], s)
    else (answered_issues a as_of, count_answer a as_of s)

abbrev pub empty_summary : Summary
empty_summary = record {
  total = 0;
  answered = 0;
  declared_gaps = 0;
  unknown_evidence = 0;
  incomplete_metadata = 0;
  review_pending = 0;
  overdue_actions = 0;
}

abbrev pub or_blank : Option Answer → Question → Answer
or_blank (some a) q = a
or_blank none q = blank q

-- `find(..).unwrap_or(&missing)`
unfoldable pub answer_to : List Answer → Question → Answer
answer_to answers q = or_blank (head? (filter (λ a. a.question_id == q.id) answers)) q

-- `json!({..})`: the entries of the object in key order
abbrev pub json_object : List (String × Value) → Value
json_object entries = object (of_entries (collect_into [] entries))

abbrev pub texts_value : List String → Value
texts_value texts = array (of_items (map string texts))

unfoldable pub item : Question → Answer → List String → Value
item q a issues = json_object (
    ("questionId", string q.id)
    ∷ ("status", string (label a.status))
    ∷ ("issues", texts_value issues)
    ∷ [])

abbrev pub count_question : Summary → Summary
count_question s = record s { total = s.total + 1 }

-- The loop over the questions: the items and the summary at its end.
unfoldable pub analyze_questions : Response → Summary → List Question → List Value × Summary
unfolding answer_issues answer_to item
analyze_questions response s [] = ([], s)
analyze_questions response s (q ∷ qs) =
    let a = answer_to response.answers q in
    let (issues, s') = answer_issues a response.context.as_of (count_question s) in
    let (items, final) = analyze_questions response s' qs in (item q a issues ∷ items, final)

abbrev pub has_gaps : Summary → Bool
has_gaps s =
    ltb s.answered s.total
    || ltb 0 s.declared_gaps
    || ltb 0 s.unknown_evidence
    || ltb 0 s.incomplete_metadata

abbrev pub context_value : Context → Value
context_value c = json_object (
    ("customerId", string c.customer_id)
    ∷ ("assessmentId", string c.assessment_id)
    ∷ ("scope", string c.scope)
    ∷ ("periodStart", string c.period_start)
    ∷ ("periodEnd", string c.period_end)
    ∷ ("asOf", string c.as_of)
    ∷ [])

abbrev pub summary_value : Summary → Value
summary_value s = json_object (
    ("total", natural_value s.total)
    ∷ ("answered", natural_value s.answered)
    ∷ ("declaredGaps", natural_value s.declared_gaps)
    ∷ ("unknownEvidence", natural_value s.unknown_evidence)
    ∷ ("incompleteMetadata", natural_value s.incomplete_metadata)
    ∷ ("reviewPending", natural_value s.review_pending)
    ∷ ("overdueActions", natural_value s.overdue_actions)
    ∷ [])

unfoldable pub analyze : Framework → Response → Value × Bool
unfolding analyze_questions
analyze framework response =
    let (items, summary) = analyze_questions response empty_summary framework.questions in
    (
      json_object (
          ("schemaVersion", string "canonical.readiness-report/v1")
          ∷ ("catalogVersion", string response.catalog_version)
          ∷ ("frameworkId", string framework.id)
          ∷ ("context", context_value response.context)
          ∷ ("summary", summary_value summary)
          ∷ ("items", array (of_items items))
          ∷ ("declaredGapsOrUnknowns", bool (has_gaps summary))
          ∷ ("assurance", string "none")
          ∷ ("notice", string notice)
          ∷ []),
      has_gaps summary,
    )
