-- ===== src/Readiness/Gaps.antt =====
-- src/app/readiness.rs: the report names gaps exactly when some answer is not complete.
use canonical_company_audito.Prelude.{
  ◌≡◌, ◌↔◌, ◌≤◌, refl, sym, ap, ◌∙◌, ℕ, String, Bool, true, false, ◌&&◌, ◌||◌, List, [], ◌∷◌, ◌++◌,
  All, any, arith, inl, inr, ◌⊎◌, Bool-cases,
}
use canonical_company_audito.Text.{is_blank}
use canonical_company_audito.Readiness.{
  Framework, Question, Status, unanswered, implemented, partial, missing, not_applicable, Answer,
  Response, Summary,
}
use canonical_company_audito.Readiness.Fields.{blank_text}
use canonical_company_audito.Readiness.Analysis.{
  is_unanswered, is_gap, is_not_applicable, issue_if, lacks_evidence, is_overdue, answered_issues,
  is_metadata_issue, add_if, count_answer, answer_issues, empty_summary, answer_to, count_question,
  analyze_questions, has_gaps, analyze,
}

-- An issue counts where its condition holds and its name is one of the three.
module _ (b : Bool) (issue : String) (rest : List String) where
  metadata_kept :
      is_metadata_issue issue ≡ true
      → any is_metadata_issue (issue_if b issue ++ rest) ≡ (b || any is_metadata_issue rest)
  metadata_kept h = elim (Bool-cases b) [ inl e ↦ rw (e, h) refl | inr e ↦ rw e refl ]

  metadata_skipped :
      is_metadata_issue issue ≡ false
      → any is_metadata_issue (issue_if b issue ++ rest) ≡ any is_metadata_issue rest
  metadata_skipped h = elim (Bool-cases b) [ inl e ↦ rw (e, h) refl | inr e ↦ rw e refl ]

last_issue : (b : Bool) → any is_metadata_issue (issue_if b "applicability_review_missing") ≡ b
last_issue true = refl
last_issue false = refl

abbrev lacks_metadata : Answer → Bool
lacks_metadata a =
    (blank_text a.owner || blank_text a.notes)
    || (is_gap a.status && is_blank a.due_date
        || is_not_applicable a.status && blank_text a.reviewer)

metadata_issues :
    (a : Answer) (as_of : String)
    → any is_metadata_issue (answered_issues a as_of) ≡ lacks_metadata a
unfolding answered_issues
metadata_issues a as_of =
    let from_overdue =
      metadata_skipped (is_overdue a as_of) "remediation_overdue" _ refl
      ∙ last_issue (is_not_applicable a.status && blank_text a.reviewer) in
    let from_dates =
      metadata_kept (is_gap a.status && is_blank a.due_date) "remediation_date_missing" _ refl
      ∙ ap (λ b. is_gap a.status && is_blank a.due_date || b) from_overdue in
    let from_review =
      metadata_skipped (blank_text a.reviewer) "assessor_review_pending" _ refl
      ∙ (metadata_skipped (lacks_evidence a) "evidence_unknown" _ refl
          ∙ (metadata_skipped (is_gap a.status) "declared_gap" _ refl ∙ from_dates)) in
    metadata_kept (blank_text a.owner || blank_text a.notes) "owner_or_explanation_missing" _ refl
    ∙ ap (λ b. (blank_text a.owner || blank_text a.notes) || b) from_review

-- An answer that needs no more work: implemented with evidence, or not applicable as reviewed, and
-- explained by an owner.
pub record IsComplete (a : Answer) : Type 0 where
  pub owned : blank_text a.owner ≡ false
  pub explained : blank_text a.notes ≡ false
  pub settled :
      ((a.status ≡ implemented)
        × (is_blank a.evidence_ref ≡ false)
        × (is_blank a.evidence_date ≡ false))
      ⊎ ((a.status ≡ not_applicable) × (blank_text a.reviewer ≡ false))

abbrev IsClean : Summary → Type 0
IsClean s =
    (s.answered ≡ s.total)
    × (s.declared_gaps ≡ 0)
    × (s.unknown_evidence ≡ 0)
    × (s.incomplete_metadata ≡ 0)

abbrev turn : Answer → String → Summary → Summary
turn a as_of s = (answer_issues a as_of (count_question s)).1

add_if-zero : (b : Bool) (n : ℕ) → add_if b n ≡ 0 → (b ≡ false) × (n ≡ 0)
add_if-zero true n h = absurd (omega arith)
add_if-zero false n h = (refl, h)

two_left :
    (s : Status)
    → is_unanswered s ≡ false
    → is_gap s ≡ false
    → (s ≡ implemented) ⊎ (s ≡ not_applicable)
two_left unanswered u g = absurd (ground arith)
two_left implemented u g = inl refl
two_left partial u g = absurd (ground arith)
two_left missing u g = absurd (ground arith)
two_left not_applicable u g = inr refl

module _ (a : Answer) (as_of : String) (s : Summary) (bounded : s.answered ≤ s.total) where
  turn_bounded : (turn a as_of s).answered ≤ (turn a as_of s).total
  unfolding answer_issues count_answer
  turn_bounded = ground arith

  -- A turn leaves no gap exactly when there was none and the answer is complete.
  turn-IsClean : IsClean (turn a as_of s) → IsClean s × IsComplete a
  unfolding answer_issues count_answer
  turn-IsClean h = elim (Bool-cases (is_unanswered a.status)) [
    | inl u ↦ absurd (let (open_question, _, _, _) = rw (turn, u) at h in omega arith)
    | inr u ↦
        let (answered, gaps, evidence, metadata) = rw (turn, u) at h in
        let (no_gap, gaps') = add_if-zero (is_gap a.status) s.declared_gaps gaps in
        let (has_evidence, evidence') =
          add_if-zero (lacks_evidence a) s.unknown_evidence evidence in
        let (told, metadata') = add_if-zero _ s.incomplete_metadata metadata in
        let complete = sym (metadata_issues a as_of) ∙ told in
        (
          ((let e = answered in omega arith), gaps', evidence', metadata'),
          record {
            owned = ground (arith, complete);
            explained = ground (arith, complete);
            settled = elim (two_left a.status u no_gap) [
              | inl e ↦ inl (e, ground (arith, e, has_evidence), ground (arith, e, has_evidence))
              | inr e ↦ inr (e, ground (arith, e, complete))
            ];
          },
        )
  ]

  complete_tests :
      IsComplete a
      → (is_unanswered a.status ≡ false)
        × (is_gap a.status ≡ false)
        × (lacks_evidence a ≡ false)
        × (any is_metadata_issue (answered_issues a as_of) ≡ false)
  complete_tests i = elim i.settled [
    | inl (status, reference, date) ↦ (
      rw status refl,
      rw status refl,
      rw (status, reference, date) refl,
      metadata_issues a as_of ∙ rw (i.owned, i.explained, status) refl,
    )
    | inr (status, reviewed) ↦ (
      rw status refl,
      rw status refl,
      rw status refl,
      metadata_issues a as_of ∙ rw (i.owned, i.explained, status, reviewed) refl,
    )
  ]

  IsClean-turn : IsClean s → IsComplete a → IsClean (turn a as_of s)
  unfolding answer_issues count_answer
  IsClean-turn (answered, gaps, evidence, metadata) i =
      let (u, no_gap, has_evidence, told) = complete_tests i in
      rw (turn, u)
        (
          (let e = answered in omega arith),
          ap (λ b. add_if b s.declared_gaps) no_gap ∙ gaps,
          ap (λ b. add_if b s.unknown_evidence) has_evidence ∙ evidence,
          ap (λ b. add_if b s.incomplete_metadata) told ∙ metadata,
        )

module _ (response : Response) where
  abbrev next : Summary → Question → Summary
  next s q = turn (answer_to response.answers q) response.context.as_of s

  abbrev final : Summary → List Question → Summary
  final s qs = (analyze_questions response s qs).1

  -- After all questions
  final-IsClean :
      (s : Summary) (qs : List Question)
      → s.answered ≤ s.total
      → (IsClean (final s qs)
          ↔ (IsClean s × All (λ q. IsComplete (answer_to response.answers q)) qs))
        × ((final s qs).answered ≤ (final s qs).total)
  unfolding analyze_questions
  final-IsClean s [] b = ((λ h. (h, tt), λ (h, _). h), b)
  final-IsClean s (q ∷ qs) b =
      let a = answer_to response.answers q in
      let as_of = response.context.as_of in
      let ((to, from), bounded) = final-IsClean (next s q) qs (turn_bounded a as_of s b) in
      (
        (
          λ h.
              let (here, later) = to h in
              let (before, complete) = turn-IsClean a as_of s b here in (before, (complete, later)),
          λ (before, (complete, later)). from (IsClean-turn a as_of s b before complete, later),
        ),
        bounded,
      )

  has_gaps-IsClean : (s : Summary) → s.answered ≤ s.total → (has_gaps s ≡ false) ↔ IsClean s
  has_gaps-IsClean s b =
      (λ h. (ground arith, ground arith, ground arith, ground arith), λ (a, g, e, m). ground arith)

  -- The report of a response names no gap exactly when the answer to every question is complete.
  pub analyze-eq-false :
      (framework : Framework)
      → ((analyze framework response).1 ≡ false)
        ↔ All (λ q. IsComplete (answer_to response.answers q)) framework.questions
  unfolding analyze
  analyze-eq-false framework =
      let qs = framework.questions in
      let ((to, from), bounded) = final-IsClean empty_summary qs (omega arith) in
      let (gaps_to, gaps_from) = has_gaps-IsClean (final empty_summary qs) bounded in
      (λ h. (to (gaps_to h)).1, λ h. gaps_from (from ((refl, refl, refl, refl), h)))
