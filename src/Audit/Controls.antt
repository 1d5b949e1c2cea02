-- ===== src/Audit/Controls.antt =====
-- The status of a control and the counts of the summary (src/audit.rs).
use canonical_company_audito.Prelude.{
  ◌+◌, ◌≡◌, ◌≢◌, ◌↔◌, refl, not, Option, none, some, List, [], ◌∷◌, arith, length, is_some,
  is_empty, ℕ, eqb, true, Tally, count-Tally,
}
use canonical_company_audito.Model.{FindingStatus, fail, unknown}
use canonical_company_audito.Engagement.{
  AuditEngagement, Workpaper, ineffective, not_tested, EvidenceRequest, RequestStatus, accepted,
  closed, ExceptionDisposition, remediated, compensating_control,
}
use canonical_company_audito.Dossier.{
  ControlTestStatus, exception, evidence_gap, not_reviewed, ControlTestResult, ExceptionRecord,
  DossierSummary,
}
use canonical_company_audito.Engagement.Validate.{is_settled}
use canonical_company_audito.Audit.{
  audit_status, count_status, status_index, summarize, is_treated, basis_points,
}

-- A workpaper whose two tests are done, of a control that the engine decided.
pub record IsTested (s : FindingStatus) (w : Workpaper) : Type 0 where
  pub decided : s ≢ unknown
  pub designed : w.design_conclusion ≢ not_tested
  pub operated : w.operating_conclusion ≢ not_tested

-- Neither the test, nor a conclusion, nor an exception of the workpaper speaks against the control.
pub record IsClean (s : FindingStatus) (w : Workpaper) : Type 0 where
  pub passes : s ≢ fail
  pub designed : w.design_conclusion ≢ ineffective
  pub operates : w.operating_conclusion ≢ ineffective
  pub unexceptional : w.exceptions ≡ []

satisfactory_of_clean :
    (s : FindingStatus) (w : Workpaper)
    → IsTested s w
    → IsClean s w
    → audit_status s (some w) ≡ ControlTestStatus.satisfactory
unfolding audit_status
satisfactory_of_clean s w t c =
    ground
      (arith, t.decided, t.designed, t.operated, c.passes, c.designed, c.operates, c.unexceptional)

-- A control is satisfactory exactly when it has a workpaper whose design and operating conclusions
-- are neither untested nor ineffective and which records no exception, and its automated test is
-- neither unknown nor failed. No sign-off of the workpaper is asked for.
pub audit_status-satisfactory :
    (s : FindingStatus) (w : Option Workpaper)
    → (audit_status s w ≡ ControlTestStatus.satisfactory)
      ↔ ((v : Workpaper) × (w ≡ some v) × IsTested s v × IsClean s v)
unfolding audit_status
audit_status-satisfactory s none =
    (λ h. absurd (ground arith), λ (v, e, t, c). absurd (ground arith))
audit_status-satisfactory s (some w) = (
  λ h. (
    w,
    refl,
    record { decided = ground arith; designed = ground arith; operated = ground arith },
    record {
      passes = ground arith;
      designed = ground arith;
      operates = ground arith;
      unexceptional = ground arith;
    },
  ),
  λ (v, e, t, c).
      let same : w ≡ v = ground arith in satisfactory_of_clean s w (rw same t) (rw same c),
)

-- What the counts of a summary count.
abbrev pub HasStatus : ControlTestStatus → ControlTestResult → Type 0
HasStatus status c = c.audit_status ≡ status

abbrev pub IsOpenRequest : EvidenceRequest → Type 0
IsOpenRequest r = (r.status ≢ accepted) × (r.status ≢ closed)

abbrev pub IsOpenException : ExceptionRecord → Type 0
IsOpenException x =
    (x.exception.disposition ≢ remediated) × (x.exception.disposition ≢ compensating_control)

-- The share of the controls with a property, as `basis_points` of their number.
abbrev pub IsCoverage : (ControlTestResult → Type 0) → List ControlTestResult → ℕ → Type 0
IsCoverage P controls share =
    (n : ℕ) × Tally P controls n × (share ≡ basis_points n (length controls))

-- Each number of a summary is the number of what it is named after.
pub record IsTally (e : AuditEngagement) (controls : List ControlTestResult)
    (exceptions : List ExceptionRecord) (s : DossierSummary) : Type 0 where
  pub total : s.total_controls ≡ length controls
  pub satisfied : Tally (HasStatus ControlTestStatus.satisfactory) controls s.satisfactory_controls
  pub excepted : Tally (HasStatus exception) controls s.exception_controls
  pub gaps : Tally (HasStatus evidence_gap) controls s.evidence_gap_controls
  pub unreviewed : Tally (HasStatus not_reviewed) controls s.not_reviewed_controls
  pub controls_shared :
      s.satisfactory_controls + s.exception_controls + s.evidence_gap_controls
        + s.not_reviewed_controls
      ≡ s.total_controls
  pub evidenced : IsCoverage (λ c. c.evidence_ids ≢ []) controls s.evidence_coverage_basis_points
  pub reviewed : IsCoverage (λ c. c.reviewer_id ≢ none) controls s.review_coverage_basis_points
  pub requests : Tally IsOpenRequest e.evidence_requests s.open_evidence_requests
  pub total_exceptions : s.total_exceptions ≡ length exceptions
  pub open_exceptions : Tally IsOpenException exceptions s.open_exceptions
  pub responses : Tally (λ x. x.management_response ≢ none) exceptions s.management_responses

status_index-eq :
    (a b : ControlTestStatus) → (eqb (status_index a) (status_index b) ≡ true) ↔ (a ≡ b)
status_index-eq a b = (λ h. ground (arith, h), λ h. ground (arith, h))

is_settled-eq-false :
    (s : RequestStatus) → (not (is_settled s) ≡ true) ↔ ((s ≢ accepted) × (s ≢ closed))
is_settled-eq-false s =
    (λ h. (λ e. ground (arith, h, e), λ e. ground (arith, h, e)), λ (p, q). ground (arith, p, q))

is_treated-eq-false :
    (d : ExceptionDisposition)
    → (not (is_treated d) ≡ true) ↔ ((d ≢ remediated) × (d ≢ compensating_control))
is_treated-eq-false d =
    (λ h. (λ e. ground (arith, h, e), λ e. ground (arith, h, e)), λ (p, q). ground (arith, p, q))

is_some-ne-none {ℓ} : {A : Type ℓ} (o : Option A) → (is_some o ≡ true) ↔ (o ≢ none)
is_some-ne-none none = (λ h. absurd (ground arith), λ n. absurd (n refl))
is_some-ne-none (some a) = (λ _ h. cc, λ _. refl)

is_empty-ne-nil {ℓ} : {A : Type ℓ} (xs : List A) → (not (is_empty xs) ≡ true) ↔ (xs ≢ [])
is_empty-ne-nil [] = (λ h. absurd (ground arith), λ n. absurd (n refl))
is_empty-ne-nil (x ∷ xs) = (λ _ h. cc, λ _. refl)

count_status-Tally :
    (status : ControlTestStatus) (cs : List ControlTestResult)
    → Tally (HasStatus status) cs (count_status cs status)
unfolding count_status
count_status-Tally status cs =
    count-Tally (HasStatus status) (λ c. eqb (status_index c.audit_status) (status_index status))
      (λ c. status_index-eq c.audit_status status) cs

status_total :
    (cs : List ControlTestResult)
    → count_status cs ControlTestStatus.satisfactory
        + count_status cs exception
        + count_status cs evidence_gap
        + count_status cs not_reviewed
      ≡ length cs
unfolding count_status
status_total [] = omega arith
status_total (c ∷ cs) = ground (arith, status_total cs)

-- Each count of a summary is the number of the controls, requests or exceptions that it is named
-- after, each coverage is the basis points of the controls with evidence or with a reviewer, and the
-- four statuses account for every control.
pub summarize-IsTally :
    (e : AuditEngagement) (controls : List ControlTestResult) (exceptions : List ExceptionRecord)
    → IsTally e controls exceptions (summarize e controls exceptions)
unfolding summarize
summarize-IsTally e controls exceptions = record {
  total = refl;
  satisfied = count_status-Tally ControlTestStatus.satisfactory controls;
  excepted = count_status-Tally exception controls;
  gaps = count_status-Tally evidence_gap controls;
  unreviewed = count_status-Tally not_reviewed controls;
  controls_shared = status_total controls;
  evidenced = (
    _,
    count-Tally _ (λ c. not (is_empty c.evidence_ids)) (λ c. is_empty-ne-nil c.evidence_ids)
        controls,
    refl,
  );
  reviewed = (
    _,
    count-Tally _ (λ c. is_some c.reviewer_id) (λ c. is_some-ne-none c.reviewer_id) controls,
    refl,
  );
  requests =
      count-Tally IsOpenRequest (λ r. not (is_settled r.status)) (λ r. is_settled-eq-false r.status)
        e.evidence_requests;
  total_exceptions = refl;
  open_exceptions =
      count-Tally IsOpenException (λ x. not (is_treated x.exception.disposition))
        (λ x. is_treated-eq-false x.exception.disposition) exceptions;
  responses =
      count-Tally _ (λ x. is_some x.management_response)
        (λ x. is_some-ne-none x.management_response) exceptions;
}
