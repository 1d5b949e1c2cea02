-- ===== src/Audit/Conclusion.antt =====
-- When an audit is satisfactory, incomplete or unsatisfactory, and the counts (src/audit.rs).
use canonical_company_audito.Prelude.{
  ℕ, ◌+◌, ◌*◌, ◌/◌, ◌≤◌, ◌<◌, ◌≡◌, ◌↔◌, Bool, true, false, not, ◌&&◌, ◌||◌, List, [], ◌∷◌, arith,
  any, is_empty, leb, All, any-eq-false, any-eq-false_of_All, min, All-imp, not-eq-false, ap,
  Bool-cases, inl, inr,
}
use native.Mathlib.Nat.{div-le_of_le-mul, mul-div-le, lt-mul-div-succ, div-eq_of_eq-mul_right}
use canonical_company_audito.Model.{high, rank}
use canonical_company_audito.Engagement.{AuditEngagement}
use canonical_company_audito.Engagement.Validate.{is_settled, is_finalized}
use canonical_company_audito.Dossier.{
  AuditConclusion, satisfactory_with_exceptions, unsatisfactory, incomplete, ControlTestResult,
  ExceptionRecord,
}
use canonical_company_audito.Audit.{
  conclude, is_gap, is_exception, is_major, is_treated, basis_points, usize_max,
}

-- The engagement is finalized, every request is settled and no control is left untested.
pub record IsComplete (e : AuditEngagement) (controls : List ControlTestResult) : Type 0 where
  pub is_final : is_finalized e.phase ≡ true
  pub settled : All (λ r. is_settled r.status ≡ true) e.evidence_requests
  pub tested : All (λ c. is_gap c.audit_status ≡ false) controls

-- No exception of a high or critical control and no major exception without treatment.
pub record IsTolerable (controls : List ControlTestResult) (exceptions : List ExceptionRecord)
    : Type 0 where
  pub minor :
      All (λ c. (is_exception c.audit_status && leb (rank high) (rank c.severity)) ≡ false) controls
  pub treated :
      All
        (λ x.
          (is_major x.exception.classification && not (is_treated x.exception.disposition)) ≡ false)
        exceptions

-- No control has an exception and no workpaper records one.
pub record HasNoException (controls : List ControlTestResult) (exceptions : List ExceptionRecord)
    : Type 0 where
  pub no_control : All (λ c. is_exception c.audit_status ≡ false) controls
  pub no_record : is_empty exceptions ≡ true

All-nil : (P : ExceptionRecord → Type 0) (xs : List ExceptionRecord) → is_empty xs ≡ true → All P xs
All-nil P [] h = tt
All-nil P (x ∷ xs) h = ground arith

module _ (e : AuditEngagement) (controls : List ControlTestResult)
    (exceptions : List ExceptionRecord) where
  -- The first test of `conclude`.
  abbrev is_open : Bool
  is_open =
      not (is_finalized e.phase)
      || any (λ c. is_gap c.audit_status) controls
      || any (λ r. not (is_settled r.status)) e.evidence_requests

  abbrev is_adverse : Bool
  is_adverse =
      any (λ c. is_exception c.audit_status && leb (rank high) (rank c.severity)) controls
      || any (λ x. is_major x.exception.classification && not (is_treated x.exception.disposition))
          exceptions

  IsComplete-iff : (is_open ≡ false) ↔ IsComplete e controls
  IsComplete-iff = (
    λ h. record {
      is_final = ground arith;
      settled =
          All-imp e.evidence_requests (λ r. not-eq-false (is_settled r.status))
            (any-eq-false (λ r. not (is_settled r.status)) e.evidence_requests (ground arith));
      tested = any-eq-false _ controls (ground arith);
    },
    λ c. ground (
      arith,
      c.is_final,
      any-eq-false_of_All (λ c. is_gap c.audit_status) controls c.tested,
      any-eq-false_of_All (λ r. not (is_settled r.status)) e.evidence_requests
          (All-imp e.evidence_requests (λ r. ap not) c.settled),
    ),
  )

  IsTolerable-iff : (is_adverse ≡ false) ↔ IsTolerable controls exceptions
  IsTolerable-iff = (
    λ h. record {
      minor = any-eq-false _ controls (ground arith);
      treated = any-eq-false _ exceptions (ground arith);
    },
    λ t. ground (
      arith,
      any-eq-false_of_All (λ c. is_exception c.audit_status && leb (rank high) (rank c.severity))
          controls t.minor,
      any-eq-false_of_All
          (λ x. is_major x.exception.classification && not (is_treated x.exception.disposition))
          exceptions t.treated,
    ),
  )

  abbrev is_excepted : Bool
  is_excepted = any (λ c. is_exception c.audit_status) controls || not (is_empty exceptions)

  no_exception_iff : (is_excepted ≡ false) ↔ HasNoException controls exceptions
  no_exception_iff = (
    λ h. record { no_control = any-eq-false _ controls (ground arith); no_record = ground arith },
    λ n. ground (
      arith,
      n.no_record,
      any-eq-false_of_All (λ c. is_exception c.audit_status) controls n.no_control,
    ),
  )

  -- Without exceptions nothing is adverse.
  no_exception-tolerable : is_excepted ≡ false → is_adverse ≡ false
  no_exception-tolerable h =
      let n = no_exception_iff.0 h in
      IsTolerable-iff.1 (record {
        minor = All-imp controls (λ c q. ground arith) n.no_control;
        treated = All-nil _ exceptions n.no_record;
      })

  pub record Concludes (c : AuditConclusion) : Type 0 where
    pub if_incomplete : (c ≡ incomplete) ↔ (¬ IsComplete e controls)
    pub if_unsatisfactory :
        (c ≡ unsatisfactory) ↔ (IsComplete e controls × (¬ IsTolerable controls exceptions))
    pub if_excepted : (c ≡ satisfactory_with_exceptions) ↔ (
        IsComplete e controls
        × IsTolerable controls exceptions
        × (¬ HasNoException controls exceptions))
    pub if_satisfactory :
        (c ≡ AuditConclusion.satisfactory)
        ↔ (IsComplete e controls × HasNoException controls exceptions)

  -- The conclusion is the one that the state of the engagement, its controls and its exceptions call
  -- for, in each of the four cases and in no other.
  pub conclude-Concludes : Concludes (conclude e controls exceptions)
  unfolding conclude
  conclude-Concludes = record {
    if_incomplete = (
      λ h c. ground (arith, IsComplete-iff.1 c),
      λ n. elim (Bool-cases is_open) [
        | inl o ↦ ground arith
        | inr o ↦ absurd (n (IsComplete-iff.0 o))
      ],
    );
    if_unsatisfactory = (
      λ h. (IsComplete-iff.0 (ground arith), λ t. ground (arith, IsTolerable-iff.1 t)),
      λ (c, n). elim (Bool-cases is_adverse) [
        | inl o ↦ ground (arith, IsComplete-iff.1 c)
        | inr o ↦ absurd (n (IsTolerable-iff.0 o))
      ],
    );
    if_excepted = (
      λ h. (
        IsComplete-iff.0 (ground arith),
        IsTolerable-iff.0 (ground arith),
        λ n. ground (arith, no_exception_iff.1 n),
      ),
      λ (c, t, n). elim (Bool-cases is_excepted) [
        | inl o ↦ ground (arith, IsComplete-iff.1 c, IsTolerable-iff.1 t)
        | inr o ↦ absurd (n (no_exception_iff.0 o))
      ],
    );
    if_satisfactory = (
      λ h. (IsComplete-iff.0 (ground arith), no_exception_iff.0 (ground arith)),
      λ (c, n). ground (
        arith,
        IsComplete-iff.1 c,
        no_exception_iff.1 n,
        no_exception-tolerable (no_exception_iff.1 n),
      ),
    );
  }

-- A share of `n` in `d`, in basis points and rounded down.
pub record IsShare (n d b : ℕ) : Type 0 where
  pub bounded : b ≤ 10000
  pub below : d * b ≤ n * 10000
  pub above : n * 10000 < d * (b + 1)
  pub whole : (b ≡ 10000) ↔ (n ≡ d)

basis_points_quotient :
    (n d : ℕ) → 0 < d → n ≤ d → d * 10000 ≤ usize_max → basis_points n d ≡ n * 10000 / d
unfolding basis_points
basis_points_quotient n d positive part small =
    let bound : n * 10000 / d ≤ 10000 = div-le_of_le-mul d (omega arith) in
    let exact : min (n * 10000) usize_max ≡ n * 10000 = omega arith in ground arith

-- Where the whole is not empty, the part is at most the whole and the whole times 10 000 does not
-- saturate, basis_points is the share rounded down: at most 10 000, and 10 000 exactly when the part
-- is the whole.
pub basis_points-IsShare :
    (n d : ℕ) → 0 < d → n ≤ d → d * 10000 ≤ usize_max → IsShare n d (basis_points n d)
basis_points-IsShare n d positive part small =
    let bound : n * 10000 / d ≤ 10000 = div-le_of_le-mul d (omega arith) in
    let below : d * (n * 10000 / d) ≤ n * 10000 = mul-div-le (n * 10000) d in
    let above : n * 10000 < d * (n * 10000 / d + 1) = lt-mul-div-succ (n * 10000) positive in
    rw (basis_points_quotient n d positive part small) (record {
      bounded = bound;
      below = below;
      above = above;
      whole = (
        λ e. let full : d * 10000 ≤ n * 10000 = rw e at below in omega arith,
        λ e. div-eq_of_eq-mul_right positive (omega arith),
      );
    })
