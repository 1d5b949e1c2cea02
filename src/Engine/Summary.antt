-- ===== src/Engine/Summary.antt =====
-- The counts of an assessment summary (src/engine.rs).
use canonical_company_audito.Prelude.{
  ◌+◌, ◌≡◌, ◌≤◌, Bool, true, false, List, [], ◌∷◌, arith, length, count, leb,
}
use canonical_company_audito.Model.{rank, pass, fail, unknown, Finding, AssessmentSummary}
use canonical_company_audito.Engine.{count_finding, summarize_from, summarize}

abbrev pub passed : Finding → Bool
passed f = elim f.status [ pass ↦ true | _ ↦ false ]

abbrev pub failed : Finding → Bool
failed f = elim f.status [ fail ↦ true | _ ↦ false ]

abbrev pub undecided : Finding → Bool
undecided f = elim f.status [ unknown ↦ true | _ ↦ false ]

-- failed at high or critical severity
abbrev pub failed_badly : Finding → Bool
failed_badly f = elim f.status [ fail ↦ leb 3 (rank f.severity) | _ ↦ false ]

pub record Counts (findings : List Finding) (s : AssessmentSummary) : Type 0 where
  pub passed : s.passed ≡ count passed findings
  pub failed : s.failed ≡ count failed findings
  pub unknown : s.unknown ≡ count undecided findings
  pub high_or_critical : s.high_or_critical ≡ count failed_badly findings
  pub total : s.passed + s.failed + s.unknown ≡ length findings
  pub within_failed : s.high_or_critical ≤ s.failed

record CountsFrom (s : AssessmentSummary) (findings : List Finding) (t : AssessmentSummary)
    : Type 0 where
  passed : t.passed ≡ s.passed + count passed findings
  failed : t.failed ≡ s.failed + count failed findings
  unknown : t.unknown ≡ s.unknown + count undecided findings
  high_or_critical : t.high_or_critical ≡ s.high_or_critical + count failed_badly findings

summarize_from-CountsFrom :
    (s : AssessmentSummary) (fs : List Finding) → CountsFrom s fs (summarize_from s fs)
unfolding summarize_from count_finding
summarize_from-CountsFrom s [] = omega arith
summarize_from-CountsFrom s (f ∷ fs) =
    let ih = summarize_from-CountsFrom (count_finding s f) fs in
    record {
      passed = ground (arith, ih.passed);
      failed = ground (arith, ih.failed);
      unknown = ground (arith, ih.unknown);
      high_or_critical = ground (arith, ih.high_or_critical);
    }

count_total :
    (fs : List Finding) → count passed fs + count failed fs + count undecided fs ≡ length fs
count_total [] = omega arith
count_total (f ∷ fs) = ground (arith, count_total fs)

count_badly : (fs : List Finding) → count failed_badly fs ≤ count failed fs
count_badly [] = omega arith
count_badly (f ∷ fs) = ground (arith, count_badly fs)

-- The summary counts the findings of each status and the failures of high or critical severity; the
-- three statuses account for every finding.
pub summarize-Counts : (findings : List Finding) → Counts findings (summarize findings)
unfolding summarize
summarize-Counts findings =
    let from =
      summarize_from-CountsFrom
        (record { passed = 0; failed = 0; unknown = 0; high_or_critical = 0 }) findings in
    let total = count_total findings in
    let badly = count_badly findings in
    record {
      passed = omega (arith, from.passed);
      failed = omega (arith, from.failed);
      unknown = omega (arith, from.unknown);
      high_or_critical = omega (arith, from.high_or_critical);
      total = omega (arith, from.passed, from.failed, from.unknown, total);
      within_failed = omega (arith, from.high_or_critical, from.failed, badly);
    }
