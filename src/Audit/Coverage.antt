-- ===== src/Audit/Coverage.antt =====
-- An audit decides every rule of the program exactly once (src/audit.rs).
use mathlib.Core.List.{Perm}
use mathlib.Core.List.Perm
use canonical_company_audito.Prelude.{
  ◌≡◌, sym, ap, ◌∙◌, String, ◌==◌, eq_iff, some, List, [], ◌∷◌, map, arith, inl, inr, Bool-cases,
  Option-cases,
}
use canonical_company_audito.Outcome.{ok, map_result, map-map_result, Result-cases, >>=-eq-ok}
use canonical_company_audito.Collections.{get, insert, collect_into, sort_by}
use canonical_company_audito.Collections.Maps.{get-insert}
use canonical_company_audito.Collections.Sorted.{Ascends, sort_by-perm, sort_by-Ascends}
use canonical_company_audito.Model.{AssessmentRequest, Finding}
use canonical_company_audito.Program.{AssessmentRule, AssessmentProgram}
use canonical_company_audito.Engagement.{AuditEngagement, Workpaper}
use canonical_company_audito.Dossier.{ControlTestResult, AuditDossier}
use canonical_company_audito.External.{External}
use canonical_company_audito.Engine.{assess}
use canonical_company_audito.Audit.{control_result}
use canonical_company_audito.Audit.Run.{control_for, control_results, run_audit}

module _ {ℓ} {V : Type ℓ} (key : V → String) where
  -- Every value stands under its own key.
  abbrev pub IsKeyed : List (String × V) → Type ℓ
  IsKeyed m = (k : String) (v : V) → get k m ≡ some v → key v ≡ k

  IsKeyed-insert : (v : V) (m : List (String × V)) → IsKeyed m → IsKeyed (insert (key v) v m)
  IsKeyed-insert v m i k w h =
      let law = get-insert (key v) k v m in
      elim (Bool-cases (k == key v)) [
        | inl e ↦
            let keys : k ≡ key v = (eq_iff k (key v)).0 e in
            let values : w ≡ v = ground arith in ap key values ∙ sym keys
        | inr n ↦ i k w (ground arith)
      ]

  pub IsKeyed-collect_into :
      (m : List (String × V)) (vs : List V)
      → IsKeyed m
      → IsKeyed (collect_into m (map (λ v. (key v, v)) vs))
  unfolding collect_into
  IsKeyed-collect_into m [] i = i
  IsKeyed-collect_into m (v ∷ vs) i =
      IsKeyed-collect_into (insert (key v) v m) vs (IsKeyed-insert v m i)

  pub IsKeyed-nil : IsKeyed []
  unfolding get
  IsKeyed-nil k v h = absurd (ground arith)

control_for-rule :
    (findings : List (String × Finding)) (workpapers : List (String × Workpaper))
    → IsKeyed (λ f. f.rule_id) findings
    → (rule : AssessmentRule) (c : ControlTestResult) → control_for findings workpapers rule ≡ ok c
    → c.rule_id ≡ rule.id
unfolding control_for control_result
control_for-rule findings workpapers i rule c h = elim (Option-cases (get rule.id findings)) [
  | inl n ↦ absurd (ground arith)
  | inr (f, found) ↦ let same = i rule.id f found in ground arith
]

-- The controls are the rules of the program, each once, in the order of their identifiers.
pub record IsCovering (p : AssessmentProgram) (cs : List ControlTestResult) : Type 0 where
  pub rules : Perm (map (λ c. c.rule_id) cs) (map (λ r. r.id) p.rules)
  pub ordered : Ascends (λ c. c.rule_id) cs

control_results-IsCovering :
    (e : AuditEngagement) (findings : List Finding) (p : AssessmentProgram)
    (cs : List ControlTestResult)
    → control_results e findings p.rules ≡ ok cs
    → IsCovering p cs
unfolding control_results
control_results-IsCovering e findings p cs h =
    let by_rule = collect_into [] (map (λ f. (f.rule_id, f)) findings) in
    let papers = collect_into [] (map (λ w. (w.rule_id, w)) e.workpapers) in
    let (results, run, last) = >>=-eq-ok (map_result (control_for by_rule papers) p.rules) _ h in
    let whole : cs ≡ sort_by (λ c. c.rule_id) results = ground arith in
    let keyed = IsKeyed-collect_into (λ f. f.rule_id) [] findings (IsKeyed-nil (λ f. f.rule_id)) in
    let kept : map (λ c. c.rule_id) results ≡ map (λ r. r.id) p.rules =
      map-map_result (control_for by_rule papers) (λ c. c.rule_id) (λ r. r.id)
        (control_for-rule by_rule papers keyed) p.rules results run in
    rw whole (record {
      rules = rw kept at (Perm.map (λ c. c.rule_id) (sort_by-perm (λ c. c.rule_id) results));
      ordered = sort_by-Ascends (λ c. c.rule_id) results;
    })

-- A dossier has one control result for each rule of the program, and no other, in the order of the
-- rule identifiers.
pub run_audit-IsCovering :
    (ext : External) (request : AssessmentRequest) (e : AuditEngagement) (p : AssessmentProgram)
    (d : AuditDossier)
    → run_audit ext request e p ≡ ok d
    → IsCovering p d.control_results
unfolding run_audit
run_audit-IsCovering ext request e p d h = elim (Result-cases (assess ext request p)) [
  | inl (r, q) ↦ control_results-IsCovering e r.findings p d.control_results (ground arith)
  | inr (x, q) ↦ absurd (ground arith)
]
