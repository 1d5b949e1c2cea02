-- ===== src/Audit/Approved.antt =====
-- A finalized audit has a reviewed workpaper for every control (src/audit.rs).
use canonical_company_audito.Prelude.{
  ◌≡◌, ◌≢◌, refl, sym, subst, ◌∙◌, String, true, ◌==◌, eq_iff, Option, none, some, is_some, List,
  [], ◌∷◌, map, arith, ◌⊎◌, inl, inr, Bool-cases, Option-cases, All, All_of_mem, Memᴰ, Pairwise,
}
use canonical_company_audito.Outcome.{
  ok, map_result, map_result-Pairwise, Result-cases, >>=-eq-ok, >>-eq-ok,
}
use canonical_company_audito.Collections.{get, insert, collect_into, sort_by}
use canonical_company_audito.Collections.Maps.{get-insert}
use canonical_company_audito.Collections.Sorted.{All-sort_by}
use canonical_company_audito.Model.{AssessmentRequest, Finding}
use canonical_company_audito.Program.{AssessmentRule, AssessmentProgram}
use canonical_company_audito.Engagement.{AuditEngagement, Workpaper, ReviewSignoff, approved}
use canonical_company_audito.Engagement.Validate.{is_finalized, is_signed_off}
use canonical_company_audito.Engagement.Record.{validate_against}
use canonical_company_audito.Engagement.Finalized.{IsConcluded, validate_engagement-IsFinal}
use canonical_company_audito.Engagement.Against.{validate_against-IsBound}
use canonical_company_audito.Dossier.{not_reviewed, ControlTestResult, AuditDossier}
use canonical_company_audito.External.{External}
use canonical_company_audito.Engine.{assess}
use canonical_company_audito.Audit.{control_result, audit_status}
use canonical_company_audito.Audit.Run.{control_for, control_results, run_audit}
use canonical_company_audito.Audit.Coverage.{IsKeyed, IsKeyed-collect_into, IsKeyed-nil}

module _ {ℓ} {V : Type ℓ} (key : V → String) where
  abbrev collected : List (String × V) → List V → List (String × V)
  collected m vs = collect_into m (map (λ v. (key v, v)) vs)

  -- What is found was there or was collected.
  collected-mem :
      (k : String) (m : List (String × V)) (vs : List V) {v : V}
      → get k (collected m vs) ≡ some v
      → (get k m ≡ some v) ⊎ Memᴰ v vs
  unfolding collect_into
  collected-mem k m [] h = inl h
  collected-mem k m (w ∷ vs) h = elim (collected-mem k (insert (key w) w m) vs h) [
    | inl before ↦ elim (Bool-cases (k == key w)) [
      | inl e ↦ inr (Memᴰ.head (ground (arith, get-insert (key w) k w m, e, before)))
      | inr n ↦ inl (ground (arith, get-insert (key w) k w m, n, before))
    ]
    | inr later ↦ inr (Memᴰ.tail later)
  ]

  -- What was there or is collected is found.
  collected-some :
      (k : String) (m : List (String × V)) (vs : List V)
      → (is_some (get k m) ≡ true) ⊎ Memᴰ k (map key vs)
      → is_some (get k (collected m vs)) ≡ true
  unfolding collect_into
  collected-some k m [] (inl h) = h
  collected-some k m [] (inr h) = elim h [ ]
  collected-some k m (w ∷ vs) (inl h) =
      collected-some k (insert (key w) w m) vs (inl (ground (arith, get-insert (key w) k w m, h)))
  collected-some k m (w ∷ vs) (inr (Memᴰ.head e)) =
      let here = (eq_iff k (key w)).1 e in
      collected-some k (insert (key w) w m) vs
        (inl (ground (arith, get-insert (key w) k w m, here)))
  collected-some k m (w ∷ vs) (inr (Memᴰ.tail later)) =
      collected-some k (insert (key w) w m) vs (inr later)

get-nil {ℓ} : {V : Type ℓ} (k : String) {v : V} → get k [] ≡ some v → ⊥
unfolding get
get-nil k h = cc

-- A control with an approved workpaper of its rule, whose reviewer it names.
pub record IsReviewed (e : AuditEngagement) (c : ControlTestResult) : Type 0 where
  pub workpaper : Workpaper
  pub known : Memᴰ workpaper e.workpapers
  pub rule : workpaper.rule_id ≡ c.rule_id
  pub names : c.workpaper_id ≡ some workpaper.workpaper_id
  pub signoff : ReviewSignoff
  pub signed : workpaper.reviewer_signoff ≡ some signoff
  pub approves : signoff.conclusion ≡ approved
  pub reviewer : c.reviewer_id ≡ some signoff.reviewer_id
  pub status : c.audit_status ≢ not_reviewed

signoff_of :
    (o : Option ReviewSignoff)
    → is_signed_off o ≡ true
    → (s : ReviewSignoff) × (o ≡ some s) × (s.conclusion ≡ approved)
signoff_of none h = absurd (ground arith)
signoff_of (some s) h = (s, refl, ground (arith, h))

control_result-IsReviewed :
    (e : AuditEngagement) (f : Finding) (w : Workpaper)
    → Memᴰ w e.workpapers
    → w.rule_id ≡ f.rule_id
    → IsConcluded e w
    → IsReviewed e (control_result f (some w))
unfolding control_result audit_status
control_result-IsReviewed e f w known rule concluded =
    let (s, signed, approves) = signoff_of w.reviewer_signoff concluded.approved in
    record {
      workpaper = w;
      known = known;
      rule = rule;
      names = refl;
      signoff = s;
      signed = signed;
      approves = approves;
      reviewer = ground (arith, signed, approves);
      status = λ h. absurd (ground (arith, h));
    }

module _ (e : AuditEngagement) (concluded : All (IsConcluded e) e.workpapers) where
  abbrev papers : List (String × Workpaper)
  papers = collect_into [] (map (λ w. (w.rule_id, w)) e.workpapers)

  control_for-IsReviewed :
      (findings : List (String × Finding))
      → IsKeyed (λ f. f.rule_id) findings
      → (rule : AssessmentRule) (c : ControlTestResult)
      → Memᴰ rule.id (map (λ w. w.rule_id) e.workpapers)
      → control_for findings papers rule ≡ ok c
      → IsReviewed e c
  unfolding control_for
  control_for-IsReviewed findings keyed rule c tested h =
      let there = collected-some (λ w. w.rule_id) rule.id [] e.workpapers (inr tested) in
      elim (Option-cases (get rule.id findings)) [
        | inl n ↦ absurd (ground (arith, n, h))
        | inr (f, found) ↦ elim (Option-cases (get rule.id papers)) [
          | inl n ↦ absurd (ground (arith, n, there))
          | inr (w, paper) ↦
              let known : Memᴰ w e.workpapers =
                elim (collected-mem (λ w. w.rule_id) rule.id [] e.workpapers paper) [
                  | inl before ↦ absurd (get-nil rule.id before)
                  | inr m ↦ m
                ] in
              let same : w.rule_id ≡ f.rule_id =
                IsKeyed-collect_into (λ w. w.rule_id) [] e.workpapers (IsKeyed-nil (λ w. w.rule_id))
                  rule.id w paper
                ∙ sym (keyed rule.id f found) in
              let whole : control_result f (some w) ≡ c = ground (arith, found, paper, h) in
              subst (IsReviewed e) whole (
                control_result-IsReviewed e f w known same
                  (All_of_mem (IsConcluded e) e.workpapers concluded known))
        ]
      ]

  rules-IsReviewed :
      (findings : List (String × Finding))
      → IsKeyed (λ f. f.rule_id) findings
      → (rules : List AssessmentRule) (cs : List ControlTestResult)
      → ((id : String)
          → Memᴰ id (map (λ r. r.id) rules)
          → Memᴰ id (map (λ w. w.rule_id) e.workpapers))
      → Pairwise (λ rule c. control_for findings papers rule ≡ ok c) rules cs
      → All (IsReviewed e) cs
  rules-IsReviewed findings keyed [] [] tested h = tt
  rules-IsReviewed findings keyed [] (c ∷ cs) tested h = absurd h
  rules-IsReviewed findings keyed (rule ∷ rules) [] tested h = absurd h
  rules-IsReviewed findings keyed (rule ∷ rules) (c ∷ cs) tested (here, later) = (
    control_for-IsReviewed findings keyed rule c (tested rule.id (Memᴰ.head refl)) here,
    rules-IsReviewed findings keyed rules cs (λ id m. tested id (Memᴰ.tail m)) later,
  )

  control_results-IsReviewed :
      (findings : List Finding) (rules : List AssessmentRule) (cs : List ControlTestResult)
      → ((id : String)
          → Memᴰ id (map (λ r. r.id) rules)
          → Memᴰ id (map (λ w. w.rule_id) e.workpapers))
      → control_results e findings rules ≡ ok cs
      → All (IsReviewed e) cs
  unfolding control_results
  control_results-IsReviewed findings rules cs tested h =
      let by_rule = collect_into [] (map (λ f. (f.rule_id, f)) findings) in
      let keyed =
        IsKeyed-collect_into (λ f. f.rule_id) [] findings (IsKeyed-nil (λ f. f.rule_id)) in
      let (results, run, last) = >>=-eq-ok (map_result (control_for by_rule papers) rules) _ h in
      let whole : cs ≡ sort_by (λ c. c.rule_id) results = ground (arith, last) in
      let each = map_result-Pairwise (control_for by_rule papers) rules results run in
      rw whole (
        All-sort_by _ (IsReviewed e) results
          (rules-IsReviewed by_rule keyed rules results tested each))

-- In the dossier of a finalized engagement every control has a workpaper of its rule that its reviewer
-- approved, and it names both; no control is left without review.
pub run_audit-IsReviewed :
    (ext : External) (request : AssessmentRequest) (e : AuditEngagement) (p : AssessmentProgram)
    (d : AuditDossier)
    → run_audit ext request e p ≡ ok d
    → is_finalized e.phase ≡ true
    → All (IsReviewed e) d.control_results
unfolding run_audit
run_audit-IsReviewed ext request e p d h final =
    let (bound, _) = >>-eq-ok (validate_against e request.manifest request.evidence p) _ h in
    let b = validate_against-IsBound e request.manifest request.evidence p bound in
    let concluded = (validate_engagement-IsFinal e b.valid final).workpapers in
    elim (Result-cases (assess ext request p)) [
      | inl (r, q) ↦
          control_results-IsReviewed e concluded r.findings p.rules d.control_results
            (λ id m. (b.all_tested final id).0 m) (ground (arith, h, q))
      | inr (x, q) ↦ absurd (ground (arith, h, q))
    ]
