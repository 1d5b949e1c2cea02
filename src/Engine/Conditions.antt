-- ===== src/Engine/Conditions.antt =====
-- What the status of a finding says about the evidence (src/engine.rs).
use canonical_company_audito.Prelude.{
  ◌≤ℤ◌, eq_iff, ◌≡◌, ◌↔◌, refl, Bool, true, false, Option, none, some, List, [], ◌∷◌, map, filter,
  Memᴰ, arith, Bool-cases, inl, inr, ap, sym, ◌∙◌, subst, of_mem-map-filter, mem-map-filter,
}
use canonical_company_audito.Outcome.{ok}
use canonical_company_audito.Model.{AssessmentRequest, FindingStatus, pass, fail, unknown, Finding}
use canonical_company_audito.Program.{AssessmentRule}
use canonical_company_audito.External.{External}
use canonical_company_audito.Evidence.{SealedObservation}
use canonical_company_audito.Engine.{
  bool_eq, has_verdict, status_of, is_relevant, evaluate_condition, evaluate_rule,
}

bool_eq_lem : (a b : Bool) → bool_eq a b ≡ true → a ≡ b
bool_eq_lem a b h = ground arith

has_verdict_to : (b : Bool) (vs : List (Option Bool)) → has_verdict b vs ≡ true → Memᴰ (some b) vs
unfolding has_verdict
has_verdict_to b [] h = absurd (ground arith)
has_verdict_to b (none ∷ vs) h = Memᴰ.tail (has_verdict_to b vs h)
has_verdict_to b (some v ∷ vs) h = elim (Bool-cases (bool_eq v b)) [
  | inl e ↦ Memᴰ.head (ap some (sym (bool_eq_lem v b e)))
  | inr e ↦ Memᴰ.tail (has_verdict_to b vs (rw e at h))
]

has_verdict_from : (b : Bool) (vs : List (Option Bool)) → Memᴰ (some b) vs → has_verdict b vs ≡ true
unfolding has_verdict
has_verdict_from b [] m = elim m [ ]
has_verdict_from b (none ∷ vs) (Memᴰ.head e) = absurd (ground arith)
has_verdict_from b (none ∷ vs) (Memᴰ.tail m) = has_verdict_from b vs m
has_verdict_from b (some v ∷ vs) (Memᴰ.head e) = ground arith
has_verdict_from b (some v ∷ vs) (Memᴰ.tail m) = ground (arith, has_verdict_from b vs m)

has_verdict_iff :
    (b : Bool) (vs : List (Option Bool)) → (has_verdict b vs ≡ true) ↔ Memᴰ (some b) vs
has_verdict_iff b vs = (has_verdict_to b vs, has_verdict_from b vs)

module _ (ext : External) (request : AssessmentRequest) (rule : AssessmentRule) where
  -- Of the rule's evidence type, collected by the end of the period and still valid then.
  pub record IsRelevant (o : SealedObservation) : Type 0 where
    pub same_type : o.input.evidence_type ≡ rule.evidence_type
    pub collected : o.input.collected_at ≤ℤ request.manifest.assessment_period.ends_at
    pub current : request.manifest.assessment_period.ends_at ≤ℤ o.input.valid_until

  IsRelevant-iff : (o : SealedObservation) → (is_relevant request rule o ≡ true) ↔ IsRelevant o
  IsRelevant-iff o =
      let texts = eq_iff o.input.evidence_type rule.evidence_type in
      (
        λ h. record {
          same_type = texts.0 (ground arith);
          collected = ground arith;
          current = ground arith;
        },
        λ v. ground (arith, texts.1 v.same_type, v.collected, v.current),
      )

  -- A relevant observation that gives the verdict.
  pub record Gives (verdict : Option Bool) (o : SealedObservation) : Type 0 where
    pub relevant : IsRelevant o
    pub evaluated : evaluate_condition ext rule o ≡ verdict

  abbrev pub Given : Option Bool → List SealedObservation → Type 0
  Given verdict observations = (o : SealedObservation) × Memᴰ o observations × Gives verdict o

  abbrev evaluations : List SealedObservation → List (Option Bool)
  evaluations observations =
      map (evaluate_condition ext rule) (filter (is_relevant request rule) observations)

  has_verdict-Given :
      (b : Bool) (observations : List SealedObservation)
      → (has_verdict b (evaluations observations) ≡ true) ↔ Given (some b) observations
  has_verdict-Given b observations =
      let (to, from) = has_verdict_iff b (evaluations observations) in
      (
        λ h.
            let (o, m, r, e) =
              of_mem-map-filter (is_relevant request rule) (evaluate_condition ext rule)
                observations (to h) in
            (o, m, record { relevant = (IsRelevant-iff o).0 r; evaluated = e }),
        λ (o, m, g). from (
            subst (λ v. Memᴰ v (evaluations observations)) g.evaluated
              (mem-map-filter (is_relevant request rule) (evaluate_condition ext rule) observations
                m ((IsRelevant-iff o).1 g.relevant))),
      )

  -- What the status of a finding means, in terms of the observations that were sealed.
  abbrev pub Meaning : List SealedObservation → FindingStatus → Type 0
  Meaning os pass = Given (some true) os
  Meaning os fail = ¬ Given (some true) os × Given (some false) os
  Meaning os unknown = ¬ Given (some true) os × ¬ Given (some false) os

  status-Meaning : (os : List SealedObservation) → Meaning os (status_of (evaluations os))
  unfolding status_of
  status-Meaning os =
      let (yes_to, yes_from) = has_verdict-Given true os in
      let (no_to, no_from) = has_verdict-Given false os in
      elim (Bool-cases (has_verdict true (evaluations os))) [
        | inl t ↦ rw t (yes_to t)
        | inr t ↦ elim (Bool-cases (has_verdict false (evaluations os))) [
          | inl f ↦ rw (t, f) ((λ g. ground (arith, yes_from g)), no_to f)
          | inr f ↦ rw (t, f) ((λ g. ground (arith, yes_from g)), (λ g. ground (arith, no_from g)))
        ]
      ]

  Meaning-unique :
      (os : List SealedObservation) (s t : FindingStatus) → Meaning os s → Meaning os t → s ≡ t
  Meaning-unique os pass pass m n = refl
  Meaning-unique os fail fail m n = refl
  Meaning-unique os unknown unknown m n = refl
  Meaning-unique os pass fail m n = absurd (n.0 m)
  Meaning-unique os pass unknown m n = absurd (n.0 m)
  Meaning-unique os fail pass m n = absurd (m.0 n)
  Meaning-unique os unknown pass m n = absurd (m.0 n)
  Meaning-unique os fail unknown m n = absurd (n.1 m.1)
  Meaning-unique os unknown fail m n = absurd (m.1 n.1)

  finding_status :
      (os : List SealedObservation) (f : Finding)
      → evaluate_rule ext request os rule ≡ ok f
      → f.status ≡ status_of (evaluations os)
  unfolding evaluate_rule
  finding_status os f h = ground arith

  -- The finding of a rule passes exactly when some current, type-compatible observation satisfies
  -- the rule's condition, fails exactly when none does and some contradicts it, and is unknown
  -- exactly when no such observation decides the condition.
  pub evaluate_rule-status :
      (os : List SealedObservation) (f : Finding) (s : FindingStatus)
      → evaluate_rule ext request os rule ≡ ok f
      → (f.status ≡ s) ↔ Meaning os s
  evaluate_rule-status os f s h =
      let same = finding_status os f h in
      (
        λ e. subst (Meaning os) (sym same ∙ e) (status-Meaning os),
        λ m. same ∙ Meaning-unique os _ s (status-Meaning os) m,
      )
