-- ===== src/Engine/Coverage.antt =====
-- An assessment reports one finding for each rule, in rule order (src/engine.rs).
use mathlib.Core.List.{Perm}
use mathlib.Core.List.Perm
use canonical_company_audito.Prelude.{◌≡◌, List, map, arith}
use canonical_company_audito.Outcome.{ok, map_result, >>=-eq-ok, >>-eq-ok, map-map_result}
use canonical_company_audito.Collections.{sort_by}
use canonical_company_audito.Collections.Sorted.{Ascends, sort_by-perm, sort_by-Ascends}
use canonical_company_audito.Model.{AssessmentRequest, Finding, AuditReport}
use canonical_company_audito.Model.Validate.{validate_manifest, validate_bundle}
use canonical_company_audito.Program.Validate.{validate_program}
use canonical_company_audito.Program.{AssessmentRule, AssessmentProgram}
use canonical_company_audito.External.{External, manifest, program}
use canonical_company_audito.Evidence.{SealedObservation, SealedEvidence, digest, seal_evidence}
use canonical_company_audito.Engine.{evaluate_rule, known_frameworks, assess}

module _ (ext : External) (request : AssessmentRequest) where
  -- The findings of an accepted assessment, before and after sorting.
  pub record Evaluated (p : AssessmentProgram) (r : AuditReport) : Type 0 where
    pub sealed : SealedEvidence
    pub sealing : seal_evidence ext request.manifest request.evidence ≡ ok sealed
    pub evaluated : List Finding
    pub evaluating :
        map_result (evaluate_rule ext request sealed.observations) p.rules ≡ ok evaluated
    pub sorted : r.findings ≡ sort_by (λ f. f.rule_id) evaluated

  pub assess-Evaluated :
      (p : AssessmentProgram) (r : AuditReport) → assess ext request p ≡ ok r → Evaluated p r
  unfolding assess
  assess-Evaluated p r h =
      let (_, h1) = >>-eq-ok (validate_manifest request.manifest) _ h in
      let (_, h2) = >>-eq-ok (validate_bundle request.evidence) _ h1 in
      let (_, h3) = >>-eq-ok (validate_program ext p) _ h2 in
      let (_, h4) = >>-eq-ok (known_frameworks ext p request.manifest.frameworks) _ h3 in
      let (sealed, sealing, h5) =
        >>=-eq-ok (seal_evidence ext request.manifest request.evidence) _ h4 in
      let (_, _, h6) = >>=-eq-ok (digest ext (manifest request.manifest)) _ h5 in
      let (_, _, h7) = >>=-eq-ok (digest ext (program p)) _ h6 in
      let (evaluated, evaluating, h8) =
        >>=-eq-ok (map_result (evaluate_rule ext request sealed.observations) p.rules) _ h7 in
      record {
        sealed = sealed;
        sealing = sealing;
        evaluated = evaluated;
        evaluating = evaluating;
        sorted = ground arith;
      }

  rule_id_kept :
      (os : List SealedObservation) (rule : AssessmentRule) (f : Finding)
      → evaluate_rule ext request os rule ≡ ok f
      → f.rule_id ≡ rule.id
  unfolding evaluate_rule
  rule_id_kept os rule f h = ground arith

  pub rule_ids-Evaluated :
      (p : AssessmentProgram) (r : AuditReport) (v : Evaluated p r)
      → map (λ f. f.rule_id) v.evaluated ≡ map (λ rule. rule.id) p.rules
  rule_ids-Evaluated p r v =
      map-map_result (evaluate_rule ext request v.sealed.observations) (λ f. f.rule_id)
        (λ rule. rule.id) (rule_id_kept v.sealed.observations) p.rules v.evaluated v.evaluating

  -- The rule identifiers of the findings are those of the program, each as often, and the findings
  -- stand in the order of their rule identifiers.
  pub assess-covers_rules :
      (p : AssessmentProgram) (r : AuditReport)
      → assess ext request p ≡ ok r
      → Perm (map (λ f. f.rule_id) r.findings) (map (λ rule. rule.id) p.rules)
        × Ascends (λ f. f.rule_id) r.findings
  assess-covers_rules p r h =
      let v = assess-Evaluated p r h in
      let perm =
        Perm.map (λ (f : Finding). f.rule_id) (sort_by-perm (λ f. f.rule_id) v.evaluated) in
      (
        rw v.sorted (rw (← rule_ids-Evaluated p r v) perm),
        rw v.sorted (sort_by-Ascends (λ f. f.rule_id) v.evaluated),
      )
