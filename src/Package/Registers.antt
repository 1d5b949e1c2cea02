-- ===== src/Package/Registers.antt =====
-- src/package.rs: the registers of a package: evidence, requests, samples, workpapers and the trail.
use canonical_company_audito.Prelude.{String, Option, none, some, [], ◌∷◌, map, length}
use canonical_company_audito.Text.{decimal, decimal_ℤ, concat}
use canonical_company_audito.Dossier.{AuditDossier, EvidenceIndexEntry, AuditTrailEntry}
use canonical_company_audito.Engagement.{EvidenceRequest, SamplePlan, Workpaper, ReviewSignoff}
use canonical_company_audito.Package.Format.{escape, code, codes, optional_code, row, bool_text}
use canonical_company_audito.Package.Labels.{
  request_label, sampling_label, workpaper_label, review_label,
}

abbrev pub evidence_row : EvidenceIndexEntry → String
evidence_row e = row (
    code e.observation_id
    ∷ code e.external_id
    ∷ code e.evidence_type
    ∷ code e.subject
    ∷ escape e.source_kind
    ∷ decimal_ℤ e.collected_at
    ∷ decimal_ℤ e.valid_until
    ∷ code e.facts_sha256
    ∷ bool_text e.attested
    ∷ codes e.referenced_by_rule_ids
    ∷ [])

unfoldable pub render_evidence : AuditDossier → String
unfolding code escape
render_evidence d = concat (
    "# Evidence manifest and chain of custody\n\n"
    ∷ "Normalized fact values and source artifacts are deliberately absent.\n\n"
    ∷ "| Observation | External ID | Type | Subject | Source | Collected | Valid until | Facts digest | Attested | Rules |\n| --- | --- | --- | --- | --- | ---: | ---: | --- | --- | --- |\n"
    ∷ map evidence_row d.evidence_index)

abbrev pub request_row : EvidenceRequest → String
request_row r = row (
    code r.request_id
    ∷ escape r.title
    ∷ code r.owner_id
    ∷ decimal_ℤ r.due_at
    ∷ request_label r.status
    ∷ codes r.rule_ids
    ∷ decimal (length r.evidence_external_ids)
    ∷ [])

unfoldable pub render_requests : AuditDossier → String
unfolding code escape
render_requests d = concat (
    "# Evidence request register\n\n"
    ∷ "| Request | Title | Owner | Due | Status | Rules | Evidence items |\n| --- | --- | --- | ---: | --- | --- | ---: |\n"
    ∷ map request_row d.engagement.evidence_requests)

abbrev pub sample_row : SamplePlan → String
sample_row s = row (
    code s.sample_plan_id
    ∷ code s.rule_id
    ∷ code s.population_id
    ∷ decimal s.population_size
    ∷ sampling_label s.method
    ∷ decimal s.sample_size
    ∷ decimal (length s.selected_item_fingerprints)
    ∷ escape s.rationale
    ∷ [])

unfoldable pub render_sampling : AuditDossier → String
unfolding code escape
render_sampling d = concat (
    "# Population and sample register\n\n"
    ∷ "| Sample plan | Rule | Population | Population size | Method | Sample size | Selection digest count | Rationale |\n| --- | --- | --- | ---: | --- | ---: | ---: | --- |\n"
    ∷ map sample_row d.engagement.sample_plans)

abbrev pub signoff_reviewer : Option ReviewSignoff → Option String
signoff_reviewer none = none
signoff_reviewer (some s) = some s.reviewer_id

abbrev pub signoff_label : Option ReviewSignoff → String
signoff_label none = "pending"
signoff_label (some s) = review_label s.conclusion

abbrev pub workpaper_row : Workpaper → String
workpaper_row w = row (
    code w.workpaper_id
    ∷ code w.rule_id
    ∷ code w.preparer_id
    ∷ decimal_ℤ w.prepared_at
    ∷ workpaper_label w.design_conclusion
    ∷ workpaper_label w.operating_conclusion
    ∷ decimal (length w.evidence_external_ids)
    ∷ decimal (length w.exceptions)
    ∷ optional_code (signoff_reviewer w.reviewer_signoff)
    ∷ signoff_label w.reviewer_signoff
    ∷ [])

unfoldable pub render_workpapers : AuditDossier → String
unfolding code optional_code
render_workpapers d = concat (
    "# Workpaper index and review status\n\n"
    ∷ "| Workpaper | Rule | Preparer | Prepared | Design | Operating | Evidence | Exceptions | Reviewer | Review |\n| --- | --- | --- | ---: | --- | --- | ---: | ---: | --- | --- |\n"
    ∷ map workpaper_row d.engagement.workpapers)

abbrev pub trail_row : AuditTrailEntry → String
trail_row e = row (
    decimal e.event.sequence
    ∷ code e.event.event_type
    ∷ code e.event.actor_id
    ∷ decimal_ℤ e.event.occurred_at
    ∷ code e.event.subject_id
    ∷ code e.event.payload_sha256
    ∷ optional_code e.previous_entry_sha256
    ∷ code e.entry_sha256
    ∷ [])

unfoldable pub render_trail : AuditDossier → String
unfolding code optional_code
render_trail d = concat (
    "# Content-addressed audit trail\n\n"
    ∷ "| Sequence | Event | Actor | Occurred | Subject | Payload | Previous | Entry |\n| ---: | --- | --- | ---: | --- | --- | --- | --- |\n"
    ∷ map trail_row d.audit_trail)
