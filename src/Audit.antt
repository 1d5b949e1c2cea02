-- ===== src/Audit.antt =====
-- src/audit.rs: control results, the evidence index, the hash-chained trail and the conclusion.
pub mod Run
pub mod Controls
pub mod Conclusion
pub mod Trail
pub mod Dossiers
pub mod Coverage
pub mod Approved
use Prim.Native.String.{◌++◌}
use canonical_company_audito.Prelude.{
  ℕ, ◌+◌, ◌-◌, ◌*◌, ◌/◌, ◌^◌, String, Bool, true, false, not, ◌&&◌, ◌||◌, ◌==◌, Option, none, some,
  List, [], ◌∷◌, map, filter, count, any, is_empty, is_some, length, leb, ltb, eqb, min,
  if◌then◌else◌, flat_map,
}
use canonical_company_audito.Outcome.{Result, ok, err, integrity, ◌>>=◌, ◌>>◌}
use canonical_company_audito.Collections.{get, insert, set_insert, sort_by}
use canonical_company_audito.Model.{
  Severity, high, rank, FindingStatus, fail, unknown, Finding, EvidenceSource, manual, connector,
  runtime_probe,
}
use canonical_company_audito.Engagement.{
  AuditEngagement, AuditException, EngagementEvent, EngagementPhase, planning, fieldwork, review,
  management_response, finalized, ExceptionClassification, major, ExceptionDisposition, remediated,
  compensating_control, ManagementResponse, ReviewSignoff, Workpaper, WorkpaperConclusion,
  ineffective,
}
use canonical_company_audito.Engagement.Validate.{
  is_settled, is_not_tested, is_finalized, is_approved,
}
use canonical_company_audito.Dossier.{
  AuditConclusion, satisfactory, satisfactory_with_exceptions, unsatisfactory, incomplete,
  ControlTestStatus, exception, evidence_gap, not_reviewed, DossierSummary, ControlTestResult,
  EvidenceIndexEntry, ExceptionRecord, AuditTrailEntry,
}
use canonical_company_audito.External.{External, trail_entry}
use canonical_company_audito.Evidence.{SealedObservation, digest}

abbrev pub is_unknown : FindingStatus → Bool
is_unknown unknown = true
is_unknown _ = false

abbrev pub is_fail : FindingStatus → Bool
is_fail fail = true
is_fail _ = false

abbrev pub is_ineffective : WorkpaperConclusion → Bool
is_ineffective ineffective = true
is_ineffective _ = false

-- the `match` of `control_result`
unfoldable pub audit_status : FindingStatus → Option Workpaper → ControlTestStatus
audit_status status none = not_reviewed
audit_status status (some w) =
    if is_unknown status
      || is_not_tested w.design_conclusion
      || is_not_tested w.operating_conclusion
    then evidence_gap
    else if is_fail status
        || is_ineffective w.design_conclusion
        || is_ineffective w.operating_conclusion
        || not (is_empty w.exceptions)
    then exception
    else ControlTestStatus.satisfactory

abbrev pub approver : Option ReviewSignoff → Option String
approver none = none
approver (some signoff) = if is_approved signoff.conclusion then some signoff.reviewer_id else none

-- `workpaper.map(f)` and `workpaper.and_then(f)`
abbrev pub map_option {ℓ κ} : {A : Type ℓ} {B : Type κ} → (A → B) → Option A → Option B
map_option f none = none
map_option f (some a) = some (f a)

abbrev pub and_then {ℓ κ} : {A : Type ℓ} {B : Type κ} → Option A → (A → Option B) → Option B
and_then none f = none
and_then (some a) f = f a

abbrev pub exception_ids_of : Option Workpaper → List String
exception_ids_of none = []
exception_ids_of (some w) = map (λ x. x.exception_id) w.exceptions

unfoldable pub control_result : Finding → Option Workpaper → ControlTestResult
unfolding audit_status
control_result f workpaper = record {
  rule_id = f.rule_id;
  title = f.title;
  category = f.category;
  severity = f.severity;
  automated_status = f.status;
  audit_status = audit_status f.status workpaper;
  workpaper_id = map_option (λ w. w.workpaper_id) workpaper;
  design_conclusion = map_option (λ w. w.design_conclusion) workpaper;
  operating_conclusion = map_option (λ w. w.operating_conclusion) workpaper;
  reviewer_id = and_then workpaper (λ w. approver w.reviewer_signoff);
  sample_plan_id = and_then workpaper (λ w. w.sample_plan_id);
  evidence_ids = f.evidence_ids;
  exception_ids = exception_ids_of workpaper;
  framework_mappings = f.framework_mappings;
}

abbrev pub or_empty : Option (List String) → List String
or_empty none = []
or_empty (some values) = values

-- `references.entry(evidence_id).or_default().insert(rule_id)`
unfoldable pub add_references :
    String → List (String × List String) → List String → List (String × List String)
add_references rule_id m [] = m
add_references rule_id m (id ∷ ids) =
    add_references rule_id (insert id (set_insert rule_id (or_empty (get id m))) m) ids

unfoldable pub references_from :
    List (String × List String) → List Finding → List (String × List String)
references_from m [] = m
references_from m (f ∷ fs) = references_from (add_references f.rule_id m f.evidence_ids) fs

abbrev pub source_kind : EvidenceSource → String
source_kind (manual _) = "manual"
source_kind (connector _ _) = "connector"
source_kind (runtime_probe _ _) = "runtime_probe"

abbrev pub index_entry : List (String × List String) → SealedObservation → EvidenceIndexEntry
index_entry references o = record {
  observation_id = o.observation_id;
  external_id = o.input.external_id;
  evidence_type = o.input.evidence_type;
  subject = o.input.subject;
  source_kind = source_kind o.input.source;
  collected_at = o.input.collected_at;
  valid_until = o.input.valid_until;
  facts_sha256 = o.facts_sha256;
  attested = is_some o.input.attestation;
  referenced_by_rule_ids = or_empty (get o.observation_id references);
}

unfoldable pub evidence_index : List SealedObservation → List Finding → List EvidenceIndexEntry
unfolding references_from add_references
evidence_index observations findings =
    sort_by (λ i. i.observation_id) (map (index_entry (references_from [] findings)) observations)

-- the loop of `build_audit_trail`
module _ (ext : External) where
  unfoldable pub trail_from : Option String → List EngagementEvent → Result (List AuditTrailEntry)
  trail_from previous [] = ok []
  trail_from previous (event ∷ events) = do
    entry_sha256 ← digest ext (trail_entry "canonical.audit-trail-entry/v1" previous event)
    rest ← trail_from (some entry_sha256) events
    ok (
        record { event = event; previous_entry_sha256 = previous; entry_sha256 = entry_sha256 }
        ∷ rest)

  unfoldable pub build_audit_trail : List EngagementEvent → Result (List AuditTrailEntry)
  unfolding trail_from
  build_audit_trail events = trail_from none events

abbrev pub usize_max : ℕ
usize_max = 2 ^ 64 - 1

-- `numerator.saturating_mul(10_000) / denominator`, and 10 000 where that is no `u16`
unfoldable pub basis_points : ℕ → ℕ → ℕ
basis_points numerator denominator =
    if eqb denominator 0
    then 0
    else (let value = min (numerator * 10000) usize_max / denominator in
        if ltb value 65536 then value else 10000)

abbrev pub status_index : ControlTestStatus → ℕ
status_index ControlTestStatus.satisfactory = 0
status_index exception = 1
status_index evidence_gap = 2
status_index not_reviewed = 3

unfoldable pub count_status : List ControlTestResult → ControlTestStatus → ℕ
count_status controls status =
    count (λ c. eqb (status_index c.audit_status) (status_index status)) controls

-- `Remediated | CompensatingControl`
abbrev pub is_treated : ExceptionDisposition → Bool
is_treated remediated = true
is_treated compensating_control = true
is_treated _ = false

abbrev pub is_major : ExceptionClassification → Bool
is_major major = true
is_major _ = false

unfoldable pub summarize :
    AuditEngagement → List ControlTestResult → List ExceptionRecord → DossierSummary
unfolding count_status basis_points
summarize e controls exceptions = record {
  total_controls = length controls;
  satisfactory_controls = count_status controls ControlTestStatus.satisfactory;
  exception_controls = count_status controls exception;
  evidence_gap_controls = count_status controls evidence_gap;
  not_reviewed_controls = count_status controls not_reviewed;
  evidence_coverage_basis_points =
      basis_points (count (λ c. not (is_empty c.evidence_ids)) controls) (length controls);
  review_coverage_basis_points =
      basis_points (count (λ c. is_some c.reviewer_id) controls) (length controls);
  open_evidence_requests = count (λ r. not (is_settled r.status)) e.evidence_requests;
  total_exceptions = length exceptions;
  open_exceptions = count (λ x. not (is_treated x.exception.disposition)) exceptions;
  management_responses = count (λ x. is_some x.management_response) exceptions;
}

-- `EvidenceGap | NotReviewed`
abbrev pub is_gap : ControlTestStatus → Bool
is_gap evidence_gap = true
is_gap not_reviewed = true
is_gap _ = false

abbrev pub is_exception : ControlTestStatus → Bool
is_exception exception = true
is_exception _ = false

unfoldable pub conclude :
    AuditEngagement → List ControlTestResult → List ExceptionRecord → AuditConclusion
conclude e controls exceptions =
    if not (is_finalized e.phase)
      || any (λ c. is_gap c.audit_status) controls
      || any (λ r. not (is_settled r.status)) e.evidence_requests
    then incomplete
    else if any (λ c. is_exception c.audit_status && leb (rank high) (rank c.severity)) controls
        || any
            (λ x. is_major x.exception.classification && not (is_treated x.exception.disposition))
            exceptions
    then unsatisfactory
    else if any (λ c. is_exception c.audit_status) controls || not (is_empty exceptions)
    then satisfactory_with_exceptions
    else AuditConclusion.satisfactory

-- `{:?}` of the phase
abbrev pub phase_name : EngagementPhase → String
phase_name planning = "Planning"
phase_name fieldwork = "Fieldwork"
phase_name review = "Review"
phase_name management_response = "ManagementResponse"
phase_name finalized = "Finalized"

unfoldable pub limitations : AuditEngagement → List String
limitations e =
    "This dossier records audit-support procedures and tool conclusions; it is not a certification, legal opinion, regulatory determination, or independent auditor report."
    ∷ "Only an appropriately authorized and qualified auditor can decide whether procedures, sample sizes, evidence, and conclusions are sufficient for a specific engagement."
    ∷ "The evidence index preserves provenance and digests but intentionally excludes normalized fact values and source artifacts."
    ∷ "Framework mappings are directional aids and do not replace authoritative source material or licensed standards."
    ∷ ("The dossier reflects engagement "
        ++ (e.engagement_id
            ++ (" at the "
                ++ (phase_name e.phase
                    ++ " phase and must be regenerated when its record changes."))))
    ∷ []
