-- ===== src/Report.antt =====
-- src/report.rs: the Markdown of a report and the prompts on it.
use canonical_company_audito.Prelude.{String, Option, List, [], ◌∷◌, map, ◌==◌, if◌then◌else◌, same}
use canonical_company_audito.Outcome.{Result, ok, err, json, unknown_catalog_item, ok_or, ◌>>=◌}
use canonical_company_audito.Text.{trim, decimal, concat, replace, lines}
use canonical_company_audito.Model.{FindingStatus, FrameworkMapping, Finding, AuditReport}
use canonical_company_audito.Package.Labels.{severity_name}

pub data PromptKind : Type 0 where
  executive_summary evidence_review gap_analysis remediation_plan : PromptKind

abbrev pub names : List String
names = "evidence-review" ∷ "executive-summary" ∷ "gap-analysis" ∷ "remediation-plan" ∷ []

abbrev pub as_str : PromptKind → String
as_str executive_summary = "executive-summary"
as_str evidence_review = "evidence-review"
as_str gap_analysis = "gap-analysis"
as_str remediation_plan = "remediation-plan"

unfoldable pub from_str : String → Result PromptKind
from_str value =
    if value == "executive-summary"
    then ok executive_summary
    else if value == "evidence-review"
    then ok evidence_review
    else if value == "gap-analysis"
    then ok gap_analysis
    else if value == "remediation-plan"
    then ok remediation_plan
    else err (unknown_catalog_item value)

unfoldable pub escape_inline : String → String
unfolding replace
escape_inline value = replace b'`' "\\`" value

unfoldable pub escape_text : String → String
unfolding replace
escape_text value = replace b'>' "&gt;" (
    replace b'<' "&lt;" (
      replace b']' "\\]" (
        replace b'[' "\\[" (replace b'_' "\\_" (replace b'*' "\\*" (replace b'\\' "\\\\" value))))))

unfoldable pub push_field : String → String → String
unfolding escape_text escape_inline
push_field label value =
    concat ("**" ∷ escape_text label ∷ ":** `" ∷ escape_inline value ∷ "`  \n" ∷ [])

abbrev pub inline_bullet : String → String
inline_bullet value = concat ("- `" ∷ escape_inline value ∷ "`\n" ∷ [])

abbrev pub mapping_bullet : FrameworkMapping → String
mapping_bullet m =
    concat ("- `" ∷ escape_inline m.framework_id ∷ "` — " ∷ escape_text m.reference ∷ "\n\n" ∷ [])

abbrev pub evidence_list : List String → String
evidence_list [] = ""
evidence_list (x ∷ xs) =
    concat ("**Evidence IDs:**\n\n" ∷ concat (map inline_bullet (x ∷ xs)) ∷ "\n" ∷ [])

abbrev pub mapping_list : List FrameworkMapping → String
mapping_list [] = ""
mapping_list (m ∷ ms) =
    concat ("**Framework references:**\n\n" ∷ concat (map mapping_bullet (m ∷ ms)) ∷ "\n" ∷ [])

unfoldable pub render_finding : Finding → String
unfolding push_field escape_text escape_inline
render_finding f = concat (
    concat ("### " ∷ escape_text f.title ∷ " — " ∷ severity_name f.severity ∷ "\n\n" ∷ [])
    ∷ push_field "Finding ID" f.finding_id
    ∷ push_field "Rule" f.rule_id
    ∷ push_field "Category" f.category
    ∷ push_field "Subject" f.subject
    ∷ concat ("\n" ∷ escape_text f.summary ∷ "\n\n" ∷ [])
    ∷ concat ("**Remediation:** " ∷ escape_text f.remediation ∷ "\n\n" ∷ [])
    ∷ evidence_list f.evidence_ids
    ∷ mapping_list f.framework_mappings
    ∷ [])

pub FindingStatus-discrete : Discrete FindingStatus
FindingStatus-discrete = hlevel

-- `filter(|finding| finding.status == status)`
abbrev pub selected : FindingStatus → List Finding → List Finding
selected status [] = []
selected status (f ∷ fs) =
    let rest = selected status fs in
    if same FindingStatus-discrete f.status status then f ∷ rest else rest

abbrev pub finding_list : List Finding → String
finding_list [] = "None.\n"
finding_list (f ∷ fs) = concat (map render_finding (f ∷ fs))

-- one turn of the loop over the headings
unfoldable pub section : AuditReport → String × FindingStatus → String
unfolding render_finding
section r (heading, status) =
    concat ("\n## " ∷ heading ∷ "\n\n" ∷ finding_list (selected status r.findings) ∷ [])

unfoldable pub render_markdown : AuditReport → String
unfolding push_field section escape_text escape_inline
render_markdown r = concat (
    "# Whole-company readiness assessment\n\n"
    ∷ push_field "Company" r.manifest.company_name
    ∷ push_field "Tenant" r.manifest.tenant_id
    ∷ push_field "Scope" r.manifest.scope_id
    ∷ push_field "Report" r.report_id
    ∷ push_field "Manifest" r.manifest_sha256
    ∷ push_field "Evidence" r.evidence_sha256
    ∷ push_field "Program" r.program_sha256
    ∷ "\n## Outcome\n\n"
    ∷ "| Passed | Failed | Unknown | High/critical failures |\n| ---: | ---: | ---: | ---: |\n| "
    ∷ decimal r.summary.passed
    ∷ " | "
    ∷ decimal r.summary.failed
    ∷ " | "
    ∷ decimal r.summary.unknown
    ∷ " | "
    ∷ decimal r.summary.high_or_critical
    ∷ " |\n\n"
    ∷ "\n## Framework profiles\n\n"
    ∷ concat (map inline_bullet r.manifest.frameworks)
    ∷ section r ("Findings", FindingStatus.fail)
    ∷ section r ("Evidence gaps", FindingStatus.unknown)
    ∷ section r ("Satisfied tests", FindingStatus.pass)
    ∷ "\n## Limitations\n\n"
    ∷ concat (map (λ limitation. concat ("- " ∷ escape_text limitation ∷ "\n" ∷ [])) r.limitations)
    ∷ [])

abbrev pub data_line : String → String
data_line line = concat ("DATA " ∷ line ∷ "\n" ∷ [])

-- The prompt files of the build and the printer of indented JSON are parameters.
module _ (template : PromptKind → String) (to_string_pretty : AuditReport → Option String) where
  unfoldable pub render_prompt : PromptKind → AuditReport → Result String
  unfolding lines trim
  render_prompt kind report = ok_or (to_string_pretty report) json >>= λ serialized. ok (
      concat (
        trim (template kind)
        ∷ "\n\nBEGIN UNTRUSTED ASSESSMENT DATA\n"
        ∷ concat (map data_line (lines serialized))
        ∷ "END UNTRUSTED ASSESSMENT DATA\n"
        ∷ []))
