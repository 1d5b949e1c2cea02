-- ===== src/Readiness/Checklist.antt =====
-- src/app/readiness.rs: the Markdown checklist, and the command as a whole.
use Prim.Native.Char.{Char, code}
use Prim.Native.String.{[], ◌∷◌, ◌++◌}
use mathlib.Core.List.{List, [], ◌∷◌}
use canonical_company_audito.Prelude.{
  ℕ, String, Bool, ◌||◌, ◌==◌, Option, none, some, map, eqb, any, filter, head?, if◌then◌else◌,
}
use canonical_company_audito.Outcome.{Result, ok, json, ok_or, ◌>>=◌, ◌>>◌}
use canonical_company_audito.Text.{codes, concat}
use canonical_company_audito.Collections.{get}
use canonical_company_audito.Json.{Value, null, object, entries}
use canonical_company_audito.Readiness.{Catalog, Framework, Question, Context, label, Response}
use canonical_company_audito.Readiness.Fields.{notice, invalid}
use canonical_company_audito.Readiness.Responses.{Opened, read, validate_context, draft, validate}
use canonical_company_audito.Readiness.Analysis.{answer_to, analyze}

-- one turn of the loop of `escaped`
unfoldable pub escaped_char : Char → String
escaped_char c =
    if eqb (code c) b'&'
    then "&amp;"
    else if eqb (code c) b'<'
    then "&lt;"
    else if eqb (code c) b'>'
    then "&gt;"
    else if eqb (code c) 10 || eqb (code c) 13 || eqb (code c) 9
    then " "
    else if any (eqb (code c)) (codes "\\`*_{}[]()#+.!|~-")
    then "\\" ++ (c ∷ [])
    else c ∷ []

unfoldable pub escaped : String → String
unfolding escaped_char
escaped [] = []
escaped (c ∷ s) = escaped_char c ++ escaped s

-- `writeln!(output, "{name}: {}\n", escaped(value))`
abbrev pub entry : String × String → String
entry (name, value) = concat (name ∷ ": " ∷ escaped value ∷ "\n\n" ∷ [])

-- `value[key]`, which is null for a missing key
abbrev pub index : String → Value → Value
index key (object fs) = elim (get key (entries fs)) [ none ↦ null | some v ↦ v ]
index key _ = null

unfoldable pub question_section : Response → Question → String
unfolding answer_to escaped
question_section response q =
    let a = answer_to response.answers q in
    concat (
      "## "
      ∷ q.id
      ∷ " — "
      ∷ q.prompt
      ∷ "\n\nSuggested evidence: "
      ∷ q.evidence
      ∷ "\n\nPrimary review method: "
      ∷ q.method
      ∷ ".\n\n"
      ∷ map entry (
          ("status", label a.status)
          ∷ ("owner", a.owner)
          ∷ ("notes", a.notes)
          ∷ ("evidenceRef", a.evidence_ref)
          ∷ ("evidenceDate", a.evidence_date)
          ∷ ("reviewer", a.reviewer)
          ∷ ("dueDate", a.due_date)
          ∷ []))

abbrev pub source_line : String → String
source_line source = concat ("- " ∷ source ∷ "\n" ∷ [])

-- `{}` of a JSON value is a parameter.
module _ (display : Value → String) where
  unfoldable pub markdown : Framework → Response → Value → String
  unfolding question_section escaped
  markdown framework response report =
      let context = response.context in
      concat (
        concat (
          "# " ∷ framework.title ∷ " readiness checklist\n\nEdition: " ∷ framework.edition
          ∷ ". Catalog: " ∷ response.catalog_version ∷ ".\n\n" ∷ framework.scope_note ∷ "\n\n"
          ∷ notice
          ∷ "\n\nComplete this framework independently. Missing evidence is unknown, not proof of failure.\n\n"
          ∷ [])
        ∷ concat (
            map entry (
              ("customerId", context.customer_id)
              ∷ ("assessmentId", context.assessment_id)
              ∷ ("scope", context.scope)
              ∷ ("periodStart", context.period_start)
              ∷ ("periodEnd", context.period_end)
              ∷ ("asOf", context.as_of)
              ∷ []))
        ∷ concat ("Summary: " ∷ display (index "summary" report) ∷ "\n\n" ∷ [])
        ∷ concat (map (question_section response) framework.questions)
        ∷ "## Authoritative references\n\n"
        ∷ concat (map source_line framework.sources)
        ∷ [])

pub data ReportFormat : Type 0 where
  json_format markdown_format : ReportFormat

pub data Exit : Type 0 where
  success finding_threshold : Exit

-- The files at the two paths; without a path of responses a draft is written.
pub record ReadinessArgs : Type 0 where
  pub framework : String
  pub context : Option Opened
  pub responses : Option (Option Opened)
  pub format : ReportFormat

abbrev pub exit_of : Option (Option Opened) → Bool → Exit
exit_of (some path) gaps = if gaps then finding_threshold else success
exit_of none gaps = success

-- The JSON parsers and printers are parameters; `write_output` writes the text to a file.
module _ (parse_context : List ℕ → Option Context) (parse_response : List ℕ → Option Response)
    (display : Value → String) (response_text : Response → Option String)
    (value_text : Value → Option String) (write_output : String → Result (Unit {0})) where
  unfoldable pub read_response :
      Catalog → Framework → Context → Option (Option Opened) → Result Response
  unfolding draft read
  read_response catalog framework context none = ok (draft catalog framework context)
  read_response catalog framework context (some path) = read parse_response path

  unfoldable pub output_of :
      ReportFormat → Option (Option Opened) → Framework → Response → Value → Result String
  unfolding markdown
  output_of json_format none framework response report =
      ok_or (response_text response) json >>= λ text. ok (text ++ "\n")
  output_of json_format (some path) framework response report =
      ok_or (value_text report) json >>= λ text. ok (text ++ "\n")
  output_of markdown_format responses framework response report =
      ok (markdown display framework response report)

  -- The catalog is embedded in the program.
  unfoldable pub execute : Catalog → ReadinessArgs → Result Exit
  unfolding read_response output_of validate validate_context analyze read
  execute catalog arguments = do
    framework ← ok_or (head? (filter (λ f. f.id == arguments.framework) catalog.frameworks)) invalid
    context ← read parse_context arguments.context
    validate_context context
    response ← read_response catalog framework context arguments.responses
    validate catalog framework context response
    let (report, gaps) = analyze framework response
    output ← output_of arguments.format arguments.responses framework response report
    write_output output
    ok (exit_of arguments.responses gaps)
