-- ===== src/Readiness/Responses.antt =====
-- src/app/readiness.rs: drafts, and the validation of the context and of a response.
use canonical_company_audito.Prelude.{
  ℕ, suc, String, Bool, not, ◌&&◌, ◌||◌, ◌==◌, Option, List, [], map, ltb, length, take,
}
use canonical_company_audito.Outcome.{Result, ok, io, reject_if, ok_or, ◌>>=◌, ◌>>◌}
use canonical_company_audito.Text.{is_blank, lt, le}
use canonical_company_audito.Collections.{contains, set_of}
use canonical_company_audito.Collections.Unique.{for_unique}
use canonical_company_audito.Readiness.{
  Catalog, Framework, Question, Context, unanswered, Answer, Response,
}
use canonical_company_audito.Readiness.Fields.{
  max_bytes, version, invalid, identifier, text, blank_text, valid_date,
}

-- `decode`, with `serde_json::from_slice` as a parameter
unfoldable pub decode : {T : Type 0} → (List ℕ → Option T) → List ℕ → Result T
decode parse bytes = do
  reject_if (ltb max_bytes (length bytes)) invalid
  ok_or (parse bytes) invalid

-- What `File::open` and `metadata` find at a path.
pub record Opened : Type 0 where
  pub is_file : Bool
  pub content : Option (List ℕ)

-- `read`; `none` is an error of the file system
unfoldable pub read : {T : Type 0} → (List ℕ → Option T) → Option Opened → Result T
unfolding decode
read parse path = do
  file ← ok_or path io
  reject_if (not file.is_file) invalid
  content ← ok_or file.content io
  decode parse (take (suc max_bytes) content)

unfoldable pub validate_context : Context → Result (Unit {0})
validate_context c =
    reject_if
      (not (identifier c.customer_id)
        || not (identifier c.assessment_id)
        || not (text c.scope 1000)
        || blank_text c.scope
        || not (valid_date c.period_start)
        || not (valid_date c.period_end)
        || not (valid_date c.as_of)
        || lt c.period_end c.period_start
        || lt c.as_of c.period_end)
      invalid

abbrev pub blank : Question → Answer
blank q = record {
  question_id = q.id;
  status = unanswered;
  owner = "";
  notes = "";
  evidence_ref = "";
  evidence_date = "";
  reviewer = "";
  due_date = "";
}

unfoldable pub draft : Catalog → Framework → Context → Response
draft catalog framework context = record {
  schema_version = version;
  catalog_version = catalog.version;
  framework_id = framework.id;
  context = context;
  answers = map blank framework.questions;
}

unfoldable pub validate_answer : Answer → Context → Bool
validate_answer a c =
    text a.owner 128
    && text a.reviewer 128
    && text a.notes 4000
    && (is_blank a.evidence_ref || identifier a.evidence_ref)
    && (is_blank a.evidence_date || valid_date a.evidence_date)
    && le a.evidence_date c.as_of
    && (is_blank a.due_date || valid_date a.due_date)

abbrev pub context_eq : Context → Context → Bool
context_eq a b =
    a.customer_id == b.customer_id
    && a.assessment_id == b.assessment_id
    && a.scope == b.scope
    && a.period_start == b.period_start
    && a.period_end == b.period_end
    && a.as_of == b.as_of

abbrev pub known_question : List String → Answer → Result (Unit {0})
known_question known a = reject_if (not (contains a.question_id known)) invalid

abbrev pub valid_answer : Context → Answer → Result (Unit {0})
valid_answer context a = reject_if (not (validate_answer a context)) invalid

unfoldable pub validate : Catalog → Framework → Context → Response → Result (Unit {0})
unfolding validate_context validate_answer
validate catalog framework context response = do
  validate_context context
  reject_if
      (not (response.schema_version == version)
        || not (response.catalog_version == catalog.version)
        || not (response.framework_id == framework.id)
        || not (context_eq response.context context)
        || ltb (length framework.questions) (length response.answers))
      invalid
  _ ←
      for_unique (λ a. a.question_id)
        (known_question (set_of [] (map (λ q. q.id) framework.questions))) invalid
        (valid_answer context) [] response.answers
  ok tt
